-- ===== src/AacContext.antt =====
-- The contexts through which user space reads the events of an aacraid adapter:
-- `open_getadapter_fib`, `next_getadapter_fib`, `aac_close_fib_context` and `close_getadapter_fib` of
-- auto_fix/patched_files/2-patched-commctrl.c.
pub mod Unique
pub mod Sound
pub mod Invariant
pub mod Queue
mod Tests
use doublefetch.Base.{
  ℕ, zero, suc, ◌+◌, ◌-◌, ◌%◌, ◌≡◌, Bool, true, false, Option, none, some, List, [], ◌∷◌, ◌++◌,
  reverse_aux, Bytes, ℤ, pos, err, efault, einval, enomem, eagain, erestartsys, ◌==◌, ◌||◌,
  if◌then◌else◌, length, not,
}

-- `struct aac_fib_context`: a fib that waits is named by a number. `is_typed` stands for the type
-- FSAFS_NTC_GET_ADAPTER_FIB_CONTEXT and `is_sized` for the size of the structure.
pub record Context : Type 0 where
  pub unique : ℕ
  pub is_typed : Bool
  pub is_sized : Bool
  pub count : ℕ
  pub fibs : List ℕ
  pub stamp : ℕ  -- jiffies

-- `struct aac_dev`, as far as the contexts go: the list, oldest first, and the fibs freed so far.
pub record Device : Type 0 where
  pub contexts : List Context
  pub freed : List ℕ
  pub restarts : ℕ  -- of the thread that delivers events

abbrev pub word : ℕ
word = 4294967296

-- Whether a context of the list has the identifier.
abbrev pub is_taken : ℕ → List Context → Bool
is_taken u [] = false
is_taken u (x ∷ xs) = (x.unique == u) || is_taken u xs

-- The search of `open_getadapter_fib`: from an identifier on, counting up in 32 bits each time that
-- one is taken, when the scan starts again. The fuel bounds the scans.
unfoldable pub find_unique : ℕ → ℕ → List Context → Option ℕ
find_unique zero u l = none
find_unique (suc n) u l = elim (is_taken u l) [
  | false ↦ some u
  | true ↦ find_unique n ((u + 1) % word) l
]

abbrev pub fresh_context : ℕ → ℕ → Context
fresh_context u now = record {
  unique = u;
  is_typed = true;
  is_sized = true;
  count = 0;
  fibs = [];
  stamp = now;
}

-- `open_getadapter_fib`: `place` is the address of the new structure, if there is memory for it, and
-- `gave` whether the identifier could be copied to the user. The list of n contexts wants n + 1 scans
-- at most.
unfoldable pub open_context : Option ℕ → Bool → ℕ → Device → ℤ × Device
unfolding find_unique
open_context place gave now d = elim place [
  | none ↦ (err enomem, d)
  | some address ↦ elim (find_unique (suc (length d.contexts)) (address % word) d.contexts) [
    | none ↦ (err enomem, d)
    | some u ↦ (
      (if gave then pos 0 else err efault),
      record d { contexts = d.contexts ++ (fresh_context u now ∷ []) },
    )
  ]
]

-- The scan for a context by its identifier.
abbrev pub find_context : ℕ → List Context → Option Context
find_context u [] = none
find_context u (x ∷ xs) = if x.unique == u then some x else find_context u xs

-- The first context of the identifier is replaced, or dropped.
abbrev pub replace_context : ℕ → Context → List Context → List Context
replace_context u y [] = []
replace_context u y (x ∷ xs) = if x.unique == u then y ∷ xs else x ∷ replace_context u y xs

abbrev pub drop_context : ℕ → List Context → List Context
drop_context u [] = []
drop_context u (x ∷ xs) = if x.unique == u then xs else x ∷ drop_context u xs

abbrev pub deliver : List ℕ → Context → Context
deliver new x = record x { fibs = new; count = length new }

-- What a call of `next_getadapter_fib` is run with: `wait` of the request, whether the fib can be
-- copied to the user, whether the thread that delivers is gone and may be restarted, and the time.
pub record Request : Type 0 where
  pub wait : Bool
  pub given : Bool
  pub gone : Bool
  pub now : ℕ

module _ (r : Request) where
  abbrev pub stamped : Context → Device → Device
  stamped x d = record d {
    contexts = replace_context x.unique (record x { stamp = r.now }) d.contexts;
  }

  -- The oldest fib goes to the user, and is freed whether or not that works.
  abbrev pub pop_fib : ℕ → List ℕ → Context → Device → ℤ × Device
  pop_fib f fs x d =
      if r.given
      then (
        pos 0,
        stamped (record x { fibs = fs; count = x.count - 1 }) (record d { freed = f ∷ d.freed }),
      )
      else (
        err efault,
        record d {
          freed = f ∷ d.freed;
          contexts =
              replace_context x.unique (record x { fibs = fs; count = x.count - 1 }) d.contexts;
        },
      )

  -- The thread is restarted.
  abbrev pub revive : Device → Device
  revive d = record d { restarts = if r.gone then d.restarts + 1 else d.restarts }

  -- From `return_fib` on, for the context that was found. Each wait that is not interrupted brings
  -- the next list of fibs; past the last list it is interrupted. Nothing else changes while it waits.
  unfoldable pub return_fib : List (List ℕ) → List ℕ → Context → Device → ℤ × Device
  return_fib [] (f ∷ fs) x d = pop_fib f fs x d
  return_fib (new ∷ later) (f ∷ fs) x d = pop_fib f fs x d
  return_fib [] [] x d = (if r.wait then err erestartsys else err eagain, stamped x (revive d))
  return_fib (new ∷ later) [] x d = elim r.wait [
    | true ↦ return_fib later new (deliver new x) (revive d)
    | false ↦ (err eagain, stamped x (revive d))
  ]

  -- `next_getadapter_fib`, for the identifier in the request, where that could be read.
  unfoldable pub next_fib : List (List ℕ) → Option ℕ → Device → ℤ × Device
  unfolding return_fib
  next_fib events request d = elim request [
    | none ↦ (err efault, d)
    | some u ↦ elim (find_context u d.contexts) [
      | none ↦ (err einval, d)
      | some x ↦ elim (not x.is_typed || not x.is_sized) [
        | true ↦ (err einval, d)
        | false ↦ return_fib events x.fibs x d
      ]
    ]
  ]

-- `aac_close_fib_context`: the fibs are freed, oldest first, and the context leaves the list.
unfoldable pub close_context : Context → Device → Device
close_context x d = record d {
  contexts = drop_context x.unique d.contexts;
  freed = reverse_aux x.fibs d.freed;
}

-- `close_getadapter_fib`
unfoldable pub close_fib : ℕ → Device → ℤ × Device
unfolding close_context
close_fib arg d = elim (find_context (arg % word) d.contexts) [
  | none ↦ (pos 0, d)
  | some x ↦ elim (not x.is_typed || not x.is_sized) [
    | true ↦ (err einval, d)
    | false ↦ (pos 0, close_context x d)
  ]
]
