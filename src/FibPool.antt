-- ===== src/FibPool.antt =====
-- The fibs of an adapter: `fib_map_alloc`, `aac_fib_map_free`, `aac_fib_setup`, `aac_fib_alloc` and
-- `aac_fib_free` of cocci/testdir/truecases/commsup.c.
pub mod Chain
pub mod Area
mod Tests
use doublefetch.Base.{
  ℕ, zero, suc, ◌+◌, ◌-◌, ◌*◌, ◌/◌, ◌%◌, ◌≡◌, Bool, true, false, Option, none, some, List, [], ◌∷◌,
  ltb, ◌==◌, ◌&&◌, not, if◌then◌else◌, ℤ, pos, err, enomem,
}

-- The list of free fibs, through the field `next`, with what a fib keeps of its use
pub record Pool : Type 0 where
  pub free : Option ℕ
  pub next : ℕ → Option ℕ
  pub is_timed_out : ℕ → Bool  -- done == 2
  pub state : ℕ → ℕ  -- XferState
  pub timeouts : ℕ  -- aac_config.fib_timeouts
  pub has_timed_out : ℕ → Bool  -- FIB_CONTEXT_FLAG_TIMED_OUT

abbrev pub update {ℓ} : {A : Type ℓ} → (ℕ → A) → ℕ → A → ℕ → A
update f x v y = if y == x then v else f y

-- The chain that `aac_fib_setup` makes of a number of fibs
abbrev pub forward : ℕ → ℕ → Option ℕ
forward n i = if ltb (i + 1) n then some (i + 1) else none

unfoldable pub set_up : ℕ → Pool → Pool
set_up n p = record p {
  free = some 0;
  next = forward n;
  state = λ i. 4294967295;
  has_timed_out = λ i. false;
}

-- `aac_fib_alloc`
unfoldable pub fib_alloc : Pool → Option ℕ × Pool
fib_alloc p = elim p.free [
  | none ↦ (none, p)
  | some x ↦ (
    some x,
    record p {
      free = p.next x;
      state = update p.state x 0;
      has_timed_out = update p.has_timed_out x false;
    },
  )
]

-- `aac_fib_free`
unfoldable pub fib_free : ℕ → Pool → Pool
fib_free x p = elim (p.is_timed_out x) [
  | true ↦ p
  | false ↦ record p {
    free = some x;
    next = update p.next x p.free;
    timeouts = if p.has_timed_out x then p.timeouts + 1 else p.timeouts;
  }
]
