-- ===== src/AacContext/Invariant.antt =====
-- Each operation on the contexts leaves them sound and distinct.
use doublefetch.Base.{
  ℕ, suc, ◌-◌, ◌%◌, ◌≡◌, ◌<◌, Bool, true, Option, none, some, List, [], ◌∷◌, ◌++◌, length, arith,
  Bool-cases, Option-cases, inl, inr, sym, pos, subst, refl, err, einval, reverse_aux,
}
use doublefetch.AacContext.{
  Context, Device, Request, word, drop_context, replace_context, find_context, fresh_context,
  open_context, return_fib, next_fib, close_fib, close_context, deliver, pop_fib, stamped, revive,
}
use doublefetch.AacContext.Unique.{find_unique_total}
use doublefetch.AacContext.Sound.{
  IsSound, AllSound, AllSound-append, AllSound-replace, AllSound-drop, is_taken-drop,
  find_context-none, find_context-IsSound,
}

AllSound-stamped :
    (r : Request) (x : Context) (d : Device)
    → IsSound x
    → AllSound d.contexts
    → AllSound (stamped r x d).contexts
AllSound-stamped r x d s a =
    AllSound-replace x.unique (record x { stamp = r.now }) d.contexts refl s a

AllSound-pop_fib :
    (r : Request) (f : ℕ) (fs : List ℕ) (x : Context) (d : Device)
    → x.fibs ≡ f ∷ fs
    → IsSound x
    → AllSound d.contexts
    → AllSound (pop_fib r f fs x d).1.contexts
AllSound-pop_fib r f fs x d e s a =
    let y : Context = record x { fibs = fs; count = x.count - 1 } in
    let t : IsSound y = (ground arith, s.1, s.2) in
    let g : Device = record d { freed = f ∷ d.freed } in
    let kept = replace_context x.unique y d.contexts in
    elim (Bool-cases r.given) [
      | inl on ↦
          let done : (pop_fib r f fs x d).1.contexts ≡ (stamped r y g).contexts = ground arith in
          subst AllSound (sym done) (AllSound-stamped r y g t a)
      | inr off ↦
          let done : (pop_fib r f fs x d).1.contexts ≡ kept = ground arith in
          subst AllSound (sym done) (AllSound-replace x.unique y d.contexts refl t a)
    ]

AllSound-return_fib :
    (r : Request) (events : List (List ℕ)) (fibs : List ℕ) (x : Context) (d : Device)
    → x.fibs ≡ fibs
    → IsSound x
    → AllSound d.contexts
    → AllSound (return_fib r events fibs x d).1.contexts
unfolding return_fib
AllSound-return_fib r [] (f ∷ fs) x d e s a = AllSound-pop_fib r f fs x d e s a
AllSound-return_fib r (new ∷ later) (f ∷ fs) x d e s a = AllSound-pop_fib r f fs x d e s a
AllSound-return_fib r [] [] x d e s a = AllSound-stamped r x d s a
AllSound-return_fib r (new ∷ later) [] x d e s a =
    let rest =
      AllSound-return_fib r later new (deliver new x) (revive r d) refl (refl, s.1, s.2) a in
    elim (Bool-cases r.wait) [
      | inl on ↦
          let done : return_fib r (new ∷ later) [] x d
              ≡ return_fib r later new (deliver new x) (revive r d) =
            ground arith in
          subst (λ p. AllSound p.1.contexts) (sym done) rest
      | inr off ↦
          let done : (return_fib r (new ∷ later) [] x d).1.contexts ≡ (stamped r x d).contexts =
            ground arith in
          subst AllSound (sym done) (AllSound-stamped r x d s a)
    ]

pub next_fib-free :
    (r : Request) (events : List (List ℕ)) (u : ℕ) (d : Device)
    → find_context u d.contexts ≡ none
    → next_fib r events (some u) d ≡ (err einval, d)
unfolding next_fib
next_fib-free r events u d e = ground arith

pub next_fib-found :
    (r : Request) (events : List (List ℕ)) (u : ℕ) (x : Context) (d : Device)
    → find_context u d.contexts ≡ some x
    → AllSound d.contexts
    → next_fib r events (some u) d ≡ return_fib r events x.fibs x d
unfolding next_fib
next_fib-found r events u x d e a =
    let (same, s) = find_context-IsSound u d.contexts x e a in
    let typed : x.is_typed ≡ true = s.1 in let sized : x.is_sized ≡ true = s.2 in ground arith

-- Where the contexts are sound (every count is the number of fibs that wait) and their identifiers
-- distinct, `next_getadapter_fib` leaves them so, whatever the request and whatever fibs arrive while
-- it waits.
pub AllSound-next_fib :
    (r : Request) (events : List (List ℕ)) (request : Option ℕ) (d : Device)
    → AllSound d.contexts
    → AllSound (next_fib r events request d).1.contexts
unfolding next_fib
AllSound-next_fib r events none d a = a
AllSound-next_fib r events (some u) d a = elim (Option-cases (find_context u d.contexts)) [
  | inl e ↦ subst (λ p. AllSound p.1.contexts) (sym (next_fib-free r events u d e)) a
  | inr (x, e) ↦
      let (same, s) = find_context-IsSound u d.contexts x e a in
      subst (λ p. AllSound p.1.contexts) (sym (next_fib-found r events u x d e a))
        (AllSound-return_fib r events x.fibs x d refl s a)
]

-- With fewer than 2 ^ 32 contexts that are sound and have distinct identifiers, `open_getadapter_fib`
-- leaves contexts that are sound and have distinct identifiers, with memory or without.
pub AllSound-open_context :
    (place : Option ℕ) (gave : Bool) (now : ℕ) (d : Device)
    → length d.contexts < word
    → AllSound d.contexts
    → AllSound (open_context place gave now d).1.contexts
unfolding open_context
AllSound-open_context none gave now d h a = a
AllSound-open_context (some p) gave now d h a =
    let (u, e, free) =
      find_unique_total (suc (length d.contexts)) (p % word) d.contexts (omega arith) (omega arith)
        (omega arith) in
    let done : (open_context (some p) gave now d).1.contexts
        ≡ d.contexts ++ (fresh_context u now ∷ []) =
      ground arith in
    subst AllSound (sym done)
      (AllSound-append (fresh_context u now) d.contexts free (refl, refl, refl) a)

pub close_fib-free :
    (arg : ℕ) (d : Device)
    → find_context (arg % word) d.contexts ≡ none
    → close_fib arg d ≡ (pos 0, d)
unfolding close_fib
close_fib-free arg d e = ground arith

pub close_fib-found :
    (arg : ℕ) (d : Device) (x : Context)
    → find_context (arg % word) d.contexts ≡ some x
    → AllSound d.contexts
    → close_fib arg d ≡ (
      pos 0,
      record d {
        contexts = drop_context (arg % word) d.contexts;
        freed = reverse_aux x.fibs d.freed;
      },
    )
unfolding close_fib close_context
close_fib-found arg d x e a =
    let (same, s) = find_context-IsSound (arg % word) d.contexts x e a in
    let typed : x.is_typed ≡ true = s.1 in let sized : x.is_sized ≡ true = s.2 in ground arith

-- Where the contexts are sound and their identifiers distinct, `close_getadapter_fib` returns 0 and
-- leaves them so, and afterwards no context has the identifier.
pub AllSound-close_fib :
    (arg : ℕ) (d : Device)
    → AllSound d.contexts
    → (AllSound (close_fib arg d).1.contexts)
      × (find_context (arg % word) (close_fib arg d).1.contexts ≡ none)
      × ((close_fib arg d).0 ≡ pos 0)
AllSound-close_fib arg d a = elim (Option-cases (find_context (arg % word) d.contexts)) [
  | inl e ↦
      subst
        (λ p.
          (AllSound p.1.contexts) × (find_context (arg % word) p.1.contexts ≡ none) × (p.0 ≡ pos 0))
        (sym (close_fib-free arg d e)) (a, e, refl)
  | inr (x, e) ↦
      subst
        (λ p.
          (AllSound p.1.contexts) × (find_context (arg % word) p.1.contexts ≡ none) × (p.0 ≡ pos 0))
        (sym (close_fib-found arg d x e a))
        (
          AllSound-drop (arg % word) d.contexts a,
          find_context-none (arg % word) (drop_context (arg % word) d.contexts)
              (is_taken-drop (arg % word) d.contexts a),
          refl,
        )
]
