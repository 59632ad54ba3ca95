-- ===== src/AacContext/Queue.antt =====
-- The fibs of a context leave it oldest first, and each of them once.
use doublefetch.Base.{
  ℕ, zero, suc, ◌+◌, ◌-◌, ◌%◌, ◌≡◌, ◌<◌, Bool, true, false, none, some, List, [], ◌∷◌, ◌++◌, length,
  arith, Bool-cases, Option-cases, inl, inr, sym, ◌∙◌, pos, subst, refl, ap, reverse_aux,
}
use doublefetch.AacContext.{
  Context, Device, Request, word, is_taken, find_unique, drop_context, replace_context,
  find_context, fresh_context, open_context, return_fib, next_fib, close_fib,
}
use doublefetch.AacContext.Unique.{find_unique_total}
use doublefetch.AacContext.Sound.{
  IsSound, AllSound, AllSound-replace, find_context-none, find_context-IsSound,
}
use doublefetch.AacContext.Invariant.{
  close_fib-found, next_fib-free, next_fib-found, AllSound-open_context,
}

find_unique_bound :
    (n u v : ℕ) (l : List Context) → u < word → find_unique n u l ≡ some v → v < word
unfolding find_unique
find_unique_bound zero u v l h e = absurd (ground arith)
find_unique_bound (suc n) u v l h e =
    ground (arith, find_unique_bound n ((u + 1) % word) v l (omega arith))

find_context-append :
    (u now : ℕ) (l : List Context)
    → is_taken u l ≡ false
    → find_context u (l ++ (fresh_context u now ∷ [])) ≡ some (fresh_context u now)
find_context-append u now [] h = ground arith
find_context-append u now (x ∷ xs) h = ground (arith, find_context-append u now xs)

drop_context-append :
    (u now : ℕ) (l : List Context)
    → is_taken u l ≡ false
    → drop_context u (l ++ (fresh_context u now ∷ [])) ≡ l
drop_context-append u now [] h = ground arith
drop_context-append u now (x ∷ xs) h = ground (arith, drop_context-append u now xs)

find_context-replace :
    (u : ℕ) (x y : Context) (l : List Context)
    → y.unique ≡ u
    → find_context u l ≡ some x
    → find_context u (replace_context u y l) ≡ some y
find_context-replace u x y [] e h = absurd (ground arith)
find_context-replace u x y (z ∷ zs) e h = ground (arith, find_context-replace u x y zs e)

drop_context-replace :
    (u : ℕ) (y : Context) (l : List Context)
    → y.unique ≡ u
    → drop_context u (replace_context u y l) ≡ drop_context u l
drop_context-replace u y [] e = refl
drop_context-replace u y (z ∷ zs) e = ground (arith, drop_context-replace u y zs e)

-- With fewer than 2 ^ 32 contexts, sound and distinct, and memory for one more, there is an identifier
-- that no context has such that `close_getadapter_fib` by it, after `open_getadapter_fib`, gives back
-- the adapter as it was.
pub close_fib-open_context :
    (p : ℕ) (gave : Bool) (now : ℕ) (d : Device)
    → length d.contexts < word
    → AllSound d.contexts
    → (u : ℕ) × (find_context u d.contexts ≡ none)
      × (close_fib u (open_context (some p) gave now d).1 ≡ (pos 0, d))
unfolding open_context
close_fib-open_context p gave now d h a =
    let (u, e, free) =
      find_unique_total (suc (length d.contexts)) (p % word) d.contexts (omega arith) (omega arith)
        (omega arith) in
    let small : u < word =
      find_unique_bound (suc (length d.contexts)) (p % word) u d.contexts (omega arith) e in
    let same : u % word ≡ u = omega arith in
    let opened : Device = record d { contexts = d.contexts ++ (fresh_context u now ∷ []) } in
    let done : (open_context (some p) gave now d).1 ≡ opened = ground arith in
    let sound : AllSound opened.contexts =
      subst (λ z. AllSound z.contexts) done (AllSound-open_context (some p) gave now d h a) in
    let found : find_context (u % word) opened.contexts ≡ some (fresh_context u now) =
      subst (λ v. find_context v opened.contexts ≡ some (fresh_context u now)) (sym same)
        (find_context-append u now d.contexts free) in
    let dropped : drop_context (u % word) opened.contexts ≡ d.contexts =
      subst (λ v. drop_context v opened.contexts ≡ d.contexts) (sym same)
        (drop_context-append u now d.contexts free) in
    (
      u,
      find_context-none u d.contexts free,
      ap (close_fib u) done
          ∙ close_fib-found u opened (fresh_context u now) found sound
          ∙ ap (λ l. (pos 0, record d { contexts = l })) dropped,
    )

-- Closing after a context was replaced: what counts is which fibs are freed.
close_fib-replaced :
    (u : ℕ) (x y : Context) (freed : List ℕ) (d : Device)
    → find_context (u % word) d.contexts ≡ some x
    → AllSound d.contexts
    → y.unique ≡ u % word
    → IsSound y
    → reverse_aux y.fibs freed ≡ reverse_aux x.fibs d.freed
    → close_fib u (record d { contexts = replace_context (u % word) y d.contexts; freed = freed })
      ≡ close_fib u d
close_fib-replaced u x y freed d e a name s q =
    let after : Device = record d {
      contexts = replace_context (u % word) y d.contexts;
      freed = freed;
    } in
    let found = find_context-replace (u % word) x y d.contexts name e in
    close_fib-found u after y found (AllSound-replace (u % word) y d.contexts name s a)
    ∙ ap (λ l. (pos 0, record d { contexts = l; freed = reverse_aux y.fibs freed }))
        (drop_context-replace (u % word) y d.contexts name)
    ∙ ap (λ l. (pos 0, record d { contexts = drop_context (u % word) d.contexts; freed = l })) q
    ∙ sym (close_fib-found u d x e a)

return_fib-given :
    (r : Request) (events : List (List ℕ)) (f : ℕ) (fs : List ℕ) (x : Context) (d : Device) (u : ℕ)
    → x.unique ≡ u
    → x.count - 1 ≡ length fs
    → r.given ≡ true
    → return_fib r events (f ∷ fs) x d ≡ (
      pos 0,
      record d {
        contexts =
            replace_context u (record x { fibs = fs; count = length fs; stamp = r.now }) d.contexts;
        freed = f ∷ d.freed;
      },
    )
unfolding return_fib
return_fib-given r [] f fs x d u e c g = rw (g, e, c) refl
return_fib-given r (new ∷ later) f fs x d u e c g = rw (g, e, c) refl

-- Where the contexts are sound and distinct, a fib waits in the one that is asked for, and it can be
-- copied to the user, `next_getadapter_fib` returns 0, takes the oldest fib, frees it, and leaves the
-- younger ones in their order.
pub next_fib_oldest :
    (r : Request) (events : List (List ℕ)) (u f : ℕ) (fs : List ℕ) (x : Context) (d : Device)
    → AllSound d.contexts
    → find_context u d.contexts ≡ some x
    → x.fibs ≡ f ∷ fs
    → r.given ≡ true
    → ((next_fib r events (some u) d).0 ≡ pos 0)
      × ((next_fib r events (some u) d).1.freed ≡ f ∷ d.freed)
      × (find_context u (next_fib r events (some u) d).1.contexts
          ≡ some (record x { fibs = fs; count = length fs; stamp = r.now }))
unfolding next_fib
next_fib_oldest r events u f fs x d a e w g =
    let (same, s) = find_context-IsSound u d.contexts x e a in
    let y : Context = record x { fibs = fs; count = length fs; stamp = r.now } in
    let counted : x.count - 1 ≡ length fs = ground arith in
    let after : Device = record d {
      contexts = replace_context u y d.contexts;
      freed = f ∷ d.freed;
    } in
    let step : next_fib r events (some u) d ≡ (pos 0, after) =
      next_fib-found r events u x d e a
      ∙ ap (λ l. return_fib r events l x d) w
      ∙ return_fib-given r events f fs x d u same counted g in
    subst (λ p. (p.0 ≡ pos 0) × (p.1.freed ≡ f ∷ d.freed) × (find_context u p.1.contexts ≡ some y))
      (sym step) (refl, refl, find_context-replace u x y d.contexts same e)

return_fib-closed :
    (r : Request) (fibs : List ℕ) (u : ℕ) (x : Context) (d : Device)
    → x.fibs ≡ fibs
    → find_context (u % word) d.contexts ≡ some x
    → AllSound d.contexts
    → r.gone ≡ false
    → close_fib u (return_fib r [] fibs x d).1 ≡ close_fib u d
unfolding return_fib
return_fib-closed r [] u x d w e a g =
    let (same, s) = find_context-IsSound (u % word) d.contexts x e a in
    let y : Context = record x { stamp = r.now } in
    let step : (return_fib r [] [] x d).1
        ≡ record d { contexts = replace_context (u % word) y d.contexts } =
      rw (g, same) refl in
    ap (close_fib u) step ∙ close_fib-replaced u x y d.freed d e a same s refl
return_fib-closed r (f ∷ fs) u x d w e a g =
    let (same, s) = find_context-IsSound (u % word) d.contexts x e a in
    let freed = f ∷ d.freed in
    let t : x.count - 1 ≡ length fs = ground arith in
    let q : reverse_aux fs freed ≡ reverse_aux x.fibs d.freed =
      ap (λ l. reverse_aux l d.freed) (sym w) in
    let y : Context = record x { fibs = fs; count = x.count - 1 } in
    let z : Context = record y { stamp = r.now } in
    elim (Bool-cases r.given) [
      | inl on ↦
          let step : (return_fib r [] (f ∷ fs) x d).1
              ≡ record d { contexts = replace_context (u % word) z d.contexts; freed = freed } =
            rw (on, same) refl in
          ap (close_fib u) step ∙ close_fib-replaced u x z freed d e a same (t, s.1, s.2) q
      | inr off ↦
          let step : (return_fib r [] (f ∷ fs) x d).1
              ≡ record d { contexts = replace_context (u % word) y d.contexts; freed = freed } =
            rw (off, same) refl in
          ap (close_fib u) step ∙ close_fib-replaced u x y freed d e a same (t, s.1, s.2) q
    ]

-- Where the contexts are sound and distinct and the thread is not gone, `next_getadapter_fib` before
-- `close_getadapter_fib` of the same identifier changes nothing of the outcome when no fib arrives: the
-- same contexts are left, and the same fibs are freed, in the same order.
pub close_fib-next_fib :
    (r : Request) (u : ℕ) (d : Device)
    → AllSound d.contexts
    → r.gone ≡ false
    → close_fib u (next_fib r [] (some (u % word)) d).1 ≡ close_fib u d
close_fib-next_fib r u d a g = elim (Option-cases (find_context (u % word) d.contexts)) [
  | inl e ↦ ap (λ p. close_fib u p.1) (next_fib-free r [] (u % word) d e)
  | inr (x, e) ↦
      ap (λ p. close_fib u p.1) (next_fib-found r [] (u % word) x d e a)
      ∙ return_fib-closed r x.fibs u x d refl e a g
]
