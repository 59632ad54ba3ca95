-- ===== src/FibPool/Chain.antt =====
-- The list of free fibs as a list, and who has which fib.
use doublefetch.Base.{
  ℕ, zero, suc, ◌+◌, ◌-◌, ◌≡◌, ◌<◌, true, false, Option, none, some, List, [], ◌∷◌, ◌++◌, ltb, ◌==◌,
  if◌then◌else◌, arith, Option-cases, inl, inr, refl, sym, subst, ap,
}
use doublefetch.FibPool.{Pool, update, forward, set_up, fib_alloc, fib_free}

-- The fibs from a pointer on, through `next`
abbrev pub IsChain : (ℕ → Option ℕ) → Option ℕ → List ℕ → Type 0
IsChain next p [] = p ≡ none
IsChain next p (x ∷ xs) = (p ≡ some x) × IsChain next (next x) xs

-- How often a fib stands in a list
abbrev pub times : ℕ → List ℕ → ℕ
times y [] = 0
times y (x ∷ xs) = if y == x then suc (times y xs) else times y xs

times-append : (y : ℕ) (xs ys : List ℕ) → times y (xs ++ ys) ≡ times y xs + times y ys
times-append y [] ys = omega arith
times-append y (x ∷ xs) ys = let ih = times-append y xs ys in ground arith

abbrev pub fibs_from : (n i : ℕ) → List ℕ
fibs_from zero i = []
fibs_from (suc n) i = i ∷ fibs_from n (i + 1)

IsChain-forward : (n i k : ℕ) → i + suc k ≡ n → IsChain (forward n) (some i) (fibs_from (suc k) i)
IsChain-forward n i zero h = (refl, ground arith)
IsChain-forward n i (suc k) h =
    let to : forward n i ≡ some (i + 1) = ground arith in
    (
      refl,
      subst (λ p. IsChain (forward n) p (fibs_from (suc k) (i + 1))) (sym to)
          (IsChain-forward n (i + 1) k (omega arith)),
    )

times-fibs_from :
    (y n i : ℕ) → times y (fibs_from n i) ≡ (if ltb y i then 0 else if ltb y (i + n) then 1 else 0)
times-fibs_from y zero i = ground arith
times-fibs_from y (suc n) i = let ih = times-fibs_from y n (i + 1) in ground arith

-- A fib that is not in the list may point anywhere.
IsChain-update :
    (next : ℕ → Option ℕ) (x : ℕ) (v p : Option ℕ) (l : List ℕ)
    → times x l ≡ 0
    → IsChain next p l
    → IsChain (update next x v) p l
IsChain-update next x v p [] h c = c
IsChain-update next x v p (y ∷ l) h (at, c) =
    let same : update next x v y ≡ next y = ground arith in
    (
      at,
      subst (λ r. IsChain (update next x v) r l) (sym same)
          (IsChain-update next x v (next y) l (ground arith) c),
    )

IsChain-some :
    (next : ℕ → Option ℕ) (p : Option ℕ) (x : ℕ) (l : List ℕ)
    → p ≡ some x
    → IsChain next p l
    → (r : List ℕ) × (l ≡ x ∷ r) × IsChain next (next x) r
IsChain-some next p x [] at c = absurd (ground arith)
IsChain-some next p x (y ∷ l) at (is, c) =
    let same : y ≡ x = ground arith in
    (l, ap (λ z. z ∷ l) same, subst (λ z. IsChain next (next z) l) same c)

-- What the driver does with the fibs after `aac_fib_setup`: who holds one has got it and not freed it; a fib
-- whose wait has ended by itself is abandoned when it is freed.
pub data Uses (n : ℕ) : (held gone : List ℕ) → Pool → Type 0 where
  begin : (p : Pool) → Uses n [] [] (set_up n p)
  obtain :
      {held gone : List ℕ} {p : Pool} (x : ℕ)
      → (fib_alloc p).0 ≡ some x
      → Uses n held gone p
      → Uses n (x ∷ held) gone (fib_alloc p).1
  release :
      {held gone : List ℕ} {p : Pool} (x : ℕ) (xs ys : List ℕ)
      → held ≡ xs ++ (x ∷ ys)
      → p.is_timed_out x ≡ false
      → Uses n held gone p
      → Uses n (xs ++ ys) gone (fib_free x p)
  abandon :
      {held gone : List ℕ} {p : Pool} (x : ℕ) (xs ys : List ℕ)
      → held ≡ xs ++ (x ∷ ys)
      → p.is_timed_out x ≡ true
      → Uses n held gone p
      → Uses n (xs ++ ys) (x ∷ gone) (fib_free x p)
  expire :
      {held gone : List ℕ} {p : Pool} (x : ℕ)
      → Uses n held gone p
      → Uses n held gone (record p { is_timed_out = update p.is_timed_out x true })

-- The list of free fibs is a chain that ends, and each fib of the adapter is in exactly one place.
abbrev pub Split : ℕ → List ℕ → List ℕ → Pool → Type 0
Split n held gone p =
    (l : List ℕ) × IsChain p.next p.free l
    × ((y : ℕ) → times y l + times y held + times y gone ≡ (if ltb y n then 1 else 0))

times-remove :
    (y x : ℕ) (xs ys held : List ℕ)
    → held ≡ xs ++ (x ∷ ys)
    → times y held ≡ times y (xs ++ ys) + times y (x ∷ [])
times-remove y x xs ys held is =
    let a = times-append y xs ys in
    let b = times-append y xs (x ∷ ys) in
    let c : times y held ≡ times y (xs ++ (x ∷ ys)) = ap (times y) is in ground arith

Split-fib_alloc :
    (n x : ℕ) (held gone : List ℕ) (p : Pool)
    → (fib_alloc p).0 ≡ some x
    → Split n held gone p
    → Split n (x ∷ held) gone (fib_alloc p).1
unfolding fib_alloc
Split-fib_alloc n x held gone p got (l, chain, all) = elim (Option-cases p.free) [
  | inl none_left ↦ absurd (ground arith)
  | inr (z, at) ↦
      (let same : z ≡ x = ground arith in
        let q = record p {
          free = p.next x;
          state = update p.state x 0;
          has_timed_out = update p.has_timed_out x false;
        } in
        let step : (fib_alloc p).1 ≡ q = ground arith in
        let (r, is, rest) = IsChain-some p.next p.free x l (ground arith) chain in
        subst (Split n (x ∷ held) gone) (sym step) (
          r,
          rest,
          λ y.
              (let t = all y in
                let e : times y l ≡ times y (x ∷ r) = ap (times y) is in ground arith),
        ))
]

-- A fib that is held is not in the list.
release_lem :
    (n x : ℕ) (xs ys held gone : List ℕ) (p : Pool)
    → held ≡ xs ++ (x ∷ ys)
    → p.is_timed_out x ≡ false
    → Split n held gone p
    → Split n (xs ++ ys) gone (fib_free x p)
unfolding fib_free
release_lem n x xs ys held gone p is in_time (l, chain, all) =
    let one = times-remove x x xs ys held is in
    let t = all x in
    let away : times x l ≡ 0 = ground arith in
    let q = record p {
      free = some x;
      next = update p.next x p.free;
      timeouts = if p.has_timed_out x then p.timeouts + 1 else p.timeouts;
    } in
    let step : fib_free x p ≡ q = ground arith in
    let to : update p.next x p.free x ≡ p.free = ground arith in
    subst (Split n (xs ++ ys) gone) (sym step) (
      x ∷ l,
      (
        refl,
        subst (λ r. IsChain (update p.next x p.free) r l) (sym to)
            (IsChain-update p.next x p.free p.free l away chain),
      ),
      λ y. (let u = all y in let v = times-remove y x xs ys held is in ground arith),
    )

abandon_lem :
    (n x : ℕ) (xs ys held gone : List ℕ) (p : Pool)
    → held ≡ xs ++ (x ∷ ys)
    → p.is_timed_out x ≡ true
    → Split n held gone p
    → Split n (xs ++ ys) (x ∷ gone) (fib_free x p)
unfolding fib_free
abandon_lem n x xs ys held gone p is late (l, chain, all) =
    let step : fib_free x p ≡ p = ground arith in
    subst (Split n (xs ++ ys) (x ∷ gone)) (sym step)
      (l, chain, λ y. (let u = all y in let v = times-remove y x xs ys held is in ground arith))

-- However the fibs of an adapter are obtained and freed by those who hold them, the free list is a chain that
-- ends, and each fib is either free, held once, or abandoned after its wait timed out; so no fib is given to
-- two.
pub Split-Uses :
    (n : ℕ) (held gone : List ℕ) (p : Pool) → 0 < n → Uses n held gone p → Split n held gone p
unfolding set_up
Split-Uses n held gone p some_fib (begin p0) = (
  fibs_from n 0,
  subst (λ m. IsChain (forward n) (some 0) (fibs_from m 0))
      (let is : suc (n - 1) ≡ n = omega arith in is) (IsChain-forward n 0 (n - 1) (omega arith)),
  λ y. (let t = times-fibs_from y n 0 in ground arith),
)
Split-Uses n held gone p some_fib (obtain {held = hs} {p = q} x got run) =
    Split-fib_alloc n x hs gone q got (Split-Uses n hs gone q some_fib run)
Split-Uses n held gone p some_fib (release {held = hs} {p = q} x xs ys is in_time run) =
    release_lem n x xs ys hs gone q is in_time (Split-Uses n hs gone q some_fib run)
Split-Uses n held gone p some_fib (abandon {held = hs} {gone = gs} {p = q} x xs ys is late run) =
    abandon_lem n x xs ys hs gs q is late (Split-Uses n hs gs q some_fib run)
Split-Uses n held gone p some_fib (expire {p = q} x run) = Split-Uses n held gone q some_fib run
