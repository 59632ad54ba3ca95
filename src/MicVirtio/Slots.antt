-- ===== src/MicVirtio/Slots.antt =====
-- Where a search of the device page ends, and what a store of a descriptor leaves of it.
use doublefetch.Base.{
  ℕ, zero, suc, ◌+◌, ◌≡◌, ◌≤◌, ◌<◌, false, [], ◌∷◌, ◌++◌, Bytes, length, get_or, set, take, drop,
  overwrite, ltb, ◌==◌, ◌||◌, arith, Bool-cases, inl, inr, sym, ◌∙◌, ap, subst, refl,
  length-overwrite, length-append, length-take, length-drop, get_or-take, get_or-set_ne,
  take-append, take-take, take-overwrite, ◌⊎◌,
}
use doublefetch.MicVirtio.{
  header_size, desc_type, desc_size, total_desc_size, Slot, found, full, astray, find_slot,
  store_at,
}

-- Where the search can end: not outside the page, and before its bound
abbrev pub Ends : ℕ → ℕ → Slot → Type 0
Ends limit i astray = ⊥
Ends limit i full = Unit
Ends limit i (found j) = (i ≤ j) × (j < limit)

Ends-later : (limit i j : ℕ) (s : Slot) → i ≤ j → Ends limit j s → Ends limit i s
Ends-later limit i j astray h e = e
Ends-later limit i j full h e = e
Ends-later limit i j (found l) h e = omega arith

pub Slot-cases : (s : Slot) → (s ≡ full) ⊎ (s ≡ astray) ⊎ ((i : ℕ) × (s ≡ found i))
Slot-cases full = inl refl
Slot-cases astray = inr (inl refl)
Slot-cases (found i) = inr (inr (i, refl))

pub find_slot-Ends :
    (n limit i : ℕ) (page : Bytes)
    → limit + header_size ≤ length page
    → 0 < n
    → limit < i + n
    → Ends limit i (find_slot n limit i page)
unfolding find_slot
find_slot-Ends zero limit i page room some_left fuel = absurd (omega arith)
find_slot-Ends (suc n) limit i page room some_left fuel =
    let d = drop i page in
    let next = i + total_desc_size d in
    elim (Bool-cases (ltb i limit)) [
      | inr past ↦
          let e : find_slot (suc n) limit i page ≡ full = ground arith in
          subst (Ends limit i) (sym e) tt
      | inl before ↦
          let inside : ltb (length page) (i + header_size) ≡ false = ground arith in
          elim (Bool-cases ((desc_type d == 0) || (desc_type d == 255))) [
            | inl free ↦
                let e : find_slot (suc n) limit i page ≡ found i = ground arith in
                subst (Ends limit i) (sym e) (omega arith, ground arith)
            | inr used ↦
                let e : find_slot (suc n) limit i page ≡ find_slot n limit next page =
                  ground arith in
                subst (Ends limit i) (sym e) (
                  Ends-later limit i next (find_slot n limit next page) (omega arith)
                    (find_slot-Ends n limit next page room (ground arith) (ground arith)))
          ]
    ]

-- The size of a descriptor is read from its header.
pub desc_size-local :
    (a b : Bytes) → take header_size a ≡ take header_size b → desc_size a ≡ desc_size b
unfolding desc_size
desc_size-local a b e = omega (
  arith,
  get_or-take header_size a 1 0 (omega arith),
  get_or-take header_size a 2 0 (omega arith),
  get_or-take header_size a 3 0 (omega arith),
  get_or-take header_size b 1 0 (omega arith),
  get_or-take header_size b 2 0 (omega arith),
  get_or-take header_size b 3 0 (omega arith),
  ap (λ t. get_or t 1 0) e,
  ap (λ t. get_or t 2 0) e,
  ap (λ t. get_or t 3 0) e,
)

pub header-le-desc_size : (d : Bytes) → header_size ≤ desc_size d
unfolding desc_size
header-le-desc_size d = omega arith

pub desc_size-set : (config : Bytes) → desc_size (set config 0 0) ≡ desc_size config
unfolding desc_size
desc_size-set config = omega (
  arith,
  get_or-set_ne config 0 1 0 0 (omega arith),
  get_or-set_ne config 0 2 0 0 (omega arith),
  get_or-set_ne config 0 3 0 0 (omega arith),
)

drop_prefix : (xs ys : Bytes) (n : ℕ) → length xs ≡ n → drop n (xs ++ ys) ≡ ys
drop_prefix [] ys zero e = refl
drop_prefix [] ys (suc n) e = absurd (omega arith)
drop_prefix (x ∷ xs) ys zero e = absurd (omega arith)
drop_prefix (x ∷ xs) ys (suc n) e = drop_prefix xs ys n (omega arith)

-- A page with a descriptor stored in it
module _ (i : ℕ) (bytes page : Bytes) (room : i + length bytes ≤ length page) where
  at_place : length (take i page) ≡ i
  at_place = omega (arith, length-take i page)

  pub length-store_at : length (store_at i bytes page) ≡ length page
  length-store_at = omega (
    arith,
    at_place,
    length-append (take i page) (overwrite (drop i page) bytes),
    length-overwrite (drop i page) bytes (omega (arith, length-drop i page)),
    length-drop i page,
  )

  pub take-store_at : take i (store_at i bytes page) ≡ take i page
  take-store_at =
      take-append i (take i page) (overwrite (drop i page) bytes) (omega (arith, at_place))
      ∙ take-take i i page (omega arith)

  pub desc_size-store_at :
      header_size ≤ length bytes → desc_size (drop i (store_at i bytes page)) ≡ desc_size bytes
  desc_size-store_at long =
      ap desc_size (drop_prefix (take i page) (overwrite (drop i page) bytes) i at_place)
      ∙ desc_size-local (overwrite (drop i page) bytes) bytes
          (take-overwrite header_size (drop i page) bytes long)
