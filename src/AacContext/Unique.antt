-- ===== src/AacContext/Unique.antt =====
-- The search for an identifier that no context has ends, and finds one.
use doublefetch.Base.{
  ℕ, zero, suc, ◌+◌, ◌%◌, ◌≡◌, ◌≢◌, ◌≤◌, ◌<◌, true, false, some, List, [], ◌∷◌, length, arith,
  Bool-cases, inl, inr, sym, ◌∙◌,
}
use doublefetch.AacContext.{Context, word, is_taken, find_unique, drop_context}

length-drop_context :
    (u : ℕ) (l : List Context) → is_taken u l ≡ true → length (drop_context u l) + 1 ≡ length l
length-drop_context u [] h = absurd (ground arith)
length-drop_context u (x ∷ xs) h = ground (arith, length-drop_context u xs)

-- Dropping a context of another identifier changes nothing.
pub is_taken-drop_ne :
    (u v : ℕ) (l : List Context) → u ≢ v → is_taken v (drop_context u l) ≡ is_taken v l
is_taken-drop_ne u v [] ne = ground arith
is_taken-drop_ne u v (x ∷ xs) ne = ground (arith, is_taken-drop_ne u v xs ne)

-- Where the search with n scans can still be, from `u` on, it does not meet `v`.
abbrev Misses : ℕ → ℕ → ℕ → Type 0
Misses v zero u = Unit
Misses v (suc n) u = (v ≢ u) × Misses v n ((u + 1) % word)

find_unique-drop :
    (n u v : ℕ) (l : List Context)
    → Misses v n u
    → find_unique n u (drop_context v l) ≡ find_unique n u l
unfolding find_unique
find_unique-drop zero u v l h = ground arith
find_unique-drop (suc n) u v l h =
    ground (arith, is_taken-drop_ne v u l h.0, find_unique-drop n ((u + 1) % word) v l h.1)

-- Fewer than 2 ^ 32 scans do not come back to where they began: `v` is k steps behind `u`.
Misses-behind : (v n k u : ℕ) → v < word → n + k ≤ word → 0 < k → u ≡ (v + k) % word → Misses v n u
Misses-behind v zero k u lv le pos_k e = tt
Misses-behind v (suc n) k u lv le pos_k e = (
  omega arith,
  Misses-behind v n (k + 1) ((u + 1) % word) lv (omega arith) (omega arith) (omega arith),
)

find_unique_free :
    (n u v : ℕ) (l : List Context) → find_unique n u l ≡ some v → is_taken v l ≡ false
unfolding find_unique
find_unique_free zero u v l e = absurd (ground arith)
find_unique_free (suc n) u v l e = ground (arith, find_unique_free n ((u + 1) % word) v l)

-- From an identifier of 32 bits on, with more scans than there are contexts and no more than there are
-- identifiers, the search returns an identifier, and no context has it.
pub find_unique_total :
    (n u : ℕ) (l : List Context)
    → length l < n
    → n ≤ word
    → u < word
    → (v : ℕ) × (find_unique n u l ≡ some v) × (is_taken v l ≡ false)
unfolding find_unique
find_unique_total zero u l h le lt = absurd (omega arith)
find_unique_total (suc n) u l h le lt = elim (Bool-cases (is_taken u l)) [
  | inr free ↦ (u, ground arith, free)
  | inl taken ↦
      let (v, found, rest) =
        find_unique_total n ((u + 1) % word) (drop_context u l)
          (omega (arith, length-drop_context u l taken)) (omega arith) (omega arith) in
      let same =
        find_unique-drop n ((u + 1) % word) u l
          (Misses-behind u n 1 ((u + 1) % word) lt (omega arith) (omega arith) (omega arith)) in
      let e : find_unique n ((u + 1) % word) l ≡ some v = sym same ∙ found in
      (v, ground arith, find_unique_free n ((u + 1) % word) v l e)
]
