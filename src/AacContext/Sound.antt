-- ===== src/AacContext/Sound.antt =====
-- Sound contexts with distinct identifiers, under the operations on their list.
use doublefetch.Base.{
  ℕ, ◌≡◌, true, false, none, some, List, [], ◌∷◌, ◌++◌, ◌||◌, ◌==◌, length, arith, Bool-cases, inl,
  inr, subst,
}
use doublefetch.AacContext.{Context, is_taken, drop_context, replace_context, find_context}

-- The count is the number of fibs that wait, and the type and the size are as set when it was made.
abbrev pub IsSound : Context → Type 0
IsSound x = (x.count ≡ length x.fibs) × (x.is_typed ≡ true) × (x.is_sized ≡ true)

-- Every context is sound, and no two have the same identifier.
abbrev pub AllSound : List Context → Type 0
AllSound [] = Unit
AllSound (x ∷ xs) = (is_taken x.unique xs ≡ false) × IsSound x × AllSound xs

is_taken-append :
    (v : ℕ) (y : Context) (l : List Context)
    → is_taken v (l ++ (y ∷ [])) ≡ (is_taken v l || (y.unique == v))
is_taken-append v y [] = ground arith
is_taken-append v y (x ∷ xs) = ground (arith, is_taken-append v y xs)

pub AllSound-append :
    (y : Context) (l : List Context)
    → is_taken y.unique l ≡ false
    → IsSound y
    → AllSound l
    → AllSound (l ++ (y ∷ []))
AllSound-append y [] h s a = (ground arith, s, tt)
AllSound-append y (x ∷ xs) h s a =
    (ground (arith, is_taken-append x.unique y xs), a.1, AllSound-append y xs (ground arith) s a.2)

is_taken-replace :
    (v u : ℕ) (y : Context) (l : List Context)
    → y.unique ≡ u
    → is_taken v (replace_context u y l) ≡ is_taken v l
is_taken-replace v u y [] e = ground arith
is_taken-replace v u y (x ∷ xs) e = ground (arith, is_taken-replace v u y xs e)

pub AllSound-replace :
    (u : ℕ) (y : Context) (l : List Context)
    → y.unique ≡ u
    → IsSound y
    → AllSound l
    → AllSound (replace_context u y l)
AllSound-replace u y [] e s a = tt
AllSound-replace u y (x ∷ xs) e s a = elim (Bool-cases (x.unique == u)) [
  | inl same ↦ rw (same) (ground (arith), s, a.2)
  | inr differ ↦
      rw (differ)
        (ground (arith, is_taken-replace x.unique u y xs e), a.1, AllSound-replace u y xs e s a.2)
]

is_taken-drop_free :
    (v u : ℕ) (l : List Context) → is_taken v l ≡ false → is_taken v (drop_context u l) ≡ false
is_taken-drop_free v u [] h = ground arith
is_taken-drop_free v u (x ∷ xs) h = ground (arith, is_taken-drop_free v u xs)

pub AllSound-drop : (u : ℕ) (l : List Context) → AllSound l → AllSound (drop_context u l)
AllSound-drop u [] a = tt
AllSound-drop u (x ∷ xs) a = elim (Bool-cases (x.unique == u)) [
  | inl same ↦ rw (same) a.2
  | inr differ ↦ rw (differ) (is_taken-drop_free x.unique u xs a.0, a.1, AllSound-drop u xs a.2)
]

-- Once dropped, an identifier is free.
pub is_taken-drop : (u : ℕ) (l : List Context) → AllSound l → is_taken u (drop_context u l) ≡ false
is_taken-drop u [] a = ground arith
is_taken-drop u (x ∷ xs) a = ground (arith, is_taken-drop u xs a.2, a.0)

pub find_context-none : (u : ℕ) (l : List Context) → is_taken u l ≡ false → find_context u l ≡ none
find_context-none u [] h = ground arith
find_context-none u (x ∷ xs) h = ground (arith, find_context-none u xs)

pub find_context-IsSound :
    (u : ℕ) (l : List Context) (x : Context)
    → find_context u l ≡ some x
    → AllSound l
    → (x.unique ≡ u) × IsSound x
find_context-IsSound u [] x e a = absurd (ground arith)
find_context-IsSound u (y ∷ ys) x e a = elim (Bool-cases (y.unique == u)) [
  | inl same ↦
      let found : y ≡ x = ground (arith) in
      subst (λ z. (z.unique ≡ u) × IsSound z) found (ground arith, a.1)
  | inr differ ↦ find_context-IsSound u ys x (ground arith) a.2
]
