-- ===== src/Base/Buffer.antt =====
-- Buffers of bytes: `memcmp`, `memcpy` into a buffer, and fields at a fixed place of a header.
use Prim.Native.Nat.{ℕ, ◌+◌, ◌*◌, ◌/◌, ◌%◌, ◌≤◌, ◌<◌}
use mathlib.Core.Path.{◌≡◌, refl, ap, sym, ◌∙◌}
use mathlib.Core.Bool.{Bool, true, false, ◌&&◌}
use mathlib.Core.List.{List, [], ◌∷◌, ◌++◌}
use native.Mathlib.Omega.{arith}
use mathlib.Core.Logic.{◌≢◌, ◌⊎◌, inl, inr}
use doublefetch.Base.Tests.{◌==◌, Bool-cases}
use doublefetch.Base.Lists.{
  length, get_or, set, length-set, get_or-set_ne, take, drop, get_or-take, length-append,
  length-drop, take-append,
}

abbrev pub Bytes : Type 0
Bytes = List ℕ

abbrev pub bytes_eq : Bytes → Bytes → Bool
bytes_eq [] [] = true
bytes_eq [] (y ∷ ys) = false
bytes_eq (x ∷ xs) [] = false
bytes_eq (x ∷ xs) (y ∷ ys) = (x == y) && bytes_eq xs ys

-- `memcmp(a, b, n) == 0`
unfoldable pub memcmp_eq : ℕ → Bytes → Bytes → Bool
memcmp_eq n a b = bytes_eq (take n a) (take n b)

bytes_eq_sound : (xs ys : Bytes) → bytes_eq xs ys ≡ true → xs ≡ ys
bytes_eq_sound [] [] h = refl
bytes_eq_sound [] (y ∷ ys) h = absurd (ground arith)
bytes_eq_sound (x ∷ xs) [] h = absurd (ground arith)
bytes_eq_sound (x ∷ xs) (y ∷ ys) h = ground (arith, bytes_eq_sound xs ys)

bytes_eq_refl : (xs : Bytes) → bytes_eq xs xs ≡ true
bytes_eq_refl [] = refl
bytes_eq_refl (x ∷ xs) = ground (arith, bytes_eq_refl xs)

pub memcmp_eq_sound : (n : ℕ) (a b : Bytes) → memcmp_eq n a b ≡ true → take n a ≡ take n b
unfolding memcmp_eq
memcmp_eq_sound n a b h = bytes_eq_sound _ _ h

pub memcmp_eq_complete : (n : ℕ) (a b : Bytes) → take n a ≡ take n b → memcmp_eq n a b ≡ true
unfolding memcmp_eq
memcmp_eq_complete n a b e = ap (λ t. bytes_eq (take n a) t) (sym e) ∙ bytes_eq_refl (take n a)

-- `memcpy(buf, bytes, ...)`: the start of the buffer is replaced.
unfoldable pub overwrite : Bytes → Bytes → Bytes
overwrite buf bytes = bytes ++ drop (length bytes) buf

pub length-overwrite :
    (buf bytes : Bytes) → length bytes ≤ length buf → length (overwrite buf bytes) ≡ length buf
unfolding overwrite
length-overwrite buf bytes h =
    omega (arith, length-append bytes (drop (length bytes) buf), length-drop (length bytes) buf)

pub take-overwrite :
    (n : ℕ) (buf bytes : Bytes) → n ≤ length bytes → take n (overwrite buf bytes) ≡ take n bytes
unfolding overwrite
take-overwrite n buf bytes h = take-append n bytes (drop (length bytes) buf) h

-- A field of a structure of `size` bytes: what it reads lies in those bytes.
pub record Field (size : ℕ) : Type 0 where
  pub read : Bytes → ℕ
  pub local : (xs ys : Bytes) → take size xs ≡ take size ys → read xs ≡ read ys

abbrev pub u16_at : ℕ → Bytes → ℕ
u16_at o xs = get_or xs o 0 + 256 * get_or xs (o + 1) 0

abbrev pub u32_at : ℕ → Bytes → ℕ
u32_at o xs = u16_at o xs + 65536 * u16_at (o + 2) xs

pub get_or-local :
    (size o : ℕ) (xs ys : Bytes)
    → o < size
    → take size xs ≡ take size ys
    → get_or xs o 0 ≡ get_or ys o 0
get_or-local size o xs ys h e =
    sym (get_or-take size xs o 0 h) ∙ ap (λ l. get_or l o 0) e ∙ get_or-take size ys o 0 h

-- A byte, or a little-endian number, at a fixed offset.
abbrev pub u8_field : (size o : ℕ) → o < size → Field size
u8_field size o h = record {
  read = λ xs. get_or xs o 0;
  local = λ xs ys e. get_or-local size o xs ys h e;
}

pub u16_local :
    (size o : ℕ)
    → o + 1 < size
    → (xs ys : Bytes) → take size xs ≡ take size ys
    → u16_at o xs ≡ u16_at o ys
u16_local size o h xs ys e = omega (
  arith,
  get_or-local size o xs ys (omega arith) e,
  get_or-local size (o + 1) xs ys (omega arith) e,
)

abbrev pub u16_field : (size o : ℕ) → o + 1 < size → Field size
u16_field size o h = record { read = u16_at o; local = u16_local size o h }

pub u32_local :
    (size o : ℕ)
    → o + 3 < size
    → (xs ys : Bytes) → take size xs ≡ take size ys
    → u32_at o xs ≡ u32_at o ys
u32_local size o h xs ys e =
    omega
      (arith, u16_local size o (omega arith) xs ys e, u16_local size (o + 2) (omega arith) xs ys e)

abbrev pub u32_field : (size o : ℕ) → o + 3 < size → Field size
u32_field size o h = record { read = u32_at o; local = u32_local size o h }

-- What the check after a second fetch gives: the fields of the fetched header are those checked.
pub read-overwrite :
    (size : ℕ) (f : Field size) (u buf bytes : Bytes)
    → memcmp_eq size u (overwrite buf bytes) ≡ true
    → f.read (overwrite buf bytes) ≡ f.read u
read-overwrite size f u buf bytes e =
    sym (f.local u (overwrite buf bytes) (memcmp_eq_sound size u _ e))

pub memcmp_ne :
    (n : ℕ) (u buf bytes : Bytes)
    → n ≤ length bytes
    → take n bytes ≢ take n u
    → memcmp_eq n u (overwrite buf bytes) ≡ false
memcmp_ne n u buf bytes h ne = elim (Bool-cases (memcmp_eq n u (overwrite buf bytes))) [
  | inl e ↦ absurd (ne (sym (memcmp_eq_sound n u _ e ∙ take-overwrite n buf bytes h)))
  | inr e ↦ e
]

pub memcmp_same :
    (n : ℕ) (u buf bytes : Bytes)
    → n ≤ length bytes
    → take n bytes ≡ take n u
    → memcmp_eq n u (overwrite buf bytes) ≡ true
memcmp_same n u buf bytes h e = memcmp_eq_complete n u _ (sym (take-overwrite n buf bytes h ∙ e))

-- Storing a little-endian number of 32 bits.
abbrev pub put_u32 : ℕ → ℕ → Bytes → Bytes
put_u32 o v xs =
    set (set (set (set xs o (v % 256)) (o + 1) (v / 256 % 256)) (o + 2) (v / 65536 % 256)) (o + 3)
      (v / 16777216 % 256)

pub length-put_u32 : (o v : ℕ) (xs : Bytes) → length (put_u32 o v xs) ≡ length xs
length-put_u32 o v xs =
    length-set _ _ _ ∙ length-set _ _ _ ∙ length-set _ _ _ ∙ length-set xs o (v % 256)

get_or-put_u32 :
    (o i v : ℕ) (xs : Bytes) → (i < o) ⊎ (o + 3 < i) → get_or (put_u32 o v xs) i 0 ≡ get_or xs i 0
get_or-put_u32 o i v xs h =
    get_or-set_ne _ (o + 3) i _ 0 (omega arith)
    ∙ get_or-set_ne _ (o + 2) i _ 0 (omega arith)
    ∙ get_or-set_ne _ (o + 1) i _ 0 (omega arith)
    ∙ get_or-set_ne xs o i _ 0 (omega arith)

-- A store leaves the other numbers as they are.
pub u32_at-put_u32 :
    (o i v : ℕ) (xs : Bytes) → (i + 3 < o) ⊎ (o + 3 < i) → u32_at i (put_u32 o v xs) ≡ u32_at i xs
u32_at-put_u32 o i v xs h = omega (
  arith,
  get_or-put_u32 o i v xs (omega arith),
  get_or-put_u32 o (i + 1) v xs (omega arith),
  get_or-put_u32 o (i + 2) v xs (omega arith),
  get_or-put_u32 o (i + 2 + 1) v xs (omega arith),
)
