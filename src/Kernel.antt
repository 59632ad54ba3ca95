-- ===== src/Kernel.antt =====
-- What a handler sees of the kernel and of user space, none of which is in the repository:
-- `copy_from_user`, `copy_to_user`, `kmalloc`, `kfree`. Another thread of the user may write to the
-- user's memory at any time, so a fetch depends on when it is made.
pub mod Machine
use doublefetch.Base.{
  ℕ, ◌+◌, ◌≡◌, Bool, true, false, Option, none, some, List, [], ◌∷◌, Bytes, length, ◌==◌,
  if◌then◌else◌,
}

pub record Kernel : Type 0 where
  -- `copy_from_user` at a time, from an address, of a size: `none` if a byte cannot be read
  pub fetch : ℕ → ℕ → ℕ → Option Bytes
  pub fetch_length : (t p n : ℕ) (b : Bytes) → fetch t p n ≡ some b → length b ≡ n
  -- `copy_to_user` at a time, to an address: `true` if every byte is written
  pub store : ℕ → ℕ → Bytes → Bool
  -- `kmalloc` at a time, of a size: the bytes that the new block happens to hold
  pub fresh : ℕ → ℕ → Option Bytes
  pub fresh_length : (t n : ℕ) (b : Bytes) → fresh t n ≡ some b → length b ≡ n

-- A block that `kmalloc` returned.
pub record Block : Type 0 where
  pub id : ℕ
  pub bytes : Bytes

-- The state that a handler runs in. `live` are the blocks not yet freed, `writes` what was handed to
-- `copy_to_user`, `calls` what was handed to the device or file system; the newest stand first.
pub record World (C : Type 0) : Type 0 where
  pub clock : ℕ
  pub live : List ℕ
  pub writes : List (ℕ × Bytes)
  pub calls : List C

abbrev pub M : Type 0 → Type 0 → Type 0
M C A = World C → A × World C

abbrev pub remove : ℕ → List ℕ → List ℕ
remove i [] = []
remove i (j ∷ l) = if i == j then l else j ∷ remove i l

module _ {C : Type 0} where
  abbrev pub pure : {A : Type 0} → A → M C A
  pure a w = (a, w)

  infixl 5 ◌>>=◌ ◌>>◌
  abbrev pub ◌>>=◌ : {A B : Type 0} → M C A → (A → M C B) → M C B
  ◌>>=◌ m f w = let (a, w') = m w in f a w'

  abbrev pub ◌>>◌ : {B : Type 0} → M C (Unit {0}) → M C B → M C B
  m >> f = m >>= λ _. f

  abbrev pub tick : World C → World C
  tick w = record w { clock = w.clock + 1 }

  unfoldable pub copy_from_user : Kernel → ℕ → ℕ → M C (Option Bytes)
  copy_from_user k p n w = (k.fetch w.clock p n, tick w)

  unfoldable pub copy_to_user : Kernel → ℕ → Bytes → M C Bool
  copy_to_user k p b w = (k.store w.clock p b, record (tick w) { writes = (p, b) ∷ w.writes })

  -- A block is named by the time of its allocation.
  unfoldable pub kmalloc : Kernel → ℕ → M C (Option Block)
  kmalloc k n w = elim (k.fresh w.clock n) [
    | none ↦ (none, tick w)
    | some b ↦
        (some (record { id = w.clock; bytes = b }), record (tick w) { live = w.clock ∷ w.live })
  ]

  unfoldable pub kfree : ℕ → M C (Unit {0})
  kfree i w = (tt, record w { live = remove i w.live })

  -- The time of a call, for what answers it.
  unfoldable pub now : M C ℕ
  now w = (w.clock, w)

  unfoldable pub call : C → M C (Unit {0})
  call c w = (tt, record (tick w) { calls = c ∷ w.calls })
