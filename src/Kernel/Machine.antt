-- ===== src/Kernel/Machine.antt =====
-- A kernel that runs, over a user memory that may be another at each access.
use doublefetch.Base.{
  ℕ, zero, suc, ◌+◌, ◌≡◌, refl, ap, true, some, [], ◌∷◌, Bytes, length, replicate, length-replicate,
  arith, Option,
}
use doublefetch.Kernel.{Kernel, World}

pub bytes_from : (ℕ → ℕ) → ℕ → ℕ → Bytes
bytes_from f p zero = []
bytes_from f p (suc n) = f p ∷ bytes_from f (p + 1) n

length-bytes_from : (f : ℕ → ℕ) (p n : ℕ) → length (bytes_from f p n) ≡ n
unfolding bytes_from
length-bytes_from f p zero = refl
length-bytes_from f p (suc n) = ap suc (length-bytes_from f (p + 1) n)

-- The memory gives a byte for each access and address; every access succeeds.
pub machine_fetch : (ℕ → ℕ → ℕ) → ℕ → ℕ → ℕ → Option Bytes
machine_fetch mem t p n = some (bytes_from (mem t) p n)

pub length-machine_fetch :
    (mem : ℕ → ℕ → ℕ) (t p n : ℕ) (b : Bytes) → machine_fetch mem t p n ≡ some b → length b ≡ n
unfolding machine_fetch
length-machine_fetch mem t p n b e = ground (arith, length-bytes_from (mem t) p n)

pub zeros_length : (t n : ℕ) (b : Bytes) → some (replicate n 0) ≡ some b → length b ≡ n
zeros_length t n b e = ground (arith, length-replicate {A = ℕ} n 0)

unfoldable pub machine : (ℕ → ℕ → ℕ) → Kernel
unfolding machine_fetch bytes_from
machine mem = record {
  fetch = machine_fetch mem;
  fetch_length = length-machine_fetch mem;
  store = λ t p b. true;
  fresh = λ t n. some (replicate n 0);
  fresh_length = zeros_length;
}

-- The state before the first access.
abbrev pub boot : {C : Type 0} → World C
boot = record { clock = 0; live = []; writes = []; calls = [] }
