-- ===== src/Base/Int.antt =====
-- The C functions' signed results, and the error numbers of the kernel's ABI.
use Prim.Native.Nat.{ℕ, ◌-◌}
use mathlib.Core.Bool.{Bool, true, false}
use doublefetch.Base.Tests.{◌==◌}

-- `negsuc n` is -(n + 1).
pub data ℤ : Type 0 where
  pos : ℕ → ℤ
  negsuc : ℕ → ℤ

-- -e, for e of at least 1
abbrev pub err : ℕ → ℤ
err e = negsuc (e - 1)

abbrev pub is_neg : ℤ → Bool
is_neg (pos n) = false
is_neg (negsuc n) = true

abbrev pub is_zero : ℤ → Bool
is_zero (pos n) = n == 0
is_zero (negsuc n) = false

-- `r == -e`
abbrev pub is_err : ℕ → ℤ → Bool
is_err e (pos n) = false
is_err e (negsuc n) = n == (e - 1)

-- `r == n`, for n of at least 0
abbrev pub is_pos : ℕ → ℤ → Bool
is_pos m (pos n) = n == m
is_pos m (negsuc n) = false

-- a pointer that may hold an error number (ERR_PTR)
pub data Ptr : Type 0 where
  ptr : ℕ → Ptr
  err_ptr : ℕ → Ptr

abbrev pub eperm : ℕ
eperm = 1

abbrev pub eio : ℕ
eio = 5

abbrev pub enxio : ℕ
enxio = 6

abbrev pub ebadf : ℕ
ebadf = 9

abbrev pub eagain : ℕ
eagain = 11

abbrev pub enomem : ℕ
enomem = 12

abbrev pub efault : ℕ
efault = 14

abbrev pub ebusy : ℕ
ebusy = 16

abbrev pub enodev : ℕ
enodev = 19

abbrev pub einval : ℕ
einval = 22

abbrev pub enotty : ℕ
enotty = 25

abbrev pub enospc : ℕ
enospc = 28

abbrev pub ebadmsg : ℕ
ebadmsg = 74

abbrev pub eoverflow : ℕ
eoverflow = 75

abbrev pub emsgsize : ℕ
emsgsize = 90

abbrev pub eprotonosupport : ℕ
eprotonosupport = 93

abbrev pub eopnotsupp : ℕ
eopnotsupp = 95

abbrev pub erestartsys : ℕ
erestartsys = 512
