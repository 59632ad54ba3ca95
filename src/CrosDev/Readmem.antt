-- ===== src/CrosDev/Readmem.antt =====
-- Direct reads of the controller's memory, and the dispatch of the device's ioctl.
use doublefetch.Base.{
  ℕ, ◌≡◌, ◌⊎◌, true, false, Option, none, some, Bytes, Field, ℤ, pos, err, efault, enotty,
  if◌then◌else◌, ◌==◌, arith, ◌||◌, is_neg, is_zero,
}
use doublefetch.Kernel.{Kernel, World, M, pure, ◌>>=◌, ◌>>◌, copy_from_user, copy_to_user, call}
use doublefetch.CrosDev.{Command, Controller, EcCall, ioctl_xcmd}
use doublefetch.CrosDev.Safety.{live-ioctl_xcmd}

-- `struct cros_ec_readmem`, and `cmd_readmem` of the platform, where it has one: the count that it
-- returns, and the structure with the buffer as it leaves it.
pub record Direct : Type 0 where
  pub size : ℕ
  pub offset : Field size
  pub bytes : Field size
  pub cmd_readmem : Option (ℕ → ℕ → ℕ → Bytes → ℤ × Bytes)

-- The numbers of <linux/mfd/cros_ec_dev.h>.
pub record Numbers : Type 0 where
  pub ioc_type : ℕ → ℕ
  pub dev_ioc : ℕ
  pub xcmd : ℕ
  pub rdmem : ℕ

module _ (k : Kernel) (p : Direct) where
  -- after the fetch of `s_mem`
  readmem_fetched : ℕ → (ℕ → ℕ → ℕ → Bytes → ℤ × Bytes) → Bytes → M EcCall ℤ
  unfolding call copy_to_user
  readmem_fetched arg cmd_readmem s_mem w =
      let (num, filled) = cmd_readmem w.clock (p.offset.read s_mem) (p.bytes.read s_mem) s_mem in
      (do
        call (EcCall.readmem (p.offset.read s_mem) (p.bytes.read s_mem))
        elim (is_neg num || is_zero num) [
          | true ↦ pure num
          | false ↦ do done ← copy_to_user k arg filled; pure (if done then pos 0 else err efault)
        ])
        w

  pub ioctl_readmem : ℕ → M EcCall ℤ
  unfolding readmem_fetched copy_from_user
  ioctl_readmem arg w = elim p.cmd_readmem [
    | none ↦ (err enotty, w)
    | some f ↦
        (do
          fetched ← copy_from_user k arg p.size
          elim fetched [ none ↦ pure (err efault) | some s_mem ↦ readmem_fetched arg f s_mem ])
          w
  ]

  -- A positive count of bytes is not passed on: it becomes 0 or EFAULT, so the result is 0, an error
  -- or a count that is not positive; and no block is allocated or freed.
  pub ioctl_readmem_result :
      (arg : ℕ) (w : World EcCall)
      → (((ioctl_readmem arg w).0 ≡ pos 0) ⊎ (is_neg (ioctl_readmem arg w).0 ≡ true))
        × ((ioctl_readmem arg w).1.live ≡ w.live)
  unfolding ioctl_readmem
  ioctl_readmem_result arg w = ground arith

module _ (k : Kernel) (s : Command) (ec : Controller) (p : Direct) (n : Numbers) where
  pub ioctl : ℕ → ℕ → M EcCall ℤ
  unfolding ioctl_xcmd
  ioctl cmd arg =
      if n.ioc_type cmd == n.dev_ioc
      then if cmd == n.xcmd
        then ioctl_xcmd k s ec arg
        else if cmd == n.rdmem
        then ioctl_readmem k p arg
        else pure (err enotty)
      else pure (err enotty)

  -- The ioctl of the device leaks no block, whatever the number of the command.
  pub live-ioctl : (cmd arg : ℕ) (w : World EcCall) → (ioctl cmd arg w).1.live ≡ w.live
  unfolding ioctl
  live-ioctl cmd arg w =
      ground (arith, live-ioctl_xcmd k s ec arg w, ioctl_readmem_result k p arg w)
