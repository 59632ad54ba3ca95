-- ===== src/CrosDev.antt =====
-- The character device of the ChromeOS embedded controller:
-- auto_fix/bug_files/cros_ec_dev.c and auto_fix/patched_files/3-patched-cros_ec_dev.c.
pub mod Safety
pub mod Patch
pub mod Readmem
pub mod Version
mod Tests
use doublefetch.Base.{
  ℕ, ◌+◌, ◌≡◌, Bool, true, false, Option, none, some, Bytes, Field, length, take, overwrite,
  memcmp_eq, if◌then◌else◌, ℤ, err, is_neg, efault, enomem, max,
}
use doublefetch.Kernel.{
  Kernel, Block, M, pure, ◌>>=◌, ◌>>◌, copy_from_user, copy_to_user, kmalloc, kfree, call,
}

-- `struct cros_ec_command`, of <linux/mfd/cros_ec.h>: its size, and the fields that are used.
pub record Command : Type 0 where
  pub size : ℕ
  pub outsize : Field size
  pub insize : Field size
  -- `command += offset`
  pub add_command : ℕ → Bytes → Bytes
  pub length_kept : (o : ℕ) (m : Bytes) → length (add_command o m) ≡ length m
  pub outsize_kept : (o : ℕ) (m : Bytes) → outsize.read (add_command o m) ≡ outsize.read m
  pub insize_kept : (o : ℕ) (m : Bytes) → insize.read (add_command o m) ≡ insize.read m

-- What goes to the controller: a message, or a direct read of `bytes` bytes at `offset`.
pub data EcCall : Type 0 where
  xfer : Bytes → EcCall
  readmem : (offset bytes : ℕ) → EcCall

-- The controller behind `cros_ec_cmd_xfer`: its result, and the message as it leaves it.
pub record Controller : Type 0 where
  pub cmd_offset : ℕ
  pub xfer : ℕ → Bytes → ℤ × Bytes
  pub xfer_length : (t : ℕ) (m : Bytes) → length (xfer t m).1 ≡ length m

module _ (k : Kernel) (s : Command) (ec : Controller) where
  -- `cros_ec_cmd_xfer`, and the copy back to the user
  unfoldable pub xcmd_send : ℕ → Bytes → Bytes → M EcCall ℤ
  unfolding call copy_to_user
  xcmd_send arg u_cmd s_cmd w =
      let msg = s.add_command ec.cmd_offset s_cmd in
      let (ret, reply) = ec.xfer w.clock msg in
      (do
        call (EcCall.xfer msg)
        elim (is_neg ret) [
          | true ↦ pure ret
          | false ↦ do
            done ← copy_to_user k arg (take (s.size + s.insize.read u_cmd) reply)
            pure (if done then ret else err efault)
        ])
        w

  -- The second fetch fills the block, and the header is compared with the one that was checked.
  unfoldable pub xcmd_filled : ℕ → Bytes → Block → M EcCall ℤ
  unfolding copy_from_user xcmd_send
  xcmd_filled arg u_cmd b = do
    fetched ← copy_from_user k arg (s.size + s.outsize.read u_cmd)
    elim fetched [
      | none ↦ pure (err efault)
      | some bytes ↦ elim (memcmp_eq s.size u_cmd (overwrite b.bytes bytes)) [
        | true ↦ xcmd_send arg u_cmd (overwrite b.bytes bytes)
        | false ↦ pure (err efault)
      ]
    ]

  -- The same before the patch: nothing is compared.
  unfoldable pub xcmd_filled_bug : ℕ → Bytes → Block → M EcCall ℤ
  unfolding copy_from_user xcmd_send
  xcmd_filled_bug arg u_cmd b = do
    fetched ← copy_from_user k arg (s.size + s.outsize.read u_cmd)
    elim fetched [
      | none ↦ pure (err efault)
      | some bytes ↦ xcmd_send arg u_cmd (overwrite b.bytes bytes)
    ]

  abbrev ioctl_with : (ℕ → Bytes → Block → M EcCall ℤ) → ℕ → M EcCall ℤ
  unfolding copy_from_user kmalloc kfree
  ioctl_with filled arg = do
    header ← copy_from_user k arg s.size
    elim header [
      | none ↦ pure (err efault)
      | some u_cmd ↦ do
        block ← kmalloc k (s.size + max (s.outsize.read u_cmd) (s.insize.read u_cmd))
        elim block [
          | none ↦ pure (err enomem)
          | some b ↦ do ret ← filled arg u_cmd b; kfree b.id; pure ret
        ]
    ]

  -- `ec_device_ioctl_xcmd` with the patch, and before it
  unfoldable pub ioctl_xcmd : ℕ → M EcCall ℤ
  unfolding ioctl_with xcmd_filled
  ioctl_xcmd = ioctl_with xcmd_filled

  unfoldable pub ioctl_xcmd_bug : ℕ → M EcCall ℤ
  unfolding ioctl_with xcmd_filled_bug
  ioctl_xcmd_bug = ioctl_with xcmd_filled_bug
