-- ===== src/CrosDev/Tests.antt =====
-- Runs of the handlers of cros_ec_dev, and the theorems at them.
use doublefetch.Base.{
  ℕ, ◌+◌, get_or, ◌<◌, ◌≡◌, ◌/◌, refl, Bytes, length, pos, err, efault, some, [], ◌∷◌,
  if◌then◌else◌, ◌==◌, ltb, u32_at, u32_field, put_u32, length-put_u32, u32_at-put_u32, arith, take,
  memcmp_eq, overwrite, replicate, ◌&&◌, ◌≢◌,
}
use doublefetch.Kernel.Machine.{machine, boot}
use doublefetch.CrosDev.{Command, Controller, EcCall, ioctl_xcmd, ioctl_xcmd_bug}
use doublefetch.CrosDev.Safety.{SentChecked, sent-ioctl_xcmd}
use doublefetch.CrosDev.Patch.{ioctl_xcmd-eq-bug, ioctl_xcmd_bug-overrun}
use doublefetch.CrosDev.Version.{Version, ec_device_read}
use doublefetch.CrosDev.Readmem.{Direct, Numbers}

-- five numbers of 32 bits: version, command, outsize, insize, result
abbrev layout : Command
layout = record {
  size = 20;
  outsize = u32_field 20 8 (omega arith);
  insize = u32_field 20 12 (omega arith);
  add_command = λ o m. put_u32 4 (u32_at 4 m + o) m;
  length_kept = λ o m. length-put_u32 4 (u32_at 4 m + o) m;
  outsize_kept = λ o m. u32_at-put_u32 4 8 (u32_at 4 m + o) m (omega arith);
  insize_kept = λ o m. u32_at-put_u32 4 12 (u32_at 4 m + o) m (omega arith);
}

-- a controller that returns the message as it is
abbrev echo : Controller
echo = record { cmd_offset = 0; xfer = λ t m. (pos 4, m); xfer_length = λ t m. refl }

-- A command of outsize 2 and insize 3 at address 0.
abbrev still : ℕ → ℕ → ℕ
still t a = if a == 8 then 2 else if a == 12 then 3 else 0

-- The same, whose insize is 200 from the second access on.
abbrev racing : ℕ → ℕ → ℕ
racing t a = if ltb 0 t && a == 12 then 200 else still t a

header : Bytes
header = 0 ∷ 0 ∷ 0 ∷ 0 ∷ 0 ∷ 0 ∷ 0 ∷ 0 ∷ 2 ∷ 0 ∷ 0 ∷ 0 ∷ 3 ∷ 0 ∷ 0 ∷ 0 ∷ 0 ∷ 0 ∷ 0 ∷ 0 ∷ []

raced : Bytes
raced = 0 ∷ 0 ∷ 0 ∷ 0 ∷ 0 ∷ 0 ∷ 0 ∷ 0 ∷ 2 ∷ 0 ∷ 0 ∷ 0 ∷ 200 ∷ 0 ∷ 0 ∷ 0 ∷ 0 ∷ 0 ∷ 0 ∷ 0 ∷ 0 ∷ 0 ∷ []

still_run : (ioctl_xcmd (machine still) layout echo 0 boot).0 ≡ pos 4
unfolding ioctl_xcmd machine memcmp_eq overwrite
still_run = refl

racing_run : (ioctl_xcmd (machine racing) layout echo 0 boot).0 ≡ err efault
unfolding ioctl_xcmd machine memcmp_eq overwrite
racing_run = refl

sent-ioctl_xcmd_example :
    SentChecked
      (machine still)
      layout
      echo
      0
      header
      boot
      (ioctl_xcmd (machine still) layout echo 0 boot).1
unfolding header machine
sent-ioctl_xcmd_example = sent-ioctl_xcmd (machine still) layout echo 0 header boot refl

raced-ne-header : take 20 raced ≢ take 20 header
unfolding header raced
raced-ne-header = ground arith

ioctl_xcmd_bug-overrun_example :
    (m : Bytes) × ((ioctl_xcmd_bug (machine racing) layout echo 0 boot).1.calls
      ≡ EcCall.xfer m ∷ [])
    × (length m < 20 + u32_at 12 m)
unfolding header raced machine
ioctl_xcmd_bug-overrun_example =
    ioctl_xcmd_bug-overrun (machine racing) layout echo 0 header raced (replicate 23 0) boot refl
      refl refl (omega arith)

ioctl_xcmd-eq-bug_example :
    ioctl_xcmd (machine still) layout echo 0 boot
    ≡ ioctl_xcmd_bug (machine still) layout echo 0 boot
unfolding machine
ioctl_xcmd-eq-bug_example =
    ioctl_xcmd-eq-bug (machine still) layout echo 0 boot (λ u d e f. ground arith)

-- a platform that answers a read of memory with the whole structure
abbrev direct : Direct
direct = record {
  size = 8;
  offset = u32_field 8 0 (omega arith);
  bytes = u32_field 8 4 (omega arith);
  cmd_readmem = some (λ t o n b. (pos n, b));
}

abbrev numbers : Numbers
numbers = record { ioc_type = λ c. c / 256; dev_ioc = 236; xcmd = 0xec00; rdmem = 0xec01 }

-- A version of one letter each, of the image that is read-only.
abbrev version : Version
version = record {
  resp_size = 20;
  filled = λ o i n b. b;
  result = λ m. get_or m 16 0;
  success = 0;
  current_image = λ m. 1;
  version_ro = λ m. 97 ∷ [];
  version_rw = λ m. 98 ∷ [];
  dev_version = 49 ∷ [];
  decimal = λ n. [];
}

read_run : (ec_device_read (machine still) layout echo version 0 10 0 boot).0.0 ≡ pos 10
unfolding ec_device_read machine
read_run = refl
