-- ===== src/SclpCtl/Tests.antt =====
-- Runs of the service call device, and the theorems at them.
use doublefetch.Base.{
  ℕ, ◌≡◌, refl, Bytes, pos, err, einval, [], ◌∷◌, if◌then◌else◌, ◌==◌, ltb, u16_field, u32_field,
  overwrite, replicate, false, arith,
}
use doublefetch.Kernel.{World}
use doublefetch.Kernel.Machine.{machine, boot}
use doublefetch.SclpCtl.{Layout, Processor, SclpCall, ioctl_sccb, refetched}
use doublefetch.SclpCtl.Page.{AllInPage, overread-refetched}

-- pages of 32 bytes; the block of an answer begins with its length
abbrev layout : Layout
layout = record {
  ctl_size = 8;
  cmdw = u32_field 8 0 (omega arith);
  sccb = u32_field 8 4 (omega arith);
  header_size = 8;
  sccb_length = u16_field 8 0 (omega arith);
  page_size = 32;
  is_compat = false;
  compat_ptr = λ v. v;
  sccb_ioctl = 16;
}

abbrev echo : Processor
echo = record { sync_request = λ t c b. (pos 0, b); page_kept = λ t c b. refl }

-- At 0 the command 0x00400002 with its block at 100. The length at 100 is 9, or 200 from the fourth
-- access on.
abbrev racing : ℕ → ℕ → ℕ
racing t a =
    if a == 0
    then 2
    else if a == 2
    then 0x40
    else if a == 4
    then 100
    else if a == 100
    then (if ltb 2 t then 200 else 9)
    else 0

-- The length is 3.
abbrev short : ℕ → ℕ → ℕ
short t a = if a == 100 then 3 else racing t a

abbrev ctl : Bytes
ctl = 2 ∷ 0 ∷ 0x40 ∷ 0 ∷ 100 ∷ 0 ∷ 0 ∷ 0 ∷ []

leak_run : (ioctl_sccb (machine short) layout echo 0 boot).0 ≡ err einval
unfolding ioctl_sccb machine overwrite
leak_run = refl

abbrev late : World SclpCall
late = record boot { clock = 3 }

overread-refetched_example :
    ¬ AllInPage
      (refetched (machine racing) layout echo 100 0x0040_0002 (9 ∷ replicate 31 0) late).1.calls
unfolding machine overwrite
overread-refetched_example =
    overread-refetched (machine racing) layout echo 100 0x0040_0002 (9 ∷ replicate 31 0)
      (200 ∷ replicate 8 0) (200 ∷ replicate 31 0) late refl refl refl refl (omega arith)
      (omega arith)
