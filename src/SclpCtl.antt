-- ===== src/SclpCtl.antt =====
-- The control device of the s390 service call processor: auto_fix/bug_files/sclp_ctl.c, which the
-- tool leaves as it is (auto_fix/patched_files/6-patched-sclp_ctl.c).
pub mod Page
mod Tests
use doublefetch.Base.{
  ℕ, ◌+◌, ◌≡◌, Bool, true, false, Option, none, some, List, [], ◌∷◌, Bytes, Field, length, take,
  overwrite, replicate, ℤ, pos, err, is_zero, efault, enomem, einval, enotty, eopnotsupp, ltb, ◌==◌,
  ◌||◌, if◌then◌else◌,
}
use doublefetch.Kernel.{
  Kernel, M, World, pure, ◌>>=◌, ◌>>◌, copy_from_user, copy_to_user, kmalloc, kfree, call, now,
}

-- `struct sclp_ctl_sccb`, `struct sccb_header` and a 64-bit pointer of the user.
pub record Layout : Type 0 where
  pub ctl_size : ℕ
  pub cmdw : Field ctl_size
  pub sccb : Field ctl_size
  pub header_size : ℕ
  pub sccb_length : Field header_size
  pub page_size : ℕ
  pub is_compat : Bool
  pub compat_ptr : ℕ → ℕ
  pub sccb_ioctl : ℕ  -- SCLP_CTL_SCCB

-- A request to the processor, and the copy of `n` bytes of the page back to the user.
pub data SclpCall : Type 0 where
  request : (cmdw : ℕ) (page : Bytes) → SclpCall
  give : (n : ℕ) (page : Bytes) → SclpCall

-- `sclp_sync_request`: its result, and the page as the processor leaves it.
pub record Processor : Type 0 where
  pub sync_request : ℕ → ℕ → Bytes → ℤ × Bytes
  pub page_kept : (t c : ℕ) (b : Bytes) → length (sync_request t c b).1 ≡ length b

abbrev pub sccb_wlist : List ℕ
sccb_wlist = 0x0040_0002 ∷ 0x0041_0002 ∷ []

unfoldable pub is_listed : ℕ → List ℕ → Bool
is_listed cmdw [] = false
is_listed cmdw (x ∷ xs) = (cmdw == x) || is_listed cmdw xs

abbrev pub cmdw_supported : ℕ → Bool
cmdw_supported cmdw = is_listed cmdw sccb_wlist

module _ (k : Kernel) (s : Layout) (p : Processor) where
  abbrev pub u64_to_uptr : ℕ → ℕ
  u64_to_uptr v = if s.is_compat then s.compat_ptr v else v

  -- the request, once the page is filled, and the copy of the answer
  unfoldable pub answered : ℕ → ℕ → Bytes → M SclpCall ℤ
  unfolding call now copy_to_user
  answered uptr cmdw page = do
    t ← now
    call (SclpCall.request cmdw page)
    let (rc, reply) = p.sync_request t cmdw page
    elim (is_zero rc) [
      | false ↦ pure rc
      | true ↦ do
        call (SclpCall.give (s.sccb_length.read reply) reply)
        done ← copy_to_user k uptr (take (s.sccb_length.read reply) reply)
        pure (if done then rc else err efault)
    ]

  -- the second fetch
  unfoldable pub refetched : ℕ → ℕ → Bytes → M SclpCall ℤ
  unfolding copy_from_user answered
  refetched uptr cmdw page = do
    whole ← copy_from_user k uptr (s.sccb_length.read page)
    elim whole [ none ↦ pure (err efault) | some bytes ↦ answered uptr cmdw (overwrite page bytes) ]

  abbrev pub bad_length : Bytes → Bool
  bad_length page = ltb s.page_size (s.sccb_length.read page) || ltb (s.sccb_length.read page) 8

  -- From the page's allocation on. The refusal of a bad length does not go through `out_free`.
  unfoldable pub with_page : ℕ → ℕ → M SclpCall ℤ
  unfolding kmalloc kfree copy_from_user refetched
  with_page uptr cmdw = do
    block ← kmalloc k s.page_size
    elim block [
      | none ↦ pure (err enomem)
      | some b ↦ do
        header ← copy_from_user k uptr s.header_size
        elim header [
          | none ↦ do kfree b.id; pure (err efault)
          | some bytes ↦ elim (bad_length (overwrite (replicate s.page_size 0) bytes)) [
            | true ↦ pure (err einval)
            | false ↦ do
              rc ← refetched uptr cmdw (overwrite (replicate s.page_size 0) bytes)
              kfree b.id
              pure rc
          ]
        ]
    ]

  unfoldable pub ioctl_sccb : ℕ → M SclpCall ℤ
  unfolding with_page copy_from_user is_listed
  ioctl_sccb user_area = do
    ctl ← copy_from_user k user_area s.ctl_size
    elim ctl [
      | none ↦ pure (err efault)
      | some c ↦ elim (cmdw_supported (s.cmdw.read c)) [
        | false ↦ pure (err eopnotsupp)
        | true ↦ with_page (u64_to_uptr (s.sccb.read c)) (s.cmdw.read c)
      ]
    ]

  unfoldable pub ioctl : ℕ → ℕ → M SclpCall ℤ
  unfolding ioctl_sccb
  ioctl cmd arg =
      if cmd == s.sccb_ioctl
      then ioctl_sccb (if s.is_compat then s.compat_ptr arg else arg)
      else pure (err enotty)
