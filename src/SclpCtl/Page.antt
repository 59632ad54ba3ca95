-- ===== src/SclpCtl/Page.antt =====
-- The page of a service call: who frees it, what is sent in it, and what is copied from it.
use doublefetch.Base.{
  ℕ, ◌+◌, ◌≡◌, ◌≤◌, ◌<◌, ◌⊎◌, inl, inr, true, some, List, [], ◌∷◌, Bytes, length, overwrite,
  replicate, pos, err, einval, arith, Bool-cases, Option-cases, is_zero, length-overwrite,
}
use doublefetch.Kernel.{Kernel, World, ◌>>=◌, kmalloc, tick}
use doublefetch.SclpCtl.{
  Layout, Processor, SclpCall, is_listed, cmdw_supported, answered, refetched, bad_length,
  with_page, ioctl_sccb, u64_to_uptr,
}

-- The processor is asked for nothing but the supported commands.
abbrev pub IsSupported : SclpCall → Type 0
IsSupported (SclpCall.request cmdw page) = (cmdw ≡ 0x0040_0002) ⊎ (cmdw ≡ 0x0041_0002)
IsSupported (SclpCall.give n page) = Unit

abbrev pub AllSupported : List SclpCall → Type 0
AllSupported [] = Unit
AllSupported (c ∷ cs) = IsSupported c × AllSupported cs

-- What is copied to the user lies in the page.
abbrev pub InPage : SclpCall → Type 0
InPage (SclpCall.request cmdw page) = Unit
InPage (SclpCall.give n page) = n ≤ length page

abbrev pub AllInPage : List SclpCall → Type 0
AllInPage [] = Unit
AllInPage (c ∷ cs) = InPage c × AllInPage cs

listed_cases : (cmdw : ℕ) → cmdw_supported cmdw ≡ true → (cmdw ≡ 0x0040_0002) ⊎ (cmdw ≡ 0x0041_0002)
unfolding is_listed
listed_cases cmdw h = ground arith

module _ (k : Kernel) (s : Layout) (p : Processor) where
  live-refetched :
      (uptr cmdw : ℕ) (page : Bytes) (w : World SclpCall)
      → (refetched k s p uptr cmdw page w).1.live ≡ w.live
  unfolding refetched
  live-refetched uptr cmdw page w = ground arith

  -- The handler frees its page on every path but one: it may return EINVAL with the page still
  -- allocated.
  pub live-ioctl_sccb :
      (area : ℕ) (w : World SclpCall)
      → ((ioctl_sccb k s p area w).1.live ≡ w.live)
        ⊎ (((ioctl_sccb k s p area w).0 ≡ err einval)
            × ((ioctl_sccb k s p area w).1.live ≡ (w.clock + 1) ∷ w.live))
  unfolding ioctl_sccb
  live-ioctl_sccb area w = grind (arith, live-refetched)

  -- A supported command whose block states a length below 8 or above a page makes the handler return
  -- EINVAL and leave the page allocated.
  pub leak-ioctl_sccb :
      (area : ℕ) (c d b : Bytes) (w : World SclpCall)
      → k.fetch w.clock area s.ctl_size ≡ some c
      → cmdw_supported (s.cmdw.read c) ≡ true
      → k.fresh (w.clock + 1) s.page_size ≡ some b
      → k.fetch (w.clock + 1 + 1) (u64_to_uptr k s p (s.sccb.read c)) s.header_size ≡ some d
      → bad_length k s p (overwrite (replicate s.page_size 0) d) ≡ true
      → ((ioctl_sccb k s p area w).0 ≡ err einval)
        × ((ioctl_sccb k s p area w).1.live ≡ (w.clock + 1) ∷ w.live)
  unfolding ioctl_sccb
  leak-ioctl_sccb area c d b w e1 ok e2 e3 bad = ground arith

  supported-answered :
      (uptr cmdw : ℕ) (page : Bytes) (w : World SclpCall)
      → (cmdw ≡ 0x0040_0002) ⊎ (cmdw ≡ 0x0041_0002)
      → AllSupported w.calls
      → AllSupported (answered k s p uptr cmdw page w).1.calls
  unfolding answered
  supported-answered uptr cmdw page w ok old =
      elim (Bool-cases (is_zero (p.sync_request w.clock cmdw page).0)) [
        | inl e ↦ rw (AllSupported, e) (tt, (ok, old))
        | inr e ↦ rw (AllSupported, e) (ok, old)
      ]

  supported-refetched :
      (uptr cmdw : ℕ) (page : Bytes) (w : World SclpCall)
      → (cmdw ≡ 0x0040_0002) ⊎ (cmdw ≡ 0x0041_0002)
      → AllSupported w.calls
      → AllSupported (refetched k s p uptr cmdw page w).1.calls
  unfolding refetched
  supported-refetched uptr cmdw page w ok old =
      elim (Option-cases (k.fetch w.clock uptr (s.sccb_length.read page))) [
        | inl e ↦ rw (AllSupported, e) old
        | inr (d, e) ↦
            rw (AllSupported, e) (supported-answered uptr cmdw (overwrite page d) (tick w) ok old)
      ]

  supported-with_page :
      (uptr cmdw : ℕ) (w : World SclpCall)
      → (cmdw ≡ 0x0040_0002) ⊎ (cmdw ≡ 0x0041_0002)
      → AllSupported w.calls
      → AllSupported (with_page k s p uptr cmdw w).1.calls
  unfolding with_page
  supported-with_page uptr cmdw w ok old = elim (Option-cases (k.fresh w.clock s.page_size)) [
    | inl e ↦ rw (AllSupported, ◌>>=◌, kmalloc, e) old
    | inr (b, e) ↦ elim (Option-cases (k.fetch (w.clock + 1) uptr s.header_size)) [
      | inl e2 ↦ rw (AllSupported, ◌>>=◌, kmalloc, e, e2) old
      | inr (d, e2) ↦ elim (Bool-cases (bad_length k s p (overwrite (replicate s.page_size 0) d))) [
        | inl bad ↦ rw (AllSupported, ◌>>=◌, kmalloc, e, e2, bad) old
        | inr good ↦
            rw (AllSupported, ◌>>=◌, kmalloc, e, e2, good)
              (supported-refetched uptr cmdw (overwrite (replicate s.page_size 0) d)
                (record (tick (tick w)) { live = w.clock ∷ w.live }) ok old)
      ]
    ]
  ]

  -- The processor gets no command word but the two of the list, whatever user space asks for and
  -- however it changes the block between the fetches.
  pub supported-ioctl_sccb :
      (area : ℕ) (w : World SclpCall)
      → AllSupported w.calls
      → AllSupported (ioctl_sccb k s p area w).1.calls
  unfolding ioctl_sccb
  supported-ioctl_sccb area w old = elim (Option-cases (k.fetch w.clock area s.ctl_size)) [
    | inl e ↦ rw (AllSupported, e) old
    | inr (c, e) ↦ elim (Bool-cases (cmdw_supported (s.cmdw.read c))) [
      | inr e2 ↦ rw (AllSupported, e, e2) old
      | inl ok ↦
          rw (AllSupported, e, ok)
            (supported-with_page (u64_to_uptr k s p (s.sccb.read c)) (s.cmdw.read c) (tick w)
              (listed_cases (s.cmdw.read c) ok) old)
    ]
  ]

  -- The length that passed the test is that of the first fetch. If the second fetch brings a length
  -- above a page, and the processor succeeds and leaves that length, the handler copies to the user
  -- from beyond the page.
  pub overread-refetched :
      (uptr cmdw : ℕ) (page d r : Bytes) (w : World SclpCall)
      → length page ≡ s.page_size
      → k.fetch w.clock uptr (s.sccb_length.read page) ≡ some d
      → p.sync_request (w.clock + 1) cmdw (overwrite page d) ≡ (pos 0, r)
      → s.sccb_length.read r ≡ s.sccb_length.read (overwrite page d)
      → s.sccb_length.read page ≤ s.page_size
      → s.page_size < s.sccb_length.read (overwrite page d)
      → ¬ AllInPage (refetched k s p uptr cmdw page w).1.calls
  unfolding refetched
  overread-refetched uptr cmdw page d r w len e1 e2 kept small large all =
      let same = p.page_kept (w.clock + 1) cmdw (overwrite page d) in
      let whole = length-overwrite page d (omega (arith, k.fetch_length _ _ _ d e1)) in ground arith
