-- ===== src/MicVirtio/Device/Leak.antt =====
-- What stays held where a device cannot be added.
use doublefetch.Base.{
  ℕ, zero, suc, ◌+◌, ◌-◌, ◌≡◌, ◌≤◌, false, some, Bytes, drop, ℤ, is_zero, arith, Bool-cases, inl,
  inr, refl, ap, sym, ◌∙◌, subst,
}
use doublefetch.MicVirtio.{added, num_vq}
use doublefetch.MicVirtio.Device.{
  Held, Device, Host, with_ring, with_buf, set_up, without_ring, unwind, add_with,
}
use doublefetch.MicVirtio.Device.Balance.{inside, take_one-inside}

module _ (s : Host) where
  -- Where the loop ends, with or without an error, the buffers of the rings before that are held.
  set_up-buf_maps :
      (n i j : ℕ) (h : Held)
      → let (ret, i', h') = set_up s n i h in
        (i ≤ i') × (h'.buf_maps j ≡ h.buf_maps j + inside (i' - i) i j)
  unfolding set_up
  set_up-buf_maps zero i j h = (omega arith, ground arith)
  set_up-buf_maps (suc n) i j h =
      let h1 = with_buf s i (with_ring s i h) in
      let (le, same) = set_up-buf_maps n (i + 1) j h1 in
      elim (Bool-cases (s.has_ring i)) [
        | inr no_ring ↦ ground arith
        | inl ring ↦ elim (Bool-cases (s.is_mapped i)) [
          | inr no_map ↦ ground arith
          | inl map ↦ elim (Bool-cases (is_zero (s.ring_init i))) [
            | inr bad ↦ ground arith
            | inl good ↦
                let step : set_up s (suc n) i h ≡ set_up s n (i + 1) h1 = ground arith in
                let i' = (set_up s n (i + 1) h1).1 in
                subst (λ r. (i ≤ r.1) × (r.2.buf_maps j ≡ h.buf_maps j + inside (r.1 - i) i j))
                  (sym step)
                  (
                    omega arith,
                    same
                        ∙ take_one-inside (i' - (i + 1)) i j h.buf_maps
                        ∙ ap (λ m. h.buf_maps j + inside m i j)
                            (let m : suc (i' - (i + 1)) ≡ i' - i = omega arith in m),
                  )
          ]
        ]
      ]

  unwind-buf_maps : (n j i : ℕ) (h : Held) → (unwind s n i h).buf_maps j ≡ h.buf_maps j
  unfolding unwind
  unwind-buf_maps zero j i h = refl
  unwind-buf_maps (suc n) j i h = unwind-buf_maps n j (i + 1) (without_ring s i h)

  -- An error after the page entry leaves the buffers of the rings before it mapped: where the loop over
  -- the rings ends at the index `i`, or the interrupt is refused after it, those before `i` are held once
  -- more than before the call.
  pub add_with_leak :
      (type dd : ℕ) (page : Bytes) (d d1 : Device) (ret : ℤ)
      → add_with s (added type dd page) d ≡ some (ret, d1)
      → is_zero ret ≡ false
      → (j : ℕ)
      → d1.held.buf_maps j
        ≡ d.held.buf_maps j + inside (set_up s (num_vq (drop dd page)) 0 d.held).1 0 j
  unfolding add_with
  add_with_leak type dd page d d1 ret run bad j =
      let n = num_vq (drop dd page) in
      let (r, i, h) = set_up s n 0 d.held in
      let same = unwind-buf_maps i j 0 h ∙ (set_up-buf_maps n 0 j d.held).1 in
      let held : d1.held ≡ unwind s i 0 h = elim (Bool-cases (is_zero r)) [
        | inr failed ↦ ground arith
        | inl good ↦ elim (Bool-cases (is_zero s.irq)) [
          | inr refused ↦ ground arith
          | inl irq ↦ absurd (ground arith)
        ]
      ] in
      ap (λ x. x.buf_maps j) held
      ∙ same
      ∙ ap (λ m. d.held.buf_maps j + inside m 0 j) (let m : i - 0 ≡ i = omega arith in m)
