-- ===== src/MicVirtio/Iov/Conserve.antt =====
-- `mic_vringh_copy` counts what it copies, and gives each element back as it was.
use doublefetch.Base.{
  ℕ, ◌+◌, ◌-◌, ◌%◌, ◌≡◌, ◌≤◌, ◌<◌, false, List, [], ◌∷◌, ◌==◌, ℤ, pos, is_zero, min, arith,
  reverse_aux, refl, ap, ap₂, sym, ◌∙◌, Bool-cases, inl, inr, subst, ◌⊎◌,
}
use doublefetch.MicVirtio.Iov.{Vdev, Elem, Kiov, sum_len, iov_consumed, vringh_copy}

-- The elements as they were before any of them was consumed
abbrev pub restored : List Elem → ℕ → List Elem
restored [] consumed = []
restored (e ∷ es) consumed = record { base = e.base - consumed; len = e.len + consumed } ∷ es

abbrev pub original : Kiov → List Elem
original iov = reverse_aux iov.past (restored iov.rest iov.consumed)

abbrev Within : List Elem → ℕ → Type 0
Within [] consumed = consumed ≡ 0
Within (e ∷ es) consumed = consumed ≤ e.base

-- What is consumed of the first element lies before its base.
abbrev pub IsSound : Kiov → Type 0
IsSound iov = Within iov.rest iov.consumed

Within-zero : (es : List Elem) → Within es 0
Within-zero [] = refl
Within-zero (e ∷ es) = omega arith

restored-zero : (es : List Elem) → restored es 0 ≡ es
restored-zero [] = refl
restored-zero (e ∷ es) = ground arith

module _ (xfer : (ubuf len daddr dlen : ℕ) → Vdev → ℤ × Vdev) where
  -- What a copy of at most `len` bytes from some elements leaves
  abbrev pub Counted : Kiov → (len total : ℕ) → ℤ × ℕ × Kiov × Vdev → Type 0
  Counted iov len total r =
      (original r.2 ≡ original iov)
      × IsSound r.2
      × (total ≤ r.1)
      × (r.1 ≤ total + len)
      × (r.2.consumed + sum_len r.2.past + total ≡ iov.consumed + sum_len iov.past + r.1)
      × (sum_len r.2.rest + r.1 ≡ sum_len iov.rest + total)
      × ((is_zero r.0 ≡ false) ⊎ (r.1 ≡ total + min len (sum_len iov.rest)))

  pub vringh_copy-Counted :
      (rest past : List Elem) (consumed ubuf len total : ℕ) (v : Vdev)
      → Within rest consumed
      → Counted
          (record { past = past; rest = rest; consumed = consumed })
          len
          total
          (vringh_copy xfer rest past consumed ubuf len total v)
  unfolding vringh_copy
  vringh_copy-Counted [] past consumed ubuf len total v h =
      (refl, h, omega arith, omega arith, omega arith, omega arith, inr (omega arith))
  vringh_copy-Counted (e ∷ es) past consumed ubuf len total v h =
      let part = min e.len len in
      let r = xfer ubuf part e.base e.len v in
      let iov : Kiov = record { past = past; rest = e ∷ es; consumed = consumed } in
      let all = vringh_copy xfer (e ∷ es) past consumed ubuf len total v in
      elim (Bool-cases (len == 0)) [
        | inl none_left ↦
            let step : all ≡ (pos 0, total, iov, v) = ground arith in
            subst (Counted iov len total) (sym step)
              (refl, h, omega arith, omega arith, omega arith, omega arith, inr (ground arith))
        | inr some_left ↦ elim (Bool-cases (is_zero r.0)) [
          | inr failed ↦
              let step : all ≡ (r.0, total, iov, r.1) = ground arith in
              subst (Counted iov len total) (sym step)
                (refl, h, omega arith, omega arith, omega arith, omega arith, inl failed)
          | inl fine ↦ elim (Bool-cases (e.len - part == 0)) [
            | inr partly ↦
                let iov' : Kiov = record {
                  past = past;
                  rest = record { base = e.base + part; len = e.len - part } ∷ es;
                  consumed = consumed + part;
                } in
                let step : all ≡ (pos 0, total + part, iov', r.1) = ground arith in
                let less : part < e.len = ground arith in
                subst (Counted iov len total) (sym step) (
                  ap (reverse_aux past) (
                      ap₂ (λ x y. (let f : Elem = record { base = x; len = y } in f) ∷ es)
                        (omega arith) (omega arith)),
                  omega arith,
                  omega arith,
                  omega arith,
                  omega arith,
                  omega arith,
                  inr (omega arith),
                )
            | inl whole ↦
                let back : Elem = record {
                  base = e.base + part - (consumed + part);
                  len = consumed + part;
                } in
                let step : all
                    ≡ vringh_copy xfer es (back ∷ past) 0 (ubuf + part) (len - part) (total + part)
                        r.1 =
                  ground arith in
                let full : part ≡ e.len = ground arith in
                let (same, sound, low, high, count, left, out) =
                  vringh_copy-Counted es (back ∷ past) 0 (ubuf + part) (len - part) (total + part)
                    r.1 (Within-zero es) in
                subst (Counted iov len total) (sym step) (
                  same
                      ∙ ap (reverse_aux past) (
                          ap₂ ◌∷◌
                            (ap₂ (λ x y. let f : Elem = record { base = x; len = y } in f)
                              (omega arith) (omega arith))
                            (restored-zero es)),
                  sound,
                  omega arith,
                  omega arith,
                  omega arith,
                  omega arith,
                  elim out [ inl bad ↦ inl bad | inr good ↦ inr (omega arith) ],
                )
          ]
        ]
      ]

  -- One call of `mic_vringh_copy`, for elements of which less is consumed than lies before their base:
  -- each element is given back with its old base and length, what is counted as consumed grows by
  -- `out_len` (as a u32), what is left shrinks by it, and it is at most `len`, and all that there was
  -- room for where no copy failed.
  pub vringh_copy-conserve :
      (iov : Kiov) (ubuf len : ℕ) (v : Vdev)
      → IsSound iov
      → let r = vringh_copy xfer iov.rest iov.past iov.consumed ubuf len 0 v in
        (original r.2 ≡ original iov)
        × IsSound r.2
        × (iov_consumed r.2 ≡ (iov_consumed iov + r.1) % 4294967296)
        × (sum_len r.2.rest + r.1 ≡ sum_len iov.rest)
        × (r.1 ≤ len)
        × ((is_zero r.0 ≡ false) ⊎ (r.1 ≡ min len (sum_len iov.rest)))
  vringh_copy-conserve iov ubuf len v h =
      let (same, sound, low, high, count, left, out) =
        vringh_copy-Counted iov.rest iov.past iov.consumed ubuf len 0 v h in
      (
        same,
        sound,
        omega arith,
        omega arith,
        omega arith,
        elim out [ inl bad ↦ inl bad | inr good ↦ inr (omega arith) ],
      )

  -- A copy that does not fail, and does not come to `len` bytes, leaves no element.
  pub vringh_copy-exhausts :
      (rest past : List Elem) (consumed ubuf len total : ℕ) (v : Vdev)
      → let r = vringh_copy xfer rest past consumed ubuf len total v in
        (is_zero r.0 ≡ false) ⊎ (total + len ≤ r.1) ⊎ (r.2.rest ≡ [])
  unfolding vringh_copy
  vringh_copy-exhausts [] past consumed ubuf len total v = inr (inr refl)
  vringh_copy-exhausts (e ∷ es) past consumed ubuf len total v =
      let part = min e.len len in
      let r = xfer ubuf part e.base e.len v in
      let P : ℤ × ℕ × Kiov × Vdev → Type 0 =
        λ z. (is_zero z.0 ≡ false) ⊎ (total + len ≤ z.1) ⊎ (z.2.rest ≡ []) in
      let iov : Kiov = record { past = past; rest = e ∷ es; consumed = consumed } in
      let all = vringh_copy xfer (e ∷ es) past consumed ubuf len total v in
      elim (Bool-cases (len == 0)) [
        | inl none_left ↦
            (let step : all ≡ (pos 0, total, iov, v) = ground arith in
              subst P (sym step) (inr (inl (ground arith))))
        | inr some_left ↦ elim (Bool-cases (is_zero r.0)) [
          | inr failed ↦
              (let step : all ≡ (r.0, total, iov, r.1) = ground arith in
                subst P (sym step) (inl failed))
          | inl fine ↦ elim (Bool-cases (e.len - part == 0)) [
            | inr partly ↦
                (let iov' : Kiov = record {
                  past = past;
                  rest = record { base = e.base + part; len = e.len - part } ∷ es;
                  consumed = consumed + part;
                } in
                  let step : all ≡ (pos 0, total + part, iov', r.1) = ground arith in
                  let less : part < e.len = ground arith in
                  subst P (sym step) (inr (inl (omega arith))))
            | inl whole ↦
                (let back : Elem = record {
                  base = e.base + part - (consumed + part);
                  len = consumed + part;
                } in
                  let step : all
                      ≡ vringh_copy xfer es (back ∷ past) 0 (ubuf + part) (len - part)
                          (total + part) r.1 =
                    ground arith in
                  let rest =
                    vringh_copy-exhausts es (back ∷ past) 0 (ubuf + part) (len - part)
                      (total + part) r.1 in
                  subst P (sym step) (elim rest [
                    | inl a ↦ inl a
                    | inr (inl b) ↦ inr (inl (omega arith))
                    | inr (inr d) ↦ inr (inr d)
                  ]))
          ]
        ]
      ]
