-- ===== src/MicVirtio/Iov/Ranges.antt =====
-- Which bytes of the user the copies touch.
use doublefetch.Base.{
  ℕ, zero, suc, ◌+◌, ◌-◌, ◌%◌, ◌≡◌, ◌≤◌, List, [], ◌∷◌, ◌==◌, ltb, ℤ, pos, err, efault, is_zero,
  min, arith, sym, Bool-cases, inl, inr, subst,
}
use doublefetch.MicVirtio.Iov.{
  Card, IoCall, Vdev, int_buf_size, noted, align, sync_dma, to_user_loop, copy_to_user, copied,
  from_user_loop, copy_from_user,
}

-- Every access to the user's memory lies between two addresses.
abbrev pub AllBetween : (low high : ℕ) → List IoCall → Type 0
AllBetween low high [] = Unit
AllBetween low high (IoCall.from_card d n ∷ cs) = AllBetween low high cs
AllBetween low high (IoCall.to_card d n ∷ cs) = AllBetween low high cs
AllBetween low high (IoCall.to_user u o n ∷ cs) =
    (low ≤ u) × (u + n ≤ high) × AllBetween low high cs
AllBetween low high (IoCall.from_user u n ∷ cs) =
    (low ≤ u) × (u + n ≤ high) × AllBetween low high cs
AllBetween low high (IoCall.user_to_card u d n ∷ cs) =
    (low ≤ u) × (u + n ≤ high) × AllBetween low high cs

module _ (c : Card) (low high : ℕ) where
  abbrev Kept : ℤ × Vdev → Type 0
  Kept r = AllBetween low high r.1.calls

  to_user_loop-AllBetween :
      (n ubuf len daddr : ℕ) (v : Vdev)
      → low ≤ ubuf
      → ubuf + len ≤ high
      → AllBetween low high v.calls
      → AllBetween low high (to_user_loop c n ubuf len daddr 0 v).1.calls
  unfolding to_user_loop
  to_user_loop-AllBetween zero ubuf len daddr v l h old = old
  to_user_loop-AllBetween (suc n) ubuf len daddr v l h old =
      let part = min len int_buf_size in
      let v1 = noted c (IoCall.from_card daddr (align c part)) v in
      let v2 = noted c (IoCall.to_user ubuf 0 (part - 0)) v1 in
      let v3 = record v2 { in_bytes_dma = v2.in_bytes_dma + part; in_bytes = v2.in_bytes + part } in
      let all = to_user_loop c (suc n) ubuf len daddr 0 v in
      elim (Bool-cases (len == 0)) [
        | inl none_left ↦ (let step : all ≡ (pos 0, v) = ground arith in subst Kept (sym step) old)
        | inr some_left ↦ elim (Bool-cases (is_zero (sync_dma c v.clock))) [
          | inr failed ↦
              (let step : all ≡ (sync_dma c v.clock, v1) = ground arith in
                subst Kept (sym step) old)
          | inl fine ↦ elim (Bool-cases (c.user_writes v1.clock ubuf (part - 0))) [
            | inr fault ↦
                (let step : all ≡ (err efault, v2) = ground arith in
                  subst Kept (sym step) (l, omega arith, old))
            | inl wrote ↦
                (let step : all ≡ to_user_loop c n (ubuf + part) (len - part) (daddr + part) 0 v3 =
                    ground arith in
                  subst Kept (sym step) (
                    to_user_loop-AllBetween n (ubuf + part) (len - part) (daddr + part) v3
                      (omega arith) (omega arith) (l, omega arith, old)))
          ]
        ]
      ]

  from_user_loop-AllBetween :
      (n ubuf len daddr : ℕ) (v : Vdev)
      → low ≤ ubuf
      → ubuf + len ≤ high
      → AllBetween low high v.calls
      → AllBetween low high (from_user_loop c n ubuf len daddr v).1.calls
  unfolding from_user_loop
  from_user_loop-AllBetween zero ubuf len daddr v l h old = ground arith
  from_user_loop-AllBetween (suc n) ubuf len daddr v l h old =
      let part = min len int_buf_size in
      let v1 = noted c (IoCall.from_user ubuf part) v in
      let v2 = noted c (IoCall.to_card daddr (align c part)) v1 in
      let v3 = record v2 {
        out_bytes_dma = v2.out_bytes_dma + part;
        out_bytes = v2.out_bytes + part;
      } in
      let all = from_user_loop c (suc n) ubuf len daddr v in
      let now : AllBetween low high v1.calls = (l, omega arith, old) in
      elim (Bool-cases (len == 0)) [
        | inl none_left ↦
            (let step : all ≡ copied c ubuf len daddr v = ground arith in
              subst Kept (sym step) (ground arith))
        | inr some_left ↦ elim (Bool-cases (c.user_reads v.clock ubuf part)) [
          | inr fault ↦
              (let step : all ≡ (err efault, v1) = ground arith in subst Kept (sym step) now)
          | inl read ↦ elim (Bool-cases (is_zero (sync_dma c v1.clock))) [
            | inr failed ↦
                (let step : all ≡ (sync_dma c v1.clock, v2) = ground arith in
                  subst Kept (sym step) now)
            | inl fine ↦
                (let step : all ≡ from_user_loop c n (ubuf + part) (len - part) (daddr + part) v3 =
                    ground arith in
                  subst Kept (sym step) (
                    from_user_loop-AllBetween n (ubuf + part) (len - part) (daddr + part) v3
                      (omega arith) (omega arith) now))
          ]
        ]
      ]

module _ (c : Card) where
  copied-AllBetween :
      (ubuf len daddr : ℕ) (v : Vdev)
      → AllBetween ubuf (ubuf + len) v.calls
      → AllBetween ubuf (ubuf + len) (copied c ubuf len daddr v).1.calls
  copied-AllBetween ubuf len daddr v old = ground arith

  -- `mic_virtio_copy_from_user` reads only the `len` bytes of the user that it was asked for, with DMA
  -- and without, whatever fails.
  pub copy_from_user-AllBetween :
      (ubuf len daddr dlen : ℕ) (v : Vdev)
      → AllBetween ubuf (ubuf + len) v.calls
      → AllBetween ubuf (ubuf + len) (copy_from_user c ubuf len daddr dlen v).1.calls
  unfolding copy_from_user
  copy_from_user-AllBetween ubuf len daddr dlen v old =
      let looped =
        from_user_loop-AllBetween c ubuf (ubuf + len) len ubuf len daddr v (omega arith)
          (omega arith) old in
      elim (Bool-cases ((daddr % c.alignment) == 0)) [
        | inr off ↦
            (let v1 = record v { tx_dst_unaligned = v.tx_dst_unaligned + len } in
              let step : copy_from_user c ubuf len daddr dlen v ≡ copied c ubuf len daddr v1 =
                ground arith in
              subst (Kept c ubuf (ubuf + len)) (sym step) (copied-AllBetween ubuf len daddr v1 old))
        | inl on ↦ elim (Bool-cases (ltb dlen (align c len))) [
          | inl past ↦
              (let v1 = record v { tx_len_unaligned = v.tx_len_unaligned + len } in
                let step : copy_from_user c ubuf len daddr dlen v ≡ copied c ubuf len daddr v1 =
                  ground arith in
                subst (Kept c ubuf (ubuf + len)) (sym step)
                  (copied-AllBetween ubuf len daddr v1 old))
          | inr fits ↦
              (let step : copy_from_user c ubuf len daddr dlen v
                    ≡ from_user_loop c len ubuf len daddr v =
                  ground arith in
                subst (Kept c ubuf (ubuf + len)) (sym step) looped)
        ]
      ]

  -- From an aligned address, `mic_virtio_copy_to_user` writes only the `len` bytes of the user that it
  -- was asked for, whatever fails.
  pub copy_to_user-AllBetween :
      (ubuf len daddr : ℕ) (v : Vdev)
      → daddr % c.alignment ≡ 0
      → AllBetween ubuf (ubuf + len) v.calls
      → AllBetween ubuf (ubuf + len) (copy_to_user c ubuf len daddr v).1.calls
  unfolding copy_to_user
  copy_to_user-AllBetween ubuf len daddr v e old =
      subst
        (λ o.
          AllBetween ubuf (ubuf + len)
            (to_user_loop c (len + o) ubuf (len + o) (daddr - o) o v).1.calls)
        (sym e)
        (to_user_loop-AllBetween c ubuf (ubuf + len) (len + 0) ubuf (len + 0) (daddr - 0) v
          (omega arith) (omega arith) old)
