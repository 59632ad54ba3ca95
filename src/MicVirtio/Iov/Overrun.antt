-- ===== src/MicVirtio/Iov/Overrun.antt =====
-- Where the last write of a copy to the user ends, from an address that is not aligned.
use doublefetch.Base.{
  ℕ, zero, suc, ◌+◌, ◌-◌, ◌%◌, ◌≡◌, ◌≤◌, ◌<◌, true, List, [], ◌∷◌, ◌==◌, ℤ, pos, is_zero, min,
  arith, ap, sym, ◌∙◌, Bool-cases, inl, inr, subst, ◌⊎◌,
}
use doublefetch.MicVirtio.Iov.{
  Card, IoCall, Vdev, int_buf_size, noted, align, sync_dma, to_user_loop, copy_to_user,
}

module _ (c : Card) where
  -- Where the last write to the user ends
  abbrev pub EndsAt : ℕ → List IoCall → Type 0
  EndsAt high [] = ⊥
  EndsAt high (IoCall.from_card d n ∷ cs) = ⊥
  EndsAt high (IoCall.to_card d n ∷ cs) = ⊥
  EndsAt high (IoCall.from_user u n ∷ cs) = ⊥
  EndsAt high (IoCall.user_to_card u d n ∷ cs) = ⊥
  EndsAt high (IoCall.to_user u o n ∷ cs) = u + n ≡ high

  to_user_loop-EndsAt :
      (n ubuf len daddr : ℕ) (v : Vdev)
      → len ≤ n
      → (0 < len) ⊎ EndsAt (ubuf + len) v.calls
      → is_zero (to_user_loop c n ubuf len daddr 0 v).0 ≡ true
      → EndsAt (ubuf + len) (to_user_loop c n ubuf len daddr 0 v).1.calls
  unfolding to_user_loop
  to_user_loop-EndsAt zero ubuf len daddr v le (inl h) e = absurd (omega arith)
  to_user_loop-EndsAt zero ubuf len daddr v le (inr h) e = h
  to_user_loop-EndsAt (suc n) ubuf len daddr v le h e =
      let part = min len int_buf_size in
      let v1 = noted c (IoCall.from_card daddr (align c part)) v in
      let v2 = noted c (IoCall.to_user ubuf 0 (part - 0)) v1 in
      let v3 = record v2 { in_bytes_dma = v2.in_bytes_dma + part; in_bytes = v2.in_bytes + part } in
      let all = to_user_loop c (suc n) ubuf len daddr 0 v in
      let End : ℤ × Vdev → Type 0 = λ r. EndsAt (ubuf + len) r.1.calls in
      elim (Bool-cases (len == 0)) [
        | inl none_left ↦
            (let step : all ≡ (pos 0, v) = ground arith in
              subst End (sym step)
                (elim h [ inl some_left ↦ absurd (ground arith) | inr there ↦ there ]))
        | inr some_left ↦ elim (Bool-cases (is_zero (sync_dma c v.clock))) [
          | inr failed ↦ absurd (ground arith)
          | inl fine ↦ elim (Bool-cases (c.user_writes v1.clock ubuf (part - 0))) [
            | inr fault ↦ absurd (ground arith)
            | inl wrote ↦
                (let step : all ≡ to_user_loop c n (ubuf + part) (len - part) (daddr + part) 0 v3 =
                    ground arith in
                  let more : (0 < len - part) ⊎ EndsAt (ubuf + part + (len - part)) v3.calls =
                    ground arith in
                  let rest =
                    to_user_loop-EndsAt n (ubuf + part) (len - part) (daddr + part) v3
                      (ground arith) more (ap (λ r. is_zero r.0) (sym step) ∙ e) in
                  subst End (sym step) (
                    subst
                      (λ t.
                        EndsAt t
                          (to_user_loop c n (ubuf + part) (len - part) (daddr + part) 0 v3).1.calls)
                      (let t : ubuf + part + (len - part) ≡ ubuf + len = omega arith in t) rest))
          ]
        ]
      ]

  first_round-EndsAt :
      (n ubuf len daddr o : ℕ) (v : Vdev)
      → int_buf_size < len
      → len ≤ suc n
      → is_zero (to_user_loop c (suc n) ubuf len daddr o v).0 ≡ true
      → EndsAt (ubuf + len) (to_user_loop c (suc n) ubuf len daddr o v).1.calls
  unfolding to_user_loop
  first_round-EndsAt n ubuf len daddr o v big le e =
      let part = min len int_buf_size in
      let v1 = noted c (IoCall.from_card daddr (align c part)) v in
      let v2 = noted c (IoCall.to_user ubuf o (part - o)) v1 in
      let v3 = record v2 { in_bytes_dma = v2.in_bytes_dma + part; in_bytes = v2.in_bytes + part } in
      let all = to_user_loop c (suc n) ubuf len daddr o v in
      elim (Bool-cases (is_zero (sync_dma c v.clock))) [
        | inr failed ↦ absurd (ground arith)
        | inl fine ↦ elim (Bool-cases (c.user_writes v1.clock ubuf (part - o))) [
          | inr fault ↦ absurd (ground arith)
          | inl wrote ↦
              (let step : all ≡ to_user_loop c n (ubuf + part) (len - part) (daddr + part) 0 v3 =
                  ground arith in
                let rest =
                  to_user_loop-EndsAt n (ubuf + part) (len - part) (daddr + part) v3 (omega arith)
                    (inl (omega arith)) (ap (λ r. is_zero r.0) (sym step) ∙ e) in
                let t : ubuf + part + (len - part) ≡ ubuf + len = omega arith in
                subst (λ r. EndsAt (ubuf + len) r.1.calls) (sym step)
                  (subst
                    (λ h.
                      EndsAt h
                        (to_user_loop c n (ubuf + part) (len - part) (daddr + part) 0 v3).1.calls)
                    t rest))
        ]
      ]

  -- From an address that is `o` bytes past an aligned one, with more than 64 KiB to copy, a call of
  -- `mic_virtio_copy_to_user` that succeeds ends its last write `o` bytes past the end of what it was
  -- asked for.
  pub copy_to_user_overrun :
      (ubuf len daddr : ℕ) (v : Vdev)
      → int_buf_size < len + daddr % c.alignment
      → is_zero (copy_to_user c ubuf len daddr v).0 ≡ true
      → EndsAt (ubuf + len + daddr % c.alignment) (copy_to_user c ubuf len daddr v).1.calls
  unfolding copy_to_user
  copy_to_user_overrun ubuf len daddr v big e =
      let o = daddr % c.alignment in
      let f : suc (len + o - 1) ≡ len + o = omega arith in
      let loop : ℕ → ℤ × Vdev = λ n. to_user_loop c n ubuf (len + o) (daddr - o) o v in
      let high : ubuf + (len + o) ≡ ubuf + len + o = omega arith in
      subst (λ h. EndsAt h (loop (len + o)).1.calls) high
        (subst (λ n. EndsAt (ubuf + (len + o)) (loop n).1.calls) f
          (first_round-EndsAt (len + o - 1) ubuf (len + o) (daddr - o) o v big (omega arith)
            (ap (λ n. is_zero (loop n).0) f ∙ e)))
