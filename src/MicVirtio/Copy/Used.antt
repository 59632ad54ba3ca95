-- ===== src/MicVirtio/Copy/Used.antt =====
-- The loop of `_mic_virtio_copy` ends, and what it reports to the used ring is what it copied.
use doublefetch.Base.{
  ℕ, zero, suc, ◌+◌, ◌-◌, ◌≡◌, ◌≤◌, ◌<◌, true, false, Option, some, ◌==◌, ◌&&◌, if◌then◌else◌, err,
  is_zero, einval, arith, refl, ap₂, sym, Bool-cases, Option-cases, inl, inr, subst, ◌⊎◌,
}
use doublefetch.MicVirtio.Iov.{Card, Vdev, sum_len, copy_to_user, copy_from_user}
use doublefetch.MicVirtio.Iov.Conserve.{IsSound, vringh_copy-Counted, vringh_copy-exhausts}
use doublefetch.MicVirtio.Copy.{
  Source, Loop, is_empty, exhausted, read_iov, write_iov, round, copy_loop,
}

-- What both iovs have consumed
abbrev pub consumed : Loop → ℕ
consumed l = l.riov.consumed + sum_len l.riov.past + (l.wiov.consumed + sum_len l.wiov.past)

abbrev pub AreSound : Loop → Type 0
AreSound l = IsSound l.riov × IsSound l.wiov

-- From a state to a later one: no more is reported than was consumed, and just that where no copy failed
abbrev pub Reports : Loop → Loop → Type 0
Reports l l' =
    AreSound l'
    × (consumed l + l'.out_len ≤ consumed l' + l.out_len)
    × ((is_zero l'.ret ≡ false) ⊎ (consumed l + l'.out_len ≡ consumed l' + l.out_len))

-- A round that does not fail leaves nothing of the iovec, or no element.
abbrev Ends : ℕ × Loop → Type 0
Ends r = (is_zero r.1.ret ≡ false) ⊎ (r.0 ≡ 0) ⊎ (exhausted r.1.riov r.1.wiov ≡ true)

module _ (c : Card) (s : Source) where
  round-Reports :
      (ubuf len : ℕ) (l : Loop)
      → AreSound l
      → Reports l (round c s ubuf len l).1 × Ends (round c s ubuf len l)
  unfolding round
  round-Reports ubuf len l (sr, sw) =
      let xr = λ (u n d dlen : ℕ) (v : Vdev). copy_to_user c u n d v in
      let xw = λ (u n d dlen : ℕ) (v : Vdev). copy_from_user c u n d dlen v in
      let (r1, o1, riov, v1) = read_iov c s ubuf len l in
      let l1 : Loop = record {
        ret = r1;
        out_len = l.out_len + o1;
        riov = riov;
        wiov = l.wiov;
        vdev = v1;
      } in
      let (r2, o2, wiov, v2) = write_iov c s (ubuf + o1) (len - o1) l1 in
      let (_, sr', _, high1, count1, left1, out1) =
        vringh_copy-Counted xr l.riov.rest l.riov.past l.riov.consumed ubuf len 0 l.vdev sr in
      let (_, sw', _, high2, count2, left2, out2) =
        vringh_copy-Counted xw l.wiov.rest l.wiov.past l.wiov.consumed (ubuf + o1) (len - o1) 0 v1
          sw in
      let ex1 = vringh_copy-exhausts xr l.riov.rest l.riov.past l.riov.consumed ubuf len 0 l.vdev in
      let ex2 =
        vringh_copy-exhausts xw l.wiov.rest l.wiov.past l.wiov.consumed (ubuf + o1) (len - o1) 0
          v1 in
      elim (Bool-cases (is_zero r1)) [
        | inr bad ↦
            (let step : round c s ubuf len l ≡ (len, record l1 { out_len = l.out_len }) =
                ground arith in
              subst (λ r. Reports l r.1 × Ends r) (sym step)
                (((sr', sw), omega arith, inl bad), inl bad))
        | inl fine ↦ elim (Bool-cases (is_zero r2)) [
          | inr bad ↦
              (let step : round c s ubuf len l
                    ≡ (len - o1, record l1 { ret = r2; wiov = wiov; vdev = v2 }) =
                  ground arith in
                subst (λ r. Reports l r.1 × Ends r) (sym step)
                  (((sr', sw'), omega arith, inl bad), inl bad))
          | inl good ↦
              (let l2 = record l1 {
                ret = r2;
                out_len = l.out_len + o1 + o2;
                wiov = wiov;
                vdev = v2;
              } in
                let ends : Ends (len - o1 - o2, l2) = elim ex1 [
                  | inl b ↦ absurd (cc)
                  | inr (inl h) ↦ inr (inl (omega arith))
                  | inr (inr e1) ↦ elim ex2 [
                    | inl b ↦ absurd (cc)
                    | inr (inl h) ↦ inr (inl (omega arith))
                    | inr (inr e2) ↦ inr (inr (ap₂ (λ x y. is_empty x && is_empty y) e1 e2))
                  ]
                ] in
                let step : round c s ubuf len l ≡ (len - o1 - o2, l2) = ground arith in
                subst (λ r. Reports l r.1 × Ends r) (sym step)
                  (((sr', sw'), omega arith, inr (omega arith)), ends))
        ]
      ]

  Reports-trans : (a b d : Loop) → is_zero b.ret ≡ true → Reports a b → Reports b d → Reports a d
  Reports-trans a b d fine (sa, le, eq) (sb, le2, eq2) = (
    sb,
    omega arith,
    elim eq [
      | inl bad ↦ absurd (cc)
      | inr same ↦ elim eq2 [ inl bad2 ↦ inl bad2 | inr same2 ↦ inr (omega arith) ]
    ],
  )

  -- With more fuel than there are iovecs the loop ends. What it reports to the user as copied is at most
  -- what it consumed of the descriptors, and just that where no copy failed.
  pub copy_loop-Reports :
      (n iovcnt u_iov ubuf len : ℕ) (l : Loop)
      → iovcnt < n
      → AreSound l
      → (l' : Loop) × (copy_loop c s n iovcnt u_iov ubuf len l ≡ some l') × Reports l l'
  unfolding copy_loop
  copy_loop-Reports zero iovcnt u_iov ubuf len l h sound = absurd (omega arith)
  copy_loop-Reports (suc n) iovcnt u_iov ubuf len l h sound =
      let source : Option (ℕ × ℕ) =
        if len == 0 then s.iovec l.vdev.clock u_iov else some (ubuf, len) in
      elim (Bool-cases (iovcnt == 0)) [
        | inl done ↦ (l, ground arith, (sound, omega arith, inr refl))
        | inr more ↦ elim (Option-cases source) [
          | inl e ↦ (record l { ret = err einval }, ground arith, (sound, omega arith, inl refl))
          | inr ((base, size), e) ↦
              let (ok, ends) = round-Reports base size l sound in
              let left = (round c s base size l).0 in
              let l1 = (round c s base size l).1 in
              elim (Bool-cases (is_zero l1.ret)) [
                | inr bad ↦ (l1, ground arith, ok)
                | inl fine ↦ elim (Bool-cases (exhausted l1.riov l1.wiov)) [
                  | inl out ↦ (l1, ground arith, ok)
                  | inr some_left ↦
                      let none_left : left ≡ 0 = ground arith in
                      let (l2, run, ok2) =
                        copy_loop-Reports n (iovcnt - 1) (u_iov + 16) 0 0 l1 (ground arith) ok.0 in
                      (l2, ground arith, Reports-trans l l1 l2 fine ok ok2)
                ]
              ]
        ]
      ]
