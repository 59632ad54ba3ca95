-- ===== src/AacSrb/Stray.antt =====
-- The address that the loop back uses where the list has no entry.
use doublefetch.Base.{
  ℕ, zero, suc, ◌≡◌, ◌≢◌, ◌<◌, true, false, List, [], ◌∷◌, Bytes, ◌==◌, if◌then◌else◌, ℤ, pos,
  negsuc, is_zero, is_err, erestartsys, arith, Bool-cases, inl, inr, ◌⊎◌, refl, ap, sym, subst, ◌∙◌,
}
use doublefetch.Kernel.{Kernel, World, tick}
use doublefetch.AacSrb.{
  SrbLayout, SrbAdapter, SrbCall, Sg, map_entries, map_list, actual32, actual64, copy_back,
  from_first, data_back, send_srb, with_request,
}
use doublefetch.AacSrb.Listed.{NoStray, NoStray-with_request}

zero_lem : (z : ℤ) → is_zero z ≡ true → z ≡ pos 0
zero_lem (pos zero) h = refl
zero_lem (pos (suc n)) h = absurd (ground arith)
zero_lem (negsuc n) h = absurd (ground arith)

module _ (k : Kernel) (l : SrbLayout) (a : SrbAdapter) where
  -- The way back for an empty list
  stray_back :
      (b : Bytes) (w : World SrbCall)
      → l.is_in (l.flags b) ≡ true
      → (data_back k l a b [] w).1.calls ≡ SrbCall.stray 0 ∷ w.calls
  unfolding from_first copy_back
  stray_back b w asks = elim (Bool-cases (a.stray_done w.clock)) [
    | inl good ↦ ground arith
    | inr bad ↦ ground arith
  ]

  -- Both sizes of an empty list are that of the request without entries.
  empty32 : (b : Bytes) → l.sg_count b ≡ 0 → actual32 l (l.sg_count b) ≡ l.srb_base
  empty32 b none_left = ap (λ n. actual32 l n) none_left ∙ (omega arith)

  empty64 : (b : Bytes) → l.sg_count b ≡ 0 → actual64 l (l.sg_count b) ≡ l.srb_base
  empty64 b none_left = ap (λ n. actual64 l n) none_left ∙ (omega arith)

  empty_sent :
      (arg fibsize : ℕ) (b : Bytes) (w : World SrbCall)
      → l.sg_count b ≡ 0
      → l.is_in (l.flags b) ≡ true
      → let sent = SrbCall.send a.is_host64 l.srb_base 0 (l.command b) [] ∷ w.calls in
        let calls = (send_srb k l a arg fibsize b [] w).1.calls in
        ((is_zero (a.fib_send w.clock) ≡ true) × (calls ≡ SrbCall.stray 0 ∷ sent))
        ⊎ ((is_zero (a.fib_send w.clock) ≡ false) × (calls ≡ sent))
  unfolding send_srb
  empty_sent arg fibsize b w none_left asks =
      let size : (if a.is_host64 then actual64 l (l.sg_count b) else actual32 l (l.sg_count b))
          ≡ l.srb_base =
        elim (Bool-cases a.is_host64) [
          | inl host ↦ ground (arith, empty64 b none_left)
          | inr host ↦ ground (arith, empty32 b none_left)
        ] in
      let w1 = record (tick w) {
        calls = SrbCall.send a.is_host64 l.srb_base 0 (l.command b) [] ∷ w.calls;
      } in
      let back = stray_back b w1 asks in
      elim (Bool-cases (is_zero (a.fib_send w.clock))) [
        | inl answered ↦
            (let zero_is = zero_lem (a.fib_send w.clock) answered in
              inl (
                answered,
                elim (Bool-cases (is_zero (data_back k l a b [] w1).0)) [
                  | inl fine ↦ ground (arith, size)
                  | inr bad ↦ ground (arith, size)
                ],
              ))
        | inr failed ↦ inr (
          failed,
          elim (Bool-cases (is_err erestartsys (a.fib_send w.clock))) [
            | inl interrupted ↦ ground (arith, size)
            | inr done ↦ ground (arith, size)
          ],
        )
      ]

  empty_listed :
      (arg fibsize : ℕ) (b : Bytes) (w : World SrbCall)
      → l.sg_count b ≡ 0
      → l.is_in (l.flags b) ≡ true
      → l.srb_base ≡ fibsize
      → (with_request k l a arg fibsize b w).1 ≡ (send_srb k l a arg fibsize b [] w).1
  unfolding with_request map_list map_entries
  empty_listed arg fibsize b w none_left asks fits =
      let actual = empty32 b none_left in
      let wide = empty64 b none_left in
      let loop : ℕ → (ℤ × List Sg) × World SrbCall = λ n.
        map_entries k l a (l.entry64 b) (λ i. (l.entry64 b i).1) (l.is_out (l.flags b)) n 0 [] w in
      let all : map_list k l a fibsize b w ≡ loop (l.sg_count b) = ground arith in
      let listed : map_list k l a fibsize b w ≡ ((pos 0, []), w) = all ∙ ap loop none_left in
      ground (arith, listed)

  empty_refused :
      (arg fibsize : ℕ) (b : Bytes) (w : World SrbCall)
      → l.sg_count b ≡ 0
      → (l.srb_base == fibsize) ≡ false
      → (with_request k l a arg fibsize b w).1 ≡ w
  unfolding with_request
  empty_refused arg fibsize b w none_left differs =
      let actual = empty32 b none_left in let wide = empty64 b none_left in ground arith

  -- For a request that asks for data back: where it has no entry, fits and is answered, the loop back, which
  -- runs for the indices up to `sg_indx`, copies to the address at index 0, which was never set. This is so
  -- whatever the adapter's kind. A request with an entry copies to no address that was never set, whatever it
  -- holds and whatever fails.
  pub with_request_stray :
      (arg fibsize : ℕ) (b : Bytes) (w : World SrbCall)
      → l.is_in (l.flags b) ≡ true
      → NoStray w.calls
      → let calls = (with_request k l a arg fibsize b w).1.calls in
        ((l.sg_count b ≡ 0)
          × (((l.srb_base ≡ fibsize)
                × (is_zero (a.fib_send w.clock) ≡ true)
                × (calls
                    ≡ SrbCall.stray 0
                      ∷ SrbCall.send a.is_host64 l.srb_base 0 (l.command b) []
                      ∷ w.calls))
              ⊎ (((l.srb_base ≢ fibsize) ⊎ (is_zero (a.fib_send w.clock) ≡ false))
                  × NoStray calls)))
        ⊎ ((0 < l.sg_count b) × NoStray calls)
  with_request_stray arg fibsize b w asks old = elim (Bool-cases (l.sg_count b == 0)) [
    | inr some_entry ↦
        (let more : 0 < l.sg_count b = ground arith in
          inr (more, NoStray-with_request k l a arg fibsize b w more old))
    | inl empty ↦
        (let none_left : l.sg_count b ≡ 0 = ground arith in
          elim (Bool-cases (l.srb_base == fibsize)) [
            | inr differs ↦
                (let same = empty_refused arg fibsize b w none_left differs in
                  inl (
                    none_left,
                    inr (inl (λ e. ground arith), subst (λ v. NoStray v.calls) (sym same) old),
                  ))
            | inl same ↦
                (let fits : l.srb_base ≡ fibsize = ground arith in
                  let step = empty_listed arg fibsize b w none_left asks fits in
                  elim (empty_sent arg fibsize b w none_left asks) [
                    | inl (answered, is) ↦
                        inl (none_left, inl (fits, answered, ap (λ v. v.calls) step ∙ is))
                    | inr (failed, is) ↦ inl (
                      none_left,
                      inr (inr failed, subst NoStray (sym (ap (λ v. v.calls) step ∙ is)) old),
                    )
                  ])
          ])
  ]
