-- ===== src/AacSrb/Listed.antt =====
-- A list that has an entry: every address that the loop back uses was set.
use doublefetch.Base.{
  ℕ, zero, suc, ◌+◌, ◌-◌, ◌≡◌, ◌≤◌, ◌<◌, Bool, false, some, List, [], ◌∷◌, Bytes, length, ltb, ◌==◌,
  ◌&&◌, ◌||◌, not, ℤ, err, is_zero, einval, enomem, efault, reverse_aux, arith, Bool-cases,
  Option-cases, inl, inr, ◌⊎◌, refl, sym, subst,
}
use doublefetch.Kernel.{Kernel, Block, World, tick}
use doublefetch.AacSrb.{
  SrbLayout, SrbAdapter, SrbCall, Sg, slot, sg_indx, limit, fill_buffer, map_entries, map_copied,
  map_list, actual32, actual64, copy_back, from_first, data_back, send_srb, with_request,
}
use doublefetch.AacSrb.Fill.{calls-map_entries, calls-send_srb}

-- No copy uses an address that was never set.
abbrev pub NoStray : List SrbCall → Type 0
NoStray [] = Unit
NoStray (SrbCall.stray i ∷ cs) = ⊥
NoStray (SrbCall.fill room len ∷ cs) = NoStray cs
NoStray (SrbCall.send w n c d ls ∷ cs) = NoStray cs
NoStray (SrbCall.complete ∷ cs) = NoStray cs

has_slot : (gs : List Sg) (i : ℕ) → i < length gs → (g : Sg) × (slot gs i ≡ some g)
has_slot [] i h = absurd (omega arith)
has_slot (g ∷ gs) zero h = (g, refl)
has_slot (g ∷ gs) (suc i) h = has_slot gs i (omega arith)

length-reverse_aux : (gs hs : List Sg) → length (reverse_aux gs hs) ≡ length gs + length hs
length-reverse_aux [] hs = omega arith
length-reverse_aux (g ∷ gs) hs = omega (arith, length-reverse_aux gs (g ∷ hs))

module _ (k : Kernel) (l : SrbLayout) (a : SrbAdapter) where
  NoStray-copy_back :
      (n i : ℕ) (gs : List Sg) (w : World SrbCall)
      → i + n ≤ length gs
      → NoStray w.calls
      → NoStray (copy_back k l a n i gs w).1.calls
  unfolding copy_back
  NoStray-copy_back zero i gs w h old = old
  NoStray-copy_back (suc n) i gs w h old =
      let (g, set) = has_slot gs i (omega arith) in
      let bytes = a.filled w.clock (a.count_after w.clock i g.len) in
      let w1 = record (tick w) { writes = (g.addr, bytes) ∷ w.writes } in
      let later = NoStray-copy_back n (i + 1) gs w1 (omega arith) old in
      elim (Bool-cases (k.store w.clock g.addr bytes)) [
        | inl good ↦
            (let step : (copy_back k l a (suc n) i gs w).1 ≡ (copy_back k l a n (i + 1) gs w1).1 =
                ground arith in
              subst (λ v. NoStray v.calls) (sym step) later)
        | inr bad ↦
            (let step : (copy_back k l a (suc n) i gs w).1 ≡ w1 = ground arith in
              subst (λ v. NoStray v.calls) (sym step) old)
      ]

  NoStray-data_back :
      (b : Bytes) (gs : List Sg) (w : World SrbCall)
      → 0 < length gs
      → NoStray w.calls
      → NoStray (data_back k l a b gs w).1.calls
  unfolding from_first
  NoStray-data_back b gs w some_buffer old = elim (Bool-cases (l.is_in (l.flags b))) [
    | inr off ↦
        (let step : (data_back k l a b gs w).1 ≡ w = ground arith in
          subst (λ v. NoStray v.calls) (sym step) old)
    | inl on ↦
        (let all = reverse_aux gs [] in
          let size = length-reverse_aux gs [] in
          let step : (data_back k l a b gs w).1 ≡ (copy_back k l a (sg_indx all + 1) 0 all w).1 =
            ground arith in
          subst (λ v. NoStray v.calls) (sym step)
            (NoStray-copy_back (sg_indx all + 1) 0 all w (omega (arith, size)) old))
  ]

  -- A loop over the entries that succeeds leaves a buffer, if there was an entry or a buffer before.
  length-map_entries :
      (entry : ℕ → ℕ × ℕ) (copied : ℕ → ℕ) (is_out : Bool) (n i : ℕ) (gs : List Sg)
      (w : World SrbCall)
      → 0 < n + length gs
      → let r = map_entries k l a entry copied is_out n i gs w in
        (is_zero r.0.0 ≡ false) ⊎ (0 < length r.0.1)
  unfolding map_entries
  length-map_entries entry copied is_out zero i gs w h = inr (omega arith)
  length-map_entries entry copied is_out (suc n) i gs w h =
      let all = map_entries k l a entry copied is_out (suc n) i gs w in
      let P : (ℤ × List Sg) × World SrbCall → Type 0 =
        λ r. (is_zero r.0.0 ≡ false) ⊎ (0 < length r.0.1) in
      elim (Bool-cases (ltb (limit k l a) (entry i).1)) [
        | inl large ↦
            (let step : all ≡ ((err einval, gs), w) = ground arith in subst P (sym step) (inl refl))
        | inr small ↦ elim (Option-cases (k.fresh w.clock (entry i).1)) [
          | inl full ↦
              (let step : all ≡ ((err enomem, gs), tick w) = ground arith in
                subst P (sym step) (inl refl))
          | inr (bytes, got) ↦
              (let g : Sg = record { addr = (entry i).0; id = w.clock; len = (entry i).1 } in
                let w1 = record (tick w) { live = w.clock ∷ w.live } in
                let block : Block = record { id = w.clock; bytes = bytes } in
                let (done, w2) = fill_buffer k l a entry copied is_out i block w1 in
                elim (Bool-cases done) [
                  | inr bad ↦
                      (let step : all ≡ ((err efault, g ∷ gs), w2) = ground arith in
                        subst P (sym step) (inl refl))
                  | inl good ↦
                      (let step : all
                            ≡ map_entries k l a entry copied is_out n (i + 1) (g ∷ gs) w2 =
                          ground arith in
                        subst P (sym step) (
                          length-map_entries entry copied is_out n (i + 1) (g ∷ gs) w2
                            (omega arith)))
                ])
        ]
      ]

  -- What the loops leave: no stray copy, and a buffer, or an error
  abbrev Filled : (ℤ × List Sg) × World SrbCall → Type 0
  Filled r = NoStray r.1.calls × ((is_zero r.0.0 ≡ false) ⊎ (0 < length r.0.1))

  Filled-map_entries :
      (entry : ℕ → ℕ × ℕ) (copied : ℕ → ℕ) (b : Bytes) (w : World SrbCall)
      → 0 < l.sg_count b
      → NoStray w.calls
      → Filled (map_entries k l a entry copied (l.is_out (l.flags b)) (l.sg_count b) 0 [] w)
  Filled-map_entries entry copied b w some_entry old = (
    calls-map_entries k l a entry copied (l.is_out (l.flags b)) NoStray (λ i cs h. h) (l.sg_count b)
        0 [] w old,
    length-map_entries entry copied (l.is_out (l.flags b)) (l.sg_count b) 0 [] w (omega arith),
  )

  Filled-map_copied :
      (b : Bytes) (w : World SrbCall)
      → 0 < l.sg_count b
      → NoStray w.calls
      → Filled (map_copied k l a b w)
  unfolding map_copied
  Filled-map_copied b w some_entry old =
      let size = actual32 l (l.sg_count b) + l.sgmap - (l.srb_base + l.sg32) in
      elim (Option-cases (k.fresh w.clock size)) [
        | inl full ↦
            (let step : map_copied k l a b w ≡ ((err enomem, []), tick w) = ground arith in
              subst Filled (sym step) (old, inl refl))
        | inr (bytes, got) ↦
            (let w1 = record (tick w) { live = w.clock ∷ w.live } in
              let (kept, one) =
                Filled-map_entries (l.entry32 b) (λ i. (l.entry64 b i).1) b w1 some_entry old in
              let r =
                map_entries k l a (l.entry32 b) (λ i. (l.entry64 b i).1) (l.is_out (l.flags b))
                  (l.sg_count b) 0 [] w1 in
              let calls : (map_copied k l a b w).1.calls ≡ r.1.calls = ground arith in
              let same : (map_copied k l a b w).0 ≡ r.0 = ground arith in
              (
                subst NoStray (sym calls) kept,
                subst (λ x. (is_zero x.0 ≡ false) ⊎ (0 < length x.1)) (sym same) one,
              ))
      ]

  Filled-map_list :
      (fibsize : ℕ) (b : Bytes) (w : World SrbCall)
      → 0 < l.sg_count b
      → NoStray w.calls
      → Filled (map_list k l a fibsize b w)
  unfolding map_list
  Filled-map_list fibsize b w some_entry old =
      elim (Bool-cases (actual64 l (l.sg_count b) == fibsize)) [
        | inl wide ↦
            (let step : map_list k l a fibsize b w
                  ≡ map_entries k l a (l.entry64 b) (λ i. (l.entry64 b i).1) (l.is_out (l.flags b))
                      (l.sg_count b) 0 [] w =
                ground arith in
              subst Filled (sym step)
                (Filled-map_entries (l.entry64 b) (λ i. (l.entry64 b i).1) b w some_entry old))
        | inr short ↦ elim (Bool-cases a.is_host64) [
          | inl host ↦
              (let step : map_list k l a fibsize b w ≡ map_copied k l a b w = ground arith in
                subst Filled (sym step) (Filled-map_copied b w some_entry old))
          | inr host ↦
              (let step : map_list k l a fibsize b w
                    ≡ map_entries k l a (l.entry32 b) (λ i. (l.entry32 b i).1)
                        (l.is_out (l.flags b)) (l.sg_count b) 0 [] w =
                  ground arith in
                subst Filled (sym step)
                  (Filled-map_entries (l.entry32 b) (λ i. (l.entry32 b i).1) b w some_entry old))
        ]
      ]

  pub NoStray-with_request :
      (arg fibsize : ℕ) (b : Bytes) (w : World SrbCall)
      → 0 < l.sg_count b
      → NoStray w.calls
      → NoStray (with_request k l a arg fibsize b w).1.calls
  unfolding with_request
  NoStray-with_request arg fibsize b w some_entry old =
      let all = with_request k l a arg fibsize b w in
      let ((ret, gs), w1) = map_list k l a fibsize b w in
      let (kept, one) = Filled-map_list fibsize b w some_entry old in
      let at : (v : World SrbCall) → all.1.calls ≡ v.calls → NoStray v.calls → NoStray all.1.calls =
        λ v step at_v. subst NoStray (sym step) at_v in
      elim (Bool-cases (ltb 32 (l.sg_count b))) [
        | inl many ↦ at w (ground arith) old
        | inr few ↦
            elim (Bool-cases (
              not (actual32 l (l.sg_count b) == fibsize)
              && not (actual64 l (l.sg_count b) == fibsize))) [
                | inl wrong ↦ at w (ground arith) old
                | inr fits ↦
                    elim (Bool-cases (
                      not (l.is_in (l.flags b) || l.is_out (l.flags b))
                      && not (l.sg_count b == 0))) [
                        | inl undirected ↦ at w (ground arith) old
                        | inr directed ↦ elim (Bool-cases (is_zero ret)) [
                          | inr bad ↦ at w1 (ground arith) kept
                          | inl good ↦ elim one [
                            | inl bad ↦ absurd (ground arith)
                            | inr some_buffer ↦
                                at (send_srb k l a arg fibsize b gs w1).1 (ground arith) (
                                  calls-send_srb k l a NoStray (λ x n c d ls cs h. h) arg fibsize b
                                    gs w1 (λ v h. NoStray-data_back b gs v some_buffer h) kept)
                          ]
                        ]
                      ]
              ]
      ]
