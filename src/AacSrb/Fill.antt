-- ===== src/AacSrb/Fill.antt =====
-- How much of the user's data goes to each buffer.
use doublefetch.Base.{
  Bool, ◌%◌, is_err, is_zero, erestartsys, if◌then◌else◌, ℕ, zero, suc, ◌+◌, ◌-◌, ◌≡◌, ◌≤◌, true,
  some, List, [], ◌∷◌, Bytes, length, ltb, ℤ, err, efault, enomem, einval, reverse_aux, arith,
  Bool-cases, Option-cases, inl, inr, ◌⊎◌, refl, ap₂, sym, ◌∙◌, subst,
}
use doublefetch.Kernel.{Kernel, Block, World, tick}
use doublefetch.AacSrb.{
  actual64, sum_len, lens, send_srb, slot, sg_indx, SrbLayout, SrbAdapter, SrbCall, Sg, limit,
  fill_buffer, map_entries, map_copied, actual32, copy_back, from_first, data_back,
}

-- No copy of the user's data is longer than its buffer.
abbrev pub AllFit : List SrbCall → Type 0
AllFit [] = Unit
AllFit (SrbCall.fill room len ∷ cs) = (len ≤ room) × AllFit cs
AllFit (SrbCall.send w n c d ls ∷ cs) = AllFit cs
AllFit (SrbCall.stray i ∷ cs) = AllFit cs
AllFit (SrbCall.complete ∷ cs) = AllFit cs

-- Some copy goes to a buffer with so much room.
abbrev pub Has : (room len : ℕ) → List SrbCall → Type 0
Has room len [] = ⊥
Has room len (SrbCall.fill r n ∷ cs) = ((r ≡ room) × (n ≡ len)) ⊎ Has room len cs
Has room len (SrbCall.send w n c d ls ∷ cs) = Has room len cs
Has room len (SrbCall.stray i ∷ cs) = Has room len cs
Has room len (SrbCall.complete ∷ cs) = Has room len cs

module _ (k : Kernel) (l : SrbLayout) (a : SrbAdapter) where
  -- What every copy to a buffer keeps, the loop keeps.
  module _ (entry : ℕ → ℕ × ℕ) (copied : ℕ → ℕ) (is_out : Bool) (P : List SrbCall → Type 0)
      (rule : (i : ℕ) (cs : List SrbCall)
        → P cs
        → P (SrbCall.fill (entry i).1 (copied i) ∷ cs)) where
    calls-fill_buffer :
        (i : ℕ) (b : Block) (w : World SrbCall)
        → length b.bytes ≡ (entry i).1
        → P w.calls
        → P (fill_buffer k l a entry copied is_out i b w).1.calls
    unfolding fill_buffer
    calls-fill_buffer i b w e h = elim (Bool-cases is_out) [
      | inr off ↦
          subst P
            (let step : w.calls ≡ (fill_buffer k l a entry copied is_out i b w).1.calls =
                ground arith in
              step)
            h
      | inl on ↦
          subst P
            (let step : SrbCall.fill (entry i).1 (copied i) ∷ w.calls
                  ≡ (fill_buffer k l a entry copied is_out i b w).1.calls =
                ground arith in
              step)
            (rule i w.calls h)
    ]

    pub calls-map_entries :
        (n i : ℕ) (gs : List Sg) (w : World SrbCall)
        → P w.calls
        → P (map_entries k l a entry copied is_out n i gs w).1.calls
    unfolding map_entries
    calls-map_entries zero i gs w h = h
    calls-map_entries (suc n) i gs w h =
        let all = map_entries k l a entry copied is_out (suc n) i gs w in
        let Q : (ℤ × List Sg) × World SrbCall → Type 0 = λ r. P r.1.calls in
        elim (Bool-cases (ltb (limit k l a) (entry i).1)) [
          | inl large ↦
              (let step : all ≡ ((err einval, gs), w) = ground arith in subst Q (sym step) h)
          | inr small ↦ elim (Option-cases (k.fresh w.clock (entry i).1)) [
            | inl full ↦
                (let step : all ≡ ((err enomem, gs), tick w) = ground arith in subst Q (sym step) h)
            | inr (bytes, got) ↦
                (let g : Sg = record { addr = (entry i).0; id = w.clock; len = (entry i).1 } in
                  let w1 = record (tick w) { live = w.clock ∷ w.live } in
                  let block : Block = record { id = w.clock; bytes = bytes } in
                  let now =
                    calls-fill_buffer i block w1 (k.fresh_length w.clock (entry i).1 bytes got) h in
                  let (done, w2) = fill_buffer k l a entry copied is_out i block w1 in
                  elim (Bool-cases done) [
                    | inr bad ↦
                        (let step : all ≡ ((err efault, g ∷ gs), w2) = ground arith in
                          subst Q (sym step) now)
                    | inl good ↦
                        (let step : all
                              ≡ map_entries k l a entry copied is_out n (i + 1) (g ∷ gs) w2 =
                            ground arith in
                          subst Q (sym step) (calls-map_entries n (i + 1) (g ∷ gs) w2 now))
                  ])
          ]
        ]

  -- The first round copies to its buffer, where there is memory for it.
  first-map_entries :
      (entry : ℕ → ℕ × ℕ) (copied : ℕ → ℕ) (n i : ℕ) (gs : List Sg) (buffer : Bytes)
      (w : World SrbCall)
      → (entry i).1 ≤ limit k l a
      → k.fresh w.clock (entry i).1 ≡ some buffer
      → Has (entry i).1 (copied i) (map_entries k l a entry copied true (suc n) i gs w).1.calls
  unfolding map_entries fill_buffer
  first-map_entries entry copied n i gs buffer w small got =
      let all = map_entries k l a entry copied true (suc n) i gs w in
      let g : Sg = record { addr = (entry i).0; id = w.clock; len = (entry i).1 } in
      let w1 = record (tick w) { live = w.clock ∷ w.live } in
      let block : Block = record { id = w.clock; bytes = buffer } in
      let (done, w2) = fill_buffer k l a entry copied true i block w1 in
      let H = Has (entry i).1 (copied i) in
      let now : H w2.calls = inl (k.fresh_length w.clock (entry i).1 buffer got, refl) in
      elim (Bool-cases done) [
        | inr bad ↦
            (let step : all ≡ ((err efault, g ∷ gs), w2) = ground arith in
              subst (λ r. H r.1.calls) (sym step) now)
        | inl good ↦
            (let step : all ≡ map_entries k l a entry copied true n (i + 1) (g ∷ gs) w2 =
                ground arith in
              subst (λ r. H r.1.calls) (sym step)
                (calls-map_entries entry copied true H (λ j cs h. inr h) n (i + 1) (g ∷ gs) w2 now))
      ]

  -- The first entry of a copied list: the buffer has the one count, the copy has the other.
  pub Has-map_copied :
      (b usg buffer : Bytes) (n : ℕ) (w : World SrbCall)
      → l.sg_count b ≡ suc n
      → l.is_out (l.flags b) ≡ true
      → k.fresh w.clock (actual32 l (l.sg_count b) + l.sgmap - (l.srb_base + l.sg32)) ≡ some usg
      → (l.entry32 b 0).1 ≤ limit k l a
      → k.fresh (w.clock + 1) (l.entry32 b 0).1 ≡ some buffer
      → Has (l.entry32 b 0).1 (l.entry64 b 0).1 (map_copied k l a b w).1.calls
  unfolding map_copied map_entries
  Has-map_copied b usg buffer n w count out got small got1 =
      let room = (l.entry32 b 0).1 in
      let len = (l.entry64 b 0).1 in
      let w1 = record (tick w) { live = w.clock ∷ w.live } in
      let loop : (m : ℕ) (is_out : Bool) → (ℤ × List Sg) × World SrbCall =
        λ m is_out. map_entries k l a (l.entry32 b) (λ i. (l.entry64 b i).1) is_out m 0 [] w1 in
      let is : (loop (l.sg_count b) (l.is_out (l.flags b))).1.calls ≡ (loop (suc n) true).1.calls =
        ap₂ (λ m o. (loop m o).1.calls) count out in
      let first : Has room len (loop (suc n) true).1.calls =
        first-map_entries (l.entry32 b) (λ i. (l.entry64 b i).1) n 0 [] buffer w1 small got1 in
      let step : (map_copied k l a b w).1.calls
          ≡ (loop (l.sg_count b) (l.is_out (l.flags b))).1.calls =
        ground arith in
      subst (Has room len) (sym (step ∙ is)) first

  -- What the loop back keeps, if each entry that was never set keeps it.
  pub calls-copy_back :
      (P : List SrbCall → Type 0)
      → ((i : ℕ) (cs : List SrbCall) → P cs → P (SrbCall.stray i ∷ cs))
      → (n i : ℕ) (gs : List Sg) (w : World SrbCall) → P w.calls
      → P (copy_back k l a n i gs w).1.calls
  unfolding copy_back
  calls-copy_back P rule zero i gs w h = h
  calls-copy_back P rule (suc n) i gs w h = elim (Option-cases (slot gs i)) [
    | inl unset ↦
        (let w1 = record (tick w) { calls = SrbCall.stray i ∷ w.calls } in
          let now = rule i w.calls h in
          elim (Bool-cases (a.stray_done w.clock)) [
            | inl good ↦
                (let step : (copy_back k l a (suc n) i gs w).1
                      ≡ (copy_back k l a n (i + 1) gs w1).1 =
                    ground arith in
                  subst (λ v. P v.calls) (sym step) (calls-copy_back P rule n (i + 1) gs w1 now))
            | inr bad ↦
                (let step : (copy_back k l a (suc n) i gs w).1 ≡ w1 = ground arith in
                  subst (λ v. P v.calls) (sym step) now)
          ])
    | inr (g, set) ↦
        (let bytes = a.filled w.clock (a.count_after w.clock i g.len) in
          let w1 = record (tick w) { writes = (g.addr, bytes) ∷ w.writes } in
          elim (Bool-cases (k.store w.clock g.addr bytes)) [
            | inl good ↦
                (let step : (copy_back k l a (suc n) i gs w).1
                      ≡ (copy_back k l a n (i + 1) gs w1).1 =
                    ground arith in
                  subst (λ v. P v.calls) (sym step) (calls-copy_back P rule n (i + 1) gs w1 h))
            | inr bad ↦
                (let step : (copy_back k l a (suc n) i gs w).1 ≡ w1 = ground arith in
                  subst (λ v. P v.calls) (sym step) h)
          ])
  ]

  pub calls-data_back :
      (P : List SrbCall → Type 0)
      → ((i : ℕ) (cs : List SrbCall) → P cs → P (SrbCall.stray i ∷ cs))
      → (b : Bytes) (gs : List Sg) (w : World SrbCall) → P w.calls
      → P (data_back k l a b gs w).1.calls
  unfolding from_first
  calls-data_back P rule b gs w h = elim (Bool-cases (l.is_in (l.flags b))) [
    | inr off ↦
        (let step : (data_back k l a b gs w).1 ≡ w = ground arith in
          subst (λ v. P v.calls) (sym step) h)
    | inl on ↦
        (let all = reverse_aux gs [] in
          let step : (data_back k l a b gs w).1 ≡ (copy_back k l a (sg_indx all + 1) 0 all w).1 =
            ground arith in
          subst (λ v. P v.calls) (sym step) (calls-copy_back P rule (sg_indx all + 1) 0 all w h))
  ]

  -- What `send_srb` keeps, if the way back keeps it and the call of the adapter does
  pub calls-send_srb :
      (P : List SrbCall → Type 0)
      → ((h : Bool) (n c : ℕ) (d : Bytes) (ls : List ℕ) (cs : List SrbCall)
          → P cs
          → P (SrbCall.send h n c d ls ∷ cs))
      → (arg fibsize : ℕ) (b : Bytes) (gs : List Sg) (w : World SrbCall)
      → ((v : World SrbCall) → P v.calls → P (data_back k l a b gs v).1.calls)
      → P w.calls
      → P (send_srb k l a arg fibsize b gs w).1.calls
  unfolding send_srb
  calls-send_srb P send_rule arg fibsize b gs w way_back h =
      let size = if a.is_host64 then actual64 l (l.sg_count b) else actual32 l (l.sg_count b) in
      let total = sum_len gs % 4294967296 in
      let ls = reverse_aux (lens gs) [] in
      let w1 = record (tick w) {
        calls = SrbCall.send a.is_host64 size total (l.command b) ls ∷ w.calls;
      } in
      let all = send_srb k l a arg fibsize b gs w in
      let sent = send_rule a.is_host64 size total (l.command b) ls w.calls h in
      let (back, w2) = data_back k l a b gs w1 in
      let after = way_back w1 sent in
      let at : (v : World SrbCall) → all.1.calls ≡ v.calls → P v.calls → P all.1.calls =
        λ v step at_v. subst P (sym step) at_v in
      elim (Bool-cases (is_err erestartsys (a.fib_send w.clock))) [
        | inl interrupted ↦ at w1 (ground arith) sent
        | inr not_interrupted ↦ elim (Bool-cases (is_zero (a.fib_send w.clock))) [
          | inr failed ↦ at w1 (ground arith) sent
          | inl fine ↦ elim (Bool-cases (is_zero back)) [
            | inr bad ↦ at w2 (ground arith) after
            | inl good ↦ at w2 (ground arith) after
          ]
        ]
      ]
