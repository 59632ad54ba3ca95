-- ===== src/AacSrb/Live.antt =====
-- What `aac_send_raw_srb` leaves allocated.
use doublefetch.Base.{
  ℕ, zero, suc, ◌+◌, ◌-◌, ◌%◌, ◌≡◌, ◌≤◌, Bool, List, [], ◌∷◌, Bytes, ltb, ◌==◌, ◌&&◌, ◌||◌, not,
  if◌then◌else◌, ℤ, err, is_zero, is_err, efault, enomem, einval, erestartsys, overwrite, u32_at,
  reverse_aux, arith, Bool-cases, Option-cases, inl, inr, refl, ap, sym, ◌∙◌, subst,
}
use doublefetch.Kernel.{Kernel, Block, World, tick, remove}
use doublefetch.AacSrb.{
  slot, sg_indx, SrbCall, SrbLayout, SrbAdapter, Sg, limit, fill_buffer, map_entries, map_copied,
  map_list, actual32, actual64, copy_back, from_first, data_back, lens, sum_len, send_srb,
  with_request, free_all, with_size, with_fib, send_raw_srb,
}
use doublefetch.AacSrb.Freed.{
  ids, Between, Between-mono, Between-lower, remove-ids, live-free_all_buffers,
}

-- The live blocks are those of the buffers and others, all older.
abbrev Held : List ℕ → ℕ → List Sg × World SrbCall → Type 0
Held base low r = (r.1.live ≡ ids r.0 base) × Between low r.1.clock r.0

remove-head : (i : ℕ) (l : List ℕ) → remove i (i ∷ l) ≡ l
remove-head i l = ground arith

module _ (k : Kernel) (l : SrbLayout) (a : SrbAdapter) where
  live-fill_buffer :
      (entry : ℕ → ℕ × ℕ) (copied : ℕ → ℕ) (is_out : Bool) (i : ℕ) (b : Block) (w : World SrbCall)
      → ((fill_buffer k l a entry copied is_out i b w).1.live ≡ w.live)
        × (w.clock ≤ (fill_buffer k l a entry copied is_out i b w).1.clock)
  unfolding fill_buffer
  live-fill_buffer entry copied is_out i b w = ground arith

  Held-map_entries :
      (entry : ℕ → ℕ × ℕ) (copied : ℕ → ℕ) (is_out : Bool) (n i low : ℕ) (gs : List Sg)
      (base : List ℕ) (w : World SrbCall)
      → Held base low (gs, w)
      → let r = map_entries k l a entry copied is_out n i gs w in Held base low (r.0.1, r.1)
  unfolding map_entries
  Held-map_entries entry copied is_out zero i low gs base w h = h
  Held-map_entries entry copied is_out (suc n) i low gs base w (e, b) =
      let all = map_entries k l a entry copied is_out (suc n) i gs w in
      let P : (ℤ × List Sg) × World SrbCall → Type 0 = λ r. Held base low (r.0.1, r.1) in
      elim (Bool-cases (ltb (limit k l a) (entry i).1)) [
        | inl large ↦
            (let step : all ≡ ((err einval, gs), w) = ground arith in subst P (sym step) (e, b))
        | inr small ↦ elim (Option-cases (k.fresh w.clock (entry i).1)) [
          | inl full ↦
              (let step : all ≡ ((err enomem, gs), tick w) = ground arith in
                subst P (sym step) (e, Between-mono low w.clock (w.clock + 1) gs (omega arith) b))
          | inr (bytes, got) ↦
              (let g : Sg = record { addr = (entry i).0; id = w.clock; len = (entry i).1 } in
                let w1 = record (tick w) { live = w.clock ∷ w.live } in
                let block : Block = record { id = w.clock; bytes = bytes } in
                let (same, later) = live-fill_buffer entry copied is_out i block w1 in
                let (done, w2) = fill_buffer k l a entry copied is_out i block w1 in
                let now : Held base low (g ∷ gs, w2) =
                  (same ∙ ap (λ x. w.clock ∷ x) e, (omega arith, b)) in
                elim (Bool-cases done) [
                  | inr bad ↦
                      (let step : all ≡ ((err efault, g ∷ gs), w2) = ground arith in
                        subst P (sym step) now)
                  | inl good ↦
                      (let step : all
                            ≡ map_entries k l a entry copied is_out n (i + 1) (g ∷ gs) w2 =
                          ground arith in
                        subst P (sym step)
                          (Held-map_entries entry copied is_out n (i + 1) low (g ∷ gs) base w2 now))
                ])
        ]
      ]

  Held-map_copied :
      (b : Bytes) (base : List ℕ) (w : World SrbCall)
      → w.live ≡ base
      → let r = map_copied k l a b w in Held base w.clock (r.0.1, r.1)
  unfolding map_copied
  Held-map_copied b base w e =
      let size = actual32 l (l.sg_count b) + l.sgmap - (l.srb_base + l.sg32) in
      let all = map_copied k l a b w in
      let P : (ℤ × List Sg) × World SrbCall → Type 0 = λ r. Held base w.clock (r.0.1, r.1) in
      elim (Option-cases (k.fresh w.clock size)) [
        | inl full ↦
            (let step : all ≡ ((err enomem, []), tick w) = ground arith in
              subst P (sym step) (e, omega arith))
        | inr (bytes, got) ↦
            (let w1 = record (tick w) { live = w.clock ∷ w.live } in
              let r =
                map_entries k l a (l.entry32 b) (λ i. (l.entry64 b i).1) (l.is_out (l.flags b))
                  (l.sg_count b) 0 [] w1 in
              let (is, between) =
                Held-map_entries (l.entry32 b) (λ i. (l.entry64 b i).1) (l.is_out (l.flags b))
                  (l.sg_count b) 0 (w.clock + 1) [] (w.clock ∷ base) w1
                  (ap (λ x. w.clock ∷ x) e, omega arith) in
              let step : all ≡ (r.0, record r.1 { live = remove w.clock r.1.live }) =
                ground arith in
              subst P (sym step) (
                ap (remove w.clock) is
                    ∙ remove-ids (w.clock + 1) r.1.clock w.clock r.0.1 base between (omega arith),
                Between-lower (w.clock + 1) w.clock r.1.clock r.0.1 (omega arith) between,
              ))
      ]

  Held-map_list :
      (fibsize : ℕ) (b : Bytes) (w : World SrbCall)
      → let r = map_list k l a fibsize b w in Held w.live w.clock (r.0.1, r.1)
  unfolding map_list
  Held-map_list fibsize b w =
      let all = map_list k l a fibsize b w in
      let P : (ℤ × List Sg) × World SrbCall → Type 0 = λ r. Held w.live w.clock (r.0.1, r.1) in
      let loop : (entry : ℕ → ℕ × ℕ)
          → (copied : ℕ → ℕ)
          → P (map_entries k l a entry copied (l.is_out (l.flags b)) (l.sg_count b) 0 [] w) =
        λ entry copied.
          Held-map_entries entry copied (l.is_out (l.flags b)) (l.sg_count b) 0 w.clock [] w.live w
            (refl, omega arith) in
      elim (Bool-cases (actual64 l (l.sg_count b) == fibsize)) [
        | inl wide ↦
            (let step : all
                  ≡ map_entries k l a (l.entry64 b) (λ i. (l.entry64 b i).1) (l.is_out (l.flags b))
                      (l.sg_count b) 0 [] w =
                ground arith in
              subst P (sym step) (loop (l.entry64 b) (λ i. (l.entry64 b i).1)))
        | inr narrow ↦ elim (Bool-cases a.is_host64) [
          | inl host ↦
              (let step : all ≡ map_copied k l a b w = ground arith in
                subst P (sym step) (Held-map_copied b w.live w refl))
          | inr host ↦
              (let step : all
                    ≡ map_entries k l a (l.entry32 b) (λ i. (l.entry32 b i).1)
                        (l.is_out (l.flags b)) (l.sg_count b) 0 [] w =
                  ground arith in
                subst P (sym step) (loop (l.entry32 b) (λ i. (l.entry32 b i).1)))
        ]
      ]

  abbrev Quiet : World SrbCall → World SrbCall → Type 0
  Quiet w w' = (w'.live ≡ w.live) × (w.clock ≤ w'.clock)

  live-copy_back :
      (n i : ℕ) (gs : List Sg) (w : World SrbCall) → Quiet w (copy_back k l a n i gs w).1
  unfolding copy_back
  live-copy_back zero i gs w = (refl, omega arith)
  live-copy_back (suc n) i gs w = elim (Option-cases (slot gs i)) [
    | inl unset ↦
        (let w1 = record (tick w) { calls = SrbCall.stray i ∷ w.calls } in
          let (same, later) = live-copy_back n (i + 1) gs w1 in
          elim (Bool-cases (a.stray_done w.clock)) [
            | inl good ↦ ground arith
            | inr bad ↦ ground arith
          ])
    | inr (g, set) ↦
        (let bytes = a.filled w.clock (a.count_after w.clock i g.len) in
          let w1 = record (tick w) { writes = (g.addr, bytes) ∷ w.writes } in
          let (same, later) = live-copy_back n (i + 1) gs w1 in
          elim (Bool-cases (k.store w.clock g.addr bytes)) [
            | inl good ↦ ground arith
            | inr bad ↦ ground arith
          ])
  ]

  live-from_first : (gs : List Sg) (w : World SrbCall) → Quiet w (from_first k l a gs w).1
  unfolding from_first
  live-from_first gs w = live-copy_back (sg_indx gs + 1) 0 gs w

  live-data_back :
      (b : Bytes) (gs : List Sg) (w : World SrbCall) → Quiet w (data_back k l a b gs w).1
  unfolding from_first
  live-data_back b gs w = elim (Bool-cases (l.is_in (l.flags b))) [
    | inl back ↦ ground (arith, live-from_first (reverse_aux gs []) w)
    | inr none_back ↦ ground arith
  ]

  live-send_srb :
      (arg fibsize : ℕ) (b : Bytes) (gs : List Sg) (w : World SrbCall)
      → Quiet w (send_srb k l a arg fibsize b gs w).1
  unfolding send_srb
  live-send_srb arg fibsize b gs w =
      let size = if a.is_host64 then actual64 l (l.sg_count b) else actual32 l (l.sg_count b) in
      let sent =
        SrbCall.send a.is_host64 size (sum_len gs % 4294967296) (l.command b)
          (reverse_aux (lens gs) []) in
      let w1 = record (tick w) { calls = sent ∷ w.calls } in
      let (same, later) = live-data_back b gs w1 in
      elim (Bool-cases (is_err erestartsys (a.fib_send w.clock))) [
        | inl interrupted ↦ ground arith
        | inr not_interrupted ↦ elim (Bool-cases (is_zero (a.fib_send w.clock))) [
          | inr failed ↦ ground arith
          | inl fine ↦ elim (Bool-cases (is_zero (data_back k l a b gs w1).0)) [
            | inr bad ↦ ground arith
            | inl good ↦ ground arith
          ]
        ]
      ]

  Held-with_request :
      (arg fibsize : ℕ) (b : Bytes) (w : World SrbCall)
      → let r = with_request k l a arg fibsize b w in Held w.live w.clock (r.0.1, r.1)
  unfolding with_request
  Held-with_request arg fibsize b w =
      let all = with_request k l a arg fibsize b w in
      let P : (ℤ × List Sg) × World SrbCall → Type 0 = λ r. Held w.live w.clock (r.0.1, r.1) in
      let early : all ≡ ((err einval, []), w) → P all = λ e. subst P (sym e) (refl, omega arith) in
      let (is, between) = Held-map_list fibsize b w in
      let ((ret, gs), w1) = map_list k l a fibsize b w in
      let (same, later) = live-send_srb arg fibsize b gs w1 in
      let (ret', w2) = send_srb k l a arg fibsize b gs w1 in
      elim (Bool-cases (ltb 32 (l.sg_count b))) [
        | inl many ↦ early (ground arith)
        | inr few ↦
            elim (Bool-cases (
              not (actual32 l (l.sg_count b) == fibsize)
              && not (actual64 l (l.sg_count b) == fibsize))) [
                | inl wrong ↦ early (ground arith)
                | inr fits ↦
                    elim (Bool-cases (
                      not (l.is_in (l.flags b) || l.is_out (l.flags b))
                      && not (l.sg_count b == 0))) [
                        | inl undirected ↦ early (ground arith)
                        | inr directed ↦ elim (Bool-cases (is_zero ret)) [
                          | inr bad ↦
                              (let step : all ≡ ((ret, gs), w1) = ground arith in
                                subst P (sym step) (is, between))
                          | inl good ↦
                              (let step : all ≡ ((ret', gs), w2) = ground arith in
                                subst P (sym step) (
                                  same ∙ is,
                                  Between-mono w.clock w1.clock w2.clock gs later between,
                                ))
                        ]
                      ]
              ]
      ]

  live-with_size :
      (arg fibsize : ℕ) (w : World SrbCall) → (with_size k l a arg fibsize w).1.live ≡ w.live
  unfolding with_size
  live-with_size arg fibsize w =
      let all = with_size k l a arg fibsize w in
      let P : ℤ × World SrbCall → Type 0 = λ r. r.1.live ≡ w.live in
      elim (Option-cases (k.fresh w.clock fibsize)) [
        | inl full ↦
            (let step : all ≡ (err enomem, tick w) = ground arith in subst P (sym step) refl)
        | inr (room, got) ↦
            (let w1 = record (tick w) { live = w.clock ∷ w.live } in
              elim (Option-cases (k.fetch w1.clock arg fibsize)) [
                | inl fault ↦ ground arith
                | inr (bytes, fetched) ↦
                    (let b = overwrite room bytes in
                      let (is, between) = Held-with_request arg fibsize b (tick w1) in
                      let ((ret, gs), w2) = with_request k l a arg fibsize b (tick w1) in
                      let w3 = record w2 { live = remove w.clock w2.live } in
                      let step : all ≡ (ret, (free_all (reverse_aux gs []) w3).1) = ground arith in
                      let left : w3.live ≡ ids gs w.live =
                        ap (remove w.clock) is
                        ∙ remove-ids (tick w1).clock w2.clock w.clock gs w.live between
                            (omega arith) in
                      subst P (sym step)
                        (live-free_all_buffers (tick w1).clock w2.clock gs w.live w3 between left))
              ])
      ]

  live-with_fib : (arg : ℕ) (w : World SrbCall) → (with_fib k l a arg w).1.live ≡ w.live
  unfolding with_fib
  live-with_fib arg w = elim (Option-cases (k.fetch w.clock (arg + l.count_offset) 4)) [
    | inl fault ↦ ground arith
    | inr (bytes, got) ↦ ground (arith, live-with_size arg (u32_at 0 bytes) (tick w))
  ]

  -- Whatever fails, `aac_send_raw_srb` frees each block that it allocates, the buffers of the entries and
  -- both copies of the request; the fib stays allocated where the call is interrupted, and only there.
  pub live-send_raw_srb :
      (arg : ℕ) (w : World SrbCall)
      → let r = send_raw_srb k l a arg w in
        r.1.live ≡ (if is_err erestartsys r.0 then w.clock ∷ w.live else w.live)
  unfolding send_raw_srb
  live-send_raw_srb arg w =
      let w1 = record (tick w) { live = w.clock ∷ w.live } in
      let same = live-with_fib arg w1 in
      elim (Bool-cases a.in_reset) [
        | inl reset ↦ ground arith
        | inr up ↦ elim (Bool-cases a.is_admin) [
          | inr user ↦ ground arith
          | inl admin ↦ elim (Bool-cases (a.fib_alloc w.clock)) [
            | inr empty ↦ ground arith
            | inl got ↦ elim (Bool-cases (is_err erestartsys (with_fib k l a arg w1).0)) [
              | inl interrupted ↦ ground arith
              | inr done ↦
                  (let (ret, v) = with_fib k l a arg w1 in
                    let v1 = record (tick v) {
                      calls = SrbCall.complete ∷ v.calls;
                      live = remove w.clock v.live;
                    } in
                    let step : send_raw_srb k l a arg w ≡ (ret, v1) = ground arith in
                    let freed : remove w.clock v.live ≡ w.live =
                      ap (remove w.clock) same ∙ remove-head w.clock w.live in
                    subst
                      (λ r.
                        r.1.live ≡ (if is_err erestartsys r.0 then w.clock ∷ w.live else w.live))
                      (sym step)
                      (freed ∙ ap (λ c. if c then w.clock ∷ w.live else w.live) (sym done)))
            ]
          ]
        ]
      ]
