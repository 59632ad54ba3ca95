-- ===== src/AacSrb/Fits.antt =====
-- The copies of the user's data, for an adapter with lists of 32 bits.
use doublefetch.Base.{
  ℕ, ◌+◌, ◌≡◌, false, List, [], ◌∷◌, Bytes, ltb, ◌==◌, ◌&&◌, ◌||◌, not, ℤ, err, is_zero, is_err,
  einval, erestartsys, overwrite, u32_at, reverse_aux, arith, Bool-cases, Option-cases, inl, inr,
  refl, sym, subst,
}
use doublefetch.Kernel.{Kernel, World, tick, remove}
use doublefetch.AacSrb.{
  SrbLayout, SrbAdapter, SrbCall, Sg, map_entries, map_list, actual32, actual64, send_srb,
  with_request, free_all, with_size, with_fib, send_raw_srb,
}
use doublefetch.AacSrb.Fill.{AllFit, calls-map_entries, calls-data_back, calls-send_srb}

calls-free_all : (gs : List Sg) (w : World SrbCall) → (free_all gs w).1.calls ≡ w.calls
unfolding free_all
calls-free_all [] w = refl
calls-free_all (g ∷ gs) w = calls-free_all gs (record w { live = remove g.id w.live })

module _ (k : Kernel) (l : SrbLayout) (a : SrbAdapter) where
  AllFit-send_srb :
      (arg fibsize : ℕ) (b : Bytes) (gs : List Sg) (w : World SrbCall)
      → AllFit w.calls
      → AllFit (send_srb k l a arg fibsize b gs w).1.calls
  AllFit-send_srb arg fibsize b gs w h =
      calls-send_srb k l a AllFit (λ x n c d ls cs old. old) arg fibsize b gs w
        (calls-data_back k l a AllFit (λ i cs old. old) b gs) h

  AllFit-map_list :
      (fibsize : ℕ) (b : Bytes) (w : World SrbCall)
      → a.is_host64 ≡ false
      → AllFit w.calls
      → AllFit (map_list k l a fibsize b w).1.calls
  unfolding map_list
  AllFit-map_list fibsize b w narrow h =
      let P : (ℤ × List Sg) × World SrbCall → Type 0 = λ r. AllFit r.1.calls in
      let loop : (entry : ℕ → ℕ × ℕ)
          → P (
              map_entries k l a entry (λ i. (entry i).1) (l.is_out (l.flags b)) (l.sg_count b) 0 []
                w) =
        λ entry.
          calls-map_entries k l a entry (λ i. (entry i).1) (l.is_out (l.flags b)) AllFit
            (λ i cs old. (omega arith, old)) (l.sg_count b) 0 [] w h in
      elim (Bool-cases (actual64 l (l.sg_count b) == fibsize)) [
        | inl wide ↦
            (let step : map_list k l a fibsize b w
                  ≡ map_entries k l a (l.entry64 b) (λ i. (l.entry64 b i).1) (l.is_out (l.flags b))
                      (l.sg_count b) 0 [] w =
                ground arith in
              subst P (sym step) (loop (l.entry64 b)))
        | inr short ↦
            (let step : map_list k l a fibsize b w
                  ≡ map_entries k l a (l.entry32 b) (λ i. (l.entry32 b i).1) (l.is_out (l.flags b))
                      (l.sg_count b) 0 [] w =
                ground arith in
              subst P (sym step) (loop (l.entry32 b)))
      ]

  AllFit-with_request :
      (arg fibsize : ℕ) (b : Bytes) (w : World SrbCall)
      → a.is_host64 ≡ false
      → AllFit w.calls
      → AllFit (with_request k l a arg fibsize b w).1.calls
  unfolding with_request
  AllFit-with_request arg fibsize b w narrow h =
      let all = with_request k l a arg fibsize b w in
      let P : (ℤ × List Sg) × World SrbCall → Type 0 = λ r. AllFit r.1.calls in
      let early : all ≡ ((err einval, []), w) → P all = λ e. subst P (sym e) h in
      let listed = AllFit-map_list fibsize b w narrow h in
      let ((ret, gs), w1) = map_list k l a fibsize b w in
      let sent = AllFit-send_srb arg fibsize b gs w1 listed in
      let (ret', w2) = send_srb k l a arg fibsize b gs w1 in
      elim (Bool-cases (ltb 32 (l.sg_count b))) [
        | inl many ↦ early (ground arith)
        | inr few ↦
            elim (Bool-cases (
              not (actual32 l (l.sg_count b) == fibsize)
              && not (actual64 l (l.sg_count b) == fibsize))) [
                | inl wrong ↦ early (ground arith)
                | inr fits ↦
                    elim (Bool-cases (
                      not (l.is_in (l.flags b) || l.is_out (l.flags b))
                      && not (l.sg_count b == 0))) [
                        | inl undirected ↦ early (ground arith)
                        | inr directed ↦ elim (Bool-cases (is_zero ret)) [
                          | inr bad ↦
                              (let step : all ≡ ((ret, gs), w1) = ground arith in
                                subst P (sym step) listed)
                          | inl good ↦
                              (let step : all ≡ ((ret', gs), w2) = ground arith in
                                subst P (sym step) sent)
                        ]
                      ]
              ]
      ]

  AllFit-with_size :
      (arg fibsize : ℕ) (w : World SrbCall)
      → a.is_host64 ≡ false
      → AllFit w.calls
      → AllFit (with_size k l a arg fibsize w).1.calls
  unfolding with_size
  AllFit-with_size arg fibsize w narrow h =
      let all = with_size k l a arg fibsize w in
      elim (Option-cases (k.fresh w.clock fibsize)) [
        | inl full ↦ ground arith
        | inr (room, got) ↦
            (let w1 = record (tick w) { live = w.clock ∷ w.live } in
              elim (Option-cases (k.fetch w1.clock arg fibsize)) [
                | inl fault ↦ ground arith
                | inr (bytes, fetched) ↦
                    (let b = overwrite room bytes in
                      let sent = AllFit-with_request arg fibsize b (tick w1) narrow h in
                      let ((ret, gs), w2) = with_request k l a arg fibsize b (tick w1) in
                      let w3 = record w2 { live = remove w.clock w2.live } in
                      let step : all ≡ (ret, (free_all (reverse_aux gs []) w3).1) = ground arith in
                      subst (λ r. AllFit r.1.calls) (sym step)
                        (subst AllFit (sym (calls-free_all (reverse_aux gs []) w3)) sent))
              ])
      ]

  AllFit-with_fib :
      (arg : ℕ) (w : World SrbCall)
      → a.is_host64 ≡ false
      → AllFit w.calls
      → AllFit (with_fib k l a arg w).1.calls
  unfolding with_fib
  AllFit-with_fib arg w narrow h = elim (Option-cases (k.fetch w.clock (arg + l.count_offset) 4)) [
    | inl fault ↦ ground arith
    | inr (bytes, got) ↦ ground (arith, AllFit-with_size arg (u32_at 0 bytes) (tick w) narrow h)
  ]

  -- For an adapter with lists of 32 bits, no copy of the user's data is longer than the buffer that it goes
  -- to, whatever the two fetches of the request read and whatever fails.
  pub AllFit-send_raw_srb :
      (arg : ℕ) (w : World SrbCall)
      → a.is_host64 ≡ false
      → AllFit w.calls
      → AllFit (send_raw_srb k l a arg w).1.calls
  unfolding send_raw_srb
  AllFit-send_raw_srb arg w narrow h =
      let w1 = record (tick w) { live = w.clock ∷ w.live } in
      let same = AllFit-with_fib arg w1 narrow h in
      elim (Bool-cases a.in_reset) [
        | inl reset ↦ ground arith
        | inr up ↦ elim (Bool-cases a.is_admin) [
          | inr user ↦ ground arith
          | inl admin ↦ elim (Bool-cases (a.fib_alloc w.clock)) [
            | inr empty ↦ ground arith
            | inl got ↦ elim (Bool-cases (is_err erestartsys (with_fib k l a arg w1).0)) [
              | inl interrupted ↦ ground arith
              | inr done ↦ ground arith
            ]
          ]
        ]
      ]
