-- ===== src/AacSrb/Overrun.antt =====
-- A list of 32 bits for an adapter with lists of 64.
use doublefetch.Base.{
  ℕ, zero, suc, ◌+◌, ◌-◌, ◌*◌, ◌%◌, ◌≡◌, ◌≤◌, ◌<◌, true, false, some, List, [], ◌∷◌, Bytes, ◌==◌,
  is_zero, arith, Bool-cases, inl, inr, sym, subst,
}
use doublefetch.Kernel.{Kernel, World}
use doublefetch.AacSrb.{
  SrbLayout, SrbAdapter, SrbCall, limit, map_copied, map_list, actual32, actual64, send_srb,
  with_request,
}
use doublefetch.AacSrb.Fill.{AllFit, Has, Has-map_copied, calls-data_back, calls-send_srb}

too_much : (room len : ℕ) (cs : List SrbCall) → room < len → Has room len cs → ¬ AllFit cs
too_much room len [] more h fit = h
too_much room len (SrbCall.fill r n ∷ cs) more (inl (a, b)) (fits, fit) = omega (arith, a, b)
too_much room len (SrbCall.fill r n ∷ cs) more (inr h) (fits, fit) = too_much room len cs more h fit
too_much room len (SrbCall.send w n c d ls ∷ cs) more h fit = too_much room len cs more h fit
too_much room len (SrbCall.stray i ∷ cs) more h fit = too_much room len cs more h fit
too_much room len (SrbCall.complete ∷ cs) more h fit = too_much room len cs more h fit

pos_mul : (m d : ℕ) → 0 < m → 0 < d → 0 < m * d
pos_mul zero d h1 h2 = elim h1 [ ]
pos_mul (suc m) zero h1 h2 = elim h2 [ ]
pos_mul (suc m) (suc d) h1 h2 = grind arith

-- The two sizes of a list that is not empty differ.
apart :
    (base m s32 s64 : ℕ)
    → 0 < m
    → s32 < s64
    → (base + m * s32 + m * (s64 - s32) == base + m * s32) ≡ false
apart base m s32 s64 some_entry wider =
    let more = pos_mul m (s64 - s32) some_entry (omega arith) in
    above (base + m * s32) (m * (s64 - s32)) more
  where
    above : (x y : ℕ) → 0 < y → (x + y == x) ≡ false
    above x y h = ground arith

module _ (k : Kernel) (l : SrbLayout) (a : SrbAdapter) where
  -- An adapter takes lists of 64 bits and the user gives one of 32, with data out: the list is copied, but the
  -- length of each copy to a buffer is read from the original as if it had 64 bits. Where that is more for the
  -- first entry than the count that its buffer was allocated with, the request copies more of the user's data
  -- than a buffer holds, whatever comes after. There is memory for the copied list and for the first buffer.
  pub with_request_overrun :
      (arg fibsize : ℕ) (b usg buffer : Bytes) (n : ℕ) (w : World SrbCall)
      → let room = (l.entry32 b 0).1 in
        a.is_host64 ≡ true
        → l.sg_count b ≡ suc n
        → n < 32
        → actual32 l (l.sg_count b) ≡ fibsize
        → l.sg32 < l.sg64
        → l.is_out (l.flags b) ≡ true
        → room ≤ limit k l a
        → room < (l.entry64 b 0).1
        → k.fresh w.clock (actual32 l (l.sg_count b) + l.sgmap - (l.srb_base + l.sg32)) ≡ some usg
        → k.fresh (w.clock + 1) room ≡ some buffer
        → ¬ AllFit (with_request k l a arg fibsize b w).1.calls
  unfolding with_request map_list
  with_request_overrun arg fibsize b usg buffer n w wide count few size wider out small more got
        got1 =
      let room = (l.entry32 b 0).1 in
      let len = (l.entry64 b 0).1 in
      let first = Has-map_copied k l a b usg buffer n w count out got small got1 in
      let ((ret, gs), w1) = map_copied k l a b w in
      let narrow : (actual64 l (l.sg_count b) == fibsize) ≡ false =
        subst (λ f. (actual64 l (l.sg_count b) == f) ≡ false) size
          (apart l.srb_base (l.sg_count b % 256) l.sg32 l.sg64 (omega (arith, count)) wider) in
      let listed : map_list k l a fibsize b w ≡ map_copied k l a b w = ground arith in
      let sent =
        calls-send_srb k l a (Has room len) (λ x m c d ls cs h. h) arg fibsize b gs w1
          (calls-data_back k l a (Has room len) (λ i cs h. h) b gs) first in
      let all = with_request k l a arg fibsize b w in
      let has : Has room len all.1.calls = elim (Bool-cases (is_zero ret)) [
        | inr bad ↦
            (let step : all.1.calls ≡ w1.calls = ground (arith, listed) in
              subst (Has room len) (sym step) first)
        | inl good ↦
            (let step : all.1.calls ≡ (send_srb k l a arg fibsize b gs w1).1.calls =
                ground (arith, listed) in
              subst (Has room len) (sym step) sent)
      ] in
      too_much room len all.1.calls more has
