-- ===== src/AacSend/Memory.antt =====
-- What `ioctl_send_fib` leaves allocated, before and after the patch.
use doublefetch.Base.{
  ℕ, ◌+◌, ◌≡◌, false, ◌∷◌, Bytes, pos, is_err, erestartsys, arith, Bool-cases, inl, inr, overwrite,
  Option-cases,
}
use doublefetch.Kernel.{Kernel, Block, World, tick}
use doublefetch.AacSend.{
  FibHeader, Adapter, AacCall, issue, refetched, refetched_bug, with_copy, without_copy, send_fib,
  send_fib_bug,
}

module _ (k : Kernel) (h : FibHeader) (a : Adapter) where
  live-issue :
      (arg size : ℕ) (b : Bytes) (w : World AacCall) → (issue k h a arg size b w).1.live ≡ w.live
  unfolding issue
  live-issue arg size b w = ground arith

  live-refetched_bug :
      (arg size : ℕ) (b : Bytes) (w : World AacCall)
      → (refetched_bug k h a arg size b w).1.live ≡ w.live
  unfolding refetched_bug
  live-refetched_bug arg size b w = grind (arith, live-issue)

  live-refetched :
      (arg size : ℕ) (b : Bytes) (hd : Block) (w : World AacCall)
      → (refetched k h a arg size b hd w).0 ≡ pos 0
      → (refetched k h a arg size b hd w).1.live ≡ w.live
  unfolding refetched
  live-refetched arg size b hd w e = grind (arith, live-issue)

  live-without_copy :
      (arg : ℕ) (b : Bytes) (w : World AacCall) → (without_copy k h a arg b w).1.live ≡ w.live
  unfolding without_copy
  live-without_copy arg b w = grind (arith, live-refetched_bug)

  live-with_copy :
      (arg : ℕ) (b : Bytes) (w : World AacCall)
      → (with_copy k h a arg b w).0 ≡ pos 0
      → (with_copy k h a arg b w).1.live ≡ w.clock ∷ w.live
  unfolding with_copy
  live-with_copy arg b w e = grind (arith, live-refetched)

  -- Before the patch, a call that is not interrupted leaves exactly the memory allocated that was
  -- allocated before it, on every path.
  pub live-send_fib_bug :
      (arg : ℕ) (w : World AacCall)
      → is_err erestartsys (send_fib_bug k h a arg w).0 ≡ false
      → (send_fib_bug k h a arg w).1.live ≡ w.live
  unfolding send_fib_bug
  live-send_fib_bug arg w e = elim (Bool-cases a.in_reset) [
    | inl off ↦ ground arith
    | inr on ↦ elim (Option-cases (a.fib_alloc w.clock)) [
      | inl empty ↦ ground arith
      | inr (f, got) ↦ elim (Option-cases (k.fetch (w.clock + 1) arg h.size)) [
        | inl bad ↦ ground arith
        | inr (d, e2) ↦ ground (
          arith,
          live-without_copy arg (overwrite f d)
              (record (tick (tick w)) { live = w.clock ∷ w.live }),
        )
      ]
    ]
  ]

  -- With the patch, every call that succeeds leaves the copy of the header allocated: the memory is
  -- what it was before, and the block of the third access besides.
  pub leak-send_fib :
      (arg : ℕ) (w : World AacCall)
      → (send_fib k h a arg w).0 ≡ pos 0
      → (send_fib k h a arg w).1.live ≡ (w.clock + 1 + 1) ∷ w.live
  unfolding send_fib
  leak-send_fib arg w e = grind (arith, live-with_copy)
