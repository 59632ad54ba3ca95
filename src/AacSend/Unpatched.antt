-- ===== src/AacSend/Unpatched.antt =====
-- What `ioctl_send_fib` did before the patch, when the header changes between the fetches.
use doublefetch.Base.{
  ℕ, ◌+◌, ◌≡◌, ◌≢◌, ◌≤◌, ◌<◌, ◌∷◌, false, some, Bytes, length, arith, overwrite, length-overwrite,
  take-overwrite,
}
use doublefetch.Kernel.{Kernel, World}
use doublefetch.AacSend.{
  FibHeader, Adapter, AacCall, issue, refetched_bug, without_copy, send_fib_bug, fib_bytes,
}
use doublefetch.AacSend.Bounds.{AllFit, calls-free_fib}

module _ (k : Kernel) (h : FibHeader) (a : Adapter) where
  overrun-issue :
      (arg size : ℕ) (b : Bytes) (w : World AacCall)
      → h.command.read b ≢ a.take_a_break
      → length b < h.size + h.fib_size.read b
      → ¬ AllFit h (issue k h a arg size b w).1.calls
  unfolding issue
  overrun-issue arg size b w ne over all = ground arith

  overrun-without_copy :
      (arg : ℕ) (fib d : Bytes) (w : World AacCall)
      → length fib ≡ a.max_fib_size
      → fib_bytes k h a fib ≤ a.max_fib_size
      → k.fetch w.clock arg (fib_bytes k h a fib) ≡ some d
      → h.command.read d ≢ a.take_a_break
      → a.max_fib_size < h.size + h.fib_size.read d
      → ¬ AllFit h (without_copy k h a arg fib w).1.calls
  unfolding without_copy refetched_bug
  overrun-without_copy arg fib d w len small e ne over all =
      let got = k.fetch_length w.clock arg (fib_bytes k h a fib) d e in
      let kept = length-overwrite fib d (omega arith) in
      let prefix = take-overwrite h.size fib d (ground arith) in
      let same_size = h.fib_size.local (overwrite fib d) d prefix in
      let same_command = h.command.local (overwrite fib d) d prefix in
      ground (
        arith,
        overrun-issue arg (fib_bytes k h a fib) (overwrite fib d)
            (record w { clock = w.clock + 1 }),
      )

  fib_bytes-overwrite :
      (b d : Bytes) → h.size ≤ length d → fib_bytes k h a (overwrite b d) ≡ fib_bytes k h a d
  fib_bytes-overwrite b d le =
      let prefix = take-overwrite h.size b d le in
      ground (
        arith,
        h.fib_size.local (overwrite b d) d prefix,
        h.sender_size.local (overwrite b d) d prefix,
      )

  -- Before the patch, a header that fits the pool's buffer at the first fetch, and asks for more than
  -- that buffer at the second with an ordinary command, makes the handler send a fib whose `Size`
  -- reaches past its buffer.
  pub send_fib_bug-overrun :
      (arg : ℕ) (f first second : Bytes) (w : World AacCall)
      → a.in_reset ≡ false
      → h.size ≤ a.max_fib_size
      → a.fib_alloc w.clock ≡ some f
      → k.fetch (w.clock + 1) arg h.size ≡ some first
      → fib_bytes k h a first ≤ a.max_fib_size
      → k.fetch (w.clock + 1 + 1) arg (fib_bytes k h a first) ≡ some second
      → h.command.read second ≢ a.take_a_break
      → a.max_fib_size < h.size + h.fib_size.read second
      → ¬ AllFit h (send_fib_bug k h a arg w).1.calls
  unfolding send_fib_bug
  send_fib_bug-overrun arg f first second w on room got e1 small e2 ne over all = ground (
    arith,
    overrun-without_copy arg (overwrite f first) second
        (record w { clock = w.clock + 1 + 1; live = w.clock ∷ w.live }),
    calls-free_fib k h a w.clock
        (without_copy k h a arg (overwrite f first)
          (record w { clock = w.clock + 1 + 1; live = w.clock ∷ w.live })).0
        (without_copy k h a arg (overwrite f first)
          (record w { clock = w.clock + 1 + 1; live = w.clock ∷ w.live })).1,
    fib_bytes-overwrite f first (omega (arith, k.fetch_length _ _ _ first e1)),
    length-overwrite f first
        (omega (arith, k.fetch_length _ _ _ first e1, a.fib_length w.clock f got)),
    a.fib_length w.clock f got,
  )
