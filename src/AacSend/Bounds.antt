-- ===== src/AacSend/Bounds.antt =====
-- The adapter is never told of a fib larger than its buffer, once the patch is in.
use doublefetch.Base.{
  ℕ, ◌+◌, ◌-◌, ◌≡◌, ◌≤◌, List, [], ◌∷◌, ◌++◌, Bytes, length, ℤ, arith, Bool-cases, inl, inr,
  replicate, take, overwrite, memcmp_eq, Option-cases, ltb, length-overwrite, length-append,
  length-replicate, length-take, read-overwrite, ◌∙◌, sym, subst, take-take, take-overwrite,
}
use doublefetch.Kernel.{Kernel, Block, M, World, ◌>>=◌, tick, kmalloc}
use doublefetch.AacSend.{
  FibHeader, Adapter, AacCall, reply, issue, refetched, with_buffer, with_copy, send_fib, fib_bytes,
  alloc_dma, alloc_fib, free_fib,
}

module _ (h : FibHeader) where
  -- A fib that is sent lies in its buffer, with the size that its header states.
  abbrev pub Fits : AacCall → Type 0
  Fits (AacCall.send command size fib) = h.size + size ≤ length fib
  Fits AacCall.interrupt = Unit

  abbrev pub AllFit : List AacCall → Type 0
  AllFit [] = Unit
  AllFit (c ∷ cs) = Fits c × AllFit cs

module _ (k : Kernel) (h : FibHeader) (a : Adapter) where
  calls-reply :
      (arg size : ℕ) (b : Bytes) (w : World AacCall) → (reply k h a arg size b w).1.calls ≡ w.calls
  unfolding reply
  calls-reply arg size b w = ground arith

  fits-issue :
      (arg size : ℕ) (b : Bytes) (w : World AacCall)
      → h.size + h.fib_size.read b ≤ length b
      → AllFit h w.calls
      → AllFit h (issue k h a arg size b w).1.calls
  unfolding issue
  fits-issue arg size b w fits old = ground arith

  fits-refetched :
      (arg size : ℕ) (b : Bytes) (hd : Block) (w : World AacCall)
      → size ≤ length b
      → h.size + h.fib_size.read hd.bytes ≤ size
      → AllFit h w.calls
      → AllFit h (refetched k h a arg size b hd w).1.calls
  unfolding refetched
  fits-refetched arg size b hd w room small old = elim (Option-cases (k.fetch w.clock arg size)) [
    | inl e ↦ rw (AllFit, e) old
    | inr (d, e) ↦
        let len = k.fetch_length w.clock arg size d e in
        elim (Bool-cases (memcmp_eq h.size hd.bytes (overwrite b d))) [
          | inl same ↦
              let full = length-overwrite b d (omega arith) in
              let field = read-overwrite h.size h.fib_size hd.bytes b d same in
              rw (AllFit, e, same) (fits-issue arg size (overwrite b d) (tick w) (omega arith) old)
          | inr differ ↦ rw (AllFit, e, differ) old
        ]
  ]

  fits-with_buffer :
      (size : ℕ) (fib : Bytes) (go : Bytes → M AacCall ℤ) (w : World AacCall)
      → ((b : Bytes) (v : World AacCall)
          → size ≤ length b
          → AllFit h v.calls
          → AllFit h (go b v).1.calls)
      → length fib ≡ a.max_fib_size
      → AllFit h w.calls
      → AllFit h (with_buffer k h a size fib go w).1.calls
  unfolding with_buffer
  fits-with_buffer size fib go w rule len old = elim (Bool-cases (ltb a.max_fib_size size)) [
    | inr small ↦ rw (AllFit, small) (rule fib w (ground arith) old)
    | inl large ↦ elim (Bool-cases (ltb 2048 size)) [
      | inl over ↦ rw (AllFit, large, over) old
      | inr fine ↦ elim (Bool-cases (a.dma_alloc w.clock size)) [
        | inr none_left ↦ rw (AllFit, large, fine, ◌>>=◌, alloc_dma, none_left) old
        | inl got ↦
            rw (AllFit, large, fine, ◌>>=◌, alloc_dma, got)
              (rule (fib ++ replicate (size - a.max_fib_size) 0)
                (record (tick w) { live = w.clock ∷ w.live })
                (ground (
                  arith,
                  length-append fib (replicate (size - a.max_fib_size) 0),
                  length-replicate {A = ℕ} (size - a.max_fib_size) 0,
                ))
                old)
      ]
    ]
  ]

  -- The copy of the header has the header's fields.
  copy_size :
      (b fib : Bytes)
      → h.size ≤ length fib
      → h.fib_size.read (overwrite b (take h.size fib)) ≡ h.fib_size.read fib
  copy_size b fib le = h.fib_size.local (overwrite b (take h.size fib)) fib (
      take-overwrite h.size b (take h.size fib) (omega (arith, length-take h.size fib))
      ∙ take-take h.size h.size fib (omega arith))

  fits-with_copy :
      (arg : ℕ) (fib : Bytes) (w : World AacCall)
      → length fib ≡ a.max_fib_size
      → h.size ≤ a.max_fib_size
      → AllFit h w.calls
      → AllFit h (with_copy k h a arg fib w).1.calls
  unfolding with_copy
  fits-with_copy arg fib w len room old = elim (Option-cases (k.fresh w.clock h.size)) [
    | inl e ↦ rw (AllFit, ◌>>=◌, kmalloc, e) old
    | inr (b, e) ↦
        rw (AllFit, ◌>>=◌, kmalloc, e)
          (fits-with_buffer (fib_bytes k h a fib) fib
            (λ buf. refetched k h a arg (fib_bytes k h a fib) buf (copy b))
            (record (tick w) { live = w.clock ∷ w.live })
            (λ buf v le.
              fits-refetched arg (fib_bytes k h a fib) buf (copy b) v le
                (ground (arith, copy_size b fib (omega arith))))
            len old)
  ]
    where
      copy : Bytes → Block
      copy b = record { id = w.clock; bytes = overwrite b (take h.size fib) }

  pub calls-free_fib :
      (id : ℕ) (r : ℤ) (w : World AacCall) → (free_fib k h a id r w).1.calls ≡ w.calls
  unfolding free_fib
  calls-free_fib id r w = ground arith

  fits-with_header :
      (arg id : ℕ) (fib : Bytes) (w : World AacCall)
      → length fib ≡ a.max_fib_size
      → h.size ≤ a.max_fib_size
      → AllFit h w.calls
      → AllFit h ((with_copy k h a arg fib >>= free_fib k h a id) w).1.calls
  fits-with_header arg id fib w len room old =
      let (r, v) = with_copy k h a arg fib w in
      subst (AllFit h) (sym (calls-free_fib id r v)) (fits-with_copy arg fib w len room old)

  -- With the patch, every fib that `ioctl_send_fib` sends lies in its buffer: the header and the
  -- `Size` that the adapter is told end before the buffer does, whatever user space writes between
  -- the two fetches. The pool's buffers have room for a header.
  pub fits-send_fib :
      (arg : ℕ) (w : World AacCall)
      → h.size ≤ a.max_fib_size
      → AllFit h w.calls
      → AllFit h (send_fib k h a arg w).1.calls
  unfolding send_fib
  fits-send_fib arg w room old = elim (Bool-cases a.in_reset) [
    | inl off ↦ rw (AllFit, off) old
    | inr on ↦ elim (Option-cases (a.fib_alloc w.clock)) [
      | inl empty ↦ rw (AllFit, on, ◌>>=◌, alloc_fib, empty) old
      | inr (f, got) ↦ elim (Option-cases (k.fetch (w.clock + 1) arg h.size)) [
        | inl bad ↦ rw (AllFit, on, ◌>>=◌, alloc_fib, got, bad) old
        | inr (d, e) ↦
            rw (AllFit, on, ◌>>=◌, alloc_fib, got, e)
              (fits-with_header arg w.clock (overwrite f d)
                (record (tick (tick w)) { live = w.clock ∷ w.live })
                (ground (
                  arith,
                  length-overwrite f d,
                  k.fetch_length _ _ _ d e,
                  a.fib_length w.clock f got,
                ))
                room old)
      ]
    ]
  ]
