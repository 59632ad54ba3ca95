-- ===== src/AacSend.antt =====
-- Sending a fib to an aacraid adapter, the ioctl FSACTL_SENDFIB: `ioctl_send_fib` of
-- auto_fix/bug_files/commctrl.c and of auto_fix/patched_files/2-patched-commctrl.c.
pub mod Bounds
pub mod Memory
pub mod Unpatched
mod Tests
use doublefetch.Base.{
  ℕ, ◌+◌, ◌-◌, ◌≡◌, Bool, true, false, Option, none, some, List, ◌∷◌, ◌++◌, Bytes, Field, length,
  take, overwrite, replicate, memcmp_eq, if◌then◌else◌, ℤ, pos, err, is_zero, is_err, efault,
  enomem, einval, ebusy, erestartsys, ltb, ◌==◌,
}
use doublefetch.Kernel.{
  Kernel, Block, M, World, pure, ◌>>=◌, ◌>>◌, tick, remove, copy_from_user, copy_to_user, kmalloc,
  kfree, call, now,
}

-- `struct aac_fibhdr`, of aacraid.h, in the order of bytes that `le16_to_cpu` gives.
pub record FibHeader : Type 0 where
  pub size : ℕ
  pub fib_size : Field size  -- `Size`
  pub sender_size : Field size  -- `SenderSize`
  pub command : Field size
  pub clear_state : Bytes → Bytes  -- `XferState = 0`
  pub length_clear : (b : Bytes) → length (clear_state b) ≡ length b

-- What goes to the adapter: a fib with its command and size, or an interrupt.
pub data AacCall : Type 0 where
  send : (command size : ℕ) (fib : Bytes) → AacCall
  interrupt : AacCall

-- The adapter and its memory, at a time. The pool's buffers and a DMA block have the size asked for.
pub record Adapter : Type 0 where
  pub in_reset : Bool
  pub max_fib_size : ℕ
  pub take_a_break : ℕ
  pub fib_alloc : ℕ → Option Bytes
  pub fib_length : (t : ℕ) (b : Bytes) → fib_alloc t ≡ some b → length b ≡ max_fib_size
  pub dma_alloc : ℕ → ℕ → Bool
  pub fib_send : ℕ → ℕ → ℕ → Bytes → ℤ × Bytes
  pub send_length : (t c n : ℕ) (b : Bytes) → length (fib_send t c n b).1 ≡ length b
  pub fib_complete : ℕ → Bytes → ℤ

module _ (k : Kernel) (h : FibHeader) (a : Adapter) where
  -- `aac_fib_alloc`
  unfoldable pub alloc_fib : M AacCall (Option Block)
  alloc_fib w = elim (a.fib_alloc w.clock) [
    | none ↦ (none, tick w)
    | some b ↦
        (some (record { id = w.clock; bytes = b }), record (tick w) { live = w.clock ∷ w.live })
  ]

  -- `pci_alloc_consistent`: the number of the block
  unfoldable pub alloc_dma : ℕ → M AacCall (Option ℕ)
  alloc_dma size w = elim (a.dma_alloc w.clock size) [
    | false ↦ (none, tick w)
    | true ↦ (some w.clock, record (tick w) { live = w.clock ∷ w.live })
  ]

  -- the copy of the fib back to the user
  unfoldable pub reply : ℕ → ℕ → Bytes → M AacCall ℤ
  unfolding copy_to_user
  reply arg size kfib = do
    done ← copy_to_user k arg (take size kfib)
    pure (if done then pos 0 else err efault)

  -- from the test of the command to the copy back
  unfoldable pub issue : ℕ → ℕ → Bytes → M AacCall ℤ
  unfolding call now reply
  issue arg size kfib = elim (h.command.read kfib == a.take_a_break) [
    | true ↦ do call AacCall.interrupt; reply arg size (h.clear_state kfib)
    | false ↦ do
      t ← now
      call (AacCall.send (h.command.read kfib) (h.fib_size.read kfib) kfib)
      let (retval, answer) = a.fib_send t (h.command.read kfib) (h.fib_size.read kfib) kfib
      elim (is_zero retval) [
        | false ↦ pure retval
        | true ↦ elim (is_zero (a.fib_complete t answer)) [
          | false ↦ pure (err einval)
          | true ↦ reply arg size answer
        ]
      ]
  ]

  -- The second fetch, and the patch's comparison with `hd`, which only a mismatch frees.
  unfoldable pub refetched : ℕ → ℕ → Bytes → Block → M AacCall ℤ
  unfolding copy_from_user issue kfree
  refetched arg size kfib hd = do
    fetched ← copy_from_user k arg size
    elim fetched [
      | none ↦ pure (err efault)
      | some bytes ↦ elim (memcmp_eq h.size hd.bytes (overwrite kfib bytes)) [
        | true ↦ issue arg size (overwrite kfib bytes)
        | false ↦ do kfree hd.id; pure (err efault)
      ]
    ]

  -- before the patch
  unfoldable pub refetched_bug : ℕ → ℕ → Bytes → M AacCall ℤ
  unfolding copy_from_user issue
  refetched_bug arg size kfib = do
    fetched ← copy_from_user k arg size
    elim fetched [ none ↦ pure (err efault) | some bytes ↦ issue arg size (overwrite kfib bytes) ]

  -- `size`: the larger of the two sizes in the header
  abbrev pub fib_bytes : Bytes → ℕ
  fib_bytes kfib =
      if ltb (h.fib_size.read kfib + h.size) (h.sender_size.read kfib)
      then h.sender_size.read kfib
      else h.fib_size.read kfib + h.size

  -- The buffer is the pool's, or a DMA block that starts with it and goes on with zeros; the cleanup
  -- frees the block.
  abbrev with_buffer : ℕ → Bytes → (Bytes → M AacCall ℤ) → M AacCall ℤ
  unfolding alloc_dma kfree
  with_buffer size kfib go = elim (ltb a.max_fib_size size) [
    | false ↦ go kfib
    | true ↦ elim (ltb 2048 size) [
      | true ↦ pure (err einval)
      | false ↦ do
        block ← alloc_dma size
        elim block [
          | none ↦ pure (err enomem)
          | some id ↦ do r ← go (kfib ++ replicate (size - a.max_fib_size) 0); kfree id; pure r
        ]
    ]
  ]

  -- The end of the cleanup: an interrupted call leaves the fib to the adapter.
  unfoldable pub free_fib : ℕ → ℤ → M AacCall ℤ
  unfolding kfree
  free_fib id retval = elim (is_err erestartsys retval) [
    | true ↦ pure retval
    | false ↦ do kfree id; pure retval
  ]

  -- the copy `hd` of the header
  unfoldable pub with_copy : ℕ → Bytes → M AacCall ℤ
  unfolding kmalloc with_buffer refetched
  with_copy arg kfib = do
    hd ← kmalloc k h.size
    elim hd [
      | none ↦ pure (err efault)
      | some b ↦ with_buffer (fib_bytes kfib) kfib (λ buffer.
          refetched arg (fib_bytes kfib) buffer
            (record { id = b.id; bytes = overwrite b.bytes (take h.size kfib) }))
    ]

  unfoldable pub without_copy : ℕ → Bytes → M AacCall ℤ
  unfolding with_buffer refetched_bug
  without_copy arg kfib = with_buffer (fib_bytes kfib) kfib (refetched_bug arg (fib_bytes kfib))

  -- `ioctl_send_fib` up to the fetch of the header, and its cleanup
  abbrev send_with : (ℕ → Bytes → M AacCall ℤ) → ℕ → M AacCall ℤ
  unfolding alloc_fib copy_from_user kfree free_fib
  send_with body arg = elim a.in_reset [
    | true ↦ pure (err ebusy)
    | false ↦ do
      fib ← alloc_fib
      elim fib [
        | none ↦ pure (err enomem)
        | some f ↦ do
          header ← copy_from_user k arg h.size
          elim header [
            | none ↦ do kfree f.id; pure (err efault)
            | some bytes ↦ do retval ← body arg (overwrite f.bytes bytes); free_fib f.id retval
          ]
      ]
  ]

  unfoldable pub send_fib : ℕ → M AacCall ℤ
  unfolding send_with with_copy
  send_fib = send_with with_copy

  unfoldable pub send_fib_bug : ℕ → M AacCall ℤ
  unfolding send_with without_copy
  send_fib_bug = send_with without_copy
