-- ===== src/AacSend/Tests.antt =====
-- Runs of `ioctl_send_fib`, and the theorems at them.
use doublefetch.Base.{
  ℕ, ◌≡◌, refl, pos, err, efault, some, [], ◌∷◌, if◌then◌else◌, ◌==◌, ltb, u16_field, set,
  length-set, arith, replicate, true, false, memcmp_eq, overwrite,
}
use doublefetch.Kernel.Machine.{machine, boot, zeros_length}
use doublefetch.AacSend.{FibHeader, Adapter, send_fib, send_fib_bug}
use doublefetch.AacSend.Bounds.{AllFit, fits-send_fib}
use doublefetch.AacSend.Unpatched.{send_fib_bug-overrun}

-- a header of eight bytes: the state, `Command`, `Size`, `SenderSize`
abbrev layout : FibHeader
layout = record {
  size = 8;
  fib_size = u16_field 8 4 (omega arith);
  sender_size = u16_field 8 6 (omega arith);
  command = u16_field 8 2 (omega arith);
  clear_state = λ b. set b 0 0;
  length_clear = λ b. length-set b 0 0;
}

abbrev board : Adapter
board = record {
  in_reset = false;
  max_fib_size = 16;
  take_a_break = 0xffff;
  fib_alloc = λ t. some (replicate 16 0);
  fib_length = λ t b e. zeros_length t 16 b e;
  dma_alloc = λ t n. true;
  fib_send = λ t c n b. (pos 0, b);
  send_length = λ t c n b. refl;
  fib_complete = λ t b. pos 0;
}

-- a fib with four bytes behind its header
abbrev still : ℕ → ℕ → ℕ
still t a = if a == 4 then 4 else 0

-- `Size` is 100 from the third access on: after the pool, and the fetch of the header.
abbrev racing : ℕ → ℕ → ℕ
racing t a = if a == 4 then (if ltb 1 t then 100 else 4) else 0

still_run : (send_fib (machine still) layout board 0 boot).0 ≡ pos 0
unfolding send_fib machine memcmp_eq overwrite
still_run = refl

racing_run : (send_fib (machine racing) layout board 0 boot).0 ≡ err efault
unfolding send_fib machine memcmp_eq overwrite
racing_run = refl

fits-send_fib_example : AllFit layout (send_fib (machine racing) layout board 0 boot).1.calls
fits-send_fib_example = fits-send_fib (machine racing) layout board 0 boot (omega arith) tt

send_fib_bug-overrun_example :
    ¬ AllFit layout (send_fib_bug (machine racing) layout board 0 boot).1.calls
unfolding machine
send_fib_bug-overrun_example =
    send_fib_bug-overrun (machine racing) layout board 0 (replicate 16 0)
      (0 ∷ 0 ∷ 0 ∷ 0 ∷ 4 ∷ 0 ∷ 0 ∷ 0 ∷ []) (0 ∷ 0 ∷ 0 ∷ 0 ∷ 100 ∷ 0 ∷ 0 ∷ 0 ∷ 0 ∷ 0 ∷ 0 ∷ 0 ∷ [])
      boot refl (omega arith) refl refl (omega arith) refl (omega arith) (omega arith)
