-- ===== src/AacSrb/Tests.antt =====
-- Requests that run, for a small layout, and the theorems at them.
use doublefetch.Base.{
  ℕ, ◌+◌, ◌*◌, ◌≡◌, ◌≢◌, ◌<◌, ◌⊎◌, is_zero, Bool, true, false, [], ◌∷◌, Bytes, replicate, get_or,
  ◌==◌, if◌then◌else◌, pos, is_err, erestartsys, arith, refl,
}
use doublefetch.Kernel.Machine.{machine, boot}
use doublefetch.AacSrb.{SrbLayout, SrbAdapter, SrbCall, with_request, send_raw_srb}
use doublefetch.AacSrb.Live.{live-send_raw_srb}
use doublefetch.AacSrb.Fill.{AllFit}
use doublefetch.AacSrb.Fits.{AllFit-send_raw_srb}
use doublefetch.AacSrb.Overrun.{with_request_overrun}
use doublefetch.AacSrb.Listed.{NoStray}
use doublefetch.AacSrb.Stray.{with_request_stray}

-- Eight bytes with the size, the flags (1 for data back, 2 for data out) and the number of entries; an
-- entry has two or four bytes.
abbrev layout : SrbLayout
layout = record {
  user_base = 8;
  srb_base = 8;
  header = 0;
  sgmap = 6;
  sg32 = 2;
  sg64 = 4;
  count_offset = 0;
  flags = λ b. get_or b 4 0;
  is_in = λ f. f == 1;
  is_out = λ f. f == 2;
  command = λ b. [];
  sg_count = λ b. get_or b 5 0;
  entry32 = λ b i. (get_or b (8 + 2 * i) 0, get_or b (9 + 2 * i) 0);
  entry64 = λ b i. (get_or b (8 + 4 * i) 0, get_or b (10 + 4 * i) 0);
}

abbrev adapter : Bool → SrbAdapter
adapter is_host64 = record {
  in_reset = false;
  is_admin = true;
  max_fib_size = 512;
  is_host64 = is_host64;
  is_new_comm = false;
  max_sectors = 128;
  fib_alloc = λ t. true;
  fib_send = λ t. pos 0;
  count_after = λ t i n. n;
  filled = λ t n. replicate n 7;
  stray_done = λ t. false;
  reply = λ t. [];
}

-- Two entries of 3 and of 1 bytes, with data out
abbrev two : Bytes
two = 12 ∷ 0 ∷ 0 ∷ 0 ∷ 2 ∷ 2 ∷ 0 ∷ 0 ∷ 100 ∷ 3 ∷ 9 ∷ 1 ∷ []

abbrev memory : ℕ → ℕ → ℕ
memory t p = get_or two p 0

two_run : (send_raw_srb (machine memory) layout (adapter false) 0 boot).0 ≡ pos 0
unfolding send_raw_srb machine
two_run = refl

live-send_raw_srb_example :
    let r = send_raw_srb (machine memory) layout (adapter false) 0 boot in
    r.1.live ≡ (if is_err erestartsys r.0 then 0 ∷ [] else [])
live-send_raw_srb_example = live-send_raw_srb (machine memory) layout (adapter false) 0 boot

AllFit-send_raw_srb_example :
    AllFit (send_raw_srb (machine memory) layout (adapter false) 0 boot).1.calls
AllFit-send_raw_srb_example =
    AllFit-send_raw_srb (machine memory) layout (adapter false) 0 boot refl tt

with_request_overrun_example :
    ¬ AllFit (with_request (machine memory) layout (adapter true) 0 12 two boot).1.calls
unfolding machine
with_request_overrun_example =
    with_request_overrun (machine memory) layout (adapter true) 0 12 two (replicate 8 0)
      (replicate 3 0) 1 boot refl refl (omega arith) refl (omega arith) refl (omega arith)
      (omega arith) refl refl

-- No entry, and data back
abbrev none_left : Bytes
none_left = 8 ∷ 0 ∷ 0 ∷ 0 ∷ 1 ∷ 0 ∷ 0 ∷ 0 ∷ []

with_request_stray_example :
    let calls = (with_request (machine memory) layout (adapter true) 0 8 none_left boot).1.calls in
    ((layout.sg_count none_left ≡ 0)
      × (((layout.srb_base ≡ 8)
            × (is_zero ((adapter true).fib_send 0) ≡ true)
            × (calls ≡ SrbCall.stray 0 ∷ SrbCall.send true 8 0 [] [] ∷ []))
          ⊎ (((layout.srb_base ≢ 8) ⊎ (is_zero ((adapter true).fib_send 0) ≡ false))
              × NoStray calls)))
    ⊎ ((0 < layout.sg_count none_left) × NoStray calls)
with_request_stray_example =
    with_request_stray (machine memory) layout (adapter true) 0 8 none_left boot refl tt
