-- ===== src/MicVirtio/Tests.antt =====
-- Device pages, rings and copies that run, and the theorems at them.
use doublefetch.Base.{
  ℕ, ◌≡◌, ◌+◌, ◌%◌, ℤ, ◌≤◌, ◌<◌, ◌⊎◌, refl, Bytes, true, false, some, [], ◌∷◌, replicate, arith,
  pos, ltb, if◌then◌else◌, length-replicate, ◌==◌, ◌&&◌, is_zero, min,
}
use doublefetch.Kernel.Machine.{machine, boot}
use doublefetch.MicVirtio.{copy_dp_entry, copy_dp_entry_bug, PageCall, desc_size, has_large}
use doublefetch.MicVirtio.Page.{AllInside, Right, copy_dp_entry-Right}
use doublefetch.MicVirtio.Patch.{copy_dp_entry_bug-overrun}
use doublefetch.MicVirtio.Iov.{
  Card, int_buf_size, Vdev, Kiov, iov_consumed, sum_len, vringh_copy, copy_to_user,
}
use doublefetch.MicVirtio.Iov.Conserve.{IsSound, original, vringh_copy-conserve}
use doublefetch.MicVirtio.Iov.Overrun.{EndsAt, copy_to_user_overrun}
use doublefetch.MicVirtio.Copy.{Source, Loop, copy_loop}
use doublefetch.MicVirtio.Copy.Used.{Reports, copy_loop-Reports}

-- A page with no device
abbrev page : Bytes
page = replicate 4096 0

-- A descriptor of type 1, whose configuration has 200 bytes from the second access on
abbrev racing : ℕ → ℕ → ℕ
racing t a = if a == 0 then 1 else if (a == 3) && ltb 0 t then 200 else 0

copy_dp_entry-Right_example : Right page (copy_dp_entry (machine racing) 0 page boot)
copy_dp_entry-Right_example =
    copy_dp_entry-Right (machine racing) 0 page boot (length-replicate {A = ℕ} 4096 0) tt

abbrev checked : Bytes
checked = 1 ∷ 0 ∷ 0 ∷ 0 ∷ 0 ∷ 0 ∷ 0 ∷ 0 ∷ []

abbrev raced : Bytes
raced = 1 ∷ 0 ∷ 0 ∷ 200 ∷ 0 ∷ 0 ∷ 0 ∷ 0 ∷ []

copy_dp_entry_bug-overrun_example :
    let calls = (copy_dp_entry_bug (machine racing) 0 page boot).1.calls in
    (calls ≡ PageCall.store 24 208 8 ∷ [])
    × ¬ AllInside calls
    × ((copy_dp_entry (machine racing) 0 page boot).1.calls ≡ [])
unfolding machine desc_size has_large
copy_dp_entry_bug-overrun_example =
    copy_dp_entry_bug-overrun (machine racing) 0 page checked raced (replicate 8 0) boot
      (length-replicate {A = ℕ} 4096 0) refl refl (omega arith) (omega arith) refl refl
      (omega arith) refl (omega arith)

-- A card with lines of 64 bytes, where every transfer is fine
abbrev card : Card
card = record {
  alignment = 64;
  alignment_pos = omega arith;
  has_channel = true;
  prepared = λ t. true;
  submitted = λ t. pos 0;
  waited = λ t. pos 0;
  user_writes = λ t a n. true;
  user_reads = λ t a n. true;
}

abbrev vdev : Vdev
vdev = record {
  clock = 0;
  calls = [];
  in_bytes = 0;
  in_bytes_dma = 0;
  out_bytes = 0;
  out_bytes_dma = 0;
  tx_dst_unaligned = 0;
  tx_len_unaligned = 0;
}

-- Two elements, of 100 and of 50 bytes
abbrev two : Kiov
two = record {
  past = [];
  rest = record { base = 640; len = 100 } ∷ record { base = 1280; len = 50 } ∷ [];
  consumed = 0;
}

abbrev vringh_copied : ℤ × ℕ × Kiov × Vdev
vringh_copied =
    vringh_copy (λ u n d dlen v. copy_to_user card u n d v) two.rest [] 0 7000 120 0 vdev

vringh_copy-conserve_example :
    (original vringh_copied.2 ≡ original two)
    × IsSound vringh_copied.2
    × (iov_consumed vringh_copied.2 ≡ (iov_consumed two + vringh_copied.1) % 4294967296)
    × (sum_len vringh_copied.2.rest + vringh_copied.1 ≡ sum_len two.rest)
    × (vringh_copied.1 ≤ 120)
    × ((is_zero vringh_copied.0 ≡ false) ⊎ (vringh_copied.1 ≡ min 120 (sum_len two.rest)))
vringh_copy-conserve_example =
    vringh_copy-conserve (λ u n d dlen v. copy_to_user card u n d v) two 7000 120 vdev (omega arith)

overrun_run : is_zero (copy_to_user card 7000 65536 10 vdev).0 ≡ true
unfolding copy_to_user
overrun_run = refl

copy_to_user_overrun_example :
    EndsAt card (7000 + 65536 + 10) (copy_to_user card 7000 65536 10 vdev).1.calls
copy_to_user_overrun_example =
    copy_to_user_overrun card 7000 65536 10 vdev
      (let big : int_buf_size < 65536 + 10 % 64 = omega arith in big) overrun_run

-- Two iovecs of the user, of 60 bytes each, and nothing to notify
abbrev source : Source
source = record {
  getdesc = λ t. (pos 1, two, two, 0);
  iovec = λ t a. some (7000, 60);
  needs_notify = λ t. pos 0;
  last_avail_idx = λ t. 0;
}

abbrev start : Loop
start = record {
  ret = pos 0;
  out_len = 0;
  riov = two;
  wiov = record { past = []; rest = []; consumed = 0 };
  vdev = vdev;
}

copy_loop-Reports_example :
    (l' : Loop) × (copy_loop card source 3 2 5000 0 0 start ≡ some l') × Reports start l'
copy_loop-Reports_example =
    copy_loop-Reports card source 3 2 5000 0 0 start (omega arith) (omega arith, refl)
