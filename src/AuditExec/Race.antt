-- ===== src/AuditExec/Race.antt =====
-- A long argument that changes between the search for control characters and its log.
use doublefetch.Base.{
  ℕ, zero, suc, ◌+◌, ◌-◌, ◌%◌, ◌≡◌, ◌≤◌, ◌<◌, true, false, some, [], ◌∷◌, ◌++◌, Bytes, length, set,
  drop, overwrite, ◌==◌, if◌then◌else◌, ℤ, min, arith, refl, ap, Bool-cases, inl, inr, subst,
}
use doublefetch.Kernel.{Kernel, World, copy_from_user, call, now}
use doublefetch.AuditExec.{
  Audit, LogCall, Walk, fault, walked, Sent, killed, lost, sent, max_len, to_send, with_room,
  refetched, send_piece, send, filled, string_of, contains_control, walk, finish, single_arg,
}
use doublefetch.AuditExec.Length.{Sent-cases}
use doublefetch.AuditExec.Control.{AllClean}

-- The search found no control character in any of the argument.
abbrev pub FoundNone : Walk → Type 0
FoundNone fault = ⊥
FoundNone (walked true b) = ⊥
FoundNone (walked false b) = Unit

string_of-set : (d r : Bytes) → string_of (set (d ++ r) (length d) 0) ≡ string_of d
string_of-set [] [] = refl
string_of-set [] (y ∷ r) = refl
string_of-set (x ∷ d) r = ap (λ l. if x == 0 then [] else x ∷ l) (string_of-set d r)

string_of-filled : (b d : Bytes) (n : ℕ) → length d ≡ n → string_of (filled b d n) ≡ string_of d
unfolding overwrite
string_of-filled b d n e =
    subst (λ m. string_of (set (d ++ drop (length d) b) m 0) ≡ string_of d) e
      (string_of-set d (drop (length d) b))

module _ (k : Kernel) (a : Audit) (arg len : ℕ) where
  -- What is logged stays logged.
  AllClean-send_piece :
      (i left p len_sent : ℕ) (buf : Bytes) (w : World LogCall)
      → AllClean (send_piece k a arg len false i left p len_sent buf w).1.calls
      → AllClean w.calls
  unfolding send_piece with_room refetched copy_from_user call now
  AllClean-send_piece i left p len_sent buf w clean = ground arith

  AllClean-send :
      (fuel i left p len_sent : ℕ) (buf : Bytes) (w : World LogCall)
      → AllClean (send k a arg len false fuel i left p len_sent buf w).1.calls
      → AllClean w.calls
  unfolding send
  AllClean-send zero i left p len_sent buf w clean = clean
  AllClean-send (suc fuel) i left p len_sent buf w clean =
      let r = send_piece k a arg len false i left p len_sent buf w in
      let m = to_send k a arg len false left in
      let back = AllClean-send_piece i left p len_sent buf w in
      let run = send k a arg len false (suc fuel) i left p len_sent buf w in
      let P : Sent × World LogCall → Type 0 = λ z. AllClean z.1.calls in
      elim (Bool-cases (left == 0)) [
        | inl done ↦ (let e : run ≡ (sent len_sent buf, w) = ground arith in subst P e clean)
        | inr more ↦ elim (Sent-cases r.0) [
          | inl bad ↦ (let e : run ≡ (killed, r.1) = ground arith in back (subst P e clean))
          | inr (inl bad) ↦ (let e : run ≡ (lost, r.1) = ground arith in back (subst P e clean))
          | inr (inr (total, buf', good)) ↦
              (let e : run ≡ send k a arg len false fuel (i + 1) (left - m) (p + m) total buf' r.1 =
                  ground arith in
                back
                  (AllClean-send fuel (i + 1) (left - m) (p + m) total buf' r.1 (subst P e clean)))
        ]
      ]

  -- The first piece of a long argument, in a record of its own, is what the second fetch reads.
  module _ (p : ℕ) (d : Bytes) (t0 : ℕ) (long : max_len < len)
      (starts : (t : ℕ) → a.starts t ≡ true)
      (reads : (t : ℕ) → t0 ≤ t → k.fetch t p max_len ≡ some d)
      (control : contains_control (string_of d) ≡ true) where
    first_piece :
        (len_sent : ℕ) (buf : Bytes) (w : World LogCall)
        → t0 ≤ w.clock
        → ¬ AllClean (send_piece k a arg len false 0 len p len_sent buf w).1.calls
    unfolding send_piece with_room refetched copy_from_user call now
    first_piece len_sent buf w late clean =
        let n = min len max_len in
        let whole : max_len ≡ n = omega arith in
        let t = w.clock + 1 + 1 + 1 in
        let got : k.fetch t p n ≡ some d =
          subst (λ m. k.fetch t p m ≡ some d) whole (reads t (omega arith)) in
        let calls : (send_piece k a arg len false 0 len p len_sent buf w).1.calls
            ≡ LogCall.text_piece arg (some 0) (string_of (filled buf d n))
              ∷ LogCall.arg_len arg len
              ∷ LogCall.log_start
              ∷ LogCall.log_end
              ∷ w.calls =
          ground (arith, starts w.clock, got) in
        let shown = ap contains_control (string_of-filled buf d n (k.fetch_length t p n d got)) in
        let looked = subst AllClean calls clean in ground (arith, looked.0, shown, control)

    unclean-send :
        (fuel len_sent : ℕ) (buf : Bytes) (w : World LogCall)
        → 0 < fuel
        → t0 ≤ w.clock
        → ¬ AllClean (send k a arg len false fuel 0 len p len_sent buf w).1.calls
    unfolding send
    unclean-send zero len_sent buf w pos_fuel late clean = elim pos_fuel [ ]
    unclean-send (suc fuel) len_sent buf w pos_fuel late clean =
        let r = send_piece k a arg len false 0 len p len_sent buf w in
        let m = to_send k a arg len false len in
        let first = first_piece len_sent buf w late in
        let run = send k a arg len false (suc fuel) 0 len p len_sent buf w in
        let P : Sent × World LogCall → Type 0 = λ z. AllClean z.1.calls in
        let some_left : (len == 0) ≡ false = ground arith in
        elim (Sent-cases r.0) [
          | inl bad ↦ (let e : run ≡ (killed, r.1) = ground arith in first (subst P e clean))
          | inr (inl bad) ↦ (let e : run ≡ (lost, r.1) = ground arith in first (subst P e clean))
          | inr (inr (total, buf', good)) ↦
              (let e : run ≡ send k a arg len false fuel (0 + 1) (len - m) (p + m) total buf' r.1 =
                  ground arith in
                first
                  (AllClean-send fuel (0 + 1) (len - m) (p + m) total buf' r.1 (subst P e clean)))
        ]

    unclean-finish :
        (len_sent : ℕ) (buf : Bytes) (first : Walk) (w : World LogCall)
        → FoundNone first
        → t0 ≤ w.clock
        → ¬ AllClean (finish k a arg len p len_sent buf first w).1.calls
    unfolding finish call
    unclean-finish len_sent buf fault w found late clean = found
    unclean-finish len_sent buf (walked true b) w found late clean = found
    unclean-finish len_sent buf (walked false b) w found late clean =
        let bad = unclean-send len len_sent b w (omega arith) late in
        let r = send k a arg len false len 0 len p len_sent b w in
        let same : (finish k a arg len p len_sent buf (walked false b) w).1.calls ≡ r.1.calls =
          elim (Sent-cases r.0) [
            | inl killed_now ↦ ground arith
            | inr (inl lost_now) ↦ ground arith
            | inr (inr (total, buf', good)) ↦ ground arith
          ] in
        bad (subst AllClean same clean)

-- A long argument is searched whole, and then fetched again for each piece. Where the search found no control
-- character, and after it another thread writes one to the first 7500 bytes, that piece goes to the log as
-- text all the same, so that the log has a control character as text, whatever the rest of the argument is
-- and however the call ends. This is where there is always a record, and the new bytes stay.
pub single_arg_unclean :
    (k : Kernel) (a : Audit) (arg p len_sent : ℕ) (buf d : Bytes) (w : World LogCall)
    → let len = (a.strnlen w.clock p + 18446744073709551615) % 18446744073709551616 in
      let searched = walk k a (len + 1) len p buf w in
      max_len < len
      → len ≤ a.max_arg_strlen - 1
      → FoundNone searched.0
      → ((t : ℕ) → a.starts t ≡ true)
      → ((t : ℕ) → searched.1.clock ≤ t → k.fetch t p max_len ≡ some d)
      → contains_control (string_of d) ≡ true
      → ¬ AllClean (single_arg k a arg p len_sent buf w).1.calls
unfolding single_arg call
single_arg_unclean k a arg p len_sent buf d w long fits clear starts reads control clean =
    let len = (a.strnlen w.clock p + 18446744073709551615) % 18446744073709551616 in
    let r = walk k a (len + 1) len p buf w in
    let e : single_arg k a arg p len_sent buf w ≡ finish k a arg len p len_sent buf r.0 r.1 =
      ground arith in
    let P : (ℤ × ℕ × Bytes) × World LogCall → Type 0 = λ z. AllClean z.1.calls in
    unclean-finish k a arg len p d r.1.clock long starts reads control len_sent buf r.0 r.1 clear
      (omega arith) (subst P e clean)
