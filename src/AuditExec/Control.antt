-- ===== src/AuditExec/Control.antt =====
-- Text in the log: short arguments have no control characters in it, and long ones may.
use doublefetch.Base.{
  ℕ, zero, suc, ◌+◌, ◌-◌, ◌%◌, ◌≡◌, ◌≤◌, ◌<◌, true, false, List, [], ◌∷◌, Bytes, length, set, take,
  overwrite, ltb, ◌==◌, ℤ, min, arith, refl, sym, ◌∙◌, Bool-cases, Option-cases, inl, inr, subst,
  length-set, length-overwrite,
}
use doublefetch.Kernel.{Kernel, World, copy_from_user, call, now, tick}
use doublefetch.AuditExec.{
  Audit, LogCall, Walk, fault, walked, Sent, killed, lost, sent, max_len, to_send, with_room,
  refetched, send_piece, send, filled, string_of, contains_control, walk, finish, single_arg,
}
use doublefetch.AuditExec.Length.{Sent-cases}

abbrev pub AllClean : List LogCall → Type 0
AllClean [] = Unit
AllClean (LogCall.text_piece arg i b ∷ cs) = (contains_control b ≡ false) × AllClean cs
AllClean (LogCall.hex_piece arg i b ∷ cs) = AllClean cs
AllClean (LogCall.log_end ∷ cs) = AllClean cs
AllClean (LogCall.log_start ∷ cs) = AllClean cs
AllClean (LogCall.arg_len arg n ∷ cs) = AllClean cs
AllClean (LogCall.sigkill ∷ cs) = AllClean cs

-- What stands before the NUL that is stored was looked at.
string_of-clean :
    (n : ℕ) (buf : Bytes)
    → n < length buf
    → contains_control (take n buf) ≡ false
    → contains_control (string_of (set buf n 0)) ≡ false
unfolding contains_control
string_of-clean n [] h e = absurd (omega arith)
string_of-clean zero (x ∷ buf) h e = refl
string_of-clean (suc n) (x ∷ buf) h e = ground (arith, string_of-clean n buf (omega arith))

module _ (k : Kernel) (a : Audit) (arg len : ℕ) where
  send_piece-AllClean :
      (i len_left p len_sent : ℕ) (buf : Bytes) (w : World LogCall)
      → len < max_len
      → min len_left max_len < length buf
      → contains_control (take (min len_left max_len) buf) ≡ false
      → AllClean w.calls
      → AllClean (send_piece k a arg len false i len_left p len_sent buf w).1.calls
  unfolding send_piece with_room refetched copy_from_user call now
  send_piece-AllClean i len_left p len_sent buf w short room clean old =
      ground (arith, string_of-clean (min len_left max_len) buf room clean)

  send_done :
      (fuel i left p len_sent : ℕ) (buf : Bytes) (w : World LogCall)
      → left ≡ 0
      → (send k a arg len false fuel i left p len_sent buf w).1 ≡ w
  unfolding send
  send_done zero i left p len_sent buf w e = refl
  send_done (suc fuel) i left p len_sent buf w e = ground arith

  send-AllClean :
      (fuel p len_sent : ℕ) (buf : Bytes) (w : World LogCall)
      → len < max_len
      → len < length buf
      → contains_control (take len buf) ≡ false
      → AllClean w.calls
      → AllClean (send k a arg len false fuel 0 len p len_sent buf w).1.calls
  unfolding send
  send-AllClean zero p len_sent buf w short room clean old = old
  send-AllClean (suc fuel) p len_sent buf w short room clean old =
      let m = min len max_len in
      let all : m ≡ len = omega arith in
      let one =
        send_piece-AllClean 0 len p len_sent buf w short (omega arith)
          (subst (λ n. contains_control (take n buf) ≡ false) (sym all) clean) old in
      let r = send_piece k a arg len false 0 len p len_sent buf w in
      let run = send k a arg len false (suc fuel) 0 len p len_sent buf w in
      let P : Sent × World LogCall → Type 0 = λ z. AllClean z.1.calls in
      elim (Bool-cases (len == 0)) [
        | inl done ↦ (let e : run ≡ (sent len_sent buf, w) = ground arith in subst P (sym e) old)
        | inr more ↦ elim (Sent-cases r.0) [
          | inl bad ↦ (let e : run ≡ (killed, r.1) = ground arith in subst P (sym e) one)
          | inr (inl bad) ↦ (let e : run ≡ (lost, r.1) = ground arith in subst P (sym e) one)
          | inr (inr (total, buf', good)) ↦
              (let none_left : len - m ≡ 0 = omega arith in
                let e : run ≡ send k a arg len false fuel (0 + 1) (len - m) (p + m) total buf' r.1 =
                  ground arith in
                subst P (sym e) (
                  subst (λ v. AllClean v.calls)
                    (sym (send_done fuel (0 + 1) (len - m) (p + m) total buf' r.1 none_left)) one))
        ]
      ]

send_hex_piece :
    (k : Kernel) (a : Audit) (arg len i left p len_sent : ℕ) (buf : Bytes) (w : World LogCall)
    → AllClean w.calls
    → AllClean (send_piece k a arg len true i left p len_sent buf w).1.calls
unfolding send_piece with_room refetched copy_from_user call now
send_hex_piece k a arg len i left p len_sent buf w old = ground arith

module _ (k : Kernel) (a : Audit) where
  -- A walk over a short argument: what it leaves in the buffer was looked at.
  abbrev Looked : ℕ → Walk × World LogCall → Type 0
  Looked len (fault, w) = AllClean w.calls
  Looked len (walked true buf, w) = AllClean w.calls
  Looked len (walked false buf, w) =
      AllClean w.calls × (len < length buf) × (contains_control (take len buf) ≡ false)

  walk-Looked :
      (fuel len p : ℕ) (buf : Bytes) (w : World LogCall)
      → len < max_len
      → length buf ≡ max_len + 1
      → AllClean w.calls
      → Looked len (walk k a fuel len p buf w)
  unfolding walk copy_from_user
  walk-Looked zero len p buf w short size old = old
  walk-Looked (suc fuel) len p buf w short size old =
      elim (Option-cases (k.fetch w.clock p (min len max_len))) [
        | inl e ↦
            (let step : walk k a (suc fuel) len p buf w ≡ (fault, tick w) = ground arith in
              subst (Looked len) (sym step) old)
        | inr (d, e) ↦
            let m = min len max_len in
            let same : m ≡ len = omega arith in
            let b = filled buf d m in
            let long : length b ≡ max_len + 1 =
              length-set (overwrite buf d) m 0
              ∙ length-overwrite buf d (omega (arith, k.fetch_length w.clock p m d e))
              ∙ size in
            elim (Bool-cases (contains_control (take m b))) [
              | inl control ↦
                  (let step : walk k a (suc fuel) len p buf w ≡ (walked true b, tick w) =
                      ground arith in
                    subst (Looked len) (sym step) old)
              | inr clean ↦
                  (let step : walk k a (suc fuel) len p buf w ≡ (walked false b, tick w) =
                      ground arith in
                    subst (Looked len) (sym step) (
                      old,
                      omega arith,
                      subst (λ n. contains_control (take n b) ≡ false) same clean,
                    ))
            ]
      ]

  send_hex :
      (arg len fuel i left p len_sent : ℕ) (buf : Bytes) (w : World LogCall)
      → AllClean w.calls
      → AllClean (send k a arg len true fuel i left p len_sent buf w).1.calls
  unfolding send
  send_hex arg len zero i left p len_sent buf w old = old
  send_hex arg len (suc fuel) i left p len_sent buf w old =
      let r = send_piece k a arg len true i left p len_sent buf w in
      let m = to_send k a arg len true left in
      let one = send_hex_piece k a arg len i left p len_sent buf w old in
      let run = send k a arg len true (suc fuel) i left p len_sent buf w in
      let P : Sent × World LogCall → Type 0 = λ z. AllClean z.1.calls in
      elim (Bool-cases (left == 0)) [
        | inl done ↦ (let e : run ≡ (sent len_sent buf, w) = ground arith in subst P (sym e) old)
        | inr more ↦ elim (Sent-cases r.0) [
          | inl bad ↦ (let e : run ≡ (killed, r.1) = ground arith in subst P (sym e) one)
          | inr (inl bad) ↦ (let e : run ≡ (lost, r.1) = ground arith in subst P (sym e) one)
          | inr (inr (total, buf', good)) ↦
              (let e : run ≡ send k a arg len true fuel (i + 1) (left - m) (p + m) total buf' r.1 =
                  ground arith in
                subst P (sym e)
                  (send_hex arg len fuel (i + 1) (left - m) (p + m) total buf' r.1 one))
        ]
      ]

  finish-AllClean :
      (arg len p len_sent : ℕ) (buf : Bytes) (first : Walk) (w : World LogCall)
      → len < max_len
      → Looked len (first, w)
      → AllClean (finish k a arg len p len_sent buf first w).1.calls
  unfolding finish call
  finish-AllClean arg len p len_sent buf fault w short looked = looked
  finish-AllClean arg len p len_sent buf (walked true b) w short looked =
      let sent_all = send_hex arg len len 0 len p len_sent b w looked in ground arith
  finish-AllClean arg len p len_sent buf (walked false b) w short (old, room, clean) =
      let sent_all = send-AllClean k a arg len len p len_sent b w short room clean old in
      ground arith

  -- An argument of fewer than 7500 characters is logged as text only where none of its characters is a
  -- control character, a space or a quotation mark, whatever the other threads write meanwhile.
  pub single_arg-AllClean :
      (arg p len_sent : ℕ) (buf : Bytes) (w : World LogCall)
      → 0 < a.strnlen w.clock p
      → a.strnlen w.clock p ≤ max_len
      → length buf ≡ max_len + 1
      → AllClean w.calls
      → AllClean (single_arg k a arg p len_sent buf w).1.calls
  unfolding single_arg call
  single_arg-AllClean arg p len_sent buf w some_text short size old =
      let len = (a.strnlen w.clock p + 18446744073709551615) % 18446744073709551616 in
      let small : len < max_len = omega arith in
      let r = walk k a (len + 1) len p buf w in
      let done =
        finish-AllClean arg len p len_sent buf r.0 r.1 small
          (walk-Looked (len + 1) len p buf w small size old) in
      let P : (ℤ × ℕ × Bytes) × World LogCall → Type 0 = λ z. AllClean z.1.calls in
      elim (Bool-cases (ltb (a.max_arg_strlen - 1) len)) [
        | inl over ↦
            (let e : (single_arg k a arg p len_sent buf w).1.calls ≡ LogCall.sigkill ∷ w.calls =
                ground arith in
              subst AllClean (sym e) old)
        | inr fits ↦
            (let e : single_arg k a arg p len_sent buf w
                  ≡ finish k a arg len p len_sent buf r.0 r.1 =
                ground arith in
              subst P (sym e) done)
      ]
