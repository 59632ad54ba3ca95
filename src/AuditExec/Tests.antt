-- ===== src/AuditExec/Tests.antt =====
-- Arguments of two characters and of more than a record, and the theorems at them.
use doublefetch.Base.{
  ℕ, ◌≡◌, refl, Bytes, true, none, some, [], ◌∷◌, replicate, arith, length-replicate, overwrite,
  length, ltb, if◌then◌else◌, suc, ap, subst, ◌++◌, inl, ◌≤◌,
}
use doublefetch.Kernel.{Kernel, World}
use doublefetch.Kernel.Machine.{machine, boot, zeros_length}
use doublefetch.AuditExec.{
  Audit, LogCall, sent, single_arg, send, walk, contains_control, string_of,
}
use doublefetch.AuditExec.Length.{send_whole, hex_bytes, bytes_at, length-bytes_at}
use doublefetch.AuditExec.Control.{AllClean, single_arg-AllClean}
use doublefetch.AuditExec.Race.{FoundNone, single_arg_unclean}

abbrev audit : Audit
audit = record { strnlen = λ t p. 3; digits = λ n. 1; max_arg_strlen = 131072; starts = λ t. true }

-- The letter a everywhere, or 7, which is a control character
abbrev letters : ℕ → ℕ → ℕ
letters t p = 97

abbrev controls : ℕ → ℕ → ℕ
controls t p = 7

abbrev buffer : Bytes
buffer = replicate 7501 0

letters_run :
    (single_arg (machine letters) audit 0 16 0 (replicate 4 0) boot).1.calls
    ≡ LogCall.text_piece 0 none (97 ∷ 97 ∷ []) ∷ []
unfolding single_arg machine contains_control overwrite
letters_run = refl

controls_run :
    (single_arg (machine controls) audit 0 16 0 (replicate 4 0) boot).1.calls
    ≡ LogCall.hex_piece 0 none (7 ∷ 7 ∷ []) ∷ []
unfolding single_arg machine contains_control overwrite
controls_run = refl

-- A memory that holds 7 for good
sevens : (t q n : ℕ) (b : Bytes) → some (bytes_at (λ p. 7) q n) ≡ some b → length b ≡ n
sevens t q n b e = ground (arith, length-bytes_at (λ p. 7) q n)

abbrev still : Kernel
still = record {
  fetch = λ t q n. some (bytes_at (λ p. 7) q n);
  fetch_length = sevens;
  store = λ t p b. true;
  fresh = λ t n. some (replicate n 0);
  fresh_length = zeros_length;
}

send_whole_example :
    (total : ℕ) × (buf : Bytes) × (w : World LogCall) × (send still audit 0 4000 true 4000 0 4000 16
        0 buffer boot
      ≡ (sent total buf, w))
    × (hex_bytes w.calls ≡ [] ++ bytes_at (λ p. 7) 16 4000)
send_whole_example =
    send_whole still audit 0 4000 (λ p. 7) (λ t q n. refl) (λ t. refl) 4000 0 4000 16 0 buffer boot
      (omega arith) (length-replicate {A = ℕ} 7501 0) (inl (omega arith))

single_arg-AllClean_example :
    AllClean (single_arg (machine letters) audit 0 16 0 buffer boot).1.calls
single_arg-AllClean_example =
    single_arg-AllClean (machine letters) audit 0 16 0 buffer boot (omega arith) (omega arith)
      (length-replicate {A = ℕ} 7501 0) tt

-- A memory that holds the letter a, and 7 from the time 2 on
abbrev at_time : ℕ → ℕ
at_time t = if ltb t 2 then 97 else 7

at_time_length : (t q n : ℕ) (b : Bytes) → some (replicate n (at_time t)) ≡ some b → length b ≡ n
at_time_length t q n b e = ground (arith, length-replicate {A = ℕ} n (at_time t))

abbrev turning : Kernel
turning = record {
  fetch = λ t q n. some (replicate n (at_time t));
  fetch_length = at_time_length;
  store = λ t p b. true;
  fresh = λ t n. some (replicate n 0);
  fresh_length = zeros_length;
}

turned : (n t : ℕ) → 2 ≤ t → turning.fetch t 16 n ≡ some (replicate n 7)
turned n t late = let e : at_time t ≡ 7 = ground arith in ap (λ v. some (replicate n v)) e

-- An argument of 7502 characters, searched in two rounds
abbrev long_audit : Audit
long_audit = record audit { strnlen = λ t p. 7503 }

clear_run : FoundNone (walk turning long_audit 7503 7502 16 buffer boot).0
unfolding walk contains_control overwrite
clear_run = tt

time_run : (walk turning long_audit 7503 7502 16 buffer boot).1.clock ≡ 2
unfolding walk contains_control overwrite
time_run = refl

seven_first : (n : ℕ) → contains_control (string_of (replicate (suc n) 7)) ≡ true
unfolding contains_control
seven_first n = refl

single_arg_unclean_example : ¬ AllClean (single_arg turning long_audit 0 16 0 buffer boot).1.calls
single_arg_unclean_example =
    single_arg_unclean turning long_audit 0 16 0 buffer (replicate 7500 7) boot (omega arith)
      (omega arith) clear_run (λ t. refl)
      (λ t late. turned 7500 t (subst (λ c. c ≤ t) time_run late)) (seven_first 7499)
