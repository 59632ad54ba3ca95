-- ===== src/AuditText/Room.antt =====
-- Which uses of the room of a buffer are within it.
use doublefetch.Base.{
  ℕ, ◌+◌, ◌-◌, ◌*◌, ◌/◌, ◌%◌, ◌≡◌, ◌≤◌, ◌<◌, some, List, [], ◌∷◌, ◌++◌, Bytes, length, leb, ◌==◌,
  max, arith, Bool-cases, Option-cases, inl, inr, sym, subst,
}
use doublefetch.AuditExec.{contains_control}
use doublefetch.AuditText.{
  LogEnv, Buffer, Use, bufsiz, int_ge, write, expand, if_room, print, put, print_twice, log_format,
  hex, log_n_hex, log_n_string, log_n_untrustedstring,
}

abbrev pub AllWithin : List Use → Type 0
AllWithin [] = Unit
AllWithin (u ∷ us) = (u.size ≤ u.room) × AllWithin us

-- `pskb_expand_head` makes the room that is asked for.
abbrev pub Grows : LogEnv → Type 0
Grows e = (t room extra tail : ℕ) → e.grow t room extra ≡ some tail → room + extra ≤ tail

-- A small number is an `int` as it is.
pub int_ge-small : (v n : ℕ) → v < 2147483648 → int_ge v n ≡ leb n v
int_ge-small v n h = let whole : v % 4294967296 ≡ v = omega arith in ground arith

-- The request of `audit_log_n_hex` for room, rounded up
pub rounded : (v r : ℕ) → v < 2147482624 → v - r < bufsiz * ((v - r) / bufsiz + 1) % 4294967296
rounded v r h = omega arith

module _ (e : LogEnv) (grows : Grows e) where
  pub if_room-expand :
      (P : Buffer → Type 0) (go : Buffer → Buffer) (extra : ℕ) (b : Buffer)
      → 0 < extra
      → ((t : ℕ) → P (record b { clock = t; lost = b.lost + 1 }))
      → ((t tail : ℕ) → b.room + extra ≤ tail → P (go (record b { clock = t; room = tail })))
      → P (if_room e go (expand e extra b))
  unfolding expand
  if_room-expand P go extra b some_extra failed rule =
      elim (Option-cases (e.grow b.clock b.room extra)) [
        | inl out ↦
            (let step : if_room e go (expand e extra b)
                  ≡ record b { clock = b.clock + 1; lost = b.lost + 1 } =
                ground arith in
              subst P (sym step) (failed (b.clock + 1)))
        | inr (tail, is) ↦
            (let c = record b { clock = b.clock + 1; room = tail } in
              elim (Bool-cases (tail == 0)) [
                | inl a ↦ absurd (let more = grows b.clock b.room extra tail is in ground arith)
                | inr a ↦
                    (let step : if_room e go (expand e extra b) ≡ go c = ground arith in
                      subst P (sym step)
                        (rule (b.clock + 1) tail (grows b.clock b.room extra tail is)))
              ])
      ]

  within-print_twice :
      (s : Bytes) (b : Buffer) → AllWithin b.uses → AllWithin (print_twice e s b).uses
  unfolding print_twice
  within-print_twice s b h = elim (Bool-cases (leb b.room (length s))) [
    | inr fits ↦ ground arith
    | inl long ↦
        (let c = print e s b in
          let step : print_twice e s b
              ≡ if_room e (λ b'. put e s (print e s b'))
                  (expand e (max bufsiz (1 + length s - b.room)) c) =
            ground arith in
          subst (λ x. AllWithin x.uses) (sym step)
            (if_room-expand (λ x. AllWithin x.uses) (λ b'. put e s (print e s b'))
              (max bufsiz (1 + length s - b.room)) c (omega arith) (λ t. (omega arith, h))
              (λ t tail more. (omega arith, (omega arith, (omega arith, h))))))
  ]

  -- A message that is formatted
  within-log_format :
      (s : Bytes) (b : Buffer) → AllWithin b.uses → AllWithin (log_format e s b).uses
  unfolding log_format
  within-log_format s b h = elim (Bool-cases (b.room == 0)) [
    | inr some_room ↦
        (let step : log_format e s b ≡ print_twice e s b = ground arith in
          subst (λ x. AllWithin x.uses) (sym step) (within-print_twice s b h))
    | inl no_room ↦
        (let step : log_format e s b ≡ if_room e (print_twice e s) (expand e bufsiz b) =
            ground arith in
          subst (λ x. AllWithin x.uses) (sym step)
            (if_room-expand (λ x. AllWithin x.uses) (print_twice e s) bufsiz b (omega arith)
              (λ t. h)
              (λ t tail more. within-print_twice s (record b { clock = t; room = tail }) h)))
  ]

  within-log_n_hex :
      (s : Bytes) (b : Buffer)
      → length s < 1073741312
      → AllWithin b.uses
      → AllWithin (log_n_hex e s b).uses
  unfolding log_n_hex
  within-log_n_hex s b small h =
      let go = λ (c : Buffer). write (length s * 2 + 1) (hex e s) c in
      let new_len = length s * 2 % 4294967296 in
      let extra = bufsiz * ((new_len - b.room) / bufsiz + 1) % 4294967296 in
      let P = λ (x : Buffer). AllWithin x.uses in
      let whole : new_len ≡ length s * 2 = omega arith in
      let fit = int_ge-small new_len b.room (omega arith) in
      let more_asked = rounded new_len b.room (omega arith) in
      elim (Bool-cases (int_ge new_len b.room)) [
        | inr fits ↦
            (let step : log_n_hex e s b ≡ go b = ground arith in
              subst P (sym step) (ground arith, h))
        | inl long ↦
            (let step : log_n_hex e s b ≡ if_room e go (expand e extra b) = ground arith in
              subst P (sym step) (
                if_room-expand P go extra b (omega arith) (λ t. h)
                  (λ t tail more. (omega arith, h))))
      ]

  within-log_n_string :
      (s : Bytes) (b : Buffer)
      → length s < 1073741312
      → AllWithin b.uses
      → AllWithin (log_n_string e s b).uses
  unfolding log_n_string
  within-log_n_string s b small h =
      let go = λ (c : Buffer). write (length s + 3) (34 ∷ (s ++ (34 ∷ []))) c in
      let P = λ (x : Buffer). AllWithin x.uses in
      let fit = int_ge-small (length s + 3) (b.room + 1) (omega arith) in
      elim (Bool-cases (int_ge (length s + 3) (b.room + 1))) [
        | inr fits ↦
            (let step : log_n_string e s b ≡ go b = ground arith in
              subst P (sym step) (ground arith, h))
        | inl long ↦
            (let step : log_n_string e s b ≡ if_room e go (expand e (length s + 3) b) =
                ground arith in
              subst P (sym step) (
                if_room-expand P go (length s + 3) b (omega arith) (λ t. h)
                  (λ t tail more. (omega arith, h))))
      ]

  within-log_n_untrustedstring :
      (s : Bytes) (b : Buffer)
      → length s < 1073741312
      → AllWithin b.uses
      → AllWithin (log_n_untrustedstring e s b).uses
  unfolding log_n_untrustedstring
  within-log_n_untrustedstring s b small h =
      let as_hex = within-log_n_hex s b small h in
      let as_text = within-log_n_string s b small h in
      elim (Bool-cases (contains_control s)) [ inl a ↦ ground arith | inr a ↦ ground arith ]

  -- A record is made by calls of `audit_log_format` and of `audit_log_n_untrustedstring`, in any order.
  pub data Made : Buffer → Buffer → Type 0 where
    start : {b : Buffer} → Made b b
    formatted : {b c : Buffer} (s : Bytes) → Made b c → Made b (log_format e s c)
    untrusted :
        {b c : Buffer} (s : Bytes)
        → length s < 1073741312
        → Made b c
        → Made b (log_n_untrustedstring e s c)

  -- Where `pskb_expand_head` makes the room that it is asked for, no call that writes a record writes past the
  -- end of the buffer, nor takes more for the text than there is room; a string that is not formatted has less
  -- than 2^30 - 512 bytes.
  pub AllWithin-Made : {b c : Buffer} → AllWithin b.uses → Made b c → AllWithin c.uses
  AllWithin-Made h start = h
  AllWithin-Made h (formatted {c = c} s run) = within-log_format s c (AllWithin-Made h run)
  AllWithin-Made h (untrusted {c = c} s small run) =
      within-log_n_untrustedstring s c small (AllWithin-Made h run)
