-- ===== src/AuditText/Read.antt =====
-- What a reader of the log gets from an untrusted string.
use doublefetch.Base.{
  ℕ, ◌+◌, ◌-◌, ◌*◌, ◌/◌, ◌%◌, ◌≡◌, ◌≤◌, ◌<◌, true, false, [], ◌∷◌, ◌++◌, Bytes, length, ltb, ◌==◌,
  if◌then◌else◌, arith, Bool-cases, inl, inr, ◌⊎◌, sym, subst, refl, ap₂,
}
use doublefetch.AuditExec.{contains_control}
use doublefetch.AuditText.{
  LogEnv, Buffer, bufsiz, int_ge, write, expand, if_room, hex, log_n_hex, log_n_string,
  log_n_untrustedstring,
}
use doublefetch.AuditText.Room.{Grows, if_room-expand, rounded}

-- The value of a digit in upper case
abbrev pub digit : ℕ → ℕ
digit d = if ltb d 58 then d - 48 else d - 55

abbrev pub unhex : Bytes → Bytes
unhex [] = []
unhex (x ∷ []) = []
unhex (x ∷ y ∷ r) = (digit x * 16 + digit y) ∷ unhex r

abbrev pub until_quote : Bytes → Bytes
until_quote [] = []
until_quote (x ∷ xs) = elim (x == 34) [ true ↦ [] | false ↦ x ∷ until_quote xs ]

-- A text in quotes is what stands in the quotes, all else is in hex.
abbrev pub read : Bytes → Bytes
read [] = []
read (x ∷ xs) = elim (x == 34) [ true ↦ until_quote xs | false ↦ unhex (x ∷ xs) ]

-- No character that separates fields or ends a line
abbrev pub IsPlain : Bytes → Type 0
IsPlain [] = Unit
IsPlain (x ∷ xs) = ((33 ≤ x) × (x ≤ 126)) × IsPlain xs

abbrev pub AllBytes : Bytes → Type 0
AllBytes [] = Unit
AllBytes (x ∷ xs) = (x < 256) × AllBytes xs

-- `hex_byte_pack_upper` gives the two digits of a byte, which are no quotes and no control characters.
abbrev pub IsDigit : ℕ → Type 0
IsDigit d = ((48 ≤ d) × (d ≤ 57)) ⊎ ((65 ≤ d) × (d ≤ 70))

abbrev pub Packs : LogEnv → Type 0
Packs e =
    (x : ℕ)
    → x < 256
    → IsDigit (e.digits x).0
      × IsDigit (e.digits x).1
      × (digit (e.digits x).0 * 16 + digit (e.digits x).1 ≡ x)

-- The field that a string becomes
abbrev pub field : LogEnv → Bytes → Bytes
unfolding contains_control
field e s = elim (contains_control s) [ true ↦ hex e s | false ↦ 34 ∷ (s ++ (34 ∷ [])) ]

module _ (e : LogEnv) (packs : Packs e) where
  unhex-hex : (s : Bytes) → AllBytes s → unhex (hex e s) ≡ s
  unhex-hex [] h = refl
  unhex-hex (x ∷ xs) (h, hs) =
      let (a, b, is) = packs x h in ap₂ (λ y ys. y ∷ ys) is (unhex-hex xs hs)

  IsPlain-hex : (s : Bytes) → AllBytes s → IsPlain (hex e s)
  IsPlain-hex [] h = tt
  IsPlain-hex (x ∷ xs) (h, hs) =
      let (a, b, is) = packs x h in (omega arith, (omega arith, IsPlain-hex xs hs))

  read-hex : (s : Bytes) → AllBytes s → contains_control s ≡ true → read (hex e s) ≡ s
  unfolding contains_control
  read-hex [] h bad = absurd (ground arith)
  read-hex (x ∷ xs) (h, hs) bad =
      let (a, b, is) = packs x h in
      let no_quote : ((e.digits x).0 == 34) ≡ false = ground arith in
      let all = unhex-hex (x ∷ xs) (h, hs) in ground arith

until_quote-string : (s : Bytes) → contains_control s ≡ false → until_quote (s ++ (34 ∷ [])) ≡ s
unfolding contains_control
until_quote-string [] h = refl
until_quote-string (x ∷ xs) h =
    let rest = until_quote-string xs (ground arith) in
    let no_quote : (x == 34) ≡ false = ground arith in ground arith

IsPlain-string : (s : Bytes) → contains_control s ≡ false → IsPlain (34 ∷ (s ++ (34 ∷ [])))
unfolding contains_control
IsPlain-string [] h = omega arith
IsPlain-string (x ∷ xs) h =
    let rest = IsPlain-string xs (ground arith) in (omega arith, (ground arith, rest.1))

-- What a call leaves of the text: all that is to be logged, or what there was, with a message lost
abbrev pub Appends : Bytes → Buffer → Buffer → Type 0
Appends f b c = (c.text ≡ b.text ++ f) ⊎ ((c.text ≡ b.text) × (c.lost ≡ b.lost + 1))

module _ (e : LogEnv) (grows : Grows e) where
  Appends-log_n_hex :
      (s : Bytes) (b : Buffer) → length s < 1073741312 → Appends (hex e s) b (log_n_hex e s b)
  unfolding log_n_hex
  Appends-log_n_hex s b small =
      let go = λ (c : Buffer). write (length s * 2 + 1) (hex e s) c in
      let new_len = length s * 2 % 4294967296 in
      let extra = bufsiz * ((new_len - b.room) / bufsiz + 1) % 4294967296 in
      let P = λ (x : Buffer). Appends (hex e s) b x in
      let more_asked = rounded new_len b.room (omega arith) in
      elim (Bool-cases (int_ge new_len b.room)) [
        | inr fits ↦
            (let step : log_n_hex e s b ≡ go b = ground arith in subst P (sym step) (inl refl))
        | inl long ↦
            (let step : log_n_hex e s b ≡ if_room e go (expand e extra b) = ground arith in
              subst P (sym step) (
                if_room-expand e grows P go extra b (omega arith) (λ t. inr (refl, refl))
                  (λ t tail more. inl refl)))
      ]

  Appends-log_n_string :
      (s : Bytes) (b : Buffer) → Appends (34 ∷ (s ++ (34 ∷ []))) b (log_n_string e s b)
  unfolding log_n_string
  Appends-log_n_string s b =
      let go = λ (c : Buffer). write (length s + 3) (34 ∷ (s ++ (34 ∷ []))) c in
      let P = λ (x : Buffer). Appends (34 ∷ (s ++ (34 ∷ []))) b x in
      elim (Bool-cases (int_ge (length s + 3) (b.room + 1))) [
        | inr fits ↦
            (let step : log_n_string e s b ≡ go b = ground arith in subst P (sym step) (inl refl))
        | inl long ↦
            (let step : log_n_string e s b ≡ if_room e go (expand e (length s + 3) b) =
                ground arith in
              subst P (sym step) (
                if_room-expand e grows P go (length s + 3) b (omega arith) (λ t. inr (refl, refl))
                  (λ t tail more. inl refl)))
      ]

  -- An untrusted string is logged as one field, or, where there is no room, not at all, and then it is counted
  -- as lost. From the field a reader gets the string again, and no character of it is a control character or a
  -- space, whatever the string holds. The string has less than 2^30 - 512 bytes, `pskb_expand_head` makes the
  -- room that it is asked for, and `hex_byte_pack_upper` gives the two digits of a byte.
  pub read-log_n_untrustedstring :
      (s : Bytes) (b : Buffer)
      → Packs e
      → AllBytes s
      → length s < 1073741312
      → Appends (field e s) b (log_n_untrustedstring e s b)
        × (read (field e s) ≡ s)
        × IsPlain (field e s)
  unfolding log_n_untrustedstring
  read-log_n_untrustedstring s b packs all small = elim (Bool-cases (contains_control s)) [
    | inl bad ↦
        (let is : field e s ≡ hex e s = ground arith in
          let step : log_n_untrustedstring e s b ≡ log_n_hex e s b = ground arith in
          subst (λ f. Appends f b (log_n_untrustedstring e s b) × (read f ≡ s) × IsPlain f) (sym is)
            (
              subst (Appends (hex e s) b) (sym step) (Appends-log_n_hex s b small),
              read-hex e packs s all bad,
              IsPlain-hex e packs s all,
            ))
    | inr good ↦
        (let f = 34 ∷ (s ++ (34 ∷ [])) in
          let is : field e s ≡ f = ground arith in
          let step : log_n_untrustedstring e s b ≡ log_n_string e s b = ground arith in
          subst (λ f. Appends f b (log_n_untrustedstring e s b) × (read f ≡ s) × IsPlain f) (sym is)
            (
              subst (Appends f b) (sym step) (Appends-log_n_string s b),
              until_quote-string s good,
              IsPlain-string s good,
            ))
  ]
