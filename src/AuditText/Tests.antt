-- ===== src/AuditText/Tests.antt =====
-- Buffers with texts, and the theorems at them.
use doublefetch.Base.{
  ℕ, ◌+◌, ◌/◌, ◌%◌, ◌≡◌, ◌<◌, some, [], ◌∷◌, ltb, if◌then◌else◌, arith, refl, Bool-cases, inl, inr,
}
use doublefetch.AuditText.{LogEnv, Buffer, log_format, log_n_untrustedstring}
use doublefetch.AuditText.Room.{AllWithin, Grows, Made, AllWithin-Made}
use doublefetch.AuditText.Read.{
  Packs, IsDigit, IsPlain, Appends, field, read, digit, read-log_n_untrustedstring,
}

abbrev nibble : ℕ → ℕ
nibble d = if ltb d 10 then 48 + d else 55 + d

abbrev env : LogEnv
env = record {
  grow = λ t room extra. some (room + extra);
  digits = λ x. (nibble (x / 16), nibble (x % 16));
}

-- A buffer with little room
abbrev small : Buffer
small = record { clock = 0; text = 97 ∷ 61 ∷ []; room = 3; lost = 0; uses = [] }

-- `a=` with a text in quotes, and with a text that has a line feed
quoted_run :
    (log_n_untrustedstring env (98 ∷ 99 ∷ []) small).text ≡ 97 ∷ 61 ∷ 34 ∷ 98 ∷ 99 ∷ 34 ∷ []
unfolding log_n_untrustedstring
quoted_run = refl

hex_run : (log_n_untrustedstring env (98 ∷ 10 ∷ []) small).text ≡ 97 ∷ 61 ∷ 54 ∷ 50 ∷ 48 ∷ 65 ∷ []
unfolding log_n_untrustedstring
hex_run = refl

Grows-env : Grows env
Grows-env t room extra tail is = ground arith

IsDigit-nibble : (d : ℕ) → d < 16 → IsDigit (nibble d) × (digit (nibble d) ≡ d)
IsDigit-nibble d h = elim (Bool-cases (ltb d 10)) [
  | inl a ↦ (inl (ground arith), ground arith)
  | inr a ↦ (inr (ground arith), ground arith)
]

Packs-env : Packs env
Packs-env x h =
    let (a, p) = IsDigit-nibble (x / 16) (omega arith) in
    let (b, q) = IsDigit-nibble (x % 16) (omega arith) in (a, b, omega (arith, p, q))

AllWithin-Made_example :
    AllWithin
      (log_n_untrustedstring env
        (98 ∷ 10 ∷ [])
        (log_format env (32 ∷ 98 ∷ 61 ∷ []) (log_n_untrustedstring env (98 ∷ 99 ∷ []) small))).uses
AllWithin-Made_example = AllWithin-Made env Grows-env {b = small} tt (
    Made.untrusted (98 ∷ 10 ∷ []) (omega arith)
      (Made.formatted (32 ∷ 98 ∷ 61 ∷ []) (Made.untrusted (98 ∷ 99 ∷ []) (omega arith) Made.start)))

read-log_n_untrustedstring_example :
    Appends (field env (98 ∷ 10 ∷ [])) small (log_n_untrustedstring env (98 ∷ 10 ∷ []) small)
    × (read (field env (98 ∷ 10 ∷ [])) ≡ 98 ∷ 10 ∷ [])
    × IsPlain (field env (98 ∷ 10 ∷ []))
read-log_n_untrustedstring_example =
    read-log_n_untrustedstring env Grows-env (98 ∷ 10 ∷ []) small Packs-env (omega arith)
      (omega arith)
