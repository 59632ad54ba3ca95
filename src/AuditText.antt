-- ===== src/AuditText.antt =====
-- The buffers of the audit log and what is written to them: `audit_expand` to `audit_log_untrustedstring`
-- of cocci/testdir/truecases/audit.c.
pub mod Room
pub mod Read
mod Tests
use doublefetch.Base.{
  ℕ, zero, suc, ◌+◌, ◌-◌, ◌*◌, ◌/◌, ◌%◌, ◌≡◌, Bool, true, false, Option, none, some, List, [], ◌∷◌,
  ◌++◌, Bytes, length, take, ltb, leb, ◌==◌, ◌&&◌, not, if◌then◌else◌, max, min,
}
use doublefetch.AuditExec.{contains_control, string_of}

-- AUDIT_BUFSIZ
abbrev pub bufsiz : ℕ
bufsiz = 1024

-- Bytes that are written behind the text, or made part of it: how many, and how many there was room for
pub record Use : Type 0 where
  pub size : ℕ
  pub room : ℕ

-- `struct audit_buffer` with its skb: the text so far, the room after it, the messages lost, and the uses of
-- the room, the newest first
pub record Buffer : Type 0 where
  pub clock : ℕ
  pub text : Bytes
  pub room : ℕ
  pub lost : ℕ
  pub uses : List Use

-- What the kernel gives: the room after `pskb_expand_head` at a time, for the room so far and how much more
-- is asked for; the two digits of `hex_byte_pack_upper`
pub record LogEnv : Type 0 where
  pub grow : ℕ → ℕ → ℕ → Option ℕ
  pub digits : ℕ → ℕ × ℕ

-- An `int` of the code that is not less than a number
abbrev pub int_ge : ℕ → ℕ → Bool
int_ge v n = ltb (v % 4294967296) 2147483648 && leb n (v % 4294967296)

-- Some bytes of a text with what closes it, of which the text becomes part of the buffer's
abbrev pub write : (size : ℕ) → Bytes → Buffer → Buffer
write size s b = record b {
  text = b.text ++ s;
  room = b.room - length s;
  uses = record { size = size; room = b.room } ∷ b.uses;
}

module _ (e : LogEnv) where
  -- `audit_expand`
  unfoldable pub expand : ℕ → Buffer → ℕ × Buffer
  expand extra b = elim (e.grow b.clock b.room extra) [
    | none ↦ (0, record b { clock = b.clock + 1; lost = b.lost + 1 })
    | some tail ↦ (tail, record b { clock = b.clock + 1; room = tail })
  ]

  -- What follows a call of `audit_expand` that finds room
  abbrev pub if_room : (Buffer → Buffer) → ℕ × Buffer → Buffer
  if_room go (avail, b) = elim (avail == 0) [ true ↦ b | false ↦ go b ]

  -- `vsnprintf`: it writes what there is room for, with a NUL, and tells the length of all.
  abbrev pub print : Bytes → Buffer → Buffer
  print s b = record b {
    uses = record { size = min (length s + 1) b.room; room = b.room } ∷ b.uses;
  }

  -- The end of `audit_log_vformat`: what is printed becomes part of the text.
  abbrev pub put : Bytes → Buffer → Buffer
  put s b = record b {
    text = b.text ++ s;
    room = b.room - length s;
    uses = record { size = length s; room = b.room } ∷ b.uses;
  }

  -- `audit_log_vformat` from the first `vsnprintf` on
  unfoldable pub print_twice : Bytes → Buffer → Buffer
  unfolding expand
  print_twice s b = elim (leb b.room (length s)) [
    | false ↦ put s (print s b)
    | true ↦
        if_room (λ b'. put s (print s b')) (expand (max bufsiz (1 + length s - b.room)) (print s b))
  ]

  -- `audit_log_vformat`, for the text that the format and its arguments make
  unfoldable pub log_format : Bytes → Buffer → Buffer
  unfolding expand print_twice
  log_format s b = elim (b.room == 0) [
    | true ↦ if_room (print_twice s) (expand bufsiz b)
    | false ↦ print_twice s b
  ]

  abbrev pub hex : Bytes → Bytes
  hex [] = []
  hex (x ∷ xs) = (e.digits x).0 ∷ (e.digits x).1 ∷ hex xs

  -- `audit_log_n_hex`
  unfoldable pub log_n_hex : Bytes → Buffer → Buffer
  unfolding expand
  log_n_hex s b =
      let new_len = length s * 2 % 4294967296 in
      let go = λ (c : Buffer). write (length s * 2 + 1) (hex s) c in
      elim (int_ge new_len b.room) [
        | true ↦ if_room go (expand (bufsiz * ((new_len - b.room) / bufsiz + 1) % 4294967296) b)
        | false ↦ go b
      ]

  -- `audit_log_n_string`
  unfoldable pub log_n_string : Bytes → Buffer → Buffer
  unfolding expand
  log_n_string s b =
      let go = λ (c : Buffer). write (length s + 3) (34 ∷ (s ++ (34 ∷ []))) c in
      elim (int_ge (length s + 3) (b.room + 1)) [
        | true ↦ if_room go (expand (length s + 3) b)
        | false ↦ go b
      ]

  -- `audit_log_n_untrustedstring`
  unfoldable pub log_n_untrustedstring : Bytes → Buffer → Buffer
  unfolding contains_control log_n_hex log_n_string
  log_n_untrustedstring s b = elim (contains_control s) [
    | true ↦ log_n_hex s b
    | false ↦ log_n_string s b
  ]

  -- `audit_log_untrustedstring`, for the bytes in memory from the string on
  abbrev pub log_untrustedstring : Bytes → Buffer → Buffer
  unfolding log_n_untrustedstring
  log_untrustedstring s = log_n_untrustedstring (string_of s)
