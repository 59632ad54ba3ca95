-- ===== src/AuditExec.antt =====
-- The arguments of an execve in the audit log: `audit_log_single_execve_arg` and `audit_log_execve_info`
-- of cocci/testdir/truecases/auditsc.c, with `audit_string_contains_control` of
-- cocci/testdir/truecases/audit.c. Each argument is fetched twice when it is long.
pub mod Length
pub mod Control
pub mod Race
mod Tests
use doublefetch.Base.{
  ℕ, zero, suc, ◌+◌, ◌-◌, ◌*◌, ◌%◌, ◌≡◌, Bool, true, false, Option, none, some, List, [], ◌∷◌,
  Bytes, length, set, take, drop, replicate, overwrite, ltb, ◌==◌, ◌||◌, ◌&&◌, not, if◌then◌else◌,
  ℤ, pos, negsuc, min,
}
use doublefetch.Kernel.{
  Kernel, World, M, pure, ◌>>=◌, ◌>>◌, copy_from_user, call, now, kmalloc, kfree,
}

-- MAX_EXECVE_AUDIT_LEN
abbrev pub max_len : ℕ
max_len = 7500

-- What goes to the log: the end and the start of a record, the length of an argument that does not fit in
-- one, and the pieces, with their index where there are several; then the signal.
pub data LogCall : Type 0 where
  log_end : LogCall
  log_start : LogCall
  arg_len : (arg len : ℕ) → LogCall
  hex_piece : (arg : ℕ) (index : Option ℕ) → Bytes → LogCall
  text_piece : (arg : ℕ) (index : Option ℕ) → Bytes → LogCall
  sigkill : LogCall

-- What the file does not hold: `strnlen_user`, the digits of a number, MAX_ARG_STRLEN, and whether
-- `audit_log_start` has a record at a time
pub record Audit : Type 0 where
  pub strnlen : (time addr : ℕ) → ℕ
  pub digits : ℕ → ℕ
  pub max_arg_strlen : ℕ
  pub starts : ℕ → Bool

-- `audit_string_contains_control`, for all of some bytes
unfoldable pub contains_control : Bytes → Bool
contains_control [] = false
contains_control (x ∷ xs) = ((x == 34) || ltb x 33 || ltb 126 x) || contains_control xs

-- The string at the start of a buffer, up to its NUL
abbrev pub string_of : Bytes → Bytes
string_of [] = []
string_of (x ∷ xs) = if x == 0 then [] else x ∷ string_of xs

-- The result of a walk over the argument: whether it has control characters, and the buffer
pub data Walk : Type 0 where
  fault : Walk
  walked : (has_cntl : Bool) (buf : Bytes) → Walk

-- What a loop over the pieces ends with: killed, no record to write to, or the number of characters
-- in the record and the buffer
pub data Sent : Type 0 where
  killed : Sent
  lost : Sent
  sent : (len_sent : ℕ) (buf : Bytes) → Sent

-- `buf[to_send] = '\0'` after a fetch
abbrev pub filled : Bytes → Bytes → ℕ → Bytes
filled buf bytes n = set (overwrite buf bytes) n 0

abbrev pub cost : Bool → ℕ → ℕ
cost has_cntl n = if has_cntl then n * 2 else n

abbrev pub max_piece : Bool → ℕ
max_piece has_cntl = if has_cntl then 3750 else max_len

module _ (k : Kernel) (a : Audit) where
  -- The first loop. Each round but the last takes max_len bytes, so that one more than the length is
  -- enough fuel.
  unfoldable pub walk : ℕ → (len_left p : ℕ) → Bytes → M LogCall Walk
  unfolding copy_from_user overwrite contains_control
  walk zero len_left p buf w = (fault, w)
  walk (suc n) len_left p buf w =
      (do
        fetched ← copy_from_user k p (min len_left max_len)
        elim fetched [
          | none ↦ pure fault
          | some bytes ↦
              elim (contains_control
                (take (min len_left max_len) (filled buf bytes (min len_left max_len)))) [
                  | true ↦ pure (walked true (filled buf bytes (min len_left max_len)))
                  | false ↦ elim (len_left - min len_left max_len == 0) [
                    | true ↦ pure (walked false (filled buf bytes (min len_left max_len)))
                    | false ↦
                        walk n (len_left - min len_left max_len) (p + min len_left max_len)
                          (filled buf bytes (min len_left max_len))
                  ]
                ]
        ])
        w

  module _ (arg len : ℕ) (has_cntl : Bool) where
    -- the digits of the argument's number, and ` a=""`
    abbrev pub arg_num_len : ℕ
    arg_num_len = a.digits arg + 5

    abbrev pub too_long : Bool
    too_long = ltb (max_piece has_cntl) len

    abbrev pub to_send : ℕ → ℕ
    to_send len_left = min len_left (max_piece has_cntl)

    -- A piece as it is logged
    abbrev pub piece : ℕ → ℕ → Bytes → LogCall
    piece i n buf =
        let index = if too_long then some i else none in
        if has_cntl
        then LogCall.hex_piece arg index (take n buf)
        else LogCall.text_piece arg index (string_of buf)

    -- A new record, if there is no space left: `none` where there is none to be had
    abbrev pub with_room : ℕ → ℕ → M LogCall (Option ℕ)
    unfolding call now
    with_room n len_sent = elim (ltb max_len (arg_num_len + len_sent + cost has_cntl n)) [
      | false ↦ pure (some len_sent)
      | true ↦ do
        t ← now
        call LogCall.log_end
        call LogCall.log_start
        pure (if a.starts t then some 0 else none)
    ]

    -- The second fetch, which is made of long arguments only
    abbrev pub refetched : (n p : ℕ) → Bytes → M LogCall (Option Bytes)
    unfolding copy_from_user overwrite
    refetched n p buf = elim (ltb len (max_piece has_cntl)) [
      | true ↦ pure (some (set buf n 0))
      | false ↦ do
        fetched ← copy_from_user k p n
        pure (elim fetched [ none ↦ none | some bytes ↦ some (filled buf bytes n) ])
    ]

    -- One round of the second loop, for the piece with index `i`
    unfoldable pub send_piece : (i len_left p len_sent : ℕ) → Bytes → M LogCall Sent
    unfolding with_room refetched call
    send_piece i len_left p len_sent buf = do
      room ← with_room (to_send len_left) len_sent
      elim room [
        | none ↦ pure lost
        | some so_far ↦ do
          if (i == 0) && too_long then call (LogCall.arg_len arg (cost has_cntl len)) else pure tt
          again ← refetched (to_send len_left) p buf
          elim again [
            | none ↦ do call LogCall.sigkill; pure killed
            | some buf' ↦ do
              call (piece i (to_send len_left) buf')
              pure (sent (so_far + arg_num_len + cost has_cntl (to_send len_left)) buf')
          ]
      ]

    -- The second loop; each round sends a byte at least, so that the length is enough fuel.
    unfoldable pub send : ℕ → (i len_left p len_sent : ℕ) → Bytes → M LogCall Sent
    unfolding send_piece
    send zero i len_left p len_sent buf w = (sent len_sent buf, w)
    send (suc fuel) i len_left p len_sent buf w =
        let (r, w') = send_piece i len_left p len_sent buf w in
        elim (len_left == 0) [
          | true ↦ (sent len_sent buf, w)
          | false ↦ elim r [
            | killed ↦ (killed, w')
            | lost ↦ (lost, w')
            | sent total buf' ↦
                send fuel (i + 1) (len_left - to_send len_left) (p + to_send len_left) total buf' w'
          ]
        ]

  -- After the walk, for an argument of the length `len`
  unfoldable pub finish : (arg len p len_sent : ℕ) → Bytes → Walk → M LogCall (ℤ × ℕ × Bytes)
  unfolding send call
  finish arg len p len_sent buf fault = do call LogCall.sigkill; pure (negsuc 0, len_sent, buf)
  finish arg len p len_sent buf (walked has_cntl buf') = do
    done ← send arg len has_cntl len 0 len p len_sent buf'
    elim done [
      | killed ↦ pure (negsuc 0, len_sent, buf')
      | lost ↦ pure (pos 0, 0, buf')
      | sent total buf'' ↦ pure (pos (len + 1), total, buf'')
    ]

  -- `audit_log_single_execve_arg`: its result, and the characters in the record with the buffer. `len` is
  -- a size_t, which is large where the string cannot be read.
  unfoldable pub single_arg : (arg p len_sent : ℕ) → Bytes → M LogCall (ℤ × ℕ × Bytes)
  unfolding walk finish call
  single_arg arg p len_sent buf w =
      let len = (a.strnlen w.clock p + 18446744073709551615) % 18446744073709551616 in
      elim (ltb (a.max_arg_strlen - 1) len) [
        | true ↦ (do call LogCall.sigkill; pure (negsuc 0, len_sent, buf)) w
        | false ↦ (walk (len + 1) len p buf >>= finish arg len p len_sent buf) w
      ]

  -- The loop of `audit_log_execve_info` over the arguments left
  unfoldable pub all_args : ℕ → (arg p len_sent : ℕ) → Bytes → M LogCall (Unit {0})
  unfolding single_arg
  all_args zero arg p len_sent buf = pure tt
  all_args (suc n) arg p len_sent buf = do
    (ret, total, buf') ← single_arg arg p len_sent buf
    elim ret [
      | pos zero ↦ pure tt
      | pos (suc len) ↦ all_args n (arg + 1) (p + suc len) total buf'
      | negsuc e ↦ pure tt
    ]

  -- `audit_log_execve_info`, after the number of arguments was logged
  unfoldable pub execve_info : (argc arg_start : ℕ) → M LogCall (Unit {0})
  unfolding all_args kmalloc kfree
  execve_info argc arg_start = do
    block ← kmalloc k (max_len + 1)
    elim block [ none ↦ pure tt | some b ↦ do all_args argc 0 arg_start 0 b.bytes; kfree b.id ]
