-- ===== src/AuditStart.antt =====
-- How a record of the audit log begins: `audit_log_start` with its wait for the daemon, `wait_for_auditd` and
-- `audit_get_stamp` of cocci/testdir/truecases/audit.c.
pub mod Backlog
mod Tests
use doublefetch.Base.{
  ℕ, zero, suc, ◌+◌, ◌-◌, ◌%◌, ◌≡◌, Bool, true, false, Option, none, some, List, [], ◌∷◌, Bytes,
  ltb, ◌==◌, ◌&&◌, ◌||◌, not, if◌then◌else◌,
}
use doublefetch.AuditText.{LogEnv, Buffer, bufsiz, log_format}

-- What a round of the wait sees: the settings, the length of the queue and the time; in `wait_for_auditd` the
-- limit and the length again, and what is left of a sleep
pub record Round : Type 0 where
  pub limit : ℕ
  pub length : ℕ
  pub wait_time : ℕ
  pub now : ℕ
  pub limit_again : ℕ
  pub length_again : ℕ
  pub left : ℕ → ℕ

-- Who asks for a record, and what the kernel has for it
pub record Caller : Type 0 where
  pub is_initialized : Bool
  pub is_filtered : Bool  -- audit_filter_type
  pub may_sleep : Bool  -- __GFP_DIRECT_RECLAIM
  pub is_daemon : Bool  -- audit_pid is the caller's
  pub start : ℕ  -- jiffies
  pub has_memory : Bool  -- audit_buffer_alloc
  pub has_stamp : Bool  -- auditsc_get_stamp
  pub prefix : ℕ → Bytes  -- the text of the stamp, for a serial number
  pub context_serial : ℕ

-- The variables of the file
pub record Counters : Type 0 where
  pub wait_time : ℕ
  pub wait_master : ℕ
  pub lost : ℕ
  pub serial : ℕ

-- How the wait ends: it has not, or by a refusal, or by leave with the wait time of then
pub data Outcome : Type 0 where
  waiting : Outcome
  refused : Outcome
  granted : ℕ → Outcome

abbrev pub sleeps : Caller → Bool
sleeps c = c.may_sleep && not c.is_daemon

abbrev pub reserve : Caller → ℕ
reserve c = if sleeps c then 0 else 5

-- `wait_for_auditd`
abbrev pub wait_for_auditd : Round → ℕ → ℕ
wait_for_auditd r sleep =
    if not (r.limit_again == 0) && ltb r.limit_again r.length_again then r.left sleep else sleep

abbrev pub is_over : Caller → Round → Bool
is_over c r = not (r.limit == 0) && ltb (r.limit + reserve c) r.length

-- Whether a round over the limit is followed by another: the caller sleeps and its time is not over.
abbrev pub goes_on : Caller → Round → Bool
goes_on c r =
    sleeps c
    && not (r.wait_time == 0)
    && ltb r.now (c.start + r.wait_time)
    && not (wait_for_auditd r (c.start + r.wait_time - r.now) == 0)

-- The loop of `audit_log_start`, over the rounds that it meets
unfoldable pub wait_loop : Caller → List Round → Outcome
wait_loop c [] = waiting
wait_loop c (r ∷ rs) =
    let rest = wait_loop c rs in
    elim (is_over c r) [
      | false ↦ granted r.wait_time
      | true ↦ elim (goes_on c r) [ true ↦ rest | false ↦ refused ]
    ]

-- What `audit_log_start` returns: nothing yet, NULL, or a buffer
pub data Started : Type 0 where
  not_yet : Started
  no_buffer : Started
  buffer : Buffer → Started

abbrev pub new_buffer : Buffer
new_buffer = record { clock = 0; text = []; room = bufsiz; lost = 0; uses = [] }

-- The end of `audit_log_start`, with the wait time of then
unfoldable pub with_leave : LogEnv → Caller → ℕ → Counters → Started × Counters
unfolding log_format
with_leave e c wait v =
    let wait' = if sleeps c && (wait == 0) then v.wait_master else wait in
    elim c.has_memory [
      | false ↦ (no_buffer, record v { wait_time = wait'; lost = v.lost + 1 })
      | true ↦ elim c.has_stamp [
        | true ↦ (
          buffer (log_format e (c.prefix c.context_serial) new_buffer),
          record v { wait_time = wait' },
        )
        | false ↦
            let serial = (v.serial + 1) % 4294967296 in
            (
              buffer (log_format e (c.prefix serial) new_buffer),
              record v { wait_time = wait'; serial = serial },
            )
      ]
    ]

-- After the loop
unfoldable pub after_wait : LogEnv → Caller → Counters → Outcome → Started × Counters
unfolding with_leave
after_wait e c v waiting = (not_yet, v)
after_wait e c v refused = (no_buffer, record v { wait_time = 0; lost = v.lost + 1 })
after_wait e c v (granted wait) = with_leave e c wait v

-- `audit_log_start`
unfoldable pub log_start : LogEnv → Caller → List Round → Counters → Started × Counters
unfolding wait_loop after_wait
log_start e c rs v = elim (not c.is_initialized || c.is_filtered) [
  | true ↦ (no_buffer, v)
  | false ↦ after_wait e c v (wait_loop c rs)
]
