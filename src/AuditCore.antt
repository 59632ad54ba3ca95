-- ===== src/AuditCore.antt =====
-- The configuration of the audit system: `audit_rate_check` to `audit_set_failure` of
-- cocci/testdir/truecases/audit.c. Feature has `audit_set_feature`, Receive has `audit_netlink_ok` and
-- `audit_receive_msg`, Rate has `audit_rate_check`.
pub mod Change
pub mod Rate
pub mod Feature
pub mod Receive
mod Tests
use doublefetch.Base.{
  ℕ, zero, suc, ◌+◌, ◌%◌, ◌≡◌, Bool, true, false, Option, none, some, List, [], ◌∷◌, ltb, leb, ◌==◌,
  ◌&&◌, ◌||◌, not, if◌then◌else◌, ℤ, pos, negsuc, err, is_zero, eperm, einval,
}

-- AUDIT_OFF, AUDIT_ON, AUDIT_LOCKED
abbrev pub off : ℕ
off = 0

abbrev pub locked : ℕ
locked = 2

-- A feature: its bits in `features` and in `lock`
pub record FeatureBits : Type 0 where
  pub is_on : Bool
  pub is_locked : Bool

-- What goes to the log: a changed setting with its new and old value and whether it was allowed, a changed
-- feature, a message of the user, a command of another kind
pub data Entry : Type 0 where
  config_change : (name new old : ℕ) (is_allowed : Bool) → Entry
  feature_change : (index : ℕ) (is_on was_on is_allowed : Bool) → Entry
  user_message : ℕ → Entry
  command : (type : ℕ) (is_done : Bool) → Entry

-- The variables of the file, with the time and the log
pub record Config : Type 0 where
  pub clock : ℕ
  pub enabled : ℕ
  pub ever_enabled : Bool
  pub failure : ℕ
  pub rate_limit : ℕ
  pub backlog_limit : ℕ
  pub wait_time : ℕ
  pub pid : ℕ
  pub portid : ℕ
  pub features : List FeatureBits
  pub rules : List ℕ
  pub trees : List ℕ
  pub has_kauditd : Bool
  pub tty : Bool × Bool  -- of the task: enabled, log_passwd
  pub log : List Entry

-- What the file does not hold, at a time: whether `audit_log_start` gives a record, and the results of
-- `audit_log_task_context`
pub record AuditEnv : Type 0 where
  pub has_record : ℕ → Bool
  pub task_context : ℕ → ℤ
  pub fail_silent : ℕ
  pub fail_printk : ℕ
  pub fail_panic : ℕ
  pub max_wait_time : ℕ  -- 10*AUDIT_BACKLOG_WAIT_TIME

-- The settings that a change may be for; their names are numbers
pub data Setting : Type 0 where
  of_enabled : Setting
  of_failure : Setting
  of_rate_limit : Setting
  of_backlog_limit : Setting
  of_wait_time : Setting

abbrev pub name : Setting → ℕ
name of_enabled = 0
name of_failure = 1
name of_rate_limit = 2
name of_backlog_limit = 3
name of_wait_time = 4

abbrev pub pid_name : ℕ
pid_name = 5

abbrev pub value : Setting → Config → ℕ
value of_enabled c = c.enabled
value of_failure c = c.failure
value of_rate_limit c = c.rate_limit
value of_backlog_limit c = c.backlog_limit
value of_wait_time c = c.wait_time

abbrev pub with_value : Setting → ℕ → Config → Config
with_value of_enabled v c = record c { enabled = v }
with_value of_failure v c = record c { failure = v }
with_value of_rate_limit v c = record c { rate_limit = v }
with_value of_backlog_limit v c = record c { backlog_limit = v }
with_value of_wait_time v c = record c { wait_time = v }

module _ (e : AuditEnv) where
  -- `audit_log_config_change`, for the name of what changes
  unfoldable pub log_config_change : (name new old : ℕ) → Bool → Config → ℤ × Config
  log_config_change n new old allowed c = elim (e.has_record c.clock) [
    | false ↦ (pos 0, record c { clock = c.clock + 1 })
    | true ↦
        let rc = e.task_context c.clock in
        (
          rc,
          record c {
            clock = c.clock + 1;
            log = Entry.config_change n new old (is_zero rc && allowed) ∷ c.log;
          },
        )
  ]

  -- The end of `audit_do_config_change`, with the result so far
  abbrev pub decided : Setting → ℕ → Bool → ℤ × Config → ℤ × Config
  decided s new allowed (rc, c) =
      if allowed then (rc, with_value s new c) else (if is_zero rc then err eperm else rc, c)

  -- `audit_do_config_change`
  unfoldable pub do_config_change : Setting → ℕ → Config → ℤ × Config
  unfolding log_config_change
  do_config_change s new c =
      let allowed = not (c.enabled == locked) in
      elim (c.enabled == off) [
        | true ↦ decided s new allowed (pos 0, c)
        | false ↦
            let r = log_config_change (name s) new (value s c) allowed c in
            decided s new (allowed && is_zero r.0) r
      ]

  -- `audit_set_rate_limit`, `audit_set_backlog_limit`, `audit_set_backlog_wait_time`
  abbrev pub set_rate_limit : ℕ → Config → ℤ × Config
  unfolding do_config_change
  set_rate_limit = do_config_change of_rate_limit

  abbrev pub set_backlog_limit : ℕ → Config → ℤ × Config
  unfolding do_config_change
  set_backlog_limit = do_config_change of_backlog_limit

  abbrev pub set_wait_time : ℕ → Config → ℤ × Config
  unfolding do_config_change
  set_wait_time = do_config_change of_wait_time

  -- `audit_set_enabled`
  unfoldable pub set_enabled : ℕ → Config → ℤ × Config
  unfolding do_config_change
  set_enabled state c = elim (ltb locked state) [
    | true ↦ (err einval, c)
    | false ↦
        let (rc, c') = do_config_change of_enabled state c in
        elim (is_zero rc) [
          | false ↦ (rc, c')
          | true ↦ (rc, record c' { ever_enabled = c'.ever_enabled || not (state == 0) })
        ]
  ]

  -- `audit_set_failure`
  unfoldable pub set_failure : ℕ → Config → ℤ × Config
  unfolding do_config_change
  set_failure state c =
      elim ((state == e.fail_silent) || (state == e.fail_printk) || (state == e.fail_panic)) [
        | false ↦ (err einval, c)
        | true ↦ do_config_change of_failure state c
      ]
