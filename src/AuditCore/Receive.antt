-- ===== src/AuditCore/Receive.antt =====
-- The messages of the user: `audit_netlink_ok` and `audit_receive_msg` of
-- cocci/testdir/truecases/audit.c. The requests that only read are kept for their results.
pub mod Settings
pub mod Locked
pub mod Denied
use doublefetch.Base.{
  ℕ, zero, suc, ◌+◌, ◌≡◌, Bool, true, false, Option, none, some, List, [], ◌∷◌, ltb, leb, ◌==◌,
  ◌&&◌, ◌||◌, not, if◌then◌else◌, ℤ, pos, negsuc, err, is_zero, is_neg, is_err, is_pos, eperm,
  einval, enomem, eopnotsupp,
}
use doublefetch.AuditCore.{
  AuditEnv, Config, Entry, Setting, off, locked, pid_name, log_config_change, set_rate_limit,
  set_backlog_limit, set_wait_time, set_enabled, set_failure,
}
use doublefetch.AuditCore.Feature.{FeatureRequest, set_feature}

-- `struct audit_status` of a request: the values that its mask asks for
pub record Status : Type 0 where
  pub enabled : Option ℕ
  pub failure : Option ℕ
  pub pid : Option ℕ
  pub rate_limit : Option ℕ
  pub backlog_limit : Option ℕ
  pub wait_time : Option ℕ
  pub is_short : Bool  -- the message is shorter than the structure

pub data Message : Type 0 where
  get : Message
  set : Status → Message
  get_feature : Message
  set_feature_of : List FeatureRequest → Message
  user : (type : ℕ) (is_avc is_tty : Bool) → Message
  change_rule : (is_short : Bool) → Message  -- AUDIT_ADD_RULE, AUDIT_DEL_RULE
  list_rules : Message
  trim : Message
  make_equiv : (is_short : Bool) → Message
  signal_info : Message
  tty_get : Message
  tty_set : (enabled log_passwd : ℕ) → Message
  obsolete : Message  -- AUDIT_LIST, AUDIT_ADD, AUDIT_DEL
  unknown : Message

abbrev pub IsUser : Message → Type 0
IsUser (user type is_avc is_tty) = Unit
IsUser _ = ⊥

-- A message with its sender and what the rest of the kernel answers it
pub record Request : Type 0 where
  pub message : Message
  pub is_init_user_ns : Bool
  pub is_init_pid_ns : Bool
  pub may_control : Bool
  pub may_write : Bool
  pub sender : ℕ  -- the pid of the task
  pub portid : ℕ
  pub kthread : ℤ  -- 0, or the error of kthread_run
  pub replace : ℤ  -- audit_replace
  pub filter_user : ℤ
  pub tty_push : ℤ
  pub rule_change : List ℕ → List ℕ → ℤ × List ℕ × List ℕ  -- audit_rule_change, likewise
  pub list_result : ℤ
  pub trimmed : List ℕ → List ℕ → List ℕ × List ℕ  -- the rules and the trees after audit_trim_trees
  pub unpack : ℤ  -- of both strings
  pub tag_tree : List ℕ → List ℕ → ℤ × List ℕ × List ℕ  -- audit_tag_tree, likewise
  pub signal_result : ℤ

abbrev pub eacces : ℕ
eacces = 13

abbrev pub eexist : ℕ
eexist = 17

abbrev pub econnrefused : ℕ
econnrefused = 111

abbrev pub if_allowed : Bool → ℤ
if_allowed true = pos 0
if_allowed false = err eperm

-- For the commands of the audit daemon and its control program
abbrev pub may_command : Request → ℤ
may_command r = if not r.is_init_pid_ns then err eperm else if_allowed r.may_control

-- The switch of `audit_netlink_ok`
unfoldable pub permission : Request → Message → ℤ
permission r get = may_command r
permission r (set s) = may_command r
permission r get_feature = may_command r
permission r (set_feature_of qs) = may_command r
permission r (change_rule is_short) = may_command r
permission r list_rules = may_command r
permission r trim = may_command r
permission r (make_equiv is_short) = may_command r
permission r signal_info = may_command r
permission r tty_get = may_command r
permission r (tty_set on log_passwd) = may_command r
permission r (user type is_avc is_tty) = if_allowed r.may_write
permission r obsolete = err eopnotsupp
permission r unknown = err einval

-- `audit_netlink_ok`
unfoldable pub netlink_ok : Request → ℤ
unfolding permission
netlink_ok r = if not r.is_init_user_ns then err econnrefused else permission r r.message

abbrev pub is_bit : ℕ → Bool
is_bit v = (v == 0) || (v == 1)

module _ (e : AuditEnv) where
  -- `audit_log_common_recv_msg` up to the end of the record
  abbrev pub log_command : Bool → Entry → Config → Config
  log_command is_avc entry c =
      if (c.enabled == off) && not is_avc
      then c
      else if e.has_record c.clock
      then record c { clock = c.clock + 1; log = entry ∷ c.log }
      else record c { clock = c.clock + 1 }

  -- One of the changes of AUDIT_SET, after those before it
  abbrev pub then_set : (ℕ → Config → ℤ × Config) → Option ℕ → ℤ × Config → ℤ × Config
  then_set change none (ret, c) = (ret, c)
  then_set change (some v) (ret, c) = elim (is_neg ret) [ true ↦ (ret, c) | false ↦ change v c ]

  -- The change of the audit daemon
  unfoldable pub set_pid : Request → ℕ → Config → ℤ × Config
  unfolding log_config_change
  set_pid r new c = elim ((new == 0) && not (r.sender == c.pid)) [
    | true ↦ (err eacces, (log_config_change e pid_name new c.pid false c).1)
    | false ↦ elim (not (c.pid == 0) && not (new == 0) && not (is_err econnrefused r.replace)) [
      | true ↦ (err eexist, (log_config_change e pid_name new c.pid false c).1)
      | false ↦
          let c' =
            if c.enabled == off then c else (log_config_change e pid_name new c.pid true c).1 in
          (pos 0, record c' { pid = new; portid = r.portid })
    ]
  ]

  abbrev pub set_wait : Bool → ℕ → Config → ℤ × Config
  unfolding set_wait_time
  set_wait is_short v c =
      if is_short
      then (err einval, c)
      else if ltb e.max_wait_time v
      then (err einval, c)
      else set_wait_time e v c

  -- AUDIT_SET
  unfoldable pub set_status : Request → Status → Config → ℤ × Config
  unfolding set_enabled set_failure set_pid set_rate_limit set_backlog_limit set_wait
  set_status r s c = then_set (set_wait s.is_short) s.wait_time (
      then_set (set_backlog_limit e) s.backlog_limit (
        then_set (set_rate_limit e) s.rate_limit (
          then_set (set_pid r) s.pid
            (then_set (set_failure e) s.failure (then_set (set_enabled e) s.enabled (pos 0, c))))))

  -- AUDIT_USER and the ranges of user messages
  unfoldable pub receive_user : Request → ℕ → (is_avc is_tty : Bool) → Config → ℤ × Config
  receive_user r type is_avc is_tty c =
      if (c.enabled == off) && not is_avc
      then (pos 0, c)
      else if not (is_pos 1 r.filter_user)
      then (r.filter_user, c)
      else if is_tty && not (is_zero r.tty_push)
      then (r.tty_push, c)
      else (pos 0, log_command is_avc (Entry.user_message type) c)

  -- The switch of `audit_receive_msg`
  unfoldable pub dispatch : Request → Message → Config → ℤ × Config
  unfolding set_status set_feature receive_user
  dispatch r get c = (pos 0, c)
  dispatch r (set s) c = set_status r s c
  dispatch r get_feature c = (pos 0, c)
  dispatch r (set_feature_of qs) c = set_feature e qs c
  dispatch r (user type is_avc is_tty) c = receive_user r type is_avc is_tty c
  dispatch r (change_rule is_short) c =
      if is_short
      then (err einval, c)
      else if c.enabled == locked
      then (err eperm, log_command false (Entry.command 1 false) c)
      else (let (ret, rules, trees) = r.rule_change c.rules c.trees in
          (ret, record c { rules = rules; trees = trees }))
  dispatch r list_rules c = (r.list_result, c)
  dispatch r trim c =
      let (rules, trees) = r.trimmed c.rules c.trees in
      (pos 0, log_command false (Entry.command 2 true) (record c { rules = rules; trees = trees }))
  dispatch r (make_equiv is_short) c =
      if is_short
      then (err einval, c)
      else if not (is_zero r.unpack)
      then (r.unpack, c)
      else (let (ret, rules, trees) = r.tag_tree c.rules c.trees in
          (
            ret,
            log_command false (Entry.command 3 (is_zero ret))
                (record c { rules = rules; trees = trees }),
          ))
  dispatch r signal_info c = (r.signal_result, c)
  dispatch r tty_get c = (pos 0, c)
  dispatch r (tty_set on log_passwd) c =
      if is_bit on && is_bit log_passwd
      then (
        pos 0,
        log_command false (Entry.command 4 true) (record c { tty = (on == 1, log_passwd == 1) }),
      )
      else (err einval, log_command false (Entry.command 4 false) c)
  dispatch r obsolete c = (err einval, c)
  dispatch r unknown c = (err einval, c)

  -- `audit_receive_msg`
  unfoldable pub receive : Request → Config → ℤ × Config
  unfolding netlink_ok dispatch
  receive r c = elim (is_zero (netlink_ok r)) [
    | false ↦ (netlink_ok r, c)
    | true ↦ elim (not c.has_kauditd && not (is_zero r.kthread)) [
      | true ↦ (r.kthread, c)
      | false ↦
          let (ret, c') = dispatch r r.message (record c { has_kauditd = true }) in
          (if is_neg ret then ret else pos 0, c')
    ]
  ]
