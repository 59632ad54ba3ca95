-- ===== src/AuditCore/Tests.antt =====
-- A configuration with messages, and the theorems at it.
use doublefetch.Base.{
  ℕ, ◌≡◌, ◌≤◌, Bool, true, false, none, some, List, [], ◌∷◌, pos, err, eperm, arith, refl, ◌⊎◌,
}
use doublefetch.AuditCore.{AuditEnv, Config}
use doublefetch.AuditCore.Rate.{passed, passed_bounds}
use doublefetch.AuditCore.Feature.{
  FeatureRequest, KeepsLocked, all_granted, set_feature, set_feature-cases,
}
use doublefetch.AuditCore.Receive.{Status, Message, Request, receive}
use doublefetch.AuditCore.Receive.Locked.{Reach, HasTreeCommand, Frozen-Reach}
use doublefetch.AuditCore.Receive.Settings.{Settled}
use doublefetch.AuditCore.Receive.Denied.{OnlyLogged, receive_denied}

abbrev audit : AuditEnv
audit = record {
  has_record = λ t. true;
  task_context = λ t. pos 0;
  fail_silent = 0;
  fail_printk = 1;
  fail_panic = 2;
  max_wait_time = 600;
}

abbrev config : ℕ → Config
config enabled = record {
  clock = 0;
  enabled = enabled;
  ever_enabled = true;
  failure = 1;
  rate_limit = 0;
  backlog_limit = 64;
  wait_time = 60;
  pid = 0;
  portid = 0;
  features =
      record { is_on = true; is_locked = true } ∷ record { is_on = false; is_locked = false } ∷ [];
  rules = 5 ∷ [];
  trees = [];
  has_kauditd = false;
  tty = (false, false);
  log = [];
}

-- All values but the daemon's
abbrev settings : Status
settings = record {
  enabled = some 1;
  failure = some 2;
  pid = none;
  rate_limit = some 9;
  backlog_limit = some 8;
  wait_time = none;
  is_short = false;
}

abbrev request : Bool → Message → Request
request may_control message = record {
  message = message;
  is_init_user_ns = true;
  is_init_pid_ns = true;
  may_control = may_control;
  may_write = true;
  sender = 40;
  portid = 41;
  kthread = pos 0;
  replace = pos 0;
  filter_user = pos 1;
  tty_push = pos 0;
  rule_change = λ rules trees. (pos 0, 6 ∷ rules, trees);
  list_result = pos 0;
  trimmed = λ rules trees. (rules, trees);
  unpack = pos 0;
  tag_tree = λ rules trees. (pos 0, rules, 1 ∷ trees);
  signal_result = pos 0;
}

-- A configuration that is free takes all values; one that is locked takes none.
set_run : (receive audit (request true (Message.set settings)) (config 1)).1.backlog_limit ≡ 8
unfolding receive
set_run = refl

locked_run : (receive audit (request true (Message.set settings)) (config 2)).0 ≡ err eperm
unfolding receive
locked_run = refl

passed_bounds_example :
    passed 10 3 (5 ∷ 6 ∷ 7 ∷ 8 ∷ []) (record { last_check = 0; messages = 0 }) ≤ 2
passed_bounds_example =
    passed_bounds 10 3 (5 ∷ 6 ∷ 7 ∷ 8 ∷ []) (record { last_check = 0; messages = 0 }) (omega arith)
      (omega arith) (omega arith)

abbrev changes : List FeatureRequest
changes =
    record { is_asked = false; is_on = false; is_locked = false }
    ∷ record { is_asked = true; is_on = true; is_locked = true }
    ∷ []

set_feature-cases_example :
    let r = set_feature audit changes (config 1) in
    KeepsLocked (config 1).features r.1.features
    × (((r.0 ≡ pos 0) × (r.1.features ≡ all_granted (config 1).features changes))
        ⊎ ((r.0 ≡ err eperm) × (r.1.features ≡ (config 1).features)))
set_feature-cases_example = set_feature-cases audit changes (config 1)

abbrev run :
    Reach audit
      (config 2)
      (receive audit
        (request true (Message.change_rule false))
        (record ((receive audit (request true (Message.set settings)) (config 2)).1) { pid = 0 })).1
run =
    Reach.message (request true (Message.change_rule false))
      (Reach.auditd_gone (Reach.message (request true (Message.set settings)) Reach.start))

Frozen-Reach_example :
    let d =
      (receive audit
        (request true (Message.change_rule false))
        (record ((receive audit (request true (Message.set settings)) (config 2)).1) {
          pid = 0;
        })).1 in
    Settled (config 2) d × ((d.rules ≡ (config 2).rules) ⊎ HasTreeCommand audit run)
Frozen-Reach_example = Frozen-Reach audit refl run

receive_denied_example :
    OnlyLogged (config 1) (receive audit (request false (Message.user 1 false false)) (config 1)).1
receive_denied_example =
    (receive_denied audit (request false (Message.user 1 false false)) (config 1) refl).0
