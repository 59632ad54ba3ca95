-- ===== src/AuditRules/Tests.antt =====
-- Two rules about one system call, and the theorems at them.
use doublefetch.Base.{
  ℕ, ◌≡◌, Bool, true, false, none, some, List, [], ◌∷◌, ltb, ◌==◌, not, if◌then◌else◌, pos, err,
  refl,
}
use doublefetch.AuditTree.{Chain}
use doublefetch.AuditRules.{
  Task, Op, equal, not_equal, other_op, FieldType, Field, Action, Rule, State, disabled,
  build_context, Context, Env,
}
use doublefetch.AuditRules.Filter.{with_ppid, filter_syscall, take_context}
use doublefetch.AuditRules.Filter.First.{outcome, first, is_daemon, state_or, filter_syscall-first}
use doublefetch.AuditRules.Filter.Rank.{Ranked, take_context-Ranked}

abbrev compared : ℕ → Op → ℕ → Bool
compared a equal b = a == b
compared a not_equal b = not (a == b)
compared a (other_op o) b = ltb a b

abbrev field : FieldType → ℕ → Field
field type val = record { type = type; op = equal; val = val; uid = 0; gid = 0; lsm_rule = none }

abbrev rule : ℕ → Action → List Field → Rule
rule prio action fields = record {
  fields = fields;
  mask = [];
  exe = 0;
  watch = 0;
  tree = none;
  prio = prio;
  filterkey = some prio;
  action = action;
}

-- The first does not match the parent of the task, 7; the second does.
abbrev rules : List Rule
rules =
    rule 5 Action.never (field FieldType.on_ppid 8 ∷ [])
    ∷ rule 6 Action.always (field FieldType.on_ppid 7 ∷ field FieldType.on_filterkey 0 ∷ [])
    ∷ []

abbrev env : Env
env = record {
  comparator = compared;
  uid_comparator = compared;
  gid_comparator = compared;
  in_group = λ g. false;
  in_egroup = λ g. false;
  exe_compare = λ t x. false;
  watch_compare = λ w i d. false;
  tree_match = λ t x. false;
  rule_match = λ s t o l. false;
  ino_unset = 0;
  major_of = λ d. d;
  minor_of = λ d. d;
  loginuid_set = λ t. 1;
  success = 1;
  failure = 2;
  classify_syscall = λ a m. 0;
  match_class = λ w r n m. false;
  perm_write = λ m. false;
  perm_read = λ m. false;
  perm_attr = λ m. false;
  perm_exec = λ m. false;
  acc_mode = λ m f. false;
  sys_bind = 2;
  file_type = λ m. m;
  umode = λ v. v;
  strdup = λ k. some k;
  audit_word = λ n. 0;
  bitmask_size = 64;
  mask_bit = λ w v. true;
  audit_pid = 1;
  inode_hash = λ i. rules;
  exit_rules = rules;
  erestartsys = 512;
  erestart_restartblock = 516;
  enoioctlcmd = 515;
  eintr = 4;
}

abbrev task : Task
task = record {
  pid = 9;
  tgid = 9;
  ppid = 7;
  loginuid = 0;
  personality = 0;
  sid = 0;
  cred = record { uid = 0; euid = 0; suid = 0; fsuid = 0; gid = 0; egid = 0; sgid = 0; fsgid = 0 };
}

abbrev context : Context
context = record {
  major = 2;
  arch = 0;
  argv = [];
  ppid = 0;
  return_valid = 0;
  return_code = pos 0;
  in_syscall = true;
  is_dummy = false;
  names = [];
  chain = Chain.empty;
  ipc_osid = none;
  prio = 0;
  filterkey = none;
  current_state = build_context;
}

rules_run : (filter_syscall env task rules disabled context).0 ≡ State.record_context
unfolding filter_syscall
rules_run = refl

filter_syscall-first_example :
    let c' = with_ppid task context in
    let found = outcome env task none disabled c' (first env task none c' rules) in
    ◌≡◌ {A = State × Context}
      (
        (filter_syscall env task rules disabled context).0,
        with_ppid task (filter_syscall env task rules disabled context).1,
      )
      (if is_daemon env task then (disabled, c') else (state_or env build_context found.0, found.1))
filter_syscall-first_example = filter_syscall-first env task rules disabled context

take_context-Ranked_example :
    (c' : Context) × (take_context env task (some context) 1 (err 512) disabled ≡ some c')
    × Ranked context c'
take_context-Ranked_example = take_context-Ranked env task context 1 (err 512) disabled
