-- ===== src/AuditRules.antt =====
-- The rules of the audit filters: `audit_match_perm` to `audit_filter_inodes` and `audit_take_context` of
-- cocci/testdir/truecases/auditsc.c. The comparisons of auditfilter.c and the security modules are the
-- parameter Env. A result is its truth, since the code only tests it.
pub mod Match
pub mod Filter
mod Tests
use doublefetch.Base.{
  ℕ, zero, suc, ◌+◌, ◌-◌, ◌%◌, ◌≡◌, Bool, true, false, Option, none, some, List, [], ◌∷◌, get_or,
  ltb, leb, ◌==◌, ◌||◌, ◌&&◌, not, if◌then◌else◌, ℤ, pos, negsuc,
}
use doublefetch.AuditTree.{Chain, match_tree_refs}

-- `struct audit_names`, as far as the rules see it
pub record Name : Type 0 where
  pub ino : ℕ
  pub dev : ℕ
  pub rdev : ℕ
  pub mode : ℕ
  pub uid : ℕ
  pub gid : ℕ
  pub osid : ℕ

pub record Cred : Type 0 where
  pub uid : ℕ
  pub euid : ℕ
  pub suid : ℕ
  pub fsuid : ℕ
  pub gid : ℕ
  pub egid : ℕ
  pub sgid : ℕ
  pub fsgid : ℕ

pub record Task : Type 0 where
  pub pid : ℕ
  pub tgid : ℕ
  pub ppid : ℕ
  pub loginuid : ℕ
  pub personality : ℕ
  pub sid : ℕ
  pub cred : Cred

-- `f->op`
pub data Op : Type 0 where
  equal : Op
  not_equal : Op
  other_op : ℕ → Op

-- `f->val` of AUDIT_FIELD_COMPARE; `missing` is any other
pub data Compare : Type 0 where
  uid_to_obj_uid : Compare
  gid_to_obj_gid : Compare
  euid_to_obj_uid : Compare
  egid_to_obj_gid : Compare
  auid_to_obj_uid : Compare
  suid_to_obj_uid : Compare
  sgid_to_obj_gid : Compare
  fsuid_to_obj_uid : Compare
  fsgid_to_obj_gid : Compare
  uid_to_auid : Compare
  uid_to_euid : Compare
  uid_to_suid : Compare
  uid_to_fsuid : Compare
  auid_to_euid : Compare
  auid_to_suid : Compare
  auid_to_fsuid : Compare
  euid_to_suid : Compare
  euid_to_fsuid : Compare
  suid_to_fsuid : Compare
  gid_to_egid : Compare
  gid_to_sgid : Compare
  gid_to_fsgid : Compare
  egid_to_sgid : Compare
  egid_to_fsgid : Compare
  sgid_to_fsgid : Compare
  missing : Compare

-- `f->type`; `on_subject` and `on_object` are those of the security modules, by their number, and
-- `on_unknown` is any other
pub data FieldType : Type 0 where
  on_pid : FieldType
  on_ppid : FieldType
  on_exe : FieldType
  on_uid : FieldType
  on_euid : FieldType
  on_suid : FieldType
  on_fsuid : FieldType
  on_gid : FieldType
  on_egid : FieldType
  on_sgid : FieldType
  on_fsgid : FieldType
  on_pers : FieldType
  on_arch : FieldType
  on_exit : FieldType
  on_success : FieldType
  on_devmajor : FieldType
  on_devminor : FieldType
  on_inode : FieldType
  on_obj_uid : FieldType
  on_obj_gid : FieldType
  on_watch : FieldType
  on_dir : FieldType
  on_loginuid : FieldType
  on_loginuid_set : FieldType
  on_subject : ℕ → FieldType
  on_object : ℕ → FieldType
  on_arg : ℕ → FieldType
  on_filterkey : FieldType
  on_perm : FieldType
  on_filetype : FieldType
  on_compare : Compare → FieldType
  on_unknown : FieldType

pub record Field : Type 0 where
  pub type : FieldType
  pub op : Op
  pub val : ℕ
  pub uid : ℕ
  pub gid : ℕ
  pub lsm_rule : Option ℕ

-- AUDIT_NEVER, AUDIT_ALWAYS, or what the switch does not list
pub data Action : Type 0 where
  never : Action
  always : Action
  other_action : Action

pub record Rule : Type 0 where
  pub fields : List Field
  pub mask : List ℕ
  pub exe : ℕ
  pub watch : ℕ
  pub tree : Option ℕ
  pub prio : ℕ
  pub filterkey : Option ℕ
  pub action : Action

pub data State : Type 0 where
  disabled : State
  build_context : State
  record_context : State

-- `struct audit_context`
pub record Context : Type 0 where
  pub major : ℕ
  pub arch : ℕ
  pub argv : List ℕ
  pub ppid : ℕ
  pub return_valid : ℕ
  pub return_code : ℤ
  pub in_syscall : Bool
  pub is_dummy : Bool
  pub names : List Name
  pub chain : Chain
  pub ipc_osid : Option ℕ  -- where the type is AUDIT_IPC
  pub prio : ℕ
  pub filterkey : Option ℕ
  pub current_state : State

-- What the file does not hold
pub record Env : Type 0 where
  pub comparator : ℕ → Op → ℕ → Bool
  pub uid_comparator : ℕ → Op → ℕ → Bool
  pub gid_comparator : ℕ → Op → ℕ → Bool
  pub in_group : ℕ → Bool
  pub in_egroup : ℕ → Bool
  pub exe_compare : Task → ℕ → Bool
  pub watch_compare : (watch ino dev : ℕ) → Bool
  pub tree_match : (tree : ℕ) → Option ℕ → Bool
  pub rule_match : (sid type : ℕ) → Op → ℕ → Bool
  pub ino_unset : ℕ
  pub major_of : ℕ → ℕ
  pub minor_of : ℕ → ℕ
  pub loginuid_set : Task → ℕ
  pub success : ℕ
  pub failure : ℕ
  pub classify_syscall : (arch major : ℕ) → ℕ
  pub match_class : (is_write is_read is_32 : Bool) → ℕ → Bool
  pub perm_write : ℕ → Bool  -- mask & AUDIT_PERM_WRITE
  pub perm_read : ℕ → Bool
  pub perm_attr : ℕ → Bool
  pub perm_exec : ℕ → Bool
  pub acc_mode : (mask flags : ℕ) → Bool  -- mask & ACC_MODE(flags)
  pub sys_bind : ℕ
  pub file_type : ℕ → ℕ  -- mode & S_IFMT
  pub umode : ℕ → ℕ
  pub strdup : ℕ → Option ℕ
  pub audit_word : ℕ → ℕ
  pub bitmask_size : ℕ
  pub mask_bit : (word val : ℕ) → Bool
  pub audit_pid : ℕ
  pub inode_hash : (ino : ℕ) → List Rule
  pub exit_rules : List Rule
  pub erestartsys : ℕ
  pub erestart_restartblock : ℕ
  pub enoioctlcmd : ℕ
  pub eintr : ℕ
