-- ===== src/AuditRules/Match.antt =====
-- Whether a task, a system call and a name match a field of a rule: `audit_match_perm` to
-- `audit_field_compare`, and the cases of `audit_filter_rules`.
use doublefetch.Base.{
  ℕ, ◌-◌, ◌%◌, Bool, true, false, Option, none, some, List, [], ◌∷◌, get_or, ◌==◌, ◌||◌, ◌&&◌, not,
  if◌then◌else◌, ℤ, pos, negsuc,
}
use doublefetch.AuditTree.{match_tree_refs}
use doublefetch.AuditRules.{
  Name, Task, Op, equal, not_equal, other_op, Compare, FieldType, Field, Rule, Context, Env,
}

abbrev pub any_name : (Name → Bool) → List Name → Bool
any_name p [] = false
any_name p (n ∷ ns) = p n || any_name p ns

-- A field that only a system call can match
abbrev pub in_context : (Context → Bool) → Option Context → Bool
in_context p none = false
in_context p (some c) = p c

-- The name that is given, or else one of the system call's
abbrev pub with_names : (Name → Bool) → Option Name → Option Context → Bool
with_names p name x = elim name [ some n ↦ p n | none ↦ in_context (λ c. any_name p c.names) x ]

-- The name that is given, or one of the system call's
abbrev pub with_any : (Name → Bool) → Option Name → Option Context → Bool
with_any p name x =
    (elim name [ some n ↦ p n | none ↦ false ]) || in_context (λ c. any_name p c.names) x

-- What a comparison gets of a long
abbrev pub u32_of : ℤ → ℕ
u32_of (pos n) = n % 4294967296
u32_of (negsuc n) = 4294967295 - n % 4294967296

module _ (e : Env) where
  -- `audit_match_perm`
  abbrev pub match_perm : ℕ → Context → Bool
  match_perm mask c =
      let kind = e.classify_syscall c.arch c.major in
      let classes : Bool → Bool = λ is_32.
        (e.perm_write mask && e.match_class true false is_32 c.major)
        || (e.perm_read mask && e.match_class false true is_32 c.major)
        || (e.perm_attr mask && e.match_class false false is_32 c.major) in
      if kind == 0
      then classes false
      else if kind == 1
      then classes true
      else if kind == 2
      then e.acc_mode mask (get_or c.argv 1 0)
      else if kind == 3
      then e.acc_mode mask (get_or c.argv 2 0)
      else if kind == 4
      then e.perm_write mask && (get_or c.argv 0 0 == e.sys_bind)
      else if kind == 5
      then e.perm_exec mask
      else false

  -- `audit_match_filetype`
  abbrev pub match_filetype : ℕ → Context → Bool
  match_filetype val c =
      any_name (λ n. not (n.ino == e.ino_unset) && (e.file_type n.mode == e.umode val)) c.names

  -- `audit_compare_uid`, `audit_compare_gid`
  abbrev pub compare_uid : ℕ → Option Name → Field → Option Context → Bool
  compare_uid uid name f x = with_any (λ n. e.uid_comparator uid f.op n.uid) name x

  abbrev pub compare_gid : ℕ → Option Name → Field → Option Context → Bool
  compare_gid gid name f x = with_any (λ n. e.gid_comparator gid f.op n.gid) name x

  -- `audit_field_compare`
  abbrev pub field_compare : Compare → Task → Field → Option Context → Option Name → Bool
  field_compare Compare.uid_to_obj_uid t f x name = compare_uid t.cred.uid name f x
  field_compare Compare.gid_to_obj_gid t f x name = compare_gid t.cred.gid name f x
  field_compare Compare.euid_to_obj_uid t f x name = compare_uid t.cred.euid name f x
  field_compare Compare.egid_to_obj_gid t f x name = compare_gid t.cred.egid name f x
  field_compare Compare.auid_to_obj_uid t f x name = compare_uid t.loginuid name f x
  field_compare Compare.suid_to_obj_uid t f x name = compare_uid t.cred.suid name f x
  field_compare Compare.sgid_to_obj_gid t f x name = compare_gid t.cred.sgid name f x
  field_compare Compare.fsuid_to_obj_uid t f x name = compare_uid t.cred.fsuid name f x
  field_compare Compare.fsgid_to_obj_gid t f x name = compare_gid t.cred.fsgid name f x
  field_compare Compare.uid_to_auid t f x name = e.uid_comparator t.cred.uid f.op t.loginuid
  field_compare Compare.uid_to_euid t f x name = e.uid_comparator t.cred.uid f.op t.cred.euid
  field_compare Compare.uid_to_suid t f x name = e.uid_comparator t.cred.uid f.op t.cred.suid
  field_compare Compare.uid_to_fsuid t f x name = e.uid_comparator t.cred.uid f.op t.cred.fsuid
  field_compare Compare.auid_to_euid t f x name = e.uid_comparator t.loginuid f.op t.cred.euid
  field_compare Compare.auid_to_suid t f x name = e.uid_comparator t.loginuid f.op t.cred.suid
  field_compare Compare.auid_to_fsuid t f x name = e.uid_comparator t.loginuid f.op t.cred.fsuid
  field_compare Compare.euid_to_suid t f x name = e.uid_comparator t.cred.euid f.op t.cred.suid
  field_compare Compare.euid_to_fsuid t f x name = e.uid_comparator t.cred.euid f.op t.cred.fsuid
  field_compare Compare.suid_to_fsuid t f x name = e.uid_comparator t.cred.suid f.op t.cred.fsuid
  field_compare Compare.gid_to_egid t f x name = e.gid_comparator t.cred.gid f.op t.cred.egid
  field_compare Compare.gid_to_sgid t f x name = e.gid_comparator t.cred.gid f.op t.cred.sgid
  field_compare Compare.gid_to_fsgid t f x name = e.gid_comparator t.cred.gid f.op t.cred.fsgid
  field_compare Compare.egid_to_sgid t f x name = e.gid_comparator t.cred.egid f.op t.cred.sgid
  field_compare Compare.egid_to_fsgid t f x name = e.gid_comparator t.cred.egid f.op t.cred.fsgid
  field_compare Compare.sgid_to_fsgid t f x name = e.gid_comparator t.cred.sgid f.op t.cred.fsgid
  field_compare Compare.missing t f x name = false

  -- A group of the task, with the other groups that it is in
  abbrev pub group_result : (in_group : ℕ → Bool) → ℕ → Field → Bool
  group_result in_group gid f = elim f.op [
    | equal ↦ e.gid_comparator gid equal f.gid || in_group f.gid
    | not_equal ↦ e.gid_comparator gid not_equal f.gid && not (in_group f.gid)
    | other_op o ↦ e.gid_comparator gid (other_op o) f.gid
  ]

  -- The rules of a security module about objects: the names, and what AUDIT_IPC is about
  abbrev pub object_result : (type lsm : ℕ) → Op → Option Name → Option Context → Bool
  object_result type lsm op name x =
      with_names (λ n. e.rule_match n.osid type op lsm) name x
      || in_context
          (λ c. elim c.ipc_osid [ none ↦ false | some osid ↦ e.rule_match osid type op lsm ]) x

  -- The switch of `audit_filter_rules` for one field
  unfoldable pub field_result :
      FieldType → Task → Rule → Field → Option Name → Option Context → Bool
  field_result FieldType.on_pid t r f name x = e.comparator t.pid f.op f.val
  field_result FieldType.on_ppid t r f name x = in_context (λ c. e.comparator c.ppid f.op f.val) x
  field_result FieldType.on_exe t r f name x = e.exe_compare t r.exe
  field_result FieldType.on_uid t r f name x = e.uid_comparator t.cred.uid f.op f.uid
  field_result FieldType.on_euid t r f name x = e.uid_comparator t.cred.euid f.op f.uid
  field_result FieldType.on_suid t r f name x = e.uid_comparator t.cred.suid f.op f.uid
  field_result FieldType.on_fsuid t r f name x = e.uid_comparator t.cred.fsuid f.op f.uid
  field_result FieldType.on_gid t r f name x = group_result e.in_group t.cred.gid f
  field_result FieldType.on_egid t r f name x = group_result e.in_egroup t.cred.egid f
  field_result FieldType.on_sgid t r f name x = e.gid_comparator t.cred.sgid f.op f.gid
  field_result FieldType.on_fsgid t r f name x = e.gid_comparator t.cred.fsgid f.op f.gid
  field_result FieldType.on_pers t r f name x = e.comparator t.personality f.op f.val
  field_result FieldType.on_arch t r f name x = in_context (λ c. e.comparator c.arch f.op f.val) x
  field_result FieldType.on_exit t r f name x =
      in_context (λ c. not (c.return_valid == 0) && e.comparator (u32_of c.return_code) f.op f.val)
        x
  field_result FieldType.on_success t r f name x =
      in_context
        (λ c.
          not (c.return_valid == 0)
          && e.comparator c.return_valid f.op (if f.val == 0 then e.failure else e.success))
        x
  field_result FieldType.on_devmajor t r f name x =
      with_names
        (λ n.
          e.comparator (e.major_of n.dev) f.op f.val || e.comparator (e.major_of n.rdev) f.op f.val)
        name x
  field_result FieldType.on_devminor t r f name x =
      with_names
        (λ n.
          e.comparator (e.minor_of n.dev) f.op f.val || e.comparator (e.minor_of n.rdev) f.op f.val)
        name x
  field_result FieldType.on_inode t r f name x =
      with_names (λ n. e.comparator n.ino f.op f.val) name x
  field_result FieldType.on_obj_uid t r f name x =
      with_names (λ n. e.uid_comparator n.uid f.op f.uid) name x
  field_result FieldType.on_obj_gid t r f name x =
      with_names (λ n. e.gid_comparator n.gid f.op f.gid) name x
  field_result FieldType.on_watch t r f name x = elim name [
    | none ↦ false
    | some n ↦ e.watch_compare r.watch n.ino n.dev
  ]
  field_result FieldType.on_dir t r f name x = elim r.tree [
    | none ↦ false
    | some tree ↦ in_context (λ c. match_tree_refs (e.tree_match tree) c.chain) x
  ]
  field_result FieldType.on_loginuid t r f name x = e.uid_comparator t.loginuid f.op f.uid
  field_result FieldType.on_loginuid_set t r f name x = e.comparator (e.loginuid_set t) f.op f.val
  field_result (FieldType.on_subject type) t r f name x = elim f.lsm_rule [
    | none ↦ false
    | some lsm ↦ e.rule_match t.sid type f.op lsm
  ]
  field_result (FieldType.on_object type) t r f name x = elim f.lsm_rule [
    | none ↦ false
    | some lsm ↦ object_result type lsm f.op name x
  ]
  field_result (FieldType.on_arg i) t r f name x =
      in_context (λ c. e.comparator (get_or c.argv i 0) f.op f.val) x
  field_result FieldType.on_filterkey t r f name x = true
  field_result FieldType.on_perm t r f name x = in_context (match_perm f.val) x
  field_result FieldType.on_filetype t r f name x = in_context (match_filetype f.val) x
  field_result (FieldType.on_compare kind) t r f name x = field_compare kind t f x name
  field_result FieldType.on_unknown t r f name x = false
