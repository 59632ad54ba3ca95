-- ===== src/AuditRules/Filter/Fields.antt =====
-- What a rule gives does not depend on when the parent of the task was asked for: the code against a
-- test of all fields, in a context that has the parent.
use doublefetch.Base.{
  ℕ, ◌≡◌, Bool, true, false, Option, none, some, ◌==◌, arith, Bool-cases, inl, inr, refl, ap, sym,
  ◌∙◌,
}
use doublefetch.AuditRules.{Name, Task, Compare, FieldType, Field, Rule, Context, Env}
use doublefetch.AuditRules.Match.{field_compare, field_result}
use doublefetch.AuditRules.Filter.{with_ppid, asked}

abbrev pub seen : Task → Option Context → Option Context
seen t none = none
seen t (some c) = some (with_ppid t c)

abbrev is_ppid : FieldType → Bool
is_ppid FieldType.on_ppid = true
is_ppid type = false

field_compare-ppid :
    (e : Env) (kind : Compare) (t : Task) (f : Field) (c : Context) (name : Option Name) (p : ℕ)
    → field_compare e kind t f (some (record c { ppid = p })) name
      ≡ field_compare e kind t f (some c) name
field_compare-ppid e Compare.uid_to_obj_uid t f c name p = refl
field_compare-ppid e Compare.gid_to_obj_gid t f c name p = refl
field_compare-ppid e Compare.euid_to_obj_uid t f c name p = refl
field_compare-ppid e Compare.egid_to_obj_gid t f c name p = refl
field_compare-ppid e Compare.auid_to_obj_uid t f c name p = refl
field_compare-ppid e Compare.suid_to_obj_uid t f c name p = refl
field_compare-ppid e Compare.sgid_to_obj_gid t f c name p = refl
field_compare-ppid e Compare.fsuid_to_obj_uid t f c name p = refl
field_compare-ppid e Compare.fsgid_to_obj_gid t f c name p = refl
field_compare-ppid e Compare.uid_to_auid t f c name p = refl
field_compare-ppid e Compare.uid_to_euid t f c name p = refl
field_compare-ppid e Compare.uid_to_suid t f c name p = refl
field_compare-ppid e Compare.uid_to_fsuid t f c name p = refl
field_compare-ppid e Compare.auid_to_euid t f c name p = refl
field_compare-ppid e Compare.auid_to_suid t f c name p = refl
field_compare-ppid e Compare.auid_to_fsuid t f c name p = refl
field_compare-ppid e Compare.euid_to_suid t f c name p = refl
field_compare-ppid e Compare.euid_to_fsuid t f c name p = refl
field_compare-ppid e Compare.suid_to_fsuid t f c name p = refl
field_compare-ppid e Compare.gid_to_egid t f c name p = refl
field_compare-ppid e Compare.gid_to_sgid t f c name p = refl
field_compare-ppid e Compare.gid_to_fsgid t f c name p = refl
field_compare-ppid e Compare.egid_to_sgid t f c name p = refl
field_compare-ppid e Compare.egid_to_fsgid t f c name p = refl
field_compare-ppid e Compare.sgid_to_fsgid t f c name p = refl
field_compare-ppid e Compare.missing t f c name p = refl

field_result-ppid :
    (e : Env) (type : FieldType) (t : Task) (r : Rule) (f : Field) (name : Option Name)
    (c : Context) (p : ℕ)
    → is_ppid type ≡ false
    → field_result e type t r f name (some (record c { ppid = p }))
      ≡ field_result e type t r f name (some c)
unfolding field_result
field_result-ppid e FieldType.on_ppid t r f name c p h = absurd (cc)
field_result-ppid e FieldType.on_pid t r f name c p h = refl
field_result-ppid e FieldType.on_exe t r f name c p h = refl
field_result-ppid e FieldType.on_uid t r f name c p h = refl
field_result-ppid e FieldType.on_euid t r f name c p h = refl
field_result-ppid e FieldType.on_suid t r f name c p h = refl
field_result-ppid e FieldType.on_fsuid t r f name c p h = refl
field_result-ppid e FieldType.on_gid t r f name c p h = refl
field_result-ppid e FieldType.on_egid t r f name c p h = refl
field_result-ppid e FieldType.on_sgid t r f name c p h = refl
field_result-ppid e FieldType.on_fsgid t r f name c p h = refl
field_result-ppid e FieldType.on_pers t r f name c p h = refl
field_result-ppid e FieldType.on_arch t r f name c p h = refl
field_result-ppid e FieldType.on_exit t r f name c p h = refl
field_result-ppid e FieldType.on_success t r f name c p h = refl
field_result-ppid e FieldType.on_devmajor t r f name c p h = refl
field_result-ppid e FieldType.on_devminor t r f name c p h = refl
field_result-ppid e FieldType.on_inode t r f name c p h = refl
field_result-ppid e FieldType.on_obj_uid t r f name c p h = refl
field_result-ppid e FieldType.on_obj_gid t r f name c p h = refl
field_result-ppid e FieldType.on_dir t r f name c p h = refl
field_result-ppid e FieldType.on_loginuid t r f name c p h = refl
field_result-ppid e FieldType.on_loginuid_set t r f name c p h = refl
field_result-ppid e FieldType.on_filterkey t r f name c p h = refl
field_result-ppid e FieldType.on_perm t r f name c p h = refl
field_result-ppid e FieldType.on_filetype t r f name c p h = refl
field_result-ppid e FieldType.on_unknown t r f name c p h = refl
field_result-ppid e FieldType.on_watch t r f name c p h = refl
field_result-ppid e (FieldType.on_subject i) t r f name c p h = refl
field_result-ppid e (FieldType.on_object i) t r f name c p h = refl
field_result-ppid e (FieldType.on_arg i) t r f name c p h = refl
field_result-ppid e (FieldType.on_compare i) t r f name c p h = field_compare-ppid e i t f c name p

-- All that a context with the parent holds is its own but for the parent.
pub with_ppid_lem : (t : Task) (c : Context) → (p : ℕ) × (with_ppid t c ≡ record c { ppid = p })
with_ppid_lem t c = elim (Bool-cases (c.ppid == 0)) [
  | inl e ↦ (t.ppid, ground arith)
  | inr e ↦ (c.ppid, ground arith)
]

pub with_ppid_idem : (t : Task) (c : Context) → with_ppid t (with_ppid t c) ≡ with_ppid t c
with_ppid_idem t c = elim (Bool-cases (c.ppid == 0)) [
  | inl e ↦ elim (Bool-cases (t.ppid == 0)) [ inl z ↦ ground arith | inr z ↦ ground arith ]
  | inr e ↦ ground arith
]

asked_ppid :
    (type : FieldType) (t : Task) (c : Context)
    → is_ppid type ≡ true
    → asked type t (some c) ≡ some (with_ppid t c)
asked_ppid FieldType.on_ppid t c h = refl
asked_ppid FieldType.on_pid t c h = absurd (cc)
asked_ppid FieldType.on_exe t c h = absurd (cc)
asked_ppid FieldType.on_uid t c h = absurd (cc)
asked_ppid FieldType.on_euid t c h = absurd (cc)
asked_ppid FieldType.on_suid t c h = absurd (cc)
asked_ppid FieldType.on_fsuid t c h = absurd (cc)
asked_ppid FieldType.on_gid t c h = absurd (cc)
asked_ppid FieldType.on_egid t c h = absurd (cc)
asked_ppid FieldType.on_sgid t c h = absurd (cc)
asked_ppid FieldType.on_fsgid t c h = absurd (cc)
asked_ppid FieldType.on_pers t c h = absurd (cc)
asked_ppid FieldType.on_arch t c h = absurd (cc)
asked_ppid FieldType.on_exit t c h = absurd (cc)
asked_ppid FieldType.on_success t c h = absurd (cc)
asked_ppid FieldType.on_devmajor t c h = absurd (cc)
asked_ppid FieldType.on_devminor t c h = absurd (cc)
asked_ppid FieldType.on_inode t c h = absurd (cc)
asked_ppid FieldType.on_obj_uid t c h = absurd (cc)
asked_ppid FieldType.on_obj_gid t c h = absurd (cc)
asked_ppid FieldType.on_watch t c h = absurd (cc)
asked_ppid FieldType.on_dir t c h = absurd (cc)
asked_ppid FieldType.on_loginuid t c h = absurd (cc)
asked_ppid FieldType.on_loginuid_set t c h = absurd (cc)
asked_ppid FieldType.on_filterkey t c h = absurd (cc)
asked_ppid FieldType.on_perm t c h = absurd (cc)
asked_ppid FieldType.on_filetype t c h = absurd (cc)
asked_ppid FieldType.on_unknown t c h = absurd (cc)
asked_ppid (FieldType.on_subject i) t c h = absurd (cc)
asked_ppid (FieldType.on_object i) t c h = absurd (cc)
asked_ppid (FieldType.on_arg i) t c h = absurd (cc)
asked_ppid (FieldType.on_compare i) t c h = absurd (cc)

asked_else :
    (type : FieldType) (t : Task) (c : Context)
    → is_ppid type ≡ false
    → asked type t (some c) ≡ some c
asked_else FieldType.on_ppid t c h = absurd (cc)
asked_else FieldType.on_pid t x h = refl
asked_else FieldType.on_exe t x h = refl
asked_else FieldType.on_uid t x h = refl
asked_else FieldType.on_euid t x h = refl
asked_else FieldType.on_suid t x h = refl
asked_else FieldType.on_fsuid t x h = refl
asked_else FieldType.on_gid t x h = refl
asked_else FieldType.on_egid t x h = refl
asked_else FieldType.on_sgid t x h = refl
asked_else FieldType.on_fsgid t x h = refl
asked_else FieldType.on_pers t x h = refl
asked_else FieldType.on_arch t x h = refl
asked_else FieldType.on_exit t x h = refl
asked_else FieldType.on_success t x h = refl
asked_else FieldType.on_devmajor t x h = refl
asked_else FieldType.on_devminor t x h = refl
asked_else FieldType.on_inode t x h = refl
asked_else FieldType.on_obj_uid t x h = refl
asked_else FieldType.on_obj_gid t x h = refl
asked_else FieldType.on_watch t x h = refl
asked_else FieldType.on_dir t x h = refl
asked_else FieldType.on_loginuid t x h = refl
asked_else FieldType.on_loginuid_set t x h = refl
asked_else FieldType.on_filterkey t x h = refl
asked_else FieldType.on_perm t x h = refl
asked_else FieldType.on_filetype t x h = refl
asked_else FieldType.on_unknown t x h = refl
asked_else (FieldType.on_subject i) t x h = refl
asked_else (FieldType.on_object i) t x h = refl
asked_else (FieldType.on_arg i) t x h = refl
asked_else (FieldType.on_compare i) t x h = refl

-- What one field leaves of the context
pub with_ppid-asked :
    (type : FieldType) (t : Task) (c : Context)
    → (c' : Context) × (with_ppid t c' ≡ with_ppid t c) × (asked type t (some c) ≡ some c')
with_ppid-asked type t c = elim (Bool-cases (is_ppid type)) [
  | inl e ↦ (with_ppid t c, with_ppid_idem t c, asked_ppid type t c e)
  | inr e ↦ (c, refl, asked_else type t c e)
]

pub field_result-asked :
    (e : Env) (type : FieldType) (t : Task) (r : Rule) (f : Field) (name : Option Name)
    (c : Context)
    → field_result e type t r f name (asked type t (some c))
      ≡ field_result e type t r f name (some (with_ppid t c))
field_result-asked e type t r f name c = elim (Bool-cases (is_ppid type)) [
  | inl h ↦ ap (field_result e type t r f name) (asked_ppid type t c h)
  | inr h ↦
      let (p, q) = with_ppid_lem t c in
      ap (field_result e type t r f name) (asked_else type t c h)
      ∙ sym (field_result-ppid e type t r f name c p h)
      ∙ ap (λ y. field_result e type t r f name (some y)) (sym q)
]
