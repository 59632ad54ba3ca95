-- ===== src/AuditRules/Filter.antt =====
-- `audit_filter_rules`, the filters that use it, and `audit_take_context`.
pub mod Fields
pub mod Whole
pub mod First
pub mod Rank
use doublefetch.Base.{
  ℕ, zero, suc, ◌+◌, ◌-◌, ◌%◌, ◌≡◌, Bool, true, false, Option, none, some, List, [], ◌∷◌, get_or,
  ltb, leb, ◌==◌, ◌||◌, ◌&&◌, not, if◌then◌else◌, ℤ, pos, negsuc, err,
}
use doublefetch.AuditRules.{
  Name, Task, FieldType, Field, Action, never, always, other_action, Rule, State, disabled,
  build_context, record_context, Context, Env,
}
use doublefetch.AuditRules.Match.{field_result}

-- The parent of the task, which a system call keeps once a rule has asked for it
abbrev pub with_ppid : Task → Context → Context
with_ppid t c = if c.ppid == 0 then record c { ppid = t.ppid } else c

abbrev pub asked : FieldType → Task → Option Context → Option Context
asked type t none = none
asked FieldType.on_ppid t (some c) = some (with_ppid t c)
asked type t (some c) = some c

-- The switch at the end: a state that no case sets stays as it was
abbrev pub acted : Action → State → State
acted never s = disabled
acted always s = record_context
acted other_action s = s

module _ (e : Env) where
  abbrev pub taken : Rule → Context → Context
  taken r c = elim r.filterkey [
    | none ↦ record c { prio = r.prio }
    | some key ↦ record c { prio = r.prio; filterkey = e.strdup key }
  ]

  -- The loop over the fields, up to one that does not match
  unfoldable pub filter_fields :
      List Field → Task → Rule → Option Name → Option Context → Bool × Option Context
  unfolding field_result
  filter_fields [] t r name x = (true, x)
  filter_fields (f ∷ fs) t r name x = elim (field_result e f.type t r f name (asked f.type t x)) [
    | false ↦ (false, asked f.type t x)
    | true ↦ filter_fields fs t r name (asked f.type t x)
  ]

  -- `audit_filter_rules`: whether the rule matches, the context, and `*state`
  unfoldable pub filter_rules :
      Task → Rule → Option Context → Option Name → State → Bool × Option Context × State
  unfolding filter_fields
  filter_rules t r x name s =
      let (hit, x') = filter_fields r.fields t r name x in
      elim hit [
        | false ↦ (false, x', s)
        | true ↦ elim x' [
          | none ↦ (true, none, acted r.action s)
          | some c ↦ elim (leb r.prio c.prio) [
            | true ↦ (false, some c, s)
            | false ↦ (true, some (taken r c), acted r.action s)
          ]
        ]
      ]

  -- `audit_filter_task`: the state, and the key where it is to be recorded
  unfoldable pub filter_task : List Rule → Task → State → State × Option ℕ
  unfolding filter_rules
  filter_task [] t s = (build_context, none)
  filter_task (r ∷ rs) t s =
      let (hit, x, s') = filter_rules t r none none s in
      let rest = filter_task rs t s' in
      elim hit [
        | false ↦ rest
        | true ↦ elim s' [
          | record_context ↦
              (record_context, elim r.filterkey [ none ↦ none | some key ↦ e.strdup key ])
          | disabled ↦ (disabled, none)
          | build_context ↦ (build_context, none)
        ]
      ]

  -- `audit_in_mask`
  abbrev pub in_mask : Rule → ℕ → Bool
  in_mask r val =
      if ltb 4294967295 val
      then false
      else if leb e.bitmask_size (e.audit_word val)
      then false
      else e.mask_bit (get_or r.mask (e.audit_word val) 0) val

  -- The loop of `audit_filter_syscall` and of `audit_filter_inode_name`: up to a rule that matches, whose
  -- state it gives
  unfoldable pub filter_list :
      List Rule → Task → Option Name → State → Context → Option State × Context
  unfolding filter_rules
  filter_list [] t name s c = (none, c)
  filter_list (r ∷ rs) t name s c = elim (in_mask r c.major) [
    | false ↦ filter_list rs t name s c
    | true ↦
        let (hit, x, s') = filter_rules t r (some c) name s in
        let c' : Context = elim x [ none ↦ c | some y ↦ y ] in
        elim hit [
          | false ↦ filter_list rs t name s' c'
          | true ↦ (some s', record c' { current_state = s' })
        ]
  ]

  -- `audit_filter_syscall`
  unfoldable pub filter_syscall : Task → List Rule → State → Context → State × Context
  unfolding filter_list
  filter_syscall t rs s c =
      if not (e.audit_pid == 0) && (t.tgid == e.audit_pid)
      then (disabled, c)
      else elim (filter_list rs t none s c).0 [
        | none ↦ (build_context, (filter_list rs t none s c).1)
        | some s' ↦ (s', (filter_list rs t none s c).1)
      ]

  -- `audit_filter_inodes`, over the names left: up to one with a rule that matches
  unfoldable pub filter_names : List Name → Task → State → Context → Context
  unfolding filter_list
  filter_names [] t s c = c
  filter_names (n ∷ ns) t s c =
      let (done, c') = filter_list (e.inode_hash n.ino) t (some n) s c in
      elim done [ some s' ↦ c' | none ↦ filter_names ns t s c' ]

  unfoldable pub filter_inodes : Task → State → Context → Context
  unfolding filter_names
  filter_inodes t s c =
      if not (e.audit_pid == 0) && (t.tgid == e.audit_pid) then c else filter_names c.names t s c

  -- The return codes that the signal handlers of an architecture fix up
  abbrev pub is_restart : ℤ → Bool
  is_restart (pos n) = false
  is_restart (negsuc n) =
      leb e.erestartsys (n + 1)
      && leb (n + 1) e.erestart_restartblock
      && not (n + 1 == e.enoioctlcmd)

  -- `audit_take_context`: the context as the caller gets it. `s` is what the variable of a filter holds
  -- before it is set.
  unfoldable pub take_context :
      Task → Option Context → (return_valid : ℕ) → ℤ → State → Option Context
  unfolding filter_syscall filter_inodes
  take_context t none valid code s = none
  take_context t (some c) valid code s =
      let noted : Context = record c {
        return_valid = valid;
        return_code = if is_restart code then err e.eintr else code;
      } in
      some (
        if c.in_syscall && not c.is_dummy
        then filter_inodes t s (filter_syscall t e.exit_rules s noted).1
        else noted)
