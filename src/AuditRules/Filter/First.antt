-- ===== src/AuditRules/Filter/First.antt =====
-- The filters give the state of the first rule that applies.
use doublefetch.Base.{
  ◌≡◌, Bool, true, false, Option, none, some, List, [], ◌∷◌, ltb, ◌==◌, ◌&&◌, not, if◌then◌else◌,
  arith, Bool-cases, Option-cases, inl, inr, refl, ap, ap₂, sym, ◌∙◌, subst,
}
use doublefetch.AuditRules.{Name, Task, Rule, State, disabled, build_context, Context, Env}
use doublefetch.AuditRules.Filter.{with_ppid, acted, taken, in_mask, filter_list, filter_syscall}
use doublefetch.AuditRules.Filter.Fields.{with_ppid_lem}
use doublefetch.AuditRules.Filter.Whole.{all_match, filter_rules-cases}

pub prio-with_ppid : (t : Task) (c : Context) → (with_ppid t c).prio ≡ c.prio
prio-with_ppid t c = ap (λ x. x.prio) (with_ppid_lem t c).1

pub major-with_ppid : (t : Task) (c : Context) → (with_ppid t c).major ≡ c.major
major-with_ppid t c = ap (λ x. x.major) (with_ppid_lem t c).1

-- A rule that matched, with the state that it gives
abbrev pub settled : Env → Rule → State → Context → Context
settled e r s c = record (taken e r c) { current_state = acted r.action s }

with_ppid-settled :
    (e : Env) (t : Task) (r : Rule) (s : State) (c : Context)
    → with_ppid t (settled e r s c) ≡ settled e r s (with_ppid t c)
with_ppid-settled e t r s c = elim (Option-cases r.filterkey) [
  | inl k ↦ elim (Bool-cases (c.ppid == 0)) [ inl h ↦ ground arith | inr h ↦ ground arith ]
  | inr (key, k) ↦ elim (Bool-cases (c.ppid == 0)) [ inl h ↦ ground arith | inr h ↦ ground arith ]
]

module _ (e : Env) (t : Task) (name : Option Name) where
  -- A rule applies to a system call that it covers, whose fields all match, with a higher priority.
  abbrev pub applies : Context → Rule → Bool
  applies c r = in_mask e r c.major && (all_match e t r name r.fields (some c) && ltb c.prio r.prio)

  abbrev pub first : Context → List Rule → Option Rule
  first c [] = none
  first c (r ∷ rs) = if applies c r then some r else first c rs

  abbrev pub outcome : State → Context → Option Rule → Option State × Context
  outcome s c none = (none, c)
  outcome s c (some r) = (some (acted r.action s), settled e r s c)

  applies-with_ppid :
      (r : Rule) (c c' : Context)
      → with_ppid t c' ≡ with_ppid t c
      → applies (with_ppid t c) r ≡ (
          in_mask e r c.major
          && (all_match e t r name r.fields (some (with_ppid t c)) && ltb c'.prio r.prio))
  applies-with_ppid r c c' same =
      ap₂
        (λ m p.
          in_mask e r m && (all_match e t r name r.fields (some (with_ppid t c)) && ltb p r.prio))
        (major-with_ppid t c) (sym (ap (λ x. x.prio) same) ∙ prio-with_ppid t c')

  pub filter_list-first :
      (rs : List Rule) (s : State) (c : Context)
      → ◌≡◌ {A = Option State × Context}
          ((filter_list e rs t name s c).0, with_ppid t (filter_list e rs t name s c).1)
          (outcome s (with_ppid t c) (first (with_ppid t c) rs))
  unfolding filter_list
  filter_list-first [] s c = refl
  filter_list-first (r ∷ rs) s c =
      let (c', same, cases) = filter_rules-cases e t r name c s in
      let is = applies-with_ppid r c c' same in
      let all = filter_list e (r ∷ rs) t name s c in
      let Goal : Option State × Context → Type 0 = λ x.
        ◌≡◌ {A = Option State × Context} (x.0, with_ppid t x.1)
          (outcome s (with_ppid t c) (first (with_ppid t c) (r ∷ rs))) in
      let matches = all_match e t r name r.fields (some (with_ppid t c)) && ltb c'.prio r.prio in
      let pick : Bool → Option State × Context =
        λ b. outcome s (with_ppid t c) (if b then some r else first (with_ppid t c) rs) in
      let covered : (m b : Bool)
          → in_mask e r c.major ≡ m
          → matches ≡ b
          → applies (with_ppid t c) r ≡ (m && b) =
        λ m b h g. is ∙ ap₂ (λ x y. x && y) h g in
      elim (Bool-cases (in_mask e r c.major)) [
        | inr off ↦
            let miss : applies (with_ppid t c) r ≡ false = is ∙ ap (λ b. b && matches) off in
            let step : all ≡ filter_list e rs t name s c = ground arith in
            subst Goal (sym step) (filter_list-first rs s c ∙ sym (ap pick miss))
        | inl on ↦ elim cases [
          | inl (hit, run) ↦
              let step : all ≡ (some (acted r.action s), settled e r s c') = ground arith in
              subst Goal (sym step) (
                ap {B = Option State × Context} (λ y. (some (acted r.action s), y))
                  (with_ppid-settled e t r s c' ∙ ap (settled e r s) same)
                ∙ sym (ap pick (covered true true on hit)))
          | inr (miss, run) ↦
              let step : all ≡ filter_list e rs t name s c' = ground arith in
              subst Goal (sym step) (
                filter_list-first rs s c'
                ∙ ap (λ y. outcome s y (first y rs)) same
                ∙ sym (ap pick (covered true false on miss)))
        ]
      ]

module _ (e : Env) where
  -- The audit daemon is not audited.
  abbrev pub is_daemon : Task → Bool
  is_daemon t = not (e.audit_pid == 0) && (t.tgid == e.audit_pid)

  abbrev pub state_or : State → Option State → State
  state_or s none = s
  state_or s (some s') = s'

  -- `audit_filter_syscall` disables the daemon; for any other task it gives the state of the first rule
  -- that covers the system call, has a higher priority and matches in every field, and else
  -- AUDIT_BUILD_CONTEXT. It leaves that state, the priority and the key of that rule in the context,
  -- which is otherwise as it was, but for the parent of the task that it may look up.
  pub filter_syscall-first :
      (t : Task) (rs : List Rule) (s : State) (c : Context)
      → let c' = with_ppid t c in
        let found = outcome e t none s c' (first e t none c' rs) in
        ◌≡◌ {A = State × Context}
          ((filter_syscall e t rs s c).0, with_ppid t (filter_syscall e t rs s c).1)
          (if is_daemon t then (disabled, c') else (state_or build_context found.0, found.1))
  unfolding filter_syscall
  filter_syscall-first t rs s c =
      let l = filter_list e rs t none s c in
      let stated : Option State × Context → State × Context =
        λ x. (state_or build_context x.0, x.1) in
      elim (Bool-cases (is_daemon t)) [
        | inl daemon ↦ ground arith
        | inr other ↦
            let c' = with_ppid t c in
            let run : filter_syscall e t rs s c ≡ (state_or build_context l.0, l.1) =
              elim (Option-cases l.0) [
                | inl none_found ↦ ground arith
                | inr (st, found) ↦ ground arith
              ] in
            let found = outcome e t none s c' (first e t none c' rs) in
            ap (λ x. (x.0, with_ppid t x.1)) run
            ∙ ap stated (filter_list-first e t none rs s c)
            ∙ sym (
                ap (λ b. if b then (disabled, c') else (state_or build_context found.0, found.1))
                  other)
      ]
