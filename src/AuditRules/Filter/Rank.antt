-- ===== src/AuditRules/Filter/Rank.antt =====
-- The filters change the state of a context only for a rule of a higher priority.
use doublefetch.Base.{
  ℕ, ◌≡◌, ◌<◌, Option, none, some, List, [], ◌∷◌, ◌==◌, ◌&&◌, not, if◌then◌else◌, arith, Bool-cases,
  Option-cases, inl, inr, ◌⊎◌, refl, ap, sym, ◌∙◌, subst, ℤ, err,
}
use doublefetch.AuditRules.{Name, Task, Rule, State, Context, Env}
use doublefetch.AuditRules.Filter.{
  with_ppid, acted, in_mask, filter_list, filter_syscall, filter_names, filter_inodes, is_restart,
  take_context,
}
use doublefetch.AuditRules.Filter.Fields.{with_ppid_lem}
use doublefetch.AuditRules.Filter.Whole.{filter_rules-cases}
use doublefetch.AuditRules.Filter.First.{settled}

-- The priority has risen, or it is the same with the same state and key.
abbrev pub Ranked : Context → Context → Type 0
Ranked c c' =
    (c.prio < c'.prio)
    ⊎ ((c'.prio ≡ c.prio) × (c'.current_state ≡ c.current_state) × (c'.filterkey ≡ c.filterkey))

Ranked-trans : (a b c : Context) → Ranked a b → Ranked b c → Ranked a c
Ranked-trans a b c (inl x) (inl y) = inl (omega arith)
Ranked-trans a b c (inl x) (inr (p, s, k)) = inl (omega arith)
Ranked-trans a b c (inr (p, s, k)) (inl y) = inl (omega arith)
Ranked-trans a b c (inr (p, s, k)) (inr (p', s', k')) = inr (p' ∙ p, s' ∙ s, k' ∙ k)

same-Ranked : (t : Task) (c c' : Context) → with_ppid t c' ≡ with_ppid t c → Ranked c c'
same-Ranked t c c' e =
    let (p, q) = with_ppid_lem t c in
    let (p', q') = with_ppid_lem t c' in
    let same = sym q' ∙ e ∙ q in
    inr (ap (λ x. x.prio) same, ap (λ x. x.current_state) same, ap (λ x. x.filterkey) same)

settled-Ranked :
    (e : Env) (r : Rule) (s : State) (c : Context) → c.prio < r.prio → Ranked c (settled e r s c)
settled-Ranked e r s c h = elim (Option-cases r.filterkey) [
  | inl k ↦ inl (ground arith)
  | inr (key, k) ↦ inl (ground arith)
]

module _ (e : Env) (t : Task) where
  filter_list-Ranked :
      (name : Option Name) (rs : List Rule) (s : State) (c : Context)
      → Ranked c (filter_list e rs t name s c).1
  unfolding filter_list
  filter_list-Ranked name [] s c = inr (refl, refl, refl)
  filter_list-Ranked name (r ∷ rs) s c =
      let (c', same, cases) = filter_rules-cases e t r name c s in
      let all = filter_list e (r ∷ rs) t name s c in
      let Goal : Option State × Context → Type 0 = λ x. Ranked c x.1 in
      elim (Bool-cases (in_mask e r c.major)) [
        | inr off ↦
            (let step : all ≡ filter_list e rs t name s c = ground arith in
              subst Goal (sym step) (filter_list-Ranked name rs s c))
        | inl on ↦ elim cases [
          | inl (hit, run) ↦
              (let step : all ≡ (some (acted r.action s), settled e r s c') = ground arith in
                subst Goal (sym step) (
                  Ranked-trans c c' (settled e r s c') (same-Ranked t c c' same)
                    (settled-Ranked e r s c' (ground arith))))
          | inr (miss, run) ↦
              (let step : all ≡ filter_list e rs t name s c' = ground arith in
                subst Goal (sym step) (
                  Ranked-trans c c' (filter_list e rs t name s c').1 (same-Ranked t c c' same)
                    (filter_list-Ranked name rs s c')))
        ]
      ]

  filter_syscall-Ranked :
      (rs : List Rule) (s : State) (c : Context) → Ranked c (filter_syscall e t rs s c).1
  unfolding filter_syscall
  filter_syscall-Ranked rs s c =
      let l = filter_list-Ranked none rs s c in
      elim (Bool-cases (not (e.audit_pid == 0) && (t.tgid == e.audit_pid))) [
        | inl daemon ↦
            subst (λ x. Ranked c x.1)
              (let step : (State.disabled, c) ≡ filter_syscall e t rs s c = ground arith in step)
              (inr (refl, refl, refl))
        | inr other ↦ elim (Option-cases (filter_list e rs t none s c).0) [
          | inl n ↦
              subst (Ranked c)
                (let step : (filter_list e rs t none s c).1 ≡ (filter_syscall e t rs s c).1 =
                    ground arith in
                  step)
                l
          | inr (s', n) ↦
              subst (Ranked c)
                (let step : (filter_list e rs t none s c).1 ≡ (filter_syscall e t rs s c).1 =
                    ground arith in
                  step)
                l
        ]
      ]

  filter_names-Ranked :
      (ns : List Name) (s : State) (c : Context) → Ranked c (filter_names e ns t s c)
  unfolding filter_names
  filter_names-Ranked [] s c = inr (refl, refl, refl)
  filter_names-Ranked (n ∷ ns) s c =
      let l = filter_list e (e.inode_hash n.ino) t (some n) s c in
      let one = filter_list-Ranked (some n) (e.inode_hash n.ino) s c in
      elim (Option-cases l.0) [
        | inr (s', h) ↦
            subst (Ranked c) (let step : l.1 ≡ filter_names e (n ∷ ns) t s c = ground arith in step)
              one
        | inl h ↦
            subst (Ranked c)
              (let step : filter_names e ns t s l.1 ≡ filter_names e (n ∷ ns) t s c =
                  ground arith in
                step)
              (Ranked-trans c l.1 (filter_names e ns t s l.1) one (filter_names-Ranked ns s l.1))
      ]

  filter_inodes-Ranked : (s : State) (c : Context) → Ranked c (filter_inodes e t s c)
  unfolding filter_inodes
  filter_inodes-Ranked s c = elim (Bool-cases (not (e.audit_pid == 0) && (t.tgid == e.audit_pid))) [
    | inl daemon ↦
        subst (Ranked c) (let step : c ≡ filter_inodes e t s c = ground arith in step)
          (inr (refl, refl, refl))
    | inr other ↦
        subst (Ranked c)
          (let step : filter_names e c.names t s c ≡ filter_inodes e t s c = ground arith in step)
          (filter_names-Ranked c.names s c)
  ]

  -- A system call that ends hands its context on after all filters: the priority never falls, and where it
  -- has not risen the state and the key are those from before.
  pub take_context-Ranked :
      (c : Context) (valid : ℕ) (code : ℤ) (s : State)
      → (c' : Context) × (take_context e t (some c) valid code s ≡ some c') × Ranked c c'
  unfolding take_context
  take_context-Ranked c valid code s =
      let noted : Context = record c {
        return_valid = valid;
        return_code = if is_restart e code then err e.eintr else code;
      } in
      let called = (filter_syscall e t e.exit_rules s noted).1 in
      elim (Bool-cases (c.in_syscall && not c.is_dummy)) [
        | inr idle ↦ (noted, ground arith, inr (refl, refl, refl))
        | inl busy ↦ (
          filter_inodes e t s called,
          ground arith,
          Ranked-trans noted called (filter_inodes e t s called)
              (filter_syscall-Ranked e.exit_rules s noted) (filter_inodes-Ranked s called),
        )
      ]
