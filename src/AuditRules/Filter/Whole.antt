-- ===== src/AuditRules/Filter/Whole.antt =====
-- A rule against a test of all of its fields at once, in a context that has the parent of the task.
use doublefetch.Base.{
  ◌≡◌, Bool, true, false, Option, some, List, [], ◌∷◌, ltb, leb, ◌&&◌, arith, Bool-cases, inl, inr,
  ◌⊎◌, refl, ◌∙◌, subst,
}
use doublefetch.AuditRules.{Name, Task, Field, Rule, State, Context, Env}
use doublefetch.AuditRules.Match.{field_result}
use doublefetch.AuditRules.Filter.{with_ppid, acted, taken, filter_fields, filter_rules}
use doublefetch.AuditRules.Filter.Fields.{field_result-asked, with_ppid-asked}

module _ (e : Env) (t : Task) (r : Rule) (name : Option Name) where
  -- Every field matches.
  abbrev pub all_match : List Field → Option Context → Bool
  all_match [] x = true
  all_match (f ∷ fs) x = field_result e f.type t r f name x && all_match fs x

  filter_fields_lem :
      (fs : List Field) (c : Context)
      → (c' : Context) × (with_ppid t c' ≡ with_ppid t c)
        × (filter_fields e fs t r name (some c) ≡ (all_match fs (some (with_ppid t c)), some c'))
  unfolding filter_fields
  filter_fields_lem [] c = (c, refl, refl)
  filter_fields_lem (f ∷ fs) c =
      let (c1, same, is) = with_ppid-asked f.type t c in
      let one : field_result e f.type t r f name (some c1)
          ≡ field_result e f.type t r f name (some (with_ppid t c)) =
        subst
          (λ x.
            field_result e f.type t r f name x
            ≡ field_result e f.type t r f name (some (with_ppid t c)))
          is (field_result-asked e f.type t r f name c) in
      let (c2, same2, run) = filter_fields_lem fs c1 in
      elim (Bool-cases (field_result e f.type t r f name (some c1))) [
        | inr fails ↦ (c1, same, ground arith)
        | inl matches ↦ (c2, same2 ∙ same, ground arith)
      ]

  -- What a rule does: it matches, and the context takes its priority; or it does not, and the context
  -- keeps all but the parent.
  pub filter_rules-cases :
      (c : Context) (s : State)
      → (c' : Context) × (with_ppid t c' ≡ with_ppid t c)
        × (((all_match r.fields (some (with_ppid t c)) && ltb c'.prio r.prio ≡ true)
              × (filter_rules e t r (some c) name s
                  ≡ (true, some (taken e r c'), acted r.action s)))
            ⊎ ((all_match r.fields (some (with_ppid t c)) && ltb c'.prio r.prio ≡ false)
                × (filter_rules e t r (some c) name s ≡ (false, some c', s))))
  unfolding filter_rules
  filter_rules-cases c s =
      let (c', same, run) = filter_fields_lem r.fields c in
      elim (Bool-cases (all_match r.fields (some (with_ppid t c)))) [
        | inr fails ↦ (c', same, inr (ground arith, ground arith))
        | inl matches ↦ elim (Bool-cases (leb r.prio c'.prio)) [
          | inl low ↦ (c', same, inr (ground arith, ground arith))
          | inr high ↦ (c', same, inl (ground arith, ground arith))
        ]
      ]
