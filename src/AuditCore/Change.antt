-- ===== src/AuditCore/Change.antt =====
-- How a change of a setting ends.
use doublefetch.Base.{
  ℕ, ◌+◌, ◌≡◌, true, false, ◌==◌, ◌&&◌, not, is_zero, arith, Bool-cases, inl, inr, ◌⊎◌, refl, List,
  ◌∷◌,
}
use doublefetch.AuditCore.{
  AuditEnv, Config, Setting, of_enabled, of_failure, of_rate_limit, of_backlog_limit, of_wait_time,
  value, with_value, do_config_change, locked, off, name, Entry,
}

pub value-with_value : (s : Setting) (v : ℕ) (c : Config) → value s (with_value s v c) ≡ v
value-with_value of_enabled v c = refl
value-with_value of_failure v c = refl
value-with_value of_rate_limit v c = refl
value-with_value of_backlog_limit v c = refl
value-with_value of_wait_time v c = refl

-- The log and the time are no settings.
value-logged :
    (s : Setting) (t : ℕ) (l : List Entry) (c : Config)
    → value s (record c { clock = t; log = l }) ≡ value s c
value-logged of_enabled t l c = refl
value-logged of_failure t l c = refl
value-logged of_rate_limit t l c = refl
value-logged of_backlog_limit t l c = refl
value-logged of_wait_time t l c = refl

module _ (e : AuditEnv) where
  -- A change of a setting succeeds only where the configuration is not locked, and then the setting has the
  -- value that was asked for; else it has its old value.
  pub do_config_change-cases :
      (s : Setting) (new : ℕ) (c : Config)
      → let r = do_config_change e s new c in
        ((is_zero r.0 ≡ true) × (value s r.1 ≡ new) × ((c.enabled == locked) ≡ false))
        ⊎ ((is_zero r.0 ≡ false) × (value s r.1 ≡ value s c))
  unfolding do_config_change
  do_config_change-cases s new c =
      let old = value s c in
      let allowed = not (c.enabled == locked) in
      let p = value-with_value s new in
      elim (Bool-cases (c.enabled == off)) [
        | inl is_off ↦ inl (ground arith, ground (arith, p c), ground arith)
        | inr is_on ↦ elim (Bool-cases (e.has_record c.clock)) [
          | inr no_record ↦
              (let c1 = record c { clock = c.clock + 1; log = c.log } in
                elim (Bool-cases (c.enabled == locked)) [
                  | inl is_locked ↦
                      inr (ground arith, ground (arith, value-logged s (c.clock + 1) c.log c))
                  | inr is_free ↦ inl (ground arith, ground (arith, p c1), is_free)
                ])
          | inl recorded ↦
              (let rc = e.task_context c.clock in
                let l = Entry.config_change (name s) new old (is_zero rc && allowed) ∷ c.log in
                let c1 = record c { clock = c.clock + 1; log = l } in
                let same = value-logged s (c.clock + 1) l c in
                elim (Bool-cases (is_zero rc)) [
                  | inr weird ↦ inr (ground arith, ground (arith, same))
                  | inl fine ↦ elim (Bool-cases (c.enabled == locked)) [
                    | inl is_locked ↦ inr (ground arith, ground (arith, same))
                    | inr is_free ↦ inl (ground arith, ground (arith, p c1), is_free)
                  ]
                ])
        ]
      ]
