-- ===== src/AuditCore/Receive/Settings.antt =====
-- What the operations behind a message leave of the settings and the rules, where the configuration is
-- locked.
use doublefetch.Base.{
  ℕ, ◌+◌, ◌≡◌, Bool, true, false, Option, none, some, List, [], ◌∷◌, ltb, ◌==◌, ◌&&◌, ◌||◌, not, ℤ,
  pos, is_zero, is_neg, is_err, is_pos, arith, Bool-cases, Option-cases, inl, inr, refl, sym, ◌∙◌,
  subst,
}
use doublefetch.AuditCore.{
  AuditEnv, Config, Entry, FeatureBits, Setting, of_enabled, of_failure, of_rate_limit,
  of_backlog_limit, of_wait_time, off, locked, pid_name, log_config_change, do_config_change,
  set_rate_limit, set_backlog_limit, set_enabled, set_failure,
}
use doublefetch.AuditCore.Change.{do_config_change-cases}
use doublefetch.AuditCore.Feature.{
  is_other, FeatureRequest, refusal, grant, log_feature_change, set_feature,
}
use doublefetch.AuditCore.Receive.{
  econnrefused, Status, Request, log_command, then_set, set_pid, set_wait, set_status, receive_user,
}

-- The settings that AUDIT_SET can change are as they were, but for the daemon's pid and port.
abbrev pub Settled : Config → Config → Type 0
Settled c c' =
    (c'.enabled ≡ c.enabled)
    × (c'.ever_enabled ≡ c.ever_enabled)
    × (c'.failure ≡ c.failure)
    × (c'.rate_limit ≡ c.rate_limit)
    × (c'.backlog_limit ≡ c.backlog_limit)
    × (c'.wait_time ≡ c.wait_time)

pub Settled-trans : (a b c : Config) → Settled a b → Settled b c → Settled a c
Settled-trans a b c (p0, p1, p2, p3, p4, p5) (q0, q1, q2, q3, q4, q5) =
    (q0 ∙ p0, q1 ∙ p1, q2 ∙ p2, q3 ∙ p3, q4 ∙ p4, q5 ∙ p5)

-- Those settings and the rules are as they were.
abbrev pub Frozen : Config → Config → Type 0
Frozen c c' =
    (c'.enabled ≡ c.enabled)
    × (c'.ever_enabled ≡ c.ever_enabled)
    × (c'.failure ≡ c.failure)
    × (c'.rate_limit ≡ c.rate_limit)
    × (c'.backlog_limit ≡ c.backlog_limit)
    × (c'.wait_time ≡ c.wait_time)
    × (c'.rules ≡ c.rules)

pub Frozen-refl : (c : Config) → Frozen c c
Frozen-refl c = (refl, refl, refl, refl, refl, refl, refl)

pub Frozen-trans : (a b c : Config) → Frozen a b → Frozen b c → Frozen a c
Frozen-trans a b c (p0, p1, p2, p3, p4, p5, p6) (q0, q1, q2, q3, q4, q5, q6) =
    (q0 ∙ p0, q1 ∙ p1, q2 ∙ p2, q3 ∙ p3, q4 ∙ p4, q5 ∙ p5, q6 ∙ p6)

module _ (e : AuditEnv) where
  Frozen-log_config_change :
      (n new old : ℕ) (allowed : Bool) (c : Config)
      → Frozen c (log_config_change e n new old allowed c).1
  unfolding log_config_change
  Frozen-log_config_change n new old allowed c = elim (Bool-cases (e.has_record c.clock)) [
    | inl a ↦ ground arith
    | inr a ↦ ground arith
  ]

  Frozen-do_config_change :
      (s : Setting) (new : ℕ) (c : Config)
      → c.enabled ≡ locked
      → Frozen c (do_config_change e s new c).1
  unfolding do_config_change
  Frozen-do_config_change s new c h = elim (Bool-cases (e.has_record c.clock)) [
    | inl a ↦ elim (Bool-cases (is_zero (e.task_context c.clock))) [
      | inl b ↦ ground arith
      | inr b ↦ ground arith
    ]
    | inr a ↦ ground arith
  ]

  Frozen-set_enabled : (v : ℕ) (c : Config) → c.enabled ≡ locked → Frozen c (set_enabled e v c).1
  unfolding set_enabled
  Frozen-set_enabled v c h =
      let f = Frozen-do_config_change of_enabled v c h in
      let refused = do_config_change-cases e of_enabled v c in
      elim (Bool-cases (ltb locked v)) [ inl a ↦ ground arith | inr a ↦ ground arith ]

  Frozen-set_failure : (v : ℕ) (c : Config) → c.enabled ≡ locked → Frozen c (set_failure e v c).1
  unfolding set_failure
  Frozen-set_failure v c h =
      let f = Frozen-do_config_change of_failure v c h in
      elim (Bool-cases ((v == e.fail_silent) || (v == e.fail_printk) || (v == e.fail_panic))) [
        | inl a ↦ ground arith
        | inr a ↦ ground arith
      ]

  Frozen-set_pid : (r : Request) (v : ℕ) (c : Config) → Frozen c (set_pid e r v c).1
  unfolding set_pid
  Frozen-set_pid r v c =
      let logged = λ (allowed : Bool). Frozen-log_config_change pid_name v c.pid allowed c in
      elim (Bool-cases ((v == 0) && not (r.sender == c.pid))) [
        | inl a ↦ (let f = logged false in ground arith)
        | inr a ↦
            elim (Bool-cases
              (not (c.pid == 0) && not (v == 0) && not (is_err econnrefused r.replace))) [
                | inl b ↦ (let f = logged false in ground arith)
                | inr b ↦ elim (Bool-cases (c.enabled == off)) [
                  | inl d ↦ ground arith
                  | inr d ↦ (let f = logged true in ground arith)
                ]
              ]
      ]

  Frozen-set_wait :
      (b : Bool) (v : ℕ) (c : Config) → c.enabled ≡ locked → Frozen c (set_wait e b v c).1
  unfolding set_wait
  Frozen-set_wait true v c h = Frozen-refl c
  Frozen-set_wait false v c h = elim (Bool-cases (ltb e.max_wait_time v)) [
    | inl a ↦ ground arith
    | inr a ↦ (let f = Frozen-do_config_change of_wait_time v c h in ground arith)
  ]

  Frozen-then_set :
      (change : ℕ → Config → ℤ × Config) (v : Option ℕ) (r : ℤ × Config) (c : Config)
      → ((w : ℕ) (d : Config) → d.enabled ≡ locked → Frozen d (change w d).1)
      → c.enabled ≡ locked
      → Frozen c r.1
      → Frozen c (then_set e change v r).1
  Frozen-then_set change none r c rule h f = f
  Frozen-then_set change (some v) (ret, d) c rule h f = elim (Bool-cases (is_neg ret)) [
    | inl a ↦ ground arith
    | inr a ↦
        subst (λ x. Frozen c x.1)
          (let step : change v d ≡ then_set e change (some v) (ret, d) = ground arith in step)
          (Frozen-trans c d (change v d).1 f (rule v d (f.0 ∙ h)))
  ]

  pub Frozen-set_status :
      (r : Request) (s : Status) (c : Config) → c.enabled ≡ locked → Frozen c (set_status e r s c).1
  unfolding set_status
  Frozen-set_status r s c h =
      let r1 = then_set e (set_enabled e) s.enabled (pos 0, c) in
      let r2 = then_set e (set_failure e) s.failure r1 in
      let r3 = then_set e (set_pid e r) s.pid r2 in
      let r4 = then_set e (set_rate_limit e) s.rate_limit r3 in
      let r5 = then_set e (set_backlog_limit e) s.backlog_limit r4 in
      let f1 =
        Frozen-then_set (set_enabled e) s.enabled (pos 0, c) c Frozen-set_enabled h
          (Frozen-refl c) in
      let f2 = Frozen-then_set (set_failure e) s.failure r1 c Frozen-set_failure h f1 in
      let f3 = Frozen-then_set (set_pid e r) s.pid r2 c (λ w d k. Frozen-set_pid r w d) h f2 in
      let f4 =
        Frozen-then_set (set_rate_limit e) s.rate_limit r3 c (Frozen-do_config_change of_rate_limit)
          h f3 in
      let f5 =
        Frozen-then_set (set_backlog_limit e) s.backlog_limit r4 c
          (Frozen-do_config_change of_backlog_limit) h f4 in
      Frozen-then_set (set_wait e s.is_short) s.wait_time r5 c (Frozen-set_wait s.is_short) h f5

  Frozen-log_feature_change : (x : Entry) (c : Config) → Frozen c (log_feature_change e x c)
  unfolding log_feature_change
  Frozen-log_feature_change x c = elim (Bool-cases (c.enabled == off)) [
    | inl a ↦ ground arith
    | inr a ↦ elim (Bool-cases (e.has_record c.clock)) [
      | inl b ↦ ground arith
      | inr b ↦ ground arith
    ]
  ]

  Frozen-grant :
      (i : ℕ) (fs : List FeatureBits) (qs : List FeatureRequest) (c : Config)
      → Frozen c (grant e i fs qs c).1
  unfolding grant
  Frozen-grant i [] qs c = Frozen-refl c
  Frozen-grant i (f ∷ fs) [] c = Frozen-refl c
  Frozen-grant i (f ∷ fs) (q ∷ qs) c =
      let change = Entry.feature_change i q.is_on f.is_on true in
      let d = log_feature_change e change c in
      elim (Bool-cases (q.is_asked && is_other q.is_on f.is_on)) [
        | inl a ↦
            (let step : (grant e i (f ∷ fs) (q ∷ qs) c).1 ≡ (grant e (i + 1) fs qs d).1 =
                ground arith in
              subst (Frozen c) (sym step) (
                Frozen-trans c d (grant e (i + 1) fs qs d).1 (Frozen-log_feature_change change c)
                  (Frozen-grant (i + 1) fs qs d)))
        | inr a ↦
            (let step : (grant e i (f ∷ fs) (q ∷ qs) c).1 ≡ (grant e (i + 1) fs qs c).1 =
                ground arith in
              subst (Frozen c) (sym step) (Frozen-grant (i + 1) fs qs c))
      ]

  pub Frozen-set_feature : (qs : List FeatureRequest) (c : Config) → Frozen c (set_feature e qs c).1
  unfolding set_feature
  Frozen-set_feature qs c = elim (Option-cases (refusal 0 c.features qs)) [
    | inl free ↦ (let f = Frozen-grant 0 c.features qs c in ground arith)
    | inr (x, bad) ↦ (let f = Frozen-log_feature_change x c in ground arith)
  ]

  pub Frozen-log_command :
      (is_avc : Bool) (x : Entry) (c : Config) → Frozen c (log_command e is_avc x c)
  Frozen-log_command is_avc x c = elim (Bool-cases ((c.enabled == off) && not is_avc)) [
    | inl a ↦ ground arith
    | inr a ↦ elim (Bool-cases (e.has_record c.clock)) [
      | inl b ↦ ground arith
      | inr b ↦ ground arith
    ]
  ]

  pub Frozen-receive_user :
      (r : Request) (type : ℕ) (is_avc is_tty : Bool) (c : Config)
      → Frozen c (receive_user e r type is_avc is_tty c).1
  unfolding receive_user
  Frozen-receive_user r type is_avc is_tty c =
      let f = Frozen-log_command is_avc (Entry.user_message type) c in
      elim (Bool-cases ((c.enabled == off) && not is_avc)) [
        | inl a ↦ ground arith
        | inr a ↦ elim (Bool-cases (not (is_pos 1 r.filter_user))) [
          | inl b ↦ ground arith
          | inr b ↦ elim (Bool-cases (is_tty && not (is_zero r.tty_push))) [
            | inl d ↦ ground arith
            | inr d ↦ ground arith
          ]
        ]
      ]
