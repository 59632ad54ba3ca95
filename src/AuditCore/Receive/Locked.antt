-- ===== src/AuditCore/Receive/Locked.antt =====
-- A configuration that is locked, over the messages that come.
use doublefetch.Base.{
  ◌⊎◌, refl, sym, subst, ◌≡◌, true, false, ◌==◌, ◌&&◌, not, is_zero, arith, Bool-cases, inl, inr,
  ◌∙◌,
}
use doublefetch.AuditCore.Feature.{set_feature}
use doublefetch.AuditCore.{AuditEnv, Config, Entry, locked}
use doublefetch.AuditCore.Receive.{
  set_status, receive_user, Message, get, set, get_feature, set_feature_of, user, change_rule,
  list_rules, trim, make_equiv, signal_info, tty_get, tty_set, obsolete, unknown, Request,
  netlink_ok, dispatch, receive, is_bit,
}
use doublefetch.AuditCore.Receive.Settings.{
  Settled, Settled-trans, Frozen, Frozen-refl, Frozen-set_status, Frozen-set_feature,
  Frozen-receive_user, Frozen-log_command,
}

-- The commands about trees, which may remove rules
abbrev pub IsTreeCommand : Message → Type 0
IsTreeCommand trim = Unit
IsTreeCommand (make_equiv is_short) = Unit
IsTreeCommand _ = ⊥

-- What a message leaves: the settings, and the rules, unless it is about trees
abbrev Left : Message → Config → Config → Type 0
Left m c d = Settled c d × ((d.rules ≡ c.rules) ⊎ IsTreeCommand m)

left : (m : Message) (c d : Config) → Frozen c d → Left m c d
left m c d (p0, p1, p2, p3, p4, p5, p6) = ((p0, p1, p2, p3, p4, p5), inl p6)

module _ (e : AuditEnv) where
  Left-dispatch :
      (r : Request) (m : Message) (c : Config) → c.enabled ≡ locked → Left m c (dispatch e r m c).1
  unfolding dispatch
  Left-dispatch r get c h = left get c c (Frozen-refl c)
  Left-dispatch r (set s) c h = left (set s) c (set_status e r s c).1 (Frozen-set_status e r s c h)
  Left-dispatch r get_feature c h = left get_feature c c (Frozen-refl c)
  Left-dispatch r (set_feature_of qs) c h =
      left (set_feature_of qs) c (set_feature e qs c).1 (Frozen-set_feature e qs c)
  Left-dispatch r (user type is_avc is_tty) c h =
      left (user type is_avc is_tty) c (receive_user e r type is_avc is_tty c).1
        (Frozen-receive_user e r type is_avc is_tty c)
  Left-dispatch r (change_rule true) c h = left (change_rule true) c c (Frozen-refl c)
  Left-dispatch r (change_rule false) c h =
      let f = Frozen-log_command e false (Entry.command 1 false) c in ground arith
  Left-dispatch r list_rules c h = left list_rules c c (Frozen-refl c)
  Left-dispatch r trim c h =
      let (rules, trees) = r.trimmed c.rules c.trees in
      let (p0, p1, p2, p3, p4, p5, p6) =
        Frozen-log_command e false (Entry.command 2 true)
          (record c { rules = rules; trees = trees }) in
      ((p0, p1, p2, p3, p4, p5), inr tt)
  Left-dispatch r (make_equiv true) c h = left (make_equiv true) c c (Frozen-refl c)
  Left-dispatch r (make_equiv false) c h =
      let (ret, rules, trees) = r.tag_tree c.rules c.trees in
      let f =
        Frozen-log_command e false (Entry.command 3 (is_zero ret))
          (record c { rules = rules; trees = trees }) in
      (elim (Bool-cases (is_zero r.unpack)) [ inl a ↦ ground arith | inr a ↦ ground arith ], inr tt)
  Left-dispatch r signal_info c h = left signal_info c c (Frozen-refl c)
  Left-dispatch r tty_get c h = left tty_get c c (Frozen-refl c)
  Left-dispatch r (tty_set on log_passwd) c h =
      let f =
        Frozen-log_command e false (Entry.command 4 true)
          (record c { tty = (on == 1, log_passwd == 1) }) in
      let g = Frozen-log_command e false (Entry.command 4 false) c in
      elim (Bool-cases (is_bit on && is_bit log_passwd)) [
        | inl a ↦ ground arith
        | inr a ↦ ground arith
      ]
  Left-dispatch r obsolete c h = left obsolete c c (Frozen-refl c)
  Left-dispatch r unknown c h = left unknown c c (Frozen-refl c)

  Left-receive :
      (r : Request) (c : Config) → c.enabled ≡ locked → Left r.message c (receive e r c).1
  unfolding receive
  Left-receive r c h =
      let m = r.message in
      let d = record c { has_kauditd = true } in
      let f = Left-dispatch r m d h in
      let (ret, d') = dispatch e r m d in
      elim (Bool-cases (is_zero (netlink_ok r))) [
        | inr a ↦
            (let step : receive e r c ≡ (netlink_ok r, c) = ground arith in
              subst (λ x. Left m c x.1) (sym step) (left m c c (Frozen-refl c)))
        | inl a ↦ elim (Bool-cases (not c.has_kauditd && not (is_zero r.kthread))) [
          | inl b ↦
              (let step : receive e r c ≡ (r.kthread, c) = ground arith in
                subst (λ x. Left m c x.1) (sym step) (left m c c (Frozen-refl c)))
          | inr b ↦
              (let step : (receive e r c).1 ≡ d' = ground arith in subst (Left m c) (sym step) f)
        ]
      ]

  -- A message is handled, or the audit daemon is found gone by `kauditd_send_skb`.
  pub data Reach : Config → Config → Type 0 where
    start : {c : Config} → Reach c c
    message : {c d : Config} (r : Request) → Reach c d → Reach c (receive e r d).1
    auditd_gone : {c d : Config} → Reach c d → Reach c (record d { pid = 0 })

  -- One of the messages was about trees.
  abbrev pub HasTreeCommand : {c d : Config} → Reach c d → Type 0
  HasTreeCommand start = ⊥
  HasTreeCommand (message r run) = IsTreeCommand r.message ⊎ HasTreeCommand run
  HasTreeCommand (auditd_gone run) = HasTreeCommand run

  -- Once the configuration is locked, it stays so, and no sequence of messages, whoever sends them, with the
  -- losses of the audit daemon between them, changes whether audit is or ever was enabled, what happens on a
  -- failure, the rate limit, the backlog limit or the wait time; and the rules change only where one of the
  -- messages was AUDIT_TRIM or AUDIT_MAKE_EQUIV.
  pub Frozen-Reach :
      {c d : Config}
      → c.enabled ≡ locked
      → (run : Reach c d) → Settled c d × ((d.rules ≡ c.rules) ⊎ HasTreeCommand run)
  Frozen-Reach {c} h start = ((refl, refl, refl, refl, refl, refl), inl refl)
  Frozen-Reach {c} h (message {d = d} r run) =
      let (settled, rules) = Frozen-Reach h run in
      let (settled', rules') = Left-receive r d (settled.0 ∙ h) in
      (
        Settled-trans c d (receive e r d).1 settled settled',
        elim rules [
          | inr before ↦ inr (inr before)
          | inl same ↦ elim rules' [ inl same' ↦ inl (same' ∙ same) | inr now ↦ inr (inl now) ]
        ],
      )
  Frozen-Reach h (auditd_gone run) = Frozen-Reach h run
