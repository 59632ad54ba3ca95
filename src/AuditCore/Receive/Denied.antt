-- ===== src/AuditCore/Receive/Denied.antt =====
-- The senders that `audit_netlink_ok` turns away.
use doublefetch.Base.{
  ℕ, ◌≡◌, Bool, true, false, is_zero, is_pos, arith, Bool-cases, inl, inr, refl, not, ◌==◌, ◌&&◌,
  ◌⊎◌,
}
use doublefetch.AuditCore.{AuditEnv, Config, Entry, off}
use doublefetch.AuditCore.Receive.{
  Message, get, set, get_feature, set_feature_of, user, change_rule, list_rules, trim, make_equiv,
  signal_info, tty_get, tty_set, obsolete, unknown, Request, netlink_ok, dispatch, receive,
  may_command, permission, IsUser, receive_user, log_command,
}

denied : (r : Request) → r.may_control ≡ false → is_zero (may_command r) ≡ false
denied r h = elim (Bool-cases r.is_init_pid_ns) [ inl a ↦ ground arith | inr a ↦ ground arith ]

-- Without the first capability the only message allowed is one of the user, with the second.
permission-denied :
    (r : Request) (m : Message)
    → r.may_control ≡ false
    → (is_zero (permission r m) ≡ false) ⊎ ((r.may_write ≡ true) × IsUser m)
unfolding permission
permission-denied r get h = inl (denied r h)
permission-denied r (set s) h = inl (denied r h)
permission-denied r get_feature h = inl (denied r h)
permission-denied r (set_feature_of qs) h = inl (denied r h)
permission-denied r (change_rule is_short) h = inl (denied r h)
permission-denied r list_rules h = inl (denied r h)
permission-denied r trim h = inl (denied r h)
permission-denied r (make_equiv is_short) h = inl (denied r h)
permission-denied r signal_info h = inl (denied r h)
permission-denied r tty_get h = inl (denied r h)
permission-denied r (tty_set on log_passwd) h = inl (denied r h)
permission-denied r (user type is_avc is_tty) h = elim (Bool-cases r.may_write) [
  | inl a ↦ inr (a, tt)
  | inr a ↦ inl (ground arith)
]
permission-denied r obsolete h = inl refl
permission-denied r unknown h = inl refl

-- Of all variables, only the log, the time and the thread that sends it
abbrev pub OnlyLogged : Config → Config → Type 0
OnlyLogged c d = d ≡ record c { clock = d.clock; log = d.log; has_kauditd = d.has_kauditd }

module _ (e : AuditEnv) where
  OnlyLogged-log_command :
      (is_avc : Bool) (x : Entry) (c : Config) → OnlyLogged c (log_command e is_avc x c)
  OnlyLogged-log_command is_avc x c = elim (Bool-cases ((c.enabled == off) && not is_avc)) [
    | inl a ↦ ground arith
    | inr a ↦ elim (Bool-cases (e.has_record c.clock)) [
      | inl b ↦ ground arith
      | inr b ↦ ground arith
    ]
  ]

  OnlyLogged-receive_user :
      (r : Request) (type : ℕ) (is_avc is_tty : Bool) (c : Config)
      → OnlyLogged c (receive_user e r type is_avc is_tty c).1
  unfolding receive_user
  OnlyLogged-receive_user r type is_avc is_tty c =
      let f = OnlyLogged-log_command is_avc (Entry.user_message type) c in
      elim (Bool-cases ((c.enabled == off) && not is_avc)) [
        | inl a ↦ ground arith
        | inr a ↦ elim (Bool-cases (not (is_pos 1 r.filter_user))) [
          | inl b ↦ ground arith
          | inr b ↦ elim (Bool-cases (is_tty && not (is_zero r.tty_push))) [
            | inl d ↦ ground arith
            | inr d ↦ ground arith
          ]
        ]
      ]

  OnlyLogged-dispatch :
      (r : Request) (m : Message) (c : Config) → IsUser m → OnlyLogged c (dispatch e r m c).1
  unfolding dispatch
  OnlyLogged-dispatch r get c h = elim h [ ]
  OnlyLogged-dispatch r (set s) c h = elim h [ ]
  OnlyLogged-dispatch r get_feature c h = elim h [ ]
  OnlyLogged-dispatch r (set_feature_of qs) c h = elim h [ ]
  OnlyLogged-dispatch r (change_rule is_short) c h = elim h [ ]
  OnlyLogged-dispatch r list_rules c h = elim h [ ]
  OnlyLogged-dispatch r trim c h = elim h [ ]
  OnlyLogged-dispatch r (make_equiv is_short) c h = elim h [ ]
  OnlyLogged-dispatch r signal_info c h = elim h [ ]
  OnlyLogged-dispatch r tty_get c h = elim h [ ]
  OnlyLogged-dispatch r (tty_set on log_passwd) c h = elim h [ ]
  OnlyLogged-dispatch r obsolete c h = elim h [ ]
  OnlyLogged-dispatch r unknown c h = elim h [ ]
  OnlyLogged-dispatch r (user type is_avc is_tty) c h =
      OnlyLogged-receive_user r type is_avc is_tty c

  -- Of a sender without CAP_AUDIT_CONTROL, a message changes no setting, no feature, no rule, no tree and not
  -- the daemon, but at most the log; and without CAP_AUDIT_WRITE too it changes nothing, and is refused.
  pub receive_denied :
      (r : Request) (c : Config)
      → r.may_control ≡ false
      → let (ret, d) = receive e r c in
        OnlyLogged c d × ((r.may_write ≡ true) ⊎ ((d ≡ c) × (is_zero ret ≡ false)))
  unfolding receive netlink_ok
  receive_denied r c h = elim (Bool-cases (is_zero (netlink_ok r))) [
    | inr a ↦ (ground arith, inr (ground arith, ground arith))
    | inl a ↦ elim (permission-denied r r.message h) [
      | inl no_way ↦ absurd (ground arith)
      | inr (may, is_user) ↦
          (let f = OnlyLogged-dispatch r r.message (record c { has_kauditd = true }) is_user in
            elim (Bool-cases (not c.has_kauditd && not (is_zero r.kthread))) [
              | inl b ↦ (ground arith, inl may)
              | inr b ↦ (ground arith, inl may)
            ])
    ]
  ]
