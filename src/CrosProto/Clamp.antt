-- ===== src/CrosProto/Clamp.antt =====
-- `cros_ec_cmd_xfer`: what goes to the bus is within the sizes that the controller stated.
use doublefetch.Base.{
  ℕ, ◌+◌, ◌≡◌, ◌≤◌, ◌<◌, true, false, List, [], ◌∷◌, ℤ, err, is_zero, emsgsize, if◌then◌else◌, ◌==◌,
  ltb, arith, Bool-cases, Option-cases, zero, suc, inl, inr,
}
use doublefetch.Kernel.{Kernel}
use doublefetch.CrosProto.{Msg, Codes, Device, Bus}
use doublefetch.CrosProto.Transfer.{
  Reply, send_command, poll, handed, first_transfer, status_msg, retries,
}
use doublefetch.CrosProto.Query.{query_all}

module _ (c : Codes) (bus : Bus) (k : Kernel) (header : ℕ) where
  -- the largest request, for the controller that the command goes to
  abbrev pub room : Msg → Device → ℕ
  room msg d = if ltb msg.command c.passthru_start then d.max_request else d.max_passthru

  abbrev pub clamped : Msg → Device → Msg
  clamped msg d =
      if ltb d.max_response msg.insize then record msg { insize = d.max_response } else msg

  -- the protocol is known
  unfoldable pub transfer : Msg → Device → Reply
  unfolding send_command
  transfer msg d = elim (ltb (room msg d) msg.outsize) [
    | true ↦ (err emsgsize, clamped msg d, record d { locked = false })
    | false ↦
        let (ret, m, d') = send_command c bus k header (clamped msg d) d in
        (ret, m, record d' { locked = false })
  ]

  unfoldable pub cmd_xfer : Msg → Device → Reply
  unfolding transfer query_all
  cmd_xfer msg d = elim (d.proto_version == c.unknown_version) [
    | false ↦ transfer msg (record d { locked = true })
    | true ↦
        let (ret, d') = query_all c bus k header (record d { locked = true }) in
        elim (is_zero ret) [
          | false ↦ (ret, msg, record d' { locked = false })
          | true ↦ transfer msg d'
        ]
  ]

  -- Every way out of `cros_ec_cmd_xfer` releases the lock.
  pub locked-cmd_xfer : (msg : Msg) (d : Device) → (cmd_xfer msg d).2.locked ≡ false
  unfolding cmd_xfer
  locked-cmd_xfer msg d = ground arith

  -- With a known protocol, a request that is larger than the controller takes fails with EMSGSIZE
  -- and nothing is sent.
  pub cmd_xfer-too_big :
      (msg : Msg) (d : Device)
      → (d.proto_version == c.unknown_version) ≡ false
      → room msg d < msg.outsize
      → ((cmd_xfer msg d).0 ≡ err emsgsize) × ((cmd_xfer msg d).2.sent ≡ d.sent)
  unfolding cmd_xfer
  cmd_xfer-too_big msg d known big = ground arith

  abbrev pub AllSmall : ℕ → List Msg → Type 0
  AllSmall limit [] = Unit
  AllSmall limit (m ∷ ms) = (m.outsize ≤ limit) × AllSmall limit ms

  small-poll :
      (limit n : ℕ) (ret : ℤ) (msg status : Msg) (d : Device)
      → status.outsize ≤ limit
      → AllSmall limit d.sent
      → AllSmall limit (poll c bus n ret msg status d).2.sent
  unfolding poll
  small-poll limit zero ret msg status d le old = old
  small-poll limit (suc n) ret msg status d le old =
      let (r, answer) = bus.cmd_xfer d.clock status in
      ground (
        arith,
        bus.outsize_kept d.clock status,
        small-poll limit n r (record msg { result = answer.result }) answer (handed c bus d status),
      )

  small-send_command :
      (limit : ℕ) (msg : Msg) (d : Device)
      → msg.outsize ≤ limit
      → AllSmall limit d.sent
      → AllSmall limit (send_command c bus k header msg d).2.sent
  unfolding send_command
  small-send_command limit msg d le old =
      elim (Bool-cases ((first_transfer c bus msg d).1.result == c.in_progress)) [
        | inr e ↦ rw (AllSmall, e) (le, old)
        | inl e ↦ elim (Option-cases (k.fresh (d.clock + 1) (header + c.status_size))) [
          | inl e2 ↦ rw (AllSmall, e, e2) (le, old)
          | inr (b, e2) ↦
              rw (AllSmall, e, e2)
                (small-poll limit retries (first_transfer c bus msg d).0
                  (first_transfer c bus msg d).1 (status_msg c bus b)
                  (record (handed c bus d msg) {
                    clock = d.clock + 1 + 1;
                    live = (d.clock + 1) ∷ d.live;
                  })
                  (omega arith) (le, old))
        ]
      ]

  -- With a known protocol, nothing is sent, neither the command nor a status query, whose data are
  -- larger than the controller that the command goes to can take.
  pub small-cmd_xfer :
      (msg : Msg) (d : Device)
      → (d.proto_version == c.unknown_version) ≡ false
      → AllSmall (room msg d) d.sent
      → AllSmall (room msg d) (cmd_xfer msg d).2.sent
  unfolding cmd_xfer
  small-cmd_xfer msg d known old = elim (Bool-cases (ltb (room msg d) msg.outsize)) [
    | inl big ↦ rw (AllSmall, known, big) old
    | inr fine ↦
        rw (AllSmall, known, fine)
          (small-send_command (room msg d) (clamped msg d) (record d { locked = true })
            (ground arith) old)
  ]

  -- With a known protocol, the answer that is asked for is never larger than the controller's largest
  -- response: that is what the first message of a command that is sent asks for.
  pub clamped-cmd_xfer :
      (msg : Msg) (d : Device)
      → (d.proto_version == c.unknown_version) ≡ false
      → msg.outsize ≤ room msg d
      → ((cmd_xfer msg d).0
          ≡ (send_command c bus k header (clamped msg d) (record d { locked = true })).0)
        × ((clamped msg d).insize ≤ d.max_response)
        × ((clamped msg d).insize ≤ msg.insize)
        × ((clamped msg d).outsize ≡ msg.outsize)
  unfolding cmd_xfer
  clamped-cmd_xfer msg d known le = ground arith
