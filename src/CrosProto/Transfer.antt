-- ===== src/CrosProto/Transfer.antt =====
-- `send_command`, `cros_ec_check_result` and the polling of a controller that is busy.
use doublefetch.Base.{
  ℕ, zero, suc, ◌+◌, ◌≡◌, ◌≢◌, ◌≤◌, ◌⊎◌, inl, inr, true, false, none, some, ◌∷◌, Bytes, ℤ, pos, err,
  is_neg, enomem, eagain, if◌then◌else◌, ◌==◌, ltb, arith, Bool-cases, Option-cases, subst, sym,
}
use doublefetch.Kernel.{Kernel, remove}
use doublefetch.CrosProto.{Msg, Codes, Device, Bus}

-- what a call leaves: its result, the message, the device
abbrev pub Reply : Type 0
Reply = ℤ × Msg × Device

abbrev pub retries : ℕ
retries = 50

module _ (c : Codes) where
  unfoldable pub check_result : Msg → ℤ
  check_result msg =
      if msg.result == c.success
      then pos 0
      else if msg.result == c.in_progress
      then err eagain
      else pos 0

module _ (c : Codes) (bus : Bus) where
  abbrev pub handed : Device → Msg → Device
  handed d m = record d { clock = d.clock + 1; sent = m ∷ d.sent }

  -- The loop of status queries, with the rounds left: the controller is asked until it is no longer
  -- busy, or an error is met.
  unfoldable pub poll : ℕ → ℤ → Msg → Msg → Device → Reply
  poll zero ret msg status d = (ret, msg, d)
  poll (suc n) ret msg status d =
      let (r, answer) = bus.cmd_xfer d.clock status in
      let copied = record msg { result = answer.result } in
      elim (is_neg r) [
        | true ↦ (r, msg, handed d status)
        | false ↦ elim (answer.result == c.success) [
          | false ↦ (r, copied, handed d status)
          | true ↦ elim (c.is_processing answer.payload) [
            | false ↦ (r, copied, handed d status)
            | true ↦ poll n r copied answer (handed d status)
          ]
        ]
      ]

  abbrev pub first_transfer : Msg → Device → ℤ × Msg
  first_transfer msg d =
      if ltb 2 d.proto_version then bus.pkt_xfer d.clock msg else bus.cmd_xfer d.clock msg

  abbrev pub status_msg : Bytes → Msg
  status_msg payload = record {
    version = 0;
    command = c.get_comms_status;
    outsize = 0;
    insize = c.status_size;
    result = 0;
    payload = payload;
  }

  module _ (k : Kernel) (header : ℕ) where
    -- `header` is the size of a message without its data.
    unfoldable pub send_command : Msg → Device → Reply
    send_command msg d =
        let (ret, answer) = first_transfer msg d in
        let asked = handed d msg in
        elim (answer.result == c.in_progress) [
          | false ↦ (ret, answer, asked)
          | true ↦ elim (k.fresh asked.clock (header + c.status_size)) [
            | none ↦ (err enomem, answer, asked)
            | some b ↦
                let (r, m, d') =
                  poll retries ret answer (status_msg b)
                    (record asked { clock = asked.clock + 1; live = asked.clock ∷ asked.live }) in
                (r, m, record d' { live = remove asked.clock d'.live })
          ]
        ]

  -- What is left unchanged by the bus: all of the device but the time and the log.
  pub record IsSame (d d' : Device) : Type 0 where
    pub locked : d'.locked ≡ d.locked
    pub live : d'.live ≡ d.live
    pub proto_version : d'.proto_version ≡ d.proto_version
    pub max_request : d'.max_request ≡ d.max_request
    pub max_response : d'.max_response ≡ d.max_response
    pub max_passthru : d'.max_passthru ≡ d.max_passthru
    pub has_pkt : d'.has_pkt ≡ d.has_pkt
    pub din_size : d'.din_size ≡ d.din_size
    pub dout_size : d'.dout_size ≡ d.dout_size
    pub dout : d'.dout ≡ d.dout
    pub din : d'.din ≡ d.din

  pub poll-IsSame :
      (n : ℕ) (ret : ℤ) (msg status : Msg) (d : Device) → IsSame d (poll n ret msg status d).2
  unfolding poll
  poll-IsSame zero ret msg status d = ground arith
  poll-IsSame (suc n) ret msg status d =
      let (r, answer) = bus.cmd_xfer d.clock status in
      ground
        (arith, poll-IsSame n r (record msg { result = answer.result }) answer (handed d status))

  poll_busy :
      (n : ℕ) (ret : ℤ) (msg status : Msg) (d : Device)
      → is_neg (bus.cmd_xfer d.clock status).0 ≡ false
      → ((bus.cmd_xfer d.clock status).1.result == c.success) ≡ true
      → c.is_processing (bus.cmd_xfer d.clock status).1.payload ≡ true
      → poll (suc n) ret msg status d
        ≡ poll n
            (bus.cmd_xfer d.clock status).0
            (record msg { result = (bus.cmd_xfer d.clock status).1.result })
            (bus.cmd_xfer d.clock status).1
            (handed d status)
  unfolding poll
  poll_busy n ret msg status d fine good busy = ground arith

  -- The polling stopped at the time `last`, or at most then and by its own test: the bus failed, or
  -- the result in the message is not success, or the last answer says that the controller is done.
  abbrev pub Ended : ℕ → Reply → Type 0
  Ended last (r, m, d') =
      (d'.clock ≡ last)
      ⊎ ((d'.clock ≤ last)
          × ((is_neg r ≡ true)
              ⊎ (m.result ≢ c.success)
              ⊎ ((t : ℕ) × (s : Msg) × (d'.clock ≡ t + 1)
                  × (c.is_processing (bus.cmd_xfer t s).1.payload ≡ false))))

  -- The polling makes at most as many queries as there are rounds; and when it makes fewer, it ended
  -- by its own test: the bus failed, or the result in the message is not success, or the last answer
  -- says that the controller is done.
  pub poll_ends :
      (n : ℕ) (ret : ℤ) (msg status : Msg) (d : Device)
      → Ended (d.clock + n) (poll n ret msg status d)
  unfolding poll
  poll_ends zero ret msg status d = inl (omega arith)
  poll_ends (suc n) ret msg status d = elim (Bool-cases (is_neg r)) [
    | inl bad ↦ inr (ground arith, inl (ground arith))
    | inr fine ↦ elim (Bool-cases (answer.result == c.success)) [
      | inr other ↦ inr (ground arith, inr (inl (ground arith)))
      | inl good ↦ elim (Bool-cases (c.is_processing answer.payload)) [
        | inr done ↦ inr (ground arith, inr (inr (d.clock, status, ground arith, done)))
        | inl busy ↦
            let rest = poll n r (record msg { result = answer.result }) answer (handed d status) in
            subst (Ended (d.clock + suc n)) (sym (poll_busy n ret msg status d fine good busy)) (
              later rest
                (poll_ends n r (record msg { result = answer.result }) answer (handed d status)))
      ]
    ]
  ]
    where
      r : ℤ
      r = (bus.cmd_xfer d.clock status).0

      answer : Msg
      answer = (bus.cmd_xfer d.clock status).1

      later : (q : Reply) → Ended (d.clock + 1 + n) q → Ended (d.clock + suc n) q
      later q e = subst (λ t. Ended t q) (omega arith) e

  module _ (k : Kernel) (header : ℕ) where
    -- Sending a command keeps the lock, the memory, the protocol and the sizes of the device.
    pub send_command-IsSame : (msg : Msg) (d : Device) → IsSame d (send_command k header msg d).2
    unfolding send_command
    send_command-IsSame msg d =
        let (ret, answer) = first_transfer msg d in
        let asked = handed d msg in
        elim (Option-cases (k.fresh asked.clock (header + c.status_size))) [
          | inl e ↦ ground arith
          | inr (b, e) ↦ ground (
            arith,
            poll-IsSame retries ret answer (status_msg b)
                (record asked { clock = asked.clock + 1; live = asked.clock ∷ asked.live }),
          )
        ]
