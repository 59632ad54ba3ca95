-- ===== src/CrosProto/Query.antt =====
-- Finding out which protocol the controller speaks, and with which sizes: `cros_ec_query_all`.
use doublefetch.Base.{
  ℕ, ◌+◌, ◌-◌, ◌%◌, true, false, none, some, ◌∷◌, Bytes, ℤ, pos, err, is_neg, is_zero, enomem,
  eprotonosupport, enodev, ebadmsg, if◌then◌else◌, ◌==◌, ltb, ◌&&◌, replicate, min, max, length,
  overwrite,
}
use doublefetch.Kernel.{Kernel, remove}
use doublefetch.CrosProto.{Msg, Codes, Device, Bus}
use doublefetch.CrosProto.Transfer.{Reply, send_command}

module _ (c : Codes) (bus : Bus) (k : Kernel) (header : ℕ) where
  abbrev pub query_msg : ℕ → Bytes → Msg
  query_msg devidx payload = record {
    version = 0;
    command = c.passthru devidx c.get_protocol_info;
    outsize = 0;
    insize = c.info_size;
    result = 0;
    payload = payload;
  }

  -- the result of a query that was answered
  abbrev pub query_result : ℕ → ℤ → Msg → ℤ
  query_result devidx ret m =
      if is_neg ret
      then ret
      else if ltb 0 devidx && (m.result == c.invalid_command)
      then err enodev
      else if m.result == c.success
      then pos 0
      else pos m.result

  unfoldable pub proto_query : ℕ → Msg → Device → Reply
  proto_query devidx msg d = elim d.has_pkt [
    | false ↦ (err eprotonosupport, msg, d)
    | true ↦
        let (ret, m, d') = send_command c bus k header (query_msg devidx msg.payload) d in
        (query_result devidx ret m, m, d')
  ]

  abbrev pub hello_msg : Bytes → Msg
  hello_msg payload = record {
    version = 0;
    command = c.hello;
    outsize = length c.hello_params;
    insize = c.hello_size;
    result = 0;
    payload = overwrite payload c.hello_params;
  }

  abbrev pub hello_result : ℤ → Msg → ℤ
  hello_result ret m =
      if is_neg ret
      then ret
      else if m.result == c.success
      then if c.hello_good m.payload then pos 0 else err ebadmsg
      else pos m.result

  unfoldable pub proto_query_v2 : Device → ℤ × Device
  proto_query_v2 d = elim (k.fresh d.clock (header + max (length c.hello_params) c.hello_size)) [
    | none ↦ (err enomem, record d { clock = d.clock + 1 })
    | some b ↦
        let (ret, m, d') =
          send_command c bus k header (hello_msg b)
            (record d { clock = d.clock + 1; live = d.clock ∷ d.live }) in
        (hello_result ret m, record d' { live = remove d.clock d'.live })
  ]

  -- `a - b` in the fields that keep a size
  abbrev pub sub_size : ℕ → ℕ → ℕ
  sub_size a b = (a + c.word - b) % c.word

  -- the sizes that the controller states
  abbrev pub stated : Bytes → Device → Device
  stated info d = record d {
    max_request = sub_size (c.info_request info) c.request_size;
    max_response = sub_size (c.info_response info) c.response_size;
    proto_version = min c.host_version (c.info_highest info);
    din_size =
        sub_size (c.info_response info) c.response_size + c.response_size + c.response_overhead;
    dout_size = sub_size (c.info_request info) c.request_size + c.request_size + c.request_overhead;
  }

  -- Protocol 3 is spoken: its sizes, and those of a second controller behind it.
  unfoldable pub speak_v3 : Msg → Device → ℤ × Device
  unfolding proto_query
  speak_v3 msg d =
      let (ret, m, d') = proto_query 1 msg (stated msg.payload d) in
      (
        ret,
        record d' {
          max_passthru =
              if is_zero ret then sub_size (c.info_request m.payload) c.request_size else 0;
        },
      )

  abbrev pub sizes_v2 : Device → Device
  sizes_v2 d = record d {
    max_request = c.proto2_max;
    max_response = c.proto2_max;
    max_passthru = 0;
    has_pkt = false;
    din_size = c.msg_bytes;
    dout_size = c.msg_bytes;
  }

  -- The buffers are freed and allocated anew, with the sizes that were found. A pointer that was freed stays
  -- in the device until another is stored: the one of `dout` where there is no memory for `din`, and that of
  -- the new `din` where there is none for `dout`.
  unfoldable pub new_buffers : ℤ → Device → ℤ × Device
  new_buffers ret d = elim (k.fresh d.clock d.din_size) [
    | none ↦ (err enomem, record d { clock = d.clock + 1; din = none })
    | some b ↦ elim (k.fresh (d.clock + 1) d.dout_size) [
      | none ↦ (
        err enomem,
        record d { clock = d.clock + 1 + 1; din = some (replicate d.din_size 0); dout = none },
      )
      | some b' ↦ (
        ret,
        record d {
          clock = d.clock + 1 + 1;
          din = some (replicate d.din_size 0);
          dout = some (replicate d.dout_size 0);
        },
      )
    ]
  ]

  unfoldable pub speak_v2 : Device → ℤ × Device
  unfolding proto_query_v2 new_buffers
  speak_v2 d =
      let (ret, d') = proto_query_v2 (record d { proto_version = 2 }) in
      elim (is_zero ret) [
        | true ↦ new_buffers ret (sizes_v2 d')
        | false ↦ (ret, record d' { proto_version = c.unknown_version })
      ]

  -- from the first query on
  unfoldable pub query_with : Msg → Device → ℤ × Device
  unfolding proto_query speak_v2 speak_v3
  query_with msg d =
      let (ret, m, d') = proto_query 0 msg (record d { proto_version = 3 }) in
      elim (is_zero ret) [
        | true ↦ let (ret', d'') = speak_v3 m d' in new_buffers ret' d''
        | false ↦ speak_v2 d'
      ]

  abbrev pub zero_msg : Msg
  zero_msg = record {
    version = 0;
    command = 0;
    outsize = 0;
    insize = 0;
    result = 0;
    payload = replicate c.info_size 0;
  }

  unfoldable pub query_all : Device → ℤ × Device
  unfolding query_with
  query_all d = elim (k.fresh d.clock (header + c.info_size)) [
    | none ↦ (err enomem, record d { clock = d.clock + 1 })
    | some b ↦
        let (ret, d') =
          query_with zero_msg (record d { clock = d.clock + 1; live = d.clock ∷ d.live }) in
        (ret, record d' { live = remove d.clock d'.live })
  ]
