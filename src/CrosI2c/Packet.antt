-- ===== src/CrosI2c/Packet.antt =====
-- `cros_ec_pkt_xfer_i2c`: a packet of protocol 3 and its answer.
use doublefetch.Base.{
  ℕ, ◌+◌, ◌%◌, ◌≡◌, ◌≤◌, Option, none, some, ◌∷◌, Bytes, ℤ, pos, err, eagain, ebadmsg, emsgsize,
  eprotonosupport, length, get_or, take, drop, overwrite, length-overwrite, length-take, ltb, ◌==◌,
  ◌&&◌, ◌||◌, if◌then◌else◌, arith, Field,
}
use doublefetch.Kernel.{World, pure, ◌>>=◌, ◌>>◌}
use doublefetch.CrosProto.{Msg, Codes, Device}
use doublefetch.CrosProto.Packet.{sum, prepare_tx, RequestLayout}
use doublefetch.CrosI2c.{BusCall, I2c, is_over, msg_len, reboot_delay, exchange}

module _ (c : Codes) (data_len : Field c.response_size) where
  -- `struct ec_host_response_i2c`: the result and the length in front of `struct ec_host_response`
  abbrev response_header_size : ℕ
  response_header_size = c.response_size + 2

  -- The header of the response, inside the buffer
  abbrev pub ec_response : Bytes → Bytes
  ec_response in_buf = take c.response_size (drop 2 in_buf)

  -- From the test of the length of the packet on
  unfoldable pub decode_data : Msg → Bytes → ℤ × Msg
  unfolding overwrite
  decode_data msg in_buf =
      let len = data_len.read (ec_response in_buf) in
      let received = take len (drop response_header_size in_buf) in
      let filled = record msg { payload = overwrite msg.payload received } in
      if ltb (get_or in_buf 1 0) c.response_size
      then (err ebadmsg, msg)
      else if ltb msg.insize len
      then (err emsgsize, msg)
      else if ((sum (ec_response in_buf) + sum (take len filled.payload)) % 256) == 0
      then (pos len, filled)
      else (err ebadmsg, filled)

  -- From the result on
  unfoldable pub decode_packet : Msg → Bytes → ℤ × Msg
  unfolding decode_data
  decode_packet msg in_buf =
      let got = record msg { result = get_or in_buf 0 0 } in
      if got.result == c.success
      then decode_data got in_buf
      else if got.result == c.in_progress
      then (err eagain, got)
      else if (got.result == c.invalid_command) && (get_or in_buf 1 0 == 0)
      then (err eprotonosupport, got)
      else decode_data got in_buf

  module _ (l : RequestLayout c) (bus : I2c) (version0 : ℕ) where
    -- EC_COMMAND_PROTOCOL_3 is 0xda. The packet is laid out from the second byte on.
    unfoldable pub packet : Msg → Device → Bytes → Option Bytes
    unfolding prepare_tx
    packet msg d out = elim (prepare_tx c l version0 msg d (drop 1 out)) [
      | none ↦ none
      | some (n, laid) ↦ some (0xda ∷ laid)
    ]

    -- `cros_ec_pkt_xfer_i2c`, with the contents of the buffers `dout` and `din` of the device; what they
    -- hold afterwards is not kept. `none` is a BUG.
    unfoldable pub pkt_xfer_i2c :
        Msg → Device → Bytes → Bytes → World BusCall → Option ((ℤ × Msg) × World BusCall)
    unfolding packet exchange reboot_delay decode_packet
    pkt_xfer_i2c msg d out din w =
        if is_over (msg.insize + response_header_size) d.din_size
          || is_over (msg.outsize + c.request_size + 1) d.dout_size
        then none
        else elim (packet msg d out) [
          | none ↦ none
          | some bytes ↦ some (
              (do
                answer ←
                    exchange bus (take (msg_len (msg.outsize + c.request_size + 1)) bytes)
                      (msg_len (msg.insize + response_header_size)) din (decode_packet msg) msg
                reboot_delay (msg.command == c.reboot)
                pure answer)
                w)
        ]

  -- A length that is returned is the one in the header of the response; it is within the message's
  -- stated size, and the header and the data that was copied add up to 0 as a byte. The buffer of the
  -- message keeps its length, if it is of the stated size at least.
  pub decode_packet-sum :
      (msg : Msg) (in_buf : Bytes) (n : ℕ)
      → msg.insize ≤ length msg.payload
      → (decode_packet msg in_buf).0 ≡ pos n
      → (n ≡ data_len.read (ec_response in_buf))
        × (n ≤ msg.insize)
        × (length (decode_packet msg in_buf).1.payload ≡ length msg.payload)
        × ((sum (ec_response in_buf) + sum (take n (decode_packet msg in_buf).1.payload)) % 256 ≡ 0)
  unfolding decode_packet decode_data
  decode_packet-sum msg in_buf n room e =
      let len = data_len.read (ec_response in_buf) in
      let got = take len (drop response_header_size in_buf) in
      ground (
        arith,
        length-overwrite msg.payload got,
        length-take len (drop response_header_size in_buf),
      )
