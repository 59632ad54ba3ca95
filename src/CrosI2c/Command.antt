-- ===== src/CrosI2c/Command.antt =====
-- `cros_ec_cmd_xfer_i2c`: a command of protocol 2 and its answer.
use doublefetch.Base.{
  ℕ, ◌+◌, ◌%◌, ◌≡◌, ◌≤◌, true, false, none, some, [], ◌∷◌, ◌++◌, Bytes, ℤ, pos, err, enomem, enospc,
  ebadmsg, length, is_zero, get_or, take, drop, overwrite, ltb, ◌==◌, if◌then◌else◌, arith,
  take-append, take_all, ◌∙◌,
}
use doublefetch.Kernel.{Kernel, World, Block, M, pure, ◌>>=◌, ◌>>◌, kmalloc, kfree, call}
use doublefetch.CrosProto.{Msg, Codes}
use doublefetch.CrosProto.Transfer.{check_result}
use doublefetch.CrosProto.Packet.{sum, header_v2, get_or-append_right}
use doublefetch.CrosI2c.{BusCall, I2c, int_size, msg_len, kzalloc, reboot_delay, exchange}

module _ (c : Codes) where
  -- From the response error code on
  unfoldable pub decode : Msg → Bytes → ℤ × Msg
  unfolding overwrite check_result
  decode msg in_buf =
      let len = get_or in_buf 1 0 in
      let got = record msg { result = get_or in_buf 0 0 } in
      let filled = record got { payload = overwrite msg.payload (take len (drop 2 in_buf)) } in
      elim (is_zero (check_result c got)) [
        | false ↦ (check_result c got, got)
        | true ↦ elim (ltb msg.insize len) [
          | true ↦ (err enospc, got)
          | false ↦
              if (sum (take (2 + len) in_buf) % 256) == get_or in_buf (2 + len) 0
              then (pos len, filled)
              else (err ebadmsg, filled)
        ]
      ]

module _ (k : Kernel) (c : Codes) (bus : I2c) (version0 : ℕ) where
  -- The header of three bytes, the data and their sum, in the block of zeros
  abbrev pub request : Msg → Bytes → Bytes
  request msg out =
      let xs = header_v2 version0 msg ++ take msg.outsize msg.payload in
      overwrite out (xs ++ ((sum xs % 256) ∷ []))

  -- With both blocks allocated, up to the label `done`
  abbrev pub transferred : Msg → Block → Block → M BusCall (ℤ × Msg)
  transferred msg b_in b_out =
      exchange bus (take (msg_len (msg.outsize + 4)) (request msg b_out.bytes))
        (msg_len (msg.insize + 3)) b_in.bytes (decode c msg) msg

  -- `cros_ec_cmd_xfer_i2c`
  unfoldable pub cmd_xfer_i2c : Msg → M BusCall (ℤ × Msg)
  unfolding kzalloc kfree reboot_delay exchange decode overwrite
  cmd_xfer_i2c msg = do
    in_buf ← kzalloc k (int_size (msg.insize + 3))
    elim in_buf [
      | none ↦ do reboot_delay (msg.command == c.reboot); pure (err enomem, msg)
      | some b_in ↦ do
        out_buf ← kzalloc k (int_size (msg.outsize + 4))
        elim out_buf [
          | none ↦ do kfree b_in.id; reboot_delay (msg.command == c.reboot); pure (err enomem, msg)
          | some b_out ↦ do
            answer ← transferred msg b_in b_out
            kfree b_in.id
            kfree b_out.id
            reboot_delay (msg.command == c.reboot)
            pure answer
        ]
    ]

  -- Both buffers are freed, whatever fails.
  pub live-cmd_xfer_i2c : (msg : Msg) (w : World BusCall) → (cmd_xfer_i2c msg w).1.live ≡ w.live
  unfolding cmd_xfer_i2c kzalloc kmalloc kfree reboot_delay exchange call
  live-cmd_xfer_i2c msg w = ground arith

module _ (c : Codes) where
  -- An answer of protocol 2: success, the length, the data and the sum of all that.
  abbrev pub answer : Bytes → Bytes
  answer xs = c.success ∷ length xs ∷ xs

  -- An answer that reports success, with data that the message has room for and the sum of its bytes
  -- behind it, is read back: the length of the data is returned, and the data is in the message.
  pub decode-answer :
      (msg : Msg) (xs rest : Bytes)
      → length xs ≤ msg.insize
      → decode c msg (answer xs ++ ((sum (answer xs) % 256) ∷ rest))
        ≡ (pos (length xs), record msg { result = c.success; payload = overwrite msg.payload xs })
  unfolding decode check_result overwrite
  decode-answer msg xs rest h =
      let ck = sum (answer xs) % 256 in
      let held = take-append (length xs) xs (ck ∷ rest) (omega arith) ∙ take_all xs in
      let last = get_or-append_right xs ck rest in ground (arith, held, last)
