-- ===== src/CrosProto/Packet.antt =====
-- `cros_ec_prepare_tx` and `prepare_packet`: a message as the bytes on the wire, with its checksum.
-- EC_MSG_TX_HEADER_BYTES is 3, the three bytes that the code itself stores, and
-- EC_MSG_TX_PROTO_BYTES is those and the checksum.
use doublefetch.Base.{
  ℕ, zero, suc, ◌+◌, ◌-◌, ◌%◌, ◌≡◌, ◌≤◌, ◌<◌, Option, none, some, [], ◌∷◌, ◌++◌, Bytes, length,
  get_or, set, take, overwrite, length-append, length-set, length-overwrite, length-take,
  take-append, take_all, ◌==◌, ltb, ◌||◌, not, if◌then◌else◌, arith, ap, subst, ◌∙◌, sym, refl,
}
use doublefetch.CrosProto.{Msg, Codes, Device}

abbrev pub sum : Bytes → ℕ
sum [] = 0
sum (x ∷ xs) = x + sum xs

pub sum-append : (xs ys : Bytes) → sum (xs ++ ys) ≡ sum xs + sum ys
sum-append [] ys = omega arith
sum-append (x ∷ xs) ys = omega (arith, sum-append xs ys)

sum-set : (xs : Bytes) (i v : ℕ) → i < length xs → sum (set xs i v) + get_or xs i 0 ≡ sum xs + v
sum-set [] i v h = elim h [ ]
sum-set (x ∷ xs) zero v h = omega arith
sum-set (x ∷ xs) (suc i) v h = omega (arith, sum-set xs i v (omega arith))

take-set : (n i v : ℕ) (xs : Bytes) → take n (set xs i v) ≡ set (take n xs) i v
take-set zero i v xs = refl
take-set (suc n) i v [] = refl
take-set (suc n) zero v (x ∷ xs) = refl
take-set (suc n) (suc i) v (x ∷ xs) = ap (λ r. x ∷ r) (take-set n i v xs)

get_or-append : (xs ys : Bytes) (i : ℕ) → i < length xs → get_or (xs ++ ys) i 0 ≡ get_or xs i 0
get_or-append [] ys i h = elim h [ ]
get_or-append (x ∷ xs) ys zero h = refl
get_or-append (x ∷ xs) ys (suc i) h = get_or-append xs ys i (omega arith)

pub get_or-append_right :
    (xs : Bytes) (y : ℕ) (ys : Bytes) → get_or (xs ++ (y ∷ ys)) (length xs) 0 ≡ y
get_or-append_right [] y ys = refl
get_or-append_right (x ∷ xs) y ys = get_or-append_right xs y ys

-- `struct ec_host_request` for a command, a version and a length, with its checksum still 0.
pub record RequestLayout (c : Codes) : Type 0 where
  pub bytes : ℕ → ℕ → ℕ → Bytes
  pub length_bytes : (m v n : ℕ) → length (bytes m v n) ≡ c.request_size
  pub checksum : ℕ
  pub checksum_in : checksum < c.request_size
  pub checksum_zero : (m v n : ℕ) → get_or (bytes m v n) checksum 0 ≡ 0

-- The three bytes in front of the data of a message of protocol 2; `version0` is EC_CMD_VERSION0.
abbrev pub header_v2 : ℕ → Msg → Bytes
header_v2 version0 msg =
    ((version0 + msg.version) % 256) ∷ (msg.command % 256) ∷ (msg.outsize % 256) ∷ []

abbrev pub message_v2 : ℕ → Msg → Bytes
message_v2 version0 msg = header_v2 version0 msg ++ take msg.outsize msg.payload

module _ (c : Codes) (l : RequestLayout c) where
  -- `-csum`, as a byte
  abbrev pub negated : ℕ → ℕ
  negated csum = (256 - csum % 256) % 256

  abbrev pub packet_bytes : Msg → Bytes
  packet_bytes msg = l.bytes msg.command msg.version msg.outsize ++ take msg.outsize msg.payload

  -- The buffer afterwards, and the bytes to send; `none` is a BUG.
  unfoldable pub prepare_packet : Msg → Device → Bytes → Option (ℕ × Bytes)
  unfolding overwrite
  prepare_packet msg d out =
      if not (d.proto_version == c.host_version) || ltb d.dout_size (msg.outsize + c.request_size)
      then none
      else some (
        c.request_size + msg.outsize,
        set (overwrite out (packet_bytes msg)) l.checksum (negated (sum (packet_bytes msg))),
      )

  unfoldable pub prepare_tx : ℕ → Msg → Device → Bytes → Option (ℕ × Bytes)
  unfolding prepare_packet
  prepare_tx version0 msg d out =
      if ltb 2 d.proto_version
      then prepare_packet msg d out
      else if ltb c.proto2_max msg.outsize
      then none
      else some (
        4 + msg.outsize,
        overwrite out (message_v2 version0 msg ++ ((sum (message_v2 version0 msg) % 256) ∷ [])),
      )

  length-packet_bytes :
      (msg : Msg)
      → msg.outsize ≤ length msg.payload
      → length (packet_bytes msg) ≡ c.request_size + msg.outsize
  length-packet_bytes msg h = omega (
    arith,
    length-append (l.bytes msg.command msg.version msg.outsize) (take msg.outsize msg.payload),
    l.length_bytes msg.command msg.version msg.outsize,
    length-take msg.outsize msg.payload,
  )

  take_prefix : (xs out : Bytes) → take (length xs) (overwrite out xs) ≡ xs
  unfolding overwrite
  take_prefix xs out = take-append (length xs) xs _ (omega arith) ∙ take_all xs

  laid_sum :
      (xs out : Bytes) (ck : ℕ)
      → ck < length xs
      → get_or xs ck 0 ≡ 0
      → sum (take (length xs) (set (overwrite out xs) ck (negated (sum xs)))) % 256 ≡ 0
  laid_sum xs out ck h z = omega (
    arith,
    ap sum (take-set (length xs) ck (negated (sum xs)) (overwrite out xs)),
    ap (λ t. sum (set t ck (negated (sum xs)))) (take_prefix xs out),
    sum-set xs ck (negated (sum xs)) h,
  )

  -- A packet of protocol 3 is laid out in the buffer without changing its length, and the bytes that
  -- are sent add up to 0 as a byte, if the message holds its data and the buffer has its stated size.
  pub sum-prepare_packet :
      (msg : Msg) (d : Device) (out out' : Bytes) (n : ℕ)
      → msg.outsize ≤ length msg.payload
      → d.dout_size ≡ length out
      → prepare_packet msg d out ≡ some (n, out')
      → (n ≡ c.request_size + msg.outsize)
        × (n ≤ length out')
        × (length out' ≡ length out)
        × (sum (take n out') % 256 ≡ 0)
  unfolding prepare_packet
  sum-prepare_packet msg d out out' n held size e =
      let len = length-packet_bytes msg held in
      let zeros =
        get_or-append (l.bytes msg.command msg.version msg.outsize) (take msg.outsize msg.payload)
          l.checksum
          (omega (arith, l.checksum_in, l.length_bytes msg.command msg.version msg.outsize))
        ∙ l.checksum_zero msg.command msg.version msg.outsize in
      let inside = l.checksum_in in
      let whole = laid_sum (packet_bytes msg) out l.checksum (omega (arith, len, inside)) zeros in
      ground (
        arith,
        length-set (overwrite out (packet_bytes msg)) l.checksum (negated (sum (packet_bytes msg))),
        length-overwrite out (packet_bytes msg),
      )

  laid_last :
      (xs out : Bytes) (y : ℕ)
      → (take (length xs) (overwrite out (xs ++ (y ∷ []))) ≡ xs)
        × (get_or (overwrite out (xs ++ (y ∷ []))) (length xs) 0 ≡ y)
  unfolding overwrite
  laid_last xs out y = (
    take-append (length xs) (xs ++ (y ∷ [])) _ (omega (arith, length-append xs (y ∷ [])))
        ∙ take-append (length xs) xs (y ∷ []) (omega arith)
        ∙ take_all xs,
    get_or-append (xs ++ (y ∷ [])) _ (length xs) (omega (arith, length-append xs (y ∷ [])))
        ∙ get_or-append_right xs y [],
  )

  laid_v2 :
      (xs out : Bytes) (n : ℕ)
      → length xs ≡ n
      → let done = overwrite out (xs ++ ((sum xs % 256) ∷ [])) in
        (n + 1 ≤ length out → length done ≡ length out)
        × (get_or done n 0 ≡ sum (take n done) % 256)
  laid_v2 xs out n e =
      subst
        (λ m.
          let done = overwrite out (xs ++ ((sum xs % 256) ∷ [])) in
          (m + 1 ≤ length out → length done ≡ length out)
          × (get_or done m 0 ≡ sum (take m done) % 256))
        e
        (
          λ h.
              length-overwrite out (xs ++ ((sum xs % 256) ∷ []))
                (omega (arith, length-append xs ((sum xs % 256) ∷ []))),
          (laid_last xs out (sum xs % 256)).1
              ∙ ap (λ t. sum t % 256) (sym (laid_last xs out (sum xs % 256)).0),
        )

  length-message_v2 :
      (version0 : ℕ) (msg : Msg)
      → msg.outsize ≤ length msg.payload
      → length (message_v2 version0 msg) ≡ 3 + msg.outsize
  length-message_v2 version0 msg h = omega (arith, length-take msg.outsize msg.payload)

  -- A message of protocol 2 is laid out in the buffer without changing its length, and the last byte
  -- that is sent is the sum of those before it, as a byte, if the message holds its data and the
  -- buffer has room for four bytes besides.
  pub sum-prepare_tx :
      (version0 : ℕ) (msg : Msg) (d : Device) (out out' : Bytes) (n : ℕ)
      → d.proto_version ≤ 2
      → msg.outsize ≤ length msg.payload
      → c.proto2_max + 4 ≤ length out
      → prepare_tx version0 msg d out ≡ some (n, out')
      → (n ≡ 4 + msg.outsize)
        × (n ≤ length out')
        × (length out' ≡ length out)
        × (get_or out' (3 + msg.outsize) 0 ≡ sum (take (3 + msg.outsize) out') % 256)
  unfolding prepare_tx
  sum-prepare_tx version0 msg d out out' n two held room e = ground (
    arith,
    laid_v2 (message_v2 version0 msg) out (3 + msg.outsize) (length-message_v2 version0 msg held),
  )
