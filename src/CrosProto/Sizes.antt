-- ===== src/CrosProto/Sizes.antt =====
-- What `cros_ec_query_all` leaves: a protocol with buffers that hold its largest packets.
use doublefetch.Base.{
  ℕ, ◌+◌, ◌≡◌, ◌≤◌, ◌⊎◌, ◌∷◌, true, false, some, Bytes, ℤ, is_zero, replicate, arith, Bool-cases,
  inl, inr, Option-cases,
}
use doublefetch.Kernel.{Kernel}
use doublefetch.CrosProto.{Msg, Codes, Device, Bus}
use doublefetch.CrosProto.Transfer.{IsSame, send_command-IsSame}
use doublefetch.CrosProto.Query.{
  proto_query, speak_v2, speak_v3, new_buffers, query_with, query_all, zero_msg, stated, query_msg,
}

-- The buffers have the sizes kept beside them, which hold the largest request and response with the
-- `request` and `response` bytes around them.
pub record HasBuffers (request response : ℕ) (d : Device) : Type 0 where
  pub din_held : d.din ≡ some (replicate d.din_size 0)
  pub dout_held : d.dout ≡ some (replicate d.dout_size 0)
  pub response_fits : d.max_response + response ≤ d.din_size
  pub request_fits : d.max_request + request ≤ d.dout_size

module _ (c : Codes) (bus : Bus) (k : Kernel) (header : ℕ) where
  held-new_buffers :
      (ret : ℤ) (d : Device) (rq rs : ℕ)
      → d.max_response + rs ≤ d.din_size
      → d.max_request + rq ≤ d.dout_size
      → is_zero (new_buffers c bus k header ret d).0 ≡ true
      → HasBuffers rq rs (new_buffers c bus k header ret d).1
  unfolding new_buffers
  held-new_buffers ret d rq rs h1 h2 e = ground arith

  proto_query-IsSame :
      (i : ℕ) (msg : Msg) (d : Device) → IsSame c bus d (proto_query c bus k header i msg d).2
  unfolding proto_query
  proto_query-IsSame i msg d =
      ground (arith, send_command-IsSame c bus k header (query_msg c bus k header i msg.payload) d)

  -- The buffers suit protocol 3, or protocol 2 with `n` bytes around its data.
  abbrev pub Suits : ℕ → Device → Type 0
  Suits n d = HasBuffers c.request_size c.response_size d ⊎ ((d.has_pkt ≡ false) × HasBuffers n n d)

  sizes-speak_v3 :
      (msg : Msg) (d : Device)
      → let (ret, d') = speak_v3 c bus k header msg d in
        (d'.max_response + c.response_size ≤ d'.din_size)
        × (d'.max_request + c.request_size ≤ d'.dout_size)
  unfolding speak_v3
  sizes-speak_v3 msg d =
      let same = proto_query-IsSame 1 msg (stated c bus k header msg.payload d) in omega arith

  full-new_buffers :
      (ret : ℤ) (d : Device) (b b' : Bytes)
      → k.fresh d.clock d.din_size ≡ some b
      → k.fresh (d.clock + 1) d.dout_size ≡ some b'
      → new_buffers c bus k header ret d ≡ (
        ret,
        record d {
          clock = d.clock + 1 + 1;
          din = some (replicate d.din_size 0);
          dout = some (replicate d.dout_size 0);
        },
      )
  unfolding new_buffers
  full-new_buffers ret d b b' f f' = ground arith

  held-speak_v3 :
      (msg : Msg) (d : Device)
      → let (ret, d') = speak_v3 c bus k header msg d in
        is_zero (new_buffers c bus k header ret d').0 ≡ true
        → HasBuffers c.request_size c.response_size (new_buffers c bus k header ret d').1
  held-speak_v3 msg d e =
      let (ret, d') = speak_v3 c bus k header msg d in
      let (rs, rq) = sizes-speak_v3 msg d in
      held-new_buffers ret d' c.request_size c.response_size rs rq e

  held-speak_v2 :
      (n : ℕ) (d : Device)
      → c.proto2_max + n ≤ c.msg_bytes
      → is_zero (speak_v2 c bus k header d).0 ≡ true
      → ((speak_v2 c bus k header d).1.has_pkt ≡ false)
        × HasBuffers n n (speak_v2 c bus k header d).1
  unfolding speak_v2 new_buffers
  held-speak_v2 n d h e = ground arith

  held-query_with :
      (n : ℕ) (msg : Msg) (d : Device)
      → c.proto2_max + n ≤ c.msg_bytes
      → is_zero (query_with c bus k header msg d).0 ≡ true
      → Suits n (query_with c bus k header msg d).1
  unfolding query_with
  held-query_with n msg d h e =
      let (ret, m, d') = proto_query c bus k header 0 msg (record d { proto_version = 3 }) in
      elim (Bool-cases (is_zero ret)) [
        | inl three ↦ inl (ground (arith, held-speak_v3 m d'))
        | inr two ↦ inr (ground (arith, held-speak_v2 n d' h))
      ]

  -- If `cros_ec_query_all` returns 0, both buffers are allocated anew and hold the largest request and
  -- response that were found: with the headers of protocol 3, or, where the controller speaks protocol
  -- 2 alone and packets are off, with `n` bytes, if EC_MSG_BYTES has room for them.
  pub held-query_all :
      (n : ℕ) (d : Device)
      → c.proto2_max + n ≤ c.msg_bytes
      → is_zero (query_all c bus k header d).0 ≡ true
      → Suits n (query_all c bus k header d).1
  unfolding query_all
  held-query_all n d h e = elim (Option-cases (k.fresh d.clock (header + c.info_size))) [
    | inl no_memory ↦ absurd (ground arith)
    | inr (b, got) ↦
        let (ret, d') =
          query_with c bus k header (zero_msg c bus k header)
            (record d { clock = d.clock + 1; live = d.clock ∷ d.live }) in
        ground (
          arith,
          held-query_with n (zero_msg c bus k header)
              (record d { clock = d.clock + 1; live = d.clock ∷ d.live }) h,
        )
  ]

  -- A controller of protocol 3 with no second controller behind it: the sizes and the buffers are set
  -- up, and yet the error of the second query is what `cros_ec_query_all`'s body returns.
  pub query_with-no_second :
      (msg m : Msg) (d d' : Device) (ret : ℤ) (b b' : Bytes)
      → proto_query c bus k header 0 msg (record d { proto_version = 3 }) ≡ (ret, m, d')
      → is_zero ret ≡ true
      → k.fresh (speak_v3 c bus k header m d').1.clock (speak_v3 c bus k header m d').1.din_size
        ≡ some b
      → k.fresh
          ((speak_v3 c bus k header m d').1.clock + 1)
          (speak_v3 c bus k header m d').1.dout_size
        ≡ some b'
      → ((query_with c bus k header msg d).0 ≡ (speak_v3 c bus k header m d').0)
        × HasBuffers c.request_size c.response_size (query_with c bus k header msg d).1
  unfolding query_with
  query_with-no_second msg m d d' ret b b' e z f f' =
      let (ret', next) = speak_v3 c bus k header m d' in
      ground (arith, full-new_buffers ret' next b b' f f', sizes-speak_v3 m d')
