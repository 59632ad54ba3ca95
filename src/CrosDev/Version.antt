-- ===== src/CrosDev/Version.antt =====
-- `ec_get_version` and `ec_device_read`: the version of the controller as text.
use doublefetch.Base.{
  ℕ, zero, suc, ◌+◌, ◌-◌, ◌≡◌, ◌≤◌, ◌⊎◌, inl, inr, Option-cases, true, false, none, some, [], ◌∷◌,
  ◌++◌, Bytes, ℤ, pos, err, efault, einval, enomem, is_neg, is_zero, length, take, min, ◌==◌,
  if◌then◌else◌, arith, length-take,
}
use doublefetch.Kernel.{
  Kernel, World, tick, M, pure, ◌>>=◌, ◌>>◌, copy_to_user, kmalloc, kfree, call,
}
use doublefetch.CrosDev.{Command, Controller, EcCall}

-- The layout of the message and of `struct ec_response_get_version` behind it, with the strings that
-- `%s` and `%d` give for what stands there.
pub record Version : Type 0 where
  pub resp_size : ℕ
  -- the block with version 0, the command EC_CMD_GET_VERSION at the offset, and the sizes
  pub filled : (cmd_offset insize outsize : ℕ) → Bytes → Bytes
  pub result : Bytes → ℕ
  pub success : ℕ
  pub current_image : Bytes → ℕ
  pub version_ro : Bytes → Bytes
  pub version_rw : Bytes → Bytes
  pub dev_version : Bytes  -- CROS_EC_DEV_VERSION, without its NUL
  pub decimal : ℕ → Bytes

-- The names of the images, and "\nUnknown EC version: EC returned "
abbrev unknown_image : Bytes
unknown_image = 117 ∷ 110 ∷ 107 ∷ 110 ∷ 111 ∷ 119 ∷ 110 ∷ []

abbrev read_only : Bytes
read_only = 114 ∷ 101 ∷ 97 ∷ 100 ∷ 45 ∷ 111 ∷ 110 ∷ 108 ∷ 121 ∷ []

abbrev read_write : Bytes
read_write = 114 ∷ 101 ∷ 97 ∷ 100 ∷ 45 ∷ 119 ∷ 114 ∷ 105 ∷ 116 ∷ 101 ∷ []

abbrev invalid : Bytes
invalid = 105 ∷ 110 ∷ 118 ∷ 97 ∷ 108 ∷ 105 ∷ 100 ∷ []

abbrev unknown_version : Bytes
unknown_version =
    10 ∷ 85 ∷ 110 ∷ 107 ∷ 110 ∷ 111 ∷ 119 ∷ 110 ∷ 32 ∷ 69 ∷ 67 ∷ 32 ∷ 118 ∷ 101 ∷ 114 ∷ 115 ∷ 105
    ∷ 111 ∷ 110 ∷ 58 ∷ 32 ∷ 69 ∷ 67 ∷ 32 ∷ 114 ∷ 101 ∷ 116 ∷ 117 ∷ 114 ∷ 110 ∷ 101 ∷ 100 ∷ 32 ∷ []

-- `current_image_name`; past the end of the array it is "invalid".
abbrev pub image_name : ℕ → Bytes
image_name zero = unknown_image
image_name (suc zero) = read_only
image_name (suc (suc zero)) = read_write
image_name (suc (suc (suc n))) = invalid

-- `snprintf` keeps a byte of the buffer for the NUL.
abbrev pub snprintf : ℕ → Bytes → Bytes
snprintf maxlen text = take (maxlen - 1) text

module _ (k : Kernel) (s : Command) (ec : Controller) (v : Version) where
  abbrev pub error_text : Bytes → Bytes
  error_text msg = v.dev_version ++ unknown_version ++ v.decimal (v.result msg) ++ (10 ∷ [])

  abbrev pub version_text : Bytes → Bytes
  version_text msg =
      v.dev_version
      ++ (10 ∷ v.version_ro msg)
      ++ (10 ∷ v.version_rw msg)
      ++ (10 ∷ image_name (v.current_image msg))
      ++ (10 ∷ [])

  -- The transfer, and the text for its result
  unfoldable pub version_of : ℕ → Bytes → M EcCall (ℤ × Bytes)
  unfolding call
  version_of maxlen msg w =
      let (ret, reply) = ec.xfer w.clock msg in
      (do
        call (EcCall.xfer msg)
        elim (is_neg ret) [
          | true ↦ pure (ret, [])
          | false ↦ elim (v.result reply == v.success) [
            | false ↦ pure (err einval, snprintf maxlen (error_text reply))
            | true ↦ pure (pos 0, snprintf maxlen (version_text reply))
          ]
        ])
        w

  -- `ec_get_version`; the text is [] where nothing is written.
  unfoldable pub ec_get_version : ℕ → M EcCall (ℤ × Bytes)
  unfolding kmalloc kfree version_of
  ec_get_version maxlen = do
    block ← kmalloc k (s.size + v.resp_size)
    elim block [
      | none ↦ pure (err enomem, [])
      | some b ↦ do
        answer ← version_of maxlen (v.filled ec.cmd_offset v.resp_size 0 b.bytes)
        kfree b.id
        pure answer
    ]

  -- The size of `msg`: the string's size counts its NUL.
  abbrev pub text_size : ℕ
  text_size = v.resp_size + (length v.dev_version + 1)

  -- `ec_device_read`: the result and the new `*offset`
  unfoldable pub ec_device_read : (buffer len offset : ℕ) → M EcCall (ℤ × ℕ)
  unfolding ec_get_version copy_to_user
  ec_device_read buffer len offset = elim (offset == 0) [
    | false ↦ pure (pos 0, offset)
    | true ↦ do
      answer ← ec_get_version text_size
      elim (is_zero answer.0) [
        | false ↦ pure (answer.0, offset)
        | true ↦ do
          done ← copy_to_user k buffer (take (min len (length answer.1)) answer.1)
          pure (
              if done
              then (pos (min len (length answer.1)), min len (length answer.1))
              else (err efault, offset))
      ]
  ]

  version_of_lem :
      (maxlen : ℕ) (msg : Bytes) (w : World EcCall)
      → ((version_of maxlen msg w).1.live ≡ w.live)
        × (length (version_of maxlen msg w).0.1 ≤ maxlen - 1)
  unfolding version_of call
  version_of_lem maxlen msg w =
      let reply = (ec.xfer w.clock msg).1 in
      ground (
        arith,
        length-take (maxlen - 1) (error_text reply),
        length-take (maxlen - 1) (version_text reply),
      )

  -- A text is shorter than the buffer it was written to.
  ec_get_version_lem :
      (maxlen : ℕ) (w : World EcCall)
      → ((ec_get_version maxlen w).1.live ≡ w.live)
        × (length (ec_get_version maxlen w).0.1 ≤ maxlen - 1)
  unfolding ec_get_version kmalloc kfree
  ec_get_version_lem maxlen w = elim (Option-cases (k.fresh w.clock (s.size + v.resp_size))) [
    | inl e ↦ ground arith
    | inr (b, e) ↦ ground (
      arith,
      version_of_lem maxlen (v.filled ec.cmd_offset v.resp_size 0 b)
          (record (tick w) { live = w.clock ∷ w.live }),
    )
  ]

  -- A read leaves no block allocated.
  pub live-ec_device_read :
      (buffer len offset : ℕ) (w : World EcCall)
      → (ec_device_read buffer len offset w).1.live ≡ w.live
  unfolding ec_device_read copy_to_user
  live-ec_device_read buffer len offset w = ground (arith, ec_get_version_lem text_size w)

  -- Where a read returns a length, that is at most the length that was asked for, it fits the text's
  -- buffer with its NUL, and the offset is 0 before a read that returns anything, and the length then.
  pub ec_device_read_bounds :
      (buffer len offset n : ℕ) (w : World EcCall)
      → (ec_device_read buffer len offset w).0.0 ≡ pos n
      → (n ≤ len)
        × (n + 1 ≤ text_size)
        × ((n ≡ 0) ⊎ ((offset ≡ 0) × ((ec_device_read buffer len offset w).0.1 ≡ n)))
  unfolding ec_device_read copy_to_user
  ec_device_read_bounds buffer len offset n w e = ground (arith, ec_get_version_lem text_size w)
