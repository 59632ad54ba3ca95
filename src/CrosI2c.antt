-- ===== src/CrosI2c.antt =====
-- The bus driver of the embedded controller: cocci/testdir/truecases/cros_ec_i2c.c. Command has the
-- transfer of protocol 2, Packet the one of protocol 3.
pub mod Command
pub mod Packet
mod Tests
use doublefetch.Base.{
  ℕ, ◌+◌, ◌-◌, ◌%◌, ◌≡◌, Bool, true, false, Option, none, some, Bytes, ℤ, err, eio, length, is_neg,
  is_pos, not, replicate, ltb, ◌||◌, if◌then◌else◌,
}
use doublefetch.Kernel.{Kernel, Block, M, pure, ◌>>=◌, ◌>>◌, kmalloc, call}
use doublefetch.CrosProto.{Msg}

-- What the driver asks of the kernel: a transfer of bytes out and a number of bytes in, and a sleep.
pub data BusCall : Type 0 where
  transfer : (out : Bytes) (room : ℕ) → BusCall
  sleep : BusCall

-- `i2c_transfer` for the two messages: at a time, with the bytes to send, the number of bytes to
-- receive and the buffer for them. It returns a count of messages or an error, and the buffer.
pub record I2c : Type 0 where
  pub i2c_transfer : ℕ → Bytes → ℕ → Bytes → ℤ × Bytes
  pub length_kept :
      (t : ℕ) (out : Bytes) (n : ℕ) (b : Bytes) → length (i2c_transfer t out n b).1 ≡ length b

-- A sum of 32 bits, as an `int`, and then as the `size_t` of an allocation.
abbrev pub int_size : ℕ → ℕ
int_size n =
    if ltb (n % 4294967296) 2147483648
    then n % 4294967296
    else n % 4294967296 + 18446744069414584320

-- Whether such an `int` is more than a size.
abbrev pub is_over : ℕ → ℕ → Bool
is_over n size = if ltb (n % 4294967296) 2147483648 then ltb size (n % 4294967296) else false

-- `len` of `struct i2c_msg` has 16 bits.
abbrev pub msg_len : ℕ → ℕ
msg_len n = n % 65536

-- `kzalloc`
unfoldable pub kzalloc : Kernel → ℕ → M BusCall (Option Block)
unfolding kmalloc
kzalloc k n = do
  block ← kmalloc k n
  pure (elim block [ none ↦ none | some b ↦ some (record b { bytes = replicate n 0 }) ])

-- The delay after EC_CMD_REBOOT_EC.
unfoldable pub reboot_delay : Bool → M BusCall (Unit {0})
unfolding call
reboot_delay is_reboot = if is_reboot then call BusCall.sleep else pure tt

-- `i2c_transfer` with the code that reads its result; `decode` is what follows an answer.
unfoldable pub exchange : I2c → Bytes → ℕ → Bytes → (Bytes → ℤ × Msg) → Msg → M BusCall (ℤ × Msg)
unfolding call
exchange bus out room buf decode msg w =
    let (ret, reply) = bus.i2c_transfer w.clock out room buf in
    (do
      call (BusCall.transfer out room)
      elim (is_neg ret) [
        | true ↦ pure (ret, msg)
        | false ↦ elim (is_pos 2 ret) [ false ↦ pure (err eio, msg) | true ↦ pure (decode reply) ]
      ])
      w
