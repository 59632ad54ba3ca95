-- ===== src/CrosI2c/Tests.antt =====
-- Transfers over a bus that runs, and the theorems at them.
use doublefetch.Base.{
  ℕ, ◌+◌, ◌%◌, ◌≡◌, ◌≤◌, refl, Bytes, length, take, pos, [], ◌∷◌, arith, overwrite, u16_field,
  Field, err, eio,
}
use doublefetch.CrosProto.{Msg}
use doublefetch.CrosProto.Tests.{codes}
use doublefetch.CrosProto.Packet.{sum}
use doublefetch.CrosI2c.{I2c}
use doublefetch.CrosI2c.Packet.{decode_packet, decode_packet-sum, ec_response}

-- A reboot that sends two bytes and has room for three.
abbrev ask : Msg
ask = record {
  version = 0;
  command = 0xd2;
  outsize = 2;
  insize = 3;
  result = 0;
  payload = 5 ∷ 6 ∷ 0 ∷ 0 ∷ [];
}

-- A bus with no controller behind it.
abbrev silent : I2c
silent = record { i2c_transfer = λ t out n b. (err eio, b); length_kept = λ t out n b. refl }

-- `data_len` is the field of two bytes at 4.
abbrev data_len : Field 8
data_len = u16_field 8 4 (omega arith)

-- Success, ten bytes, the header with two bytes of data announced, and the data
abbrev packet : Bytes
packet = 0 ∷ 10 ∷ 3 ∷ 240 ∷ 0 ∷ 0 ∷ 2 ∷ 0 ∷ 0 ∷ 0 ∷ 4 ∷ 7 ∷ []

packet_run : (decode_packet codes data_len ask packet).0 ≡ pos 2
unfolding decode_packet overwrite
packet_run = refl

decode_packet-sum_example :
    (◌≡◌ {A = ℕ} 2 (data_len.read (ec_response codes data_len packet)))
    × (2 ≤ 3)
    × (length (decode_packet codes data_len ask packet).1.payload ≡ 4)
    × ((sum (ec_response codes data_len packet)
            + sum (take 2 (decode_packet codes data_len ask packet).1.payload))
          % 256
        ≡ 0)
decode_packet-sum_example = decode_packet-sum codes data_len ask packet 2 (omega arith) packet_run
