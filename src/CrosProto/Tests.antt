-- ===== src/CrosProto/Tests.antt =====
-- Runs of the controller's protocol, and the theorems at them.
use doublefetch.Base.{
  ℕ, ◌+◌, ◌*◌, ◌%◌, ◌≡◌, ◌≤◌, refl, Bytes, length, get_or, take, pos, err, is_zero, none, [], ◌∷◌,
  replicate, true, false, arith, ltb, if◌then◌else◌, ◌==◌, overwrite,
}
use doublefetch.Kernel.{Kernel}
use doublefetch.Kernel.Machine.{machine}
use doublefetch.CrosProto.{Msg, Codes, Device, Bus}
use doublefetch.CrosProto.Transfer.{send_command}
use doublefetch.CrosProto.Query.{query_all, proto_query, zero_msg, new_buffers}
use doublefetch.CrosProto.Sizes.{Suits, held-query_all}
use doublefetch.CrosProto.Packet.{RequestLayout, prepare_packet, sum-prepare_packet, sum}

abbrev pub codes : Codes
codes = record {
  success = 0;
  in_progress = 8;
  invalid_command = 1;
  get_comms_status = 9;
  get_protocol_info = 11;
  hello = 1;
  reboot = 0xd2;
  passthru = λ i m. i * 0x4000 + m;
  passthru_start = 0x4000;
  unknown_version = 0;
  host_version = 3;
  status_size = 4;
  is_processing = λ b. get_or b 0 0 == 1;
  info_size = 12;
  info_request = λ b. 64;
  info_response = λ b. 128;
  info_highest = λ b. 3;
  hello_params = 0xd0 ∷ 0xc0 ∷ 0xb0 ∷ 0xa0 ∷ [];
  hello_size = 4;
  hello_good = λ b. true;
  request_size = 8;
  response_size = 8;
  response_overhead = 2;
  request_overhead = 1;
  proto2_max = 252;
  msg_bytes = 256;
  word = 65536;
}

-- A bus that succeeds at once, but knows no second controller.
abbrev bus : Bus
bus = record {
  pkt_xfer = λ t m. (pos 0, record m { result = if ltb m.command 0x4000 then 0 else 1 });
  cmd_xfer = λ t m. (pos 0, m);
  outsize_kept = λ t m. refl;
}

abbrev kernel : Kernel
kernel = machine (λ t a. 0)

abbrev device : ℕ → Device
device version = record {
  clock = 0;
  locked = false;
  live = [];
  proto_version = version;
  max_request = 56;
  max_response = 120;
  max_passthru = 0;
  has_pkt = true;
  din_size = 130;
  dout_size = 65;
  din = none;
  dout = none;
  sent = [];
}

abbrev msg : ℕ → Msg
msg n = record {
  version = 1;
  command = 2;
  outsize = n;
  insize = 200;
  result = 0;
  payload = replicate n 7;
}

-- without packets: protocol 2
abbrev plain : Device
plain = record (device 0) { has_pkt = false }

plain_query : is_zero (query_all codes bus kernel 20 plain).0 ≡ true
unfolding query_all machine send_command new_buffers overwrite
plain_query = refl

held-query_all_example : Suits codes bus kernel 20 4 (query_all codes bus kernel 20 plain).1
held-query_all_example = held-query_all codes bus kernel 20 4 plain (omega arith) plain_query

no_second_run : (query_all codes bus kernel 20 (device 0)).0 ≡ err 19
unfolding query_all machine send_command new_buffers
no_second_run = refl

abbrev first : Msg
first = (proto_query codes bus kernel 20 0 (zero_msg codes bus kernel 20) (device 3)).1

abbrev after_first : Device
after_first = (proto_query codes bus kernel 20 0 (zero_msg codes bus kernel 20) (device 3)).2

abbrev layout : RequestLayout codes
layout = record {
  bytes = λ m v n. 3 ∷ 0 ∷ (m % 256) ∷ 0 ∷ v ∷ 0 ∷ (n % 256) ∷ 0 ∷ [];
  length_bytes = λ m v n. refl;
  checksum = 1;
  checksum_in = omega arith;
  checksum_zero = λ m v n. refl;
}

abbrev packet : Bytes
packet = 3 ∷ 234 ∷ 2 ∷ 0 ∷ 1 ∷ 0 ∷ 2 ∷ 0 ∷ 7 ∷ 7 ∷ replicate 55 0

sum-prepare_packet_example :
    (◌≡◌ {A = ℕ} 10 10)
    × (10 ≤ length packet)
    × (length packet ≡ 65)
    × (sum (take 10 packet) % 256 ≡ 0)
unfolding prepare_packet
sum-prepare_packet_example =
    sum-prepare_packet codes layout (msg 2) (device 3) (replicate 65 0) packet 10 (omega arith) refl
      refl

abbrev message : Bytes
message = 0xdd ∷ 2 ∷ 2 ∷ 7 ∷ 7 ∷ 0xef ∷ replicate 250 0
