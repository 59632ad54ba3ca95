-- ===== src/CrosProto.antt =====
-- The host's protocol with the ChromeOS embedded controller:
-- cocci/testdir/truecases/cros_ec_proto.c. This file has the state and the messages; Transfer sends
-- a command, Query finds the protocol, Packet lays a message out for the wire.
pub mod Transfer
pub mod Clamp
pub mod Query
pub mod Sizes
pub mod Packet
pub mod Tests
use doublefetch.Base.{ℕ, ◌+◌, ◌≡◌, Bool, true, false, Option, none, some, List, Bytes, ℤ, length}

-- `struct cros_ec_command`: `payload` is the buffer behind the header.
pub record Msg : Type 0 where
  pub version : ℕ
  pub command : ℕ
  pub outsize : ℕ
  pub insize : ℕ
  pub result : ℕ
  pub payload : Bytes

-- The numbers and layouts of <linux/mfd/cros_ec_commands.h> and <linux/mfd/cros_ec.h>.
pub record Codes : Type 0 where
  pub success : ℕ
  pub in_progress : ℕ
  pub invalid_command : ℕ
  pub get_comms_status : ℕ
  pub get_protocol_info : ℕ
  pub hello : ℕ
  pub reboot : ℕ
  pub passthru : ℕ → ℕ → ℕ  -- EC_CMD_PASSTHRU_OFFSET(index) | command
  pub passthru_start : ℕ  -- EC_CMD_PASSTHRU_OFFSET(1)
  pub unknown_version : ℕ
  pub host_version : ℕ  -- EC_HOST_REQUEST_VERSION
  pub status_size : ℕ
  pub is_processing : Bytes → Bool
  pub info_size : ℕ
  pub info_request : Bytes → ℕ  -- max_request_packet_size
  pub info_response : Bytes → ℕ
  pub info_highest : Bytes → ℕ  -- fls(protocol_versions) - 1
  pub hello_params : Bytes  -- 0xa0b0c0d0
  pub hello_size : ℕ  -- of the response
  pub hello_good : Bytes → Bool  -- out_data is 0xa1b2c3d4
  pub request_size : ℕ  -- sizeof(struct ec_host_request)
  pub response_size : ℕ
  pub response_overhead : ℕ
  pub request_overhead : ℕ
  pub proto2_max : ℕ
  pub msg_bytes : ℕ
  pub word : ℕ  -- the sizes are kept modulo this number

-- `struct cros_ec_device`, with the time and the state of its lock. `dout` is the buffer that a
-- message is laid out in.
pub record Device : Type 0 where
  pub clock : ℕ
  pub locked : Bool
  pub live : List ℕ
  pub proto_version : ℕ
  pub max_request : ℕ
  pub max_response : ℕ
  pub max_passthru : ℕ
  pub has_pkt : Bool  -- `pkt_xfer` is set
  pub din_size : ℕ
  pub dout_size : ℕ
  pub din : Option Bytes
  pub dout : Option Bytes
  pub sent : List Msg  -- what was handed to the bus, the newest first

-- The bus: its answer to a message, at a time, by packets or by protocol 2. It writes the result and
-- the data, and leaves the size of the request alone.
pub record Bus : Type 0 where
  pub pkt_xfer : ℕ → Msg → ℤ × Msg
  pub cmd_xfer : ℕ → Msg → ℤ × Msg
  pub outsize_kept : (t : ℕ) (m : Msg) → (cmd_xfer t m).1.outsize ≡ m.outsize
