-- ===== src/Protocol.antt =====
-- The wire protocol of include/oomwoo_protocol.h: its constants, result codes and decoded frames.
-- The functions of src/oomwoo_protocol.c are in the modules below.
pub mod Wire
pub mod Crc
pub mod Frame
pub mod Stream
use oomwoo_firmware.Prelude.{ℕ, ◌+◌, Option, none, some, Bytes}

abbrev pub magic_0 : ℕ
magic_0 = b'O'

abbrev pub magic_1 : ℕ
magic_1 = b'W'

-- The default build; the header rejects a version that is not a non-zero byte.
abbrev pub protocol_version : ℕ
protocol_version = 1

abbrev pub header_size : ℕ
header_size = 10

abbrev pub crc_size : ℕ
crc_size = 2

abbrev pub max_payload_size : ℕ
max_payload_size = 512

abbrev pub max_frame_size : ℕ
max_frame_size = header_size + max_payload_size + crc_size

-- `oomwoo_protocol_result_t`
pub data Status : Type 0 where
  ok null_argument output_too_small frame_too_short bad_magic : Status
  bad_version payload_too_large length_mismatch bad_crc : Status

-- `oomwoo_decoded_frame_t`. The payload pointer is NULL (`none`), or stands for the
-- `payload_length` bytes that it leads to.
pub record DecodedFrame : Type 0 where
  pub version : ℕ
  pub flags : ℕ
  pub sequence : ℕ
  pub message_type : ℕ
  pub payload_length : ℕ
  pub payload : Option Bytes

abbrev pub blank_frame : DecodedFrame
blank_frame = record {
  version = 0;
  flags = 0;
  sequence = 0;
  message_type = 0;
  payload_length = 0;
  payload = none;
}

-- The struct behind a frame pointer.
abbrev pub frame_of : Option DecodedFrame → DecodedFrame
frame_of none = blank_frame
frame_of (some frame) = frame
