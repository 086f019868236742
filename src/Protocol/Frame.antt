-- ===== src/Protocol/Frame.antt =====
-- `oomwoo_encode_frame` and `oomwoo_decode_frame` of src/oomwoo_protocol.c. What goes out through a
-- pointer is returned beside the status. The sizes stay below 2 ^ 10, so no `size_t` sum wraps.
pub mod Format
pub mod Encode
pub mod Decode
pub mod Corruption
mod Tests
use oomwoo_firmware.Prelude.{
  ℕ, ◌+◌, ◌-◌, Bool, ◌&&◌, ◌||◌, not, Option, none, some, ltb, ◌==◌, if◌then◌else◌, set, take, drop,
  Bytes, byte_at, is_null, bytes_of, memcpy,
}
use mathlib.Core.Option
use oomwoo_firmware.Protocol.{
  magic_0, magic_1, protocol_version, header_size, crc_size, max_payload_size, Status, ok,
  null_argument, output_too_small, frame_too_short, bad_magic, bad_version, payload_too_large,
  length_mismatch, bad_crc, DecodedFrame,
}
use oomwoo_firmware.Protocol.Wire.{write_u16_le, read_u16_le}
use oomwoo_firmware.Protocol.Crc.{crc16_ccitt_false}

-- The result of an encode, with the array behind `output` and the value behind `output_length`.
pub record Encoded : Type 0 where
  pub status : Status
  pub output : Option Bytes
  pub output_length : Option ℕ

abbrev pub frame_size : ℕ → ℕ
frame_size payload_length = header_size + payload_length + crc_size

-- The six header stores, in the source's order.
unfoldable pub write_header : ℕ → ℕ → ℕ → ℕ → Bytes → Bytes
write_header message_type payload_length sequence flags output =
    let start = set (set (set output 0 magic_0) 1 magic_1) 2 protocol_version in
    let flagged = set start 3 flags in
    write_u16_le (write_u16_le (write_u16_le flagged 4 sequence) 6 message_type) 8 payload_length

-- All stores of a successful encode: the header, the payload, and the checksum of both.
unfoldable pub write_frame : ℕ → Bytes → ℕ → ℕ → ℕ → Bytes → Bytes
write_frame message_type payload payload_length sequence flags output =
    let headed = write_header message_type payload_length sequence flags output in
    let filled =
      if payload_length == 0 then headed else memcpy headed header_size payload payload_length in
    write_u16_le filled (frame_size payload_length - crc_size)
      (crc16_ccitt_false (some filled) (header_size + payload_length))

-- `payload` and `output` do not overlap.
unfoldable pub encode_frame : ℕ → Option Bytes → ℕ → ℕ → ℕ → Option Bytes → ℕ → Option ℕ → Encoded
encode_frame message_type payload payload_length sequence flags output output_capacity
      output_length =
    if is_null output || is_null output_length || (is_null payload && not (payload_length == 0))
    then record { status = null_argument; output = output; output_length = output_length }
    else if ltb max_payload_size payload_length
    then record { status = payload_too_large; output = output; output_length = output_length }
    else if ltb output_capacity (frame_size payload_length)
    then record { status = output_too_small; output = output; output_length = output_length }
    else record {
      status = ok;
      output =
          Option.map (write_frame message_type (bytes_of payload) payload_length sequence flags)
            output;
      output_length = Option.map (λ _. frame_size payload_length) output_length;
    }

-- The result of a decode, with the struct behind `output`.
pub record Decoded : Type 0 where
  pub status : Status
  pub output : Option DecodedFrame

-- The early returns of the decoder behind its NULL test; `ok` when none is taken.
unfoldable pub decode_checks : Bytes → ℕ → Status
decode_checks bytes length =
    let payload_length = read_u16_le bytes 8 in
    if ltb length (header_size + crc_size)
    then frame_too_short
    else if not (byte_at bytes 0 == magic_0) || not (byte_at bytes 1 == magic_1)
    then bad_magic
    else if not (byte_at bytes 2 == protocol_version)
    then bad_version
    else if ltb max_payload_size payload_length
    then payload_too_large
    else if not (length == frame_size payload_length)
    then length_mismatch
    else if not (
        read_u16_le bytes (length - crc_size) == crc16_ccitt_false (some bytes) (length - crc_size))
    then bad_crc
    else ok

-- The stores into `*output` behind the checks.
unfoldable pub decoded_fields : Bytes → DecodedFrame
decoded_fields bytes =
    let payload_length = read_u16_le bytes 8 in
    record {
      version = byte_at bytes 2;
      flags = byte_at bytes 3;
      sequence = read_u16_le bytes 4;
      message_type = read_u16_le bytes 6;
      payload_length = payload_length;
      payload = some (take payload_length (drop header_size bytes));
    }

-- `*output` is written only when every check has passed.
unfoldable pub store_decoded : Status → Bytes → DecodedFrame → Decoded
store_decoded Status.ok bytes frame = record { status = ok; output = some (decoded_fields bytes) }
store_decoded status bytes frame = record { status = status; output = some frame }

unfoldable pub decode_frame : Option Bytes → ℕ → Option DecodedFrame → Decoded
unfolding store_decoded
decode_frame none length output = record { status = null_argument; output = output }
decode_frame (some bytes) length none = record { status = null_argument; output = none }
decode_frame (some bytes) length (some frame) =
    store_decoded (decode_checks bytes length) bytes frame
