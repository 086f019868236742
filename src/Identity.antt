-- ===== src/Identity.antt =====
-- The identity service of src/oomwoo_identity.c, which answers a request with an encoded MCU_HELLO.
pub mod Hello
mod Tests
use oomwoo_firmware.Prelude.{
  ℕ, ◌+◌, Bool, true, false, not, Option, none, some, ltb, ◌==◌, if◌then◌else◌, replicate, Bytes,
  u16,
}
use oomwoo_firmware.Protocol.{header_size, crc_size, Status}
use oomwoo_firmware.Protocol.Frame.{Encoded, encode_frame}
use oomwoo_firmware.Messages.{MessageType, code, is_ok, size_or}
use oomwoo_firmware.Messages.Structs.{Payload, McuHello, Message, Punning}
use oomwoo_firmware.Messages.Encode.{encode_payload}

abbrev pub hello_payload_size : ℕ
hello_payload_size = 8

abbrev pub hello_frame_size : ℕ
hello_frame_size = header_size + hello_payload_size + crc_size

-- `oomwoo_identity_result_t`
pub data IdentityResult : Type 0 where
  ok ignored null_argument output_too_small codec_error : IdentityResult

-- `oomwoo_identity_t`
pub record Identity : Type 0 where
  pub firmware_major : ℕ
  pub firmware_minor : ℕ
  pub build_id : ℕ
  pub next_sequence : ℕ

unfoldable pub identity_init : Option Identity → ℕ → ℕ → ℕ → ℕ → Option Identity
identity_init none major minor build_id initial_sequence = none
identity_init (some old) major minor build_id initial_sequence = some (record {
  firmware_major = major;
  firmware_minor = minor;
  build_id = build_id;
  next_sequence = initial_sequence;
})

abbrev pub hello_message : Identity → Message
hello_message i = record {
  type = code MessageType.mcu_hello;
  payload = Payload.mcu_hello (record {
    firmware_major = i.firmware_major;
    firmware_minor = i.firmware_minor;
    build_id = i.build_id;
  });
}

-- A result, with what stands behind the three pointers.
pub record Emitted : Type 0 where
  pub result : IdentityResult
  pub identity : Option Identity
  pub output : Option Bytes
  pub output_length : Option ℕ

-- Behind `oomwoo_encode_frame`, by its result.
unfoldable pub finish_hello : Identity → Encoded → Status → Emitted
finish_hello i e Status.ok = record {
  result = IdentityResult.ok;
  identity = some (record i { next_sequence = u16 (i.next_sequence + 1) });
  output = e.output;
  output_length = e.output_length;
}
finish_hello i e Status.output_too_small = record {
  result = IdentityResult.output_too_small;
  identity = some i;
  output = e.output;
  output_length = some 0;
}
finish_hello i e _ = record {
  result = IdentityResult.codec_error;
  identity = some i;
  output = e.output;
  output_length = some 0;
}

-- Behind the tests of the pointers. The payload array on the stack is written before it is read.
unfoldable pub encode_hello : Punning → Identity → Bytes → ℕ → Emitted
encode_hello pun i output output_capacity =
    let encoded =
      encode_payload pun (some (hello_message i)) (some (replicate hello_payload_size 0))
        hello_payload_size (some 0) in
    let e =
      encode_frame (hello_message i).type encoded.output (size_or encoded.output_length)
        i.next_sequence 0 (some output) output_capacity (some 0) in
    if ltb output_capacity hello_frame_size
    then record {
      result = IdentityResult.output_too_small;
      identity = some i;
      output = some output;
      output_length = some 0;
    }
    else if not (is_ok encoded.result)
    then record {
      result = IdentityResult.codec_error;
      identity = some i;
      output = some output;
      output_length = some 0;
    }
    else finish_hello i e e.status

unfoldable pub emit_hello : Punning → Option Identity → Option Bytes → ℕ → Option ℕ → Emitted
emit_hello pun identity output output_capacity none = record {
  result = IdentityResult.null_argument;
  identity = identity;
  output = output;
  output_length = none;
}
emit_hello pun (some i) (some output) output_capacity (some old) =
    encode_hello pun i output output_capacity
emit_hello pun identity output output_capacity (some old) = record {
  result = IdentityResult.null_argument;
  identity = identity;
  output = output;
  output_length = some 0;
}

unfoldable pub handle_message :
    Punning → Option Identity → Option Message → Option Bytes → ℕ → Option ℕ → Emitted
handle_message pun identity message output output_capacity none = record {
  result = IdentityResult.null_argument;
  identity = identity;
  output = output;
  output_length = none;
}
handle_message pun (some i) (some message) output output_capacity (some old) =
    let emitted = emit_hello pun (some i) output output_capacity (some 0) in
    if not (message.type == code MessageType.identify_request)
    then record {
      result = IdentityResult.ignored;
      identity = some i;
      output = output;
      output_length = some 0;
    }
    else emitted
handle_message pun identity message output output_capacity (some old) = record {
  result = IdentityResult.null_argument;
  identity = identity;
  output = output;
  output_length = some 0;
}
