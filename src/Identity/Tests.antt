-- ===== src/Identity/Tests.antt =====
-- An identity, and the theorems on its hello applied to it.
use oomwoo_firmware.Prelude.{
  ◌≤◌, ◌<◌, ◌≡◌, ◌⊎◌, ◌↔◌, refl, some, [], ◌∷◌, ◌++◌, arith, replicate, is_null, true, false, Bytes,
}
use oomwoo_firmware.Protocol.{Status, blank_frame}
use oomwoo_firmware.Protocol.Frame.{decode_frame, encode_frame, write_frame, write_header}
use oomwoo_firmware.Messages.{MessageResult, message_payload_size, from_code}
use oomwoo_firmware.Messages.Structs.{cleared_message}
use oomwoo_firmware.Messages.Samples.{zero_pun}
use oomwoo_firmware.Protocol.Wire.{write_u16_le}
use oomwoo_firmware.Protocol.Crc.{crc16_ccitt_false}
use oomwoo_firmware.Messages.Words.{write_u32_le}
use oomwoo_firmware.Messages.Validate.{message_validate, validate_member}
use oomwoo_firmware.Messages.Encode.{encode_payload, encode_message, finish_encode, written_member}
use oomwoo_firmware.Messages.Decode.{decode_payload}
use oomwoo_firmware.Identity.{
  Identity, IdentityResult, hello_message, hello_frame_size, emit_hello, encode_hello, finish_hello,
}
use oomwoo_firmware.Identity.Hello.{
  IsIdentity, hello_frame, advanced, emit_hello_lem, decode-emit_hello, emit_hello_errors,
}

-- Version 1.2, about to wrap its sequence number.
abbrev unit : Identity
unit = record {
  firmware_major = 1;
  firmware_minor = 2;
  build_id = 0x01020304;
  next_sequence = 65535;
}

unit-IsIdentity : IsIdentity unit
unit-IsIdentity = record {
  major16 = omega arith;
  minor16 = omega arith;
  build32 = omega arith;
  sequence16 = omega arith;
}

abbrev array : Bytes
array = replicate 20 0

emit_hello_lem_example : emit_hello zero_pun (some unit) (some array) 20 (some 0) ≡ record {
  result = IdentityResult.ok;
  identity = some (record unit { next_sequence = 0 });
  output = some (hello_frame unit ++ []);
  output_length = some 20;
}
emit_hello_lem_example =
    emit_hello_lem zero_pun unit array 20 0 unit-IsIdentity (omega arith) (omega arith)

decode-emit_hello_example :
    let e = emit_hello zero_pun (some unit) (some array) 20 (some 0) in
    let payload : Bytes = 1 ∷ 0 ∷ 2 ∷ 0 ∷ 4 ∷ 3 ∷ 2 ∷ 1 ∷ [] in
    (decode_frame e.output 20 (some blank_frame) ≡ record {
      status = Status.ok;
      output = some (record {
        version = 1;
        flags = 0;
        sequence = 65535;
        message_type = 0x8000;
        payload_length = 8;
        payload = some payload;
      });
    })
    × (decode_payload zero_pun 0x8000 (some payload) 8 (some cleared_message)
        ≡ record { result = MessageResult.ok; output = some (hello_message unit) })
decode-emit_hello_example =
    decode-emit_hello zero_pun zero_pun unit array 20 0 blank_frame cleared_message unit-IsIdentity
      (omega arith) (omega arith)

emit_hello_errors_example :
    let e = emit_hello zero_pun (some unit) (some array) 19 (some 5) in
    ((e.result ≡ IdentityResult.ok) ↔ ((is_null (some array) ≡ false) × (hello_frame_size ≤ 19)))
    × ((e.result ≡ IdentityResult.null_argument) ↔ (is_null (some array) ≡ true))
    × ((e.result ≡ IdentityResult.output_too_small)
        ↔ ((is_null (some array) ≡ false) × (19 < hello_frame_size)))
    × (((e.result ≡ IdentityResult.ok) × (e.identity ≡ some (advanced unit)))
        ⊎ ((e.identity ≡ some unit) × (e.output ≡ some array) × (e.output_length ≡ some 0)))
emit_hello_errors_example = emit_hello_errors zero_pun unit (some array) 19 5 unit-IsIdentity

-- The MCU_HELLO of tests/conformance/golden_vectors_v1.json.
abbrev golden : Identity
golden = record {
  firmware_major = 1;
  firmware_minor = 2;
  build_id = 0x12345678;
  next_sequence = 11;
}

abbrev golden_bytes : Bytes
golden_bytes =
    0x4F ∷ 0x57 ∷ 0x01 ∷ 0x00 ∷ 0x0B ∷ 0x00 ∷ 0x00 ∷ 0x80 ∷ 0x08 ∷ 0x00 ∷ 0x01 ∷ 0x00 ∷ 0x02 ∷ 0x00
    ∷ 0x78 ∷ 0x56 ∷ 0x34 ∷ 0x12 ∷ 0x41 ∷ 0xBA ∷ []

golden_hello :
    (emit_hello zero_pun (some golden) (some array) 20 (some 0)).output ≡ some golden_bytes
unfolding emit_hello encode_hello finish_hello encode_payload encode_message finish_encode
    written_member message_validate validate_member message_payload_size from_code write_u32_le
    write_u16_le encode_frame write_frame write_header crc16_ccitt_false
golden_hello = refl
