-- ===== src/Messages/Tests.antt =====
-- A drive command, and the theorems on messages applied to it.
use oomwoo_firmware.Prelude.{
  ◌≤◌, ◌<◌, ◌≡◌, ◌≢◌, ◌⊎◌, ◌↔◌, refl, some, [], ◌∷◌, ◌++◌, arith, length, replicate, is_null, true,
  false, Bytes, IsBytes, are_bytes-IsBytes,
}
use oomwoo_firmware.Prelude.Int.{pos, negsuc}
use oomwoo_firmware.Protocol.Wire.{read_u16_le}
use oomwoo_firmware.Messages.{
  MessageType, from_code, Direction, message_direction, MessageResult, message_payload_size,
  size_or,
}
use oomwoo_firmware.Messages.Codes.{direction-ranges}
use oomwoo_firmware.Messages.Structs.{Payload, Message, cleared_message}
use oomwoo_firmware.Messages.Words.{read_i16_le}
use oomwoo_firmware.Messages.Layout.{member_bytes, Stores}
use oomwoo_firmware.Messages.Validate.{message_validate, validate_member}
use oomwoo_firmware.Messages.Validate.Ranges.{
  InRange, IsMessage, Validated, message_validate-Validated,
}
use oomwoo_firmware.Messages.Encode.{encode_payload}
use oomwoo_firmware.Messages.Decode.{decode_payload, decoded_member, finish_decode}
use oomwoo_firmware.Messages.RoundTrip.{
  encode_payload_lem, decode_payload-encode_payload, decode_payload-IsMessage,
}
use oomwoo_firmware.Messages.Samples.{zero_pun}
use oomwoo_firmware.Messages.Errors.{decode_payload_errors, encode_payload_errors}

-- 250 mm/s backwards and 1000 mrad/s for 100 ms.
abbrev drive : Message
drive = record {
  type = 0x0101;
  payload =
      Payload.drive_setpoint
        (record { linear_mm_s = negsuc 249; angular_mrad_s = pos 1000; duration_ms = 100 });
}

drive-IsMessage : IsMessage drive
drive-IsMessage = record {
  kind = MessageType.drive_setpoint;
  typed = refl;
  stores = Stores.drive_setpoint _ (omega arith) (omega arith) (omega arith);
}

drive-InRange : InRange drive.payload
drive-InRange = (omega arith, omega arith, omega arith, omega arith)

abbrev drive_bytes : Bytes
drive_bytes = 0x06 ∷ 0xFF ∷ 0xE8 ∷ 0x03 ∷ 0x64 ∷ 0x00 ∷ []

drive_bytes-IsBytes : IsBytes drive_bytes
drive_bytes-IsBytes = are_bytes-IsBytes drive_bytes refl

abbrev array : Bytes
array = replicate 8 0

direction-ranges_example :
    let direction = message_direction 0x8003 in
    let result = (message_payload_size 0x8003 (some 0)).result in
    ((direction ≡ Direction.cpu_to_mcu)
      ↔ (((0x0001 ≤ 0x8003) × (0x8003 ≤ 0x0004)) ⊎ ((0x0101 ≤ 0x8003) × (0x8003 ≤ 0x0104))))
    × ((direction ≡ Direction.both) ↔ ((0x7001 ≤ 0x8003) × (0x8003 ≤ 0x7002)))
    × ((direction ≡ Direction.mcu_to_cpu) ↔ ((0x8000 ≤ 0x8003) × (0x8003 ≤ 0x8005)))
    × ((direction ≡ Direction.unknown) ↔ (result ≡ MessageResult.unknown_type))
    × ((result ≡ MessageResult.payload_undefined) ↔ ((0x8003 ≤ 0x8003) × (0x8003 ≤ 0x8004)))
direction-ranges_example = direction-ranges 0x8003 0

message_validate-Validated_example :
    Validated (message_validate zero_pun (some drive)) drive.payload
message_validate-Validated_example = message_validate-Validated zero_pun drive drive-IsMessage

encode_payload_lem_example : encode_payload zero_pun (some drive) (some array) 8 (some 0) ≡ record {
  result = MessageResult.ok;
  output = some (drive_bytes ++ replicate 2 0);
  output_length = some 6;
}
encode_payload_lem_example =
    encode_payload_lem zero_pun drive drive-IsMessage drive-InRange array 8 0 (omega arith)
      (omega arith)

decode_payload-encode_payload_example :
    let e = encode_payload zero_pun (some drive) (some array) 8 (some 0) in
    (e.result ≡ MessageResult.ok)
    × (e.output_length ≡ some 6)
    × (decode_payload zero_pun 0x0101 e.output 6 (some cleared_message)
        ≡ record { result = MessageResult.ok; output = some drive })
decode_payload-encode_payload_example =
    decode_payload-encode_payload zero_pun zero_pun drive cleared_message array 8 0 drive-IsMessage
      drive-InRange (omega arith) (omega arith)

drive_accepted :
    decode_payload zero_pun 0x0101 (some drive_bytes) 6 (some cleared_message)
    ≡ record { result = MessageResult.ok; output = some drive }
unfolding decode_payload decoded_member finish_decode message_validate validate_member
    message_payload_size from_code read_i16_le read_u16_le
drive_accepted = refl

decode_payload-IsMessage_example :
    IsMessage drive
    × InRange drive.payload
    × (drive.type ≡ 0x0101)
    × (member_bytes drive.payload ≡ drive_bytes)
decode_payload-IsMessage_example =
    decode_payload-IsMessage zero_pun 0x0101 drive_bytes cleared_message drive drive_bytes-IsBytes
      drive_accepted

decode_payload_errors_example :
    let d = decode_payload zero_pun 0x0101 (some array) 8 (some drive) in
    let sized = message_payload_size 0x0101 (some 0) in
    let usable =
      (is_null (some drive) ≡ false) × ((is_null (some array) ≡ false) ⊎ (length array ≡ 0)) in
    ((d.result ≡ MessageResult.null_argument) ↔ (¬ usable))
    × ((d.result ≡ MessageResult.unknown_type)
        ↔ (usable × (sized.result ≡ MessageResult.unknown_type)))
    × ((d.result ≡ MessageResult.payload_undefined)
        ↔ (usable × (sized.result ≡ MessageResult.payload_undefined)))
    × ((d.result ≡ MessageResult.wrong_payload_length)
        ↔ (usable × (sized.result ≡ MessageResult.ok) × (8 ≢ size_or sized.payload_size)))
    × ((d.result ≡ MessageResult.ok)
        ⊎ ((¬ usable) × (d.output ≡ some drive))
        ⊎ (usable × (d.output ≡ some cleared_message)))
decode_payload_errors_example = decode_payload_errors zero_pun 0x0101 8 (some array) (some drive)

encode_payload_errors_example :
    let e = encode_payload zero_pun (some drive) (some array) 5 (some 9) in
    let checked = message_validate zero_pun (some drive) in
    let n = size_or (message_payload_size 0x0101 (some 0)).payload_size in
    ((e.result ≡ MessageResult.ok)
      ↔ ((checked ≡ MessageResult.ok) × (n ≤ 5) × ((n ≡ 0) ⊎ (is_null (some array) ≡ false))))
    × ((checked ≡ MessageResult.ok) ⊎ (e.result ≡ checked))
    × ((e.result ≡ MessageResult.output_too_small) ↔ ((checked ≡ MessageResult.ok) × (5 < n)))
    × ((e.result ≡ MessageResult.null_argument)
        ↔ ((checked ≡ MessageResult.ok) × (n ≤ 5) × (n ≢ 0) × (is_null (some array) ≡ true)))
    × ((e.result ≡ MessageResult.ok) ⊎ ((e.output ≡ some array) × (e.output_length ≡ some 0)))
encode_payload_errors_example = encode_payload_errors zero_pun drive (some array) 5 9
