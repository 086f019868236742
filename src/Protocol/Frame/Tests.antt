-- ===== src/Protocol/Frame/Tests.antt =====
-- A small frame, and the theorems on frames applied to it.
use oomwoo_firmware.Prelude.{
  ℕ, ◌<◌, ◌≤◌, ◌≡◌, ◌≢◌, ◌⊎◌, ◌↔◌, refl, ap, some, none, [], ◌∷◌, ◌++◌, arith, length, take, set,
  replicate, is_null, false, Bytes, IsBytes, are_bytes-IsBytes,
}
use oomwoo_firmware.Protocol.{Status, DecodedFrame, blank_frame, max_payload_size, protocol_version}
use oomwoo_firmware.Protocol.Wire.{read_u16_le}
use oomwoo_firmware.Protocol.Frame.{
  frame_size, encode_frame, decode_frame, decode_checks, decoded_fields,
}
use oomwoo_firmware.Protocol.Crc.{crc16_ccitt_false}
use oomwoo_firmware.Protocol.Frame.Format.{frame_bytes}
use oomwoo_firmware.Protocol.Frame.Encode.{encode_frame_lem, encode_frame_status}
use oomwoo_firmware.Protocol.Frame.Decode.{decode_frame-IsFrame}
use oomwoo_firmware.Protocol.Frame.Decode.RoundTrip.{decode_frame-encode_frame}
use oomwoo_firmware.Protocol.Frame.Decode.Prefix.{decode_frame-take}
use oomwoo_firmware.Protocol.Frame.Corruption.{one_byte_detected}

abbrev sample : Bytes
sample = 0xAA ∷ 0xBB ∷ []

abbrev array : Bytes
array = replicate 20 0

-- Message type 0x0010, flags 0, sequence 7.
abbrev wire : Bytes
wire = 0x4F ∷ 0x57 ∷ 1 ∷ 0 ∷ 7 ∷ 0 ∷ 0x10 ∷ 0 ∷ 2 ∷ 0 ∷ 0xAA ∷ 0xBB ∷ 0xBB ∷ 0xC9 ∷ []

abbrev sample_frame : DecodedFrame
sample_frame = record {
  version = 1;
  flags = 0;
  sequence = 7;
  message_type = 0x10;
  payload_length = 2;
  payload = some sample;
}

encode_frame_lem_example : encode_frame 16 (some sample) 2 7 0 (some array) 20 (some 0) ≡ record {
  status = Status.ok;
  output = some (frame_bytes 0 7 16 sample ++ replicate 6 0);
  output_length = some 14;
}
encode_frame_lem_example =
    encode_frame_lem 0 7 16 sample array (omega arith) (omega arith) (omega arith) (omega arith) 20
      0 (omega arith)

encode_frame_status_example :
    let e = encode_frame 16 none 2 7 0 (some array) 20 (some 0) in
    let usable =
      (is_null (some array) ≡ false)
      × (is_null {A = ℕ} (some 0) ≡ false)
      × ((is_null {A = Bytes} none ≡ false) ⊎ (length sample ≡ 0)) in
    ((e.status ≡ Status.ok) ↔ (usable × (2 ≤ max_payload_size) × (frame_size 2 ≤ 20)))
    × ((e.status ≡ Status.null_argument) ↔ (¬ usable))
    × ((e.status ≡ Status.payload_too_large) ↔ (usable × (max_payload_size < 2)))
    × ((e.status ≡ Status.output_too_small)
        ↔ (usable × (2 ≤ max_payload_size) × (20 < frame_size 2)))
    × ((e.status ≡ Status.ok) ⊎ ((e.output ≡ some array) × (e.output_length ≡ some 0)))
encode_frame_status_example = encode_frame_status 16 2 7 0 20 none (some array) (some 0)

decode_frame-encode_frame_example :
    let e = encode_frame 16 (some sample) 2 7 0 (some array) 20 (some 0) in
    (e.status ≡ Status.ok)
    × (e.output_length ≡ some 14)
    × (decode_frame e.output 14 (some blank_frame)
        ≡ record { status = Status.ok; output = some sample_frame })
decode_frame-encode_frame_example =
    decode_frame-encode_frame 0 7 16 sample array 20 0 blank_frame (omega arith) (omega arith)
      (omega arith) (omega arith) (omega arith)

wire-IsBytes : IsBytes wire
wire-IsBytes = are_bytes-IsBytes wire refl

wire_accepted :
    decode_frame (some wire) 14 (some blank_frame)
    ≡ record { status = Status.ok; output = some sample_frame }
unfolding decode_frame decode_checks decoded_fields read_u16_le crc16_ccitt_false
wire_accepted = refl

decode_frame-IsFrame_example :
    (payload : Bytes) × (some sample ≡ some payload)
    × (2 ≡ length payload)
    × (1 ≡ protocol_version)
    × (length payload ≤ max_payload_size)
    × (take 14 wire ≡ frame_bytes 0 7 16 payload)
decode_frame-IsFrame_example =
    decode_frame-IsFrame wire 14 wire-IsBytes (omega arith) blank_frame wire_accepted

one_byte_detected_example :
    (decode_frame (some (set wire 10 0xAB)) 14 (some blank_frame)).status ≢ Status.ok
one_byte_detected_example =
    one_byte_detected wire 14 10 0xAB wire-IsBytes (omega arith) (omega arith) (omega arith)
      blank_frame (omega arith) (ap (λ d. d.status) wire_accepted)

decode_frame-take_example :
    decode_frame (some (take 16 (wire ++ array))) 14 (some blank_frame)
    ≡ decode_frame (some (wire ++ array)) 14 (some blank_frame)
unfolding read_u16_le
decode_frame-take_example = decode_frame-take (wire ++ array) 16 (omega arith) blank_frame

-- The check value of CRC-16/CCITT-FALSE, over the digits 1 to 9.
crc_of_digits :
    crc16_ccitt_false (some (0x31 ∷ 0x32 ∷ 0x33 ∷ 0x34 ∷ 0x35 ∷ 0x36 ∷ 0x37 ∷ 0x38 ∷ 0x39 ∷ [])) 9
    ≡ 0x29B1
unfolding crc16_ccitt_false
crc_of_digits = refl
