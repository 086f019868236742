-- ===== src/Protocol/Frame/Format.antt =====
-- The frame format as a list of bytes, independent of how the code stores and reads it.
use oomwoo_firmware.Prelude.{
  ℕ, ◌/◌, ◌%◌, ◌≡◌, [], ◌∷◌, ◌++◌, arith, length, length-append, Bytes, IsU8, IsU16, IsBytes,
  All-append,
}
use oomwoo_firmware.Protocol.{magic_0, magic_1, protocol_version}
use oomwoo_firmware.Protocol.Crc.{crc_loop}
use oomwoo_firmware.Protocol.Crc.Laws.{crc_loop-IsU16}
use oomwoo_firmware.Protocol.Frame.{frame_size}

-- A 16-bit word, low byte first.
abbrev pub word : ℕ → Bytes → Bytes
word value rest = value % 256 ∷ value / 256 ∷ rest

-- The ten header bytes in front of `rest`.
abbrev pub header : ℕ → ℕ → ℕ → ℕ → Bytes → Bytes
header flags sequence message_type payload_length rest =
    magic_0
    ∷ magic_1
    ∷ protocol_version
    ∷ flags
    ∷ word sequence (word message_type (word payload_length rest))

-- Header and payload.
abbrev pub frame_body : ℕ → ℕ → ℕ → Bytes → Bytes
frame_body flags sequence message_type payload =
    header flags sequence message_type (length payload) payload

abbrev pub checksum : Bytes → ℕ
checksum body = crc_loop body 0xffff

-- A whole frame: the body and its checksum.
abbrev pub frame_bytes : ℕ → ℕ → ℕ → Bytes → Bytes
frame_bytes flags sequence message_type payload =
    let body = frame_body flags sequence message_type payload in body ++ word (checksum body) []

pub checksum-IsU16 : (body : Bytes) → IsU16 (checksum body)
checksum-IsU16 body = crc_loop-IsU16 body 0xffff (omega arith)

pub length-frame_bytes :
    (flags sequence message_type : ℕ) (payload : Bytes)
    → length (frame_bytes flags sequence message_type payload) ≡ frame_size (length payload)
length-frame_bytes flags sequence message_type payload = omega (
  arith,
  length-append (frame_body flags sequence message_type payload)
      (word (checksum (frame_body flags sequence message_type payload)) []),
)

pub frame_bytes-IsBytes :
    (flags sequence message_type : ℕ) (payload : Bytes)
    → IsU8 flags
    → IsU16 sequence
    → IsU16 message_type
    → IsU16 (length payload)
    → IsBytes payload
    → IsBytes (frame_bytes flags sequence message_type payload)
frame_bytes-IsBytes flags sequence message_type payload hf hs ht hl hp =
    let body = frame_body flags sequence message_type payload in
    let low : IsBytes (word sequence (word message_type (word (length payload) payload))) = (
      omega arith,
      (omega arith, (omega arith, (omega arith, (omega arith, (omega arith, hp))))),
    ) in
    All-append IsU8 body (word (checksum body) [])
      (omega arith, (omega arith, (omega arith, (hf, low))))
      (omega arith, (omega (arith, checksum-IsU16 body), tt))
