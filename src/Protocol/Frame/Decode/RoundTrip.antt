-- ===== src/Protocol/Frame/Decode/RoundTrip.antt =====
-- The decoder reads back what the encoder wrote.
use oomwoo_firmware.Prelude.{
  ℕ, ◌+◌, ◌-◌, ◌/◌, ◌%◌, ◌≤◌, ◌≡◌, refl, sym, ap, ap₂, ◌∙◌, some, [], ◌∷◌, ◌++◌, append_assoc,
  arith, length, drop, take, take_prefix, get_or-append, Bytes, IsU16, byte_at,
}
use oomwoo_firmware.Protocol.{
  ok, DecodedFrame, magic_0, magic_1, protocol_version, header_size, crc_size, max_payload_size,
}
use oomwoo_firmware.Protocol.Wire.{read_u16_le}
use oomwoo_firmware.Protocol.Wire.Laws.{read_u16_le_lem}
use oomwoo_firmware.Protocol.Crc.{crc16_ccitt_false}
use oomwoo_firmware.Protocol.Frame.{
  frame_size, decoded_fields, store_decoded, decode_frame, encode_frame,
}
use oomwoo_firmware.Protocol.Frame.Format.{word, frame_body, frame_bytes, checksum, checksum-IsU16}
use oomwoo_firmware.Protocol.Frame.Encode.{encode_frame_lem}
use oomwoo_firmware.Protocol.Frame.Decode.{Passes, Passes-ok, crc16-take}

-- A word read from the two bytes that stand for it.
read_word :
    (front rest : Bytes) (at v : ℕ)
    → at ≡ length front
    → IsU16 v
    → read_u16_le (front ++ word v rest) at ≡ v
read_word front rest at v e h =
    let bytes = front ++ word v rest in
    let lo : byte_at bytes at ≡ v % 256 = get_or-append front (word v rest) 0 at 0 (omega arith) in
    let hi : byte_at bytes (at + 1) ≡ v / 256 =
      get_or-append front (word v rest) 1 (at + 1) 0 (omega arith) in
    omega (arith, read_u16_le_lem bytes at (omega arith) (omega arith))

less_crc : (n : ℕ) → frame_size n - crc_size ≡ header_size + n
less_crc n = omega arith

module _ (flags sequence message_type : ℕ) (payload rest : Bytes) (sequence16 : IsU16 sequence)
    (type16 : IsU16 message_type) (small : length payload ≤ max_payload_size) where
  abbrev stream : Bytes
  stream = frame_bytes flags sequence message_type payload ++ rest

  abbrev body : Bytes
  body = frame_body flags sequence message_type payload

  abbrev len : ℕ
  len = length payload

  regroup : stream ≡ body ++ word (checksum body) rest
  regroup = append_assoc body (word (checksum body) []) rest

  abbrev head : Bytes
  head = magic_0 ∷ magic_1 ∷ protocol_version ∷ flags ∷ []

  abbrev tail : Bytes
  tail = (payload ++ word (checksum body) []) ++ rest

  reads_sequence : read_u16_le stream 4 ≡ sequence
  reads_sequence =
      read_word head (word message_type (word len tail)) 4 sequence (omega arith) sequence16

  reads_type : read_u16_le stream 6 ≡ message_type
  reads_type =
      read_word (head ++ word sequence []) (word len tail) 6 message_type (omega arith) type16

  reads_length : read_u16_le stream 8 ≡ len
  reads_length =
      read_word (head ++ word sequence (word message_type [])) tail 8 len (omega arith)
        (omega arith)

  reads_crc : read_u16_le stream (header_size + len) ≡ checksum body
  reads_crc =
      ap (λ s. read_u16_le s (header_size + len)) regroup
      ∙ read_word body rest (header_size + len) (checksum body) (omega arith) (checksum-IsU16 body)

  summed : crc16_ccitt_false (some stream) (header_size + len) ≡ checksum body
  summed =
      crc16-take stream (header_size + len)
      ∙ ap checksum (
          ap₂ (λ k (s : Bytes). take k s) {y = length body} (omega arith) regroup
          ∙ take_prefix body (word (checksum body) rest))

  pub frame-Passes : Passes stream (frame_size len)
  frame-Passes = record {
    long = omega arith;
    first = refl;
    second = refl;
    version = refl;
    small = rw reads_length small;
    exact = rw reads_length;
    intact = rw (less_crc len) (reads_crc ∙ sym summed);
  }

  fields_lem : decoded_fields stream ≡ record {
    version = protocol_version;
    flags = flags;
    sequence = sequence;
    message_type = message_type;
    payload_length = len;
    payload = some payload;
  }
  unfolding decoded_fields
  fields_lem =
      let cut : take len tail ≡ payload =
        ap (take len) (append_assoc payload (word (checksum body) []) rest)
        ∙ take_prefix payload (word (checksum body) rest) in
      rw (reads_length, reads_sequence, reads_type, cut)

  -- Whatever follows a frame, a decode of the frame's length succeeds and returns its fields.
  pub decode_frame_bytes :
      (old : DecodedFrame)
      → decode_frame (some stream) (frame_size len) (some old) ≡ record {
        status = ok;
        output = some (record {
          version = protocol_version;
          flags = flags;
          sequence = sequence;
          message_type = message_type;
          payload_length = len;
          payload = some payload;
        });
      }
  unfolding decode_frame store_decoded
  decode_frame_bytes old = rw (Passes-ok stream (frame_size len) frame-Passes) (rw fields_lem)

-- An encode of a 16-bit message type and sequence and at most 512 payload bytes into an array with
-- room succeeds, reports the frame's length, and a decode of what it wrote gives the fields back,
-- whatever the array held before and however large it is.
pub decode_frame-encode_frame :
    (flags sequence message_type : ℕ) (payload out : Bytes) (capacity old_length : ℕ)
    (old : DecodedFrame)
    → IsU16 message_type
    → IsU16 sequence
    → length payload ≤ max_payload_size
    → frame_size (length payload) ≤ capacity
    → capacity ≤ length out
    → let e =
        encode_frame message_type
          (some payload)
          (length payload)
          sequence
          flags
          (some out)
          capacity
          (some old_length) in
      (e.status ≡ ok)
      × (e.output_length ≡ some (frame_size (length payload)))
      × (decode_frame e.output (frame_size (length payload)) (some old) ≡ record {
        status = ok;
        output = some (record {
          version = protocol_version;
          flags = flags;
          sequence = sequence;
          message_type = message_type;
          payload_length = length payload;
          payload = some payload;
        });
      })
decode_frame-encode_frame flags sequence message_type payload out capacity old_length old ht hs
      small enough room =
    rw
      (encode_frame_lem flags sequence message_type payload out ht hs small (omega arith) capacity
        old_length enough)
      (
        refl,
        refl,
        decode_frame_bytes flags sequence message_type payload
            (drop (frame_size (length payload)) out) hs ht small old,
      )
