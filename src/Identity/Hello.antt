-- ===== src/Identity/Hello.antt =====
-- The frame that the identity service writes, and what it does otherwise.
use oomwoo_firmware.Prelude.{
  ℕ, ◌+◌, ◌≤◌, ◌<◌, ◌≡◌, ◌⊎◌, ◌↔◌, refl, sym, ap, ◌∙◌, inl, inr, true, false, Option, none, some,
  [], ◌++◌, append-nil, arith, length, drop, replicate, ltb, not-lt→ltb, Bool-cases, Bytes, IsU16,
  IsU32, u16, is_null,
}
use oomwoo_firmware.Protocol.{Status, DecodedFrame, protocol_version}
use oomwoo_firmware.Protocol.Frame.{Encoded, encode_frame, decode_frame}
use oomwoo_firmware.Protocol.Frame.Format.{frame_bytes}
use oomwoo_firmware.Protocol.Frame.Encode.{encode_frame_lem, encode_frame_status}
use oomwoo_firmware.Protocol.Frame.Decode.RoundTrip.{decode_frame_bytes}
use oomwoo_firmware.Messages.{MessageType, code, MessageResult}
use oomwoo_firmware.Messages.Structs.{Message, Punning}
use oomwoo_firmware.Messages.Layout.{member_bytes, Stores}
use oomwoo_firmware.Messages.Validate.Ranges.{IsMessage}
use oomwoo_firmware.Messages.Decode.{decode_payload}
use oomwoo_firmware.Messages.RoundTrip.{encode_payload_lem, decode_payload_bytes}
use oomwoo_firmware.Identity.{
  Identity, IdentityResult, Emitted, hello_message, hello_payload_size, hello_frame_size,
  finish_hello, encode_hello, emit_hello,
}

-- The fields are in the ranges of their C types.
pub record IsIdentity (i : Identity) : Type 0 where
  pub major16 : IsU16 i.firmware_major
  pub minor16 : IsU16 i.firmware_minor
  pub build32 : IsU32 i.build_id
  pub sequence16 : IsU16 i.next_sequence

-- The bytes of the frame.
abbrev pub hello_frame : Identity → Bytes
hello_frame i =
    frame_bytes 0 i.next_sequence (code MessageType.mcu_hello)
      (member_bytes (hello_message i).payload)

-- After a hello.
abbrev pub advanced : Identity → Identity
advanced i = record i { next_sequence = u16 (i.next_sequence + 1) }

hello-IsMessage : (i : Identity) → IsIdentity i → IsMessage (hello_message i)
hello-IsMessage i v = record {
  kind = MessageType.mcu_hello;
  typed = refl;
  stores = Stores.mcu_hello _ v.major16 v.minor16 v.build32;
}

-- An emit with room in the output array succeeds, writes exactly the frame of the identity's hello
-- with its next sequence number, leaves the rest of the array alone, reports 20 bytes, and moves the
-- sequence number on, from 65535 to 0.
pub emit_hello_lem :
    (pun : Punning) (i : Identity) (out : Bytes) (capacity old : ℕ)
    → IsIdentity i
    → hello_frame_size ≤ capacity
    → capacity ≤ length out
    → emit_hello pun (some i) (some out) capacity (some old) ≡ record {
      result = IdentityResult.ok;
      identity = some (advanced i);
      output = some (hello_frame i ++ drop hello_frame_size out);
      output_length = some hello_frame_size;
    }
unfolding emit_hello encode_hello finish_hello
emit_hello_lem pun i out capacity old v enough room = rw (
  not-lt→ltb _ _ enough,
  encode_payload_lem pun (hello_message i) (hello-IsMessage i v) tt (replicate hello_payload_size 0)
      8 0 (omega arith) (omega arith),
  encode_frame_lem 0 i.next_sequence (code MessageType.mcu_hello)
      (member_bytes (hello_message i).payload) out (omega arith) v.sequence16 (omega arith)
      (omega arith) capacity 0 enough,
)

-- The CPU's side reads the identity back: a decode of the frame that an emit wrote gives a frame with
-- the identity's sequence number, and a payload decode of that frame's payload gives the firmware
-- versions and the build number.
pub decode-emit_hello :
    (pun other : Punning) (i : Identity) (out : Bytes) (capacity old : ℕ) (frame : DecodedFrame)
    (message : Message)
    → IsIdentity i
    → hello_frame_size ≤ capacity
    → capacity ≤ length out
    → let e = emit_hello pun (some i) (some out) capacity (some old) in
      let payload = member_bytes (hello_message i).payload in
      (decode_frame e.output hello_frame_size (some frame) ≡ record {
        status = Status.ok;
        output = some (record {
          version = protocol_version;
          flags = 0;
          sequence = i.next_sequence;
          message_type = code MessageType.mcu_hello;
          payload_length = 8;
          payload = some payload;
        });
      })
      × (decode_payload other (code MessageType.mcu_hello) (some payload) 8 (some message)
          ≡ record { result = MessageResult.ok; output = some (hello_message i) })
decode-emit_hello pun other i out capacity old frame message v enough room =
    let m = hello_message i in
    (
      ap (λ (e : Emitted). decode_frame e.output hello_frame_size (some frame))
            (emit_hello_lem pun i out capacity old v enough room)
          ∙ decode_frame_bytes 0 i.next_sequence (code MessageType.mcu_hello)
              (member_bytes m.payload) (drop hello_frame_size out) v.sequence16 (omega arith)
              (omega arith) frame,
      ap (λ b. decode_payload other (code MessageType.mcu_hello) (some b) 8 (some message))
            (sym (append-nil (member_bytes m.payload)))
          ∙ decode_payload_bytes other m (hello-IsMessage i v) tt [] message,
    )

finish_hello_ok :
    (i : Identity) (e : Encoded)
    → e.status ≡ Status.ok
    → ((finish_hello i e e.status).result ≡ IdentityResult.ok)
      × ((finish_hello i e e.status).identity ≡ some (advanced i))
unfolding finish_hello
finish_hello_ok i e fine = rw fine (refl, refl)

encode_hello_results :
    (pun : Punning) (i : Identity) (out : Bytes) (capacity : ℕ)
    → IsIdentity i
    → let e = encode_hello pun i out capacity in
      ((e.result ≡ IdentityResult.output_too_small)
        × (capacity < hello_frame_size)
        × (e.identity ≡ some i)
        × (e.output ≡ some out)
        × (e.output_length ≡ some 0))
      ⊎ ((e.result ≡ IdentityResult.ok)
          × (hello_frame_size ≤ capacity)
          × (e.identity ≡ some (advanced i)))
unfolding encode_hello
encode_hello_results pun i out capacity v = elim (Bool-cases (ltb capacity hello_frame_size)) [
  | inl small ↦ rw small (inl (refl, ground arith, refl, refl, refl))
  | inr room ↦
      let payload = member_bytes (hello_message i).payload in
      let encoded =
        encode_payload_lem pun (hello_message i) (hello-IsMessage i v) tt
          (replicate hello_payload_size 0) 8 0 (omega arith) (omega arith) in
      let frame =
        encode_frame (code MessageType.mcu_hello) (some payload) 8 i.next_sequence 0 (some out)
          capacity (some 0) in
      let fine : frame.status ≡ Status.ok =
        let statuses =
          encode_frame_status (code MessageType.mcu_hello) 8 i.next_sequence 0 capacity
            (some payload) (some out) (some 0) in
        ground arith in
      let (result, identity) = finish_hello_ok i frame fine in
      rw (room, encoded) (inr (result, ground arith, identity))
]

-- The results of an emit for an identity, with a length to report to: it succeeds exactly when there
-- is an output of 20 bytes of capacity, gives the two errors exactly when one of these is missing, and
-- never a codec error. Without success the sequence number is not consumed, the output is not touched
-- and the length is zero.
pub emit_hello_errors :
    (pun : Punning) (i : Identity) (output : Option Bytes) (capacity old : ℕ)
    → IsIdentity i
    → let e = emit_hello pun (some i) output capacity (some old) in
      ((e.result ≡ IdentityResult.ok) ↔ ((is_null output ≡ false) × (hello_frame_size ≤ capacity)))
      × ((e.result ≡ IdentityResult.null_argument) ↔ (is_null output ≡ true))
      × ((e.result ≡ IdentityResult.output_too_small)
          ↔ ((is_null output ≡ false) × (capacity < hello_frame_size)))
      × (((e.result ≡ IdentityResult.ok) × (e.identity ≡ some (advanced i)))
          ⊎ ((e.identity ≡ some i) × (e.output ≡ output) × (e.output_length ≡ some 0)))
unfolding emit_hello
emit_hello_errors pun i none capacity old v =
    (ground arith, ground arith, ground arith, ground arith)
emit_hello_errors pun i (some out) capacity old v =
    let results = encode_hello_results pun i out capacity v in
    (ground arith, ground arith, ground arith, ground arith)
