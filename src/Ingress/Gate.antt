-- ===== src/Ingress/Gate.antt =====
-- What passes the gate.
use oomwoo_firmware.Prelude.{
  ℕ, ◌≡◌, ◌⊎◌, refl, sym, ap, ap₂, ◌∙◌, inl, inr, Option, none, some, arith, length, Bytes, IsBytes,
}
use oomwoo_firmware.Protocol.{DecodedFrame, protocol_version}
use oomwoo_firmware.Protocol.Stream.Invariant.{Framed}
use oomwoo_firmware.Messages.{
  MessageType, Direction, message_direction, MessageResult, message_payload_size, from_code,
  direction_of, size_of,
}
use oomwoo_firmware.Messages.Structs.{Payload, Message, Punning, cleared_message}
use oomwoo_firmware.Messages.Layout.{member_bytes}
use oomwoo_firmware.Messages.Validate.Ranges.{InRange, IsMessage}
use oomwoo_firmware.Messages.Decode.{DecodedMessage, decode_payload, decoded_member, finish_decode}
use oomwoo_firmware.Messages.RoundTrip.{decode_payload-IsMessage}
use oomwoo_firmware.Messages.Errors.{decode_payload_sized}
use oomwoo_firmware.Ingress.{
  IngressResult, map_message_result, validate_frame, validate_directed, message_of,
}

-- A frame and a message that the consumer may be given together.
pub record Gated (f : DecodedFrame) (m : Message) : Type 0 where
  pub version : f.version ≡ protocol_version
  pub direction :
      (message_direction f.message_type ≡ Direction.cpu_to_mcu)
      ⊎ (message_direction f.message_type ≡ Direction.both)
  pub typed : m.type ≡ f.message_type
  pub message : IsMessage m
  pub range : InRange m.payload
  pub payload : f.payload ≡ some (member_bytes m.payload)

finish_decode-output :
    (pun : Punning) (t : ℕ) (p : Option Payload)
    → (finish_decode pun t p).output ≡ some (message_of (finish_decode pun t p).output)
unfolding finish_decode
finish_decode-output pun t none = refl
finish_decode-output pun t (some p) = refl

decode_payload-output :
    (pun : Punning) (t n : ℕ) (bytes : Bytes) (old : Message)
    → let d = decode_payload pun t (some bytes) n (some old) in
      d.output ≡ some (message_of d.output)
unfolding decode_payload
decode_payload-output pun t n bytes old =
    ground (arith, finish_decode-output pun t (decoded_member (from_code t) bytes))

map-ok : (r : MessageResult) → map_message_result r ≡ IngressResult.ok → r ≡ MessageResult.ok
map-ok r e = ground arith

-- A frame accepted behind the first tests, whose payload is these bytes.
directed-Gated :
    (pun : Punning) (f : DecodedFrame) (bytes : Bytes)
    → IsBytes bytes
    → f.payload ≡ some bytes
    → f.payload_length ≡ length bytes
    → f.version ≡ protocol_version
    → (message_direction f.message_type ≡ Direction.cpu_to_mcu)
      ⊎ (message_direction f.message_type ≡ Direction.both)
    → let d = decode_payload pun f.message_type f.payload f.payload_length (some cleared_message) in
      d.result ≡ MessageResult.ok → Gated f (message_of d.output)
directed-Gated pun f bytes h shown sized version direction e =
    let d = decode_payload pun f.message_type f.payload f.payload_length (some cleared_message) in
    let read =
      decode_payload pun f.message_type (some bytes) (length bytes) (some cleared_message) in
    let same : d ≡ read =
      ap₂
        (λ (p : Option Bytes) (n : ℕ). decode_payload pun f.message_type p n (some cleared_message))
        shown sized in
    let output : read.output ≡ some (message_of d.output) =
      decode_payload-output pun f.message_type (length bytes) bytes cleared_message
      ∙ ap (λ (x : DecodedMessage). some (message_of x.output)) (sym same) in
    let whole : read ≡ record { result = MessageResult.ok; output = some (message_of d.output) } =
      ap₂ (λ r o. record { result = r; output = o })
        (ap (λ (x : DecodedMessage). x.result) (sym same) ∙ e) output in
    let (message, range, typed, payload) =
      decode_payload-IsMessage pun f.message_type bytes cleared_message (message_of d.output) h
        whole in
    record {
      version = version;
      direction = direction;
      typed = typed;
      message = message;
      range = range;
      payload = shown ∙ ap some (sym payload);
    }

validate_directed-Gated :
    (pun : Punning) (f : DecodedFrame) (direction : Direction)
    → Framed f
    → message_direction f.message_type ≡ direction
    → (validate_directed pun f direction).result ≡ IngressResult.ok
    → Gated f (message_of (validate_directed pun f direction).output)
unfolding validate_directed
validate_directed-Gated pun f Direction.unknown v way e = absurd cc
validate_directed-Gated pun f Direction.mcu_to_cpu v way e = absurd cc
validate_directed-Gated pun f Direction.cpu_to_mcu v way e =
    directed-Gated pun f v.bytes v.ranged v.shown v.sized v.version (inl way) (map-ok _ e)
validate_directed-Gated pun f Direction.both v way e =
    directed-Gated pun f v.bytes v.ranged v.shown v.sized v.version (inr way) (map-ok _ e)

validate_frame-Framed :
    (pun : Punning) (f : DecodedFrame) (old : Message)
    → Framed f
    → validate_frame pun (some f) (some old)
      ≡ validate_directed pun f (message_direction f.message_type)
unfolding validate_frame
validate_frame-Framed pun f old v = rw (v.shown, v.version)

-- A frame as the stream decoder delivers it that is accepted comes from the CPU or from both sides,
-- and its message has the frame's type, the member that this type calls for, all fields in their
-- ranges, and the frame's payload as its bytes.
pub validate_frame-Gated :
    (pun : Punning) (f : DecodedFrame) (old : Message)
    → Framed f
    → (validate_frame pun (some f) (some old)).result ≡ IngressResult.ok
    → Gated f (message_of (validate_frame pun (some f) (some old)).output)
validate_frame-Gated pun f old v =
    rw (validate_frame-Framed pun f old v)
      (λ e. validate_directed-Gated pun f (message_direction f.message_type) v refl e)

-- The results that such a frame can have.
pub data Verdict : IngressResult → Type 0 where
  accepted : Verdict IngressResult.ok
  wrong_direction : Verdict IngressResult.wrong_direction
  unknown_type : Verdict IngressResult.unknown_type
  wrong_payload_length : Verdict IngressResult.wrong_payload_length
  value_out_of_range : Verdict IngressResult.value_out_of_range

sized-ok :
    (t : ℕ)
    → (message_direction t ≡ Direction.cpu_to_mcu) ⊎ (message_direction t ≡ Direction.both)
    → (message_payload_size t (some 0)).result ≡ MessageResult.ok
unfolding message_direction message_payload_size
sized-ok t e = go (from_code t) e
  where
    go :
        (k : Option MessageType)
        → (direction_of k ≡ Direction.cpu_to_mcu) ⊎ (direction_of k ≡ Direction.both)
        → (size_of k).result ≡ MessageResult.ok
    go none e = ground arith
    go (some k) e = ground arith

decoded-Verdict :
    (pun : Punning) (f : DecodedFrame)
    → Framed f
    → (message_direction f.message_type ≡ Direction.cpu_to_mcu)
      ⊎ (message_direction f.message_type ≡ Direction.both)
    → Verdict (
        map_message_result
          (decode_payload pun f.message_type f.payload f.payload_length
            (some cleared_message)).result)
decoded-Verdict pun f v way =
    rw v.shown
      (elim (decode_payload_sized pun f.message_type f.payload_length v.bytes cleared_message
        (sized-ok f.message_type way)) [
          | inl e ↦ rw e accepted
          | inr (inl e) ↦ rw e wrong_payload_length
          | inr (inr e) ↦ rw e value_out_of_range
        ])

validate_directed-Verdict :
    (pun : Punning) (f : DecodedFrame) (direction : Direction)
    → Framed f
    → message_direction f.message_type ≡ direction
    → Verdict (validate_directed pun f direction).result
unfolding validate_directed
validate_directed-Verdict pun f Direction.unknown v way = unknown_type
validate_directed-Verdict pun f Direction.mcu_to_cpu v way = wrong_direction
validate_directed-Verdict pun f Direction.cpu_to_mcu v way = decoded-Verdict pun f v (inl way)
validate_directed-Verdict pun f Direction.both v way = decoded-Verdict pun f v (inr way)

pub validate_frame-Verdict :
    (pun : Punning) (f : DecodedFrame) (old : Message)
    → Framed f
    → Verdict (validate_frame pun (some f) (some old)).result
validate_frame-Verdict pun f old v =
    rw (validate_frame-Framed pun f old v)
      (validate_directed-Verdict pun f (message_direction f.message_type) v refl)
