-- ===== src/Messages/RoundTrip.antt =====
-- A payload encode and a payload decode undo each other.
use mathlib.Core.Option.{some-injective}
use oomwoo_firmware.Prelude.{
  ℕ, ◌≤◌, ◌≡◌, ◌⊎◌, refl, sym, ap, ◌∙◌, subst, inl, inr, Bool, true, false, not, ◌&&◌, ◌==◌,
  if◌then◌else◌, not-lt→ltb, Option, none, some, ◌++◌, arith, length, drop, Bytes, IsBytes,
}
use oomwoo_firmware.Messages.{
  MessageType, from_code, MessageResult, is_ok, size_of, size_or, message_payload_size,
}
use oomwoo_firmware.Messages.Codes.{from_code-code, from_code-eq-some}
use oomwoo_firmware.Messages.Structs.{Payload, Message, Punning, cleared_message}
use oomwoo_firmware.Messages.Layout.{member_bytes}
use oomwoo_firmware.Messages.Validate.{message_validate}
use oomwoo_firmware.Messages.Validate.Ranges.{
  InRange, IsMessage, size_of-Stores, message_validate-Validated,
}
use oomwoo_firmware.Messages.Encode.{encode_payload, encode_message, finish_encode, written_member}
use oomwoo_firmware.Messages.Encode.Written.{written_member_lem}
use oomwoo_firmware.Messages.Decode.{decode_payload, decoded_member, finish_decode}
use oomwoo_firmware.Messages.Decode.Members.{decoded_member_bytes}
use oomwoo_firmware.Messages.Decode.Inverse.{decoded_member-Stores}

size_of-IsMessage :
    (m : Message) (old : ℕ)
    → IsMessage m
    → message_payload_size m.type (some old)
      ≡ record { result = MessageResult.ok; payload_size = some (length (member_bytes m.payload)) }
unfolding message_payload_size
size_of-IsMessage m old v =
    ap size_of (ap from_code v.typed ∙ from_code-code v.kind)
    ∙ size_of-Stores v.kind m.payload v.stores

validate-ok :
    (pun : Punning) (m : Message)
    → IsMessage m
    → InRange m.payload
    → message_validate pun (some m) ≡ MessageResult.ok
validate-ok pun m v r = elim (message_validate-Validated pun m v) [
  | inl (ok, range) ↦ ok
  | inr (refused, out) ↦ absurd (out r)
]

and_false : (b : Bool) → (b && false) ≡ false
and_false b = ground arith

==_self : (n : ℕ) → (n == n) ≡ true
==_self n = ground arith

module _ (pun : Punning) (m : Message) (v : IsMessage m) (r : InRange m.payload) where
  abbrev bytes : Bytes
  bytes = member_bytes m.payload

  -- An encode of a message whose union holds the member that its type calls for, with all fields in
  -- their ranges, into an array with room succeeds, writes exactly the payload's bytes, leaves the
  -- rest of the array alone, and reports the payload's length.
  pub encode_payload_lem :
      (out : Bytes) (capacity old : ℕ)
      → length (member_bytes m.payload) ≤ capacity
      → capacity ≤ length out
      → encode_payload pun (some m) (some out) capacity (some old) ≡ record {
        result = MessageResult.ok;
        output = some (member_bytes m.payload ++ drop (length (member_bytes m.payload)) out);
        output_length = some (length (member_bytes m.payload));
      }
  unfolding encode_payload encode_message finish_encode
  encode_payload_lem out capacity old enough room =
      let written : written_member pun (from_code m.type) m.payload out
          ≡ some (bytes ++ drop (length bytes) out) =
        ap (λ k. written_member pun k m.payload out) (ap from_code v.typed ∙ from_code-code v.kind)
        ∙ written_member_lem pun v.kind m.payload out v.stores (omega arith) in
      rw (
        validate-ok pun m v r,
        size_of-IsMessage m 0 v,
        not-lt→ltb _ _ enough,
        and_false (not (length bytes == 0)),
        written,
      )

  -- A decode of the payload's bytes, whatever follows them, gives the message back.
  pub decode_payload_bytes :
      (rest : Bytes) (old : Message)
      → decode_payload pun m.type
          (some (member_bytes m.payload ++ rest))
          (length (member_bytes m.payload))
          (some old)
        ≡ record { result = MessageResult.ok; output = some m }
  unfolding decode_payload finish_decode
  decode_payload_bytes rest old =
      let read : decoded_member (from_code m.type) (bytes ++ rest) ≡ some m.payload =
        ap (λ k. decoded_member k (bytes ++ rest)) (ap from_code v.typed ∙ from_code-code v.kind)
        ∙ decoded_member_bytes v.kind m.payload rest v.stores in
      rw (size_of-IsMessage m 0 v, ==_self (length bytes), read, validate-ok pun m v r)

-- An encode and a decode, by compilers that may differ: a message whose union holds the member that
-- its type calls for, with all fields in their ranges, is encoded, and a decode of the reported length
-- from the array that was written gives the message back.
pub decode_payload-encode_payload :
    (pun other : Punning) (m old_message : Message) (out : Bytes) (capacity old : ℕ)
    → IsMessage m
    → InRange m.payload
    → length (member_bytes m.payload) ≤ capacity
    → capacity ≤ length out
    → let n = length (member_bytes m.payload) in
      let e = encode_payload pun (some m) (some out) capacity (some old) in
      (e.result ≡ MessageResult.ok)
      × (e.output_length ≡ some n)
      × (decode_payload other m.type e.output n (some old_message)
          ≡ record { result = MessageResult.ok; output = some m })
decode_payload-encode_payload pun other m old_message out capacity old v r enough room =
    rw (encode_payload_lem pun m v r out capacity old enough room) (
      refl,
      refl,
      decode_payload_bytes other m v r (drop (length (member_bytes m.payload)) out) old_message,
    )

is_ok-true : (r : MessageResult) → is_ok r ≡ true → r ≡ MessageResult.ok
is_ok-true r e = ground arith

Option-cases : {A : Type 0} (q : Option A) → (q ≡ none) ⊎ ((a : A) × (q ≡ some a))
Option-cases none = inl refl
Option-cases (some a) = inr (a, refl)

size_of-some :
    (k : Option MessageType) → (size_of k).payload_size ≡ some (size_or (size_of k).payload_size)
size_of-some none = refl
size_of-some (some k) = ground arith

finish_decode-eq-ok :
    (pun : Punning) (t : ℕ) (q : Option Payload) (m : Message)
    → finish_decode pun t q ≡ record { result = MessageResult.ok; output = some m }
    → (q ≡ some m.payload) × (m.type ≡ t) × (message_validate pun (some m) ≡ MessageResult.ok)
unfolding finish_decode
finish_decode-eq-ok pun t none m e = cc
finish_decode-eq-ok pun t (some p) m e =
    let message : Message = record { type = t; payload = p } in
    let result = message_validate pun (some message) in
    let valid : result ≡ MessageResult.ok = ap (λ d. d.result) e in
    let same : message ≡ m = some-injective _ _ (
      ap (λ r. some (if is_ok r then message else cleared_message)) (sym valid)
      ∙ ap (λ d. d.output) e) in
    (
      ap (λ (x : Message). some x.payload) same,
      sym (ap (λ (x : Message). x.type) same),
      subst (λ x. message_validate pun (some x) ≡ MessageResult.ok) same valid,
    )

decode_payload-eq-ok :
    (pun : Punning) (t : ℕ) (b : Bytes) (old m : Message)
    → decode_payload pun t (some b) (length b) (some old)
      ≡ record { result = MessageResult.ok; output = some m }
    → (is_ok (size_of (from_code t)).result ≡ true)
      × ((size_of (from_code t)).payload_size ≡ some (length b))
      × (finish_decode pun t (decoded_member (from_code t) b)
          ≡ record { result = MessageResult.ok; output = some m })
unfolding decode_payload message_payload_size
decode_payload-eq-ok pun t b old m e = ground (arith, size_of-some (from_code t))

-- What a decode accepts is a payload of its type: for bytes, the message has the type asked for, its
-- union the member that the type calls for with all fields in their ranges, and the input is exactly
-- what an encode of the message writes.
pub decode_payload-IsMessage :
    (pun : Punning) (t : ℕ) (b : Bytes) (old m : Message)
    → IsBytes b
    → decode_payload pun t (some b) (length b) (some old)
      ≡ record { result = MessageResult.ok; output = some m }
    → IsMessage m × InRange m.payload × (m.type ≡ t) × (member_bytes m.payload ≡ b)
decode_payload-IsMessage pun t b old m h e =
    let (sized, size, finished) = decode_payload-eq-ok pun t b old m e in
    let (read, typed, valid) = finish_decode-eq-ok pun t _ m finished in
    elim (Option-cases (from_code t)) [
      | inl nothing ↦ absurd (cc)
      | inr (k, found) ↦
          let (stores, bytes) =
            decoded_member-Stores b h k m.payload
              (ap (λ q. (size_of q).payload_size) (sym found) ∙ size)
              (ap (λ q. decoded_member q b) (sym found) ∙ read) in
          let v : IsMessage m = record {
            kind = k;
            typed = typed ∙ from_code-eq-some t k found;
            stores = stores;
          } in
          elim (message_validate-Validated pun m v) [
            | inl (ok, range) ↦ (v, range, typed, bytes)
            | inr (refused, out) ↦ absurd (cc)
          ]
    ]
