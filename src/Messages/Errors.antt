-- ===== src/Messages/Errors.antt =====
-- When a payload decode and a payload encode fail, and what they leave then.
use oomwoo_firmware.Prelude.{
  ℕ, ◌≤◌, ◌<◌, ◌≡◌, ◌≢◌, ◌⊎◌, ◌↔◌, refl, inl, inr, Bool, true, false, Bool-cases, Option, none,
  some, arith, Bytes, is_null, bytes_of,
}
use oomwoo_firmware.Messages.{
  MessageType, from_code, MessageResult, is_ok, size_of, size_or, message_payload_size,
}
use oomwoo_firmware.Messages.Structs.{Payload, Message, Punning, cleared_message}
use oomwoo_firmware.Messages.Validate.{message_validate, validate_member, refuse_if}
use oomwoo_firmware.Messages.Decode.{decode_payload, decoded_member, finish_decode}
use oomwoo_firmware.Messages.Encode.{encode_payload, encode_message, finish_encode, written_member}

refuse_if_two :
    (b : Bool) → (refuse_if b ≡ MessageResult.ok) ⊎ (refuse_if b ≡ MessageResult.value_out_of_range)
refuse_if_two true = inr refl
refuse_if_two false = inl refl

validate_member_two :
    (pun : Punning) (k : Option MessageType) (p : Payload)
    → (validate_member pun k p ≡ MessageResult.ok)
      ⊎ (validate_member pun k p ≡ MessageResult.value_out_of_range)
unfolding validate_member
validate_member_two pun (some MessageType.heartbeat) p = ground arith
validate_member_two pun (some MessageType.estop_set) p = ground arith
validate_member_two pun (some MessageType.drive_setpoint) p = refuse_if_two _
validate_member_two pun (some MessageType.cleaning_motors_set) p = refuse_if_two _
validate_member_two pun (some MessageType.lidar_motor_set) p = ground arith
validate_member_two pun (some MessageType.led_set) p = ground arith
validate_member_two pun (some MessageType.safety_event) p = refuse_if_two _
validate_member_two pun _ p = inl refl

-- A validation gives the size's error, or one of two results.
message_validate_lem :
    (pun : Punning) (m : Message)
    → let result = message_validate pun (some m) in
      let sized = (size_of (from_code m.type)).result in
      ((is_ok sized ≡ false) × (result ≡ sized))
      ⊎ ((is_ok sized ≡ true)
          × ((result ≡ MessageResult.ok) ⊎ (result ≡ MessageResult.value_out_of_range)))
unfolding message_validate message_payload_size
message_validate_lem pun m = ground (arith, validate_member_two pun (from_code m.type) m.payload)

size_of_result :
    (k : Option MessageType)
    → ((size_of k).result ≡ MessageResult.ok)
      ⊎ ((size_of k).result ≡ MessageResult.unknown_type)
      ⊎ ((size_of k).result ≡ MessageResult.payload_undefined)
size_of_result none = ground arith
size_of_result (some k) = ground arith

module _ (b : Bytes) where
  decoded_member-some :
      (k : Option MessageType)
      → is_ok (size_of k).result ≡ true
      → (p : Payload) × (decoded_member k b ≡ some p)
  unfolding decoded_member
  decoded_member-some none e = absurd cc
  decoded_member-some (some MessageType.heartbeat) e = (_, refl)
  decoded_member-some (some MessageType.estop_set) e = (_, refl)
  decoded_member-some (some MessageType.clear_latched_fault) e = (_, refl)
  decoded_member-some (some MessageType.identify_request) e = (_, refl)
  decoded_member-some (some MessageType.drive_setpoint) e = (_, refl)
  decoded_member-some (some MessageType.cleaning_motors_set) e = (_, refl)
  decoded_member-some (some MessageType.lidar_motor_set) e = (_, refl)
  decoded_member-some (some MessageType.led_set) e = (_, refl)
  decoded_member-some (some MessageType.ack) e = (_, refl)
  decoded_member-some (some MessageType.nack) e = (_, refl)
  decoded_member-some (some MessageType.mcu_hello) e = (_, refl)
  decoded_member-some (some MessageType.fast_telemetry) e = (_, refl)
  decoded_member-some (some MessageType.safety_event) e = (_, refl)
  decoded_member-some (some MessageType.power_telemetry) e = absurd cc
  decoded_member-some (some MessageType.mcu_diagnostic) e = absurd cc
  decoded_member-some (some MessageType.safety_state) e = (_, refl)

module _ (pun : Punning) (p : Payload) (out : Bytes) where
  written_member-some :
      (k : Option MessageType)
      → is_ok (size_of k).result ≡ true
      → (written : Bytes) × (written_member pun k p out ≡ some written)
  unfolding written_member
  written_member-some none e = absurd cc
  written_member-some (some MessageType.heartbeat) e = (_, refl)
  written_member-some (some MessageType.estop_set) e = (_, refl)
  written_member-some (some MessageType.clear_latched_fault) e = (_, refl)
  written_member-some (some MessageType.identify_request) e = (_, refl)
  written_member-some (some MessageType.drive_setpoint) e = (_, refl)
  written_member-some (some MessageType.cleaning_motors_set) e = (_, refl)
  written_member-some (some MessageType.lidar_motor_set) e = (_, refl)
  written_member-some (some MessageType.led_set) e = (_, refl)
  written_member-some (some MessageType.ack) e = (_, refl)
  written_member-some (some MessageType.nack) e = (_, refl)
  written_member-some (some MessageType.mcu_hello) e = (_, refl)
  written_member-some (some MessageType.fast_telemetry) e = (_, refl)
  written_member-some (some MessageType.safety_event) e = (_, refl)
  written_member-some (some MessageType.power_telemetry) e = absurd cc
  written_member-some (some MessageType.mcu_diagnostic) e = absurd cc
  written_member-some (some MessageType.safety_state) e = (_, refl)

finish_decode_lem :
    (pun : Punning) (t : ℕ) (b : Bytes)
    → is_ok (size_of (from_code t)).result ≡ true
    → let f = finish_decode pun t (decoded_member (from_code t) b) in
      (f.result ≡ MessageResult.ok)
      ⊎ ((f.result ≡ MessageResult.value_out_of_range) × (f.output ≡ some cleared_message))
unfolding finish_decode
finish_decode_lem pun t b e =
    let (p, found) = decoded_member-some b (from_code t) e in
    rw found (ground (arith, message_validate_lem pun (record { type = t; payload = p })))

-- With a payload and a type of known size there are three results.
pub decode_payload_sized :
    (pun : Punning) (t n : ℕ) (bytes : Bytes) (old : Message)
    → (message_payload_size t (some 0)).result ≡ MessageResult.ok
    → let result = (decode_payload pun t (some bytes) n (some old)).result in
      (result ≡ MessageResult.ok)
      ⊎ (result ≡ MessageResult.wrong_payload_length)
      ⊎ (result ≡ MessageResult.value_out_of_range)
unfolding decode_payload message_payload_size
decode_payload_sized pun t n bytes old e = ground (arith, finish_decode_lem pun t bytes)

-- The results of a payload decode. A missing output, or a missing payload with a length that is not
-- zero, is a null argument, and the output is not touched. Otherwise a type of unknown or undefined
-- size gives that error, a length other than the type's size a wrong length, and a decode that does
-- not succeed clears the output.
pub decode_payload_errors :
    (pun : Punning) (t n : ℕ) (payload : Option Bytes) (output : Option Message)
    → let d = decode_payload pun t payload n output in
      let sized = message_payload_size t (some 0) in
      let usable = (is_null output ≡ false) × ((is_null payload ≡ false) ⊎ (n ≡ 0)) in
      ((d.result ≡ MessageResult.null_argument) ↔ (¬ usable))
      × ((d.result ≡ MessageResult.unknown_type)
          ↔ (usable × (sized.result ≡ MessageResult.unknown_type)))
      × ((d.result ≡ MessageResult.payload_undefined)
          ↔ (usable × (sized.result ≡ MessageResult.payload_undefined)))
      × ((d.result ≡ MessageResult.wrong_payload_length)
          ↔ (usable × (sized.result ≡ MessageResult.ok) × (n ≢ size_or sized.payload_size)))
      × ((d.result ≡ MessageResult.ok)
          ⊎ ((¬ usable) × (d.output ≡ output))
          ⊎ (usable × (d.output ≡ some cleared_message)))
unfolding decode_payload message_payload_size
decode_payload_errors pun t n payload output =
    let f = finish_decode_lem pun t (bytes_of payload) in
    let s = size_of_result (from_code t) in
    (ground arith, ground arith, ground arith, ground arith, ground arith)

-- The results of a payload encode with a length to report to. It succeeds exactly when the message is
-- valid, its size fits the capacity, and there is an output unless the size is zero; it gives the
-- validation's error, or the first of the other two that fails. When it does not succeed, the output
-- is not touched and the length is zero.
pub encode_payload_errors :
    (pun : Punning) (m : Message) (output : Option Bytes) (capacity old : ℕ)
    → let e = encode_payload pun (some m) output capacity (some old) in
      let checked = message_validate pun (some m) in
      let n = size_or (message_payload_size m.type (some 0)).payload_size in
      ((e.result ≡ MessageResult.ok)
        ↔ ((checked ≡ MessageResult.ok) × (n ≤ capacity) × ((n ≡ 0) ⊎ (is_null output ≡ false))))
      × ((checked ≡ MessageResult.ok) ⊎ (e.result ≡ checked))
      × ((e.result ≡ MessageResult.output_too_small)
          ↔ ((checked ≡ MessageResult.ok) × (capacity < n)))
      × ((e.result ≡ MessageResult.null_argument)
          ↔ ((checked ≡ MessageResult.ok) × (n ≤ capacity) × (n ≢ 0) × (is_null output ≡ true)))
      × ((e.result ≡ MessageResult.ok) ⊎ ((e.output ≡ output) × (e.output_length ≡ some 0)))
unfolding encode_payload encode_message finish_encode message_payload_size
encode_payload_errors pun m output capacity old =
    let checks = message_validate_lem pun m in
    let s = size_of_result (from_code m.type) in
    elim (Bool-cases (is_ok (size_of (from_code m.type)).result)) [
      | inl sized ↦
          let (written, e) =
            written_member-some pun m.payload (bytes_of output) (from_code m.type) sized in
          rw e (ground arith, ground arith, ground arith, ground arith, ground arith)
      | inr unsized ↦ (ground arith, ground arith, ground arith, ground arith, ground arith)
    ]
