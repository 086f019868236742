-- ===== src/Messages/Decode.antt =====
-- `oomwoo_message_decode_payload` of src/oomwoo_messages.c.
pub mod Members
pub mod Inverse
use oomwoo_firmware.Prelude.{
  ℕ, Option, none, some, not, ◌&&◌, ◌||◌, ◌==◌, if◌then◌else◌, Bytes, byte_at, bytes_of, is_null,
}
use oomwoo_firmware.Protocol.Wire.{read_u16_le}
use oomwoo_firmware.Messages.{
  MessageType, from_code, MessageResult, is_ok, size_or, message_payload_size,
}
use oomwoo_firmware.Messages.Structs.{Payload, Message, cleared_message, Punning}
use oomwoo_firmware.Messages.Words.{read_u32_le, read_i16_le, read_i32_le}
use oomwoo_firmware.Messages.Validate.{message_validate}

-- A result, with the message behind `output`.
pub record DecodedMessage : Type 0 where
  pub result : MessageResult
  pub output : Option Message

-- The stores of the `switch`, by the type; `none` is its `default`.
unfoldable pub decoded_member : Option MessageType → Bytes → Option Payload
decoded_member (some MessageType.heartbeat) b =
    some (Payload.heartbeat (record { cpu_time_ms = read_u32_le b 0; cpu_mode = byte_at b 4 }))
decoded_member (some MessageType.estop_set) b =
    some (Payload.estop_set (record { active = byte_at b 0; reason = read_u16_le b 1 }))
decoded_member (some MessageType.clear_latched_fault) b =
    some (Payload.clear_latched_fault (record { fault_mask = read_u16_le b 0 }))
decoded_member (some MessageType.identify_request) b = some Payload.cleared
decoded_member (some MessageType.drive_setpoint) b = some (
    Payload.drive_setpoint (record {
      linear_mm_s = read_i16_le b 0;
      angular_mrad_s = read_i16_le b 2;
      duration_ms = read_u16_le b 4;
    }))
decoded_member (some MessageType.cleaning_motors_set) b = some (
    Payload.cleaning_motors_set (record {
      main_brush_pct = byte_at b 0;
      side_brush_pct = byte_at b 1;
      fan_pct = byte_at b 2;
      pump_pct = byte_at b 3;
    }))
decoded_member (some MessageType.lidar_motor_set) b =
    some (Payload.lidar_motor_set (record { pwm_pct = byte_at b 0 }))
decoded_member (some MessageType.led_set) b = some (
    Payload.led_set
      (record { led_id = byte_at b 0; mode = byte_at b 1; brightness_pct = byte_at b 2 }))
decoded_member (some MessageType.ack) b =
    some (Payload.ack (record { acked_sequence = read_u16_le b 0; status = read_u16_le b 2 }))
decoded_member (some MessageType.nack) b =
    some
      (Payload.nack (record { rejected_sequence = read_u16_le b 0; error_code = read_u16_le b 2 }))
decoded_member (some MessageType.mcu_hello) b = some (
    Payload.mcu_hello (record {
      firmware_major = read_u16_le b 0;
      firmware_minor = read_u16_le b 2;
      build_id = read_u32_le b 4;
    }))
decoded_member (some MessageType.fast_telemetry) b = some (
    Payload.fast_telemetry (record {
      timestamp_ms = read_u32_le b 0;
      left_ticks = read_i32_le b 4;
      right_ticks = read_i32_le b 8;
      bumper_flags = byte_at b 12;
      cliff_flags = byte_at b 13;
      wheel_drop_flags = byte_at b 14;
      dock_flags = byte_at b 15;
      safety_latched_flags = byte_at b 16;
      battery_mv = read_u16_le b 17;
    }))
decoded_member (some MessageType.safety_event) b = some (
    Payload.safety_event
      (record { event = read_u16_le b 0; active = byte_at b 2; detail = read_u16_le b 3 }))
decoded_member (some MessageType.safety_state) b = some (
    Payload.safety_state (record {
      timestamp_ms = read_u32_le b 0;
      active_flags = read_u16_le b 4;
      latched_flags = read_u16_le b 6;
    }))
decoded_member _ b = none

-- Behind the `switch`: the message is validated, and cleared when it is refused.
unfoldable pub finish_decode : Punning → ℕ → Option Payload → DecodedMessage
finish_decode pun message_type none = record {
  result = MessageResult.unknown_type;
  output = some (record { type = message_type; payload = Payload.cleared });
}
finish_decode pun message_type (some payload) =
    let message : Message = record { type = message_type; payload = payload } in
    let result = message_validate pun (some message) in
    record { result = result; output = some (if is_ok result then message else cleared_message) }

unfoldable pub decode_payload : Punning → ℕ → Option Bytes → ℕ → Option Message → DecodedMessage
decode_payload pun message_type payload payload_length output =
    let sized = message_payload_size message_type (some 0) in
    if is_null output || (is_null payload && not (payload_length == 0))
    then record { result = MessageResult.null_argument; output = output }
    else if not (is_ok sized.result)
    then record { result = sized.result; output = some cleared_message }
    else if not (payload_length == size_or sized.payload_size)
    then record { result = MessageResult.wrong_payload_length; output = some cleared_message }
    else finish_decode pun message_type (decoded_member (from_code message_type) (bytes_of payload))
