-- ===== src/Messages/Encode.antt =====
-- `oomwoo_message_encode_payload` of src/oomwoo_messages.c.
pub mod Written
use oomwoo_firmware.Prelude.{
  ℕ, Option, none, some, not, ◌&&◌, ltb, ◌==◌, if◌then◌else◌, set, Bytes, bytes_of, is_null,
}
use mathlib.Core.Option
use oomwoo_firmware.Protocol.Wire.{write_u16_le}
use oomwoo_firmware.Messages.{
  MessageType, from_code, MessageResult, is_ok, size_or, message_payload_size,
}
use oomwoo_firmware.Messages.Structs.{
  Payload, Message, Punning, heartbeat_of, estop_set_of, clear_latched_fault_of, drive_setpoint_of,
  cleaning_motors_set_of, lidar_motor_set_of, led_set_of, ack_of, nack_of, mcu_hello_of,
  fast_telemetry_of, safety_event_of, safety_state_of,
}
use oomwoo_firmware.Messages.Words.{write_u32_le, write_i16_le, write_i32_le}
use oomwoo_firmware.Messages.Validate.{message_validate}

-- A result, with the array behind `output` and the value behind `output_length`.
pub record EncodedMessage : Type 0 where
  pub result : MessageResult
  pub output : Option Bytes
  pub output_length : Option ℕ

-- The stores of the `switch`, by the type; `none` is its `default`.
unfoldable pub written_member : Punning → Option MessageType → Payload → Bytes → Option Bytes
written_member pun (some MessageType.heartbeat) p out =
    let m = heartbeat_of pun p in some (set (write_u32_le out 0 m.cpu_time_ms) 4 m.cpu_mode)
written_member pun (some MessageType.estop_set) p out =
    let m = estop_set_of pun p in some (write_u16_le (set out 0 m.active) 1 m.reason)
written_member pun (some MessageType.clear_latched_fault) p out =
    let m = clear_latched_fault_of pun p in some (write_u16_le out 0 m.fault_mask)
written_member pun (some MessageType.identify_request) p out = some out
written_member pun (some MessageType.drive_setpoint) p out =
    let m = drive_setpoint_of pun p in
    some (
      write_u16_le (write_i16_le (write_i16_le out 0 m.linear_mm_s) 2 m.angular_mrad_s) 4
        m.duration_ms)
written_member pun (some MessageType.cleaning_motors_set) p out =
    let m = cleaning_motors_set_of pun p in
    some (set (set (set (set out 0 m.main_brush_pct) 1 m.side_brush_pct) 2 m.fan_pct) 3 m.pump_pct)
written_member pun (some MessageType.lidar_motor_set) p out =
    let m = lidar_motor_set_of pun p in some (set out 0 m.pwm_pct)
written_member pun (some MessageType.led_set) p out =
    let m = led_set_of pun p in some (set (set (set out 0 m.led_id) 1 m.mode) 2 m.brightness_pct)
written_member pun (some MessageType.ack) p out =
    let m = ack_of pun p in some (write_u16_le (write_u16_le out 0 m.acked_sequence) 2 m.status)
written_member pun (some MessageType.nack) p out =
    let m = nack_of pun p in
    some (write_u16_le (write_u16_le out 0 m.rejected_sequence) 2 m.error_code)
written_member pun (some MessageType.mcu_hello) p out =
    let m = mcu_hello_of pun p in
    some (
      write_u32_le (write_u16_le (write_u16_le out 0 m.firmware_major) 2 m.firmware_minor) 4
        m.build_id)
written_member pun (some MessageType.fast_telemetry) p out =
    let m = fast_telemetry_of pun p in
    some (
      write_u16_le
        (set
          (set
            (set
              (set
                (set
                  (write_i32_le (write_i32_le (write_u32_le out 0 m.timestamp_ms) 4 m.left_ticks) 8
                    m.right_ticks)
                  12 m.bumper_flags)
                13 m.cliff_flags)
              14 m.wheel_drop_flags)
            15 m.dock_flags)
          16 m.safety_latched_flags)
        17 m.battery_mv)
written_member pun (some MessageType.safety_event) p out =
    let m = safety_event_of pun p in
    some (write_u16_le (set (write_u16_le out 0 m.event) 2 m.active) 3 m.detail)
written_member pun (some MessageType.safety_state) p out =
    let m = safety_state_of pun p in
    some (
      write_u16_le (write_u16_le (write_u32_le out 0 m.timestamp_ms) 4 m.active_flags) 6
        m.latched_flags)
written_member pun _ p out = none

-- Behind the tests: the array is written, then its length.
unfoldable pub finish_encode : Option Bytes → ℕ → Option Bytes → EncodedMessage
finish_encode output required none = record {
  result = MessageResult.unknown_type;
  output = output;
  output_length = some 0;
}
finish_encode output required (some written) = record {
  result = MessageResult.ok;
  output = Option.map (λ old. written) output;
  output_length = some required;
}

unfoldable pub encode_message : Punning → Message → Option Bytes → ℕ → EncodedMessage
encode_message pun message output output_capacity =
    let checked = message_validate pun (some message) in
    let sized = message_payload_size message.type (some 0) in
    let required = size_or sized.payload_size in
    if not (is_ok checked)
    then record { result = checked; output = output; output_length = some 0 }
    else if not (is_ok sized.result)
    then record { result = sized.result; output = output; output_length = some 0 }
    else if ltb output_capacity required
    then record { result = MessageResult.output_too_small; output = output; output_length = some 0 }
    else if not (required == 0) && is_null output
    then record { result = MessageResult.null_argument; output = output; output_length = some 0 }
    else finish_encode output required
        (written_member pun (from_code message.type) message.payload (bytes_of output))

unfoldable pub encode_payload :
    Punning → Option Message → Option Bytes → ℕ → Option ℕ → EncodedMessage
encode_payload pun message output output_capacity none = record {
  result = MessageResult.null_argument;
  output = output;
  output_length = none;
}
encode_payload pun none output output_capacity (some old) = record {
  result = MessageResult.null_argument;
  output = output;
  output_length = some 0;
}
encode_payload pun (some message) output output_capacity (some old) =
    encode_message pun message output output_capacity
