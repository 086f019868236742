-- ===== src/Messages/Validate.antt =====
-- `oomwoo_message_validate` of src/oomwoo_messages.c.
pub mod Ranges
use oomwoo_firmware.Prelude.{
  ℕ, zero, suc, Bool, Option, none, some, not, ◌||◌, ltb, leb, ◌==◌, if◌then◌else◌,
}
use oomwoo_firmware.Prelude.Int.{ℤ, pos, negsuc, ltb_int}
use oomwoo_firmware.Messages.{
  MessageType, from_code, MessageResult, is_ok, message_payload_size, is_known_cpu_mode,
  max_linear_mm_s, max_angular_mrad_s, max_setpoint_duration_ms, max_percent,
}
use oomwoo_firmware.Messages.Structs.{
  DriveSetpoint, CleaningMotorsSet, SafetyEvent, Payload, Message, Punning, heartbeat_of,
  estop_set_of, drive_setpoint_of, cleaning_motors_set_of, lidar_motor_set_of, led_set_of,
  safety_event_of,
}

-- `-n`
abbrev pub neg : ℕ → ℤ
neg zero = pos 0
neg (suc n) = negsuc n

abbrev pub refuse_if : Bool → MessageResult
refuse_if out_of_range = if out_of_range then MessageResult.value_out_of_range else MessageResult.ok

abbrev pub drive_out_of_range : DriveSetpoint → Bool
drive_out_of_range d =
    ltb_int d.linear_mm_s (neg max_linear_mm_s)
    || ltb_int (pos max_linear_mm_s) d.linear_mm_s
    || ltb_int d.angular_mrad_s (neg max_angular_mrad_s)
    || ltb_int (pos max_angular_mrad_s) d.angular_mrad_s
    || d.duration_ms == 0
    || ltb max_setpoint_duration_ms d.duration_ms

abbrev pub motors_out_of_range : CleaningMotorsSet → Bool
motors_out_of_range m =
    ltb max_percent m.main_brush_pct
    || ltb max_percent m.side_brush_pct
    || ltb max_percent m.fan_pct
    || ltb max_percent m.pump_pct

abbrev pub event_out_of_range : SafetyEvent → Bool
event_out_of_range e = e.event == 0 || ltb 16 e.event || ltb 1 e.active

-- The `switch` on the type.
unfoldable pub validate_member : Punning → Option MessageType → Payload → MessageResult
validate_member pun (some MessageType.heartbeat) p =
    if is_known_cpu_mode (heartbeat_of pun p).cpu_mode
    then MessageResult.ok
    else MessageResult.value_out_of_range
validate_member pun (some MessageType.estop_set) p =
    if leb (estop_set_of pun p).active 1 then MessageResult.ok else MessageResult.value_out_of_range
validate_member pun (some MessageType.drive_setpoint) p =
    refuse_if (drive_out_of_range (drive_setpoint_of pun p))
validate_member pun (some MessageType.cleaning_motors_set) p =
    refuse_if (motors_out_of_range (cleaning_motors_set_of pun p))
validate_member pun (some MessageType.lidar_motor_set) p =
    if leb (lidar_motor_set_of pun p).pwm_pct max_percent
    then MessageResult.ok
    else MessageResult.value_out_of_range
validate_member pun (some MessageType.led_set) p =
    if leb (led_set_of pun p).brightness_pct max_percent
    then MessageResult.ok
    else MessageResult.value_out_of_range
validate_member pun (some MessageType.safety_event) p =
    refuse_if (event_out_of_range (safety_event_of pun p))
validate_member pun _ p = MessageResult.ok

unfoldable pub message_validate : Punning → Option Message → MessageResult
message_validate pun none = MessageResult.null_argument
message_validate pun (some message) =
    let result = (message_payload_size message.type (some 0)).result in
    if not (is_ok result)
    then result
    else validate_member pun (from_code message.type) message.payload
