-- ===== src/Messages.antt =====
-- The messages of include/oomwoo_messages.h: types, directions, results and payload sizes. A `switch`
-- on a 16-bit type is a function of the enumerator that has the value, if there is one.
pub mod Sizes
pub mod Events
pub mod Structs
pub mod Words
pub mod Validate
pub mod Codes
pub mod Layout
pub mod Decode
pub mod Encode
pub mod RoundTrip
pub mod Errors
pub mod Samples
mod Tests
use oomwoo_firmware.Prelude.{ℕ, Bool, true, false, Option, none, some, ◌==◌, if◌then◌else◌, ◌||◌}
use oomwoo_firmware.Messages.Sizes.{
  heartbeat_size, estop_set_size, clear_latched_fault_size, identify_request_size,
  drive_setpoint_size, cleaning_motors_set_size, lidar_motor_set_size, led_set_size, ack_size,
  nack_size, mcu_hello_size, fast_telemetry_size, safety_event_size, safety_state_size,
}

abbrev pub max_linear_mm_s : ℕ
max_linear_mm_s = 500

abbrev pub max_angular_mrad_s : ℕ
max_angular_mrad_s = 4000

abbrev pub max_setpoint_duration_ms : ℕ
max_setpoint_duration_ms = 250

abbrev pub max_percent : ℕ
max_percent = 100

-- `oomwoo_message_type_t`
pub data MessageType : Type 0 where
  heartbeat estop_set clear_latched_fault identify_request : MessageType
  drive_setpoint cleaning_motors_set lidar_motor_set led_set ack nack : MessageType
  mcu_hello fast_telemetry safety_event power_telemetry mcu_diagnostic safety_state : MessageType

abbrev pub code : MessageType → ℕ
code MessageType.heartbeat = 0x0001
code MessageType.estop_set = 0x0002
code MessageType.clear_latched_fault = 0x0003
code MessageType.identify_request = 0x0004
code MessageType.drive_setpoint = 0x0101
code MessageType.cleaning_motors_set = 0x0102
code MessageType.lidar_motor_set = 0x0103
code MessageType.led_set = 0x0104
code MessageType.ack = 0x7001
code MessageType.nack = 0x7002
code MessageType.mcu_hello = 0x8000
code MessageType.fast_telemetry = 0x8001
code MessageType.safety_event = 0x8002
code MessageType.power_telemetry = 0x8003
code MessageType.mcu_diagnostic = 0x8004
code MessageType.safety_state = 0x8005

-- The `case` that a value selects; `none` is the `default`.
unfoldable pub from_code : ℕ → Option MessageType
from_code n =
    if n == 0x0001
    then some MessageType.heartbeat
    else if n == 0x0002
    then some MessageType.estop_set
    else if n == 0x0003
    then some MessageType.clear_latched_fault
    else if n == 0x0004
    then some MessageType.identify_request
    else if n == 0x0101
    then some MessageType.drive_setpoint
    else if n == 0x0102
    then some MessageType.cleaning_motors_set
    else if n == 0x0103
    then some MessageType.lidar_motor_set
    else if n == 0x0104
    then some MessageType.led_set
    else if n == 0x7001
    then some MessageType.ack
    else if n == 0x7002
    then some MessageType.nack
    else if n == 0x8000
    then some MessageType.mcu_hello
    else if n == 0x8001
    then some MessageType.fast_telemetry
    else if n == 0x8002
    then some MessageType.safety_event
    else if n == 0x8003
    then some MessageType.power_telemetry
    else if n == 0x8004
    then some MessageType.mcu_diagnostic
    else if n == 0x8005
    then some MessageType.safety_state
    else none

-- `oomwoo_message_direction_t`
pub data Direction : Type 0 where
  unknown cpu_to_mcu mcu_to_cpu both : Direction

abbrev pub direction_of : Option MessageType → Direction
direction_of none = Direction.unknown
direction_of (some MessageType.heartbeat) = Direction.cpu_to_mcu
direction_of (some MessageType.estop_set) = Direction.cpu_to_mcu
direction_of (some MessageType.clear_latched_fault) = Direction.cpu_to_mcu
direction_of (some MessageType.identify_request) = Direction.cpu_to_mcu
direction_of (some MessageType.drive_setpoint) = Direction.cpu_to_mcu
direction_of (some MessageType.cleaning_motors_set) = Direction.cpu_to_mcu
direction_of (some MessageType.lidar_motor_set) = Direction.cpu_to_mcu
direction_of (some MessageType.led_set) = Direction.cpu_to_mcu
direction_of (some MessageType.ack) = Direction.both
direction_of (some MessageType.nack) = Direction.both
direction_of (some MessageType.mcu_hello) = Direction.mcu_to_cpu
direction_of (some MessageType.fast_telemetry) = Direction.mcu_to_cpu
direction_of (some MessageType.safety_event) = Direction.mcu_to_cpu
direction_of (some MessageType.power_telemetry) = Direction.mcu_to_cpu
direction_of (some MessageType.mcu_diagnostic) = Direction.mcu_to_cpu
direction_of (some MessageType.safety_state) = Direction.mcu_to_cpu

unfoldable pub message_direction : ℕ → Direction
message_direction message_type = direction_of (from_code message_type)

-- `oomwoo_message_result_t`
pub data MessageResult : Type 0 where
  ok null_argument unknown_type payload_undefined : MessageResult
  wrong_payload_length output_too_small value_out_of_range : MessageResult

abbrev pub is_ok : MessageResult → Bool
is_ok MessageResult.ok = true
is_ok _ = false

-- A result, with the value behind `payload_size`.
pub record Sized : Type 0 where
  pub result : MessageResult
  pub payload_size : Option ℕ

-- A size variable behind its pointer.
abbrev pub size_or : Option ℕ → ℕ
size_or none = 0
size_or (some size) = size

abbrev pub size_of : Option MessageType → Sized
size_of none = record { result = MessageResult.unknown_type; payload_size = some 0 }
size_of (some MessageType.heartbeat) = record {
  result = MessageResult.ok;
  payload_size = some heartbeat_size;
}
size_of (some MessageType.estop_set) = record {
  result = MessageResult.ok;
  payload_size = some estop_set_size;
}
size_of (some MessageType.clear_latched_fault) = record {
  result = MessageResult.ok;
  payload_size = some clear_latched_fault_size;
}
size_of (some MessageType.identify_request) = record {
  result = MessageResult.ok;
  payload_size = some identify_request_size;
}
size_of (some MessageType.drive_setpoint) = record {
  result = MessageResult.ok;
  payload_size = some drive_setpoint_size;
}
size_of (some MessageType.cleaning_motors_set) = record {
  result = MessageResult.ok;
  payload_size = some cleaning_motors_set_size;
}
size_of (some MessageType.lidar_motor_set) = record {
  result = MessageResult.ok;
  payload_size = some lidar_motor_set_size;
}
size_of (some MessageType.led_set) = record {
  result = MessageResult.ok;
  payload_size = some led_set_size;
}
size_of (some MessageType.ack) = record { result = MessageResult.ok; payload_size = some ack_size }
size_of (some MessageType.nack) = record {
  result = MessageResult.ok;
  payload_size = some nack_size;
}
size_of (some MessageType.mcu_hello) = record {
  result = MessageResult.ok;
  payload_size = some mcu_hello_size;
}
size_of (some MessageType.fast_telemetry) = record {
  result = MessageResult.ok;
  payload_size = some fast_telemetry_size;
}
size_of (some MessageType.safety_event) = record {
  result = MessageResult.ok;
  payload_size = some safety_event_size;
}
size_of (some MessageType.power_telemetry) = record {
  result = MessageResult.payload_undefined;
  payload_size = some 0;
}
size_of (some MessageType.mcu_diagnostic) = record {
  result = MessageResult.payload_undefined;
  payload_size = some 0;
}
size_of (some MessageType.safety_state) = record {
  result = MessageResult.ok;
  payload_size = some safety_state_size;
}

unfoldable pub message_payload_size : ℕ → Option ℕ → Sized
message_payload_size message_type none = record {
  result = MessageResult.null_argument;
  payload_size = none;
}
message_payload_size message_type (some old) = size_of (from_code message_type)

-- `oomwoo_cpu_mode_t`
abbrev pub cpu_mode_disarmed : ℕ
cpu_mode_disarmed = 0

abbrev pub cpu_mode_stack_healthy : ℕ
cpu_mode_stack_healthy = 1

abbrev pub is_known_cpu_mode : ℕ → Bool
is_known_cpu_mode cpu_mode = cpu_mode == cpu_mode_disarmed || cpu_mode == cpu_mode_stack_healthy
