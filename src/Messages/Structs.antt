-- ===== src/Messages/Structs.antt =====
-- The payload structs of include/oomwoo_messages.h and the message with their union.
use oomwoo_firmware.Prelude.{ℕ}
use oomwoo_firmware.Prelude.Int.{ℤ, pos}

pub record Heartbeat : Type 0 where
  pub cpu_time_ms : ℕ
  pub cpu_mode : ℕ

pub record EstopSet : Type 0 where
  pub active : ℕ
  pub reason : ℕ

pub record ClearLatchedFault : Type 0 where
  pub fault_mask : ℕ

pub record DriveSetpoint : Type 0 where
  pub linear_mm_s : ℤ
  pub angular_mrad_s : ℤ
  pub duration_ms : ℕ

pub record CleaningMotorsSet : Type 0 where
  pub main_brush_pct : ℕ
  pub side_brush_pct : ℕ
  pub fan_pct : ℕ
  pub pump_pct : ℕ

pub record LidarMotorSet : Type 0 where
  pub pwm_pct : ℕ

pub record LedSet : Type 0 where
  pub led_id : ℕ
  pub mode : ℕ
  pub brightness_pct : ℕ

pub record Ack : Type 0 where
  pub acked_sequence : ℕ
  pub status : ℕ

pub record Nack : Type 0 where
  pub rejected_sequence : ℕ
  pub error_code : ℕ

pub record McuHello : Type 0 where
  pub firmware_major : ℕ
  pub firmware_minor : ℕ
  pub build_id : ℕ

pub record FastTelemetry : Type 0 where
  pub timestamp_ms : ℕ
  pub left_ticks : ℤ
  pub right_ticks : ℤ
  pub bumper_flags : ℕ
  pub cliff_flags : ℕ
  pub wheel_drop_flags : ℕ
  pub dock_flags : ℕ
  pub safety_latched_flags : ℕ
  pub battery_mv : ℕ

pub record SafetyEvent : Type 0 where
  pub event : ℕ
  pub active : ℕ
  pub detail : ℕ

pub record SafetyState : Type 0 where
  pub timestamp_ms : ℕ
  pub active_flags : ℕ
  pub latched_flags : ℕ

-- The union: the member that was stored last, or the zero bytes of a `memset`.
pub data Payload : Type 0 where
  cleared : Payload
  heartbeat : Heartbeat → Payload
  estop_set : EstopSet → Payload
  clear_latched_fault : ClearLatchedFault → Payload
  drive_setpoint : DriveSetpoint → Payload
  cleaning_motors_set : CleaningMotorsSet → Payload
  lidar_motor_set : LidarMotorSet → Payload
  led_set : LedSet → Payload
  ack : Ack → Payload
  nack : Nack → Payload
  mcu_hello : McuHello → Payload
  fast_telemetry : FastTelemetry → Payload
  safety_event : SafetyEvent → Payload
  safety_state : SafetyState → Payload

-- `oomwoo_message_t`
pub record Message : Type 0 where
  pub type : ℕ
  pub payload : Payload

abbrev pub cleared_message : Message
cleared_message = record { type = 0; payload = Payload.cleared }

-- What a read of a member gives when another one was stored last: the compiler's choice of layout,
-- of which nothing is assumed.
pub record Punning : Type 0 where
  pub as_heartbeat : Payload → Heartbeat
  pub as_estop_set : Payload → EstopSet
  pub as_clear_latched_fault : Payload → ClearLatchedFault
  pub as_drive_setpoint : Payload → DriveSetpoint
  pub as_cleaning_motors_set : Payload → CleaningMotorsSet
  pub as_lidar_motor_set : Payload → LidarMotorSet
  pub as_led_set : Payload → LedSet
  pub as_ack : Payload → Ack
  pub as_nack : Payload → Nack
  pub as_mcu_hello : Payload → McuHello
  pub as_fast_telemetry : Payload → FastTelemetry
  pub as_safety_event : Payload → SafetyEvent
  pub as_safety_state : Payload → SafetyState

-- Reads of the members. Zero bytes are zeros in all fields.

abbrev pub heartbeat_of : Punning → Payload → Heartbeat
heartbeat_of pun (Payload.heartbeat p) = p
heartbeat_of pun Payload.cleared = record { cpu_time_ms = 0; cpu_mode = 0 }
heartbeat_of pun other = pun.as_heartbeat other

abbrev pub estop_set_of : Punning → Payload → EstopSet
estop_set_of pun (Payload.estop_set p) = p
estop_set_of pun Payload.cleared = record { active = 0; reason = 0 }
estop_set_of pun other = pun.as_estop_set other

abbrev pub clear_latched_fault_of : Punning → Payload → ClearLatchedFault
clear_latched_fault_of pun (Payload.clear_latched_fault p) = p
clear_latched_fault_of pun Payload.cleared = record { fault_mask = 0 }
clear_latched_fault_of pun other = pun.as_clear_latched_fault other

abbrev pub drive_setpoint_of : Punning → Payload → DriveSetpoint
drive_setpoint_of pun (Payload.drive_setpoint p) = p
drive_setpoint_of pun Payload.cleared = record {
  linear_mm_s = pos 0;
  angular_mrad_s = pos 0;
  duration_ms = 0;
}
drive_setpoint_of pun other = pun.as_drive_setpoint other

abbrev pub cleaning_motors_set_of : Punning → Payload → CleaningMotorsSet
cleaning_motors_set_of pun (Payload.cleaning_motors_set p) = p
cleaning_motors_set_of pun Payload.cleared = record {
  main_brush_pct = 0;
  side_brush_pct = 0;
  fan_pct = 0;
  pump_pct = 0;
}
cleaning_motors_set_of pun other = pun.as_cleaning_motors_set other

abbrev pub lidar_motor_set_of : Punning → Payload → LidarMotorSet
lidar_motor_set_of pun (Payload.lidar_motor_set p) = p
lidar_motor_set_of pun Payload.cleared = record { pwm_pct = 0 }
lidar_motor_set_of pun other = pun.as_lidar_motor_set other

abbrev pub led_set_of : Punning → Payload → LedSet
led_set_of pun (Payload.led_set p) = p
led_set_of pun Payload.cleared = record { led_id = 0; mode = 0; brightness_pct = 0 }
led_set_of pun other = pun.as_led_set other

abbrev pub ack_of : Punning → Payload → Ack
ack_of pun (Payload.ack p) = p
ack_of pun Payload.cleared = record { acked_sequence = 0; status = 0 }
ack_of pun other = pun.as_ack other

abbrev pub nack_of : Punning → Payload → Nack
nack_of pun (Payload.nack p) = p
nack_of pun Payload.cleared = record { rejected_sequence = 0; error_code = 0 }
nack_of pun other = pun.as_nack other

abbrev pub mcu_hello_of : Punning → Payload → McuHello
mcu_hello_of pun (Payload.mcu_hello p) = p
mcu_hello_of pun Payload.cleared = record { firmware_major = 0; firmware_minor = 0; build_id = 0 }
mcu_hello_of pun other = pun.as_mcu_hello other

abbrev pub fast_telemetry_of : Punning → Payload → FastTelemetry
fast_telemetry_of pun (Payload.fast_telemetry p) = p
fast_telemetry_of pun Payload.cleared = record {
  timestamp_ms = 0;
  left_ticks = pos 0;
  right_ticks = pos 0;
  bumper_flags = 0;
  cliff_flags = 0;
  wheel_drop_flags = 0;
  dock_flags = 0;
  safety_latched_flags = 0;
  battery_mv = 0;
}
fast_telemetry_of pun other = pun.as_fast_telemetry other

abbrev pub safety_event_of : Punning → Payload → SafetyEvent
safety_event_of pun (Payload.safety_event p) = p
safety_event_of pun Payload.cleared = record { event = 0; active = 0; detail = 0 }
safety_event_of pun other = pun.as_safety_event other

abbrev pub safety_state_of : Punning → Payload → SafetyState
safety_state_of pun (Payload.safety_state p) = p
safety_state_of pun Payload.cleared = record {
  timestamp_ms = 0;
  active_flags = 0;
  latched_flags = 0;
}
safety_state_of pun other = pun.as_safety_state other
