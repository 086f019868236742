-- ===== src/Messages/Layout.antt =====
-- The payload formats as lists of bytes, independent of how the code stores and reads them.
use oomwoo_firmware.Prelude.{ℕ, ◌/◌, ◌%◌, [], ◌∷◌, Bytes, IsU8, IsU16, IsU32}
use oomwoo_firmware.Prelude.Int.{IsI16, IsI32}
use oomwoo_firmware.Protocol.Frame.Format.{word}
use oomwoo_firmware.Messages.{MessageType}
use oomwoo_firmware.Messages.Structs.{
  Payload, Heartbeat, EstopSet, ClearLatchedFault, DriveSetpoint, CleaningMotorsSet, LidarMotorSet,
  LedSet, Ack, Nack, McuHello, FastTelemetry, SafetyEvent, SafetyState,
}
use oomwoo_firmware.Messages.Words.{uint16_of, uint32_of}

-- A 32-bit word, low byte first.
abbrev pub dword : ℕ → Bytes → Bytes
dword value rest = value % 256 ∷ value / 256 % 256 ∷ value / 65536 % 256 ∷ value / 16777216 ∷ rest

-- The bytes of a payload.
abbrev pub member_bytes : Payload → Bytes
member_bytes Payload.cleared = []
member_bytes (Payload.heartbeat v) = dword v.cpu_time_ms (v.cpu_mode ∷ [])
member_bytes (Payload.estop_set v) = v.active ∷ word v.reason ([])
member_bytes (Payload.clear_latched_fault v) = word v.fault_mask ([])
member_bytes (Payload.drive_setpoint v) =
    word (uint16_of v.linear_mm_s) (word (uint16_of v.angular_mrad_s) (word v.duration_ms ([])))
member_bytes (Payload.cleaning_motors_set v) =
    v.main_brush_pct ∷ v.side_brush_pct ∷ v.fan_pct ∷ v.pump_pct ∷ []
member_bytes (Payload.lidar_motor_set v) = v.pwm_pct ∷ []
member_bytes (Payload.led_set v) = v.led_id ∷ v.mode ∷ v.brightness_pct ∷ []
member_bytes (Payload.ack v) = word v.acked_sequence (word v.status ([]))
member_bytes (Payload.nack v) = word v.rejected_sequence (word v.error_code ([]))
member_bytes (Payload.mcu_hello v) =
    word v.firmware_major (word v.firmware_minor (dword v.build_id ([])))
member_bytes (Payload.fast_telemetry v) = dword v.timestamp_ms (
    dword (uint32_of v.left_ticks) (
      dword (uint32_of v.right_ticks) (
        v.bumper_flags
        ∷ v.cliff_flags
        ∷ v.wheel_drop_flags
        ∷ v.dock_flags
        ∷ v.safety_latched_flags
        ∷ word v.battery_mv ([]))))
member_bytes (Payload.safety_event v) = word v.event (v.active ∷ word v.detail ([]))
member_bytes (Payload.safety_state v) =
    dword v.timestamp_ms (word v.active_flags (word v.latched_flags ([])))

-- The union holds the member that the type calls for, with fields of their C types' ranges.
pub data Stores : MessageType → Payload → Type 0 where
  identify_request : Stores MessageType.identify_request Payload.cleared
  heartbeat :
      (v : Heartbeat)
      → IsU32 v.cpu_time_ms
      → IsU8 v.cpu_mode
      → Stores MessageType.heartbeat (Payload.heartbeat v)
  estop_set :
      (v : EstopSet)
      → IsU8 v.active
      → IsU16 v.reason
      → Stores MessageType.estop_set (Payload.estop_set v)
  clear_latched_fault :
      (v : ClearLatchedFault)
      → IsU16 v.fault_mask
      → Stores MessageType.clear_latched_fault (Payload.clear_latched_fault v)
  drive_setpoint :
      (v : DriveSetpoint)
      → IsI16 v.linear_mm_s
      → IsI16 v.angular_mrad_s
      → IsU16 v.duration_ms
      → Stores MessageType.drive_setpoint (Payload.drive_setpoint v)
  cleaning_motors_set :
      (v : CleaningMotorsSet)
      → IsU8 v.main_brush_pct
      → IsU8 v.side_brush_pct
      → IsU8 v.fan_pct
      → IsU8 v.pump_pct
      → Stores MessageType.cleaning_motors_set (Payload.cleaning_motors_set v)
  lidar_motor_set :
      (v : LidarMotorSet)
      → IsU8 v.pwm_pct
      → Stores MessageType.lidar_motor_set (Payload.lidar_motor_set v)
  led_set :
      (v : LedSet)
      → IsU8 v.led_id
      → IsU8 v.mode
      → IsU8 v.brightness_pct
      → Stores MessageType.led_set (Payload.led_set v)
  ack : (v : Ack) → IsU16 v.acked_sequence → IsU16 v.status → Stores MessageType.ack (Payload.ack v)
  nack :
      (v : Nack)
      → IsU16 v.rejected_sequence
      → IsU16 v.error_code
      → Stores MessageType.nack (Payload.nack v)
  mcu_hello :
      (v : McuHello)
      → IsU16 v.firmware_major
      → IsU16 v.firmware_minor
      → IsU32 v.build_id
      → Stores MessageType.mcu_hello (Payload.mcu_hello v)
  fast_telemetry :
      (v : FastTelemetry)
      → IsU32 v.timestamp_ms
      → IsI32 v.left_ticks
      → IsI32 v.right_ticks
      → IsU8 v.bumper_flags
      → IsU8 v.cliff_flags
      → IsU8 v.wheel_drop_flags
      → IsU8 v.dock_flags
      → IsU8 v.safety_latched_flags
      → IsU16 v.battery_mv
      → Stores MessageType.fast_telemetry (Payload.fast_telemetry v)
  safety_event :
      (v : SafetyEvent)
      → IsU16 v.event
      → IsU8 v.active
      → IsU16 v.detail
      → Stores MessageType.safety_event (Payload.safety_event v)
  safety_state :
      (v : SafetyState)
      → IsU32 v.timestamp_ms
      → IsU16 v.active_flags
      → IsU16 v.latched_flags
      → Stores MessageType.safety_state (Payload.safety_state v)
