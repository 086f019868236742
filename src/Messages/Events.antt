-- ===== src/Messages/Events.antt =====
-- The codes of a safety event in include/oomwoo_messages.h.
use oomwoo_firmware.Prelude.{ℕ}

-- `oomwoo_safety_event_code_t`
pub data SafetyEventCode : Type 0 where
  bumper_left bumper_right cliff_left cliff_right wheel_drop_left : SafetyEventCode
  wheel_drop_right brush_overcurrent fan_overcurrent cpu_heartbeat_timeout estop : SafetyEventCode

abbrev pub event_code : SafetyEventCode → ℕ
event_code SafetyEventCode.bumper_left = 1
event_code SafetyEventCode.bumper_right = 2
event_code SafetyEventCode.cliff_left = 3
event_code SafetyEventCode.cliff_right = 4
event_code SafetyEventCode.wheel_drop_left = 5
event_code SafetyEventCode.wheel_drop_right = 6
event_code SafetyEventCode.brush_overcurrent = 7
event_code SafetyEventCode.fan_overcurrent = 8
event_code SafetyEventCode.cpu_heartbeat_timeout = 9
event_code SafetyEventCode.estop = 10
