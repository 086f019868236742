-- ===== src/Messages/Sizes.antt =====
-- The payload sizes that src/oomwoo_messages.c defines, one macro for each type with a payload of
-- its own.
use oomwoo_firmware.Prelude.{ℕ}

abbrev pub heartbeat_size : ℕ
heartbeat_size = 5

abbrev pub estop_set_size : ℕ
estop_set_size = 3

abbrev pub clear_latched_fault_size : ℕ
clear_latched_fault_size = 2

abbrev pub identify_request_size : ℕ
identify_request_size = 0

abbrev pub drive_setpoint_size : ℕ
drive_setpoint_size = 6

abbrev pub cleaning_motors_set_size : ℕ
cleaning_motors_set_size = 4

abbrev pub lidar_motor_set_size : ℕ
lidar_motor_set_size = 1

abbrev pub led_set_size : ℕ
led_set_size = 3

abbrev pub ack_size : ℕ
ack_size = 4

abbrev pub nack_size : ℕ
nack_size = 4

abbrev pub mcu_hello_size : ℕ
mcu_hello_size = 8

abbrev pub fast_telemetry_size : ℕ
fast_telemetry_size = 19

abbrev pub safety_event_size : ℕ
safety_event_size = 5

abbrev pub safety_state_size : ℕ
safety_state_size = 8
