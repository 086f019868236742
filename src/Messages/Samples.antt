-- ===== src/Messages/Samples.antt =====
-- A compiler for the tests: a read of a member other than the stored one gives zeros.
use oomwoo_firmware.Prelude.Int.{pos}
use oomwoo_firmware.Messages.Structs.{Punning}

abbrev pub zero_pun : Punning
zero_pun = record {
  as_heartbeat = λ p. record { cpu_time_ms = 0; cpu_mode = 0 };
  as_estop_set = λ p. record { active = 0; reason = 0 };
  as_clear_latched_fault = λ p. record { fault_mask = 0 };
  as_drive_setpoint = λ p. record { linear_mm_s = pos 0; angular_mrad_s = pos 0; duration_ms = 0 };
  as_cleaning_motors_set =
      λ p. record { main_brush_pct = 0; side_brush_pct = 0; fan_pct = 0; pump_pct = 0 };
  as_lidar_motor_set = λ p. record { pwm_pct = 0 };
  as_led_set = λ p. record { led_id = 0; mode = 0; brightness_pct = 0 };
  as_ack = λ p. record { acked_sequence = 0; status = 0 };
  as_nack = λ p. record { rejected_sequence = 0; error_code = 0 };
  as_mcu_hello = λ p. record { firmware_major = 0; firmware_minor = 0; build_id = 0 };
  as_fast_telemetry = λ p. record {
    timestamp_ms = 0;
    left_ticks = pos 0;
    right_ticks = pos 0;
    bumper_flags = 0;
    cliff_flags = 0;
    wheel_drop_flags = 0;
    dock_flags = 0;
    safety_latched_flags = 0;
    battery_mv = 0;
  };
  as_safety_event = λ p. record { event = 0; active = 0; detail = 0 };
  as_safety_state = λ p. record { timestamp_ms = 0; active_flags = 0; latched_flags = 0 };
}
