-- ===== src/Messages/Encode/Written.antt =====
-- What the stores of an encode leave in the output array.
use oomwoo_firmware.Prelude.{
  ◌≤◌, ◌≡◌, refl, ap, ◌∙◌, some, ◌∷◌, ◌++◌, arith, length, drop, set, Bytes,
}
use oomwoo_firmware.Protocol.Wire.{write_u16_le}
use oomwoo_firmware.Protocol.Wire.Laws.{write_u16_le_lem}
use oomwoo_firmware.Messages.{MessageType}
use oomwoo_firmware.Messages.Structs.{Payload, Punning}
use oomwoo_firmware.Messages.Words.{write_u32_le, write_i16_le, write_i32_le, uint16_of, uint32_of}
use oomwoo_firmware.Messages.Words.Laws.{write_u32_le_lem, uint16_of-IsU16, uint32_of-IsU32}
use oomwoo_firmware.Messages.Layout.{member_bytes, Stores}
use oomwoo_firmware.Messages.Encode.{written_member}

-- The bytes of the member, and the rest of the array behind them.
pub written_member_lem :
    (pun : Punning) (k : MessageType) (p : Payload) (out : Bytes)
    → Stores k p
    → length (member_bytes p) ≤ length out
    → written_member pun (some k) p out
      ≡ some (member_bytes p ++ drop (length (member_bytes p)) out)
unfolding written_member write_i16_le write_i32_le
written_member_lem pun _ _ out Stores.identify_request room = refl
written_member_lem pun _ _ (a0 ∷ a1 ∷ a2 ∷ a3 ∷ a4 ∷ rest) (Stores.heartbeat v h0 h1) room =
    ap (λ (o : Bytes). some (set o 4 v.cpu_mode)) (write_u32_le_lem _ 0 v.cpu_time_ms h0)
written_member_lem pun _ _ _ (Stores.heartbeat v h0 h1) room = absurd (omega arith)
written_member_lem pun _ _ (a0 ∷ a1 ∷ a2 ∷ rest) (Stores.estop_set v h0 h1) room =
    ap (λ (o : Bytes). some o) (write_u16_le_lem _ 1 v.reason h1)
written_member_lem pun _ _ _ (Stores.estop_set v h0 h1) room = absurd (omega arith)
written_member_lem pun _ _ (a0 ∷ a1 ∷ rest) (Stores.clear_latched_fault v h0) room =
    ap (λ (o : Bytes). some o) (write_u16_le_lem _ 0 v.fault_mask h0)
written_member_lem pun _ _ _ (Stores.clear_latched_fault v h0) room = absurd (omega arith)
written_member_lem pun _ _ (a0 ∷ a1 ∷ a2 ∷ a3 ∷ a4 ∷ a5 ∷ rest) (Stores.drive_setpoint v h0 h1 h2)
      room =
    ap
      (λ (o : Bytes).
        some (write_u16_le (write_u16_le o 2 (uint16_of v.angular_mrad_s)) 4 v.duration_ms))
      (write_u16_le_lem _ 0 (uint16_of v.linear_mm_s) (uint16_of-IsU16 v.linear_mm_s))
    ∙ ap (λ (o : Bytes). some (write_u16_le o 4 v.duration_ms))
        (write_u16_le_lem _ 2 (uint16_of v.angular_mrad_s) (uint16_of-IsU16 v.angular_mrad_s))
    ∙ ap (λ (o : Bytes). some o) (write_u16_le_lem _ 4 v.duration_ms h2)
written_member_lem pun _ _ _ (Stores.drive_setpoint v h0 h1 h2) room = absurd (omega arith)
written_member_lem pun _ _ (a0 ∷ a1 ∷ a2 ∷ a3 ∷ rest) (Stores.cleaning_motors_set v h0 h1 h2 h3)
      room =
    refl
written_member_lem pun _ _ _ (Stores.cleaning_motors_set v h0 h1 h2 h3) room = absurd (omega arith)
written_member_lem pun _ _ (a0 ∷ rest) (Stores.lidar_motor_set v h0) room = refl
written_member_lem pun _ _ _ (Stores.lidar_motor_set v h0) room = absurd (omega arith)
written_member_lem pun _ _ (a0 ∷ a1 ∷ a2 ∷ rest) (Stores.led_set v h0 h1 h2) room = refl
written_member_lem pun _ _ _ (Stores.led_set v h0 h1 h2) room = absurd (omega arith)
written_member_lem pun _ _ (a0 ∷ a1 ∷ a2 ∷ a3 ∷ rest) (Stores.ack v h0 h1) room =
    ap (λ (o : Bytes). some (write_u16_le o 2 v.status)) (write_u16_le_lem _ 0 v.acked_sequence h0)
    ∙ ap (λ (o : Bytes). some o) (write_u16_le_lem _ 2 v.status h1)
written_member_lem pun _ _ _ (Stores.ack v h0 h1) room = absurd (omega arith)
written_member_lem pun _ _ (a0 ∷ a1 ∷ a2 ∷ a3 ∷ rest) (Stores.nack v h0 h1) room =
    ap (λ (o : Bytes). some (write_u16_le o 2 v.error_code))
      (write_u16_le_lem _ 0 v.rejected_sequence h0)
    ∙ ap (λ (o : Bytes). some o) (write_u16_le_lem _ 2 v.error_code h1)
written_member_lem pun _ _ _ (Stores.nack v h0 h1) room = absurd (omega arith)
written_member_lem pun _ _ (a0 ∷ a1 ∷ a2 ∷ a3 ∷ a4 ∷ a5 ∷ a6 ∷ a7 ∷ rest)
      (Stores.mcu_hello v h0 h1 h2) room =
    ap (λ (o : Bytes). some (write_u32_le (write_u16_le o 2 v.firmware_minor) 4 v.build_id))
      (write_u16_le_lem _ 0 v.firmware_major h0)
    ∙ ap (λ (o : Bytes). some (write_u32_le o 4 v.build_id))
        (write_u16_le_lem _ 2 v.firmware_minor h1)
    ∙ ap (λ (o : Bytes). some o) (write_u32_le_lem _ 4 v.build_id h2)
written_member_lem pun _ _ _ (Stores.mcu_hello v h0 h1 h2) room = absurd (omega arith)
written_member_lem pun _ _
      (a0 ∷ a1 ∷ a2 ∷ a3 ∷ a4 ∷ a5 ∷ a6 ∷ a7 ∷ a8 ∷ a9 ∷ a10 ∷ a11 ∷ a12 ∷ a13 ∷ a14 ∷ a15 ∷ a16
        ∷ a17 ∷ a18 ∷ rest)
      (Stores.fast_telemetry v h0 h1 h2 h3 h4 h5 h6 h7 h8) room =
    ap
      (λ (o : Bytes). some (
        write_u16_le
          (set
            (set
              (set
                (set
                  (set
                    (write_u32_le (write_u32_le o 4 (uint32_of v.left_ticks)) 8
                      (uint32_of v.right_ticks))
                    12 v.bumper_flags)
                  13 v.cliff_flags)
                14 v.wheel_drop_flags)
              15 v.dock_flags)
            16 v.safety_latched_flags)
          17 v.battery_mv))
      (write_u32_le_lem _ 0 v.timestamp_ms h0)
    ∙ ap
        (λ (o : Bytes). some (
          write_u16_le
            (set
              (set
                (set
                  (set (set (write_u32_le o 8 (uint32_of v.right_ticks)) 12 v.bumper_flags) 13
                    v.cliff_flags)
                  14 v.wheel_drop_flags)
                15 v.dock_flags)
              16 v.safety_latched_flags)
            17 v.battery_mv))
        (write_u32_le_lem _ 4 (uint32_of v.left_ticks) (uint32_of-IsU32 v.left_ticks))
    ∙ ap
        (λ (o : Bytes). some (
          write_u16_le
            (set
              (set (set (set (set o 12 v.bumper_flags) 13 v.cliff_flags) 14 v.wheel_drop_flags) 15
                v.dock_flags)
              16 v.safety_latched_flags)
            17 v.battery_mv))
        (write_u32_le_lem _ 8 (uint32_of v.right_ticks) (uint32_of-IsU32 v.right_ticks))
    ∙ ap (λ (o : Bytes). some o) (write_u16_le_lem _ 17 v.battery_mv h8)
written_member_lem pun _ _ _ (Stores.fast_telemetry v h0 h1 h2 h3 h4 h5 h6 h7 h8) room =
    absurd (omega arith)
written_member_lem pun _ _ (a0 ∷ a1 ∷ a2 ∷ a3 ∷ a4 ∷ rest) (Stores.safety_event v h0 h1 h2) room =
    ap (λ (o : Bytes). some (write_u16_le (set o 2 v.active) 3 v.detail))
      (write_u16_le_lem _ 0 v.event h0)
    ∙ ap (λ (o : Bytes). some o) (write_u16_le_lem _ 3 v.detail h2)
written_member_lem pun _ _ _ (Stores.safety_event v h0 h1 h2) room = absurd (omega arith)
written_member_lem pun _ _ (a0 ∷ a1 ∷ a2 ∷ a3 ∷ a4 ∷ a5 ∷ a6 ∷ a7 ∷ rest)
      (Stores.safety_state v h0 h1 h2) room =
    ap (λ (o : Bytes). some (write_u16_le (write_u16_le o 4 v.active_flags) 6 v.latched_flags))
      (write_u32_le_lem _ 0 v.timestamp_ms h0)
    ∙ ap (λ (o : Bytes). some (write_u16_le o 6 v.latched_flags))
        (write_u16_le_lem _ 4 v.active_flags h1)
    ∙ ap (λ (o : Bytes). some o) (write_u16_le_lem _ 6 v.latched_flags h2)
written_member_lem pun _ _ _ (Stores.safety_state v h0 h1 h2) room = absurd (omega arith)
