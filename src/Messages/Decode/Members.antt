-- ===== src/Messages/Decode/Members.antt =====
-- Reading the bytes of a payload.
use oomwoo_firmware.Prelude.{
  ℕ, ◌+◌, ◌/◌, ◌%◌, ◌≡◌, refl, ap, ◌∙◌, some, ◌++◌, arith, Bytes, byte_at, IsU16, IsU32,
}
use oomwoo_firmware.Prelude.Int.{ℤ, IsI16, IsI32}
use oomwoo_firmware.Protocol.Wire.{read_u16_le}
use oomwoo_firmware.Protocol.Wire.Laws.{read_u16_le_lem}
use oomwoo_firmware.Messages.{MessageType}
use oomwoo_firmware.Messages.Structs.{Payload}
use oomwoo_firmware.Messages.Words.{
  read_u32_le, read_i16_le, read_i32_le, uint16_of, int16_of, uint32_of, int32_of,
}
use oomwoo_firmware.Messages.Words.Laws.{
  read_u32_le_lem, int16_of-uint16_of, int32_of-uint32_of, uint16_of-IsU16, uint32_of-IsU32,
}
use oomwoo_firmware.Messages.Layout.{member_bytes, Stores}
use oomwoo_firmware.Messages.Decode.{decoded_member}

module _ (b : Bytes) (at : ℕ) where
  read_word :
      (v : ℕ)
      → byte_at b at ≡ v % 256
      → byte_at b (at + 1) ≡ v / 256
      → IsU16 v
      → read_u16_le b at ≡ v
  read_word v lo hi h = omega (arith, read_u16_le_lem b at (omega arith) (omega arith))

  read_dword :
      (v : ℕ)
      → byte_at b at ≡ v % 256
      → byte_at b (at + 1) ≡ v / 256 % 256
      → byte_at b (at + 2) ≡ v / 65536 % 256
      → byte_at b (at + 3) ≡ v / 16777216
      → IsU32 v
      → read_u32_le b at ≡ v
  read_dword v e0 e1 e2 e3 h =
      omega (arith, read_u32_le_lem b at (omega arith) (omega arith) (omega arith) (omega arith))

  read_signed_word :
      (z : ℤ)
      → byte_at b at ≡ uint16_of z % 256
      → byte_at b (at + 1) ≡ uint16_of z / 256
      → IsI16 z
      → read_i16_le b at ≡ z
  unfolding read_i16_le
  read_signed_word z lo hi h =
      ap int16_of (read_word (uint16_of z) lo hi (uint16_of-IsU16 z)) ∙ int16_of-uint16_of z h

  read_signed_dword :
      (z : ℤ)
      → byte_at b at ≡ uint32_of z % 256
      → byte_at b (at + 1) ≡ uint32_of z / 256 % 256
      → byte_at b (at + 2) ≡ uint32_of z / 65536 % 256
      → byte_at b (at + 3) ≡ uint32_of z / 16777216
      → IsI32 z
      → read_i32_le b at ≡ z
  unfolding read_i32_le
  read_signed_dword z e0 e1 e2 e3 h =
      ap int32_of (read_dword (uint32_of z) e0 e1 e2 e3 (uint32_of-IsU32 z))
      ∙ int32_of-uint32_of z h

-- The bytes of a member, read back, whatever follows them.
pub decoded_member_bytes :
    (k : MessageType) (p : Payload) (rest : Bytes)
    → Stores k p
    → decoded_member (some k) (member_bytes p ++ rest) ≡ some p
unfolding decoded_member
decoded_member_bytes _ _ rest Stores.identify_request = refl
decoded_member_bytes _ _ rest (Stores.heartbeat v h0 h1) =
    let b = member_bytes (Payload.heartbeat v) ++ rest in
    rw (read_dword b 0 v.cpu_time_ms refl refl refl refl h0)
decoded_member_bytes _ _ rest (Stores.estop_set v h0 h1) =
    let b = member_bytes (Payload.estop_set v) ++ rest in rw (read_word b 1 v.reason refl refl h1)
decoded_member_bytes _ _ rest (Stores.clear_latched_fault v h0) =
    let b = member_bytes (Payload.clear_latched_fault v) ++ rest in
    rw (read_word b 0 v.fault_mask refl refl h0)
decoded_member_bytes _ _ rest (Stores.drive_setpoint v h0 h1 h2) =
    let b = member_bytes (Payload.drive_setpoint v) ++ rest in
    rw (
      read_signed_word b 0 v.linear_mm_s refl refl h0,
      read_signed_word b 2 v.angular_mrad_s refl refl h1,
      read_word b 4 v.duration_ms refl refl h2,
    )
decoded_member_bytes _ _ rest (Stores.cleaning_motors_set v h0 h1 h2 h3) = refl
decoded_member_bytes _ _ rest (Stores.lidar_motor_set v h0) = refl
decoded_member_bytes _ _ rest (Stores.led_set v h0 h1 h2) = refl
decoded_member_bytes _ _ rest (Stores.ack v h0 h1) =
    let b = member_bytes (Payload.ack v) ++ rest in
    rw (read_word b 0 v.acked_sequence refl refl h0, read_word b 2 v.status refl refl h1)
decoded_member_bytes _ _ rest (Stores.nack v h0 h1) =
    let b = member_bytes (Payload.nack v) ++ rest in
    rw (read_word b 0 v.rejected_sequence refl refl h0, read_word b 2 v.error_code refl refl h1)
decoded_member_bytes _ _ rest (Stores.mcu_hello v h0 h1 h2) =
    let b = member_bytes (Payload.mcu_hello v) ++ rest in
    rw (
      read_word b 0 v.firmware_major refl refl h0,
      read_word b 2 v.firmware_minor refl refl h1,
      read_dword b 4 v.build_id refl refl refl refl h2,
    )
decoded_member_bytes _ _ rest (Stores.fast_telemetry v h0 h1 h2 h3 h4 h5 h6 h7 h8) =
    let b = member_bytes (Payload.fast_telemetry v) ++ rest in
    rw (
      read_dword b 0 v.timestamp_ms refl refl refl refl h0,
      read_signed_dword b 4 v.left_ticks refl refl refl refl h1,
      read_signed_dword b 8 v.right_ticks refl refl refl refl h2,
      read_word b 17 v.battery_mv refl refl h8,
    )
decoded_member_bytes _ _ rest (Stores.safety_event v h0 h1 h2) =
    let b = member_bytes (Payload.safety_event v) ++ rest in
    rw (read_word b 0 v.event refl refl h0, read_word b 3 v.detail refl refl h2)
decoded_member_bytes _ _ rest (Stores.safety_state v h0 h1 h2) =
    let b = member_bytes (Payload.safety_state v) ++ rest in
    rw (
      read_dword b 0 v.timestamp_ms refl refl refl refl h0,
      read_word b 4 v.active_flags refl refl h1,
      read_word b 6 v.latched_flags refl refl h2,
    )
