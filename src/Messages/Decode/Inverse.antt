-- ===== src/Messages/Decode/Inverse.antt =====
-- What a read payload was read from: no two payloads of a type give the same message.
use mathlib.Core.Option.{some-injective}
use oomwoo_firmware.Prelude.{
  ℕ, zero, suc, ◌+◌, ◌*◌, ◌/◌, ◌%◌, ◌≡◌, refl, ap, ap₂, ◌∙◌, subst, some, [], ◌∷◌, arith, length,
  Bytes, byte_at, IsU8, IsU32, IsBytes, All-get_or,
}
use oomwoo_firmware.Prelude.Int.{IsI16, IsI32}
use oomwoo_firmware.Protocol.Wire.{read_u16_le}
use oomwoo_firmware.Protocol.Wire.Laws.{read_u16_le_lem, read_u16_le-IsU16}
use oomwoo_firmware.Messages.{MessageType, size_of}
use oomwoo_firmware.Messages.Structs.{Payload}
use oomwoo_firmware.Messages.Words.{read_u32_le, read_i16_le, read_i32_le, uint16_of, uint32_of}
use oomwoo_firmware.Messages.Words.Laws.{
  read_u32_le_lem, uint16_of-int16_of, uint32_of-int32_of, int16_of-IsI16, int32_of-IsI32,
}
use oomwoo_firmware.Messages.Layout.{member_bytes, Stores}
use oomwoo_firmware.Messages.Decode.{decoded_member}

-- `count` bytes of `b`, from `at` on.
abbrev bytes_from : Bytes → ℕ → ℕ → Bytes
bytes_from b at zero = []
bytes_from b at (suc count) = byte_at b at ∷ bytes_from b (at + 1) count

bytes_from-suc :
    (x : ℕ) (b : Bytes) (at count : ℕ) → bytes_from (x ∷ b) (at + 1) count ≡ bytes_from b at count
bytes_from-suc x b at zero = refl
bytes_from-suc x b at (suc count) =
    ap₂ (λ (y : ℕ) ys. y ∷ ys) (ap (byte_at (x ∷ b)) {y = suc at} (omega arith))
      (bytes_from-suc x b (at + 1) count)

bytes_from_all : (b : Bytes) → bytes_from b 0 (length b) ≡ b
bytes_from_all [] = refl
bytes_from_all (x ∷ b) = ap (◌∷◌ x) (bytes_from-suc x b 0 (length b) ∙ bytes_from_all b)

module _ (b : Bytes) (h : IsBytes b) where
  byte : (at : ℕ) → IsU8 (byte_at b at)
  byte at = All-get_or IsU8 b at 0 (omega arith) h

  word_parts : (at : ℕ) → read_u16_le b at ≡ byte_at b at + byte_at b (at + 1) * 256
  word_parts at = read_u16_le_lem b at (byte at) (byte (at + 1))

  low16 : (at : ℕ) → read_u16_le b at % 256 ≡ byte_at b at
  low16 at = omega (arith, word_parts at, byte at, byte (at + 1))

  high16 : (at : ℕ) → read_u16_le b at / 256 ≡ byte_at b (at + 1)
  high16 at = omega (arith, word_parts at, byte at, byte (at + 1))

  dword_parts :
      (at : ℕ)
      → read_u32_le b at
        ≡ byte_at b at
          + byte_at b (at + 1) * 256
          + byte_at b (at + 2) * 65536
          + byte_at b (at + 3) * 16777216
  dword_parts at = read_u32_le_lem b at (byte at) (byte (at + 1)) (byte (at + 2)) (byte (at + 3))

  bytes32 :
      (at : ℕ)
      → (read_u32_le b at % 256 ≡ byte_at b at)
        × (read_u32_le b at / 256 % 256 ≡ byte_at b (at + 1))
        × (read_u32_le b at / 65536 % 256 ≡ byte_at b (at + 2))
        × (read_u32_le b at / 16777216 ≡ byte_at b (at + 3))
        × IsU32 (read_u32_le b at)
  bytes32 at =
      let parts = dword_parts at in
      let b0 = byte at in
      let b1 = byte (at + 1) in
      let b2 = byte (at + 2) in
      let b3 = byte (at + 3) in (omega arith, omega arith, omega arith, omega arith, omega arith)

  byte0 : (at : ℕ) → read_u32_le b at % 256 ≡ byte_at b at
  byte0 at = (bytes32 at).0

  byte1 : (at : ℕ) → read_u32_le b at / 256 % 256 ≡ byte_at b (at + 1)
  byte1 at = (bytes32 at).1

  byte2 : (at : ℕ) → read_u32_le b at / 65536 % 256 ≡ byte_at b (at + 2)
  byte2 at = (bytes32 at).2

  byte3 : (at : ℕ) → read_u32_le b at / 16777216 ≡ byte_at b (at + 3)
  byte3 at = (bytes32 at).3

  range32 : (at : ℕ) → IsU32 (read_u32_le b at)
  range32 at = (bytes32 at).4

  signed16 : (at : ℕ) → uint16_of (read_i16_le b at) ≡ read_u16_le b at
  unfolding read_i16_le
  signed16 at = uint16_of-int16_of (read_u16_le b at) (read_u16_le-IsU16 b at)

  signed16_range : (at : ℕ) → IsI16 (read_i16_le b at)
  unfolding read_i16_le
  signed16_range at = int16_of-IsI16 (read_u16_le b at) (read_u16_le-IsU16 b at)

  signed32 : (at : ℕ) → uint32_of (read_i32_le b at) ≡ read_u32_le b at
  unfolding read_i32_le
  signed32 at = uint32_of-int32_of (read_u32_le b at) (range32 at)

  signed32_range : (at : ℕ) → IsI32 (read_i32_le b at)
  unfolding read_i32_le
  signed32_range at = int32_of-IsI32 (read_u32_le b at) (range32 at)

  whole : (n : ℕ) → n ≡ length b → bytes_from b 0 n ≡ b
  whole n e = ap (bytes_from b 0) e ∙ bytes_from_all b

  -- A payload of a type's size that is read as a member holds that member's bytes, and the fields are
  -- in their types' ranges.
  pub decoded_member-Stores :
      (k : MessageType) (p : Payload)
      → (size_of (some k)).payload_size ≡ some (length b)
      → decoded_member (some k) b ≡ some p
      → Stores k p × (member_bytes p ≡ b)
  unfolding decoded_member
  decoded_member-Stores MessageType.identify_request p size e =
      subst (λ q. Stores MessageType.identify_request q × (member_bytes q ≡ b))
        (some-injective _ _ e) (Stores.identify_request, whole 0 (some-injective _ _ size))
  decoded_member-Stores MessageType.power_telemetry p size e = cc
  decoded_member-Stores MessageType.mcu_diagnostic p size e = cc
  decoded_member-Stores MessageType.heartbeat p size e =
      subst (λ q. Stores MessageType.heartbeat q × (member_bytes q ≡ b)) (some-injective _ _ e)
        (
          Stores.heartbeat _ (range32 0) (byte 4),
          rw (byte0 0, byte1 0, byte2 0, byte3 0) (whole 5 (some-injective _ _ size)),
        )
  decoded_member-Stores MessageType.estop_set p size e =
      subst (λ q. Stores MessageType.estop_set q × (member_bytes q ≡ b)) (some-injective _ _ e)
        (
          Stores.estop_set _ (byte 0) (read_u16_le-IsU16 b 1),
          rw (low16 1, high16 1) (whole 3 (some-injective _ _ size)),
        )
  decoded_member-Stores MessageType.clear_latched_fault p size e =
      subst (λ q. Stores MessageType.clear_latched_fault q × (member_bytes q ≡ b))
        (some-injective _ _ e)
        (
          Stores.clear_latched_fault _ (read_u16_le-IsU16 b 0),
          rw (low16 0, high16 0) (whole 2 (some-injective _ _ size)),
        )
  decoded_member-Stores MessageType.drive_setpoint p size e =
      subst (λ q. Stores MessageType.drive_setpoint q × (member_bytes q ≡ b)) (some-injective _ _ e)
        (
          Stores.drive_setpoint _ (signed16_range 0) (signed16_range 2) (read_u16_le-IsU16 b 4),
          rw (signed16 0, low16 0, high16 0, signed16 2, low16 2, high16 2, low16 4, high16 4)
              (whole 6 (some-injective _ _ size)),
        )
  decoded_member-Stores MessageType.cleaning_motors_set p size e =
      subst (λ q. Stores MessageType.cleaning_motors_set q × (member_bytes q ≡ b))
        (some-injective _ _ e)
        (
          Stores.cleaning_motors_set _ (byte 0) (byte 1) (byte 2) (byte 3),
          whole 4 (some-injective _ _ size),
        )
  decoded_member-Stores MessageType.lidar_motor_set p size e =
      subst (λ q. Stores MessageType.lidar_motor_set q × (member_bytes q ≡ b))
        (some-injective _ _ e)
        (Stores.lidar_motor_set _ (byte 0), whole 1 (some-injective _ _ size))
  decoded_member-Stores MessageType.led_set p size e =
      subst (λ q. Stores MessageType.led_set q × (member_bytes q ≡ b)) (some-injective _ _ e)
        (Stores.led_set _ (byte 0) (byte 1) (byte 2), whole 3 (some-injective _ _ size))
  decoded_member-Stores MessageType.ack p size e =
      subst (λ q. Stores MessageType.ack q × (member_bytes q ≡ b)) (some-injective _ _ e)
        (
          Stores.ack _ (read_u16_le-IsU16 b 0) (read_u16_le-IsU16 b 2),
          rw (low16 0, high16 0, low16 2, high16 2) (whole 4 (some-injective _ _ size)),
        )
  decoded_member-Stores MessageType.nack p size e =
      subst (λ q. Stores MessageType.nack q × (member_bytes q ≡ b)) (some-injective _ _ e)
        (
          Stores.nack _ (read_u16_le-IsU16 b 0) (read_u16_le-IsU16 b 2),
          rw (low16 0, high16 0, low16 2, high16 2) (whole 4 (some-injective _ _ size)),
        )
  decoded_member-Stores MessageType.mcu_hello p size e =
      subst (λ q. Stores MessageType.mcu_hello q × (member_bytes q ≡ b)) (some-injective _ _ e)
        (
          Stores.mcu_hello _ (read_u16_le-IsU16 b 0) (read_u16_le-IsU16 b 2) (range32 4),
          rw (low16 0, high16 0, low16 2, high16 2, byte0 4, byte1 4, byte2 4, byte3 4)
              (whole 8 (some-injective _ _ size)),
        )
  decoded_member-Stores MessageType.fast_telemetry p size e =
      subst (λ q. Stores MessageType.fast_telemetry q × (member_bytes q ≡ b)) (some-injective _ _ e)
        (
          Stores.fast_telemetry _ (range32 0) (signed32_range 4) (signed32_range 8) (byte 12)
              (byte 13) (byte 14) (byte 15) (byte 16) (read_u16_le-IsU16 b 17),
          rw
              (
                byte0 0,
                byte1 0,
                byte2 0,
                byte3 0,
                signed32 4,
                byte0 4,
                byte1 4,
                byte2 4,
                byte3 4,
                signed32 8,
                byte0 8,
                byte1 8,
                byte2 8,
                byte3 8,
                low16 17,
                high16 17,
              )
              (whole 19 (some-injective _ _ size)),
        )
  decoded_member-Stores MessageType.safety_event p size e =
      subst (λ q. Stores MessageType.safety_event q × (member_bytes q ≡ b)) (some-injective _ _ e)
        (
          Stores.safety_event _ (read_u16_le-IsU16 b 0) (byte 2) (read_u16_le-IsU16 b 3),
          rw (low16 0, high16 0, low16 3, high16 3) (whole 5 (some-injective _ _ size)),
        )
  decoded_member-Stores MessageType.safety_state p size e =
      subst (λ q. Stores MessageType.safety_state q × (member_bytes q ≡ b)) (some-injective _ _ e)
        (
          Stores.safety_state _ (range32 0) (read_u16_le-IsU16 b 4) (read_u16_le-IsU16 b 6),
          rw (byte0 0, byte1 0, byte2 0, byte3 0, low16 4, high16 4, low16 6, high16 6)
              (whole 8 (some-injective _ _ size)),
        )
