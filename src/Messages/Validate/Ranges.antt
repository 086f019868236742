-- ===== src/Messages/Validate/Ranges.antt =====
-- What the validation of a message means.
use oomwoo_firmware.Prelude.{
  ℕ, suc, ◌≤◌, ◌<◌, ◌≡◌, ◌⊎◌, inl, refl, true, false, some, arith, length,
}
use oomwoo_firmware.Prelude.Int.{ℤ, pos, negsuc, ltb_int}
use oomwoo_firmware.Messages.{
  MessageType, code, MessageResult, size_of, message_payload_size, max_linear_mm_s,
  max_angular_mrad_s, max_setpoint_duration_ms, max_percent,
}
use oomwoo_firmware.Messages.Events.{SafetyEventCode, event_code}
use oomwoo_firmware.Messages.Codes.{from_code-code}
use oomwoo_firmware.Messages.Structs.{Payload, Message, Punning, DriveSetpoint, SafetyEvent}
use oomwoo_firmware.Messages.Layout.{member_bytes, Stores}
use oomwoo_firmware.Messages.Validate.{
  message_validate, validate_member, drive_out_of_range, refuse_if, neg,
}

-- From `-n` to `n`.
abbrev pub Within : ℕ → ℤ → Type 0
Within n (pos k) = k ≤ n
Within n (negsuc k) = suc k ≤ n

-- The ranges of the fields that have one.
abbrev pub InRange : Payload → Type 0
InRange (Payload.heartbeat v) = v.cpu_mode < 2
InRange (Payload.estop_set v) = v.active < 2
InRange (Payload.drive_setpoint v) =
    Within max_linear_mm_s v.linear_mm_s
    × Within max_angular_mrad_s v.angular_mrad_s
    × (0 < v.duration_ms)
    × (v.duration_ms ≤ max_setpoint_duration_ms)
InRange (Payload.cleaning_motors_set v) =
    (v.main_brush_pct ≤ max_percent)
    × (v.side_brush_pct ≤ max_percent)
    × (v.fan_pct ≤ max_percent)
    × (v.pump_pct ≤ max_percent)
InRange (Payload.lidar_motor_set v) = v.pwm_pct ≤ max_percent
InRange (Payload.led_set v) = v.brightness_pct ≤ max_percent
InRange (Payload.safety_event v) = (0 < v.event) × (v.event ≤ 16) × (v.active < 2)
InRange _ = Unit

-- The validation lets every declared event pass.
event_code-InRange :
    (c : SafetyEventCode) (v : SafetyEvent)
    → v.event ≡ event_code c
    → v.active < 2
    → InRange (Payload.safety_event v)
event_code-InRange c v e h = ground arith

-- A message whose union holds the member that its type calls for.
pub record IsMessage (m : Message) : Type 0 where
  pub kind : MessageType
  pub typed : m.type ≡ code kind
  pub stores : Stores kind m.payload

-- The outcome of a validation, by the ranges.
abbrev pub Validated : MessageResult → Payload → Type 0
Validated r p =
    ((r ≡ MessageResult.ok) × InRange p) ⊎ ((r ≡ MessageResult.value_out_of_range) × (¬ InRange p))

pub size_of-Stores :
    (k : MessageType) (p : Payload)
    → Stores k p
    → size_of (some k)
      ≡ record { result = MessageResult.ok; payload_size = some (length (member_bytes p)) }
size_of-Stores _ _ Stores.identify_request = refl
size_of-Stores _ _ (Stores.heartbeat v _ _) = refl
size_of-Stores _ _ (Stores.estop_set v _ _) = refl
size_of-Stores _ _ (Stores.clear_latched_fault v _) = refl
size_of-Stores _ _ (Stores.drive_setpoint v _ _ _) = refl
size_of-Stores _ _ (Stores.cleaning_motors_set v _ _ _ _) = refl
size_of-Stores _ _ (Stores.lidar_motor_set v _) = refl
size_of-Stores _ _ (Stores.led_set v _ _ _) = refl
size_of-Stores _ _ (Stores.ack v _ _) = refl
size_of-Stores _ _ (Stores.nack v _ _) = refl
size_of-Stores _ _ (Stores.mcu_hello v _ _ _) = refl
size_of-Stores _ _ (Stores.fast_telemetry v _ _ _ _ _ _ _ _ _) = refl
size_of-Stores _ _ (Stores.safety_event v _ _ _) = refl
size_of-Stores _ _ (Stores.safety_state v _ _ _) = refl

-- The two tests of a signed field.
limits :
    (n : ℕ) (z : ℤ)
    → ((ltb_int z (neg (suc n)) ≡ false) × (ltb_int (pos (suc n)) z ≡ false) × Within (suc n) z)
      ⊎ ((ltb_int z (neg (suc n)) ≡ true) × (¬ Within (suc n) z))
      ⊎ ((ltb_int (pos (suc n)) z ≡ true) × (¬ Within (suc n) z))
limits n (pos k) = ground arith
limits n (negsuc k) = ground arith

drive_Validated :
    (v : DriveSetpoint) → Validated (refuse_if (drive_out_of_range v)) (Payload.drive_setpoint v)
drive_Validated v = ground (arith, limits 499 v.linear_mm_s, limits 3999 v.angular_mrad_s)

validate_member-Validated :
    (pun : Punning) (k : MessageType) (p : Payload)
    → Stores k p
    → Validated (validate_member pun (some k) p) p
unfolding validate_member
validate_member-Validated pun _ _ Stores.identify_request = inl (refl, tt)
validate_member-Validated pun _ _ (Stores.heartbeat v _ _) = ground arith
validate_member-Validated pun _ _ (Stores.estop_set v _ _) = ground arith
validate_member-Validated pun _ _ (Stores.clear_latched_fault v _) = inl (refl, tt)
validate_member-Validated pun _ _ (Stores.drive_setpoint v _ _ _) = drive_Validated v
validate_member-Validated pun _ _ (Stores.cleaning_motors_set v _ _ _ _) = ground arith
validate_member-Validated pun _ _ (Stores.lidar_motor_set v _) = ground arith
validate_member-Validated pun _ _ (Stores.led_set v _ _ _) = ground arith
validate_member-Validated pun _ _ (Stores.ack v _ _) = inl (refl, tt)
validate_member-Validated pun _ _ (Stores.nack v _ _) = inl (refl, tt)
validate_member-Validated pun _ _ (Stores.mcu_hello v _ _ _) = inl (refl, tt)
validate_member-Validated pun _ _ (Stores.fast_telemetry v _ _ _ _ _ _ _ _ _) = inl (refl, tt)
validate_member-Validated pun _ _ (Stores.safety_event v _ _ _) = ground arith
validate_member-Validated pun _ _ (Stores.safety_state v _ _ _) = inl (refl, tt)

-- A message whose union holds the member that its type calls for is accepted exactly when that
-- member's fields are in their ranges, and is refused as out of range otherwise.
pub message_validate-Validated :
    (pun : Punning) (m : Message)
    → IsMessage m
    → Validated (message_validate pun (some m)) m.payload
unfolding message_validate message_payload_size
message_validate-Validated pun m v =
    rw (v.typed, from_code-code v.kind, size_of-Stores v.kind m.payload v.stores)
      (validate_member-Validated pun v.kind m.payload v.stores)
