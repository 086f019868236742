-- ===== src/Messages/Codes.antt =====
-- The 16-bit values of the message types, and what the tables over them agree on.
use oomwoo_firmware.Prelude.{ℕ, ◌≤◌, ◌≡◌, ◌↔◌, ◌⊎◌, refl, some, arith}
use oomwoo_firmware.Messages.{
  MessageType, code, from_code, Direction, message_direction, MessageResult, message_payload_size,
}

pub from_code-code : (k : MessageType) → from_code (code k) ≡ some k
unfolding from_code
from_code-code MessageType.heartbeat = refl
from_code-code MessageType.estop_set = refl
from_code-code MessageType.clear_latched_fault = refl
from_code-code MessageType.identify_request = refl
from_code-code MessageType.drive_setpoint = refl
from_code-code MessageType.cleaning_motors_set = refl
from_code-code MessageType.lidar_motor_set = refl
from_code-code MessageType.led_set = refl
from_code-code MessageType.ack = refl
from_code-code MessageType.nack = refl
from_code-code MessageType.mcu_hello = refl
from_code-code MessageType.fast_telemetry = refl
from_code-code MessageType.safety_event = refl
from_code-code MessageType.power_telemetry = refl
from_code-code MessageType.mcu_diagnostic = refl
from_code-code MessageType.safety_state = refl

pub from_code-eq-some : (n : ℕ) (k : MessageType) → from_code n ≡ some k → n ≡ code k
unfolding from_code
from_code-eq-some n k e = ground arith

-- The tables over the types, by ranges of the 16-bit values: the CPU's commands are 0x0001 to 0x0004
-- and 0x0101 to 0x0104, both sides send 0x7001 and 0x7002, the MCU sends 0x8000 to 0x8005, and the
-- direction of every other value is unknown; exactly the values of unknown direction have an unknown
-- size, and exactly 0x8003 and 0x8004 an undefined one.
pub direction-ranges :
    (t old : ℕ)
    → let direction = message_direction t in
      let result = (message_payload_size t (some old)).result in
      ((direction ≡ Direction.cpu_to_mcu)
        ↔ (((0x0001 ≤ t) × (t ≤ 0x0004)) ⊎ ((0x0101 ≤ t) × (t ≤ 0x0104))))
      × ((direction ≡ Direction.both) ↔ ((0x7001 ≤ t) × (t ≤ 0x7002)))
      × ((direction ≡ Direction.mcu_to_cpu) ↔ ((0x8000 ≤ t) × (t ≤ 0x8005)))
      × ((direction ≡ Direction.unknown) ↔ (result ≡ MessageResult.unknown_type))
      × ((result ≡ MessageResult.payload_undefined) ↔ ((0x8003 ≤ t) × (t ≤ 0x8004)))
unfolding message_direction message_payload_size from_code
direction-ranges t old = (ground arith, ground arith, ground arith, ground arith, ground arith)
