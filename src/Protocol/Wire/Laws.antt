-- ===== src/Protocol/Wire/Laws.antt =====
-- Reads and writes of little-endian words as arithmetic on their bytes.
use oomwoo_firmware.Prelude.{
  ℕ, ◌+◌, ◌*◌, ◌/◌, ◌%◌, ◌^◌, ◌≡◌, ap₂, arith, set, Bytes, byte_at, IsU8, IsU16,
}
use oomwoo_firmware.Prelude.Bits.{and_byte, or_fields}
use oomwoo_firmware.Protocol.Wire.{write_u16_le, read_u16_le}

-- The bytes that a 16-bit write stores.
pub write_u16_le_lem :
    (out : Bytes) (at value : ℕ)
    → IsU16 value
    → write_u16_le out at value ≡ set (set out at (value % 256)) (at + 1) (value / 256)
unfolding write_u16_le
write_u16_le_lem out at value h =
    ap₂ (λ lo hi. set (set out at lo) (at + 1) hi) (omega (arith, and_byte value))
      (omega (arith, and_byte (value / 2 ^ 8)))

-- The value that two bytes stand for.
pub read_u16_le_lem :
    (input : Bytes) (at : ℕ)
    → IsU8 (byte_at input at)
    → IsU8 (byte_at input (at + 1))
    → read_u16_le input at ≡ byte_at input at + byte_at input (at + 1) * 256
unfolding read_u16_le
read_u16_le_lem input at lo hi =
    omega (arith, or_fields 8 (byte_at input at) (byte_at input (at + 1)) lo)

-- Without a range on the bytes, a read still fits 16 bits.
pub read_u16_le-IsU16 : (input : Bytes) (at : ℕ) → IsU16 (read_u16_le input at)
unfolding read_u16_le
read_u16_le-IsU16 input at = omega arith
