-- ===== src/Messages/Words/Laws.antt =====
-- Reads and writes of 32-bit and signed words as arithmetic on their bytes.
use Prim.Native.Nat.{bit_and, bit_or}
use oomwoo_firmware.Prelude.{
  ℕ, ◌+◌, ◌*◌, ◌/◌, ◌%◌, ◌^◌, ◌<◌, ◌≡◌, ap, ap₂, ◌∙◌, arith, set, Bytes, byte_at, IsU8, IsU16,
  IsU32, u8, u32,
}
use oomwoo_firmware.Prelude.Bits.{and_byte, or_fields}
use oomwoo_firmware.Prelude.Int.{ℤ, pos, negsuc, IsI16, IsI32}
use oomwoo_firmware.Messages.Words.{
  read_u32_le, write_u32_le, int16_of, uint16_of, int32_of, uint32_of,
}

-- The bytes that a 32-bit write stores.
pub write_u32_le_lem :
    (out : Bytes) (at value : ℕ)
    → IsU32 value
    → write_u32_le out at value
      ≡ set
          (set
            (set (set out at (value % 256)) (at + 1) (value / 256 % 256))
            (at + 2)
            (value / 65536 % 256))
          (at + 3)
          (value / 16777216)
unfolding write_u32_le
write_u32_le_lem out at value h =
    ap₂
      (λ b0 b1.
        set (set (set (set out at b0) (at + 1) b1) (at + 2) (u8 (bit_and (value / 2 ^ 16) 0xff)))
          (at + 3) (u8 (bit_and (value / 2 ^ 24) 0xff)))
      (omega (arith, and_byte value)) (omega (arith, and_byte (value / 2 ^ 8)))
    ∙ ap₂
        (λ b2 b3.
          set (set (set (set out at (value % 256)) (at + 1) (value / 256 % 256)) (at + 2) b2)
            (at + 3) b3)
        (omega (arith, and_byte (value / 2 ^ 16))) (omega (arith, and_byte (value / 2 ^ 24)))

or_byte :
    (k low byte : ℕ)
    → low < 2 ^ k
    → u32 (byte * 2 ^ k) ≡ byte * 2 ^ k
    → bit_or low (u32 (byte * 2 ^ k)) ≡ low + byte * 2 ^ k
or_byte k low byte h fits = rw fits (or_fields k low byte h)

-- The value that four bytes stand for.
pub read_u32_le_lem :
    (input : Bytes) (at : ℕ)
    → IsU8 (byte_at input at)
    → IsU8 (byte_at input (at + 1))
    → IsU8 (byte_at input (at + 2))
    → IsU8 (byte_at input (at + 3))
    → read_u32_le input at
      ≡ byte_at input at
        + byte_at input (at + 1) * 256
        + byte_at input (at + 2) * 65536
        + byte_at input (at + 3) * 16777216
unfolding read_u32_le
read_u32_le_lem input at h0 h1 h2 h3 =
    let b0 = byte_at input at in
    let b1 = byte_at input (at + 1) in
    let b2 = byte_at input (at + 2) in
    let b3 = byte_at input (at + 3) in
    ap (λ t. bit_or (bit_or t (u32 (b2 * 2 ^ 16))) (u32 (b3 * 2 ^ 24)))
      (or_byte 8 b0 b1 h0 (omega arith))
    ∙ ap (λ t. bit_or t (u32 (b3 * 2 ^ 24)))
        (or_byte 16 (b0 + b1 * 2 ^ 8) b2 (omega arith) (omega arith))
    ∙ or_byte 24 (b0 + b1 * 2 ^ 8 + b2 * 2 ^ 16) b3 (omega arith) (omega arith)

pub uint16_of-IsU16 : (z : ℤ) → IsU16 (uint16_of z)
uint16_of-IsU16 (pos n) = omega arith
uint16_of-IsU16 (negsuc n) = omega arith

pub uint32_of-IsU32 : (z : ℤ) → IsU32 (uint32_of z)
uint32_of-IsU32 (pos n) = omega arith
uint32_of-IsU32 (negsuc n) = omega arith

pub int16_of-IsI16 : (v : ℕ) → IsU16 v → IsI16 (int16_of v)
int16_of-IsI16 v h = ground arith

pub int32_of-IsI32 : (v : ℕ) → IsU32 v → IsI32 (int32_of v)
int32_of-IsI32 v h = ground arith

pub int16_of-uint16_of : (z : ℤ) → IsI16 z → int16_of (uint16_of z) ≡ z
int16_of-uint16_of (pos n) h = ground arith
int16_of-uint16_of (negsuc n) h = ground arith

pub int32_of-uint32_of : (z : ℤ) → IsI32 z → int32_of (uint32_of z) ≡ z
int32_of-uint32_of (pos n) h = ground arith
int32_of-uint32_of (negsuc n) h = ground arith

pub uint16_of-int16_of : (v : ℕ) → IsU16 v → uint16_of (int16_of v) ≡ v
uint16_of-int16_of v h = ground arith

pub uint32_of-int32_of : (v : ℕ) → IsU32 v → uint32_of (int32_of v) ≡ v
uint32_of-int32_of v h = ground arith
