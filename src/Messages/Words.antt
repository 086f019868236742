-- ===== src/Messages/Words.antt =====
-- `read_u32_le`, `read_i16_le`, `read_i32_le` and the matching writes of src/oomwoo_messages.c.
pub mod Laws
use Prim.Native.Nat.{bit_and, bit_or}
use oomwoo_firmware.Prelude.{
  ℕ, ◌+◌, ◌-◌, ◌*◌, ◌/◌, ◌%◌, ◌^◌, leb, if◌then◌else◌, set, Bytes, byte_at, u8, u16, u32,
}
use oomwoo_firmware.Prelude.Int.{ℤ, pos, negsuc}
use oomwoo_firmware.Protocol.Wire.{read_u16_le, write_u16_le}

abbrev pub int16_max : ℕ
int16_max = 32767

abbrev pub uint16_max : ℕ
uint16_max = 65535

abbrev pub int32_max : ℕ
int32_max = 2147483647

abbrev pub uint32_max : ℕ
uint32_max = 4294967295

unfoldable pub read_u32_le : Bytes → ℕ → ℕ
read_u32_le input at =
    bit_or
      (bit_or (bit_or (byte_at input at) (u32 (byte_at input (at + 1) * 2 ^ 8)))
        (u32 (byte_at input (at + 2) * 2 ^ 16)))
      (u32 (byte_at input (at + 3) * 2 ^ 24))

-- `-(n) - 1` is `negsuc n`.
abbrev pub int16_of : ℕ → ℤ
int16_of value = if leb value int16_max then pos value else negsuc (uint16_max - value)

unfoldable pub read_i16_le : Bytes → ℕ → ℤ
read_i16_le input at = int16_of (read_u16_le input at)

abbrev pub int32_of : ℕ → ℤ
int32_of value = if leb value int32_max then pos value else negsuc (uint32_max - value)

unfoldable pub read_i32_le : Bytes → ℕ → ℤ
read_i32_le input at = int32_of (read_u32_le input at)

unfoldable pub write_u32_le : Bytes → ℕ → ℕ → Bytes
write_u32_le out at value =
    set
      (set (set (set out at (u8 (bit_and value 0xff))) (at + 1) (u8 (bit_and (value / 2 ^ 8) 0xff)))
        (at + 2) (u8 (bit_and (value / 2 ^ 16) 0xff)))
      (at + 3) (u8 (bit_and (value / 2 ^ 24) 0xff))

-- `(uint16_t)value`
abbrev pub uint16_of : ℤ → ℕ
uint16_of (pos n) = u16 n
uint16_of (negsuc n) = uint16_max - u16 n

unfoldable pub write_i16_le : Bytes → ℕ → ℤ → Bytes
write_i16_le out at value = write_u16_le out at (uint16_of value)

-- `(uint32_t)value`
abbrev pub uint32_of : ℤ → ℕ
uint32_of (pos n) = u32 n
uint32_of (negsuc n) = uint32_max - u32 n

unfoldable pub write_i32_le : Bytes → ℕ → ℤ → Bytes
write_i32_le out at value = write_u32_le out at (uint32_of value)
