-- ===== src/Protocol/Wire.antt =====
-- `write_u16_le` and `read_u16_le` of src/oomwoo_protocol.c, which src/oomwoo_messages.c repeats.
-- A pointer into an array is the array with an offset.
pub mod Laws
use Prim.Native.Nat.{bit_and, bit_or}
use oomwoo_firmware.Prelude.{ℕ, ◌+◌, ◌*◌, ◌/◌, ◌^◌, set, Bytes, byte_at, u8, u16}

unfoldable pub write_u16_le : Bytes → ℕ → ℕ → Bytes
write_u16_le out at value =
    set (set out at (u8 (bit_and value 0xff))) (at + 1) (u8 (bit_and (value / 2 ^ 8) 0xff))

unfoldable pub read_u16_le : Bytes → ℕ → ℕ
read_u16_le input at = u16 (bit_or (byte_at input at) (byte_at input (at + 1) * 2 ^ 8))
