-- ===== src/Protocol/Crc.antt =====
-- `oomwoo_crc16_ccitt_false` of src/oomwoo_protocol.c.
pub mod Laws
use Prim.Native.Nat.{bit_and, bit_xor}
use oomwoo_firmware.Prelude.{
  ℕ, zero, suc, ◌*◌, ◌^◌, ◌&&◌, not, Option, none, some, List, [], ◌∷◌, ◌==◌, if◌then◌else◌, take,
  Bytes, u16, is_null, bytes_of,
}

-- One round of the bit loop.
pub crc_bit : ℕ → ℕ
crc_bit crc =
    if not (bit_and crc 0x8000 == 0) then u16 (bit_xor (crc * 2 ^ 1) 0x1021) else u16 (crc * 2 ^ 1)

-- `for (bit = 0; bit < 8; ++bit)`, with the rounds left.
pub crc_bits : ℕ → ℕ → ℕ
crc_bits zero crc = crc
crc_bits (suc left) crc = crc_bits left (crc_bit crc)

-- The body of the byte loop.
pub crc_byte : ℕ → ℕ → ℕ
crc_byte crc byte = crc_bits 8 (bit_xor crc (u16 (byte * 2 ^ 8)))

-- The byte loop over `data[index..length)`.
pub crc_loop : Bytes → ℕ → ℕ
crc_loop [] crc = crc
crc_loop (byte ∷ rest) crc = crc_loop rest (crc_byte crc byte)

unfoldable pub crc16_ccitt_false : Option Bytes → ℕ → ℕ
unfolding crc_loop crc_byte crc_bits crc_bit
crc16_ccitt_false bytes length =
    if is_null bytes && not (length == 0) then 0 else crc_loop (take length (bytes_of bytes)) 0xffff
