-- ===== src/Protocol/Crc/Laws.antt =====
-- What the checksum tells apart.
use Prim.Native.Nat.{bit_xor}
use native.Mathlib.Decide.{dec_lt}
use oomwoo_firmware.Prelude.{
  ◌-◌, ℕ, zero, suc, ◌+◌, ◌*◌, ◌^◌, ◌<◌, ◌≡◌, ap, ◌∙◌, ◌⊎◌, inl, inr, [], ◌∷◌, ◌++◌, arith, Bytes,
  IsU8, IsU16, u16,
}
use oomwoo_firmware.Prelude.Bits.{
  and_bit, xor-lt, xor_injective, xor_comm, xor_fields, bit_xor_lowest,
}
use oomwoo_firmware.Protocol.Crc.{crc_bit, crc_bits, crc_byte, crc_loop}

crc_bit-IsU16 : (crc : ℕ) → IsU16 (crc_bit crc)
unfolding crc_bit
crc_bit-IsU16 crc = ground arith

crc_bits-IsU16 : (n crc : ℕ) → IsU16 crc → IsU16 (crc_bits n crc)
unfolding crc_bits
crc_bits-IsU16 zero crc h = h
crc_bits-IsU16 (suc n) crc h = crc_bits-IsU16 n (crc_bit crc) (crc_bit-IsU16 crc)

-- The two branches of a round, by the top bit of the value.
crc_bit_low : (r : ℕ) → r < 32768 → crc_bit r ≡ r * 2
unfolding crc_bit
crc_bit_low r h = ground (arith, and_bit 15 0 r)

crc_bit_high : (r : ℕ) → r < 32768 → crc_bit (32768 + r) ≡ bit_xor r 0x810 * 2 + 1
unfolding crc_bit
crc_bit_high r h = ground (
  arith,
  and_bit 15 1 r,
  bit_xor_lowest ((32768 + r) * 2) 0x1021,
  xor_fields 15 1 r 0x810,
  xor-lt 15 r 0x810,
)

abbrev Low : ℕ → Type 0
Low crc = (crc < 32768) × (crc_bit crc ≡ crc * 2)

abbrev High : ℕ → Type 0
High crc = (r : ℕ) × (r < 32768) × (crc ≡ 32768 + r) × (crc_bit crc ≡ bit_xor r 0x810 * 2 + 1)

crc_bit_cases : (crc : ℕ) → IsU16 crc → Low crc ⊎ High crc
crc_bit_cases crc h = elim (dec_lt crc 32768) [
  | yes low ↦ inl (low, crc_bit_low crc low)
  | no high ↦
      let r : ℕ = crc - 32768 in
      let split : crc ≡ 32768 + r = omega arith in
      inr (r, omega arith, split, ap crc_bit split ∙ crc_bit_high r (omega arith))
]

-- One round loses nothing: the bit shifted out shows in the lowest bit of the result.
crc_bit_injective : (a b : ℕ) → IsU16 a → IsU16 b → crc_bit a ≡ crc_bit b → a ≡ b
crc_bit_injective a b ha hb e = elim (crc_bit_cases a ha) [
  | inl (la, ea) ↦ elim (crc_bit_cases b hb) [
    | inl (lb, eb) ↦ omega arith
    | inr (s, ls, sb, eb) ↦ absurd (omega arith)
  ]
  | inr (r, lr, sa, ea) ↦ elim (crc_bit_cases b hb) [
    | inl (lb, eb) ↦ absurd (omega arith)
    | inr (s, ls, sb, eb) ↦ let same : r ≡ s = xor_injective r s 0x810 (omega arith) in omega arith
  ]
]

crc_bits_injective : (n a b : ℕ) → IsU16 a → IsU16 b → crc_bits n a ≡ crc_bits n b → a ≡ b
unfolding crc_bits
crc_bits_injective zero a b ha hb e = e
crc_bits_injective (suc n) a b ha hb e =
    crc_bit_injective a b ha hb (crc_bits_injective n _ _ (crc_bit-IsU16 a) (crc_bit-IsU16 b) e)

pub crc_byte-IsU16 : (crc byte : ℕ) → IsU16 crc → IsU16 (crc_byte crc byte)
unfolding crc_byte
crc_byte-IsU16 crc byte h = crc_bits-IsU16 8 _ (xor-lt 16 crc _ h (omega arith))

pub crc_loop-IsU16 : (bytes : Bytes) (crc : ℕ) → IsU16 crc → IsU16 (crc_loop bytes crc)
unfolding crc_loop
crc_loop-IsU16 [] crc h = h
crc_loop-IsU16 (x ∷ rest) crc h = crc_loop-IsU16 rest (crc_byte crc x) (crc_byte-IsU16 crc x h)

-- Different values going in give different values coming out of the same byte.
crc_byte_injective : (a b byte : ℕ) → IsU16 a → IsU16 b → crc_byte a byte ≡ crc_byte b byte → a ≡ b
unfolding crc_byte
crc_byte_injective a b byte ha hb e =
    xor_injective a b _
      (crc_bits_injective 8 _ _ (xor-lt 16 a _ ha (omega arith)) (xor-lt 16 b _ hb (omega arith)) e)

-- Different bytes from the same value give different values.
byte_injective :
    (crc x y : ℕ) → IsU16 crc → IsU8 x → IsU8 y → crc_byte crc x ≡ crc_byte crc y → x ≡ y
unfolding crc_byte
byte_injective crc x y h hx hy e =
    let shifted : u16 (x * 2 ^ 8) ≡ u16 (y * 2 ^ 8) = xor_injective _ _ crc (
      xor_comm _ crc
      ∙ crc_bits_injective 8 _ _ (xor-lt 16 crc _ h (omega arith)) (xor-lt 16 crc _ h (omega arith))
          e
      ∙ xor_comm crc _) in
    omega arith

crc_loop_injective :
    (bytes : Bytes) (a b : ℕ) → IsU16 a → IsU16 b → crc_loop bytes a ≡ crc_loop bytes b → a ≡ b
unfolding crc_loop
crc_loop_injective [] a b ha hb e = e
crc_loop_injective (x ∷ rest) a b ha hb e =
    crc_byte_injective a b x ha hb
      (crc_loop_injective rest _ _ (crc_byte-IsU16 a x ha) (crc_byte-IsU16 b x hb) e)

-- Two inputs that differ in one byte have different checksums.
pub crc_loop_one_byte :
    (front back : Bytes) (crc x y : ℕ)
    → IsU16 crc
    → IsU8 x
    → IsU8 y
    → crc_loop (front ++ (x ∷ back)) crc ≡ crc_loop (front ++ (y ∷ back)) crc
    → x ≡ y
unfolding crc_loop
crc_loop_one_byte [] back crc x y h hx hy e =
    byte_injective crc x y h hx hy
      (crc_loop_injective back _ _ (crc_byte-IsU16 crc x h) (crc_byte-IsU16 crc y h) e)
crc_loop_one_byte (z ∷ front) back crc x y h hx hy e =
    crc_loop_one_byte front back (crc_byte crc z) x y (crc_byte-IsU16 crc z h) hx hy e
