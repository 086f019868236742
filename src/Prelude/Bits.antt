-- ===== src/Prelude/Bits.antt =====
-- Laws of the bit operations at every width, from the digit recursion that they stand for.
use Prim.Native.Nat.{
  ℕ, zero, suc, ◌+◌, ◌*◌, ◌/◌, ◌%◌, ◌^◌, ◌≤◌, ◌<◌, min, max, differ, bit_and, bit_or, bit_xor,
  digits, bitwise, bit_and-bitwise, bit_or-bitwise, bit_xor-bitwise,
}
use mathlib.Core.Path.{◌≡◌, refl, ap, ap₂, sym, ◌∙◌}
use native.Mathlib.Nat.{pow-suc, le_refl}
use native.Mathlib.Omega.{arith}

module _ (z : ℕ → ℕ) (f : ℕ → ℕ → ℕ) where
  -- More rounds than digits change nothing.
  digits_rounds : (n m a b : ℕ) → a ≤ n → a ≤ m → digits z f n a b ≡ digits z f m a b
  digits_rounds n m zero b p q = zero_digits n m b
    where
      zero_digits : (n m b : ℕ) → digits z f n 0 b ≡ digits z f m 0 b
      zero_digits zero zero b = refl
      zero_digits zero (suc m) b = refl
      zero_digits (suc n) zero b = refl
      zero_digits (suc n) (suc m) b = refl
  digits_rounds zero m (suc a) b p q = absurd (omega arith)
  digits_rounds (suc n) zero (suc a) b p q = absurd (omega arith)
  digits_rounds (suc n) (suc m) (suc a) b p q =
      ap (λ t. t * 2 + f (suc a % 2) (b % 2))
        (digits_rounds n m (suc a / 2) (b / 2) (omega arith) (omega arith))

  pub bitwise_lowest :
      (a b : ℕ)
      → bitwise z f (suc a) b ≡ bitwise z f (suc a / 2) (b / 2) * 2 + f (suc a % 2) (b % 2)
  bitwise_lowest a b =
      ap (λ t. t * 2 + f (suc a % 2) (b % 2))
        (digits_rounds a (suc a / 2) (suc a / 2) (b / 2) (omega arith) (le_refl _))

differ_bits : (p q : ℕ) → p < 2 → q < 2 → differ p q ≡ (p + q) % 2
differ_bits zero q hp hq = omega arith
differ_bits (suc p) zero hp hq = omega arith
differ_bits (suc p) (suc q) hp hq =
    let p0 : p ≡ 0 = omega arith in let q0 : q ≡ 0 = omega arith in rw (p0, q0)

max_bits : (p q : ℕ) → q ≡ 0 → max p q ≡ p
max_bits p q h = omega arith

pub bit_xor_lowest : (a b : ℕ) → bit_xor a b ≡ bit_xor (a / 2) (b / 2) * 2 + (a % 2 + b % 2) % 2
bit_xor_lowest zero b = simp bit_xor-bitwise (omega arith)
bit_xor_lowest (suc a) b = omega (
  arith,
  bit_xor-bitwise (suc a) b,
  bit_xor-bitwise (suc a / 2) (b / 2),
  bitwise_lowest (λ y. y) differ a b,
  differ_bits (suc a % 2) (b % 2) (omega arith) (omega arith),
)

pub bit_and_lowest : (a b : ℕ) → bit_and a b ≡ bit_and (a / 2) (b / 2) * 2 + min (a % 2) (b % 2)
bit_and_lowest zero b = simp bit_and-bitwise (omega arith)
bit_and_lowest (suc a) b = omega (
  arith,
  bit_and-bitwise (suc a) b,
  bit_and-bitwise (suc a / 2) (b / 2),
  bitwise_lowest (λ y. 0) min a b,
)

pub bit_or_lowest : (a b : ℕ) → bit_or a b ≡ bit_or (a / 2) (b / 2) * 2 + max (a % 2) (b % 2)
bit_or_lowest zero b = simp bit_or-bitwise (omega arith)
bit_or_lowest (suc a) b = omega (
  arith,
  bit_or-bitwise (suc a) b,
  bit_or-bitwise (suc a / 2) (b / 2),
  bitwise_lowest (λ y. y) max a b,
)

xor_cancel_rounds : (n a k : ℕ) → a ≤ n → k ≤ n → bit_xor (bit_xor a k) k ≡ a
xor_cancel_rounds zero a k p q =
    let a0 : a ≡ 0 = omega arith in let k0 : k ≡ 0 = omega arith in rw (a0, k0)
xor_cancel_rounds (suc n) a k p q =
    let x = bit_xor a k in
    let half : x / 2 ≡ bit_xor (a / 2) (k / 2) = omega (arith, bit_xor_lowest a k) in
    omega (
      arith,
      bit_xor_lowest a k,
      bit_xor_lowest x k,
      ap (λ (t : ℕ). bit_xor t (k / 2)) half,
      xor_cancel_rounds n (a / 2) (k / 2) (omega arith) (omega arith),
    )

-- Exclusive or with the same number twice changes nothing.
pub xor_cancel : (a k : ℕ) → bit_xor (bit_xor a k) k ≡ a
xor_cancel a k = xor_cancel_rounds (a + k) a k (omega arith) (omega arith)

pub xor_injective : (a b k : ℕ) → bit_xor a k ≡ bit_xor b k → a ≡ b
xor_injective a b k e = sym (xor_cancel a k) ∙ ap (λ t. bit_xor t k) e ∙ xor_cancel b k

pub xor_comm_rounds : (n a b : ℕ) → a ≤ n → b ≤ n → bit_xor a b ≡ bit_xor b a
xor_comm_rounds zero a b p q =
    let a0 : a ≡ 0 = omega arith in let b0 : b ≡ 0 = omega arith in rw (a0, b0)
xor_comm_rounds (suc n) a b p q = omega (
  arith,
  bit_xor_lowest a b,
  bit_xor_lowest b a,
  xor_comm_rounds n (a / 2) (b / 2) (omega arith) (omega arith),
)

pub xor_comm : (a b : ℕ) → bit_xor a b ≡ bit_xor b a
xor_comm a b = xor_comm_rounds (a + b) a b (omega arith) (omega arith)

pub xor-lt : (k a b : ℕ) → a < 2 ^ k → b < 2 ^ k → bit_xor a b < 2 ^ k
xor-lt zero a b p q =
    let a0 : a ≡ 0 = omega arith in let b0 : b ≡ 0 = omega arith in rw (a0, b0) (omega arith)
xor-lt (suc k) a b p q = omega (
  arith,
  bit_xor_lowest a b,
  pow-suc 2 k,
  xor-lt k (a / 2) (b / 2) (omega (arith, pow-suc 2 k)) (omega (arith, pow-suc 2 k)),
)

and-zero_rounds : (n a : ℕ) → a ≤ n → bit_and a 0 ≡ 0
and-zero_rounds zero a h = let a0 : a ≡ 0 = omega arith in rw a0
and-zero_rounds (suc n) a h =
    omega (arith, bit_and_lowest a 0, and-zero_rounds n (a / 2) (omega arith))

pub and-zero : (a : ℕ) → bit_and a 0 ≡ 0
and-zero a = and-zero_rounds a a (le_refl a)

zero-or : (b : ℕ) → bit_or 0 b ≡ b
zero-or b = bit_or-bitwise 0 b

mul-pow-suc : (q k : ℕ) → q * 2 ^ suc k ≡ 2 * (q * 2 ^ k)
mul-pow-suc q k = omega (arith, ap (λ (t : ℕ). q * t) (pow-suc 2 k))

-- A single-bit mask picks that bit.
pub and_bit : (k q r : ℕ) → r < 2 ^ k → bit_and (q * 2 ^ k + r) (2 ^ k) ≡ q % 2 * 2 ^ k
and_bit zero q r h = omega (arith, bit_and_lowest (q * 1 + r) 1, and-zero ((q * 1 + r) / 2))
and_bit (suc k) q r h = ground (
  arith,
  bit_and_lowest (q * 2 ^ suc k + r) (2 ^ suc k),
  mul-pow-suc q k,
  mul-pow-suc (q % 2) k,
  pow-suc 2 k,
  and_bit k q (r / 2) (omega (arith, pow-suc 2 k)),
)

-- One more low bit in the mask keeps one more bit.
and_ones : (a m : ℕ) → bit_and a (2 * m + 1) ≡ bit_and (a / 2) m * 2 + a % 2
and_ones a m =
    bit_and_lowest a (2 * m + 1)
    ∙ ap₂ (λ (s t : ℕ). bit_and (a / 2) s * 2 + t) (omega arith) (omega arith)

-- The mask of the eight low bits is the remainder by 256.
pub and_byte : (a : ℕ) → bit_and a 255 ≡ a % 256
and_byte a = omega (
  arith,
  and_ones (a) 127,
  and_ones (a / 2) 63,
  and_ones (a / 2 / 2) 31,
  and_ones (a / 2 / 2 / 2) 15,
  and_ones (a / 2 / 2 / 2 / 2) 7,
  and_ones (a / 2 / 2 / 2 / 2 / 2) 3,
  and_ones (a / 2 / 2 / 2 / 2 / 2 / 2) 1,
  and_ones (a / 2 / 2 / 2 / 2 / 2 / 2 / 2) 0,
  and-zero (a / 2 / 2 / 2 / 2 / 2 / 2 / 2 / 2),
)

-- `r | (q << k)` is a sum when `r` fits `k` bits.
pub or_fields : (k r q : ℕ) → r < 2 ^ k → bit_or r (q * 2 ^ k) ≡ r + q * 2 ^ k
or_fields zero r q h = let r0 : r ≡ 0 = omega arith in rw r0 (omega (arith, zero-or (q * 1)))
or_fields (suc k) r q h = ground (
  arith,
  bit_or_lowest r (q * 2 ^ suc k),
  mul-pow-suc q k,
  or_fields k (r / 2) q (omega (arith, pow-suc 2 k)),
)

zero-xor : (b : ℕ) → bit_xor 0 b ≡ b
zero-xor b = bit_xor-bitwise 0 b

pub xor-zero : (a : ℕ) → bit_xor a 0 ≡ a
xor-zero a = xor_comm a 0 ∙ zero-xor a

-- Exclusive or with a number of `k` bits leaves the bits above them alone.
pub xor_fields :
    (k q r c : ℕ) → r < 2 ^ k → c < 2 ^ k → bit_xor (q * 2 ^ k + r) c ≡ q * 2 ^ k + bit_xor r c
xor_fields zero q r c hr hc =
    let r0 : r ≡ 0 = omega arith in
    let c0 : c ≡ 0 = omega arith in rw (r0, c0) (omega (arith, xor-zero (q * 1 + 0)))
xor_fields (suc k) q r c hr hc = ground (
  arith,
  bit_xor_lowest (q * 2 ^ suc k + r) c,
  bit_xor_lowest r c,
  mul-pow-suc q k,
  xor_fields k q (r / 2) (c / 2) (omega (arith, pow-suc 2 k)) (omega (arith, pow-suc 2 k)),
)
