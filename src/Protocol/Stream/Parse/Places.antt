-- ===== src/Protocol/Stream/Parse/Places.antt =====
-- Places of the input where a frame or a fault stands, and counters that count them.
use oomwoo_firmware.Prelude.{
  ℕ, zero, suc, ◌+◌, ◌-◌, ◌%◌, ◌≤◌, ◌<◌, ◌≡◌, Bool, true, false, not, ◌&&◌, some, [], ◌∷◌, ltb, leb,
  ◌==◌, if◌then◌else◌, length, drop, Bytes, byte_at, u32, arith,
}
use oomwoo_firmware.Protocol.{
  magic_0, magic_1, protocol_version, header_size, crc_size, max_payload_size,
}
use oomwoo_firmware.Protocol.Wire.{read_u16_le}
use oomwoo_firmware.Protocol.Crc.{crc16_ccitt_false}
use oomwoo_firmware.Protocol.Frame.{frame_size}

-- A whole header with the right magic stands at the front.
abbrev pub has_header : Bytes → Bool
has_header p = leb header_size (length p) && byte_at p 0 == magic_0 && byte_at p 1 == magic_1

-- Such a header of another version.
abbrev pub has_foreign : Bytes → Bool
has_foreign p = has_header p && not (byte_at p 2 == protocol_version)

-- Such a header of this version that announces too long a payload.
abbrev pub has_long : Bytes → Bool
has_long p =
    has_header p && byte_at p 2 == protocol_version && ltb max_payload_size (read_u16_le p 8)

-- All of a frame of this version, by its header.
abbrev pub has_frame : Bytes → Bool
has_frame p =
    has_header p
    && byte_at p 2 == protocol_version
    && leb (read_u16_le p 8) max_payload_size
    && leb (frame_size (read_u16_le p 8)) (length p)

-- The checksum at the end of what a header announces is right.
abbrev pub is_intact : Bytes → Bool
is_intact p =
    let checked = frame_size (read_u16_le p 8) - crc_size in
    read_u16_le p checked == crc16_ccitt_false (some p) checked

abbrev pub has_intact : Bytes → Bool
has_intact p = has_frame p && is_intact p

abbrev pub has_broken : Bytes → Bool
has_broken p = has_frame p && not (is_intact p)

-- At how many places of the input the test holds for what stands from there on.
pub places : (Bytes → Bool) → Bytes → ℕ
places t [] = 0
places t (x ∷ p) = if t (x ∷ p) then suc (places t p) else places t p

-- A counter that moved by no more than the places that were passed, and did move if the test
-- holds at the front.
abbrev pub Spends : (Bytes → Bool) → ℕ → ℕ → Bytes → Bytes → Type 0
Spends t before after p q =
    (n : ℕ) × (t p ≡ true → 0 < n)
    × (n + places t q ≤ places t p)
    × (after % 4294967296 ≡ (before + n) % 4294967296)

module _ (t : Bytes → Bool) where
  places-drop : (k : ℕ) (p : Bytes) → places t (drop k p) ≤ places t p
  unfolding places
  places-drop zero p = omega arith
  places-drop (suc k) [] = omega arith
  places-drop (suc k) (x ∷ p) = ground (arith, places-drop k p)

  pub places_here :
      (k : ℕ) (p : Bytes)
      → t p ≡ true
      → 0 < k
      → 0 < length p
      → suc (places t (drop k p)) ≤ places t p
  unfolding places
  places_here zero p e some_taken h = absurd (omega arith)
  places_here (suc k) [] e some_taken h = absurd (omega arith)
  places_here (suc k) (x ∷ p) e some_taken h = rw e (omega (arith, places-drop k p))

  pub stays : (b k : ℕ) (p : Bytes) → t p ≡ false → Spends t b b p (drop k p)
  stays b k p other = (0, λ e. absurd (cc), omega (arith, places-drop k p), omega arith)

  pub moves :
      (b k : ℕ) (p : Bytes)
      → t p ≡ true
      → 0 < k
      → 0 < length p
      → Spends t b (u32 (b + 1)) p (drop k p)
  moves b k p e some_taken h =
      (1, λ front. omega arith, omega (arith, places_here k p e some_taken h), omega arith)

  pub Spends-both :
      (a b c : ℕ) (p q r : Bytes) → Spends t a b p q → Spends t b c q r → Spends t a c p r
  Spends-both a b c p q r (m, f, h, e) (n, g, k, i) =
      (m + n, λ front. omega (arith, f front), omega (arith, h, k), omega (arith, e, i))

-- A counter that grew by at most the places of the input where the test holds, and did grow if it
-- holds at the front (modulo 2 ^ 32).
abbrev pub GrowsBy : (Bytes → Bool) → Bytes → ℕ → ℕ → Type 0
GrowsBy t w before after =
    (n : ℕ) × (t w ≡ true → 0 < n)
    × (n ≤ places t w)
    × (after % 4294967296 ≡ (before + n) % 4294967296)

pub grown : (t : Bytes → Bool) (a b : ℕ) (p q : Bytes) → Spends t a b p q → GrowsBy t p a b
grown t a b p q (n, f, h, e) = (n, f, omega (arith, h), e)
