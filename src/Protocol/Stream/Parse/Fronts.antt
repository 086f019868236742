-- ===== src/Protocol/Stream/Parse/Fronts.antt =====
-- The bytes at the front of the input, as the decoder tests them and as the parser does.
use oomwoo_firmware.Prelude.{
  ℕ, ◌+◌, ◌≤◌, ◌≡◌, refl, ap, true, false, not, ◌&&◌, ◌||◌, ◌⊎◌, inl, inr, [], ◌∷◌, ◌==◌, length,
  ◌≢◌, Bytes, byte_at, arith, Bool-cases,
}
use oomwoo_firmware.Protocol.{magic_0, magic_1}
use oomwoo_firmware.Protocol.Stream.{DecoderStats, count_discarded}
use oomwoo_firmware.Protocol.Stream.Reference.{may_begin}
use oomwoo_firmware.Protocol.Stream.Loop.{Waits, Waits-short}
use oomwoo_firmware.Protocol.Stream.Parse.{is_partial}

pub may_begin_two :
    (p : Bytes) → 2 ≤ length p → may_begin p ≡ (byte_at p 0 == magic_0 && byte_at p 1 == magic_1)
may_begin_two [] h = absurd (omega arith)
may_begin_two (x ∷ []) h = absurd (omega arith)
may_begin_two (x ∷ y ∷ p) h = refl

pub magic_of :
    (p : Bytes)
    → 2 ≤ length p
    → may_begin p ≡ true
    → ((byte_at p 0 == magic_0) ≡ true) × ((byte_at p 1 == magic_1) ≡ true)
magic_of [] h e = absurd (omega arith)
magic_of (x ∷ []) h e = absurd (omega arith)
magic_of (x ∷ y ∷ p) h e = (ground arith, ground arith)

pub noise_one :
    (p : Bytes) → length p ≡ 1 → may_begin p ≡ false → not (byte_at p 0 == magic_0) ≡ true
noise_one [] h e = absurd (omega arith)
noise_one (x ∷ []) h e = ground arith
noise_one (x ∷ y ∷ p) h e = absurd (omega arith)

pub noise_two :
    (p : Bytes)
    → length p ≢ 1
    → may_begin p ≡ false
    → (not (byte_at p 0 == magic_0) || not (byte_at p 1 == magic_1)) ≡ true
noise_two [] h e = cc
noise_two (x ∷ []) h e = absurd (h refl)
noise_two (x ∷ y ∷ p) h e = ground arith

pub partial-Waits :
    (p : Bytes) → is_partial p ≡ true → Waits p × (length p ≡ 1 → byte_at p 0 ≡ magic_0)
unfolding is_partial
partial-Waits [] h = (Waits-short [] (omega arith), λ e. absurd (omega arith))
partial-Waits (x ∷ []) h = (Waits-short (x ∷ []) (omega arith), λ e. ground arith)
partial-Waits (x ∷ y ∷ p) h = (
  record {
    magic = λ k. ground arith;
    version = λ k. ground arith;
    small = λ k. ground arith;
    partial = λ k. ground arith;
  },
  λ e. absurd (omega arith),
)

-- What the decoder waits with is partial, or one byte that is no `O`.
pub Waits-cases :
    (p : Bytes) → Waits p → (is_partial p ≡ true) ⊎ ((x : ℕ) × (x ≢ magic_0) × (p ≡ x ∷ []))
unfolding is_partial
Waits-cases [] w = inl refl
Waits-cases (x ∷ []) w = elim (Bool-cases (x == magic_0)) [
  | inl e ↦ inl (ground arith)
  | inr ne ↦ inr (x, ground arith, refl)
]
Waits-cases (x ∷ y ∷ p) w = inl (ground (arith, w.magic, w.version, w.small, w.partial))

pub noise-is_partial : (p : Bytes) → may_begin p ≡ false → is_partial p ≡ false
unfolding is_partial
noise-is_partial p h = rw h refl

pub count_discarded_add :
    (s : DecoderStats) (a b : ℕ)
    → count_discarded (count_discarded s a) b ≡ count_discarded s (a + b)
count_discarded_add s a b = ap (λ n. record s { discarded_bytes = n }) (omega arith)
