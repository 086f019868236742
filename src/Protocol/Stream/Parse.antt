-- ===== src/Protocol/Stream/Parse.antt =====
-- What a stream of bytes means, without a decoder: a parser of the whole input, which at each place
-- takes a frame or skips one byte. `Parse/Prefix` shows that more input changes no step, and
-- `Parse/Feed` that the stream decoder does what this parser does.
pub mod Prefix
pub mod Fronts
pub mod Feed
pub mod Traffic
pub mod Arrivals
pub mod Remainder
pub mod Damage
pub mod Decoder
pub mod Places
pub mod Charges
pub mod Causes
pub mod Delivery
mod Tests
use oomwoo_firmware.Prelude.{
  ℕ, zero, suc, ◌+◌, ◌<◌, ◌≤◌, ◌≡◌, refl, sym, ap, ◌∙◌, Bool, true, false, not, ◌&&◌, ◌||◌, inl,
  inr, some, [], ◌∷◌, ◌++◌, ltb, leb, ◌==◌, if◌then◌else◌, length, drop, length-drop, Bytes,
  byte_at, arith, Bool-cases,
}
use oomwoo_firmware.Protocol.{
  frame_of, protocol_version, header_size, max_payload_size, Status, DecodedFrame, blank_frame,
}
use oomwoo_firmware.Protocol.Wire.{read_u16_le}
use oomwoo_firmware.Protocol.Frame.{frame_size, decode_frame}
use oomwoo_firmware.Protocol.Stream.{
  DecoderStats, count_discarded, count_version_error, count_length_error, count_crc_error,
  count_frame, Callback, call,
}
use oomwoo_firmware.Protocol.Stream.Reference.{may_begin}

pub record Parsing (C : Type 0) : Type 0 where
  pub input : Bytes
  pub stats : DecoderStats
  pub context : C
  pub emitted : ℕ

-- The beginning of `OW`, of a header, or of a frame that a header announces: more bytes are needed.
unfoldable pub is_partial : Bytes → Bool
is_partial p =
    may_begin p
    && (ltb (length p) header_size
        || byte_at p 2 == protocol_version
          && leb (read_u16_le p 8) max_payload_size
          && ltb (length p) (frame_size (read_u16_le p 8)))

pub partial_nil : (p : Bytes) → is_partial p ≡ false → 0 < length p
unfolding is_partial
partial_nil [] h = absurd (cc)
partial_nil (x ∷ p) h = omega arith

module _ {C : Type 0} where
  abbrev pub skip : Parsing C → DecoderStats → Parsing C
  skip s stats = record s { input = drop 1 s.input; stats = count_discarded stats 1 }

  -- What stands at the front is a frame, or has a wrong checksum.
  unfoldable pub accept : Callback C → Parsing C → ℕ → Status → DecodedFrame → Parsing C
  accept callback s frame_length Status.ok frame = record {
    input = drop frame_length s.input;
    stats = count_frame s.stats;
    context = call callback frame s.context;
    emitted = s.emitted + 1;
  }
  accept callback s frame_length _ frame = skip s (count_crc_error s.stats)

  unfoldable pub advance : Callback C → Parsing C → Parsing C
  advance callback s =
      let p = s.input in
      let payload_length = read_u16_le p 8 in
      let frame_length = frame_size payload_length in
      let decoded = decode_frame (some p) frame_length (some blank_frame) in
      if not (may_begin p)
      then skip s s.stats
      else if not (byte_at p 2 == protocol_version)
      then skip s (count_version_error s.stats)
      else if ltb max_payload_size payload_length
      then skip s (count_length_error s.stats)
      else accept callback s frame_length decoded.status (frame_of decoded.output)

  unfoldable pub parse_on : Callback C → ℕ → Parsing C → Parsing C
  parse_on callback zero s = s
  parse_on callback (suc fuel) s = elim (is_partial s.input) [
    | true ↦ s
    | false ↦ parse_on callback fuel (advance callback s)
  ]

  -- Every step takes a byte at least, so a step for each byte is enough.
  abbrev pub parse : Callback C → Parsing C → Parsing C
  parse callback s = parse_on callback (length s.input + 1) s

  accept_shrinks :
      (callback : Callback C) (s : Parsing C) (n : ℕ) (status : Status) (frame : DecodedFrame)
      → 0 < n
      → 0 < length s.input
      → length (accept callback s n status frame).input < length s.input
  unfolding accept
  accept_shrinks callback s n Status.ok frame h k = omega (arith, length-drop n s.input)
  accept_shrinks callback s n _ frame h k = omega (arith, length-drop 1 s.input)

  pub advance_shrinks :
      (callback : Callback C) (s : Parsing C)
      → 0 < length s.input
      → length (advance callback s).input < length s.input
  unfolding advance
  advance_shrinks callback s h =
      let p = s.input in
      let n = frame_size (read_u16_le p 8) in
      let decoded = decode_frame (some p) n (some blank_frame) in
      ground (
        arith,
        length-drop 1 s.input,
        accept_shrinks callback s n decoded.status (frame_of decoded.output),
      )

  parse_on_stop :
      (callback : Callback C) (fuel : ℕ) (s : Parsing C)
      → is_partial s.input ≡ true
      → parse_on callback fuel s ≡ s
  unfolding parse_on
  parse_on_stop callback zero s h = refl
  parse_on_stop callback (suc fuel) s h = rw (h, parse_on) refl

  -- More fuel than bytes changes nothing.
  pub parse_on_enough :
      (callback : Callback C) (fuel more : ℕ) (s : Parsing C)
      → length s.input < fuel
      → length s.input < more
      → parse_on callback fuel s ≡ parse_on callback more s
  unfolding parse_on
  parse_on_enough callback zero more s h k = absurd (omega arith)
  parse_on_enough callback (suc fuel) zero s h k = absurd (omega arith)
  parse_on_enough callback (suc fuel) (suc more) s h k = elim (Bool-cases (is_partial s.input)) [
    | inl done ↦ rw (done, parse_on) refl
    | inr goes ↦
        let shorter = advance_shrinks callback s (partial_nil s.input goes) in
        rw (goes, parse_on)
          (parse_on_enough callback fuel more (advance callback s) (omega arith) (omega arith))
  ]

  pub parse_stop :
      (callback : Callback C) (s : Parsing C) → is_partial s.input ≡ true → parse callback s ≡ s
  parse_stop callback s h = parse_on_stop callback (length s.input + 1) s h

  pub parse_step :
      (callback : Callback C) (s : Parsing C)
      → is_partial s.input ≡ false
      → parse callback s ≡ parse callback (advance callback s)
  unfolding parse_on
  parse_step callback s h =
      let shorter = advance_shrinks callback s (partial_nil s.input h) in
      ap (λ k. parse_on callback k s) {y = suc (length s.input)} (omega arith)
      ∙ rw (h, parse_on)
          (parse_on_enough callback (length s.input) (length (advance callback s).input + 1)
            (advance callback s) (omega arith) (omega arith))

  accept_emitted :
      (callback : Callback C) (s : Parsing C) (n : ℕ) (status : Status) (frame : DecodedFrame)
      → s.emitted ≤ (accept callback s n status frame).emitted
  unfolding accept
  accept_emitted callback s n Status.ok frame = omega arith
  accept_emitted callback s n _ frame = omega arith

  advance_emitted :
      (callback : Callback C) (s : Parsing C) → s.emitted ≤ (advance callback s).emitted
  unfolding advance
  advance_emitted callback s =
      let p = s.input in
      let n = frame_size (read_u16_le p 8) in
      let decoded = decode_frame (some p) n (some blank_frame) in
      ground (arith, accept_emitted callback s n decoded.status (frame_of decoded.output))

  parse_on_emitted :
      (callback : Callback C) (fuel : ℕ) (s : Parsing C)
      → s.emitted ≤ (parse_on callback fuel s).emitted
  unfolding parse_on
  parse_on_emitted callback zero s = omega arith
  parse_on_emitted callback (suc fuel) s = elim (Bool-cases (is_partial s.input)) [
    | inl done ↦ rw (done, parse_on) (omega arith)
    | inr goes ↦
        let rest = parse_on_emitted callback fuel (advance callback s) in
        rw (goes, parse_on) (omega (arith, rest, advance_emitted callback s))
  ]

  pub parse_emitted :
      (callback : Callback C) (s : Parsing C) → s.emitted ≤ (parse callback s).emitted
  parse_emitted callback s = parse_on_emitted callback (length s.input + 1) s
