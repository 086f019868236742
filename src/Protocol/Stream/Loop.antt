-- ===== src/Protocol/Stream/Loop.antt =====
-- The inner loop ends, and what the decoder holds then.
use oomwoo_firmware.Prelude.{
  ℕ, zero, suc, ◌≤◌, ◌<◌, ◌≡◌, sym, ap, ◌∙◌, true, false, ◌⊎◌, inl, inr, some, [], ◌∷◌, arith,
  length, drop, length-drop, Bytes, byte_at, Bool-cases, subst,
}
use oomwoo_firmware.Protocol.{
  frame_of, Status, magic_0, magic_1, protocol_version, header_size, max_payload_size, DecodedFrame,
  blank_frame,
}
use oomwoo_firmware.Protocol.Wire.{read_u16_le}
use oomwoo_firmware.Protocol.Frame.{frame_size, decode_frame}
use oomwoo_firmware.Protocol.Stream.{Callback, Feeding, process_once, process}
use oomwoo_firmware.Protocol.Stream.Buffer.{IsValid, length-contents}
use oomwoo_firmware.Protocol.Stream.Reference.{sync, resync, Scan, settle, scan_once, scan}
use oomwoo_firmware.Protocol.Stream.View.{view, process_once-Shows}

pub length-sync : (bytes : Bytes) → length (sync bytes) ≤ length bytes
unfolding sync
length-sync [] = omega arith
length-sync (x ∷ xs) = ground (arith, length-sync xs)

pub length-resync : (bytes : Bytes) → 0 < length bytes → length (resync bytes) < length bytes
length-resync bytes h = omega (arith, length-sync (drop 1 bytes), length-drop 1 bytes)

-- What the decoder holds between two bytes: fewer than two bytes, of any value, or the beginning of a
-- frame; and never a whole frame.
pub record Waits (p : Bytes) : Type 0 where
  pub magic : 2 ≤ length p → (byte_at p 0 ≡ magic_0) × (byte_at p 1 ≡ magic_1)
  pub version : header_size ≤ length p → byte_at p 2 ≡ protocol_version
  pub small : header_size ≤ length p → read_u16_le p 8 ≤ max_payload_size
  pub partial : header_size ≤ length p → length p < frame_size (read_u16_le p 8)

pub Waits-short : (p : Bytes) → length p < 2 → Waits p
Waits-short p h = record {
  magic = λ k. absurd (omega arith);
  version = λ k. absurd (omega arith);
  small = λ k. absurd (omega arith);
  partial = λ k. absurd (omega arith);
}

module _ {C : Type 0} where
  settle_shrinks :
      (callback : Callback C) (s : Scan C) (n : ℕ) (status : Status) (frame : DecodedFrame)
      → 0 < n
      → 0 < length s.pending
      → length (settle callback s n status frame).pending < length s.pending
  unfolding settle
  settle_shrinks callback s n Status.ok frame h k = omega (arith, length-drop n s.pending)
  settle_shrinks callback s n Status.bad_crc frame h k = length-resync s.pending k
  settle_shrinks callback s n _ frame h k = length-resync s.pending k

  -- A round that goes on shortens what is held.
  scan_once_shrinks :
      (callback : Callback C) (s : Scan C)
      → (scan_once callback s).processing ≡ true
      → length (scan_once callback s).pending < length s.pending
  unfolding scan_once
  scan_once_shrinks callback s e =
      let p = s.pending in
      let n = frame_size (read_u16_le p 8) in
      let decoded = decode_frame (some p) n (some blank_frame) in
      ground (
        arith,
        length-resync p,
        settle_shrinks callback s n decoded.status (frame_of decoded.output),
      )

  settle-Waits :
      (callback : Callback C) (s : Scan C) (n : ℕ) (status : Status) (frame : DecodedFrame)
      → (settle callback s n status frame).processing ≡ false
      → length (settle callback s n status frame).pending < 2
  unfolding settle
  settle-Waits callback s n Status.ok frame e = ground arith
  settle-Waits callback s n Status.bad_crc frame e = ground arith
  settle-Waits callback s n _ frame e = ground arith

  -- What `scan_once` leaves when it does not go on: a byte at most, or all that was held.
  scan_once_stops :
      (callback : Callback C) (s : Scan C)
      → (scan_once callback s).processing ≡ false
      → (length (scan_once callback s).pending < 2)
        ⊎ (((scan_once callback s).pending ≡ s.pending) × Waits s.pending)
  unfolding scan_once
  scan_once_stops callback s e =
      let p = s.pending in
      let n = frame_size (read_u16_le p 8) in
      let decoded = decode_frame (some p) n (some blank_frame) in
      ground (arith, settle-Waits callback s n decoded.status (frame_of decoded.output))

  scan_once-Waits :
      (callback : Callback C) (s : Scan C)
      → (scan_once callback s).processing ≡ false
      → Waits (scan_once callback s).pending
  scan_once-Waits callback s e = elim (scan_once_stops callback s e) [
    | inl short ↦ Waits-short _ short
    | inr (same, waits) ↦ rw same waits
  ]

  -- With fuel for every byte held, the loop ends by its test.
  pub scan-Waits :
      (callback : Callback C) (fuel : ℕ) (s : Scan C)
      → (s.processing ≡ true → length s.pending < fuel)
      → (s.processing ≡ false → Waits s.pending)
      → Waits (scan callback fuel s).pending × ((scan callback fuel s).processing ≡ false)
  unfolding scan
  scan-Waits callback zero s enough waits = elim (Bool-cases s.processing) [
    | inl on ↦ absurd (omega (arith, enough on))
    | inr off ↦ (waits off, off)
  ]
  scan-Waits callback (suc fuel) s enough waits = elim (Bool-cases s.processing) [
    | inl on ↦
        rw (on, scan)
          (scan-Waits callback fuel (scan_once callback s)
            (λ more. omega (arith, enough on, scan_once_shrinks callback s more))
            (scan_once-Waits callback s))
    | inr off ↦ rw (off, scan) (waits off, off)
  ]

  -- The `while` loop of the source, round by round: it ends in the second state.
  pub data Runs (callback : Callback C) : Feeding C → Feeding C → Type 0 where
    stop : {st : Feeding C} → st.processing ≡ false → Runs callback st st
    again :
        {st t : Feeding C}
        → st.processing ≡ true
        → Runs callback (process_once callback st) t
        → Runs callback st t

  process_on :
      (callback : Callback C) (fuel : ℕ) (st : Feeding C)
      → st.processing ≡ true
      → process callback (suc fuel) st ≡ process callback fuel (process_once callback st)
  unfolding process
  process_on callback fuel st on = ground arith

  process_off :
      (callback : Callback C) (fuel : ℕ) (st : Feeding C)
      → st.processing ≡ false
      → process callback (suc fuel) st ≡ st
  unfolding process
  process_off callback fuel st off = ground arith

  -- The inner loop ends from every state with a valid array, in the state that `process` gives
  -- with more rounds than there are bytes held.
  pub process-Runs :
      (callback : Callback C) (fuel : ℕ) (st : Feeding C)
      → IsValid st.decoder
      → (st.processing ≡ true → st.decoder.buffered_bytes < fuel)
      → Runs callback st (process callback fuel st)
  unfolding process
  process-Runs callback zero st v enough = elim (Bool-cases st.processing) [
    | inl on ↦ absurd (omega (arith, enough on))
    | inr off ↦ stop off
  ]
  process-Runs callback (suc fuel) st v enough = elim (Bool-cases st.processing) [
    | inr off ↦ subst (λ t. Runs callback st t) (sym (process_off callback fuel st off)) (stop off)
    | inl on ↦
        let next = process_once callback st in
        let w = process_once-Shows callback st v in
        let shorter : next.processing ≡ true → next.decoder.buffered_bytes < fuel = λ more. omega (
          arith,
          enough on,
          length-contents st.decoder v,
          length-contents next.decoder w.valid,
          ap (λ s. length s.pending) w.same,
          scan_once_shrinks callback (view st) (sym (ap (λ s. s.processing) w.same) ∙ more),
        ) in
        subst (λ t. Runs callback st t) (sym (process_on callback fuel st on))
          (again on (process-Runs callback fuel next w.valid shorter))
  ]
