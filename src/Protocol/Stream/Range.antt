-- ===== src/Protocol/Stream/Range.antt =====
-- The counters of the decoder stay 32-bit words.
use oomwoo_firmware.Prelude.{
  ℕ, zero, suc, ◌+◌, ◌<◌, ap, sym, inl, inr, some, Bytes, [], ◌∷◌, arith, Bool-cases, subst, ◌==◌,
  length, if_case,
}
use oomwoo_firmware.Protocol.{max_frame_size, frame_of, Status, DecodedFrame, blank_frame}
use oomwoo_firmware.Protocol.Wire.{read_u16_le}
use oomwoo_firmware.Protocol.Frame.{frame_size, decode_frame}
use oomwoo_firmware.Protocol.Stream.{DecoderStats, Callback, Feeding, feed_bytes}
use oomwoo_firmware.Protocol.Stream.Buffer.{IsValid}
use oomwoo_firmware.Protocol.Stream.View.{view}
use oomwoo_firmware.Protocol.Stream.Refine.{feed_bytes-Shows}
use oomwoo_firmware.Protocol.Stream.Reference.{
  Scan, settle, scan_once, scan, roomy, take_byte, scan_byte, scan_bytes,
}

-- The counters that a traffic moves.
pub record InRange (s : DecoderStats) : Type 0 where
  pub frames : s.frames < 4294967296
  pub discarded_bytes : s.discarded_bytes < 4294967296
  pub crc_errors : s.crc_errors < 4294967296
  pub version_errors : s.version_errors < 4294967296

module _ {C : Type 0} (callback : Callback C) where
  settle-InRange :
      (s : Scan C) (n : ℕ) (status : Status) (frame : DecodedFrame)
      → InRange s.stats
      → InRange (settle callback s n status frame).stats
  unfolding settle
  settle-InRange s n Status.ok frame r = omega arith
  settle-InRange s n Status.bad_crc frame r = omega arith
  settle-InRange s n _ frame r = omega arith

  scan_once-InRange : (s : Scan C) → InRange s.stats → InRange (scan_once callback s).stats
  unfolding scan_once
  scan_once-InRange s r =
      let p = s.pending in
      let n = frame_size (read_u16_le p 8) in
      let decoded = decode_frame (some p) n (some blank_frame) in
      let settled = settle-InRange s n decoded.status (frame_of decoded.output) r in
      ground (arith, settled)

  scan-InRange : (fuel : ℕ) (s : Scan C) → InRange s.stats → InRange (scan callback fuel s).stats
  unfolding scan
  scan-InRange zero s r = r
  scan-InRange (suc fuel) s r = elim (Bool-cases s.processing) [
    | inl on ↦ rw (on, scan) (scan-InRange fuel (scan_once callback s) (scan_once-InRange s r))
    | inr off ↦ rw (off, scan) r
  ]

  scan_bytes-InRange :
      (s : Scan C) (bytes : Bytes) → InRange s.stats → InRange (scan_bytes callback s bytes).stats
  unfolding scan_bytes scan_byte
  scan_bytes-InRange s [] r = r
  scan_bytes-InRange s (x ∷ bytes) r =
      let next = take_byte (roomy s) x in
      let roomed : InRange (roomy s).stats =
        if_case (λ (t : Scan C). InRange t.stats) (length s.pending == max_frame_size)
          (λ full. omega arith) (λ spare. r) in
      scan_bytes-InRange (scan_byte callback s x) bytes
        (scan-InRange (length next.pending + 1) next roomed)

  pub feed_bytes-InRange :
      (st : Feeding C) (bytes : Bytes)
      → IsValid st.decoder
      → InRange st.decoder.stats
      → InRange (feed_bytes callback st bytes).decoder.stats
  feed_bytes-InRange st bytes v r =
      subst InRange (sym (ap (λ s. s.stats) (feed_bytes-Shows callback st bytes v).same))
        (scan_bytes-InRange (view st) bytes r)
