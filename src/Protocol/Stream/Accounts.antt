-- ===== src/Protocol/Stream/Accounts.antt =====
-- The counters add up: no byte and no frame gets lost unseen.
use oomwoo_firmware.Prelude.{
  ℕ, zero, suc, ◌+◌, ◌%◌, ◌≤◌, ◌<◌, ◌≡◌, refl, ap, ◌∙◌, inl, inr, some, [], ◌∷◌, arith, length,
  length-drop, length-append, Bytes, Bool-cases,
}
use oomwoo_firmware.Protocol.{frame_of, Status, DecodedFrame, blank_frame}
use oomwoo_firmware.Protocol.Wire.{read_u16_le}
use oomwoo_firmware.Protocol.Frame.{frame_size, decode_frame}
use oomwoo_firmware.Protocol.Frame.Decode.{decode_frame-length}
use oomwoo_firmware.Protocol.Stream.{StreamDecoder, Callback, start, feed_bytes}
use oomwoo_firmware.Protocol.Stream.Buffer.{IsValid, length-contents}
use oomwoo_firmware.Protocol.Stream.Reference.{
  Scan, settle, scan_once, scan, roomy, take_byte, scan_byte, scan_bytes,
}
use oomwoo_firmware.Protocol.Stream.View.{view}
use oomwoo_firmware.Protocol.Stream.Refine.{feed_bytes-Shows}
use oomwoo_firmware.Protocol.Stream.Loop.{length-resync}

-- A callback that adds up the sizes of the frames that it is given.
abbrev pub count_wire : Callback ℕ
count_wire = some (λ frame delivered. delivered + frame_size frame.payload_length)

-- Bytes held, discarded, and delivered in frames.
abbrev pub total : Scan ℕ → ℕ
total s = length s.pending + s.stats.discarded_bytes + s.context

abbrev Same : Scan ℕ → Scan ℕ → Type 0
Same s t = total t % 4294967296 ≡ total s % 4294967296

settle-total :
    (s : Scan ℕ) (n : ℕ) (status : Status) (frame : DecodedFrame)
    → 0 < length s.pending
    → n ≤ length s.pending
    → (status ≡ Status.ok → frame_size frame.payload_length ≡ n)
    → Same s (settle count_wire s n status frame)
unfolding settle
settle-total s n Status.ok frame h inside size = omega (arith, size refl, length-drop n s.pending)
settle-total s n Status.bad_crc frame h inside size = omega (arith, length-resync s.pending h)
settle-total s n _ frame h inside size = omega (arith, length-resync s.pending h)

scan_once-total : (s : Scan ℕ) → Same s (scan_once count_wire s)
unfolding scan_once
scan_once-total s =
    let p = s.pending in
    let n = frame_size (read_u16_le p 8) in
    let decoded = decode_frame (some p) n (some blank_frame) in
    let size : decoded.status ≡ Status.ok
        → frame_size (frame_of decoded.output).payload_length ≡ n =
      λ e. ap frame_size (decode_frame-length p n blank_frame e) in
    ground (arith, length-resync p, settle-total s n decoded.status (frame_of decoded.output))

scan-total : (fuel : ℕ) (s : Scan ℕ) → Same s (scan count_wire fuel s)
unfolding scan
scan-total zero s = refl
scan-total (suc fuel) s = elim (Bool-cases s.processing) [
  | inl on ↦ rw (on, scan) (scan-total fuel (scan_once count_wire s) ∙ scan_once-total s)
  | inr off ↦ rw (off, scan)
]

roomy-total : (s : Scan ℕ) → Same s (roomy s)
roomy-total s = ground (arith, length-resync s.pending)

scan_byte-total :
    (s : Scan ℕ) (byte : ℕ)
    → total (scan_byte count_wire s byte) % 4294967296 ≡ (total s + 1) % 4294967296
unfolding scan_byte
scan_byte-total s byte =
    let next = take_byte (roomy s) byte in
    omega (
      arith,
      scan-total (length next.pending + 1) next,
      roomy-total s,
      length-append (roomy s).pending (byte ∷ []),
    )

scan_bytes-total :
    (bytes : Bytes) (s : Scan ℕ)
    → total (scan_bytes count_wire s bytes) % 4294967296 ≡ (total s + length bytes) % 4294967296
unfolding scan_bytes
scan_bytes-total [] s = omega arith
scan_bytes-total (x ∷ xs) s =
    omega (arith, scan_byte-total s x, scan_bytes-total xs (scan_byte count_wire s x))

-- Over any feed, whatever the bytes: the bytes fed and those held before are the bytes held after,
-- those newly counted as discarded, and those of the frames handed to the callback (modulo 2 ^ 32,
-- at which the counter wraps).
pub feed-total :
    (d : StreamDecoder) (bytes : Bytes)
    → IsValid d
    → let st = feed_bytes count_wire (start d 0) bytes in
      (st.decoder.buffered_bytes + st.decoder.stats.discarded_bytes + st.context) % 4294967296
      ≡ (d.buffered_bytes + d.stats.discarded_bytes + length bytes) % 4294967296
feed-total d bytes v =
    let st = feed_bytes count_wire (start d 0) bytes in
    let w = feed_bytes-Shows count_wire (start d 0) bytes v in
    omega (
      arith,
      length-contents d v,
      length-contents st.decoder w.valid,
      ap total w.same,
      scan_bytes-total bytes (view (start d 0)),
    )
