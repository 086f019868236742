-- ===== src/Protocol/Stream/Invariant.antt =====
-- What holds of every frame that the callback is given, and what a feed keeps for that reason.
use mathlib.Core.Option.{some-injective}
use oomwoo_firmware.Prelude.{
  ℕ, zero, suc, ◌+◌, ◌≤◌, ◌≡◌, refl, sym, subst, inl, inr, some, [], ◌∷◌, arith, length, drop,
  All-append, All-drop, All-take, Bytes, IsBytes, IsU8, ◌==◌, if_case, Bool-cases, u32,
}
use oomwoo_firmware.Protocol.{
  frame_of, Status, protocol_version, header_size, max_frame_size, DecodedFrame, blank_frame,
}
use oomwoo_firmware.Protocol.Wire.{read_u16_le}
use oomwoo_firmware.Protocol.Frame.{
  frame_size, decode_frame, decode_checks, decoded_fields, store_decoded,
}
use oomwoo_firmware.Protocol.Frame.Decode.{decode_frame-IsFrame}
use oomwoo_firmware.Protocol.Stream.{
  DecoderStats, count_discarded, count_version_error, count_length_error, StreamDecoder, start,
  feed_bytes,
}
use oomwoo_firmware.Protocol.Stream.Buffer.{IsValid, contents}
use oomwoo_firmware.Protocol.Stream.Reference.{
  Scan, may_begin, sync, resync, rest, refuse, settle, scan_once, scan, roomy, take_byte, scan_byte,
  scan_bytes,
}
use oomwoo_firmware.Protocol.Stream.View.{view}
use oomwoo_firmware.Protocol.Stream.Refine.{feed_bytes-Shows}

-- A frame as the callback gets it.
pub record Framed (f : DecodedFrame) : Type 0 where
  pub bytes : Bytes
  pub shown : f.payload ≡ some bytes
  pub ranged : IsBytes bytes
  pub sized : f.payload_length ≡ length bytes
  pub version : f.version ≡ protocol_version

store_decoded-ok :
    (status : Status) (bytes : Bytes) (old : DecodedFrame)
    → (store_decoded status bytes old).status ≡ Status.ok
    → store_decoded status bytes old
      ≡ record { status = Status.ok; output = some (decoded_fields bytes) }
unfolding store_decoded
store_decoded-ok Status.ok bytes old e = refl
store_decoded-ok _ bytes old e = absurd cc

decode_frame-Framed :
    (bytes : Bytes) (n : ℕ)
    → IsBytes bytes
    → n ≤ length bytes
    → (decode_frame (some bytes) n (some blank_frame)).status ≡ Status.ok
    → Framed (frame_of (decode_frame (some bytes) n (some blank_frame)).output)
unfolding decode_frame decoded_fields
decode_frame-Framed bytes n h inside e =
    let same = store_decoded-ok (decode_checks bytes n) bytes blank_frame e in
    let (payload, shown, sized, version, small, whole) =
      decode_frame-IsFrame bytes n h inside blank_frame same in
    rw same (record {
      bytes = payload;
      shown = shown;
      ranged = subst IsBytes (some-injective _ _ shown) (
          All-take IsU8 (read_u16_le bytes 8) (drop header_size bytes)
            (All-drop IsU8 header_size bytes h));
      sized = sized;
      version = version;
    })

sync-IsBytes : (bytes : Bytes) → IsBytes bytes → IsBytes (sync bytes)
unfolding sync
sync-IsBytes [] h = tt
sync-IsBytes (x ∷ xs) h = if_case IsBytes (may_begin (x ∷ xs)) (λ e. h) (λ e. sync-IsBytes xs h.1)

resync-IsBytes : (bytes : Bytes) → IsBytes bytes → IsBytes (resync bytes)
resync-IsBytes bytes h = sync-IsBytes (drop 1 bytes) (All-drop IsU8 1 bytes h)

module _ {C : Type 0} (callback : DecodedFrame → C → C) (I : ℕ → C → Type 0)
    (step : (f : DecodedFrame) (n : ℕ) (c : C)
      → Framed f
      → I n c
      → I (u32 (n + 1)) (callback f c)) where
  -- The decoder holds bytes, and the count of frames and the context satisfy `I`.
  record Holds (s : Scan C) : Type 0 where
    ranged : IsBytes s.pending
    kept : I s.stats.frames s.context

  settle-Holds :
      (s : Scan C) (n : ℕ) (status : Status) (frame : DecodedFrame)
      → Holds s
      → (status ≡ Status.ok → Framed frame)
      → Holds (settle (some callback) s n status frame)
  unfolding settle
  settle-Holds s n Status.ok frame h framed = record {
    ranged = All-drop IsU8 n s.pending h.ranged;
    kept = step frame s.stats.frames s.context (framed refl) h.kept;
  }
  settle-Holds s n Status.bad_crc frame h framed = record {
    ranged = resync-IsBytes s.pending h.ranged;
    kept = h.kept;
  }
  settle-Holds s n _ frame h framed = record {
    ranged = resync-IsBytes s.pending h.ranged;
    kept = h.kept;
  }

  refuse-Holds :
      (s : Scan C) (stats : DecoderStats)
      → stats.frames ≡ s.stats.frames
      → Holds s
      → Holds (refuse s stats)
  refuse-Holds s stats same h = record {
    ranged = resync-IsBytes s.pending h.ranged;
    kept = rw same h.kept;
  }

  scan_once-Holds : (s : Scan C) → Holds s → Holds (scan_once (some callback) s)
  unfolding scan_once
  scan_once-Holds s h =
      let p = s.pending in
      let n = frame_size (read_u16_le p 8) in
      let decoded = decode_frame (some p) n (some blank_frame) in
      let waits : Holds (rest s) = record { ranged = h.ranged; kept = h.kept } in
      let noise : Holds (rest (record s { pending = []; stats = count_discarded s.stats 1 })) =
        record { ranged = tt; kept = h.kept } in
      let settled : n ≤ length p
          → Holds (settle (some callback) s n decoded.status (frame_of decoded.output)) =
        λ full.
          settle-Holds s n decoded.status (frame_of decoded.output) h
            (decode_frame-Framed p n h.ranged full) in
      let r0 = refuse-Holds s s.stats refl h in
      let r1 = refuse-Holds s (count_version_error s.stats) refl h in
      let r2 = refuse-Holds s (count_length_error s.stats) refl h in ground arith

  scan-Holds : (fuel : ℕ) (s : Scan C) → Holds s → Holds (scan (some callback) fuel s)
  unfolding scan
  scan-Holds zero s h = h
  scan-Holds (suc fuel) s h = elim (Bool-cases s.processing) [
    | inl on ↦ rw (on, scan) (scan-Holds fuel (scan_once (some callback) s) (scan_once-Holds s h))
    | inr off ↦ rw (off, scan) h
  ]

  scan_byte-Holds :
      (s : Scan C) (byte : ℕ) → IsU8 byte → Holds s → Holds (scan_byte (some callback) s byte)
  unfolding scan_byte
  scan_byte-Holds s byte b h =
      let roomed : Holds (roomy s) =
        if_case Holds (length s.pending == max_frame_size)
          (λ full. record { ranged = resync-IsBytes s.pending h.ranged; kept = h.kept })
          (λ spare. h) in
      scan-Holds _ (take_byte (roomy s) byte) (record {
        ranged = All-append IsU8 (roomy s).pending (byte ∷ []) roomed.ranged (b, tt);
        kept = roomed.kept;
      })

  scan_bytes-Holds :
      (bytes : Bytes) (s : Scan C)
      → IsBytes bytes
      → Holds s
      → Holds (scan_bytes (some callback) s bytes)
  unfolding scan_bytes
  scan_bytes-Holds [] s b h = h
  scan_bytes-Holds (x ∷ xs) s b h =
      scan_bytes-Holds xs (scan_byte (some callback) s x) b.1 (scan_byte-Holds s x b.0 h)

  -- A feed of bytes keeps what the callback keeps for every frame that it can be given, together
  -- with the count of frames.
  pub feed_bytes-Holds :
      (d : StreamDecoder) (context : C) (bytes : Bytes)
      → IsValid d
      → IsBytes (contents d)
      → IsBytes bytes
      → I d.stats.frames context
      → let st = feed_bytes (some callback) (start d context) bytes in
        IsBytes (contents st.decoder) × I st.decoder.stats.frames st.context
  feed_bytes-Holds d context bytes v held b i =
      let w = feed_bytes-Shows (some callback) (start d context) bytes v in
      let h : Holds (view (feed_bytes (some callback) (start d context) bytes)) =
        subst Holds (sym w.same) (
          scan_bytes-Holds bytes (view (start d context)) b (record { ranged = held; kept = i })) in
      (h.ranged, h.kept)
