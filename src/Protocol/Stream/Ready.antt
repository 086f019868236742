-- ===== src/Protocol/Stream/Ready.antt =====
-- What holds of a decoder between the calls of its functions.
use oomwoo_firmware.Prelude.{
  ℕ, ◌+◌, ◌<◌, ◌≡◌, sym, ap, inl, inr, Option, some, [], ◌∷◌, arith, length, take, length-replicate,
  Bytes, ◌==◌, Bool-cases, subst, is_null, bytes_of, not, ◌&&◌,
}
use mathlib.Core.Option.{some-injective}
use oomwoo_firmware.Protocol.{max_frame_size}
use oomwoo_firmware.Protocol.Stream.{
  StreamDecoder, cleared_decoder, Callback, Feeding, start, feed_bytes, stream_decoder_init,
  stream_decoder_feed, stream_decoder_reset_incomplete,
}
use oomwoo_firmware.Protocol.Stream.Buffer.{IsValid, contents, length-contents}
use oomwoo_firmware.Protocol.Stream.Reference.{Scan, roomy, take_byte, scan_byte, scan_bytes}
use oomwoo_firmware.Protocol.Stream.View.{view}
use oomwoo_firmware.Protocol.Stream.Refine.{feed_bytes-Shows}
use oomwoo_firmware.Protocol.Stream.Loop.{Waits, Waits-short, scan-Waits}

module _ {C : Type 0} where
  pub scan_byte-Waits :
      (callback : Callback C) (s : Scan C) (byte : ℕ) → Waits (scan_byte callback s byte).pending
  unfolding scan_byte
  scan_byte-Waits callback s byte =
      let next = take_byte (roomy s) byte in
      (scan-Waits callback (length next.pending + 1) next (λ on. omega arith) (λ off. cc)).0

  pub scan_bytes-Waits :
      (callback : Callback C) (s : Scan C) (bytes : Bytes)
      → Waits s.pending
      → Waits (scan_bytes callback s bytes).pending
  unfolding scan_bytes
  scan_bytes-Waits callback s [] w = w
  scan_bytes-Waits callback s (byte ∷ more) w =
      scan_bytes-Waits callback (scan_byte callback s byte) more (scan_byte-Waits callback s byte)

-- Between two calls: the array is whole, and what it holds is nothing, one byte of any value, or the
-- beginning of a frame.
pub record IsReady (d : StreamDecoder) : Type 0 where
  pub valid : IsValid d
  pub waits : Waits (contents d)

-- What waits is shorter than the array.
pub length-Waits : {p : Bytes} → Waits p → length p < max_frame_size
length-Waits w = ground (arith, w.small, w.partial)

pub cleared-IsReady : IsReady cleared_decoder
cleared-IsReady = record {
  valid = record { whole = length-replicate {A = ℕ} max_frame_size 0; fits = omega arith };
  waits = Waits-short [] (omega arith);
}

pub feed_bytes-IsReady :
    {C : Type 0} (callback : Callback C) (st : Feeding C) (bytes : Bytes)
    → IsReady st.decoder
    → IsReady (feed_bytes callback st bytes).decoder
feed_bytes-IsReady callback st bytes r =
    let w = feed_bytes-Shows callback st bytes r.valid in
    record {
      valid = w.valid;
      waits =
          subst Waits (sym (ap (λ s. s.pending) w.same))
            (scan_bytes-Waits callback (view st) bytes r.waits);
    }

-- The decoders that calls of the three functions lead to.
pub data Reachable : StreamDecoder → Type 1 where
  initialised :
      (before : StreamDecoder) {d : StreamDecoder}
      → stream_decoder_init (some before) ≡ some d
      → Reachable d
  fed :
      {d e : StreamDecoder}
      → Reachable d
      → (C : Type 0) (callback : Callback C) (context : C) (bytes : Option Bytes) (n : ℕ)
      → (stream_decoder_feed (some d) bytes n callback context).decoder ≡ some e
      → Reachable e
  gap :
      {d e : StreamDecoder}
      → Reachable d
      → stream_decoder_reset_incomplete (some d) ≡ some e
      → Reachable e

init-IsReady : (before d : StreamDecoder) → stream_decoder_init (some before) ≡ some d → IsReady d
unfolding stream_decoder_init
init-IsReady before d e = subst IsReady (some-injective _ _ e) cleared-IsReady

feed-IsReady :
    {C : Type 0} (callback : Callback C) (context : C) (bytes : Option Bytes) (n : ℕ)
    (d e : StreamDecoder)
    → IsReady d
    → (stream_decoder_feed (some d) bytes n callback context).decoder ≡ some e
    → IsReady e
unfolding stream_decoder_feed
feed-IsReady callback context bytes n d e r h = elim (Bool-cases (is_null bytes && not (n == 0))) [
  | inl nothing ↦ subst IsReady (some-injective _ _ (rw nothing at h)) r
  | inr runs ↦
      subst IsReady (some-injective _ _ (rw runs at h))
        (feed_bytes-IsReady callback (start d context) (take n (bytes_of bytes)) r)
]

reset-IsReady :
    (d e : StreamDecoder)
    → IsReady d
    → stream_decoder_reset_incomplete (some d) ≡ some e
    → IsReady e
unfolding stream_decoder_reset_incomplete
reset-IsReady d e r h = elim (Bool-cases (d.buffered_bytes == 0)) [
  | inl empty ↦ subst IsReady (some-injective _ _ (rw empty at h)) r
  | inr held ↦ subst IsReady (some-injective _ _ (rw held at h)) (record {
    valid = record { whole = r.valid.whole; fits = omega arith };
    waits = Waits-short [] (omega arith);
  })
]

-- Every decoder that an init, feeds and gap resets lead to has a whole array and holds fewer than two
-- bytes (one may have any value), or the beginning of a frame and not all of it: `OW`, and once the
-- header is complete, this version and at most 512 bytes of payload, with a part of the frame still
-- to come. It has room for a byte.
pub Reachable-IsReady :
    {d : StreamDecoder} → Reachable d → IsReady d × (d.buffered_bytes < max_frame_size)
Reachable-IsReady reach =
    let r = ready reach in (r, omega (arith, length-Waits r.waits, length-contents _ r.valid))
  where
    ready : {d : StreamDecoder} → Reachable d → IsReady d
    ready (initialised before {d} e) = init-IsReady before d e
    ready (fed {d} {e} r C callback context bytes n h) =
        feed-IsReady callback context bytes n d e (ready r) h
    ready (gap {d} {e} r h) = reset-IsReady d e (ready r) h
