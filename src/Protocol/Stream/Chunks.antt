-- ===== src/Protocol/Stream/Chunks.antt =====
-- How a stream is split into feeds does not matter.
use oomwoo_firmware.Prelude.{
  ℕ, zero, suc, ◌+◌, ◌≡◌, refl, ap, ◌∙◌, inl, inr, some, [], ◌∷◌, ◌++◌, arith, length, take_all,
  Bytes, Bool-cases,
}
use oomwoo_firmware.Protocol.{Status, frame_of, DecodedFrame, blank_frame}
use oomwoo_firmware.Protocol.Wire.{read_u16_le}
use oomwoo_firmware.Protocol.Frame.{frame_size, decode_frame}
use oomwoo_firmware.Protocol.Stream.{
  StreamDecoder, Callback, Feeding, start, on_result, process_once, process, feed_byte, feed_bytes,
  stream_decoder_feed,
}

module _ {C : Type 0} (callback : Callback C) (e : ℕ) where
  -- The same state with `e` frames more counted.
  abbrev shift : Feeding C → Feeding C
  shift st = record st { emitted = e + st.emitted }

  on_result-shift :
      (st : Feeding C) (n : ℕ) (status : Status) (frame : DecodedFrame)
      → on_result callback (shift st) n status frame ≡ shift (on_result callback st n status frame)
  unfolding on_result
  on_result-shift st n Status.ok frame = ground arith
  on_result-shift st n Status.bad_crc frame = refl
  on_result-shift st n _ frame = refl

  process_once-shift :
      (st : Feeding C) → process_once callback (shift st) ≡ shift (process_once callback st)
  unfolding process_once
  process_once-shift st =
      let b = st.decoder.buffer in
      let n = frame_size (read_u16_le b 8) in
      let decoded = decode_frame (some b) n (some blank_frame) in
      ground (arith, on_result-shift st n decoded.status (frame_of decoded.output))

  process-shift :
      (fuel : ℕ) (st : Feeding C)
      → process callback fuel (shift st) ≡ shift (process callback fuel st)
  unfolding process
  process-shift zero st = refl
  process-shift (suc fuel) st = elim (Bool-cases st.processing) [
    | inl on ↦
        rw (on, process)
          (ap (process callback fuel) (process_once-shift st)
            ∙ process-shift fuel (process_once callback st))
    | inr off ↦ rw (off, process)
  ]

  feed_bytes-shift :
      (bytes : Bytes) (st : Feeding C)
      → feed_bytes callback (shift st) bytes ≡ shift (feed_bytes callback st bytes)
  unfolding feed_bytes feed_byte
  feed_bytes-shift [] st = refl
  feed_bytes-shift (x ∷ xs) st =
      ap (λ t. feed_bytes callback t xs) (process-shift _ _)
      ∙ feed_bytes-shift xs (feed_byte callback st x)

pub feed_bytes-append :
    {C : Type 0} (callback : Callback C) (xs ys : Bytes) (st : Feeding C)
    → feed_bytes callback st (xs ++ ys) ≡ feed_bytes callback (feed_bytes callback st xs) ys
unfolding feed_bytes
feed_bytes-append callback [] ys st = refl
feed_bytes-append callback (x ∷ xs) ys st =
    feed_bytes-append callback xs ys (feed_byte callback st x)

-- Going on from a state is starting anew with its decoder and context, but for the frames counted.
pub restart :
    {C : Type 0} (callback : Callback C) (st : Feeding C) (ys : Bytes)
    → let t = feed_bytes callback st ys in
      let u = feed_bytes callback (start st.decoder st.context) ys in
      (t.decoder ≡ u.decoder) × (t.context ≡ u.context) × (t.emitted ≡ st.emitted + u.emitted)
unfolding feed_bytes feed_byte
restart callback st [] = (refl, refl, omega arith)
restart callback st (y ∷ ys) =
    let fresh = start st.decoder st.context in
    let same : feed_bytes callback st (y ∷ ys)
        ≡ shift callback st.emitted (feed_bytes callback fresh (y ∷ ys)) =
      ap (λ k. feed_bytes callback (record st { emitted = k }) (y ∷ ys)) {y = st.emitted + 0}
        (omega arith)
      ∙ feed_bytes-shift callback st.emitted (y ∷ ys) fresh in
    (ap (λ t. t.decoder) same, ap (λ t. t.context) same, ap (λ t. t.emitted) same)

feed-some :
    {C : Type 0} (callback : Callback C) (context : C) (d : StreamDecoder) (bytes : Bytes)
    → let st = feed_bytes callback (start d context) bytes in
      stream_decoder_feed (some d) (some bytes) (length bytes) callback context
      ≡ record { emitted = st.emitted; decoder = some st.decoder; context = st.context }
unfolding stream_decoder_feed
feed-some callback context d bytes = rw (take_all (length bytes) bytes (omega arith))

-- Two feeds, one after the other, are one feed of both inputs: the same decoder (array, count and
-- counters), the same calls of the callback, and as many frames in all.
pub feed-append :
    {C : Type 0} (callback : Callback C) (context : C) (d : StreamDecoder) (xs ys : Bytes)
    → let whole =
        stream_decoder_feed (some d) (some (xs ++ ys)) (length (xs ++ ys)) callback context in
      let first = stream_decoder_feed (some d) (some xs) (length xs) callback context in
      let second = stream_decoder_feed first.decoder (some ys) (length ys) callback first.context in
      (whole.decoder ≡ second.decoder)
      × (whole.context ≡ second.context)
      × (whole.emitted ≡ first.emitted + second.emitted)
feed-append callback context d xs ys =
    let st = feed_bytes callback (start d context) xs in
    let (decoder, after, emitted) = restart callback st ys in
    let joined = feed_bytes-append callback xs ys (start d context) in
    rw
      (
        feed-some callback context d (xs ++ ys),
        feed-some callback context d xs,
        feed-some callback st.context st.decoder ys,
        joined,
      )
      (ap some decoder, after, emitted)
