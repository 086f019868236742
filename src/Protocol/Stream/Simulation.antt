-- ===== src/Protocol/Stream/Simulation.antt =====
-- Two callbacks that do the same on contexts that correspond leave corresponding contexts.
use oomwoo_firmware.Prelude.{
  ℕ, zero, suc, ◌≡◌, refl, ap, ◌∙◌, inl, inr, some, [], ◌∷◌, arith, Bytes, Bool-cases,
}
use oomwoo_firmware.Protocol.{Status, frame_of, DecodedFrame, blank_frame}
use oomwoo_firmware.Protocol.Wire.{read_u16_le}
use oomwoo_firmware.Protocol.Frame.{frame_size, decode_frame}
use oomwoo_firmware.Protocol.Stream.{
  Feeding, on_result, process_once, process, feed_byte, feed_bytes,
}

module _ {C D : Type 0} (f : DecodedFrame → C → C) (g : DecodedFrame → D → D) (h : C → D)
    (same : (frame : DecodedFrame) (c : C) → h (f frame c) ≡ g frame (h c)) where
  abbrev pub mapped : Feeding C → Feeding D
  mapped st = record {
    decoder = st.decoder;
    context = h st.context;
    emitted = st.emitted;
    processing = st.processing;
  }

  on_result-mapped :
      (st : Feeding C) (n : ℕ) (status : Status) (frame : DecodedFrame)
      → mapped (on_result (some f) st n status frame)
        ≡ on_result (some g) (mapped st) n status frame
  unfolding on_result
  on_result-mapped st n Status.ok frame = rw (same frame st.context)
  on_result-mapped st n Status.bad_crc frame = refl
  on_result-mapped st n _ frame = refl

  process_once-mapped :
      (st : Feeding C) → mapped (process_once (some f) st) ≡ process_once (some g) (mapped st)
  unfolding process_once
  process_once-mapped st =
      let b = st.decoder.buffer in
      let n = frame_size (read_u16_le b 8) in
      let decoded = decode_frame (some b) n (some blank_frame) in
      ground (arith, on_result-mapped st n decoded.status (frame_of decoded.output))

  process-mapped :
      (fuel : ℕ) (st : Feeding C)
      → mapped (process (some f) fuel st) ≡ process (some g) fuel (mapped st)
  unfolding process
  process-mapped zero st = refl
  process-mapped (suc fuel) st = elim (Bool-cases st.processing) [
    | inl on ↦
        rw (on, process)
          (process-mapped fuel (process_once (some f) st)
            ∙ ap (process (some g) fuel) (process_once-mapped st))
    | inr off ↦ rw (off, process)
  ]

  pub feed_bytes-mapped :
      (bytes : Bytes) (st : Feeding C)
      → mapped (feed_bytes (some f) st bytes) ≡ feed_bytes (some g) (mapped st) bytes
  unfolding feed_bytes feed_byte
  feed_bytes-mapped [] st = refl
  feed_bytes-mapped (x ∷ xs) st =
      feed_bytes-mapped xs (feed_byte (some f) st x)
      ∙ ap (λ t. feed_bytes (some g) t xs) (process-mapped _ _)
