-- ===== src/Protocol/Stream/Refine.antt =====
-- The array decoder does what the reference decoder does.
use oomwoo_firmware.Prelude.{
  subst, ℕ, zero, suc, ◌+◌, ◌-◌, ◌<◌, ◌≡◌, refl, sym, ap, ◌∙◌, true, inl, inr, [], ◌∷◌, ◌++◌, arith,
  length, take, set, length-drop, length-set, take-set_end, Bytes, ◌==◌, Bool-cases,
}
use oomwoo_firmware.Protocol.{max_frame_size}
use oomwoo_firmware.Protocol.Stream.{
  count_discarded, Callback, Feeding, resync_after_error, process_once, process, make_room,
  append_byte, feed_byte, feed_bytes,
}
use oomwoo_firmware.Protocol.Stream.Buffer.{IsValid, contents, length-contents, resync-Removed}
use oomwoo_firmware.Protocol.Stream.Reference.{
  resync, scan, roomy, take_byte, scan_byte, scan_bytes,
}
use oomwoo_firmware.Protocol.Stream.View.{view, Shows, process_once-Shows}

module _ {C : Type 0} where
  pub process-Shows :
      (callback : Callback C) (fuel : ℕ) (st : Feeding C)
      → IsValid st.decoder
      → Shows (process callback fuel st) (scan callback fuel (view st))
  unfolding process scan
  process-Shows callback zero st v = record { valid = v; same = refl }
  process-Shows callback (suc fuel) st v = elim (Bool-cases st.processing) [
    | inl on ↦
        let once = process_once-Shows callback st v in
        rw (on, process, scan)
          (rw once.same at (process-Shows callback fuel (process_once callback st) once.valid))
    | inr off ↦ rw (off, process, scan) (record { valid = v; same = refl })
  ]

  pub append_byte-Shows :
      (st : Feeding C) (byte : ℕ)
      → IsValid st.decoder
      → st.decoder.buffered_bytes < max_frame_size
      → Shows
          (record st { decoder = append_byte st.decoder byte; processing = true })
          (take_byte (view st) byte)
  append_byte-Shows st byte v room =
      let d = st.decoder in
      let n = d.buffered_bytes in
      record {
        valid = record { whole = length-set d.buffer n byte ∙ v.whole; fits = omega arith };
        same =
            let grown : take (n + 1) (set d.buffer n byte) ≡ contents d ++ (byte ∷ []) =
              ap (λ k. take k (set d.buffer n byte)) {y = suc n} (omega arith)
              ∙ take-set_end n d.buffer byte (omega (arith, v.whole)) in
            rw grown;
      }

  -- A full array makes room for a byte, as the reference does.
  pub make_room-Shows :
      (st : Feeding C)
      → IsValid st.decoder
      → Shows (record st { decoder = make_room st.decoder }) (roomy (view st))
        × ((make_room st.decoder).buffered_bytes < max_frame_size)
  make_room-Shows st v =
      let d = st.decoder in
      rw (length-contents d v) (elim (Bool-cases (d.buffered_bytes == max_frame_size)) [
        | inr spare ↦ rw spare (record { valid = v; same = refl }, ground (arith, v.fits))
        | inl full ↦
            let (count, positive, inside, kept, r) = resync-Removed d v (ground arith) in
            let n = length-contents d v in
            let e = resync_after_error d in
            let left : e.buffered_bytes ≡ d.buffered_bytes - count =
              sym (length-contents e r.valid)
              ∙ ap length r.kept
              ∙ length-drop count (contents d)
              ∙ ap (λ k. k - count) n in
            let less : count ≡ d.buffered_bytes - length (resync (contents d)) =
              omega (arith, n, length-drop count (contents d), ap length kept) in
            let counted : e.stats
                ≡ count_discarded d.stats (d.buffered_bytes - length (resync (contents d))) =
              r.counted ∙ ap (count_discarded d.stats) less in
            rw full (record { valid = r.valid; same = rw (r.kept, kept, counted) }, ground arith)
      ])

  -- One byte fed to the array decoder is one byte fed to the reference.
  pub feed_byte-Shows :
      (callback : Callback C) (st : Feeding C) (byte : ℕ)
      → IsValid st.decoder
      → Shows (feed_byte callback st byte) (scan_byte callback (view st) byte)
  unfolding feed_byte scan_byte
  feed_byte-Shows callback st byte v =
      let (roomed, room) = make_room-Shows st v in
      let st1 = record st { decoder = make_room st.decoder } in
      let added = append_byte-Shows st1 byte roomed.valid room in
      let st2 = record st {
        decoder = append_byte (make_room st.decoder) byte;
        processing = true;
      } in
      let same : view st2 ≡ take_byte (roomy (view st)) byte =
        added.same ∙ ap (λ s. take_byte s byte) roomed.same in
      let rounds : st2.decoder.buffered_bytes + 1
          ≡ length (take_byte (roomy (view st)) byte).pending + 1 =
        ap (λ k. k + 1) (sym (length-contents st2.decoder added.valid))
        ∙ ap (λ s. length s.pending + 1) same in
      subst
        (λ k.
          Shows (process callback (st2.decoder.buffered_bytes + 1) st2)
            (scan callback k (take_byte (roomy (view st)) byte)))
        rounds
        (subst
          (λ s.
            Shows (process callback (st2.decoder.buffered_bytes + 1) st2)
              (scan callback (st2.decoder.buffered_bytes + 1) s))
          same (process-Shows callback (st2.decoder.buffered_bytes + 1) st2 added.valid))

  -- Feeding bytes to a decoder with a valid array leaves it valid, and does to the bytes held, the counters,
  -- the context and the count of frames what the reference decoder does.
  pub feed_bytes-Shows :
      (callback : Callback C) (st : Feeding C) (bytes : Bytes)
      → IsValid st.decoder
      → Shows (feed_bytes callback st bytes) (scan_bytes callback (view st) bytes)
  unfolding feed_bytes scan_bytes
  feed_bytes-Shows callback st [] v = record { valid = v; same = refl }
  feed_bytes-Shows callback st (byte ∷ more) v =
      let one = feed_byte-Shows callback st byte v in
      rw one.same at (feed_bytes-Shows callback (feed_byte callback st byte) more one.valid)
