-- ===== src/Protocol/Stream/View.antt =====
-- What an array decoder shows of its state, and that one round of its inner loop is one round of the
-- reference.
use oomwoo_firmware.Prelude.{
  subst, drop_all, ℕ, ◌+◌, ◌-◌, ◌≤◌, ◌≡◌, refl, sym, ap, ap₂, ◌∙◌, Bool, true, false, not, ◌||◌,
  inl, inr, some, [], arith, length, drop, length-drop, Bytes, byte_at, ltb, leb, ◌==◌,
  if◌then◌else◌, Bool-cases,
}
use oomwoo_firmware.Protocol.{
  frame_of, Status, magic_0, magic_1, protocol_version, header_size, max_payload_size, DecodedFrame,
  blank_frame,
}
use oomwoo_firmware.Protocol.Wire.{read_u16_le}
use oomwoo_firmware.Protocol.Frame.{frame_size, decode_frame}
use oomwoo_firmware.Protocol.Frame.Decode.Prefix.{byte_at-take, read_u16_le-take, decode_frame-take}
use oomwoo_firmware.Protocol.Stream.{
  StreamDecoder, DecoderStats, count_discarded, count_version_error, count_length_error,
  count_crc_error, count_frame, Callback, call, Feeding, remove_prefix, resync_after_error, pause,
  go_on, reject, on_result, process_once,
}
use oomwoo_firmware.Protocol.Stream.Buffer.{
  IsValid, contents, length-contents, Removed, remove_prefix-Removed, resync-Removed,
}
use oomwoo_firmware.Protocol.Stream.Reference.{resync, Scan, rest, keep, refuse, settle, scan_once}

module _ {C : Type 0} where
  -- The reference state that a running feed stands for.
  abbrev pub view : Feeding C → Scan C
  view st = record {
    pending = contents st.decoder;
    stats = st.decoder.stats;
    context = st.context;
    emitted = st.emitted;
    processing = st.processing;
  }

  -- `st` has a valid array, and stands for `s`.
  pub record Shows (st : Feeding C) (s : Scan C) : Type 0 where
    pub valid : IsValid st.decoder
    pub same : view st ≡ s

  go_on-Shows :
      (st : Feeding C) (d e : StreamDecoder) (count : ℕ) (discarded : Bool)
      → IsValid d
      → Removed d count discarded e
      → Shows (go_on st e) (
          keep
            (record {
              pending = contents d;
              stats = if discarded then count_discarded d.stats count else d.stats;
              context = st.context;
              emitted = st.emitted;
              processing = true;
            })
            (drop count (contents d)))
  go_on-Shows st d e count discarded v r = record {
    valid = r.valid;
    same =
        let n : e.buffered_bytes ≡ length (drop count (contents d)) =
          sym (length-contents e r.valid) ∙ ap length r.kept in
        rw (← n, ← r.kept, ← r.counted);
  }

  reject-Shows :
      (st : Feeding C) (stats : DecoderStats)
      → IsValid st.decoder
      → 2 ≤ st.decoder.buffered_bytes
      → Shows (reject st stats) (refuse (view st) stats)
  reject-Shows st stats v two =
      let d = record st.decoder { stats = stats } in
      let (count, positive, inside, kept, r) =
        resync-Removed d (record { whole = v.whole; fits = v.fits }) two in
      let p = contents d in
      let less : count ≡ length p - length (resync p) =
        omega (arith, length-contents st.decoder v, length-drop count p, ap length kept) in
      subst (λ s. Shows (reject st stats) s)
        (ap₂
          (λ q k. record {
            pending = q;
            stats = count_discarded stats k;
            context = st.context;
            emitted = st.emitted;
            processing = leb 2 (length q);
          })
          kept less)
        (go_on-Shows st d (resync_after_error d) count true
          (record { whole = v.whole; fits = v.fits }) r)

  on_result-Shows :
      (callback : Callback C) (st : Feeding C) (n : ℕ) (status : Status) (frame : DecodedFrame)
      → IsValid st.decoder
      → 2 ≤ n
      → n ≤ st.decoder.buffered_bytes
      → Shows (on_result callback st n status frame) (settle callback (view st) n status frame)
  unfolding on_result settle
  on_result-Shows callback st n Status.ok frame v two inside =
      let counted = record st.decoder { stats = count_frame st.decoder.stats } in
      let w : IsValid counted = record { whole = v.whole; fits = v.fits } in
      go_on-Shows (record st { context = call callback frame st.context; emitted = st.emitted + 1 })
        counted (remove_prefix counted n false) n false w
        (remove_prefix-Removed counted w n false (omega arith) inside)
  on_result-Shows callback st n Status.bad_crc frame v two inside =
      reject-Shows st (count_crc_error st.decoder.stats) v (omega arith)
  on_result-Shows callback st n _ frame v two inside =
      reject-Shows st (count_length_error st.decoder.stats) v (omega arith)

  pause-Shows : (st : Feeding C) → IsValid st.decoder → Shows (pause st) (rest (view st))
  pause-Shows st v = record { valid = v; same = refl }

  noise-Shows :
      (st : Feeding C)
      → IsValid st.decoder
      → st.decoder.buffered_bytes ≡ 1
      → Shows
          (pause (record st { decoder = remove_prefix st.decoder 1 true }))
          (rest (record (view st) { pending = []; stats = count_discarded st.decoder.stats 1 }))
  noise-Shows st v one =
      let r = remove_prefix-Removed st.decoder v 1 true (omega arith) (omega arith) in
      record {
        valid = r.valid;
        same =
            let gone : contents (remove_prefix st.decoder 1 true) ≡ [] =
              r.kept
              ∙ drop_all 1 (contents st.decoder) (omega (arith, length-contents st.decoder v)) in
            rw (gone, r.counted);
      }

  -- The tests behind a whole header.
  framed-Shows :
      (callback : Callback C) (st : Feeding C)
      → IsValid st.decoder
      → let d = st.decoder in
        let n = d.buffered_bytes in
        let p = contents d in
        let size = λ (b : Bytes). frame_size (read_u16_le b 8) in
        let decoded = λ (b : Bytes). decode_frame (some b) (size b) (some blank_frame) in
        let refused = λ (stats : DecoderStats).
          keep
            (record (view st) { stats = count_discarded stats (n - length (resync p)) })
            (resync p) in
        10 ≤ n
        → Shows
            (if not (byte_at d.buffer 2 == protocol_version)
              then reject st (count_version_error d.stats)
              else if ltb max_payload_size (read_u16_le d.buffer 8)
              then reject st (count_length_error d.stats)
              else if ltb n (size d.buffer)
              then pause st
              else on_result callback st
                  (size d.buffer)
                  (decoded d.buffer).status
                  (frame_of (decoded d.buffer).output))
            (if not (byte_at p 2 == protocol_version)
              then refused (count_version_error d.stats)
              else if ltb max_payload_size (read_u16_le p 8)
              then refused (count_length_error d.stats)
              else if ltb n (size p)
              then rest (view st)
              else settle callback
                  (view st)
                  (size p)
                  (decoded p).status
                  (frame_of (decoded p).output))
  framed-Shows callback st v long =
      let d = st.decoder in
      let n = d.buffered_bytes in
      let refused = λ (stats : DecoderStats).
        rw (length-contents d v) at (reject-Shows st stats v (omega arith)) in
      rw (byte_at-take d.buffer n 2 (omega arith), read_u16_le-take d.buffer n 8 (omega arith))
        (elim (Bool-cases (byte_at d.buffer 2 == protocol_version)) [
          | inl current ↦
              rw current (elim (Bool-cases (ltb max_payload_size (read_u16_le d.buffer 8))) [
                | inl large ↦ rw large (refused (count_length_error d.stats))
                | inr small ↦
                    rw small (elim (Bool-cases (ltb n (frame_size (read_u16_le d.buffer 8)))) [
                      | inl partial ↦ rw partial (pause-Shows st v)
                      | inr full ↦
                          rw (full, decode_frame-take d.buffer n (ground arith) blank_frame)
                            (on_result-Shows callback st _ _ _ v (omega arith) (ground arith))
                    ])
              ])
          | inr other ↦ rw other (refused (count_version_error d.stats))
        ])

  -- One round of the inner loop is one round of the reference.
  pub process_once-Shows :
      (callback : Callback C) (st : Feeding C)
      → IsValid st.decoder
      → Shows (process_once callback st) (scan_once callback (view st))
  unfolding process_once scan_once
  process_once-Shows callback st v =
      let d = st.decoder in
      let n = d.buffered_bytes in
      rw (length-contents d v) (elim (Bool-cases (n == 1)) [
        | inl one ↦
            rw (one, byte_at-take d.buffer n 0 (ground arith))
              (elim (Bool-cases (byte_at d.buffer 0 == magic_0)) [
                | inl o ↦ rw o (pause-Shows st v)
                | inr noise ↦ rw noise (noise-Shows st v (ground arith))
              ])
        | inr many ↦
            let refused = λ (stats : DecoderStats) (two : 2 ≤ n).
              rw (length-contents d v) at (reject-Shows st stats v two) in
            rw many (elim (Bool-cases (ltb n 2)) [
              | inl few ↦ rw few (pause-Shows st v)
              | inr two ↦
                  rw
                    (
                      two,
                      byte_at-take d.buffer n 0 (ground arith),
                      byte_at-take d.buffer n 1 (ground arith),
                    )
                    (elim (Bool-cases (
                      not (byte_at d.buffer 0 == magic_0) || not (byte_at d.buffer 1 == magic_1))) [
                        | inl noise ↦ rw noise (refused d.stats (ground arith))
                        | inr start ↦ rw start (elim (Bool-cases (ltb n header_size)) [
                          | inl short ↦ rw short (pause-Shows st v)
                          | inr long ↦ rw long (framed-Shows callback st v (ground arith))
                        ])
                      ])
            ])
      ])
