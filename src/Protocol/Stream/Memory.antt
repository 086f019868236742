-- ===== src/Protocol/Stream/Memory.antt =====
-- The memory behind the decoder's array.
pub mod Array
use oomwoo_firmware.Prelude.{
  ℕ, zero, suc, ◌+◌, ◌-◌, ◌≤◌, ◌<◌, ◌≡◌, refl, sym, ap, ◌∙◌, Bool, true, false, not, ◌&&◌, ◌||◌,
  Option, none, inl, inr, some, [], ◌∷◌, ◌++◌, append_assoc, arith, length, take, drop, set, Bytes,
  byte_at, ltb, ◌==◌, Bool-cases, if_case, if◌then◌else◌, memmove_front, length-drop,
  take-append_le, drop-append_le, set-append_lt, get_or-append_lt,
}
use oomwoo_firmware.Protocol.{
  frame_of, Status, magic_0, magic_1, protocol_version, header_size, max_payload_size,
  max_frame_size, DecodedFrame, blank_frame,
}
use oomwoo_firmware.Protocol.Wire.{read_u16_le}
use oomwoo_firmware.Protocol.Frame.{frame_size, decode_frame}
use oomwoo_firmware.Protocol.Frame.Decode.Prefix.{read_u16_le-front, decode_frame-front}
use oomwoo_firmware.Protocol.Stream.{
  StreamDecoder, DecoderStats, Callback, call, go_on, reject, pause, count_frame, count_crc_error,
  count_version_error, count_length_error, Feeding, remove_prefix, find_magic, resync_at,
  resync_after_error, make_room, append_byte, on_result, process_once, process, feed_byte,
  feed_bytes,
}
use oomwoo_firmware.Protocol.Stream.Buffer.{IsValid}
use oomwoo_firmware.Protocol.Stream.View.{process_once-Shows}
use oomwoo_firmware.Protocol.Stream.Refine.{
  process-Shows, make_room-Shows, append_byte-Shows, feed_byte-Shows,
}
use oomwoo_firmware.Protocol.Stream.Memory.Array.{
  extend, remove_prefix-extend, resync_after_error-extend, make_room-extend, append_byte-extend,
}

module _ (tail : Bytes) where
  module _ {C : Type 0} where
    abbrev pub extend_feeding : Feeding C → Feeding C
    extend_feeding st = record st { decoder = extend tail st.decoder }

  module _ {C : Type 0} (callback : Callback C) where
    reject-extend :
        (st : Feeding C) (stats : DecoderStats)
        → IsValid st.decoder
        → reject (extend_feeding st) stats ≡ extend_feeding (reject st stats)
    reject-extend st stats v = ap (go_on st) (
        resync_after_error-extend tail (record st.decoder { stats = stats })
          (record { whole = v.whole; fits = v.fits }))

    on_result-extend :
        (st : Feeding C) (n : ℕ) (status : Status) (frame : DecodedFrame)
        → IsValid st.decoder
        → on_result callback (extend_feeding st) n status frame
          ≡ extend_feeding (on_result callback st n status frame)
    unfolding on_result
    on_result-extend st n Status.ok frame v =
        let counted = record st.decoder { stats = count_frame st.decoder.stats } in
        ap
          (go_on (record st { context = call callback frame st.context; emitted = st.emitted + 1 }))
          (remove_prefix-extend tail counted n false (record { whole = v.whole; fits = v.fits }))
    on_result-extend st n Status.bad_crc frame v =
        reject-extend st (count_crc_error st.decoder.stats) v
    on_result-extend st n _ frame v = reject-extend st (count_length_error st.decoder.stats) v

    -- The round behind a header, on the array and on the longer one.
    abbrev framed : Feeding C → Bytes → Feeding C
    framed st array =
        let d = record st.decoder { buffer = array } in
        let payload_length = read_u16_le st.decoder.buffer 8 in
        let frame_length = frame_size payload_length in
        let decoded = decode_frame (some array) frame_length (some blank_frame) in
        let at = record st { decoder = d } in
        if not (byte_at st.decoder.buffer 2 == protocol_version)
        then reject at (count_version_error d.stats)
        else if ltb max_payload_size payload_length
        then reject at (count_length_error d.stats)
        else if ltb d.buffered_bytes frame_length
        then pause at
        else on_result callback at frame_length decoded.status (frame_of decoded.output)

    framed-extend :
        (st : Feeding C)
        → IsValid st.decoder
        → framed st (st.decoder.buffer ++ tail) ≡ extend_feeding (framed st st.decoder.buffer)
    framed-extend st v =
        let d = st.decoder in
        let b = d.buffer in
        let n = frame_size (read_u16_le b 8) in
        let decoded = decode_frame (some b) n (some blank_frame) in
        elim (Bool-cases (not (byte_at b 2 == protocol_version))) [
          | inl bad ↦ rw bad (reject-extend st (count_version_error d.stats) v)
          | inr version ↦ rw version (elim (Bool-cases (ltb max_payload_size (read_u16_le b 8))) [
            | inl long ↦ rw long (reject-extend st (count_length_error d.stats) v)
            | inr small ↦ rw small (elim (Bool-cases (ltb d.buffered_bytes n)) [
              | inl partial ↦ rw partial refl
              | inr whole ↦
                  let inside : n ≤ length b = ground (arith, v.whole, v.fits) in
                  rw (whole, decode_frame-front b tail blank_frame (omega (arith, v.whole)) inside)
                    (on_result-extend st n decoded.status (frame_of decoded.output) v)
            ])
          ])
        ]

    process_once-extend :
        (st : Feeding C)
        → IsValid st.decoder
        → process_once callback (extend_feeding st) ≡ extend_feeding (process_once callback st)
    unfolding process_once
    process_once-extend st v =
        let d = st.decoder in
        let b = d.buffer in
        let n = frame_size (read_u16_le b 8) in
        let decoded = decode_frame (some b) n (some blank_frame) in
        let at = λ (i : ℕ) (h : i < max_frame_size).
          get_or-append_lt b tail i 0 (omega (arith, v.whole, h)) in
        let word = read_u16_le-front b tail 8 (omega (arith, v.whole)) in
        rw (at 0 (omega arith), at 1 (omega arith), at 2 (omega arith), word)
          (elim (Bool-cases (d.buffered_bytes == 1)) [
            | inl one ↦ rw one (elim (Bool-cases (not (byte_at b 0 == magic_0))) [
              | inl other ↦ rw other (
                  ap (λ e. pause (record st { decoder = e }))
                    (remove_prefix-extend tail d 1 true v))
              | inr o ↦ rw o refl
            ])
            | inr longer ↦ rw longer (elim (Bool-cases (ltb d.buffered_bytes 2)) [
              | inl empty ↦ rw empty refl
              | inr two ↦
                  rw two
                    (elim (Bool-cases
                      (not (byte_at b 0 == magic_0) || not (byte_at b 1 == magic_1))) [
                        | inl noise ↦ rw noise (reject-extend st d.stats v)
                        | inr begins ↦
                            rw begins (elim (Bool-cases (ltb d.buffered_bytes header_size)) [
                              | inl short ↦ rw short refl
                              | inr header ↦ rw header (framed-extend st v)
                            ])
                      ])
            ])
          ])

    process-extend :
        (fuel : ℕ) (st : Feeding C)
        → IsValid st.decoder
        → process callback fuel (extend_feeding st) ≡ extend_feeding (process callback fuel st)
    unfolding process
    process-extend zero st v = refl
    process-extend (suc fuel) st v = elim (Bool-cases st.processing) [
      | inl on ↦
          rw (on, process)
            (ap (process callback fuel) (process_once-extend st v)
              ∙ process-extend fuel (process_once callback st)
                  (process_once-Shows callback st v).valid)
      | inr off ↦ rw (off, process) refl
    ]

    feed_byte-extend :
        (st : Feeding C) (byte : ℕ)
        → IsValid st.decoder
        → feed_byte callback (extend_feeding st) byte ≡ extend_feeding (feed_byte callback st byte)
    unfolding feed_byte
    feed_byte-extend st byte v =
        let (roomed, room) = make_room-Shows st v in
        let d = append_byte (make_room st.decoder) byte in
        let same : append_byte (make_room (extend tail st.decoder)) byte ≡ extend tail d =
          ap (λ e. append_byte e byte) (make_room-extend tail st.decoder v)
          ∙ append_byte-extend tail (make_room st.decoder) byte roomed.valid room in
        let next = record st { decoder = d; processing = true } in
        let added =
          append_byte-Shows (record st { decoder = make_room st.decoder }) byte roomed.valid room in
        ap
          (λ e.
            process callback (e.buffered_bytes + 1) (record st { decoder = e; processing = true }))
          same
        ∙ process-extend (d.buffered_bytes + 1) next added.valid

    -- A feed of any bytes to a decoder with a valid array stays inside the array: with any memory
    -- standing behind it, it does the same to the bytes held, the counters, the context and the count
    -- of frames, and leaves that memory as it was.
    pub feed_bytes-extend :
        (st : Feeding C) (bytes : Bytes)
        → IsValid st.decoder
        → feed_bytes callback (extend_feeding st) bytes
          ≡ extend_feeding (feed_bytes callback st bytes)
    unfolding feed_bytes
    feed_bytes-extend st [] v = refl
    feed_bytes-extend st (byte ∷ rest) v =
        ap (λ t. feed_bytes callback t rest) (feed_byte-extend st byte v)
        ∙ feed_bytes-extend (feed_byte callback st byte) rest
            (feed_byte-Shows callback st byte v).valid
