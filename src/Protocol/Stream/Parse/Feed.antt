-- ===== src/Protocol/Stream/Parse/Feed.antt =====
-- The stream decoder takes the bytes one by one, and parses them.
use oomwoo_firmware.Prelude.{
  ℕ, zero, suc, ◌+◌, ◌-◌, ◌<◌, ◌≤◌, ◌≡◌, refl, sym, ap, ◌∙◌, true, false, ◌⊎◌, inl, inr, some, [],
  ◌∷◌, ltb, ◌==◌, length, drop, drop_all, length-drop, append_assoc, append-nil, Bytes, byte_at,
  arith, Bool-cases,
}
use oomwoo_firmware.Protocol.{
  frame_of, protocol_version, header_size, max_payload_size, max_frame_size, Status, DecodedFrame,
  blank_frame,
}
use oomwoo_firmware.Protocol.Wire.{read_u16_le}
use oomwoo_firmware.Protocol.Frame.{frame_size, decode_frame}
use oomwoo_firmware.Protocol.Stream.{
  Callback, DecoderStats, count_discarded, count_version_error, count_length_error, count_crc_error,
}
use oomwoo_firmware.Protocol.Stream.Reference.{
  may_begin, sync, resync, Scan, refuse, settle, scan_once, scan, take_byte, scan_byte, scan_bytes,
}
use oomwoo_firmware.Protocol.Stream.Loop.{length-sync, Waits}
use oomwoo_firmware.Protocol.Stream.Rounds.{scan_once_waiting, scan_off, roomy_spare}
use oomwoo_firmware.Protocol.Stream.Ready.{scan_byte-Waits, length-Waits}
use oomwoo_firmware.Protocol.Stream.Faults.{decode_in_feed}
use oomwoo_firmware.Protocol.Stream.Parse.{
  partial_nil, Parsing, is_partial, skip, accept, advance, parse, parse_step,
}
use oomwoo_firmware.Protocol.Stream.Parse.Prefix.{more, parse-more, decided}
use oomwoo_firmware.Protocol.Stream.Parse.Fronts.{
  magic_of, noise_one, noise_two, partial-Waits, noise-is_partial, count_discarded_add,
}

module _ {C : Type 0} where
  -- What the parser makes of the bytes held.
  abbrev pub input_of : Scan C → Parsing C
  input_of s = record {
    input = s.pending;
    stats = s.stats;
    context = s.context;
    emitted = s.emitted;
  }

module _ {C : Type 0} (callback : Callback C) where
  pub advance_noise :
      (s : Parsing C) → may_begin s.input ≡ false → advance callback s ≡ skip s s.stats
  unfolding advance
  advance_noise s h = rw h refl

  -- To look for the next place where a frame can begin is to skip bytes one by one.
  parse-sync :
      (s : Parsing C) (bytes : Bytes) (k : ℕ)
      → parse callback (record s { input = bytes; stats = count_discarded s.stats k })
        ≡ parse callback (record s {
          input = sync bytes;
          stats = count_discarded s.stats (k + (length bytes - length (sync bytes)));
        })
  unfolding sync
  parse-sync s [] k =
      ap (λ n. parse callback (record s { input = []; stats = count_discarded s.stats n }))
        (omega arith)
  parse-sync s (x ∷ bytes) k = elim (Bool-cases (may_begin (x ∷ bytes))) [
    | inl begins ↦
        rw (begins, sync)
          (ap
            (λ n.
              parse callback (record s { input = x ∷ bytes; stats = count_discarded s.stats n }))
            (omega arith))
    | inr noise ↦
        let at = record s { input = x ∷ bytes; stats = count_discarded s.stats k } in
        rw (noise, sync)
          (parse_step callback at (noise-is_partial (x ∷ bytes) noise)
            ∙ ap (parse callback) (advance_noise at noise)
            ∙ ap (λ t. parse callback (record s { input = bytes; stats = t }))
                (count_discarded_add s.stats k 1)
            ∙ parse-sync s bytes (k + 1)
            ∙ ap
                (λ n.
                  parse callback
                    (record s { input = sync bytes; stats = count_discarded s.stats n }))
                (omega (arith, length-sync bytes)))
  ]

  parse-refuse :
      (s : Scan C) (stats : DecoderStats)
      → 0 < length s.pending
      → parse callback (input_of (refuse s stats)) ≡ parse callback (skip (input_of s) stats)
  parse-refuse s stats h =
      let p = s.pending in
      sym (
        parse-sync (record (input_of s) { stats = stats }) (drop 1 p) 1
        ∙ ap
            (λ n.
              parse callback
                (record (input_of s) { input = resync p; stats = count_discarded stats n }))
            (omega (arith, length-sync (drop 1 p), length-drop 1 p)))

  parse-settle :
      (s : Scan C) (n : ℕ) (status : Status) (frame : DecodedFrame)
      → (status ≡ Status.ok) ⊎ (status ≡ Status.bad_crc)
      → 0 < length s.pending
      → parse callback (input_of (settle callback s n status frame))
        ≡ parse callback (accept callback (input_of s) n status frame)
  unfolding settle accept
  parse-settle s n Status.ok frame e h = refl
  parse-settle s n Status.bad_crc frame e h = parse-refuse s (count_crc_error s.stats) h
  parse-settle s n _ frame e h = absurd (elim e [ inl o ↦ cc | inr b ↦ cc ])

  -- The round that finds no magic at the front.
  parse-scan_noise :
      (s : Scan C)
      → 0 < length s.pending
      → may_begin s.pending ≡ false
      → parse callback (input_of (refuse s s.stats)) ≡ parse callback (input_of s)
  parse-scan_noise s h noise =
      parse-refuse s s.stats h
      ∙ ap (parse callback) (sym (advance_noise (input_of s) noise))
      ∙ sym (parse_step callback (input_of s) (noise-is_partial s.pending noise))

  -- The rounds behind a header.
  parse-scan_header :
      (s : Scan C)
      → may_begin s.pending ≡ true
      → header_size ≤ length s.pending
      → is_partial s.pending ≡ false
      → parse callback (input_of (scan_once callback s))
        ≡ parse callback (advance callback (input_of s))
  unfolding scan_once advance
  parse-scan_header s begins header goes =
      let p = s.pending in
      let n = frame_size (read_u16_le p 8) in
      let decoded = decode_frame (some p) n (some blank_frame) in
      let one : (length p == 1) ≡ false = ground arith in
      let two : ltb (length p) 2 ≡ false = ground arith in
      let ten : ltb (length p) header_size ≡ false = ground arith in
      let (first, second) = magic_of p (omega arith) begins in
      rw (one, two, ten, first, second, begins)
        (elim (Bool-cases (byte_at p 2 == protocol_version)) [
          | inr bad ↦ rw bad (parse-refuse s (count_version_error s.stats) (omega arith))
          | inl version ↦ rw version (elim (Bool-cases (ltb max_payload_size (read_u16_le p 8))) [
            | inl long ↦ rw long (parse-refuse s (count_length_error s.stats) (omega arith))
            | inr small ↦
                let d = decided p [] goes in
                let whole = d.whole begins (ground arith) (ground arith) in
                let there : ltb (length p) n ≡ false = ground arith in
                rw (small, there)
                  (parse-settle s n decoded.status (frame_of decoded.output)
                    (decode_in_feed p blank_frame (ground arith) (ground arith) (ground arith)
                      (ground arith))
                    (omega arith))
          ])
        ])

  scan_noise_lem :
      (s : Scan C)
      → 0 < length s.pending
      → may_begin s.pending ≡ false
      → parse callback (input_of (scan_once callback s)) ≡ parse callback (input_of s)
  unfolding scan_once
  scan_noise_lem s h noise =
      let p = s.pending in
      elim (Bool-cases (length p == 1)) [
        | inl one ↦
            let lone = noise_one p (ground arith) noise in
            let gone = drop_all 1 p (ground arith) in
            rw (one, lone)
              (ap
                  (λ b.
                    parse callback
                      (record (input_of s) { input = b; stats = count_discarded s.stats 1 }))
                  (sym gone)
                ∙ ap (parse callback) (sym (advance_noise (input_of s) noise))
                ∙ sym (parse_step callback (input_of s) (noise-is_partial p noise)))
        | inr longer ↦
            let two : ltb (length p) 2 ≡ false = ground arith in
            let other = noise_two p (ground arith) noise in
            rw (longer, two, other) (parse-scan_noise s h noise)
      ]

  -- A round of the decoder's loop changes nothing in what the parser makes of it.
  parse-scan_once :
      (s : Scan C) → parse callback (input_of (scan_once callback s)) ≡ parse callback (input_of s)
  parse-scan_once s = elim (Bool-cases (is_partial s.pending)) [
    | inl waits ↦
        let (w, first) = partial-Waits s.pending waits in
        ap (λ t. parse callback (input_of t)) (scan_once_waiting callback s w first)
    | inr goes ↦ elim (Bool-cases (may_begin s.pending)) [
      | inr noise ↦ scan_noise_lem s (partial_nil s.pending goes) noise
      | inl begins ↦
          parse-scan_header s begins ((decided s.pending [] goes).header begins) goes
          ∙ sym (parse_step callback (input_of s) goes)
    ]
  ]

  scan_on :
      (fuel : ℕ) (s : Scan C)
      → s.processing ≡ true
      → scan callback (suc fuel) s ≡ scan callback fuel (scan_once callback s)
  unfolding scan
  scan_on fuel s on = ground arith

  parse-scan :
      (fuel : ℕ) (s : Scan C)
      → parse callback (input_of (scan callback fuel s)) ≡ parse callback (input_of s)
  parse-scan zero s = unfold scan in refl
  parse-scan (suc fuel) s = elim (Bool-cases s.processing) [
    | inl on ↦
        ap (λ t. parse callback (input_of t)) (scan_on fuel s on)
        ∙ parse-scan fuel (scan_once callback s)
        ∙ parse-scan_once s
    | inr off ↦ ap (λ t. parse callback (input_of t)) (scan_off callback (suc fuel) s off)
  ]

  parse-scan_byte :
      (s : Scan C) (x : ℕ)
      → length s.pending < max_frame_size
      → parse callback (input_of (scan_byte callback s x))
        ≡ parse callback (more (input_of s) (x ∷ []))
  unfolding scan_byte
  parse-scan_byte s x room =
      rw (roomy_spare callback s room)
        (parse-scan (length (take_byte s x).pending + 1) (take_byte s x))

  pub parse-scan_bytes :
      (s : Scan C) (bytes : Bytes)
      → Waits s.pending
      → parse callback (input_of (scan_bytes callback s bytes))
        ≡ parse callback (more (input_of s) bytes)
  unfolding scan_bytes
  parse-scan_bytes s [] w =
      ap (λ b. parse callback (record (input_of s) { input = b })) (sym (append-nil s.pending))
  parse-scan_bytes s (x ∷ bytes) w =
      let next = scan_byte callback s x in
      parse-scan_bytes next bytes (scan_byte-Waits callback s x)
      ∙ parse-more callback (input_of next) bytes
      ∙ ap (λ t. parse callback (more t bytes)) (parse-scan_byte s x (length-Waits w))
      ∙ sym (parse-more callback (more (input_of s) (x ∷ [])) bytes)
      ∙ ap (λ b. parse callback (record (input_of s) { input = b }))
          (append_assoc s.pending (x ∷ []) bytes)
