-- ===== src/Protocol/Stream/Parse/Charges.antt =====
-- What a step of the parser does to the counters, against what stands at its front.
use oomwoo_firmware.Prelude.{
  ℕ, ◌<◌, ◌≡◌, ◌≢◌, refl, sym, ◌∙◌, true, false, not, some, [], ◌∷◌, ltb, ◌==◌, drop, Bytes,
  byte_at, arith, if_case,
}
use oomwoo_firmware.Protocol.{
  frame_of, protocol_version, max_payload_size, Status, DecodedFrame, blank_frame,
}
use oomwoo_firmware.Protocol.Wire.{read_u16_le}
use oomwoo_firmware.Protocol.Frame.{frame_size, decode_checks, decode_frame}
use oomwoo_firmware.Protocol.Frame.Decode.{decode_checks-ok, decode_frame-status}
use oomwoo_firmware.Protocol.Stream.{count_version_error, count_length_error, Callback}
use oomwoo_firmware.Protocol.Stream.Reference.{may_begin}
use oomwoo_firmware.Protocol.Stream.Parse.{skip, Parsing, is_partial, accept, advance}
use oomwoo_firmware.Protocol.Stream.Parse.Prefix.{decided}
use oomwoo_firmware.Protocol.Stream.Parse.Fronts.{magic_of}
use oomwoo_firmware.Protocol.Stream.Parse.Places.{
  has_header, has_foreign, has_long, has_frame, is_intact, has_intact, has_broken, Spends, stays,
  moves, Spends-both,
}

module _ {C : Type 0} where
  pub record Charged (s t : Parsing C) : Type 0 where
    pub foreign : Spends has_foreign s.stats.version_errors t.stats.version_errors s.input t.input
    pub long : Spends has_long s.stats.length_errors t.stats.length_errors s.input t.input
    pub broken : Spends has_broken s.stats.crc_errors t.stats.crc_errors s.input t.input
    pub intact : Spends has_intact s.stats.frames t.stats.frames s.input t.input

  pub Charged-both : (s t u : Parsing C) → Charged s t → Charged t u → Charged s u
  Charged-both s t u a b = record {
    foreign = Spends-both has_foreign _ _ _ _ _ _ a.foreign b.foreign;
    long = Spends-both has_long _ _ _ _ _ _ a.long b.long;
    broken = Spends-both has_broken _ _ _ _ _ _ a.broken b.broken;
    intact = Spends-both has_intact _ _ _ _ _ _ a.intact b.intact;
  }

  -- A step from a place where nothing stands that is counted.
  pub Charged-drop :
      (s : Parsing C) (k : ℕ)
      → has_foreign s.input ≡ false
      → has_long s.input ≡ false
      → has_broken s.input ≡ false
      → has_intact s.input ≡ false
      → Charged s (record s { input = drop k s.input })
  Charged-drop s k a b c d = record {
    foreign = stays has_foreign s.stats.version_errors k s.input a;
    long = stays has_long s.stats.length_errors k s.input b;
    broken = stays has_broken s.stats.crc_errors k s.input c;
    intact = stays has_intact s.stats.frames k s.input d;
  }

module _ {C : Type 0} (callback : Callback C) where
  accept-Charged :
      (s : Parsing C) (n : ℕ) (status : Status) (frame : DecodedFrame)
      → 0 < n
      → has_frame s.input ≡ true
      → (status ≡ Status.ok → is_intact s.input ≡ true)
      → (status ≢ Status.ok → is_intact s.input ≡ false)
      → Charged s (accept callback s n status frame)
  unfolding accept
  accept-Charged s n Status.ok frame some_taken whole good bad =
      let p = s.input in
      let right = good refl in
      record {
        foreign = stays has_foreign s.stats.version_errors n p (ground arith);
        long = stays has_long s.stats.length_errors n p (ground arith);
        broken = stays has_broken s.stats.crc_errors n p (ground arith);
        intact = moves has_intact s.stats.frames n p (ground arith) some_taken (ground arith);
      }
  accept-Charged s n _ frame some_taken whole good bad =
      let p = s.input in
      let wrong = bad (λ e. absurd (cc)) in
      record {
        foreign = stays has_foreign s.stats.version_errors 1 p (ground arith);
        long = stays has_long s.stats.length_errors 1 p (ground arith);
        broken =
            moves has_broken s.stats.crc_errors 1 p (ground arith) (omega arith) (ground arith);
        intact = stays has_intact s.stats.frames 1 p (ground arith);
      }

  -- Where a whole frame stands, a decode finds whether its checksum is right.
  frame-status :
      (p : Bytes)
      → has_frame p ≡ true
      → let status =
          (decode_frame (some p) (frame_size (read_u16_le p 8)) (some blank_frame)).status in
        (status ≡ Status.ok → is_intact p ≡ true) × (status ≢ Status.ok → is_intact p ≡ false)
  unfolding decode_checks
  frame-status p whole =
      let same = decode_frame-status p (frame_size (read_u16_le p 8)) blank_frame in
      (
        λ e. ground (arith, decode_checks-ok p (frame_size (read_u16_le p 8)) (sym same ∙ e)),
        λ ne. ground (arith, same),
      )

  noise-has_header : (p : Bytes) → may_begin p ≡ false → has_header p ≡ false
  noise-has_header [] e = absurd (cc)
  noise-has_header (x ∷ []) e = ground arith
  noise-has_header (x ∷ y ∷ p) e = ground arith

  noise-Charged : (s : Parsing C) → may_begin s.input ≡ false → Charged s (skip s s.stats)
  noise-Charged s noise =
      let none_here = noise-has_header s.input noise in
      let calm = Charged-drop s 1 (ground arith) (ground arith) (ground arith) (ground arith) in
      record {
        foreign = calm.foreign;
        long = calm.long;
        broken = calm.broken;
        intact = calm.intact;
      }

  foreign-Charged :
      (s : Parsing C)
      → has_foreign s.input ≡ true
      → Charged s (skip s (count_version_error s.stats))
  foreign-Charged s here =
      let p = s.input in
      record {
        foreign = moves has_foreign s.stats.version_errors 1 p here (omega arith) (ground arith);
        long = stays has_long s.stats.length_errors 1 p (ground arith);
        broken = stays has_broken s.stats.crc_errors 1 p (ground arith);
        intact = stays has_intact s.stats.frames 1 p (ground arith);
      }

  long-Charged :
      (s : Parsing C) → has_long s.input ≡ true → Charged s (skip s (count_length_error s.stats))
  long-Charged s here =
      let p = s.input in
      record {
        foreign = stays has_foreign s.stats.version_errors 1 p (ground arith);
        long = moves has_long s.stats.length_errors 1 p here (omega arith) (ground arith);
        broken = stays has_broken s.stats.crc_errors 1 p (ground arith);
        intact = stays has_intact s.stats.frames 1 p (ground arith);
      }

  pub advance-Charged :
      (s : Parsing C) → is_partial s.input ≡ false → Charged s (advance callback s)
  unfolding advance
  advance-Charged s goes =
      let p = s.input in
      let d = decided p [] goes in
      let n = frame_size (read_u16_le p 8) in
      let decoded = decode_frame (some p) n (some blank_frame) in
      if_case (Charged s) _ (λ (noise : not (may_begin p) ≡ true). noise-Charged s (ground arith))
        (λ (begins : not (may_begin p) ≡ false).
          let long_enough = d.header (ground arith) in
          let (first, second) = magic_of p (omega (arith, long_enough)) (ground arith) in
          let header : has_header p ≡ true = ground arith in
          if_case (Charged s) _
            (λ (other : not (byte_at p 2 == protocol_version) ≡ true).
              foreign-Charged s (ground arith))
            (λ (same : not (byte_at p 2 == protocol_version) ≡ false).
              if_case (Charged s) _
                (λ (big : ltb max_payload_size (read_u16_le p 8) ≡ true).
                  long-Charged s (ground arith))
                (λ (small : ltb max_payload_size (read_u16_le p 8) ≡ false).
                  let inside = d.whole (ground arith) (ground arith) (ground arith) in
                  let whole : has_frame p ≡ true = ground arith in
                  let (good, bad) = frame-status p whole in
                  accept-Charged s n decoded.status (frame_of decoded.output) (omega arith) whole
                    good bad)))
