-- ===== src/Protocol/Stream/Parse/Arrivals.antt =====
-- What the parser makes of each part of a traffic, whatever stands behind it.
use oomwoo_firmware.Prelude.{
  ℕ, ◌+◌, ◌<◌, ◌≡◌, refl, ap, ◌∙◌, true, false, some, [], ◌∷◌, ◌++◌, ltb, ◌==◌, length, drop,
  drop_all, length-drop, Bytes, byte_at, arith,
}
use oomwoo_firmware.Protocol.{frame_of, protocol_version, max_payload_size, Status, blank_frame}
use oomwoo_firmware.Protocol.Wire.{read_u16_le}
use oomwoo_firmware.Protocol.Frame.{decode_frame, decode_checks}
use oomwoo_firmware.Protocol.Frame.Decode.{decode_frame-status}
use oomwoo_firmware.Protocol.Stream.{
  DecoderStats, count_discarded, count_frame, count_crc_error, count_version_error, Callback, call,
}
use oomwoo_firmware.Protocol.Stream.Reference.{may_begin}
use oomwoo_firmware.Protocol.Stream.Packets.{
  Packet, IsPacket, packet_bytes, packet_frame, packet-Passes, packet-decode,
}
use oomwoo_firmware.Protocol.Stream.Parse.Traffic.{IsQuiet, Headed, IsDamaged, IsForeign}
use oomwoo_firmware.Protocol.Stream.Parse.{
  Parsing, is_partial, skip, accept, advance, parse, parse_step,
}
use oomwoo_firmware.Protocol.Stream.Parse.Prefix.{more, is_partial-append, advance-more}
use oomwoo_firmware.Protocol.Stream.Parse.Feed.{advance_noise}
use oomwoo_firmware.Protocol.Stream.Parse.Fronts.{
  may_begin_two, noise-is_partial, count_discarded_add,
}

may_begin-IsQuiet : (x : ℕ) (q rest : Bytes) → IsQuiet (x ∷ q) → may_begin (x ∷ (q ++ rest)) ≡ false
may_begin-IsQuiet x [] [] h = ground arith
may_begin-IsQuiet x [] (y ∷ rest) h = ground arith
may_begin-IsQuiet x (y ∷ q) rest h = ground arith

drop-IsQuiet : (x : ℕ) (q : Bytes) → IsQuiet (x ∷ q) → IsQuiet q
drop-IsQuiet x [] h = tt
drop-IsQuiet x (y ∷ q) h = h.1

Headed-begins : (p : Bytes) → Headed p → may_begin p ≡ true
Headed-begins p h = may_begin_two p (omega (arith, h.exact)) ∙ ground (arith, h.first, h.second)

Headed-is_partial : (p : Bytes) → Headed p → is_partial p ≡ false
unfolding is_partial
Headed-is_partial p h = rw (Headed-begins p h) (ground (arith, h.version, h.small, h.exact))

packet-Headed : (k : Packet) → IsPacket k → Headed (packet_bytes k)
packet-Headed k v =
    let passes = packet-Passes k v in
    record {
      first = passes.first;
      second = passes.second;
      version = passes.version;
      small = passes.small;
      exact = passes.exact;
    }

module _ {C : Type 0} (callback : Callback C) where
  advance-Headed :
      (s : Parsing C)
      → Headed s.input
      → let n = length s.input in
        let decoded = decode_frame (some s.input) n (some blank_frame) in
        advance callback s ≡ accept callback s n decoded.status (frame_of decoded.output)
  unfolding advance
  advance-Headed s h =
      let version : (byte_at s.input 2 == protocol_version) ≡ true = ground (arith, h.version) in
      let small : ltb max_payload_size (read_u16_le s.input 8) ≡ false = ground (arith, h.small) in
      rw (Headed-begins s.input h, version, small, h.exact) refl

  damaged-status :
      (p : Bytes)
      → IsDamaged p
      → (decode_frame (some p) (length p) (some blank_frame)).status ≡ Status.bad_crc
  unfolding decode_checks
  damaged-status p d =
      let h = d.headed in
      decode_frame-status p (length p) blank_frame
      ∙ ground (arith, h.first, h.second, h.version, h.small, h.exact, d.broken)

  foreign-is_partial : (p : Bytes) → IsForeign p → is_partial p ≡ false
  unfolding is_partial
  foreign-is_partial p f =
      let begins : may_begin p ≡ true =
        may_begin_two p (omega (arith, f.long)) ∙ ground (arith, f.first, f.second) in
      rw begins (ground (arith, f.long, f.version))

  advance_foreign :
      (s : Parsing C)
      → IsForeign s.input
      → advance callback s ≡ skip s (count_version_error s.stats)
  unfolding advance
  advance_foreign s f =
      let begins : may_begin s.input ≡ true =
        may_begin_two s.input (omega (arith, f.long)) ∙ ground (arith, f.first, f.second) in
      let version : (byte_at s.input 2 == protocol_version) ≡ false = ground (arith, f.version) in
      rw (begins, version) refl

  advance_damaged :
      (s : Parsing C) → IsDamaged s.input → advance callback s ≡ skip s (count_crc_error s.stats)
  unfolding accept
  advance_damaged s d =
      let n = length s.input in
      let frame = frame_of (decode_frame (some s.input) n (some blank_frame)).output in
      advance-Headed s d.headed ∙ ap (λ t. accept callback s n t frame) (damaged-status s.input d)

  advance_packet :
      (s : Parsing C) (k : Packet)
      → IsPacket k
      → s.input ≡ packet_bytes k
      → advance callback s ≡ record s {
        input = [];
        stats = count_frame s.stats;
        context = call callback (packet_frame k) s.context;
        emitted = s.emitted + 1;
      }
  unfolding accept
  advance_packet s k v e =
      let p = s.input in
      let headed : Headed p = rw e (packet-Headed k v) in
      let decoded =
        ap (λ b. decode_frame (some b) (length b) (some blank_frame)) e ∙ packet-decode k v in
      advance-Headed s headed
      ∙ ap (λ d. accept callback s (length p) d.status (frame_of d.output)) decoded
      ∙ ap
          (λ b. record s {
            input = b;
            stats = count_frame s.stats;
            context = call callback (packet_frame k) s.context;
            emitted = s.emitted + 1;
          })
          (drop_all (length p) p (omega arith))

  -- Bytes that no frame begins in are skipped.
  pub parse-quiet :
      (s : Parsing C) (q rest : Bytes) (k : ℕ)
      → IsQuiet q
      → parse callback (record s { input = q ++ rest; stats = count_discarded s.stats k })
        ≡ parse callback (record s { input = rest; stats = count_discarded s.stats (k + length q) })
  parse-quiet s [] rest k h =
      ap (λ n. parse callback (record s { input = rest; stats = count_discarded s.stats n }))
        (omega arith)
  parse-quiet s (x ∷ q) rest k h =
      let at = record s { input = x ∷ (q ++ rest); stats = count_discarded s.stats k } in
      let noise = may_begin-IsQuiet x q rest h in
      parse_step callback at (noise-is_partial at.input noise)
      ∙ ap (parse callback) (advance_noise callback at noise)
      ∙ ap (λ t. parse callback (record s { input = q ++ rest; stats = t }))
          (count_discarded_add s.stats k 1)
      ∙ parse-quiet s q rest (k + 1) (drop-IsQuiet x q h)
      ∙ ap (λ n. parse callback (record s { input = rest; stats = count_discarded s.stats n }))
          (omega arith)

  -- What is refused at its first byte, and is quiet behind it, is skipped whole.
  parse_refused :
      (s : Parsing C) (p rest : Bytes) (stats : DecoderStats)
      → is_partial p ≡ false
      → advance callback (record s { input = p }) ≡ skip (record s { input = p }) stats
      → 0 < length p
      → IsQuiet (drop 1 p)
      → parse callback (record s { input = p ++ rest })
        ≡ parse callback (record s { input = rest; stats = count_discarded stats (length p) })
  parse_refused s p rest stats goes step some_held quiet =
      let s0 = record s { input = p } in
      parse_step callback (more s0 rest) (is_partial-append callback p rest goes)
      ∙ ap (parse callback) (advance-more callback s0 rest goes)
      ∙ ap (λ t. parse callback (more t rest)) step
      ∙ parse-quiet (record s { stats = stats }) (drop 1 p) rest 1 quiet
      ∙ ap (λ n. parse callback (record s { input = rest; stats = count_discarded stats n }))
          (omega (arith, length-drop 1 p))

  pub parse-damaged :
      (s : Parsing C) (p rest : Bytes)
      → IsDamaged p
      → parse callback (record s { input = p ++ rest })
        ≡ parse callback (record s {
          input = rest;
          stats = count_discarded (count_crc_error s.stats) (length p);
        })
  parse-damaged s p rest d =
      parse_refused s p rest (count_crc_error s.stats) (Headed-is_partial p d.headed)
        (advance_damaged (record s { input = p }) d) (omega (arith, d.headed.exact)) d.quiet

  pub parse-foreign :
      (s : Parsing C) (p rest : Bytes)
      → IsForeign p
      → parse callback (record s { input = p ++ rest })
        ≡ parse callback (record s {
          input = rest;
          stats = count_discarded (count_version_error s.stats) (length p);
        })
  parse-foreign s p rest f =
      parse_refused s p rest (count_version_error s.stats) (foreign-is_partial p f)
        (advance_foreign (record s { input = p }) f) (omega (arith, f.long)) f.quiet

  pub parse-packet :
      (s : Parsing C) (k : Packet) (rest : Bytes)
      → IsPacket k
      → parse callback (record s { input = packet_bytes k ++ rest })
        ≡ parse callback (record s {
          input = rest;
          stats = count_frame s.stats;
          context = call callback (packet_frame k) s.context;
          emitted = s.emitted + 1;
        })
  parse-packet s k rest v =
      let p = packet_bytes k in
      let s0 = record s { input = p } in
      let goes = Headed-is_partial p (packet-Headed k v) in
      parse_step callback (more s0 rest) (is_partial-append callback p rest goes)
      ∙ ap (parse callback) (advance-more callback s0 rest goes)
      ∙ ap (λ t. parse callback (more t rest)) (advance_packet s0 k v refl)
