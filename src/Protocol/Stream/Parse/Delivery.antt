-- ===== src/Protocol/Stream/Parse/Delivery.antt =====
-- What the stream decoder delivers of a traffic: its frames, and the counts of the rest.
use oomwoo_firmware.Prelude.{
  ◌+◌, ◌≤◌, ◌≡◌, refl, sym, ap, ap₂, ◌∙◌, List, [], ◌∷◌, ◌++◌, length, append-nil, arith, u32, All,
}
use oomwoo_firmware.Protocol.Stream.{
  StreamDecoder, DecoderStats, count_discarded, count_frame, count_crc_error, count_version_error,
  Callback, call, start, feed_bytes,
}
use oomwoo_firmware.Protocol.Stream.Buffer.{length-contents}
use oomwoo_firmware.Protocol.Stream.View.{view}
use oomwoo_firmware.Protocol.Stream.Refine.{feed_bytes-Shows}
use oomwoo_firmware.Protocol.Stream.Loop.{Waits-short}
use oomwoo_firmware.Protocol.Stream.Ready.{IsReady}
use oomwoo_firmware.Protocol.Stream.Packets.{packet_frame, scan_packet}
use oomwoo_firmware.Protocol.Stream.Deliver.{calls}
use oomwoo_firmware.Protocol.Stream.Parse.{Parsing, is_partial, parse, parse_stop, parse_emitted}
use oomwoo_firmware.Protocol.Stream.Parse.Feed.{input_of, parse-scan_bytes}
use oomwoo_firmware.Protocol.Stream.Parse.Traffic.{
  Item, noise, damaged, foreign, packet, IsItem, item_bytes, traffic_bytes, packets, lost_bytes,
  damages, foreigners,
}
use oomwoo_firmware.Protocol.Stream.Reference.{Scan, scan_bytes}
use oomwoo_firmware.Protocol.Stream.Range.{InRange}
use oomwoo_firmware.Protocol.Stream.Rounds.{scan_bytes-append}
use oomwoo_firmware.Protocol.Stream.Parse.Remainder.{scan_bytes-is_partial}
use oomwoo_firmware.Protocol.Stream.Parse.Arrivals.{
  parse-quiet, parse-damaged, parse-foreign, parse-packet,
}

abbrev pub tally : DecoderStats → List Item → DecoderStats
tally s items = record s {
  frames = u32 (s.frames + length (packets items));
  discarded_bytes = u32 (s.discarded_bytes + lost_bytes items);
  crc_errors = u32 (s.crc_errors + damages items);
  version_errors = u32 (s.version_errors + foreigners items);
}

module _ {C : Type 0} (callback : Callback C) where
  abbrev arrived : Parsing C → List Item → Parsing C
  arrived s items = record {
    input = [];
    stats = tally s.stats items;
    context = calls callback s.context (packets items);
    emitted = s.emitted + length (packets items);
  }

  parse_traffic :
      (items : List Item) (s : Parsing C)
      → All IsItem items
      → InRange s.stats
      → parse callback (record s { input = traffic_bytes items }) ≡ arrived s items
  unfolding is_partial
  parse_traffic [] s v r =
      parse_stop callback (record s { input = [] }) refl
      ∙ ap₂ (λ t n. record { input = []; stats = t; context = s.context; emitted = n })
          (ground arith) (omega arith)
  parse_traffic (noise p ∷ items) s (vi, v) r =
      let rest = traffic_bytes items in
      ap (λ t. parse callback (record s { input = p ++ rest; stats = t }))
        {y = count_discarded s.stats 0} (ground arith)
      ∙ parse-quiet callback s p rest 0 vi
      ∙ parse_traffic items (record s { stats = count_discarded s.stats (0 + length p) }) v
          (omega arith)
      ∙ ap (λ t. record (arrived s items) { stats = t }) (ground arith)
  parse_traffic (damaged p ∷ items) s (vi, v) r =
      parse-damaged callback s p (traffic_bytes items) vi
      ∙ parse_traffic items
          (record s { stats = count_discarded (count_crc_error s.stats) (length p) }) v
          (omega arith)
      ∙ ap (λ t. record (arrived s items) { stats = t }) (ground arith)
  parse_traffic (foreign p ∷ items) s (vi, v) r =
      parse-foreign callback s p (traffic_bytes items) vi
      ∙ parse_traffic items
          (record s { stats = count_discarded (count_version_error s.stats) (length p) }) v
          (omega arith)
      ∙ ap (λ t. record (arrived s items) { stats = t }) (ground arith)
  parse_traffic (packet k ∷ items) s (vi, v) r =
      let next = record s {
        stats = count_frame s.stats;
        context = call callback (packet_frame k) s.context;
        emitted = s.emitted + 1;
      } in
      parse-packet callback s k (traffic_bytes items) vi
      ∙ parse_traffic items next v (omega arith)
      ∙ ap₂ (λ t n. record (arrived next items) { stats = t; emitted = n }) (ground arith)
          (omega arith)

  scan_junk :
      (item : Item) (s : Scan C)
      → IsItem item
      → s.pending ≡ []
      → InRange s.stats
      → packets (item ∷ []) ≡ []
      → input_of (scan_bytes callback s (item_bytes item)) ≡ arrived (input_of s) (item ∷ [])
  scan_junk item s v empty r none =
      let p = item_bytes item in
      let t = scan_bytes callback s p in
      let parsed : parse callback (input_of t) ≡ arrived (input_of s) (item ∷ []) =
        parse-scan_bytes callback s p (Waits-short s.pending (rw empty (omega arith)))
        ∙ ap (λ b. parse callback (record (input_of s) { input = b }))
            (rw empty (sym (append-nil p)))
        ∙ parse_traffic (item ∷ []) (input_of s) (v, tt) r in
      let emitted : t.emitted ≤ s.emitted =
        omega (
          arith,
          parse_emitted callback (input_of t),
          ap (λ u. u.emitted) parsed,
          ap length none,
        ) in
      sym (parse_stop callback (input_of t) (scan_bytes-is_partial callback s p empty emitted))
      ∙ parsed

  -- After each part of a traffic, the decoder holds nothing.
  scan_item :
      (item : Item) (s : Scan C)
      → IsItem item
      → s.pending ≡ []
      → InRange s.stats
      → input_of (scan_bytes callback s (item_bytes item)) ≡ arrived (input_of s) (item ∷ [])
  scan_item (packet k) s v empty r =
      ap input_of (scan_packet callback k s v empty)
      ∙ ap₂ (λ t n. record (arrived (input_of s) (packet k ∷ [])) { stats = t; emitted = n })
          (ground arith) (ground arith)
  scan_item (noise p) s v empty r = scan_junk (noise p) s v empty r refl
  scan_item (damaged p) s v empty r = scan_junk (damaged p) s v empty r refl
  scan_item (foreign p) s v empty r = scan_junk (foreign p) s v empty r refl

  arrived_cons :
      (item : Item) (items : List Item) (s : Parsing C)
      → InRange s.stats
      → arrived (arrived s (item ∷ [])) items ≡ arrived s (item ∷ items)
  arrived_cons (noise p) items s r =
      ap₂ (λ t n. record (arrived s items) { stats = t; emitted = n }) (ground arith) (ground arith)
  arrived_cons (damaged p) items s r =
      ap₂ (λ t n. record (arrived s items) { stats = t; emitted = n }) (ground arith) (ground arith)
  arrived_cons (foreign p) items s r =
      ap₂ (λ t n. record (arrived s items) { stats = t; emitted = n }) (ground arith) (ground arith)
  arrived_cons (packet k) items s r =
      ap₂ (λ t n. record (arrived s (packet k ∷ items)) { stats = t; emitted = n }) (ground arith)
        (ground arith)

  scan_traffic :
      (items : List Item) (s : Scan C)
      → All IsItem items
      → s.pending ≡ []
      → InRange s.stats
      → input_of (scan_bytes callback s (traffic_bytes items)) ≡ arrived (input_of s) items
  unfolding scan_bytes
  scan_traffic [] s v empty r =
      ap₂ (λ b t. record (input_of s) { input = b; stats = t; emitted = s.emitted }) empty
        (ground arith)
      ∙ ap (λ n. record (arrived (input_of s) []) { emitted = n }) (omega arith)
  scan_traffic (item ∷ items) s (vi, v) empty r =
      let next = scan_bytes callback s (item_bytes item) in
      let one = scan_item item s vi empty r in
      let counted : next.stats ≡ tally s.stats (item ∷ []) = ap (λ t. t.stats) one in
      ap input_of (scan_bytes-append callback s (item_bytes item) (traffic_bytes items))
      ∙ scan_traffic items next v (ap (λ t. t.input) one) (rw counted (omega arith))
      ∙ ap (λ t. arrived t items) one
      ∙ arrived_cons item items (input_of s) r

-- A traffic of frames, noise, frames with a wrong checksum and headers of another version, in any
-- order (the last two with nothing behind their first byte, and noise with nothing at all, that a
-- frame could begin with), fed to a ready decoder that holds nothing and whose counters are in range:
-- the callback runs once for each frame, in order, with the fields sent; every other byte is counted as
-- discarded, every damaged frame as a checksum error, every foreign header as a version error; no other
-- counter moves, and nothing is held at the end.
pub feed_traffic :
    {C : Type 0} (callback : Callback C) (context : C) (d : StreamDecoder) (items : List Item)
    → IsReady d
    → d.buffered_bytes ≡ 0
    → InRange d.stats
    → All IsItem items
    → let st = feed_bytes callback (start d context) (traffic_bytes items) in
      (st.decoder.buffered_bytes ≡ 0)
      × (st.context ≡ calls callback context (packets items))
      × (st.emitted ≡ length (packets items))
      × (st.decoder.stats ≡ tally d.stats items)
feed_traffic callback context d items r empty range v =
    let at = start d context in
    let st = feed_bytes callback at (traffic_bytes items) in
    let w = feed_bytes-Shows callback at (traffic_bytes items) r.valid in
    let ran : input_of (view st) ≡ arrived callback (input_of (view at)) items =
      ap input_of w.same ∙ scan_traffic callback items (view at) v (rw empty) range in
    (
      sym (length-contents st.decoder w.valid) ∙ ap (λ t. length t.input) ran,
      ap (λ t. t.context) ran,
      ap (λ t. t.emitted) ran ∙ omega arith,
      ap (λ t. t.stats) ran,
    )
