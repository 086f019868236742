-- ===== src/Protocol/Stream/Deliver.antt =====
-- A clean stream of frames, with noise in front.
use oomwoo_firmware.Prelude.{
  ◌+◌, ◌<◌, ◌≡◌, ◌≢◌, refl, sym, ap, ◌∙◌, List, [], ◌∷◌, ◌++◌, arith, length, All, Bytes, u32,
}
use oomwoo_firmware.Protocol.{magic_0}
use oomwoo_firmware.Protocol.Stream.{
  StreamDecoder, DecoderStats, count_discarded, Callback, call, start, feed_bytes,
}
use oomwoo_firmware.Protocol.Stream.Buffer.{IsValid, length-contents}
use oomwoo_firmware.Protocol.Stream.Reference.{Scan, rest, scan_bytes}
use oomwoo_firmware.Protocol.Stream.View.{view}
use oomwoo_firmware.Protocol.Stream.Refine.{feed_bytes-Shows}
use oomwoo_firmware.Protocol.Stream.Rounds.{scan_bytes-append}
use oomwoo_firmware.Protocol.Stream.Packets.{
  Packet, IsPacket, packet_frame, packets_bytes, delivered, deliver_all, skip_noise, scan_packets,
  scan_noise,
}

-- The callback's context after frames in order.
abbrev pub calls : {C : Type 0} → Callback C → C → List Packet → C
calls callback context [] = context
calls callback context (k ∷ ks) = calls callback (call callback (packet_frame k) context) ks

module _ {C : Type 0} (callback : Callback C) where
  deliver_all_lem :
      (ks : List Packet) (s : Scan C)
      → s.pending ≡ []
      → s.stats.frames < 4294967296
      → let t = deliver_all callback s ks in
        (t.pending ≡ [])
        × (t.context ≡ calls callback s.context ks)
        × (t.emitted ≡ s.emitted + length ks)
        × (t.stats ≡ record s.stats { frames = u32 (s.stats.frames + length ks) })
  deliver_all_lem [] s empty range =
      (empty, refl, omega arith, ap (λ k. record s.stats { frames = k }) (omega arith))
  deliver_all_lem (k ∷ ks) s empty range =
      let t = delivered callback s (packet_frame k) in
      let (gone, context, emitted, stats) = deliver_all_lem ks t refl (omega arith) in
      (
        gone,
        context,
        omega (arith, emitted),
        stats ∙ ap (λ n. record s.stats { frames = n }) (omega arith),
      )

  skip_noise_lem :
      (noise : Bytes) (s : Scan C)
      → s.pending ≡ []
      → s.stats.discarded_bytes < 4294967296
      → let t = skip_noise callback s noise in
        (t.pending ≡ [])
        × (t.context ≡ s.context)
        × (t.emitted ≡ s.emitted)
        × (t.stats
            ≡ record s.stats { discarded_bytes = u32 (s.stats.discarded_bytes + length noise) })
  skip_noise_lem [] s empty range =
      (empty, refl, refl, ap (λ k. record s.stats { discarded_bytes = k }) (omega arith))
  skip_noise_lem (x ∷ xs) s empty range =
      let t = rest (record s { stats = count_discarded s.stats 1 }) in
      let (gone, context, emitted, stats) = skip_noise_lem xs t empty (omega arith) in
      (
        gone,
        context,
        emitted,
        stats ∙ ap (λ n. record s.stats { discarded_bytes = n }) (omega arith),
      )

-- Noise without an `O`, then frames, fed to a decoder that holds nothing: the callback runs once for
-- each frame, in order, with the fields that were sent; the noise is counted as discarded, the
-- frames as frames, no other counter moves, and nothing is held at the end.
pub feed_packets :
    {C : Type 0} (callback : Callback C) (context : C) (d : StreamDecoder) (noise : Bytes)
    (ks : List Packet)
    → IsValid d
    → d.buffered_bytes ≡ 0
    → d.stats.frames < 4294967296
    → d.stats.discarded_bytes < 4294967296
    → All (λ x. x ≢ magic_0) noise
    → All IsPacket ks
    → let st = feed_bytes callback (start d context) (noise ++ packets_bytes ks) in
      (st.decoder.buffered_bytes ≡ 0)
      × (st.context ≡ calls callback context ks)
      × (st.emitted ≡ length ks)
      × (st.decoder.stats ≡ record d.stats {
        frames = u32 (d.stats.frames + length ks);
        discarded_bytes = u32 (d.stats.discarded_bytes + length noise);
      })
feed_packets callback context d noise ks v empty frames discarded quiet packets =
    let bytes = noise ++ packets_bytes ks in
    let st = feed_bytes callback (start d context) bytes in
    let w = feed_bytes-Shows callback (start d context) bytes v in
    let s = view (start d context) in
    let none_held : s.pending ≡ [] = rw empty in
    let (gone1, context1, emitted1, stats1) = skip_noise_lem callback noise s none_held discarded in
    let s1 = skip_noise callback s noise in
    let (gone2, context2, emitted2, stats2) =
      deliver_all_lem callback ks s1 gone1 (omega (arith, ap (λ t. t.frames) stats1, frames)) in
    let ran : view st ≡ deliver_all callback s1 ks =
      w.same
      ∙ scan_bytes-append callback s noise (packets_bytes ks)
      ∙ ap (λ t. scan_bytes callback t (packets_bytes ks))
          (scan_noise callback noise s quiet none_held)
      ∙ scan_packets callback ks s1 packets gone1 in
    (
      sym (length-contents st.decoder w.valid) ∙ ap length (ap (λ t. t.pending) ran ∙ gone2),
      ap (λ t. t.context) ran ∙ context2 ∙ ap (λ c. calls callback c ks) context1,
      ap (λ t. t.emitted) ran ∙ emitted2 ∙ omega (arith, emitted1),
      ap (λ t. t.stats) ran
          ∙ stats2
          ∙ ap {A = DecoderStats} (λ t. record t { frames = u32 (t.frames + length ks) }) stats1,
    )
