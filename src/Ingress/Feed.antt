-- ===== src/Ingress/Feed.antt =====
-- What a feed of the ingress does to its consumer and its counters.
use oomwoo_firmware.Prelude.{
  ℕ, ◌+◌, ◌%◌, ◌≡◌, refl, sym, ap, subst, some, arith, length, take_all, Bytes, IsBytes, u32,
}
use oomwoo_firmware.Protocol.{DecodedFrame}
use oomwoo_firmware.Protocol.Stream.{start, feed_bytes, stream_decoder_feed, Feeding}
use oomwoo_firmware.Protocol.Stream.Buffer.{IsValid, contents}
use oomwoo_firmware.Protocol.Stream.Refine.{feed_bytes-Shows}
use oomwoo_firmware.Protocol.Stream.Invariant.{Framed, feed_bytes-Holds}
use oomwoo_firmware.Messages.Structs.{Message, cleared_message, Punning}
use oomwoo_firmware.Ingress.{
  IngressResult, IngressStats, MessageCallback, CpuIngress, FeedContext, IngressFed, handle_result,
  handle_frame, count_rejection, cpu_ingress_feed,
}
use oomwoo_firmware.Ingress.Gate.{
  Gated, Verdict, accepted, wrong_direction, unknown_type, wrong_payload_length, value_out_of_range,
  validate_frame-Gated, validate_frame-Verdict,
}

module _ {S : Type 0} (pun : Punning) (g : CpuIngress S) (bytes : Bytes) where
  abbrev pub context : FeedContext S
  context = record { stats = g.stats; callback_context = g.callback_context; accepted = 0 }

  -- The stream decoder's part of a feed.
  abbrev pub running : Feeding (FeedContext S)
  running = feed_bytes (some (handle_frame pun g.callback)) (start g.decoder context) bytes

  abbrev pub fed_ingress : CpuIngress S
  fed_ingress = record g {
    decoder = running.decoder;
    stats = running.context.stats;
    callback_context = running.context.callback_context;
  }

  pub cpu_ingress_feed_lem :
      cpu_ingress_feed pun (some g) (some bytes) (length bytes)
      ≡ record { accepted = running.context.accepted; ingress = some fed_ingress }
  unfolding cpu_ingress_feed stream_decoder_feed
  cpu_ingress_feed_lem = rw (take_all (length bytes) bytes (omega arith))

-- The decoder of an ingress between two calls.
pub record IsSound {S : Type 0} (g : CpuIngress S) : Type 0 where
  pub valid : IsValid g.decoder
  pub ranged : IsBytes (contents g.decoder)

module _ {S : Type 0} (P : S → Type 0) (k : DecodedFrame → Message → S → S)
    (keeps : (f : DecodedFrame) (m : Message) (s : S) → Gated f m → P s → P (k f m s)) where
  handle_result-keeps :
      (f : DecodedFrame) (result : IngressResult) (m : Message) (feed : FeedContext S)
      → (result ≡ IngressResult.ok → Gated f m)
      → P feed.callback_context
      → P (handle_result (some k) f result m feed).callback_context
  unfolding handle_result
  handle_result-keeps f IngressResult.ok m feed gated p =
      keeps f m feed.callback_context (gated refl) p
  handle_result-keeps f _ m feed gated p = p

  handle_frame-keeps :
      (pun : Punning) (f : DecodedFrame) (feed : FeedContext S)
      → Framed f
      → P feed.callback_context
      → P (handle_frame pun (some k) f feed).callback_context
  unfolding handle_frame
  handle_frame-keeps pun f feed v p =
      handle_result-keeps f _ _ feed (validate_frame-Gated pun f cleared_message v) p

  -- Whatever the consumer keeps for every frame and message that pass the gate, a feed of any bytes
  -- keeps; so nothing else reaches the consumer. The ingress stays fit for the next feed.
  pub feed-keeps :
      (pun : Punning) (g : CpuIngress S) (bytes : Bytes)
      → g.callback ≡ some k
      → IsSound g
      → IsBytes bytes
      → P g.callback_context
      → (h : CpuIngress S) × ((cpu_ingress_feed pun (some g) (some bytes) (length bytes)).ingress
          ≡ some h)
        × P h.callback_context
        × IsSound h
  feed-keeps pun g bytes consumer sound b p =
      let step =
        λ (f : DecodedFrame) (n : ℕ) (c : FeedContext S) (v : Framed f) (q : P c.callback_context).
          subst (λ cb. P (handle_frame pun cb f c).callback_context) (sym consumer)
            (handle_frame-keeps pun f c v q) in
      let (ranged, kept) =
        feed_bytes-Holds (handle_frame pun g.callback)
          (λ n (c : FeedContext S). P c.callback_context) step g.decoder (context pun g bytes) bytes
          sound.valid sound.ranged b p in
      let w =
        feed_bytes-Shows (some (handle_frame pun g.callback))
          (start g.decoder (context pun g bytes)) bytes sound.valid in
      (
        fed_ingress pun g bytes,
        ap (λ x. x.ingress) (cpu_ingress_feed_lem pun g bytes),
        kept,
        record { valid = w.valid; ranged = ranged },
      )

-- All frames that an ingress has judged.
abbrev pub judged : IngressStats → ℕ
judged s =
    s.accepted_messages + s.wrong_direction + s.unknown_type + s.undefined_payload
    + s.wrong_payload_length + s.value_out_of_range + s.codec_errors

-- The counters in the course of a feed from `before` on, with `n` frames decoded.
record Counts {S : Type 0} (before : IngressStats) (n : ℕ) (c : FeedContext S) : Type 0 where
  total : judged c.stats % 4294967296 ≡ n % 4294967296
  taken :
      c.stats.accepted_messages % 4294967296 ≡ (before.accepted_messages + c.accepted) % 4294967296
  undefined : c.stats.undefined_payload ≡ before.undefined_payload
  codec : c.stats.codec_errors ≡ before.codec_errors

module _ {S : Type 0} (callback : MessageCallback S) (before : IngressStats) where
  handle_result-Counts :
      (f : DecodedFrame) (result : IngressResult) (m : Message) (n : ℕ) (c : FeedContext S)
      → Verdict result
      → Counts before n c
      → Counts before (u32 (n + 1)) (handle_result callback f result m c)
  unfolding handle_result count_rejection
  handle_result-Counts f _ m n c accepted h = record {
    total = omega (arith, h.total);
    taken = omega (arith, h.taken);
    undefined = h.undefined;
    codec = h.codec;
  }
  handle_result-Counts f _ m n c wrong_direction h = record {
    total = omega (arith, h.total);
    taken = h.taken;
    undefined = h.undefined;
    codec = h.codec;
  }
  handle_result-Counts f _ m n c unknown_type h = record {
    total = omega (arith, h.total);
    taken = h.taken;
    undefined = h.undefined;
    codec = h.codec;
  }
  handle_result-Counts f _ m n c wrong_payload_length h = record {
    total = omega (arith, h.total);
    taken = h.taken;
    undefined = h.undefined;
    codec = h.codec;
  }
  handle_result-Counts f _ m n c value_out_of_range h = record {
    total = omega (arith, h.total);
    taken = h.taken;
    undefined = h.undefined;
    codec = h.codec;
  }

  handle_frame-Counts :
      (pun : Punning) (f : DecodedFrame) (n : ℕ) (c : FeedContext S)
      → Framed f
      → Counts before n c
      → Counts before (u32 (n + 1)) (handle_frame pun callback f c)
  unfolding handle_frame
  handle_frame-Counts pun f n c v h =
      handle_result-Counts f _ _ n c (validate_frame-Verdict pun f cleared_message v) h

-- A feed of any bytes keeps the counters true: if the accepted and the rejected frames added up to
-- the decoder's count of frames before, they do afterwards; the returned number is what the count of
-- accepted messages grew by (modulo 2 ^ 32); and undefined payloads and codec errors are not counted.
pub feed-counts :
    {S : Type 0} (pun : Punning) (g : CpuIngress S) (bytes : Bytes)
    → IsSound g
    → IsBytes bytes
    → judged g.stats % 4294967296 ≡ g.decoder.stats.frames % 4294967296
    → let fed = cpu_ingress_feed pun (some g) (some bytes) (length bytes) in
      (h : CpuIngress S) × (fed.ingress ≡ some h)
      × (judged h.stats % 4294967296 ≡ h.decoder.stats.frames % 4294967296)
      × (h.stats.accepted_messages % 4294967296
          ≡ (g.stats.accepted_messages + fed.accepted) % 4294967296)
      × (h.stats.undefined_payload ≡ g.stats.undefined_payload)
      × (h.stats.codec_errors ≡ g.stats.codec_errors)
feed-counts {S} pun g bytes sound b agree =
    let first : Counts g.stats g.decoder.stats.frames (context pun g bytes) = record {
      total = agree;
      taken = omega arith;
      undefined = refl;
      codec = refl;
    } in
    let (ranged, kept) =
      feed_bytes-Holds (handle_frame pun g.callback) (Counts g.stats)
        (handle_frame-Counts g.callback g.stats pun) g.decoder (context pun g bytes) bytes
        sound.valid sound.ranged b first in
    let lem = cpu_ingress_feed_lem pun g bytes in
    (
      fed_ingress pun g bytes,
      ap (λ x. x.ingress) lem,
      kept.total,
      omega (arith, kept.taken, ap (λ (x : IngressFed S). x.accepted) lem),
      kept.undefined,
      kept.codec,
    )
