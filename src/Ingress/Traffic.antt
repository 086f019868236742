-- ===== src/Ingress/Traffic.antt =====
-- What an ingress makes of a traffic: commands, frames that it refuses, and damage.
use oomwoo_firmware.Prelude.{◌≡◌, ap, ◌∙◌, some, List, arith, length, All}
use oomwoo_firmware.Protocol.Stream.Ready.{IsReady}
use oomwoo_firmware.Protocol.Stream.Range.{InRange}
use oomwoo_firmware.Protocol.Stream.Deliver.{calls}
use oomwoo_firmware.Protocol.Stream.Parse.Traffic.{Item, IsItem, traffic_bytes, packets}
use oomwoo_firmware.Protocol.Stream.Parse.Delivery.{tally, feed_traffic}
use oomwoo_firmware.Messages.Structs.{Punning}
use oomwoo_firmware.Ingress.{CpuIngress, FeedContext, IngressFed, handle_frame, cpu_ingress_feed}
use oomwoo_firmware.Ingress.Feed.{context, fed_ingress, cpu_ingress_feed_lem}
use oomwoo_firmware.Ingress.Commands.{consume}
use oomwoo_firmware.Ingress.Sent.{
  Sent, IsSent, IsCounting, sent_packets, commands, judged, calls_sent,
}

-- A traffic whose frames are commands and frames of the wrong direction, of an unknown type or of the
-- wrong size, fed to an ingress whose decoder is ready and holds nothing and whose counters are in
-- range: the consumer is called once for each command, in order, with the frame and the message that
-- were sent, and for nothing else; the returned number is that of the commands; each refused frame is
-- counted under its reason, the damage by the decoder, and nothing is held.
pub feed_sent :
    {S : Type 0} (pun : Punning) (g : CpuIngress S) (items : List Item) (ss : List Sent)
    → IsReady g.decoder
    → g.decoder.buffered_bytes ≡ 0
    → InRange g.decoder.stats
    → IsCounting g.stats
    → All IsItem items
    → All IsSent ss
    → packets items ≡ sent_packets ss
    → let bytes = traffic_bytes items in
      let fed = cpu_ingress_feed pun (some g) (some bytes) (length bytes) in
      (fed.accepted ≡ length (commands ss))
      × (h : CpuIngress S) × (fed.ingress ≡ some h)
      × (h.callback_context ≡ consume g.callback g.callback_context (commands ss))
      × (h.stats ≡ judged g.stats ss)
      × (h.decoder.stats ≡ tally g.decoder.stats items)
      × (h.decoder.buffered_bytes ≡ 0)
feed_sent {S} pun g items ss ready empty range counting v sent same =
    let bytes = traffic_bytes items in
    let handler = some (handle_frame pun g.callback) in
    let (none_held, ran, emitted, stats) =
      feed_traffic handler (context pun g bytes) g.decoder items ready empty range v in
    let after =
      ran
      ∙ ap (calls handler (context pun g bytes)) same
      ∙ calls_sent pun g.callback ss (context pun g bytes) sent counting in
    let lem = cpu_ingress_feed_lem pun g bytes in
    (
      ap (λ (x : IngressFed S). x.accepted) lem
          ∙ ap (λ (c : FeedContext S). c.accepted) after
          ∙ omega arith,
      fed_ingress pun g bytes,
      ap (λ (x : IngressFed S). x.ingress) lem,
      ap (λ (c : FeedContext S). c.callback_context) after,
      ap (λ (c : FeedContext S). c.stats) after,
      stats,
      none_held,
    )
