-- ===== src/Ingress/Chunks.antt =====
-- How the bytes are split into feeds of the ingress does not matter.
use oomwoo_firmware.Prelude.{ℕ, ◌+◌, ◌≡◌, refl, sym, ap, ap₂, ◌∙◌, some, ◌++◌, arith, length, Bytes}
use oomwoo_firmware.Protocol.{DecodedFrame}
use oomwoo_firmware.Protocol.Stream.{StreamDecoder, start, feed_bytes}
use oomwoo_firmware.Protocol.Stream.Chunks.{feed_bytes-append, restart}
use oomwoo_firmware.Protocol.Stream.Simulation.{mapped, feed_bytes-mapped}
use oomwoo_firmware.Messages.Structs.{Message, Punning}
use oomwoo_firmware.Ingress.{
  IngressResult, MessageCallback, CpuIngress, FeedContext, handle_result, handle_frame,
  cpu_ingress_feed,
}
use oomwoo_firmware.Ingress.Feed.{context, running, fed_ingress, cpu_ingress_feed_lem}

module _ {S : Type 0} (pun : Punning) (callback : MessageCallback S) (a : ℕ) where
  -- The same context with `a` messages more accepted.
  abbrev more : FeedContext S → FeedContext S
  more c = record c { accepted = a + c.accepted }

  handle_result-more :
      (f : DecodedFrame) (result : IngressResult) (m : Message) (c : FeedContext S)
      → more (handle_result callback f result m c) ≡ handle_result callback f result m (more c)
  unfolding handle_result
  handle_result-more f IngressResult.ok m c = ground arith
  handle_result-more f _ m c = refl

  handle_frame-more :
      (f : DecodedFrame) (c : FeedContext S)
      → more (handle_frame pun callback f c) ≡ handle_frame pun callback f (more c)
  unfolding handle_frame
  handle_frame-more f c = handle_result-more f _ _ c

-- Two feeds, one after the other, do to the ingress and to its consumer what one feed of both inputs
-- does, and together return as many accepted messages.
pub cpu_ingress_feed-append :
    {S : Type 0} (pun : Punning) (g : CpuIngress S) (xs ys : Bytes)
    → let feed = cpu_ingress_feed {S = S} pun in
      let whole = feed (some g) (some (xs ++ ys)) (length (xs ++ ys)) in
      let first = feed (some g) (some xs) (length xs) in
      let second = feed first.ingress (some ys) (length ys) in
      (whole.ingress ≡ second.ingress) × (whole.accepted ≡ first.accepted + second.accepted)
cpu_ingress_feed-append {S} pun g xs ys =
    let cb = handle_frame pun g.callback in
    let st = running pun g xs in
    let g1 = fed_ingress pun g xs in
    let a = st.context.accepted in
    let whole = running pun g (xs ++ ys) in
    let second = running pun g1 ys in
    let joined : whole ≡ feed_bytes (some cb) st ys =
      feed_bytes-append (some cb) xs ys (start g.decoder (context pun g xs)) in
    let (decoder, after, emitted) = restart (some cb) st ys in
    let fresh : start st.decoder st.context
        ≡ mapped cb cb (more pun g.callback a) (handle_frame-more pun g.callback a)
            (start g1.decoder (context pun g1 ys)) =
      ap (λ (n : ℕ). start st.decoder (record st.context { accepted = n })) {y = a + 0}
        (omega arith) in
    let moved : feed_bytes (some cb) (start st.decoder st.context) ys
        ≡ mapped cb cb (more pun g.callback a) (handle_frame-more pun g.callback a) second =
      ap (λ t. feed_bytes (some cb) t ys) fresh
      ∙ sym (
          feed_bytes-mapped cb cb (more pun g.callback a) (handle_frame-more pun g.callback a) ys
            (start g1.decoder (context pun g1 ys))) in
    let same_decoder : whole.decoder ≡ second.decoder =
      ap (λ t. t.decoder) joined ∙ decoder ∙ ap (λ t. t.decoder) moved in
    let same_context : whole.context ≡ more pun g.callback a second.context =
      ap (λ t. t.context) joined ∙ after ∙ ap (λ t. t.context) moved in
    rw
      (
        cpu_ingress_feed_lem pun g (xs ++ ys),
        cpu_ingress_feed_lem pun g xs,
        cpu_ingress_feed_lem pun g1 ys,
      )
      (
        ap₂
            (λ (d : StreamDecoder) (c : FeedContext S).
              some
                (record g { decoder = d; stats = c.stats; callback_context = c.callback_context }))
            same_decoder same_context,
        ap (λ (c : FeedContext S). c.accepted) same_context,
      )
