-- ===== src/Harness/Running.antt =====
-- What holds of the harness from its setup on, whatever its serial port delivers.
use oomwoo_firmware.Prelude.{
  ℕ, ◌≡◌, sym, subst, some, List, [], ◌∷◌, arith, Bytes, IsBytes, ◌==◌, if_case, Bool-cases, inl,
  inr,
}
use oomwoo_firmware.Prelude.Int.{ℤ, pos, negsuc}
use oomwoo_firmware.Protocol.{DecodedFrame}
use oomwoo_firmware.Protocol.Stream.{start, stream_decoder_reset_incomplete}
use oomwoo_firmware.Protocol.Stream.Buffer.{contents}
use oomwoo_firmware.Protocol.Stream.Loop.{Waits-short}
use oomwoo_firmware.Protocol.Stream.Ready.{IsReady, feed_bytes-IsReady}
use oomwoo_firmware.Protocol.Stream.Range.{InRange, feed_bytes-InRange}
use oomwoo_firmware.Protocol.Stream.Invariant.{Framed, feed_bytes-Holds}
use oomwoo_firmware.Messages.Structs.{Message, Punning}
use oomwoo_firmware.Ingress.{
  IngressStats, IngressResult, CpuIngress, FeedContext, handle_result, handle_frame,
  count_rejection, cpu_ingress_reset_incomplete,
}
use oomwoo_firmware.Ingress.Feed.{context, fed_ingress}
use oomwoo_firmware.Ingress.Sent.{IsCounting}
use oomwoo_firmware.Harness.{
  ingress_or, Device, Globals, Reading, handle_message, read_available, check_gap, loop,
}
use oomwoo_firmware.Harness.Answers.{IsDevice, handle_message_lem, answer-IsDevice}
use oomwoo_firmware.Harness.Loop.{value_bytes, readings_bytes, read_available_lem}

value-IsBytes : (v : ℤ) (rest : Bytes) → IsBytes rest → IsBytes (value_bytes v rest)
value-IsBytes (pos n) rest h = (omega arith, h)
value-IsBytes (negsuc n) rest h = h

readings-IsBytes : (readings : List Reading) → IsBytes (readings_bytes readings)
readings-IsBytes [] = tt
readings-IsBytes (r ∷ rest) = value-IsBytes r.value (readings_bytes rest) (readings-IsBytes rest)

module _ {W : Type 0} (serial_write : Bytes → W → W) (pun : Punning) where
  -- The ingress of the harness between two turns of its loop.
  pub record IsRunning (g : CpuIngress (Device W)) : Type 0 where
    pub handler : g.callback ≡ some (handle_message serial_write pun)
    pub device : IsDevice g.callback_context
    pub ready : IsReady g.decoder
    pub ranged : IsBytes (contents g.decoder)
    pub counts : InRange g.decoder.stats
    pub judged : IsCounting g.stats

  -- What the handler's frames keep.
  record Keeps (c : FeedContext (Device W)) : Type 0 where
    device : IsDevice c.callback_context
    judged : IsCounting c.stats

  count_rejection-IsCounting :
      (t : IngressStats) (result : IngressResult)
      → IsCounting t
      → IsCounting (count_rejection t result)
  unfolding count_rejection
  count_rejection-IsCounting t IngressResult.ok r = r
  count_rejection-IsCounting t _ r = omega arith

  handle_result-Keeps :
      (f : DecodedFrame) (result : IngressResult) (m : Message) (c : FeedContext (Device W))
      → Keeps c
      → Keeps (handle_result (some (handle_message serial_write pun)) f result m c)
  unfolding handle_result
  handle_result-Keeps f IngressResult.ok m c k = record {
    device =
        subst IsDevice (sym (handle_message_lem serial_write pun f m c.callback_context k.device))
          (answer-IsDevice serial_write c.callback_context m k.device);
    judged = omega (arith, k.judged);
  }
  handle_result-Keeps f _ m c k = record {
    device = k.device;
    judged = count_rejection-IsCounting c.stats _ k.judged;
  }

  handle_frame-Keeps :
      (g : CpuIngress (Device W)) (f : DecodedFrame) (c : FeedContext (Device W))
      → g.callback ≡ some (handle_message serial_write pun)
      → Keeps c
      → Keeps (handle_frame pun g.callback f c)
  unfolding handle_frame
  handle_frame-Keeps g f c handler k =
      subst (λ cb. Keeps (handle_frame pun cb f c)) (sym handler) (handle_result-Keeps f _ _ c k)

  -- A feed of bytes keeps the harness running.
  pub fed-IsRunning :
      (g : CpuIngress (Device W)) (bytes : Bytes)
      → IsBytes bytes
      → IsRunning g
      → IsRunning (fed_ingress pun g bytes)
  fed-IsRunning g bytes b r =
      let callback = handle_frame pun g.callback in
      let at = start g.decoder (context pun g bytes) in
      let (ranged, kept) =
        feed_bytes-Holds callback (λ n (c : FeedContext (Device W)). Keeps c)
          (λ (f : DecodedFrame) (n : ℕ) (c : FeedContext (Device W)) (v : Framed f) (k : Keeps c).
            handle_frame-Keeps g f c r.handler k)
          g.decoder (context pun g bytes) bytes r.ready.valid r.ranged b
          (record { device = r.device; judged = r.judged }) in
      record {
        handler = r.handler;
        device = kept.device;
        ready = feed_bytes-IsReady (some callback) at bytes r.ready;
        ranged = ranged;
        counts = feed_bytes-InRange (some callback) at bytes r.ready.valid r.counts;
        judged = kept.judged;
      }

  reset-IsRunning :
      (g : CpuIngress (Device W))
      → IsRunning g
      → IsRunning (ingress_or g (cpu_ingress_reset_incomplete (some g)))
  unfolding cpu_ingress_reset_incomplete stream_decoder_reset_incomplete
  reset-IsRunning g r = elim (Bool-cases (g.decoder.buffered_bytes == 0)) [
    | inl empty ↦ rw empty r
    | inr held ↦ rw held (record {
      handler = r.handler;
      device = r.device;
      ready = record {
        valid = record { whole = r.ready.valid.whole; fits = omega arith };
        waits = Waits-short [] (omega arith);
      };
      ranged = tt;
      counts = omega (arith, r.counts);
      judged = r.judged;
    })
  ]

  check_gap-IsRunning :
      (g : Globals W) (now : ℕ) → IsRunning g.ingress → IsRunning (check_gap g now).ingress
  unfolding check_gap
  check_gap-IsRunning g now r =
      if_case (λ (h : Globals W). IsRunning h.ingress) _ (λ late. reset-IsRunning g.ingress r)
        (λ soon. r)

  -- A turn of the loop keeps the harness running, whatever it reads and whenever.
  pub loop-IsRunning :
      (g : Globals W) (readings : List Reading) (now : ℕ)
      → IsRunning g.ingress
      → IsRunning (loop pun g readings now).ingress
  unfolding loop
  loop-IsRunning g readings now r = check_gap-IsRunning (read_available pun g readings) now (
      subst IsRunning (sym (read_available_lem pun readings g))
        (fed-IsRunning g.ingress (readings_bytes readings) (readings-IsBytes readings) r))
