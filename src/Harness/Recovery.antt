-- ===== src/Harness/Recovery.antt =====
-- The harness after a pause on the line.
use mathlib.Core.Option.{some-injective}
use oomwoo_firmware.Prelude.{
  ℕ, ◌<◌, ◌≡◌, refl, sym, ap, ◌∙◌, subst, inl, inr, List, arith, length, All, Bytes, u16, u32,
}
use oomwoo_firmware.Protocol.Stream.Ready.{cleared-IsReady}
use oomwoo_firmware.Protocol.Stream.Parse.Traffic.{Item, IsItem, traffic_bytes, packets}
use oomwoo_firmware.Messages.Structs.{Punning}
use oomwoo_firmware.Ingress.{CpuIngress, IngressFed}
use oomwoo_firmware.Ingress.Feed.{fed_ingress, cpu_ingress_feed_lem}
use oomwoo_firmware.Ingress.Commands.{consume}
use oomwoo_firmware.Ingress.Sent.{Sent, IsSent, sent_packets, commands}
use oomwoo_firmware.Ingress.Traffic.{feed_sent}
use oomwoo_firmware.Identity.{Identity}
use oomwoo_firmware.Harness.{
  Device, Globals, Reading, setup, read_available, loop, framing_gap_ms, elapsed,
}
use oomwoo_firmware.Harness.Answers.{length-hello_frame, answers, consume-answers}
use oomwoo_firmware.Harness.Loop.{
  readings_bytes, read_available_lem, check_gap-device, loop-gap, setup_lem,
}
use oomwoo_firmware.Harness.Running.{IsRunning, loop-IsRunning}

module _ {W : Type 0} (serial_write : Bytes → W → W) (serial_begin : ℕ → W → W)
    (pun : Punning) where
  -- The globals that a setup and turns of the loop lead to, whatever was read and whenever.
  pub data Reachable : Globals W → Type 0 where
    started :
        (major minor build_id : ℕ) (before : Globals W)
        → length before.ingress.callback_context.tx_buffer ≡ 20
        → Reachable (setup serial_write serial_begin pun major minor build_id before)
    turned :
        {g : Globals W}
        → Reachable g
        → (readings : List Reading) (now : ℕ) → Reachable (loop pun g readings now)

  setup-IsRunning :
      (major minor build_id : ℕ) (before : Globals W)
      → length before.ingress.callback_context.tx_buffer ≡ 20
      → IsRunning serial_write pun
          (setup serial_write serial_begin pun major minor build_id before).ingress
  setup-IsRunning major minor build_id before sized =
      let first : Identity = record {
        firmware_major = u16 major;
        firmware_minor = u16 minor;
        build_id = u32 build_id;
        next_sequence = 0;
      } in
      subst (IsRunning serial_write pun)
        (sym (setup_lem serial_write serial_begin pun major minor build_id before sized))
        (record {
          handler = refl;
          device = record {
            identity = record {
              major16 = omega arith;
              minor16 = omega arith;
              build32 = omega arith;
              sequence16 = omega arith;
            };
            sized = length-hello_frame first;
          };
          ready = cleared-IsReady;
          ranged = tt;
          counts = omega arith;
          judged = omega arith;
        })

  Reachable-IsRunning : {g : Globals W} → Reachable g → IsRunning serial_write pun g.ingress
  Reachable-IsRunning (started major minor build_id before sized) =
      setup-IsRunning major minor build_id before sized
  Reachable-IsRunning (turned {g} r readings now) =
      loop-IsRunning serial_write pun g readings now (Reachable-IsRunning r)

  -- A turn that finds a running harness with nothing held.
  loop-traffic :
      (g : Globals W) (readings : List Reading) (now : ℕ) (items : List Item) (ss : List Sent)
      → IsRunning serial_write pun g.ingress
      → g.ingress.decoder.buffered_bytes ≡ 0
      → All IsItem items
      → All IsSent ss
      → packets items ≡ sent_packets ss
      → readings_bytes readings ≡ traffic_bytes items
      → (loop pun g readings now).ingress.callback_context
        ≡ answers serial_write g.ingress.callback_context (commands ss)
  unfolding loop
  loop-traffic g readings now items ss r empty v sent same_packets arrived =
      let bytes = traffic_bytes items in
      let (accepted, h, fed, consumed, counted, damage, nothing_held) =
        feed_sent pun g.ingress items ss r.ready empty r.counts r.judged v sent same_packets in
      let lem = cpu_ingress_feed_lem pun g.ingress bytes in
      let same : fed_ingress pun g.ingress bytes ≡ h =
        some-injective _ _ (sym (ap (λ (x : IngressFed (Device W)). x.ingress) lem) ∙ fed) in
      check_gap-device (read_available pun g readings) now
      ∙ ap (λ (x : CpuIngress (Device W)). x.callback_context)
          (read_available_lem pun readings g ∙ ap (fed_ingress pun g.ingress) arrived ∙ same)
      ∙ consumed
      ∙ ap (λ cb. consume cb g.ingress.callback_context (commands ss)) r.handler
      ∙ consume-answers serial_write pun (commands ss) g.ingress.callback_context r.device

  -- From a setup with a transmit buffer of 20 bytes on, and whatever was read before and whenever: if
  -- a turn of the loop ends more than 50 ms after the last byte, and the next turn reads encoded
  -- commands, frames of the wrong direction, of an unknown type or of a payload size that is not the
  -- type's, noise, frames with a wrong checksum and headers of another version, in any order (the last
  -- two with nothing behind their first byte, and noise with nothing at all, that a frame could begin
  -- with), the device has then answered each identify request among the commands, in order, by one
  -- hello with the next sequence number written to the serial port, and nothing else by anything.
  pub loop-recovers :
      (g : Globals W) (before readings : List Reading) (pause now : ℕ) (items : List Item)
      (ss : List Sent)
      → Reachable g
      → let quiet = loop pun g before pause in
        framing_gap_ms < elapsed pause quiet.last_rx_ms
        → All IsItem items
        → All IsSent ss
        → packets items ≡ sent_packets ss
        → readings_bytes readings ≡ traffic_bytes items
        → (loop pun quiet readings now).ingress.callback_context
          ≡ answers serial_write quiet.ingress.callback_context (commands ss)
  loop-recovers g before readings pause now items ss reach gap v sent same_packets arrived =
      let quiet = loop pun g before pause in
      loop-traffic quiet readings now items ss
        (loop-IsRunning serial_write pun g before pause (Reachable-IsRunning reach))
        (elim (loop-gap pun g before pause) [ inl e ↦ e | inr soon ↦ absurd (omega arith) ]) v sent
        same_packets arrived
