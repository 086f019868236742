-- ===== src/Harness/Loop.antt =====
-- The harness from its start on, and its loop over what the serial port delivers.
use mathlib.Core.Option.{some-injective}
use oomwoo_firmware.Prelude.{
  ℕ, ◌≤◌, ◌<◌, ◌≡◌, ◌≢◌, ◌⊎◌, refl, sym, ap, ◌∙◌, Option, some, List, [], ◌∷◌, ◌++◌, arith, length,
  All, Bytes, u8, u16, u32,
}
use oomwoo_firmware.Prelude.Int.{ℤ, pos, negsuc}
use oomwoo_firmware.Protocol.{magic_0}
use oomwoo_firmware.Protocol.Stream.{
  feed_bytes, cleared_decoder, stream_decoder_init, stream_decoder_reset_incomplete,
}
use oomwoo_firmware.Protocol.Stream.Buffer.{IsValid}
use oomwoo_firmware.Protocol.Stream.Packets.{packets_bytes}
use oomwoo_firmware.Messages.Structs.{Punning}
use oomwoo_firmware.Ingress.{
  CpuIngress, IngressFed, cleared_stats, cpu_ingress_init, cpu_ingress_feed,
  cpu_ingress_reset_incomplete,
}
use oomwoo_firmware.Ingress.Feed.{fed_ingress, cpu_ingress_feed_lem}
use oomwoo_firmware.Ingress.Chunks.{cpu_ingress_feed-append}
use oomwoo_firmware.Ingress.Commands.{Command, IsCommand, command_packets, consume, feed_commands}
use oomwoo_firmware.Identity.{Identity, identity_init}
use oomwoo_firmware.Identity.Hello.{hello_frame}
use oomwoo_firmware.Harness.{
  Device, Globals, Reading, ingress_or, handle_message, setup, read_value, read_available,
  framing_gap_ms, elapsed, check_gap, loop,
}
use oomwoo_firmware.Harness.Answers.{IsDevice, send_hello_lem, answers, consume-answers}

-- The bytes among the readings.
abbrev pub value_bytes : ℤ → Bytes → Bytes
value_bytes (pos n) rest = u8 n ∷ rest
value_bytes (negsuc n) rest = rest

abbrev pub readings_bytes : List Reading → Bytes
readings_bytes [] = []
readings_bytes (r ∷ rest) = value_bytes r.value (readings_bytes rest)

module _ {W : Type 0} (pun : Punning) where
  fed_nothing : (g : CpuIngress (Device W)) → fed_ingress pun g [] ≡ g
  unfolding feed_bytes
  fed_nothing g = refl

  fed_more :
      (g : CpuIngress (Device W)) (xs ys : Bytes)
      → fed_ingress pun (fed_ingress pun g xs) ys ≡ fed_ingress pun g (xs ++ ys)
  fed_more g xs ys =
      let whole = cpu_ingress_feed_lem pun g (xs ++ ys) in
      let first = cpu_ingress_feed_lem pun g xs in
      let second = cpu_ingress_feed_lem pun (fed_ingress pun g xs) ys in
      some-injective _ _ (
        sym (ap (λ (x : IngressFed (Device W)). x.ingress) second)
        ∙ ap
            (λ (q : Option (CpuIngress (Device W))).
              (cpu_ingress_feed pun q (some ys) (length ys)).ingress)
            (sym (ap (λ (x : IngressFed (Device W)). x.ingress) first))
        ∙ sym (cpu_ingress_feed-append pun g xs ys).0
        ∙ ap (λ (x : IngressFed (Device W)). x.ingress) whole)

  read_value_lem :
      (g : Globals W) (value : ℤ) (now : ℕ) (rest : Bytes)
      → fed_ingress pun (read_value pun g value now).ingress rest
        ≡ fed_ingress pun g.ingress (value_bytes value rest)
  read_value_lem g (negsuc n) now rest = refl
  read_value_lem g (pos n) now rest =
      ap (λ (x : IngressFed (Device W)). fed_ingress pun (ingress_or g.ingress x.ingress) rest)
        (cpu_ingress_feed_lem pun g.ingress (u8 n ∷ []))
      ∙ fed_more g.ingress (u8 n ∷ []) rest

  -- Reading byte by byte is one feed of all bytes.
  pub read_available_lem :
      (readings : List Reading) (g : Globals W)
      → (read_available pun g readings).ingress
        ≡ fed_ingress pun g.ingress (readings_bytes readings)
  unfolding read_available
  read_available_lem [] g = sym (fed_nothing g.ingress)
  read_available_lem (r ∷ rest) g =
      read_available_lem rest (read_value pun g r.value r.now)
      ∙ read_value_lem g r.value r.now (readings_bytes rest)

pub check_gap-device :
    {W : Type 0} (g : Globals W) (now : ℕ)
    → (check_gap g now).ingress.callback_context ≡ g.ingress.callback_context
unfolding check_gap cpu_ingress_reset_incomplete
check_gap-device g now = ground arith

pub check_gap-last_rx_ms :
    {W : Type 0} (g : Globals W) (now : ℕ) → (check_gap g now).last_rx_ms ≡ g.last_rx_ms
unfolding check_gap
check_gap-last_rx_ms g now = ground arith

-- After a loop that reads noise without an `O` and then encoded commands, byte by byte and at any
-- times, with an ingress that calls the harness's handler, whose decoder has a valid array and holds
-- nothing and whose counters are in range, and with a device in range: the device has answered each
-- identify request among the commands, in order, by one hello with the next sequence number written
-- to the serial port, and no other command by anything.
pub loop-answers :
    {W : Type 0} (serial_write : Bytes → W → W) (pun : Punning) (g : Globals W)
    (readings : List Reading) (now : ℕ) (noise : Bytes) (cs : List Command)
    → g.ingress.callback ≡ some (handle_message serial_write pun)
    → IsDevice g.ingress.callback_context
    → IsValid g.ingress.decoder
    → g.ingress.decoder.buffered_bytes ≡ 0
    → g.ingress.decoder.stats.frames < 4294967296
    → g.ingress.decoder.stats.discarded_bytes < 4294967296
    → g.ingress.stats.accepted_messages < 4294967296
    → All (λ x. x ≢ magic_0) noise
    → All IsCommand cs
    → readings_bytes readings ≡ noise ++ packets_bytes (command_packets cs)
    → (loop pun g readings now).ingress.callback_context
      ≡ answers serial_write g.ingress.callback_context cs
unfolding loop
loop-answers {W} serial_write pun g readings now noise cs handler dev v empty frames discarded taken
      quiet commands arrived =
    let bytes = noise ++ packets_bytes (command_packets cs) in
    let (accepted, h, fed, consumed, counted, nothing_held) =
      feed_commands pun g.ingress noise cs v empty frames discarded taken quiet commands in
    let lem = cpu_ingress_feed_lem pun g.ingress bytes in
    let same : fed_ingress pun g.ingress bytes ≡ h =
      some-injective _ _ (sym (ap (λ (x : IngressFed (Device W)). x.ingress) lem) ∙ fed) in
    check_gap-device (read_available pun g readings) now
    ∙ ap (λ (x : CpuIngress (Device W)). x.callback_context)
        (read_available_lem pun readings g ∙ ap (fed_ingress pun g.ingress) arrived ∙ same)
    ∙ consumed
    ∙ ap (λ cb. consume cb g.ingress.callback_context cs) handler
    ∙ consume-answers serial_write pun cs g.ingress.callback_context dev

-- After a loop, a partial frame is still held only if the last byte is at most 50 ms old.
pub loop-gap :
    {W : Type 0} (pun : Punning) (g : Globals W) (readings : List Reading) (now : ℕ)
    → let after = loop pun g readings now in
      (after.ingress.decoder.buffered_bytes ≡ 0) ⊎ (elapsed now after.last_rx_ms ≤ framing_gap_ms)
unfolding loop check_gap cpu_ingress_reset_incomplete stream_decoder_reset_incomplete
loop-gap pun g readings now = ground arith

-- After the setup with a transmit buffer of 20 bytes, the serial port was opened at 115200 baud and
-- got one hello of the version and build numbers with sequence number 0; the next has number 1; the
-- ingress holds nothing, all its counters are zero, and it calls the harness's handler.
pub setup_lem :
    {W : Type 0} (serial_write : Bytes → W → W) (serial_begin : ℕ → W → W) (pun : Punning)
    (major minor build_id : ℕ) (before : Globals W)
    → length before.ingress.callback_context.tx_buffer ≡ 20
    → let first : Identity = record {
      firmware_major = u16 major;
      firmware_minor = u16 minor;
      build_id = u32 build_id;
      next_sequence = 0;
    } in
      (setup serial_write serial_begin pun major minor build_id before).ingress ≡ record {
        decoder = cleared_decoder;
        stats = cleared_stats;
        callback = some (handle_message serial_write pun);
        callback_context = record {
          identity = record first { next_sequence = 1 };
          tx_buffer = hello_frame first;
          serial =
              serial_write
                (hello_frame first)
                (serial_begin 115200 before.ingress.callback_context.serial);
        };
      }
unfolding setup cpu_ingress_init stream_decoder_init identity_init
setup_lem {W} serial_write serial_begin pun major minor build_id before sized =
    let first : Identity = record {
      firmware_major = u16 major;
      firmware_minor = u16 minor;
      build_id = u32 build_id;
      next_sequence = 0;
    } in
    let opened : Device W = record {
      identity = first;
      tx_buffer = before.ingress.callback_context.tx_buffer;
      serial = serial_begin 115200 before.ingress.callback_context.serial;
    } in
    let v : IsDevice opened = record {
      identity = record {
        major16 = omega arith;
        minor16 = omega arith;
        build32 = omega arith;
        sequence16 = omega arith;
      };
      sized = sized;
    } in
    ap
      (λ (d : Device W). record {
        decoder = cleared_decoder;
        stats = cleared_stats;
        callback = some (handle_message serial_write pun);
        callback_context = d;
      })
      (send_hello_lem serial_write pun opened v)
