-- ===== src/Ingress/Commands.antt =====
-- Commands from the CPU's encoder to the MCU's consumer.
use oomwoo_firmware.Prelude.{
  ℕ, ◌+◌, ◌≤◌, ◌<◌, ◌≡◌, ◌≢◌, ◌⊎◌, sym, ap, ap₂, ◌∙◌, inl, inr, some, List, [], ◌∷◌, ◌++◌,
  append-nil, arith, length, All, Bytes, IsU16, u32,
}
use oomwoo_firmware.Protocol.{magic_0, max_payload_size}
use oomwoo_firmware.Protocol.Stream.Buffer.{IsValid}
use oomwoo_firmware.Protocol.Stream.Packets.{Packet, IsPacket, packet_frame, packets_bytes}
use oomwoo_firmware.Protocol.Stream.Deliver.{calls, feed_packets}
use oomwoo_firmware.Messages.{MessageType, code, Direction, message_direction, MessageResult}
use oomwoo_firmware.Messages.Structs.{Payload, Message, cleared_message, Punning}
use oomwoo_firmware.Messages.Layout.{member_bytes, Stores}
use oomwoo_firmware.Messages.Validate.Ranges.{InRange, IsMessage}
use oomwoo_firmware.Messages.Decode.{decode_payload}
use oomwoo_firmware.Messages.RoundTrip.{decode_payload_bytes}
use oomwoo_firmware.Ingress.{
  IngressResult, MessageCallback, CpuIngress, FeedContext, IngressFed, handle_result, handle_frame,
  call_consumer, validate_frame, validate_directed, cpu_ingress_feed,
}
use oomwoo_firmware.Ingress.Feed.{context, fed_ingress, cpu_ingress_feed_lem}

-- A message with the fields of the frame that carries it.
pub record Command : Type 0 where
  pub flags : ℕ
  pub sequence : ℕ
  pub message : Message

-- The MCU takes this message.
pub record IsCommand (c : Command) : Type 0 where
  pub sequence16 : IsU16 c.sequence
  pub message : IsMessage c.message
  pub range : InRange c.message.payload
  pub direction :
      (message_direction c.message.type ≡ Direction.cpu_to_mcu)
      ⊎ (message_direction c.message.type ≡ Direction.both)

abbrev pub command_packet : Command → Packet
command_packet c = record {
  flags = c.flags;
  sequence = c.sequence;
  message_type = c.message.type;
  payload = member_bytes c.message.payload;
}

abbrev pub command_packets : List Command → List Packet
command_packets [] = []
command_packets (c ∷ cs) = command_packet c ∷ command_packets cs

code-IsU16 : (k : MessageType) → IsU16 (code k)
code-IsU16 k = ground arith

length-Stores :
    (k : MessageType) (p : Payload) → Stores k p → length (member_bytes p) ≤ max_payload_size
length-Stores _ _ Stores.identify_request = omega arith
length-Stores _ _ (Stores.heartbeat v _ _) = omega arith
length-Stores _ _ (Stores.estop_set v _ _) = omega arith
length-Stores _ _ (Stores.clear_latched_fault v _) = omega arith
length-Stores _ _ (Stores.drive_setpoint v _ _ _) = omega arith
length-Stores _ _ (Stores.cleaning_motors_set v _ _ _ _) = omega arith
length-Stores _ _ (Stores.lidar_motor_set v _) = omega arith
length-Stores _ _ (Stores.led_set v _ _ _) = omega arith
length-Stores _ _ (Stores.ack v _ _) = omega arith
length-Stores _ _ (Stores.nack v _ _) = omega arith
length-Stores _ _ (Stores.mcu_hello v _ _ _) = omega arith
length-Stores _ _ (Stores.fast_telemetry v _ _ _ _ _ _ _ _ _) = omega arith
length-Stores _ _ (Stores.safety_event v _ _ _) = omega arith
length-Stores _ _ (Stores.safety_state v _ _ _) = omega arith

pub command-IsPacket : (c : Command) → IsCommand c → IsPacket (command_packet c)
command-IsPacket c v = record {
  sequence16 = v.sequence16;
  type16 = rw v.message.typed (code-IsU16 v.message.kind);
  small = length-Stores v.message.kind c.message.payload v.message.stores;
}

commands-IsPacket : (cs : List Command) → All IsCommand cs → All IsPacket (command_packets cs)
commands-IsPacket [] h = tt
commands-IsPacket (c ∷ cs) h = (command-IsPacket c h.0, commands-IsPacket cs h.1)

-- The consumer's context after commands in order.
abbrev pub consume : {S : Type 0} → MessageCallback S → S → List Command → S
consume callback s [] = s
consume callback s (c ∷ cs) =
    consume callback (call_consumer callback (packet_frame (command_packet c)) c.message s) cs

module _ {S : Type 0} (pun : Punning) (callback : MessageCallback S) where
  directed_lem :
      (c : Command)
      → IsCommand c
      → (direction : Direction) → (direction ≡ Direction.cpu_to_mcu) ⊎ (direction ≡ Direction.both)
      → validate_directed pun (packet_frame (command_packet c)) direction
        ≡ record { result = IngressResult.ok; output = some c.message }
  unfolding validate_directed
  directed_lem c v direction way =
      let read : decode_payload pun c.message.type (some (member_bytes c.message.payload))
            (length (member_bytes c.message.payload)) (some cleared_message)
          ≡ record { result = MessageResult.ok; output = some c.message } =
        ap
          (λ b.
            decode_payload pun c.message.type (some b) (length (member_bytes c.message.payload))
              (some cleared_message))
          (sym (append-nil (member_bytes c.message.payload)))
        ∙ decode_payload_bytes pun c.message v.message v.range [] cleared_message in
      elim way [ inl e ↦ rw e (rw read) | inr e ↦ rw e (rw read) ]

  -- The handler takes a command.
  pub handle_frame_lem :
      (c : Command) (feed : FeedContext S)
      → IsCommand c
      → let f = packet_frame (command_packet c) in
        handle_frame pun callback f feed ≡ record {
          stats = record feed.stats { accepted_messages = u32 (feed.stats.accepted_messages + 1) };
          accepted = feed.accepted + 1;
          callback_context = call_consumer callback f c.message feed.callback_context;
        }
  unfolding handle_frame handle_result validate_frame
  handle_frame_lem c feed v = rw (directed_lem c v (message_direction c.message.type) v.direction)

  pub calls_lem :
      (cs : List Command) (feed : FeedContext S)
      → All IsCommand cs
      → feed.stats.accepted_messages < 4294967296
      → calls (some (handle_frame pun callback)) feed (command_packets cs) ≡ record {
        stats = record feed.stats {
          accepted_messages = u32 (feed.stats.accepted_messages + length cs);
        };
        accepted = feed.accepted + length cs;
        callback_context = consume callback feed.callback_context cs;
      }
  calls_lem [] feed h range =
      ap₂
        (λ a n. record {
          stats = record feed.stats { accepted_messages = a };
          accepted = n;
          callback_context = feed.callback_context;
        })
        (omega arith) (omega arith)
  calls_lem (c ∷ cs) feed h range =
      let next : FeedContext S = record {
        stats = record feed.stats { accepted_messages = u32 (feed.stats.accepted_messages + 1) };
        accepted = feed.accepted + 1;
        callback_context =
            call_consumer callback (packet_frame (command_packet c)) c.message
              feed.callback_context;
      } in
      ap (λ t. calls (some (handle_frame pun callback)) t (command_packets cs))
        (handle_frame_lem c feed h.0)
      ∙ calls_lem cs next h.1 (omega arith)
      ∙ ap₂
          (λ a n. record {
            stats = record feed.stats { accepted_messages = a };
            accepted = n;
            callback_context = consume callback next.callback_context cs;
          })
          (omega arith) (omega arith)

-- Noise without an `O`, then encoded commands, fed to an ingress whose decoder holds nothing and whose
-- counters are in range: the consumer is called once for each command, in order, with the frame and
-- the message that were sent; all are counted as accepted, no rejection is counted, and the returned
-- number is that of the commands.
pub feed_commands :
    {S : Type 0} (pun : Punning) (g : CpuIngress S) (noise : Bytes) (cs : List Command)
    → IsValid g.decoder
    → g.decoder.buffered_bytes ≡ 0
    → g.decoder.stats.frames < 4294967296
    → g.decoder.stats.discarded_bytes < 4294967296
    → g.stats.accepted_messages < 4294967296
    → All (λ x. x ≢ magic_0) noise
    → All IsCommand cs
    → let bytes = noise ++ packets_bytes (command_packets cs) in
      let fed = cpu_ingress_feed pun (some g) (some bytes) (length bytes) in
      (fed.accepted ≡ length cs)
      × (h : CpuIngress S) × (fed.ingress ≡ some h)
      × (h.callback_context ≡ consume g.callback g.callback_context cs)
      × (h.stats
          ≡ record g.stats { accepted_messages = u32 (g.stats.accepted_messages + length cs) })
      × (h.decoder.buffered_bytes ≡ 0)
feed_commands {S} pun g noise cs v empty frames discarded taken quiet commands =
    let bytes = noise ++ packets_bytes (command_packets cs) in
    let (none_held, ran, emitted, stats) =
      feed_packets (some (handle_frame pun g.callback)) (context pun g bytes) g.decoder noise
        (command_packets cs) v empty frames discarded quiet (commands-IsPacket cs commands) in
    let after = ran ∙ calls_lem pun g.callback cs (context pun g bytes) commands taken in
    let lem = cpu_ingress_feed_lem pun g bytes in
    (
      ap (λ (x : IngressFed S). x.accepted) lem
          ∙ ap (λ (c : FeedContext S). c.accepted) after
          ∙ omega arith,
      fed_ingress pun g bytes,
      ap (λ (x : IngressFed S). x.ingress) lem,
      ap (λ (c : FeedContext S). c.callback_context) after,
      ap (λ (c : FeedContext S). c.stats) after,
      none_held,
    )
