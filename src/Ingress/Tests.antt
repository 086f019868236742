-- ===== src/Ingress/Tests.antt =====
-- An ingress that logs its messages, and the theorems on the ingress applied to it.
use oomwoo_firmware.Prelude.{
  ◌+◌, ◌%◌, ◌≡◌, refl, ap, inl, some, List, [], ◌∷◌, ◌++◌, arith, length, All, Bytes, IsBytes,
  are_bytes-IsBytes,
}
use oomwoo_firmware.Protocol.{DecodedFrame}
use oomwoo_firmware.Protocol.Stream.{cleared_decoder, stream_decoder_init}
use oomwoo_firmware.Protocol.Stream.Packets.{packets_bytes}
use oomwoo_firmware.Protocol.Stream.Ready.{cleared-IsReady}
use oomwoo_firmware.Protocol.Stream.Invariant.{Framed}
use oomwoo_firmware.Messages.{MessageType, from_code, message_direction, message_payload_size}
use oomwoo_firmware.Messages.Structs.{Payload, Message, cleared_message}
use oomwoo_firmware.Messages.Layout.{Stores}
use oomwoo_firmware.Messages.Validate.{message_validate, validate_member}
use oomwoo_firmware.Messages.Validate.Ranges.{InRange, IsMessage}
use oomwoo_firmware.Messages.Decode.{decode_payload, decoded_member, finish_decode}
use oomwoo_firmware.Messages.Samples.{zero_pun}
use oomwoo_firmware.Ingress.{
  IngressResult, CpuIngress, cleared_stats, validate_frame, validate_directed, message_of,
  cpu_ingress_init, IngressFed, cpu_ingress_feed,
}
use oomwoo_firmware.Ingress.Gate.{Gated, validate_frame-Gated}
use oomwoo_firmware.Ingress.Feed.{
  IsSound, judged, fed_ingress, cpu_ingress_feed_lem, feed-keeps, feed-counts,
}
use oomwoo_firmware.Ingress.History.{
  IsAccounted, Reachable, initialised, fed, Reachable-IsAccounted,
}
use oomwoo_firmware.Ingress.Chunks.{cpu_ingress_feed-append}
use oomwoo_firmware.Ingress.Commands.{Command, IsCommand, command_packets, feed_commands}

abbrev lidar : Message
lidar = record { type = 0x0103; payload = Payload.lidar_motor_set (record { pwm_pct = 60 }) }

lidar-IsMessage : IsMessage lidar
lidar-IsMessage = record {
  kind = MessageType.lidar_motor_set;
  typed = refl;
  stores = Stores.lidar_motor_set _ (omega arith);
}

abbrev lidar_frame : DecodedFrame
lidar_frame = record {
  version = 1;
  flags = 0;
  sequence = 3;
  message_type = 0x0103;
  payload_length = 1;
  payload = some (60 ∷ []);
}

lidar_frame-Framed : Framed lidar_frame
lidar_frame-Framed = record {
  bytes = 60 ∷ [];
  shown = refl;
  ranged = (omega arith, tt);
  sized = refl;
  version = refl;
}

lidar_accepted :
    (validate_frame zero_pun (some lidar_frame) (some cleared_message)).result ≡ IngressResult.ok
unfolding validate_frame validate_directed message_direction decode_payload decoded_member
    finish_decode message_validate validate_member message_payload_size from_code
lidar_accepted = refl

validate_frame-Gated_example :
    Gated lidar_frame
      (message_of (validate_frame zero_pun (some lidar_frame) (some cleared_message)).output)
validate_frame-Gated_example =
    validate_frame-Gated zero_pun lidar_frame cleared_message lidar_frame-Framed lidar_accepted

abbrev log_message : DecodedFrame → Message → List Message → List Message
log_message f m log = m ∷ log

abbrev logger : CpuIngress (List Message)
logger = record {
  decoder = cleared_decoder;
  stats = cleared_stats;
  callback = some log_message;
  callback_context = [];
}

logger-IsSound : IsSound logger
logger-IsSound = record { valid = cleared-IsReady.valid; ranged = tt }

abbrev command : Command
command = record { flags = 0; sequence = 3; message = lidar }

command-IsCommand : IsCommand command
unfolding message_direction from_code
command-IsCommand = record {
  sequence16 = omega arith;
  message = lidar-IsMessage;
  range = omega arith;
  direction = inl refl;
}

abbrev garbage : Bytes
garbage = 0x4F ∷ 0x57 ∷ 0x02 ∷ 0x4F ∷ []

garbage-IsBytes : IsBytes garbage
garbage-IsBytes = are_bytes-IsBytes garbage refl

-- Nothing that is out of its range gets into the log.
feed-keeps_example :
    (h : CpuIngress (List Message)) × ((cpu_ingress_feed zero_pun
        (some logger)
        (some garbage)
        4).ingress
      ≡ some h)
    × All (λ m. InRange m.payload) h.callback_context
    × IsSound h
feed-keeps_example =
    feed-keeps (λ log. All (λ m. InRange m.payload) log) log_message
      (λ f m log gated held. (gated.range, held)) zero_pun logger garbage refl logger-IsSound
      garbage-IsBytes tt

feed-counts_example :
    let fed = cpu_ingress_feed zero_pun (some logger) (some garbage) 4 in
    (h : CpuIngress (List Message)) × (fed.ingress ≡ some h)
    × (judged h.stats % 4294967296 ≡ h.decoder.stats.frames % 4294967296)
    × (h.stats.accepted_messages % 4294967296 ≡ (0 + fed.accepted) % 4294967296)
    × (h.stats.undefined_payload ≡ 0)
    × (h.stats.codec_errors ≡ 0)
feed-counts_example = feed-counts zero_pun logger garbage logger-IsSound garbage-IsBytes refl

feed_commands_example :
    let cs = command ∷ [] in
    let bytes = (7 ∷ []) ++ packets_bytes (command_packets cs) in
    let fed = cpu_ingress_feed zero_pun (some logger) (some bytes) (length bytes) in
    (fed.accepted ≡ 1)
    × (h : CpuIngress (List Message)) × (fed.ingress ≡ some h)
    × (h.callback_context ≡ lidar ∷ [])
    × (h.stats ≡ record cleared_stats { accepted_messages = 1 })
    × (h.decoder.buffered_bytes ≡ 0)
feed_commands_example =
    feed_commands zero_pun logger (7 ∷ []) (command ∷ []) cleared-IsReady.valid refl (omega arith)
      (omega arith) (omega arith) (omega arith, tt) (command-IsCommand, tt)

cpu_ingress_feed-append_example :
    let feed = cpu_ingress_feed {S = List Message} zero_pun in
    let whole = feed (some logger) (some (garbage ++ garbage)) 8 in
    let first = feed (some logger) (some garbage) 4 in
    let second = feed first.ingress (some garbage) 4 in
    (whole.ingress ≡ second.ingress) × (whole.accepted ≡ first.accepted + second.accepted)
cpu_ingress_feed-append_example = cpu_ingress_feed-append zero_pun logger garbage garbage

logger-Reachable : Reachable zero_pun logger
unfolding cpu_ingress_init stream_decoder_init
logger-Reachable = initialised logger (some log_message) [] refl

-- After a feed of garbage.
garbage-Reachable : Reachable zero_pun (fed_ingress zero_pun logger garbage)
garbage-Reachable = fed logger-Reachable garbage garbage-IsBytes (
    ap (λ (x : IngressFed (List Message)). x.ingress)
      (cpu_ingress_feed_lem zero_pun logger garbage))

Reachable-IsAccounted_example : IsAccounted (fed_ingress zero_pun logger garbage)
Reachable-IsAccounted_example = Reachable-IsAccounted zero_pun garbage-Reachable
