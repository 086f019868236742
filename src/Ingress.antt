-- ===== src/Ingress.antt =====
-- The gate between the serial bytes and the consumer of commands: src/oomwoo_cpu_ingress.c. `S` is
-- what the consumer's `callback_context` points to.
pub mod Gate
pub mod Feed
pub mod Commands
pub mod Sent
pub mod Traffic
pub mod Chunks
pub mod History
mod Tests
use oomwoo_firmware.Prelude.{
  ℕ, ◌+◌, Bool, true, false, not, ◌&&◌, ◌||◌, Option, none, some, ◌==◌, if◌then◌else◌, Bytes, u32,
  is_null,
}
use oomwoo_firmware.Protocol.{protocol_version, DecodedFrame}
use oomwoo_firmware.Protocol.Stream.{
  StreamDecoder, cleared_decoder, stream_decoder_init, stream_decoder_feed,
  stream_decoder_reset_incomplete,
}
use oomwoo_firmware.Messages.{Direction, message_direction, MessageResult}
use oomwoo_firmware.Messages.Structs.{Message, cleared_message, Punning}
use oomwoo_firmware.Messages.Decode.{decode_payload}

-- `oomwoo_cpu_ingress_result_t`
pub data IngressResult : Type 0 where
  ok null_argument bad_version wrong_direction unknown_type : IngressResult
  payload_undefined wrong_payload_length value_out_of_range codec_error : IngressResult

-- `oomwoo_cpu_ingress_stats_t`
pub record IngressStats : Type 0 where
  pub accepted_messages : ℕ
  pub wrong_direction : ℕ
  pub unknown_type : ℕ
  pub undefined_payload : ℕ
  pub wrong_payload_length : ℕ
  pub value_out_of_range : ℕ
  pub codec_errors : ℕ

-- `oomwoo_cpu_message_callback_t`, on what its context points to.
abbrev pub MessageCallback : Type 0 → Type 0
MessageCallback S = Option (DecodedFrame → Message → S → S)

-- `oomwoo_cpu_ingress_t`; the last field is what the pointer leads to.
pub record CpuIngress (S : Type 0) : Type 0 where
  pub decoder : StreamDecoder
  pub stats : IngressStats
  pub callback : MessageCallback S
  pub callback_context : S

-- `feed_context_t`, with the parts of the ingress object that the frame handler changes.
pub record FeedContext (S : Type 0) : Type 0 where
  pub stats : IngressStats
  pub callback_context : S
  pub accepted : ℕ

abbrev pub map_message_result : MessageResult → IngressResult
map_message_result MessageResult.ok = IngressResult.ok
map_message_result MessageResult.null_argument = IngressResult.null_argument
map_message_result MessageResult.unknown_type = IngressResult.unknown_type
map_message_result MessageResult.payload_undefined = IngressResult.payload_undefined
map_message_result MessageResult.wrong_payload_length = IngressResult.wrong_payload_length
map_message_result MessageResult.value_out_of_range = IngressResult.value_out_of_range
map_message_result MessageResult.output_too_small = IngressResult.codec_error

-- A result, with the message behind `output`.
pub record Validation : Type 0 where
  pub result : IngressResult
  pub output : Option Message

-- Behind the tests of the frame, by its direction.
unfoldable pub validate_directed : Punning → DecodedFrame → Direction → Validation
validate_directed pun frame Direction.unknown = record {
  result = IngressResult.unknown_type;
  output = some cleared_message;
}
validate_directed pun frame Direction.mcu_to_cpu = record {
  result = IngressResult.wrong_direction;
  output = some cleared_message;
}
validate_directed pun frame _ =
    let decoded =
      decode_payload pun frame.message_type frame.payload frame.payload_length
        (some cleared_message) in
    record { result = map_message_result decoded.result; output = decoded.output }

unfoldable pub validate_frame : Punning → Option DecodedFrame → Option Message → Validation
validate_frame pun frame none = record { result = IngressResult.null_argument; output = none }
validate_frame pun none (some old) = record {
  result = IngressResult.null_argument;
  output = some cleared_message;
}
validate_frame pun (some frame) (some old) =
    if is_null frame.payload && not (frame.payload_length == 0)
    then record { result = IngressResult.null_argument; output = some cleared_message }
    else if not (frame.version == protocol_version)
    then record { result = IngressResult.bad_version; output = some cleared_message }
    else validate_directed pun frame (message_direction frame.message_type)

unfoldable pub count_rejection : IngressStats → IngressResult → IngressStats
count_rejection s IngressResult.wrong_direction = record s {
  wrong_direction = u32 (s.wrong_direction + 1);
}
count_rejection s IngressResult.unknown_type = record s { unknown_type = u32 (s.unknown_type + 1) }
count_rejection s IngressResult.payload_undefined = record s {
  undefined_payload = u32 (s.undefined_payload + 1);
}
count_rejection s IngressResult.wrong_payload_length = record s {
  wrong_payload_length = u32 (s.wrong_payload_length + 1);
}
count_rejection s IngressResult.value_out_of_range = record s {
  value_out_of_range = u32 (s.value_out_of_range + 1);
}
count_rejection s IngressResult.codec_error = record s { codec_errors = u32 (s.codec_errors + 1) }
count_rejection s _ = s

-- The message variable behind its pointer.
abbrev pub message_of : Option Message → Message
message_of none = cleared_message
message_of (some message) = message

abbrev pub cleared_stats : IngressStats
cleared_stats = record {
  accepted_messages = 0;
  wrong_direction = 0;
  unknown_type = 0;
  undefined_payload = 0;
  wrong_payload_length = 0;
  value_out_of_range = 0;
  codec_errors = 0;
}

-- The decoder behind its pointer; `&ingress->decoder` is never NULL.
abbrev pub decoder_or : StreamDecoder → Option StreamDecoder → StreamDecoder
decoder_or d none = d
decoder_or d (some e) = e

-- What a feed returns, and leaves behind the ingress pointer.
pub record IngressFed (S : Type 0) : Type 0 where
  pub accepted : ℕ
  pub ingress : Option (CpuIngress S)

module _ {S : Type 0} where
  abbrev pub call_consumer : MessageCallback S → DecodedFrame → Message → S → S
  call_consumer none frame message context = context
  call_consumer (some f) frame message context = f frame message context

  -- Behind the validation, by its result.
  unfoldable pub handle_result :
      MessageCallback S → DecodedFrame → IngressResult → Message → FeedContext S → FeedContext S
  handle_result callback frame IngressResult.ok message feed = record {
    stats = record feed.stats { accepted_messages = u32 (feed.stats.accepted_messages + 1) };
    accepted = feed.accepted + 1;
    callback_context = call_consumer callback frame message feed.callback_context;
  }
  handle_result callback frame result message feed = record feed {
    stats = count_rejection feed.stats result;
  }

  -- The message on the stack is cleared by the validation before it is read.
  unfoldable pub handle_frame :
      Punning → MessageCallback S → DecodedFrame → FeedContext S → FeedContext S
  handle_frame pun callback frame feed =
      let checked = validate_frame pun (some frame) (some cleared_message) in
      handle_result callback frame checked.result (message_of checked.output) feed

  unfoldable pub cpu_ingress_init :
      Option (CpuIngress S) → MessageCallback S → S → Option (CpuIngress S)
  cpu_ingress_init none callback context = none
  cpu_ingress_init (some old) callback context = some (record {
    decoder = decoder_or cleared_decoder (stream_decoder_init (some cleared_decoder));
    stats = cleared_stats;
    callback = callback;
    callback_context = context;
  })

  unfoldable pub cpu_ingress_feed :
      Punning → Option (CpuIngress S) → Option Bytes → ℕ → IngressFed S
  cpu_ingress_feed pun none bytes length = record { accepted = 0; ingress = none }
  cpu_ingress_feed pun (some g) bytes length =
      let context : FeedContext S = record {
        stats = g.stats;
        callback_context = g.callback_context;
        accepted = 0;
      } in
      let fed =
        stream_decoder_feed (some g.decoder) bytes length (some (handle_frame pun g.callback))
          context in
      if is_null bytes && not (length == 0)
      then record { accepted = 0; ingress = some g }
      else record {
        accepted = fed.context.accepted;
        ingress = some (record g {
          decoder = decoder_or g.decoder fed.decoder;
          stats = fed.context.stats;
          callback_context = fed.context.callback_context;
        });
      }

  unfoldable pub cpu_ingress_reset_incomplete : Option (CpuIngress S) → Option (CpuIngress S)
  cpu_ingress_reset_incomplete none = none
  cpu_ingress_reset_incomplete (some g) = some (record g {
    decoder = decoder_or g.decoder (stream_decoder_reset_incomplete (some g.decoder));
  })
