-- ===== src/Ingress/Sent.antt =====
-- Frames that the CPU may send, commands and others, and what an ingress makes of them.
use oomwoo_firmware.Prelude.{
  ℕ, suc, ◌+◌, ◌<◌, ◌≡◌, ◌≢◌, ◌⊎◌, ap, ap₂, ◌∙◌, inl, inr, some, List, [], ◌∷◌, arith, length, All,
  u32, refl,
}
use oomwoo_firmware.Protocol.Stream.Packets.{Packet, packet_frame}
use oomwoo_firmware.Protocol.Stream.Deliver.{calls}
use oomwoo_firmware.Messages.{
  Direction, message_direction, MessageResult, message_payload_size, size_or,
}
use oomwoo_firmware.Messages.Structs.{Punning, cleared_message}
use oomwoo_firmware.Messages.Errors.{decode_payload_errors}
use oomwoo_firmware.Ingress.{
  IngressResult, IngressStats, MessageCallback, FeedContext, handle_result, handle_frame,
  count_rejection, validate_frame, validate_directed, map_message_result,
}
use oomwoo_firmware.Ingress.Commands.{Command, IsCommand, command_packet, consume, handle_frame_lem}

-- A command; or a frame of a type that only the MCU sends, of a type that nobody sends, or with a
-- payload that is not of its type's size.
pub data Sent : Type 0 where
  command : Command → Sent
  wrong_way : Packet → Sent
  unknown : Packet → Sent
  misfit : Packet → Sent

abbrev pub sent_packet : Sent → Packet
sent_packet (command c) = command_packet c
sent_packet (wrong_way k) = k
sent_packet (unknown k) = k
sent_packet (misfit k) = k

-- For the MCU, and with the wrong size.
pub record IsMisfit (k : Packet) : Type 0 where
  pub direction :
      (message_direction k.message_type ≡ Direction.cpu_to_mcu)
      ⊎ (message_direction k.message_type ≡ Direction.both)
  pub sized : (message_payload_size k.message_type (some 0)).result ≡ MessageResult.ok
  pub differs :
      length k.payload ≢ size_or (message_payload_size k.message_type (some 0)).payload_size

abbrev pub IsSent : Sent → Type 0
IsSent (command c) = IsCommand c
IsSent (wrong_way k) = message_direction k.message_type ≡ Direction.mcu_to_cpu
IsSent (unknown k) = message_direction k.message_type ≡ Direction.unknown
IsSent (misfit k) = IsMisfit k

abbrev pub sent_packets : List Sent → List Packet
sent_packets [] = []
sent_packets (s ∷ ss) = sent_packet s ∷ sent_packets ss

abbrev pub commands : List Sent → List Command
commands [] = []
commands (command c ∷ ss) = c ∷ commands ss
commands (_ ∷ ss) = commands ss

abbrev pub wrong_ways : List Sent → ℕ
wrong_ways [] = 0
wrong_ways (wrong_way k ∷ ss) = suc (wrong_ways ss)
wrong_ways (_ ∷ ss) = wrong_ways ss

abbrev pub unknowns : List Sent → ℕ
unknowns [] = 0
unknowns (unknown k ∷ ss) = suc (unknowns ss)
unknowns (_ ∷ ss) = unknowns ss

abbrev pub misfits : List Sent → ℕ
misfits [] = 0
misfits (misfit k ∷ ss) = suc (misfits ss)
misfits (_ ∷ ss) = misfits ss

-- The counters that such frames move are 32-bit words.
pub record IsCounting (s : IngressStats) : Type 0 where
  pub accepted_messages : s.accepted_messages < 4294967296
  pub wrong_direction : s.wrong_direction < 4294967296
  pub unknown_type : s.unknown_type < 4294967296
  pub wrong_payload_length : s.wrong_payload_length < 4294967296

abbrev pub judged : IngressStats → List Sent → IngressStats
judged s ss = record s {
  accepted_messages = u32 (s.accepted_messages + length (commands ss));
  wrong_direction = u32 (s.wrong_direction + wrong_ways ss);
  unknown_type = u32 (s.unknown_type + unknowns ss);
  wrong_payload_length = u32 (s.wrong_payload_length + misfits ss);
}

module _ {S : Type 0} (pun : Punning) (callback : MessageCallback S) where
  -- The context of a feed after such frames.
  abbrev pub context_after : FeedContext S → List Sent → FeedContext S
  context_after feed ss = record {
    stats = judged feed.stats ss;
    accepted = feed.accepted + length (commands ss);
    callback_context = consume callback feed.callback_context (commands ss);
  }

  -- A frame that a rule of the gate refuses changes one counter, and nothing else.
  refuse_frame :
      (k : Packet) (feed : FeedContext S) (result : IngressResult)
      → (validate_directed pun (packet_frame k) (message_direction k.message_type)).result ≡ result
      → (result ≡ IngressResult.wrong_direction)
        ⊎ (result ≡ IngressResult.unknown_type)
        ⊎ (result ≡ IngressResult.wrong_payload_length)
      → handle_frame pun callback (packet_frame k) feed
        ≡ record feed { stats = count_rejection feed.stats result }
  unfolding handle_frame handle_result validate_frame
  refuse_frame k feed result e (inl way) = rw (e, way) refl
  refuse_frame k feed result e (inr (inl kind)) = rw (e, kind) refl
  refuse_frame k feed result e (inr (inr size)) = rw (e, size) refl

  misfit-result :
      (k : Packet)
      → IsMisfit k
      → (validate_directed pun (packet_frame k) (message_direction k.message_type)).result
        ≡ IngressResult.wrong_payload_length
  unfolding validate_directed
  misfit-result k m =
      let errors =
        decode_payload_errors pun k.message_type (length k.payload) (some k.payload)
          (some cleared_message) in
      let wrong = errors.3.1 ((refl, inl refl), m.sized, m.differs) in
      elim m.direction [
        | inl e ↦ rw e (ap map_message_result wrong)
        | inr e ↦ rw e (ap map_message_result wrong)
      ]

  -- The handler of one frame.
  handle_sent :
      (s : Sent) (feed : FeedContext S)
      → IsSent s
      → IsCounting feed.stats
      → handle_frame pun callback (packet_frame (sent_packet s)) feed ≡ context_after feed (s ∷ [])
  unfolding validate_directed count_rejection
  handle_sent (command c) feed v r =
      handle_frame_lem pun callback c feed v
      ∙ ap (λ t. record (context_after feed (command c ∷ [])) { stats = t }) (ground arith)
  handle_sent (wrong_way k) feed v r =
      refuse_frame k feed IngressResult.wrong_direction (rw v refl) (inl refl)
      ∙ ap₂ (λ t n. record feed { stats = t; accepted = n }) (ground arith) (ground arith)
  handle_sent (unknown k) feed v r =
      refuse_frame k feed IngressResult.unknown_type (rw v refl) (inr (inl refl))
      ∙ ap₂ (λ t n. record feed { stats = t; accepted = n }) (ground arith) (ground arith)
  handle_sent (misfit k) feed v r =
      refuse_frame k feed IngressResult.wrong_payload_length (misfit-result k v) (inr (inr refl))
      ∙ ap₂ (λ t n. record feed { stats = t; accepted = n }) (ground arith) (ground arith)

  context_after_cons :
      (s : Sent) (ss : List Sent) (feed : FeedContext S)
      → IsCounting feed.stats
      → context_after (context_after feed (s ∷ [])) ss ≡ context_after feed (s ∷ ss)
  context_after_cons (command c) ss feed r =
      ap₂ (λ t n. record (context_after feed (command c ∷ ss)) { stats = t; accepted = n })
        (ground arith) (ground arith)
  context_after_cons (wrong_way k) ss feed r =
      ap₂ (λ t n. record (context_after feed ss) { stats = t; accepted = n }) (ground arith)
        (ground arith)
  context_after_cons (unknown k) ss feed r =
      ap₂ (λ t n. record (context_after feed ss) { stats = t; accepted = n }) (ground arith)
        (ground arith)
  context_after_cons (misfit k) ss feed r =
      ap₂ (λ t n. record (context_after feed ss) { stats = t; accepted = n }) (ground arith)
        (ground arith)

  -- The handler of frame after frame.
  pub calls_sent :
      (ss : List Sent) (feed : FeedContext S)
      → All IsSent ss
      → IsCounting feed.stats
      → calls (some (handle_frame pun callback)) feed (sent_packets ss) ≡ context_after feed ss
  calls_sent [] feed v r =
      ap₂ (λ t n. record feed { stats = t; accepted = n }) (ground arith) (ground arith)
  calls_sent (s ∷ ss) feed (vs, v) r =
      ap (λ t. calls (some (handle_frame pun callback)) t (sent_packets ss))
        (handle_sent s feed vs r)
      ∙ calls_sent ss (context_after feed (s ∷ [])) v (omega arith)
      ∙ context_after_cons s ss feed r
