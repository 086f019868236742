-- ===== src/Protocol/Stream.antt =====
-- The stream decoder of src/oomwoo_protocol.c: a 524-byte array, the count of bytes in it, and the
-- counters. `uint32_t` counters wrap; no `size_t` sum does.
pub mod Buffer
pub mod Reference
pub mod View
pub mod Refine
pub mod Parse
pub mod Loop
pub mod Ready
pub mod Rounds
pub mod Packets
pub mod Deliver
pub mod Accounts
pub mod Chunks
pub mod Faults
pub mod Invariant
pub mod Simulation
pub mod Memory
pub mod Range
pub mod Samples
mod Tests
use oomwoo_firmware.Prelude.{
  ℕ, zero, suc, ◌+◌, ◌-◌, Bool, true, false, ◌&&◌, ◌||◌, not, Option, none, some, List, [], ◌∷◌,
  ltb, leb, ◌==◌, if◌then◌else◌, set, take, replicate, Bytes, byte_at, u32, is_null, bytes_of,
  memmove_front,
}
use oomwoo_firmware.Protocol.{
  magic_0, magic_1, protocol_version, header_size, max_payload_size, max_frame_size, Status, ok,
  bad_crc, DecodedFrame, blank_frame, frame_of,
}
use oomwoo_firmware.Protocol.Wire.{read_u16_le}
use oomwoo_firmware.Protocol.Frame.{Decoded, frame_size, decode_frame}

-- `oomwoo_decoder_stats_t`
pub record DecoderStats : Type 0 where
  pub frames : ℕ
  pub discarded_bytes : ℕ
  pub crc_errors : ℕ
  pub version_errors : ℕ
  pub length_errors : ℕ
  pub gap_resets : ℕ

-- `oomwoo_stream_decoder_t`
pub record StreamDecoder : Type 0 where
  pub buffer : Bytes
  pub buffered_bytes : ℕ
  pub stats : DecoderStats

abbrev pub count_discarded : DecoderStats → ℕ → DecoderStats
count_discarded s n = record s { discarded_bytes = u32 (s.discarded_bytes + u32 n) }

abbrev pub count_version_error : DecoderStats → DecoderStats
count_version_error s = record s { version_errors = u32 (s.version_errors + 1) }

abbrev pub count_length_error : DecoderStats → DecoderStats
count_length_error s = record s { length_errors = u32 (s.length_errors + 1) }

abbrev pub count_crc_error : DecoderStats → DecoderStats
count_crc_error s = record s { crc_errors = u32 (s.crc_errors + 1) }

abbrev pub count_frame : DecoderStats → DecoderStats
count_frame s = record s { frames = u32 (s.frames + 1) }

abbrev pub count_gap_reset : DecoderStats → DecoderStats
count_gap_reset s = record s { gap_resets = u32 (s.gap_resets + 1) }

-- `memset(decoder, 0, sizeof(*decoder))`
abbrev pub cleared_decoder : StreamDecoder
cleared_decoder = record {
  buffer = replicate max_frame_size 0;
  buffered_bytes = 0;
  stats = record {
    frames = 0;
    discarded_bytes = 0;
    crc_errors = 0;
    version_errors = 0;
    length_errors = 0;
    gap_resets = 0;
  };
}

unfoldable pub stream_decoder_init : Option StreamDecoder → Option StreamDecoder
stream_decoder_init none = none
stream_decoder_init (some decoder) = some cleared_decoder

-- The flag is `discarded != 0u`.
unfoldable pub remove_prefix : StreamDecoder → ℕ → Bool → StreamDecoder
remove_prefix d count discarded =
    let left = d.buffered_bytes - count in
    if count == 0 || ltb d.buffered_bytes count then d else record {
      buffer = if left == 0 then d.buffer else memmove_front d.buffer count left;
      buffered_bytes = left;
      stats = if discarded then count_discarded d.stats count else d.stats;
    }

-- The loop of `resync_after_error` from `index` on; it has `buffered_bytes - 1 - index` rounds left.
unfoldable pub find_magic : Bytes → ℕ → ℕ → Option ℕ
find_magic buffer zero index = none
find_magic buffer (suc left) index =
    let rest = find_magic buffer left (index + 1) in
    if byte_at buffer index == magic_0 && byte_at buffer (index + 1) == magic_1
    then some index
    else rest

-- Behind the loop: at the index that it found, or after its end.
unfoldable pub resync_at : StreamDecoder → Option ℕ → StreamDecoder
resync_at d (some index) = remove_prefix d index true
resync_at d none =
    if not (d.buffered_bytes == 0) && byte_at d.buffer (d.buffered_bytes - 1) == magic_0
    then remove_prefix d (d.buffered_bytes - 1) true
    else remove_prefix d d.buffered_bytes true

unfoldable pub resync_after_error : StreamDecoder → StreamDecoder
resync_after_error d = resync_at d (find_magic d.buffer (d.buffered_bytes - 2) 1)

-- Make room if the buffer is full.
abbrev pub make_room : StreamDecoder → StreamDecoder
make_room d = if d.buffered_bytes == max_frame_size then resync_after_error d else d

abbrev pub append_byte : StreamDecoder → ℕ → StreamDecoder
append_byte d byte = record d {
  buffer = set d.buffer d.buffered_bytes byte;
  buffered_bytes = d.buffered_bytes + 1;
}

-- `oomwoo_frame_callback_t`, on what its context points to. The context does not reach the decoder.
abbrev pub Callback : Type 0 → Type 0
Callback C = Option (DecodedFrame → C → C)

abbrev pub call : {C : Type 0} → Callback C → DecodedFrame → C → C
call none frame context = context
call (some f) frame context = f frame context

-- The variables of a running feed.
pub record Feeding (C : Type 0) : Type 0 where
  pub decoder : StreamDecoder
  pub context : C
  pub emitted : ℕ
  pub processing : Bool

module _ {C : Type 0} where
  abbrev pub pause : Feeding C → Feeding C
  pause st = record st { processing = false }

  -- `processing = decoder->buffered_bytes >= 2u`
  abbrev pub go_on : Feeding C → StreamDecoder → Feeding C
  go_on st d = record st { decoder = d; processing = leb 2 d.buffered_bytes }

  -- A resynchronisation behind a counter's increment.
  abbrev pub reject : Feeding C → DecoderStats → Feeding C
  reject st stats = go_on st (resync_after_error (record st.decoder { stats = stats }))

  -- Behind `oomwoo_decode_frame`, by its result.
  unfoldable pub on_result : Callback C → Feeding C → ℕ → Status → DecodedFrame → Feeding C
  on_result callback st frame_length Status.ok frame =
      let d = st.decoder in
      let counted = record d { stats = count_frame d.stats } in
      go_on (record st { context = call callback frame st.context; emitted = st.emitted + 1 })
        (remove_prefix counted frame_length false)
  on_result callback st frame_length Status.bad_crc frame =
      reject st (count_crc_error st.decoder.stats)
  on_result callback st frame_length _ frame = reject st (count_length_error st.decoder.stats)

  -- One round of the inner loop.
  unfoldable pub process_once : Callback C → Feeding C → Feeding C
  process_once callback st =
      let d = st.decoder in
      let payload_length = read_u16_le d.buffer 8 in
      let frame_length = frame_size payload_length in
      let decoded = decode_frame (some d.buffer) frame_length (some blank_frame) in
      if d.buffered_bytes == 1
      then if not (byte_at d.buffer 0 == magic_0)
        then pause (record st { decoder = remove_prefix d 1 true })
        else pause st
      else if ltb d.buffered_bytes 2
      then pause st
      else if not (byte_at d.buffer 0 == magic_0) || not (byte_at d.buffer 1 == magic_1)
      then reject st d.stats
      else if ltb d.buffered_bytes header_size
      then pause st
      else if not (byte_at d.buffer 2 == protocol_version)
      then reject st (count_version_error d.stats)
      else if ltb max_payload_size payload_length
      then reject st (count_length_error d.stats)
      else if ltb d.buffered_bytes frame_length
      then pause st
      else on_result callback st frame_length decoded.status (frame_of decoded.output)

  -- The inner loop. A round that goes on shortens the buffer, so `buffered_bytes + 1` rounds are
  -- enough.
  unfoldable pub process : Callback C → ℕ → Feeding C → Feeding C
  process callback zero st = st
  process callback (suc fuel) st = elim st.processing [
    | true ↦ process callback fuel (process_once callback st)
    | false ↦ st
  ]

  -- The body of the outer loop.
  unfoldable pub feed_byte : Callback C → Feeding C → ℕ → Feeding C
  feed_byte callback st byte =
      let d = append_byte (make_room st.decoder) byte in
      process callback (d.buffered_bytes + 1) (record st { decoder = d; processing = true })

  unfoldable pub feed_bytes : Callback C → Feeding C → Bytes → Feeding C
  feed_bytes callback st [] = st
  feed_bytes callback st (byte ∷ rest) = feed_bytes callback (feed_byte callback st byte) rest

  abbrev pub start : StreamDecoder → C → Feeding C
  start d context = record { decoder = d; context = context; emitted = 0; processing = false }

-- What a feed returns, and leaves behind the decoder's pointer and in the callback's context.
pub record Fed (C : Type 0) : Type 0 where
  pub emitted : ℕ
  pub decoder : Option StreamDecoder
  pub context : C

module _ {C : Type 0} where
  unfoldable pub stream_decoder_feed :
      Option StreamDecoder → Option Bytes → ℕ → Callback C → C → Fed C
  stream_decoder_feed none bytes length callback context = record {
    emitted = 0;
    decoder = none;
    context = context;
  }
  stream_decoder_feed (some d) bytes length callback context =
      let st = feed_bytes callback (start d context) (take length (bytes_of bytes)) in
      if is_null bytes && not (length == 0)
      then record { emitted = 0; decoder = some d; context = context }
      else record { emitted = st.emitted; decoder = some st.decoder; context = st.context }

unfoldable pub stream_decoder_reset_incomplete : Option StreamDecoder → Option StreamDecoder
stream_decoder_reset_incomplete none = none
stream_decoder_reset_incomplete (some d) =
    if d.buffered_bytes == 0
    then some d
    else some (record d {
      buffered_bytes = 0;
      stats = count_gap_reset (count_discarded d.stats d.buffered_bytes);
    })
