-- ===== src/Protocol/Stream/Reference.antt =====
-- The stream decoder without its array: the bytes that are still held, as a list. This is what the
-- decoder is meant to do; `View` and `Refine` relate the array to it.
use oomwoo_firmware.Prelude.{
  ℕ, zero, suc, ◌+◌, ◌-◌, Bool, true, false, ◌&&◌, ◌||◌, not, some, [], ◌∷◌, ◌++◌, ltb, leb, ◌==◌,
  if◌then◌else◌, length, drop, Bytes, byte_at,
}
use oomwoo_firmware.Protocol.{
  frame_of, magic_0, magic_1, protocol_version, header_size, max_payload_size, max_frame_size,
  Status, DecodedFrame, blank_frame,
}
use oomwoo_firmware.Protocol.Wire.{read_u16_le}
use oomwoo_firmware.Protocol.Frame.{frame_size, decode_frame}
use oomwoo_firmware.Protocol.Stream.{
  DecoderStats, count_discarded, count_version_error, count_length_error, count_crc_error,
  count_frame, Callback, call,
}

-- A frame can begin with these bytes: `OW`, or an `O` at the end, or no byte at all.
abbrev pub may_begin : Bytes → Bool
may_begin [] = true
may_begin (x ∷ []) = x == magic_0
may_begin (x ∷ y ∷ rest) = x == magic_0 && y == magic_1

-- The longest suffix that a frame can begin with.
unfoldable pub sync : Bytes → Bytes
sync [] = []
sync (x ∷ rest) = if may_begin (x ∷ rest) then x ∷ rest else sync rest

-- The bytes that a resynchronisation keeps: it drops the first byte at least.
abbrev pub resync : Bytes → Bytes
resync bytes = sync (drop 1 bytes)

pub record Scan (C : Type 0) : Type 0 where
  pub pending : Bytes
  pub stats : DecoderStats
  pub context : C
  pub emitted : ℕ
  pub processing : Bool

module _ {C : Type 0} where
  abbrev pub rest : Scan C → Scan C
  rest s = record s { processing = false }

  abbrev pub keep : Scan C → Bytes → Scan C
  keep s bytes = record s { pending = bytes; processing = leb 2 (length bytes) }

  abbrev pub refuse : Scan C → DecoderStats → Scan C
  refuse s stats =
      let kept = resync s.pending in
      keep (record s { stats = count_discarded stats (length s.pending - length kept) }) kept

  unfoldable pub settle : Callback C → Scan C → ℕ → Status → DecodedFrame → Scan C
  settle callback s frame_length Status.ok frame =
      keep
        (record s {
          stats = count_frame s.stats;
          context = call callback frame s.context;
          emitted = s.emitted + 1;
        })
        (drop frame_length s.pending)
  settle callback s frame_length Status.bad_crc frame = refuse s (count_crc_error s.stats)
  settle callback s frame_length _ frame = refuse s (count_length_error s.stats)

  unfoldable pub scan_once : Callback C → Scan C → Scan C
  scan_once callback s =
      let p = s.pending in
      let payload_length = read_u16_le p 8 in
      let frame_length = frame_size payload_length in
      let decoded = decode_frame (some p) frame_length (some blank_frame) in
      if length p == 1
      then if not (byte_at p 0 == magic_0)
        then rest (record s { pending = []; stats = count_discarded s.stats 1 })
        else rest s
      else if ltb (length p) 2
      then rest s
      else if not (byte_at p 0 == magic_0) || not (byte_at p 1 == magic_1)
      then refuse s s.stats
      else if ltb (length p) header_size
      then rest s
      else if not (byte_at p 2 == protocol_version)
      then refuse s (count_version_error s.stats)
      else if ltb max_payload_size payload_length
      then refuse s (count_length_error s.stats)
      else if ltb (length p) frame_length
      then rest s
      else settle callback s frame_length decoded.status (frame_of decoded.output)

  unfoldable pub scan : Callback C → ℕ → Scan C → Scan C
  scan callback zero s = s
  scan callback (suc fuel) s = elim s.processing [
    | true ↦ scan callback fuel (scan_once callback s)
    | false ↦ s
  ]

  -- A full buffer makes room before it takes a byte.
  abbrev pub roomy : Scan C → Scan C
  roomy s =
      if length s.pending == max_frame_size
      then record s {
        pending = resync s.pending;
        stats = count_discarded s.stats (length s.pending - length (resync s.pending));
      }
      else s

  abbrev pub take_byte : Scan C → ℕ → Scan C
  take_byte s byte = record s { pending = s.pending ++ (byte ∷ []); processing = true }

  unfoldable pub scan_byte : Callback C → Scan C → ℕ → Scan C
  scan_byte callback s byte =
      let next = take_byte (roomy s) byte in scan callback (length next.pending + 1) next

  unfoldable pub scan_bytes : Callback C → Scan C → Bytes → Scan C
  scan_bytes callback s [] = s
  scan_bytes callback s (byte ∷ rest) = scan_bytes callback (scan_byte callback s byte) rest
