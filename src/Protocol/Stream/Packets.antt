-- ===== src/Protocol/Stream/Packets.antt =====
-- Frames in a stream, and what the reference decoder does with them and with noise.
use oomwoo_firmware.Prelude.{
  ℕ, ◌+◌, ◌≤◌, ◌<◌, ◌≡◌, ◌≢◌, refl, sym, ap, ap₂, ◌∙◌, some, List, [], ◌∷◌, ◌++◌, append_assoc,
  append-nil, arith, length, take, take_prefix, length-append, All, Bytes, byte_at, subst, IsU16,
}
use oomwoo_firmware.Protocol.{
  Status, magic_0, protocol_version, header_size, max_payload_size, max_frame_size, DecodedFrame,
  blank_frame,
}
use oomwoo_firmware.Protocol.Wire.{read_u16_le}
use oomwoo_firmware.Protocol.Frame.{frame_size, decode_frame}
use oomwoo_firmware.Protocol.Frame.Format.{frame_bytes, length-frame_bytes}
use oomwoo_firmware.Protocol.Frame.Decode.RoundTrip.{decode_frame_bytes, frame-Passes}
use oomwoo_firmware.Protocol.Frame.Decode.{Passes}
use oomwoo_firmware.Protocol.Frame.Decode.Prefix.{byte_at-take, read_u16_le-take}
use oomwoo_firmware.Protocol.Stream.{count_frame, count_discarded, Callback, call}
use oomwoo_firmware.Protocol.Stream.Reference.{Scan, rest, scan_bytes}
use oomwoo_firmware.Protocol.Stream.Loop.{Waits}
use oomwoo_firmware.Protocol.Stream.Rounds.{
  scan_bytes-append, scan_byte_waiting, scan_byte_noise, scan_byte_last,
}

-- The fields of a frame to send.
pub record Packet : Type 0 where
  pub flags : ℕ
  pub sequence : ℕ
  pub message_type : ℕ
  pub payload : Bytes

pub record IsPacket (k : Packet) : Type 0 where
  pub sequence16 : IsU16 k.sequence
  pub type16 : IsU16 k.message_type
  pub small : length k.payload ≤ max_payload_size

abbrev pub packet_bytes : Packet → Bytes
packet_bytes k = frame_bytes k.flags k.sequence k.message_type k.payload

abbrev pub packet_frame : Packet → DecodedFrame
packet_frame k = record {
  version = protocol_version;
  flags = k.flags;
  sequence = k.sequence;
  message_type = k.message_type;
  payload_length = length k.payload;
  payload = some k.payload;
}

-- Frames one after the other.
abbrev pub packets_bytes : List Packet → Bytes
packets_bytes [] = []
packets_bytes (k ∷ ks) = packet_bytes k ++ packets_bytes ks

pub packet-Passes : (k : Packet) → IsPacket k → Passes (packet_bytes k) (length (packet_bytes k))
packet-Passes k v =
    let p =
      frame-Passes k.flags k.sequence k.message_type k.payload [] v.sequence16 v.type16 v.small in
    subst (λ n. Passes (packet_bytes k) n)
      (sym (length-frame_bytes k.flags k.sequence k.message_type k.payload))
      (subst (λ b. Passes b (frame_size (length k.payload))) (append-nil (packet_bytes k)) p)

pub packet-decode :
    (k : Packet)
    → IsPacket k
    → decode_frame (some (packet_bytes k)) (length (packet_bytes k)) (some blank_frame)
      ≡ record { status = Status.ok; output = some (packet_frame k) }
packet-decode k v =
    ap₂ (λ b n. decode_frame (some b) n (some blank_frame)) (sym (append-nil (packet_bytes k)))
      (length-frame_bytes k.flags k.sequence k.message_type k.payload)
    ∙ decode_frame_bytes k.flags k.sequence k.message_type k.payload [] v.sequence16 v.type16
        v.small blank_frame

-- A proper beginning of a frame is what the decoder waits with.
front-Waits :
    (front : Bytes) (x : ℕ) (back whole : Bytes)
    → whole ≡ front ++ (x ∷ back)
    → Passes whole (length whole)
    → Waits front × (1 ≤ length front → byte_at front 0 ≡ magic_0)
front-Waits front x back whole e p =
    let m = length front in
    let same : take m whole ≡ front = ap (take m) e ∙ take_prefix front (x ∷ back) in
    let shorter : m < length whole = omega (arith, ap length e, length-append front (x ∷ back)) in
    let at = λ (i : ℕ) (h : i < m). ap (λ b. byte_at b i) (sym same) ∙ byte_at-take whole m i h in
    let len = λ (h : header_size ≤ m).
      ap (λ b. read_u16_le b 8) (sym same) ∙ read_u16_le-take whole m 8 (omega arith) in
    (
      record {
        magic = λ h. (at 0 (omega arith) ∙ p.first, at 1 h ∙ p.second);
        version = λ h. at 2 (omega arith) ∙ p.version;
        small = λ h. omega (arith, len h, p.small);
        partial = λ h. omega (arith, len h, p.exact);
      },
      λ h. at 0 h ∙ p.first,
    )

module _ {C : Type 0} (callback : Callback C) where
  abbrev pub delivered : Scan C → DecodedFrame → Scan C
  delivered s frame = rest (record s {
    pending = [];
    stats = count_frame s.stats;
    context = call callback frame s.context;
    emitted = s.emitted + 1;
  })

  scan_frame_rest :
      (front : Bytes) (x : ℕ) (back whole : Bytes) (frame : DecodedFrame) (s : Scan C)
      → whole ≡ front ++ (x ∷ back)
      → s.pending ≡ front
      → Passes whole (length whole)
      → decode_frame (some whole) (length whole) (some blank_frame)
        ≡ record { status = Status.ok; output = some frame }
      → scan_bytes callback s (x ∷ back) ≡ delivered s frame
  unfolding scan_bytes
  scan_frame_rest front x [] whole frame s e held p decoded =
      let whole_held : whole ≡ s.pending ++ (x ∷ []) = e ∙ ap (λ b. b ++ (x ∷ [])) (sym held) in
      let room : length s.pending < max_frame_size =
        omega
          (arith, ap length held, ap length e, length-append front (x ∷ []), p.exact, p.small) in
      scan_byte_last callback s x frame room (rw whole_held at p) (rw whole_held at decoded)
  scan_frame_rest front x (y ∷ back) whole frame s e held p decoded =
      let longer = front ++ (x ∷ []) in
      let regroup : whole ≡ longer ++ (y ∷ back) =
        e ∙ sym (append_assoc front (x ∷ []) (y ∷ back)) in
      let (waits, first) = front-Waits longer y back whole regroup p in
      let grown : s.pending ++ (x ∷ []) ≡ longer = ap (λ b. b ++ (x ∷ [])) held in
      let room : length s.pending < max_frame_size = omega (
        arith,
        ap length held,
        ap length e,
        length-append front (x ∷ y ∷ back),
        p.exact,
        p.small,
      ) in
      ap (λ t. scan_bytes callback t (y ∷ back))
        (scan_byte_waiting callback s x room (rw grown waits)
          (λ h. rw grown (first (omega (arith, ap length grown)))))
      ∙ scan_frame_rest longer y back whole frame
          (rest (record s { pending = s.pending ++ (x ∷ []) })) regroup grown p decoded

  pub scan_packet :
      (k : Packet) (s : Scan C)
      → IsPacket k
      → s.pending ≡ []
      → scan_bytes callback s (packet_bytes k) ≡ delivered s (packet_frame k)
  scan_packet k s v empty =
      scan_frame_rest [] magic_0 _ (packet_bytes k) (packet_frame k) s refl empty
        (packet-Passes k v) (packet-decode k v)

  abbrev pub deliver_all : Scan C → List Packet → Scan C
  deliver_all s [] = s
  deliver_all s (k ∷ ks) = deliver_all (delivered s (packet_frame k)) ks

  pub scan_packets :
      (ks : List Packet) (s : Scan C)
      → All IsPacket ks
      → s.pending ≡ []
      → scan_bytes callback s (packets_bytes ks) ≡ deliver_all s ks
  scan_packets [] s v empty = unfold scan_bytes in refl
  scan_packets (k ∷ ks) s (vk, vks) empty =
      scan_bytes-append callback s (packet_bytes k) (packets_bytes ks)
      ∙ ap (λ t. scan_bytes callback t (packets_bytes ks)) (scan_packet k s vk empty)
      ∙ scan_packets ks (delivered s (packet_frame k)) vks refl

  abbrev pub skip_noise : Scan C → Bytes → Scan C
  skip_noise s [] = s
  skip_noise s (x ∷ xs) = skip_noise (rest (record s { stats = count_discarded s.stats 1 })) xs

  pub scan_noise :
      (noise : Bytes) (s : Scan C)
      → All (λ x. x ≢ magic_0) noise
      → s.pending ≡ []
      → scan_bytes callback s noise ≡ skip_noise s noise
  unfolding scan_bytes
  scan_noise [] s h empty = refl
  scan_noise (x ∷ xs) s (hx, hxs) empty =
      ap (λ t. scan_bytes callback t xs) (scan_byte_noise callback s x empty hx)
      ∙ scan_noise xs _ hxs empty
