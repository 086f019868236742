-- ===== src/Protocol/Stream/Parse/Damage.antt =====
-- A frame with one changed byte is a damaged frame.
use oomwoo_firmware.Prelude.{
  IsU8, ℕ, ◌<◌, ◌≤◌, ◌≡◌, ◌≢◌, sym, ap, ◌∙◌, ◌⊎◌, length, length-set, set, get_or-set_ne, drop,
  Bytes, IsBytes, byte_at, arith,
}
use oomwoo_firmware.Protocol.{blank_frame}
use oomwoo_firmware.Protocol.Wire.{read_u16_le}
use oomwoo_firmware.Protocol.Frame.Decode.{Passes, Passes-ok, decode_frame-status}
use oomwoo_firmware.Protocol.Frame.Corruption.{one_byte_detected}
use oomwoo_firmware.Protocol.Stream.Packets.{
  Packet, IsPacket, packet_bytes, packet-Passes, packet-decode,
}
use oomwoo_firmware.Protocol.Stream.Parse.Traffic.{IsQuiet, Headed, IsDamaged}

-- The changed byte is not one of the magic, the version or the length.
abbrev pub IsBody : ℕ → Type 0
IsBody i = ((3 ≤ i) × (i < 8)) ⊎ (10 ≤ i)

set-Headed : (p : Bytes) (i v : ℕ) → Passes p (length p) → IsBody i → Headed (set p i v)
unfolding read_u16_le
set-Headed p i v h body =
    let same = λ (j : ℕ) (ne : i ≢ j). get_or-set_ne p i j v 0 ne in
    record {
      first = same 0 (omega arith) ∙ h.first;
      second = same 1 (omega arith) ∙ h.second;
      version = same 2 (omega arith) ∙ h.version;
      small = rw (same 8 (omega arith), same 9 (omega arith)) h.small;
      exact = rw (same 8 (omega arith), same 9 (omega arith)) (length-set p i v ∙ h.exact);
    }

pub set-IsDamaged :
    (k : Packet) (i v : ℕ)
    → let p = packet_bytes k in
      IsPacket k
      → IsBytes p
      → i < length p
      → IsU8 v
      → v ≢ byte_at p i
      → IsBody i
      → IsQuiet (drop 1 (set p i v))
      → IsDamaged (set p i v)
set-IsDamaged k i v packet ranged inside byte differs body quiet =
    let p = packet_bytes k in
    let n = length p in
    let passes = packet-Passes k packet in
    let headed = set-Headed p i v passes body in
    let long : length (set p i v) ≡ n = length-set p i v in
    let refused =
      one_byte_detected p n i v ranged (omega arith) inside byte blank_frame differs
        (ap (λ d. d.status) (packet-decode k packet)) in
    record {
      headed = headed;
      broken = rw long (λ intact. refused (
          decode_frame-status (set p i v) n blank_frame
          ∙ Passes-ok (set p i v) n (record {
            long = passes.long;
            first = headed.first;
            second = headed.second;
            version = headed.version;
            small = headed.small;
            exact = sym long ∙ headed.exact;
            intact = intact;
          })));
      quiet = quiet;
    }
