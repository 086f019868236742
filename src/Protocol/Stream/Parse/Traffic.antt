-- ===== src/Protocol/Stream/Parse/Traffic.antt =====
-- Streams of frames with damage between them, and what the parser makes of them.
use oomwoo_firmware.Prelude.{
  ℕ, suc, ◌+◌, ◌-◌, ◌≤◌, ◌≡◌, ◌≢◌, ◌⊎◌, some, List, [], ◌∷◌, ◌++◌, length, drop, Bytes, byte_at,
}
use oomwoo_firmware.Protocol.{
  magic_0, magic_1, protocol_version, header_size, crc_size, max_payload_size,
}
use oomwoo_firmware.Protocol.Wire.{read_u16_le}
use oomwoo_firmware.Protocol.Crc.{crc16_ccitt_false}
use oomwoo_firmware.Protocol.Frame.{frame_size}
use oomwoo_firmware.Protocol.Stream.Packets.{Packet, IsPacket, packet_bytes}

-- Bytes without an `OW`, and without an `O` at their end: no frame begins in them.
abbrev pub IsQuiet : Bytes → Type 0
IsQuiet [] = Unit
IsQuiet (x ∷ []) = x ≢ magic_0
IsQuiet (x ∷ y ∷ rest) = ((x ≢ magic_0) ⊎ (y ≢ magic_1)) × IsQuiet (y ∷ rest)

-- A frame of this version by its header, as long as that says.
pub record Headed (p : Bytes) : Type 0 where
  pub first : byte_at p 0 ≡ magic_0
  pub second : byte_at p 1 ≡ magic_1
  pub version : byte_at p 2 ≡ protocol_version
  pub small : read_u16_le p 8 ≤ max_payload_size
  pub exact : length p ≡ frame_size (read_u16_le p 8)

-- Such a frame with a wrong checksum, and nothing behind its first byte that a frame could begin with.
pub record IsDamaged (p : Bytes) : Type 0 where
  pub headed : Headed p
  pub broken :
      read_u16_le p (length p - crc_size) ≢ crc16_ccitt_false (some p) (length p - crc_size)
  pub quiet : IsQuiet (drop 1 p)

-- A header of another version with anything behind it, and nothing behind its first byte that a frame could begin with.
pub record IsForeign (p : Bytes) : Type 0 where
  pub first : byte_at p 0 ≡ magic_0
  pub second : byte_at p 1 ≡ magic_1
  pub version : byte_at p 2 ≢ protocol_version
  pub long : header_size ≤ length p
  pub quiet : IsQuiet (drop 1 p)

pub data Item : Type 0 where
  noise : Bytes → Item
  damaged : Bytes → Item
  foreign : Bytes → Item
  packet : Packet → Item

abbrev pub IsItem : Item → Type 0
IsItem (noise p) = IsQuiet p
IsItem (damaged p) = IsDamaged p
IsItem (foreign p) = IsForeign p
IsItem (packet k) = IsPacket k

abbrev pub item_bytes : Item → Bytes
item_bytes (noise p) = p
item_bytes (damaged p) = p
item_bytes (foreign p) = p
item_bytes (packet k) = packet_bytes k

abbrev pub traffic_bytes : List Item → Bytes
traffic_bytes [] = []
traffic_bytes (i ∷ is) = item_bytes i ++ traffic_bytes is

-- The frames of a traffic, in order, and what else is in it.
abbrev pub packets : List Item → List Packet
packets [] = []
packets (packet k ∷ is) = k ∷ packets is
packets (_ ∷ is) = packets is

abbrev pub lost_bytes : List Item → ℕ
lost_bytes [] = 0
lost_bytes (packet k ∷ is) = lost_bytes is
lost_bytes (i ∷ is) = length (item_bytes i) + lost_bytes is

abbrev pub damages : List Item → ℕ
damages [] = 0
damages (damaged p ∷ is) = suc (damages is)
damages (_ ∷ is) = damages is

abbrev pub foreigners : List Item → ℕ
foreigners [] = 0
foreigners (foreign p ∷ is) = suc (foreigners is)
foreigners (_ ∷ is) = foreigners is
