-- ===== src/Protocol/Stream/Samples.antt =====
-- Frames, noise and a callback for the tests.
use oomwoo_firmware.Prelude.{ℕ, some, List, [], ◌∷◌, arith, Bytes}
use oomwoo_firmware.Protocol.Stream.{Callback}
use oomwoo_firmware.Protocol.Stream.Packets.{Packet, IsPacket}

-- Two frames: one of two payload bytes, and an empty one.
abbrev pub hello : Packet
hello = record { flags = 0; sequence = 7; message_type = 16; payload = 0xAA ∷ 0xBB ∷ [] }

abbrev pub ping : Packet
ping = record { flags = 1; sequence = 8; message_type = 2; payload = [] }

pub hello-IsPacket : IsPacket hello
hello-IsPacket = record { sequence16 = omega arith; type16 = omega arith; small = omega arith }

pub ping-IsPacket : IsPacket ping
ping-IsPacket = record { sequence16 = omega arith; type16 = omega arith; small = omega arith }

-- Bytes that begin no frame.
abbrev pub noise : Bytes
noise = 1 ∷ 2 ∷ 3 ∷ []

abbrev pub log_frame : Callback (List ℕ)
log_frame = some (λ frame log. frame.message_type ∷ log)
