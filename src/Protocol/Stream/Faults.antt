-- ===== src/Protocol/Stream/Faults.antt =====
-- Which error a decode behind the decoder's own tests can give.
use oomwoo_firmware.Prelude.{◌≤◌, ◌≡◌, ◌⊎◌, some, arith, Bytes, byte_at}
use oomwoo_firmware.Protocol.{
  ok, bad_crc, magic_0, magic_1, protocol_version, max_payload_size, DecodedFrame,
}
use oomwoo_firmware.Protocol.Wire.{read_u16_le}
use oomwoo_firmware.Protocol.Frame.{frame_size, decode_checks, decode_frame}
use oomwoo_firmware.Protocol.Frame.Decode.{decode_frame-status}

-- With the magic, the version and a length that fits, a decode of the length that the header states
-- succeeds or finds a bad checksum.
pub decode_in_feed :
    (bytes : Bytes) (old : DecodedFrame)
    → byte_at bytes 0 ≡ magic_0
    → byte_at bytes 1 ≡ magic_1
    → byte_at bytes 2 ≡ protocol_version
    → read_u16_le bytes 8 ≤ max_payload_size
    → let status =
        (decode_frame (some bytes) (frame_size (read_u16_le bytes 8)) (some old)).status in
      (status ≡ ok) ⊎ (status ≡ bad_crc)
unfolding decode_checks
decode_in_feed bytes old first second version small =
    let same = decode_frame-status bytes (frame_size (read_u16_le bytes 8)) old in
    ground (arith, same)
