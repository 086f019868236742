-- ===== src/Protocol/Frame/Decode/Prefix.antt =====
-- A decode looks at no byte behind the frame.
use oomwoo_firmware.Prelude.{
  ℕ, ◌+◌, ◌-◌, ◌≤◌, ◌<◌, ◌≡◌, refl, sym, ap, ap₂, ◌∙◌, ◌++◌, length, take_prefix, some, arith, take,
  drop, get_or-take, take-take, drop-take, Bytes, byte_at,
}
use oomwoo_firmware.Protocol.{Status, DecodedFrame, header_size, crc_size}
use oomwoo_firmware.Protocol.Wire.{read_u16_le}
use oomwoo_firmware.Protocol.Crc.{crc16_ccitt_false}
use oomwoo_firmware.Protocol.Frame.{
  frame_size, decode_checks, decoded_fields, store_decoded, decode_frame,
}
use oomwoo_firmware.Protocol.Frame.Format.{checksum}
use oomwoo_firmware.Protocol.Frame.Decode.{crc16-take}

store_decoded-fields :
    (s : Status) (b c : Bytes) (old : DecodedFrame)
    → decoded_fields b ≡ decoded_fields c
    → store_decoded s b old ≡ store_decoded s c old
unfolding store_decoded
store_decoded-fields Status.ok b c old e = rw e
store_decoded-fields _ b c old e = refl

module _ (bytes : Bytes) (m : ℕ) where
  pub byte_at-take : (i : ℕ) → i < m → byte_at (take m bytes) i ≡ byte_at bytes i
  byte_at-take i h = get_or-take m i bytes 0 h

  pub read_u16_le-take :
      (at : ℕ) → at + 1 < m → read_u16_le (take m bytes) at ≡ read_u16_le bytes at
  unfolding read_u16_le
  read_u16_le-take at h = rw (byte_at-take at (omega arith), byte_at-take (at + 1) h)

  crc-take :
      (n : ℕ) → n ≤ m → crc16_ccitt_false (some (take m bytes)) n ≡ crc16_ccitt_false (some bytes) n
  crc-take n h =
      crc16-take (take m bytes) n ∙ ap checksum (take-take n m bytes h) ∙ sym (crc16-take bytes n)

  module _ (inside : frame_size (read_u16_le bytes 8) ≤ m) where
    abbrev len : ℕ
    len = read_u16_le bytes 8

    decode_checks-take :
        decode_checks (take m bytes) (frame_size len) ≡ decode_checks bytes (frame_size len)
    unfolding decode_checks
    decode_checks-take = rw (
      read_u16_le-take 8 (omega arith),
      byte_at-take 0 (omega arith),
      byte_at-take 1 (omega arith),
      byte_at-take 2 (omega arith),
      read_u16_le-take (frame_size len - crc_size) (omega arith),
      crc-take (frame_size len - crc_size) (omega arith),
    )

    decoded_fields-take : decoded_fields (take m bytes) ≡ decoded_fields bytes
    unfolding decoded_fields
    decoded_fields-take =
        let cut : take len (drop header_size (take m bytes)) ≡ take len (drop header_size bytes) =
          drop-take header_size len (take m bytes)
          ∙ ap (drop header_size) (take-take (header_size + len) m bytes (omega arith))
          ∙ sym (drop-take header_size len bytes) in
        rw (
          read_u16_le-take 8 (omega arith),
          read_u16_le-take 4 (omega arith),
          read_u16_le-take 6 (omega arith),
          byte_at-take 2 (omega arith),
          byte_at-take 3 (omega arith),
          cut,
        )

    -- A decode of the frame length that the header states looks at no byte behind it: cutting the
    -- input to its first `m` bytes changes nothing, if the stated frame lies inside them.
    pub decode_frame-take :
        (old : DecodedFrame)
        → decode_frame (some (take m bytes)) (frame_size len) (some old)
          ≡ decode_frame (some bytes) (frame_size len) (some old)
    unfolding decode_frame
    decode_frame-take old =
        ap (λ s. store_decoded s (take m bytes) old) decode_checks-take
        ∙ store_decoded-fields (decode_checks bytes (frame_size len)) (take m bytes) bytes old
            decoded_fields-take

-- Bytes that stand before others.
module _ (p x : Bytes) where
  pub byte_at-front : (i : ℕ) → i < length p → byte_at (p ++ x) i ≡ byte_at p i
  byte_at-front i h =
      sym (byte_at-take (p ++ x) (length p) i h) ∙ ap (λ b. byte_at b i) (take_prefix p x)

  pub read_u16_le-front : (i : ℕ) → i + 1 < length p → read_u16_le (p ++ x) i ≡ read_u16_le p i
  read_u16_le-front i h =
      sym (read_u16_le-take (p ++ x) (length p) i h) ∙ ap (λ b. read_u16_le b i) (take_prefix p x)

  pub decode_frame-front :
      (old : DecodedFrame)
      → header_size ≤ length p
      → let n = frame_size (read_u16_le p 8) in
        n ≤ length p
        → decode_frame (some (p ++ x)) n (some old) ≡ decode_frame (some p) n (some old)
  decode_frame-front old header h =
      let e = read_u16_le-front 8 (omega arith) in
      ap (λ n. decode_frame (some (p ++ x)) (frame_size n) (some old)) (sym e)
      ∙ sym (decode_frame-take (p ++ x) (length p) (rw e h) old)
      ∙ ap₂ (λ b n. decode_frame (some b) (frame_size n) (some old)) (take_prefix p x) e
