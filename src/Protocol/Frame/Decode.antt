-- ===== src/Protocol/Frame/Decode.antt =====
-- What the decoder accepts, and what it reads from it.
pub mod RoundTrip
pub mod Prefix
use oomwoo_firmware.Prelude.{
  ℕ, zero, suc, ◌+◌, ◌-◌, ◌*◌, ◌/◌, ◌%◌, ◌≤◌, ◌<◌, ◌≡◌, ◌≢◌, refl, sym, ap, ap₂, ◌∙◌, some, none,
  List, [], ◌∷◌, ◌++◌, append_assoc, arith, length, drop, take, length-take, length-drop,
  take_two_more, All-get_or, Bytes, IsU8, IsU16, IsBytes, byte_at, bytes_of, ltb, ◌==◌,
  if◌then◌else◌, min,
}
use oomwoo_firmware.Protocol.{
  frame_of, Status, ok, DecodedFrame, magic_0, magic_1, protocol_version, header_size, crc_size,
  max_payload_size,
}
use oomwoo_firmware.Protocol.Wire.{read_u16_le}
use oomwoo_firmware.Protocol.Wire.Laws.{read_u16_le_lem}
use oomwoo_firmware.Protocol.Crc.{crc16_ccitt_false}
use oomwoo_firmware.Protocol.Frame.{
  Decoded, frame_size, decode_checks, decoded_fields, store_decoded, decode_frame,
}
use oomwoo_firmware.Protocol.Frame.Format.{word, header, frame_body, frame_bytes, checksum}

-- All tests of the decoder at once.
pub record Passes (bytes : Bytes) (n : ℕ) : Type 0 where
  pub long : header_size + crc_size ≤ n
  pub first : byte_at bytes 0 ≡ magic_0
  pub second : byte_at bytes 1 ≡ magic_1
  pub version : byte_at bytes 2 ≡ protocol_version
  pub small : read_u16_le bytes 8 ≤ max_payload_size
  pub exact : n ≡ frame_size (read_u16_le bytes 8)
  pub intact : read_u16_le bytes (n - crc_size) ≡ crc16_ccitt_false (some bytes) (n - crc_size)

pub decode_checks-ok : (bytes : Bytes) (n : ℕ) → decode_checks bytes n ≡ ok → Passes bytes n
unfolding decode_checks
decode_checks-ok bytes n e = ground arith

pub Passes-ok : (bytes : Bytes) (n : ℕ) → Passes bytes n → decode_checks bytes n ≡ ok
unfolding decode_checks
Passes-ok bytes n p = ground arith

store_decoded-eq-ok :
    (s : Status) (bytes : Bytes) (old : DecodedFrame) {f : DecodedFrame}
    → store_decoded s bytes old ≡ record { status = ok; output = some f }
    → (s ≡ ok) × (f ≡ decoded_fields bytes)
unfolding store_decoded
store_decoded-eq-ok Status.ok bytes old e = (refl, ground arith)
store_decoded-eq-ok _ bytes old e = ground arith

pub decode_frame-eq-ok :
    (bytes : Bytes) (n : ℕ) (old : DecodedFrame) {f : DecodedFrame}
    → decode_frame (some bytes) n (some old) ≡ record { status = ok; output = some f }
    → (decode_checks bytes n ≡ ok) × (f ≡ decoded_fields bytes)
unfolding decode_frame
decode_frame-eq-ok bytes n old e = store_decoded-eq-ok (decode_checks bytes n) bytes old e

store_decoded-status :
    (s : Status) (bytes : Bytes) (old : DecodedFrame) → (store_decoded s bytes old).status ≡ s
unfolding store_decoded
store_decoded-status Status.ok bytes old = refl
store_decoded-status _ bytes old = refl

-- The status of a decode is that of its checks.
pub decode_frame-status :
    (bytes : Bytes) (n : ℕ) (old : DecodedFrame)
    → (decode_frame (some bytes) n (some old)).status ≡ decode_checks bytes n
unfolding decode_frame
decode_frame-status bytes n old = store_decoded-status (decode_checks bytes n) bytes old

store_decoded-length :
    (s : Status) (bytes : Bytes) (old : DecodedFrame)
    → s ≡ ok
    → (frame_of (store_decoded s bytes old).output).payload_length ≡ read_u16_le bytes 8
unfolding store_decoded decoded_fields
store_decoded-length Status.ok bytes old e = refl
store_decoded-length _ bytes old e = cc

-- An accepted frame states the payload length that stands in its header.
pub decode_frame-length :
    (bytes : Bytes) (n : ℕ) (old : DecodedFrame)
    → (decode_frame (some bytes) n (some old)).status ≡ ok
    → (frame_of (decode_frame (some bytes) n (some old)).output).payload_length
      ≡ read_u16_le bytes 8
unfolding decode_frame
decode_frame-length bytes n old e =
    store_decoded-length (decode_checks bytes n) bytes old
      (sym (store_decoded-status (decode_checks bytes n) bytes old) ∙ e)

pub crc16-take :
    (bytes : Bytes) (n : ℕ) → crc16_ccitt_false (some bytes) n ≡ checksum (take n bytes)
unfolding crc16_ccitt_false
crc16-take bytes n = refl

word_of :
    (lo hi v : ℕ) (rest : Bytes)
    → IsU8 lo
    → IsU8 hi
    → v ≡ lo + hi * 256
    → word v rest ≡ lo ∷ hi ∷ rest
word_of lo hi v rest hl hh e = ap₂ (λ (x y : ℕ). x ∷ y ∷ rest) (omega arith) (omega arith)

-- The header in front of a payload of the length that it states, read back. The three words are
-- given by their bytes.
header_of :
    (bytes : Bytes) (s t n : ℕ)
    → IsBytes bytes
    → header_size + n ≤ length bytes
    → byte_at bytes 0 ≡ magic_0
    → byte_at bytes 1 ≡ magic_1
    → byte_at bytes 2 ≡ protocol_version
    → s ≡ byte_at bytes 4 + byte_at bytes 5 * 256
    → t ≡ byte_at bytes 6 + byte_at bytes 7 * 256
    → n ≡ byte_at bytes 8 + byte_at bytes 9 * 256
    → take (header_size + n) bytes
      ≡ header (byte_at bytes 3) s t n (take n (drop header_size bytes))
header_of (a ∷ b ∷ c ∷ d ∷ e ∷ g ∷ h ∷ i ∷ j ∷ k ∷ rest) s t n
      (ra, (rb, (rc, (rd, (re, (rg, (rh, (ri, (rj, (rk, rr)))))))))) room h0 h1 h2 hs ht hn =
    let ten : 10 + n ≡ suc (suc (suc (suc (suc (suc (suc (suc (suc (suc n))))))))) = omega arith in
    let tail = take n rest in
    rw (ten, h0, h1, h2)
      (ap (λ (r : Bytes). magic_0 ∷ magic_1 ∷ protocol_version ∷ d ∷ r)
        (sym (
          word_of e g s _ re rg hs
          ∙ ap (λ (r : Bytes). e ∷ g ∷ r)
              (word_of h i t _ rh ri ht
                ∙ ap (λ (r : Bytes). h ∷ i ∷ r) (word_of j k n tail rj rk hn)))))
header_of _ s t n ranged room h0 h1 h2 hs ht hn = absurd (omega arith)

module _ (bytes : Bytes) (n : ℕ) (ranged : IsBytes bytes) (inside : n ≤ length bytes) where
  byte_at-IsU8 : (i : ℕ) → IsU8 (byte_at bytes i)
  byte_at-IsU8 i = All-get_or IsU8 bytes i 0 (omega arith) ranged

  read_parts : (at : ℕ) → read_u16_le bytes at ≡ byte_at bytes at + byte_at bytes (at + 1) * 256
  read_parts at = read_u16_le_lem bytes at (byte_at-IsU8 at) (byte_at-IsU8 (at + 1))

  -- The bytes of an accepted frame are what an encode of the decoded fields writes.
  pub Passes-frame_bytes :
      Passes bytes n
      → take n bytes
        ≡ frame_bytes
            (byte_at bytes 3)
            (read_u16_le bytes 4)
            (read_u16_le bytes 6)
            (take (read_u16_le bytes 8) (drop header_size bytes))
  Passes-frame_bytes p =
      let len = read_u16_le bytes 8 in
      let payload = take len (drop header_size bytes) in
      let body = frame_body (byte_at bytes 3) (read_u16_le bytes 4) (read_u16_le bytes 6) payload in
      let full : length payload ≡ len =
        omega (
          arith,
          p.exact,
          length-take len (drop header_size bytes),
          length-drop header_size bytes,
        ) in
      let front : take (header_size + len) bytes ≡ body =
        header_of bytes _ _ len ranged (omega (arith, p.exact)) p.first p.second p.version
          (read_parts 4) (read_parts 6) (read_parts 8)
        ∙ ap (λ k. header (byte_at bytes 3) (read_u16_le bytes 4) (read_u16_le bytes 6) k payload)
            (sym full) in
      let k = header_size + len in
      let crc : checksum body ≡ byte_at bytes k + byte_at bytes (k + 1) * 256 =
        ap checksum (sym front)
        ∙ sym (crc16-take bytes k)
        ∙ ap (crc16_ccitt_false (some bytes)) (omega (arith, p.exact))
        ∙ sym p.intact
        ∙ ap (read_u16_le bytes) (omega (arith, p.exact))
        ∙ read_parts k in
      ap (λ j. take j bytes) {y = k + 2} (omega (arith, p.exact))
      ∙ take_two_more k bytes 0 (omega (arith, p.exact))
      ∙ ap₂ ◌++◌ front
          (sym (word_of _ _ (checksum body) [] (byte_at-IsU8 k) (byte_at-IsU8 (k + 1)) crc))

  -- What the decoder accepts is a frame: for an input of bytes whose length is not beyond its array,
  -- the frame returned has the protocol's version, a payload of the stated length of at most 512
  -- bytes, and the input is exactly the encoding of the returned fields.
  pub decode_frame-IsFrame :
      (old : DecodedFrame) {f : DecodedFrame}
      → decode_frame (some bytes) n (some old) ≡ record { status = ok; output = some f }
      → (payload : Bytes) × (f.payload ≡ some payload)
        × (f.payload_length ≡ length payload)
        × (f.version ≡ protocol_version)
        × (length payload ≤ max_payload_size)
        × (take n bytes ≡ frame_bytes f.flags f.sequence f.message_type payload)
  decode_frame-IsFrame old {f} e =
      let (passed, fields) = decode_frame-eq-ok bytes n old e in
      let p = decode_checks-ok bytes n passed in
      let len = read_u16_le bytes 8 in
      rw fields (
        unfold decoded_fields in
        (
          take len (drop header_size bytes),
          refl,
          omega (
            arith,
            p.exact,
            length-take len (drop header_size bytes),
            length-drop header_size bytes,
          ),
          p.version,
          omega (arith, p.small, length-take len (drop header_size bytes)),
          Passes-frame_bytes p,
        ))
