-- ===== src/Protocol/Frame/Corruption.antt =====
-- A frame with one byte changed is never accepted.
use native.Mathlib.Decide.{dec_lt}
use oomwoo_firmware.Prelude.{
  ℕ, ◌+◌, ◌-◌, ◌*◌, ◌≤◌, ◌<◌, ◌≡◌, ◌≢◌, sym, ap, ◌∙◌, some, arith, length, set, take, take-set_in,
  take-set_out, get_or-set_self, get_or-set_ne, All-set, All-get_or, Bytes, IsU8, IsBytes, byte_at,
}
use oomwoo_firmware.Protocol.{ok, DecodedFrame, crc_size}
use oomwoo_firmware.Protocol.Wire.{read_u16_le}
use oomwoo_firmware.Protocol.Wire.Laws.{read_u16_le_lem}
use oomwoo_firmware.Protocol.Crc.Laws.{crc_loop_one_byte}
use oomwoo_firmware.Protocol.Frame.{decode_frame}
use oomwoo_firmware.Protocol.Frame.Format.{checksum}
use oomwoo_firmware.Protocol.Frame.Decode.{
  Passes, decode_checks-ok, decode_frame-status, crc16-take,
}

module _ (bytes : Bytes) (n i v : ℕ) (ranged : IsBytes bytes) (inside : n ≤ length bytes)
    (at : i < n) (byte : IsU8 v) where
  abbrev changed : Bytes
  changed = set bytes i v

  changed-IsBytes : IsBytes changed
  changed-IsBytes = All-set IsU8 bytes i v byte ranged

  parts :
      (b : Bytes) → IsBytes b → (k : ℕ) → read_u16_le b k ≡ byte_at b k + byte_at b (k + 1) * 256
  parts b h k =
      read_u16_le_lem b k (All-get_or IsU8 b k 0 (omega arith) h)
        (All-get_or IsU8 b (k + 1) 0 (omega arith) h)

  byte-IsU8 : IsU8 (byte_at bytes i)
  byte-IsU8 = All-get_or IsU8 bytes i 0 (omega arith) ranged

  -- A change in front of the checksum changes the checksum.
  body_change : i < n - crc_size → Passes bytes n → Passes changed n → v ≡ byte_at bytes i
  body_change before p q =
      let k = n - crc_size in
      let (front, back, was, is) = take-set_in k bytes i v 0 before (omega arith) in
      let kept0 : byte_at changed k ≡ byte_at bytes k = get_or-set_ne bytes i k v 0 (omega arith) in
      let kept1 : byte_at changed (k + 1) ≡ byte_at bytes (k + 1) =
        get_or-set_ne bytes i (k + 1) v 0 (omega arith) in
      let stored : read_u16_le changed k ≡ read_u16_le bytes k =
        omega (arith, parts changed changed-IsBytes k, parts bytes ranged k) in
      let sums : checksum (take k changed) ≡ checksum (take k bytes) =
        sym (crc16-take changed k) ∙ sym q.intact ∙ stored ∙ p.intact ∙ crc16-take bytes k in
      crc_loop_one_byte front back 0xffff v (byte_at bytes i) (omega arith) byte byte-IsU8
        (sym (ap checksum is) ∙ sums ∙ ap checksum was)

  -- A change in the checksum no longer fits the body.
  crc_change : n - crc_size ≤ i → Passes bytes n → Passes changed n → v ≡ byte_at bytes i
  crc_change behind p q =
      let k = n - crc_size in
      let stored : read_u16_le changed k ≡ read_u16_le bytes k =
        q.intact
        ∙ crc16-take changed k
        ∙ ap checksum (take-set_out k bytes i v behind)
        ∙ sym (crc16-take bytes k)
        ∙ sym p.intact in
      let self : byte_at changed i ≡ v = get_or-set_self bytes i v 0 (omega arith) in
      elim (dec_lt i (k + 1)) [
        | yes low ↦
            let e : i ≡ k = omega arith in
            omega (
              arith,
              self,
              ap (byte_at bytes) e,
              ap (byte_at changed) e,
              get_or-set_ne bytes i (k + 1) v 0 (omega arith),
              parts changed changed-IsBytes k,
              parts bytes ranged k,
            )
        | no high ↦
            let e : i ≡ k + 1 = omega (arith, p.long) in
            omega (
              arith,
              self,
              ap (byte_at bytes) e,
              ap (byte_at changed) e,
              get_or-set_ne bytes i k v 0 (omega arith),
              parts changed changed-IsBytes k,
              parts bytes ranged k,
            )
      ]

  -- If a frame of bytes is accepted, it is not accepted any more after any one of its bytes is
  -- changed to another byte.
  pub one_byte_detected :
      (old : DecodedFrame)
      → v ≢ byte_at bytes i
      → (decode_frame (some bytes) n (some old)).status ≡ ok
      → (decode_frame (some (set bytes i v)) n (some old)).status ≢ ok
  one_byte_detected old differs accepted again =
      let p = decode_checks-ok bytes n (sym (decode_frame-status bytes n old) ∙ accepted) in
      let q = decode_checks-ok changed n (sym (decode_frame-status changed n old) ∙ again) in
      elim (dec_lt i (n - crc_size)) [
        | yes before ↦ differs (body_change before p q)
        | no behind ↦ differs (crc_change (omega arith) p q)
      ]
