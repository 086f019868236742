-- ===== src/Protocol/Frame/Encode.antt =====
-- What a successful encode leaves in the output array.
use oomwoo_firmware.Prelude.{
  Option, ◌<◌, is_null, ◌↔◌, ◌⊎◌, ℕ, suc, ◌+◌, ◌/◌, ◌-◌, ◌≤◌, ◌≡◌, refl, sym, ap, ap₂, ◌∙◌, some,
  [], ◌∷◌, ◌++◌, append_assoc, arith, length, drop, set, length-drop, take_all, take_prefix,
  drop_add, set-append, Bytes, IsU16, not-lt→ltb, ◌==◌, if◌then◌else◌, memcpy, false,
}
use oomwoo_firmware.Protocol.{Status, max_payload_size, header_size, crc_size}
use oomwoo_firmware.Protocol.Wire.{write_u16_le}
use oomwoo_firmware.Protocol.Wire.Laws.{write_u16_le_lem}
use oomwoo_firmware.Protocol.Crc.{crc16_ccitt_false}
use oomwoo_firmware.Protocol.Frame.{frame_size, write_header, write_frame, encode_frame}
use oomwoo_firmware.Protocol.Frame.Format.{
  word, header, frame_body, frame_bytes, checksum, checksum-IsU16,
}

write_header_lem :
    (message_type n sequence flags : ℕ) (out : Bytes)
    → IsU16 message_type
    → IsU16 n
    → IsU16 sequence
    → 10 ≤ length out
    → write_header message_type n sequence flags out
      ≡ header flags sequence message_type n (drop 10 out)
unfolding write_header
write_header_lem t n s f (a ∷ b ∷ c ∷ d ∷ e ∷ g ∷ h ∷ i ∷ j ∷ k ∷ rest) ht hn hs room =
    ap (λ out. write_u16_le (write_u16_le out 6 t) 8 n) (write_u16_le_lem _ 4 s hs)
    ∙ ap (λ out. write_u16_le out 8 n) (write_u16_le_lem _ 6 t ht)
    ∙ write_u16_le_lem _ 8 n hn
write_header_lem t n s f _ ht hn hs room = absurd (omega arith)

-- A word written just behind `front`.
write_word :
    (front back : Bytes) (at value : ℕ)
    → at ≡ length front
    → IsU16 value
    → 2 ≤ length back
    → write_u16_le (front ++ back) at value ≡ front ++ word value (drop 2 back)
write_word front (a ∷ b ∷ back) at value e h room =
    write_u16_le_lem _ at value h
    ∙ ap (λ out. set out (at + 1) (value / 256))
        (set-append front (a ∷ b ∷ back) 0 at _ (omega arith))
    ∙ set-append front _ 1 (at + 1) _ (omega arith)
write_word front _ at value e h room = absurd (omega arith)

suc-ne-zero : (n : ℕ) → (suc n == 0) ≡ false
suc-ne-zero n = ground arith

-- The array after the payload is copied behind the header.
filled_lem :
    (flags sequence message_type : ℕ) (payload rest : Bytes)
    → (if length payload == 0
        then header flags sequence message_type (length payload) rest
        else memcpy
            (header flags sequence message_type (length payload) rest)
            header_size
            payload
            (length payload))
      ≡ frame_body flags sequence message_type payload ++ drop (length payload) rest
filled_lem f s t [] rest = refl
filled_lem f s t (x ∷ payload) rest = rw (suc-ne-zero (length payload)) (
    ap₂ (λ p r. header f s t (length (x ∷ payload)) (p ++ r))
      (take_all (length (x ∷ payload)) (x ∷ payload) (omega arith))
      (drop_add 10 (length (x ∷ payload)) (header f s t (length (x ∷ payload)) rest)))

crc-frame_body :
    (body rest : Bytes) (n : ℕ)
    → n ≡ length body
    → crc16_ccitt_false (some (body ++ rest)) n ≡ checksum body
unfolding crc16_ccitt_false
crc-frame_body body rest n e = rw e (ap checksum (take_prefix body rest))

drop_frame : (n : ℕ) (out : Bytes) → drop 2 (drop n (drop 10 out)) ≡ drop (frame_size n) out
drop_frame n out =
    sym (drop_add n 2 (drop 10 out))
    ∙ sym (drop_add 10 (n + 2) out)
    ∙ ap (λ k. drop k out) (omega arith)

module _ (flags sequence message_type : ℕ) (payload out : Bytes) (type16 : IsU16 message_type)
    (sequence16 : IsU16 sequence) (fits : length payload ≤ max_payload_size)
    (room : frame_size (length payload) ≤ length out) where
  write_frame_lem :
      write_frame message_type payload (length payload) sequence flags out
      ≡ frame_bytes flags sequence message_type payload ++ drop (frame_size (length payload)) out
  unfolding write_frame
  write_frame_lem =
      let n = length payload in
      let body = frame_body flags sequence message_type payload in
      let spare = drop n (drop 10 out) in
      let filled = body ++ spare in
      ap
        (λ headed.
          write_u16_le (if n == 0 then headed else memcpy headed header_size payload n)
            (frame_size n - crc_size)
            (crc16_ccitt_false
              (some (if n == 0 then headed else memcpy headed header_size payload n))
              (header_size + n)))
        (write_header_lem message_type n sequence flags out type16 (omega arith) sequence16
          (omega arith))
      ∙ ap
          (λ filled.
            write_u16_le filled (frame_size n - crc_size)
              (crc16_ccitt_false (some filled) (header_size + n)))
          (filled_lem flags sequence message_type payload (drop 10 out))
      ∙ ap (λ crc. write_u16_le filled (frame_size n - crc_size) crc)
          (crc-frame_body body spare (header_size + n) (omega arith))
      ∙ write_word body spare (frame_size n - crc_size) (checksum body) (omega arith)
          (checksum-IsU16 body) (omega (arith, length-drop n (drop 10 out), length-drop 10 out))
      ∙ ap (λ rest. body ++ word (checksum body) rest) (drop_frame n out)
      ∙ sym (append_assoc body (word (checksum body) []) (drop (frame_size n) out))

  -- An encode of a 16-bit message type and sequence and at most 512 payload bytes into an array with
  -- room succeeds, writes exactly the frame's bytes, leaves
  -- the rest of the array alone, and reports the frame's length.
  pub encode_frame_lem :
      (capacity old_length : ℕ)
      → frame_size (length payload) ≤ capacity
      → encode_frame message_type
          (some payload)
          (length payload)
          sequence
          flags
          (some out)
          capacity
          (some old_length)
        ≡ record {
          status = Status.ok;
          output = some (
              frame_bytes flags sequence message_type payload
              ++ drop (frame_size (length payload)) out);
          output_length = some (frame_size (length payload));
        }
  unfolding encode_frame
  encode_frame_lem capacity old_length enough =
      rw (not-lt→ltb _ _ fits, not-lt→ltb _ _ enough, write_frame_lem)

-- The statuses of an encode: it succeeds exactly when the pointers that it needs are not NULL, the
-- payload has at most 512 bytes and the frame fits the capacity. It gives each error exactly when
-- that test is the first to fail, and then leaves the output array and the length as they were.
pub encode_frame_status :
    (message_type n sequence flags capacity : ℕ) (payload output : Option Bytes)
    (out_length : Option ℕ)
    → let e = encode_frame message_type payload n sequence flags output capacity out_length in
      let usable =
        (is_null output ≡ false)
        × (is_null out_length ≡ false)
        × ((is_null payload ≡ false) ⊎ (n ≡ 0)) in
      ((e.status ≡ Status.ok) ↔ (usable × (n ≤ max_payload_size) × (frame_size n ≤ capacity)))
      × ((e.status ≡ Status.null_argument) ↔ (¬ usable))
      × ((e.status ≡ Status.payload_too_large) ↔ (usable × (max_payload_size < n)))
      × ((e.status ≡ Status.output_too_small)
          ↔ (usable × (n ≤ max_payload_size) × (capacity < frame_size n)))
      × ((e.status ≡ Status.ok) ⊎ ((e.output ≡ output) × (e.output_length ≡ out_length)))
unfolding encode_frame
encode_frame_status t n s f capacity payload output out_length =
    (ground arith, ground arith, ground arith, ground arith, ground arith)
