-- ===== src/Protocol/Stream/Memory/Array.antt =====
-- The operations on the array, with other memory standing behind it.
use oomwoo_firmware.Prelude.{
  ℕ, zero, suc, ◌+◌, ◌-◌, ◌≤◌, ◌<◌, ◌≡◌, refl, sym, ap, ◌∙◌, Bool, true, ◌||◌, Option, none, inl,
  inr, some, ◌++◌, append_assoc, arith, length, take, drop, Bytes, byte_at, ltb, ◌==◌, Bool-cases,
  memmove_front, length-drop, take-append_le, drop-append_le, set-append_lt, get_or-append_lt,
}
use oomwoo_firmware.Protocol.{magic_0, max_frame_size}
use oomwoo_firmware.Protocol.Stream.{
  StreamDecoder, remove_prefix, find_magic, resync_at, resync_after_error, make_room, append_byte,
}
use oomwoo_firmware.Protocol.Stream.Buffer.{IsValid}

memmove_front-append :
    (b tail : Bytes) (from count : ℕ)
    → from + count ≤ length b
    → memmove_front (b ++ tail) from count ≡ memmove_front b from count ++ tail
memmove_front-append b tail from count h =
    rw
      (
        drop-append_le from b tail (omega arith),
        drop-append_le count b tail (omega arith),
        take-append_le count (drop from b) tail (omega (arith, length-drop from b)),
      )
      (sym (append_assoc (take count (drop from b)) (drop count b) tail))

module _ (tail : Bytes) where
  -- The same decoder with `tail` standing behind its array.
  abbrev pub extend : StreamDecoder → StreamDecoder
  extend d = record d { buffer = d.buffer ++ tail }

  pub remove_prefix-extend :
      (d : StreamDecoder) (count : ℕ) (discarded : Bool)
      → IsValid d
      → remove_prefix (extend d) count discarded ≡ extend (remove_prefix d count discarded)
  unfolding remove_prefix
  remove_prefix-extend d count discarded v =
      let left = d.buffered_bytes - count in
      elim (Bool-cases (count == 0 || ltb d.buffered_bytes count)) [
        | inl nothing ↦ rw nothing refl
        | inr some_bytes ↦ rw some_bytes (elim (Bool-cases (left == 0)) [
          | inl all ↦ rw all refl
          | inr kept ↦
              rw
                (
                  kept,
                  memmove_front-append d.buffer tail count left (ground (arith, v.whole, v.fits)),
                )
                refl
        ])
      ]

  find_magic-extend :
      (b : Bytes) (left index : ℕ)
      → index + left < length b
      → find_magic (b ++ tail) left index ≡ find_magic b left index
  unfolding find_magic
  find_magic-extend b zero index h = refl
  find_magic-extend b (suc left) index h =
      rw
        (
          get_or-append_lt b tail index 0 (omega arith),
          get_or-append_lt b tail (index + 1) 0 (omega arith),
          find_magic-extend b left (index + 1) (omega arith),
        )
        refl

  resync_at-extend :
      (d : StreamDecoder) (found : Option ℕ)
      → IsValid d
      → resync_at (extend d) found ≡ extend (resync_at d found)
  unfolding resync_at
  resync_at-extend d (some index) v = remove_prefix-extend d index true v
  resync_at-extend d none v = elim (Bool-cases (d.buffered_bytes == 0)) [
    | inl empty ↦ rw empty (remove_prefix-extend d d.buffered_bytes true v)
    | inr held ↦
        let n = d.buffered_bytes in
        let last = get_or-append_lt d.buffer tail (n - 1) 0 (ground (arith, v.whole, v.fits)) in
        rw (held, last)
          (elim (Bool-cases (byte_at d.buffer (n - 1) == magic_0)) [
            | inl o ↦ rw o (remove_prefix-extend d (n - 1) true v)
            | inr other ↦ rw other (remove_prefix-extend d n true v)
          ])
  ]

  pub resync_after_error-extend :
      (d : StreamDecoder)
      → IsValid d
      → resync_after_error (extend d) ≡ extend (resync_after_error d)
  unfolding resync_after_error
  resync_after_error-extend d v =
      ap (resync_at (extend d))
        (find_magic-extend d.buffer (d.buffered_bytes - 2) 1 (omega (arith, v.whole, v.fits)))
      ∙ resync_at-extend d (find_magic d.buffer (d.buffered_bytes - 2) 1) v

  pub make_room-extend :
      (d : StreamDecoder) → IsValid d → make_room (extend d) ≡ extend (make_room d)
  make_room-extend d v = elim (Bool-cases (d.buffered_bytes == max_frame_size)) [
    | inl full ↦ rw full (resync_after_error-extend d v)
    | inr spare ↦ rw spare refl
  ]

  pub append_byte-extend :
      (d : StreamDecoder) (byte : ℕ)
      → IsValid d
      → d.buffered_bytes < max_frame_size
      → append_byte (extend d) byte ≡ extend (append_byte d byte)
  append_byte-extend d byte v room =
      rw (set-append_lt d.buffer tail d.buffered_bytes byte (omega (arith, v.whole))) refl
