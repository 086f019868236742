-- ===== src/Protocol/Stream/Parse/Remainder.antt =====
-- What the decoder's loop leaves: the beginning of a frame, unless it has just emitted one.
use oomwoo_firmware.Prelude.{
  ℕ, zero, suc, ◌+◌, ◌≤◌, ◌≡◌, refl, ap, true, false, not, ◌||◌, inl, inr, some, [], ◌∷◌, ltb, ◌==◌,
  if_case, drop, length, Bytes, byte_at, arith, Bool-cases,
}
use oomwoo_firmware.Protocol.{
  frame_of, magic_0, magic_1, protocol_version, header_size, max_payload_size, Status, DecodedFrame,
  blank_frame,
}
use oomwoo_firmware.Protocol.Wire.{read_u16_le}
use oomwoo_firmware.Protocol.Frame.{frame_size, decode_frame}
use oomwoo_firmware.Protocol.Stream.{
  Callback, DecoderStats, count_version_error, count_length_error,
}
use oomwoo_firmware.Protocol.Stream.Reference.{
  sync, Scan, rest, refuse, settle, scan_once, scan, take_byte, scan_byte, scan_bytes,
}
use oomwoo_firmware.Protocol.Stream.Loop.{Waits, Waits-short, scan-Waits}
use oomwoo_firmware.Protocol.Stream.Rounds.{roomy_spare}
use oomwoo_firmware.Protocol.Stream.Ready.{scan_byte-Waits, scan_bytes-Waits, length-Waits}
use oomwoo_firmware.Protocol.Stream.Parse.{is_partial}
use oomwoo_firmware.Protocol.Stream.Parse.Fronts.{Waits-cases}

-- One byte is held only if it is an `O`.
abbrev IsSound : Bytes → Type 0
IsSound p = length p ≡ 1 → byte_at p 0 ≡ magic_0

sync-IsSound : (bytes : Bytes) → IsSound (sync bytes)
unfolding sync
sync-IsSound [] e = absurd (omega arith)
sync-IsSound (x ∷ []) e = ground arith
sync-IsSound (x ∷ y ∷ rest) e = ground (arith, sync-IsSound (y ∷ rest))

module _ {C : Type 0} (callback : Callback C) (emitted : ℕ) where
  -- A frame was emitted since `emitted`, or the loop goes on, or what is held is sound.
  record Leaves (s : Scan C) : Type 0 where
    grows : emitted ≤ s.emitted
    sound : s.emitted ≡ emitted → s.processing ≡ false → IsSound s.pending

  rest-Leaves : (s : Scan C) → emitted ≤ s.emitted → IsSound s.pending → Leaves (rest s)
  rest-Leaves s h one = record { grows = h; sound = λ e off. one }

  refuse-Leaves : (s : Scan C) → emitted ≤ s.emitted → (t : DecoderStats) → Leaves (refuse s t)
  refuse-Leaves s h t = record { grows = h; sound = λ e off. sync-IsSound (drop 1 s.pending) }

  settle-Leaves :
      (s : Scan C) (n : ℕ) (status : Status) (frame : DecodedFrame)
      → emitted ≤ s.emitted
      → Leaves (settle callback s n status frame)
  unfolding settle
  settle-Leaves s n Status.ok frame h = record {
    grows = omega arith;
    sound = λ e. absurd (omega arith);
  }
  settle-Leaves s n Status.bad_crc frame h = record {
    grows = omega arith;
    sound = λ e off. sync-IsSound _;
  }
  settle-Leaves s n _ frame h = record { grows = omega arith; sound = λ e off. sync-IsSound _ }

  scan_once-Leaves : (s : Scan C) → emitted ≤ s.emitted → Leaves (scan_once callback s)
  unfolding scan_once
  scan_once-Leaves s h =
      let p = s.pending in
      let n = frame_size (read_u16_le p 8) in
      let decoded = decode_frame (some p) n (some blank_frame) in
      let settled = settle-Leaves s n decoded.status (frame_of decoded.output) h in
      let waits = λ (one : IsSound p). rest-Leaves s h one in
      let refused = λ (t : DecoderStats). refuse-Leaves s h t in
      if_case Leaves (length p == 1)
        (λ one.
          if_case Leaves (not (byte_at p 0 == magic_0))
            (λ other. record { grows = h; sound = λ e off k. absurd (omega arith) })
            (λ same. waits (λ k. ground arith)))
        (λ longer.
          if_case Leaves (ltb (length p) 2) (λ none. waits (λ k. ground arith))
            (λ two.
              if_case Leaves (not (byte_at p 0 == magic_0) || not (byte_at p 1 == magic_1))
                (λ noise. refused s.stats)
                (λ begins.
                  if_case Leaves (ltb (length p) header_size) (λ short. waits (λ k. ground arith))
                    (λ header.
                      if_case Leaves (not (byte_at p 2 == protocol_version))
                        (λ bad. refused (count_version_error s.stats))
                        (λ version.
                          if_case Leaves (ltb max_payload_size (read_u16_le p 8))
                            (λ long. refused (count_length_error s.stats))
                            (λ small.
                              if_case Leaves (ltb (length p) n)
                                (λ partial. waits (λ k. ground arith)) (λ whole. settled)))))))

  scan-Leaves : (fuel : ℕ) (s : Scan C) → Leaves s → Leaves (scan callback fuel s)
  unfolding scan
  scan-Leaves zero s h = h
  scan-Leaves (suc fuel) s h = elim (Bool-cases s.processing) [
    | inl on ↦ rw (on, scan) (scan-Leaves fuel (scan_once callback s) (scan_once-Leaves s h.grows))
    | inr off ↦ rw (off, scan) h
  ]

module _ {C : Type 0} (callback : Callback C) where
  scan_byte-Leaves :
      (s : Scan C) (x : ℕ)
      → Waits s.pending
      → Leaves callback s.emitted (scan_byte callback s x)
        × ((scan_byte callback s x).processing ≡ false)
  unfolding scan_byte
  scan_byte-Leaves s x w =
      let next = take_byte s x in
      rw (roomy_spare callback s (length-Waits w)) (
        scan-Leaves callback s.emitted (length next.pending + 1) next
            (record { grows = omega arith; sound = λ e off. cc }),
        (scan-Waits callback (length next.pending + 1) next (λ on. omega arith) (λ off. cc)).1,
      )

  scan_bytes-Leaves :
      (s : Scan C) (bytes : Bytes)
      → Waits s.pending
      → (s.emitted ≤ (scan_bytes callback s bytes).emitted)
        × ((scan_bytes callback s bytes).emitted ≡ s.emitted
            → IsSound s.pending
            → IsSound (scan_bytes callback s bytes).pending)
  unfolding scan_bytes
  scan_bytes-Leaves s [] w = (omega arith, λ e one. one)
  scan_bytes-Leaves s (x ∷ bytes) w =
      let next = scan_byte callback s x in
      let (left, off) = scan_byte-Leaves s x w in
      let (grows, sound) = scan_bytes-Leaves next bytes (scan_byte-Waits callback s x) in
      (
        omega (arith, left.grows),
        λ e one. sound (omega (arith, left.grows)) (left.sound (omega (arith, left.grows)) off),
      )

  -- A feed that emits nothing leaves the beginning of a frame.
  pub scan_bytes-is_partial :
      (s : Scan C) (bytes : Bytes)
      → s.pending ≡ []
      → (scan_bytes callback s bytes).emitted ≤ s.emitted
      → is_partial (scan_bytes callback s bytes).pending ≡ true
  scan_bytes-is_partial s bytes empty none =
      let w = Waits-short s.pending (rw empty (omega arith)) in
      let (grows, sound) = scan_bytes-Leaves s bytes w in
      let t = scan_bytes callback s bytes in
      let one = sound (omega arith) (λ e. absurd (omega (arith, ap length empty))) in
      elim (Waits-cases t.pending (scan_bytes-Waits callback s bytes w)) [
        | inl partial ↦ partial
        | inr (x, other, lone) ↦ absurd (other (rw lone at one refl))
      ]
