-- ===== src/Protocol/Stream/Parse/Prefix.antt =====
-- More input behind what the parser has seen changes none of its steps.
use oomwoo_firmware.Prelude.{
  ℕ, zero, suc, ◌+◌, ◌<◌, ◌≤◌, ◌≡◌, refl, ap, ◌∙◌, true, false, inl, inr, some, [], ◌∷◌, ◌++◌, ltb,
  ◌==◌, length, drop-append_le, length-append, Bytes, byte_at, arith, Bool-cases,
}
use oomwoo_firmware.Protocol.{
  frame_of, protocol_version, header_size, max_payload_size, Status, DecodedFrame, blank_frame,
}
use oomwoo_firmware.Protocol.Wire.{read_u16_le}
use oomwoo_firmware.Protocol.Frame.{frame_size, decode_frame}
use oomwoo_firmware.Protocol.Frame.Decode.Prefix.{
  byte_at-front, read_u16_le-front, decode_frame-front,
}
use oomwoo_firmware.Protocol.Stream.{Callback}
use oomwoo_firmware.Protocol.Stream.Reference.{may_begin}
use oomwoo_firmware.Protocol.Stream.Parse.{
  Parsing, is_partial, accept, advance, advance_shrinks, parse_on, parse, parse_step, partial_nil,
}

module _ (p x : Bytes) where
  -- Why a parser need not wait.
  pub record Decided : Type 0 where
    pub begins : may_begin (p ++ x) ≡ may_begin p
    pub header : may_begin p ≡ true → header_size ≤ length p
    pub whole :
        may_begin p ≡ true
        → byte_at p 2 ≡ protocol_version
        → read_u16_le p 8 ≤ max_payload_size
        → frame_size (read_u16_le p 8) ≤ length p

may_begin-append : (p x : Bytes) → is_partial p ≡ false → may_begin (p ++ x) ≡ may_begin p
unfolding is_partial
may_begin-append [] x h = absurd (cc)
may_begin-append (a ∷ []) [] h = refl
may_begin-append (a ∷ []) (b ∷ x) h = ground arith
may_begin-append (a ∷ b ∷ p) x h = refl

pub decided : (p x : Bytes) → is_partial p ≡ false → Decided p x
unfolding is_partial
decided p x h = record {
  begins = may_begin-append p x h;
  header = λ b. ground arith;
  whole = λ b v s. ground arith;
}

module _ {C : Type 0} where
  abbrev pub more : Parsing C → Bytes → Parsing C
  more s x = record s { input = s.input ++ x }

module _ {C : Type 0} (callback : Callback C) where
  accept-more :
      (s : Parsing C) (x : Bytes) (n : ℕ) (status : Status) (frame : DecodedFrame)
      → 0 < length s.input
      → n ≤ length s.input
      → accept callback (more s x) n status frame ≡ more (accept callback s n status frame) x
  unfolding accept
  accept-more s x n Status.ok frame h k = rw (drop-append_le n s.input x k)
  accept-more s x n _ frame h k = rw (drop-append_le 1 s.input x (omega arith))

  pub advance-more :
      (s : Parsing C) (x : Bytes)
      → is_partial s.input ≡ false
      → advance callback (more s x) ≡ more (advance callback s) x
  unfolding advance
  advance-more s x h =
      let p = s.input in
      let d = decided p x h in
      let n = frame_size (read_u16_le p 8) in
      let some_held = partial_nil p h in
      let cut = drop-append_le 1 p x (omega arith) in
      rw d.begins (elim (Bool-cases (may_begin p)) [
        | inr noise ↦ rw (noise, cut) refl
        | inl begins ↦
            let header = d.header begins in
            rw (begins, byte_at-front p x 2 (omega arith), read_u16_le-front p x 8 (omega arith))
              (elim (Bool-cases (byte_at p 2 == protocol_version)) [
                | inr bad ↦ rw (bad, cut) refl
                | inl version ↦
                    rw version (elim (Bool-cases (ltb max_payload_size (read_u16_le p 8))) [
                      | inl long ↦ rw (long, cut) refl
                      | inr small ↦
                          let whole = d.whole begins (ground arith) (ground arith) in
                          rw (small, decode_frame-front p x blank_frame header whole)
                            (let decoded = decode_frame (some p) n (some blank_frame) in
                              accept-more s x n decoded.status (frame_of decoded.output) some_held
                                whole)
                    ])
              ])
      ])

  pub is_partial-append : (p x : Bytes) → is_partial p ≡ false → is_partial (p ++ x) ≡ false
  unfolding is_partial
  is_partial-append p x h =
      let d = decided p x h in
      elim (Bool-cases (may_begin p)) [
        | inr noise ↦ rw (d.begins, noise) refl
        | inl begins ↦
            let header = d.header begins in
            rw
              (
                d.begins,
                begins,
                byte_at-front p x 2 (omega arith),
                read_u16_le-front p x 8 (omega arith),
              )
              (ground (arith, length-append p x, d.whole begins))
      ]

  parse_on-more :
      (fuel : ℕ) (s : Parsing C) (x : Bytes)
      → length s.input < fuel
      → parse callback (more s x) ≡ parse callback (more (parse_on callback fuel s) x)
  unfolding parse_on
  parse_on-more zero s x h = absurd (omega arith)
  parse_on-more (suc fuel) s x h = elim (Bool-cases (is_partial s.input)) [
    | inl done ↦ rw (done, parse_on) refl
    | inr goes ↦
        let shorter = advance_shrinks callback s (partial_nil s.input goes) in
        let rest = parse_on-more fuel (advance callback s) x (omega arith) in
        parse_step callback (more s x) (is_partial-append s.input x goes)
        ∙ ap (parse callback) (advance-more s x goes)
        ∙ rw (goes, parse_on) rest
  ]

  -- What has been parsed is settled: the parser goes on from where it stopped.
  pub parse-more :
      (s : Parsing C) (x : Bytes)
      → parse callback (more s x) ≡ parse callback (more (parse callback s) x)
  parse-more s x = parse_on-more (length s.input + 1) s x (omega arith)
