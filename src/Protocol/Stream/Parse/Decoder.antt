-- ===== src/Protocol/Stream/Parse/Decoder.antt =====
-- The stream decoder and its array against the parser.
use oomwoo_firmware.Prelude.{
  ℕ, ◌≡◌, ◌≢◌, ◌⊎◌, refl, ap, ◌∙◌, false, inl, inr, [], ◌∷◌, ◌++◌, drop, Bytes, arith,
}
use oomwoo_firmware.Protocol.{magic_0}
use oomwoo_firmware.Protocol.Stream.{StreamDecoder, count_discarded, Callback, start, feed_bytes}
use oomwoo_firmware.Protocol.Stream.Buffer.{contents}
use oomwoo_firmware.Protocol.Stream.View.{view}
use oomwoo_firmware.Protocol.Stream.Refine.{feed_bytes-Shows}
use oomwoo_firmware.Protocol.Stream.Loop.{Waits}
use oomwoo_firmware.Protocol.Stream.Ready.{IsReady, feed_bytes-IsReady}
use oomwoo_firmware.Protocol.Stream.Parse.{is_partial, parse, parse_step, parse_stop}
use oomwoo_firmware.Protocol.Stream.Parse.Feed.{input_of, parse-scan_bytes, advance_noise}
use oomwoo_firmware.Protocol.Stream.Parse.Fronts.{noise-is_partial, Waits-cases}
use oomwoo_firmware.Protocol.Stream.Reference.{Scan, may_begin}
use oomwoo_firmware.Protocol.Stream.Parse.Prefix.{more}

module _ {C : Type 0} (callback : Callback C) where
  -- What the parser makes of what a decoder holds.
  parse-Waits :
      (s : Scan C)
      → Waits s.pending
      → (parse callback (input_of s) ≡ input_of s)
        ⊎ ((x : ℕ) × (x ≢ magic_0)
            × (s.pending ≡ x ∷ [])
            × (parse callback (input_of s)
                ≡ record (input_of s) { input = []; stats = count_discarded s.stats 1 }))
  unfolding is_partial
  parse-Waits s w = elim (Waits-cases s.pending w) [
    | inl partial ↦ inl (parse_stop callback (input_of s) partial)
    | inr (x, other, lone) ↦
        let noise : may_begin s.pending ≡ false = rw lone (ground arith) in
        let at = input_of s in
        inr (
          x,
          other,
          lone,
          parse_step callback at (noise-is_partial s.pending noise)
              ∙ ap (parse callback) (advance_noise callback at noise)
              ∙ ap
                  (λ b. parse callback (record at { input = b; stats = count_discarded s.stats 1 }))
                  (ap (drop 1) lone)
              ∙ parse_stop callback (record at { input = []; stats = count_discarded s.stats 1 })
                  refl,
        )
  ]

  -- A feed of any bytes to a ready decoder gives the calls of the callback and the number of frames
  -- that a parser of the held and the fed bytes in one piece gives; the decoder is left with the
  -- counters and the unread rest of that parser, unless it holds one byte other than `O`, which the
  -- parser has skipped and counted already.
  pub feed_bytes-parse :
      (context : C) (d : StreamDecoder) (bytes : Bytes)
      → IsReady d
      → let st = feed_bytes callback (start d context) bytes in
        let parsed = parse callback (record {
          input = contents d ++ bytes;
          stats = d.stats;
          context = context;
          emitted = 0;
        }) in
        (parsed.context ≡ st.context)
        × (parsed.emitted ≡ st.emitted)
        × ((parsed ≡ input_of (view st))
            ⊎ ((x : ℕ) × (x ≢ magic_0)
                × (contents st.decoder ≡ x ∷ [])
                × (parsed ≡ record (input_of (view st)) {
                  input = [];
                  stats = count_discarded st.decoder.stats 1;
                })))
  feed_bytes-parse context d bytes r =
      let at = start d context in
      let st = feed_bytes callback at bytes in
      let shown = (feed_bytes-Shows callback at bytes r.valid).same in
      let whole : parse callback (input_of (view st))
          ≡ parse callback (more (input_of (view at)) bytes) =
        ap (λ s. parse callback (input_of s)) shown
        ∙ parse-scan_bytes callback (view at) bytes r.waits in
      rw (← whole) (elim (parse-Waits (view st) (feed_bytes-IsReady callback at bytes r).waits) [
        | inl e ↦ (ap (λ t. t.context) e, ap (λ t. t.emitted) e, inl e)
        | inr (x, other, lone, e) ↦
            (ap (λ t. t.context) e, ap (λ t. t.emitted) e, inr (x, other, lone, e))
      ])
