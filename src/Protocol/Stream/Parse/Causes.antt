-- ===== src/Protocol/Stream/Parse/Causes.antt =====
-- What moves the counters of the decoder: faults and frames that stand in its input.
use oomwoo_firmware.Prelude.{
  ℕ, zero, suc, ◌+◌, ◌<◌, ◌≡◌, true, inl, inr, ◌++◌, length, Bytes, arith, Bool-cases, subst,
}
use oomwoo_firmware.Protocol.Stream.{DecoderStats, StreamDecoder, Callback, start, feed_bytes}
use oomwoo_firmware.Protocol.Stream.Buffer.{contents}
use oomwoo_firmware.Protocol.Stream.Ready.{IsReady}
use oomwoo_firmware.Protocol.Stream.Parse.{
  Parsing, is_partial, advance, advance_shrinks, parse_on, parse, partial_nil,
}
use oomwoo_firmware.Protocol.Stream.Parse.Decoder.{feed_bytes-parse}
use oomwoo_firmware.Protocol.Stream.Parse.Places.{
  has_foreign, has_long, has_intact, has_broken, GrowsBy, grown,
}
use oomwoo_firmware.Protocol.Stream.Parse.Charges.{
  Charged, Charged-both, Charged-drop, advance-Charged,
}

-- Where the parser waits, nothing stands that is counted.
partial-Charged : {C : Type 0} (s : Parsing C) → is_partial s.input ≡ true → Charged s s
unfolding is_partial
partial-Charged s done =
    Charged-drop s 0 (ground arith) (ground arith) (ground arith) (ground arith)

module _ {C : Type 0} (callback : Callback C) where
  parse_on-Charged :
      (fuel : ℕ) (s : Parsing C) → length s.input < fuel → Charged s (parse_on callback fuel s)
  unfolding parse_on
  parse_on-Charged zero s h = absurd (omega arith)
  parse_on-Charged (suc fuel) s h = elim (Bool-cases (is_partial s.input)) [
    | inl done ↦ rw (done, parse_on) (partial-Charged s done)
    | inr goes ↦
        let next = advance callback s in
        let shorter = advance_shrinks callback s (partial_nil s.input goes) in
        rw (goes, parse_on)
          (Charged-both s next (parse_on callback fuel next) (advance-Charged callback s goes)
            (parse_on-Charged fuel next (omega arith)))
  ]

pub record Caused (w : Bytes) (before after : DecoderStats) : Type 0 where
  pub foreign : GrowsBy has_foreign w before.version_errors after.version_errors
  pub long : GrowsBy has_long w before.length_errors after.length_errors
  pub broken : GrowsBy has_broken w before.crc_errors after.crc_errors
  pub intact : GrowsBy has_intact w before.frames after.frames

Charged-Caused : {C : Type 0} (s t : Parsing C) → Charged s t → Caused s.input s.stats t.stats
Charged-Caused s t c = record {
  foreign = grown has_foreign _ _ _ t.input c.foreign;
  long = grown has_long _ _ _ t.input c.long;
  broken = grown has_broken _ _ _ t.input c.broken;
  intact = grown has_intact _ _ _ t.input c.intact;
}

-- A feed of any bytes to a ready decoder moves a counter for nothing but its cause, and at most once
-- for each place of the held and the fed bytes where that stands: the version errors for a header of
-- another version, the length errors for a header of this version with more than 512 bytes of
-- payload, the checksum errors for a whole frame with a wrong checksum, and the frames for a whole
-- frame with the right one. It does move a counter whose cause stands at the front of these bytes. All
-- of this is modulo 2 ^ 32.
pub feed_bytes-Caused :
    {C : Type 0} (callback : Callback C) (context : C) (d : StreamDecoder) (bytes : Bytes)
    → IsReady d
    → Caused
        (contents d ++ bytes)
        d.stats
        (feed_bytes callback (start d context) bytes).decoder.stats
feed_bytes-Caused callback context d bytes r =
    let whole : Parsing _ = record {
      input = contents d ++ bytes;
      stats = d.stats;
      context = context;
      emitted = 0;
    } in
    let caused =
      Charged-Caused whole (parse callback whole)
        (parse_on-Charged callback (length whole.input + 1) whole (omega arith)) in
    let before = Caused whole.input d.stats in
    elim (feed_bytes-parse callback context d bytes r).2 [
      | inl e ↦ subst (λ (t : Parsing _). before t.stats) e caused
      | inr (x, other, lone, e) ↦
          let c = subst (λ (t : Parsing _). before t.stats) e caused in
          record { foreign = c.foreign; long = c.long; broken = c.broken; intact = c.intact }
    ]
