-- ===== src/Protocol/Stream/Rounds.antt =====
-- What one byte does to the reference decoder, case by case.
use oomwoo_firmware.Prelude.{
  ℕ, zero, suc, ◌+◌, ◌<◌, ◌≡◌, ◌≢◌, refl, sym, ap, ◌∙◌, false, some, [], ◌∷◌, ◌++◌, arith, length,
  drop, drop_all, length-append, Bytes, byte_at, ◌==◌,
}
use oomwoo_firmware.Protocol.{frame_of, Status, magic_0, max_frame_size, DecodedFrame, blank_frame}
use oomwoo_firmware.Protocol.Wire.{read_u16_le}
use oomwoo_firmware.Protocol.Frame.{frame_size, decode_frame}
use oomwoo_firmware.Protocol.Frame.Decode.{Passes}
use oomwoo_firmware.Protocol.Stream.{count_frame, count_discarded, Callback, call}
use oomwoo_firmware.Protocol.Stream.Reference.{
  Scan, rest, keep, settle, scan_once, scan, roomy, take_byte, scan_byte, scan_bytes,
}
use oomwoo_firmware.Protocol.Stream.Loop.{Waits}

module _ {C : Type 0} (callback : Callback C) where
  pub scan_bytes-append :
      (s : Scan C) (xs ys : Bytes)
      → scan_bytes callback s (xs ++ ys) ≡ scan_bytes callback (scan_bytes callback s xs) ys
  unfolding scan_bytes
  scan_bytes-append s [] ys = refl
  scan_bytes-append s (x ∷ xs) ys = scan_bytes-append (scan_byte callback s x) xs ys

  -- The beginning of a frame is left alone.
  pub scan_once_waiting :
      (s : Scan C)
      → Waits s.pending
      → (length s.pending ≡ 1 → byte_at s.pending 0 ≡ magic_0)
      → scan_once callback s ≡ rest s
  unfolding scan_once
  scan_once_waiting s w one = ground (arith, w.magic, w.version, w.small, w.partial, one)

  pub scan_off : (fuel : ℕ) (s : Scan C) → s.processing ≡ false → scan callback fuel s ≡ s
  unfolding scan
  scan_off zero s off = refl
  scan_off (suc fuel) s off = ground arith

  pub roomy_spare : (s : Scan C) → length s.pending < max_frame_size → roomy s ≡ s
  roomy_spare s room =
      let spare : (length s.pending == max_frame_size) ≡ false = ground arith in rw spare

  -- A byte that takes one round of the loop.
  scan_byte_once :
      (s : Scan C) (x : ℕ)
      → length s.pending < max_frame_size
      → (scan_once callback (take_byte s x)).processing ≡ false
      → scan_byte callback s x ≡ scan_once callback (take_byte s x)
  unfolding scan_byte
  scan_byte_once s x room off =
      let next = take_byte s x in
      let n : length next.pending + 1 ≡ suc (length s.pending + 1) =
        omega (arith, length-append s.pending (x ∷ [])) in
      ap (λ t. scan callback (length (take_byte t x).pending + 1) (take_byte t x))
        (roomy_spare s room)
      ∙ ap (λ k. scan callback k next) n
      ∙ unfold scan in scan_off (length s.pending + 1) (scan_once callback next) off

  -- A byte that continues the beginning of a frame is held.
  pub scan_byte_waiting :
      (s : Scan C) (x : ℕ)
      → length s.pending < max_frame_size
      → Waits (s.pending ++ (x ∷ []))
      → (length (s.pending ++ (x ∷ [])) ≡ 1 → byte_at (s.pending ++ (x ∷ [])) 0 ≡ magic_0)
      → scan_byte callback s x ≡ rest (record s { pending = s.pending ++ (x ∷ []) })
  scan_byte_waiting s x room w one =
      let waits = scan_once_waiting (take_byte s x) w one in
      scan_byte_once s x room (ap (λ t. t.processing) waits) ∙ waits

  -- A byte that no frame begins with is dropped and counted.
  pub scan_byte_noise :
      (s : Scan C) (x : ℕ)
      → s.pending ≡ []
      → x ≢ magic_0
      → scan_byte callback s x ≡ rest (record s { stats = count_discarded s.stats 1 })
  scan_byte_noise s x empty noise =
      let dropped : scan_once callback (take_byte s x)
          ≡ rest (record s { stats = count_discarded s.stats 1 }) =
        unfold scan_once in ground arith in
      scan_byte_once s x (rw empty (omega arith)) (ap (λ t. t.processing) dropped) ∙ dropped

  scan_once_settles :
      (t : Scan C)
      → let p = t.pending in
        let n = frame_size (read_u16_le p 8) in
        let decoded = decode_frame (some p) n (some blank_frame) in
        Passes p (length p)
        → scan_once callback t ≡ settle callback t n decoded.status (frame_of decoded.output)
  unfolding scan_once
  scan_once_settles t passes = ground arith

  -- A whole frame is handed to the callback, counted, and no longer held.
  scan_once_full :
      (t : Scan C) (frame : DecodedFrame)
      → let p = t.pending in
        let n = length p in
        Passes p n
        → decode_frame (some p) n (some blank_frame)
          ≡ record { status = Status.ok; output = some frame }
        → scan_once callback t
          ≡ rest (record t {
            pending = [];
            stats = count_frame t.stats;
            context = call callback frame t.context;
            emitted = t.emitted + 1;
          })
  unfolding settle
  scan_once_full t frame passes decoded =
      let p = t.pending in
      let gone : drop (length p) p ≡ [] = drop_all (length p) p (omega arith) in
      scan_once_settles t passes
      ∙ ap
          (λ n.
            let d = decode_frame (some p) n (some blank_frame) in
            settle callback t n d.status (frame_of d.output))
          (sym passes.exact)
      ∙ ap (λ d. settle callback t (length p) d.status (frame_of d.output)) decoded
      ∙ ap
          (λ q.
            keep
              (record t {
                stats = count_frame t.stats;
                context = call callback frame t.context;
                emitted = t.emitted + 1;
              })
              q)
          gone

  -- The last byte of a frame.
  pub scan_byte_last :
      (s : Scan C) (x : ℕ) (frame : DecodedFrame)
      → length s.pending < max_frame_size
      → let p = s.pending ++ (x ∷ []) in
        let n = length p in
        Passes p n
        → decode_frame (some p) n (some blank_frame)
          ≡ record { status = Status.ok; output = some frame }
        → scan_byte callback s x
          ≡ rest (record s {
            pending = [];
            stats = count_frame s.stats;
            context = call callback frame s.context;
            emitted = s.emitted + 1;
          })
  scan_byte_last s x frame room passes decoded =
      let t = take_byte s x in
      let done = scan_once_full t frame passes decoded in
      scan_byte_once s x room (ap (λ u. u.processing) done) ∙ done
