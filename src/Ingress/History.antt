-- ===== src/Ingress/History.antt =====
-- What holds of an ingress from its initialisation on.
use mathlib.Core.Option.{some-injective}
use oomwoo_firmware.Prelude.{
  ◌%◌, ◌≡◌, refl, sym, ap, ◌∙◌, subst, inl, inr, some, arith, length, Bytes, IsBytes, ◌==◌,
  Bool-cases,
}
use oomwoo_firmware.Protocol.Stream.{start, stream_decoder_init, stream_decoder_reset_incomplete}
use oomwoo_firmware.Protocol.Stream.Ready.{cleared-IsReady}
use oomwoo_firmware.Protocol.Stream.Refine.{feed_bytes-Shows}
use oomwoo_firmware.Protocol.Stream.Invariant.{feed_bytes-Holds}
use oomwoo_firmware.Messages.Structs.{Punning}
use oomwoo_firmware.Ingress.{
  CpuIngress, FeedContext, IngressFed, MessageCallback, handle_frame, cpu_ingress_init,
  cpu_ingress_feed, cpu_ingress_reset_incomplete,
}
use oomwoo_firmware.Ingress.Feed.{
  IsSound, judged, context, fed_ingress, cpu_ingress_feed_lem, feed-counts,
}

-- Sound, and with true counters.
pub record IsAccounted {S : Type 0} (g : CpuIngress S) : Type 0 where
  pub sound : IsSound g
  pub agree : judged g.stats % 4294967296 ≡ g.decoder.stats.frames % 4294967296
  pub undefined : g.stats.undefined_payload ≡ 0
  pub codec : g.stats.codec_errors ≡ 0

-- The ingresses that calls of the three functions lead to.
pub data Reachable {S : Type 0} (pun : Punning) : CpuIngress S → Type 0 where
  initialised :
      (before : CpuIngress S) (callback : MessageCallback S) (s : S) {g : CpuIngress S}
      → cpu_ingress_init (some before) callback s ≡ some g
      → Reachable pun g
  fed :
      {g h : CpuIngress S}
      → Reachable pun g
      → (bytes : Bytes) → IsBytes bytes
      → (cpu_ingress_feed pun (some g) (some bytes) (length bytes)).ingress ≡ some h
      → Reachable pun h
  gap :
      {g h : CpuIngress S}
      → Reachable pun g
      → cpu_ingress_reset_incomplete (some g) ≡ some h
      → Reachable pun h

init-IsAccounted :
    {S : Type 0} (before : CpuIngress S) (callback : MessageCallback S) (s : S) (g : CpuIngress S)
    → cpu_ingress_init (some before) callback s ≡ some g
    → IsAccounted g
unfolding cpu_ingress_init stream_decoder_init
init-IsAccounted before callback s g e = subst IsAccounted (some-injective _ _ e) (record {
  sound = record { valid = cleared-IsReady.valid; ranged = tt };
  agree = refl;
  undefined = refl;
  codec = refl;
})

feed-IsSound :
    {S : Type 0} (pun : Punning) (g : CpuIngress S) (bytes : Bytes)
    → IsSound g
    → IsBytes bytes
    → IsSound (fed_ingress pun g bytes)
feed-IsSound {S} pun g bytes sound b =
    let (ranged, nothing) =
      feed_bytes-Holds (handle_frame pun g.callback) (λ n (c : FeedContext S). Unit {0})
        (λ f n c v u. tt) g.decoder (context pun g bytes) bytes sound.valid sound.ranged b tt in
    let w =
      feed_bytes-Shows (some (handle_frame pun g.callback)) (start g.decoder (context pun g bytes))
        bytes sound.valid in
    record { valid = w.valid; ranged = ranged }

feed-IsAccounted :
    {S : Type 0} (pun : Punning) (g h : CpuIngress S) (bytes : Bytes)
    → IsAccounted g
    → IsBytes bytes
    → (cpu_ingress_feed pun (some g) (some bytes) (length bytes)).ingress ≡ some h
    → IsAccounted h
feed-IsAccounted {S} pun g h bytes a b e =
    let lem = ap (λ (x : IngressFed S). x.ingress) (cpu_ingress_feed_lem pun g bytes) in
    let (k, counted, agree, taken, undefined, codec) = feed-counts pun g bytes a.sound b a.agree in
    let sound : IsSound h =
      subst IsSound (some-injective _ _ (sym lem ∙ e)) (feed-IsSound pun g bytes a.sound b) in
    let same : k ≡ h = some-injective _ _ (sym counted ∙ e) in
    record {
      sound = sound;
      agree =
          subst
            (λ (x : CpuIngress S).
              judged x.stats % 4294967296 ≡ x.decoder.stats.frames % 4294967296)
            same agree;
      undefined =
          subst (λ (x : CpuIngress S). x.stats.undefined_payload ≡ 0) same
            (undefined ∙ a.undefined);
      codec = subst (λ (x : CpuIngress S). x.stats.codec_errors ≡ 0) same (codec ∙ a.codec);
    }

reset-IsAccounted :
    {S : Type 0} (g h : CpuIngress S)
    → IsAccounted g
    → cpu_ingress_reset_incomplete (some g) ≡ some h
    → IsAccounted h
unfolding cpu_ingress_reset_incomplete stream_decoder_reset_incomplete
reset-IsAccounted g h a e = elim (Bool-cases (g.decoder.buffered_bytes == 0)) [
  | inl empty ↦ subst IsAccounted (some-injective _ _ (rw empty at e)) (record {
    sound = record { valid = a.sound.valid; ranged = a.sound.ranged };
    agree = a.agree;
    undefined = a.undefined;
    codec = a.codec;
  })
  | inr held ↦ subst IsAccounted (some-injective _ _ (rw held at e)) (record {
    sound = record {
      valid = record { whole = a.sound.valid.whole; fits = omega arith };
      ranged = tt;
    };
    agree = a.agree;
    undefined = a.undefined;
    codec = a.codec;
  })
]

-- From an initialisation on, through feeds of any bytes and gap resets in any order, the accepted and
-- the rejected frames add up to the decoder's count of frames (modulo 2 ^ 32), the counts of undefined
-- payloads and of codec errors stay zero, and the decoder's array stays valid and holds bytes.
pub Reachable-IsAccounted :
    {S : Type 0} (pun : Punning) {g : CpuIngress S} → Reachable pun g → IsAccounted g
Reachable-IsAccounted pun (initialised before callback s {g} e) =
    init-IsAccounted before callback s g e
Reachable-IsAccounted pun (fed {g} {h} r bytes b e) =
    feed-IsAccounted pun g h bytes (Reachable-IsAccounted pun r) b e
Reachable-IsAccounted pun (gap {g} {h} r e) = reset-IsAccounted g h (Reachable-IsAccounted pun r) e
