-- ===== src/Protocol/Stream/Parse/Tests.antt =====
-- A small traffic, and the theorems on the parser applied to it.
use oomwoo_firmware.Prelude.{
  ℕ, ◌≡◌, ◌≢◌, ◌⊎◌, inr, refl, sym, ◌∙◌, List, [], ◌∷◌, ◌++◌, arith, set, Bytes,
}
use oomwoo_firmware.Protocol.{magic_0}
use oomwoo_firmware.Protocol.Crc.{crc16_ccitt_false}
use oomwoo_firmware.Protocol.Frame.Format.{frame_body, checksum}
use oomwoo_firmware.Protocol.Frame.Decode.{crc16-take}
use oomwoo_firmware.Protocol.Stream.{cleared_decoder, count_discarded, start, feed_bytes}
use oomwoo_firmware.Protocol.Stream.Buffer.{contents}
use oomwoo_firmware.Protocol.Stream.View.{view}
use oomwoo_firmware.Protocol.Stream.Ready.{cleared-IsReady}
use oomwoo_firmware.Protocol.Stream.Packets.{packet_bytes}
use oomwoo_firmware.Protocol.Stream.Samples.{
  hello, hello-IsPacket, ping, ping-IsPacket, log_frame, noise as noise_bytes,
}
use oomwoo_firmware.Protocol.Stream.Parse.{parse}
use oomwoo_firmware.Protocol.Stream.Parse.Feed.{input_of}
use oomwoo_firmware.Protocol.Stream.Parse.Traffic.{
  Item, noise, damaged, foreign, packet, IsDamaged, IsForeign, traffic_bytes,
}
use oomwoo_firmware.Protocol.Stream.Parse.Damage.{set-IsDamaged}
use oomwoo_firmware.Protocol.Stream.Parse.Decoder.{feed_bytes-parse}
use oomwoo_firmware.Protocol.Stream.Parse.Causes.{Caused, feed_bytes-Caused}
use oomwoo_firmware.Protocol.Stream.Parse.Delivery.{feed_traffic}

abbrev hello_body : Bytes
hello_body = frame_body 0 7 16 (0xAA ∷ 0xBB ∷ [])

hello_sum : checksum hello_body ≡ 0xc9bb
unfolding crc16_ccitt_false
hello_sum = sym (crc16-take hello_body 12) ∙ refl

-- A frame whose first payload byte was changed on the way.
hurt-IsDamaged : IsDamaged (set (packet_bytes hello) 10 0xAB)
hurt-IsDamaged =
    set-IsDamaged hello 10 0xAB hello-IsPacket (omega (arith, hello_sum)) (omega arith)
      (omega arith) (omega arith) (inr (omega arith)) (omega (arith, hello_sum))

-- A header of version 2, as if with two bytes of payload.
abbrev newer : Bytes
newer = 0x4F ∷ 0x57 ∷ 2 ∷ 0 ∷ 9 ∷ 0 ∷ 2 ∷ 0 ∷ 2 ∷ 0 ∷ 5 ∷ 6 ∷ 7 ∷ 8 ∷ []

newer-IsForeign : IsForeign newer
newer-IsForeign = omega arith

abbrev traffic : List Item
traffic =
    noise (0x4F ∷ 2 ∷ 3 ∷ [])
    ∷ damaged (set (packet_bytes hello) 10 0xAB)
    ∷ packet hello
    ∷ foreign newer
    ∷ packet ping
    ∷ []

feed_traffic_example :
    let st = feed_bytes log_frame (start cleared_decoder []) (traffic_bytes traffic) in
    (st.decoder.buffered_bytes ≡ 0)
    × (st.context ≡ 2 ∷ 16 ∷ [])
    × (st.emitted ≡ 2)
    × (st.decoder.stats ≡ record cleared_decoder.stats {
      frames = 2;
      discarded_bytes = 31;
      crc_errors = 1;
      version_errors = 1;
    })
feed_traffic_example =
    feed_traffic log_frame [] cleared_decoder traffic cleared-IsReady refl (omega arith)
      (omega arith, (hurt-IsDamaged, (hello-IsPacket, (newer-IsForeign, (ping-IsPacket, tt)))))

feed_bytes-parse_example :
    let bytes = noise_bytes ++ packet_bytes hello in
    let st = feed_bytes log_frame (start cleared_decoder []) bytes in
    let parsed =
      parse log_frame
        (record { input = bytes; stats = cleared_decoder.stats; context = []; emitted = 0 }) in
    (parsed.context ≡ st.context)
    × (parsed.emitted ≡ st.emitted)
    × ((parsed ≡ input_of (view st))
        ⊎ ((x : ℕ) × (x ≢ magic_0)
            × (contents st.decoder ≡ x ∷ [])
            × (parsed ≡ record (input_of (view st)) {
              input = [];
              stats = count_discarded st.decoder.stats 1;
            })))
feed_bytes-parse_example =
    feed_bytes-parse log_frame [] cleared_decoder (noise_bytes ++ packet_bytes hello)
      cleared-IsReady

feed_bytes-Caused_example :
    Caused
      (contents cleared_decoder ++ traffic_bytes traffic)
      cleared_decoder.stats
      (feed_bytes log_frame (start cleared_decoder []) (traffic_bytes traffic)).decoder.stats
feed_bytes-Caused_example =
    feed_bytes-Caused log_frame [] cleared_decoder (traffic_bytes traffic) cleared-IsReady
