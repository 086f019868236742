-- ===== src/Protocol/Stream/Tests.antt =====
-- A small stream, and the theorems on the stream decoder applied to it.
use oomwoo_firmware.Prelude.{
  ℕ, ◌+◌, ◌%◌, ◌≤◌, ◌<◌, ◌≡◌, refl, true, some, List, [], ◌∷◌, ◌++◌, arith, drop, Bytes,
}
use oomwoo_firmware.Protocol.{max_frame_size}
use oomwoo_firmware.Protocol.Stream.{
  StreamDecoder, cleared_decoder, start, process, feed_bytes, resync_after_error,
  stream_decoder_init, stream_decoder_feed, append_byte,
}
use oomwoo_firmware.Protocol.Stream.Buffer.{IsValid, contents, Removed, resync-Removed}
use oomwoo_firmware.Protocol.Stream.Reference.{resync, scan_bytes}
use oomwoo_firmware.Protocol.Stream.View.{view, Shows}
use oomwoo_firmware.Protocol.Stream.Refine.{feed_bytes-Shows}
use oomwoo_firmware.Protocol.Stream.Loop.{Runs, process-Runs}
use oomwoo_firmware.Protocol.Stream.Ready.{
  IsReady, cleared-IsReady, Reachable, initialised, fed, Reachable-IsReady,
}
use oomwoo_firmware.Protocol.Stream.Packets.{packet_bytes, packets_bytes}
use oomwoo_firmware.Protocol.Stream.Samples.{
  hello, hello-IsPacket, ping, ping-IsPacket, noise, log_frame,
}
use oomwoo_firmware.Protocol.Stream.Memory.{extend_feeding, feed_bytes-extend}
use oomwoo_firmware.Protocol.Stream.Deliver.{feed_packets}
use oomwoo_firmware.Protocol.Stream.Accounts.{count_wire, feed-total}
use oomwoo_firmware.Protocol.Stream.Chunks.{feed-append}

-- A decoder that holds noise from `O`, `X` on.
abbrev stuck : StreamDecoder
stuck = append_byte (append_byte cleared_decoder 0x4F) 0x58

stuck-IsValid : IsValid stuck
stuck-IsValid = record { whole = refl; fits = omega arith }

feed_packets_example :
    let ks = hello ∷ ping ∷ [] in
    let st = feed_bytes log_frame (start cleared_decoder []) (noise ++ packets_bytes ks) in
    (st.decoder.buffered_bytes ≡ 0)
    × (st.context ≡ 2 ∷ 16 ∷ [])
    × (st.emitted ≡ 2)
    × (st.decoder.stats ≡ record cleared_decoder.stats { frames = 2; discarded_bytes = 3 })
feed_packets_example =
    feed_packets log_frame [] cleared_decoder noise (hello ∷ ping ∷ []) cleared-IsReady.valid refl
      (omega arith) (omega arith) (omega arith, (omega arith, (omega arith, tt)))
      (hello-IsPacket, (ping-IsPacket, tt))

feed_bytes-Shows_example :
    Shows
      (feed_bytes log_frame (start stuck []) (noise ++ packet_bytes hello))
      (scan_bytes log_frame (view (start stuck [])) (noise ++ packet_bytes hello))
feed_bytes-Shows_example =
    feed_bytes-Shows log_frame (start stuck []) (noise ++ packet_bytes hello) stuck-IsValid

process-Runs_example :
    let st = record (start stuck []) { processing = true } in
    Runs log_frame st (process log_frame 3 st)
process-Runs_example =
    process-Runs log_frame 3 (record (start stuck []) { processing = true }) stuck-IsValid
      (λ on. omega arith)

cleared-Reachable : Reachable cleared_decoder
unfolding stream_decoder_init
cleared-Reachable = initialised stuck refl

-- After a feed of noise and a packet.
abbrev fed_bytes : Bytes
fed_bytes = noise ++ packet_bytes hello

abbrev fed_decoder : StreamDecoder
fed_decoder = (feed_bytes log_frame (start cleared_decoder []) fed_bytes).decoder

fed-Reachable : Reachable fed_decoder
unfolding stream_decoder_feed
fed-Reachable = fed cleared-Reachable (List ℕ) log_frame [] (some fed_bytes) 17 refl

Reachable-IsReady_example : IsReady fed_decoder × (fed_decoder.buffered_bytes < max_frame_size)
Reachable-IsReady_example = Reachable-IsReady fed-Reachable

feed-total_example :
    let st = feed_bytes count_wire (start stuck 0) (noise ++ packet_bytes hello) in
    (st.decoder.buffered_bytes + st.decoder.stats.discarded_bytes + st.context) % 4294967296 ≡ 19
feed-total_example = feed-total stuck (noise ++ packet_bytes hello) stuck-IsValid

feed-append_example :
    let xs = noise in
    let ys = packet_bytes hello in
    let whole = stream_decoder_feed (some stuck) (some (xs ++ ys)) 17 log_frame [] in
    let first = stream_decoder_feed (some stuck) (some xs) 3 log_frame [] in
    let second = stream_decoder_feed first.decoder (some ys) 14 log_frame first.context in
    (whole.decoder ≡ second.decoder)
    × (whole.context ≡ second.context)
    × (whole.emitted ≡ first.emitted + second.emitted)
feed-append_example = feed-append log_frame [] stuck noise (packet_bytes hello)

resync-Removed_example :
    (count : ℕ) × (0 < count)
    × (count ≤ 2)
    × (drop count (contents stuck) ≡ resync (contents stuck))
    × Removed stuck count true (resync_after_error stuck)
resync-Removed_example = resync-Removed stuck stuck-IsValid (omega arith)

-- The words of another variable behind the array.
abbrev behind : Bytes
behind = 0x4F ∷ 0x57 ∷ []

feed_bytes-extend_example :
    feed_bytes log_frame (extend_feeding behind (start stuck [])) (packet_bytes hello)
    ≡ extend_feeding behind (feed_bytes log_frame (start stuck []) (packet_bytes hello))
feed_bytes-extend_example =
    feed_bytes-extend behind log_frame (start stuck []) (packet_bytes hello) stuck-IsValid
