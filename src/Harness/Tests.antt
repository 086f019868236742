-- ===== src/Harness/Tests.antt =====
-- A harness that logs what it writes, and the theorems on the harness applied to it.
use oomwoo_firmware.Prelude.{
  ℕ, ◌≤◌, ◌≡◌, ◌⊎◌, refl, ap₂, inl, some, List, [], ◌∷◌, ◌++◌, arith, All-append, replicate, Bytes,
  IsU8, IsBytes,
}
use oomwoo_firmware.Prelude.Int.{pos, negsuc}
use oomwoo_firmware.Protocol.Stream.{cleared_decoder}
use oomwoo_firmware.Protocol.Stream.Packets.{Packet, packet_bytes, packets_bytes}
use oomwoo_firmware.Protocol.Stream.Ready.{cleared-IsReady}
use oomwoo_firmware.Protocol.Frame.Format.{frame_bytes, frame_bytes-IsBytes}
use oomwoo_firmware.Messages.{MessageType, from_code, message_direction}
use oomwoo_firmware.Messages.Structs.{Payload}
use oomwoo_firmware.Messages.Layout.{Stores}
use oomwoo_firmware.Messages.Samples.{zero_pun}
use oomwoo_firmware.Ingress.{cleared_stats}
use oomwoo_firmware.Ingress.Commands.{
  Command, IsCommand, command_packet, command_packets, command-IsPacket,
}
use oomwoo_firmware.Identity.{Identity}
use oomwoo_firmware.Identity.Hello.{hello_frame}
use oomwoo_firmware.Harness.{
  Device, Globals, Reading, handle_message, setup, framing_gap_ms, elapsed, loop, read_available,
}
use oomwoo_firmware.Protocol.Stream.Parse.Traffic.{Item, packet, traffic_bytes}
use oomwoo_firmware.Ingress.Sent.{command, wrong_way}
use oomwoo_firmware.Harness.Recovery.{started, loop-recovers}
use oomwoo_firmware.Harness.Answers.{IsDevice, answers}
use oomwoo_firmware.Harness.Loop.{
  readings_bytes, loop-answers, loop-gap, setup_lem, check_gap-last_rx_ms,
}

abbrev Port : Type 0
Port = List Bytes

abbrev log_write : Bytes → Port → Port
log_write bytes port = bytes ∷ port

abbrev log_begin : ℕ → Port → Port
log_begin baud port = port

abbrev unit : Identity
unit = record { firmware_major = 0; firmware_minor = 1; build_id = 0; next_sequence = 1 }

abbrev device : Device Port
device = record { identity = unit; tx_buffer = replicate 20 0; serial = [] }

device-IsDevice : IsDevice device
device-IsDevice = record {
  identity = record {
    major16 = omega arith;
    minor16 = omega arith;
    build32 = omega arith;
    sequence16 = omega arith;
  };
  sized = refl;
}

abbrev globals : Globals Port
globals = record {
  ingress = record {
    decoder = cleared_decoder;
    stats = cleared_stats;
    callback = some (handle_message log_write zero_pun);
    callback_context = device;
  };
  last_rx_ms = 0;
}

abbrev identify : Command
identify = record {
  flags = 0;
  sequence = 9;
  message = record { type = 0x0004; payload = Payload.cleared };
}

identify-IsCommand : IsCommand identify
unfolding message_direction from_code
identify-IsCommand = record {
  sequence16 = omega arith;
  message = record {
    kind = MessageType.identify_request;
    typed = refl;
    stores = Stores.identify_request;
  };
  range = tt;
  direction = inl refl;
}

abbrev noise : Bytes
noise = 7 ∷ []

abbrev input : Bytes
input = noise ++ packets_bytes (command_packets (identify ∷ []))

input-IsBytes : IsBytes input
input-IsBytes =
    All-append IsU8 noise (packets_bytes (command_packets (identify ∷ []))) (omega arith, tt)
      (All-append IsU8 (frame_bytes 0 9 4 []) []
        (frame_bytes-IsBytes 0 9 4 [] (omega arith) (omega arith) (omega arith) (omega arith) tt)
        tt)

-- All bytes at 5 ms, each behind a failed read.
abbrev arrivals : Bytes → List Reading
arrivals [] = []
arrivals (x ∷ xs) =
    record { value = negsuc 0; now = 5 } ∷ record { value = pos x; now = 5 } ∷ arrivals xs

arrivals-bytes : (bytes : Bytes) → IsBytes bytes → readings_bytes (arrivals bytes) ≡ bytes
arrivals-bytes [] h = refl
arrivals-bytes (x ∷ xs) h =
    ap₂ (λ (y : ℕ) (ys : Bytes). y ∷ ys) (omega (arith, h.0)) (arrivals-bytes xs h.1)

loop-answers_example :
    (loop zero_pun globals (arrivals input) 10).ingress.callback_context ≡ record {
      identity = record unit { next_sequence = 2 };
      tx_buffer = hello_frame unit;
      serial = hello_frame unit ∷ [];
    }
loop-answers_example =
    loop-answers log_write zero_pun globals (arrivals input) 10 noise (identify ∷ []) refl
      device-IsDevice cleared-IsReady.valid refl (omega arith) (omega arith) (omega arith)
      (omega arith, tt) (identify-IsCommand, tt) (arrivals-bytes input input-IsBytes)

loop-gap_example :
    let after = loop zero_pun globals (arrivals (0x4F ∷ [])) 60 in
    (after.ingress.decoder.buffered_bytes ≡ 0) ⊎ (elapsed 60 after.last_rx_ms ≤ framing_gap_ms)
loop-gap_example = loop-gap zero_pun globals (arrivals (0x4F ∷ [])) 60

setup_lem_example :
    let first : Identity = record unit { next_sequence = 0 } in
    (setup log_write log_begin zero_pun 0 1 0 globals).ingress ≡ record {
      decoder = cleared_decoder;
      stats = cleared_stats;
      callback = some (handle_message log_write zero_pun);
      callback_context = record {
        identity = unit;
        tx_buffer = hello_frame first;
        serial = hello_frame first ∷ [];
      };
    }
setup_lem_example = setup_lem log_write log_begin zero_pun 0 1 0 globals refl

-- The harness after its setup, which then reads the beginning of a frame at 5 ms.
abbrev set_up : Globals Port
set_up = setup log_write log_begin zero_pun 0 1 0 globals

abbrev beginning : List Reading
beginning = arrivals (0x4F ∷ 0x57 ∷ [])

abbrev quiet : Globals Port
quiet = loop zero_pun set_up beginning 60

quiet-last_rx_ms : quiet.last_rx_ms ≡ 5
unfolding loop read_available
quiet-last_rx_ms = check_gap-last_rx_ms (read_available zero_pun set_up beginning) 60

-- A hello that comes back to the MCU.
abbrev echo : Packet
echo = record { flags = 0; sequence = 1; message_type = 0x8000; payload = [] }

abbrev traffic : List Item
traffic = Item.noise (0x4F ∷ 7 ∷ []) ∷ packet echo ∷ packet (command_packet identify) ∷ []

traffic-IsBytes : IsBytes (traffic_bytes traffic)
traffic-IsBytes = (
  omega arith,
  (
    omega arith,
    All-append IsU8 (packet_bytes echo) (packets_bytes (command_packets (identify ∷ [])))
        (frame_bytes-IsBytes 0 1 0x8000 [] (omega arith) (omega arith) (omega arith) (omega arith)
          tt)
        input-IsBytes.1,
  ),
)

loop-recovers_example :
    (loop zero_pun quiet (arrivals (traffic_bytes traffic)) 80).ingress.callback_context
    ≡ answers log_write quiet.ingress.callback_context (identify ∷ [])
unfolding message_direction from_code
loop-recovers_example =
    loop-recovers log_write log_begin zero_pun set_up beginning (arrivals (traffic_bytes traffic))
      60 80 traffic (wrong_way echo ∷ command identify ∷ []) (started 0 1 0 globals refl)
      (omega (arith, quiet-last_rx_ms))
      (
        omega arith,
        (
          record { sequence16 = omega arith; type16 = omega arith; small = omega arith },
          (command-IsPacket identify identify-IsCommand, tt),
        ),
      )
      (refl, (identify-IsCommand, tt)) refl (arrivals-bytes (traffic_bytes traffic) traffic-IsBytes)
