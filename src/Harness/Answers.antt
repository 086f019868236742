-- ===== src/Harness/Answers.antt =====
-- What the message handler of the harness does with commands.
use oomwoo_firmware.Prelude.{
  ◌≡◌, refl, ap, ◌∙◌, inl, inr, some, List, [], ◌∷◌, ◌++◌, append-nil, arith, length, take, drop,
  drop_all, take_all, ◌==◌, if◌then◌else◌, Bool-cases, Bytes,
}
use oomwoo_firmware.Protocol.{DecodedFrame}
use oomwoo_firmware.Protocol.Frame.Format.{length-frame_bytes}
use oomwoo_firmware.Messages.{MessageType, code}
use oomwoo_firmware.Messages.Structs.{Message, Punning}
use oomwoo_firmware.Messages.Layout.{member_bytes}
use oomwoo_firmware.Ingress.Commands.{Command, consume}
use oomwoo_firmware.Identity.{Identity, Emitted, emit_hello, hello_message, hello_frame_size}
use oomwoo_firmware.Identity.Hello.{IsIdentity, hello_frame, advanced, emit_hello_lem}
use oomwoo_firmware.Harness.{Device, sent, send_hello, handle_message}

-- The device between two calls.
pub record IsDevice {W : Type 0} (dev : Device W) : Type 0 where
  pub identity : IsIdentity dev.identity
  pub sized : length dev.tx_buffer ≡ hello_frame_size

advanced-IsIdentity : (i : Identity) → IsIdentity i → IsIdentity (advanced i)
advanced-IsIdentity i v = record {
  major16 = v.major16;
  minor16 = v.minor16;
  build32 = v.build32;
  sequence16 = omega arith;
}

pub length-hello_frame : (i : Identity) → length (hello_frame i) ≡ hello_frame_size
length-hello_frame i =
    length-frame_bytes 0 i.next_sequence (code MessageType.mcu_hello)
      (member_bytes (hello_message i).payload)

module _ {W : Type 0} (serial_write : Bytes → W → W) where
  -- The device after a hello.
  abbrev pub greeted : Device W → Device W
  greeted dev = record {
    identity = advanced dev.identity;
    tx_buffer = hello_frame dev.identity;
    serial = serial_write (hello_frame dev.identity) dev.serial;
  }

  greeted-IsDevice : (dev : Device W) → IsDevice dev → IsDevice (greeted dev)
  greeted-IsDevice dev v = record {
    identity = advanced-IsIdentity dev.identity v.identity;
    sized = length-hello_frame dev.identity;
  }

  pub send_hello_lem :
      (pun : Punning) (dev : Device W)
      → IsDevice dev
      → send_hello serial_write pun dev ≡ greeted dev
  unfolding send_hello
  send_hello_lem pun dev v =
      let i = dev.identity in
      let n = length-hello_frame i in
      let rest : hello_frame i ++ drop hello_frame_size dev.tx_buffer ≡ hello_frame i =
        ap (◌++◌ (hello_frame i)) (drop_all hello_frame_size dev.tx_buffer (omega (arith, v.sized)))
        ∙ append-nil (hello_frame i) in
      let whole : take hello_frame_size (hello_frame i) ≡ hello_frame i =
        take_all hello_frame_size (hello_frame i) (omega arith) in
      ap (λ e. sent serial_write e dev)
        (emit_hello_lem pun i dev.tx_buffer hello_frame_size 0 v.identity (omega arith)
          (omega (arith, v.sized)))
      ∙ rw (rest, whole)

  -- The device after a message: an identify request is answered by a hello, and nothing else is.
  abbrev pub answer : Device W → Message → Device W
  answer dev message =
      if message.type == code MessageType.identify_request then greeted dev else dev

  abbrev pub answers : Device W → List Command → Device W
  answers dev [] = dev
  answers dev (c ∷ cs) = answers (answer dev c.message) cs

  pub handle_message_lem :
      (pun : Punning) (frame : DecodedFrame) (message : Message) (dev : Device W)
      → IsDevice dev
      → handle_message serial_write pun frame message dev ≡ answer dev message
  unfolding handle_message oomwoo_firmware.Identity.handle_message send_hello
  handle_message_lem pun frame message dev v =
      elim (Bool-cases (message.type == code MessageType.identify_request)) [
        | inl request ↦ rw request (send_hello_lem pun dev v)
        | inr other ↦ rw other
      ]

  pub answer-IsDevice :
      (dev : Device W) (message : Message) → IsDevice dev → IsDevice (answer dev message)
  answer-IsDevice dev message v =
      elim (Bool-cases (message.type == code MessageType.identify_request)) [
        | inl request ↦ rw request (greeted-IsDevice dev v)
        | inr other ↦ rw other v
      ]

  -- The handler as the consumer of commands.
  pub consume-answers :
      (pun : Punning) (cs : List Command) (dev : Device W)
      → IsDevice dev
      → consume (some (handle_message serial_write pun)) dev cs ≡ answers dev cs
  consume-answers pun [] dev v = refl
  consume-answers pun (c ∷ cs) dev v =
      ap (λ d. consume (some (handle_message serial_write pun)) d cs)
        (handle_message_lem pun _ c.message dev v)
      ∙ consume-answers pun cs (answer dev c.message) (answer-IsDevice dev c.message v)
