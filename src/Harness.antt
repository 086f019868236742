-- ===== src/Harness.antt =====
-- The bench harness src/main.cpp over the ingress and the identity service. `serial_write` and
-- `serial_begin` stand for the serial port of the Arduino library, on a state `W` of the port; what the
-- port delivers, and the clock, are the arguments of the loop. The version macros are arguments too.
pub mod Answers
pub mod Loop
pub mod Running
pub mod Recovery
mod Tests
use oomwoo_firmware.Prelude.{
  ℕ, ◌+◌, ◌-◌, Bool, true, false, not, ◌&&◌, Option, none, some, List, [], ◌∷◌, ltb, ◌==◌,
  if◌then◌else◌, take, Bytes, bytes_of, u8, u16, u32,
}
use oomwoo_firmware.Prelude.Int.{ℤ, pos, negsuc}
use oomwoo_firmware.Protocol.{DecodedFrame}
use oomwoo_firmware.Messages.{size_or}
use oomwoo_firmware.Messages.Structs.{Message, Punning}
use oomwoo_firmware.Ingress.{
  CpuIngress, cpu_ingress_init, cpu_ingress_feed, cpu_ingress_reset_incomplete,
}
use oomwoo_firmware.Identity.{
  Identity, IdentityResult, Emitted, hello_frame_size, identity_init, emit_hello,
}

abbrev pub framing_gap_ms : ℕ
framing_gap_ms = 50

-- The globals that the message handler uses, and the serial port.
pub record Device (W : Type 0) : Type 0 where
  pub identity : Identity
  pub tx_buffer : Bytes
  pub serial : W

-- The other globals. The handler reaches the device by name and not by its NULL context; here the
-- device stands as the context.
pub record Globals (W : Type 0) : Type 0 where
  pub ingress : CpuIngress (Device W)
  pub last_rx_ms : ℕ

-- A value that `Serial.read` returned, and `millis()` after it.
pub record Reading : Type 0 where
  pub value : ℤ
  pub now : ℕ

-- Globals behind their pointers.
abbrev pub identity_or : Identity → Option Identity → Identity
identity_or i none = i
identity_or i (some j) = j

abbrev pub ingress_or : {S : Type 0} → CpuIngress S → Option (CpuIngress S) → CpuIngress S
ingress_or g none = g
ingress_or g (some h) = h

abbrev pub is_identity_ok : IdentityResult → Bool
is_identity_ok IdentityResult.ok = true
is_identity_ok _ = false

module _ {W : Type 0} (serial_write : Bytes → W → W) where
  -- Behind a call of the identity service: a frame that it made is written to the port.
  abbrev pub sent : Emitted → Device W → Device W
  sent e dev = record {
    identity = identity_or dev.identity e.identity;
    tx_buffer = bytes_of e.output;
    serial =
        if is_identity_ok e.result
        then serial_write (take (size_or e.output_length) (bytes_of e.output)) dev.serial
        else dev.serial;
  }

  unfoldable pub send_hello : Punning → Device W → Device W
  send_hello pun dev =
      sent (emit_hello pun (some dev.identity) (some dev.tx_buffer) hello_frame_size (some 0)) dev

  unfoldable pub handle_message : Punning → DecodedFrame → Message → Device W → Device W
  handle_message pun frame message dev =
      sent
        (oomwoo_firmware.Identity.handle_message pun (some dev.identity) (some message)
          (some dev.tx_buffer) hello_frame_size (some 0))
        dev

  unfoldable pub setup : (ℕ → W → W) → Punning → ℕ → ℕ → ℕ → Globals W → Globals W
  setup serial_begin pun major minor build_id before =
      let dev = before.ingress.callback_context in
      let ready =
        ingress_or before.ingress
          (cpu_ingress_init (some before.ingress) (some (handle_message pun)) dev) in
      let named =
        identity_or dev.identity
          (identity_init (some dev.identity) (u16 major) (u16 minor) (u32 build_id) 0) in
      let opened = record dev { identity = named; serial = serial_begin 115200 dev.serial } in
      record before { ingress = record ready { callback_context = send_hello pun opened } }

-- The body of the loop over the available bytes. A negative value is no byte.
abbrev pub read_value : {W : Type 0} → Punning → Globals W → ℤ → ℕ → Globals W
read_value pun g (pos n) now = record {
  ingress =
      ingress_or g.ingress (cpu_ingress_feed pun (some g.ingress) (some (u8 n ∷ [])) 1).ingress;
  last_rx_ms = now;
}
read_value pun g (negsuc n) now = g

unfoldable pub read_available : {W : Type 0} → Punning → Globals W → List Reading → Globals W
read_available pun g [] = g
read_available pun g (r ∷ rest) = read_available pun (read_value pun g r.value r.now) rest

-- `static_cast<uint32_t>(millis() - last_rx_ms)`
abbrev pub elapsed : ℕ → ℕ → ℕ
elapsed now last_rx_ms = u32 (now + 4294967296 - last_rx_ms)

unfoldable pub check_gap : {W : Type 0} → Globals W → ℕ → Globals W
check_gap g now =
    if not (g.ingress.decoder.buffered_bytes == 0) && ltb framing_gap_ms (elapsed now g.last_rx_ms)
    then record g { ingress = ingress_or g.ingress (cpu_ingress_reset_incomplete (some g.ingress)) }
    else g

unfoldable pub loop : {W : Type 0} → Punning → Globals W → List Reading → ℕ → Globals W
loop pun g readings now = check_gap (read_available pun g readings) now
