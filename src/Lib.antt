-- ===== src/Lib.antt =====
-- The serial link of the OOMWOO robot's motor controller firmware: a model of the C code under
-- src/ and include/, with the theorems that make it correct.
--
-- The controller (MCU) and the robot's computer (CPU) exchange frames over a byte stream. A frame
-- is `OW`, a version, flags, a sequence number, a message type, a payload length, at most 512
-- payload bytes, and a CRC-16 of all of these. The stream decoder collects bytes in an array of one
-- frame's size, hands every whole frame to a callback, and looks for the next `OW` after an error.
-- The CPU ingress is such a callback: it decodes the payload, refuses a frame of the wrong
-- direction, of an unknown type, of the wrong length or with a value out of range, and gives the
-- rest to its consumer. The identity service answers an identify request with an encoded MCU_HELLO.
--
-- Which file models which part:
--
--   Prelude          shared names; Bits, Int, Lists, Words and Tests are its laws on bit
--                    operations, signed numbers, C arrays, machine words with <string.h> calls,
--                    and Boolean tests
--   Protocol         the constants and types of include/oomwoo_protocol.h
--   Protocol/Wire    write_u16_le, read_u16_le of src/oomwoo_protocol.c
--   Protocol/Crc     oomwoo_crc16_ccitt_false, its byte loop and its bit loop
--   Protocol/Frame   oomwoo_encode_frame, oomwoo_decode_frame
--   Protocol/Stream  oomwoo_stream_decoder_init, _feed and _reset_incomplete with remove_prefix and
--                    resync_after_error; Reference is the decoder on a list instead of an array,
--                    View and Refine relate the two; Parse is what a stream means, a parser of the
--                    whole input, with streams of frames and damage (Traffic) and the places that
--                    the counters count (Places, Charges, Causes); Memory is about what stands behind
--                    the array
--   Messages         the types, directions, results and sizes of include/oomwoo_messages.h and
--                    src/oomwoo_messages.c, with its constants in Sizes and Events; Structs holds the
--                    payload structs, Words the 32-bit and signed reads and writes, Validate
--                    oomwoo_message_validate, Decode and Encode oomwoo_message_decode_payload and
--                    _encode_payload; Layout is the payload format as lists of bytes
--   Ingress          src/oomwoo_cpu_ingress.c: oomwoo_cpu_ingress_validate_frame, handle_frame,
--                    _init, _feed and _reset_incomplete; Sent and Traffic are about streams of
--                    commands among refused frames
--   Identity         src/oomwoo_identity.c: oomwoo_identity_init, _emit_hello, _handle_message
--   Harness          src/main.cpp: setup and loop over the ingress and the identity service;
--                    Running and Recovery are about what arrives over many rounds of the loop
--   Pins             include/oomwoo_pins.h, one file for each port; Documented holds the pins that
--                    docs/SPEC.md names
--
-- How the state corresponds: a C struct is a record with its field names; an array is a list, a
-- pointer into it an offset; a pointer that may be NULL is an `Option`. What a function stores
-- through an output pointer is returned beside its status. A callback with its context is a
-- function on the context. Unsigned words are natural numbers with the wrap-around written out;
-- `size_t` sums stay below 2 ^ 10 and are not wrapped. The union of a message is the member that
-- was stored last; what a read of another member gives is a parameter (`Punning`), of which nothing
-- is assumed.
--
-- Bounds and fuel: the feed's inner loop runs on fuel of one more round than there are bytes held,
-- and ends before the fuel does (Protocol/Stream/Loop). All other loops are structural.
--
-- The serial port and the clock of the Arduino library are parameters of the harness: two functions
-- on a state of the port, the values read with the time of each, and the time at the loop's end.
--
-- Macros of include/oomwoo_pins.h are the texts that they expand to: what the Arduino core and the
-- device headers make of `PA0` and `GPIOA` is not modelled.
--
-- Not modelled: the tests and the tools.
pub mod Prelude
pub mod Protocol
pub mod Messages
pub mod Ingress
pub mod Identity
pub mod Harness
pub mod Pins
