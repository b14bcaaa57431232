-- ===== src/Lib.antt =====
-- Verification of the dispenser protocols of the fuel station controller.
--
-- The controller talks to fuel dispensers over serial lines. Each protocol has a crate that builds the
-- bytes of a request, finds and checks the bytes of a reply, and parses them; the engine of
-- services/dispenser-service calls these crates and keeps the state of each fuelling position. This
-- library models the protocol crates, and the engine's state with what a Wayne frame does to it.
--
-- Base and the modules below it hold what the parts share: tests on the native numbers, lists with
-- positions, and laws of the bit operations, which are checked over all bytes by evaluation. A byte
-- is a natural number, with `IsByte` where a theorem needs the range; wrap-around is written out.
-- A buffer (`Vec<u8>`, `&[u8]`) is a list, and a mutable buffer is an argument and a result.
--
-- Azt models crates/azt: Codec is codec.rs (the complementary pairs, the checksum, the request reader
--   `pop_request`, which drains its buffer, and the reply decoder `decode_response`); Frame, Commands
--   and Parser are the files of these names. The loop of `pop_request` runs on fuel, one more than
--   the length of the buffer: each round that goes on drops a byte at least.
-- Bluesky models crates/texnouz-bluesky: Codec is codec.rs (frames and BCD fields), and Commands,
--   Frame and Parser are the files of these names.
-- Shelf models crates/shelf-v22: Codec is codec.rs (CRC frames), and Commands, Frame and Parser are
--   the files of these names.
-- Gilbarco models crates/gilbarco: Lrc is lrc.rs, Commands is commands.rs, and Parser and Totals are
--   parser.rs with the types of frame.rs, without the display in litres, which is floating point.
-- Wayne models crates/wayne-europump: Crc is crc.rs, Builder is builder.rs and dart.rs, Frame is
--   frame.rs, and parser.rs is Bytes (addresses, garbage, CRC check), Fill (the meter block and the
--   hose status), Parser (`parse_frame`) and Accumulator (`FrameAccumulator`, whose state is its
--   buffer). The loop of `push_bytes` runs on fuel, one more than the length of the buffer with the
--   chunk: each round that goes on drains two bytes at least. The preset in litres is floating
--   point and is not modelled; `decode_volume` stands with the engine.
-- Engine models services/dispenser-service/src/engine/state.rs with protocols/wayne_state.rs, and the
--   types that it uses of crates/types and crates/config (Types). Runtime is `RuntimeFp`, Session its
--   small operations and guards, Meters the meters, caps, totals and resets, Nozzles the lookups of the
--   catalogue, Sales the closing and stopping of a sale, Stopped the end of a stopped sale, Holster the
--   holstered nozzle, Idle the idle and done frames, Commands the display and the pre-authorization,
--   Operator the reset, the stop, the polls and the prices, Lift the nozzle-up frame, Metering the meter
--   frame in a session, Outside the one outside a session, and Frames `apply_frame`, which takes the
--   frames of Wayne. A handler returns the lane and its effect
--   (Effects); a mutable `self` is an argument and a result. Steps is the relation of all operations
--   that act on a Wayne lane, in any order.
--   Volumes are `f64`: Float is a record of the operations that the code uses, a parameter of which
--   nothing is assumed, so the theorems hold for every choice. The clock and the next identifier of
--   `Uuid::new_v4` are arguments of a call, with the configuration and the shift (`Call`); the clock
--   stands still during one call. Times are milliseconds, and a difference of two times stops at 0,
--   which the comparisons with positive bounds do not tell apart. A map from nozzle indices is an
--   association list. The fields of the lane that only other drivers use, and its lifetime totals, are
--   left out.
--
-- The modules below a component hold its proofs and are named for what they are about; the module
-- Tests of each protocol runs the definitions on concrete bytes.
--
-- Not modelled: the engine's drivers and its poll loop, the serial ports, the database and web code of
-- services/dispenser-service, the tank gauge crate, the simulators and the applications.
pub mod Base
pub mod Azt
pub mod Bluesky
pub mod Shelf
pub mod Gilbarco
pub mod Wayne
pub mod Engine
