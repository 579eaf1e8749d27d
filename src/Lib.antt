-- ===== src/Lib.antt =====
-- easy-usb shares USB devices over TCP by the USB/IP protocol. This library models its core crate,
-- crates/easy-usb-core/src: the protocol (wire format, codec, handshake, session, server side) and the
-- device registry of the engine.
--
-- A client's session imports a device: `import_device` (protocol/handshake.rs) connects, sends an
-- OP_REQ_IMPORT and checks the OP_REP_IMPORT, up to three times. `TcpSession` (protocol/session.rs) then
-- numbers and sends URB headers with payloads and receives them; both go through `encode_header` and
-- `decode_header` (protocol/codec.rs) on the structures of protocol/wire.rs. protocol/server.rs accepts
-- an import and echoes URBs. engine/registry.rs keeps the devices, their states and the sessions that
-- they are forwarded to, in a task that handles one command at a time.
--
-- Base: the native numbers, lists, tests and results that all parts share.
-- Bytes: the byte operations of the crates bytes and byteorder, as a record of operations and laws
--   (`ByteIo`); PlainBytes meets it. Bytes/Words: big-endian words.
-- Wire, Wire/Constants, Wire/Union, Wire/Header: protocol/wire.rs and protocol/constants.rs. A field of
--   an integer type holds its value, an i32 its bit pattern; the union is the memory of its variants on
--   a little-endian target, of five words and eight bytes.
-- Codec, Codec/Fields, Codec/Header, Codec/Import: protocol/codec.rs, one function per function or
--   match arm. Codec/Layout, Codec/Fidelity, Codec/Canonical, Codec/Parts: bytes of the parts, in both
--   directions. Codec/Message, Codec/Encode, Codec/Decode, Codec/RoundTrip, Codec/Spelled,
--   Codec/Sound: whole messages. Codec/Import/Layout, Codec/Import/Fields, Codec/Import/RoundTrip,
--   Codec/Import/Sound: the bytes of the import messages, in both directions.
-- Device: protocol/device.rs. Port: port/types.rs and the error types of port. Strings, Strings/Chars,
--   Strings/Steps, Strings/Decoding, Strings/Validity: `from_utf8_lossy` and what else port/types.rs uses
--   of the standard library's `String`.
-- Registry, Registry/Maps, Registry/Commands: engine/registry.rs; a HashMap is a function from keys.
--   Registry/MapLaws, Registry/Invariant, Registry/Lifecycle, Registry/Frame,
--   Registry/Refinement, Registry/Forwarding: its theorems. Registry/Channels: tokio's channels as a
--   record of operations and laws, which PlainChannels meets. Registry/System, Registry/System/Runs,
--   Registry/System/Reaching, Registry/System/Watching, Registry/System/Stops,
--   Registry/System/Losing: `DeviceRegistry`, its handles and its task, as steps on the channels that
--   they share. A registry has a capacity above 0: at 0 tokio panics.
-- Net: the TCP stream as a record of operations and laws (`Tcp`), which PlainTcp meets, and async
--   functions as functions from the stream to the stream and a result. Net/Reads, Net/Leaves, Net/Takes,
--   Net/Silent, Net/Loops: what an operation, and a loop of it, does to it.
-- Handshake, Handshake/Retries, Handshake/Attempts, Handshake/Exchanging,
--   Handshake/Bounded, Handshake/Imported: protocol/handshake.rs. What
--   connecting and the timeout of an attempt answer is an input.
-- Session, Session/Framing, Session/Receive, Session/Taken, Session/Padded, Session/Sending,
--   Session/Closing: protocol/session.rs.
-- Server, Server/Replies, Server/Contract, Server/Serving, Server/Answered, Server/Steps,
--   Server/Echoed, Server/Failing, Server/Accepting, Server/Accepted: protocol/server.rs. Server/Utf8,
--   Server/Utf8/Padding: the UTF-8 test of the standard library.
-- Exchange/Echo, Exchange/Pipeline and its children: a session and the echo server. Exchange/Import,
--   Exchange/LongBus: the import at both ends. Exchange/Registering: from an import to the registry.
--   Exchange/Connection: all of a connection, from the import to the last answer.
-- Runs and its children: the theorems at concrete inputs, and tests of the sources on the model, one
--   definition per test function (Runs/RegistryTests, Runs/DisconnectTests, Runs/CodecTests,
--   Runs/CodecErrorTests, Runs/WireTests, Runs/HandshakeTests, Runs/SessionTests, Runs/AcceptTests,
--   Runs/EchoTests).
--
-- Bounds: a payload has at most 1048576 bytes (MAX_PAYLOAD_SIZE), integers keep their width where the
-- code wraps (`% 4294967296` for next_seqnum), and nothing runs on fuel: the retry loop recurs on the
-- attempts left, three at the start, and the registry's loop on the list of the events that it sees.
--
-- Not modelled: logging and Debug text, the traits of port and their mocks, the empty adapter, cli and
-- daemon crates, the keepalive option's effect, and the 5 seconds that `shutdown` waits for the
-- registry's task.
pub mod Base
pub mod Bytes
pub mod PlainBytes
pub mod Wire
pub mod Codec
pub mod Device
pub mod Strings
pub mod Port
pub mod Registry
pub mod Net
pub mod Handshake
pub mod Session
pub mod Server
pub mod Exchange
pub mod PlainTcp
pub mod PlainChannels
pub mod Runs
