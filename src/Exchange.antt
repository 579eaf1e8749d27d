-- ===== src/Exchange.antt =====
-- A client (crates/easy-usb-core/src/protocol/handshake.rs and session.rs) and the server of
-- crates/easy-usb-core/src/protocol/server.rs at the two ends of a connection: the bytes that one has
-- written are those that the other has to read.
pub mod Echo
pub mod Import
pub mod Pipeline
pub mod LongBus
pub mod Registering
pub mod Connection
