-- ===== src/Protocol.antt =====
-- src/protocol.rs: the commands, the messages and the frames of the V2 protocol.
pub mod Command
pub mod RoundTrip
pub mod Message
pub mod Frame
pub mod Words
