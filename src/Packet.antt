-- ===== src/Packet.antt =====
-- src/broker/packet.rs: what the packet loop owes for each decoded packet.
pub mod Types
pub mod Awaiting
pub mod Reply
pub mod Violation
pub mod Size
pub mod Dispatch
