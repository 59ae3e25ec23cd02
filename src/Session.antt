-- ===== src/Session.antt =====
-- src/broker/handler.rs: the session of one client, as a program of queries to its runtime.
pub mod Io
pub mod Replies
pub mod PacketLoop
pub mod Always
pub mod Allowed
pub mod Serve
