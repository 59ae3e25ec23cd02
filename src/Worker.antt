-- ===== src/Worker.antt =====
-- src/broker/worker.rs: what a worker keeps of its connections, and its event channel.
pub mod Slots
pub mod Events
pub mod Accept
