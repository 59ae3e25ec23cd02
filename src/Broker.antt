-- ===== src/Broker.antt =====
-- src/broker/mod.rs: how the workers start together, stop together, and are joined.
pub mod Startup
pub mod Shutdown
pub mod Join
