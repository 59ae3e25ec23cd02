-- ===== src/Bench.antt =====
-- bench/src: the parts of the benchmark that count and schedule.
pub mod Analysis
pub mod Config
pub mod Cpus
pub mod Generator
pub mod Payload
pub mod Pacer
pub mod Recorder
pub mod PacketIds
pub mod Slots
pub mod Wire
