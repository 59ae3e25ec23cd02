-- ===== src/Tests.antt =====
-- Runs of the model at concrete inputs, and the properties applied there.
mod Packet
mod Framing
mod Connect
mod Running
mod Workers
mod Bench
