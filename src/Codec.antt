-- ===== src/Codec.antt =====
-- src/codec: the framing of MQTT packets, before a packet is decoded.
pub mod Header
pub mod Bound
pub mod Protocol
pub mod Decoded
pub mod Decoder
pub mod Version
