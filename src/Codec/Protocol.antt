-- ===== src/Codec/Protocol.antt =====
-- rmqtt-codec's `ProtocolVersion`, which src/codec/version.rs passes on.
pub data ProtocolVersion : Type 0 where
  mqtt3 mqtt5 : ProtocolVersion
