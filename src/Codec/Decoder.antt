-- ===== src/Codec/Decoder.antt =====
-- src/codec/mqtt.rs: `MqttDecoder`, the framing checks in front of rmqtt-codec's decoder.
pub mod Frames
use uring_mqtt.Common.{
  ℕ, Bool, true, false, ◌&&◌, Option, List, length, ltb, if◌then◌else◌, is_empty,
}
use uring_mqtt.Common.Result.{Result, ok, err}
use uring_mqtt.Error.{
  DecodeError, IoError, rejection, max_size_exceeded, malformed_packet, unexpected_eof,
  truncated_packet,
}
use uring_mqtt.Codec.Protocol.{ProtocolVersion}
use uring_mqtt.Codec.Decoded.{Decoded, insufficient}
use uring_mqtt.Codec.Header.{rejects_malformed_fixed_header}
use uring_mqtt.Codec.Bound.{MaxInboundPacketSize, rejects_fixed_header, remaining_length_limit}

-- rmqtt-codec's `MqttCodec`, which is not part of this repository: its states, its packets, the
-- codec of a version for a Remaining Length limit, and a call of `decode`, which takes bytes off the front of
-- the buffer.
pub record InnerCodec : Type 1 where
  pub Codec : Type 0
  pub Packet : Type 0
  pub with_limit : ProtocolVersion → ℕ → Codec
  pub step : Codec → List ℕ → Result DecodeError (Option Packet) × Codec × List ℕ

module _ (rmqtt : InnerCodec) where
  open rmqtt use {Codec, Packet, with_limit, step}

  pub record MqttDecoder : Type 0 where
    pub inner : Codec
    pub max_inbound_packet_size : MaxInboundPacketSize
    pub at_frame_start : Bool

  -- `none` is the underflow of `remaining_length_limit`.
  unfoldable pub new : ProtocolVersion → MaxInboundPacketSize → Option MqttDecoder
  new version bound = elim (remaining_length_limit bound) [
    | Option.none ↦ Option.none
    | Option.some limit ↦ Option.some (record {
      inner = with_limit version limit;
      max_inbound_packet_size = bound;
      at_frame_start = true;
    })
  ]

  -- What a call returns, the decoder after it, and what is left of the buffer.
  abbrev pub Outcome : Type 0
  Outcome = Result IoError (Decoded Packet) × MqttDecoder × List ℕ

  -- The `match` on the inner decoder's answer.
  unfoldable pub settle :
      MqttDecoder → ℕ → Result DecodeError (Option Packet) × Codec × List ℕ → Outcome
  settle d before (ok (Option.some packet), inner, src) =
      (ok (Decoded.some packet), record d { inner = inner; at_frame_start = true }, src)
  settle d before (ok Option.none, inner, src) = (
    ok insufficient,
    record d {
      inner = inner;
      at_frame_start = if ltb (length src) before then false else d.at_frame_start;
    },
    src,
  )
  settle d before (err e, inner, src) = (err (rejection e), record d { inner = inner }, src)

  unfoldable pub decode : MqttDecoder → List ℕ → Outcome
  unfolding settle
  decode d src =
      if d.at_frame_start && rejects_fixed_header d.max_inbound_packet_size src
      then (err (rejection max_size_exceeded), d, src)
      else if d.at_frame_start && rejects_malformed_fixed_header src
      then (err (rejection malformed_packet), d, src)
      else settle d (length src) (step d.inner src)

  -- The `match` of `decode_eof`.
  at_end : Outcome → Outcome
  at_end (ok (Decoded.some item), d, src) = (ok (Decoded.some item), d, src)
  at_end (ok insufficient, d, src) =
      if is_empty src && d.at_frame_start
      then (ok insufficient, d, src)
      else (err (record { kind = unexpected_eof; source = truncated_packet }), d, src)
  at_end (err e, d, src) = (err e, d, src)

  unfoldable pub decode_eof : MqttDecoder → List ℕ → Outcome
  unfolding at_end
  decode_eof d src = at_end (decode d src)
