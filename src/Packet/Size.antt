-- ===== src/Packet/Size.antt =====
-- The Maximum Packet Size that a client declares, and what it lets the server send. The encoder is
-- rmqtt-codec's: `none` where it fails, and else the bytes it appends to an empty buffer.
pub mod Gate
use uring_mqtt.Common.{ℕ, Bool, true, false, Option, none, some, List, length, leb, if◌then◌else◌}
use uring_mqtt.Codec.Protocol.{ProtocolVersion}
use uring_mqtt.Packet.Types.{MqttPacket, PacketV5, v5}
use uring_mqtt.Packet.Reply.{Reply, render}
use uring_mqtt.Packet.Violation.{Violation, reply_over_max_packet_size, disconnect_reason_code}

abbrev pub Encoder : Type 0
Encoder = ProtocolVersion → MqttPacket → Option (List ℕ)

module _ (encode : Encoder) where
  unfoldable pub encoded_len : MqttPacket → ProtocolVersion → Option ℕ
  encoded_len packet version = elim (encode version packet) [
    | none ↦ none
    | some buf ↦ some (length buf)
  ]

  -- The source passes the length as a closure, which is not called without a limit.
  unfoldable pub fits_within : Option ℕ → Option ℕ → Bool
  fits_within len none = true
  fits_within none (some limit) = false
  fits_within (some len) (some limit) = leb len limit

  unfoldable pub fits_max_packet_size : MqttPacket → ProtocolVersion → Option ℕ → Bool
  unfolding encoded_len fits_within
  fits_max_packet_size packet version max_packet_size =
      fits_within (encoded_len packet version) max_packet_size

  unfoldable pub over_max_packet_size : Reply → ProtocolVersion → Option ℕ → Option Violation
  unfolding encoded_len fits_within
  over_max_packet_size reply version max_packet_size =
      if fits_within (encoded_len (render reply version) version) max_packet_size
      then none
      else some reply_over_max_packet_size

  unfoldable pub disconnect : Violation → ProtocolVersion → Option ℕ → Option MqttPacket
  unfolding encoded_len fits_within
  disconnect violation version max_packet_size = elim (disconnect_reason_code violation version) [
    | none ↦ none
    | some reason_code ↦
        let packet = v5 (PacketV5.disconnect reason_code) in
        if fits_within (encoded_len packet version) max_packet_size then some packet else none
  ]
