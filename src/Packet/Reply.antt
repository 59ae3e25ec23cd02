-- ===== src/Packet/Reply.antt =====
-- `Reply`: what the packet loop owes a client, and the packet that it is rendered to.
use uring_mqtt.Common.{ℕ, none, [], replicate}
use uring_mqtt.Codec.Protocol.{ProtocolVersion, mqtt3, mqtt5}
use uring_mqtt.Packet.Types.{
  MqttPacket, PacketV3, PacketV5, Ack, PublishAckReason, PublishAck2Reason, SubscribeAckReason,
  UnsubscribeAckReason, SubscribeReturnCode, v3, v5,
}
use uring_mqtt.Packet.Awaiting.{ReleaseOutcome, released, unknown_packet_id}

-- Packet ids, and counts of filters that are not 0.
pub data Reply : Type 0 where
  ping_response : Reply
  publish_ack : ℕ → Reply
  subscribe_refusal unsubscribe_ack : ℕ → ℕ → Reply
  publish_received : ℕ → Reply
  publish_complete : ℕ → ReleaseOutcome → Reply

-- The constants `TIMEOUT_CTX_*` of src/broker/handler.rs.
pub data TimeoutContext : Type 0 where
  connack_flush pingresp_flush puback_flush suback_flush unsuback_flush : TimeoutContext
  pubrec_flush pubcomp_flush disconnect_flush : TimeoutContext

unfoldable pub timeout_context : Reply → TimeoutContext
timeout_context ping_response = pingresp_flush
timeout_context (publish_ack id) = puback_flush
timeout_context (subscribe_refusal id n) = suback_flush
timeout_context (unsubscribe_ack id n) = unsuback_flush
timeout_context (publish_received id) = pubrec_flush
timeout_context (publish_complete id outcome) = pubcomp_flush

-- `properties: Vec::new(), reason_string: None`
abbrev pub bare : {R : Type 0} → ℕ → R → Ack R
bare id reason = record { packet_id = id; reason = reason; properties = []; reason_string = none }

abbrev complete_reason : ReleaseOutcome → PublishAck2Reason
complete_reason released = PublishAck2Reason.success
complete_reason unknown_packet_id = PublishAck2Reason.packet_id_not_found

unfoldable pub render : Reply → ProtocolVersion → MqttPacket
render ping_response mqtt3 = v3 PacketV3.ping_response
render ping_response mqtt5 = v5 PacketV5.ping_response
render (publish_ack id) mqtt3 = v3 (PacketV3.publish_ack id)
render (publish_ack id) mqtt5 = v5 (PacketV5.publish_ack (bare id PublishAckReason.success))
render (subscribe_refusal id filters) mqtt3 =
    v3 (PacketV3.subscribe_ack id (replicate filters SubscribeReturnCode.failure))
render (subscribe_refusal id filters) mqtt5 = v5 (
    PacketV5.subscribe_ack
      (bare id (replicate filters SubscribeAckReason.implementation_specific_error)))
render (unsubscribe_ack id filters) mqtt3 = v3 (PacketV3.unsubscribe_ack id)
render (unsubscribe_ack id filters) mqtt5 = v5 (
    PacketV5.unsubscribe_ack
      (bare id (replicate filters UnsubscribeAckReason.no_subscription_existed)))
render (publish_received id) mqtt3 = v3 (PacketV3.publish_received id)
render (publish_received id) mqtt5 =
    v5 (PacketV5.publish_received (bare id PublishAckReason.success))
render (publish_complete id outcome) mqtt3 = v3 (PacketV3.publish_complete id)
render (publish_complete id outcome) mqtt5 =
    v5 (PacketV5.publish_complete (bare id (complete_reason outcome)))
