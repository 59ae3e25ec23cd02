-- ===== src/Packet/Violation.antt =====
-- `Violation`: the protocol violations that close a session, and the code that they close with.
use uring_mqtt.Common.{Option, none, some}
use uring_mqtt.Codec.Protocol.{ProtocolVersion, mqtt3, mqtt5}
use uring_mqtt.Packet.Types.{DisconnectReasonCode}
use uring_mqtt.Error.{IoError, DecodeError, decode_source}

pub data Violation : Type 0 where
  duplicate_connect publish_missing_packet_id empty_topic_filter_list : Violation
  empty_topic_filter reply_over_max_packet_size inbound_over_max_packet_size : Violation
  server_only_packet publish_ack_from_client auth_not_negotiated : Violation
  publish_qos_above_maximum invalid_topic_name topic_alias_invalid : Violation
  malformed_packet version_probe : Violation

unfoldable pub disconnect_reason_code : Violation → ProtocolVersion → Option DisconnectReasonCode
disconnect_reason_code v mqtt3 = none
disconnect_reason_code malformed_packet mqtt5 = some DisconnectReasonCode.malformed_packet
disconnect_reason_code reply_over_max_packet_size mqtt5 = some DisconnectReasonCode.packet_too_large
disconnect_reason_code inbound_over_max_packet_size mqtt5 =
    some DisconnectReasonCode.packet_too_large
disconnect_reason_code publish_qos_above_maximum mqtt5 = some DisconnectReasonCode.qos_not_supported
disconnect_reason_code topic_alias_invalid mqtt5 = some DisconnectReasonCode.topic_alias_invalid
disconnect_reason_code v mqtt5 = some DisconnectReasonCode.protocol_error

abbrev violation_of : DecodeError → Violation
violation_of DecodeError.max_size_exceeded = inbound_over_max_packet_size
violation_of e = malformed_packet

unfoldable pub classify_read_error : IoError → Option Violation
unfolding decode_source
classify_read_error e = elim (decode_source e) [
  | none ↦ none
  | some rejected ↦ some (violation_of rejected)
]
