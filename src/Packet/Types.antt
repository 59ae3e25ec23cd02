-- ===== src/Packet/Types.antt =====
-- The packets of rmqtt-codec, as far as src/broker names them: every variant that `dispatch`
-- matches, with the fields that the broker reads or writes. Texts are lists of code points, and a
-- packet id is a number from 1 to 65535.
use uring_mqtt.Common.{ℕ, Bool, Option, List, ltb}
use uring_mqtt.Codec.Protocol.{ProtocolVersion}

pub data QoS : Type 0 where
  at_most_once at_least_once exactly_once : QoS

abbrev rank : QoS → ℕ
rank at_most_once = 0
rank at_least_once = 1
rank exactly_once = 2

-- The derived order `a > b`.
abbrev pub qos_gt : QoS → QoS → Bool
qos_gt a b = ltb (rank b) (rank a)

-- `handshake::MAX_QOS`
abbrev pub max_qos : QoS
max_qos = exactly_once

pub record PublishProperties : Type 0 where
  pub topic_alias : Option ℕ

pub record Publish : Type 0 where
  pub dup : Bool
  pub retain : Bool
  pub qos : QoS
  pub topic : List ℕ
  pub packet_id : Option ℕ
  pub payload : List ℕ
  pub properties : Option PublishProperties

pub record ConnectV3 : Type 0 where
  pub client_id : List ℕ
  pub clean_session : Bool
  pub keep_alive : ℕ

pub data ConnectAckReasonV3 : Type 0 where
  connection_accepted identifier_rejected unacceptable_protocol_version : ConnectAckReasonV3

pub record ConnectAckV3 : Type 0 where
  pub return_code : ConnectAckReasonV3
  pub session_present : Bool

pub data SubscribeReturnCode : Type 0 where
  success : QoS → SubscribeReturnCode
  failure : SubscribeReturnCode

pub data PacketV3 : Type 0 where
  connect : ConnectV3 → PacketV3
  connect_ack : ConnectAckV3 → PacketV3
  publish : Publish → PacketV3
  publish_ack publish_received publish_release publish_complete : (packet_id : ℕ) → PacketV3
  subscribe : (packet_id : ℕ) → (topic_filters : List (List ℕ × QoS)) → PacketV3
  subscribe_ack : (packet_id : ℕ) → (status : List SubscribeReturnCode) → PacketV3
  unsubscribe : (packet_id : ℕ) → (topic_filters : List (List ℕ)) → PacketV3
  unsubscribe_ack : (packet_id : ℕ) → PacketV3
  ping_request ping_response disconnect : PacketV3

pub record ConnectV5 : Type 0 where
  pub client_id : List ℕ
  pub keep_alive : ℕ
  pub auth_method : Option (List ℕ)
  pub max_packet_size : Option ℕ

pub data ConnectAckReasonV5 : Type 0 where
  success client_identifier_not_valid bad_authentication_method : ConnectAckReasonV5
  implementation_specific_error : ConnectAckReasonV5

-- The fields that `honest_v5_connack` and `evaluate_connect` set; the others keep their defaults.
pub record ConnectAckV5 : Type 0 where
  pub reason_code : ConnectAckReasonV5
  pub max_qos : QoS
  pub retain_available : Bool
  pub wildcard_subscription_available : Bool
  pub subscription_identifiers_available : Bool
  pub shared_subscription_available : Bool
  pub session_expiry_interval_secs : Option ℕ
  pub max_packet_size : Option ℕ
  pub assigned_client_id : Option (List ℕ)
  pub server_keepalive_sec : Option ℕ

pub data PublishAckReason : Type 0 where
  success : PublishAckReason

pub data PublishAck2Reason : Type 0 where
  success packet_id_not_found : PublishAck2Reason

pub data SubscribeAckReason : Type 0 where
  implementation_specific_error : SubscribeAckReason

pub data UnsubscribeAckReason : Type 0 where
  no_subscription_existed : UnsubscribeAckReason

pub data DisconnectReasonCode : Type 0 where
  protocol_error malformed_packet packet_too_large : DisconnectReasonCode
  qos_not_supported topic_alias_invalid : DisconnectReasonCode

-- An acknowledgement with its reason codes, its user properties and its reason string.
pub record Ack (R : Type 0) : Type 0 where
  pub packet_id : ℕ
  pub reason : R
  pub properties : List (List ℕ × List ℕ)
  pub reason_string : Option (List ℕ)

pub record SubscribeV5 : Type 0 where
  pub packet_id : ℕ
  pub topic_filters : List (List ℕ × ℕ)

pub record UnsubscribeV5 : Type 0 where
  pub packet_id : ℕ
  pub topic_filters : List (List ℕ)

pub data PacketV5 : Type 0 where
  connect : ConnectV5 → PacketV5
  connect_ack : ConnectAckV5 → PacketV5
  publish : Publish → PacketV5
  publish_ack publish_received : Ack PublishAckReason → PacketV5
  publish_release publish_complete : Ack PublishAck2Reason → PacketV5
  subscribe : SubscribeV5 → PacketV5
  subscribe_ack : Ack (List SubscribeAckReason) → PacketV5
  unsubscribe : UnsubscribeV5 → PacketV5
  unsubscribe_ack : Ack (List UnsubscribeAckReason) → PacketV5
  ping_request ping_response : PacketV5
  disconnect : DisconnectReasonCode → PacketV5
  auth : PacketV5

pub data MqttPacket : Type 0 where
  v3 : PacketV3 → MqttPacket
  v5 : PacketV5 → MqttPacket
  version : ProtocolVersion → MqttPacket
