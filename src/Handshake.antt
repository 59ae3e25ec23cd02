-- ===== src/Handshake.antt =====
-- src/broker/handshake.rs: the decision on the first packet of a connection. Durations are in
-- milliseconds. The text of the peer's address is a parameter, and so is the encoder.
pub mod Deadline
pub mod CleanSession
pub mod Limits
use uring_mqtt.Common.{
  ℕ, zero, suc, ◌+◌, ◌*◌, ◌/◌, ◌%◌, min, Bool, true, false, not, ◌&&◌, Option, none, some, List, [],
  ◌∷◌, ◌++◌, ltb, leb, is_empty, if◌then◌else◌, ◌==◌,
}
use uring_mqtt.Codec.Protocol.{ProtocolVersion, mqtt3, mqtt5}
use uring_mqtt.Codec.Bound.{MaxInboundPacketSize}
use uring_mqtt.Packet.Types.{
  QoS, max_qos, MqttPacket, PacketV3, PacketV5, v3, v5, ConnectV3, ConnectV5, ConnectAckV3,
  ConnectAckV5, ConnectAckReasonV3, ConnectAckReasonV5,
}
use uring_mqtt.Packet.Size.{Encoder, fits_max_packet_size}

abbrev pub keep_alive_grace_millis_per_sec : ℕ
keep_alive_grace_millis_per_sec = 1500

abbrev pub max_timeout_secs : ℕ
max_timeout_secs = 31536000

pub record Accepted : Type 0 where
  pub connack : MqttPacket
  pub client_id : Option (List ℕ)
  pub keep_alive_secs : ℕ
  pub idle_timeout : ℕ
  pub max_packet_size : Option ℕ

pub data ConnectDecision : Type 0 where
  accept : Accepted → ConnectDecision
  refuse : (connack : MqttPacket) → (sendable : Bool) → ConnectDecision
  refuse_persistent_session not_connect : ConnectDecision

-- The u64 arithmetic wraps at 2 ^ 64.
abbrev wrap : ℕ → ℕ
wrap n = n % 18446744073709551616

-- `config_idle_timeout_secs.min(MAX_TIMEOUT_SECS)`
abbrev pub clamped_timeout_secs : ℕ → ℕ
clamped_timeout_secs secs = min secs max_timeout_secs

-- `Duration::from_secs`
abbrev pub from_secs : ℕ → ℕ
from_secs secs = secs * 1000

unfoldable pub grace : ℕ → ℕ
grace keep_alive = wrap (keep_alive * keep_alive_grace_millis_per_sec)

-- `n.clamp(low, high)`
clamp : ℕ → ℕ → ℕ → ℕ
clamp n low high = if ltb n low then low else if ltb high n then high else n

-- `(cfg * 2 / 3).clamp(1, u16::MAX) as u16`
unfoldable pub announced : ℕ → ℕ
unfolding clamp
announced cfg = clamp (wrap (cfg * 2) / 3) 1 65535 % 65536

-- What the client gets of its keep-alive: the negotiated value, the deadline, and the value that
-- the CONNACK announces.
pub record KeepAlive : Type 0 where
  pub negotiated : ℕ
  pub idle : ℕ
  pub announce : Option ℕ

unfoldable pub negotiate : ℕ → ℕ → KeepAlive
unfolding grace announced
negotiate keep_alive cfg =
    if keep_alive == 0
    then record { negotiated = 0; idle = from_secs cfg; announce = none }
    else if leb (grace keep_alive) (from_secs cfg)
    then record { negotiated = keep_alive; idle = grace keep_alive; announce = none }
    else record {
      negotiated = announced cfg;
      idle = grace (announced cfg);
      announce = some (announced cfg);
    }

unfoldable pub honest_v5_connack : ConnectAckReasonV5 → MaxInboundPacketSize → ConnectAckV5
honest_v5_connack reason bound = record {
  reason_code = reason;
  max_qos = max_qos;
  retain_available = true;
  wildcard_subscription_available = true;
  subscription_identifiers_available = true;
  shared_subscription_available = true;
  session_expiry_interval_secs = some 0;
  max_packet_size = some bound.bytes;
  assigned_client_id = none;
  server_keepalive_sec = none;
}

abbrev pub v3_connack : ConnectAckReasonV3 → MqttPacket
v3_connack code = v3 (PacketV3.connect_ack (record { return_code = code; session_present = false }))

abbrev pub v5_connack : ConnectAckV5 → MqttPacket
v5_connack ack = v5 (PacketV5.connect_ack ack)

-- `format!("auto-{peer_addr}")`, for an empty client id.
unfoldable pub assigned : List ℕ → List ℕ → Option (List ℕ)
assigned client_id peer =
    if is_empty client_id then some (b'a' ∷ b'u' ∷ b't' ∷ b'o' ∷ b'-' ∷ peer) else none

abbrev unwrap_or : Option (List ℕ) → List ℕ → List ℕ
unwrap_or none d = d
unwrap_or (some x) d = x

-- The CONNACK that an acceptable MQTT 5 client is owed.
unfoldable pub owed_connack : ConnectV5 → ℕ → List ℕ → MaxInboundPacketSize → ConnectAckV5
unfolding negotiate assigned honest_v5_connack
owed_connack c cfg peer bound =
    let honest = honest_v5_connack ConnectAckReasonV5.success bound in
    record {
      reason_code = honest.reason_code;
      max_qos = honest.max_qos;
      retain_available = honest.retain_available;
      wildcard_subscription_available = honest.wildcard_subscription_available;
      subscription_identifiers_available = honest.subscription_identifiers_available;
      shared_subscription_available = honest.shared_subscription_available;
      session_expiry_interval_secs = honest.session_expiry_interval_secs;
      max_packet_size = honest.max_packet_size;
      assigned_client_id = assigned c.client_id peer;
      server_keepalive_sec = (negotiate c.keep_alive cfg).announce;
    }

-- The arm of an MQTT 3.1.1 CONNECT.
unfoldable pub evaluate_v3 : ConnectV3 → ℕ → ConnectDecision
unfolding grace
evaluate_v3 c cfg =
    if is_empty c.client_id && not c.clean_session
    then refuse (v3_connack ConnectAckReasonV3.identifier_rejected) true
    else if not c.clean_session
    then refuse_persistent_session
    else accept (record {
      connack = v3_connack ConnectAckReasonV3.connection_accepted;
      client_id = if is_empty c.client_id then none else some c.client_id;
      keep_alive_secs = c.keep_alive;
      idle_timeout =
          if c.keep_alive == 0 then from_secs cfg else min (grace c.keep_alive) (from_secs cfg);
      max_packet_size = none;
    })

module _ (encode : Encoder) where
  unfoldable pub refuse_v5 : ConnectAckReasonV5 → Option ℕ → MaxInboundPacketSize → ConnectDecision
  unfolding fits_max_packet_size honest_v5_connack
  refuse_v5 reason limit bound =
      let ack = v5_connack (honest_v5_connack reason bound) in
      refuse ack (fits_max_packet_size encode ack mqtt5 limit)

  -- The arm of an MQTT 5 CONNECT.
  unfoldable pub evaluate_v5 : ConnectV5 → ℕ → List ℕ → MaxInboundPacketSize → ConnectDecision
  unfolding refuse_v5 fits_max_packet_size owed_connack negotiate assigned
  evaluate_v5 c cfg peer bound = elim c.auth_method [
    | some method ↦ refuse_v5 ConnectAckReasonV5.bad_authentication_method c.max_packet_size bound
    | none ↦
        let connack = v5_connack (owed_connack c cfg peer bound) in
        let keep_alive = negotiate c.keep_alive cfg in
        if not (fits_max_packet_size encode connack mqtt5 c.max_packet_size)
        then refuse_v5 ConnectAckReasonV5.implementation_specific_error c.max_packet_size bound
        else accept (record {
          connack = connack;
          client_id = some (unwrap_or (assigned c.client_id peer) c.client_id);
          keep_alive_secs = keep_alive.negotiated;
          idle_timeout = keep_alive.idle;
          max_packet_size = c.max_packet_size;
        })
  ]

  unfoldable pub evaluate_connect : MqttPacket → ℕ → List ℕ → MaxInboundPacketSize → ConnectDecision
  unfolding evaluate_v3 evaluate_v5
  evaluate_connect (v3 (PacketV3.connect c)) secs peer bound =
      evaluate_v3 c (clamped_timeout_secs secs)
  evaluate_connect (v5 (PacketV5.connect c)) secs peer bound =
      evaluate_v5 c (clamped_timeout_secs secs) peer bound
  evaluate_connect packet secs peer bound = not_connect
