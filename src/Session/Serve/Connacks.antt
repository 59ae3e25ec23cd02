-- ===== src/Session/Serve/Connacks.antt =====
-- What `evaluate_connect` decides to send.
use uring_mqtt.Common.{ℕ, List, inl, inr, Bool-cases, Option-cases, is_empty, not, ◌&&◌}
use uring_mqtt.Codec.Protocol.{mqtt5}
use uring_mqtt.Codec.Bound.{MaxInboundPacketSize}
use uring_mqtt.Packet.Types.{MqttPacket, PacketV3, PacketV5, v3, v5, ConnectV3, ConnectV5}
use uring_mqtt.Packet.Size.{Encoder, fits_max_packet_size}
use uring_mqtt.Handshake.{
  ConnectDecision, accept, refuse, v5_connack, evaluate_v3, refuse_v5, evaluate_v5,
  evaluate_connect, owed_connack,
}
use uring_mqtt.Session.Serve.Opens.{IsConnack}

-- What a decision sends is a CONNACK.
abbrev pub SendsConnack : ConnectDecision → Type 0
SendsConnack (accept a) = IsConnack a.connack
SendsConnack (refuse connack sendable) = IsConnack connack
SendsConnack d = Unit {0}

v3-SendsConnack : (c : ConnectV3) (cfg : ℕ) → SendsConnack (evaluate_v3 c cfg)
unfolding evaluate_v3
v3-SendsConnack c cfg = elim (Bool-cases (is_empty c.client_id && not c.clean_session)) [
  | inl unnamed ↦ rw unnamed tt
  | inr named ↦ elim (Bool-cases c.clean_session) [
    | inl clean ↦ rw (named, clean) tt
    | inr kept ↦ rw (named, kept) tt
  ]
]

v5-SendsConnack :
    (encode : Encoder) (c : ConnectV5) (cfg : ℕ) (peer : List ℕ) (bound : MaxInboundPacketSize)
    → SendsConnack (evaluate_v5 encode c cfg peer bound)
unfolding evaluate_v5 refuse_v5
v5-SendsConnack encode c cfg peer bound = elim (Option-cases c.auth_method) [
  | inr (m, e) ↦ rw (e, evaluate_v5) tt
  | inl e ↦
      elim (Bool-cases (
        fits_max_packet_size encode (v5_connack (owed_connack c cfg peer bound)) mqtt5
          c.max_packet_size)) [
            | inl within ↦ rw (e, within, evaluate_v5) tt
            | inr beyond ↦ rw (e, beyond, evaluate_v5) tt
          ]
]

pub connect-SendsConnack :
    (encode : Encoder) (k : MqttPacket) (secs : ℕ) (peer : List ℕ) (bound : MaxInboundPacketSize)
    → SendsConnack (evaluate_connect encode k secs peer bound)
unfolding evaluate_connect
connect-SendsConnack encode (v3 (PacketV3.connect c)) secs peer bound = v3-SendsConnack c _
connect-SendsConnack encode (v5 (PacketV5.connect c)) secs peer bound =
    v5-SendsConnack encode c _ peer bound
connect-SendsConnack encode k secs peer bound = tt
