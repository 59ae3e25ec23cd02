-- ===== src/Handshake/CleanSession.antt =====
-- The decision on an MQTT 3.1.1 CONNECT, case by case.
use uring_mqtt.Common.{
  ℕ, ◌*◌, ◌≤◌, min, true, false, Option, none, some, List, [], ◌==◌, ◌≡◌, ◌≢◌, ◌⊎◌, inl, inr, refl,
  arith, subst, Bool-cases, is_empty-cases,
}
use uring_mqtt.Codec.Bound.{MaxInboundPacketSize}
use uring_mqtt.Packet.Types.{MqttPacket, PacketV3, v3, ConnectV3, ConnectAckReasonV3}
use uring_mqtt.Packet.Size.{Encoder}
use uring_mqtt.Handshake.{
  Accepted, ConnectDecision, accept, refuse, refuse_persistent_session, clamped_timeout_secs,
  v3_connack, evaluate_v3, evaluate_connect,
}
use uring_mqtt.Handshake.Deadline.{grace_lem}

-- The CONNECT that a packet is, if it is one.
abbrev pub v3_connect_of : MqttPacket → Option ConnectV3
v3_connect_of (v3 (PacketV3.connect c)) = some c
v3_connect_of k = none

-- A v3 CONNECT.
abbrev pub V3Cases : ConnectV3 → ℕ → ConnectDecision → Type 0
V3Cases c secs d =
    ((c.clean_session ≡ false)
      × (c.client_id ≡ [])
      × (d ≡ refuse (v3_connack ConnectAckReasonV3.identifier_rejected) true))
    ⊎ ((c.clean_session ≡ false) × c.client_id ≢ [] × (d ≡ refuse_persistent_session))
    ⊎ ((c.clean_session ≡ true)
        × ((a : Accepted) × (d ≡ accept a)
            × (a.connack ≡ v3_connack ConnectAckReasonV3.connection_accepted)
            × (((c.client_id ≡ []) × (a.client_id ≡ none))
                ⊎ (c.client_id ≢ [] × (a.client_id ≡ some c.client_id)))
            × (a.keep_alive_secs ≡ c.keep_alive)
            × (((c.keep_alive ≡ 0) × (a.idle_timeout ≡ min secs 31536000 * 1000))
                ⊎ (c.keep_alive ≢ 0
                    × (a.idle_timeout ≡ min (c.keep_alive * 1500) (min secs 31536000 * 1000))))
            × (a.max_packet_size ≡ none)))

v3_cases :
    (c : ConnectV3) (secs : ℕ)
    → c.keep_alive ≤ 65535
    → V3Cases c secs (evaluate_v3 c (clamped_timeout_secs secs))
unfolding evaluate_v3
v3_cases c secs u16 = elim (Bool-cases c.clean_session) [
  | inl clean ↦ elim (is_empty-cases c.client_id) [
    | inl (e, empty) ↦ elim (Bool-cases (c.keep_alive == 0)) [
      | inl no_limit ↦ inr (
          inr (
            clean,
            (
              _,
              rw (clean, empty, no_limit) refl,
              refl,
              inl (e, refl),
              refl,
              inl (ground arith, refl),
              refl,
            ),
          ))
      | inr limit ↦ inr (
          inr (
            clean,
            (
              _,
              rw (clean, empty, limit, grace_lem c.keep_alive u16) refl,
              refl,
              inl (e, refl),
              refl,
              inr (ground arith, refl),
              refl,
            ),
          ))
    ]
    | inr (ne, named) ↦ elim (Bool-cases (c.keep_alive == 0)) [
      | inl no_limit ↦ inr (
          inr (
            clean,
            (
              _,
              rw (clean, named, no_limit) refl,
              refl,
              inr (ne, refl),
              refl,
              inl (ground arith, refl),
              refl,
            ),
          ))
      | inr limit ↦ inr (
          inr (
            clean,
            (
              _,
              rw (clean, named, limit, grace_lem c.keep_alive u16) refl,
              refl,
              inr (ne, refl),
              refl,
              inr (ground arith, refl),
              refl,
            ),
          ))
    ]
  ]
  | inr kept ↦ elim (is_empty-cases c.client_id) [
    | inl (e, empty) ↦ inl (kept, e, rw (empty, kept) refl)
    | inr (ne, named) ↦ inr (inl (kept, ne, rw (named, kept) refl))
  ]
]

abbrev OnV3 : Option ConnectV3 → ℕ → ConnectDecision → Type 0
OnV3 none secs d = Unit {0}
OnV3 (some c) secs d = c.keep_alive ≤ 65535 → V3Cases c secs d

-- An MQTT 3.1.1 CONNECT, with a keep-alive that fits 16 bits: with Clean Session 0 it is refused,
-- without a client id by the sendable CONNACK that says so, and with one without a CONNACK. Any
-- other is accepted, under its own client id or none, with its own keep-alive and no packet size
-- limit. Its deadline is the configured timeout, of at most a year, and for a keep-alive that is
-- not 0 the smaller one of that and one and a half times the keep-alive.
pub v3_connect_decided :
    (encode : Encoder) (k : MqttPacket) (c : ConnectV3) (secs : ℕ) (peer : List ℕ)
    (bound : MaxInboundPacketSize)
    → v3_connect_of k ≡ some c
    → c.keep_alive ≤ 65535
    → V3Cases c secs (evaluate_connect encode k secs peer bound)
unfolding evaluate_connect
v3_connect_decided encode (v3 (PacketV3.connect d)) c secs peer bound e u16 =
    subst (λ o. OnV3 o secs (evaluate_v3 d (clamped_timeout_secs secs))) e (λ u. v3_cases d secs u)
      u16
v3_connect_decided encode k c secs peer bound e u16 = cc
