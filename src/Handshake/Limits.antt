-- ===== src/Handshake/Limits.antt =====
-- The decision on an MQTT 5 CONNECT, case by case.
use uring_mqtt.Common.{
  ℕ, ◌*◌, ◌≤◌, min, Bool, true, Option, none, some, List, [], ◌∷◌, ◌≡◌, ◌≢◌, ◌↔◌, ◌⊎◌, inl, inr,
  refl, arith, subst, Bool-cases, Option-cases,
}
use uring_mqtt.Codec.Protocol.{mqtt5}
use uring_mqtt.Codec.Bound.{MaxInboundPacketSize}
use uring_mqtt.Packet.Types.{MqttPacket, PacketV5, v5, ConnectV5, ConnectAckV5, ConnectAckReasonV5}
use uring_mqtt.Packet.Size.{Encoder, fits_max_packet_size}
use uring_mqtt.Packet.Size.Gate.{MaySend, fits_max_packet_size_iff}
use uring_mqtt.Handshake.{
  Accepted, ConnectDecision, accept, refuse, clamped_timeout_secs, honest_v5_connack, v5_connack,
  assigned, owed_connack, unwrap_or, refuse_v5, evaluate_v5, evaluate_connect,
}
use uring_mqtt.Handshake.Deadline.{Deadline, effective, negotiate_lem}

abbrev pub v5_connect_of : MqttPacket → Option ConnectV5
v5_connect_of (v5 (PacketV5.connect c)) = some c
v5_connect_of k = none

-- What a client id is: the client's, or for an empty one the one that the server assigns.
abbrev pub Identity : List ℕ → List ℕ → Option (List ℕ) → Option (List ℕ) → Type 0
Identity own peer assigned_id client_id =
    ((own ≡ [])
      × (assigned_id ≡ some (b'a' ∷ b'u' ∷ b't' ∷ b'o' ∷ b'-' ∷ peer))
      × (client_id ≡ assigned_id))
    ⊎ (own ≢ [] × (assigned_id ≡ none) × (client_id ≡ some own))

identity :
    (own peer : List ℕ)
    → Identity own peer (assigned own peer) (some (unwrap_or (assigned own peer) own))
unfolding assigned
identity [] peer = inl (refl, refl, refl)
identity (x ∷ own) peer = inr ((λ e. cc), refl, refl)

-- A refusal for a reason: the honest CONNACK with the reason, sent exactly when it is within the limit.
abbrev pub Refusal :
    Encoder → ConnectAckReasonV5 → Option ℕ → MaxInboundPacketSize → ConnectDecision → Type 0
Refusal encode reason limit bound d =
    (sendable : Bool) × (d ≡ refuse (v5_connack (honest_v5_connack reason bound)) sendable)
    × ((sendable ≡ true) ↔ MaySend encode (v5_connack (honest_v5_connack reason bound)) mqtt5 limit)

-- The session that an accepted client gets.
abbrev pub Session : ConnectV5 → ℕ → List ℕ → ConnectAckV5 → Accepted → Type 0
Session c secs peer ack a =
    (a.connack ≡ v5_connack ack)
    × Identity c.client_id peer ack.assigned_client_id a.client_id
    × (a.keep_alive_secs ≡ effective c.keep_alive ack.server_keepalive_sec)
    × Deadline c.keep_alive a.keep_alive_secs a.idle_timeout (min secs 31536000 * 1000)
    × (a.max_packet_size ≡ c.max_packet_size)

abbrev pub V5Cases :
    Encoder → ConnectV5 → ℕ → List ℕ → MaxInboundPacketSize → ConnectDecision → Type 0
V5Cases encode c secs peer bound d =
    let ack = owed_connack c (clamped_timeout_secs secs) peer bound in
    (c.auth_method ≢ none
      × Refusal encode ConnectAckReasonV5.bad_authentication_method c.max_packet_size bound d)
    ⊎ ((c.auth_method ≡ none)
        × (¬ MaySend encode (v5_connack ack) mqtt5 c.max_packet_size)
        × Refusal encode ConnectAckReasonV5.implementation_specific_error c.max_packet_size bound d)
    ⊎ ((c.auth_method ≡ none)
        × MaySend encode (v5_connack ack) mqtt5 c.max_packet_size
        × ((a : Accepted) × (d ≡ accept a) × Session c secs peer ack a))

module _ (encode : Encoder) where
  refusal :
      (reason : ConnectAckReasonV5) (limit : Option ℕ) (bound : MaxInboundPacketSize)
      → Refusal encode reason limit bound (refuse_v5 encode reason limit bound)
  unfolding refuse_v5
  refusal reason limit bound = (_, refl, fits_max_packet_size_iff encode _ mqtt5 limit)

  v5_cases :
      (c : ConnectV5) (secs : ℕ) (peer : List ℕ) (bound : MaxInboundPacketSize)
      → c.keep_alive ≤ 65535
      → V5Cases encode c secs peer bound
          (evaluate_v5 encode c (clamped_timeout_secs secs) peer bound)
  unfolding evaluate_v5 owed_connack
  v5_cases c secs peer bound u16 =
      let fits =
        fits_max_packet_size_iff encode
          (v5_connack (owed_connack c (clamped_timeout_secs secs) peer bound)) mqtt5
          c.max_packet_size in
      elim (Option-cases c.auth_method) [
        | inr (m, e) ↦ rw e (
            inl (
              (λ h. cc),
              refusal ConnectAckReasonV5.bad_authentication_method c.max_packet_size bound,
            ))
        | inl e ↦
            elim (Bool-cases (
              fits_max_packet_size encode
                (v5_connack (owed_connack c (clamped_timeout_secs secs) peer bound)) mqtt5
                c.max_packet_size)) [
                  | inl within ↦
                      let (same, deadline) =
                        negotiate_lem c.keep_alive (clamped_timeout_secs secs) u16 (ground arith) in
                      rw (e, within)
                        (inr (
                          inr (
                            refl,
                            fits.0 within,
                            (_, refl, (refl, identity c.client_id peer, same, deadline, refl)),
                          )))
                  | inr beyond ↦
                      rw (e, beyond)
                        (inr (
                          inl (
                            refl,
                            (λ m. cc (fits.1 m)),
                            refusal ConnectAckReasonV5.implementation_specific_error
                                c.max_packet_size bound,
                          )))
                ]
      ]

abbrev OnV5 :
    Encoder → Option ConnectV5 → ℕ → List ℕ → MaxInboundPacketSize → ConnectDecision → Type 0
OnV5 encode none secs peer bound d = Unit {0}
OnV5 encode (some c) secs peer bound d = c.keep_alive ≤ 65535 → V5Cases encode c secs peer bound d

-- An MQTT 5 CONNECT, with a keep-alive that fits 16 bits: one with an authentication method is
-- refused for that. Another is accepted when the CONNACK that it is owed may be sent within its
-- declared limit, and else refused with the reason for that. A refusal is sendable exactly when
-- its own CONNACK may be sent within the limit. An accepted client gets the owed CONNACK, its own
-- client id or for an empty one the id that the CONNACK assigns, the keep-alive that the CONNACK
-- announces or else its own, a deadline for that keep-alive, and its own packet size limit.
pub v5_connect_decided :
    (encode : Encoder) (k : MqttPacket) (c : ConnectV5) (secs : ℕ) (peer : List ℕ)
    (bound : MaxInboundPacketSize)
    → v5_connect_of k ≡ some c
    → c.keep_alive ≤ 65535
    → V5Cases encode c secs peer bound (evaluate_connect encode k secs peer bound)
unfolding evaluate_connect
v5_connect_decided encode (v5 (PacketV5.connect d)) c secs peer bound e u16 =
    subst
      (λ o.
        OnV5 encode o secs peer bound (evaluate_v5 encode d (clamped_timeout_secs secs) peer bound))
      e (λ u. v5_cases encode d secs peer bound u) u16
v5_connect_decided encode k c secs peer bound e u16 = cc
