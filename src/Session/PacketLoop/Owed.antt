-- ===== src/Session/PacketLoop/Owed.antt =====
-- Which replies that `dispatch` owes are PUBACKs.
use uring_mqtt.Common.{
  ℕ, Bool, Option, none, some, ◌≡◌, ◌⊎◌, inl, inr, refl, sym, subst, ◌==◌, Bool-cases,
}
use uring_mqtt.Codec.Protocol.{ProtocolVersion, mqtt3, mqtt5}
use uring_mqtt.Packet.Types.{
  QoS, at_most_once, at_least_once, exactly_once, MqttPacket, Publish, PacketV3, PacketV5, v3, v5,
}
use uring_mqtt.Packet.Awaiting.{AwaitingRelease, record_id}
use uring_mqtt.Packet.Reply.{Reply, render}
use uring_mqtt.Packet.Dispatch.{
  Disposition, dispatch, on_publish, by_qos, on_release, filters_decision,
}
use uring_mqtt.Packet.Dispatch.Accepts.{on_publish_cases}
use uring_mqtt.Session.Allowed.{acked}

-- The reply that goes with a publish acknowledges nothing but its packet id.
abbrev pub AckFor : Option ℕ → Option ℕ → Type 0
AckFor packet_id ack = (ack ≡ none) ⊎ ((id : ℕ) × (ack ≡ some id) × (packet_id ≡ some id))

-- Only the reply that goes with a publish is a PUBACK.
abbrev pub Acks : ProtocolVersion → Disposition → Type 0
Acks version (Disposition.deliver_then_reply p r) = AckFor p.packet_id (acked (render r version))
Acks version (Disposition.reply r) = acked (render r version) ≡ none
Acks version d = Unit {0}

by_qos-Acks :
    (version : ProtocolVersion) (p : Publish) (a : AwaitingRelease) (q : QoS) (o : Option ℕ)
    → p.packet_id ≡ o
    → Acks version (by_qos q o p a).0
unfolding by_qos render
by_qos-Acks version p a at_most_once o e = tt
by_qos-Acks version p a at_least_once none e = tt
by_qos-Acks mqtt3 p a at_least_once (some id) e = inr (id, refl, e)
by_qos-Acks mqtt5 p a at_least_once (some id) e = inr (id, refl, e)
by_qos-Acks version p a exactly_once none e = tt
by_qos-Acks mqtt3 p a exactly_once (some id) e = elim (Bool-cases (record_id a id).0) [
  | inl fresh ↦ rw fresh (inl refl)
  | inr known ↦ rw known refl
]
by_qos-Acks mqtt5 p a exactly_once (some id) e = elim (Bool-cases (record_id a id).0) [
  | inl fresh ↦ rw fresh (inl refl)
  | inr known ↦ rw known refl
]

on_publish-Acks :
    (version : ProtocolVersion) (p : Publish) (a : AwaitingRelease)
    → Acks version (on_publish p a).0
on_publish-Acks version p a = elim (on_publish_cases p a) [
  | inl (ok, step) ↦
      subst (λ r. Acks version r.0) (sym step) (by_qos-Acks version p a p.qos p.packet_id refl)
  | inr (v, step, bad) ↦ subst (λ r. Acks version r.0) (sym step) tt
]

abbrev IsQuiet : Reply → Type 0
IsQuiet (Reply.publish_ack id) = ⊥
IsQuiet r = Unit {0}

quiet_lem : (r : Reply) (version : ProtocolVersion) → IsQuiet r → acked (render r version) ≡ none
unfolding render
quiet_lem (Reply.publish_ack id) version h = absurd h
quiet_lem r mqtt3 h = refl
quiet_lem r mqtt5 h = refl

filters-Acks :
    (version : ProtocolVersion) (n : ℕ) (e : Bool) (r : Reply)
    → IsQuiet r
    → Acks version (filters_decision n e r)
unfolding filters_decision
filters-Acks version n e r h = elim (Bool-cases (n == 0)) [
  | inl no_filter ↦ rw no_filter tt
  | inr some_filters ↦ elim (Bool-cases e) [
    | inl empty ↦ rw (some_filters, empty) tt
    | inr full ↦ rw (some_filters, full) (quiet_lem r version h)
  ]
]

-- Only the reply to a publish that is delivered is a PUBACK, and it has the packet id of that one.
pub dispatch-Acks :
    (version : ProtocolVersion) (k : MqttPacket) (a : AwaitingRelease)
    → Acks version (dispatch k a).0
unfolding dispatch on_release
dispatch-Acks version (v3 (PacketV3.publish p)) a = on_publish-Acks version p a
dispatch-Acks version (v5 (PacketV5.publish p)) a = on_publish-Acks version p a
dispatch-Acks version (v3 PacketV3.ping_request) a = quiet_lem Reply.ping_response version tt
dispatch-Acks version (v5 PacketV5.ping_request) a = quiet_lem Reply.ping_response version tt
dispatch-Acks version (v3 (PacketV3.publish_release id)) a =
    quiet_lem (Reply.publish_complete id _) version tt
dispatch-Acks version (v5 (PacketV5.publish_release r)) a =
    quiet_lem (Reply.publish_complete r.packet_id _) version tt
dispatch-Acks version (v3 (PacketV3.subscribe id l)) a = filters-Acks version _ _ _ tt
dispatch-Acks version (v5 (PacketV5.subscribe s)) a = filters-Acks version _ _ _ tt
dispatch-Acks version (v3 (PacketV3.unsubscribe id l)) a = filters-Acks version _ _ _ tt
dispatch-Acks version (v5 (PacketV5.unsubscribe s)) a = filters-Acks version _ _ _ tt
dispatch-Acks version (v3 k) a = tt
dispatch-Acks version (v5 k) a = tt
dispatch-Acks version (MqttPacket.version v) a = tt
