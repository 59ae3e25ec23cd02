-- ===== src/Packet/Dispatch/Awaits.antt =====
-- What each packet does to the set of ids that await their PUBREL.
use uring_mqtt.Common.{
  ℕ, Bool, ◌||◌, not, ◌&&◌, Option, none, some, ◌==◌, ◌≡◌, ◌⊎◌, inl, inr, arith, refl, subst,
  Bool-cases,
}
use uring_mqtt.Packet.Types.{
  QoS, at_most_once, at_least_once, exactly_once, Publish, MqttPacket, PacketV3, PacketV5, v3, v5,
  version,
}
use uring_mqtt.Packet.Awaiting.{AwaitingRelease, record_id}
use uring_mqtt.Packet.Awaiting.Set.{
  IsPacketId, IsValid, awaits, record_id-Records, release-Releases,
}
use uring_mqtt.Packet.Reply.{Reply}
use uring_mqtt.Packet.Dispatch.{
  Disposition, dispatch, on_publish, on_release, by_qos, filters_decision,
}
use uring_mqtt.Packet.Dispatch.Accepts.{IsDeliverable, on_publish_cases}

-- The PUBLISH that a packet is, and the id that it releases.
abbrev pub publish_of : MqttPacket → Option Publish
publish_of (v3 (PacketV3.publish p)) = some p
publish_of (v5 (PacketV5.publish p)) = some p
publish_of k = none

abbrev pub release_of : MqttPacket → Option ℕ
release_of (v3 (PacketV3.publish_release id)) = some id
release_of (v5 (PacketV5.publish_release a)) = some a.packet_id
release_of k = none

-- What a decision hands to the application.
abbrev pub delivered : Disposition → Option Publish
delivered (Disposition.deliver p) = some p
delivered (Disposition.deliver_then_reply p r) = some p
delivered d = none

abbrev pub ViewOf : MqttPacket → AwaitingRelease → Type 0
ViewOf k a =
    ((p : Publish) × (publish_of k ≡ some p)
      × (release_of k ≡ none)
      × (dispatch k a ≡ on_publish p a))
    ⊎ (((id : ℕ) × (publish_of k ≡ none)
          × (release_of k ≡ some id)
          × (dispatch k a ≡ on_release id a))
        ⊎ ((publish_of k ≡ none)
            × (release_of k ≡ none)
            × ((dispatch k a).1 ≡ a)
            × (delivered (dispatch k a).0 ≡ none)))

no_delivery : (n : ℕ) (e : Bool) (r : Reply) → delivered (filters_decision n e r) ≡ none
unfolding filters_decision
no_delivery n e r = ground arith

-- `dispatch` by the three kinds of packets.
pub dispatch_view : (k : MqttPacket) (a : AwaitingRelease) → ViewOf k a
unfolding dispatch
dispatch_view (v3 (PacketV3.publish p)) a = inl (p, refl, refl, refl)
dispatch_view (v5 (PacketV5.publish p)) a = inl (p, refl, refl, refl)
dispatch_view (v3 (PacketV3.publish_release id)) a = inr (inl (id, refl, refl, refl))
dispatch_view (v5 (PacketV5.publish_release r)) a = inr (inl (r.packet_id, refl, refl, refl))
dispatch_view (v3 (PacketV3.subscribe id filters)) a =
    inr (inr (refl, refl, refl, no_delivery _ _ _))
dispatch_view (v5 (PacketV5.subscribe s)) a = inr (inr (refl, refl, refl, no_delivery _ _ _))
dispatch_view (v3 (PacketV3.unsubscribe id filters)) a =
    inr (inr (refl, refl, refl, no_delivery _ _ _))
dispatch_view (v5 (PacketV5.unsubscribe s)) a = inr (inr (refl, refl, refl, no_delivery _ _ _))
dispatch_view (v3 k) a = inr (inr (refl, refl, refl, refl))
dispatch_view (v5 k) a = inr (inr (refl, refl, refl, refl))
dispatch_view (version v) a = inr (inr (refl, refl, refl, refl))

pub dispatch-publish :
    (k : MqttPacket) (p : Publish) (a : AwaitingRelease)
    → publish_of k ≡ some p
    → dispatch k a ≡ on_publish p a
dispatch-publish k p a e = elim (dispatch_view k a) [
  | inl (p', e', _, step) ↦ cc
  | inr (inl (id, e', _, step)) ↦ cc
  | inr (inr (e', _, _, _)) ↦ cc
]

pub dispatch-release :
    (k : MqttPacket) (id : ℕ) (a : AwaitingRelease)
    → release_of k ≡ some id
    → dispatch k a ≡ on_release id a
dispatch-release k id a e = elim (dispatch_view k a) [
  | inl (p, _, e', step) ↦ cc
  | inr (inl (id', _, e', step)) ↦ cc
  | inr (inr (_, e', _, _)) ↦ cc
]

-- The packet ids that rmqtt-codec decodes are never 0, and fit 16 bits.
abbrev pub IdOk : Option ℕ → Type 0
IdOk none = Unit {0}
IdOk (some id) = IsPacketId id

abbrev pub id_of : Option Publish → Option ℕ
id_of none = none
id_of (some p) = p.packet_id

abbrev pub HasIds : MqttPacket → Type 0
HasIds k = IdOk (id_of (publish_of k)) × IdOk (release_of k)

-- A QoS 2 PUBLISH that the application may see.
abbrev pub IsQos2 : MqttPacket → Publish → ℕ → Type 0
IsQos2 k p id =
    (publish_of k ≡ some p) × IsDeliverable p × (p.qos ≡ exactly_once) × (p.packet_id ≡ some id)

-- What a packet leaves of the set: with `records` and `releases` it gains and loses an id.
abbrev pub Changes : MqttPacket → AwaitingRelease → AwaitingRelease → Type 0
Changes k a a' =
    ((j : ℕ) → awaits a' j ≡ awaits a j)
    ⊎ (((id : ℕ) × (p : Publish) × IsQos2 k p id
          × ((j : ℕ) → awaits a' j ≡ (j == id || awaits a j)))
        ⊎ ((id : ℕ) × (release_of k ≡ some id)
            × ((j : ℕ) → awaits a' j ≡ (not (j == id) && awaits a j))))

qos2-Changes :
    (k : MqttPacket) (p : Publish) (a : AwaitingRelease) (q : QoS) (o : Option ℕ)
    → publish_of k ≡ some p
    → IsDeliverable p
    → p.qos ≡ q
    → p.packet_id ≡ o
    → IsValid a
    → IdOk o
    → IsValid (by_qos q o p a).1 × Changes k a (by_qos q o p a).1
unfolding by_qos
qos2-Changes k p a at_most_once o e d eq eo v h = (v, inl (λ j. refl))
qos2-Changes k p a at_least_once none e d eq eo v h = (v, inl (λ j. refl))
qos2-Changes k p a at_least_once (some id) e d eq eo v h = (v, inl (λ j. refl))
qos2-Changes k p a exactly_once none e d eq eo v h = (v, inl (λ j. refl))
qos2-Changes k p a exactly_once (some id) e d eq eo v h =
    let (answer, valid, grows) = record_id-Records a id v h in
    elim (Bool-cases (record_id a id).0) [
      | inl fresh ↦ rw fresh (valid, inr (inl (id, p, (e, d, eq, eo), grows)))
      | inr again ↦ rw again (valid, inr (inl (id, p, (e, d, eq, eo), grows)))
    ]

-- In a well-formed state, a packet with packet ids from 1 to 65535 leaves a well-formed state,
-- and the set of ids that await their PUBREL as it was, or with the id of the deliverable QoS 2
-- PUBLISH that it is added, or with the id of the PUBREL that it is taken out.
pub dispatch-Changes :
    (k : MqttPacket) (a : AwaitingRelease)
    → IsValid a
    → HasIds k
    → IsValid (dispatch k a).1 × Changes k a (dispatch k a).1
dispatch-Changes k a v h = elim (dispatch_view k a) [
  | inl (p, e, _, step) ↦ elim (on_publish_cases p a) [
    | inl (ok, s) ↦
        rw (step, s)
          (qos2-Changes k p a p.qos p.packet_id e ok refl refl v
            (subst (λ o. IdOk (id_of o)) e h.0))
    | inr (bad, s, _) ↦ rw (step, s) (v, inl (λ j. refl))
  ]
  | inr (inl (id, _, e, step)) ↦
      let (answer, valid, shrinks) = release-Releases a id v (subst IdOk e h.1) in
      rw step (unfold on_release in (valid, inr (inr (id, e, shrinks))))
  | inr (inr (_, _, same, _)) ↦ rw same (v, inl (λ j. refl))
]
