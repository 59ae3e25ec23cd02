-- ===== src/Packet/Dispatch/Policy.antt =====
-- The decision on each PUBLISH.
use uring_mqtt.Common.{
  subst, ℕ, Option, none, some, ◌≡◌, ◌≢◌, ◌⊎◌, inl, inr, refl, sym, ◌∙◌, Bool-cases,
}
use uring_mqtt.Packet.Types.{QoS, at_most_once, at_least_once, exactly_once, Publish, MqttPacket}
use uring_mqtt.Packet.Awaiting.{AwaitingRelease, record_id}
use uring_mqtt.Packet.Reply.{Reply}
use uring_mqtt.Packet.Violation.{Violation}
use uring_mqtt.Packet.Dispatch.{Disposition, dispatch, by_qos}
use uring_mqtt.Packet.Dispatch.Accepts.{IsDeliverable, on_publish_cases}
use uring_mqtt.Packet.Dispatch.Awaits.{publish_of, dispatch-publish}

-- What happens to a PUBLISH that the application may see.
abbrev pub PublishCases : Publish → (Disposition × AwaitingRelease) → AwaitingRelease → Type 0
PublishCases p (d, next) a =
    (p.qos ≡ at_most_once × (d ≡ Disposition.deliver p) × (next ≡ a))
    ⊎ (p.qos ≢ at_most_once
        × (p.packet_id ≡ none)
        × (d ≡ Disposition.violation Violation.publish_missing_packet_id)
        × (next ≡ a))
    ⊎ ((id : ℕ) × (p.packet_id ≡ some id)
        × (p.qos ≡ at_least_once)
        × (d ≡ Disposition.deliver_then_reply p (Reply.publish_ack id))
        × (next ≡ a))
    ⊎ ((id : ℕ) × (p.packet_id ≡ some id)
        × (p.qos ≡ exactly_once)
        × ((d ≡ Disposition.deliver_then_reply p (Reply.publish_received id))
            ⊎ (d ≡ Disposition.reply (Reply.publish_received id))))

by_qos_cases :
    (q : QoS) (p : Publish) (a : AwaitingRelease)
    → p.qos ≡ q
    → (id : Option ℕ) → p.packet_id ≡ id
    → PublishCases p (by_qos q id p a) a
unfolding by_qos
by_qos_cases at_most_once p a e id eid = inl (e, refl, refl)
by_qos_cases at_least_once p a e none eid = inr (inl ((λ h. cc), eid, refl, refl))
by_qos_cases at_least_once p a e (some id) eid = inr (inr (inl (id, eid, e, refl, refl)))
by_qos_cases exactly_once p a e none eid = inr (inl ((λ h. cc), eid, refl, refl))
by_qos_cases exactly_once p a e (some id) eid = elim (Bool-cases (record_id a id).0) [
  | inl fresh ↦ rw fresh (inr (inr (inr (id, eid, e, inl refl))))
  | inr known ↦ rw known (inr (inr (inr (id, eid, e, inr refl))))
]

-- A PUBLISH that is not deliverable closes the session and changes nothing. A deliverable one is
-- delivered at QoS 0; at QoS 1 or 2 without a packet id it closes the session; with one it is, at
-- QoS 1, delivered and then acknowledged under it, and at QoS 2 answered by the PUBREC for it,
-- after a delivery or without one. Only in that last case the QoS 2 state may change.
pub publish_decision :
    (k : MqttPacket) (p : Publish) (a : AwaitingRelease)
    → publish_of k ≡ some p
    → ((¬ IsDeliverable p) × ((v : Violation) × (dispatch k a ≡ (Disposition.violation v, a))))
      ⊎ (IsDeliverable p × PublishCases p (dispatch k a) a)
publish_decision k p a e = elim (on_publish_cases p a) [
  | inl (ok, step) ↦
      let sent = dispatch-publish k p a e ∙ step in
      inr (
        ok,
        subst (λ d. PublishCases p d a) (sym sent) (by_qos_cases p.qos p a refl p.packet_id refl),
      )
  | inr (v, step, bad) ↦ inl (bad, (v, dispatch-publish k p a e ∙ step))
]
