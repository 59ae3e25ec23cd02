-- ===== src/Packet/Dispatch/ExactlyOnce.antt =====
-- QoS 2 over a session: between a PUBLISH and its PUBREL the packet id is delivered once.
use uring_mqtt.Common.{
  ℕ, true, false, some, List, [], ◌∷◌, ◌≡◌, ◌≢◌, inl, inr, if◌then◌else◌, arith, All, refl, sym,
  subst, ap, ◌∙◌, Bool-cases,
}
use native.Mathlib.Decide.{ℕ_discrete}
use uring_mqtt.Packet.Types.{exactly_once, Publish, MqttPacket}
use uring_mqtt.Packet.Awaiting.{
  AwaitingRelease, released, unknown_packet_id, record_id, nothing_awaits,
}
use uring_mqtt.Packet.Awaiting.Set.{
  IsPacketId, IsValid, awaits, nothing_awaits-free, record_id-Records, release-Releases,
}
use uring_mqtt.Packet.Reply.{Reply}
use uring_mqtt.Packet.Dispatch.{Disposition, dispatch, on_release, by_qos}
use uring_mqtt.Packet.Dispatch.Accepts.{on_publish_cases}
use uring_mqtt.Packet.Dispatch.Awaits.{
  release_of, HasIds, IsQos2, dispatch-publish, dispatch-release, Changes, dispatch-Changes,
}

-- The state after a session's packets, oldest first.
pub after : AwaitingRelease → List MqttPacket → AwaitingRelease
after a [] = a
after a (k ∷ ks) = after (dispatch k a).1 ks

-- What the decision on a QoS 2 PUBLISH is, and leaves.
abbrev Qos2Decision : Publish → ℕ → AwaitingRelease → Disposition × AwaitingRelease → Type 0
Qos2Decision p id a r =
    (r.0 ≡ (
      if awaits a id
      then Disposition.reply (Reply.publish_received id)
      else Disposition.deliver_then_reply p (Reply.publish_received id)))
    × IsValid r.1
    × (awaits r.1 id ≡ true)

by_qos-Qos2Decision :
    (p : Publish) (a : AwaitingRelease) (id : ℕ)
    → IsValid a
    → IsPacketId id
    → Qos2Decision p id a (by_qos exactly_once (some id) p a)
unfolding by_qos
by_qos-Qos2Decision p a id v h =
    let (answer, valid, grows) = record_id-Records a id v h in
    let held : awaits (record_id a id).1 id ≡ true = grows id ∙ ground arith in
    elim (Bool-cases (awaits a id)) [
      | inl old ↦
          let again : (record_id a id).0 ≡ false = answer ∙ rw old in
          rw (again, old) (refl, valid, held)
      | inr new ↦
          let fresh : (record_id a id).0 ≡ true = answer ∙ rw new in
          rw (fresh, new) (refl, valid, held)
    ]

dispatch-Qos2Decision :
    (k : MqttPacket) (p : Publish) (id : ℕ) (a : AwaitingRelease)
    → IsQos2 k p id
    → IsValid a
    → IsPacketId id
    → Qos2Decision p id a (dispatch k a)
dispatch-Qos2Decision k p id a (e, ok, eq, eid) v h = elim (on_publish_cases p a) [
  | inl (_, s) ↦
      let step = dispatch-publish k p a e ∙ s ∙ (λ i. by_qos (eq i) (eid i) p a) in
      subst (Qos2Decision p id a) (sym step) (by_qos-Qos2Decision p a id v h)
  | inr (_, _, bad) ↦ absurd (bad ok)
]

-- What the decision on a PUBREL is, and leaves.
abbrev ReleaseDecision : ℕ → AwaitingRelease → Disposition × AwaitingRelease → Type 0
ReleaseDecision id a r =
    (r.0
      ≡ Disposition.reply
          (Reply.publish_complete id (if awaits a id then released else unknown_packet_id)))
    × IsValid r.1
    × (awaits r.1 id ≡ false)

dispatch-ReleaseDecision :
    (k : MqttPacket) (id : ℕ) (a : AwaitingRelease)
    → release_of k ≡ some id
    → IsValid a
    → IsPacketId id
    → ReleaseDecision id a (dispatch k a)
dispatch-ReleaseDecision k id a e v h =
    let (answer, valid, shrinks) = release-Releases a id v h in
    subst (ReleaseDecision id a) (sym (dispatch-release k id a e))
      (unfold on_release in (rw answer, valid, shrinks id ∙ ground arith))

keeps_one :
    (k : MqttPacket) (id : ℕ) (a a' : AwaitingRelease)
    → release_of k ≢ some id
    → Changes k a a'
    → awaits a id ≡ true
    → awaits a' id ≡ true
keeps_one k id a a' n (inl same) w = same id ∙ w
keeps_one k id a a' n (inr (inl (id', p, _, grows))) w = ground (arith, grows id)
keeps_one k id a a' n (inr (inr (id', e, shrinks))) w = elim (ℕ_discrete id id') [
  | yes same ↦ absurd (n (e ∙ ap some (sym same)))
  | no other ↦ ground (arith, shrinks id)
]

stays_one :
    (k : MqttPacket) (id : ℕ) (a a' : AwaitingRelease)
    → ((p : Publish) → ¬ IsQos2 k p id)
    → Changes k a a'
    → awaits a id ≡ false
    → awaits a' id ≡ false
stays_one k id a a' n (inl same) w = same id ∙ w
stays_one k id a a' n (inr (inl (id', p, q, grows))) w = elim (ℕ_discrete id id') [
  | yes same ↦ absurd (n p (subst (IsQos2 k p) (sym same) q))
  | no other ↦ ground (arith, grows id)
]
stays_one k id a a' n (inr (inr (id', e, shrinks))) w = ground (arith, shrinks id)

keeps_waiting :
    (ks : List MqttPacket) (id : ℕ) (a : AwaitingRelease)
    → All HasIds ks
    → All (λ k. release_of k ≢ some id) ks
    → IsValid a
    → awaits a id ≡ true
    → IsValid (after a ks) × (awaits (after a ks) id ≡ true)
unfolding after
keeps_waiting [] id a hs ns v w = (v, w)
keeps_waiting (k ∷ ks) id a (h, hs) (n, ns) v w =
    let (valid, change) = dispatch-Changes k a v h in
    keeps_waiting ks id (dispatch k a).1 hs ns valid (keeps_one k id a (dispatch k a).1 n change w)

stays_free :
    (ks : List MqttPacket) (id : ℕ) (a : AwaitingRelease)
    → All HasIds ks
    → All (λ k. (p : Publish) → ¬ IsQos2 k p id) ks
    → IsValid a
    → awaits a id ≡ false
    → IsValid (after a ks) × (awaits (after a ks) id ≡ false)
unfolding after
stays_free [] id a hs ns v w = (v, w)
stays_free (k ∷ ks) id a (h, hs) (n, ns) v w =
    let (valid, change) = dispatch-Changes k a v h in
    stays_free ks id (dispatch k a).1 hs ns valid (stays_one k id a (dispatch k a).1 n change w)

-- In a well-formed state, let a deliverable QoS 2 PUBLISH with a packet id from 1 to 65535
-- arrive, then any packets with packet ids in that range, none of them a PUBREL for the id, and
-- then another deliverable QoS 2 PUBLISH with the id. The last one is answered with the PUBREC
-- for the id and not delivered.
pub repeat_not_delivered :
    (k l : MqttPacket) (p q : Publish) (id : ℕ) (ks : List MqttPacket) (a : AwaitingRelease)
    → IsValid a
    → IsPacketId id
    → IsQos2 k p id
    → All HasIds ks
    → All (λ m. release_of m ≢ some id) ks
    → IsQos2 l q id
    → (dispatch l (after (dispatch k a).1 ks)).0 ≡ Disposition.reply (Reply.publish_received id)
repeat_not_delivered k l p q id ks a v h first hs ns again =
    let (_, valid, held) = dispatch-Qos2Decision k p id a first v h in
    let (valid', held') = keeps_waiting ks id (dispatch k a).1 hs ns valid held in
    (dispatch-Qos2Decision l q id _ again valid' h).0 ∙ rw held'

-- In a well-formed state, let the PUBREL of a packet id from 1 to 65535 arrive, then any packets
-- with packet ids in that range, none of them a deliverable QoS 2 PUBLISH with the id, and then
-- one that is. The last one is delivered, and then acknowledged with the PUBREC for the id.
pub delivered_after_release :
    (k l : MqttPacket) (q : Publish) (id : ℕ) (ks : List MqttPacket) (a : AwaitingRelease)
    → IsValid a
    → IsPacketId id
    → release_of k ≡ some id
    → All HasIds ks
    → All (λ m. (p : Publish) → ¬ IsQos2 m p id) ks
    → IsQos2 l q id
    → (dispatch l (after (dispatch k a).1 ks)).0
      ≡ Disposition.deliver_then_reply q (Reply.publish_received id)
delivered_after_release k l q id ks a v h released_id hs ns next =
    let (_, valid, free) = dispatch-ReleaseDecision k id a released_id v h in
    let (valid', free') = stays_free ks id (dispatch k a).1 hs ns valid free in
    (dispatch-Qos2Decision l q id _ next valid' h).0 ∙ rw free'

-- In a new session, after any packets with packet ids from 1 to 65535, none of them a deliverable
-- QoS 2 PUBLISH with a given id in that range, the first such PUBLISH is delivered, and then
-- acknowledged with the PUBREC for the id.
pub first_delivered :
    (l : MqttPacket) (q : Publish) (id : ℕ) (ks : List MqttPacket)
    → IsPacketId id
    → All HasIds ks
    → All (λ m. (p : Publish) → ¬ IsQos2 m p id) ks
    → IsQos2 l q id
    → (dispatch l (after nothing_awaits ks)).0
      ≡ Disposition.deliver_then_reply q (Reply.publish_received id)
first_delivered l q id ks h hs ns next =
    let (valid, free) = stays_free ks id nothing_awaits hs ns tt (nothing_awaits-free id) in
    (dispatch-Qos2Decision l q id _ next valid h).0 ∙ rw free

-- In a well-formed state, let a deliverable QoS 2 PUBLISH with a packet id from 1 to 65535
-- arrive, then any packets with packet ids in that range, none of them a PUBREL for the id, and
-- then the PUBREL for the id. It is answered with the PUBCOMP that says that the id was released.
pub release_answered :
    (k l : MqttPacket) (p : Publish) (id : ℕ) (ks : List MqttPacket) (a : AwaitingRelease)
    → IsValid a
    → IsPacketId id
    → IsQos2 k p id
    → All HasIds ks
    → All (λ m. release_of m ≢ some id) ks
    → release_of l ≡ some id
    → (dispatch l (after (dispatch k a).1 ks)).0
      ≡ Disposition.reply (Reply.publish_complete id released)
release_answered k l p id ks a v h first hs ns e =
    let (_, valid, held) = dispatch-Qos2Decision k p id a first v h in
    let (valid', held') = keeps_waiting ks id (dispatch k a).1 hs ns valid held in
    (dispatch-ReleaseDecision l id _ e valid' h).0 ∙ rw held'
