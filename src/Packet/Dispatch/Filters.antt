-- ===== src/Packet/Dispatch/Filters.antt =====
-- The decision on SUBSCRIBE and UNSUBSCRIBE, and the packet that answers them.
use uring_mqtt.Common.{
  subst, ℕ, false, Option, none, some, List, [], ◌∷◌, map, replicate, length, any, is_empty, ◌≡◌,
  ◌≢◌, ◌⊎◌, inl, inr, refl, ap, arith, All, Bool-cases,
}
use uring_mqtt.Codec.Protocol.{ProtocolVersion, mqtt3, mqtt5}
use uring_mqtt.Packet.Types.{
  MqttPacket, PacketV3, PacketV5, v3, v5, SubscribeReturnCode, SubscribeAckReason,
  UnsubscribeAckReason,
}
use uring_mqtt.Packet.Awaiting.{AwaitingRelease}
use uring_mqtt.Packet.Reply.{Reply, render, bare}
use uring_mqtt.Packet.Violation.{Violation}
use uring_mqtt.Packet.Dispatch.{Disposition, dispatch, filters_decision}

-- A request with topic filters: their texts, the client's protocol, and the packet that refuses
-- every one of them: one code for each, except in the UNSUBACK of MQTT 3.1.1, which has none.
pub record Request : Type 0 where
  pub texts : List (List ℕ)
  pub protocol : ProtocolVersion
  pub refusal : MqttPacket

abbrev pub request_of : MqttPacket → Option Request
request_of (v3 (PacketV3.subscribe id fs)) = some (record {
  texts = map (λ f. f.0) fs;
  protocol = mqtt3;
  refusal = v3 (PacketV3.subscribe_ack id (map (λ f. SubscribeReturnCode.failure) fs));
})
request_of (v5 (PacketV5.subscribe s)) = some (record {
  texts = map (λ f. f.0) s.topic_filters;
  protocol = mqtt5;
  refusal = v5 (
      PacketV5.subscribe_ack (
        bare s.packet_id
          (map (λ f. SubscribeAckReason.implementation_specific_error) s.topic_filters)));
})
request_of (v3 (PacketV3.unsubscribe id fs)) =
    some (record { texts = fs; protocol = mqtt3; refusal = v3 (PacketV3.unsubscribe_ack id) })
request_of (v5 (PacketV5.unsubscribe s)) = some (record {
  texts = s.topic_filters;
  protocol = mqtt5;
  refusal = v5 (
      PacketV5.unsubscribe_ack (
        bare s.packet_id
          (map (λ f. UnsubscribeAckReason.no_subscription_existed) s.topic_filters)));
})
request_of k = none

refusal_codes {ℓ κ} :
    {A : Type ℓ} {B : Type κ} (l : List A) (b : B) → replicate (length l) b ≡ map (λ f. b) l
refusal_codes [] b = refl
refusal_codes (x ∷ l) b = ap (◌∷◌ b) (refusal_codes l b)

abbrev pub IsNamed : List ℕ → Type 0
IsNamed text = text ≢ []

is_empty-false {ℓ} : {A : Type ℓ} (l : List A) → l ≢ [] → is_empty l ≡ false
is_empty-false [] h = absurd (h refl)
is_empty-false (x ∷ l) h = refl

any_empty-false {ℓ} :
    {A : Type ℓ} (f : A → List ℕ) (l : List A)
    → All IsNamed (map f l)
    → any (λ x. is_empty (f x)) l ≡ false
any_empty-false f [] h = refl
any_empty-false f (x ∷ l) (h, hs) = rw (is_empty-false (f x) h) (any_empty-false f l hs)

any_empty-All {ℓ} :
    {A : Type ℓ} (f : A → List ℕ) (l : List A)
    → any (λ x. is_empty (f x)) l ≡ false
    → All IsNamed (map f l)
any_empty-All f [] h = tt
any_empty-All f (x ∷ l) h = elim (Bool-cases (is_empty (f x))) [
  | inl empty ↦ cc (rw empty at h)
  | inr full ↦ ((λ e. cc (rw e at full)), any_empty-All f l (rw full at h))
]

-- The decision on a list of filters that a reply answers.
abbrev pub FiltersDecision : List (List ℕ) → Reply → Disposition → Type 0
FiltersDecision texts owed d =
    ((texts ≡ []) × (d ≡ Disposition.violation Violation.empty_topic_filter_list))
    ⊎ (texts ≢ []
        × (¬ All IsNamed texts)
        × (d ≡ Disposition.violation Violation.empty_topic_filter))
    ⊎ (texts ≢ [] × All IsNamed texts × (d ≡ Disposition.reply owed))

filters_decision_lem {ℓ} :
    {A : Type ℓ} (f : A → List ℕ) (l : List A) (owed : Reply)
    → FiltersDecision
        (map f l)
        owed
        (filters_decision (length l) (any (λ x. is_empty (f x)) l) owed)
unfolding filters_decision
filters_decision_lem f [] owed = inl (refl, refl)
filters_decision_lem f (x ∷ l) owed = elim (Bool-cases (any (λ x. is_empty (f x)) (x ∷ l))) [
  | inl some_empty ↦ inr (
      inl
        ((λ e. cc), (λ named. cc (any_empty-false f (x ∷ l) named)), rw some_empty (ground arith)))
  | inr none_empty ↦
      inr (inr ((λ e. cc), any_empty-All f (x ∷ l) none_empty, rw none_empty (ground arith)))
]

map_id {ℓ} : {A : Type ℓ} (l : List A) → map (λ x. x) l ≡ l
map_id [] = refl
map_id (x ∷ l) = ap (◌∷◌ x) (map_id l)

abbrev pub Refused : Request → AwaitingRelease → (Disposition × AwaitingRelease) → Type 0
Refused q a (d, next) =
    ((owed : Reply) × (render owed q.protocol ≡ q.refusal) × FiltersDecision q.texts owed d)
    × (next ≡ a)

abbrev OnRequest : Option Request → AwaitingRelease → (Disposition × AwaitingRelease) → Type 0
OnRequest none a r = Unit {0}
OnRequest (some q) a r = Refused q a r

on_request : (k : MqttPacket) (a : AwaitingRelease) → OnRequest (request_of k) a (dispatch k a)
unfolding dispatch render
on_request (v3 (PacketV3.subscribe id fs)) a = (
  (
    Reply.subscribe_refusal id (length fs),
    rw (refusal_codes fs SubscribeReturnCode.failure) refl,
    filters_decision_lem (λ f. f.0) fs (Reply.subscribe_refusal id (length fs)),
  ),
  refl,
)
on_request (v5 (PacketV5.subscribe s)) a = (
  (
    Reply.subscribe_refusal s.packet_id (length s.topic_filters),
    rw (refusal_codes s.topic_filters SubscribeAckReason.implementation_specific_error) refl,
    filters_decision_lem (λ f. f.0) s.topic_filters
        (Reply.subscribe_refusal s.packet_id (length s.topic_filters)),
  ),
  refl,
)
on_request (v3 (PacketV3.unsubscribe id fs)) a =
    let owed = Reply.unsubscribe_ack id (length fs) in
    (
      (
        owed,
        refl,
        subst (λ t. FiltersDecision t owed (filters_decision (length fs) (any is_empty fs) owed))
            (map_id fs) (filters_decision_lem (λ x. x) fs owed),
      ),
      refl,
    )
on_request (v5 (PacketV5.unsubscribe s)) a =
    let owed = Reply.unsubscribe_ack s.packet_id (length s.topic_filters) in
    (
      (
        owed,
        rw (refusal_codes s.topic_filters UnsubscribeAckReason.no_subscription_existed) refl,
        subst
            (λ t.
              FiltersDecision t owed
                (filters_decision (length s.topic_filters) (any is_empty s.topic_filters) owed))
            (map_id s.topic_filters) (filters_decision_lem (λ x. x) s.topic_filters owed),
      ),
      refl,
    )
on_request k a = tt

-- A SUBSCRIBE or an UNSUBSCRIBE with no filter, and one with an empty filter, closes the session.
-- Any other is answered by the packet that refuses each of its filters. The QoS 2 state is as
-- before.
pub filters-Refused :
    (k : MqttPacket) (q : Request) (a : AwaitingRelease)
    → request_of k ≡ some q
    → Refused q a (dispatch k a)
filters-Refused k q a e = subst (λ r. OnRequest r a (dispatch k a)) e (on_request k a)
