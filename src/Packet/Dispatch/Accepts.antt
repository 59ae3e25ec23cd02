-- ===== src/Packet/Dispatch/Accepts.antt =====
-- Which PUBLISH packets reach the application: the checks in front of the QoS.
use uring_mqtt.Common.{
  ℕ, false, Option, none, some, List, [], ◌∷◌, ◌≡◌, ◌≢◌, ◌↔◌, ◌⊎◌, inl, inr, arith, All, refl,
  Bool-cases, Option-cases,
}
use uring_mqtt.Packet.Types.{
  QoS, qos_gt, max_qos, at_most_once, at_least_once, exactly_once, Publish, PublishProperties,
}
use uring_mqtt.Packet.Awaiting.{AwaitingRelease}
use uring_mqtt.Packet.Violation.{Violation}
use uring_mqtt.Packet.Dispatch.{
  Disposition, topic_name_violation, has_topic_alias, contains, on_publish, by_qos,
}

-- A code point that may stand in a topic name.
abbrev pub IsTopicChar : ℕ → Type 0
IsTopicChar c = (c ≢ 0) × (c ≢ b'+') × (c ≢ b'#')

abbrev pub IsTopicName : List ℕ → Type 0
IsTopicName topic = (topic ≢ []) × All IsTopicChar topic

abbrev NoAlias : Option PublishProperties → Type 0
NoAlias none = Unit {0}
NoAlias (some p) = p.topic_alias ≡ none

-- What the application may rely on.
abbrev pub IsDeliverable : Publish → Type 0
IsDeliverable p = IsTopicName p.topic × NoAlias p.properties

chars-free :
    (topic : List ℕ)
    → ((contains topic 0 ≡ false) × (contains topic b'+' ≡ false) × (contains topic b'#' ≡ false))
      ↔ All IsTopicChar topic
chars-free [] = ground arith
chars-free (c ∷ topic) = ground (arith, chars-free topic)

-- A topic is no violation exactly when it is not empty and has none of U+0000, `+` and `#`.
pub topic_name_violation_iff :
    (topic : List ℕ) → (topic_name_violation topic ≡ none) ↔ IsTopicName topic
unfolding topic_name_violation
topic_name_violation_iff [] = ground arith
topic_name_violation_iff (c ∷ topic) = ground (arith, chars-free (c ∷ topic))

alias_iff :
    (properties : Option PublishProperties)
    → (ps : Publish) → ps.properties ≡ properties
    → (has_topic_alias ps ≡ false) ↔ NoAlias properties
alias_iff none ps e = ground arith
alias_iff (some p) ps e = ground arith

-- No QoS is above the maximum that the server advertises.
max_qos-top : (q : QoS) → qos_gt q max_qos ≡ false
max_qos-top at_most_once = refl
max_qos-top at_least_once = refl
max_qos-top exactly_once = refl

-- A PUBLISH that passes the checks is decided by its QoS, and any other is a violation.
pub on_publish_cases :
    (p : Publish) (a : AwaitingRelease)
    → (IsDeliverable p × (on_publish p a ≡ by_qos p.qos p.packet_id p a))
      ⊎ ((v : Violation) × (on_publish p a ≡ (Disposition.violation v, a)) × (¬ IsDeliverable p))
unfolding on_publish
on_publish_cases p a =
    let alias = alias_iff p.properties p refl in
    let topic = topic_name_violation_iff p.topic in
    elim (Bool-cases (has_topic_alias p)) [
      | inl aliased ↦
          inr (Violation.topic_alias_invalid, ground (arith, max_qos-top p.qos), λ h. ground arith)
      | inr plain ↦ elim (Option-cases (topic_name_violation p.topic)) [
        | inl valid ↦ inl ((topic.0 valid, alias.0 plain), ground (arith, max_qos-top p.qos))
        | inr (v, bad) ↦ inr (v, ground (arith, max_qos-top p.qos), λ h. ground arith)
      ]
    ]
