-- ===== src/Packet/Dispatch.antt =====
-- `dispatch`: the decision on one packet after the handshake.
pub mod Accepts
pub mod Awaits
pub mod ExactlyOnce
pub mod Filters
pub mod Policy
use uring_mqtt.Common.{
  ℕ, Bool, true, false, ◌||◌, Option, none, some, List, [], ◌∷◌, ◌==◌, if◌then◌else◌, any, is_empty,
  length,
}
use uring_mqtt.Packet.Types.{
  QoS, at_most_once, at_least_once, exactly_once, qos_gt, max_qos, Publish, MqttPacket, PacketV3,
  PacketV5, v3, v5, version,
}
use uring_mqtt.Packet.Awaiting.{AwaitingRelease, record_id, release}
use uring_mqtt.Packet.Reply.{Reply}
use uring_mqtt.Packet.Violation.{Violation}

pub data Disposition : Type 0 where
  deliver : Publish → Disposition
  deliver_then_reply : Publish → Reply → Disposition
  reply : Reply → Disposition
  close : Disposition
  violation : Violation → Disposition

abbrev contains : List ℕ → ℕ → Bool
contains text c = any (λ d. d == c) text

unfoldable pub topic_name_violation : List ℕ → Option Violation
topic_name_violation topic =
    if contains topic 0
    then some Violation.malformed_packet
    else if is_empty topic || contains topic b'+' || contains topic b'#'
    then some Violation.invalid_topic_name
    else none

abbrev has_topic_alias : Publish → Bool
has_topic_alias p = elim p.properties [
  | none ↦ false
  | some properties ↦ elim properties.topic_alias [ none ↦ false | some alias ↦ true ]
]

-- The `match` on the QoS and the packet id.
unfoldable pub by_qos : QoS → Option ℕ → Publish → AwaitingRelease → Disposition × AwaitingRelease
by_qos at_most_once id p awaiting = (deliver p, awaiting)
by_qos at_least_once (some id) p awaiting = (deliver_then_reply p (Reply.publish_ack id), awaiting)
by_qos at_least_once none p awaiting = (violation Violation.publish_missing_packet_id, awaiting)
by_qos exactly_once none p awaiting = (violation Violation.publish_missing_packet_id, awaiting)
by_qos exactly_once (some id) p awaiting =
    let (fresh, awaiting') = record_id awaiting id in
    if fresh
    then (deliver_then_reply p (Reply.publish_received id), awaiting')
    else (reply (Reply.publish_received id), awaiting')

unfoldable pub on_publish : Publish → AwaitingRelease → Disposition × AwaitingRelease
unfolding by_qos topic_name_violation
on_publish p awaiting =
    if qos_gt p.qos max_qos
    then (violation Violation.publish_qos_above_maximum, awaiting)
    else if has_topic_alias p
    then (violation Violation.topic_alias_invalid, awaiting)
    else elim (topic_name_violation p.topic) [
      | some v ↦ (violation v, awaiting)
      | none ↦ by_qos p.qos p.packet_id p awaiting
    ]

-- A SUBSCRIBE or UNSUBSCRIBE: the count of its filters, whether one is empty, and the reply owed.
unfoldable pub filters_decision : ℕ → Bool → Reply → Disposition
filters_decision count empty owed =
    if count == 0
    then violation Violation.empty_topic_filter_list
    else if empty
    then violation Violation.empty_topic_filter
    else reply owed

unfoldable pub on_release : ℕ → AwaitingRelease → Disposition × AwaitingRelease
on_release id awaiting =
    let (outcome, awaiting') = release awaiting id in
    (reply (Reply.publish_complete id outcome), awaiting')

unfoldable pub dispatch : MqttPacket → AwaitingRelease → Disposition × AwaitingRelease
unfolding on_publish filters_decision on_release
dispatch (v3 (PacketV3.connect c)) awaiting = (violation Violation.duplicate_connect, awaiting)
dispatch (v5 (PacketV5.connect c)) awaiting = (violation Violation.duplicate_connect, awaiting)
dispatch (v3 (PacketV3.publish p)) awaiting = on_publish p awaiting
dispatch (v5 (PacketV5.publish p)) awaiting = on_publish p awaiting
dispatch (v3 PacketV3.ping_request) awaiting = (reply Reply.ping_response, awaiting)
dispatch (v5 PacketV5.ping_request) awaiting = (reply Reply.ping_response, awaiting)
dispatch (v3 PacketV3.disconnect) awaiting = (close, awaiting)
dispatch (v5 (PacketV5.disconnect r)) awaiting = (close, awaiting)
dispatch (v3 (PacketV3.subscribe id filters)) awaiting = (
  filters_decision (length filters) (any (λ f. is_empty f.0) filters)
      (Reply.subscribe_refusal id (length filters)),
  awaiting,
)
dispatch (v5 (PacketV5.subscribe s)) awaiting = (
  filters_decision (length s.topic_filters) (any (λ f. is_empty f.0) s.topic_filters)
      (Reply.subscribe_refusal s.packet_id (length s.topic_filters)),
  awaiting,
)
dispatch (v3 (PacketV3.unsubscribe id filters)) awaiting = (
  filters_decision (length filters) (any is_empty filters)
      (Reply.unsubscribe_ack id (length filters)),
  awaiting,
)
dispatch (v5 (PacketV5.unsubscribe s)) awaiting = (
  filters_decision (length s.topic_filters) (any is_empty s.topic_filters)
      (Reply.unsubscribe_ack s.packet_id (length s.topic_filters)),
  awaiting,
)
dispatch (v3 (PacketV3.connect_ack a)) awaiting = (violation Violation.server_only_packet, awaiting)
dispatch (v3 (PacketV3.subscribe_ack id s)) awaiting =
    (violation Violation.server_only_packet, awaiting)
dispatch (v3 (PacketV3.unsubscribe_ack id)) awaiting =
    (violation Violation.server_only_packet, awaiting)
dispatch (v3 PacketV3.ping_response) awaiting = (violation Violation.server_only_packet, awaiting)
dispatch (v5 (PacketV5.connect_ack a)) awaiting = (violation Violation.server_only_packet, awaiting)
dispatch (v5 (PacketV5.subscribe_ack a)) awaiting =
    (violation Violation.server_only_packet, awaiting)
dispatch (v5 (PacketV5.unsubscribe_ack a)) awaiting =
    (violation Violation.server_only_packet, awaiting)
dispatch (v5 PacketV5.ping_response) awaiting = (violation Violation.server_only_packet, awaiting)
dispatch (v3 (PacketV3.publish_release id)) awaiting = on_release id awaiting
dispatch (v5 (PacketV5.publish_release a)) awaiting = on_release a.packet_id awaiting
dispatch (v3 (PacketV3.publish_ack id)) awaiting =
    (violation Violation.publish_ack_from_client, awaiting)
dispatch (v3 (PacketV3.publish_received id)) awaiting =
    (violation Violation.publish_ack_from_client, awaiting)
dispatch (v3 (PacketV3.publish_complete id)) awaiting =
    (violation Violation.publish_ack_from_client, awaiting)
dispatch (v5 (PacketV5.publish_ack a)) awaiting =
    (violation Violation.publish_ack_from_client, awaiting)
dispatch (v5 (PacketV5.publish_received a)) awaiting =
    (violation Violation.publish_ack_from_client, awaiting)
dispatch (v5 (PacketV5.publish_complete a)) awaiting =
    (violation Violation.publish_ack_from_client, awaiting)
dispatch (v5 PacketV5.auth) awaiting = (violation Violation.auth_not_negotiated, awaiting)
dispatch (version v) awaiting = (violation Violation.version_probe, awaiting)
