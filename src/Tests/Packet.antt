-- ===== src/Tests/Packet.antt =====
-- The packet loop's decisions at concrete packets.
use uring_mqtt.Common.{ℕ, false, Option, none, some, List, [], ◌∷◌, ◌≡◌, ◌≢◌, ◌⊎◌, refl, arith, All}
use uring_mqtt.Codec.Protocol.{mqtt3}
use uring_mqtt.Packet.Types.{
  failure, QoS, at_least_once, exactly_once, Publish, MqttPacket, PacketV3, v3,
}
use uring_mqtt.Packet.Awaiting.{nothing_awaits, released, record_id, release}
use uring_mqtt.Packet.Awaiting.Set.{
  IsPacketId, IsValid, Records, Releases, record_id-Records, release-Releases,
}
use uring_mqtt.Packet.Reply.{Reply}
use uring_mqtt.Packet.Dispatch.{Disposition, dispatch}
use uring_mqtt.Packet.Dispatch.Accepts.{IsDeliverable}
use uring_mqtt.Packet.Dispatch.Awaits.{release_of, HasIds, IsQos2, Changes, dispatch-Changes}
use uring_mqtt.Packet.Dispatch.ExactlyOnce.{
  after, repeat_not_delivered, delivered_after_release, first_delivered, release_answered,
}
use uring_mqtt.Packet.Dispatch.Policy.{PublishCases, publish_decision}
use uring_mqtt.Packet.Dispatch.Filters.{Request, Refused, filters-Refused}
use uring_mqtt.Packet.Violation.{Violation}

abbrev reading : QoS → Option ℕ → Publish
reading qos packet_id = record {
  dup = false;
  retain = false;
  qos = qos;
  topic = b't' ∷ [];
  packet_id = packet_id;
  payload = 1 ∷ 2 ∷ [];
  properties = none;
}

abbrev qos2 : Publish
qos2 = reading exactly_once (some 7)

abbrev first : MqttPacket
first = v3 (PacketV3.publish qos2)

abbrev release_it : MqttPacket
release_it = v3 (PacketV3.publish_release 7)

-- What arrives in between: a ping, a PUBREL for another id, and a QoS 2 PUBLISH with another id.
abbrev between : List MqttPacket
between =
    v3 PacketV3.ping_request
    ∷ v3 (PacketV3.publish_release 71)
    ∷ v3 (PacketV3.publish (reading exactly_once (some 71)))
    ∷ []

first-IsQos2 : IsQos2 first qos2 7
first-IsQos2 =
    (refl, (((λ e. cc), ((ground arith, ground arith, ground arith), tt)), tt), refl, refl)

between-HasIds : All HasIds between
between-HasIds = ((tt, tt), ((tt, ground arith), ((ground arith, tt), tt)))

between-others : All (λ m. release_of m ≢ some 7) between
between-others = ((λ e. cc), ((λ e. ground arith), ((λ e. cc), tt)))

between-unused : All (λ m. (p : Publish) → ¬ IsQos2 m p 7) between
between-unused = ((λ p q. cc q.0), ((λ p q. cc q.0), ((λ p (e, _, _, i). ground arith), tt)))

id-IsPacketId : IsPacketId 7
id-IsPacketId = ground arith

repeat_not_delivered_example :
    (dispatch first (after (dispatch first nothing_awaits).1 between)).0
    ≡ Disposition.reply (Reply.publish_received 7)
repeat_not_delivered_example =
    repeat_not_delivered first first qos2 qos2 7 between nothing_awaits tt id-IsPacketId
      first-IsQos2 between-HasIds between-others first-IsQos2

delivered_after_release_example :
    (dispatch first (after (dispatch release_it nothing_awaits).1 between)).0
    ≡ Disposition.deliver_then_reply qos2 (Reply.publish_received 7)
delivered_after_release_example =
    delivered_after_release release_it first qos2 7 between nothing_awaits tt id-IsPacketId refl
      between-HasIds between-unused first-IsQos2

first_delivered_example :
    (dispatch first (after nothing_awaits between)).0
    ≡ Disposition.deliver_then_reply qos2 (Reply.publish_received 7)
first_delivered_example =
    first_delivered first qos2 7 between id-IsPacketId between-HasIds between-unused first-IsQos2

release_answered_example :
    (dispatch release_it (after (dispatch first nothing_awaits).1 between)).0
    ≡ Disposition.reply (Reply.publish_complete 7 released)
release_answered_example =
    release_answered first release_it qos2 7 between nothing_awaits tt id-IsPacketId first-IsQos2
      between-HasIds between-others refl

dispatch-Changes_example :
    IsValid (dispatch first nothing_awaits).1
    × Changes first nothing_awaits (dispatch first nothing_awaits).1
dispatch-Changes_example = dispatch-Changes first nothing_awaits tt (id-IsPacketId, tt)

record_id-Records_example : Records nothing_awaits 7 (record_id nothing_awaits 7)
record_id-Records_example = record_id-Records nothing_awaits 7 tt id-IsPacketId

release-Releases_example : Releases nothing_awaits 7 (release nothing_awaits 7)
release-Releases_example = release-Releases nothing_awaits 7 tt id-IsPacketId

publish_decision_example :
    ((¬ IsDeliverable qos2)
      × ((v : Violation) × (dispatch first nothing_awaits
            ≡ (Disposition.violation v, nothing_awaits))))
    ⊎ (IsDeliverable qos2 × PublishCases qos2 (dispatch first nothing_awaits) nothing_awaits)
publish_decision_example = publish_decision first qos2 nothing_awaits refl

abbrev subscribe : MqttPacket
subscribe = v3 (PacketV3.subscribe 9 ((b'a' ∷ [], at_least_once) ∷ (b'b' ∷ [], exactly_once) ∷ []))

abbrev subscribe_request : Request
subscribe_request = record {
  texts = (b'a' ∷ []) ∷ (b'b' ∷ []) ∷ [];
  protocol = mqtt3;
  refusal = v3 (PacketV3.subscribe_ack 9 (failure ∷ failure ∷ []));
}

filters-Refused_example :
    Refused subscribe_request nothing_awaits (dispatch subscribe nothing_awaits)
filters-Refused_example = filters-Refused subscribe subscribe_request nothing_awaits refl
