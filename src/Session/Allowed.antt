-- ===== src/Session/Allowed.antt =====
-- What the packet loop may ask of its runtime, given what was asked and answered before.
use uring_mqtt.Common.{ℕ, ◌+◌, ◌≤◌, Option, none, some, [], ◌∷◌, ◌≡◌, ◌≢◌, ◌⊎◌}
use uring_mqtt.Error.{Error, io, timeout}
use uring_mqtt.Common.Result.{Result, ok, err}
use uring_mqtt.Codec.Protocol.{ProtocolVersion}
use uring_mqtt.Packet.Types.{MqttPacket, PacketV3, PacketV5, v3, v5}
use uring_mqtt.Packet.Size.{Encoder}
use uring_mqtt.Packet.Size.Gate.{MaySend}
use uring_mqtt.Worker.Events.{no_reply_time}
use uring_mqtt.Session.Io.{Query, next_packet, send, flush, admit, Answer}
use uring_mqtt.Session.Always.{Log}
use uring_mqtt.Session.Replies.{SessionOutcome, refused}

-- The packet id that a PUBACK acknowledges.
abbrev pub acked : MqttPacket → Option ℕ
acked (v3 (PacketV3.publish_ack id)) = some id
acked (v5 (PacketV5.publish_ack a)) = some a.packet_id
acked k = none

-- An offer of a publish with this packet id, which left time for a reply; and else `earlier`.
abbrev Offers : ℕ → (q : Query) → Answer q → Type 0 → Type 0
Offers id (admit p wait reply_by) admission earlier =
    (p.packet_id ≡ some id) × (admission ≢ no_reply_time)
Offers id q a earlier = earlier

-- The last offer in the log is one of a publish with this packet id, and left time for a reply.
abbrev pub LastOffer : ℕ → Log → Type 0
LastOffer id [] = ⊥
LastOffer id (e ∷ log) = Offers id e.query e.answer (LastOffer id log)

-- A PUBACK follows the offer of its publish, with no other offer in between.
abbrev pub IsEarned : Log → MqttPacket → Type 0
IsEarned log packet =
    (acked packet ≡ none) ⊎ ((id : ℕ) × (acked packet ≡ some id) × LastOffer id log)

-- A packet that is encoded is within the client's limit, and earned if it is a PUBACK. Nothing is
-- flushed without time left. The wait for a packet is within the idle timeout, and that for room in
-- the event channel within the ingest deadline, with a second of the idle timeout kept back.
abbrev pub Allowed :
    Encoder → ProtocolVersion → (idle : ℕ) → Option ℕ → (ingest : ℕ) → Log → Query → Type 0
Allowed encode version idle limit ingest log (send left packet) =
    MaySend encode packet version limit × IsEarned log packet
Allowed encode version idle limit ingest log (flush left) = 1 ≤ left
Allowed encode version idle limit ingest log (next_packet left) = left ≤ idle
Allowed encode version idle limit ingest log (admit p wait reply_by) =
    (wait ≤ ingest) × ((wait ≡ 0) ⊎ (wait + 1000 ≤ idle))
Allowed encode version idle limit ingest log q = Unit {0}

-- How the packet loop ends a session: served, or closed for a violation, or with a write that failed or timed
-- out, or a read that failed.
abbrev pub EndsWith : Result Error SessionOutcome → Type 0
EndsWith (ok refused) = ⊥
EndsWith (ok outcome) = Unit {0}
EndsWith (err (io e)) = Unit {0}
EndsWith (err timeout) = Unit {0}
EndsWith (err e) = ⊥
