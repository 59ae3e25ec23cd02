-- ===== src/Session/Serve/Opens.antt =====
-- What a session asks of its runtime, before and after its CONNECT is accepted.
use uring_mqtt.Common.{◌-◌, ℕ, ◌*◌, min, none, some, List, [], ◌∷◌, ◌≡◌, ◌⊎◌}
use uring_mqtt.Common.Result.{ok, err}
use uring_mqtt.Error.{io, timeout, client_closed, protocol}
use uring_mqtt.Codec.Protocol.{ProtocolVersion}
use uring_mqtt.Codec.Bound.{MaxInboundPacketSize}
use uring_mqtt.Packet.Types.{MqttPacket, PacketV3, PacketV5, v3, v5}
use uring_mqtt.Packet.Size.{Encoder}
use uring_mqtt.Handshake.{Accepted, accept, not_connect, evaluate_connect}
use uring_mqtt.Session.Io.{in_time, Query, now, next_version, next_packet, send_and_flush, Answer}
use uring_mqtt.Session.Always.{Log}
use uring_mqtt.Session.Allowed.{Allowed}
use uring_mqtt.Session.Replies.{refused}
use uring_mqtt.Session.Serve.{Served}

abbrev NotRead : (q : Query) → Type 0
NotRead (next_packet left) = ⊥
NotRead q = Unit {0}

-- No packet was read.
abbrev pub NoPackets : Log → Type 0
NoPackets [] = Unit {0}
NoPackets (e ∷ log) = NotRead e.query × NoPackets log

abbrev Reads : MqttPacket → (q : Query) → Answer q → Type 0
Reads k (next_packet left) a = a ≡ in_time (some (ok k))
Reads k q a = ⊥

-- The first packet that was read.
abbrev pub FirstPacket : MqttPacket → Log → Type 0
FirstPacket k [] = ⊥
FirstPacket k (e ∷ log) = FirstPacket k log ⊎ (NoPackets log × Reads k e.query e.answer)

abbrev Detects : ProtocolVersion → (q : Query) → Answer q → Type 0
Detects version (next_version left) a = a ≡ in_time (some (ok version))
Detects version q a = ⊥

-- The version that was detected.
abbrev pub Detected : ProtocolVersion → Log → Type 0
Detected version [] = ⊥
Detected version (e ∷ log) = Detected version log ⊎ Detects version e.query e.answer

abbrev Writes : MqttPacket → (q : Query) → Answer q → Type 0
Writes k (send_and_flush left packet) a = (packet ≡ k) × (a ≡ in_time (ok tt))
Writes k q a = ⊥

-- A packet that was sent and flushed in time.
abbrev pub Written : MqttPacket → Log → Type 0
Written k [] = ⊥
Written k (e ∷ log) = Written k log ⊎ Writes k e.query e.answer

abbrev pub IsConnack : MqttPacket → Type 0
IsConnack (v3 (PacketV3.connect_ack a)) = Unit {0}
IsConnack (v5 (PacketV5.connect_ack a)) = Unit {0}
IsConnack k = ⊥

abbrev Tells : ℕ → (q : Query) → Answer q → Type 0
Tells time now a = a ≡ time
Tells time q a = ⊥

abbrev IsFirst : Log → Type 0
IsFirst [] = Unit {0}
IsFirst (e ∷ log) = ⊥

-- The first reading of the clock, with which the session begins.
abbrev pub BeganAt : ℕ → Log → Type 0
BeganAt start [] = ⊥
BeganAt start (e ∷ log) = BeganAt start log ⊎ (IsFirst log × Tells start e.query e.answer)

-- The reading of the clock just before.
abbrev pub Latest : ℕ → Log → Type 0
Latest time [] = ⊥
Latest time (e ∷ log) = Tells time e.query e.answer

-- What is left of the connection timeout, of at most a year, since the session began.
abbrev pub InBudget : ℕ → Log → ℕ → Type 0
InBudget connection_timeout_secs log left =
    (start : ℕ) × (time : ℕ) × BeganAt start log
    × Latest time log
    × (left ≡ min connection_timeout_secs 31536000 * 1000 - (time - start))

module _ (encode : Encoder) (peer : List ℕ) (connection_timeout_secs : ℕ) (idle_timeout_secs : ℕ)
    (bound : MaxInboundPacketSize) (ingest_deadline : ℕ) where
  -- The handshake reads the clock, and waits for the version, for one packet, and for a CONNACK to
  -- be written, each within what is left of the one budget.
  abbrev pub Opening : Log → Query → Type 0
  Opening log now = Unit {0}
  Opening log (next_version left) = InBudget connection_timeout_secs log left
  Opening log (next_packet left) = InBudget connection_timeout_secs log left × NoPackets log
  Opening log (send_and_flush left packet) =
      InBudget connection_timeout_secs log left × IsConnack packet
  Opening log q = ⊥

  -- The first packet was a CONNECT that was accepted in this way, for this version, and its CONNACK was
  -- written.
  abbrev pub IsOpen : ProtocolVersion → Accepted → Log → Type 0
  IsOpen version a log =
      ((k : MqttPacket) × FirstPacket k log
        × (evaluate_connect encode k idle_timeout_secs peer bound ≡ accept a))
      × Detected version log
      × Written a.connack log

  -- A query of the handshake, or one that the packet loop may ask in an open session, with the
  -- client's version, deadline and packet size limit.
  abbrev pub SessionAllowed : Log → Query → Type 0
  SessionAllowed log q =
      Opening log q
      ⊎ ((version : ProtocolVersion) × (a : Accepted) × IsOpen version a log
          × Allowed encode version a.idle_timeout a.max_packet_size ingest_deadline log q)

  -- A session that was served, or closed for a violation, was open. One that failed did so with an error of I/O,
  -- a timeout, the end of the stream, or a first packet that is no CONNECT.
  abbrev pub SessionEnds : Log → Served → Type 0
  SessionEnds log none = Unit {0}
  SessionEnds log (some (ok refused)) = Unit {0}
  SessionEnds log (some (ok outcome)) =
      (version : ProtocolVersion) × (a : Accepted) × IsOpen version a log
  SessionEnds log (some (err (io e))) = Unit {0}
  SessionEnds log (some (err timeout)) = Unit {0}
  SessionEnds log (some (err client_closed)) = Unit {0}
  SessionEnds log (some (err (protocol text))) =
      (k : MqttPacket) × FirstPacket k log
      × (evaluate_connect encode k idle_timeout_secs peer bound ≡ not_connect)
  SessionEnds log (some (err e)) = ⊥
