-- ===== src/Session/Io.antt =====
-- src/broker/runtime.rs: what the session asks of its runtime, and programs of such queries. Times
-- are in milliseconds. The adapters behind the traits `Timer` and `PacketIo` call monoio, or
-- tokio in the benchmark: every answer of its type is possible.
use uring_mqtt.Common.{ℕ, Bool, Option, List}
use uring_mqtt.Common.Result.{Result}
use uring_mqtt.Error.{IoError}
use uring_mqtt.Codec.Protocol.{ProtocolVersion}
use uring_mqtt.Packet.Types.{MqttPacket, Publish}
use uring_mqtt.Worker.Events.{Admission}

-- The answer of `T::timeout`.
pub data Timed (A : Type 0) : Type 0 where
  in_time : A → Timed A
  timed_out : Timed A

-- `now` reads the clock. The next five run under `T::timeout` with the time that is left.
-- `admit` is `EventSender::admit_with`, with the wait and the end of the idle budget.
pub data Query : Type 0 where
  now : Query
  next_version : (left : ℕ) → Query
  next_packet : (left : ℕ) → Query
  send : (left : ℕ) → MqttPacket → Query
  flush : (left : ℕ) → Query
  send_and_flush : (left : ℕ) → MqttPacket → Query
  read_buffer write_buffer : Query
  would_hold : Query
  admit : Publish → (wait reply_by : ℕ) → Query

abbrev pub Answer : Query → Type 0
Answer now = ℕ
Answer (next_version left) = Timed (Option (Result IoError ProtocolVersion))
Answer (next_packet left) = Timed (Option (Result IoError MqttPacket))
Answer (send left packet) = Timed (Result IoError (Unit {0}))
Answer (flush left) = Timed (Result IoError (Unit {0}))
Answer (send_and_flush left packet) = Timed (Result IoError (Unit {0}))
Answer read_buffer = List ℕ
Answer write_buffer = List ℕ
Answer would_hold = Bool
Answer (admit publish wait reply_by) = Admission

pub data Program (R : Type 0) : Type 0 where
  give : R → Program R
  ask : (q : Query) → (Answer q → Program R) → Program R

unfoldable pub bind : {R S : Type 0} → Program R → (R → Program S) → Program S
bind (give r) k = k r
bind (ask q p) k = ask q (λ a. bind (p a) k)
