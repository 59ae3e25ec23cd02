-- ===== src/Session/Replies.antt =====
-- Replies: encoded into the write buffer under a deadline, and flushed together by the earliest one.
pub mod Writes
use uring_mqtt.Common.{
  ℕ, ◌+◌, ◌-◌, Bool, true, false, Option, none, some, List, length, leb, ◌==◌, if◌then◌else◌,
}
use uring_mqtt.Common.Result.{Result, ok, err}
use uring_mqtt.Error.{Error, io, timeout, IoError}
use uring_mqtt.Codec.Protocol.{ProtocolVersion}
use uring_mqtt.Packet.Types.{MqttPacket}
use uring_mqtt.Packet.Reply.{TimeoutContext, disconnect_flush}
use uring_mqtt.Packet.Violation.{Violation}
use uring_mqtt.Packet.Size.{Encoder, disconnect}
use uring_mqtt.Session.Io.{
  Timed, in_time, timed_out, Query, now, send, flush, write_buffer, Answer, Program, give, ask,
  bind,
}

pub data SessionOutcome : Type 0 where
  served refused violated : SessionOutcome

abbrev pub write_backpressure_boundary : ℕ
write_backpressure_boundary = 8192

pub record UnflushedReplies : Type 0 where
  pub flush_by : ℕ
  pub timeout_context : TimeoutContext

-- What a call returns, and `unflushed` after it.
abbrev pub Queued : Type 0
Queued = Result Error (Unit {0}) × Option UnflushedReplies

-- The `match` on a write under `T::timeout`, with `unflushed` after a success.
written : Option UnflushedReplies → Timed (Result IoError (Unit {0})) → Queued
written unflushed (in_time (ok done)) = (ok tt, unflushed)
written unflushed (in_time (err e)) = (err (io e), none)
written unflushed timed_out = (err timeout, none)

unfoldable pub flush_replies : Option UnflushedReplies → Program Queued
unfolding written
flush_replies none = give (ok tt, none)
flush_replies (some queued) = ask now (λ time.
    let left = queued.flush_by - time in
    if left == 0
    then give (err timeout, none)
    else ask (flush left) (λ answer. give (written none answer)))

-- `get_or_insert`
abbrev get_or_insert : Option UnflushedReplies → UnflushedReplies → Option UnflushedReplies
get_or_insert none new = some new
get_or_insert (some old) new = some old

-- The encode under what is left of the deadline, or the failed flush in front of it.
encode_reply : MqttPacket → UnflushedReplies → Queued → Program Queued
unfolding written
encode_reply packet new (err e, unflushed) = give (err e, unflushed)
encode_reply packet new (ok done, unflushed) = ask now (λ time.
    ask (send (new.flush_by - time) packet)
      (λ answer. give (written (get_or_insert unflushed new) answer)))

unfoldable pub queue_reply :
    Option UnflushedReplies → MqttPacket → ℕ → TimeoutContext → Program Queued
unfolding flush_replies encode_reply
queue_reply unflushed packet deadline context = ask now (λ time.
    let new : UnflushedReplies = record { flush_by = time + deadline; timeout_context = context } in
    ask write_buffer (λ buffer.
      bind
        (if leb write_backpressure_boundary (length buffer)
          then flush_replies unflushed
          else give (ok tt, unflushed))
        (encode_reply packet new)))

module _ (encode : Encoder) where
  queue_disconnect :
      Option UnflushedReplies → Violation → ℕ → ProtocolVersion → Option ℕ → Program Queued
  unfolding disconnect queue_reply
  queue_disconnect unflushed violation deadline version max_packet_size =
      elim (disconnect encode violation version max_packet_size) [
        | some packet ↦ queue_reply unflushed packet deadline disconnect_flush
        | none ↦ give (ok tt, unflushed)
      ]

  -- A failure of either write is logged only.
  unfoldable pub close_with_violation :
      Option UnflushedReplies → Violation → ℕ → ProtocolVersion → Option ℕ → Program SessionOutcome
  unfolding queue_disconnect flush_replies
  close_with_violation unflushed violation deadline version max_packet_size =
      bind (queue_disconnect unflushed violation deadline version max_packet_size)
        (λ (queued, left). bind (flush_replies left) (λ flushed. give violated))
