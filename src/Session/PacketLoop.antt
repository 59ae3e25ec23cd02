-- ===== src/Session/PacketLoop.antt =====
-- `run_packet_loop` and `deliver_publish`. A read of the clock at each `elapsed` and `now`.
pub mod Owed
pub mod Replying
pub mod Offering
pub mod Safe
use uring_mqtt.Common.{
  ℕ, zero, suc, ◌+◌, ◌-◌, min, Bool, true, false, not, ◌&&◌, ◌||◌, Option, none, some, List,
  is_empty, ltb, ◌==◌, if◌then◌else◌,
}
use uring_mqtt.Common.Result.{Result, ok, err}
use uring_mqtt.Error.{Error, io, IoError, is_truncated_packet}
use uring_mqtt.Codec.Protocol.{ProtocolVersion}
use uring_mqtt.Codec.Header.{holds_complete_packet}
use uring_mqtt.Packet.Types.{MqttPacket, Publish}
use uring_mqtt.Packet.Awaiting.{AwaitingRelease, nothing_awaits}
use uring_mqtt.Packet.Reply.{Reply, render, timeout_context}
use uring_mqtt.Packet.Violation.{Violation, classify_read_error}
use uring_mqtt.Packet.Size.{Encoder, over_max_packet_size}
use uring_mqtt.Packet.Dispatch.{Disposition, dispatch}
use uring_mqtt.Worker.Events.{
  Admission, enqueued, enqueued_after_hold, dropped, receiver_closed, no_reply_time,
}
use uring_mqtt.Session.Io.{
  Timed, in_time, timed_out, Query, now, next_packet, read_buffer, would_hold, admit, Answer,
  Program, give, ask, bind,
}
use uring_mqtt.Session.Replies.{
  SessionOutcome, served, violated, UnflushedReplies, Queued, flush_replies, queue_reply,
  close_with_violation,
}

abbrev pub ingest_reply_reserve : ℕ
ingest_reply_reserve = 1000

pub data IngestStep : Type 0 where
  continue : (waited : Bool) → IngestStep
  idle_timed_out : IngestStep

-- `Publish::from_codec` clears the properties.
unfoldable pub from_codec : Publish → Publish
from_codec publish = record publish { properties = none }

-- The `match` on the admission.
unfoldable pub ingest_step : Admission → (wait idle_wait ingest_deadline : ℕ) → IngestStep
ingest_step no_reply_time wait idle_wait ingest_deadline = idle_timed_out
ingest_step dropped wait idle_wait ingest_deadline =
    if ltb idle_wait ingest_deadline then idle_timed_out else continue (not (wait == 0))
ingest_step enqueued_after_hold wait idle_wait ingest_deadline = continue true
ingest_step enqueued wait idle_wait ingest_deadline = continue false
ingest_step receiver_closed wait idle_wait ingest_deadline = continue false

unfoldable pub deliver_publish : Publish → (idle_left ingest_deadline : ℕ) → Program IngestStep
unfolding from_codec ingest_step
deliver_publish publish idle_left ingest_deadline = ask now (λ time.
    let reply_by = time + idle_left in
    let idle_wait = idle_left - ingest_reply_reserve in
    let wait = min ingest_deadline idle_wait in
    ask (admit (from_codec publish) wait reply_by)
      (λ admission. give (ingest_step admission wait idle_wait ingest_deadline)))

-- What the loop keeps between two packets: the time of the last one in `ConnectionState`, and its
-- own variables.
pub record LoopState : Type 0 where
  pub last_packet_time : ℕ
  pub hold_debt : Bool
  pub unflushed : Option UnflushedReplies
  pub awaiting : AwaitingRelease

abbrev pub first_state : ℕ → LoopState
first_state connect_received_at = record {
  last_packet_time = connect_received_at;
  hold_debt = false;
  unflushed = none;
  awaiting = nothing_awaits;
}

-- One turn of the loop goes on with a state or ends the session.
pub data Turn : Type 0 where
  again : LoopState → Turn
  break_with : Result Error SessionOutcome → Turn

module _ (encode : Encoder) (version : ProtocolVersion) (idle_timeout : ℕ)
    (max_packet_size : Option ℕ) (ingest_deadline : ℕ) where
  -- `idle_timeout.saturating_sub(state.last_packet_time.elapsed())`
  abbrev idle_left : LoopState → ℕ → ℕ
  idle_left state time = idle_timeout - (time - state.last_packet_time)

  pub close : LoopState → Violation → ℕ → Program Turn
  unfolding close_with_violation
  close state violation reply_deadline =
      bind
        (close_with_violation encode state.unflushed violation reply_deadline version
          max_packet_size)
        (λ outcome. give (break_with (ok outcome)))

  -- Idle expiry wins over the close.
  pub on_violation : LoopState → Violation → Program Turn
  unfolding close
  on_violation state violation = ask now (λ time.
      if idle_left state time == 0
      then give (break_with (ok served))
      else close state violation (idle_left state time))

  -- The `?` behind `queue_reply`.
  after_queue : LoopState → Queued → Turn
  after_queue state (ok done, unflushed) = again (record state { unflushed = unflushed })
  after_queue state (err e, unflushed) = break_with (err e)

  send_owed : LoopState → Reply → ℕ → Program Turn
  unfolding close after_queue
  send_owed state reply reply_deadline =
      elim (over_max_packet_size encode reply version max_packet_size) [
        | some violation ↦ close state violation reply_deadline
        | none ↦
            bind
              (queue_reply state.unflushed (render reply version) reply_deadline
                (timeout_context reply))
              (λ queued. give (after_queue state queued))
      ]

  -- Behind the `match` on the disposition: the reply that is owed, if any.
  pub on_owed : LoopState → Option Reply → Program Turn
  unfolding send_owed
  on_owed state owed = ask now (λ time.
      if idle_left state time == 0 then give (break_with (ok served)) else elim owed [
        | none ↦ give (again state)
        | some reply ↦ send_owed state reply (idle_left state time)
      ])

  after_ingest : LoopState → Option Reply → IngestStep → Program Turn
  unfolding on_owed
  after_ingest state owed (continue waited) =
      on_owed (record state { hold_debt = state.hold_debt || waited }) owed
  after_ingest state owed idle_timed_out = give (break_with (ok served))

  pub ingest : LoopState → Publish → Option Reply → Program Turn
  unfolding deliver_publish after_ingest
  ingest state publish owed = ask now (λ time.
      bind (deliver_publish publish (idle_left state time) ingest_deadline)
        (after_ingest state owed))

  after_close : Queued → Turn
  after_close (ok done, unflushed) = break_with (ok served)
  after_close (err e, unflushed) = break_with (err e)

  on_disposition : LoopState → Disposition → Program Turn
  unfolding ingest on_owed on_violation after_close flush_replies
  on_disposition state (Disposition.deliver publish) = ingest state publish none
  on_disposition state (Disposition.deliver_then_reply publish reply) =
      ingest state publish (some reply)
  on_disposition state (Disposition.reply reply) = on_owed state (some reply)
  on_disposition state Disposition.close =
      bind (flush_replies state.unflushed) (λ flushed. give (after_close flushed))
  on_disposition state (Disposition.violation violation) = on_violation state violation

  decide : LoopState → MqttPacket → Program Turn
  unfolding on_disposition
  decide state packet =
      let (disposition, awaiting) = dispatch packet state.awaiting in
      on_disposition (record state { awaiting = awaiting }) disposition

  -- `state.update_activity()`, unless the packet was buffered during a wait.
  on_packet : LoopState → Bool → MqttPacket → Program Turn
  unfolding decide
  on_packet state fresh packet =
      if not state.hold_debt || fresh
      then ask now
          (λ time. decide (record state { last_packet_time = time; hold_debt = false }) packet)
      else decide state packet

  -- A read that failed, by what `classify_read_error` makes of the error.
  on_error : LoopState → IoError → Option Violation → Program Turn
  unfolding on_violation
  on_error state e (some violation) = on_violation state violation
  on_error state e none =
      give (break_with (if is_truncated_packet (io e) then err (io e) else ok served))

  on_read : LoopState → Bool → Timed (Option (Result IoError MqttPacket)) → Program Turn
  unfolding on_packet on_error
  on_read state fresh (in_time (some (ok packet))) = on_packet state fresh packet
  on_read state fresh (in_time (some (err e))) = on_error state e (classify_read_error e)
  on_read state fresh (in_time none) = give (break_with (ok served))
  on_read state fresh timed_out = give (break_with (ok served))

  read : LoopState → Program Turn
  unfolding on_read
  read state = ask read_buffer (λ buffer.
      ask now (λ time. ask (next_packet (idle_left state time)) (on_read state (is_empty buffer))))

  -- The `?` behind the flush at the top.
  after_flush : LoopState → Queued → Program Turn
  unfolding read
  after_flush state (ok done, unflushed) = read (record state { unflushed = unflushed })
  after_flush state (err e, unflushed) = give (break_with (err e))

  -- Queued replies leave before a wait for the socket or for the event channel.
  flush_first : LoopState → List ℕ → Program Queued
  unfolding flush_replies
  flush_first state buffer =
      if not (holds_complete_packet buffer)
      then flush_replies state.unflushed
      else ask would_hold
          (λ holds. if holds then flush_replies state.unflushed else give (ok tt, state.unflushed))

  unfoldable pub turn : LoopState → Program Turn
  unfolding after_flush flush_first
  turn state = ask read_buffer (λ buffer. bind (flush_first state buffer) (after_flush state))

  -- The loop for at most so many turns; `none` when it is still running.
  next_turn :
      (LoopState → Program (Option (Result Error SessionOutcome)))
      → Turn
      → Program (Option (Result Error SessionOutcome))
  next_turn rest (again state) = rest state
  next_turn rest (break_with r) = give (some r)

  unfoldable pub run_packet_loop : ℕ → LoopState → Program (Option (Result Error SessionOutcome))
  unfolding turn next_turn
  run_packet_loop zero state = give none
  run_packet_loop (suc turns) state = bind (turn state) (next_turn (run_packet_loop turns))
