-- ===== src/Session/PacketLoop/Safe.antt =====
-- Whatever its runtime answers, the packet loop asks only what is allowed.
use uring_mqtt.Common.{
  ℕ, zero, suc, Bool, false, not, ◌||◌, Option, none, some, List, [], ◌∷◌, is_empty, inl, inr, refl,
  arith, Bool-cases,
}
use uring_mqtt.Error.{Error, io, timeout, IoError, is_truncated_packet}
use uring_mqtt.Common.Result.{Result, ok, err}
use uring_mqtt.Codec.Protocol.{ProtocolVersion}
use uring_mqtt.Codec.Header.{holds_complete_packet}
use uring_mqtt.Packet.Types.{MqttPacket}
use uring_mqtt.Packet.Violation.{Violation, classify_read_error}
use uring_mqtt.Packet.Size.{Encoder}
use uring_mqtt.Packet.Dispatch.{Disposition, dispatch}
use uring_mqtt.Session.Io.{Timed, in_time, timed_out, now, read_buffer, give}
use uring_mqtt.Session.Always.{Log, event, Always, Always-then, Always-map}
use uring_mqtt.Session.Replies.{SessionOutcome, UnflushedReplies, Queued, flush_replies}
use uring_mqtt.Session.Replies.Writes.{Fails, Kept, unacked, flush_replies-Always}
use uring_mqtt.Session.Allowed.{Allowed, EndsWith}
use uring_mqtt.Session.PacketLoop.Owed.{Acks, dispatch-Acks}
use uring_mqtt.Session.PacketLoop.{
  LoopState, Turn, again, break_with, after_close, on_disposition, decide, on_packet, on_error,
  on_read, read, after_flush, flush_first, turn, next_turn, run_packet_loop,
}
use uring_mqtt.Session.PacketLoop.Replying.{Fine, Ends, on_owed-Fine, on_violation-Fine}
use uring_mqtt.Session.PacketLoop.Offering.{ingest-Fine}

module _ (encode : Encoder) (version : ProtocolVersion) (idle : ℕ) (limit : Option ℕ)
    (ingest_deadline : ℕ) where
  after_close-Ends :
      (q : Queued)
      → Fails q
      → Ends encode version idle limit ingest_deadline []
          (after_close encode version idle limit ingest_deadline q)
  unfolding after_close
  after_close-Ends (ok done, u) h = tt
  after_close-Ends (err (io e), u) h = tt
  after_close-Ends (err timeout, u) h = tt
  after_close-Ends (err e, u) h = absurd h

  on_disposition-Fine :
      (state : LoopState) (d : Disposition) (log : Log)
      → Acks version d
      → Fine encode version idle limit ingest_deadline
          (Ends encode version idle limit ingest_deadline)
          log
          (on_disposition encode version idle limit ingest_deadline state d)
  unfolding on_disposition
  on_disposition-Fine state (Disposition.deliver p) log h =
      ingest-Fine encode version idle limit ingest_deadline state p none log tt
  on_disposition-Fine state (Disposition.deliver_then_reply p reply) log h =
      ingest-Fine encode version idle limit ingest_deadline state p (some reply) log h
  on_disposition-Fine state (Disposition.reply reply) log h =
      on_owed-Fine encode version idle limit ingest_deadline state (some reply) log (inl h)
  on_disposition-Fine state Disposition.close log h =
      Always-then (Allowed encode version idle limit ingest_deadline)
        (Kept encode version idle limit ingest_deadline unacked)
        (Ends encode version idle limit ingest_deadline)
        (λ flushed. give (after_close encode version idle limit ingest_deadline flushed)) log
        (flush_replies state.unflushed)
        (flush_replies-Always encode version idle limit ingest_deadline unacked state.unflushed log
          (inl refl))
        (λ l q kept. after_close-Ends q kept.1)
  on_disposition-Fine state (Disposition.violation v) log h =
      on_violation-Fine encode version idle limit ingest_deadline state v log

  decide-Fine :
      (state : LoopState) (k : MqttPacket) (log : Log)
      → Fine encode version idle limit ingest_deadline
          (Ends encode version idle limit ingest_deadline)
          log
          (decide encode version idle limit ingest_deadline state k)
  unfolding decide
  decide-Fine state k log =
      on_disposition-Fine (record state { awaiting = (dispatch k state.awaiting).1 })
        (dispatch k state.awaiting).0 log (dispatch-Acks version k state.awaiting)

  on_packet-Fine :
      (state : LoopState) (fresh : Bool) (k : MqttPacket) (log : Log)
      → Fine encode version idle limit ingest_deadline
          (Ends encode version idle limit ingest_deadline)
          log
          (on_packet encode version idle limit ingest_deadline state fresh k)
  unfolding on_packet
  on_packet-Fine state fresh k log = elim (Bool-cases (not state.hold_debt || fresh)) [
    | inl refreshed ↦ rw refreshed (
      tt,
      λ time.
          decide-Fine (record state { last_packet_time = time; hold_debt = false }) k
            (event now time ∷ log),
    )
    | inr kept ↦ rw kept (decide-Fine state k log)
  ]

  on_error-Fine :
      (state : LoopState) (e : IoError) (v : Option Violation) (log : Log)
      → Fine encode version idle limit ingest_deadline
          (Ends encode version idle limit ingest_deadline)
          log
          (on_error encode version idle limit ingest_deadline state e v)
  unfolding on_error
  on_error-Fine state e (some v) log =
      on_violation-Fine encode version idle limit ingest_deadline state v log
  on_error-Fine state e none log = elim (Bool-cases (is_truncated_packet (io e))) [
    | inl cut ↦ rw cut tt
    | inr other ↦ rw other tt
  ]

  on_read-Fine :
      (state : LoopState) (fresh : Bool) (a : Timed (Option (Result IoError MqttPacket)))
      (log : Log)
      → Fine encode version idle limit ingest_deadline
          (Ends encode version idle limit ingest_deadline)
          log
          (on_read encode version idle limit ingest_deadline state fresh a)
  unfolding on_read
  on_read-Fine state fresh (in_time (some (ok k))) log = on_packet-Fine state fresh k log
  on_read-Fine state fresh (in_time (some (err e))) log =
      on_error-Fine state e (classify_read_error e) log
  on_read-Fine state fresh (in_time none) log = tt
  on_read-Fine state fresh timed_out log = tt

  read-Fine :
      (state : LoopState) (log : Log)
      → Fine encode version idle limit ingest_deadline
          (Ends encode version idle limit ingest_deadline)
          log
          (read encode version idle limit ingest_deadline state)
  unfolding read
  read-Fine state log =
      (tt, λ buffer. (tt, λ time. (omega arith, λ a. on_read-Fine state (is_empty buffer) a _)))

  after_flush-Fine :
      (state : LoopState) (q : Queued) (log : Log)
      → Fails q
      → Fine encode version idle limit ingest_deadline
          (Ends encode version idle limit ingest_deadline)
          log
          (after_flush encode version idle limit ingest_deadline state q)
  unfolding after_flush
  after_flush-Fine state (ok done, u) log h = read-Fine _ log
  after_flush-Fine state (err (io e), u) log h = tt
  after_flush-Fine state (err timeout, u) log h = tt
  after_flush-Fine state (err e, u) log h = absurd h

  flush-Fine :
      (u : Option UnflushedReplies) (log : Log)
      → Fine encode version idle limit ingest_deadline (λ l q. Fails q) log (flush_replies u)
  flush-Fine u log =
      Always-map (Allowed encode version idle limit ingest_deadline)
        (Kept encode version idle limit ingest_deadline unacked) (λ l q. Fails q) log
        (flush_replies u) (λ l q kept. kept.1)
        (flush_replies-Always encode version idle limit ingest_deadline unacked u log (inl refl))

  flush_first-Fine :
      (state : LoopState) (buffer : List ℕ) (log : Log)
      → Fine encode version idle limit ingest_deadline
          (λ l q. Fails q)
          log
          (flush_first encode version idle limit ingest_deadline state buffer)
  unfolding flush_first
  flush_first-Fine state buffer log = elim (Bool-cases (holds_complete_packet buffer)) [
    | inl complete ↦ rw complete (
      tt,
      λ holds. elim (Bool-cases holds) [
        | inl full ↦ rw full (flush-Fine state.unflushed _)
        | inr room ↦ rw room tt
      ],
    )
    | inr partial ↦ rw partial (flush-Fine state.unflushed log)
  ]

  turn-Fine :
      (state : LoopState) (log : Log)
      → Fine encode version idle limit ingest_deadline
          (Ends encode version idle limit ingest_deadline)
          log
          (turn encode version idle limit ingest_deadline state)
  unfolding turn
  turn-Fine state log = (
    tt,
    λ buffer.
        Always-then (Allowed encode version idle limit ingest_deadline) (λ l q. Fails q)
          (Ends encode version idle limit ingest_deadline)
          (after_flush encode version idle limit ingest_deadline state)
          (event read_buffer buffer ∷ log)
          (flush_first encode version idle limit ingest_deadline state buffer)
          (flush_first-Fine state buffer (event read_buffer buffer ∷ log))
          (λ l q h. after_flush-Fine state q l h),
  )

  -- How the loop ends, when it does.
  abbrev pub LoopEnds : Option (Result Error SessionOutcome) → Type 0
  LoopEnds none = Unit {0}
  LoopEnds (some r) = EndsWith r

  next_turn-Fine :
      (turns : ℕ) (log : Log) (t : Turn)
      → ((state : LoopState) (l : Log)
          → Fine encode version idle limit ingest_deadline
              (λ l r. LoopEnds r)
              l
              (run_packet_loop encode version idle limit ingest_deadline turns state))
      → Ends encode version idle limit ingest_deadline log t
      → Fine encode version idle limit ingest_deadline
          (λ l r. LoopEnds r)
          log
          (next_turn encode version idle limit ingest_deadline
            (run_packet_loop encode version idle limit ingest_deadline turns)
            t)
  unfolding next_turn
  next_turn-Fine turns log (again state) rest h = rest state log
  next_turn-Fine turns log (break_with r) rest h = h

  -- Whatever its runtime answers, for any number of turns from any state, the packet loop encodes
  -- only packets within the client's limit, and a PUBACK only when the last offer to the event
  -- channel was of a publish with its packet id and left time for a reply. It flushes only with
  -- time left, waits for a packet at most the idle timeout, and for room at most the ingest
  -- deadline and, if at all, with a second of the idle timeout kept back. If it ends, the session
  -- was served or closed for a violation, or the error is one of I/O or a timeout.
  pub run_packet_loop-Allowed :
      (turns : ℕ) (state : LoopState) (log : Log)
      → Always
          (Allowed encode version idle limit ingest_deadline)
          (λ l r. LoopEnds r)
          log
          (run_packet_loop encode version idle limit ingest_deadline turns state)
  unfolding run_packet_loop
  run_packet_loop-Allowed zero state log = tt
  run_packet_loop-Allowed (suc turns) state log =
      Always-then (Allowed encode version idle limit ingest_deadline)
        (Ends encode version idle limit ingest_deadline) (λ l r. LoopEnds r)
        (next_turn encode version idle limit ingest_deadline
          (run_packet_loop encode version idle limit ingest_deadline turns))
        log (turn encode version idle limit ingest_deadline state) (turn-Fine state log)
        (λ l t h.
          next_turn-Fine turns l t (λ next later. run_packet_loop-Allowed turns next later) h)
