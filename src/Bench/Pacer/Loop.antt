-- ===== src/Bench/Pacer/Loop.antt =====
-- bench/src/gen.rs: the loop of `latency_pacer`, and the batches it sends.
pub mod Sends
pub mod Steps
pub mod Rounds
use uring_mqtt.Common.{
  ℕ, zero, suc, ◌+◌, ◌-◌, ◌^◌, ◌%◌, min, max, Bool, true, false, ◌&&◌, Option, none, some, List, [],
  ◌∷◌, ◌++◌, ltb, leb, ◌==◌, if◌then◌else◌, length,
}
use uring_mqtt.Common.Result.{Result, ok, err}
use uring_mqtt.Bench.Payload.{Stamp}
use uring_mqtt.Bench.PacketIds.{PacketIds, new, allocate, release}
use uring_mqtt.Bench.Recorder.{Window, saturating_add, latency_max_ns}
use uring_mqtt.Bench.Config.{GenConfig}
use uring_mqtt.Bench.Pacer.{
  World, WriteResult, written, write_error, elapsed, Counters, Pacer, Entry, fetch_add, batch_max,
  add_missed_slots, grid_end_ns, due_at, monotonic_now_ns, pacer_wait, count_remaining_missed,
  latency_collect_batch, ◌>>=◌, start,
}

pub data Cause : Type 0 where
  write_failed : Cause
  past_deadline : Cause

pub data SendOutcome : Type 0 where
  sent : SendOutcome
  window_ended : SendOutcome
  failed : Cause → SendOutcome

-- What a round of the loop of `latency_pacer` leaves to do.
pub data Round : Type 0 where
  again : Pacer → Round
  finish : Result Cause (Unit {0}) → Pacer → Round

module _ (config : GenConfig) (rate conn_id : ℕ) (world : World) where
  -- The messages, and the next sequence number. At QoS 1 every entry has its packet id.
  pub latency_encode_batch : List Entry → ℕ → List (Option ℕ × Stamp) × ℕ
  latency_encode_batch [] next_seq = ([], next_seq)
  latency_encode_batch ((id, due) ∷ batch) next_seq =
      let (messages, next) = latency_encode_batch batch (saturating_add next_seq 1) in
      let stamp : Stamp = record { conn_id = conn_id; seq = next_seq; scheduled_ns = due } in
      ((if config.qos == 1 then id else none, stamp) ∷ messages, next)

  pub release_ids : PacketIds → List Entry → PacketIds
  release_ids ids [] = ids
  release_ids ids ((none, due) ∷ batch) = release_ids ids batch
  release_ids ids ((some id, due) ∷ batch) = release_ids ((release ids id).1) batch

  pub latency_release_batch_ids : Pacer → List Entry → Pacer
  unfolding release_ids
  latency_release_batch_ids s batch =
      if config.qos == 1 then record s { packet_ids = release_ids s.packet_ids batch } else s

  pub latency_drop_batch : Pacer → List Entry → Pacer
  unfolding latency_release_batch_ids
  latency_drop_batch s batch =
      count_remaining_missed config rate conn_id world
        (add_missed_slots (length batch) (latency_release_batch_ids s batch))

  unfoldable pub count_lateness : ℕ → ℕ → Counters → Counters
  count_lateness send_ns due c =
      let value = send_ns - due in
      if leb config.window.start_ns due && ltb due config.window.end_ns
      then (if ltb latency_max_ns value
          then record c { lateness_over_range = fetch_add c.lateness_over_range 1 }
          else record c { lateness = max value 1 ∷ c.lateness })
      else c

  -- The `for` loop after a write.
  pub record_lateness : ℕ → List Entry → Counters → Counters
  record_lateness send_ns [] c = c
  record_lateness send_ns ((id, due) ∷ batch) c =
      record_lateness send_ns batch (count_lateness send_ns due c)

  -- `update_last_write_start`, `add_offered`, and the count of what is in flight.
  pub submit : ℕ → List (Option ℕ × Stamp) → Pacer → Pacer
  submit start messages s = record s {
    counters = record s.counters {
      last_write_start_ns = max s.counters.last_write_start_ns start;
      offered = fetch_add s.counters.offered (length messages);
    };
    in_flight = if config.qos == 1 then fetch_add s.in_flight (length messages) else s.in_flight;
    submitted = s.submitted ++ messages;
  }

  abbrev fail_batch : Cause → ℕ → Pacer → SendOutcome × Pacer
  fail_batch cause count s = (
    failed cause,
    if config.qos == 1 then s else record s {
      counters = record s.counters { stalled = fetch_add s.counters.stalled count };
    },
  )

  pub end_write : WriteResult → List Entry → Pacer → SendOutcome × Pacer
  unfolding record_lateness
  end_write written batch s =
      let (send_ns, s) = monotonic_now_ns config rate conn_id world s in
      (sent, record s { counters = record_lateness send_ns batch s.counters })
  end_write write_error batch s = fail_batch write_failed (length batch) s
  end_write elapsed batch s = fail_batch past_deadline (length batch) s

  pub latency_send_batch : Pacer → List Entry → List (Option ℕ × Stamp) → SendOutcome × Pacer
  unfolding submit end_write
  latency_send_batch s batch messages =
      let (start, s) = monotonic_now_ns config rate conn_id world s in
      if leb config.window.end_ns start
      then (window_ended, s)
      else end_write (world.writes s.reads) batch (submit start messages s)

  -- What `latency_pacer` does after the outcome of a batch.
  pub after_send : List Entry → SendOutcome → Pacer → Round
  unfolding latency_drop_batch
  after_send batch sent s = again s
  after_send batch window_ended s = finish (ok tt) (latency_drop_batch s batch)
  after_send batch (failed cause) s =
      finish (err cause) (count_remaining_missed config rate conn_id world s)

  pub send_collected : List Entry → Pacer → Round
  unfolding latency_encode_batch latency_send_batch after_send
  send_collected [] s = again s
  send_collected (entry ∷ rest) s =
      let (messages, next_seq) = latency_encode_batch (entry ∷ rest) s.next_seq in
      let (outcome, s) =
        latency_send_batch (record s { next_seq = next_seq }) (entry ∷ rest) messages in
      after_send (entry ∷ rest) outcome s

  -- A round of `latency_pacer` once the due time has passed.
  pub due_round : Pacer → Option Round
  unfolding send_collected latency_collect_batch
  due_round s =
      let (now_ns, s) = monotonic_now_ns config rate conn_id world s in
      if leb config.window.end_ns now_ns
      then some (finish (ok tt) (count_remaining_missed config rate conn_id world s))
      else do
        (batch, s) ← latency_collect_batch config rate conn_id world batch_max s
        some (send_collected batch s)

  -- A round of the loop of `latency_pacer`.
  pub latency_round : ℕ → Pacer → Option Round
  unfolding due_round pacer_wait
  latency_round polls s = do
    due_ns ← due_at config rate conn_id world s.next_slot_k
    if leb (grid_end_ns config rate conn_id world) due_ns
        then some (finish (ok tt) s)
        else do s ← pacer_wait config rate conn_id world polls due_ns s; due_round s

  -- On fuel: the rounds of the loop, and the readings of the clock of each `pacer_wait`. `none` is a panic, or
  -- the end of the fuel.
  unfoldable pub latency_pacer : ℕ → ℕ → Pacer → Option (Result Cause (Unit {0}) × Pacer)
  unfolding latency_round
  latency_pacer polls zero s = none
  latency_pacer polls (suc rounds) s = elim (latency_round polls s) [
    | none ↦ none
    | some round ↦ elim round [
      | finish result s ↦ some (result, s)
      | again s ↦ latency_pacer polls rounds s
    ]
  ]
