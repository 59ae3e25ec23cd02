-- ===== src/Bench/Pacer/Loop/Sends.antt =====
-- bench/src/gen.rs: what the sending of a batch does to the slots that are counted.
use uring_mqtt.Common.{
  ℕ, suc, ◌<◌, ◌^◌, Bool, true, false, Option, List, [], ◌∷◌, ◌≡◌, inl, inr, refl, sym, ap, ◌∙◌,
  arith, leb, ◌==◌, if◌then◌else◌, Bool-cases, length, length-append,
}
use uring_mqtt.Bench.Payload.{Stamp}
use uring_mqtt.Bench.Recorder.{saturating_add}
use uring_mqtt.Bench.Config.{GenConfig}
use uring_mqtt.Bench.Pacer.{
  World, WriteResult, written, write_error, elapsed, Counters, Pacer, Entry, own_count,
  monotonic_now_ns, add_missed_slots,
}
use uring_mqtt.Bench.Pacer.Loop.{
  SendOutcome, sent, window_ended, failed, latency_encode_batch, latency_release_batch_ids,
  latency_drop_batch, record_lateness, count_lateness, submit, end_write, latency_send_batch,
}
use uring_mqtt.Bench.Pacer.Counts.{
  account, Balanced, Settled, Advances, fetch_add-small, now-Advances,
  count_remaining_missed-Settled,
}

module _ (config : GenConfig) (rate conn_id : ℕ) (world : World) where
  abbrev own : ℕ
  own = own_count config rate conn_id world

  pub length-latency_encode_batch :
      (batch : List Entry) (next_seq : ℕ)
      → length ((latency_encode_batch config rate conn_id world batch next_seq).0) ≡ length batch
  unfolding latency_encode_batch
  length-latency_encode_batch [] next_seq = refl
  length-latency_encode_batch ((id, due) ∷ batch) next_seq =
      ap suc (length-latency_encode_batch batch (saturating_add next_seq 1))

  count_lateness-counts :
      (send_ns due : ℕ) (c : Counters)
      → ((count_lateness config rate conn_id world send_ns due c).offered ≡ c.offered)
        × ((count_lateness config rate conn_id world send_ns due c).missed_slots ≡ c.missed_slots)
  unfolding count_lateness
  count_lateness-counts send_ns due c = ground arith

  record_lateness-counts :
      (send_ns : ℕ) (batch : List Entry) (c : Counters)
      → ((record_lateness config rate conn_id world send_ns batch c).offered ≡ c.offered)
        × ((record_lateness config rate conn_id world send_ns batch c).missed_slots
            ≡ c.missed_slots)
  unfolding record_lateness
  record_lateness-counts send_ns [] c = (refl, refl)
  record_lateness-counts send_ns ((id, due) ∷ batch) c =
      let (same, missed) = count_lateness-counts send_ns due c in
      let (same', missed') =
        record_lateness-counts send_ns batch
          (count_lateness config rate conn_id world send_ns due c) in
      (same' ∙ same, missed' ∙ missed)

  abbrev pub Sends : List Entry → Pacer → SendOutcome × Pacer → Type 0
  Sends batch s (sent, s') = Advances config rate conn_id world 0 s s'
  Sends batch s (window_ended, s') = Balanced own (length batch) (account s')
  Sends batch s (failed cause, s') = Balanced own 0 (account s')

  if-Balanced :
      (pending : ℕ) (x y : Pacer) (b : Bool)
      → Balanced own pending (account x)
      → Balanced own pending (account y)
      → Balanced own pending (account (if b then x else y))
  if-Balanced pending x y true p q = p
  if-Balanced pending x y false p q = q

  end_write-Sends :
      (result : WriteResult) (batch : List Entry) (s s' : Pacer)
      → Advances config rate conn_id world 0 s s'
      → Sends batch s (end_write config rate conn_id world result batch s')
  unfolding end_write
  end_write-Sends written batch s s' ((sum, below, all), forward, later) =
      let ((sum', below', all'), forward', later') =
        now-Advances config rate conn_id world 0 s' (sum, below, all) in
      let (same, missed) = record_lateness-counts _ batch _ in
      ((omega arith, below', all' ∙ sym same), omega arith, omega arith)
  end_write-Sends write_error batch s s' (balanced, forward, later) =
      if-Balanced 0 _ _ (config.qos == 1) balanced balanced
  end_write-Sends elapsed batch s s' (balanced, forward, later) =
      if-Balanced 0 _ _ (config.qos == 1) balanced balanced

  pub latency_send_batch-Sends :
      (s : Pacer) (batch : List Entry) (messages : List (Option ℕ × Stamp))
      → own < 2 ^ 64
      → length messages ≡ length batch
      → Balanced own (length batch) (account s)
      → Sends batch s (latency_send_batch config rate conn_id world s batch messages)
  unfolding latency_send_batch submit
  latency_send_batch-Sends s batch messages few same balanced =
      let now : Pacer = (monotonic_now_ns config rate conn_id world s).1 in
      let ((sum, below, all), forward, later) =
        now-Advances config rate conn_id world (length batch) s balanced in
      elim (Bool-cases
        (leb config.window.end_ns (monotonic_now_ns config rate conn_id world s).0)) [
          | inl over ↦ rw over (sum, below, all)
          | inr within ↦
              let added = fetch_add-small now.counters.offered (length messages) (omega arith) in
              let total = length-append now.submitted messages in
              rw within (
                end_write-Sends _ batch s _
                  ((omega (arith, added), below, omega (arith, added, total)), forward, later))
        ]

  pub latency_drop_batch-Settled :
      (s : Pacer) (batch : List Entry)
      → own < 2 ^ 64
      → Balanced own (length batch) (account s)
      → Settled own (account (latency_drop_batch config rate conn_id world s batch))
  unfolding latency_drop_batch latency_release_batch_ids
  latency_drop_batch-Settled s batch few balanced =
      let kept : Pacer = latency_release_batch_ids config rate conn_id world s batch in
      let (sum, below, all) : Balanced own (length batch) (account kept) =
        if-Balanced (length batch) _ s (config.qos == 1) balanced balanced in
      let added = fetch_add-small kept.counters.missed_slots (length batch) (omega arith) in
      count_remaining_missed-Settled config rate conn_id world
        (add_missed_slots (length batch) kept) few (omega (arith, added), below, all)
