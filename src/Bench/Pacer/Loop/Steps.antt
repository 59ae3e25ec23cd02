-- ===== src/Bench/Pacer/Loop/Steps.antt =====
-- bench/src/gen.rs: the steps of a round of `latency_pacer`, the wait and the send.
use uring_mqtt.Common.{
  ℕ, zero, suc, ◌+◌, ◌<◌, ◌≤◌, ◌^◌, some, List, [], ◌∷◌, ◌≡◌, inl, inr, refl, sym, ap, ◌∙◌, arith,
  leb-cases, le-or-lt, length,
}
use uring_mqtt.Bench.Config.{GenConfig}
use uring_mqtt.Bench.Pacer.{World, Pacer, Entry, own_count, monotonic_now_ns, pacer_wait}
use uring_mqtt.Bench.Pacer.Loop.{
  SendOutcome, sent, window_ended, failed, Round, again, finish, latency_encode_batch, after_send,
  send_collected,
}
use uring_mqtt.Bench.Pacer.Counts.{
  account, Balanced, Settled, Advances, now-Advances, now-account, now-reads, now-clock,
  count_remaining_missed-Settled,
}
use uring_mqtt.Bench.Pacer.Batches.{IsRun}
use uring_mqtt.Bench.Pacer.Loop.Sends.{
  Sends, length-latency_encode_batch, latency_send_batch-Sends, latency_drop_batch-Settled,
}

module _ (config : GenConfig) (rate conn_id : ℕ) (world : World) where
  abbrev own : ℕ
  own = own_count config rate conn_id world

  -- The wait ends at a reading that finds the time reached.
  pub pacer_wait-ends :
      (polls due turn : ℕ) (s : Pacer)
      → IsRun config rate conn_id world
      → due ≤ world.clock turn
      → turn < s.reads + polls
      → 0 < polls
      → Balanced own 0 (account s)
      → (s' : Pacer) × (pacer_wait config rate conn_id world polls due s ≡ some s')
        × Advances config rate conn_id world 0 s s'
        × (s.next_slot_k ≡ s'.next_slot_k)
        × (due ≤ world.clock s'.reads)
  unfolding pacer_wait
  pacer_wait-ends zero due turn s run reached in_time some_polls balanced = absurd (omega arith)
  pacer_wait-ends (suc polls) due turn s run reached in_time some_polls balanced =
      let later : Pacer = (monotonic_now_ns config rate conn_id world s).1 in
      let moved = now-Advances config rate conn_id world 0 s balanced in
      let same = sym (ap (λ a. a.next_slot_k) (now-account config rate conn_id world s)) in
      let reading = now-clock config rate conn_id world s in
      let next = now-reads config rate conn_id world s in
      elim (leb-cases due (monotonic_now_ns config rate conn_id world s).0) [
        | inl (over, le) ↦
            let on = run.forward s.reads later.reads (omega arith) in
            rw (pacer_wait, over) (later, refl, moved, same, omega arith)
        | inr (under, lt) ↦
            let early : s.reads < turn = elim (le-or-lt turn s.reads) [
              | inl passed ↦ absurd (omega (arith, run.forward turn s.reads passed))
              | inr yet ↦ yet
            ] in
            let (s', e, (kept, forward, after), same', le) =
              pacer_wait-ends polls due turn later run reached (omega arith) (omega arith)
                moved.0 in
            rw (pacer_wait, under) (s', e, (kept, omega arith, omega arith), same ∙ same', le)
      ]

  -- A round goes on with the slots counted up to `k` at least, or it ends with every slot counted.
  abbrev pub RunsOn : ℕ → ℕ → Round → Type 0
  RunsOn k reads (again s') =
      Balanced own 0 (account s') × (k ≤ s'.next_slot_k) × (reads ≤ s'.reads)
  RunsOn k reads (finish result s') = Settled own (account s')

  pub RunsOn-≤ :
      (k k' reads reads' : ℕ) (round : Round)
      → k ≤ k'
      → reads ≤ reads'
      → RunsOn k' reads' round
      → RunsOn k reads round
  RunsOn-≤ k k' reads reads' (again s') p q (balanced, forward, later) =
      (balanced, omega arith, omega arith)
  RunsOn-≤ k k' reads reads' (finish result s') p q settled = settled

  after_send-RunsOn :
      (batch : List Entry) (s : Pacer) (r : SendOutcome × Pacer)
      → own < 2 ^ 64
      → Sends config rate conn_id world batch s r
      → RunsOn s.next_slot_k s.reads (after_send config rate conn_id world batch r.0 r.1)
  unfolding after_send
  after_send-RunsOn batch s (sent, s') few sends = sends
  after_send-RunsOn batch s (window_ended, s') few sends =
      latency_drop_batch-Settled config rate conn_id world s' batch few sends
  after_send-RunsOn batch s (failed cause, s') few sends =
      count_remaining_missed-Settled config rate conn_id world s' few sends

  pub send_collected-RunsOn :
      (batch : List Entry) (s : Pacer)
      → own < 2 ^ 64
      → Balanced own (length batch) (account s)
      → RunsOn s.next_slot_k s.reads (send_collected config rate conn_id world batch s)
  unfolding send_collected
  send_collected-RunsOn [] s few balanced = (balanced, omega arith, omega arith)
  send_collected-RunsOn (entry ∷ rest) s few balanced =
      let encoded = latency_encode_batch config rate conn_id world (entry ∷ rest) s.next_seq in
      after_send-RunsOn (entry ∷ rest) s _ few (
        latency_send_batch-Sends config rate conn_id world _ (entry ∷ rest) encoded.0 few
          (length-latency_encode_batch config rate conn_id world (entry ∷ rest) s.next_seq)
          balanced)
