-- ===== src/Bench/Pacer/Batches.antt =====
-- bench/src/gen.rs: the slots that `latency_collect_batch` takes.
use uring_mqtt.Common.{
  ℕ, zero, suc, ◌+◌, ◌*◌, ◌<◌, ◌≤◌, ◌^◌, Option, none, some, List, ◌∷◌, ◌≡◌, inl, inr, sym, ap,
  subst, arith, ◌==◌, leb-cases, ltb-cases, Bool-cases, length,
}
use uring_mqtt.Bench.Recorder.{saturating_add}
use uring_mqtt.Bench.PacketIds.{PacketIds}
use uring_mqtt.Bench.Config.{GenConfig}
use uring_mqtt.Bench.Slots.{slot_grid_end_ns, slot_due_ns, own_slot_count, past_due_j_count}
use uring_mqtt.Bench.Slots.Schedule.{slot_due_ns-some, slot_due_ns-is_some, due-lt_iff, due-le_iff}
use uring_mqtt.Bench.Pacer.{
  World, Pacer, Entry, Taken, stop, push, own_count, monotonic_now_ns, take_with, then_collect,
  ◌>>=◌, take_slot, latency_collect_batch,
}
use uring_mqtt.Bench.Pacer.Counts.{
  account, Balanced, Advances, now-Advances, now-account, now-reads, now-clock,
  skip_past_due_missed-Advances,
}

-- The rate and the connection are those of a run whose slots and times are 64-bit numbers, and the clock does
-- not go back.
pub record IsRun (config : GenConfig) (rate conn_id : ℕ) (world : World) : Type 0 where
  pub some_rate : 0 < rate
  pub connected : conn_id < config.connections
  pub in_range : slot_grid_end_ns config.window + config.connections * 1000000000 < 2 ^ 64
  pub few : own_count config rate conn_id world < 2 ^ 64
  pub forward : (m n : ℕ) → m ≤ n → world.clock m ≤ world.clock n
  pub small : (n : ℕ) → world.clock n + 1 < 2 ^ 64

-- The batch is collected, as `P` says.
abbrev pub Returns : (List Entry × Pacer → Type 0) → Option (List Entry × Pacer) → Type 0
Returns P none = ⊥
Returns P (some r) = P r

module _ (config : GenConfig) (rate conn_id : ℕ) (world : World) where
  abbrev own : ℕ
  own = own_count config rate conn_id world

  abbrev IsDue : ℕ → ℕ → Type 0
  IsDue slot_k due = slot_due_ns conn_id slot_k config.connections rate config.origin_ns ≡ some due

  -- The slot due then is in the grid, and the next reading of the clock finds it due.
  abbrev pub IsRipe : ℕ → Pacer → Type 0
  IsRipe due s = (due < slot_grid_end_ns config.window) × (due ≤ world.clock s.reads)

  -- A ripe slot is taken or missed.
  abbrev Takes : ℕ → ℕ → Pacer → Taken → Type 0
  Takes pending due s (stop s') =
      Advances config rate conn_id world pending s s'
      × (IsRipe due s → s.next_slot_k < s'.next_slot_k)
  Takes pending due s (push entry s') =
      Advances config rate conn_id world (suc pending) s s' × (s.next_slot_k < s'.next_slot_k)

  -- A slot that is due at a reading of the clock is due at the next one.
  past_due :
      (slot_k due reads : ℕ)
      → IsRun config rate conn_id world
      → IsDue slot_k due
      → due < slot_grid_end_ns config.window
      → due ≤ world.clock reads
      → slot_k
        < own_slot_count conn_id config.connections
            (past_due_j_count config rate (world.clock (suc reads)))
  past_due slot_k due reads run e in_grid le =
      let at = slot_due_ns-some conn_id slot_k config.connections rate config.origin_ns due e in
      let later = run.forward reads (suc reads) (omega arith) in
      let (there, back) =
        due-le_iff config conn_id slot_k rate (world.clock (suc reads)) due run.some_rate
          (omega (arith, run.connected)) (omega (arith, run.in_range)) (run.small (suc reads)) e in
      there (omega arith)

  push-Takes :
      (pending due : ℕ) (id : Option ℕ) (s s' : Pacer)
      → own < 2 ^ 64
      → s.next_slot_k < own
      → Advances config rate conn_id world pending s s'
      → s.next_slot_k ≡ s'.next_slot_k
      → Takes pending due s
          (push (id, due) (record s' { next_slot_k = saturating_add s'.next_slot_k 1 }))
  push-Takes pending due id s s' few mine ((sum, below, all), forward, later) same =
      (((omega arith, omega arith, all), omega arith, later), omega arith)

  take_with-Takes :
      (pending due : ℕ) (s s' : Pacer) (r : Option ℕ × PacketIds)
      → own < 2 ^ 64
      → s.next_slot_k < own
      → Advances config rate conn_id world pending s s'
      → s.next_slot_k ≡ s'.next_slot_k
      → s.next_slot_k
        < own_slot_count conn_id config.connections
            (past_due_j_count config rate (world.clock s'.reads))
      → Takes pending due s (take_with config rate conn_id world s' due r)
  unfolding take_with
  take_with-Takes pending due s s' (some id, ids) few mine moved same past =
      push-Takes pending due (some id) s (record s' { packet_ids = ids }) few mine moved same
  take_with-Takes pending due s s' (none, ids) few mine (balanced, forward, later) same past =
      let ((kept', forward', later'), strict) =
        skip_past_due_missed-Advances config rate conn_id world pending
          (record s' { packet_ids = ids }) few balanced in
      let next =
        strict
          (subst
            (λ k.
              k
              < own_slot_count conn_id config.connections
                  (past_due_j_count config rate (world.clock s'.reads)))
            same past)
          (subst (λ k. k < own) same mine) in
      ((kept', omega arith, omega arith), (λ ripe. omega arith))

  take_slot-Takes :
      (pending due : ℕ) (s : Pacer)
      → IsRun config rate conn_id world
      → IsDue s.next_slot_k due
      → Balanced own pending (account s)
      → Takes pending due s (take_slot config rate conn_id world s due)
  unfolding take_slot
  take_slot-Takes pending due s run e balanced =
      let moved = now-Advances config rate conn_id world pending s balanced in
      let same = sym (ap (λ a. a.next_slot_k) (now-account config rate conn_id world s)) in
      let (mine, _) =
        due-lt_iff config conn_id s.next_slot_k rate due run.some_rate
          (omega (arith, run.connected)) (omega (arith, run.in_range)) e in
      let later : Pacer = (monotonic_now_ns config rate conn_id world s).1 in
      let reading = now-clock config rate conn_id world s in
      elim (leb-cases (slot_grid_end_ns config.window) due) [
        | inl (over, after) ↦
            rw over ((balanced, omega arith, omega arith), λ ripe. absurd (omega (arith, ripe.0)))
        | inr (in_grid, before) ↦
            elim (ltb-cases (monotonic_now_ns config rate conn_id world s).0 due) [
              | inl (early, yet) ↦
                  rw (in_grid, early) (moved, λ ripe. absurd (omega (arith, ripe.1)))
              | inr (due_now, le) ↦ elim (Bool-cases (config.qos == 1)) [
                | inl one ↦
                    rw (in_grid, due_now, one)
                      (take_with-Takes pending due s later _ run.few (mine before) moved same (
                        subst
                          (λ reads.
                            s.next_slot_k
                            < own_slot_count conn_id config.connections
                                (past_due_j_count config rate (world.clock reads)))
                          (sym (now-reads config rate conn_id world s))
                          (past_due s.next_slot_k due s.reads run e before (omega arith))))
                | inr other ↦
                    rw (in_grid, due_now, other)
                      (push-Takes pending due none s later run.few (mine before) moved same)
              ]
            ]
      ]

  -- The slots passed are those in the batch or missed, and a ripe first one is passed.
  abbrev pub Collects : ℕ → ℕ → Pacer → List Entry × Pacer → Type 0
  Collects room pending s (batch, s') =
      Advances config rate conn_id world (pending + length batch) s s'
      × (0 < room
          → (due : ℕ) → IsDue s.next_slot_k due
          → IsRipe due s
          → s.next_slot_k < s'.next_slot_k)

  push-Collects :
      (room pending : ℕ) (entry : Entry) (s s' : Pacer) (o : Option (List Entry × Pacer))
      → Takes pending 0 s (push entry s')
      → Returns (Collects room (suc pending) s') o
      → Returns (Collects (suc room) pending s) (o >>= λ r. some (entry ∷ r.0, r.1))
  push-Collects room pending entry s s' none took h = h
  push-Collects room pending entry s s' (some (batch, s'')) ((kept, forward, later), more)
        (((sum, below, all), forward', later'), strict) =
      (((omega arith, below, all), omega arith, omega arith), λ room due e ripe. omega arith)

  then_collect-Collects :
      (room pending due : ℕ) (s : Pacer) (taken : Taken)
      (collect : Pacer → Option (List Entry × Pacer))
      → IsDue s.next_slot_k due
      → Takes pending due s taken
      → ((s' : Pacer)
          → Balanced own (suc pending) (account s')
          → Returns (Collects room (suc pending) s') (collect s'))
      → Returns (Collects (suc room) pending s) (then_collect taken collect)
  unfolding then_collect
  then_collect-Collects room pending due s (stop s') collect e
        (((sum, below, all), forward, later), strict) h =
      (
        ((omega arith, below, all), forward, later),
        (λ some_room due' e' ripe.
            let same : due' ≡ due = cc in strict (subst (λ d. IsRipe d s) same ripe)),
      )
  then_collect-Collects room pending due s (push entry s') collect e took h =
      push-Collects room pending entry s s' (collect s') took (h s' took.0.0)

  pub latency_collect_batch-Collects :
      (room pending : ℕ) (s : Pacer)
      → IsRun config rate conn_id world
      → Balanced own pending (account s)
      → Returns (Collects room pending s) (latency_collect_batch config rate conn_id world room s)
  unfolding latency_collect_batch
  latency_collect_batch-Collects zero pending s run (sum, below, all) =
      (((omega arith, below, all), omega arith, omega arith), λ some_room. absurd (omega arith))
  latency_collect_batch-Collects (suc room) pending s run (sum, below, all) =
      let (due, e) =
        slot_due_ns-is_some config conn_id s.next_slot_k rate run.some_rate run.connected
          run.in_range below in
      rw e (
        then_collect-Collects room pending due s _ _ e
          (take_slot-Takes pending due s run e (sum, below, all))
          (λ s' balanced. latency_collect_batch-Collects room (suc pending) s' run balanced))
