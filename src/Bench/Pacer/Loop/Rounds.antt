-- ===== src/Bench/Pacer/Loop/Rounds.antt =====
-- bench/src/gen.rs: a round of `latency_pacer`, and its loop.
use uring_mqtt.Common.{
  ℕ, zero, suc, ◌+◌, ◌<◌, ◌≤◌, ◌^◌, Option, none, some, List, ◌≡◌, inl, inr, refl, sym, ap, ◌∙◌,
  subst, arith, leb, leb-cases, le-or-lt, Bool-cases, length,
}
use uring_mqtt.Common.Result.{Result}
use uring_mqtt.Bench.Config.{GenConfig}
use uring_mqtt.Bench.Slots.{slot_due_ns, slot_grid_end_ns}
use uring_mqtt.Bench.Slots.Schedule.{slot_due_ns-is_some, due-lt_iff}
use uring_mqtt.Bench.Pacer.{
  batch_max, start, World, Pacer, Entry, own_count, monotonic_now_ns, ◌>>=◌,
}
use uring_mqtt.Bench.Pacer.Loop.{
  Cause, Round, again, finish, send_collected, due_round, latency_round, latency_pacer,
}
use uring_mqtt.Bench.Pacer.Counts.{
  account, Balanced, Settled, Advances, now-Advances, now-account, count_remaining_missed-Settled,
}
use uring_mqtt.Bench.Pacer.Batches.{
  IsRun, IsRipe, Returns, Collects, latency_collect_batch-Collects,
}
use uring_mqtt.Bench.Pacer.Loop.Steps.{pacer_wait-ends, RunsOn, RunsOn-≤, send_collected-RunsOn}

module _ (config : GenConfig) (rate conn_id : ℕ) (world : World) where
  abbrev own : ℕ
  own = own_count config rate conn_id world

  abbrev Moves : Pacer → Option Round → Type 0
  Moves s none = ⊥
  Moves s (some round) = RunsOn config rate conn_id world (suc s.next_slot_k) s.reads round

  collected-Moves :
      (s s' : Pacer) (o : Option (List Entry × Pacer))
      → own < 2 ^ 64
      → s.next_slot_k ≡ s'.next_slot_k
      → s.reads ≤ s'.reads
      → Returns
          (λ r.
            Advances config rate conn_id world (length r.0) s' r.1
            × (s'.next_slot_k < r.1.next_slot_k))
          o
      → Moves s (o >>= λ r. some (send_collected config rate conn_id world r.0 r.1))
  collected-Moves s s' none few same later h = h
  collected-Moves s s' (some (batch, s'')) few same later ((balanced, forward, after), strict) =
      RunsOn-≤ config rate conn_id world _ s''.next_slot_k _ s''.reads _ (omega arith) (omega arith)
        (send_collected-RunsOn config rate conn_id world batch s'' few balanced)

  ripe-Collects :
      (due : ℕ) (s : Pacer) (o : Option (List Entry × Pacer))
      → slot_due_ns conn_id s.next_slot_k config.connections rate config.origin_ns ≡ some due
      → IsRipe config rate conn_id world due s
      → Returns (Collects config rate conn_id world batch_max 0 s) o
      → Returns
          (λ r.
            Advances config rate conn_id world (length r.0) s r.1
            × (s.next_slot_k < r.1.next_slot_k))
          o
  ripe-Collects due s none e ripe h = h
  ripe-Collects due s (some (batch, s')) e ripe (((sum, below, all), forward, later), strict) =
      (((omega arith, below, all), forward, later), strict (omega arith) due e ripe)

  due_round-Moves :
      (due : ℕ) (s s' : Pacer)
      → IsRun config rate conn_id world
      → s.next_slot_k ≡ s'.next_slot_k
      → s.reads ≤ s'.reads
      → slot_due_ns conn_id s'.next_slot_k config.connections rate config.origin_ns ≡ some due
      → IsRipe config rate conn_id world due s'
      → Balanced own 0 (account s')
      → Moves s (due_round config rate conn_id world s')
  unfolding due_round
  due_round-Moves due s s' run same later e ripe balanced =
      let now : Pacer = (monotonic_now_ns config rate conn_id world s').1 in
      let (kept, forward, after) = now-Advances config rate conn_id world 0 s' balanced in
      let same' : s'.next_slot_k ≡ now.next_slot_k =
        sym (ap (λ a. a.next_slot_k) (now-account config rate conn_id world s')) in
      elim (Bool-cases
        (leb config.window.end_ns (monotonic_now_ns config rate conn_id world s').0)) [
          | inl over ↦
              rw over (count_remaining_missed-Settled config rate conn_id world now run.few kept)
          | inr within ↦ rw within (
              collected-Moves s now _ run.few (same ∙ same') (omega arith) (
                ripe-Collects due now _
                  (subst
                    (λ k. slot_due_ns conn_id k config.connections rate config.origin_ns ≡ some due)
                    same' e)
                  (ripe.0, omega (arith, ripe.1, run.forward s'.reads now.reads after))
                  (latency_collect_batch-Collects config rate conn_id world batch_max 0 now run
                    kept)))
        ]

  latency_round-Moves :
      (polls turn : ℕ) (s : Pacer)
      → IsRun config rate conn_id world
      → slot_grid_end_ns config.window ≤ world.clock turn
      → turn < polls
      → Balanced own 0 (account s)
      → Moves s (latency_round config rate conn_id world polls s)
  unfolding latency_round
  latency_round-Moves polls turn s run reached in_time (sum, below, all) =
      let (due, e) =
        slot_due_ns-is_some config conn_id s.next_slot_k rate run.some_rate run.connected
          run.in_range below in
      let (mine, in_grid) =
        due-lt_iff config conn_id s.next_slot_k rate due run.some_rate
          (omega (arith, run.connected)) (omega (arith, run.in_range)) e in
      elim (leb-cases (slot_grid_end_ns config.window) due) [
        | inl (over, after) ↦
            let passed : own ≤ s.next_slot_k = elim (le-or-lt own s.next_slot_k) [
              | inl le ↦ le
              | inr lt ↦ let early = in_grid lt in absurd (omega arith)
            ] in
            rw (e, over) (omega arith, all)
        | inr (under, before) ↦
            let (s', waited, (kept, forward, later), same, le) =
              pacer_wait-ends config rate conn_id world polls due turn s run (omega arith)
                (omega arith) (omega arith) (sum, below, all) in
            rw (e, under, waited)
              (due_round-Moves due s s' run same later
                (subst
                  (λ k. slot_due_ns conn_id k config.connections rate config.origin_ns ≡ some due)
                  same e)
                (before, le) kept)
      ]

  abbrev pub Ends : Option (Result Cause (Unit {0}) × Pacer) → Type 0
  Ends none = ⊥
  Ends (some (result, s)) = Settled own (account s)

  rounds-Ends :
      (polls rounds : ℕ) (s : Pacer) (o : Option Round)
      → Moves s o
      → ((s' : Pacer)
          → Balanced own 0 (account s')
          → s.next_slot_k < s'.next_slot_k
          → Ends (latency_pacer config rate conn_id world polls rounds s'))
      → Ends (elim o [
        | none ↦ none
        | some round ↦ elim round [
          | finish result s' ↦ some (result, s')
          | again s' ↦ latency_pacer config rate conn_id world polls rounds s'
        ]
      ])
  rounds-Ends polls rounds s none moves rest = moves
  rounds-Ends polls rounds s (some (finish result s')) moves rest = moves
  rounds-Ends polls rounds s (some (again s')) (balanced, forward, later) rest =
      rest s' balanced forward

  loop-Ends :
      (polls rounds turn : ℕ) (s : Pacer)
      → IsRun config rate conn_id world
      → slot_grid_end_ns config.window ≤ world.clock turn
      → turn < polls
      → own < rounds + s.next_slot_k
      → Balanced own 0 (account s)
      → Ends (latency_pacer config rate conn_id world polls rounds s)
  unfolding latency_pacer
  loop-Ends polls zero turn s run reached in_time enough balanced = absurd (omega arith)
  loop-Ends polls (suc rounds) turn s run reached in_time enough balanced =
      rounds-Ends polls rounds s _ (latency_round-Moves polls turn s run reached in_time balanced)
        (λ s' balanced' forward.
          loop-Ends polls rounds turn s' run reached in_time (omega arith) balanced')

  -- Take a connection of a run with a positive rate, whose counts and times are 64-bit numbers, a
  -- clock that does not go back and that reaches the end of the slot grid after some number of
  -- readings, and any PUBACKs and any ends of the writes. With more readings for each wait than
  -- that number, and more rounds than the connection has slots, the pacer ends, with no panic.
  -- Then the slots that it counted as offered and those that it counted as missed are together
  -- exactly the connection's slots of the run, and it has submitted as many messages as it
  -- counted as offered.
  pub latency_pacer-Ends :
      (polls rounds turn : ℕ)
      → IsRun config rate conn_id world
      → slot_grid_end_ns config.window ≤ world.clock turn
      → turn < polls
      → own < rounds
      → Ends (latency_pacer config rate conn_id world polls rounds start)
  latency_pacer-Ends polls rounds turn run reached in_time enough =
      loop-Ends polls rounds turn start run reached in_time (omega arith)
        (omega arith, omega arith, refl)
