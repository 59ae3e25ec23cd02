-- ===== src/Bench/Generator/Accounts.antt =====
-- bench/src/gen.rs: the report of a latency run, against the slots that it scheduled.
use native.Mathlib.Nat.{mul-le-mul_right}
use uring_mqtt.Common.{
  ℕ, zero, suc, ◌+◌, ◌*◌, ◌<◌, ◌≤◌, ◌-◌, ◌^◌, Option, none, some, ◌≡◌, refl, ap, ◌∙◌, arith, inl,
  inr, le-or-lt,
}
use uring_mqtt.Common.Result.{Result, ok}
use uring_mqtt.Bench.Config.{Mode, GenConfig}
use uring_mqtt.Bench.Slots.{
  div_ceil, slot_grid_end_ns, scheduled_slots, slot_counts, own_slot_count, window_due_j_count,
}
use uring_mqtt.Bench.Slots.Schedule.{own_iff}
use uring_mqtt.Bench.Pacer.{World, Counters, Pacer, start}
use uring_mqtt.Bench.Pacer.Counts.{fetch_add-small}
use uring_mqtt.Bench.Pacer.Loop.{Cause, latency_pacer}
use uring_mqtt.Bench.Pacer.Loop.Rounds.{Ends, latency_pacer-Ends}
use uring_mqtt.Bench.Generator.{
  validate, GenReport, report_slots, report_with, build_report, counted,
}
use uring_mqtt.Bench.Generator.Partition.{sum_to, sum_to-same, sum_to-own_slot_count}

own_slot_count-le : (c n j : ℕ) → 0 < n → own_slot_count c n j ≤ j
own_slot_count-le c n j pos = elim (le-or-lt (own_slot_count c n j) j) [
  | inl le ↦ le
  | inr lt ↦
      let reached = (own_iff c j n j pos).1 lt in
      let grows : j ≤ j * n = grind arith in absurd (omega arith)
]

-- What the checks of a latency run give.
abbrev IsScheduled : GenConfig → ℕ → Type 0
IsScheduled config rate =
    (0 < rate)
    × (0 < config.connections)
    × (scheduled_slots rate config.origin_ns config.window < 2 ^ 64)
    × (config.window.start_ns < config.window.end_ns)

validate-IsScheduled :
    (config : GenConfig) (rate : ℕ)
    → config.mode ≡ Mode.latency rate
    → validate config ≡ ok tt
    → IsScheduled config rate
unfolding validate
validate-IsScheduled config rate latency valid = let checked = rw latency at valid in ground arith

slot_counts-scheduled :
    (config : GenConfig) (rate : ℕ)
    → IsScheduled config rate
    → (in_window : ℕ) × (slot_counts rate config.origin_ns config.window
        ≡ some (scheduled_slots rate config.origin_ns config.window, in_window))
unfolding slot_counts scheduled_slots
slot_counts-scheduled config rate (pos, some_conn, fits, ordered) =
    let before : (config.window.start_ns - config.origin_ns) * rate
        ≤ (slot_grid_end_ns config.window - config.origin_ns) * rate =
      mul-le-mul_right rate (omega arith) in
    (
      div_ceil ((slot_grid_end_ns config.window - config.origin_ns) * rate) 1000000000
          - div_ceil ((config.window.start_ns - config.origin_ns) * rate) 1000000000,
      ground (arith, before),
    )

-- The sums of the counters do not wrap.
counted-sums :
    (m : ℕ) (each : ℕ → Counters)
    → sum_to m (λ c. (each c).offered + (each c).missed_slots) < 2 ^ 64
    → (counted m start.counters each).offered + (counted m start.counters each).missed_slots
      ≡ sum_to m (λ c. (each c).offered + (each c).missed_slots)
unfolding counted sum_to
counted-sums zero each h = omega arith
counted-sums (suc m) each h =
    let before = counted-sums m each (omega arith) in
    let a =
      fetch_add-small (counted m start.counters each).offered (each m).offered (omega arith) in
    let b =
      fetch_add-small (counted m start.counters each).missed_slots (each m).missed_slots
        (omega arith) in
    omega (arith, a, b)

report_slots-latency :
    (config : GenConfig) (rate : ℕ) (mode : Mode) (slots : ℕ × ℕ)
    → mode ≡ Mode.latency rate
    → slot_counts rate config.origin_ns config.window ≡ some slots
    → report_slots config mode ≡ some (some slots.0, some slots.1)
unfolding report_slots
report_slots-latency config rate mode slots latency e = rw (latency, report_slots, e) refl

build_report-scheduled :
    (config : GenConfig) (rate scheduled in_window : ℕ) (counters : Counters)
    → config.mode ≡ Mode.latency rate
    → slot_counts rate config.origin_ns config.window ≡ some (scheduled, in_window)
    → (report : GenReport) × (build_report config counters ≡ some report)
      × (report.scheduled ≡ some scheduled)
      × (report.offered ≡ counters.offered)
      × (report.missed_slots ≡ counters.missed_slots)
unfolding build_report report_with
build_report-scheduled config rate scheduled in_window counters latency e = (
  report_with config counters (some scheduled, some in_window),
  rw (build_report, report_slots-latency config rate config.mode (scheduled, in_window) latency e)
      refl,
  refl,
  refl,
  refl,
)

-- The counters of a connection whose pacer has ended.
unfoldable pub end_counters : Option (Result Cause (Unit {0}) × Pacer) → Counters
end_counters none = start.counters
end_counters (some (result, s)) = s.counters

-- A clock that does not go back, keeps below the end of u64, and is past the end of the slot grid at the reading
-- `turn`.
pub record IsClock (config : GenConfig) (turn : ℕ) (world : World) : Type 0 where
  pub forward : (m n : ℕ) → m ≤ n → world.clock m ≤ world.clock n
  pub small : (n : ℕ) → world.clock n + 1 < 2 ^ 64
  pub reaches : slot_grid_end_ns config.window ≤ world.clock turn

module _ (config : GenConfig) (rate polls rounds turn : ℕ) (worlds : ℕ → World)
    (latency : config.mode ≡ Mode.latency rate) (valid : validate config ≡ ok tt)
    (in_range : slot_grid_end_ns config.window + config.connections * 1000000000 < 2 ^ 64)
    (clocks : (c : ℕ) → c < config.connections → IsClock config turn (worlds c))
    (waits : turn < polls)
    (enough : scheduled_slots rate config.origin_ns config.window < rounds) where
  abbrev ended : ℕ → Option (Result Cause (Unit {0}) × Pacer)
  ended c = latency_pacer config rate c (worlds c) polls rounds start

  ended-settles :
      (c : ℕ) (o : Option (Result Cause (Unit {0}) × Pacer))
      → Ends config rate c (worlds c) o
      → (end_counters o).offered + (end_counters o).missed_slots
        ≡ own_slot_count c config.connections (window_due_j_count config rate)
  unfolding end_counters
  ended-settles c none h = absurd h
  ended-settles c (some (result, s)) h = h.0

  each-settles :
      (c : ℕ)
      → c < config.connections
      → (end_counters (ended c)).offered + (end_counters (ended c)).missed_slots
        ≡ own_slot_count c config.connections (scheduled_slots rate config.origin_ns config.window)
  unfolding window_due_j_count
  each-settles c mine =
      let (pos, some_conn, fits, ordered) = validate-IsScheduled config rate latency valid in
      let clock = clocks c mine in
      let few =
        own_slot_count-le c config.connections (scheduled_slots rate config.origin_ns config.window)
          some_conn in
      ended-settles c _ (
        latency_pacer-Ends config rate c (worlds c) polls rounds turn
          (record {
            some_rate = pos;
            connected = mine;
            in_range = in_range;
            few = omega arith;
            forward = clock.forward;
            small = clock.small;
          })
          clock.reaches waits (omega arith))

  -- Take a configuration of a latency run that the generator's checks accept, whose slot grid
  -- ends early enough for a second per connection to fit 64 bits behind it, and let every
  -- connection's pacer run with its own clock, PUBACKs and ends of writes, where each clock does
  -- not go back, stays below 2^64 - 1 and is past the end of the grid by some reading, with more
  -- readings for a wait than that and more rounds than scheduled slots. Then a report is built
  -- from what they counted together, and the number of slots that it says were scheduled is
  -- exactly the sum of those that it reports as offered and as missed.
  pub build_report-accounts :
      (report : GenReport) × (build_report config
          (counted config.connections start.counters (λ c. end_counters (ended c)))
        ≡ some report)
      × (report.scheduled ≡ some (report.offered + report.missed_slots))
  build_report-accounts =
      let checked = validate-IsScheduled config rate latency valid in
      let (in_window, e) = slot_counts-scheduled config rate checked in
      let total : ℕ = scheduled_slots rate config.origin_ns config.window in
      let (pos, some_conn, fits, ordered) = checked in
      let parts =
        sum_to-same config.connections _ _ each-settles
        ∙ sum_to-own_slot_count config.connections total some_conn in
      let sums =
        counted-sums config.connections (λ c. end_counters (ended c)) (omega (arith, parts)) in
      let (report, built, scheduled, offered, missed) =
        build_report-scheduled config rate total in_window
          (counted config.connections start.counters (λ c. end_counters (ended c))) latency e in
      (report, built, scheduled ∙ ap some (omega (arith, parts, sums, offered, missed)))
