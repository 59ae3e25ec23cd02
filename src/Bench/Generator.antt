-- ===== src/Bench/Generator.antt =====
-- bench/src/gen.rs: the checks of a run's configuration, and its report. The counters of a run are what all its
-- connections counted, and the histogram that merges the lateness of the connections is a list of values.
pub mod Partition
pub mod Accounts
use uring_mqtt.Common.{
  ℕ, zero, suc, ◌+◌, ◌-◌, ◌^◌, max, Bool, true, false, not, ◌&&◌, ◌||◌, Option, none, some, List,
  [], ◌∷◌, ◌++◌, ltb, leb, ◌==◌, if◌then◌else◌,
}
use uring_mqtt.Common.Result.{Result, ok, err}
use uring_mqtt.Bench.Recorder.{Window}
use uring_mqtt.Bench.Config.{Mode, GenConfig}
use uring_mqtt.Bench.Slots.{scheduled_slots, slot_counts}
use uring_mqtt.Bench.Pacer.{Counters, fetch_add}

abbrev pub connections_max : ℕ
connections_max = 1213

pub data ConfigError : Type 0 where
  bad_qos bad_connections bad_qos1_window zero_rate too_many_slots : ConfigError
  empty_window window_before_origin long_grace : ConfigError

-- The checks behind that of the mode.
abbrev validate_window : GenConfig → Result ConfigError (Unit {0})
validate_window config =
    if leb config.window.end_ns config.window.start_ns
    then err empty_window
    else if ltb config.window.start_ns config.origin_ns
    then err window_before_origin
    else if leb (2 ^ 64) config.drain_grace_ns
    then err long_grace
    else ok tt

validate_mode : Mode → GenConfig → Result ConfigError (Unit {0})
validate_mode (Mode.latency rate) config =
    if rate == 0
    then err zero_rate
    else if leb (2 ^ 64) (scheduled_slots rate config.origin_ns config.window)
    then err too_many_slots
    else validate_window config
validate_mode mode config = validate_window config

unfoldable pub validate : GenConfig → Result ConfigError (Unit {0})
unfolding validate_mode
validate config =
    if ltb 1 config.qos
    then err bad_qos
    else if config.connections == 0 || ltb connections_max config.connections
    then err bad_connections
    else if config.qos == 1 && (ltb config.qos1_window 1 || ltb (2 ^ 16 - 1) config.qos1_window)
    then err bad_qos1_window
    else validate_mode config.mode config

pub record GenReport : Type 0 where
  pub scheduled : Option ℕ
  pub window_scheduled : Option ℕ
  pub offered : ℕ
  pub acked : Option ℕ
  pub missed_slots : ℕ
  pub connect_errors : ℕ
  pub protocol_errors : ℕ
  pub stalled : ℕ
  pub lateness_over_range : ℕ
  pub last_write_start_ns : Option ℕ
  pub cycles_in_window : Option ℕ
  pub lateness : List ℕ

-- `None` where nothing is scheduled; `none` is a panic.
report_slots : GenConfig → Mode → Option (Option ℕ × Option ℕ)
report_slots config (Mode.latency rate) = elim (slot_counts rate config.origin_ns config.window) [
  | none ↦ none
  | some (scheduled, in_window) ↦ some (some scheduled, some in_window)
]
report_slots config mode = some (none, none)

report_acked : Mode → ℕ → ℕ → Option ℕ
report_acked Mode.connections qos acked = none
report_acked mode qos acked = if qos == 1 then some acked else none

report_cycles : Mode → ℕ → Option ℕ
report_cycles Mode.connections cycles = some cycles
report_cycles mode cycles = none

pub report_with : GenConfig → Counters → Option ℕ × Option ℕ → GenReport
unfolding report_acked report_cycles
report_with config counters (scheduled, window_scheduled) = record {
  scheduled = scheduled;
  window_scheduled = window_scheduled;
  offered = counters.offered;
  acked = report_acked config.mode config.qos counters.acked;
  missed_slots = counters.missed_slots;
  connect_errors = counters.connect_errors;
  protocol_errors = counters.protocol_errors;
  stalled = counters.stalled;
  lateness_over_range = counters.lateness_over_range;
  last_write_start_ns =
      if counters.last_write_start_ns == 0 then none else some counters.last_write_start_ns;
  cycles_in_window = report_cycles config.mode counters.cycles_in_window;
  lateness = counters.lateness;
}

unfoldable pub build_report : GenConfig → Counters → Option GenReport
unfolding report_slots report_with
build_report config counters = elim (report_slots config config.mode) [
  | none ↦ none
  | some slots ↦ some (report_with config counters slots)
]

-- What two connections count together.
abbrev both : Counters → Counters → Counters
both a b = record {
  offered = fetch_add a.offered b.offered;
  acked = fetch_add a.acked b.acked;
  missed_slots = fetch_add a.missed_slots b.missed_slots;
  connect_errors = fetch_add a.connect_errors b.connect_errors;
  stalled = fetch_add a.stalled b.stalled;
  cycles_in_window = fetch_add a.cycles_in_window b.cycles_in_window;
  protocol_errors = fetch_add a.protocol_errors b.protocol_errors;
  lateness_over_range = fetch_add a.lateness_over_range b.lateness_over_range;
  last_write_start_ns = max a.last_write_start_ns b.last_write_start_ns;
  lateness = a.lateness ++ b.lateness;
}

-- `Counters` after a run: what its first `n` connections counted, from what there was at the start.
unfoldable pub counted : ℕ → Counters → (ℕ → Counters) → Counters
counted zero start each = start
counted (suc n) start each = both (counted n start each) (each n)
