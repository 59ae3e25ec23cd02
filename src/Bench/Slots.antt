-- ===== src/Bench/Slots.antt =====
-- bench/src/gen.rs: the slots of a latency run. The slots `j` of a run are shared by its connections, and a
-- connection `c` of `n` owns the slots `c + k n`. The products fit into u128.
pub mod Schedule
use uring_mqtt.Common.{ℕ, ◌+◌, ◌-◌, ◌*◌, ◌/◌, ◌^◌, min, max, Option, none, some, ltb, if◌then◌else◌}
use uring_mqtt.Bench.Config.{GenConfig}
use uring_mqtt.Bench.Recorder.{Window, saturating_add}

abbrev pub slot_grid_end_lead_ns : ℕ
slot_grid_end_lead_ns = 10000000

abbrev pub div_ceil : ℕ → ℕ → ℕ
div_ceil a b = (a + (b - 1)) / b

abbrev pub slot_grid_end_ns : Window → ℕ
slot_grid_end_ns window = max (window.end_ns - slot_grid_end_lead_ns) window.start_ns

unfoldable pub scheduled_slots : ℕ → ℕ → Window → ℕ
scheduled_slots rate origin_ns window =
    div_ceil ((slot_grid_end_ns window - origin_ns) * rate) 1000000000

-- The second number is that of the slots in the window. `none` is a panic.
unfoldable pub slot_counts : ℕ → ℕ → Window → Option (ℕ × ℕ)
slot_counts rate origin_ns window =
    let scheduled = div_ceil ((slot_grid_end_ns window - origin_ns) * rate) 1000000000 in
    let start_scheduled = div_ceil ((window.start_ns - origin_ns) * rate) 1000000000 in
    if ltb scheduled (2 ^ 64)
    then (if ltb start_scheduled (2 ^ 64)
        then some (scheduled, scheduled - start_scheduled)
        else none)
    else none

-- `none` is a panic.
unfoldable pub slot_due_ns : ℕ → ℕ → ℕ → ℕ → ℕ → Option ℕ
slot_due_ns conn_id slot_k connections rate origin_ns =
    let offset_ns = (conn_id + slot_k * connections) * 1000000000 / rate in
    if ltb offset_ns (2 ^ 64) then some (saturating_add origin_ns offset_ns) else none

unfoldable pub own_slot_count : ℕ → ℕ → ℕ → ℕ
own_slot_count conn_id connections j_bound = div_ceil (j_bound - conn_id) connections

unfoldable pub window_due_j_count : GenConfig → ℕ → ℕ
unfolding scheduled_slots
window_due_j_count config rate = scheduled_slots rate config.origin_ns config.window

-- `past_due_j_count` of `skip_past_due_missed`, at a reading of the clock.
unfoldable pub past_due_j_count : GenConfig → ℕ → ℕ → ℕ
past_due_j_count config rate now_ns = div_ceil ((now_ns - config.origin_ns + 1) * rate) 1000000000
