-- ===== src/Bench/Slots/Schedule.antt =====
-- The counts of slots against their due times.
use native.Mathlib.Nat.{div-lt_iff_lt-mul}
use uring_mqtt.Common.{
  ℕ, zero, suc, ◌+◌, ◌-◌, ◌*◌, ◌/◌, ◌<◌, ◌≤◌, ◌^◌, some, ◌≡◌, ◌↔◌, inl, inr, arith, le-or-lt,
}
use uring_mqtt.Bench.Recorder.{saturating_add}
use uring_mqtt.Bench.Config.{GenConfig}
use uring_mqtt.Bench.Slots.{
  div_ceil, slot_grid_end_ns, scheduled_slots, slot_due_ns, own_slot_count, window_due_j_count,
  past_due_j_count,
}

-- `k` is below a rounded up quotient exactly when its multiple is below the dividend.
lt-div_ceil : (k x c : ℕ) → 0 < c → (k < div_ceil x c) ↔ (k * c < x)
lt-div_ceil k x c pos =
    let (there, back) = div-lt_iff_lt-mul {k = c} {x = x + (c - 1)} {y = suc k} pos in
    let next : suc k * c ≡ k * c + c = grind arith in
    (
      (λ lt. elim (le-or-lt x (k * c)) [
        | inl less ↦ let q = back (omega (arith, next)) in absurd (omega arith)
        | inr more ↦ more
      ]),
      (λ lt. elim (le-or-lt (div_ceil x c) k) [
        | inl less ↦ let q = there (omega arith) in absurd (omega (arith, next))
        | inr more ↦ more
      ]),
    )

-- A slot `j` is due less than `span` after the origin exactly when it is one of the slots counted in it.
offset_iff :
    (j rate span : ℕ)
    → 0 < rate
    → (j * 1000000000 / rate < span) ↔ (j < div_ceil (span * rate) 1000000000)
offset_iff j rate span pos =
    let (there, back) = div-lt_iff_lt-mul {k = rate} {x = j * 1000000000} {y = span} pos in
    let (over, under) = lt-div_ceil j (span * rate) 1000000000 (omega arith) in
    ((λ lt. under (there lt)), (λ lt. back (over lt)))

-- A connection's slot `k` is one of the first `j_bound` slots exactly when `k` is below its own count.
pub own_iff :
    (conn k connections j_bound : ℕ)
    → 0 < connections
    → (conn + k * connections < j_bound) ↔ (k < own_slot_count conn connections j_bound)
unfolding own_slot_count
own_iff conn k connections j_bound pos =
    let (over, under) = lt-div_ceil k (j_bound - conn) connections pos in
    ((λ lt. under (omega arith)), (λ lt. let q = over lt in omega arith))

-- The due time of a slot, where the code finds one.
pub slot_due_ns-some :
    (conn k connections rate origin due : ℕ)
    → slot_due_ns conn k connections rate origin ≡ some due
    → due ≡ saturating_add origin ((conn + k * connections) * 1000000000 / rate)
unfolding slot_due_ns
slot_due_ns-some conn k connections rate origin due e = ground arith

-- At a positive rate and number of connections, with an end of the slot grid below 2^64, a
-- connection's slot is due before that end exactly when its index is below the connection's count
-- of the slots of the run.
pub due-lt_iff :
    (config : GenConfig) (conn k rate due : ℕ)
    → 0 < rate
    → 0 < config.connections
    → slot_grid_end_ns config.window < 2 ^ 64
    → slot_due_ns conn k config.connections rate config.origin_ns ≡ some due
    → (due < slot_grid_end_ns config.window)
      ↔ (k < own_slot_count conn config.connections (window_due_j_count config rate))
unfolding window_due_j_count scheduled_slots
due-lt_iff config conn k rate due pos some_conn small e =
    let at = slot_due_ns-some conn k config.connections rate config.origin_ns due e in
    let span = slot_grid_end_ns config.window - config.origin_ns in
    let (there, back) = offset_iff (conn + k * config.connections) rate span pos in
    let (over, under) =
      own_iff conn k config.connections (div_ceil (span * rate) 1000000000) some_conn in
    ((λ lt. over (there (omega arith))), (λ lt. let q = back (under lt) in omega arith))

-- At a clock reading from the origin on, a slot of a connection is past due exactly when it is one of those that `skip_past_due_missed` counts.
pub due-le_iff :
    (config : GenConfig) (conn k rate now due : ℕ)
    → 0 < rate
    → 0 < config.connections
    → config.origin_ns ≤ now
    → now + 1 < 2 ^ 64
    → slot_due_ns conn k config.connections rate config.origin_ns ≡ some due
    → (due ≤ now) ↔ (k < own_slot_count conn config.connections (past_due_j_count config rate now))
unfolding past_due_j_count
due-le_iff config conn k rate now due pos some_conn since small e =
    let at = slot_due_ns-some conn k config.connections rate config.origin_ns due e in
    let span = now - config.origin_ns + 1 in
    let (there, back) = offset_iff (conn + k * config.connections) rate span pos in
    let (over, under) =
      own_iff conn k config.connections (div_ceil (span * rate) 1000000000) some_conn in
    ((λ le. over (there (omega arith))), (λ lt. let q = back (under lt) in omega arith))

-- A slot that comes less than `connections` after one of the counted slots, or after none, is due in time to be a number.
offset-small :
    (j rate connections span : ℕ)
    → 0 < rate
    → j * 1000000000 < span * rate + connections * 1000000000
    → j * 1000000000 / rate < span + connections * 1000000000
offset-small j rate connections span pos lt =
    let (there, back) =
      div-lt_iff_lt-mul {k = rate} {x = j * 1000000000} {y = span + connections * 1000000000} pos in
    back (grind (arith, grows))
  where
    grows : connections * 1000000000 ≤ connections * 1000000000 * rate
    grows = grind arith

-- The due time of a connection's next slot is found while its own slots are not passed.
pub slot_due_ns-is_some :
    (config : GenConfig) (conn k rate : ℕ)
    → 0 < rate
    → conn < config.connections
    → slot_grid_end_ns config.window + config.connections * 1000000000 < 2 ^ 64
    → k ≤ own_slot_count conn config.connections (window_due_j_count config rate)
    → (due : ℕ) × (slot_due_ns conn k config.connections rate config.origin_ns ≡ some due)
unfolding slot_due_ns window_due_j_count scheduled_slots
slot_due_ns-is_some config conn zero rate pos own small le =
    let span = slot_grid_end_ns config.window - config.origin_ns in
    let due =
      saturating_add config.origin_ns ((conn + 0 * config.connections) * 1000000000 / rate) in
    let q =
      offset-small (conn + 0 * config.connections) rate config.connections span pos (omega arith) in
    (due, ground arith)
slot_due_ns-is_some config conn (suc k) rate pos own small le =
    let span = slot_grid_end_ns config.window - config.origin_ns in
    let (over, under) =
      own_iff conn k config.connections (div_ceil (span * rate) 1000000000) (omega arith) in
    let (there, back) =
      lt-div_ceil (conn + k * config.connections) (span * rate) 1000000000 (omega arith) in
    let p = there (under (omega arith)) in
    let due =
      saturating_add config.origin_ns ((conn + suc k * config.connections) * 1000000000 / rate) in
    let q =
      offset-small (conn + suc k * config.connections) rate config.connections span pos
        (grind arith) in
    (due, ground arith)
