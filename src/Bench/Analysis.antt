-- ===== src/Bench/Analysis.antt =====
-- bench/src/analysis.rs: the percentiles of a recorded histogram. The product
-- with the quantile, in floating point, is a parameter.
pub mod Percentiles
use uring_mqtt.Common.{
  ℕ, zero, suc, ◌+◌, ◌^◌, max, Bool, false, ◌||◌, Option, none, some, List, [], ◌∷◌, ◌++◌, map, ltb,
  leb, ◌==◌, if◌then◌else◌,
}
use uring_mqtt.Common.Result.{Result, ok, err}
use uring_mqtt.Bench.Recorder.{saturating_add}

abbrev pub latency_bucket_max_ns : ℕ
latency_bucket_max_ns = 60028878847

pub data HistogramError : Type 0 where
  out_of_range not_ascending overflows : HistogramError

-- `previous.is_some_and(|p| value <= p)`
abbrev pub not_above : Option ℕ → ℕ → Bool
not_above none value = false
not_above (some p) value = leb value p

-- The loop of `histogram_total`.
pub total_from : ℕ → Option ℕ → List (ℕ × ℕ) → Result HistogramError ℕ
total_from total previous [] = ok total
total_from total previous ((value, count) ∷ histogram) =
    let rest = total_from (total + count) (some value) histogram in
    if value == 0 || ltb latency_bucket_max_ns value
    then err out_of_range
    else if not_above previous value
    then err not_ascending
    else if leb (2 ^ 64) (total + count)
    then err overflows
    else rest

unfoldable pub histogram_total : List (ℕ × ℕ) → Result HistogramError ℕ
unfolding total_from
histogram_total histogram = total_from 0 none histogram

-- The loop of `percentile`.
pub first_reaching : ℕ → ℕ → List (ℕ × ℕ) → Option ℕ
first_reaching rank cumulative [] = none
first_reaching rank cumulative ((value, count) ∷ histogram) =
    let cumulative = saturating_add cumulative count in
    let rest = first_reaching rank cumulative histogram in
    if leb rank cumulative then some value else rest

abbrev pub percentile_of : (ℕ → ℕ) → List (ℕ × ℕ) → Result HistogramError ℕ → Option ℕ
percentile_of rank_of histogram (err e) = none
percentile_of rank_of histogram (ok total) =
    if total == 0 then none else first_reaching (max (rank_of total) 1) 0 histogram

-- With what the quantile makes of a total.
unfoldable pub percentile : (ℕ → ℕ) → List (ℕ × ℕ) → Option ℕ
unfolding first_reaching
percentile rank_of histogram = percentile_of rank_of histogram (histogram_total histogram)
