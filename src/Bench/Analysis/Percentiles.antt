-- ===== src/Bench/Analysis/Percentiles.antt =====
-- `percentile` by the samples of a histogram.
use uring_mqtt.Common.{
  ℕ, ◌+◌, ◌<◌, ◌≤◌, ◌^◌, max, false, Option, none, some, List, [], ◌∷◌, ◌≡◌, refl, arith, ltb, leb,
  ◌==◌, if◌then◌else◌, inl, inr, leb-cases,
}
use uring_mqtt.Common.Result.{ok}
use uring_mqtt.Bench.Recorder.{saturating_add}
use uring_mqtt.Bench.Analysis.{not_above, total_from, histogram_total, first_reaching, percentile}

-- The samples up to a value, and those below it.
pub samples_to : ℕ → List (ℕ × ℕ) → ℕ
samples_to v [] = 0
samples_to v ((value, count) ∷ histogram) =
    (if leb value v then count else 0) + samples_to v histogram

pub samples_below : ℕ → List (ℕ × ℕ) → ℕ
samples_below v [] = 0
samples_below v ((value, count) ∷ histogram) =
    (if ltb value v then count else 0) + samples_below v histogram

-- What an accepted bucket is.
total_from-bucket :
    (total : ℕ) (previous : Option ℕ) (value count : ℕ) (histogram : List (ℕ × ℕ)) (t : ℕ)
    → total_from total previous ((value, count) ∷ histogram) ≡ ok t
    → (not_above previous value ≡ false)
      × (total + count < 2 ^ 64)
      × (total_from (total + count) (some value) histogram ≡ ok t)
unfolding total_from
total_from-bucket total previous value count histogram t e = ground arith

total_from-nil :
    (total : ℕ) (previous : Option ℕ) (t : ℕ) → total_from total previous [] ≡ ok t → total ≡ t
unfolding total_from
total_from-nil total previous t e = cc

total-le :
    (total : ℕ) (previous : Option ℕ) (histogram : List (ℕ × ℕ)) (t : ℕ)
    → total_from total previous histogram ≡ ok t
    → total ≤ t
total-le total previous [] t e = omega (arith, total_from-nil total previous t e)
total-le total previous ((value, count) ∷ histogram) t e =
    let (_, _, rest) = total_from-bucket total previous value count histogram t e in
    omega (arith, total-le (total + count) (some value) histogram t rest)

none_below :
    (p v total : ℕ) (histogram : List (ℕ × ℕ)) (t : ℕ)
    → total_from total (some p) histogram ≡ ok t
    → v ≤ p
    → samples_below v histogram ≡ 0
unfolding samples_below
none_below p v total [] t e le = refl
none_below p v total ((value, count) ∷ histogram) t e le =
    let (above, _, rest) = total_from-bucket total (some p) value count histogram t e in
    let later : v ≤ value = ground arith in
    let none_later = none_below value v (total + count) histogram t rest later in ground arith

-- The value is one above `previous` where the rank is reached, and not before.
abbrev Reaches : ℕ → ℕ → Option ℕ → List (ℕ × ℕ) → Type 0
Reaches rank cumulative previous histogram =
    (v : ℕ) × (first_reaching rank cumulative histogram ≡ some v)
    × (not_above previous v ≡ false)
    × (rank ≤ cumulative + samples_to v histogram)
    × (cumulative + samples_below v histogram < rank)

not_above-later :
    (previous : Option ℕ) (value v : ℕ)
    → not_above previous value ≡ false
    → value < v
    → not_above previous v ≡ false
not_above-later none value v e lt = refl
not_above-later (some p) value v e lt = ground arith

first_reaching-Reaches :
    (rank cumulative : ℕ) (previous : Option ℕ) (histogram : List (ℕ × ℕ)) (t : ℕ)
    → total_from cumulative previous histogram ≡ ok t
    → cumulative < rank
    → rank ≤ t
    → Reaches rank cumulative previous histogram
unfolding first_reaching samples_to samples_below
first_reaching-Reaches rank cumulative previous [] t e below le =
    let end = total_from-nil cumulative previous t e in absurd (omega arith)
first_reaching-Reaches rank cumulative previous ((value, count) ∷ histogram) t e below le =
    let (above, small, rest) = total_from-bucket cumulative previous value count histogram t e in
    let whole : saturating_add cumulative count ≡ cumulative + count = omega arith in
    elim (leb-cases rank (cumulative + count)) [
      | inl (here, reached) ↦
          let none_before =
            none_below value value (cumulative + count) histogram t rest (omega arith) in
          (value, rw (whole, here) refl, above, ground arith, ground (arith, none_before))
      | inr (later, short) ↦
          let (v, found, past, enough, before) =
            first_reaching-Reaches rank (cumulative + count) (some value) histogram t rest short
              le in
          let more : value < v = ground arith in
          (
            v,
            rw (whole, later) found,
            not_above-later previous value v above more,
            ground arith,
            ground arith,
          )
    ]

-- `v` is the percentile of a rank: at least that many samples are up to it, and fewer are below it.
abbrev pub IsPercentile : ℕ → List (ℕ × ℕ) → ℕ → Type 0
IsPercentile rank histogram v = (rank ≤ samples_to v histogram) × (samples_below v histogram < rank)

-- For a histogram whose buckets `histogram_total` accepts, with a total that is not 0, and a rank
-- of at most the total, the percentile is found: at least as many samples as the rank, or 1, are
-- up to it, and fewer are below it.
pub percentile-IsPercentile :
    (rank_of : ℕ → ℕ) (histogram : List (ℕ × ℕ)) (total : ℕ)
    → histogram_total histogram ≡ ok total
    → 0 < total
    → rank_of total ≤ total
    → (v : ℕ) × (percentile rank_of histogram ≡ some v)
      × IsPercentile (max (rank_of total) 1) histogram v
unfolding histogram_total percentile
percentile-IsPercentile rank_of histogram total e some_samples fits =
    let (v, found, _, enough, before) =
      first_reaching-Reaches (max (rank_of total) 1) 0 none histogram total e (omega arith)
        (omega arith) in
    let not_empty : (total == 0) ≡ false = ground arith in
    (v, rw (e, not_empty) found, (omega arith, omega arith))
