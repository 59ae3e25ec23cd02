-- ===== src/Bench/Recorder/Report.antt =====
-- `Recorder::report`: the shards summed up, and their timelines merged.
pub mod Merged
pub mod Counted
use uring_mqtt.Common.{
  ℕ, ◌+◌, ◌-◌, ◌^◌, min, Bool, true, false, Option, none, some, List, [], ◌∷◌, leb, ltb,
  if◌then◌else◌, length, set, get_or,
}
use uring_mqtt.Bench.Recorder.{saturating_add, resize, Window}
use uring_mqtt.Bench.Recorder.Deliveries.{Histograms, Shard, Recorder}

pub record Timeline : Type 0 where
  pub origin_sec : ℕ
  pub counts : List ℕ

-- `try_fold` with `checked_add`.
total_loop : ℕ → List ℕ → Option ℕ
total_loop sum [] = some sum
total_loop sum (c ∷ counts) =
    let rest = total_loop (sum + c) counts in if ltb (sum + c) (2 ^ 64) then rest else none

unfoldable pub total : Timeline → Option ℕ
unfolding total_loop
total t = total_loop 0 t.counts

-- `for (i, &c) in counts.iter().enumerate()`, from the index that is given.
pub add_counts : List ℕ → ℕ → List ℕ → List ℕ
add_counts timeline idx [] = timeline
add_counts timeline idx (c ∷ counts) =
    add_counts (set timeline idx (saturating_add (get_or timeline idx 0) c)) (idx + 1) counts

-- The loop over the timelines of the shards, each with its origin.
pub merge : ℕ → List ℕ → List (ℕ × List ℕ) → List ℕ
unfolding add_counts
merge origin_sec timeline [] = timeline
merge origin_sec timeline ((shard_origin, counts) ∷ shards) =
    let offset = shard_origin - origin_sec in
    merge origin_sec (add_counts (resize timeline (offset + length counts)) offset counts) shards

-- `iter().min()`, with the first as its start.
abbrev pub least : ℕ → List (ℕ × List ℕ) → ℕ
least m [] = m
least m ((o, counts) ∷ shards) = least (min m o) shards

abbrev pub earliest : List (ℕ × List ℕ) → ℕ → ℕ
earliest [] armed_origin = armed_origin
earliest ((o, counts) ∷ shards) armed_origin = least o shards

abbrev armed_origin_sec : Option (ℕ × Window) → ℕ
armed_origin_sec none = 0
armed_origin_sec (some (origin, window)) = origin

module _ (hdr : Histograms) where
  open hdr use {Histogram, add, buckets}

  pub record DeliveryReport : Type 0 where
    pub delivered : ℕ
    pub duplicates : ℕ
    pub foreign : ℕ
    pub latency_over_range : ℕ
    pub clock_anomalies : ℕ
    pub timeline : Timeline
    pub latency : List (ℕ × ℕ)

  abbrev with_timeline : Option ℕ × List ℕ → List (ℕ × List ℕ) → List (ℕ × List ℕ)
  with_timeline (none, counts) rest = rest
  with_timeline (some origin, counts) rest = (origin, counts) ∷ rest

  abbrev pub shard_timelines : List (Shard hdr) → List (ℕ × List ℕ)
  shard_timelines [] = []
  shard_timelines (s ∷ shards) = with_timeline s.bins (shard_timelines shards)

  abbrev pub fold_saturating : (Shard hdr → ℕ) → ℕ → List (Shard hdr) → ℕ
  fold_saturating f sum [] = sum
  fold_saturating f sum (s ∷ shards) = fold_saturating f (saturating_add sum (f s)) shards

  -- `merge_histogram`
  abbrev pub merge_histogram : Option Histogram → Option Histogram → Option Histogram
  merge_histogram target none = target
  merge_histogram none (some latency) = some latency
  merge_histogram (some h) (some latency) = some (add h latency)

  abbrev merge_latency : Option Histogram → List (Shard hdr) → Option Histogram
  merge_latency target [] = target
  merge_latency target (s ∷ shards) = merge_latency (merge_histogram target s.latency) shards

  abbrev pub histogram_buckets : Option Histogram → List (ℕ × ℕ)
  histogram_buckets none = []
  histogram_buckets (some h) = buckets h

  unfoldable pub report : Recorder hdr → DeliveryReport
  unfolding merge
  report r =
      let timelines = shard_timelines r.shards in
      let origin_sec = earliest timelines (armed_origin_sec r.armed) in
      record {
        delivered = fold_saturating (λ s. s.delivered) 0 r.shards;
        duplicates = fold_saturating (λ s. s.duplicates) 0 r.shards;
        foreign = r.foreign;
        latency_over_range = fold_saturating (λ s. s.over_range) 0 r.shards;
        clock_anomalies = fold_saturating (λ s. s.anomalies) 0 r.shards;
        timeline = record { origin_sec = origin_sec; counts = merge origin_sec [] timelines };
        latency = histogram_buckets (merge_latency none r.shards);
      }
