-- ===== src/Bench/Recorder/Loads.antt =====
-- `Recorder::worker_loads`: the connections by the thread of their first delivery. A recorder has fewer than 2^32
-- connections, so their number does not wrap. The rank of the 99th percentile is what `percentile` makes of 0.99.
pub mod Order
pub mod Groups
pub mod Threads
pub mod Shares
use uring_mqtt.Common.{
  ℕ, zero, suc, ◌+◌, ◌-◌, ◌^◌, Bool, ◌&&◌, ◌||◌, Option, none, some, List, [], ◌∷◌, ◌++◌, map, ltb,
  ◌==◌, if◌then◌else◌, length, replicate,
}
use uring_mqtt.Bench.Recorder.{saturating_add}
use uring_mqtt.Bench.Recorder.Deliveries.{Histograms, Shard, Recorder}
use uring_mqtt.Bench.Recorder.Report.{merge_histogram, histogram_buckets}
use uring_mqtt.Bench.Analysis.{percentile}

pub record WorkerLoad : Type 0 where
  pub connections : ℕ
  pub delivered : ℕ
  pub latency_p99_ns : Option ℕ

-- The order of `sort_by`: whether `a` goes before `b`.
abbrev pub goes_before : WorkerLoad → WorkerLoad → Bool
goes_before a b =
    ltb b.connections a.connections
    || (a.connections == b.connections && ltb b.delivered a.delivered)

-- A stable sort.
pub insert_load : WorkerLoad → List WorkerLoad → List WorkerLoad
insert_load load [] = load ∷ []
insert_load load (first ∷ loads) =
    let rest = insert_load load loads in
    if goes_before load first then load ∷ first ∷ loads else first ∷ rest

pub sort_loads : List WorkerLoad → List WorkerLoad → List WorkerLoad
unfolding insert_load
sort_loads sorted [] = sorted
sort_loads sorted (load ∷ loads) = sort_loads (insert_load load sorted) loads

abbrev pub no_load : WorkerLoad
no_load = record { connections = 0; delivered = 0; latency_p99_ns = none }

module _ (hdr : Histograms) where
  open hdr use {Histogram}

  pub record WorkerGroup : Type 0 where
    pub thread : ℕ
    pub connections : ℕ
    pub delivered : ℕ
    pub latency : Option Histogram

  abbrev pub add_shard : Shard hdr → WorkerGroup → WorkerGroup
  add_shard s g = record {
    thread = g.thread;
    connections = g.connections + 1;
    delivered = saturating_add g.delivered s.delivered;
    latency = merge_histogram hdr g.latency s.latency;
  }

  -- The group of the thread, or a new one behind the others, gets the shard.
  pub join_group : ℕ → Shard hdr → List WorkerGroup → List WorkerGroup
  join_group thread s [] =
      add_shard s (record { thread = thread; connections = 0; delivered = 0; latency = none }) ∷ []
  join_group thread s (g ∷ groups) =
      let rest = join_group thread s groups in
      if g.thread == thread then add_shard s g ∷ groups else g ∷ rest

  abbrev pub join_first : Option ℕ → Shard hdr → List WorkerGroup → List WorkerGroup
  join_first none s groups = groups
  join_first (some thread) s groups = join_group thread s groups

  pub group_shards : List WorkerGroup → List (Shard hdr) → List WorkerGroup
  unfolding join_group
  group_shards groups [] = groups
  group_shards groups (s ∷ shards) = group_shards (join_first s.first_thread s groups) shards

  module _ (rank_99 : ℕ → ℕ) where
    abbrev pub p99 : Option Histogram → Option ℕ
    p99 none = none
    p99 (some h) = percentile rank_99 (histogram_buckets hdr (some h))

    abbrev pub load_of : WorkerGroup → WorkerLoad
    load_of g = record {
      connections = g.connections;
      delivered = g.delivered;
      latency_p99_ns = p99 g.latency;
    }

    unfoldable pub worker_loads : Recorder hdr → ℕ → List WorkerLoad
    unfolding group_shards sort_loads
    worker_loads r workers =
        let loads = sort_loads [] (map load_of (group_shards [] r.shards)) in
        loads ++ replicate (workers - length loads) no_load
