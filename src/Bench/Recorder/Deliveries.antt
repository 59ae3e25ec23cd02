-- ===== src/Bench/Recorder/Deliveries.antt =====
-- `Recorder`: how it is armed, and what it does with a delivery.
pub mod Counts
pub mod Effects
use uring_mqtt.Common.{
  ℕ, ◌+◌, ◌-◌, ◌/◌, max, Bool, true, false, not, ◌&&◌, Option, none, some, List, [], ◌∷◌, ltb, leb,
  ◌==◌, if◌then◌else◌, length, get_elem?, set, replicate, ◌%◌, ◌^◌,
}
use uring_mqtt.Common.Result.{Result, ok, err}
use uring_mqtt.Bench.Payload.{Stamp, decode, topic}
use uring_mqtt.Bench.Recorder.{
  latency_max_ns, arm_origin_skew_max_ns, window_max_span_ns, sec, saturating_add, Window, contains,
  Seen, set_seq_bit, Bins, bump_timeline,
}

-- What the code uses of hdrhistogram: a new histogram, a value recorded in it, the sum of two, and its
-- buckets.
pub record Histograms : Type 1 where
  pub Histogram : Type 0
  pub new_histogram : Histogram
  pub record_value : ℕ → Histogram → Histogram
  pub add : Histogram → Histogram → Histogram
  pub buckets : Histogram → List (ℕ × ℕ)

-- Why a recorder is not armed.
pub data ArmError : Type 0 where
  far_from_clock window_before_origin empty_window window_too_long already_armed : ArmError

-- One delivery: its topic and payload, the clock, and the thread that it runs on.
pub record Delivery : Type 0 where
  pub on_topic : List ℕ
  pub payload : List ℕ
  pub now_ns : ℕ
  pub thread : ℕ

abbrev pub same_text : List ℕ → List ℕ → Bool
same_text [] [] = true
same_text (a ∷ as') (b ∷ bs) = a == b && same_text as' bs
same_text as' bs = false

abbrev abs_diff : ℕ → ℕ → ℕ
abs_diff a b = if leb a b then b - a else a - b

module _ (hdr : Histograms) where
  open hdr use {Histogram, new_histogram, record_value}

  pub record Shard : Type 0 where
    pub seen : Seen
    pub delivered : ℕ
    pub duplicates : ℕ
    pub over_range : ℕ
    pub anomalies : ℕ
    pub bins : Bins
    pub latency : Option Histogram
    pub first_thread : Option ℕ

  abbrev pub new_shard : Shard
  new_shard = record {
    seen = λ chunk. none;
    delivered = 0;
    duplicates = 0;
    over_range = 0;
    anomalies = 0;
    bins = (none, []);
    latency = none;
    first_thread = none;
  }

  pub record Recorder : Type 0 where
    pub armed : Option (ℕ × Window)
    pub shards : List Shard
    pub foreign : ℕ

  abbrev pub new : ℕ → Recorder
  new connections = record { armed = none; shards = replicate connections new_shard; foreign = 0 }

  -- `OnceLock::set`
  arm_once : Option (ℕ × Window) → Recorder → ℕ × Window → Result ArmError (Unit {0}) × Recorder
  arm_once none r armed = (ok tt, record r { armed = some armed })
  arm_once (some before) r armed = (err already_armed, r)

  unfoldable pub arm_at : Recorder → ℕ → Window → ℕ → Result ArmError (Unit {0}) × Recorder
  unfolding arm_once
  arm_at r origin_ns window now_ns =
      if ltb arm_origin_skew_max_ns (abs_diff origin_ns now_ns)
      then (err far_from_clock, r)
      else if ltb window.start_ns origin_ns
      then (err window_before_origin, r)
      else if leb window.end_ns window.start_ns
      then (err empty_window, r)
      else if ltb window_max_span_ns (window.end_ns - origin_ns)
      then (err window_too_long, r)
      else arm_once r.armed r (sec origin_ns, window)

  -- `get_or_insert_with(new_latency_histogram)`
  abbrev histogram_or_new : Option Histogram → Histogram
  histogram_or_new none = new_histogram
  histogram_or_new (some h) = h

  count_latency : Shard → ℕ → ℕ → Window → Shard
  count_latency s scheduled_ns now_ns window =
      if ltb now_ns scheduled_ns
      then record s { anomalies = saturating_add s.anomalies 1 }
      else if contains window scheduled_ns
      then (let latency = now_ns - scheduled_ns in
          if ltb latency_max_ns latency
          then record s { over_range = saturating_add s.over_range 1 }
          else record s {
            latency = some (record_value (max latency 1) (histogram_or_new s.latency));
          })
      else s

  abbrev pub first_or : Option ℕ → ℕ → Option ℕ
  first_or none thread = some thread
  first_or (some first) thread = some first

  -- The part of `record` behind the lock of the connection's shard.
  unfoldable pub record_in_shard : Shard → Stamp → ℕ → ℕ → ℕ × Window → Shard
  unfolding count_latency
  record_in_shard s stamp now_ns thread (origin_sec, window) =
      let (duplicate, seen) = set_seq_bit s.seen stamp.seq in
      if duplicate
      then record s {
        seen = seen;
        first_thread = first_or s.first_thread thread;
        duplicates = saturating_add s.duplicates 1;
      }
      else count_latency
          (record s {
            seen = seen;
            first_thread = first_or s.first_thread thread;
            delivered = saturating_add s.delivered 1;
            bins = bump_timeline s.bins now_ns origin_sec;
          })
          stamp.scheduled_ns now_ns window

  -- `fetch_add` wraps.
  abbrev pub add_foreign : Recorder → Recorder
  add_foreign r = record r { foreign = (r.foreign + 1) % 2 ^ 64 }

  record_stamp : Recorder → ℕ × Window → Option Stamp → ℕ → ℕ → Recorder
  unfolding record_in_shard
  record_stamp r armed none now_ns thread = add_foreign r
  record_stamp r armed (some stamp) now_ns thread = elim (get_elem? r.shards stamp.conn_id) [
    | none ↦ add_foreign r
    | some s ↦ record r {
      shards = set r.shards stamp.conn_id (record_in_shard s stamp now_ns thread armed);
    }
  ]

  record_armed : Option (ℕ × Window) → Recorder → List ℕ → ℕ → ℕ → Recorder
  unfolding record_stamp
  record_armed none r payload now_ns thread = add_foreign r
  record_armed (some armed) r payload now_ns thread =
      record_stamp r armed (decode payload) now_ns thread

  unfoldable pub record_on_topic : Recorder → Delivery → Recorder
  unfolding record_armed
  record_on_topic r d =
      if same_text d.on_topic topic
      then record_armed r.armed r d.payload d.now_ns d.thread
      else add_foreign r
