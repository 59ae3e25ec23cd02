-- ===== src/Bench/Recorder/Log.antt =====
-- The deliveries that a recorder was given, and what is to be counted of them.
pub mod Sums
pub mod Tallies
use uring_mqtt.Common.{
  ℕ, ◌+◌, ◌≤◌, Bool, true, false, ◌&&◌, ◌||◌, Option, none, some, List, [], ◌∷◌, ◌≡◌, inl, inr,
  arith, ltb, ◌==◌, if◌then◌else◌, length, get_or, Bool-cases, Option-cases,
}
use uring_mqtt.Bench.Payload.{Stamp, decode, topic}
use uring_mqtt.Bench.Recorder.{sec, Window}
use uring_mqtt.Bench.Recorder.Deliveries.{
  Histograms, Shard, new_shard, Recorder, Delivery, same_text, record_on_topic,
}
use uring_mqtt.Bench.Recorder.Deliveries.Counts.{first_one, is_anomaly, is_over_range}

-- The stamp of a delivery on the benchmark's topic, from one of its connections.
abbrev in_range : ℕ → Option Stamp → Option Stamp
in_range connections none = none
in_range connections (some s) = if ltb s.conn_id connections then some s else none

unfoldable pub stamp_of : ℕ → Delivery → Option Stamp
stamp_of connections d =
    if same_text d.on_topic topic then in_range connections (decode d.payload) else none

abbrev pub has_ids : Option Stamp → ℕ → ℕ → Bool
has_ids none conn_id seq = false
has_ids (some s) conn_id seq = s.conn_id == conn_id && s.seq == seq

-- Whether a sequence number of a connection was delivered. The latest delivery comes first.
unfoldable pub was_delivered : ℕ → List Delivery → ℕ → ℕ → Bool
was_delivered connections [] conn_id seq = false
was_delivered connections (d ∷ log) conn_id seq =
    has_ids (stamp_of connections d) conn_id seq || was_delivered connections log conn_id seq

-- What is counted of a delivery: whether it is a repeated one, its stamp, and its time.
abbrev pub Measure : Type 0
Measure = Bool → Stamp → ℕ → ℕ

abbrev pub measured : Measure → ℕ → List Delivery → Option Stamp → ℕ → ℕ
measured m connections log none now_ns = 0
measured m connections log (some s) now_ns =
    m (was_delivered connections log s.conn_id s.seq) s now_ns

unfoldable pub tally : Measure → ℕ → List Delivery → ℕ
tally m connections [] = 0
tally m connections (d ∷ log) =
    tally m connections log + measured m connections log (stamp_of connections d) d.now_ns

abbrev is_none : Option Stamp → ℕ
is_none none = 1
is_none (some s) = 0

unfoldable pub tally_foreign : ℕ → List Delivery → ℕ
tally_foreign connections [] = 0
tally_foreign connections (d ∷ log) =
    tally_foreign connections log + is_none (stamp_of connections d)

-- The measures: a first delivery, a repeated one, a first one before its time, over the range of the
-- histogram, and in a second.
abbrev pub first_delivery : Measure
first_delivery repeated s now_ns = first_one repeated true

abbrev pub repeated_delivery : Measure
repeated_delivery repeated s now_ns = if repeated then 1 else 0

abbrev pub anomaly : Measure
anomaly repeated s now_ns = first_one repeated (is_anomaly s now_ns)

abbrev pub over_range_in : Window → Measure
over_range_in window repeated s now_ns = first_one repeated (is_over_range window s now_ns)

abbrev pub in_second : ℕ → Measure
in_second t repeated s now_ns = first_one repeated (sec now_ns == t)

abbrev pub AtMostOne : Measure → Type 0
AtMostOne m = (repeated : Bool) (s : Stamp) (now_ns : ℕ) → m repeated s now_ns ≤ 1

measured-le :
    (m : Measure) (n : ℕ) (log : List Delivery) (o : Option Stamp) (now_ns : ℕ)
    → AtMostOne m
    → measured m n log o now_ns ≤ 1
measured-le m n log none now_ns h = omega arith
measured-le m n log (some s) now_ns h = h _ s now_ns

pub tally-le-length :
    (m : Measure) (n : ℕ) (log : List Delivery) → AtMostOne m → tally m n log ≤ length log
unfolding tally
tally-le-length m n [] h = omega arith
tally-le-length m n (d ∷ log) h =
    omega (arith, tally-le-length m n log h, measured-le m n log (stamp_of n d) d.now_ns h)

pub tally_foreign-le-length : (n : ℕ) (log : List Delivery) → tally_foreign n log ≤ length log
unfolding tally_foreign
tally_foreign-le-length n [] = omega arith
tally_foreign-le-length n (d ∷ log) = elim (Option-cases (stamp_of n d)) [
  | inl e ↦ rw e (omega (arith, tally_foreign-le-length n log))
  | inr (s, e) ↦ rw e (omega (arith, tally_foreign-le-length n log))
]

-- Every delivery is a first one, a repeated one, or foreign.
pub tallies_cover :
    (n : ℕ) (log : List Delivery)
    → tally first_delivery n log + tally repeated_delivery n log + tally_foreign n log ≡ length log
unfolding tally tally_foreign
tallies_cover n [] = omega arith
tallies_cover n (d ∷ log) = elim (Option-cases (stamp_of n d)) [
  | inl e ↦ rw e (omega (arith, tallies_cover n log))
  | inr (s, e) ↦ rw e (elim (Bool-cases (was_delivered n log s.conn_id s.seq)) [
    | inl old ↦ rw old (omega (arith, tallies_cover n log))
    | inr fresh ↦ rw fresh (omega (arith, tallies_cover n log))
  ])
]

module _ (hdr : Histograms) where
  unfoldable pub replay : Recorder hdr → List Delivery → Recorder hdr
  replay r [] = r
  replay r (d ∷ log) = record_on_topic hdr (replay r log) d

  abbrev pub shard_at : List (Shard hdr) → ℕ → Shard hdr
  shard_at shards c = get_or shards c (new_shard hdr)
