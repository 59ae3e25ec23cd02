-- ===== src/Tests/Bench.antt =====
-- A connection of a latency run, the stamps and packet ids that it uses, and the report of its deliveries.
use uring_mqtt.Common.{
  ℕ, ◌+◌, ◌/◌, ◌-◌, ◌*◌, ◌^◌, min, Option, none, some, List, [], ◌∷◌, ◌++◌, map, ◌≡◌, ◌↔◌, refl,
  arith, ltb, if◌then◌else◌, length,
}
use uring_mqtt.Common.Result.{Result, ok}
use uring_mqtt.Bench.Payload.{Stamp, topic, encode, decode}
use uring_mqtt.Bench.Payload.Stamps.{IsStamp, decode_iff}
use uring_mqtt.Bench.Recorder.{Window}
use uring_mqtt.Bench.Recorder.Deliveries.{Histograms, Delivery, new, arm_at}
use uring_mqtt.Bench.Recorder.Log.{replay}
use uring_mqtt.Bench.Recorder.Report.{report}
use uring_mqtt.Bench.Recorder.Report.Counted.{Counted, report-Counted}
use uring_mqtt.Bench.PacketIds
use uring_mqtt.Bench.PacketIds.{PacketIds, allocate, release}
use uring_mqtt.Bench.PacketIds.Set.{Allocates, allocate-Allocates, new-IsValid}
use uring_mqtt.Bench.Analysis.{histogram_total, percentile}
use uring_mqtt.Bench.Analysis.Percentiles.{IsPercentile, percentile-IsPercentile}
use uring_mqtt.Bench.Recorder.Loads.{worker_loads}
use uring_mqtt.Bench.Recorder.Loads.Shares.{Shares, worker_loads-Shares}
use uring_mqtt.Bench.Generator.{validate, GenReport, build_report, counted}
use uring_mqtt.Bench.Generator.Accounts.{IsClock, end_counters, build_report-accounts}
use uring_mqtt.Bench.Wire.{encode_connect, encode_subscribe, encode_puback, disconnect, write_buf}
use uring_mqtt.Bench.Wire.Frames.{IsPacket, client_packets-IsPacket}
use uring_mqtt.Bench.Wire.Batches.{Message, read_batch, read_batch-write_buf}
use uring_mqtt.Bench.Config.{Mode, GenConfig}
use uring_mqtt.Bench.Cpus.{
  split, trim_start, trim_end, split_once, parse_digits, parse, parse_parts, cpu_count,
}
use uring_mqtt.Bench.Cpus.Count.{count_in}
use uring_mqtt.Bench.Cpus.Segments.{named}
use uring_mqtt.Bench.Cpus.Total.{cpu_count-named}
use uring_mqtt.Bench.Slots.{
  scheduled_slots, slot_due_ns, own_slot_count, window_due_j_count, past_due_j_count,
}
use uring_mqtt.Bench.Pacer.{
  monotonic_now_ns, take_slot, skip_past_due_missed, skip_to, acknowledge_all, acknowledge,
  after_release, count_remaining_missed, fetch_add, then_collect, latency_collect_batch, World,
  written, elapsed, Pacer, start,
}
use uring_mqtt.Bench.Pacer.Batches.{IsRun}
use uring_mqtt.Bench.Pacer.Loop.{count_lateness, Cause, latency_pacer}
use uring_mqtt.Bench.Pacer.Loop.Rounds.{Ends, latency_pacer-Ends}

-- One second, from the second second on, for two connections.
abbrev one_second : GenConfig
one_second = record {
  mode = Mode.latency 4;
  qos = 1;
  connections = 2;
  qos1_window = 32;
  drain_grace_ns = 3000000000;
  origin_ns = 0;
  window = record { start_ns = 1000000000; end_ns = 2000000000 };
}

-- A clock that ends to run, PUBACKs from the sixth reading on, and a socket that takes no more after the
-- twelfth.
abbrev quarter_seconds : World
quarter_seconds = record {
  clock = λ n. min (n * 250000000) 3000000000;
  acks = λ n. if◌then◌else◌ (ltb n 6) [] ((64 * (n - 6) + 1) ∷ []);
  writes = λ n. if◌then◌else◌ (ltb n 12) written elapsed;
}

IsRun-one_second : IsRun one_second 4 1 quarter_seconds
unfolding own_slot_count window_due_j_count scheduled_slots
IsRun-one_second = record {
  some_rate = omega arith;
  connected = omega arith;
  in_range = omega arith;
  few = omega arith;
  forward = λ m n le. omega arith;
  small = λ n. omega arith;
}

-- Of the slots 1, 3, 5 and 7 of 8, the last one is missed.
abbrev counts :
    Option (Result Cause (Unit {0}) × Pacer) → Option (Result Cause (Unit {0}) × (ℕ × ℕ × ℕ))
counts none = none
counts (some (result, s)) =
    some (result, (s.counters.offered, s.counters.missed_slots, s.counters.acked))

paced : counts (latency_pacer one_second 4 1 quarter_seconds 20 5 start) ≡ some (ok tt, (3, 1, 3))
unfolding latency_pacer count_lateness monotonic_now_ns take_slot skip_past_due_missed skip_to
    acknowledge_all acknowledge after_release count_remaining_missed fetch_add then_collect
    latency_collect_batch slot_due_ns own_slot_count window_due_j_count scheduled_slots
    past_due_j_count allocate release
paced = refl

latency_pacer-Ends_example :
    Ends one_second 4 1 quarter_seconds (latency_pacer one_second 4 1 quarter_seconds 20 5 start)
unfolding own_slot_count window_due_j_count scheduled_slots
latency_pacer-Ends_example =
    latency_pacer-Ends one_second 4 1 quarter_seconds 20 5 12 IsRun-one_second (omega arith)
      (omega arith) (omega arith)

abbrev a_stamp : Stamp
a_stamp = record { conn_id = 1; seq = 513; scheduled_ns = 2000000000 }

IsStamp-a_stamp : IsStamp a_stamp
IsStamp-a_stamp = (omega arith, omega arith, omega arith)

decode_iff_example :
    (decode (encode a_stamp) ≡ some a_stamp) ↔ (IsStamp a_stamp × (encode a_stamp ≡ encode a_stamp))
unfolding encode
decode_iff_example = decode_iff (encode a_stamp) a_stamp (omega arith)

allocate-Allocates_example : Allocates PacketIds.new (allocate PacketIds.new)
allocate-Allocates_example = allocate-Allocates PacketIds.new new-IsValid

abbrev value_lists : Histograms
value_lists = record {
  Histogram = List ℕ;
  new_histogram = [];
  record_value = λ value h. value ∷ h;
  add = λ h h'. h ++ h';
  buckets = map (λ value. (value, 1));
}

abbrev second_to_fifth : Window
second_to_fifth = record { start_ns = 2000000000; end_ns = 5000000000 }

-- The latest delivery comes first: one on another topic, a repeated one, and a first one.
abbrev three_deliveries : List Delivery
three_deliveries =
    record { on_topic = b'x' ∷ []; payload = encode a_stamp; now_ns = 2300000000; thread = 7 }
    ∷ record { on_topic = topic; payload = encode a_stamp; now_ns = 2200000000; thread = 7 }
    ∷ record { on_topic = topic; payload = encode a_stamp; now_ns = 2100000000; thread = 7 }
    ∷ []

report-Counted_example : Counted value_lists 2 second_to_fifth three_deliveries (
    report value_lists (
      replay value_lists
        ((arm_at value_lists (new value_lists 2) 1000000000 second_to_fifth 1500000000).1)
        three_deliveries))
unfolding arm_at
report-Counted_example =
    report-Counted value_lists 2 1000000000 1500000000 second_to_fifth three_deliveries _ refl
      (omega arith)

abbrev two_messages : List Message
two_messages = (some 1, a_stamp) ∷ (some 65, a_stamp) ∷ []

read_batch-write_buf_example :
    (buf : List ℕ) × (write_buf 1 two_messages ≡ some buf)
    × (read_batch 1 (length two_messages) buf ≡ some two_messages)
read_batch-write_buf_example =
    read_batch-write_buf 1 two_messages (omega arith)
      ((omega arith, IsStamp-a_stamp), ((omega arith, IsStamp-a_stamp), tt))

client_packets-IsPacket_example :
    ((bytes : List ℕ) × (encode_connect (b'p' ∷ b'7' ∷ []) ≡ some bytes) × IsPacket bytes)
    × IsPacket (encode_subscribe 300 1)
    × IsPacket (encode_puback 300)
    × IsPacket disconnect
client_packets-IsPacket_example = client_packets-IsPacket (b'p' ∷ b'7' ∷ []) 300 1 (omega arith)

IsClock-quarter_seconds : IsClock one_second 12 quarter_seconds
IsClock-quarter_seconds = record {
  forward = λ m n le. omega arith;
  small = λ n. omega arith;
  reaches = omega arith;
}

build_report-accounts_example :
    (report : GenReport) × (build_report one_second (
        counted 2 start.counters
          (λ c. end_counters (latency_pacer one_second 4 c quarter_seconds 20 9 start)))
      ≡ some report)
    × (report.scheduled ≡ some (report.offered + report.missed_slots))
unfolding validate scheduled_slots
build_report-accounts_example =
    build_report-accounts one_second 4 20 9 12 (λ c. quarter_seconds) refl refl (omega arith)
      (λ c lt. IsClock-quarter_seconds) (omega arith) (omega arith)

-- The rank of the 99th percentile, rounded up.
abbrev rank_99 : ℕ → ℕ
rank_99 total = (total * 99 + 99) / 100

worker_loads-Shares_example : Shares 2 4 three_deliveries (
    worker_loads value_lists rank_99
      (replay value_lists
        ((arm_at value_lists (new value_lists 2) 1000000000 second_to_fifth 1500000000).1)
        three_deliveries)
      4)
unfolding arm_at
worker_loads-Shares_example =
    worker_loads-Shares value_lists rank_99 2 4 1000000000 1500000000 second_to_fifth
      three_deliveries _ refl (omega arith)

abbrev two_buckets : List (ℕ × ℕ)
two_buckets = (100, 3) ∷ (200, 5) ∷ []

percentile-IsPercentile_example :
    (v : ℕ) × (percentile rank_99 two_buckets ≡ some v) × IsPercentile 8 two_buckets v
unfolding histogram_total
percentile-IsPercentile_example =
    percentile-IsPercentile rank_99 two_buckets 8 refl (omega arith) (omega arith)

-- 0-10:2,3-9:3,1
abbrev cpu_list : List ℕ
cpu_list = 48 ∷ 45 ∷ 49 ∷ 48 ∷ 58 ∷ 50 ∷ 44 ∷ 51 ∷ 45 ∷ 57 ∷ 58 ∷ 51 ∷ 44 ∷ 49 ∷ []

abbrev cpu_elements : List (ℕ × ℕ × ℕ)
cpu_elements = (0, 10, 2) ∷ (3, 9, 3) ∷ (1, 1, 1) ∷ []

cpu_count-named_example :
    cpu_count cpu_list ≡ some (min (count_in (named cpu_elements) 0 11) (2 ^ 32 - 1))
unfolding split trim_start trim_end split_once parse_digits parse parse_parts
cpu_count-named_example =
    cpu_count-named cpu_list cpu_elements 11 refl (omega arith, (omega arith, (omega arith, tt)))
