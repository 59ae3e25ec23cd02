-- ===== src/Bench/Recorder.antt =====
-- bench/src/record.rs: what the benchmark counts of its deliveries, one shard for each connection.
-- Each call locks one shard, or adds to the foreign count, so concurrent calls are a sequence. An
-- index of 64 bits fits into usize, and the histogram of hdrhistogram is a parameter.
pub mod Sequences
pub mod Timelines
pub mod Loads
pub mod Log
pub mod Report
pub mod Deliveries
use uring_mqtt.Common.{
  ℕ, ◌+◌, ◌-◌, ◌*◌, ◌/◌, ◌%◌, ◌^◌, min, max, bit_and, bit_or, Bool, true, false, not, ◌&&◌, Option,
  none, some, List, [], ◌∷◌, ◌++◌, map, ltb, leb, ◌==◌, if◌then◌else◌, length, get_elem?, get_or,
  set, replicate, take, drop,
}
use uring_mqtt.Common.Result.{Result, ok, err}
use uring_mqtt.Bench.Payload.{Stamp, decode, topic}

abbrev pub latency_max_ns : ℕ
latency_max_ns = 60000000000

abbrev pub arm_origin_skew_max_ns : ℕ
arm_origin_skew_max_ns = 60000000000

abbrev pub window_max_span_ns : ℕ
window_max_span_ns = 3600000000000

abbrev pub seq_chunk_words : ℕ
seq_chunk_words = 8

abbrev pub seq_chunk_seqs : ℕ
seq_chunk_seqs = seq_chunk_words * 64

abbrev pub sec : ℕ → ℕ
sec ns = ns / 1000000000

-- `u64::saturating_add`
abbrev pub saturating_add : ℕ → ℕ → ℕ
saturating_add a b = min (a + b) (2 ^ 64 - 1)

pub record Window : Type 0 where
  pub start_ns : ℕ
  pub end_ns : ℕ

abbrev pub contains : Window → ℕ → Bool
contains w ns = leb w.start_ns ns && ltb ns w.end_ns

-- The chunks of a connection's sequence numbers.
abbrev pub Seen : Type 0
Seen = ℕ → Option (List ℕ)

-- `entry(chunk).or_insert([0; SEQ_CHUNK_WORDS])`
abbrev pub chunk_words : Option (List ℕ) → List ℕ
chunk_words none = replicate seq_chunk_words 0
chunk_words (some words) = words

abbrev pub insert_chunk : Seen → ℕ → List ℕ → Seen
insert_chunk seen chunk words = λ c. if c == chunk then some words else seen c

unfoldable pub set_seq_bit : Seen → ℕ → Bool × Seen
set_seq_bit seen seq =
    let chunk = seq / seq_chunk_seqs in
    let offset = seq % seq_chunk_seqs in
    let words = chunk_words (seen chunk) in
    let word = get_or words (offset / 64) 0 in
    let mask = 2 ^ (offset % 64) in
    if bit_and word mask == 0
    then (false, insert_chunk seen chunk (set words (offset / 64) (bit_or word mask)))
    else (true, insert_chunk seen chunk words)

-- A timeline of a shard: its origin, and a count for each second from it.
abbrev pub Bins : Type 0
Bins = Option ℕ × List ℕ

abbrev unwrap_or : Option ℕ → ℕ → ℕ
unwrap_or none d = d
unwrap_or (some a) d = a

-- `if self.timeline.len() <= idx { self.timeline.resize(idx + 1, 0) }`
abbrev pub resize : List ℕ → ℕ → List ℕ
resize counts size = counts ++ replicate (size - length counts) 0

-- Adds to one bin.
abbrev pub bump : List ℕ → ℕ → List ℕ
bump counts idx =
    let counts = resize counts (idx + 1) in set counts idx (saturating_add (get_or counts idx 0) 1)

unfoldable pub bump_timeline : Bins → ℕ → ℕ → Bins
bump_timeline (origin, timeline) now_ns origin_sec =
    let now_sec = sec now_ns in
    let base = unwrap_or origin origin_sec in
    if ltb now_sec base
    then (some now_sec, bump (replicate (base - now_sec) 0 ++ timeline) 0)
    else (some base, bump timeline (now_sec - base))
