-- ===== src/Bench/Pacer.antt =====
-- bench/src/gen.rs: `latency_pacer`, which sends the slots of one connection of a latency run when they are
-- due. Between two readings of the clock the reader handles PUBACKs, and a write ends as the socket and
-- the deadline say: all three are the world's. The counters are those of this connection alone.
pub mod Counts
pub mod Batches
pub mod Loop
use uring_mqtt.Common.{
  ℕ, zero, suc, ◌+◌, ◌-◌, ◌^◌, ◌%◌, min, max, Bool, true, false, ◌&&◌, Option, none, some, List, [],
  ◌∷◌, ◌++◌, ltb, leb, ◌==◌, if◌then◌else◌, length,
}
use uring_mqtt.Common.Result.{Result, ok, err}
use uring_mqtt.Bench.Payload.{Stamp}
use uring_mqtt.Bench.PacketIds.{PacketIds, new, allocate, release}
use uring_mqtt.Bench.Recorder.{Window, saturating_add, latency_max_ns}
use uring_mqtt.Bench.Config.{GenConfig}
use uring_mqtt.Bench.Slots.{
  slot_grid_end_ns, slot_due_ns, own_slot_count, window_due_j_count, past_due_j_count,
}

abbrev pub batch_max : ℕ
batch_max = 64

-- How a `write_all` ends under the deadline.
pub data WriteResult : Type 0 where
  written : WriteResult
  write_error : WriteResult
  elapsed : WriteResult

-- At each reading of the clock, by the number of those before: the time, the ids of the PUBACKs that the reader
-- handled since the one before, and how a write that follows it ends.
pub record World : Type 0 where
  pub clock : ℕ → ℕ
  pub acks : ℕ → List ℕ
  pub writes : ℕ → WriteResult

pub record Counters : Type 0 where
  pub offered : ℕ
  pub acked : ℕ
  pub missed_slots : ℕ
  pub connect_errors : ℕ
  pub stalled : ℕ
  pub cycles_in_window : ℕ
  pub protocol_errors : ℕ
  pub lateness_over_range : ℕ
  pub last_write_start_ns : ℕ
  pub lateness : List ℕ

-- An entry of a batch: the packet id of QoS 1, and the due time.
abbrev pub Entry : Type 0
Entry = Option ℕ × ℕ

pub record Pacer : Type 0 where
  pub reads : ℕ
  pub counters : Counters
  pub packet_ids : PacketIds
  pub in_flight : ℕ
  pub next_slot_k : ℕ
  pub next_seq : ℕ
  pub submitted : List (Option ℕ × Stamp)

-- The state at the start of `latency_pacer`.
abbrev pub start : Pacer
start = record {
  reads = 0;
  counters = record {
    offered = 0;
    acked = 0;
    missed_slots = 0;
    connect_errors = 0;
    stalled = 0;
    cycles_in_window = 0;
    protocol_errors = 0;
    lateness_over_range = 0;
    last_write_start_ns = 0;
    lateness = [];
  };
  packet_ids = new;
  in_flight = 0;
  next_slot_k = 0;
  next_seq = 0;
  submitted = [];
}

-- `AtomicU64::fetch_add` and `fetch_sub`, which wrap.
unfoldable pub fetch_add : ℕ → ℕ → ℕ
fetch_add a n = (a + n) % 2 ^ 64

abbrev pub fetch_sub : ℕ → ℕ → ℕ
fetch_sub a n = (a + 2 ^ 64 - n) % 2 ^ 64

-- `u64::try_from(n).unwrap_or(u64::MAX)`
abbrev pub to_u64 : ℕ → ℕ
to_u64 n = min n (2 ^ 64 - 1)

abbrev pub add_missed_slots : ℕ → Pacer → Pacer
add_missed_slots n s = record s {
  counters = record s.counters { missed_slots = fetch_add s.counters.missed_slots n };
}

unfoldable pub after_release : Pacer → Bool × PacketIds → Pacer
after_release s (true, ids) = record s {
  packet_ids = ids;
  in_flight = fetch_sub s.in_flight 1;
  counters = record s.counters { acked = fetch_add s.counters.acked 1 };
}
after_release s (false, ids) = record s {
  packet_ids = ids;
  counters = record s.counters { protocol_errors = fetch_add s.counters.protocol_errors 1 };
}

-- `skip_past_due_missed` once `bound_k` is known.
unfoldable pub skip_to : ℕ → Pacer → Pacer
skip_to bound_k s =
    let skipped = bound_k - s.next_slot_k in
    if skipped == 0
    then s
    else record (add_missed_slots (to_u64 skipped) s) { next_slot_k = to_u64 bound_k }

-- What the reader does with a PUBACK.
unfoldable pub acknowledge : Pacer → ℕ → Pacer
acknowledge s id = after_release s (release s.packet_ids id)

unfoldable pub acknowledge_all : Pacer → List ℕ → Pacer
acknowledge_all s [] = s
acknowledge_all s (id ∷ ids) = acknowledge_all (acknowledge s id) ids

-- A step of `latency_collect_batch`: a slot is taken or not.
pub data Taken : Type 0 where
  stop : Pacer → Taken
  push : Entry → Pacer → Taken

infixl 5 ◌>>=◌
abbrev pub ◌>>=◌ {ℓ κ} : {A : Type ℓ} {B : Type κ} → Option A → (A → Option B) → Option B
none >>= f = none
some a >>= f = f a

-- The rest of the batch after a step.
unfoldable pub then_collect :
    Taken → (Pacer → Option (List Entry × Pacer)) → Option (List Entry × Pacer)
then_collect (stop s) collect = some ([], s)
then_collect (push entry s) collect = do (batch, s) ← collect s; some (entry ∷ batch, s)

module _ (config : GenConfig) (rate conn_id : ℕ) (world : World) where
  abbrev pub grid_end_ns : ℕ
  grid_end_ns = slot_grid_end_ns config.window

  abbrev pub due_at : ℕ → Option ℕ
  due_at slot_k = slot_due_ns conn_id slot_k config.connections rate config.origin_ns

  abbrev pub own_count : ℕ
  own_count = own_slot_count conn_id config.connections (window_due_j_count config rate)

  -- `monotonic_now_ns`, with what the reader did before.
  unfoldable pub monotonic_now_ns : Pacer → ℕ × Pacer
  monotonic_now_ns s =
      let later = record s { reads = suc s.reads } in
      (
        world.clock s.reads,
        if config.qos == 1 then acknowledge_all later (world.acks s.reads) else later,
      )

  -- On fuel; `none` when the clock does not reach the time in as many readings.
  pub pacer_wait : ℕ → ℕ → Pacer → Option Pacer
  pacer_wait zero due_ns s = none
  pacer_wait (suc polls) due_ns s =
      let (now_ns, s) = monotonic_now_ns s in
      elim (leb due_ns now_ns) [ true ↦ some s | false ↦ pacer_wait polls due_ns s ]

  unfoldable pub count_remaining_missed : Pacer → Pacer
  count_remaining_missed s = add_missed_slots (to_u64 (own_count - s.next_slot_k)) s

  unfoldable pub skip_past_due_missed : Pacer → Pacer
  skip_past_due_missed s =
      let (now_ns, s) = monotonic_now_ns s in
      let past_due =
        own_slot_count conn_id config.connections (past_due_j_count config rate now_ns) in
      skip_to (min past_due own_count) s

  abbrev pub push_slot : Entry → Pacer → Taken
  push_slot entry s = push entry (record s { next_slot_k = saturating_add s.next_slot_k 1 })

  pub take_with : Pacer → ℕ → Option ℕ × PacketIds → Taken
  take_with s due (none, ids) = stop (skip_past_due_missed (record s { packet_ids = ids }))
  take_with s due (some id, ids) = push_slot (some id, due) (record s { packet_ids = ids })

  unfoldable pub take_slot : Pacer → ℕ → Taken
  unfolding take_with
  take_slot s due =
      let (now_ns, s') = monotonic_now_ns s in
      if leb grid_end_ns due
      then stop s
      else if ltb now_ns due
      then stop s'
      else if config.qos == 1
      then take_with s' due (allocate s'.packet_ids)
      else push_slot (none, due) s'

  -- The `while` loop, with the room that is left in the batch.
  unfoldable pub latency_collect_batch : ℕ → Pacer → Option (List Entry × Pacer)
  latency_collect_batch zero s = some ([], s)
  latency_collect_batch (suc room) s = due_at s.next_slot_k >>= λ due.
      then_collect (take_slot s due) (λ s. latency_collect_batch room s)
