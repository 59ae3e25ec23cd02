-- ===== src/Bench/Recorder/Loads/Threads.antt =====
-- The thread and the number of the first deliveries of each connection, by the log and in the shards.
use native.Mathlib.Decide.{ℕ_discrete}
use uring_mqtt.Common.{
  ℕ, zero, suc, ◌+◌, ◌<◌, ◌^◌, Bool, true, false, Option, none, some, List, [], ◌∷◌, ◌≡◌, inl, inr,
  refl, sym, ap, ◌∙◌, subst, arith, ◌==◌, if◌then◌else◌, length, get_or-All, get_or-set_self,
  get_or-set_ne, get_or-replicate, map, set,
}
use uring_mqtt.Bench.Payload.{Stamp}
use uring_mqtt.Bench.Recorder.{Window}
use uring_mqtt.Bench.Recorder.Deliveries.{
  first_or, Histograms, Shard, new_shard, Recorder, Delivery, record_in_shard,
}
use uring_mqtt.Bench.Recorder.Deliveries.Counts.{first_one, ShardIsValid, record_in_shard-Adds}
use uring_mqtt.Bench.Recorder.Deliveries.Effects.{in_shard, record_on_topic-Does}
use uring_mqtt.Bench.Recorder.Log.{stamp_of, was_delivered, Measure, tally, replay, shard_at}
use uring_mqtt.Bench.Recorder.Log.Tallies.{room, armed_recorder, replay-Tallied}

abbrev or_else : Option ℕ → Option ℕ → Option ℕ
or_else none other = other
or_else (some thread) other = some thread

abbrev thread_on : ℕ → Option Stamp → ℕ → Option ℕ
thread_on c none thread = none
thread_on c (some s) thread = if s.conn_id == c then some thread else none

-- The thread of the first delivery of a connection, if it has one. The latest delivery comes first.
unfoldable pub first_thread : ℕ → List Delivery → ℕ → Option ℕ
first_thread n [] c = none
first_thread n (d ∷ log) c = or_else (first_thread n log c) (thread_on c (stamp_of n d) d.thread)

-- A delivery that is the first of its sequence number, of a connection.
abbrev pub first_of : ℕ → Measure
first_of c repeated s now_ns = first_one repeated (s.conn_id == c)

-- The thread and the number of first deliveries of each of `k` connections from `c` on.
abbrev connections_from : ℕ → List Delivery → ℕ → ℕ → List (Option ℕ × ℕ)
connections_from n log c zero = []
connections_from n log c (suc k) =
    (first_thread n log c, tally (first_of c) n log) ∷ connections_from n log (suc c) k

abbrev pub connections_of : ℕ → List Delivery → List (Option ℕ × ℕ)
connections_of n log = connections_from n log 0 n

or_else-none : (o : Option ℕ) → o ≡ or_else o none
or_else-none none = refl
or_else-none (some t) = refl

never : (repeated : Bool) → first_one repeated false ≡ 0
never true = refl
never false = refl

module _ (hdr : Histograms) where
  abbrev pub entry_of : Shard hdr → Option ℕ × ℕ
  entry_of s = (s.first_thread, s.delivered)

  first_or-or_else : (o : Option ℕ) (thread : ℕ) → first_or hdr o thread ≡ or_else o (some thread)
  first_or-or_else none thread = refl
  first_or-or_else (some first) thread = refl

  record_in_shard-first_or :
      (s : Shard hdr) (stamp : Stamp) (now_ns thread : ℕ) (armed : ℕ × Window)
      → (record_in_shard hdr s stamp now_ns thread armed).first_thread
        ≡ first_or hdr s.first_thread thread
  unfolding record_in_shard
  record_in_shard-first_or s stamp now_ns thread (origin_sec, window) = ground arith

  module _ (n : ℕ) (window : Window) (origin_sec : ℕ) where
    abbrev replayed : List Delivery → Recorder hdr
    replayed log = replay hdr (armed_recorder hdr n window origin_sec) log

    -- What a shard is to have of the deliveries of its connection.
    abbrev Has : ℕ → List Delivery → Shard hdr → Type 0
    Has c log s = (s.first_thread ≡ first_thread n log c) × (s.delivered ≡ tally (first_of c) n log)

    other-Has :
        (c : ℕ) (log : List Delivery) (d : Delivery) (stamp : Stamp) (s : Shard hdr)
        → stamp_of n d ≡ some stamp
        → (stamp.conn_id == c) ≡ false
        → Has c log s
        → Has c (d ∷ log) s
    unfolding first_thread tally
    other-Has c log d stamp s e other (thread, delivered) =
        rw (e, other)
          (
            thread ∙ or_else-none (first_thread n log c),
            omega (arith, never (was_delivered n log stamp.conn_id stamp.seq)),
          )

    none-Has :
        (c : ℕ) (log : List Delivery) (d : Delivery) (s : Shard hdr)
        → stamp_of n d ≡ none
        → Has c log s
        → Has c (d ∷ log) s
    unfolding first_thread tally
    none-Has c log d s e (thread, delivered) =
        rw e (thread ∙ or_else-none (first_thread n log c), omega arith)

    own-Has :
        (log : List Delivery) (d : Delivery) (stamp : Stamp) (s s' : Shard hdr)
        → stamp_of n d ≡ some stamp
        → s'.first_thread ≡ first_or hdr s.first_thread d.thread
        → s'.delivered ≡ s.delivered + first_one (was_delivered n log stamp.conn_id stamp.seq) true
        → Has stamp.conn_id log s
        → Has stamp.conn_id (d ∷ log) s'
    unfolding first_thread tally
    own-Has log d stamp s s' e takes adds (thread, delivered) =
        let same : (stamp.conn_id == stamp.conn_id) ≡ true = ground arith in
        rw (e, same)
          (
            takes
                ∙ (ap (λ o. first_or hdr o d.thread) thread
                    ∙ first_or-or_else (first_thread n log stamp.conn_id) d.thread),
            omega arith,
          )

    shard-Has :
        (log : List Delivery) (d : Delivery) (s : Stamp) (c : ℕ)
        → length log + 1 < 2 ^ 64
        → stamp_of n d ≡ some s
        → s.conn_id < n
        → Has s.conn_id log (shard_at hdr (replayed log).shards s.conn_id)
        → Has c log (shard_at hdr (replayed log).shards c)
        → Has c (d ∷ log) (
            shard_at hdr
              (in_shard hdr (replayed log) (origin_sec, window) s d.now_ns d.thread).shards
              c)
    shard-Has log d s c small e within own has =
        let shards = (replayed log).shards in
        let old = shard_at hdr shards s.conn_id in
        let new_one = record_in_shard hdr old s d.now_ns d.thread (origin_sec, window) in
        let (_, len, valid, seen, _, sums) =
          replay-Tallied hdr n window origin_sec log (omega arith) in
        let old_valid =
          get_or-All (ShardIsValid hdr) shards s.conn_id (new_shard hdr) ((λ c. tt), refl) valid in
        let (_, (_, adds, _, _, _, _, _)) =
          record_in_shard-Adds hdr old s d.now_ns d.thread origin_sec window old_valid
            (room hdr n window log shards s.conn_id small (omega arith) sums) in
        elim (ℕ_discrete s.conn_id c) [
          | yes same ↦
              subst (λ c. Has c (d ∷ log) (shard_at hdr (set shards s.conn_id new_one) c)) same
                (subst (Has s.conn_id (d ∷ log))
                  (sym (get_or-set_self shards s.conn_id new_one (new_shard hdr) (omega arith)))
                  (own-Has log d s old new_one e
                    (record_in_shard-first_or old s d.now_ns d.thread (origin_sec, window))
                    (adds
                      ∙ ap (λ b. old.delivered + first_one b true) (seen s.conn_id s.seq within))
                    own))
          | no other ↦
              subst (Has c (d ∷ log))
                (sym (get_or-set_ne shards s.conn_id c new_one (new_shard hdr) other))
                (other-Has c log d s (shard_at hdr shards c) e (ground arith) has)
        ]

    pub replay-Has :
        (log : List Delivery) (c : ℕ)
        → length log < 2 ^ 64
        → c < n
        → Has c log (shard_at hdr (replayed log).shards c)
    unfolding replay first_thread tally
    replay-Has [] c small lt =
        let e = get_or-replicate n c (new_shard hdr) in
        (ap (λ s. s.first_thread) e, ap (λ s. s.delivered) e)
    replay-Has (d ∷ log) c small lt =
        let r : Recorder hdr = replayed log in
        let (armed, len, valid, seen, _, sums) =
          replay-Tallied hdr n window origin_sec log (omega arith) in
        let has = replay-Has log c (omega arith) lt in
        elim (record_on_topic-Does hdr n (origin_sec, window) r d armed len) [
          | inl (none_there, e) ↦
              subst (λ z. Has c (d ∷ log) (shard_at hdr z.shards c)) (sym e)
                (none-Has c log d (shard_at hdr r.shards c) none_there has)
          | inr (s, e, within, does) ↦
              subst (λ z. Has c (d ∷ log) (shard_at hdr z.shards c)) (sym does)
                (shard-Has log d s c (omega arith) e within
                  (replay-Has log s.conn_id (omega arith) within) has)
        ]

    connections-entries :
        (log : List Delivery) (c : ℕ) (shards : List (Shard hdr))
        → ((i : ℕ) → i < length shards → Has (c + i) log (shard_at hdr shards i))
        → map entry_of shards ≡ connections_from n log c (length shards)
    connections-entries log c [] h = refl
    connections-entries log c (s ∷ shards) h =
        let here : c + 0 ≡ c = omega arith in
        let (thread, delivered) = subst (λ z. Has z log s) here (h 0 (omega arith)) in
        let rest = connections-entries log (suc c) shards (λ i lt.
          let next : c + suc i ≡ suc c + i = omega arith in
          subst (λ z. Has z log (shard_at hdr shards i)) next (h (suc i) (omega arith))) in
        rw (thread, delivered, rest) refl

    -- The shards have of the connections what the log has of them.
    pub entries-connections_of :
        (log : List Delivery)
        → length log < 2 ^ 64
        → map entry_of (replayed log).shards ≡ connections_of n log
    entries-connections_of log small =
        let shards = (replayed log).shards in
        let (_, len, _, _, _, _) = replay-Tallied hdr n window origin_sec log small in
        connections-entries log 0 shards (λ i lt.
          let from_0 : 0 + i ≡ i = omega arith in
          subst (λ z. Has z log (shard_at hdr shards i)) (sym from_0)
            (replay-Has log i small (omega arith)))
        ∙ ap (connections_from n log 0) len
