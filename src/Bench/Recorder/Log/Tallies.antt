-- ===== src/Bench/Recorder/Log/Tallies.antt =====
-- The counts of the shards against the deliveries.
use native.Mathlib.Decide.{ℕ_discrete}
use uring_mqtt.Common.{
  ℕ, ◌+◌, ◌<◌, ◌^◌, ◌||◌, none, some, List, [], ◌∷◌, ◌≡◌, inl, inr, refl, sym, ap, ◌∙◌, subst,
  arith, ◌==◌, length, set, All, All-set, All-replicate, get_or-All, get_or-set_self, get_or-set_ne,
  get_or-replicate, length-set, length-replicate,
}
use uring_mqtt.Bench.Payload.{Stamp}
use uring_mqtt.Bench.Recorder.{Window}
use uring_mqtt.Bench.Recorder.Sequences.{was_seen, none-unseen}
use uring_mqtt.Bench.Recorder.Timelines.{sum, bin_at}
use uring_mqtt.Bench.Recorder.Deliveries.{
  Histograms, Shard, new_shard, Recorder, new, Delivery, record_in_shard, record_on_topic,
}
use uring_mqtt.Bench.Recorder.Deliveries.Counts.{ShardIsValid, HasRoom, record_in_shard-Adds}
use uring_mqtt.Bench.Recorder.Deliveries.Effects.{in_shard, record_on_topic-Does}
use uring_mqtt.Bench.Recorder.Log.{
  stamp_of, was_delivered, Measure, tally, tally_foreign, first_delivery, repeated_delivery,
  anomaly, over_range_in, in_second, AtMostOne, tally-le-length, tally_foreign-le-length, replay,
  shard_at,
}
use uring_mqtt.Bench.Recorder.Log.Sums.{sum_of, sum_of-set, at-le-sum_of, sum_of-replicate}

module _ (hdr : Histograms) where
  first-AtMostOne : AtMostOne first_delivery
  first-AtMostOne repeated s now = ground arith

  repeated-AtMostOne : AtMostOne repeated_delivery
  repeated-AtMostOne repeated s now = ground arith

  module _ (n : ℕ) (window : Window) where
    -- Each count, summed over the shards, is the tally of its measure.
    abbrev pub Sums : List Delivery → List (Shard hdr) → Type 0
    Sums log shards =
        (sum_of hdr (λ s. s.delivered) shards ≡ tally first_delivery n log)
        × (sum_of hdr (λ s. s.duplicates) shards ≡ tally repeated_delivery n log)
        × (sum_of hdr (λ s. s.anomalies) shards ≡ tally anomaly n log)
        × (sum_of hdr (λ s. s.over_range) shards ≡ tally (over_range_in window) n log)
        × ((t : ℕ) → sum_of hdr (λ s. bin_at s.bins t) shards ≡ tally (in_second t) n log)
        × (sum_of hdr (λ s. sum s.bins.1) shards ≡ tally first_delivery n log)

    abbrev pub Tallied : ℕ → List Delivery → Recorder hdr → Type 0
    Tallied origin_sec log r =
        (r.armed ≡ some (origin_sec, window))
        × (length r.shards ≡ n)
        × All (ShardIsValid hdr) r.shards
        × ((c q : ℕ) → c < n → was_seen (shard_at hdr r.shards c).seen q ≡ was_delivered n log c q)
        × (r.foreign ≡ tally_foreign n log)
        × Sums log r.shards

    -- One measure, where the shard of the delivery adds it.
    tallies :
        (m : Measure) (f : Shard hdr → ℕ) (log : List Delivery) (d : Delivery) (stamp : Stamp)
        (shards : List (Shard hdr)) (s' : Shard hdr)
        → stamp_of n d ≡ some stamp
        → stamp.conn_id < length shards
        → was_seen (shard_at hdr shards stamp.conn_id).seen stamp.seq
          ≡ was_delivered n log stamp.conn_id stamp.seq
        → f s'
          ≡ f (shard_at hdr shards stamp.conn_id)
            + m (was_seen (shard_at hdr shards stamp.conn_id).seen stamp.seq) stamp d.now_ns
        → sum_of hdr f shards ≡ tally m n log
        → sum_of hdr f (set shards stamp.conn_id s') ≡ tally m n (d ∷ log)
    unfolding tally
    tallies m f log d stamp shards s' e h seen adds before = rw e (
        omega
          (arith, sum_of-set hdr f shards stamp.conn_id s' h, ap (λ b. m b stamp d.now_ns) seen))

    -- Which sequence numbers are known afterwards.
    known :
        (log : List Delivery) (d : Delivery) (stamp : Stamp) (shards : List (Shard hdr))
        (s' : Shard hdr)
        → stamp_of n d ≡ some stamp
        → stamp.conn_id < length shards
        → length shards ≡ n
        → ((j : ℕ)
            → was_seen s'.seen j
              ≡ (j == stamp.seq || was_seen (shard_at hdr shards stamp.conn_id).seen j))
        → ((c q : ℕ) → c < n → was_seen (shard_at hdr shards c).seen q ≡ was_delivered n log c q)
        → (c q : ℕ) → c < n
        → was_seen (shard_at hdr (set shards stamp.conn_id s') c).seen q
          ≡ was_delivered n (d ∷ log) c q
    unfolding was_delivered
    known log d stamp shards s' e h len marks before c q lt = elim (ℕ_discrete stamp.conn_id c) [
      | yes same ↦
          subst
            (λ c.
              was_seen (shard_at hdr (set shards stamp.conn_id s') c).seen q
              ≡ was_delivered n (d ∷ log) c q)
            same
            (ap (λ z. was_seen z.seen q) (get_or-set_self shards stamp.conn_id s' (new_shard hdr) h)
              ∙ (marks q ∙ (rw e (ground (arith, before stamp.conn_id q (omega arith))))))
      | no other ↦
          ap (λ z. was_seen z.seen q)
            (get_or-set_ne shards stamp.conn_id c s' (new_shard hdr) other)
          ∙ (before c q lt ∙ (rw e (ground arith)))
    ]

    pub room :
        (log : List Delivery) (shards : List (Shard hdr)) (c : ℕ)
        → length log + 1 < 2 ^ 64
        → c < length shards
        → Sums log shards
        → HasRoom hdr (shard_at hdr shards c)
    room log shards c h lt (d, u, a, o, b, total) =
        let first = tally-le-length first_delivery n log first-AtMostOne in
        (
          omega (arith, at-le-sum_of hdr (λ s. s.delivered) shards c lt, first),
          omega (
            arith,
            at-le-sum_of hdr (λ s. s.duplicates) shards c lt,
            tally-le-length repeated_delivery n log repeated-AtMostOne,
          ),
          omega (
            arith,
            at-le-sum_of hdr (λ s. s.anomalies) shards c lt,
            tally-le-length anomaly n log (λ r s now. ground arith),
          ),
          omega (
            arith,
            at-le-sum_of hdr (λ s. s.over_range) shards c lt,
            tally-le-length (over_range_in window) n log (λ r s now. ground arith),
          ),
          omega (arith, at-le-sum_of hdr (λ s. sum s.bins.1) shards c lt, first),
        )

    tally-none :
        (m : Measure) (log : List Delivery) (d : Delivery)
        → stamp_of n d ≡ none
        → tally m n log ≡ tally m n (d ∷ log)
    unfolding tally
    tally-none m log d e = rw e (omega arith)

    Sums-none :
        (log : List Delivery) (d : Delivery) (shards : List (Shard hdr))
        → stamp_of n d ≡ none
        → Sums log shards
        → Sums (d ∷ log) shards
    Sums-none log d shards e (f, u, a, o, b, total) = (
      f ∙ tally-none first_delivery log d e,
      u ∙ tally-none repeated_delivery log d e,
      a ∙ tally-none anomaly log d e,
      o ∙ tally-none (over_range_in window) log d e,
      (λ t. b t ∙ tally-none (in_second t) log d e),
      total ∙ tally-none first_delivery log d e,
    )

    takes :
        (origin_sec : ℕ) (log : List Delivery) (r : Recorder hdr) (d : Delivery) (s : Stamp)
        → stamp_of n d ≡ some s
        → s.conn_id < n
        → length log + 1 < 2 ^ 64
        → Tallied origin_sec log r
        → Tallied origin_sec (d ∷ log) (in_shard hdr r (origin_sec, window) s d.now_ns d.thread)
    unfolding tally_foreign
    takes origin_sec log r d s e lt h (a, len, valid, seen, foreign, sums) =
        let within : s.conn_id < length r.shards = omega arith in
        let old = shard_at hdr r.shards s.conn_id in
        let old_valid =
          get_or-All (ShardIsValid hdr) r.shards s.conn_id (new_shard hdr) ((λ c. tt), refl)
            valid in
        let new_one = record_in_shard hdr old s d.now_ns d.thread (origin_sec, window) in
        let (new_valid, (marks, f, u, an, o, b, total)) =
          record_in_shard-Adds hdr old s d.now_ns d.thread origin_sec window old_valid
            (room log r.shards s.conn_id h within sums) in
        let same = seen s.conn_id s.seq lt in
        let (f0, u0, a0, o0, b0, total0) = sums in
        (
          a,
          length-set r.shards s.conn_id new_one ∙ len,
          All-set (ShardIsValid hdr) r.shards s.conn_id new_one new_valid valid,
          known log d s r.shards new_one e within len marks seen,
          rw e (omega arith),
          (
            tallies first_delivery (λ z. z.delivered) log d s r.shards new_one e within same f f0,
            tallies repeated_delivery (λ z. z.duplicates) log d s r.shards new_one e within same u
                u0,
            tallies anomaly (λ z. z.anomalies) log d s r.shards new_one e within same an a0,
            tallies (over_range_in window) (λ z. z.over_range) log d s r.shards new_one e within
                same o o0,
            (λ t.
                tallies (in_second t) (λ z. bin_at z.bins t) log d s r.shards new_one e within same
                  (b t) (b0 t)),
            tallies first_delivery (λ z. sum z.bins.1) log d s r.shards new_one e within same total
                total0,
          ),
        )

    step :
        (origin_sec : ℕ) (log : List Delivery) (r : Recorder hdr) (d : Delivery)
        → length log + 1 < 2 ^ 64
        → Tallied origin_sec log r
        → Tallied origin_sec (d ∷ log) (record_on_topic hdr r d)
    unfolding tally_foreign was_delivered
    step origin_sec log r d h (a, len, valid, seen, foreign, sums) =
        elim (record_on_topic-Does hdr n (origin_sec, window) r d a len) [
          | inl (none_there, e) ↦ subst (Tallied origin_sec (d ∷ log)) (sym e) (
            a,
            len,
            valid,
            (λ c q lt. seen c q lt ∙ (rw none_there (ground arith))),
            rw none_there (omega (arith, tally_foreign-le-length n log)),
            Sums-none log d r.shards none_there sums,
          )
          | inr (s, e, lt, does) ↦
              subst (Tallied origin_sec (d ∷ log)) (sym does)
                (takes origin_sec log r d s e lt h (a, len, valid, seen, foreign, sums))
        ]

    -- A recorder that was just armed.
    abbrev pub armed_recorder : ℕ → Recorder hdr
    armed_recorder origin_sec = record (new hdr n) { armed = some (origin_sec, window) }

    armed-Tallied : (origin_sec : ℕ) → Tallied origin_sec [] (armed_recorder origin_sec)
    unfolding tally tally_foreign was_delivered
    armed-Tallied origin_sec = (
      refl,
      length-replicate {A = Shard hdr} n (new_shard hdr),
      All-replicate (ShardIsValid hdr) n (new_shard hdr) ((λ c. tt), refl),
      (λ c q lt.
          ap (λ z. was_seen z.seen q) (get_or-replicate n c (new_shard hdr)) ∙ none-unseen q),
      refl,
      (
        sum_of-replicate hdr (λ s. s.delivered) n (new_shard hdr) refl,
        sum_of-replicate hdr (λ s. s.duplicates) n (new_shard hdr) refl,
        sum_of-replicate hdr (λ s. s.anomalies) n (new_shard hdr) refl,
        sum_of-replicate hdr (λ s. s.over_range) n (new_shard hdr) refl,
        (λ t. sum_of-replicate hdr (λ s. bin_at s.bins t) n (new_shard hdr) refl),
        sum_of-replicate hdr (λ s. sum s.bins.1) n (new_shard hdr) refl,
      ),
    )

    pub replay-Tallied :
        (origin_sec : ℕ) (log : List Delivery)
        → length log < 2 ^ 64
        → Tallied origin_sec log (replay hdr (armed_recorder origin_sec) log)
    unfolding replay
    replay-Tallied origin_sec [] h = armed-Tallied origin_sec
    replay-Tallied origin_sec (d ∷ log) h =
        step origin_sec log _ d (omega arith) (replay-Tallied origin_sec log (omega arith))
