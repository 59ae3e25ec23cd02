-- ===== src/Bench/Recorder/Deliveries/Counts.antt =====
-- What one delivery adds to the counts of its shard.
use uring_mqtt.Common.{
  ℕ, ◌+◌, ◌-◌, ◌<◌, ◌^◌, Bool, true, false, ◌&&◌, ◌||◌, ◌≡◌, inl, inr, refl, sym, ap, ◌∙◌, subst,
  arith, ltb, leb, ◌==◌, if◌then◌else◌, Bool-cases,
}
use uring_mqtt.Bench.Payload.{Stamp}
use uring_mqtt.Bench.Recorder.{
  latency_max_ns, sec, saturating_add, Window, contains, set_seq_bit, bump_timeline,
}
use uring_mqtt.Bench.Recorder.Sequences.{AreChunks, was_seen, set_seq_bit-Marks}
use uring_mqtt.Bench.Recorder.Timelines.{sum, bin_at, AreBins, bump_timeline-Bumps}
use uring_mqtt.Bench.Recorder.Deliveries.{
  Histograms, Shard, first_or, count_latency, record_in_shard,
}

-- One if a first delivery passes a test.
abbrev pub first_one : Bool → Bool → ℕ
first_one duplicate test = if duplicate then 0 else if test then 1 else 0

abbrev pub is_anomaly : Stamp → ℕ → Bool
is_anomaly stamp now_ns = ltb now_ns stamp.scheduled_ns

abbrev pub is_over_range : Window → Stamp → ℕ → Bool
is_over_range window stamp now_ns =
    leb stamp.scheduled_ns now_ns
    && (contains window stamp.scheduled_ns && ltb latency_max_ns (now_ns - stamp.scheduled_ns))

module _ (hdr : Histograms) where
  abbrev pub ShardIsValid : Shard hdr → Type 0
  ShardIsValid s = AreChunks s.seen × AreBins s.bins

  -- No count of the shard is full.
  abbrev pub HasRoom : Shard hdr → Type 0
  HasRoom s =
      (s.delivered + 1 < 2 ^ 64)
      × (s.duplicates + 1 < 2 ^ 64)
      × (s.anomalies + 1 < 2 ^ 64)
      × (s.over_range + 1 < 2 ^ 64)
      × (sum s.bins.1 + 1 < 2 ^ 64)

  abbrev pub Adds : Shard hdr → Stamp → ℕ → Window → Shard hdr → Type 0
  Adds s stamp now_ns window s' =
      let duplicate = was_seen s.seen stamp.seq in
      ((j : ℕ) → was_seen s'.seen j ≡ (j == stamp.seq || was_seen s.seen j))
      × (s'.delivered ≡ s.delivered + first_one duplicate true)
      × (s'.duplicates ≡ s.duplicates + (if duplicate then 1 else 0))
      × (s'.anomalies ≡ s.anomalies + first_one duplicate (is_anomaly stamp now_ns))
      × (s'.over_range ≡ s.over_range + first_one duplicate (is_over_range window stamp now_ns))
      × ((t : ℕ) → bin_at s'.bins t ≡ bin_at s.bins t + first_one duplicate (sec now_ns == t))
      × (sum s'.bins.1 ≡ sum s.bins.1 + first_one duplicate true)

  abbrev Latency : Shard hdr → Stamp → ℕ → Window → Shard hdr → Type 0
  Latency s stamp now_ns window s' =
      (s'.seen ≡ s.seen)
      × (s'.delivered ≡ s.delivered)
      × (s'.duplicates ≡ s.duplicates)
      × (s'.bins ≡ s.bins)
      × (s'.anomalies ≡ s.anomalies + first_one false (is_anomaly stamp now_ns))
      × (s'.over_range ≡ s.over_range + first_one false (is_over_range window stamp now_ns))

  count_latency-Latency :
      (s : Shard hdr) (stamp : Stamp) (now_ns : ℕ) (window : Window)
      → s.anomalies + 1 < 2 ^ 64
      → s.over_range + 1 < 2 ^ 64
      → Latency s stamp now_ns window (count_latency hdr s stamp.scheduled_ns now_ns window)
  unfolding count_latency
  count_latency-Latency s stamp now_ns window a o =
      elim (Bool-cases (ltb now_ns stamp.scheduled_ns)) [
        | inl late ↦ rw late (refl, refl, refl, refl, ground arith, ground arith)
        | inr on_time ↦ elim (Bool-cases (contains window stamp.scheduled_ns)) [
          | inr outside ↦ rw (on_time, outside) (refl, refl, refl, refl, ground arith, ground arith)
          | inl inside ↦ elim (Bool-cases (ltb latency_max_ns (now_ns - stamp.scheduled_ns))) [
            | inl over ↦
                rw (on_time, inside, over) (refl, refl, refl, refl, ground arith, ground arith)
            | inr within ↦
                rw (on_time, inside, within) (refl, refl, refl, refl, ground arith, ground arith)
          ]
        ]
      ]

  pub record_in_shard-Adds :
      (s : Shard hdr) (stamp : Stamp) (now_ns thread origin_sec : ℕ) (window : Window)
      → ShardIsValid s
      → HasRoom s
      → ShardIsValid (record_in_shard hdr s stamp now_ns thread (origin_sec, window))
        × Adds s stamp now_ns window
            (record_in_shard hdr s stamp now_ns thread (origin_sec, window))
  unfolding record_in_shard
  record_in_shard-Adds s stamp now_ns thread origin_sec window (chunks, bins) (d, u, a, o, b) =
      let (answer, chunks', marks) = set_seq_bit-Marks s.seen stamp.seq chunks in
      let (bins', each, total) = bump_timeline-Bumps s.bins now_ns origin_sec bins b in
      elim (Bool-cases (was_seen s.seen stamp.seq)) [
        | inl old ↦
            rw (answer ∙ old, old)
              (
                (chunks', bins),
                (
                  marks,
                  omega arith,
                  ground arith,
                  omega arith,
                  omega arith,
                  (λ t. omega arith),
                  omega arith,
                ),
              )
        | inr fresh ↦
            let s1 : Shard hdr = record s {
              seen = (set_seq_bit s.seen stamp.seq).1;
              first_thread = first_or hdr s.first_thread thread;
              delivered = saturating_add s.delivered 1;
              bins = bump_timeline s.bins now_ns origin_sec;
            } in
            let (seen, delivered, duplicates, same_bins, anomalies, over) =
              count_latency-Latency s1 stamp now_ns window a o in
            rw (answer ∙ fresh, fresh)
              (
                (subst AreChunks (sym seen) chunks', subst AreBins (sym same_bins) bins'),
                (
                  (λ j. ap (λ z. was_seen z j) seen ∙ marks j),
                  delivered ∙ (ground arith),
                  duplicates ∙ (omega arith),
                  anomalies,
                  over,
                  (λ t. ap (λ z. bin_at z t) same_bins ∙ each t),
                  ap (λ z. sum z.1) same_bins ∙ total,
                ),
              )
      ]
