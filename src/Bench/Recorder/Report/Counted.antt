-- ===== src/Bench/Recorder/Report/Counted.antt =====
-- The report of an armed recorder against the deliveries that it was given.
use uring_mqtt.Common.{
  ℕ, ◌+◌, ◌<◌, ◌≤◌, ◌^◌, Bool, none, some, List, [], ◌∷◌, ◌≡◌, refl, ap, ◌∙◌, subst, arith, length,
  All,
}
use uring_mqtt.Common.Result.{ok}
use uring_mqtt.Bench.Payload.{Stamp}
use uring_mqtt.Bench.Recorder.{saturating_add, sec, Window, Bins}
use uring_mqtt.Bench.Recorder.Timelines.{sum, bin_at, AreBins}
use uring_mqtt.Bench.Recorder.Deliveries.{Histograms, Shard, Recorder, new, Delivery, arm_at}
use uring_mqtt.Bench.Recorder.Deliveries.Counts.{ShardIsValid}
use uring_mqtt.Bench.Recorder.Log.{
  tally, tally_foreign, first_delivery, repeated_delivery, anomaly, over_range_in, in_second,
  tally-le-length, replay, tallies_cover, AtMostOne,
}
use uring_mqtt.Bench.Recorder.Log.Sums.{sum_of}
use uring_mqtt.Bench.Recorder.Log.Tallies.{Tallied, armed_recorder, replay-Tallied}
use uring_mqtt.Bench.Recorder.Report.{
  total, DeliveryReport, shard_timelines, with_timeline, fold_saturating, report, armed_origin_sec,
}
use uring_mqtt.Bench.Recorder.Report.Merged.{totals, bins_of, merge-earliest, total_lem}

module _ (hdr : Histograms) where
  fold_saturating-sum_of :
      (f : Shard hdr → ℕ) (acc : ℕ) (shards : List (Shard hdr))
      → acc + sum_of hdr f shards < 2 ^ 64
      → fold_saturating hdr f acc shards ≡ acc + sum_of hdr f shards
  fold_saturating-sum_of f acc [] h = omega arith
  fold_saturating-sum_of f acc (s ∷ shards) h =
      let small : saturating_add acc (f s) ≡ acc + f s = omega arith in
      omega (arith, fold_saturating-sum_of f (saturating_add acc (f s)) shards (omega arith))

  with_timeline_lem :
      (b : Bins) (rest : List (ℕ × List ℕ))
      → AreBins b
      → ((t : ℕ) → bins_of (with_timeline hdr b rest) t ≡ bin_at b t + bins_of rest t)
        × (totals (with_timeline hdr b rest) ≡ sum b.1 + totals rest)
  with_timeline_lem (none, counts) rest e = ((λ t. omega arith), rw e (omega arith))
  with_timeline_lem (some o, counts) rest e = ((λ t. omega arith), omega arith)

  shard_timelines-sum_of :
      (shards : List (Shard hdr))
      → All (ShardIsValid hdr) shards
      → ((t : ℕ)
          → bins_of (shard_timelines hdr shards) t ≡ sum_of hdr (λ s. bin_at s.bins t) shards)
        × (totals (shard_timelines hdr shards) ≡ sum_of hdr (λ s. sum s.bins.1) shards)
  shard_timelines-sum_of [] h = ((λ t. refl), refl)
  shard_timelines-sum_of (s ∷ shards) ((chunks, bins), h) =
      let (each, all) = shard_timelines-sum_of shards h in
      let (one, one_all) = with_timeline_lem s.bins (shard_timelines hdr shards) bins in
      ((λ t. omega (arith, one t, each t)), omega arith)

  -- What a report is to say.
  abbrev pub Counted : ℕ → Window → List Delivery → DeliveryReport hdr → Type 0
  Counted n window log p =
      (p.delivered ≡ tally first_delivery n log)
      × (p.duplicates ≡ tally repeated_delivery n log)
      × (p.foreign ≡ tally_foreign n log)
      × (p.delivered + p.duplicates + p.foreign ≡ length log)
      × (p.clock_anomalies ≡ tally anomaly n log)
      × (p.latency_over_range ≡ tally (over_range_in window) n log)
      × ((t : ℕ)
          → bin_at (some p.timeline.origin_sec, p.timeline.counts) t ≡ tally (in_second t) n log)
      × (total p.timeline ≡ some p.delivered)

  tallied_report :
      (n origin_sec : ℕ) (window : Window) (log : List Delivery) (r : Recorder hdr)
      → length log < 2 ^ 64
      → Tallied hdr n window origin_sec log r
      → Counted n window log (report hdr r)
  unfolding report
  tallied_report n origin_sec window log r h (a, len, valid, seen, foreign, (d, u, an, o, b, all)) =
      let bounded = λ (m : Bool → Stamp → ℕ → ℕ) (one : AtMostOne m). tally-le-length m n log one in
      let fold =
        λ (f : Shard hdr → ℕ) (v : ℕ) (e : sum_of hdr f r.shards ≡ v) (le : v ≤ length log).
          let folded : fold_saturating hdr f 0 r.shards ≡ v =
            omega (arith, fold_saturating-sum_of f 0 r.shards (omega arith)) in
          folded in
      let (each, whole) = shard_timelines-sum_of r.shards valid in
      let first_le = tally-le-length first_delivery n log (λ r s now. ground arith) in
      let (bins, merged) =
        merge-earliest (shard_timelines hdr r.shards) (armed_origin_sec r.armed) (omega arith) in
      let delivered = fold (λ s. s.delivered) _ d first_le in
      let duplicates =
        fold (λ s. s.duplicates) _ u
          (tally-le-length repeated_delivery n log (λ r s now. ground arith)) in
      (
        delivered,
        duplicates,
        foreign,
        omega (arith, tallies_cover n log),
        fold (λ s. s.anomalies) _ an (tally-le-length anomaly n log (λ r s now. ground arith)),
        fold (λ s. s.over_range) _ o
            (tally-le-length (over_range_in window) n log (λ r s now. ground arith)),
        (λ t. bins t ∙ (each t ∙ b t)),
        total_lem _ (omega arith) ∙ ap some (omega arith),
      )

  pub armed_at :
      (n origin_ns now_ns : ℕ) (window : Window) (r : Recorder hdr)
      → arm_at hdr (new hdr n) origin_ns window now_ns ≡ (ok tt, r)
      → armed_recorder hdr n window (sec origin_ns) ≡ r
  unfolding arm_at
  armed_at n origin_ns now_ns window r h = ground arith

  -- Take a recorder that was armed, and then any sequence of fewer than 2^64 deliveries. Its
  -- report counts, by the stamps of the deliveries alone: those that were first with their
  -- connection and sequence number, the repeated ones, and those that are on another topic or
  -- have no stamp of a connection of the run, where every delivery is one of the three; and, of
  -- the first ones, those before their scheduled time, those over the range of the histogram, and
  -- those of every second. The total of the timeline is the number of first deliveries.
  pub report-Counted :
      (n origin_ns now_ns : ℕ) (window : Window) (log : List Delivery) (r : Recorder hdr)
      → arm_at hdr (new hdr n) origin_ns window now_ns ≡ (ok tt, r)
      → length log < 2 ^ 64
      → Counted n window log (report hdr (replay hdr r log))
  report-Counted n origin_ns now_ns window log r armed h =
      subst (λ z. Counted n window log (report hdr (replay hdr z log)))
        (armed_at n origin_ns now_ns window r armed)
        (tallied_report n (sec origin_ns) window log _ h
          (replay-Tallied hdr n window (sec origin_ns) log h))
