-- ===== src/Bench/Recorder/Log/Sums.antt =====
-- A count of the shards, summed.
use uring_mqtt.Common.{
  ℕ, zero, suc, ◌+◌, ◌<◌, ◌≤◌, List, [], ◌∷◌, ◌≡◌, refl, arith, length, set, replicate,
}
use uring_mqtt.Bench.Recorder.Deliveries.{Histograms, Shard}
use uring_mqtt.Bench.Recorder.Log.{shard_at}

module _ (hdr : Histograms) where
  abbrev pub sum_of : (Shard hdr → ℕ) → List (Shard hdr) → ℕ
  sum_of f [] = 0
  sum_of f (s ∷ shards) = f s + sum_of f shards

  pub sum_of-set :
      (f : Shard hdr → ℕ) (shards : List (Shard hdr)) (c : ℕ) (s : Shard hdr)
      → c < length shards
      → sum_of f (set shards c s) + f (shard_at hdr shards c) ≡ sum_of f shards + f s
  sum_of-set f [] c s h = absurd (omega arith)
  sum_of-set f (x ∷ shards) zero s h = omega arith
  sum_of-set f (x ∷ shards) (suc c) s h = omega (arith, sum_of-set f shards c s (omega arith))

  pub at-le-sum_of :
      (f : Shard hdr → ℕ) (shards : List (Shard hdr)) (c : ℕ)
      → c < length shards
      → f (shard_at hdr shards c) ≤ sum_of f shards
  at-le-sum_of f [] c h = absurd (omega arith)
  at-le-sum_of f (x ∷ shards) zero h = omega arith
  at-le-sum_of f (x ∷ shards) (suc c) h = omega (arith, at-le-sum_of f shards c (omega arith))

  pub sum_of-replicate :
      (f : Shard hdr → ℕ) (n : ℕ) (s : Shard hdr) → f s ≡ 0 → sum_of f (replicate n s) ≡ 0
  sum_of-replicate f zero s h = refl
  sum_of-replicate f (suc n) s h = omega (arith, sum_of-replicate f n s h)
