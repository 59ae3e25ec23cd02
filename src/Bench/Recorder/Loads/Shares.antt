-- ===== src/Bench/Recorder/Loads/Shares.antt =====
-- The loads of the workers against what the recorder was given.
use mathlib.Core.List.{Perm, append-nil}
use mathlib.Core.List.Perm
use mathlib.Core.Path.{fun_ext}
use uring_mqtt.Common.{
  ℕ, suc, ◌+◌, ◌-◌, ◌<◌, ◌≤◌, ◌^◌, Bool-cases, zero, Option, List, [], ◌∷◌, ◌++◌, map, ◌≡◌, ◌↔◌,
  inl, inr, refl, sym, ap, ◌∙◌, subst, true, arith, length, replicate, All,
}
use uring_mqtt.Common.Result.{ok}
use uring_mqtt.Bench.Recorder.{sec, Window}
use uring_mqtt.Bench.Recorder.Deliveries.{Histograms, Shard, Recorder, new, Delivery, arm_at}
use uring_mqtt.Bench.Recorder.Log.{first_delivery, tally-le-length, replay}
use uring_mqtt.Bench.Recorder.Log.Sums.{sum_of}
use uring_mqtt.Bench.Recorder.Log.Tallies.{armed_recorder, replay-Tallied}
use uring_mqtt.Bench.Recorder.Report.Counted.{armed_at}
use uring_mqtt.Bench.Recorder.Loads.{
  WorkerLoad, goes_before, insert_load, sort_loads, no_load, WorkerGroup, group_shards, load_of,
  worker_loads,
}
use uring_mqtt.Bench.Recorder.Loads.Groups.{
  has, IsDistinct, is_thread, connections_on, delivered_on, threads_of, Right, Grouped,
  group_shards-Grouped,
}
use uring_mqtt.Bench.Recorder.Loads.Order.{
  IsDescending, sort_loads-IsDescending, padded-IsDescending, sort_loads-perm,
}
use uring_mqtt.Bench.Recorder.Loads.Threads.{connections_of, entry_of, entries-connections_of}

abbrev pub share : WorkerLoad → ℕ × ℕ
share load = (load.connections, load.delivered)

abbrev pub share_of : List (Option ℕ × ℕ) → ℕ → ℕ × ℕ
share_of entries t = (connections_on entries t, delivered_on entries t)

-- What the loads are to be, by the log: those of the threads that had the first delivery of a
-- connection, each once, filled up with empty ones, in descending order.
abbrev pub Shares : ℕ → ℕ → List Delivery → List WorkerLoad → Type 0
Shares n workers log loads =
    let entries = connections_of n log in
    (threads : List ℕ) × IsDistinct threads
    × ((t : ℕ) → (has t threads ≡ true) ↔ (1 ≤ connections_on entries t))
    × Perm (map share loads)
        (map (share_of entries) threads ++ replicate (workers - length threads) (0, 0))
    × IsDescending loads

the_sum : (n : ℕ) → 0 + n ≡ n
the_sum n = omega arith

map-append {ℓ κ} :
    {A : Type ℓ} {B : Type κ} (f : A → B) (xs ys : List A) → map f (xs ++ ys) ≡ map f xs ++ map f ys
map-append f [] ys = refl
map-append f (x ∷ xs) ys = ap (λ l. f x ∷ l) (map-append f xs ys)

map-replicate : (k : ℕ) → map share (replicate k no_load) ≡ replicate k (0, 0)
map-replicate zero = refl
map-replicate (suc k) = ap (λ l. (0, 0) ∷ l) (map-replicate k)

length-insert_load :
    (load : WorkerLoad) (loads : List WorkerLoad)
    → length (insert_load load loads) ≡ suc (length loads)
unfolding insert_load
length-insert_load load [] = refl
length-insert_load load (b ∷ loads) = elim (Bool-cases (goes_before load b)) [
  | inl before ↦ rw before refl
  | inr after ↦ rw after (ap suc (length-insert_load load loads))
]

length-sort_loads :
    (sorted loads : List WorkerLoad)
    → length (sort_loads sorted loads) ≡ length sorted + length loads
unfolding sort_loads
length-sort_loads sorted [] = omega arith
length-sort_loads sorted (load ∷ loads) =
    omega (arith, length-sort_loads (insert_load load sorted) loads, length-insert_load load sorted)

length-map {ℓ κ} :
    {A : Type ℓ} {B : Type κ} (f : A → B) (xs : List A) → length (map f xs) ≡ length xs
length-map f [] = refl
length-map f (x ∷ xs) = ap suc (length-map f xs)

module _ (hdr : Histograms) where
  delivered_on-le :
      (shards : List (Shard hdr)) (t : ℕ)
      → delivered_on (map (entry_of hdr) shards) t ≤ sum_of hdr (λ s. s.delivered) shards
  delivered_on-le [] t = omega arith
  delivered_on-le (s ∷ shards) t = elim (Bool-cases (is_thread s.first_thread t)) [
    | inl mine ↦ rw mine (omega (arith, delivered_on-le shards t))
    | inr other ↦ rw other (omega (arith, delivered_on-le shards t))
  ]

  module _ (rank_99 : ℕ → ℕ) where
    shares-Right :
        (entries : List (Option ℕ × ℕ)) (groups : List (WorkerGroup hdr))
        → All (Right hdr (connections_on entries) (delivered_on entries)) groups
        → map share (map (load_of hdr rank_99) groups)
          ≡ map (share_of entries) (threads_of hdr groups)
    shares-Right entries [] h = refl
    shares-Right entries (g ∷ groups) ((connections, delivered), h) =
        rw (connections, delivered, shares-Right entries groups h) refl

    Grouped-Shares :
        (n workers : ℕ) (log : List Delivery) (r : Recorder hdr)
        → map (entry_of hdr) r.shards ≡ connections_of n log
        → Grouped hdr
            (connections_on (connections_of n log))
            (delivered_on (connections_of n log))
            (group_shards hdr [] r.shards)
        → Shares n workers log (worker_loads hdr rank_99 r workers)
    unfolding worker_loads
    Grouped-Shares n workers log r e (distinct, right, missing, present) =
        let entries = connections_of n log in
        let groups = group_shards hdr [] r.shards in
        let threads = threads_of hdr groups in
        let given = map (load_of hdr rank_99) groups in
        let loads = sort_loads [] given in
        let k : ℕ = workers - length loads in
        let same_length : length loads ≡ length threads = omega (
          arith,
          length-sort_loads [] given,
          length-map (load_of hdr rank_99) groups,
          length-map (λ g. g.thread) groups,
        ) in
        let whole : map share (loads ++ replicate k no_load)
            ≡ map share loads ++ replicate k (0, 0) =
          map-append share loads (replicate k no_load)
          ∙ ap (λ l. map share loads ++ l) (map-replicate k) in
        let sorted : Perm (map share loads) (map (share_of entries) threads) =
          subst (λ xs. Perm (map share loads) xs) (shares-Right entries groups right)
            (Perm.map share
              (subst (λ xs. Perm loads xs) (append-nil given) (sort_loads-perm [] given))) in
        (
          threads,
          distinct,
          (λ t. (
            (λ e. present t e),
            (λ le. elim (Bool-cases (has t threads)) [
              | inl there ↦ there
              | inr away ↦ let (empty, _) = missing t away in absurd (omega arith)
            ]),
          )),
          subst
              (λ xs.
                Perm xs
                  (map (share_of entries) threads ++ replicate (workers - length threads) (0, 0)))
              (sym whole)
              (subst
                (λ j.
                  Perm (map share loads ++ replicate k (0, 0))
                    (map (share_of entries) threads ++ replicate (workers - j) (0, 0)))
                same_length (Perm.append_right (replicate k (0, 0)) sorted)),
          padded-IsDescending loads k (sort_loads-IsDescending [] given tt),
        )

    replayed-Shares :
        (n workers origin_sec : ℕ) (window : Window) (log : List Delivery)
        → length log < 2 ^ 64
        → Shares n workers log (
            worker_loads hdr rank_99
              (replay hdr (armed_recorder hdr n window origin_sec) log)
              workers)
    replayed-Shares n workers origin_sec window log small =
        let r : Recorder hdr = replay hdr (armed_recorder hdr n window origin_sec) log in
        let entries = map (entry_of hdr) r.shards in
        let e = entries-connections_of hdr n window origin_sec log small in
        let (_, _, _, _, _, sums) = replay-Tallied hdr n window origin_sec log small in
        let few = tally-le-length first_delivery n log (λ repeated s now_ns. ground arith) in
        let grouped =
          group_shards-Grouped hdr (λ t. 0) (λ t. 0) [] r.shards
            (λ t. omega (arith, sums.0, delivered_on-le r.shards t))
            (tt, tt, (λ t _. (refl, refl)), (λ t e. absurd cc)) in
        let counted =
          subst
            (λ c. Grouped hdr c (λ t. 0 + delivered_on entries t) (group_shards hdr [] r.shards))
            (fun_ext (λ t. the_sum (connections_on entries t))) grouped in
        let summed =
          subst (λ d. Grouped hdr (connections_on entries) d (group_shards hdr [] r.shards))
            (fun_ext (λ t. the_sum (delivered_on entries t))) counted in
        Grouped-Shares n workers log r e (
          subst
            (λ es. Grouped hdr (connections_on es) (delivered_on es) (group_shards hdr [] r.shards))
            e summed)

    -- For a recorder that was armed and then given any sequence of fewer than 2^64 deliveries, by
    -- that sequence alone: the loads are, in some order, one for each thread that had the first
    -- delivery of a connection, with the number of those connections and of the deliveries of
    -- these that were the first of their sequence number, and as many empty ones as are missing
    -- to the number of workers. They descend by connections, and with equal connections by
    -- deliveries. The latencies of the loads are left open.
    pub worker_loads-Shares :
        (n workers origin_ns now_ns : ℕ) (window : Window) (log : List Delivery) (r : Recorder hdr)
        → arm_at hdr (new hdr n) origin_ns window now_ns ≡ (ok tt, r)
        → length log < 2 ^ 64
        → Shares n workers log (worker_loads hdr rank_99 (replay hdr r log) workers)
    worker_loads-Shares n workers origin_ns now_ns window log r armed small =
        subst (λ z. Shares n workers log (worker_loads hdr rank_99 (replay hdr z log) workers))
          (armed_at hdr n origin_ns now_ns window r armed)
          (replayed-Shares n workers (sec origin_ns) window log small)
