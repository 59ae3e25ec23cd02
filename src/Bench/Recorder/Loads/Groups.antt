-- ===== src/Bench/Recorder/Loads/Groups.antt =====
-- The groups that `Recorder::worker_loads` makes of the connections, one for each thread.
use mathlib.Core.Path.{fun_ext}
use uring_mqtt.Common.{
  ℕ, ◌+◌, ◌<◌, ◌≤◌, ◌^◌, Bool, true, false, ◌||◌, Option, none, some, List, [], ◌∷◌, map, any, ◌≡◌,
  inl, inr, refl, sym, ap, ◌∙◌, subst, arith, ◌==◌, if◌then◌else◌, All, Bool-cases,
}
use uring_mqtt.Bench.Recorder.Deliveries.{Histograms, Shard}
use uring_mqtt.Bench.Recorder.Loads.{WorkerGroup, add_shard, join_group, join_first, group_shards}
use uring_mqtt.Bench.Recorder.Loads.Threads.{entry_of}

abbrev pub has : ℕ → List ℕ → Bool
has x xs = any (λ y. y == x) xs

abbrev pub IsDistinct : List ℕ → Type 0
IsDistinct [] = Unit
IsDistinct (x ∷ xs) = (has x xs ≡ false) × IsDistinct xs

abbrev pub is_thread : Option ℕ → ℕ → Bool
is_thread none t = false
is_thread (some thread) t = thread == t

abbrev amount : Bool → ℕ → ℕ
amount mine n = if mine then n else 0

-- The connections of a thread, and their first deliveries.
abbrev pub connections_on : List (Option ℕ × ℕ) → ℕ → ℕ
connections_on [] t = 0
connections_on ((first, delivered) ∷ entries) t =
    amount (is_thread first t) 1 + connections_on entries t

abbrev pub delivered_on : List (Option ℕ × ℕ) → ℕ → ℕ
delivered_on [] t = 0
delivered_on ((first, delivered) ∷ entries) t =
    amount (is_thread first t) delivered + delivered_on entries t

module _ (hdr : Histograms) where
  abbrev pub threads_of : List (WorkerGroup hdr) → List ℕ
  threads_of groups = map (λ g. g.thread) groups

  -- A group has the connections and the deliveries that `c` and `d` give its thread.
  abbrev pub Right : (ℕ → ℕ) → (ℕ → ℕ) → WorkerGroup hdr → Type 0
  Right c d g = (g.connections ≡ c g.thread) × (g.delivered ≡ d g.thread)

  -- One group for each thread that has connections, and no other.
  abbrev pub Grouped : (ℕ → ℕ) → (ℕ → ℕ) → List (WorkerGroup hdr) → Type 0
  Grouped c d groups =
      IsDistinct (threads_of groups)
      × All (Right c d) groups
      × ((t : ℕ) → has t (threads_of groups) ≡ false → (c t ≡ 0) × (d t ≡ 0))
      × ((t : ℕ) → has t (threads_of groups) ≡ true → 1 ≤ c t)

  or_swap : (x y z : Bool) → (x || (y || z)) ≡ (y || (x || z))
  or_swap true true z = refl
  or_swap true false z = refl
  or_swap false true z = refl
  or_swap false false z = refl

  has-join_group :
      (thread t : ℕ) (s : Shard hdr) (groups : List (WorkerGroup hdr))
      → has t (threads_of (join_group hdr thread s groups))
        ≡ ((thread == t) || has t (threads_of groups))
  unfolding join_group
  has-join_group thread t s [] = refl
  has-join_group thread t s (g ∷ groups) = elim (Bool-cases (g.thread == thread)) [
    | inl same ↦ rw same (ground arith)
    | inr other ↦
        rw (other, has-join_group thread t s groups)
          (or_swap (g.thread == t) (thread == t) (has t (threads_of groups)))
  ]

  join_group-IsDistinct :
      (thread : ℕ) (s : Shard hdr) (groups : List (WorkerGroup hdr))
      → IsDistinct (threads_of groups)
      → IsDistinct (threads_of (join_group hdr thread s groups))
  unfolding join_group
  join_group-IsDistinct thread s [] h = (refl, tt)
  join_group-IsDistinct thread s (g ∷ groups) (apart, h) = elim (Bool-cases (g.thread == thread)) [
    | inl same ↦ rw same (apart, h)
    | inr other ↦
        let other' : (thread == g.thread) ≡ false = ground arith in
        rw other (
          rw (has-join_group thread g.thread s groups, other', apart) refl,
          join_group-IsDistinct thread s groups h,
        )
  ]

  module _ (c d : ℕ → ℕ) (thread : ℕ) (s : Shard hdr) where
    -- What the shard adds.
    abbrev more_connections : ℕ → ℕ
    more_connections t = c t + amount (thread == t) 1

    abbrev more_delivered : ℕ → ℕ
    more_delivered t = d t + amount (thread == t) s.delivered

    apart-Right :
        (g : WorkerGroup hdr)
        → (g.thread == thread) ≡ false
        → Right c d g
        → Right more_connections more_delivered g
    apart-Right g other (connections, delivered) =
        let other' : (thread == g.thread) ≡ false = ground arith in
        rw other' (omega arith, omega arith)

    rest-Right :
        (groups : List (WorkerGroup hdr))
        → has thread (threads_of groups) ≡ false
        → All (Right c d) groups
        → All (Right more_connections more_delivered) groups
    rest-Right [] none_there h = tt
    rest-Right (g ∷ groups) none_there (right, h) = elim (Bool-cases (g.thread == thread)) [
      | inl same ↦
          let no : true ≡ false =
            subst (λ z. (z || has thread (threads_of groups)) ≡ false) same none_there in
          absurd cc
      | inr other ↦
          let later = subst (λ z. (z || has thread (threads_of groups)) ≡ false) other none_there in
          (apart-Right g other right, rest-Right groups later h)
    ]

    add_shard-Right :
        (g : WorkerGroup hdr)
        → g.thread ≡ thread
        → d thread + s.delivered < 2 ^ 64
        → Right c d g
        → Right more_connections more_delivered (add_shard hdr s g)
    add_shard-Right g e small (connections, delivered) =
        let mine : (thread == g.thread) ≡ true = ground arith in
        let same : d g.thread ≡ d thread = ap d e in rw mine (omega arith, omega arith)

    join_group-Right :
        (groups : List (WorkerGroup hdr))
        → d thread + s.delivered < 2 ^ 64
        → (has thread (threads_of groups) ≡ false → (c thread ≡ 0) × (d thread ≡ 0))
        → IsDistinct (threads_of groups)
        → All (Right c d) groups
        → All (Right more_connections more_delivered) (join_group hdr thread s groups)
    unfolding join_group
    join_group-Right [] small missing distinct h =
        let (no_connections, no_delivered) = missing refl in
        let new_group : WorkerGroup hdr = record {
          thread = thread;
          connections = 0;
          delivered = 0;
          latency = none;
        } in
        (add_shard-Right new_group refl small (sym no_connections, sym no_delivered), tt)
    join_group-Right (g ∷ groups) small missing (apart, distinct) (right, h) =
        elim (Bool-cases (g.thread == thread)) [
          | inl same ↦
              let e : g.thread ≡ thread = ground arith in
              rw same (
                add_shard-Right g e small right,
                rest-Right groups (subst (λ z. has z (threads_of groups) ≡ false) e apart) h,
              )
          | inr other ↦
              let missing' : has thread (threads_of groups) ≡ false
                  → (c thread ≡ 0) × (d thread ≡ 0) =
                λ e. missing (rw other e) in
              rw other
                (apart-Right g other right, join_group-Right groups small missing' distinct h)
        ]

    still_missing :
        (groups : List (WorkerGroup hdr)) (t : ℕ)
        → ((t : ℕ) → has t (threads_of groups) ≡ false → (c t ≡ 0) × (d t ≡ 0))
        → ((thread == t) || has t (threads_of groups)) ≡ false
        → (more_connections t ≡ 0) × (more_delivered t ≡ 0)
    still_missing groups t missing e = elim (Bool-cases (thread == t)) [
      | inl mine ↦
          let no : true ≡ false = subst (λ z. (z || has t (threads_of groups)) ≡ false) mine e in
          absurd cc
      | inr other ↦
          let later = subst (λ z. (z || has t (threads_of groups)) ≡ false) other e in
          let (connections, delivered) = missing t later in rw other (omega arith, omega arith)
    ]

    now_present :
        (groups : List (WorkerGroup hdr)) (t : ℕ)
        → ((t : ℕ) → has t (threads_of groups) ≡ true → 1 ≤ c t)
        → ((thread == t) || has t (threads_of groups)) ≡ true
        → 1 ≤ more_connections t
    now_present groups t present e = elim (Bool-cases (thread == t)) [
      | inl mine ↦ rw mine (omega arith)
      | inr other ↦
          let later = subst (λ z. (z || has t (threads_of groups)) ≡ true) other e in
          let some_there = present t later in rw other (omega arith)
    ]

    join_group-Grouped :
        (groups : List (WorkerGroup hdr))
        → d thread + s.delivered < 2 ^ 64
        → Grouped c d groups
        → Grouped more_connections more_delivered (join_group hdr thread s groups)
    join_group-Grouped groups small (distinct, right, missing, present) = (
      join_group-IsDistinct thread s groups distinct,
      join_group-Right groups small (missing thread) distinct right,
      (λ t e. still_missing groups t missing (sym (has-join_group thread t s groups) ∙ e)),
      (λ t e. now_present groups t present (sym (has-join_group thread t s groups) ∙ e)),
    )

  join_first-Grouped :
      (c d : ℕ → ℕ) (first : Option ℕ) (s : Shard hdr) (groups : List (WorkerGroup hdr))
      → ((t : ℕ) → d t + amount (is_thread first t) s.delivered < 2 ^ 64)
      → Grouped c d groups
      → Grouped
          (λ t. c t + amount (is_thread first t) 1)
          (λ t. d t + amount (is_thread first t) s.delivered)
          (join_first hdr first s groups)
  join_first-Grouped c d none s groups small h =
      subst (λ c'. Grouped c' (λ t. d t + 0) groups) (fun_ext (λ t. omega arith))
        (subst (λ d'. Grouped c d' groups) (fun_ext (λ t. omega arith)) h)
  join_first-Grouped c d (some thread) s groups small h =
      let mine : (thread == thread) ≡ true = ground arith in
      let own = subst (λ b. d thread + amount b s.delivered < 2 ^ 64) mine (small thread) in
      join_group-Grouped c d thread s groups own h

  -- The connections and the deliveries of each thread are added up in its group.
  pub group_shards-Grouped :
      (c d : ℕ → ℕ) (groups : List (WorkerGroup hdr)) (shards : List (Shard hdr))
      → ((t : ℕ) → d t + delivered_on (map (entry_of hdr) shards) t < 2 ^ 64)
      → Grouped c d groups
      → Grouped
          (λ t. c t + connections_on (map (entry_of hdr) shards) t)
          (λ t. d t + delivered_on (map (entry_of hdr) shards) t)
          (group_shards hdr groups shards)
  unfolding group_shards
  group_shards-Grouped c d groups [] small h =
      subst (λ c'. Grouped c' (λ t. d t + 0) groups) (fun_ext (λ t. omega arith))
        (subst (λ d'. Grouped c d' groups) (fun_ext (λ t. omega arith)) h)
  group_shards-Grouped c d groups (s ∷ shards) small h =
      let entries = map (entry_of hdr) shards in
      let c' : ℕ → ℕ = λ t. c t + amount (is_thread s.first_thread t) 1 in
      let d' : ℕ → ℕ = λ t. d t + amount (is_thread s.first_thread t) s.delivered in
      let joined = join_first-Grouped c d s.first_thread s groups (λ t. omega (arith, small t)) h in
      let rest =
        group_shards-Grouped c' d' (join_first hdr s.first_thread s groups) shards
          (λ t. omega (arith, small t)) joined in
      let all = group_shards hdr (join_first hdr s.first_thread s groups) shards in
      subst (λ c''. Grouped c'' (λ t. d t + delivered_on (map (entry_of hdr) (s ∷ shards)) t) all)
        (fun_ext (λ t. omega arith))
        (subst (λ d''. Grouped (λ t. c' t + connections_on entries t) d'' all)
          (fun_ext (λ t. omega arith)) rest)
