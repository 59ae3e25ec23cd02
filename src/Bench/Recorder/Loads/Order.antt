-- ===== src/Bench/Recorder/Loads/Order.antt =====
-- The order of the loads, and that sorting only reorders them.
use mathlib.Core.List.{Perm, perm_middle}
use mathlib.Core.List.Perm
use uring_mqtt.Common.{
  ℕ, ◌<◌, ◌≤◌, List, [], ◌∷◌, ◌++◌, ◌≡◌, ◌⊎◌, inl, inr, arith, true, false, Bool-cases, replicate,
  zero, suc,
}
use uring_mqtt.Bench.Recorder.Loads.{WorkerLoad, goes_before, insert_load, sort_loads, no_load}

-- By connections, then by deliveries, both descending.
abbrev pub IsAhead : WorkerLoad → WorkerLoad → Type 0
IsAhead a b =
    (b.connections < a.connections)
    ⊎ ((a.connections ≡ b.connections) × (b.delivered ≤ a.delivered))

abbrev pub DescendsFrom : WorkerLoad → List WorkerLoad → Type 0
DescendsFrom a [] = Unit
DescendsFrom a (b ∷ loads) = IsAhead a b × DescendsFrom b loads

abbrev pub IsDescending : List WorkerLoad → Type 0
IsDescending [] = Unit
IsDescending (a ∷ loads) = DescendsFrom a loads

before-IsAhead : (a b : WorkerLoad) → goes_before a b ≡ true → IsAhead a b
before-IsAhead a b e = ground arith

after-IsAhead : (a b : WorkerLoad) → goes_before a b ≡ false → IsAhead b a
after-IsAhead a b e = ground arith

insert_load-DescendsFrom :
    (a load : WorkerLoad) (loads : List WorkerLoad)
    → IsAhead a load
    → DescendsFrom a loads
    → DescendsFrom a (insert_load load loads)
unfolding insert_load
insert_load-DescendsFrom a load [] ahead h = (ahead, tt)
insert_load-DescendsFrom a load (b ∷ loads) ahead (ahead', h) =
    elim (Bool-cases (goes_before load b)) [
      | inl before ↦ rw before (ahead, (before-IsAhead load b before, h))
      | inr after ↦
          rw after (ahead', insert_load-DescendsFrom b load loads (after-IsAhead load b after) h)
    ]

insert_load-IsDescending :
    (load : WorkerLoad) (loads : List WorkerLoad)
    → IsDescending loads
    → IsDescending (insert_load load loads)
unfolding insert_load
insert_load-IsDescending load [] h = tt
insert_load-IsDescending load (b ∷ loads) h = elim (Bool-cases (goes_before load b)) [
  | inl before ↦ rw before (before-IsAhead load b before, h)
  | inr after ↦ rw after (insert_load-DescendsFrom b load loads (after-IsAhead load b after) h)
]

pub sort_loads-IsDescending :
    (sorted loads : List WorkerLoad) → IsDescending sorted → IsDescending (sort_loads sorted loads)
unfolding sort_loads
sort_loads-IsDescending sorted [] h = h
sort_loads-IsDescending sorted (load ∷ loads) h =
    sort_loads-IsDescending (insert_load load sorted) loads (insert_load-IsDescending load sorted h)

padded-DescendsFrom : (a : WorkerLoad) (k : ℕ) → DescendsFrom a (replicate k no_load)
padded-DescendsFrom a zero = tt
padded-DescendsFrom a (suc k) = (omega arith, padded-DescendsFrom no_load k)

append-DescendsFrom :
    (a : WorkerLoad) (loads : List WorkerLoad) (k : ℕ)
    → DescendsFrom a loads
    → DescendsFrom a (loads ++ replicate k no_load)
append-DescendsFrom a [] k h = padded-DescendsFrom a k
append-DescendsFrom a (b ∷ loads) k (ahead, h) = (ahead, append-DescendsFrom b loads k h)

pub padded-IsDescending :
    (loads : List WorkerLoad) (k : ℕ)
    → IsDescending loads
    → IsDescending (loads ++ replicate k no_load)
padded-IsDescending [] zero h = tt
padded-IsDescending [] (suc k) h = padded-DescendsFrom no_load k
padded-IsDescending (a ∷ loads) k h = append-DescendsFrom a loads k h

insert_load-perm :
    (load : WorkerLoad) (loads : List WorkerLoad) → Perm (insert_load load loads) (load ∷ loads)
unfolding insert_load
insert_load-perm load [] = Perm.rfl
insert_load-perm load (b ∷ loads) = elim (Bool-cases (goes_before load b)) [
  | inl before ↦ rw before Perm.rfl
  | inr after ↦
      rw after (Perm.trans (Perm.cons b (insert_load-perm load loads)) (Perm.swap load b loads))
]

pub sort_loads-perm :
    (sorted loads : List WorkerLoad) → Perm (sort_loads sorted loads) (loads ++ sorted)
unfolding sort_loads
sort_loads-perm sorted [] = Perm.rfl
sort_loads-perm sorted (load ∷ loads) =
    Perm.trans (sort_loads-perm (insert_load load sorted) loads) (
      Perm.trans (Perm.append_left loads (insert_load-perm load sorted)) (perm_middle loads sorted))
