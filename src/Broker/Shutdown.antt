-- ===== src/Broker/Shutdown.antt =====
-- `ShutdownHandle` and `WorkerExitGuard`: the ends of the socket pairs whose closing tells the workers
-- to stop, shared by every clone of the handle behind one lock, and a guard for each worker. An end
-- stands for the number of its worker.
use uring_mqtt.Common.{
  ℕ, Bool, true, false, Option, none, some, List, [], ◌++◌, ◌≡◌, ◌⊎◌, inl, inr, refl, if◌then◌else◌,
  get_elem?, set, replicate, All, All-set, All-replicate,
}

-- The shared ends, and the ends that were closed, in order.
pub record Signal : Type 0 where
  pub signal_ends : Option (List ℕ)
  pub closed : List ℕ

unfoldable pub take_signal_ends : Signal → Option (List ℕ) × Signal
take_signal_ends s = (s.signal_ends, record s { signal_ends = none })

-- `drop(taken)` closes the ends.
unfoldable pub drop_ends : Option (List ℕ) → Signal → Signal
drop_ends none s = s
drop_ends (some ends) s = record s { closed = s.closed ++ ends }

unfoldable pub shutdown : Signal → Signal
unfolding take_signal_ends drop_ends
shutdown s = let (taken, s') = take_signal_ends s in drop_ends taken s'

-- The guard's drop, on return and on unwind.
unfoldable pub exit_guard_drop : Bool → Signal → Signal
unfolding take_signal_ends drop_ends
exit_guard_drop post_go s =
    if post_go then (let (taken, s') = take_signal_ends s in drop_ends taken s') else s

-- A worker thread: before the go barrier, behind it, and ended on either side of it.
pub data Thread : Type 0 where
  starting armed left_early ended : Thread

pub record Broker : Type 0 where
  pub signal : Signal
  pub threads : List Thread

-- What can happen, in any order: someone asks for the shutdown, a worker passes the barrier, a worker
-- ends, by a return or a panic, on either side of it.
pub data Step : Broker → Broker → Type 0 where
  asks : (b : Broker) → Step b (record b { signal = shutdown b.signal })
  arms :
      (b : Broker) (i : ℕ)
      → get_elem? b.threads i ≡ some starting
      → Step b (record b { threads = set b.threads i armed })
  leaves :
      (b : Broker) (i : ℕ)
      → get_elem? b.threads i ≡ some starting
      → Step b
          (record { signal = exit_guard_drop false b.signal; threads = set b.threads i left_early })
  exits :
      (b : Broker) (i : ℕ)
      → get_elem? b.threads i ≡ some armed
      → Step b (record { signal = exit_guard_drop true b.signal; threads = set b.threads i ended })

pub data Reaches (start : Broker) : Broker → Type 0 where
  here : Reaches start start
  then : (b c : Broker) → Reaches start b → Step b c → Reaches start c

abbrev pub started : List ℕ → ℕ → Broker
started ends num_workers = record {
  signal = record { signal_ends = some ends; closed = [] };
  threads = replicate num_workers starting;
}

abbrev pub NotEnded : Thread → Type 0
NotEnded ended = ⊥
NotEnded t = Unit {0}

-- Nothing is closed and no worker ended behind the barrier, or every end was closed, and once.
abbrev pub IsFailFast : List ℕ → Broker → Type 0
IsFailFast ends b =
    ((b.signal.signal_ends ≡ some ends) × (b.signal.closed ≡ []) × All NotEnded b.threads)
    ⊎ ((b.signal.signal_ends ≡ none) × (b.signal.closed ≡ ends))

abbrev IsClosed : List ℕ → Signal → Type 0
IsClosed ends s = (s.signal_ends ≡ none) × (s.closed ≡ ends)

shutdown-IsClosed :
    (all : List ℕ) (s : Signal)
    → (((s.signal_ends ≡ some all) × (s.closed ≡ [])) ⊎ IsClosed all s)
    → IsClosed all (shutdown s)
unfolding shutdown take_signal_ends drop_ends
shutdown-IsClosed all s (inl (e, c)) = rw (e, c) (refl, refl)
shutdown-IsClosed all s (inr (e, c)) = rw e (refl, c)

Step-IsFailFast : (all : List ℕ) (b c : Broker) → IsFailFast all b → Step b c → IsFailFast all c
unfolding exit_guard_drop shutdown
Step-IsFailFast all _ _ (inl (e, c, n)) (Step.asks b) =
    inr (shutdown-IsClosed all b.signal (inl (e, c)))
Step-IsFailFast all _ _ (inr h) (Step.asks b) = inr (shutdown-IsClosed all b.signal (inr h))
Step-IsFailFast all _ _ (inl (e, c, n)) (Step.arms b i at) =
    inl (e, c, All-set NotEnded b.threads i armed tt n)
Step-IsFailFast all _ _ (inr h) (Step.arms b i at) = inr h
Step-IsFailFast all _ _ (inl (e, c, n)) (Step.leaves b i at) =
    inl (e, c, All-set NotEnded b.threads i left_early tt n)
Step-IsFailFast all _ _ (inr h) (Step.leaves b i at) = inr h
Step-IsFailFast all _ _ (inl (e, c, n)) (Step.exits b i at) =
    inr (shutdown-IsClosed all b.signal (inl (e, c)))
Step-IsFailFast all _ _ (inr h) (Step.exits b i at) = inr (shutdown-IsClosed all b.signal (inr h))

-- From the start of the workers, and whatever happens in whatever order - requests for the
-- shutdown, workers that pass the barrier, workers that end before or behind it - either the
-- signal ends are all held, none of them is closed and no worker has ended behind the barrier, or
-- none is held and each of them was closed exactly once, in their order.
pub Reaches-IsFailFast :
    (all : List ℕ) (num_workers : ℕ) (b : Broker)
    → Reaches (started all num_workers) b
    → IsFailFast all b
Reaches-IsFailFast all num_workers _ Reaches.here =
    inl (refl, refl, All-replicate NotEnded num_workers starting tt)
Reaches-IsFailFast all num_workers _ (Reaches.then b c h step) =
    Step-IsFailFast all b c (Reaches-IsFailFast all num_workers b h) step
