-- ===== src/Worker/Slots.antt =====
-- `WorkerState`: the connections that a worker serves. The counters are u64, the connections usize.
use uring_mqtt.Common.{
  ℕ, ◌+◌, ◌%◌, ◌^◌, ◌≤◌, ◌<◌, Bool, true, false, Option, none, some, zero, suc, leb, if◌then◌else◌,
  ◌≡◌, ◌⊎◌, ◌↔◌, ap, sym, ◌∙◌, subst, inl, inr, refl, arith, Bool-cases,
}
use uring_mqtt.Worker.Events.{should_log_count}

pub record WorkerState : Type 0 where
  pub worker_id : ℕ
  pub active_connections : ℕ
  pub max_connections : ℕ
  pub refused_connects : ℕ
  pub violations : ℕ

unfoldable pub new : ℕ → ℕ → WorkerState
new worker_id max_connections = record {
  worker_id = worker_id;
  active_connections = 0;
  max_connections = max_connections;
  refused_connects = 0;
  violations = 0;
}

unfoldable pub try_acquire : WorkerState → Bool × WorkerState
try_acquire s =
    if leb s.max_connections s.active_connections
    then (false, s)
    else (true, record s { active_connections = s.active_connections + 1 })

-- The subtraction underflows at 0: `none`.
unfoldable pub release : WorkerState → Option WorkerState
release s = elim s.active_connections [
  | zero ↦ none
  | suc n ↦ some (record s { active_connections = n })
]

-- The count, and whether it is logged.
unfoldable pub note_refused : WorkerState → Bool × WorkerState
unfolding should_log_count
note_refused s =
    let total = (s.refused_connects + 1) % 2 ^ 64 in
    (should_log_count total, record s { refused_connects = total })

unfoldable pub note_violation : WorkerState → Bool × WorkerState
unfolding should_log_count
note_violation s =
    let total = (s.violations + 1) % 2 ^ 64 in
    (should_log_count total, record s { violations = total })

-- How the task of a connection ends: with an outcome of `handle_client`, with its error, or by the
-- abort at shutdown.
pub data End : Type 0 where
  served refused violation failed aborted : End

-- The end of the task that the accept loop spawns.
unfoldable pub end_task : End → WorkerState → Option WorkerState
unfolding note_refused note_violation release
end_task refused s = release (note_refused s).1
end_task violation s = release (note_violation s).1
end_task e s = release s

-- The states that the accept loop and its tasks reach, with the number of tasks.
pub data Serves (worker_id max : ℕ) : WorkerState → ℕ → Type 0 where
  starts : Serves worker_id max (new worker_id max) 0
  admits :
      (s s' : WorkerState) (n : ℕ)
      → Serves worker_id max s n
      → try_acquire s ≡ (true, s')
      → Serves worker_id max s' (suc n)
  rejects :
      (s s' : WorkerState) (n : ℕ)
      → Serves worker_id max s n
      → try_acquire s ≡ (false, s')
      → Serves worker_id max s' n
  ends :
      (s s' : WorkerState) (n : ℕ) (e : End)
      → Serves worker_id max s (suc n)
      → end_task e s ≡ some s'
      → Serves worker_id max s' n

ends_one :
    (e : End) (s : WorkerState) (n : ℕ)
    → s.active_connections ≡ suc n
    → (s' : WorkerState) × (end_task e s ≡ some s')
      × (s'.active_connections ≡ n)
      × (s'.max_connections ≡ s.max_connections)
unfolding end_task release note_refused note_violation
ends_one served s n h = rw (h, release) (_, refl, refl, refl)
ends_one refused s n h = rw (h, release) (_, refl, refl, refl)
ends_one violation s n h = rw (h, release) (_, refl, refl, refl)
ends_one failed s n h = rw (h, release) (_, refl, refl, refl)
ends_one aborted s n h = rw (h, release) (_, refl, refl, refl)

acquires_one :
    (s : WorkerState)
    → ((s.active_connections < s.max_connections)
        × (try_acquire s ≡ (true, record s { active_connections = s.active_connections + 1 })))
      ⊎ ((s.max_connections ≤ s.active_connections) × (try_acquire s ≡ (false, s)))
unfolding try_acquire
acquires_one s = elim (Bool-cases (leb s.max_connections s.active_connections)) [
  | inl full ↦ inr (ground arith, rw full refl)
  | inr room ↦ inl (ground arith, rw room refl)
]

abbrev pub Counts : ℕ → WorkerState → ℕ → Type 0
Counts max s n = (s.max_connections ≡ max) × (s.active_connections ≡ n) × (n ≤ max)

-- In every state that a worker reaches, its counter is the number of its connections, which is at
-- most the configured one.
pub Serves-Counts :
    (worker_id max : ℕ) (s : WorkerState) (n : ℕ) → Serves worker_id max s n → Counts max s n
unfolding new
Serves-Counts worker_id max _ _ Serves.starts = (refl, refl, omega arith)
Serves-Counts worker_id max _ _ (Serves.admits s s' n h e) =
    let (m, a, le) = Serves-Counts worker_id max s n h in
    elim (acquires_one s) [
      | inl (room, step) ↦
          let same : record s { active_connections = s.active_connections + 1 } ≡ s' =
            ap (λ r. r.1) (sym step ∙ e) in
          subst (λ t. Counts max t (suc n)) same (m, omega arith, omega arith)
      | inr (full, step) ↦ cc
    ]
Serves-Counts worker_id max _ _ (Serves.rejects s s' n h e) =
    let (m, a, le) = Serves-Counts worker_id max s n h in
    elim (acquires_one s) [
      | inl (room, step) ↦ cc
      | inr (full, step) ↦ subst (λ t. Counts max t n) (ap (λ r. r.1) (sym step ∙ e)) (m, a, le)
    ]
Serves-Counts worker_id max _ _ (Serves.ends s s' n end h e) =
    let (m, a, le) = Serves-Counts worker_id max s (suc n) h in
    let (t, step, count, same) = ends_one end s n a in
    let result : t ≡ s' = cc in subst (λ t. Counts max t n) result (same ∙ m, count, omega arith)

admits_iff :
    (max : ℕ) (s : WorkerState) (n : ℕ) → Counts max s n → ((try_acquire s).0 ≡ true) ↔ (n < max)
admits_iff max s n (m, a, le) = elim (acquires_one s) [
  | inl (room, step) ↦ rw step ((λ e. omega arith), (λ lt. refl))
  | inr (full, step) ↦ rw step ((λ e. cc), (λ lt. absurd (omega arith)))
]

-- In every state that a worker reaches, a new connection is admitted exactly when there are fewer
-- than the configured number; and when there is a connection, its end, however it comes, takes no
-- counter below 0.
pub slots_balance :
    (worker_id max : ℕ) (s : WorkerState) (n : ℕ) (e : End)
    → Serves worker_id max s n
    → (((try_acquire s).0 ≡ true) ↔ (n < max))
      × ((n ≡ 0) ⊎ ((s' : WorkerState) × (end_task e s ≡ some s')))
slots_balance worker_id max s zero e h =
    (admits_iff max s zero (Serves-Counts worker_id max s zero h), inl refl)
slots_balance worker_id max s (suc n) e h =
    let counts = Serves-Counts worker_id max s (suc n) h in
    let (t, step, _, _) = ends_one e s n counts.1 in
    (admits_iff max s (suc n) counts, inr (t, step))
