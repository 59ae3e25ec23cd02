-- ===== src/Tests/Workers.antt =====
-- The start, the join and the shutdown of two workers, and the drain of one.
use uring_mqtt.Common.{
  ℕ, zero, suc, ◌-◌, ◌++◌, true, false, none, some, List, [], ◌∷◌, ◌≡◌, ◌⊎◌, ◌↔◌, refl, arith, All,
}
use uring_mqtt.Common.Result.{ok, err}
use uring_mqtt.Error.{Error, IoError, io, ErrorKind, no_source}
use uring_mqtt.Worker.Slots.{new, try_acquire, release, aborted, end_task}
use uring_mqtt.Worker.Accept.{
  accept_once, Poll, item, ended, pending, Mpsc, accepting, force_closing, delivering, returned,
  Run, first_run, spawn_session, end_session, leave_loop, after_accept, accept_turn, force_close,
  drain_turn, process_event, Runs,
}
use uring_mqtt.Worker.Accept.Senders.{CountsSenders}
use uring_mqtt.Worker.Accept.Drain.{IsOrderly, Runs-IsOrderly}
use uring_mqtt.Broker.Startup.{
  Report, Setup, bind_fails, ready, report, passes_barrier, supervise_startup,
}
use uring_mqtt.Broker.Startup.AllOrNone.{Supervised, supervise_startup-Supervised}
use uring_mqtt.Broker.Startup.Barrier.{Arrives, IsReady, passes_barrier_iff}
use uring_mqtt.Broker.Join.{Joined, join, Succeeds, FirstFailure, join_decided}
use uring_mqtt.Broker.Shutdown.{
  Broker, Thread, starting, armed, Step, Reaches, started, IsFailFast, Reaches-IsFailFast,
  exit_guard_drop,
}

abbrev in_use : IoError
in_use = record { kind = ErrorKind.other 98; source = no_source }

abbrev two_workers : List (ℕ × Setup)
two_workers = (0, ready) ∷ (1, bind_fails in_use) ∷ []

-- The second worker reports first.
abbrev two_reports : List Report
two_reports = (1, err (io in_use)) ∷ (0, ok tt) ∷ []

supervise_startup-Supervised_example :
    Supervised two_reports 2 2 (supervise_startup two_reports 2 2)
supervise_startup-Supervised_example = supervise_startup-Supervised two_reports 2 2 (omega arith)

Arrives-two : Arrives two_workers two_reports
unfolding report
Arrives-two =
    Arrives.reports 0 ready _ ((1, err (io in_use)) ∷ []) [] (0, ok tt)
      (Arrives.reports 1 (bind_fails in_use) _ [] [] (1, err (io in_use)) Arrives.nobody refl) refl

passes_barrier_iff_example :
    (((supervise_startup two_reports 2 2).0 ≡ ok tt) ↔ (All IsReady two_workers))
    × ((passes_barrier ready (some false) ≡ true) ↔ (All IsReady two_workers))
unfolding supervise_startup
passes_barrier_iff_example =
    passes_barrier_iff two_workers two_reports (0, ready) 0 (omega arith) Arrives-two refl

abbrev two_results : List Joined
two_results = some (ok tt) ∷ none ∷ []

join_decided_example :
    (All Succeeds two_results × (join two_results ≡ ok tt))
    ⊎ ((e : Error) × FirstFailure two_results e × (join two_results ≡ err e))
join_decided_example = join_decided two_results

abbrev first_armed : Broker
first_armed = record (started (0 ∷ 1 ∷ []) 2) { threads = armed ∷ starting ∷ [] }

abbrev first_exited : Broker
first_exited = record {
  signal = record { signal_ends = none; closed = 0 ∷ 1 ∷ [] };
  threads = Thread.ended ∷ starting ∷ [];
}

Reaches-first_exited : Reaches (started (0 ∷ 1 ∷ []) 2) first_exited
unfolding exit_guard_drop
Reaches-first_exited =
    Reaches.then first_armed first_exited
      (Reaches.then (started (0 ∷ 1 ∷ []) 2) first_armed Reaches.here
        (Step.arms (started (0 ∷ 1 ∷ []) 2) 0 refl))
      (Step.exits first_armed 0 refl)

Reaches-IsFailFast_example : IsFailFast (0 ∷ 1 ∷ []) first_exited
Reaches-IsFailFast_example = Reaches-IsFailFast (0 ∷ 1 ∷ []) 2 first_exited Reaches-first_exited

-- A channel as the list of its messages, with the number of its senders.
abbrev poll_list : (A : Type 0) → List A → ℕ → Poll A (List A × ℕ)
poll_list A (x ∷ xs) n = item x (xs, n)
poll_list A [] zero = ended
poll_list A [] (suc n) = pending

abbrev counted : (A : Type 0) → Mpsc A
counted A = record {
  Channel = List A × ℕ;
  channel = ([], 1);
  clone_sender = λ c. (c.0, suc c.1);
  drop_sender = λ c. (c.0, c.1 - 1);
  send = λ x c. (c.0 ++ (x ∷ []), c.1);
  recv = λ c. poll_list A c.0 c.1;
}

abbrev messages : (A : Type 0) → List A × ℕ → List A
messages A c = c.0

abbrev sender_count : (A : Type 0) → List A × ℕ → ℕ
sender_count A c = c.1

counted_receives :
    (A : Type 0) (x : A) (xs : List A) (n : ℕ) (c' : List A × ℕ)
    → poll_list A xs n ≡ item x c'
    → (xs ≡ x ∷ c'.0) × (c'.1 ≡ n)
counted_receives A x (y ∷ xs) n c' e = (cc, cc)
counted_receives A x [] zero c' e = absurd cc
counted_receives A x [] (suc n) c' e = absurd cc

counted_ends : (A : Type 0) (xs : List A) (n : ℕ) → poll_list A xs n ≡ ended → (xs ≡ []) × (n ≡ 0)
counted_ends A (x ∷ xs) n e = absurd cc
counted_ends A [] zero e = (refl, refl)
counted_ends A [] (suc n) e = absurd cc

counted_finishes : (A : Type 0) (xs : List A) (n : ℕ) → xs ≡ [] → n ≡ 0 → poll_list A xs n ≡ ended
counted_finishes A (x ∷ xs) n e z = absurd cc
counted_finishes A [] zero e z = refl
counted_finishes A [] (suc n) e z = absurd (omega arith)

counted-CountsSenders : (A : Type 0) → CountsSenders (counted A) (messages A) (sender_count A)
counted-CountsSenders A = record {
  fresh = (refl, refl);
  clones = λ c. (refl, refl);
  drops = λ c n e. (refl, omega arith);
  sends = λ x c. (refl, refl);
  receives = λ x c c' e. counted_receives A x c.0 c.1 c' e;
  ends = λ c e. counted_ends A c.0 c.1 e;
  finishes = λ c e z. counted_finishes A c.0 c.1 e z;
}

-- One session, whose publish is queued at the shutdown, is cut off at the drain deadline.
abbrev publishes : Mpsc ℕ
publishes = counted ℕ

abbrev dones : Mpsc (Unit {0})
dones = counted (Unit {0})

abbrev one_session : Run publishes dones
one_session = (accept_turn publishes dones true (first_run publishes dones 0 1)).1

abbrev one_queued : Run publishes dones
one_queued = record one_session {
  events = publishes.send 5 one_session.events;
  sent = one_session.sent ++ (5 ∷ []);
}

abbrev at_deadline : Run publishes dones
at_deadline =
    force_close publishes dones
      ((accept_turn publishes dones true (record one_queued { shutdown_requested = true })).1)

abbrev all_delivered : Run publishes dones
all_delivered = record (first_run publishes dones 0 1) {
  shutdown_requested = true;
  abort_closed = true;
  processor_ended = true;
  events = ([], 0);
  done = ([], 0);
  cut_off = 1;
  late = 1;
  sent = 5 ∷ [];
  called = 5 ∷ [];
}

abbrev called_back : Run publishes dones
called_back = record all_delivered { processor_ended = false }

abbrev behind_drain : Run publishes dones
behind_drain = record called_back { events = (5 ∷ [], 0); called = [] }

abbrev cut_session : Run publishes dones
cut_session = record behind_drain { events = (5 ∷ [], 1) }

Runs-at_deadline : Runs publishes dones 0 1 force_closing at_deadline
unfolding accept_turn after_accept accept_once try_acquire new spawn_session leave_loop force_close
Runs-at_deadline = Runs.expires _ (
    Runs.accepts (record one_queued { shutdown_requested = true }) true
      (Runs.signals accepting one_queued (
        Runs.sends accepting one_session 0 5
          (Runs.accepts (first_run publishes dones 0 1) true Runs.starts) refl)))

Runs-all_delivered : Runs publishes dones 0 1 returned all_delivered
unfolding accept_turn after_accept accept_once try_acquire new spawn_session leave_loop force_close
    end_session end_task release drain_turn process_event
Runs-all_delivered =
    Runs.returns all_delivered
      (Runs.processes delivering called_back
        (Runs.processes delivering behind_drain
          (Runs.closes cut_session (
            Runs.ends force_closing at_deadline cut_session 0 aborted Runs-at_deadline refl refl
              refl))
          refl)
        refl)
      refl

Runs-IsOrderly_example :
    IsOrderly publishes dones
      (messages ℕ)
      (sender_count ℕ)
      (messages (Unit {0}))
      (sender_count (Unit {0}))
      (counted-CountsSenders ℕ)
      (counted-CountsSenders (Unit {0}))
      1
      returned
      all_delivered
Runs-IsOrderly_example =
    Runs-IsOrderly publishes dones (messages ℕ) (sender_count ℕ) (messages (Unit {0}))
      (sender_count (Unit {0})) (counted-CountsSenders ℕ) (counted-CountsSenders (Unit {0})) 0 1
      returned all_delivered Runs-all_delivered
