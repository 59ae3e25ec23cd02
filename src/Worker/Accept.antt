-- ===== src/Worker/Accept.antt =====
-- `run_worker` behind the go barrier: the accept loop, the drain at shutdown, and the end of the event
-- processor, with the senders that the loop and its sessions hold.
pub mod Drain
pub mod Phases
pub mod Senders
use uring_mqtt.Common.{
  ℕ, suc, ◌-◌, ◌≡◌, Bool, true, false, Option, none, some, List, [], ◌∷◌, ◌++◌, if◌then◌else◌,
}
use uring_mqtt.Worker.Slots.{WorkerState, new, try_acquire, End, aborted, end_task}

-- What the accept loop does with a result of `cancelable_accept`.
pub data Next : Type 0 where
  spawns rejects backs_off breaks : Next

-- The result, a stream or an error, with `shutdown_requested` as it is read behind it.
unfoldable pub accept_once : Bool → Bool → WorkerState → Next × WorkerState
unfolding try_acquire
accept_once true true s = (breaks, s)
accept_once true false s =
    let (room, s') = try_acquire s in if room then (spawns, s') else (rejects, s')
accept_once false true s = (breaks, s)
accept_once false false s = (backs_off, s)

-- A poll of `recv`: a message with the channel behind it, the end of the channel, or neither yet.
pub data Poll (A C : Type 0) : Type 0 where
  item : A → C → Poll A C
  ended pending : Poll A C

-- local-sync's unbounded channel with its senders, which is not part of this repository. `channel` has
-- one sender.
pub record Mpsc (A : Type 0) : Type 1 where
  pub Channel : Type 0
  pub channel : Channel
  pub clone_sender : Channel → Channel
  pub drop_sender : Channel → Channel
  pub send : A → Channel → Channel
  pub recv : Channel → Poll A Channel

-- Where `run_worker` stands: in the accept loop, in the wait for the sessions up to the drain deadline,
-- in the wait for them behind it, in the wait for the event processor, and at its end.
pub data Phase : Type 0 where
  accepting draining force_closing delivering returned : Phase

-- Nothing is ever sent on the `done` channel.
module _ {A : Type 0} (events_sync : Mpsc A) (done_sync : Mpsc (Unit {0})) where
  -- The worker with its channels. `tasks` counts its sessions, `cut_off` those that the abort ended, and
  -- `late` the results of accept that the loop took with the shutdown requested; `sent` is what the
  -- sessions put into the event channel, and `called` what the processor handed to the callback.
  pub record Run : Type 0 where
    pub shutdown_requested : Bool
    pub abort_closed : Bool
    pub processor_ended : Bool
    pub state : WorkerState
    pub events : events_sync.Channel
    pub done : done_sync.Channel
    pub tasks : ℕ
    pub cut_off : ℕ
    pub late : ℕ
    pub sent : List A
    pub called : List A

  abbrev pub first_run : ℕ → ℕ → Run
  first_run worker_id max = record {
    shutdown_requested = false;
    abort_closed = false;
    processor_ended = false;
    state = new worker_id max;
    events = events_sync.channel;
    done = done_sync.channel;
    tasks = 0;
    cut_off = 0;
    late = 0;
    sent = [];
    called = [];
  }

  -- A session gets a sender of each channel.
  unfoldable pub spawn_session : WorkerState → Run → Run
  spawn_session s r = record r {
    state = s;
    events = events_sync.clone_sender r.events;
    done = done_sync.clone_sender r.done;
    tasks = suc r.tasks;
  }

  abbrev pub count_aborted : End → ℕ → ℕ
  count_aborted aborted n = suc n
  count_aborted e n = n

  -- The session drops its event sender with `handle_client`, gives its slot back, and drops its `done`
  -- sender.
  abbrev pub session_gone : End → WorkerState → Run → Run
  session_gone e s r = record r {
    state = s;
    events = events_sync.drop_sender r.events;
    done = done_sync.drop_sender r.done;
    tasks = r.tasks - 1;
    cut_off = count_aborted e r.cut_off;
  }

  -- `none` is an underflow of the connection counter.
  abbrev pub give_back : End → Option WorkerState → Run → Option Run
  give_back e none r = none
  give_back e (some s) r = some (session_gone e s r)

  unfoldable pub end_session : End → Run → Option Run
  unfolding end_task
  end_session e r = give_back e (end_task e r.state) r

  -- Behind the loop, the worker drops its own `done` sender.
  unfoldable pub leave_loop : Run → Run
  leave_loop r = record r { done = done_sync.drop_sender r.done }

  unfoldable pub after_accept : Next × WorkerState → Run → Phase × Run
  unfolding spawn_session leave_loop
  after_accept (spawns, s) r = (accepting, spawn_session s r)
  after_accept (rejects, s) r = (accepting, record r { state = s })
  after_accept (backs_off, s) r = (accepting, record r { state = s })
  after_accept (breaks, s) r = (draining, leave_loop (record r { state = s }))

  -- A turn of the accept loop.
  unfoldable pub accept_turn : Bool → Run → Phase × Run
  unfolding accept_once after_accept
  accept_turn stream r =
      after_accept (accept_once stream r.shutdown_requested r.state)
        (record r { late = (if r.shutdown_requested then suc r.late else r.late) })

  -- The drain deadline closes the abort semaphore.
  unfoldable pub force_close : Run → Run
  force_close r = record r { abort_closed = true }

  abbrev pub drain_polled : Phase → Poll (Unit {0}) (done_sync.Channel) → Run → Phase × Run
  drain_polled p (item x done) r = (p, record r { done = done })
  drain_polled p ended r = (delivering, record r { events = events_sync.drop_sender r.events })
  drain_polled p pending r = (p, r)

  -- A turn of the wait for the sessions. Behind it, the worker drops its own event sender.
  unfoldable pub drain_turn : Phase → Run → Phase × Run
  drain_turn p r = drain_polled p (done_sync.recv r.done) r

  abbrev pub process_polled : Poll A (events_sync.Channel) → Run → Run
  process_polled (item publish events) r = record r {
    events = events;
    called = r.called ++ (publish ∷ []);
  }
  process_polled ended r = record r { processor_ended = true }
  process_polled pending r = r

  -- A turn of `process_events`.
  unfoldable pub process_event : Run → Run
  process_event r = process_polled (events_sync.recv r.events) r

  -- The abort ends a session only when its semaphore, which has no permits, is closed.
  abbrev pub CanEnd : Bool → End → Type 0
  CanEnd abort_closed aborted = abort_closed ≡ true
  CanEnd abort_closed e = Unit {0}

  -- What the worker, its watcher, its sessions and its processor do, in any order.
  pub data Runs (worker_id max : ℕ) : Phase → Run → Type 0 where
    starts : Runs worker_id max accepting (first_run worker_id max)
    signals :
        (p : Phase) (r : Run)
        → Runs worker_id max p r
        → Runs worker_id max p (record r { shutdown_requested = true })
    accepts :
        (r : Run) (stream : Bool)
        → Runs worker_id max accepting r
        → Runs worker_id max (accept_turn stream r).0 (accept_turn stream r).1
    sends :
        (p : Phase) (r : Run) (n : ℕ) (publish : A)
        → Runs worker_id max p r
        → r.tasks ≡ suc n
        → Runs worker_id max p (record r {
          events = events_sync.send publish r.events;
          sent = r.sent ++ (publish ∷ []);
        })
    ends :
        (p : Phase) (r r' : Run) (n : ℕ) (e : End)
        → Runs worker_id max p r
        → r.tasks ≡ suc n
        → CanEnd r.abort_closed e
        → end_session e r ≡ some r'
        → Runs worker_id max p r'
    processes :
        (p : Phase) (r : Run)
        → Runs worker_id max p r
        → r.processor_ended ≡ false
        → Runs worker_id max p (process_event r)
    drains :
        (r : Run)
        → Runs worker_id max draining r
        → Runs worker_id max (drain_turn draining r).0 (drain_turn draining r).1
    expires :
        (r : Run) → Runs worker_id max draining r → Runs worker_id max force_closing (force_close r)
    closes :
        (r : Run)
        → Runs worker_id max force_closing r
        → Runs worker_id max (drain_turn force_closing r).0 (drain_turn force_closing r).1
    returns :
        (r : Run)
        → Runs worker_id max delivering r
        → r.processor_ended ≡ true
        → Runs worker_id max returned r
