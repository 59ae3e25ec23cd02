-- ===== src/Worker/Accept/Drain.antt =====
-- What holds in each phase of `run_worker` behind the go barrier.
use uring_mqtt.Common.{
  ℕ, suc, ◌≡◌, ◌↔◌, refl, sym, ap, ◌∙◌, subst, arith, Bool, true, false, some, List, [], ◌-◌, ◌++◌,
  if◌then◌else◌,
}
use mathlib.Core.List.{append-nil}
use uring_mqtt.Worker.Slots.{WorkerState, End, Serves, Counts, Serves-Counts}
use uring_mqtt.Worker.Accept.{
  Next, accept_once, Poll, item, ended, pending, Mpsc, Phase, accepting, draining, force_closing,
  delivering, returned, Run, spawn_session, end_session, leave_loop, after_accept, accept_turn,
  force_close, drain_polled, drain_turn, process_polled, process_event, CanEnd, Runs,
}
use uring_mqtt.Worker.Accept.Phases.{
  Tells, accept_once-Tells, InPhase, signals-InPhase, sends-InPhase, given_back,
  end_session-InPhase, process_event-InPhase, drain_turn-InPhase, after_accept-InPhase,
}
use uring_mqtt.Worker.Accept.Senders.{
  CountsSenders, Held, IsWait, wait_own, first-Held, still_runs, spawn_session-Held,
  leave_loop-Held, send-Held, end_session-Held, process_event-Held, drain_turn-Held,
}

module _ {A : Type 0} (es : Mpsc A) (ds : Mpsc (Unit {0})) (equeue : es.Channel → List A)
    (esenders : es.Channel → ℕ) (dqueue : ds.Channel → List (Unit {0})) (dsenders : ds.Channel → ℕ)
    (elaws : CountsSenders es equeue esenders) (dlaws : CountsSenders ds dqueue dsenders) where
  abbrev Senders : Phase → Run es ds → Type 0
  Senders p r = Held es ds equeue esenders dqueue dsenders elaws dlaws p r

  -- What holds in each phase.
  abbrev pub Stage : Phase → Run es ds → Type 0
  Stage accepting r = (r.late ≡ 0) × (r.cut_off ≡ 0) × (r.processor_ended ≡ false)
  Stage draining r =
      (r.shutdown_requested ≡ true)
      × (r.late ≡ 1)
      × (r.cut_off ≡ 0)
      × (r.processor_ended ≡ false)
      × ((ds.recv r.done ≡ ended) ↔ (r.tasks ≡ 0))
  Stage force_closing r =
      (r.shutdown_requested ≡ true)
      × (r.late ≡ 1)
      × (r.processor_ended ≡ false)
      × ((ds.recv r.done ≡ ended) ↔ (r.tasks ≡ 0))
  Stage delivering r =
      (r.shutdown_requested ≡ true)
      × (r.late ≡ 1)
      × (r.tasks ≡ 0)
      × ((es.recv r.events ≡ ended) ↔ (equeue r.events ≡ []))
  Stage returned r =
      (r.shutdown_requested ≡ true) × (r.late ≡ 1) × (r.tasks ≡ 0) × (r.called ≡ r.sent)

  abbrev pub IsOrderly : ℕ → Phase → Run es ds → Type 0
  IsOrderly max p r =
      Counts max r.state r.tasks × (r.called ++ equeue r.events ≡ r.sent) × Stage p r

  drained_iff :
      (p : Phase) (r : Run es ds)
      → IsWait p
      → Senders p r
      → (ds.recv r.done ≡ ended) ↔ (r.tasks ≡ 0)
  drained_iff p r w (dn, dq, _, _, _) =
      let (no_done, _) = wait_own p w in
      (
        (λ e. let (_, none_left) = dlaws.ends r.done e in omega arith),
        (λ none_left. dlaws.finishes r.done dq (omega arith)),
      )

  Senders-Stage : (p : Phase) (r : Run es ds) → Senders p r → InPhase es ds p r → Stage p r
  Senders-Stage accepting r held (late, open_yet, whole) =
      let (_, _, en, _, _) = held in
      (
        late,
        whole,
        still_runs es ds equeue esenders dqueue dsenders elaws dlaws accepting r r.tasks held
            (omega arith),
      )
  Senders-Stage draining r held (stop, late, open_yet, whole) =
      let (_, _, en, _, _) = held in
      (
        stop,
        late,
        whole,
        still_runs es ds equeue esenders dqueue dsenders elaws dlaws draining r r.tasks held
            (omega arith),
        drained_iff draining r tt held,
      )
  Senders-Stage force_closing r held (stop, late) =
      let (_, _, en, _, _) = held in
      (
        stop,
        late,
        still_runs es ds equeue esenders dqueue dsenders elaws dlaws force_closing r r.tasks held
            (omega arith),
        drained_iff force_closing r tt held,
      )
  Senders-Stage delivering r (_, _, en, _, _) (stop, late, none_left) = (
    stop,
    late,
    none_left,
    ((λ e. (elaws.ends r.events e).0), (λ empty. elaws.finishes r.events empty (omega arith))),
  )
  Senders-Stage returned r (_, _, en, called, over) (stop, late, none_left, at_end) =
      let (_, empty) = over at_end in
      (
        stop,
        late,
        none_left,
        sym (append-nil r.called) ∙ (ap (λ l. r.called ++ l) (sym empty) ∙ called),
      )

  module _ (worker_id max : ℕ) where
    -- The invariant of the steps.
    abbrev Keeps : Phase → Run es ds → Type 0
    Keeps p r = Serves worker_id max r.state r.tasks × Senders p r × InPhase es ds p r

    after_accept-Keeps :
        (answer : Next × WorkerState) (r : Run es ds)
        → Tells r.shutdown_requested r.state answer
        → Keeps accepting r
        → let late : ℕ = if r.shutdown_requested then suc r.late else r.late in
          let turned = after_accept es ds answer (record r { late = late }) in
          Serves worker_id max turned.1.state turned.1.tasks × Senders turned.0 turned.1
    unfolding after_accept spawn_session leave_loop
    after_accept-Keeps (Next.spawns, s) r (acquired, _) (serves, held, _) = (
      Serves.admits r.state s r.tasks serves acquired,
      spawn_session-Held es ds equeue esenders dqueue dsenders elaws dlaws s r held,
    )
    after_accept-Keeps (Next.rejects, s) r (full, _) (serves, held, _) =
        (Serves.rejects r.state s r.tasks serves full, held)
    after_accept-Keeps (Next.backs_off, s) r (same, _) (serves, held, _) =
        (subst (λ t. Serves worker_id max t r.tasks) same serves, held)
    after_accept-Keeps (Next.breaks, s) r (same, _) (serves, held, _) = (
      subst (λ t. Serves worker_id max t r.tasks) same serves,
      leave_loop-Held es ds equeue esenders dqueue dsenders elaws dlaws r held,
    )

    accept_turn-Keeps :
        (stream : Bool) (r : Run es ds)
        → Keeps accepting r
        → Keeps (accept_turn es ds stream r).0 (accept_turn es ds stream r).1
    unfolding accept_turn
    accept_turn-Keeps stream r keeps =
        let answer = accept_once stream r.shutdown_requested r.state in
        let tells = accept_once-Tells stream r.shutdown_requested r.state in
        let (serves, held) = after_accept-Keeps answer r tells keeps in
        let (_, _, phase) = keeps in (serves, held, after_accept-InPhase es ds answer r tells phase)

    end_session-Keeps :
        (p : Phase) (e : End) (r r' : Run es ds) (n : ℕ)
        → r.tasks ≡ suc n
        → CanEnd es ds r.abort_closed e
        → end_session es ds e r ≡ some r'
        → Keeps p r
        → Keeps p r'
    end_session-Keeps p e r r' n t can ends (serves, held, phase) =
        let (s, ended_task, same) = given_back es ds e r r' ends in
        let fewer : n ≡ r.tasks - 1 = omega arith in
        let serves' : Serves worker_id max s (r.tasks - 1) =
          subst (Serves worker_id max s) fewer (
            Serves.ends r.state s n e (subst (Serves worker_id max r.state) t serves) ended_task) in
        (
          subst (λ z. Serves worker_id max z.state z.tasks) same serves',
          end_session-Held es ds equeue esenders dqueue dsenders elaws dlaws p e r r' n t ends held,
          end_session-InPhase es ds p e r r' n t can ends phase,
        )

    process_polled-Serves :
        (poll : Poll A es.Channel) (r : Run es ds)
        → Serves worker_id max r.state r.tasks
        → let r' = process_polled es ds poll r in Serves worker_id max r'.state r'.tasks
    process_polled-Serves (item x c) r h = h
    process_polled-Serves ended r h = h
    process_polled-Serves pending r h = h

    drain_polled-Serves :
        (p : Phase) (poll : Poll (Unit {0}) ds.Channel) (r : Run es ds)
        → Serves worker_id max r.state r.tasks
        → let r' = (drain_polled es ds p poll r).1 in Serves worker_id max r'.state r'.tasks
    drain_polled-Serves p (item x c) r h = h
    drain_polled-Serves p ended r h = h
    drain_polled-Serves p pending r h = h

    process_event-Keeps :
        (p : Phase) (r : Run es ds)
        → r.processor_ended ≡ false
        → Keeps p r
        → Keeps p (process_event es ds r)
    process_event-Keeps p r running (serves, held, phase) = (
      unfold process_event in process_polled-Serves (es.recv r.events) r serves,
      process_event-Held es ds equeue esenders dqueue dsenders elaws dlaws p r running held,
      process_event-InPhase es ds p r phase,
    )

    drain_turn-Keeps :
        (p : Phase) (r : Run es ds)
        → IsWait p
        → Keeps p r
        → Keeps (drain_turn es ds p r).0 (drain_turn es ds p r).1
    drain_turn-Keeps p r w (serves, held, phase) = (
      unfold drain_turn in drain_polled-Serves p (ds.recv r.done) r serves,
      drain_turn-Held es ds equeue esenders dqueue dsenders elaws dlaws p r w held,
      drain_turn-InPhase es ds p r w ((drained_iff p r w held).0) phase,
    )

    force_close-Keeps :
        (r : Run es ds) → Keeps draining r → Keeps force_closing (force_close es ds r)
    unfolding force_close
    force_close-Keeps r (serves, held, (stop, late, _, _)) = (serves, held, (stop, late))

    Runs-Keeps : (p : Phase) (r : Run es ds) → Runs es ds worker_id max p r → Keeps p r
    Runs-Keeps _ _ Runs.starts = (
      Serves.starts,
      first-Held es ds equeue esenders dqueue dsenders elaws dlaws worker_id max,
      (refl, refl, refl),
    )
    Runs-Keeps _ _ (Runs.signals p r h) =
        let (serves, held, phase) = Runs-Keeps p r h in
        (serves, held, signals-InPhase es ds p r phase)
    Runs-Keeps _ _ (Runs.accepts r stream h) = accept_turn-Keeps stream r (Runs-Keeps _ r h)
    Runs-Keeps _ _ (Runs.sends p r n publish h t) =
        let (serves, held, phase) = Runs-Keeps p r h in
        (
          serves,
          send-Held es ds equeue esenders dqueue dsenders elaws dlaws p r n publish t held,
          sends-InPhase es ds p r publish phase,
        )
    Runs-Keeps _ _ (Runs.ends p r r' n e h t can ends) =
        end_session-Keeps p e r r' n t can ends (Runs-Keeps p r h)
    Runs-Keeps _ _ (Runs.processes p r h running) =
        process_event-Keeps p r running (Runs-Keeps p r h)
    Runs-Keeps _ _ (Runs.drains r h) = drain_turn-Keeps draining r tt (Runs-Keeps _ r h)
    Runs-Keeps _ _ (Runs.expires r h) = force_close-Keeps r (Runs-Keeps _ r h)
    Runs-Keeps _ _ (Runs.closes r h) = drain_turn-Keeps force_closing r tt (Runs-Keeps _ r h)
    Runs-Keeps _ _ (Runs.returns r h at_end) =
        let (serves, held, (stop, late, none_left)) = Runs-Keeps _ r h in
        (serves, held, (stop, late, none_left, at_end))

    -- For channels that keep their messages in order and end when, and only when, every sender
    -- was dropped and no message is left, in every state that a worker reaches behind the go
    -- barrier: its counter is the number of its sessions, at most the configured one, and what
    -- the sessions sent is what the processor handed on followed by what is queued. In the accept
    -- loop no result of accept was taken after the shutdown was requested, and behind it exactly
    -- one was. Up to the drain deadline no session is cut off. The processor runs until the
    -- worker waits for it. The wait for the sessions sees its end exactly when there is no
    -- session. Then the processor sees the end of its channel exactly when nothing is queued. A
    -- worker that has returned has no session, and the processor was handed all that was sent, in
    -- order.
    pub Runs-IsOrderly :
        (p : Phase) (r : Run es ds) → Runs es ds worker_id max p r → IsOrderly max p r
    Runs-IsOrderly p r h =
        let (serves, held, phase) = Runs-Keeps p r h in
        let (_, _, _, called, _) = held in
        (Serves-Counts worker_id max r.state r.tasks serves, called, Senders-Stage p r held phase)
