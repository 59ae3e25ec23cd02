-- ===== src/Worker/Accept/Phases.antt =====
-- What each step of `run_worker` keeps of what holds in its phase.
use uring_mqtt.Common.{
  ℕ, suc, ◌≡◌, inl, inr, refl, sym, ap, ◌∙◌, subst, arith, Bool, true, false, Bool-cases,
  Option-cases, none, some, [], ◌∷◌, ◌++◌, if◌then◌else◌,
}
use uring_mqtt.Worker.Slots.{
  WorkerState, try_acquire, End, served, refused, violation, failed, aborted, end_task,
}
use uring_mqtt.Worker.Accept.{
  Next, accept_once, Poll, item, ended, pending, Mpsc, Phase, accepting, draining, force_closing,
  delivering, returned, Run, spawn_session, count_aborted, session_gone, give_back, end_session,
  leave_loop, after_accept, drain_polled, drain_turn, process_polled, process_event, CanEnd,
}
use uring_mqtt.Worker.Accept.Senders.{IsWait}

-- What an answer of `accept_once` tells.
abbrev pub Tells : Bool → WorkerState → Next × WorkerState → Type 0
Tells stop s (Next.spawns, s') = (try_acquire s ≡ (true, s')) × (stop ≡ false)
Tells stop s (Next.rejects, s') = (try_acquire s ≡ (false, s')) × (stop ≡ false)
Tells stop s (Next.backs_off, s') = (s ≡ s') × (stop ≡ false)
Tells stop s (Next.breaks, s') = (s ≡ s') × (stop ≡ true)

pub accept_once-Tells :
    (stream stop : Bool) (s : WorkerState) → Tells stop s (accept_once stream stop s)
unfolding accept_once
accept_once-Tells true true s = (refl, refl)
accept_once-Tells true false s = elim (Bool-cases (try_acquire s).0) [
  | inl room ↦ rw room (ap (λ b. (b, (try_acquire s).1)) room, refl)
  | inr full ↦ rw full (ap (λ b. (b, (try_acquire s).1)) full, refl)
]
accept_once-Tells false true s = (refl, refl)
accept_once-Tells false false s = (refl, refl)

module _ {A : Type 0} (es : Mpsc A) (ds : Mpsc (Unit {0})) where
  -- What holds of the worker itself in each phase.
  abbrev pub InPhase : Phase → Run es ds → Type 0
  InPhase accepting r = (r.late ≡ 0) × (r.abort_closed ≡ false) × (r.cut_off ≡ 0)
  InPhase draining r =
      (r.shutdown_requested ≡ true) × (r.late ≡ 1) × (r.abort_closed ≡ false) × (r.cut_off ≡ 0)
  InPhase force_closing r = (r.shutdown_requested ≡ true) × (r.late ≡ 1)
  InPhase delivering r = (r.shutdown_requested ≡ true) × (r.late ≡ 1) × (r.tasks ≡ 0)
  InPhase returned r =
      (r.shutdown_requested ≡ true) × (r.late ≡ 1) × (r.tasks ≡ 0) × (r.processor_ended ≡ true)

  pub signals-InPhase :
      (p : Phase) (r : Run es ds) → InPhase p r → InPhase p (record r { shutdown_requested = true })
  signals-InPhase accepting r h = h
  signals-InPhase draining r (_, late, open_yet, whole) = (refl, late, open_yet, whole)
  signals-InPhase force_closing r (_, late) = (refl, late)
  signals-InPhase delivering r (_, late, none_left) = (refl, late, none_left)
  signals-InPhase returned r (_, late, none_left, over) = (refl, late, none_left, over)

  pub sends-InPhase :
      (p : Phase) (r : Run es ds) (publish : A)
      → InPhase p r
      → InPhase p (record r { events = es.send publish r.events; sent = r.sent ++ (publish ∷ []) })
  sends-InPhase accepting r publish h = h
  sends-InPhase draining r publish h = h
  sends-InPhase force_closing r publish h = h
  sends-InPhase delivering r publish h = h
  sends-InPhase returned r publish h = h

  processed-InPhase :
      (p : Phase) (poll : Poll A es.Channel) (r : Run es ds)
      → InPhase p r
      → InPhase p (process_polled es ds poll r)
  processed-InPhase p pending r h = h
  processed-InPhase accepting (item x c) r h = h
  processed-InPhase draining (item x c) r h = h
  processed-InPhase force_closing (item x c) r h = h
  processed-InPhase delivering (item x c) r h = h
  processed-InPhase returned (item x c) r h = h
  processed-InPhase accepting ended r h = h
  processed-InPhase draining ended r h = h
  processed-InPhase force_closing ended r h = h
  processed-InPhase delivering ended r h = h
  processed-InPhase returned ended r (stop, late, none_left, over) = (stop, late, none_left, refl)

  -- While the abort semaphore is open, no session is cut off.
  uncut :
      (e : End) (abort_closed : Bool) (n : ℕ)
      → abort_closed ≡ false
      → CanEnd es ds abort_closed e
      → count_aborted es ds e n ≡ n
  uncut served b n open_yet can = refl
  uncut refused b n open_yet can = refl
  uncut violation b n open_yet can = refl
  uncut failed b n open_yet can = refl
  uncut aborted b n open_yet can = absurd cc

  session_gone-InPhase :
      (p : Phase) (e : End) (s : WorkerState) (r : Run es ds) (n : ℕ)
      → r.tasks ≡ suc n
      → CanEnd es ds r.abort_closed e
      → InPhase p r
      → InPhase p (session_gone es ds e s r)
  session_gone-InPhase accepting e s r n t can (late, open_yet, whole) =
      (late, open_yet, uncut e r.abort_closed r.cut_off open_yet can ∙ whole)
  session_gone-InPhase draining e s r n t can (stop, late, open_yet, whole) =
      (stop, late, open_yet, uncut e r.abort_closed r.cut_off open_yet can ∙ whole)
  session_gone-InPhase force_closing e s r n t can h = h
  session_gone-InPhase delivering e s r n t can (stop, late, none_left) = absurd (omega arith)
  session_gone-InPhase returned e s r n t can (stop, late, none_left, _) = absurd (omega arith)

  pub given_back :
      (e : End) (r r' : Run es ds)
      → end_session es ds e r ≡ some r'
      → (s : WorkerState) × (end_task e r.state ≡ some s) × (session_gone es ds e s r ≡ r')
  unfolding end_session
  given_back e r r' ends = elim (Option-cases (end_task e r.state)) [
    | inl stuck ↦
        let none_back : none ≡ some r' = sym (ap (λ o. give_back es ds e o r) stuck) ∙ ends in
        absurd cc
    | inr (s, ended_task) ↦
        let back : some (session_gone es ds e s r) ≡ some r' =
          sym (ap (λ o. give_back es ds e o r) ended_task) ∙ ends in
        (s, ended_task, cc)
  ]

  pub end_session-InPhase :
      (p : Phase) (e : End) (r r' : Run es ds) (n : ℕ)
      → r.tasks ≡ suc n
      → CanEnd es ds r.abort_closed e
      → end_session es ds e r ≡ some r'
      → InPhase p r
      → InPhase p r'
  end_session-InPhase p e r r' n t can ends h =
      let (s, _, same) = given_back e r r' ends in
      subst (InPhase p) same (session_gone-InPhase p e s r n t can h)

  pub process_event-InPhase :
      (p : Phase) (r : Run es ds) → InPhase p r → InPhase p (process_event es ds r)
  unfolding process_event
  process_event-InPhase p r h = processed-InPhase p (es.recv r.events) r h

  drain_polled-InPhase :
      (p : Phase) (poll : Poll (Unit {0}) ds.Channel) (r : Run es ds)
      → IsWait p
      → (ds.recv r.done ≡ ended → r.tasks ≡ 0)
      → ds.recv r.done ≡ poll
      → InPhase p r
      → InPhase (drain_polled es ds p poll r).0 (drain_polled es ds p poll r).1
  drain_polled-InPhase accepting poll r w gone e h = absurd w
  drain_polled-InPhase delivering poll r w gone e h = absurd w
  drain_polled-InPhase returned poll r w gone e h = absurd w
  drain_polled-InPhase draining (item x c) r w gone e h = h
  drain_polled-InPhase draining pending r w gone e h = h
  drain_polled-InPhase draining ended r w gone e (stop, late, _, _) = (stop, late, gone e)
  drain_polled-InPhase force_closing (item x c) r w gone e h = h
  drain_polled-InPhase force_closing pending r w gone e h = h
  drain_polled-InPhase force_closing ended r w gone e (stop, late) = (stop, late, gone e)

  pub drain_turn-InPhase :
      (p : Phase) (r : Run es ds)
      → IsWait p
      → (ds.recv r.done ≡ ended → r.tasks ≡ 0)
      → InPhase p r
      → InPhase (drain_turn es ds p r).0 (drain_turn es ds p r).1
  unfolding drain_turn
  drain_turn-InPhase p r w gone h = drain_polled-InPhase p (ds.recv r.done) r w gone refl h

  -- A result of accept taken after the request ends the loop.
  pub after_accept-InPhase :
      (answer : Next × WorkerState) (r : Run es ds)
      → Tells r.shutdown_requested r.state answer
      → InPhase accepting r
      → let late : ℕ = if r.shutdown_requested then suc r.late else r.late in
        let turned = after_accept es ds answer (record r { late = late }) in
        InPhase turned.0 turned.1
  unfolding after_accept spawn_session leave_loop
  after_accept-InPhase (Next.spawns, s) r (_, stop) (late, open_yet, whole) =
      rw stop (late, open_yet, whole)
  after_accept-InPhase (Next.rejects, s) r (_, stop) (late, open_yet, whole) =
      rw stop (late, open_yet, whole)
  after_accept-InPhase (Next.backs_off, s) r (_, stop) (late, open_yet, whole) =
      rw stop (late, open_yet, whole)
  after_accept-InPhase (Next.breaks, s) r (_, stop) (late, open_yet, whole) =
      rw stop (refl, omega arith, open_yet, whole)
