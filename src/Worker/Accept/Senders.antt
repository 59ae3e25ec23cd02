-- ===== src/Worker/Accept/Senders.antt =====
-- The senders that the worker and its sessions hold, and what the channels have of them.
use uring_mqtt.Common.{
  ℕ, suc, ◌+◌, ◌≡◌, true, false, Option, none, some, List, [], ◌∷◌, ◌++◌, refl, sym, ap, ◌∙◌, subst,
  arith, inl, inr, Bool-cases,
}
use mathlib.Core.List.{append_assoc}
use uring_mqtt.Worker.Slots.{WorkerState, End, end_task}
use uring_mqtt.Worker.Accept.{
  Poll, item, ended, pending, Mpsc, Phase, accepting, draining, force_closing, delivering, returned,
  Run, first_run, spawn_session, session_gone, give_back, end_session, leave_loop, drain_polled,
  drain_turn, process_polled, process_event,
}

-- What is documented of the channel: it keeps its messages in order, and its end is received when, and
-- only when, every sender was dropped and no message is left.
module _ {A : Type 0} (sync : Mpsc A) where
  open sync use {Channel, channel, clone_sender, drop_sender, send, recv}

  pub record CountsSenders (queue : Channel → List A) (senders : Channel → ℕ) : Type 0 where
    pub fresh : (queue channel ≡ []) × (senders channel ≡ 1)
    pub clones :
        (c : Channel)
        → (queue (clone_sender c) ≡ queue c) × (senders (clone_sender c) ≡ suc (senders c))
    pub drops :
        (c : Channel) (n : ℕ)
        → senders c ≡ suc n
        → (queue (drop_sender c) ≡ queue c) × (senders (drop_sender c) ≡ n)
    pub sends :
        (x : A) (c : Channel)
        → (queue (send x c) ≡ queue c ++ (x ∷ [])) × (senders (send x c) ≡ senders c)
    pub receives :
        (x : A) (c c' : Channel)
        → recv c ≡ item x c'
        → (queue c ≡ x ∷ queue c') × (senders c' ≡ senders c)
    pub ends : (c : Channel) → recv c ≡ ended → (queue c ≡ []) × (senders c ≡ 0)
    pub finishes : (c : Channel) → queue c ≡ [] → senders c ≡ 0 → recv c ≡ ended

-- The senders that the worker itself holds.
abbrev pub own_done : Phase → ℕ
own_done accepting = 1
own_done p = 0

abbrev pub own_event : Phase → ℕ
own_event accepting = 1
own_event draining = 1
own_event force_closing = 1
own_event p = 0

-- The two phases of the wait for the sessions.
abbrev pub IsWait : Phase → Type 0
IsWait draining = Unit {0}
IsWait force_closing = Unit {0}
IsWait p = ⊥

pub wait_own : (p : Phase) → IsWait p → (own_done p ≡ 0) × (own_event p ≡ 1)
wait_own accepting w = absurd w
wait_own delivering w = absurd w
wait_own returned w = absurd w
wait_own draining w = (refl, refl)
wait_own force_closing w = (refl, refl)

module _ {A : Type 0} (es : Mpsc A) (ds : Mpsc (Unit {0})) (equeue : es.Channel → List A)
    (esenders : es.Channel → ℕ) (dqueue : ds.Channel → List (Unit {0})) (dsenders : ds.Channel → ℕ)
    (elaws : CountsSenders es equeue esenders) (dlaws : CountsSenders ds dqueue dsenders) where
  -- Every sender is one of the worker's or of a session, and what was sent was called or is queued.
  abbrev pub Held : Phase → Run es ds → Type 0
  Held p r =
      (dsenders r.done ≡ r.tasks + own_done p)
      × (dqueue r.done ≡ [])
      × (esenders r.events ≡ r.tasks + own_event p)
      × (r.called ++ equeue r.events ≡ r.sent)
      × (r.processor_ended ≡ true → (esenders r.events ≡ 0) × (equeue r.events ≡ []))

  pub first-Held : (worker_id max : ℕ) → Held accepting (first_run es ds worker_id max)
  first-Held worker_id max =
      let (dq, dn) = dlaws.fresh in
      let (eq, en) = elaws.fresh in (omega arith, dq, omega arith, eq, (λ e. absurd cc))

  -- With a sender left, the processor has not ended.
  pub still_runs :
      (p : Phase) (r : Run es ds) (n : ℕ)
      → Held p r
      → esenders r.events ≡ suc n
      → r.processor_ended ≡ false
  still_runs p r n (_, _, _, _, over) e = elim (Bool-cases r.processor_ended) [
    | inl at_end ↦ let (none_left, _) = over at_end in absurd (omega arith)
    | inr running ↦ running
  ]

  pub spawn_session-Held :
      (s : WorkerState) (r : Run es ds)
      → Held accepting r
      → Held accepting (spawn_session es ds s r)
  unfolding spawn_session
  spawn_session-Held s r held =
      let (dn, dq, en, called, over) = held in
      let (dq', dn') = dlaws.clones r.done in
      let (eq', en') = elaws.clones r.events in
      let running = still_runs accepting r r.tasks held (omega arith) in
      (omega arith, dq' ∙ dq, omega arith, ap (λ l. r.called ++ l) eq' ∙ called, (λ e. absurd cc))

  pub leave_loop-Held : (r : Run es ds) → Held accepting r → Held draining (leave_loop es ds r)
  unfolding leave_loop
  leave_loop-Held r (dn, dq, en, called, over) =
      let (dq', dn') = dlaws.drops r.done r.tasks (omega arith) in
      (omega arith, dq' ∙ dq, omega arith, called, over)

  pub send-Held :
      (p : Phase) (r : Run es ds) (n : ℕ) (publish : A)
      → r.tasks ≡ suc n
      → Held p r
      → Held p (record r { events = es.send publish r.events; sent = r.sent ++ (publish ∷ []) })
  send-Held p r n publish t held =
      let (dn, dq, en, called, over) = held in
      let (eq', en') = elaws.sends publish r.events in
      let running = still_runs p r (n + own_event p) held (omega arith) in
      (
        dn,
        dq,
        omega arith,
        ap (λ l. r.called ++ l) eq'
            ∙ (sym (append_assoc r.called (equeue r.events) (publish ∷ []))
                ∙ ap (λ l. l ++ (publish ∷ [])) called),
        (λ e. absurd cc),
      )

  give_back-Held :
      (p : Phase) (e : End) (o : Option WorkerState) (r r' : Run es ds) (n : ℕ)
      → r.tasks ≡ suc n
      → give_back es ds e o r ≡ some r'
      → Held p r
      → Held p r'
  give_back-Held p e none r r' n t ends held = absurd cc
  give_back-Held p e (some s) r r' n t ends held =
      let (dn, dq, en, called, over) = held in
      let (dq', dn') = dlaws.drops r.done (n + own_done p) (omega arith) in
      let (eq', en') = elaws.drops r.events (n + own_event p) (omega arith) in
      let running = still_runs p r (n + own_event p) held (omega arith) in
      let same : session_gone es ds e s r ≡ r' = cc in
      subst (Held p) same (
        omega arith,
        dq' ∙ dq,
        omega arith,
        ap (λ l. r.called ++ l) eq' ∙ called,
        (λ at_end. absurd cc),
      )

  pub end_session-Held :
      (p : Phase) (e : End) (r r' : Run es ds) (n : ℕ)
      → r.tasks ≡ suc n
      → end_session es ds e r ≡ some r'
      → Held p r
      → Held p r'
  unfolding end_session
  end_session-Held p e r r' n t ends held =
      give_back-Held p e (end_task e r.state) r r' n t ends held

  process_polled-Held :
      (p : Phase) (poll : Poll A es.Channel) (r : Run es ds)
      → es.recv r.events ≡ poll
      → r.processor_ended ≡ false
      → Held p r
      → Held p (process_polled es ds poll r)
  process_polled-Held p (item publish events) r e running (dn, dq, en, called, over) =
      let (eq', en') = elaws.receives publish r.events events e in
      (
        dn,
        dq,
        omega arith,
        append_assoc r.called (publish ∷ []) (equeue events)
            ∙ (ap (λ l. r.called ++ l) (sym eq') ∙ called),
        (λ at_end. absurd cc),
      )
  process_polled-Held p ended r e running (dn, dq, en, called, over) =
      let (empty, none_left) = elaws.ends r.events e in
      (dn, dq, en, called, (λ _. (none_left, empty)))
  process_polled-Held p pending r e running held = held

  pub process_event-Held :
      (p : Phase) (r : Run es ds)
      → r.processor_ended ≡ false
      → Held p r
      → Held p (process_event es ds r)
  unfolding process_event
  process_event-Held p r running held = process_polled-Held p (es.recv r.events) r refl running held

  drain_polled-Held :
      (p : Phase) (poll : Poll (Unit {0}) ds.Channel) (r : Run es ds)
      → IsWait p
      → ds.recv r.done ≡ poll
      → Held p r
      → Held (drain_polled es ds p poll r).0 (drain_polled es ds p poll r).1
  drain_polled-Held p (item x done) r w e (dn, dq, en, called, over) =
      let (dq', _) = dlaws.receives x r.done done e in
      let no_message : x ∷ dqueue done ≡ [] = sym dq' ∙ dq in absurd cc
  drain_polled-Held p ended r w e held =
      let (dn, dq, en, called, over) = held in
      let (no_done, one_event) = wait_own p w in
      let (_, none_left) = dlaws.ends r.done e in
      let (eq', en') = elaws.drops r.events r.tasks (omega arith) in
      let running = still_runs p r r.tasks held (omega arith) in
      (omega arith, dq, omega arith, ap (λ l. r.called ++ l) eq' ∙ called, (λ at_end. absurd cc))
  drain_polled-Held p pending r w e held = held

  pub drain_turn-Held :
      (p : Phase) (r : Run es ds)
      → IsWait p
      → Held p r
      → Held (drain_turn es ds p r).0 (drain_turn es ds p r).1
  unfolding drain_turn
  drain_turn-Held p r w held = drain_polled-Held p (ds.recv r.done) r w refl held
