-- ===== src/Worker/Events/Ledger.antt =====
-- The channel as its connections and the callback use it, step by step, with an account of every
-- publish that was offered.
use uring_mqtt.Common.{ℕ, ◌+◌, Bool, true, false, none, some, List, [], ◌∷◌, ◌++◌, ◌≡◌, suc, ◌≤◌}
use uring_mqtt.Worker.Events.{
  LocalSync, Admission, enqueued, enqueued_after_hold, dropped, receiver_closed, no_reply_time,
  returned, held, granted, closed, gone, EventChannel, event_channel, admit_start, admit_end,
  receive, drop_receiver,
}

module _ {A : Type 0} (sync : LocalSync A) where
  open sync use {
    Channel, Semaphore, channel, is_closed, send, recv, close, semaphore, available_permits,
    try_acquire, add_permits, close_semaphore,
  }

  -- What is documented of the two: a closed channel takes no message, and an open one keeps them in
  -- order; a semaphore counts its permits, and an open one hands them out while it has any.
  pub record Documented (queue : Channel → List A) (shut : Semaphore → Bool) : Type 0 where
    pub fresh_queue : queue channel ≡ []
    pub fresh_open : is_closed channel ≡ false
    pub sends :
        (x : A) (c c' : Channel)
        → send x c ≡ some c'
        → (is_closed c' ≡ is_closed c) × (queue c' ≡ queue c ++ (x ∷ []))
    pub refuses :
        (x : A) (c : Channel) → is_closed c ≡ false → (c' : Channel) × (send x c ≡ some c')
    pub receives :
        (x : A) (c c' : Channel)
        → recv c ≡ (some x, c')
        → (is_closed c' ≡ is_closed c) × (queue c ≡ x ∷ queue c')
    pub waits :
        (c c' : Channel) → recv c ≡ (none, c') → (is_closed c' ≡ is_closed c) × (queue c' ≡ queue c)
    pub closes : (c : Channel) → (is_closed (close c) ≡ true) × (queue (close c) ≡ queue c)
    pub fresh_room : (n : ℕ) → (shut (semaphore n) ≡ false) × (available_permits (semaphore n) ≡ n)
    pub takes :
        (r r' : Semaphore)
        → try_acquire r ≡ some r'
        → (shut r' ≡ shut r) × (available_permits r ≡ suc (available_permits r'))
    pub hands_out :
        (r : Semaphore)
        → shut r ≡ false
        → 1 ≤ available_permits r
        → (r' : Semaphore) × (try_acquire r ≡ some r')
    pub adds :
        (n : ℕ) (r : Semaphore)
        → (shut (add_permits n r) ≡ shut r)
          × (available_permits (add_permits n r) ≡ n + available_permits r)
    pub shuts :
        (r : Semaphore)
        → (shut (close_semaphore r) ≡ true)
          × (available_permits (close_semaphore r) ≡ available_permits r)

  -- The channel, the waits without and with a slot that was granted to them, and the account: the
  -- publishes that were offered, were put into the channel, were taken out of it, counted as dropped,
  -- and discarded because the receiver is gone.
  pub record System : Type 0 where
    pub events : EventChannel sync
    pub waiting : ℕ
    pub reserved : ℕ
    pub offers : ℕ
    pub sent : List A
    pub received : List A
    pub drops : ℕ
    pub discards : ℕ

  abbrev pub start : ℕ → System
  start total = record {
    events = event_channel sync total;
    waiting = 0;
    reserved = 0;
    offers = 0;
    sent = [];
    received = [];
    drops = 0;
    discards = 0;
  }

  -- The account of one outcome.
  abbrev pub settled : A → Admission → System → System
  settled p enqueued s = record s { sent = s.sent ++ (p ∷ []) }
  settled p enqueued_after_hold s = record s { sent = s.sent ++ (p ∷ []) }
  settled p dropped s = record s { drops = s.drops + 1 }
  settled p no_reply_time s = record s { drops = s.drops + 1 }
  settled p receiver_closed s = record s { discards = s.discards + 1 }

  -- A publish is offered, and settled at once or held; the semaphore grants a slot to a wait; a wait
  -- goes on with its slot, or finds the semaphore closed, or goes away, with or without a slot; the
  -- callback takes a publish; the receiver goes away.
  pub data Step : System → System → Type 0 where
    offer_settles :
        (s : System) (p : A) (wait : ℕ) (expired : Bool) (a : Admission) (c : EventChannel sync)
        → admit_start sync p wait expired s.events ≡ (returned a, c)
        → Step s (settled p a (record s { events = c; offers = s.offers + 1 }))
    offer_held :
        (s : System) (p : A) (wait : ℕ) (expired : Bool) (c : EventChannel sync)
        → admit_start sync p wait expired s.events ≡ (held, c)
        → Step s (record s { events = c; offers = s.offers + 1; waiting = s.waiting + 1 })
    grants :
        (s : System) (n : ℕ) (room : Semaphore)
        → s.waiting ≡ suc n
        → try_acquire s.events.room ≡ some room
        → Step s (record s {
          events = record (s.events) { room = room };
          waiting = n;
          reserved = s.reserved + 1;
        })
    resumes :
        (s : System) (n : ℕ) (p : A) (expired : Bool) (a : Admission) (c : EventChannel sync)
        → s.reserved ≡ suc n
        → admit_end sync granted p expired s.events ≡ (a, c)
        → Step s (settled p a (record s { events = c; reserved = n }))
    finds_closed :
        (s : System) (n : ℕ) (p : A) (expired : Bool) (a : Admission) (c : EventChannel sync)
        → s.waiting ≡ suc n
        → admit_end sync closed p expired s.events ≡ (a, c)
        → Step s (settled p a (record s { events = c; waiting = n }))
    gives_up :
        (s : System) (n : ℕ) (p : A) (expired : Bool) (a : Admission) (c : EventChannel sync)
        → s.waiting ≡ suc n
        → admit_end sync (gone false) p expired s.events ≡ (a, c)
        → Step s (settled p a (record s { events = c; waiting = n }))
    gives_up_slot :
        (s : System) (n : ℕ) (p : A) (expired : Bool) (a : Admission) (c : EventChannel sync)
        → s.reserved ≡ suc n
        → admit_end sync (gone true) p expired s.events ≡ (a, c)
        → Step s (settled p a (record s { events = c; reserved = n }))
    takes_out :
        (s : System) (p : A) (c : EventChannel sync)
        → receive sync s.events ≡ (some p, c)
        → Step s (record s { events = c; received = s.received ++ (p ∷ []) })
    receiver_drops : (s : System) → Step s (record s { events = drop_receiver sync s.events })

  pub data Reaches : System → System → Type 0 where
    here : (s : System) → Reaches s s
    then : (s t u : System) → Reaches s t → Step t u → Reaches s u
