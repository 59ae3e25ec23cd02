-- ===== src/Worker/Events/Accounts.antt =====
-- Every publish that was offered is accounted for, in every state that the channel reaches.
use uring_mqtt.Common.{
  ℕ, ◌+◌, ◌-◌, ◌%◌, ◌^◌, ◌<◌, Bool, true, false, Option, none, some, List, [], ◌∷◌, ◌++◌, ◌≡◌, ◌↔◌,
  inl, inr, refl, sym, ap, ◌∙◌, subst, length, length-append, suc, arith, Bool-cases, Option-cases,
  ◌==◌,
}
use mathlib.Core.List.{append_assoc}
use uring_mqtt.Worker.Events.{
  LocalSync, Admission, enqueued, enqueued_after_hold, dropped, receiver_closed, no_reply_time,
  Wait, granted, closed, gone, EventChannel, event_channel, admit_end, receive, drop_receiver,
  offer_now, would_hold,
}
use uring_mqtt.Worker.Events.Ledger.{Documented, System, start, settled, Step, Reaches}
use uring_mqtt.Worker.Events.Outcomes.{
  Slots, Outcome, OnStart, admit_start-OnStart, admit_end-Outcome, before,
}

module _ {A : Type 0} (sync : LocalSync A) (queue : sync.Channel → List A)
    (shut : sync.Semaphore → Bool) (doc : Documented sync queue shut) where
  open sync use {
    Channel, Semaphore, channel, is_closed, send, recv, close, semaphore, available_permits,
    try_acquire, add_permits, close_semaphore,
  }

  -- The books of a system, before the outcomes of `open_` offers are in them, for the channel `c` and
  -- the drop total at the start.
  abbrev Books : ℕ → ℕ → EventChannel sync → System sync → Type 0
  Books total open_ c s =
      (s.sent ≡ s.received ++ queue c.tx)
      × (s.offers ≡ length s.sent + s.drops + s.discards + open_)
      × (c.dropped ≡ (total + s.drops) % 2 ^ 64)

  sent_one :
      (total open_ : ℕ) (p : A) (c c' : EventChannel sync) (s : System sync)
      → queue c'.tx ≡ queue c.tx ++ (p ∷ [])
      → c'.dropped ≡ c.dropped
      → Books total (suc open_) c s
      → Books total open_ c' (record s { sent = s.sent ++ (p ∷ []) })
  sent_one total open_ p c c' s longer same (order, sum, drops) = (
    ap (λ l. l ++ (p ∷ [])) order
        ∙ append_assoc s.received (queue c.tx) (p ∷ [])
        ∙ ap (λ l. s.received ++ l) (sym longer),
    omega (arith, length-append s.sent (p ∷ [])),
    same ∙ drops,
  )

  dropped_one :
      (total open_ : ℕ) (c c' : EventChannel sync) (s : System sync)
      → queue c'.tx ≡ queue c.tx
      → c'.dropped ≡ (c.dropped + 1) % 2 ^ 64
      → Books total (suc open_) c s
      → Books total open_ c' (record s { drops = s.drops + 1 })
  dropped_one total open_ c c' s same more (order, sum, drops) =
      (order ∙ ap (λ l. s.received ++ l) (sym same), omega arith, omega arith)

  discarded_one :
      (total open_ : ℕ) (c c' : EventChannel sync) (s : System sync)
      → queue c'.tx ≡ queue c.tx
      → c'.dropped ≡ c.dropped
      → Books total (suc open_) c s
      → Books total open_ c' (record s { discards = s.discards + 1 })
  discarded_one total open_ c c' s same total_same (order, sum, drops) =
      (order ∙ ap (λ l. s.received ++ l) (sym same), omega arith, total_same ∙ drops)

  settled-Books :
      (total open_ : ℕ) (p : A) (a : Admission) (c : EventChannel sync) (s : System sync)
      → Outcome sync queue shut doc p a c s.events
      → Books total (suc open_) c s
      → Books total open_ s.events (settled sync p a s)
  settled-Books total open_ p enqueued c s (inl (_, longer, same)) b =
      sent_one total open_ p c s.events s longer same b
  settled-Books total open_ p enqueued_after_hold c s (inl (_, longer, same)) b =
      sent_one total open_ p c s.events s longer same b
  settled-Books total open_ p dropped c s (inr (inl (_, same, more))) b =
      dropped_one total open_ c s.events s same more b
  settled-Books total open_ p no_reply_time c s (inr (inl (_, same, more))) b =
      dropped_one total open_ c s.events s same more b
  settled-Books total open_ p receiver_closed c s (inr (inr (_, same, more))) b =
      discarded_one total open_ c s.events s same more b
  settled-Books total open_ p enqueued c s (inr (inl (d, _, _))) b = ground arith
  settled-Books total open_ p enqueued_after_hold c s (inr (inl (d, _, _))) b = ground arith
  settled-Books total open_ p dropped c s (inl (q, _, _)) b = ground arith
  settled-Books total open_ p no_reply_time c s (inl (q, _, _)) b = ground arith
  settled-Books total open_ p receiver_closed c s (inl (q, _, _)) b = ground arith
  settled-Books total open_ p receiver_closed c s (inr (inl (d, _, _))) b = ground arith
  settled-Books total open_ p a c s (inr (inr (e, _, _))) b = cc

  -- In a sound state every slot of the channel is queued, free, or reserved for a wait, and the depth
  -- is the number of queued publishes. What was sent is what was received, followed by what is queued,
  -- in that order. Every offer was sent, dropped, or discarded, or is still held; and the drop total
  -- counts the drops.
  abbrev pub IsSound : ℕ → System sync → Type 0
  IsSound total s =
      Slots sync queue shut doc s.reserved s.events
      × Books total (s.waiting + s.reserved) s.events s

  start-IsSound : (total : ℕ) → total < 2 ^ 64 → IsSound total (start sync total)
  unfolding event_channel
  start-IsSound total small =
      let (open_, empty) = doc.fresh_room 1024 in
      (
        (inr open_, sym (ap length doc.fresh_queue), omega (arith, empty)),
        (sym doc.fresh_queue, refl, omega arith),
      )

  settled-IsSound :
      (total : ℕ) (p : A) (a : Admission) (c : EventChannel sync) (t : System sync)
      → Slots sync queue shut doc t.reserved t.events
      → Outcome sync queue shut doc p a c t.events
      → Books total (suc (t.waiting + t.reserved)) c t
      → IsSound total (settled sync p a t)
  settled-IsSound total p enqueued c t h o b = (h, settled-Books total _ p enqueued c t o b)
  settled-IsSound total p enqueued_after_hold c t h o b =
      (h, settled-Books total _ p enqueued_after_hold c t o b)
  settled-IsSound total p dropped c t h o b = (h, settled-Books total _ p dropped c t o b)
  settled-IsSound total p receiver_closed c t h o b =
      (h, settled-Books total _ p receiver_closed c t o b)
  settled-IsSound total p no_reply_time c t h o b =
      (h, settled-Books total _ p no_reply_time c t o b)

  ended-IsSound :
      (total : ℕ) (w : Wait) (p : A) (expired : Bool) (a : Admission) (s t : System sync)
      → admit_end sync w p expired s.events ≡ (a, t.events)
      → Slots sync queue shut doc (before w t.reserved) s.events
      → Books total (suc (t.waiting + t.reserved)) s.events t
      → IsSound total (settled sync p a t)
  ended-IsSound total w p expired a s t e slots books =
      let (h, o) =
        subst
          (λ r.
            Slots sync queue shut doc t.reserved r.1
            × Outcome sync queue shut doc p r.0 s.events r.1)
          e (admit_end-Outcome sync queue shut doc w p expired s.events t.reserved slots) in
      settled-IsSound total p a s.events t h o books

  -- A publish that is received was the first one of the queue, and its slot is free.
  abbrev OnReceive : ℕ → EventChannel sync → Option A × EventChannel sync → Type 0
  OnReceive out c (none, c') = Unit {0}
  OnReceive out c (some p, c') =
      Slots sync queue shut doc out c' × (queue c.tx ≡ p ∷ queue c'.tx) × (c'.dropped ≡ c.dropped)

  receive-OnReceive :
      (c : EventChannel sync) (out : ℕ)
      → Slots sync queue shut doc out c
      → OnReceive out c (receive sync c)
  unfolding receive
  receive-OnReceive c out (open_, deep, all) = elim (Option-cases (recv c.tx).0) [
    | inl nothing ↦
        let idle : receive sync c ≡ (none, record c { tx = (recv c.tx).1 }) =
          rw (nothing, receive) refl in
        subst (OnReceive out c) (sym idle) tt
    | inr (x, found) ↦
        let (same, front) = doc.receives x c.tx (recv c.tx).1 (λ i. (found i, (recv c.tx).1)) in
        let (same_room, more) = doc.adds 1 c.room in
        let deep' : c.depth ≡ suc (length (queue (recv c.tx).1)) = deep ∙ ap length front in
        let next : EventChannel sync = record c {
          tx = (recv c.tx).1;
          depth = c.depth - 1;
          room = add_permits 1 c.room;
        } in
        let taken : receive sync c ≡ (some x, next) = rw (found, receive) refl in
        subst (OnReceive out c) (sym taken)
          ((ground arith, omega arith, omega (arith, more)), front, refl)
  ]

  Step-IsSound : (total : ℕ) (s t : System sync) → Step sync s t → IsSound total s → IsSound total t
  Step-IsSound total _ _ (Step.offer_settles s p wait expired a c e) (slots, books) =
      let (h, o) =
        subst (OnStart sync queue shut doc s.reserved p s.events) e
          (admit_start-OnStart sync queue shut doc p wait expired s.events s.reserved slots) in
      settled-IsSound total p a s.events (record s { events = c; offers = s.offers + 1 }) h o
        (books.0, omega (arith, books.1), books.2)
  Step-IsSound total _ _ (Step.offer_held s p wait expired c e) (slots, books) =
      let same =
        subst (OnStart sync queue shut doc s.reserved p s.events) e
          (admit_start-OnStart sync queue shut doc p wait expired s.events s.reserved slots) in
      rw same (slots, (books.0, omega (arith, books.1), books.2))
  Step-IsSound total _ _ (Step.grants s n room w e) (slots, books) =
      let (same, fewer) = doc.takes s.events.room room e in
      (
        (ground (arith, slots.0), slots.1, omega (arith, slots.2, fewer)),
        (books.0, omega (arith, books.1), books.2),
      )
  Step-IsSound total _ _ (Step.resumes s n p expired a c r e) (slots, books) =
      ended-IsSound total granted p expired a s (record s { events = c; reserved = n }) e
        (rw r at slots) (books.0, omega (arith, books.1), books.2)
  Step-IsSound total _ _ (Step.finds_closed s n p expired a c w e) (slots, books) =
      ended-IsSound total closed p expired a s (record s { events = c; waiting = n }) e slots
        (books.0, omega (arith, books.1), books.2)
  Step-IsSound total _ _ (Step.gives_up s n p expired a c w e) (slots, books) =
      ended-IsSound total (gone false) p expired a s (record s { events = c; waiting = n }) e slots
        (books.0, omega (arith, books.1), books.2)
  Step-IsSound total _ _ (Step.gives_up_slot s n p expired a c r e) (slots, books) =
      ended-IsSound total (gone true) p expired a s (record s { events = c; reserved = n }) e
        (rw r at slots) (books.0, omega (arith, books.1), books.2)
  Step-IsSound total _ _ (Step.takes_out s p c e) (slots, books) =
      let (h, front, same) =
        subst (OnReceive s.reserved s.events) e (receive-OnReceive s.events s.reserved slots) in
      (
        h,
        (
          books.0
              ∙ ap (λ l. s.received ++ l) front
              ∙ sym (append_assoc s.received (p ∷ []) (queue c.tx)),
          books.1,
          same ∙ books.2,
        ),
      )
  Step-IsSound total _ _ (Step.receiver_drops s) (slots, books) =
      let (shut_, same_queue) = doc.closes s.events.tx in
      let (shut_room, same_room) = doc.shuts s.events.room in
      unfold drop_receiver in
      (
        (inl shut_, slots.1 ∙ sym (ap length same_queue), omega (arith, slots.2, same_room)),
        (books.0 ∙ ap (λ l. s.received ++ l) (sym same_queue), books.1, books.2),
      )

  from_IsSound :
      (total : ℕ) (s t : System sync) → Reaches sync s t → IsSound total s → IsSound total t
  from_IsSound total _ _ (Reaches.here s) h = h
  from_IsSound total _ _ (Reaches.then s t u r step) h =
      Step-IsSound total t u step (from_IsSound total s t r h)

  -- For a channel and a semaphore that work as documented, and a drop total below 2^64 at the
  -- start, in every state that offers, grants, ends of waits, receptions and the drop of the
  -- receiver reach, in any order: every one of the 1024 slots is queued, free, or reserved for a
  -- wait; the depth is the number of queued publishes; what was sent is what was received
  -- followed by what is queued; every offer was sent, dropped, or discarded, or is held; and the
  -- drop total has grown by the drops, modulo 2^64. While the channel is open its semaphore is.
  pub Reaches-IsSound :
      (total : ℕ) (s : System sync)
      → total < 2 ^ 64
      → Reaches sync (start sync total) s
      → IsSound total s
  Reaches-IsSound total s small r = from_IsSound total _ s r (start-IsSound total small)

  -- For a channel and a semaphore that work as documented, and a drop total below 2^64 at the
  -- start, in every state that the channel reaches, an offer made now is handed back exactly when
  -- `would_hold` says so.
  pub would_hold_iff :
      (total : ℕ) (s : System sync) (p : A)
      → total < 2 ^ 64
      → Reaches sync (start sync total) s
      → ((offer_now sync p s.events).0 ≡ none) ↔ (would_hold sync s.events ≡ true)
  unfolding offer_now would_hold
  would_hold_iff total s p small r =
      let (slots, books) = Reaches-IsSound total s small r in
      elim (Bool-cases (is_closed s.events.tx)) [
        | inl shut_ ↦ rw shut_ ((λ e. cc), (λ e. cc))
        | inr opened ↦ elim (Option-cases (try_acquire s.events.room)) [
          | inl full ↦
              rw (opened, full)
                (
                  (λ e'. elim (Bool-cases (available_permits s.events.room == 0)) [
                    | inl none_free ↦ rw none_free refl
                    | inr some_free ↦
                        let (room, found) =
                          doc.hands_out s.events.room (ground (arith, slots.0)) (ground arith) in
                        cc
                  ]),
                  (λ e'. refl),
                )
          | inr (room, e) ↦
              rw (opened, e)
                ((λ e. cc), (λ w. absurd (ground (arith, doc.takes s.events.room room e))))
        ]
      ]
