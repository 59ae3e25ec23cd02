-- ===== src/Worker/Events/Outcomes.antt =====
-- What each outcome of an offer is for the channel and its slots.
use uring_mqtt.Common.{
  ℕ, ◌+◌, ◌%◌, ◌^◌, Bool, true, false, Option, none, some, List, [], ◌∷◌, ◌++◌, ◌≡◌, ◌⊎◌, inl, inr,
  refl, sym, ap, ◌∙◌, length, length-append, suc, arith, Bool-cases, Option-cases, not, ◌&&◌, ◌==◌,
  if◌then◌else◌,
}
use uring_mqtt.Worker.Events.{
  LocalSync, Admission, enqueued, enqueued_after_hold, dropped, receiver_closed, no_reply_time,
  Started, returned, held, Wait, granted, closed, gone, EventChannel, note_dropped, enqueue,
  offer_now, after_offer, admit_start, drop_slot, admit_end,
}
use uring_mqtt.Worker.Events.Ledger.{Documented}

-- The slots that are out, with the one that such a wait holds.
abbrev pub before : Wait → ℕ → ℕ
before granted out = suc out
before closed out = out
before (gone true) out = suc out
before (gone false) out = out

module _ {A : Type 0} (sync : LocalSync A) (queue : sync.Channel → List A)
    (shut : sync.Semaphore → Bool) (doc : Documented sync queue shut) where
  open sync use {
    Channel, Semaphore, channel, is_closed, send, recv, close, semaphore, available_permits,
    try_acquire, add_permits, close_semaphore,
  }

  -- The slots: queued, free, and `out`; the semaphore is open while the channel is.
  abbrev pub Slots : ℕ → EventChannel sync → Type 0
  Slots out c =
      ((is_closed c.tx ≡ true) ⊎ (shut c.room ≡ false))
      × (c.depth ≡ length (queue c.tx))
      × (c.depth + available_permits c.room + out ≡ 1024)

  abbrev pub IsQueued : Admission → Type 0
  IsQueued a = (a ≡ enqueued) ⊎ (a ≡ enqueued_after_hold)

  abbrev pub IsDrop : Admission → Type 0
  IsDrop a = (a ≡ dropped) ⊎ (a ≡ no_reply_time)

  -- What an outcome is for the channel.
  abbrev pub Outcome : A → Admission → EventChannel sync → EventChannel sync → Type 0
  Outcome p a c c' =
      (IsQueued a × (queue c'.tx ≡ queue c.tx ++ (p ∷ [])) × (c'.dropped ≡ c.dropped))
      ⊎ (IsDrop a × (queue c'.tx ≡ queue c.tx) × (c'.dropped ≡ (c.dropped + 1) % 2 ^ 64))
      ⊎ ((a ≡ receiver_closed) × (queue c'.tx ≡ queue c.tx) × (c'.dropped ≡ c.dropped))

  enqueue-Outcome :
      (p : A) (a : Admission) (c : EventChannel sync) (out : ℕ)
      → IsQueued a
      → Slots (suc out) c
      → Slots out (enqueue sync p a c).1 × Outcome p (enqueue sync p a c).0 c (enqueue sync p a c).1
  unfolding enqueue
  enqueue-Outcome p a c out q (open_, deep, all) = elim (Option-cases (send p c.tx)) [
    | inr (tx, e) ↦
        let (same, longer) = doc.sends p c.tx tx e in
        let long = length-append (queue c.tx) (p ∷ []) in
        rw (e, enqueue)
          (
            (ground arith, ap (λ n. n + 1) deep ∙ sym (ap length longer ∙ long), omega arith),
            inl (q, longer, refl),
          )
    | inl e ↦
        let (same, more) = doc.adds 1 c.room in
        rw (e, enqueue) ((ground arith, deep, omega (arith, more)), inr (inr (refl, refl, refl)))
  ]

  drop_slot-Slots :
      (slot : Bool) (c : EventChannel sync) (out : ℕ)
      → Slots (if slot then suc out else out) c
      → Slots out (drop_slot sync slot c)
        × (queue (drop_slot sync slot c).tx ≡ queue c.tx)
        × ((drop_slot sync slot c).dropped ≡ (c.dropped + 1) % 2 ^ 64)
  unfolding drop_slot note_dropped
  drop_slot-Slots true c out (open_, deep, all) =
      let (same, more) = doc.adds 1 c.room in
      ((ground arith, deep, omega (arith, more)), refl, refl)
  drop_slot-Slots false c out h = (h, refl, refl)

  abbrev OnOffer : ℕ → A → EventChannel sync → Option Admission × EventChannel sync → Type 0
  OnOffer out p c (some a, c') = Slots out c' × Outcome p a c c'
  OnOffer out p c (none, c') = c' ≡ c

  offer_now-OnOffer :
      (p : A) (c : EventChannel sync) (out : ℕ) → Slots out c → OnOffer out p c (offer_now sync p c)
  unfolding offer_now
  offer_now-OnOffer p c out (open_, deep, all) = elim (Bool-cases (is_closed c.tx)) [
    | inl shut_ ↦ rw shut_ ((open_, deep, all), inr (inr (refl, refl, refl)))
    | inr opened ↦ elim (Option-cases (try_acquire c.room)) [
      | inl full ↦ rw (opened, full) refl
      | inr (room, e) ↦
          let (same, fewer) = doc.takes c.room room e in
          rw (opened, e)
            (enqueue-Outcome p enqueued (record c { room = room }) out (inl refl)
              (ground arith, deep, omega (arith, fewer)))
    ]
  ]

  -- A call that returns has an outcome, and one that waits has changed nothing.
  abbrev pub OnStart : ℕ → A → EventChannel sync → Started × EventChannel sync → Type 0
  OnStart out p c (returned a, c') = Slots out c' × Outcome p a c c'
  OnStart out p c (held, c') = c' ≡ c

  counted :
      (p : A) (a : Admission) (c : EventChannel sync) (out : ℕ)
      → IsDrop a
      → Slots out c
      → Slots out (note_dropped sync c) × Outcome p a c (note_dropped sync c)
  unfolding note_dropped
  counted p a c out d h = (h, inr (inl (d, refl, refl)))

  after_offer-OnStart :
      (p : A) (wait : ℕ) (c : EventChannel sync) (out : ℕ)
      (r : Option Admission × EventChannel sync)
      → Slots out c
      → OnOffer out p c r
      → OnStart out p c (after_offer sync wait r)
  unfolding after_offer
  after_offer-OnStart p wait c out (some a, c') h o = o
  after_offer-OnStart p wait c out (none, c') h o = elim (Bool-cases (wait == 0)) [
    | inl now ↦ rw (now, o) (counted p dropped c out (inl refl) h)
    | inr later ↦ rw later o
  ]

  pub admit_start-OnStart :
      (p : A) (wait : ℕ) (expired : Bool) (c : EventChannel sync) (out : ℕ)
      → Slots out c
      → OnStart out p c (admit_start sync p wait expired c)
  unfolding admit_start
  admit_start-OnStart p wait expired c out h = elim (Bool-cases (expired && not (is_closed c.tx))) [
    | inl late ↦ rw late (counted p no_reply_time c out (inr refl) h)
    | inr timely ↦
        rw timely
          (after_offer-OnStart p wait c out (offer_now sync p c) h (offer_now-OnOffer p c out h))
  ]

  pub admit_end-Outcome :
      (w : Wait) (p : A) (expired : Bool) (c : EventChannel sync) (out : ℕ)
      → Slots (before w out) c
      → Slots out (admit_end sync w p expired c).1
        × Outcome p (admit_end sync w p expired c).0 c (admit_end sync w p expired c).1
  unfolding admit_end
  admit_end-Outcome granted p false c out h =
      enqueue-Outcome p enqueued_after_hold c out (inr refl) h
  admit_end-Outcome granted p true c out h =
      let (slots, same, more) = drop_slot-Slots true c out h in
      (slots, inr (inl (inr refl, same, more)))
  admit_end-Outcome closed p expired c out h = (h, inr (inr (refl, refl, refl)))
  admit_end-Outcome (gone true) p expired c out h =
      let (slots, same, more) = drop_slot-Slots true c out h in
      (slots, inr (inl (inl refl, same, more)))
  admit_end-Outcome (gone false) p expired c out h =
      let (slots, same, more) = drop_slot-Slots false c out h in
      (slots, inr (inl (inl refl, same, more)))
