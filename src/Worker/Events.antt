-- ===== src/Worker/Events.antt =====
-- The event channel between a worker's connections and its callback. A wait for a slot is split at
-- the place where it suspends: `admit_start` runs up to it, and `admit_end` from there on.
pub mod Ledger
pub mod Outcomes
pub mod Accounts
use uring_mqtt.Common.{
  ℕ, ◌+◌, ◌-◌, ◌%◌, ◌^◌, Bool, true, false, not, ltb, ◌||◌, ◌&&◌, Option, none, some, ◌==◌,
  if◌then◌else◌,
}

-- local-sync's unbounded channel and semaphore, which are not part of this repository. `send` is
-- `none` where it fails; `recv` is a call that has returned; `try_acquire` takes a permit for good.
pub record LocalSync (A : Type 0) : Type 1 where
  pub Channel : Type 0
  pub Semaphore : Type 0
  pub channel : Channel
  pub is_closed : Channel → Bool
  pub send : A → Channel → Option Channel
  pub recv : Channel → Option A × Channel
  pub close : Channel → Channel
  pub semaphore : ℕ → Semaphore
  pub available_permits : Semaphore → ℕ
  pub try_acquire : Semaphore → Option Semaphore
  pub add_permits : ℕ → Semaphore → Semaphore
  pub close_semaphore : Semaphore → Semaphore

abbrev pub event_channel_capacity : ℕ
event_channel_capacity = 1024

abbrev count_log_every : ℕ
count_log_every = 100

unfoldable pub should_log_count : ℕ → Bool
should_log_count total = total == 1 || (ltb 0 total && total % count_log_every == 0)

pub data Admission : Type 0 where
  enqueued enqueued_after_hold dropped receiver_closed no_reply_time : Admission

-- How far a call of `admit_with` gets before it suspends.
pub data Started : Type 0 where
  returned : Admission → Started
  held : Started

-- How a wait ends: with a slot, with the semaphore closed, or with its time over or its future dropped.
-- In the last case a slot may have been granted that the wait had not seen yet.
pub data Wait : Type 0 where
  granted closed : Wait
  gone : (unseen_slot : Bool) → Wait

module _ {A : Type 0} (sync : LocalSync A) where
  open sync use {
    Channel, Semaphore, channel, is_closed, send, recv, close, semaphore, available_permits,
    try_acquire, add_permits, close_semaphore,
  }

  -- `EventChannelState`, with the channel.
  pub record EventChannel : Type 0 where
    pub tx : Channel
    pub depth : ℕ
    pub dropped : ℕ
    pub room : Semaphore

  unfoldable pub event_channel : ℕ → EventChannel
  event_channel total = record {
    tx = channel;
    depth = 0;
    dropped = total;
    room = semaphore event_channel_capacity;
  }

  -- `fetch_add` on u64 wraps.
  unfoldable pub note_dropped : EventChannel → EventChannel
  note_dropped c = record c { dropped = (c.dropped + 1) % 2 ^ 64 }

  unfoldable pub enqueue : A → Admission → EventChannel → Admission × EventChannel
  enqueue publish admitted c = elim (send publish c.tx) [
    | some tx ↦ (admitted, record c { tx = tx; depth = c.depth + 1 })
    | none ↦ (receiver_closed, record c { room = add_permits 1 c.room })
  ]

  -- `none` hands the publish back.
  unfoldable pub offer_now : A → EventChannel → Option Admission × EventChannel
  unfolding enqueue
  offer_now publish c =
      if is_closed c.tx then (some receiver_closed, c) else elim (try_acquire c.room) [
        | some room ↦
            let (admission, next) = enqueue publish enqueued (record c { room = room }) in
            (some admission, next)
        | none ↦ (none, c)
      ]

  unfoldable pub would_hold : EventChannel → Bool
  would_hold c = not (is_closed c.tx) && available_permits c.room == 0

  -- What follows `offer_now`.
  unfoldable pub after_offer : ℕ → Option Admission × EventChannel → Started × EventChannel
  unfolding note_dropped
  after_offer wait (some admission, c) = (returned admission, c)
  after_offer wait (none, c) = if wait == 0 then (returned dropped, note_dropped c) else (held, c)

  -- `expired` is `Instant::now() >= reply_by`.
  unfoldable pub admit_start : A → ℕ → Bool → EventChannel → Started × EventChannel
  unfolding note_dropped offer_now after_offer
  admit_start publish wait expired c =
      if expired && not (is_closed c.tx)
      then (returned no_reply_time, note_dropped c)
      else after_offer wait (offer_now publish c)

  -- The drop of `SlotWait`: a slot that was granted and not seen goes back, and an outcome that is
  -- not settled counts as dropped.
  unfoldable pub drop_slot : Bool → EventChannel → EventChannel
  unfolding note_dropped
  drop_slot slot c = note_dropped (if slot then record c { room = add_permits 1 c.room } else c)

  unfoldable pub admit_end : Wait → A → Bool → EventChannel → Admission × EventChannel
  unfolding enqueue drop_slot
  admit_end granted publish expired c =
      if expired then (no_reply_time, drop_slot true c) else enqueue publish enqueued_after_hold c
  admit_end closed publish expired c = (receiver_closed, c)
  admit_end (gone unseen_slot) publish expired c = (dropped, drop_slot unseen_slot c)

  -- `EventReceiver::recv`
  unfoldable pub receive : EventChannel → Option A × EventChannel
  receive c =
      let (item, rx) = recv c.tx in
      elim item [
        | none ↦ (none, record c { tx = rx })
        | some publish ↦
            (some publish, record c { tx = rx; depth = c.depth - 1; room = add_permits 1 c.room })
      ]

  -- The drop of `EventReceiver`.
  unfoldable pub drop_receiver : EventChannel → EventChannel
  drop_receiver c = record c { tx = close c.tx; room = close_semaphore c.room }
