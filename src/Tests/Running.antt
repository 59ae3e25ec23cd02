-- ===== src/Tests/Running.antt =====
-- The event channel over a list and a counter, a worker with one slot, turns of the packet loop, and
-- a session.
use uring_mqtt.Common.{
  ℕ, zero, suc, ◌+◌, ◌<◌, ◌≤◌, Bool, true, false, Option, none, some, List, [], ◌∷◌, ◌++◌, ◌≡◌, ◌⊎◌,
  ◌↔◌, refl, arith, replicate,
}
use uring_mqtt.Codec.Protocol.{mqtt5}
use uring_mqtt.Packet.Size.{Encoder}
use uring_mqtt.Worker.Slots.{
  WorkerState, new, try_acquire, violation, end_task, Serves, slots_balance,
}
use uring_mqtt.Worker.Events.{
  LocalSync, EventChannel, enqueued, returned, event_channel, admit_start, offer_now, after_offer,
  would_hold, enqueue,
}
use uring_mqtt.Worker.Events.Ledger.{Documented, System, start, settled, Step, Reaches}
use uring_mqtt.Worker.Events.Accounts.{IsSound, Reaches-IsSound, would_hold_iff}
use uring_mqtt.Session.Always.{Always}
use uring_mqtt.Session.Allowed.{Allowed}
use uring_mqtt.Session.PacketLoop.{first_state, run_packet_loop}
use uring_mqtt.Session.PacketLoop.Safe.{LoopEnds, run_packet_loop-Allowed}
use uring_mqtt.Codec.Bound.{default_bound}
use uring_mqtt.Session.Serve.{serve_session}
use uring_mqtt.Session.Serve.Opens.{SessionAllowed, SessionEnds}
use uring_mqtt.Session.Serve.Handshake.{serve_session-Allowed}

abbrev list_send : ℕ → List ℕ × Bool → Option (List ℕ × Bool)
list_send x (queued, true) = none
list_send x (queued, false) = some (queued ++ (x ∷ []), false)

abbrev list_recv : List ℕ × Bool → Option ℕ × (List ℕ × Bool)
list_recv ([], shut) = (none, ([], shut))
list_recv (x ∷ queued, shut) = (some x, (queued, shut))

abbrev count_acquire : ℕ × Bool → Option (ℕ × Bool)
count_acquire (permits, true) = none
count_acquire (zero, false) = none
count_acquire (suc n, false) = some (n, false)

abbrev lists : LocalSync ℕ
lists = record {
  Channel = List ℕ × Bool;
  Semaphore = ℕ × Bool;
  channel = ([], false);
  is_closed = λ c. c.1;
  send = list_send;
  recv = list_recv;
  close = λ c. (c.0, true);
  semaphore = λ n. (n, false);
  available_permits = λ r. r.0;
  try_acquire = count_acquire;
  add_permits = λ n r. (n + r.0, r.1);
  close_semaphore = λ r. (r.0, true);
}

abbrev queue : List ℕ × Bool → List ℕ
queue c = c.0

abbrev shut : ℕ × Bool → Bool
shut r = r.1

lists_send :
    (x : ℕ) (c c' : List ℕ × Bool)
    → list_send x c ≡ some c'
    → (c'.1 ≡ c.1) × (c'.0 ≡ c.0 ++ (x ∷ []))
lists_send x (queued, true) c' e = cc
lists_send x (queued, false) c' e = ground arith

lists_refuse :
    (x : ℕ) (c : List ℕ × Bool) → c.1 ≡ false → (c' : List ℕ × Bool) × (list_send x c ≡ some c')
lists_refuse x (queued, true) e = cc
lists_refuse x (queued, false) e = (_, refl)

lists_recv :
    (x : ℕ) (c c' : List ℕ × Bool) → list_recv c ≡ (some x, c') → (c'.1 ≡ c.1) × (c.0 ≡ x ∷ c'.0)
lists_recv x ([], shut_) c' e = cc
lists_recv x (y ∷ queued, shut_) c' e = ground arith

lists_wait : (c c' : List ℕ × Bool) → list_recv c ≡ (none, c') → (c'.1 ≡ c.1) × (c'.0 ≡ c.0)
lists_wait ([], shut_) c' e = ground arith
lists_wait (y ∷ queued, shut_) c' e = cc

counts_take : (r r' : ℕ × Bool) → count_acquire r ≡ some r' → (r'.1 ≡ r.1) × (r.0 ≡ suc r'.0)
counts_take (n, true) r' e = cc
counts_take (zero, false) r' e = cc
counts_take (suc n, false) r' e = ground arith

counts_hand_out :
    (r : ℕ × Bool) → r.1 ≡ false → 1 ≤ r.0 → (r' : ℕ × Bool) × (count_acquire r ≡ some r')
counts_hand_out (n, true) e h = cc
counts_hand_out (zero, false) e h = absurd (omega arith)
counts_hand_out (suc n, false) e h = (_, refl)

lists-Documented : Documented lists queue shut
lists-Documented = record {
  fresh_queue = refl;
  fresh_open = refl;
  sends = lists_send;
  refuses = lists_refuse;
  receives = lists_recv;
  waits = lists_wait;
  closes = λ c. (refl, refl);
  fresh_room = λ n. (refl, refl);
  takes = counts_take;
  hands_out = counts_hand_out;
  adds = λ n r. (refl, refl);
  shuts = λ r. (refl, refl);
}

-- The channel after one offer.
abbrev one_queued : EventChannel lists
one_queued = record { tx = (5 ∷ [], false); depth = 1; dropped = 0; room = (1023, false) }

abbrev after_one : System lists
after_one = settled lists 5 enqueued (record (start lists 0) { events = one_queued; offers = 1 })

one_offered : admit_start lists 5 0 false (event_channel lists 0) ≡ (returned enqueued, one_queued)
unfolding event_channel admit_start offer_now after_offer enqueue
one_offered = refl

Reaches-one : Reaches lists (start lists 0) after_one
Reaches-one =
    Reaches.then (start lists 0) (start lists 0) after_one (Reaches.here (start lists 0))
      (Step.offer_settles (start lists 0) 5 0 false enqueued one_queued one_offered)

Reaches-IsSound_example : IsSound lists queue shut lists-Documented 0 after_one
Reaches-IsSound_example =
    Reaches-IsSound lists queue shut lists-Documented 0 after_one (ground arith) Reaches-one

would_hold_iff_example :
    ((offer_now lists 6 after_one.events).0 ≡ none) ↔ (would_hold lists after_one.events ≡ true)
would_hold_iff_example =
    would_hold_iff lists queue shut lists-Documented 0 after_one 6 (ground arith) Reaches-one

abbrev one_served : WorkerState
one_served = record {
  worker_id = 3;
  active_connections = 1;
  max_connections = 1;
  refused_connects = 0;
  violations = 0;
}

Serves-one : Serves 3 1 one_served 1
unfolding new try_acquire
Serves-one = Serves.admits (new 3 1) one_served 0 Serves.starts refl

abbrev connections : ℕ
connections = 1

slots_balance_example :
    (((try_acquire one_served).0 ≡ true) ↔ (1 < 1))
    × ((connections ≡ 0) ⊎ ((s' : WorkerState) × (end_task violation one_served ≡ some s')))
slots_balance_example = slots_balance 3 1 one_served 1 violation Serves-one

abbrev two_bytes : Encoder
two_bytes = λ version packet. some (replicate 2 0)

run_packet_loop-Allowed_example :
    Always
      (Allowed two_bytes mqtt5 90000 (some 20) 5000)
      (λ l r. LoopEnds two_bytes mqtt5 90000 (some 20) 5000 r)
      []
      (run_packet_loop two_bytes mqtt5 90000 (some 20) 5000 3 (first_state 0))
run_packet_loop-Allowed_example =
    run_packet_loop-Allowed two_bytes mqtt5 90000 (some 20) 5000 3 (first_state 0) []

serve_session-Allowed_example :
    Always
      (SessionAllowed two_bytes (b'1' ∷ []) 10 90 default_bound 5000)
      (SessionEnds two_bytes (b'1' ∷ []) 10 90 default_bound 5000)
      []
      (serve_session two_bytes 3 (b'1' ∷ []) 10 90 default_bound 5000)
serve_session-Allowed_example =
    serve_session-Allowed two_bytes (b'1' ∷ []) 10 90 default_bound 5000 3
