-- ===== src/Session/PacketLoop/Replying.antt =====
-- The replies and closes of the packet loop ask only what is allowed.
use uring_mqtt.Common.{ℕ, ◌-◌, Option, none, some, [], ◌≡◌, inl, inr, sym, subst, ◌==◌, Bool-cases}
use uring_mqtt.Error.{io, timeout}
use uring_mqtt.Common.Result.{ok, err}
use uring_mqtt.Codec.Protocol.{ProtocolVersion}
use uring_mqtt.Packet.Reply.{Reply, render, timeout_context}
use uring_mqtt.Packet.Violation.{Violation}
use uring_mqtt.Packet.Size.{Encoder}
use uring_mqtt.Packet.Size.Gate.{over_max_packet_size_cases}
use uring_mqtt.Session.Io.{Program, give}
use uring_mqtt.Session.Always.{Log, Always, Always-then}
use uring_mqtt.Session.Replies.{violated, Queued, queue_reply, close_with_violation}
use uring_mqtt.Session.Replies.Writes.{Fails, queue_reply-Always, close_with_violation-Always}
use uring_mqtt.Session.Allowed.{Allowed, IsEarned, EndsWith}
use uring_mqtt.Session.PacketLoop.{
  LoopState, Turn, again, break_with, close, on_violation, after_queue, send_owed, on_owed,
}

module _ (encode : Encoder) (version : ProtocolVersion) (idle : ℕ) (limit : Option ℕ)
    (ingest_deadline : ℕ) where
  abbrev pub Fine : {R : Type 0} → (Log → R → Type 0) → Log → Program R → Type 0
  Fine Q log p = Always (Allowed encode version idle limit ingest_deadline) Q log p

  -- A turn ends the session only as it may.
  abbrev pub Ends : Log → Turn → Type 0
  Ends log (again state) = Unit {0}
  Ends log (break_with r) = EndsWith r

  pub close-Fine :
      (state : LoopState) (v : Violation) (deadline : ℕ) (log : Log)
      → Fine Ends log (close encode version idle limit ingest_deadline state v deadline)
  unfolding close
  close-Fine state v deadline log =
      Always-then (Allowed encode version idle limit ingest_deadline) (λ l o. o ≡ violated) Ends
        (λ outcome. give (break_with (ok outcome))) log
        (close_with_violation encode state.unflushed v deadline version limit)
        (close_with_violation-Always encode version idle limit ingest_deadline v state.unflushed
          deadline log)
        (λ l o e. subst (λ o. EndsWith (ok o)) (sym e) tt)

  pub on_violation-Fine :
      (state : LoopState) (v : Violation) (log : Log)
      → Fine Ends log (on_violation encode version idle limit ingest_deadline state v)
  unfolding on_violation
  on_violation-Fine state v log = (
    tt,
    λ time. elim (Bool-cases (idle - (time - state.last_packet_time) == 0)) [
      | inl over ↦ rw over tt
      | inr some_left ↦ rw some_left (close-Fine state v _ _)
    ],
  )

  after_queue-Ends :
      (state : LoopState) (q : Queued)
      → Fails q
      → Ends [] (after_queue encode version idle limit ingest_deadline state q)
  unfolding after_queue
  after_queue-Ends state (ok done, u) h = tt
  after_queue-Ends state (err (io e), u) h = tt
  after_queue-Ends state (err timeout, u) h = tt
  after_queue-Ends state (err e, u) h = absurd h

  send_owed-Fine :
      (state : LoopState) (reply : Reply) (deadline : ℕ) (log : Log)
      → IsEarned log (render reply version)
      → Fine Ends log (send_owed encode version idle limit ingest_deadline state reply deadline)
  unfolding send_owed
  send_owed-Fine state reply deadline log h =
      elim (over_max_packet_size_cases encode reply version limit) [
        | inl (m, e) ↦
            rw (e, send_owed)
              (Always-then (Allowed encode version idle limit ingest_deadline) (λ l q. Fails q) Ends
                (λ queued.
                  give (after_queue encode version idle limit ingest_deadline state queued))
                log
                (queue_reply state.unflushed (render reply version) deadline
                  (timeout_context reply))
                (queue_reply-Always encode version idle limit ingest_deadline (render reply version)
                  state.unflushed deadline (timeout_context reply) log m h)
                (λ l q fails. after_queue-Ends state q fails))
        | inr (large, e) ↦ rw (e, send_owed) (close-Fine state _ deadline log)
      ]

  -- The reply that is owed may be sent.
  abbrev pub MayOwe : Log → Option Reply → Type 0
  MayOwe log none = Unit {0}
  MayOwe log (some reply) = IsEarned log (render reply version)

  pub on_owed-Fine :
      (state : LoopState) (owed : Option Reply) (log : Log)
      → MayOwe log owed
      → Fine Ends log (on_owed encode version idle limit ingest_deadline state owed)
  unfolding on_owed
  on_owed-Fine state none log h = (
    tt,
    λ time. elim (Bool-cases (idle - (time - state.last_packet_time) == 0)) [
      | inl over ↦ rw over tt
      | inr some_left ↦ rw some_left tt
    ],
  )
  on_owed-Fine state (some reply) log h = (
    tt,
    λ time. elim (Bool-cases (idle - (time - state.last_packet_time) == 0)) [
      | inl over ↦ rw over tt
      | inr some_left ↦ rw some_left (send_owed-Fine state reply _ _ h)
    ],
  )
