-- ===== src/Session/Replies/Writes.antt =====
-- The writes of the packet loop ask only what is allowed.
use uring_mqtt.Common.{
  ℕ, ◌+◌, ◌-◌, Option, none, some, ◌∷◌, ◌≡◌, refl, subst, inl, inr, arith, length, leb, ◌==◌,
  if◌then◌else◌, Bool-cases, Option-cases,
}
use uring_mqtt.Error.{io, timeout, IoError}
use uring_mqtt.Common.Result.{Result, ok, err}
use uring_mqtt.Codec.Protocol.{ProtocolVersion, mqtt3, mqtt5}
use uring_mqtt.Packet.Types.{MqttPacket, PacketV5, v5}
use uring_mqtt.Packet.Reply.{TimeoutContext, disconnect_flush}
use uring_mqtt.Packet.Violation.{Violation}
use uring_mqtt.Packet.Size.{Encoder, disconnect}
use uring_mqtt.Packet.Size.Gate.{MaySend, disconnect_cases}
use uring_mqtt.Session.Io.{Timed, in_time, timed_out, now, write_buffer, give, bind}
use uring_mqtt.Session.Always.{Log, event, Always, Always-then}
use uring_mqtt.Session.Replies.{
  violated, UnflushedReplies, Queued, written, flush_replies, get_or_insert, encode_reply,
  queue_reply, queue_disconnect, close_with_violation, write_backpressure_boundary,
}
use uring_mqtt.Session.Allowed.{Allowed, IsEarned, acked}

-- A write fails only with the error of the runtime or at its deadline.
abbrev pub Fails : Queued → Type 0
Fails (ok done, unflushed) = Unit {0}
Fails (err (io e), unflushed) = Unit {0}
Fails (err timeout, unflushed) = Unit {0}
Fails (err e, unflushed) = ⊥

written-Fails :
    (u : Option UnflushedReplies) (a : Timed (Result IoError (Unit {0}))) → Fails (written u a)
unfolding written
written-Fails u (in_time (ok done)) = tt
written-Fails u (in_time (err e)) = tt
written-Fails u timed_out = tt

-- A packet that is no PUBACK.
abbrev pub unacked : MqttPacket
unacked = v5 PacketV5.ping_response

module _ (encode : Encoder) (version : ProtocolVersion) (idle : ℕ) (limit : Option ℕ)
    (ingest : ℕ) where
  -- The packet is still earned after a write, which has failed as it may.
  abbrev pub Kept : MqttPacket → Log → Queued → Type 0
  Kept packet log r = IsEarned log packet × Fails r

  pub flush_replies-Always :
      (packet : MqttPacket) (u : Option UnflushedReplies) (log : Log)
      → IsEarned log packet
      → Always (Allowed encode version idle limit ingest) (Kept packet) log (flush_replies u)
  unfolding flush_replies
  flush_replies-Always packet none log h = (h, tt)
  flush_replies-Always packet (some queued) log h = (
    tt,
    λ time. elim (Bool-cases (queued.flush_by - time == 0)) [
      | inl over ↦ rw over (h, tt)
      | inr some_left ↦ rw some_left (ground arith, λ a. (h, written-Fails none a))
    ],
  )

  encode_reply-Always :
      (packet : MqttPacket) (new : UnflushedReplies) (log : Log) (r : Queued)
      → MaySend encode packet version limit
      → Kept packet log r
      → Always
          (Allowed encode version idle limit ingest)
          (λ l q. Fails q)
          log
          (encode_reply packet new r)
  unfolding encode_reply
  encode_reply-Always packet new log (err (io e), u) m h = tt
  encode_reply-Always packet new log (err timeout, u) m h = tt
  encode_reply-Always packet new log (ok done, u) m (h, _) =
      (tt, λ time. ((m, h), λ a. written-Fails (get_or_insert u new) a))
  encode_reply-Always packet new log (err e, u) m (h, bad) = absurd bad

  -- Every packet that may be sent and is earned may be queued.
  pub queue_reply-Always :
      (packet : MqttPacket) (u : Option UnflushedReplies) (deadline : ℕ) (context : TimeoutContext)
      (log : Log)
      → MaySend encode packet version limit
      → IsEarned log packet
      → Always
          (Allowed encode version idle limit ingest)
          (λ l q. Fails q)
          log
          (queue_reply u packet deadline context)
  unfolding queue_reply
  queue_reply-Always packet u deadline context log m h = (
    tt,
    λ time. (
      tt,
      λ buffer.
          let new : UnflushedReplies = record {
            flush_by = time + deadline;
            timeout_context = context;
          } in
          let full = leb write_backpressure_boundary (length buffer) in
          Always-then (Allowed encode version idle limit ingest) (Kept packet) (λ l q. Fails q)
            (encode_reply packet new) (event write_buffer buffer ∷ event now time ∷ log)
            (if full then flush_replies u else give (ok tt, u))
            (elim (Bool-cases full) [
              | inl yes_full ↦ rw yes_full (
                  flush_replies-Always packet u (event write_buffer buffer ∷ event now time ∷ log)
                    h)
              | inr room ↦ rw room (h, tt)
            ])
            (λ l r kept. encode_reply-Always packet new l r m kept),
    ),
  )

  disconnect-MaySend :
      (violation : Violation) (packet : MqttPacket) (v : ProtocolVersion)
      → disconnect encode violation v limit ≡ some packet
      → MaySend encode packet v limit × (acked packet ≡ none)
  disconnect-MaySend violation packet mqtt3 e = cc (disconnect_cases encode violation limit).0
  disconnect-MaySend violation packet mqtt5 e =
      let (_, (c, _, cases)) = disconnect_cases encode violation limit in
      elim cases [
        | inl (m, sent) ↦
            let same : v5 (PacketV5.disconnect c) ≡ packet = cc in
            subst (λ k. MaySend encode k mqtt5 limit × (acked k ≡ none)) same (m, refl)
        | inr (_, withheld) ↦ cc
      ]

  queue_disconnect-Always :
      (violation : Violation) (u : Option UnflushedReplies) (deadline : ℕ) (log : Log)
      → Always
          (Allowed encode version idle limit ingest)
          (λ l q. Fails q)
          log
          (queue_disconnect encode u violation deadline version limit)
  unfolding queue_disconnect
  queue_disconnect-Always violation u deadline log =
      elim (Option-cases (disconnect encode violation version limit)) [
        | inl withheld ↦ rw (withheld, queue_disconnect) tt
        | inr (packet, e) ↦
            let (m, free) = disconnect-MaySend violation packet version e in
            rw (e, queue_disconnect)
              (queue_reply-Always packet u deadline disconnect_flush log m (inl free))
      ]

  -- The close of a violation asks only what is allowed, and always reports the violation.
  pub close_with_violation-Always :
      (violation : Violation) (u : Option UnflushedReplies) (deadline : ℕ) (log : Log)
      → Always
          (Allowed encode version idle limit ingest)
          (λ l o. o ≡ violated)
          log
          (close_with_violation encode u violation deadline version limit)
  unfolding close_with_violation
  close_with_violation-Always violation u deadline log =
      Always-then (Allowed encode version idle limit ingest) (λ l q. Fails q) (λ l o. o ≡ violated)
        (λ q. bind (flush_replies q.1) (λ flushed. give violated)) log
        (queue_disconnect encode u violation deadline version limit)
        (queue_disconnect-Always violation u deadline log)
        (λ l q fails.
          Always-then (Allowed encode version idle limit ingest) (Kept unacked)
            (λ l o. o ≡ violated) (λ flushed. give violated) l (flush_replies q.1)
            (flush_replies-Always unacked q.1 l (inl refl)) (λ l r kept. refl))
