-- ===== src/Session/PacketLoop/Offering.antt =====
-- The offer of a publish to the event channel, and the reply that it earns.
use uring_mqtt.Common.{
  ℕ, ◌+◌, ◌-◌, ◌≤◌, min, Option, none, some, ◌∷◌, ◌≢◌, inl, inr, arith, ltb, Bool-cases,
}
use uring_mqtt.Codec.Protocol.{ProtocolVersion}
use uring_mqtt.Packet.Types.{Publish}
use uring_mqtt.Packet.Reply.{Reply, render}
use uring_mqtt.Packet.Size.{Encoder}
use uring_mqtt.Worker.Events.{
  Admission, enqueued, enqueued_after_hold, dropped, receiver_closed, no_reply_time,
}
use uring_mqtt.Session.Io.{now, admit}
use uring_mqtt.Session.Always.{Log, event, Always-then}
use uring_mqtt.Session.Allowed.{Allowed, acked}
use uring_mqtt.Session.PacketLoop.Owed.{AckFor}
use uring_mqtt.Session.PacketLoop.{
  IngestStep, continue, idle_timed_out, from_codec, ingest_step, deliver_publish, LoopState,
  after_ingest, ingest,
}
use uring_mqtt.Session.PacketLoop.Replying.{Fine, Ends, MayOwe, on_owed-Fine}

module _ (encode : Encoder) (version : ProtocolVersion) (idle : ℕ) (limit : Option ℕ)
    (ingest_deadline : ℕ) where
  -- The reply that goes with a publish.
  abbrev pub GoesWith : Publish → Option Reply → Type 0
  GoesWith p none = Unit {0}
  GoesWith p (some reply) = AckFor p.packet_id (acked (render reply version))

  abbrev AfterStep : Option Reply → Log → IngestStep → Type 0
  AfterStep owed log (continue waited) = MayOwe encode version idle limit ingest_deadline log owed
  AfterStep owed log idle_timed_out = Unit {0}

  offered-MayOwe :
      (p : Publish) (owed : Option Reply) (wait by : ℕ) (admission : Admission) (log : Log)
      → admission ≢ no_reply_time
      → GoesWith p owed
      → MayOwe encode version idle limit ingest_deadline
          (event (admit (from_codec p) wait by) admission ∷ log)
          owed
  unfolding from_codec
  offered-MayOwe p none wait by admission log h g = tt
  offered-MayOwe p (some reply) wait by admission log h (inl free) = inl free
  offered-MayOwe p (some reply) wait by admission log h (inr (id, ack, e)) = inr (id, ack, (e, h))

  stepped-AfterStep :
      (p : Publish) (owed : Option Reply) (wait by idle_wait : ℕ) (admission : Admission)
      (log : Log)
      → GoesWith p owed
      → AfterStep owed
          (event (admit (from_codec p) wait by) admission ∷ log)
          (ingest_step admission wait idle_wait ingest_deadline)
  unfolding ingest_step
  stepped-AfterStep p owed wait by idle_wait no_reply_time log g = tt
  stepped-AfterStep p owed wait by idle_wait enqueued log g =
      offered-MayOwe p owed wait by enqueued log (λ e. cc) g
  stepped-AfterStep p owed wait by idle_wait enqueued_after_hold log g =
      offered-MayOwe p owed wait by enqueued_after_hold log (λ e. cc) g
  stepped-AfterStep p owed wait by idle_wait receiver_closed log g =
      offered-MayOwe p owed wait by receiver_closed log (λ e. cc) g
  stepped-AfterStep p owed wait by idle_wait dropped log g =
      elim (Bool-cases (ltb idle_wait ingest_deadline)) [
        | inl over ↦ rw over tt
        | inr in_time_ ↦ rw in_time_ (offered-MayOwe p owed wait by dropped log (λ e. cc) g)
      ]

  after_ingest-Fine :
      (state : LoopState) (owed : Option Reply) (log : Log) (step : IngestStep)
      → AfterStep owed log step
      → Fine encode version idle limit ingest_deadline
          (Ends encode version idle limit ingest_deadline)
          log
          (after_ingest encode version idle limit ingest_deadline state owed step)
  unfolding after_ingest
  after_ingest-Fine state owed log (continue waited) h =
      on_owed-Fine encode version idle limit ingest_deadline _ owed log h
  after_ingest-Fine state owed log idle_timed_out h = tt

  deliver_publish-Fine :
      (p : Publish) (owed : Option Reply) (left : ℕ) (log : Log)
      → left ≤ idle
      → GoesWith p owed
      → Fine encode version idle limit ingest_deadline
          (AfterStep owed)
          log
          (deliver_publish p left ingest_deadline)
  unfolding deliver_publish
  deliver_publish-Fine p owed left log le g = (
    tt,
    λ time. (
      (ground arith, ground arith),
      λ admission.
          stepped-AfterStep p owed (min ingest_deadline (left - 1000)) (time + left) (left - 1000)
            admission (event now time ∷ log) g,
    ),
  )

  pub ingest-Fine :
      (state : LoopState) (p : Publish) (owed : Option Reply) (log : Log)
      → GoesWith p owed
      → Fine encode version idle limit ingest_deadline
          (Ends encode version idle limit ingest_deadline)
          log
          (ingest encode version idle limit ingest_deadline state p owed)
  unfolding ingest
  ingest-Fine state p owed log g = (
    tt,
    λ time.
        Always-then (Allowed encode version idle limit ingest_deadline) (AfterStep owed)
          (Ends encode version idle limit ingest_deadline)
          (after_ingest encode version idle limit ingest_deadline state owed) (event now time ∷ log)
          (deliver_publish p (idle - (time - state.last_packet_time)) ingest_deadline)
          (deliver_publish-Fine p owed _ (event now time ∷ log) (omega arith) g)
          (λ l step h. after_ingest-Fine state owed l step h),
  )
