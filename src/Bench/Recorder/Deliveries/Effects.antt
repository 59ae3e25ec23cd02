-- ===== src/Bench/Recorder/Deliveries/Effects.antt =====
-- What a delivery does to an armed recorder.
use uring_mqtt.Common.{
  ℕ, zero, suc, ◌<◌, true, false, Option, none, some, List, [], ◌∷◌, ◌≡◌, ◌⊎◌, inl, inr, refl, sym,
  ap, ◌∙◌, arith, ltb, if◌then◌else◌, length, get_elem?, set, Bool-cases, Option-cases,
}
use uring_mqtt.Bench.Payload.{Stamp, decode, topic}
use uring_mqtt.Bench.Recorder.{Window}
use uring_mqtt.Bench.Recorder.Log.{stamp_of, shard_at}
use uring_mqtt.Bench.Recorder.Deliveries.{
  Histograms, Shard, Recorder, Delivery, same_text, add_foreign, record_in_shard, record_on_topic,
  record_stamp, record_armed,
}

module _ (hdr : Histograms) where
  get_elem?-shard_at :
      (shards : List (Shard hdr)) (c : ℕ)
      → (if ltb c (length shards) then some (shard_at hdr shards c) else none) ≡ get_elem? shards c
  get_elem?-shard_at [] c = ground arith
  get_elem?-shard_at (s ∷ shards) zero = ground arith
  get_elem?-shard_at (s ∷ shards) (suc c) =
      let same : ltb (suc c) (suc (length shards)) ≡ ltb c (length shards) = ground arith in
      rw same (get_elem?-shard_at shards c)

  -- What a delivery does to an armed recorder.
  other_topic :
      (r : Recorder hdr) (d : Delivery)
      → same_text d.on_topic topic ≡ false
      → record_on_topic hdr r d ≡ add_foreign hdr r
  unfolding record_on_topic
  other_topic r d other = rw other refl

  no_stamp :
      (r : Recorder hdr) (armed : ℕ × Window) (d : Delivery)
      → record_stamp hdr r armed none d.now_ns d.thread ≡ add_foreign hdr r
  unfolding record_stamp
  no_stamp r armed d = refl

  -- The shard of the connection takes the delivery.
  abbrev pub in_shard : Recorder hdr → ℕ × Window → Stamp → ℕ → ℕ → Recorder hdr
  in_shard r armed s now_ns thread = record r {
    shards =
        set r.shards s.conn_id
          (record_in_shard hdr (shard_at hdr r.shards s.conn_id) s now_ns thread armed);
  }

  record_stamp_within :
      (r : Recorder hdr) (armed : ℕ × Window) (s : Stamp) (now_ns thread : ℕ)
      → s.conn_id < length r.shards
      → record_stamp hdr r armed (some s) now_ns thread ≡ in_shard r armed s now_ns thread
  unfolding record_stamp
  record_stamp_within r armed s now_ns thread h =
      let hit : ltb s.conn_id (length r.shards) ≡ true = ground arith in
      let found : get_elem? r.shards s.conn_id ≡ some (shard_at hdr r.shards s.conn_id) =
        sym (get_elem?-shard_at r.shards s.conn_id) ∙ (rw hit refl) in
      rw (found, record_stamp) refl

  record_stamp_beyond :
      (r : Recorder hdr) (armed : ℕ × Window) (s : Stamp) (now_ns thread : ℕ)
      → ltb s.conn_id (length r.shards) ≡ false
      → record_stamp hdr r armed (some s) now_ns thread ≡ add_foreign hdr r
  unfolding record_stamp
  record_stamp_beyond r armed s now_ns thread miss =
      let not_found : get_elem? r.shards s.conn_id ≡ none =
        sym (get_elem?-shard_at r.shards s.conn_id) ∙ (rw miss refl) in
      rw (not_found, record_stamp) refl

  abbrev pub Does : ℕ → ℕ × Window → Recorder hdr → Delivery → Type 0
  Does n armed r d =
      ((stamp_of n d ≡ none) × (record_on_topic hdr r d ≡ add_foreign hdr r))
      ⊎ ((s : Stamp) × (stamp_of n d ≡ some s)
          × (s.conn_id < n)
          × (record_on_topic hdr r d ≡ in_shard r armed s d.now_ns d.thread))

  reaches_stamp :
      (armed : ℕ × Window) (r : Recorder hdr) (d : Delivery) (o : Option Stamp)
      → r.armed ≡ some armed
      → same_text d.on_topic topic ≡ true
      → decode d.payload ≡ o
      → record_on_topic hdr r d ≡ record_stamp hdr r armed o d.now_ns d.thread
  unfolding record_on_topic
  reaches_stamp armed r d o a same e =
      let on_topic : record_on_topic hdr r d
          ≡ record_armed hdr r.armed r d.payload d.now_ns d.thread =
        rw same refl in
      on_topic
      ∙ (ap (λ x. record_armed hdr x r d.payload d.now_ns d.thread) a
          ∙ ap (λ x. record_stamp hdr r armed x d.now_ns d.thread) e)

  pub record_on_topic-Does :
      (n : ℕ) (armed : ℕ × Window) (r : Recorder hdr) (d : Delivery)
      → r.armed ≡ some armed
      → length r.shards ≡ n
      → Does n armed r d
  unfolding stamp_of
  record_on_topic-Does n armed r d a len = elim (Bool-cases (same_text d.on_topic topic)) [
    | inr other ↦ inl (rw other refl, other_topic r d other)
    | inl same ↦ elim (Option-cases (decode d.payload)) [
      | inl e ↦ inl (rw (same, e) refl, reaches_stamp armed r d none a same e ∙ no_stamp r armed d)
      | inr (s, e) ↦ elim (Bool-cases (ltb s.conn_id n)) [
        | inl within ↦ inr (
          s,
          rw (same, e, within) refl,
          ground arith,
          reaches_stamp armed r d (some s) a same e
              ∙ record_stamp_within r armed s d.now_ns d.thread (ground arith),
        )
        | inr beyond ↦ inl (
          rw (same, e, beyond) refl,
          reaches_stamp armed r d (some s) a same e
              ∙ record_stamp_beyond r armed s d.now_ns d.thread (ground arith),
        )
      ]
    ]
  ]
