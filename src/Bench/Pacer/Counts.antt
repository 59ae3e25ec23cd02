-- ===== src/Bench/Pacer/Counts.antt =====
-- bench/src/gen.rs: what the steps of `latency_pacer` do to the slots that are counted.
use uring_mqtt.Common.{
  ℕ, suc, ◌+◌, ◌-◌, ◌<◌, ◌≤◌, ◌^◌, min, Bool, true, false, List, [], ◌∷◌, ◌≡◌, refl, sym, ap, ◌∙◌,
  subst, arith, ◌==◌, if◌then◌else◌, length,
}
use uring_mqtt.Bench.PacketIds.{PacketIds, release}
use uring_mqtt.Bench.Config.{GenConfig}
use uring_mqtt.Bench.Slots.{own_slot_count, past_due_j_count}
use uring_mqtt.Bench.Pacer.{
  World, Pacer, fetch_add, after_release, acknowledge, acknowledge_all, own_count, monotonic_now_ns,
  count_remaining_missed, skip_past_due_missed, skip_to,
}

-- What is counted of the slots: the next one, those offered and missed, and the messages submitted.
pub record Account : Type 0 where
  pub next_slot_k : ℕ
  pub offered : ℕ
  pub missed_slots : ℕ
  pub messages : ℕ

abbrev pub account : Pacer → Account
account s = record {
  next_slot_k = s.next_slot_k;
  offered = s.counters.offered;
  missed_slots = s.counters.missed_slots;
  messages = length s.submitted;
}

-- Every slot below the next one is offered, missed, or pending in the batch.
abbrev pub Balanced : ℕ → ℕ → Account → Type 0
Balanced own pending a =
    (a.offered + a.missed_slots + pending ≡ a.next_slot_k)
    × (a.next_slot_k ≤ own)
    × (a.messages ≡ a.offered)

-- Every slot is offered or missed, and the offered ones are the submitted messages.
abbrev pub Settled : ℕ → Account → Type 0
Settled own a = (a.offered + a.missed_slots ≡ own) × (a.messages ≡ a.offered)

pub fetch_add-small : (a n : ℕ) → a + n < 2 ^ 64 → fetch_add a n ≡ a + n
unfolding fetch_add
fetch_add-small a n lt = omega arith

pub if-same {ℓ κ} :
    {A : Type ℓ} {B : Type κ} (f : A → B) (b : Bool) (x y : A) (z : B)
    → f x ≡ z
    → f y ≡ z
    → f (if b then x else y) ≡ z
if-same f true x y z p q = p
if-same f false x y z p q = q

abbrev seen : Pacer → Account × ℕ
seen s = (account s, s.reads)

after_release-seen : (s : Pacer) (r : Bool × PacketIds) → seen (after_release s r) ≡ seen s
unfolding after_release
after_release-seen s (true, ids) = refl
after_release-seen s (false, ids) = refl

acknowledge_all-seen : (s : Pacer) (ids : List ℕ) → seen (acknowledge_all s ids) ≡ seen s
unfolding acknowledge_all acknowledge
acknowledge_all-seen s [] = refl
acknowledge_all-seen s (id ∷ ids) =
    acknowledge_all-seen (acknowledge s id) ids ∙ after_release-seen s (release s.packet_ids id)

module _ (config : GenConfig) (rate conn_id : ℕ) (world : World) where
  now-seen :
      (s : Pacer)
      → seen ((monotonic_now_ns config rate conn_id world s).1) ≡ (account s, suc s.reads)
  unfolding monotonic_now_ns
  now-seen s =
      if-same seen (config.qos == 1) _ _ _
        (acknowledge_all-seen (record s { reads = suc s.reads }) _) refl

  pub now-account :
      (s : Pacer) → account ((monotonic_now_ns config rate conn_id world s).1) ≡ account s
  now-account s = ap (λ p. p.0) (now-seen s)

  pub now-reads : (s : Pacer) → (monotonic_now_ns config rate conn_id world s).1.reads ≡ suc s.reads
  now-reads s = ap (λ p. p.1) (now-seen s)

  pub now-clock :
      (s : Pacer) → (monotonic_now_ns config rate conn_id world s).0 ≡ world.clock s.reads
  unfolding monotonic_now_ns
  now-clock s = refl

  abbrev own : ℕ
  own = own_count config rate conn_id world

  -- The state goes on with the account balanced, and neither slots nor readings of the clock go back.
  abbrev pub Advances : ℕ → Pacer → Pacer → Type 0
  Advances pending s s' =
      Balanced own pending (account s') × (s.next_slot_k ≤ s'.next_slot_k) × (s.reads ≤ s'.reads)

  pub now-Advances :
      (pending : ℕ) (s : Pacer)
      → Balanced own pending (account s)
      → Advances pending s ((monotonic_now_ns config rate conn_id world s).1)
  now-Advances pending s balanced =
      let same = now-account s in
      let next = now-reads s in
      (
        subst (Balanced own pending) (sym same) balanced,
        omega (arith, ap (λ a. a.next_slot_k) same),
        omega arith,
      )

  pub count_remaining_missed-Settled :
      (s : Pacer)
      → own < 2 ^ 64
      → Balanced own 0 (account s)
      → Settled own (account (count_remaining_missed config rate conn_id world s))
  unfolding count_remaining_missed
  count_remaining_missed-Settled s few (sum, below, all) =
      let added =
        fetch_add-small s.counters.missed_slots (min (own - s.next_slot_k) (2 ^ 64 - 1))
          (omega arith) in
      (omega (arith, added), all)

  skip_to-Advances :
      (bound pending : ℕ) (s : Pacer)
      → own < 2 ^ 64
      → bound ≤ own
      → Balanced own pending (account s)
      → Advances pending s (skip_to bound s) × (bound ≤ (skip_to bound s).next_slot_k)
  unfolding skip_to
  skip_to-Advances bound pending s few within (sum, below, all) =
      let added =
        fetch_add-small s.counters.missed_slots (min (bound - s.next_slot_k) (2 ^ 64 - 1)) in
      ground (arith, added)

  -- A slot that is past due at the reading of the clock is skipped.
  pub skip_past_due_missed-Advances :
      (pending : ℕ) (s : Pacer)
      → own < 2 ^ 64
      → Balanced own pending (account s)
      → Advances pending s (skip_past_due_missed config rate conn_id world s)
        × (s.next_slot_k
              < own_slot_count conn_id config.connections
                  (past_due_j_count config rate (world.clock s.reads))
            → s.next_slot_k < own
            → s.next_slot_k < (skip_past_due_missed config rate conn_id world s).next_slot_k)
  unfolding skip_past_due_missed
  skip_past_due_missed-Advances pending s few balanced =
      let (kept, forward, later) = now-Advances pending s balanced in
      let same = ap (λ a. a.next_slot_k) (now-account s) in
      let ((kept', forward', later'), reached) =
        skip_to-Advances _ pending ((monotonic_now_ns config rate conn_id world s).1) few
          (omega arith) kept in
      (
        (kept', omega arith, omega arith),
        (λ due mine.
            let due' =
              subst
                (λ now_ns.
                  s.next_slot_k
                  < own_slot_count conn_id config.connections (past_due_j_count config rate now_ns))
                (sym (now-clock s)) due in
            omega arith),
      )
