-- ===== src/Bench/Generator/Partition.antt =====
-- bench/src/gen.rs: the slots of a run, shared by its connections.
use native.Mathlib.Nat.{mul-le-mul_right}
use uring_mqtt.Common.{
  ℕ, zero, suc, ◌+◌, ◌*◌, ◌/◌, ◌%◌, ◌<◌, ◌≤◌, min, ◌≡◌, ◌↔◌, refl, ◌∙◌, arith, ltb, if◌then◌else◌,
  inl, inr, le-or-lt,
}
use uring_mqtt.Bench.Slots.{own_slot_count}
use uring_mqtt.Bench.Slots.Schedule.{own_iff}

same_below : (x y : ℕ) → ((k : ℕ) → (k < x) ↔ (k < y)) → x ≡ y
same_below x y h = elim (le-or-lt x y) [
  | inl le ↦ elim (le-or-lt y x) [
    | inl le' ↦ omega arith
    | inr lt ↦ let bad = (h x).1 lt in absurd (omega arith)
  ]
  | inr lt ↦ let bad = (h y).0 lt in absurd (omega arith)
]

abbrev one_more : ℕ → ℕ → ℕ
one_more c r = if ltb c r then 1 else 0

-- Below `q` rounds and `r` slots of the next one.
rounds_iff : (c k n q r : ℕ) → c < n → r < n → (c + k * n < q * n + r) ↔ (k < q + one_more c r)
rounds_iff c k n q r hc hr = elim (le-or-lt q k) [
  | inr below ↦
      let round : suc k * n ≤ q * n = mul-le-mul_right n (omega arith) in
      let next : suc k * n ≡ k * n + n = grind arith in
      ((λ lt. omega arith), (λ lt. omega (arith, next)))
  | inl above ↦ elim (le-or-lt k q) [
    | inl here ↦ let same : k ≡ q = omega arith in rw same (ground arith)
    | inr past ↦
        let round : suc q * n ≤ k * n = mul-le-mul_right n (omega arith) in
        let next : suc q * n ≡ q * n + n = grind arith in
        ((λ lt. absurd (omega (arith, next))), (λ lt. ground arith))
  ]
]

own_slot_count-rounds : (c n j : ℕ) → c < n → own_slot_count c n j ≡ j / n + one_more c (j % n)
own_slot_count-rounds c n j hc =
    let whole : j / n * n + j % n ≡ j = grind arith in
    same_below _ _ (λ k.
      let (there, back) = own_iff c k n j (omega arith) in
      let (over, under) = rounds_iff c k n (j / n) (j % n) hc (grind arith) in
      (
        (λ lt. over (omega (arith, whole, back lt))),
        (λ lt. there (omega (arith, whole, under lt))),
      ))

unfoldable pub sum_to : ℕ → (ℕ → ℕ) → ℕ
sum_to zero f = 0
sum_to (suc n) f = sum_to n f + f n

sum_to-rounds : (m q r : ℕ) → sum_to m (λ c. q + one_more c r) ≡ m * q + min m r
unfolding sum_to
sum_to-rounds zero q r = omega arith
sum_to-rounds (suc m) q r =
    let next : suc m * q ≡ m * q + q = grind arith in ground (arith, next, sum_to-rounds m q r)

pub sum_to-same : (m : ℕ) (f g : ℕ → ℕ) → ((c : ℕ) → c < m → f c ≡ g c) → sum_to m f ≡ sum_to m g
unfolding sum_to
sum_to-same zero f g h = refl
sum_to-same (suc m) f g h =
    omega (arith, h m (omega arith), sum_to-same m f g (λ c lt. h c (omega arith)))

-- The counts of the connections are those of all the slots, with none counted twice.
pub sum_to-own_slot_count : (n j : ℕ) → 0 < n → sum_to n (λ c. own_slot_count c n j) ≡ j
sum_to-own_slot_count n j pos =
    let whole : j / n * n + j % n ≡ j = grind arith in
    let rest : j % n < n = grind arith in
    let swap : n * (j / n) ≡ j / n * n = grind arith in
    sum_to-same n _ _ (λ c lt. own_slot_count-rounds c n j lt)
    ∙ (sum_to-rounds n (j / n) (j % n) ∙ omega (arith, whole, rest, swap))
