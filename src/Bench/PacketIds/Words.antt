-- ===== src/Bench/PacketIds/Words.antt =====
-- The lowest bit that is set of a word of `PacketIds`, and the lowest that is not.
use native.Mathlib.Nat.{pow-suc}
use uring_mqtt.Common.{
  ℕ, zero, suc, ◌-◌, ◌/◌, ◌%◌, ◌^◌, ◌<◌, ◌≡◌, ◌≢◌, inl, inr, arith, ◌==◌, Bool-cases,
}
use uring_mqtt.Common.Bits.{bit, bit-complement, bit-zero, bit-le_one}
use uring_mqtt.Bench.PacketIds.{trailing_zeros}

abbrev pub IsWord : ℕ → Type 0
IsWord w = w < 2 ^ 64

-- The lowest bit that is set.
abbrev IsLowest : ℕ → ℕ → ℕ → Type 0
IsLowest n word k = (k < n) × (bit k word ≡ 1) × ((j : ℕ) → j < k → bit j word ≡ 0)

IsLowest-later :
    (n word k : ℕ) → word % 2 ≢ 1 → IsLowest n (word / 2) k → IsLowest (suc n) word (suc k)
IsLowest-later n word k even (lt, one, below) = (omega arith, one, later)
  where
    later : (j : ℕ) → j < suc k → bit j word ≡ 0
    later zero h = omega arith
    later (suc j) h = below j (omega arith)

trailing_zeros-IsLowest :
    (n word : ℕ) → word < 2 ^ n → 0 < word → IsLowest n word (trailing_zeros n word)
unfolding trailing_zeros
trailing_zeros-IsLowest zero word h pos = absurd (omega arith)
trailing_zeros-IsLowest (suc n) word h pos = elim (Bool-cases (word % 2 == 1)) [
  | inl odd ↦ rw odd (omega arith, ground arith, (λ j lt. absurd (omega arith)))
  | inr even ↦ rw even (
      IsLowest-later n word _ (ground arith)
        (trailing_zeros-IsLowest n (word / 2) (omega (arith, pow-suc 2 n)) (ground arith)))
]

-- The lowest bit that is not set, of a word that is not all ones.
pub lowest_zero :
    (word : ℕ)
    → IsWord word
    → word ≢ 2 ^ 64 - 1
    → let k = trailing_zeros 64 (2 ^ 64 - 1 - word) in
      (k < 64) × (bit k word ≡ 0) × ((j : ℕ) → j < k → bit j word ≡ 1)
lowest_zero word h other =
    let x : ℕ = 2 ^ 64 - 1 - word in
    let not_full : word < 2 ^ 64 - 1 = ground arith in
    let (lt, one, below) = trailing_zeros-IsLowest 64 x (omega arith) (omega arith) in
    (
      lt,
      omega (arith, bit-complement _ 64 word lt h, bit-le_one (trailing_zeros 64 x) word),
      (λ j hj.
          omega (arith, below j hj, bit-complement j 64 word (omega arith) h, bit-le_one j word)),
    )

pub all_ones : (j : ℕ) → j < 64 → bit j (2 ^ 64 - 1) ≡ 1
all_ones j h = omega (arith, bit-complement j 64 0 h (omega arith), bit-zero j)
