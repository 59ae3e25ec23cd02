-- ===== src/Common/Bitset.antt =====
-- A set of numbers as an array of u64 words, one bit for each: the test, the writes, and what they make
-- of the set.
use native.Mathlib.Decide.{ℕ_discrete}
use uring_mqtt.Common.{
  ℕ, Bool, false, not, ◌&&◌, ◌||◌, List, length, ◌≡◌, ◌+◌, ◌*◌, ◌<◌, ◌≢◌, ◌^◌, ◌-◌, ◌/◌, ◌%◌, refl,
  ◌==◌, arith, bit_and, bit_or, get_or, set, replicate, get_or-set_self, get_or-set_ne,
  get_or-replicate, inl, inr, sym, subst,
}
use uring_mqtt.Common.Bits.{
  bit, bit_and-power, bit-bit_or, bit-bit_and, bit-power_self, bit-power_ne, bit-complement,
  bit-le_one, bit-zero, bit-cases, two-pow-lt, two-pow-pos,
}

abbrev pub in_words : List ℕ → ℕ → Bool
in_words words j = bit (j % 64) (get_or words (j / 64) 0) == 1

-- The code's test of a bit.
pub bit_test : (w k : ℕ) → (bit_and w (2 ^ k) == 0) ≡ not (bit k w == 1)
bit_test w k = elim (bit-cases k w) [
  | inl off ↦ rw (bit_and-power k w, off) (ground arith)
  | inr on ↦ rw (bit_and-power k w, on) (ground (arith, two-pow-pos k))
]

-- The bit of `j` in a word that `id` sets, and in one that it clears.
pub bit_set : (w j id : ℕ) → (bit j (bit_or w (2 ^ id)) == 1) ≡ (j == id || bit j w == 1)
bit_set w j id = elim (ℕ_discrete j id) [
  | yes same ↦
      rw (bit-bit_or j w (2 ^ id), same) (ground (arith, bit-power_self id, bit-le_one id w))
  | no other ↦
      rw (bit-bit_or j w (2 ^ id)) (ground (arith, bit-power_ne j id other, bit-le_one j w))
]

pub bit_cleared :
    (w j id : ℕ)
    → j < 64
    → id < 64
    → (bit j (bit_and w (2 ^ 64 - 1 - 2 ^ id)) == 1) ≡ (not (j == id) && bit j w == 1)
bit_cleared w j id hj hid =
    let flipped = bit-complement j 64 (2 ^ id) hj (two-pow-lt id 64 hid) in
    elim (ℕ_discrete j id) [
      | yes same ↦
          rw (bit-bit_and j w (2 ^ 64 - 1 - 2 ^ id), same)
            (ground (
              arith,
              subst (λ k. bit k (2 ^ 64 - 1 - 2 ^ id) ≡ 1 - bit k (2 ^ id)) same flipped,
              bit-power_self id,
              bit-le_one id w,
            ))
      | no other ↦
          rw (bit-bit_and j w (2 ^ 64 - 1 - 2 ^ id))
            (ground (arith, flipped, bit-power_ne j id other, bit-le_one j w))
    ]

-- A write to the word of `id` leaves the other words.
module _ (words : List ℕ) (id j v : ℕ) where
  written_same :
      id / 64 < length words → j / 64 ≡ id / 64 → get_or (set words (id / 64) v) (j / 64) 0 ≡ v
  written_same hi same = rw same (get_or-set_self words (id / 64) v 0 hi)

  written_other :
      j / 64 ≢ id / 64 → get_or (set words (id / 64) v) (j / 64) 0 ≡ get_or words (j / 64) 0
  written_other other = get_or-set_ne words (id / 64) (j / 64) v 0 (λ e. other (sym e))

pub in_words-set :
    (words : List ℕ) (id j : ℕ)
    → id / 64 < length words
    → in_words (set words (id / 64) (bit_or (get_or words (id / 64) 0) (2 ^ (id % 64)))) j
      ≡ (j == id || in_words words j)
in_words-set words id j hi = elim (ℕ_discrete (j / 64) (id / 64)) [
  | yes same ↦
      rw
        (
          written_same words id j _ hi same,
          same,
          bit_set (get_or words (id / 64) 0) (j % 64) (id % 64),
        )
        (ground arith)
  | no other ↦ rw (written_other words id j _ other) (ground arith)
]

pub in_words-clear :
    (words : List ℕ) (id j : ℕ)
    → id / 64 < length words
    → in_words
        (set words (id / 64) (bit_and (get_or words (id / 64) 0) (2 ^ 64 - 1 - 2 ^ (id % 64))))
        j
      ≡ (not (j == id) && in_words words j)
in_words-clear words id j hi = elim (ℕ_discrete (j / 64) (id / 64)) [
  | yes same ↦
      rw
        (
          written_same words id j _ hi same,
          same,
          bit_cleared (get_or words (id / 64) 0) (j % 64) (id % 64) (omega arith) (omega arith),
        )
        (ground arith)
  | no other ↦ rw (written_other words id j _ other) (ground arith)
]

pub in_words-replicate : (n j : ℕ) → in_words (replicate n 0) j ≡ false
in_words-replicate n j = rw (get_or-replicate {A = ℕ} n (j / 64) 0, bit-zero (j % 64))

-- A bit of a word, by the index of the word and its weight.
pub in_words_at :
    (words : List ℕ) (idx b : ℕ)
    → b < 64
    → in_words words (idx * 64 + b) ≡ (bit b (get_or words idx 0) == 1)
in_words_at words idx b h =
    let word : (idx * 64 + b) / 64 ≡ idx = omega arith in
    let weight : (idx * 64 + b) % 64 ≡ b = omega arith in rw (word, weight) refl

pub in_words-set_at :
    (words : List ℕ) (idx b j : ℕ)
    → b < 64
    → idx < length words
    → in_words (set words idx (bit_or (get_or words idx 0) (2 ^ b))) j
      ≡ (j == idx * 64 + b || in_words words j)
in_words-set_at words idx b j h within =
    let word : (idx * 64 + b) / 64 ≡ idx = omega arith in
    let weight : (idx * 64 + b) % 64 ≡ b = omega arith in
    subst
      (λ w.
        in_words (set words w (bit_or (get_or words w 0) (2 ^ b))) j
        ≡ (j == idx * 64 + b || in_words words j))
      word
      (subst
        (λ k.
          in_words
            (set words ((idx * 64 + b) / 64)
              (bit_or (get_or words ((idx * 64 + b) / 64) 0) (2 ^ k)))
            j
          ≡ (j == idx * 64 + b || in_words words j))
        weight (in_words-set words (idx * 64 + b) j (omega arith)))
