-- ===== src/Bench/Recorder/Sequences.antt =====
-- The chunked bitset of a connection's sequence numbers.
use native.Mathlib.Decide.{ℕ_discrete}
use uring_mqtt.Common.{
  ℕ, ◌/◌, ◌%◌, ◌^◌, Bool, true, false, ◌||◌, Option, none, some, List, length, ◌≡◌, inl, inr, refl,
  sym, ap, ◌∙◌, arith, ◌==◌, get_or, bit_and, length-set, Bool-cases,
}
use uring_mqtt.Common.Bitset.{in_words, bit_test, in_words-set, in_words-replicate}
use uring_mqtt.Bench.Recorder.{Seen, chunk_words, insert_chunk, set_seq_bit}

-- A chunk that is there has its eight words.
abbrev IsChunk : Option (List ℕ) → Type 0
IsChunk none = Unit {0}
IsChunk (some words) = length words ≡ 8

abbrev pub AreChunks : Seen → Type 0
AreChunks seen = (c : ℕ) → IsChunk (seen c)

in_chunk : Option (List ℕ) → ℕ → Bool
in_chunk none offset = false
in_chunk (some words) offset = in_words words offset

pub was_seen : Seen → ℕ → Bool
unfolding in_chunk
was_seen seen seq = in_chunk (seen (seq / 512)) (seq % 512)

chunk_words-sized : (chunk : Option (List ℕ)) → IsChunk chunk → length (chunk_words chunk) ≡ 8
chunk_words-sized none h = refl
chunk_words-sized (some words) h = h

in_chunk-words :
    (chunk : Option (List ℕ)) (j : ℕ) → in_words (chunk_words chunk) j ≡ in_chunk chunk j
unfolding in_chunk
in_chunk-words none j = in_words-replicate 8 j
in_chunk-words (some words) j = refl

-- A chunk replaced by one that stands for a set with one more element.
insert_chunk_adds :
    (seen : Seen) (seq : ℕ) (words : List ℕ) (j : ℕ)
    → ((o : ℕ) → in_words words o ≡ (o == seq % 512 || in_chunk (seen (seq / 512)) o))
    → was_seen (insert_chunk seen (seq / 512) words) j ≡ (j == seq || was_seen seen j)
unfolding was_seen
insert_chunk_adds seen seq words j h = elim (ℕ_discrete (j / 512) (seq / 512)) [
  | yes same ↦
      let hit : (j / 512 == seq / 512) ≡ true = ground arith in
      let one : (j % 512 == seq % 512) ≡ (j == seq) = ground arith in
      rw hit (h (j % 512) ∙ (λ i. one i || in_chunk (seen (sym same i)) (j % 512)))
  | no other ↦
      let miss : (j / 512 == seq / 512) ≡ false = ground arith in
      let not_it : (j == seq) ≡ false = ground arith in rw (miss, not_it) refl
]

insert_chunk-AreChunks :
    (seen : Seen) (chunk : ℕ) (words : List ℕ)
    → AreChunks seen
    → length words ≡ 8
    → AreChunks (insert_chunk seen chunk words)
insert_chunk-AreChunks seen chunk words v sized c = elim (Bool-cases (c == chunk)) [
  | inl hit ↦ rw hit sized
  | inr miss ↦ rw miss (v c)
]

already : (holds : ℕ → Bool) (k o : ℕ) → holds k ≡ true → holds o ≡ (o == k || holds o)
already holds k o h = elim (ℕ_discrete o k) [
  | yes same ↦ rw (same, h) (ground arith)
  | no other ↦ ground arith
]

abbrev pub Marks : Seen → ℕ → Bool × Seen → Type 0
Marks seen seq r =
    (r.0 ≡ was_seen seen seq)
    × AreChunks r.1
    × ((j : ℕ) → was_seen r.1 j ≡ (j == seq || was_seen seen j))

-- Marking a sequence number answers whether it was there, and adds it and no other.
pub set_seq_bit-Marks :
    (seen : Seen) (seq : ℕ) → AreChunks seen → Marks seen seq (set_seq_bit seen seq)
unfolding set_seq_bit was_seen
set_seq_bit-Marks seen seq v =
    let chunk = seen (seq / 512) in
    let words = chunk_words chunk in
    let offset = seq % 512 in
    let sized = chunk_words-sized chunk (v (seq / 512)) in
    let word = get_or words (offset / 64) 0 in
    let tested = bit_test word (offset % 64) in
    let held = in_chunk-words chunk offset in
    elim (Bool-cases (bit_and word (2 ^ (offset % 64)) == 0)) [
      | inl fresh ↦ rw fresh (
        ground (arith, tested, held),
        insert_chunk-AreChunks seen (seq / 512) _ v (length-set words (offset / 64) _ ∙ sized),
        (λ j. insert_chunk_adds seen seq _ j (λ o.
            in_words-set words offset o (omega (arith, sized))
            ∙ ap (λ b. o == offset || b) (in_chunk-words chunk o))),
      )
      | inr old ↦
          let seen_before : in_chunk chunk offset ≡ true = ground (arith, tested, held) in
          rw old (
            sym seen_before,
            insert_chunk-AreChunks seen (seq / 512) words v sized,
            (λ j.
                insert_chunk_adds seen seq words j
                  (λ o. in_chunk-words chunk o ∙ already (in_chunk chunk) offset o seen_before)),
          )
    ]

pub none-unseen : (seq : ℕ) → was_seen (λ c. none) seq ≡ false
unfolding was_seen
none-unseen seq = refl
