-- ===== src/Packet/Awaiting/Set.antt =====
-- The bitset is a set of packet ids.
use uring_mqtt.Common.{
  ℕ, Bool, false, not, ◌&&◌, ◌||◌, Option, none, some, List, length, All, ◌≡◌, ◌<◌, ◌≤◌, ◌^◌, ◌/◌,
  ◌%◌, refl, ◌==◌, if◌then◌else◌, arith, set, length-set, All-set, All-replicate, get_or-All, inl,
  inr, Bool-cases, length-replicate, ap, ◌∙◌,
}
use uring_mqtt.Common.Bits.{bit_or-lt, bit_and-lt, two-pow-lt}
use uring_mqtt.Common.Bitset.{in_words, bit_test, in_words-set, in_words-clear, in_words-replicate}
use native.Mathlib.Decide.{ℕ_discrete}
use uring_mqtt.Packet.Awaiting.{
  nothing_awaits, AwaitingRelease, ReleaseOutcome, released, unknown_packet_id, record_id, release,
  release_in, word_of, word_index, mask, allocated, empty_array,
}

abbrev IsWord : ℕ → Type 0
IsWord w = w < 2 ^ 64

abbrev pub IsPacketId : ℕ → Type 0
IsPacketId id = (1 ≤ id) × (id < 2 ^ 16)

-- The array has its size, and each element is a u64.
abbrev IsArray : List ℕ → Type 0
IsArray words = (length words ≡ 1024) × All IsWord words

abbrev WordsValid : Option (List ℕ) → Type 0
WordsValid none = Unit {0}
WordsValid (some words) = IsArray words

abbrev pub IsValid : AwaitingRelease → Type 0
IsValid a = WordsValid a.words

-- The set that a state stands for.
abbrev in_array : Option (List ℕ) → ℕ → Bool
in_array none id = false
in_array (some words) id = in_words words id

pub awaits : AwaitingRelease → ℕ → Bool
awaits a id = in_array a.words id

mask_lt : (id : ℕ) → IsWord (mask id)
mask_lt id = two-pow-lt (id % 64) 64 (omega arith)

empty_array-IsArray : IsArray empty_array
unfolding empty_array
empty_array-IsArray = (length-replicate {A = ℕ} 1024 0, All-replicate IsWord 1024 0 (omega arith))

in_empty_array : (j : ℕ) → in_array (some empty_array) j ≡ false
unfolding empty_array
in_empty_array j = in_words-replicate 1024 j

-- The array that a write goes to stands for the same set.
allocated-IsArray : (words : Option (List ℕ)) → WordsValid words → IsArray (allocated words)
unfolding allocated
allocated-IsArray none v = empty_array-IsArray
allocated-IsArray (some words) v = v

in_allocated :
    (words : Option (List ℕ)) (j : ℕ) → in_array (some (allocated words)) j ≡ in_array words j
unfolding allocated
in_allocated none j = in_empty_array j
in_allocated (some words) j = refl

module _ (words : List ℕ) (v : IsArray words) (id : ℕ) where
  word_of-IsWord : IsWord (word_of words id)
  word_of-IsWord = get_or-All IsWord words (id / 64) 0 (omega arith) v.1

  write-IsArray : (w : ℕ) → IsWord w → IsArray (set words (word_index id) w)
  write-IsArray w h = (length-set words (id / 64) w ∙ v.0, All-set IsWord words (id / 64) w h v.1)

-- What `record` says of the set, and makes of it.
abbrev pub Records : AwaitingRelease → ℕ → Bool × AwaitingRelease → Type 0
Records a id r =
    (r.0 ≡ not (awaits a id)) × IsValid r.1 × ((j : ℕ) → awaits r.1 j ≡ (j == id || awaits a j))

-- What `release` says of the set, and makes of it.
abbrev pub Releases : AwaitingRelease → ℕ → ReleaseOutcome × AwaitingRelease → Type 0
Releases a id r =
    (r.0 ≡ (if awaits a id then released else unknown_packet_id))
    × IsValid r.1
    × ((j : ℕ) → awaits r.1 j ≡ (not (j == id) && awaits a j))

-- In a well-formed state, for a packet id from 1 to 65535, `record` answers whether the id was
-- not in the set, leaves a well-formed state, and adds the id and no other to the set.
pub record_id-Records :
    (a : AwaitingRelease) (id : ℕ) → IsValid a → IsPacketId id → Records a id (record_id a id)
unfolding record_id awaits
record_id-Records a id v h =
    let array = allocated-IsArray a.words v in
    let words : List ℕ = allocated a.words in
    (
      ground (arith, bit_test (word_of words id) (id % 64), in_allocated a.words id),
      write-IsArray words array id _
          (bit_or-lt 64 (word_of words id) (mask id) (word_of-IsWord words array id) (mask_lt id)),
      λ j.
          in_words-set words id j (omega (arith, array.0))
          ∙ ap (λ b. j == id || b) (in_allocated a.words j),
    )

free_stays : (holds : ℕ → Bool) (id j : ℕ) → holds id ≡ false → holds j ≡ (not (j == id) && holds j)
free_stays holds id j free = elim (ℕ_discrete j id) [
  | yes same ↦ rw (same, free) (ground arith)
  | no other ↦ ground arith
]

release_in-Releases :
    (words : Option (List ℕ)) (id : ℕ)
    → WordsValid words
    → IsPacketId id
    → Releases (record { words = words }) id (release_in words id)
unfolding release_in awaits
release_in-Releases none id v h = (refl, tt, λ j. ground arith)
release_in-Releases (some words) id v h = elim (Bool-cases (in_array (some words) id)) [
  | inl held ↦
      let tested = bit_test (word_of words id) (id % 64) ∙ ap not held in
      rw tested (
        rw held,
        write-IsArray words v id _ (bit_and-lt 64 (word_of words id) _ (word_of-IsWord words v id)),
        λ j. in_words-clear words id j (omega (arith, v.0)),
      )
  | inr free ↦
      let tested = bit_test (word_of words id) (id % 64) ∙ ap not free in
      rw tested (rw free, v, λ j. free_stays (in_array (some words)) id j free)
]

-- In a well-formed state, for a packet id from 1 to 65535, `release` answers whether the id was
-- in the set, leaves a well-formed state, and takes the id and no other out of the set.
pub release-Releases :
    (a : AwaitingRelease) (id : ℕ) → IsValid a → IsPacketId id → Releases a id (release a id)
unfolding release
release-Releases a id v h = release_in-Releases a.words id v h

pub nothing_awaits-free : (id : ℕ) → awaits nothing_awaits id ≡ false
unfolding awaits
nothing_awaits-free id = refl
