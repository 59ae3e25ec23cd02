-- ===== src/Packet/Awaiting.antt =====
-- `AwaitingRelease`: the QoS 2 packet ids that were received and not released, one bit for each.
pub mod Set
use uring_mqtt.Common.{
  ℕ, ◌+◌, ◌-◌, ◌/◌, ◌%◌, ◌^◌, bit_and, bit_or, Bool, not, Option, none, some, List, ◌==◌,
  if◌then◌else◌, get_or, set, replicate,
}

abbrev pub id_bits_per_word : ℕ
id_bits_per_word = 64

abbrev pub packet_id_words : ℕ
packet_id_words = 2 ^ 16 / id_bits_per_word

pub record AwaitingRelease : Type 0 where
  pub words : Option (List ℕ)

pub data ReleaseOutcome : Type 0 where
  released unknown_packet_id : ReleaseOutcome

-- `AwaitingRelease::default()`
abbrev pub nothing_awaits : AwaitingRelease
nothing_awaits = record { words = none }

abbrev word_index : ℕ → ℕ
word_index packet_id = packet_id / id_bits_per_word

-- `1_u64 << (index % ID_BITS_PER_WORD)`
abbrev mask : ℕ → ℕ
mask packet_id = 2 ^ (packet_id % id_bits_per_word)

-- `!bit` on u64.
abbrev complement : ℕ → ℕ
complement bits = 2 ^ 64 - 1 - bits

-- A u64 array of 1024 words is a list of that length; the index of a u16 id is in range.
abbrev word_of : List ℕ → ℕ → ℕ
word_of words packet_id = get_or words (word_index packet_id) 0

-- `[0; PACKET_ID_WORDS]`
empty_array : List ℕ
empty_array = replicate packet_id_words 0

-- `get_or_insert_with(|| Box::new([0; PACKET_ID_WORDS]))`
allocated : Option (List ℕ) → List ℕ
unfolding empty_array
allocated none = empty_array
allocated (some words) = words

unfoldable pub record_id : AwaitingRelease → ℕ → Bool × AwaitingRelease
unfolding allocated
record_id awaiting packet_id =
    let words = allocated awaiting.words in
    let word = word_of words packet_id in
    let fresh = bit_and word (mask packet_id) == 0 in
    (
      fresh,
      record { words = some (set words (word_index packet_id) (bit_or word (mask packet_id))) },
    )

release_in : Option (List ℕ) → ℕ → ReleaseOutcome × AwaitingRelease
release_in none packet_id = (unknown_packet_id, record { words = none })
release_in (some words) packet_id =
    let word = word_of words packet_id in
    if bit_and word (mask packet_id) == 0
    then (unknown_packet_id, record { words = some words })
    else (
      released,
      record {
        words =
            some (set words (word_index packet_id) (bit_and word (complement (mask packet_id))));
      },
    )

unfoldable pub release : AwaitingRelease → ℕ → ReleaseOutcome × AwaitingRelease
unfolding release_in
release awaiting packet_id = release_in awaiting.words packet_id
