-- ===== src/Bench/PacketIds/Set.antt =====
-- `PacketIds` as a set of the ids from 1 to 65535.
use uring_mqtt.Common.{
  ℕ, zero, suc, ◌+◌, ◌-◌, ◌*◌, ◌/◌, ◌%◌, ◌^◌, ◌<◌, ◌≤◌, bit_or, Bool, true, false, not, ◌&&◌, ◌||◌,
  Option, none, some, length, All, ◌≡◌, inl, inr, ap, ◌∙◌, subst, arith, ltb, ◌==◌, get_or, set,
  length-set, length-replicate, All-set, All-replicate, get_or-All, Bool-cases,
}
use uring_mqtt.Common.Bits.{bit, bit_or-lt, bit_and-lt, two-pow-lt}
use uring_mqtt.Common.Bitset.{
  in_words, in_words_at, in_words-set_at, bit_test, in_words-clear, in_words-replicate,
}
use uring_mqtt.Bench.PacketIds.{PacketIds, new, trailing_zeros, allocate_loop, allocate, release}
use uring_mqtt.Bench.PacketIds.Words.{IsWord, lowest_zero, all_ones}

-- The array has its size, each element is a u64, and the cursor is an index.
abbrev pub IsValid : PacketIds → Type 0
IsValid ids = (length ids.bits ≡ 1024) × All IsWord ids.bits × (ids.cursor < 1024)

abbrev pub IsPacketId : ℕ → Type 0
IsPacketId id = (1 ≤ id) × (id < 2 ^ 16)

-- The ids in flight, of those from 1 to 65535.
abbrev pub in_flight : PacketIds → ℕ → Bool
in_flight ids id = in_words ids.bits (id - 1)

-- Every id of a word of the array is in flight.
abbrev IsFull : PacketIds → ℕ → Type 0
IsFull ids idx = (b : ℕ) → b < 64 → idx * 64 + b < 65535 → in_words ids.bits (idx * 64 + b) ≡ true

abbrev pub Allocates : PacketIds → Option ℕ × PacketIds → Type 0
Allocates ids (none, ids') = (id : ℕ) → IsPacketId id → in_flight ids id ≡ true
Allocates ids (some id, ids') =
    IsPacketId id
    × (in_flight ids id ≡ false)
    × IsValid ids'
    × ((j : ℕ) → IsPacketId j → in_flight ids' j ≡ (j == id || in_flight ids j))

abbrev LoopAllocates : PacketIds → ℕ → ℕ → Option ℕ × PacketIds → Type 0
LoopAllocates ids left offset (none, ids') =
    (k : ℕ) → k < left → IsFull ids ((ids.cursor + (offset + k)) % 1024)
LoopAllocates ids left offset (some id, ids') = Allocates ids (some id, ids')

later_offset :
    (ids : PacketIds) (left offset : ℕ) (r : Option ℕ × PacketIds)
    → IsFull ids ((ids.cursor + offset) % 1024)
    → LoopAllocates ids left (offset + 1) r
    → LoopAllocates ids (suc left) offset r
later_offset ids left offset (none, ids') full rest = go
  where
    go : (k : ℕ) → k < suc left → IsFull ids ((ids.cursor + (offset + k)) % 1024)
    go zero h = let z : offset + 0 ≡ offset = omega arith in rw z full
    go (suc k) h =
        let z : offset + suc k ≡ offset + 1 + k = omega arith in rw z (rest k (omega arith))
later_offset ids left offset (some id, ids') full rest = rest

module _ (ids : PacketIds) (valid : IsValid ids) (idx : ℕ) (lt : idx < 1024) where
  word_at : ℕ
  word_at = get_or ids.bits idx 0

  word_at-IsWord : IsWord word_at
  unfolding word_at
  word_at-IsWord = get_or-All IsWord ids.bits idx 0 (omega arith) valid.1

  IsFull-word : word_at ≡ 2 ^ 64 - 1 → IsFull ids idx
  unfolding word_at
  IsFull-word full b h in_range =
      in_words_at ids.bits idx b h ∙ (rw full (ground (arith, all_ones b h)))

  -- The one id that is left over is no packet id.
  unused_bit :
      (k : ℕ)
      → k < 64
      → ((j : ℕ) → j < k → bit j word_at ≡ 1)
      → 65534 < idx * 64 + k
      → IsFull ids idx
  unfolding word_at
  unused_bit k hk below beyond b h in_range =
      in_words_at ids.bits idx b h ∙ (ground (arith, below b (omega arith)))

  takes_bit :
      (k : ℕ)
      → k < 64
      → bit k word_at ≡ 0
      → idx * 64 + k < 65535
      → Allocates ids (
        some (idx * 64 + k + 1),
        record { bits = set ids.bits idx (bit_or word_at (2 ^ k)); cursor = (idx + 1) % 1024 },
      )
  unfolding word_at
  takes_bit k hk free within =
      let back : idx * 64 + k + 1 - 1 ≡ idx * 64 + k = omega arith in
      (
        omega arith,
        rw back (in_words_at ids.bits idx k hk ∙ (ground arith)),
        (
          length-set ids.bits idx _ ∙ valid.0,
          All-set IsWord ids.bits idx _
              (bit_or-lt 64 (get_or ids.bits idx 0) (2 ^ k) word_at-IsWord (two-pow-lt k 64 hk))
              valid.1,
          omega arith,
        ),
        (λ j hj.
            let same : (j - 1 == idx * 64 + k) ≡ (j == idx * 64 + k + 1) = ground arith in
            in_words-set_at ids.bits idx k (j - 1) hk (omega (arith, valid.0))
            ∙ ap (λ b. b || in_words ids.bits (j - 1)) same),
      )

allocate_loop-LoopAllocates :
    (ids : PacketIds) (left offset : ℕ)
    → IsValid ids
    → LoopAllocates ids left offset (allocate_loop ids left offset)
unfolding allocate_loop word_at
allocate_loop-LoopAllocates ids zero offset valid = λ k h. absurd (omega arith)
allocate_loop-LoopAllocates ids (suc left) offset valid =
    let rest = allocate_loop-LoopAllocates ids left (offset + 1) valid in
    let idx : ℕ = (ids.cursor + offset) % 1024 in
    let lt : idx < 1024 = omega arith in
    let word : ℕ = get_or ids.bits idx 0 in
    elim (Bool-cases (word == 2 ^ 64 - 1)) [
      | inl full ↦
          rw full
            (later_offset ids left offset _ (IsFull-word ids valid idx lt (ground arith)) rest)
      | inr other ↦
          let (small, zero_bit, below) =
            lowest_zero word (word_at-IsWord ids valid idx lt) (ground arith) in
          elim (Bool-cases (ltb 65534 (idx * 64 + trailing_zeros 64 (2 ^ 64 - 1 - word)))) [
            | inl beyond ↦
                rw (other, beyond)
                  (later_offset ids left offset _
                    (unused_bit ids valid idx lt _ small below (ground arith)) rest)
            | inr within ↦
                rw (other, within) (takes_bit ids valid idx lt _ small zero_bit (ground arith))
          ]
    ]

all_full :
    (ids : PacketIds) (r : Option ℕ × PacketIds)
    → IsValid ids
    → LoopAllocates ids 1024 0 r
    → Allocates ids r
all_full ids (some id, ids') valid h = h
all_full ids (none, ids') valid h = λ id range.
    let idx : ℕ = (id - 1) / 64 in
    let k : ℕ = (idx + 1024 - ids.cursor) % 1024 in
    let reached : (ids.cursor + (0 + k)) % 1024 ≡ idx = omega (arith, valid.2) in
    let index : idx * 64 + (id - 1) % 64 ≡ id - 1 = omega arith in
    subst (λ i. in_words ids.bits i ≡ true) index
      (subst (IsFull ids) reached (h k (omega arith)) ((id - 1) % 64) (omega arith) (omega arith))

-- From any well-formed set of packet ids, `allocate` gives an id from 1 to 65535 that was not in
-- flight, after which that id and no other one more is in flight, in a well-formed set; or it
-- gives none, and then every id from 1 to 65535 was in flight.
pub allocate-Allocates : (ids : PacketIds) → IsValid ids → Allocates ids (allocate ids)
unfolding allocate
allocate-Allocates ids valid = all_full ids _ valid (allocate_loop-LoopAllocates ids 1024 0 valid)

abbrev pub Releases : PacketIds → ℕ → Bool × PacketIds → Type 0
Releases ids id r =
    (r.0 ≡ in_flight ids id)
    × IsValid r.1
    × ((j : ℕ) → IsPacketId j → in_flight r.1 j ≡ (not (j == id) && in_flight ids j))

pub release-Releases :
    (ids : PacketIds) (id : ℕ) → IsValid ids → IsPacketId id → Releases ids id (release ids id)
unfolding release
release-Releases ids zero valid h = absurd (omega arith)
release-Releases ids (suc id) valid h =
    let word : ℕ = get_or ids.bits (id / 64) 0 in
    let is_word = get_or-All IsWord ids.bits (id / 64) 0 (omega arith) valid.1 in
    let back : suc id - 1 ≡ id = omega arith in
    (
      rw back (ap not (bit_test word (id % 64)) ∙ (ground arith)),
      (
        length-set ids.bits (id / 64) _ ∙ valid.0,
        All-set IsWord ids.bits (id / 64) _ (bit_and-lt 64 word _ is_word) valid.1,
        omega arith,
      ),
      (λ j hj.
          let same : not (j - 1 == id) ≡ not (j == suc id) = ground arith in
          in_words-clear ids.bits id (j - 1) (omega (arith, valid.0))
          ∙ ap (λ b. b && in_words ids.bits (j - 1)) same),
    )

pub new-IsValid : IsValid new
new-IsValid =
    (length-replicate {A = ℕ} 1024 0, All-replicate IsWord 1024 0 (omega arith), omega arith)

pub new-free : (id : ℕ) → in_flight new id ≡ false
new-free id = in_words-replicate 1024 (id - 1)
