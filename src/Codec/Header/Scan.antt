-- ===== src/Codec/Header/Scan.antt =====
-- `fixed_header` reads exactly the encodings of `Varint`, behind one type byte.
use uring_mqtt.Common.{
  ℕ, zero, suc, ◌+◌, ◌*◌, ◌%◌, ◌^◌, ◌≤◌, ◌<◌, ◌≡◌, refl, sym, ap, ◌∙◌, bit_and, bit_or, some, List,
  [], ◌∷◌, ◌++◌, arith, ltb, ◌==◌, length, take, All,
}
use native.Mathlib.Decide.{dec_lt}
use uring_mqtt.Common.Bits.{bit_and-seven_ones, bit_and-power, bit_or-field}
use uring_mqtt.Codec.Header.{header_loop, fixed_header, shl32}
use uring_mqtt.Codec.Header.Varint.{value, IsVarint}

abbrev pub IsByte : ℕ → Type 0
IsByte b = b < 256

-- The continuation bit tells the bytes from 128 on.
continuation_bit : (b : ℕ) → b < 256 → (bit_and b 0x80 == 0) ≡ ltb b 128
continuation_bit b h = ground (arith, bit_and-power 7 b)

-- A varint has at most four bytes, so each of the four places is treated by its number.
next_place : (i : ℕ) → i ≤ 3 → 2 ^ (7 * (i + 1)) ≡ 128 * 2 ^ (7 * i)
next_place zero h = refl
next_place (suc zero) h = refl
next_place (suc (suc zero)) h = refl
next_place (suc (suc (suc zero))) h = refl
next_place (suc (suc (suc (suc i)))) h = absurd (omega arith)

group_at :
    (k acc b : ℕ)
    → k ≤ 21
    → b % 128 * 2 ^ k < 2 ^ 32
    → acc < 2 ^ k
    → bit_or acc (shl32 (bit_and b 0x7f) k) ≡ acc + b % 128 * 2 ^ k
group_at k acc b h small fits =
    let whole : bit_and b 0x7f * 2 ^ k % 2 ^ 32 ≡ b % 128 * 2 ^ k =
      rw bit_and-seven_ones (omega arith) in
    rw whole (bit_or-field k acc (b % 128) fits)

-- One round adds the group of seven bits at its place.
add_group :
    (i acc b : ℕ)
    → i ≤ 3
    → acc < 2 ^ (7 * i)
    → bit_or acc (shl32 (bit_and b 0x7f) (7 * i)) ≡ acc + b % 128 * 2 ^ (7 * i)
add_group zero acc b h fits = group_at 0 acc b (omega arith) (omega arith) fits
add_group (suc zero) acc b h fits = group_at 7 acc b (omega arith) (omega arith) fits
add_group (suc (suc zero)) acc b h fits = group_at 14 acc b (omega arith) (omega arith) fits
add_group (suc (suc (suc zero))) acc b h fits = group_at 21 acc b (omega arith) (omega arith) fits
add_group (suc (suc (suc (suc i)))) acc b h fits = absurd (omega arith)

group_fits : (p acc g : ℕ) → acc < p → g < 128 → acc + g * p < 128 * p
group_fits p acc g fits small = grind arith

regroup : (p acc g v : ℕ) → acc + g * p + 128 * p * v ≡ acc + p * (g + 128 * v)
regroup p acc g v = omega arith

-- What one round does, by the top bit of its byte.
last_round :
    (i acc b : ℕ) (rest : List ℕ)
    → i ≤ 3
    → acc < 2 ^ (7 * i)
    → b < 128
    → header_loop i acc (b ∷ rest) ≡ some (2 + i, acc + b % 128 * 2 ^ (7 * i))
unfolding header_loop
last_round i acc b rest hi fits small = ground (arith, continuation_bit b, add_group i acc b)

inner_round :
    (i acc b : ℕ) (rest : List ℕ)
    → i ≤ 3
    → acc < 2 ^ (7 * i)
    → 128 ≤ b
    → b < 256
    → header_loop i acc (b ∷ rest) ≡ header_loop (i + 1) (acc + b % 128 * 2 ^ (7 * i)) rest
unfolding header_loop
inner_round i acc b rest hi fits top byte =
    rw (add_group i acc b hi fits) (ground (arith, continuation_bit b))

-- The loop reads an encoding to its end, and no further.
header_loop-varint :
    (n i acc : ℕ) (g rest : List ℕ)
    → i + n ≡ 4
    → acc < 2 ^ (7 * i)
    → IsVarint g
    → length g ≤ n
    → header_loop i acc (take n (g ++ rest)) ≡ some (1 + i + length g, acc + 2 ^ (7 * i) * value g)
unfolding value
header_loop-varint n i acc [] rest hi fits v h = absurd v
header_loop-varint zero i acc (b ∷ g) rest hi fits v h = absurd (omega arith)
header_loop-varint (suc n) i acc (b ∷ []) rest hi fits v h =
    last_round i acc b (take n rest) (omega arith) fits v
    ∙ ground (arith, regroup (2 ^ (7 * i)) acc (b % 128) 0)
header_loop-varint (suc n) i acc (b ∷ c ∷ g) rest hi fits (top, byte, v) h =
    inner_round i acc b (take n (c ∷ g ++ rest)) (omega arith) fits top byte
    ∙ header_loop-varint n (i + 1) (acc + b % 128 * 2 ^ (7 * i)) (c ∷ g) rest (omega arith)
        (rw (next_place i (omega arith))
          (group_fits (2 ^ (7 * i)) acc (b % 128) fits (omega arith)))
        v (omega arith)
    ∙ ground (
      arith,
      ap (λ (t : ℕ). t * value (c ∷ g)) (next_place i (omega arith)),
      regroup (2 ^ (7 * i)) acc (b % 128) (value (c ∷ g)),
    )

-- A type byte and an encoding of at most four bytes make a complete fixed header.
pub fixed_header-varint :
    (first : ℕ) (g rest : List ℕ)
    → IsVarint g
    → length g ≤ 4
    → fixed_header (first ∷ g ++ rest) ≡ some (1 + length g, value g)
unfolding fixed_header
fixed_header-varint first g rest v h =
    header_loop-varint 4 0 0 g rest refl (omega arith) v h ∙ ground arith

-- What the loop has read when it ends: the list starts with an encoding.
abbrev Reads : ℕ → ℕ → ℕ → List ℕ → ℕ → ℕ → Type 0
Reads n i acc l h r =
    (g : List ℕ) × (rest : List ℕ) × (l ≡ g ++ rest)
    × IsVarint g
    × (length g ≤ n)
    × (h ≡ 1 + i + length g)
    × (r ≡ acc + 2 ^ (7 * i) * value g)

Reads-cons :
    (n i acc b : ℕ) (l : List ℕ) (h r : ℕ)
    → i ≤ 3
    → 128 ≤ b
    → b < 256
    → Reads n (i + 1) (acc + b % 128 * 2 ^ (7 * i)) l h r
    → Reads (suc n) i acc (b ∷ l) h r
unfolding value
Reads-cons n i acc b l h r hi top byte ([], rest, e, v, k, eh, er) = absurd v
Reads-cons n i acc b l h r hi top byte (c ∷ g, rest, e, v, k, eh, er) = (
  b ∷ c ∷ g,
  rest,
  ap (◌∷◌ b) e,
  (top, byte, v),
  omega arith,
  omega arith,
  ground (
    arith,
    ap (λ (t : ℕ). t * value (c ∷ g)) (next_place i hi),
    regroup (2 ^ (7 * i)) acc (b % 128) (value (c ∷ g)),
  ),
)

header_loop-Reads :
    (n i acc : ℕ) (l : List ℕ) (h r : ℕ)
    → i + n ≡ 4
    → acc < 2 ^ (7 * i)
    → All IsByte l
    → header_loop i acc (take n l) ≡ some (h, r)
    → Reads n i acc l h r
unfolding value
header_loop-Reads zero i acc l h r hi fits bytes e = unfold header_loop in cc
header_loop-Reads (suc n) i acc [] h r hi fits bytes e = unfold header_loop in cc
header_loop-Reads (suc n) i acc (b ∷ l) h r hi fits (byte, bytes) e = elim (dec_lt b 128) [
  | yes small ↦
      let done = last_round i acc b (take n l) (omega arith) fits small in
      (
        b ∷ [],
        l,
        refl,
        small,
        omega arith,
        ground arith,
        ground (arith, regroup (2 ^ (7 * i)) acc (b % 128) 0),
      )
  | no large ↦
      let step = inner_round i acc b (take n l) (omega arith) fits (omega arith) byte in
      Reads-cons n i acc b l h r (omega arith) (omega arith) byte (
        header_loop-Reads n (i + 1) (acc + b % 128 * 2 ^ (7 * i)) l h r (omega arith)
          (rw (next_place i (omega arith))
            (group_fits (2 ^ (7 * i)) acc (b % 128) fits (omega arith)))
          bytes (sym step ∙ e))
]

-- A complete fixed header, described without the code.
abbrev pub StartsWithHeader : List ℕ → ℕ → ℕ → Type 0
StartsWithHeader src h r =
    (first : ℕ) × (g : List ℕ) × (rest : List ℕ) × (src ≡ first ∷ g ++ rest)
    × IsVarint g
    × (length g ≤ 4)
    × (h ≡ 1 + length g)
    × (r ≡ value g)

-- If `fixed_header` reads a header off a list of bytes, the list starts with a type byte and a
-- varint of at most four bytes, and the answer is the length of the two and the value of the
-- varint.
pub fixed_header-StartsWithHeader :
    (src : List ℕ) (h r : ℕ)
    → All IsByte src
    → fixed_header src ≡ some (h, r)
    → StartsWithHeader src h r
unfolding fixed_header
fixed_header-StartsWithHeader [] h r bytes e = unfold header_loop in cc
fixed_header-StartsWithHeader (first ∷ src) h r bytes e =
    let (g, rest, split, v, short, eh, er) =
      header_loop-Reads 4 0 0 src h r refl (omega arith) bytes.1 e in
    (first, g, rest, ap (◌∷◌ first) split, v, short, eh, omega arith)
