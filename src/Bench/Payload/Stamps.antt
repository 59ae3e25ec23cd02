-- ===== src/Bench/Payload/Stamps.antt =====
-- Which payloads are stamps, and of what.
use uring_mqtt.Common.{
  ℕ, zero, suc, ◌+◌, ◌*◌, ◌/◌, ◌%◌, ◌^◌, ◌<◌, false, not, none, some, List, [], ◌∷◌, ◌++◌, ◌==◌,
  ◌≡◌, ◌↔◌, refl, sym, ap, ◌∙◌, subst, inl, inr, arith, length, take, drop, replicate, any, All,
  Bool-cases,
}
use native.Mathlib.Nat.{pow-suc}
use uring_mqtt.Bench.Payload.{Stamp, to_le_bytes, from_le_bytes, encode, decode}

abbrev pub IsByte : ℕ → Type 0
IsByte b = b < 256

abbrev pub IsStamp : Stamp → Type 0
IsStamp s = (s.conn_id < 2 ^ 32) × (s.seq < 2 ^ 64) × (s.scheduled_ns < 2 ^ 64)

from_le_bytes-to_le_bytes : (n v : ℕ) → v < 256 ^ n → from_le_bytes (to_le_bytes n v) ≡ v
from_le_bytes-to_le_bytes zero v h = omega arith
from_le_bytes-to_le_bytes (suc n) v h =
    omega (arith, from_le_bytes-to_le_bytes n (v / 256) (omega (arith, pow-suc 256 n)))

to_le_bytes-from_le_bytes :
    (bs : List ℕ) → All IsByte bs → to_le_bytes (length bs) (from_le_bytes bs) ≡ bs
to_le_bytes-from_le_bytes [] h = refl
to_le_bytes-from_le_bytes (b ∷ bs) (h, hs) =
    let low : (b + 256 * from_le_bytes bs) % 256 ≡ b = omega arith in
    let high : (b + 256 * from_le_bytes bs) / 256 ≡ from_le_bytes bs = omega arith in
    rw (low, high, to_le_bytes-from_le_bytes bs hs)

from_le_bytes-lt : (bs : List ℕ) → All IsByte bs → from_le_bytes bs < 256 ^ length bs
from_le_bytes-lt [] h = omega arith
from_le_bytes-lt (b ∷ bs) (h, hs) = omega (arith, from_le_bytes-lt bs hs, pow-suc 256 (length bs))

take-append-drop : (n : ℕ) (xs : List ℕ) → take n xs ++ drop n xs ≡ xs
take-append-drop zero xs = refl
take-append-drop (suc n) [] = refl
take-append-drop (suc n) (x ∷ xs) = ap (λ t. x ∷ t) (take-append-drop n xs)

All-take : (n : ℕ) (xs : List ℕ) → All IsByte xs → All IsByte (take n xs)
All-take zero xs h = tt
All-take (suc n) [] h = tt
All-take (suc n) (x ∷ xs) (h, hs) = (h, All-take n xs hs)

All-drop : (n : ℕ) (xs : List ℕ) → All IsByte xs → All IsByte (drop n xs)
All-drop zero xs h = h
All-drop (suc n) [] h = tt
All-drop (suc n) (x ∷ xs) (h, hs) = All-drop n xs hs

length-take : (n : ℕ) (xs : List ℕ) → n < suc (length xs) → length (take n xs) ≡ n
length-take zero xs h = refl
length-take (suc n) [] h = absurd (omega arith)
length-take (suc n) (x ∷ xs) h = ap suc (length-take n xs (omega arith))

length-drop : (n : ℕ) (xs : List ℕ) → n < suc (length xs) → length (drop n xs) + n ≡ length xs
length-drop zero xs h = omega arith
length-drop (suc n) [] h = absurd (omega arith)
length-drop (suc n) (x ∷ xs) h = omega (arith, length-drop n xs (omega arith))

drop-drop : (m n : ℕ) (xs : List ℕ) → drop m (drop n xs) ≡ drop (n + m) xs
drop-drop m zero xs = let same : 0 + m ≡ m = omega arith in rw same refl
drop-drop zero (suc n) [] = let same : suc n + 0 ≡ suc n = omega arith in rw same refl
drop-drop (suc m) (suc n) [] =
    let same : suc n + suc m ≡ suc (n + suc m) = omega arith in rw same refl
drop-drop m (suc n) (x ∷ xs) =
    let same : suc n + m ≡ suc (n + m) = omega arith in rw same (drop-drop m n xs)

all_zero : (xs : List ℕ) → any (λ b. not (b == 0)) xs ≡ false → xs ≡ replicate (length xs) 0
all_zero [] h = refl
all_zero (zero ∷ xs) h = ap (λ t. 0 ∷ t) (all_zero xs h)
all_zero (suc x ∷ xs) h = absurd (ground arith)

-- The bytes of a field, from the number that they stand for.
field :
    (n : ℕ) (bs : List ℕ) → length bs ≡ n → All IsByte bs → to_le_bytes n (from_le_bytes bs) ≡ bs
field n bs len h =
    subst (λ k. to_le_bytes k (from_le_bytes bs) ≡ bs) len (to_le_bytes-from_le_bytes bs h)

field_lt : (n : ℕ) (bs : List ℕ) → length bs ≡ n → All IsByte bs → from_le_bytes bs < 256 ^ n
field_lt n bs len h = subst (λ k. from_le_bytes bs < 256 ^ k) len (from_le_bytes-lt bs h)

pub decode-encode : (s : Stamp) → IsStamp s → decode (encode s) ≡ some s
unfolding encode decode
decode-encode s (c, q, d) =
    let c' = from_le_bytes-to_le_bytes 4 s.conn_id (omega arith) in
    let q' = from_le_bytes-to_le_bytes 8 s.seq (omega arith) in
    let d' = from_le_bytes-to_le_bytes 8 s.scheduled_ns (omega arith) in
    λ i. some (record { conn_id = c' i; seq = q' i; scheduled_ns = d' i })

encode_fields :
    (s : Stamp)
    → encode s
      ≡ to_le_bytes 4 s.conn_id
        ++ (to_le_bytes 8 s.seq ++ (to_le_bytes 8 s.scheduled_ns ++ replicate 44 0))
unfolding encode
encode_fields s = refl

-- A payload of 64 bytes whose rest is zero, cut into its fields.
cut :
    (p : List ℕ)
    → length p ≡ 64
    → drop 20 p ≡ replicate 44 0
    → p ≡ take 4 p ++ (take 8 (drop 4 p) ++ (take 8 (drop 12 p) ++ replicate 44 0))
cut p len zeros =
    let third = sym (take-append-drop 8 (drop 12 p)) in
    let second = sym (take-append-drop 8 (drop 4 p)) in
    let first = sym (take-append-drop 4 p) in
    let d12 = drop-drop 8 4 p in
    let d20 = drop-drop 8 12 p in
    first
    ∙ ap (λ t. take 4 p ++ t)
        (second
          ∙ ap (λ t. take 8 (drop 4 p) ++ t)
              (d12 ∙ (third ∙ ap (λ t. take 8 (drop 12 p) ++ t) (d20 ∙ zeros))))

decoded : List ℕ → Stamp
decoded p = record {
  conn_id = from_le_bytes (take 4 p);
  seq = from_le_bytes (take 8 (drop 4 p));
  scheduled_ns = from_le_bytes (take 8 (drop 12 p));
}

decode_lem :
    (p : List ℕ) (s : Stamp)
    → decode p ≡ some s
    → (length p ≡ 64) × (drop 20 p ≡ replicate 44 0) × (decoded p ≡ s)
unfolding decode decoded
decode_lem p s h = elim (Bool-cases (length p == 64)) [
  | inr other ↦ let refused : none ≡ some s = rw other at h in absurd (cc)
  | inl len ↦ elim (Bool-cases (any (λ b. not (b == 0)) (drop 20 p))) [
    | inl some_set ↦ let refused : none ≡ some s = rw (len, some_set) at h in absurd (cc)
    | inr zeros ↦
        let read : some (decoded p) ≡ some s = rw (len, zeros) at h in
        let count : length p ≡ 64 = ground arith in
        let rest : length (drop 20 p) ≡ 44 = omega (arith, length-drop 20 p) in
        (count, all_zero (drop 20 p) zeros ∙ ap (λ n. replicate n 0) rest, (cc))
  ]
]

-- On a list of bytes, `decode` reads a stamp exactly when the stamp's fields fit their 32 and 64
-- bits and the list is its encoding.
pub decode_iff :
    (p : List ℕ) (s : Stamp) → All IsByte p → (decode p ≡ some s) ↔ (IsStamp s × (p ≡ encode s))
unfolding decoded
decode_iff p s bytes = (
  (λ h.
      let (len, zeros, same) = decode_lem p s h in
      let len4 = length-take 4 p (omega arith) in
      let len8 = length-take 8 (drop 4 p) (omega (arith, length-drop 4 p)) in
      let len12 = length-take 8 (drop 12 p) (omega (arith, length-drop 12 p)) in
      let b4 = All-take 4 p bytes in
      let b8 = All-take 8 (drop 4 p) (All-drop 4 p bytes) in
      let b12 = All-take 8 (drop 12 p) (All-drop 12 p bytes) in
      let rebuilt : encode (decoded p) ≡ p =
        encode_fields (decoded p)
        ∙ ((λ i.
              field 4 _ len4 b4 i
              ++ (field 8 _ len8 b8 i ++ (field 8 _ len12 b12 i ++ replicate 44 0)))
            ∙ sym (cut p len zeros)) in
      subst (λ t. IsStamp t × (p ≡ encode t)) same
        ((field_lt 4 _ len4 b4, field_lt 8 _ len8 b8, field_lt 8 _ len12 b12), sym rebuilt)),
  (λ (range, e). rw e (decode-encode s range)),
)
