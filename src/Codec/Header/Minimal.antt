-- ===== src/Codec/Header/Minimal.antt =====
-- Which headers `rejects_malformed_fixed_header` refuses.
use uring_mqtt.Common.{
  false, ℕ, zero, suc, ◌+◌, ◌*◌, ◌/◌, ◌%◌, ◌^◌, ◌≤◌, ◌<◌, ◌≡◌, ◌≢◌, ◌↔◌, ◌⊎◌, ap, true, List, [],
  ◌∷◌, ◌++◌, arith, ltb, Bool-cases, inl, inr, length,
}
use native.Mathlib.Nat.{pow-suc}
use uring_mqtt.Codec.Header.{varint_len, rejects_malformed_fixed_header}
use uring_mqtt.Codec.Header.Width.{varint_len-width}
use uring_mqtt.Codec.Header.Varint.{groups_of, value, varint, IsVarint, length-varint}
use uring_mqtt.Codec.Header.Scan.{fixed_header-varint}

pub value-lt : (k : ℕ) (g : List ℕ) → length g ≤ k → value g < 128 ^ k
unfolding value
value-lt zero [] h = omega arith
value-lt zero (b ∷ g) h = absurd (omega arith)
value-lt (suc k) [] h = omega (arith, pow-suc 128 k, value-lt k [] (omega arith))
value-lt (suc k) (b ∷ g) h = omega (arith, pow-suc 128 k, value-lt k g (omega arith))

-- No encoding of a value is shorter than the standard's, and only that one has its length.
abbrev Compares : ℕ → List ℕ → Type 0
Compares k g =
    (length (groups_of k (value g)) ≤ length g)
    × (length (groups_of k (value g)) ≡ length g → groups_of k (value g) ≡ g)

Compares-all : (k : ℕ) (g : List ℕ) → IsVarint g → length g ≤ suc k → Compares k g
unfolding groups_of value
Compares-all k [] v h = absurd v
Compares-all zero (b ∷ []) v h = (omega arith, λ _. ground arith)
Compares-all (suc k) (b ∷ []) v h = (ground arith, λ _. ground arith)
Compares-all zero (b ∷ c ∷ g) v h = absurd (omega arith)
Compares-all (suc k) (b ∷ c ∷ g) (top, byte, v) h =
    let rest : ℕ = value (c ∷ g) in
    let (le, only) = Compares-all k (c ∷ g) v (omega arith) in
    let high : (b % 128 + 128 * rest) / 128 ≡ rest = omega arith in
    let low : (b % 128 + 128 * rest) % 128 + 128 ≡ b = omega arith in
    elim (Bool-cases (ltb (b % 128 + 128 * rest) 128)) [
      | inl small ↦ rw small (omega arith, λ e. absurd (omega arith))
      | inr large ↦ rw (large, high, low) (omega arith, λ e. ap (◌∷◌ b) (only (omega arith)))
    ]

pub varint_len-value-le : (g : List ℕ) → IsVarint g → length g ≤ 4 → varint_len (value g) ≤ length g
unfolding varint
varint_len-value-le g v h =
    let fits : value g < 128 ^ 4 = value-lt 4 g h in
    rw (varint_len-width (value g) (omega arith), ← length-varint (value g) fits)
      (Compares-all 3 g v h).0

pub varint_len-value-minimal :
    (g : List ℕ)
    → IsVarint g
    → length g ≤ 4
    → (varint_len (value g) ≡ length g) ↔ (varint (value g) ≡ g)
unfolding varint
varint_len-value-minimal g v h =
    let fits : value g < 128 ^ 4 = value-lt 4 g h in
    rw (varint_len-width (value g) (omega arith), ← length-varint (value g) fits)
      ((Compares-all 3 g v h).1, λ e. ap length e)

-- On a complete header of at most four Remaining Length bytes, the check refuses exactly a
-- PINGREQ that declares a body, and a Remaining Length that is not in the standard's encoding.
pub rejects_malformed_fixed_header_iff :
    (first : ℕ) (g rest : List ℕ)
    → IsVarint g
    → length g ≤ 4
    → (rejects_malformed_fixed_header (first ∷ g ++ rest) ≡ true)
      ↔ (((first ≡ 0xc0) × (value g ≢ 0)) ⊎ (varint (value g) ≢ g))
unfolding rejects_malformed_fixed_header
rejects_malformed_fixed_header_iff first g rest v h =
    rw (fixed_header-varint first g rest v h, rejects_malformed_fixed_header)
      (ground (arith, varint_len-value-le g v h, varint_len-value-minimal g v h))

-- What a header that passes the check is.
pub accepted_header :
    (first : ℕ) (g rest : List ℕ)
    → IsVarint g
    → length g ≤ 4
    → rejects_malformed_fixed_header (first ∷ g ++ rest) ≡ false
    → (first ≡ 0xc0 → value g ≡ 0) × (varint (value g) ≡ g)
unfolding rejects_malformed_fixed_header
accepted_header first g rest v h e =
    let e' = rw (fixed_header-varint first g rest v h, rejects_malformed_fixed_header) at e in
    let (minimal, _) = varint_len-value-minimal g v h in
    (ground arith, minimal (ground (arith, varint_len-value-le g v h)))
