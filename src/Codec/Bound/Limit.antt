-- ===== src/Codec/Bound/Limit.antt =====
-- The Remaining Length limit that a bound gives, and its agreement with the check of a header.
use uring_mqtt.Common.{
  length, ℕ, zero, suc, ◌+◌, ◌-◌, ◌≤◌, ◌<◌, min, ◌≡◌, ◌↔◌, refl, true, some, List, ◌∷◌, ◌++◌, ltb,
  arith, inl, inr, Bool-cases,
}
use native.Mathlib.Decide.{dec_lt}
use uring_mqtt.Codec.Header.{varint_len, packet_len}
use uring_mqtt.Codec.Header.Width.{width, varint_len-width}
use uring_mqtt.Codec.Header.Varint.{value, IsVarint, varint}
use uring_mqtt.Codec.Header.Scan.{fixed_header-varint}
use uring_mqtt.Codec.Header.Complete.{packet_len-standard}
use uring_mqtt.Codec.Bound.{
  MaxInboundPacketSize, IsFramable, new, limit_loop, remaining_length_limit, rejects_fixed_header,
}

-- A packet with Remaining Length `r` takes at most `bound` bytes.
abbrev pub Fits : ℕ → ℕ → Type 0
Fits bound r = (r ≤ 268435455) × (1 + varint_len r + r ≤ bound)

-- The largest Remaining Length that fits.
abbrev pub IsLargest : ℕ → ℕ → Type 0
IsLargest bound r = Fits bound r × ((s : ℕ) → Fits bound s → s ≤ r)

one-Fits : (bound : ℕ) → 3 ≤ bound → Fits bound 1
one-Fits bound h = (omega arith, rw (varint_len-width 1 (omega arith)) h)

below-of-over :
    (bound r s : ℕ)
    → ltb bound (1 + varint_len (suc r) + suc r) ≡ true
    → s ≤ suc r
    → 1 + varint_len s + s ≤ bound
    → s ≤ r
below-of-over bound r s over le fit = elim (dec_lt r s) [
  | yes past ↦
      let same : s ≡ suc r = omega arith in
      let over' : ltb bound (1 + varint_len s + s) ≡ true = rw same over in ground arith
  | no miss ↦ omega arith
]

limit_loop-IsLargest :
    (bound r : ℕ)
    → 3 ≤ bound
    → r ≤ 268435455
    → ((s : ℕ) → Fits bound s → s ≤ r)
    → (n : ℕ) × (limit_loop bound r ≡ some n) × IsLargest bound n
unfolding limit_loop
limit_loop-IsLargest bound zero h small above = absurd (omega (arith, above 1 (one-Fits bound h)))
limit_loop-IsLargest bound (suc r) h small above =
    elim (Bool-cases (ltb bound (1 + varint_len (suc r) + suc r))) [
      | inl over ↦
          rw (over, limit_loop)
            (limit_loop-IsLargest bound r h (omega arith)
              (λ s fit. below-of-over bound r s over (above s fit) fit.1))
      | inr fits ↦ rw (fits, limit_loop) (suc r, refl, ((small, ground arith), above))
    ]

new-IsFramable : (n : ℕ) {bound : MaxInboundPacketSize} → new n ≡ some bound → IsFramable bound
unfolding new
new-IsFramable n e = ground arith

width_mono : (r s : ℕ) → r ≤ s → width r ≤ width s
width_mono r s h = ground arith

-- For every bound that `new` accepts, the loop ends with no underflow, at the largest Remaining
-- Length whose packet fits the bound, which is never 0.
pub remaining_length_limit-IsLargest :
    (n : ℕ) (bound : MaxInboundPacketSize)
    → new n ≡ some bound
    → (r : ℕ) × (remaining_length_limit bound ≡ some r) × (1 ≤ r) × IsLargest bound.bytes r
unfolding remaining_length_limit
remaining_length_limit-IsLargest n bound e =
    let framable = new-IsFramable n e in
    let (r, found, largest) =
      limit_loop-IsLargest bound.bytes (min (bound.bytes - 2) 268435455) framable.0 (omega arith)
        (λ s fit. ground (arith, varint_len-width s (omega arith))) in
    (r, ground arith, largest.1 1 (one-Fits bound.bytes framable.0), largest)

over_limit :
    (bound limit r : ℕ)
    → IsLargest bound limit
    → r ≤ 268435455
    → (bound < 1 + varint_len r + r) ↔ (limit < r)
over_limit bound limit r (fit, over) h =
    let at_r = varint_len-width r (omega arith) in
    let at_limit = varint_len-width limit (omega arith) in
    (
      λ past. elim (dec_lt limit r) [
        | yes p ↦ p
        | no q ↦ absurd (omega (arith, width_mono r limit (omega arith)))
      ],
      λ past. elim (dec_lt bound (1 + varint_len r + r)) [
        | yes p ↦ p
        | no q ↦ absurd (omega (arith, over r (h, omega arith)))
      ],
    )

-- For every bound that `new` accepts, and every Remaining Length of at most 268435455 in the
-- standard's encoding, the check of a header refuses the packet exactly when its Remaining Length
-- is over the limit that the bound gives.
pub rejects_fixed_header-limit :
    (n : ℕ) (bound : MaxInboundPacketSize) (first r limit : ℕ) (rest : List ℕ)
    → new n ≡ some bound
    → remaining_length_limit bound ≡ some limit
    → r ≤ 268435455
    → (rejects_fixed_header bound (first ∷ varint r ++ rest) ≡ true) ↔ (limit < r)
unfolding rejects_fixed_header
rejects_fixed_header-limit n bound first r limit rest e el h =
    let (limit', found, _, (fit, over)) = remaining_length_limit-IsLargest n bound e in
    rw (packet_len-standard first r rest h, rejects_fixed_header)
      (ground (arith, over_limit bound.bytes limit' r (fit, over) h))

-- The check measures a header at its real width.
pub rejects_fixed_header-varint :
    (bound : MaxInboundPacketSize) (first : ℕ) (g rest : List ℕ)
    → IsVarint g
    → length g ≤ 4
    → rejects_fixed_header bound (first ∷ g ++ rest) ≡ ltb bound.bytes (1 + length g + value g)
unfolding rejects_fixed_header packet_len
rejects_fixed_header-varint bound first g rest v h =
    rw (fixed_header-varint first g rest v h, packet_len, rejects_fixed_header)
