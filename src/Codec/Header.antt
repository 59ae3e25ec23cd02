-- ===== src/Codec/Header.antt =====
-- src/codec/mqtt.rs: the fixed header of an MQTT packet, its type byte and its Remaining Length
-- varint. A byte slice is a list of numbers below 256.
pub mod Width
pub mod Varint
pub mod Scan
pub mod Minimal
pub mod Complete
use mathlib.Core.Logic.{dite}
use mathlib.Core.WellFounded.{Acc}
use native.Mathlib.Decide.{dec_lt}
use uring_mqtt.Common.{
  ℕ, zero, suc, ◌+◌, ◌-◌, ◌*◌, ◌/◌, ◌%◌, ◌^◌, ◌<◌, bit_and, bit_or, Bool, true, false, not, ◌&&◌,
  ◌||◌, Option, none, some, List, [], ◌∷◌, arith, ltb, leb, ◌==◌, if◌then◌else◌, length, take, drop,
}
use uring_mqtt.Common.Order.{lt_wf}

abbrev pub max_remaining_length : ℕ
max_remaining_length = 268435455

abbrev pub varint_payload_bits : ℕ
varint_payload_bits = 7

abbrev pub varint_payload_mask : ℕ
varint_payload_mask = 0x7f

abbrev pub varint_continuation_bit : ℕ
varint_continuation_bit = 0x80

abbrev pub max_varint_bytes : ℕ
max_varint_bytes = 4

abbrev pub pingreq_first_byte : ℕ
pingreq_first_byte = 0xc0

-- `x << k` on u32.
abbrev shl32 : ℕ → ℕ → ℕ
shl32 x k = x * 2 ^ k % 2 ^ 32

pub shrinks : (rest : ℕ) → 0 < rest → rest / 2 ^ 7 < rest
shrinks rest h = omega arith

-- `while rest > 0 { len += 1; rest >>= 7 }`
len_loop : (rest : ℕ) → ℕ → Acc ◌<◌ rest → ℕ
len_loop rest len (Acc.intro _ smaller) =
    dite (dec_lt 0 rest)
      (λ more. len_loop (rest / 2 ^ varint_payload_bits) (len + 1) (smaller _ (shrinks rest more)))
      (λ _. len)

unfoldable pub varint_len : ℕ → ℕ
unfolding len_loop lt_wf dec_lt
varint_len r = let rest = r / 2 ^ varint_payload_bits in len_loop rest 1 (lt_wf.apply rest)

-- `remaining_length |= u32::from(byte & 0x7F) << (7 * i)`
abbrev with_group : ℕ → ℕ → ℕ → ℕ
with_group i remaining_length byte =
    bit_or remaining_length (shl32 (bit_and byte varint_payload_mask) (varint_payload_bits * i))

-- The `for` loop of `fixed_header`: `i` counts the varint bytes read before the list.
unfoldable pub header_loop : ℕ → ℕ → List ℕ → Option (ℕ × ℕ)
header_loop i remaining_length [] = none
header_loop i remaining_length (byte ∷ rest) =
    let total = with_group i remaining_length byte in
    let more = header_loop (i + 1) total rest in
    if bit_and byte varint_continuation_bit == 0 then some (2 + i, total) else more

unfoldable pub fixed_header : List ℕ → Option (ℕ × ℕ)
unfolding header_loop
fixed_header src = header_loop 0 0 (take max_varint_bytes (drop 1 src))

-- Both parts are below 2 ^ 32, so their u64 sum does not wrap.
unfoldable pub packet_len : List ℕ → Option ℕ
packet_len src = elim (fixed_header src) [
  | none ↦ none
  | some (header_len, remaining_length) ↦ some (header_len + remaining_length)
]

unfoldable pub holds_complete_packet : List ℕ → Bool
unfolding packet_len
holds_complete_packet src = elim (packet_len src) [ none ↦ false | some len ↦ leb len (length src) ]

-- `src[0] == byte`; the source indexes a slice that holds a complete header.
first_is : List ℕ → ℕ → Bool
first_is [] byte = false
first_is (first ∷ rest) byte = first == byte

unfoldable pub rejects_malformed_fixed_header : List ℕ → Bool
unfolding first_is
rejects_malformed_fixed_header src = elim (fixed_header src) [
  | none ↦ false
  | some (header_len, remaining_length) ↦
      let pingreq_with_body = first_is src pingreq_first_byte && not (remaining_length == 0) in
      let non_minimal = ltb (varint_len remaining_length) (header_len - 1) in
      pingreq_with_body || non_minimal
]
