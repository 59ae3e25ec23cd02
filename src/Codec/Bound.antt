-- ===== src/Codec/Bound.antt =====
-- src/codec/mqtt.rs: `MaxInboundPacketSize`, the bound on the packets that the server reads.
pub mod Limit
use uring_mqtt.Common.{
  ℕ, zero, suc, ◌+◌, ◌-◌, ◌≤◌, min, Bool, true, false, ◌||◌, Option, none, some, List, ltb,
  if◌then◌else◌,
}
use uring_mqtt.Codec.Header.{varint_len, packet_len, max_remaining_length}

pub record MaxInboundPacketSize : Type 0 where
  pub bytes : ℕ

abbrev pub min_inbound_packet_size : ℕ
min_inbound_packet_size = 3

abbrev pub max_inbound_packet_size : ℕ
max_inbound_packet_size = 268435460

-- `MaxInboundPacketSize::DEFAULT`, 128 KiB.
abbrev pub default_bound : MaxInboundPacketSize
default_bound = record { bytes = 131072 }

unfoldable pub new : ℕ → Option MaxInboundPacketSize
new bytes =
    if ltb bytes min_inbound_packet_size || ltb max_inbound_packet_size bytes
    then none
    else some (record { bytes = bytes })

-- `while 1 + varint_len(r) + r > self.0 { r -= 1 }`. `none` is the underflow of `0 - 1`.
unfoldable pub limit_loop : ℕ → ℕ → Option ℕ
limit_loop bound zero = if ltb bound (1 + varint_len zero + zero) then none else some zero
limit_loop bound (suc r) = elim (ltb bound (1 + varint_len (suc r) + suc r)) [
  | true ↦ limit_loop bound r
  | false ↦ some (suc r)
]

-- `none` is an underflow, of the loop or of `self.0 - 2`.
unfoldable pub remaining_length_limit : MaxInboundPacketSize → Option ℕ
unfolding limit_loop
remaining_length_limit bound =
    if ltb bound.bytes 2
    then none
    else limit_loop bound.bytes (min (bound.bytes - 2) max_remaining_length)

unfoldable pub rejects_fixed_header : MaxInboundPacketSize → List ℕ → Bool
rejects_fixed_header bound src = elim (packet_len src) [
  | none ↦ false
  | some len ↦ ltb bound.bytes len
]

-- What `new` accepts.
abbrev pub IsFramable : MaxInboundPacketSize → Type 0
IsFramable bound = (3 ≤ bound.bytes) × (bound.bytes ≤ 268435460)
