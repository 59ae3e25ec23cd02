-- ===== src/Bench/PacketIds.antt =====
-- bench/src/gen.rs: `PacketIds`, the packet ids of a connection that are in flight.
pub mod Words
pub mod Set
use uring_mqtt.Common.{
  ℕ, zero, suc, ◌+◌, ◌-◌, ◌*◌, ◌/◌, ◌%◌, ◌^◌, bit_and, bit_or, Bool, true, false, not, Option, none,
  some, List, ltb, ◌==◌, if◌then◌else◌, get_or, set, replicate,
}

abbrev pub words : ℕ
words = 1024

pub record PacketIds : Type 0 where
  pub bits : List ℕ
  pub cursor : ℕ

abbrev pub new : PacketIds
new = record { bits = replicate words 0; cursor = 0 }

-- `u64::trailing_zeros`, for as many bits.
pub trailing_zeros : ℕ → ℕ → ℕ
trailing_zeros zero word = 0
trailing_zeros (suc bits) word = if word % 2 == 1 then 0 else suc (trailing_zeros bits (word / 2))

-- The `for` loop of `allocate`, with the offsets that are left and the next one.
allocate_loop : PacketIds → ℕ → ℕ → Option ℕ × PacketIds
unfolding trailing_zeros
allocate_loop ids zero offset = (none, ids)
allocate_loop ids (suc left) offset =
    let rest = allocate_loop ids left (offset + 1) in
    let idx = (ids.cursor + offset) % words in
    let word = get_or ids.bits idx 0 in
    let bit = trailing_zeros 64 (2 ^ 64 - 1 - word) in
    let id_offset = idx * 64 + bit in
    if word == 2 ^ 64 - 1 then rest else if ltb 65534 id_offset then rest else (
      some (id_offset + 1),
      record { bits = set ids.bits idx (bit_or word (2 ^ bit)); cursor = (idx + 1) % words },
    )

unfoldable pub allocate : PacketIds → Option ℕ × PacketIds
unfolding allocate_loop
allocate ids = allocate_loop ids words 0

unfoldable pub release : PacketIds → ℕ → Bool × PacketIds
release ids zero = (false, ids)
release ids (suc id_offset) =
    let idx = id_offset / 64 in
    let mask = 2 ^ (id_offset % 64) in
    let word = get_or ids.bits idx 0 in
    (
      not (bit_and word mask == 0),
      record { bits = set ids.bits idx (bit_and word (2 ^ 64 - 1 - mask)); cursor = idx },
    )
