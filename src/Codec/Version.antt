-- ===== src/Codec/Version.antt =====
-- src/codec/version.rs: `VersionDecoder`, which reads the protocol version off the first packet.
pub mod Names
use uring_mqtt.Common.{
  ℕ, ◌+◌, ◌*◌, ◌-◌, Bool, true, false, ◌&&◌, ◌||◌, Option, none, some, List, [], ◌∷◌, length, take,
  drop, ltb, leb, ◌==◌, if◌then◌else◌,
}
use uring_mqtt.Common.Result.{Result, ok, err}
use uring_mqtt.Error.{
  DecodeError, IoError, rejection, max_size_exceeded, invalid_protocol, unsupported_protocol_level,
}
use uring_mqtt.Codec.Protocol.{ProtocolVersion}
use uring_mqtt.Codec.Decoded.{Decoded, insufficient}
use uring_mqtt.Codec.Header.{fixed_header, rejects_malformed_fixed_header}
use uring_mqtt.Codec.Bound.{MaxInboundPacketSize, rejects_fixed_header}

abbrev pub protocol_name_mqtt : List ℕ
protocol_name_mqtt = b'M' ∷ b'Q' ∷ b'T' ∷ b'T' ∷ []

abbrev pub protocol_name_mqisdp : List ℕ
protocol_name_mqisdp = b'M' ∷ b'Q' ∷ b'I' ∷ b's' ∷ b'd' ∷ b'p' ∷ []

abbrev pub protocol_name_len_bytes : ℕ
protocol_name_len_bytes = 2

-- `src.get(from..to)`
abbrev slice : List ℕ → ℕ → ℕ → Option (List ℕ)
slice src from to =
    if leb from to && leb to (length src) then some (take (to - from) (drop from src)) else none

eq_bytes : List ℕ → List ℕ → Bool
eq_bytes [] [] = true
eq_bytes [] (y ∷ ys) = false
eq_bytes (x ∷ xs) [] = false
eq_bytes (x ∷ xs) (y ∷ ys) = x == y && eq_bytes xs ys

is_known : Option (List ℕ) → Bool
unfolding eq_bytes
is_known none = false
is_known (some name) = eq_bytes name protocol_name_mqtt || eq_bytes name protocol_name_mqisdp

-- The checks behind the two bytes of the length prefix.
names_at : List ℕ → ℕ → ℕ → Option (List ℕ) → Bool
unfolding is_known
names_at src header_len remaining_length (some (hi ∷ lo ∷ [])) =
    let name_start = header_len + protocol_name_len_bytes in
    let name_end = name_start + (hi * 256 + lo) in
    let frame_end = header_len + remaining_length in
    ltb name_end frame_end && is_known (slice src name_start name_end)
names_at src header_len remaining_length other = false

unfoldable pub names_a_known_protocol : List ℕ → Bool
unfolding names_at
names_a_known_protocol src = elim (fixed_header src) [
  | none ↦ false
  | some (header_len, remaining_length) ↦
      if rejects_malformed_fixed_header src
      then false
      else names_at src header_len remaining_length
          (slice src header_len (header_len + protocol_name_len_bytes))
]

-- The `match` on the answer of rmqtt-codec's `VersionCodec` to the buffer, which the second
-- argument holds as the call leaves it.
answer :
    Result DecodeError (Option ProtocolVersion) → List ℕ → Result IoError (Decoded ProtocolVersion)
answer (ok (some version)) src = ok (Decoded.some version)
answer (ok none) src = ok insufficient
answer (err invalid_protocol) src =
    if names_a_known_protocol src
    then err (rejection unsupported_protocol_level)
    else err (rejection invalid_protocol)
answer (err e) src = err (rejection e)

-- `inner` is `VersionCodec`, which has no state: its answer, and what it leaves of the buffer.
unfoldable pub decode :
    (List ℕ → Result DecodeError (Option ProtocolVersion) × List ℕ)
    → MaxInboundPacketSize
    → List ℕ
    → Result IoError (Decoded ProtocolVersion) × List ℕ
unfolding answer
decode inner bound src =
    if rejects_fixed_header bound src
    then (err (rejection max_size_exceeded), src)
    else let (answered, left) = inner src in (answer answered left, left)
