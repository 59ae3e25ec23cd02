-- ===== src/Bench/Payload.antt =====
-- bench/src/payload.rs: the stamp that a PUBLISH of the generator carries, in 64 bytes.
pub mod Stamps
use uring_mqtt.Common.{
  ℕ, zero, suc, ◌+◌, ◌*◌, ◌/◌, ◌%◌, Bool, not, Option, none, some, List, [], ◌∷◌, ◌++◌, ◌==◌,
  if◌then◌else◌, length, take, drop, replicate, any,
}

abbrev pub payload_bytes : ℕ
payload_bytes = 64

-- `bench/load`
abbrev pub topic : List ℕ
topic = b'b' ∷ b'e' ∷ b'n' ∷ b'c' ∷ b'h' ∷ b'/' ∷ b'l' ∷ b'o' ∷ b'a' ∷ b'd' ∷ []

pub record Stamp : Type 0 where
  pub conn_id : ℕ
  pub seq : ℕ
  pub scheduled_ns : ℕ

-- `to_le_bytes` of a number of as many bytes, and `from_le_bytes`.
abbrev pub to_le_bytes : ℕ → ℕ → List ℕ
to_le_bytes zero value = []
to_le_bytes (suc bytes) value = (value % 256) ∷ to_le_bytes bytes (value / 256)

abbrev pub from_le_bytes : List ℕ → ℕ
from_le_bytes [] = 0
from_le_bytes (b ∷ bs) = b + 256 * from_le_bytes bs

-- `buf[from..from + bytes.len()].copy_from_slice(bytes)`
abbrev pub copy_at : List ℕ → ℕ → List ℕ → List ℕ
copy_at buf from bytes = take from buf ++ (bytes ++ drop (from + length bytes) buf)

unfoldable pub encode : Stamp → List ℕ
encode s =
    let buf = replicate payload_bytes 0 in
    let buf = copy_at buf 0 (to_le_bytes 4 s.conn_id) in
    let buf = copy_at buf 4 (to_le_bytes 8 s.seq) in copy_at buf 12 (to_le_bytes 8 s.scheduled_ns)

unfoldable pub decode : List ℕ → Option Stamp
decode payload =
    if not (length payload == payload_bytes)
    then none
    else if any (λ b. not (b == 0)) (drop 20 payload)
    then none
    else some (record {
      conn_id = from_le_bytes (take 4 payload);
      seq = from_le_bytes (take 8 (drop 4 payload));
      scheduled_ns = from_le_bytes (take 8 (drop 12 payload));
    })
