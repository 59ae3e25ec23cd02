-- ===== src/Bench/Wire.antt =====
-- bench/src/wire.rs: the packets that the generator and the subscriber write, as MQTT 3.1.1 bytes. `none` is a
-- panic of the code, and a text is its UTF-8 bytes.
pub mod Frames
pub mod Batches
use mathlib.Core.Logic.{dite}
use mathlib.Core.WellFounded.{Acc}
use native.Mathlib.Decide.{dec_lt}
use uring_mqtt.Common.{
  ℕ, zero, suc, ◌+◌, ◌*◌, ◌/◌, ◌%◌, ◌^◌, ◌<◌, bit_and, bit_or, Option, none, some, List, [], ◌∷◌,
  ◌++◌, arith, ltb, ◌==◌, if◌then◌else◌, length,
}
use uring_mqtt.Common.Order.{lt_wf}
use uring_mqtt.Bench.Payload.{Stamp, topic, encode}

pub shrinks : (value : ℕ) → 0 < value / 2 ^ 7 → value / 2 ^ 7 < value
shrinks value h = omega arith

-- The loop of `write_varint`, with the byte that it writes first.
write_loop : (value : ℕ) → Acc ◌<◌ value → List ℕ
write_loop value (Acc.intro _ smaller) =
    let encoded = bit_and value 0x7f in
    dite (dec_lt 0 (value / 2 ^ 7))
      (λ more. bit_or encoded 0x80 ∷ write_loop (value / 2 ^ 7) (smaller _ (shrinks value more)))
      (λ _. encoded ∷ [])

unfoldable pub write_varint : ℕ → List ℕ
unfolding write_loop lt_wf dec_lt
write_varint value = write_loop value (lt_wf.apply value)

-- `u16::to_be_bytes`
abbrev pub to_be_bytes : ℕ → List ℕ
to_be_bytes n = (n / 256) ∷ (n % 256) ∷ []

-- `MQTT`, behind its length.
abbrev pub protocol_name : List ℕ
protocol_name = 0x00 ∷ 0x04 ∷ b'M' ∷ b'Q' ∷ b'T' ∷ b'T' ∷ []

unfoldable pub encode_connect : List ℕ → Option (List ℕ)
encode_connect client_id =
    let body_len = 12 + length client_id in
    if ltb (length client_id) (2 ^ 16)
    then some (
        0x10 ∷ write_varint body_len
        ++ (protocol_name
            ++ (0x04 ∷ 0x02 ∷ 0x00 ∷ 0x00 ∷ (to_be_bytes (length client_id) ++ client_id))))
    else none

-- The packet id of a PUBLISH.
unfoldable pub id_bytes : ℕ → Option ℕ → Option (List ℕ)
id_bytes zero packet_id = some []
id_bytes (suc qos) none = none
id_bytes (suc qos) (some id) = some (to_be_bytes id)

abbrev pub publish_bytes : ℕ → List ℕ → Option (List ℕ) → Option (List ℕ)
publish_bytes qos payload none = none
publish_bytes qos payload (some id) =
    let fixed = bit_or 0x30 (qos * 2 % 256) in
    let body_len = 2 + length topic + length payload + (if ltb 0 qos then 2 else 0) in
    some
      (fixed ∷ write_varint body_len ++ (to_be_bytes (length topic) ++ (topic ++ (id ++ payload))))

-- What `encode_publish` appends.
unfoldable pub encode_publish : ℕ → Option ℕ → List ℕ → Option (List ℕ)
encode_publish qos packet_id payload = publish_bytes qos payload (id_bytes qos packet_id)

unfoldable pub encode_subscribe : ℕ → ℕ → List ℕ
encode_subscribe packet_id qos =
    let body_len = 2 + 2 + length topic + 1 in
    0x82 ∷ write_varint body_len
    ++ (to_be_bytes packet_id ++ (to_be_bytes (length topic) ++ (topic ++ (qos ∷ []))))

unfoldable pub encode_puback : ℕ → List ℕ
encode_puback id = 0x40 ∷ 0x02 ∷ (id / 2 ^ 8 % 256) ∷ bit_and id 0xff ∷ []

abbrev pub disconnect : List ℕ
disconnect = 0xe0 ∷ 0x00 ∷ []

abbrev append_message : Option (List ℕ) → Option (List ℕ) → Option (List ℕ)
append_message (some message) (some rest) = some (message ++ rest)
append_message message rest = none

-- The bytes that `latency_encode_batch` writes.
unfoldable pub write_buf : ℕ → List (Option ℕ × Stamp) → Option (List ℕ)
write_buf qos [] = some []
write_buf qos ((id, stamp) ∷ messages) =
    append_message (encode_publish qos id (encode stamp)) (write_buf qos messages)
