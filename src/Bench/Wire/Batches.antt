-- ===== src/Bench/Wire/Batches.antt =====
-- bench/src/wire.rs and gen.rs: the bytes of a batch, as a broker reads them.
use mathlib.Core.List.{append_assoc}
use uring_mqtt.Common.{
  ℕ, zero, suc, ◌+◌, ◌*◌, ◌%◌, ◌<◌, ◌≤◌, bit_or, not, ◌&&◌, Option, none, some, List, [], ◌∷◌, ◌++◌,
  ◌≡◌, ◌≢◌, inl, inr, refl, ap, ◌∙◌, arith, if◌then◌else◌, length, take, drop, All, ltb-cases,
  length-append, take-append, drop-append,
}
use uring_mqtt.Codec.Header.{
  fixed_header, varint_len, holds_complete_packet, rejects_malformed_fixed_header,
}
use uring_mqtt.Bench.Payload.{Stamp, topic, encode, decode}
use uring_mqtt.Bench.Payload.Stamps.{IsStamp, decode-encode}
use uring_mqtt.Bench.Recorder.Deliveries.{same_text}
use uring_mqtt.Bench.Wire.{to_be_bytes, id_bytes, encode_publish, write_buf, write_varint}
use uring_mqtt.Bench.Wire.Frames.{framed-IsPacket, write_varint-standard}
use uring_mqtt.Codec.Header.Varint.{varint, length-varint}
use uring_mqtt.Codec.Header.Complete.{fixed_header-standard, holds_complete_packet-standard}
use uring_mqtt.Codec.Header.Width.{varint_len-width}

abbrev pub Message : Type 0
Message = Option ℕ × Stamp

-- A message of the QoS: it has a packet id exactly when it is above 0.
abbrev pub IsMessage : ℕ → Message → Type 0
IsMessage zero (none, s) = IsStamp s
IsMessage zero (some id, s) = ⊥
IsMessage (suc qos) (none, s) = ⊥
IsMessage (suc qos) (some id, s) = (id < 65536) × IsStamp s

with_id : Option ℕ → Option Stamp → Option Message
with_id id none = none
with_id id (some s) = some (id, s)

-- The message behind the topic of a PUBLISH.
read_message : ℕ → List ℕ → Option Message
read_message zero rest = with_id none (decode rest)
read_message (suc qos) [] = none
read_message (suc qos) (high ∷ []) = none
read_message (suc qos) (high ∷ low ∷ rest) = with_id (some (high * 256 + low)) (decode rest)

-- The message of a PUBLISH on the benchmark's topic, behind its fixed header.
read_body : ℕ → List ℕ → Option Message
unfolding read_message
read_body qos body =
    if same_text (take 12 body) (to_be_bytes 10 ++ topic)
    then read_message qos (drop 12 body)
    else none

-- A packet that the checks of the broker let through, and the bytes behind it.
next_packet : List ℕ → Option (ℕ × ℕ) → Option (List ℕ × List ℕ)
next_packet src none = none
next_packet src (some (header_len, remaining_length)) =
    if holds_complete_packet src && not (rejects_malformed_fixed_header src)
    then some
        (take remaining_length (drop header_len src), drop remaining_length (drop header_len src))
    else none

and_more : Option Message → Option (List Message) → Option (List Message)
and_more (some m) (some ms) = some (m ∷ ms)
and_more m ms = none

-- The packets of a stream of bytes, as many as are given, and then its end.
pub read_batch : ℕ → ℕ → List ℕ → Option (List Message)
unfolding read_body and_more
read_batch qos zero [] = some []
read_batch qos zero (b ∷ src) = none
read_batch qos (suc n) src = elim (next_packet src (fixed_header src)) [
  | none ↦ none
  | some (body, rest) ↦ and_more (read_body qos body) (read_batch qos n rest)
]

-- What stands behind the fixed header.
body_of : Option ℕ → Stamp → List ℕ
body_of none s = to_be_bytes 10 ++ (topic ++ ([] ++ encode s))
body_of (some id) s = to_be_bytes 10 ++ (topic ++ (to_be_bytes id ++ encode s))

read_body-body_of :
    (qos : ℕ) (m : Message) → IsMessage qos m → read_body qos (body_of m.0 m.1) ≡ some m
unfolding read_body body_of read_message with_id
read_body-body_of zero (none, s) h = rw (decode-encode s h) refl
read_body-body_of zero (some id, s) h = absurd h
read_body-body_of (suc qos) (none, s) h = absurd h
read_body-body_of (suc qos) (some id, s) (small, h) =
    rw (decode-encode s h) (ap (λ i. some (some i, s)) (omega arith))

next_packet-frame :
    (first : ℕ) (body more : List ℕ)
    → first ≢ 0xc0
    → length body ≤ 268435455
    → let src = (first ∷ write_varint (length body) ++ body) ++ more in
      next_packet src (fixed_header src) ≡ some (body, more)
unfolding next_packet
next_packet-frame first body more other h =
    let n : ℕ = length body in
    let whole : (first ∷ write_varint n ++ body) ++ more ≡ first ∷ varint n ++ (body ++ more) =
      ap (λ l. first ∷ l)
        (append_assoc (write_varint n) body more
          ∙ ap (λ v. v ++ (body ++ more)) (write_varint-standard n h)) in
    let (measured, passed) = framed-IsPacket first body other h more in
    let header : 1 + varint_len n ≡ suc (length (varint n)) =
      ground (arith, varint_len-width n (omega arith), length-varint n (omega arith)) in
    let here =
      (holds_complete_packet-standard first n (body ++ more) h).1
        (omega (arith, length-append body more)) in
    let form = rw whole at passed in
    rw
      (
        whole,
        fixed_header-standard first n (body ++ more) h,
        here,
        form,
        header,
        drop-append (varint n) (body ++ more),
        take-append body more,
        drop-append body more,
      )
      refl

publish-frame :
    (qos : ℕ) (m : Message)
    → IsMessage qos m
    → encode_publish qos m.0 (encode m.1)
      ≡ some
          (bit_or 0x30 (qos * 2 % 256) ∷ write_varint (length (body_of m.0 m.1)) ++ body_of m.0 m.1)
unfolding encode_publish id_bytes body_of encode
publish-frame zero (none, s) h = refl
publish-frame zero (some id, s) h = absurd h
publish-frame (suc qos) (none, s) h = absurd h
publish-frame (suc qos) (some id, s) h = elim (ltb-cases 0 (suc qos)) [
  | inl (above, _) ↦ rw above refl
  | inr (_, none_above) ↦ absurd (omega arith)
]

-- The first byte of a PUBLISH is not that of a PINGREQ.
publish_first : (qos : ℕ) → qos ≤ 2 → bit_or 0x30 (qos * 2 % 256) ≢ 0xc0
publish_first zero h = λ e. absurd (omega arith)
publish_first (suc zero) h = λ e. absurd (omega arith)
publish_first (suc (suc zero)) h = λ e. absurd (omega arith)
publish_first (suc (suc (suc qos))) h = absurd (omega arith)

length-body_of : (id : Option ℕ) (s : Stamp) → length (body_of id s) ≤ 268435455
unfolding body_of encode
length-body_of none s = omega arith
length-body_of (some id) s = omega arith

-- For a batch of messages whose stamps and packet ids fit their fields, and which have a packet
-- id exactly at QoS above 0, the bytes of the batch are written with no panic, at a QoS of at
-- most 2. A reader that measures and checks each packet by the functions of the broker's codec,
-- and takes topic, packet id and stamp apart, reads from them exactly the messages of the batch,
-- in their order, with nothing left.
pub read_batch-write_buf :
    (qos : ℕ) (messages : List Message)
    → qos ≤ 2
    → All (IsMessage qos) messages
    → (buf : List ℕ) × (write_buf qos messages ≡ some buf)
      × (read_batch qos (length messages) buf ≡ some messages)
unfolding write_buf read_batch and_more
read_batch-write_buf qos [] h valid = ([], refl, refl)
read_batch-write_buf qos ((id, s) ∷ messages) h (v, valid) =
    let (rest, wrote, read) = read_batch-write_buf qos messages h valid in
    let body : List ℕ = body_of id s in
    let frame : List ℕ = bit_or 0x30 (qos * 2 % 256) ∷ write_varint (length body) ++ body in
    let cut_off =
      next_packet-frame (bit_or 0x30 (qos * 2 % 256)) body rest (publish_first qos h)
        (length-body_of id s) in
    (
      frame ++ rest,
      rw (publish-frame qos (id, s) v, wrote) refl,
      rw (read_batch, cut_off, read_body-body_of qos (id, s) v, read) refl,
    )
