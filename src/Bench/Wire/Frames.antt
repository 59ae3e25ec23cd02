-- ===== src/Bench/Wire/Frames.antt =====
-- bench/src/wire.rs: its packets, as the fixed header functions of src/codec/mqtt.rs see them.
use mathlib.Core.List.{append_assoc}
use mathlib.Core.WellFounded.{Acc}
use uring_mqtt.Common.{
  ℕ, zero, suc, ◌+◌, ◌/◌, ◌%◌, ◌^◌, ◌<◌, ◌≤◌, bit_and, bit_or, false, some, List, [], ◌∷◌, ◌++◌,
  ◌≡◌, ◌≢◌, inl, inr, ap, ◌∙◌, subst, arith, length, Bool-cases, length-append,
}
use uring_mqtt.Common.Order.{lt_wf}
use uring_mqtt.Common.Bits.{bit_and-seven_ones, bit_or-field}
use uring_mqtt.Codec.Header.{packet_len, varint_len, rejects_malformed_fixed_header}
use uring_mqtt.Codec.Header.Width.{varint_len-width}
use uring_mqtt.Codec.Header.Varint.{groups_of, varint, varint-IsVarint, value-varint, length-varint}
use uring_mqtt.Codec.Header.Minimal.{rejects_malformed_fixed_header_iff}
use uring_mqtt.Codec.Header.Complete.{packet_len-standard, varint-le_four}
use uring_mqtt.Bench.Wire.{
  write_loop, write_varint, protocol_name, to_be_bytes, encode_connect, encode_subscribe,
  encode_puback, disconnect,
}
use uring_mqtt.Bench.Payload.{topic}

write_loop-groups_of : (k v : ℕ) (w : Acc ◌<◌ v) → v < 128 ^ suc k → write_loop v w ≡ groups_of k v
unfolding write_loop groups_of
write_loop-groups_of zero v (Acc.intro _ smaller) h = ground (arith, bit_and-seven_ones v)
write_loop-groups_of (suc k) v (Acc.intro _ smaller) h =
    let low = bit_and-seven_ones v in
    let more : bit_or (bit_and v 0x7f) 0x80 ≡ bit_and v 0x7f + 128 =
      bit_or-field 7 (bit_and v 0x7f) 1 (omega arith) in
    grind (
      arith,
      low,
      more,
      λ (w : Acc ◌<◌ (v / 128)). write_loop-groups_of k (v / 128) w (omega arith),
    )

-- `write_varint` writes the standard's encoding.
pub write_varint-standard : (v : ℕ) → v ≤ 268435455 → write_varint v ≡ varint v
unfolding write_varint varint
write_varint-standard v h = write_loop-groups_of 3 v (lt_wf.apply v) (omega arith)

-- A packet is measured as it is and passes the check of its form, whatever follows it.
abbrev pub IsPacket : List ℕ → Type 0
IsPacket bytes =
    (more : List ℕ)
    → (packet_len (bytes ++ more) ≡ some (length bytes))
      × (rejects_malformed_fixed_header (bytes ++ more) ≡ false)

pub framed-IsPacket :
    (first : ℕ) (body : List ℕ)
    → first ≢ 0xc0
    → length body ≤ 268435455
    → IsPacket (first ∷ write_varint (length body) ++ body)
framed-IsPacket first body other h more =
    let n : ℕ = length body in
    let fits : n < 128 ^ 4 = omega arith in
    let whole : write_varint n ++ body ++ more ≡ varint n ++ (body ++ more) =
      append_assoc (write_varint n) body more
      ∙ ap (λ v. v ++ (body ++ more)) (write_varint-standard n h) in
    let width : length (varint n) ≡ varint_len n =
      rw (varint_len-width n (omega arith)) (length-varint n fits) in
    let (form, _) =
      rejects_malformed_fixed_header_iff first (varint n) (body ++ more) (varint-IsVarint n fits)
        (varint-le_four n h) in
    rw whole (
      packet_len-standard first n (body ++ more) h
          ∙ ap some (
              omega (
                arith,
                length-append (write_varint n) body,
                ap length (write_varint-standard n h),
                width,
              )),
      elim (Bool-cases (rejects_malformed_fixed_header (first ∷ varint n ++ (body ++ more)))) [
        | inl refused ↦ elim (form refused) [
          | inl (same, _) ↦ absurd (other same)
          | inr longer ↦ absurd (longer (ap varint (value-varint n fits)))
        ]
        | inr passed ↦ passed
      ],
    )

two_bytes : write_varint 2 ≡ 2 ∷ []
unfolding varint groups_of
two_bytes = write_varint-standard 2 (omega arith)

no_bytes : write_varint 0 ≡ 0 ∷ []
unfolding varint groups_of
no_bytes = write_varint-standard 0 (omega arith)

encode_connect-IsPacket :
    (client_id : List ℕ)
    → length client_id < 2 ^ 16
    → (bytes : List ℕ) × (encode_connect client_id ≡ some bytes) × IsPacket bytes
unfolding encode_connect
encode_connect-IsPacket client_id fits =
    let body : List ℕ =
      protocol_name
      ++ (0x04 ∷ 0x02 ∷ 0x00 ∷ 0x00 ∷ (to_be_bytes (length client_id) ++ client_id)) in
    let size : 12 + length client_id ≡ length body = omega arith in
    (
      0x10 ∷ write_varint (12 + length client_id) ++ body,
      ground arith,
      rw size (framed-IsPacket 0x10 body (λ e. absurd (omega arith)) (omega arith)),
    )

-- The CONNECT for a client id below 2^16 bytes, a SUBSCRIBE, a PUBACK and the DISCONNECT that the
-- benchmark's clients write are, whatever bytes follow, measured by the broker's codec as exactly
-- what was written, and pass its check of the fixed header.
pub client_packets-IsPacket :
    (client_id : List ℕ) (packet_id qos : ℕ)
    → length client_id < 2 ^ 16
    → ((bytes : List ℕ) × (encode_connect client_id ≡ some bytes) × IsPacket bytes)
      × IsPacket (encode_subscribe packet_id qos)
      × IsPacket (encode_puback packet_id)
      × IsPacket disconnect
unfolding encode_subscribe encode_puback
client_packets-IsPacket client_id packet_id qos fits = (
  encode_connect-IsPacket client_id fits,
  framed-IsPacket 0x82
      (to_be_bytes packet_id ++ (to_be_bytes (length topic) ++ (topic ++ (qos ∷ []))))
      (λ e. absurd (omega arith)) (omega arith),
  subst (λ v. IsPacket (0x40 ∷ v ++ ((packet_id / 2 ^ 8 % 256) ∷ bit_and packet_id 0xff ∷ [])))
      two_bytes
      (framed-IsPacket 0x40 ((packet_id / 2 ^ 8 % 256) ∷ bit_and packet_id 0xff ∷ [])
        (λ e. absurd (omega arith)) (omega arith)),
  subst (λ v. IsPacket (0xe0 ∷ v ++ [])) no_bytes
      (framed-IsPacket 0xe0 [] (λ e. absurd (omega arith)) (omega arith)),
)
