-- ===== src/Packet/Size/Gate.antt =====
-- Nothing that the gates let through is larger than the client's limit.
use uring_mqtt.Common.{
  ℕ, ◌≤◌, true, Option, none, some, List, length, ◌≡◌, ◌↔◌, ◌⊎◌, inl, inr, refl, arith,
  Option-cases, Bool-cases,
}
use uring_mqtt.Codec.Protocol.{ProtocolVersion, mqtt3, mqtt5}
use uring_mqtt.Packet.Types.{MqttPacket, PacketV5, v5, DisconnectReasonCode}
use uring_mqtt.Packet.Reply.{Reply, render}
use uring_mqtt.Packet.Violation.{Violation, reply_over_max_packet_size, disconnect_reason_code}
use uring_mqtt.Packet.Size.{
  Encoder, encoded_len, fits_within, fits_max_packet_size, over_max_packet_size, disconnect,
}

-- A packet may be sent to a client with this limit: there is none, or the packet is encoded to at
-- most that many bytes.
abbrev pub MaySend : Encoder → MqttPacket → ProtocolVersion → Option ℕ → Type 0
MaySend encode packet version none = Unit {0}
MaySend encode packet version (some limit) =
    (buf : List ℕ) × (encode version packet ≡ some buf) × (length buf ≤ limit)

-- On MQTT 5 every violation has a code.
has_code : (v : Violation) → (c : DisconnectReasonCode) × (disconnect_reason_code v mqtt5 ≡ some c)
unfolding disconnect_reason_code
has_code Violation.malformed_packet = (DisconnectReasonCode.malformed_packet, refl)
has_code Violation.reply_over_max_packet_size = (DisconnectReasonCode.packet_too_large, refl)
has_code Violation.inbound_over_max_packet_size = (DisconnectReasonCode.packet_too_large, refl)
has_code Violation.publish_qos_above_maximum = (DisconnectReasonCode.qos_not_supported, refl)
has_code Violation.topic_alias_invalid = (DisconnectReasonCode.topic_alias_invalid, refl)
has_code v = (DisconnectReasonCode.protocol_error, refl)

module _ (encode : Encoder) where
  pub fits_max_packet_size_iff :
      (packet : MqttPacket) (version : ProtocolVersion) (limit : Option ℕ)
      → (fits_max_packet_size encode packet version limit ≡ true)
        ↔ MaySend encode packet version limit
  unfolding fits_max_packet_size
  fits_max_packet_size_iff packet version none = ground arith
  fits_max_packet_size_iff packet version (some limit) =
      elim (Option-cases (encode version packet)) [
        | inl fails ↦ rw (fails, encoded_len, fits_within) ((λ e. cc), λ m. cc)
        | inr (buf, e) ↦
            rw (e, encoded_len, fits_within)
              ((λ h. (buf, refl, ground arith)), λ (x, q, le). ground arith)
      ]

  -- A reply is let through when it may be sent: there is no limit, or the packet that it is
  -- rendered to is encoded within it. Otherwise the answer is the violation for a reply over the
  -- limit.
  pub over_max_packet_size_cases :
      (reply : Reply) (version : ProtocolVersion) (limit : Option ℕ)
      → (MaySend encode (render reply version) version limit
          × (over_max_packet_size encode reply version limit ≡ none))
        ⊎ ((¬ MaySend encode (render reply version) version limit)
            × (over_max_packet_size encode reply version limit ≡ some reply_over_max_packet_size))
  unfolding over_max_packet_size fits_max_packet_size
  over_max_packet_size_cases reply version limit =
      let fits = fits_max_packet_size_iff (render reply version) version limit in
      elim (Bool-cases (fits_max_packet_size encode (render reply version) version limit)) [
        | inl yes_fits ↦ inl (fits.0 yes_fits, rw (yes_fits, over_max_packet_size))
        | inr too_large ↦ inr (λ m. cc (fits.1 m), rw (too_large, over_max_packet_size))
      ]

  -- On MQTT 3.1.1 a violation has no DISCONNECT. On MQTT 5 every violation has a reason code, and
  -- the DISCONNECT with it is given when it may be sent within the client's limit, and none
  -- otherwise.
  pub disconnect_cases :
      (v : Violation) (limit : Option ℕ)
      → (disconnect encode v mqtt3 limit ≡ none)
        × ((c : DisconnectReasonCode) × (disconnect_reason_code v mqtt5 ≡ some c)
            × ((MaySend encode (v5 (PacketV5.disconnect c)) mqtt5 limit
                  × (disconnect encode v mqtt5 limit ≡ some (v5 (PacketV5.disconnect c))))
                ⊎ ((¬ MaySend encode (v5 (PacketV5.disconnect c)) mqtt5 limit)
                    × (disconnect encode v mqtt5 limit ≡ none))))
  unfolding disconnect fits_max_packet_size
  disconnect_cases v limit =
      let (c, e) = has_code v in
      let fits = fits_max_packet_size_iff (v5 (PacketV5.disconnect c)) mqtt5 limit in
      (
        unfold disconnect_reason_code in refl,
        (
          c,
          e,
          elim (Bool-cases (fits_max_packet_size encode (v5 (PacketV5.disconnect c)) mqtt5 limit)) [
            | inl yes_fits ↦ inl (fits.0 yes_fits, rw (e, yes_fits, disconnect))
            | inr too_large ↦ inr (λ m. cc (fits.1 m), rw (e, too_large, disconnect))
          ],
        ),
      )
