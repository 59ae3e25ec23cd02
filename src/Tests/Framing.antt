-- ===== src/Tests/Framing.antt =====
-- The framing at concrete buffers, and behind a small inner codec that keeps its laws.
use uring_mqtt.Common.{
  ℕ, ◌+◌, ◌≤◌, ◌<◌, Bool, true, false, Option, none, some, List, [], ◌∷◌, ◌++◌, length, ◌≡◌, ◌≢◌,
  ◌↔◌, ◌⊎◌, refl, arith,
}
use uring_mqtt.Common.Result.{Result, ok, err}
use uring_mqtt.Error.{DecodeError, rejection, max_size_exceeded, malformed_packet}
use uring_mqtt.Codec.Decoded.{insufficient}
use uring_mqtt.Codec.Header.{
  fixed_header, header_loop, packet_len, holds_complete_packet, rejects_malformed_fixed_header,
}
use uring_mqtt.Codec.Header.Width.{varint_len-width}
use uring_mqtt.Codec.Header.Varint.{value, varint}
use uring_mqtt.Codec.Header.Scan.{StartsWithHeader, fixed_header-StartsWithHeader}
use uring_mqtt.Codec.Header.Minimal.{rejects_malformed_fixed_header_iff}
use uring_mqtt.Codec.Header.Complete.{holds_complete_packet-standard}
use uring_mqtt.Codec.Bound.{
  MaxInboundPacketSize, new, limit_loop, remaining_length_limit, rejects_fixed_header,
}
use uring_mqtt.Codec.Bound.Limit.{
  IsLargest, remaining_length_limit-IsLargest, rejects_fixed_header-limit,
}
use uring_mqtt.Codec.Decoder.{InnerCodec, MqttDecoder, decode, decode_eof, settle}
use uring_mqtt.Codec.Decoder.Frames.{
  KeepsHeader, InStep, decode-InStep, EndsAs, decode_eof-EndsAs, decode-frame,
}
use uring_mqtt.Codec.Version.{names_a_known_protocol, protocol_name_mqtt, protocol_name_mqisdp}
use uring_mqtt.Codec.Version.Names.{names_a_known_protocol_iff}

abbrev body : List ℕ
body = 9 ∷ []

abbrev pingreq : ℕ
pingreq = 0xc0

abbrev padded : List ℕ
padded = 0x81 ∷ 0x00 ∷ []

fixed_header-StartsWithHeader_example : StartsWithHeader (0x30 ∷ 0x82 ∷ 0x01 ∷ 9 ∷ []) 3 130
fixed_header-StartsWithHeader_example =
    fixed_header-StartsWithHeader (0x30 ∷ 0x82 ∷ 0x01 ∷ 9 ∷ []) 3 130
      (ground arith, (ground arith, (ground arith, (ground arith, tt))))
      (unfold fixed_header header_loop in refl)

holds_complete_packet-standard_example :
    (holds_complete_packet (0x30 ∷ varint 2 ++ body) ≡ true) ↔ (2 ≤ length body)
holds_complete_packet-standard_example = holds_complete_packet-standard 0x30 2 body (ground arith)

rejects_malformed_fixed_header_iff_example :
    (rejects_malformed_fixed_header (pingreq ∷ padded ++ []) ≡ true)
    ↔ (((pingreq ≡ 0xc0) × (value padded ≢ 0)) ⊎ (varint (value padded) ≢ padded))
rejects_malformed_fixed_header_iff_example =
    rejects_malformed_fixed_header_iff pingreq padded [] (ground arith, ground arith, ground arith)
      (ground arith)

abbrev bound : MaxInboundPacketSize
bound = record { bytes = 200 }

remaining_length_limit-IsLargest_example :
    (r : ℕ) × (remaining_length_limit bound ≡ some r) × (1 ≤ r) × IsLargest 200 r
remaining_length_limit-IsLargest_example =
    remaining_length_limit-IsLargest 200 bound (unfold new in refl)

limit_197 : remaining_length_limit bound ≡ some 197
unfolding remaining_length_limit limit_loop
limit_197 =
    rw
      (
        varint_len-width 198 (ground arith),
        varint_len-width 197 (ground arith),
        limit_loop,
        remaining_length_limit,
      )
      refl

rejects_fixed_header-limit_example :
    (rejects_fixed_header bound (0x30 ∷ varint 198 ++ []) ≡ true) ↔ (197 < 198)
rejects_fixed_header-limit_example =
    rejects_fixed_header-limit 200 bound 0x30 198 197 [] (unfold new in refl) limit_197
      (ground arith)

names_a_known_protocol_iff_example :
    (names_a_known_protocol
        (0x10 ∷ varint 10 ++ (0 ∷ 4 ∷ (protocol_name_mqtt ++ (9 ∷ 2 ∷ 0 ∷ 60 ∷ []))))
      ≡ true)
    ↔ ((2 + 4 < 10)
        × ((protocol_name_mqtt ≡ protocol_name_mqtt) ⊎ (protocol_name_mqtt ≡ protocol_name_mqisdp)))
names_a_known_protocol_iff_example =
    names_a_known_protocol_iff 0x10 10 0 4 protocol_name_mqtt (9 ∷ 2 ∷ 0 ∷ 60 ∷ [])
      (λ e. ground arith) (ground arith) refl

-- A codec of packets of two bytes: the first is the header, the second the body.
abbrev pair_step : Bool → List ℕ → Result DecodeError (Option ℕ) × Bool × List ℕ
pair_step holds [] = (ok none, holds, [])
pair_step false (b ∷ src) = (ok none, true, src)
pair_step true (b ∷ src) = (ok (some b), false, src)

abbrev pairs : InnerCodec
pairs = record { Codec = Bool; Packet = ℕ; with_limit = λ v limit. false; step = pair_step }

abbrev holding : Bool → Bool
holding holds = holds

pairs_whole :
    (c c' : Bool) (src src' : List ℕ) (p : ℕ)
    → pair_step c src ≡ (ok (some p), c', src')
    → holding c' ≡ false
pairs_whole c c' [] src' p e = ground arith
pairs_whole false c' (b ∷ src) src' p e = ground arith
pairs_whole true c' (b ∷ src) src' p e = ground arith

pairs_taken :
    (c c' : Bool) (src src' : List ℕ)
    → pair_step c src ≡ (ok none, c', src')
    → length src' < length src
    → holding c' ≡ true
pairs_taken c c' [] src' e lt = absurd (omega arith)
pairs_taken false c' (b ∷ src) src' e lt = ground arith
pairs_taken true c' (b ∷ src) src' e lt = ground arith

pairs_kept :
    (c c' : Bool) (src src' : List ℕ)
    → pair_step c src ≡ (ok none, c', src')
    → length src ≤ length src'
    → holding c' ≡ holding c
pairs_kept c c' [] src' e le = ground arith
pairs_kept false c' (b ∷ src) src' e le = ground arith
pairs_kept true c' (b ∷ src) src' e le = ground arith

pairs-KeepsHeader : KeepsHeader pairs holding
pairs-KeepsHeader = record {
  fresh = λ v limit. refl;
  whole = pairs_whole;
  header_taken = pairs_taken;
  nothing_taken = pairs_kept;
}

abbrev at_start : MqttDecoder pairs
at_start = record { inner = false; max_inbound_packet_size = bound; at_frame_start = true }

abbrev in_frame : MqttDecoder pairs
in_frame = record { inner = true; max_inbound_packet_size = bound; at_frame_start = false }

-- The header of a packet with one byte of body, which has not arrived.
abbrev half : List ℕ
half = 0x30 ∷ []

half_read : decode pairs at_start half ≡ (ok insufficient, in_frame, [])
unfolding decode settle rejects_fixed_header packet_len fixed_header header_loop
    rejects_malformed_fixed_header
half_read = refl

decode-InStep_example : InStep pairs holding pairs-KeepsHeader in_frame
decode-InStep_example =
    decode-InStep pairs holding pairs-KeepsHeader at_start in_frame half [] insufficient refl
      half_read

decode_eof-EndsAs_example :
    EndsAs pairs holding pairs-KeepsHeader (decode_eof pairs at_start half) in_frame []
decode_eof-EndsAs_example =
    decode_eof-EndsAs pairs holding pairs-KeepsHeader at_start in_frame half [] refl half_read

abbrev ping : List ℕ
ping = 0x00 ∷ []

decode-frame_example :
    ((200 < 1 + length ping + value ping)
      × (decode pairs at_start (pingreq ∷ ping ++ body)
          ≡ (err (rejection max_size_exceeded), at_start, (pingreq ∷ ping ++ body))))
    ⊎ ((1 + length ping + value ping ≤ 200)
        × (((pingreq ≡ 0xc0) × (value ping ≢ 0)) ⊎ (varint (value ping) ≢ ping))
        × (decode pairs at_start (pingreq ∷ ping ++ body)
            ≡ (err (rejection malformed_packet), at_start, (pingreq ∷ ping ++ body))))
    ⊎ ((1 + length ping + value ping ≤ 200)
        × ((pingreq ≢ 0xc0) ⊎ (value ping ≡ 0))
        × (varint (value ping) ≡ ping)
        × (decode pairs at_start (pingreq ∷ ping ++ body)
            ≡ settle pairs at_start
                (length (pingreq ∷ ping ++ body))
                (pair_step false (pingreq ∷ ping ++ body))))
decode-frame_example =
    decode-frame pairs at_start refl pingreq ping body (ground arith) (ground arith)
