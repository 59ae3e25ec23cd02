-- ===== src/Codec/Decoder/Frames.antt =====
-- What the decoder lets through at the start of a frame, and what it reports at the end of a stream.
use uring_mqtt.Common.{
  ℕ, ◌+◌, ◌≤◌, ◌<◌, ◌≡◌, ◌≢◌, ◌⊎◌, inl, inr, refl, Bool, true, false, not, ◌&&◌, ◌++◌, Option, List,
  [], ◌∷◌, arith, length, Bool-cases, Option-cases,
}
use uring_mqtt.Common.Result.{Result, ok, err}
use uring_mqtt.Error.{
  DecodeError, IoError, rejection, max_size_exceeded, malformed_packet, unexpected_eof,
  truncated_packet,
}
use uring_mqtt.Codec.Protocol.{ProtocolVersion}
use uring_mqtt.Codec.Decoded.{Decoded, insufficient}
use uring_mqtt.Codec.Header.{rejects_malformed_fixed_header}
use uring_mqtt.Codec.Header.Varint.{value, varint, IsVarint}
use uring_mqtt.Codec.Header.Minimal.{rejects_malformed_fixed_header_iff, accepted_header}
use uring_mqtt.Codec.Bound.Limit.{rejects_fixed_header-varint}
use uring_mqtt.Codec.Bound.{MaxInboundPacketSize, rejects_fixed_header, remaining_length_limit}
use uring_mqtt.Codec.Decoder.{
  InnerCodec, MqttDecoder, new, Outcome, settle, decode, at_end, decode_eof,
}

abbrev truncation : IoError
truncation = record { kind = unexpected_eof; source = truncated_packet }

module _ (rmqtt : InnerCodec) where
  open rmqtt use {Codec, Packet, with_limit, step}

  -- What the framing relies on of the inner codec: it takes the fixed header off the buffer before
  -- the body, keeps it until the packet is whole, and takes nothing off otherwise.
  pub record KeepsHeader (holding : Codec → Bool) : Type 0 where
    pub fresh : (v : ProtocolVersion) (limit : ℕ) → holding (with_limit v limit) ≡ false
    pub whole :
        (c c' : Codec) (src src' : List ℕ) (p : Packet)
        → step c src ≡ (ok (Option.some p), c', src')
        → holding c' ≡ false
    pub header_taken :
        (c c' : Codec) (src src' : List ℕ)
        → step c src ≡ (ok Option.none, c', src')
        → length src' < length src
        → holding c' ≡ true
    pub nothing_taken :
        (c c' : Codec) (src src' : List ℕ)
        → step c src ≡ (ok Option.none, c', src')
        → length src ≤ length src'
        → holding c' ≡ holding c

  -- A call that succeeds has passed both checks, and the inner codec has answered it.
  decode-passes :
      (d d' : MqttDecoder rmqtt) (src src' : List ℕ) (item : Decoded Packet)
      → decode rmqtt d src ≡ (ok item, d', src')
      → ((d.at_frame_start && rejects_fixed_header d.max_inbound_packet_size src ≡ false)
          × (d.at_frame_start && rejects_malformed_fixed_header src ≡ false))
        × (settle rmqtt d (length src) (step d.inner src) ≡ (ok item, d', src'))
  unfolding decode
  decode-passes d d' src src' item e =
      elim (Bool-cases (d.at_frame_start && rejects_fixed_header d.max_inbound_packet_size src)) [
        | inl over ↦ cc (rw (over, decode) at e)
        | inr fits ↦ elim (Bool-cases (d.at_frame_start && rejects_malformed_fixed_header src)) [
          | inl bad ↦ cc (rw (fits, bad, decode) at e)
          | inr good ↦ ((fits, good), rw (fits, good, decode) at e)
        ]
      ]

  module _ (holding : Codec → Bool) (laws : KeepsHeader holding) where
    -- The flag of the decoder agrees with the state of the inner codec.
    abbrev pub InStep : MqttDecoder rmqtt → Type 0
    InStep d = d.at_frame_start ≡ not (holding d.inner)

    pub new-InStep :
        (v : ProtocolVersion) (bound : MaxInboundPacketSize) (d : MqttDecoder rmqtt)
        → new rmqtt v bound ≡ Option.some d
        → InStep d
    unfolding new
    new-InStep v bound d e = elim (Option-cases (remaining_length_limit bound)) [
      | inl nothing ↦ cc (rw (nothing, new) at e)
      | inr (limit, found) ↦ ground (arith, laws.fresh v limit)
    ]

    settle-InStep :
        (d d' : MqttDecoder rmqtt) (src src' : List ℕ) (item : Decoded Packet)
        (r : Result DecodeError (Option Packet)) (c : Codec) (left : List ℕ)
        → InStep d
        → step d.inner src ≡ (r, c, left)
        → settle rmqtt d (length src) (r, c, left) ≡ (ok item, d', src')
        → InStep d'
    unfolding settle
    settle-InStep d d' src src' item (ok (Option.some p)) c left h es e =
        ground (arith, laws.whole d.inner c src left p)
    settle-InStep d d' src src' item (ok Option.none) c left h es e =
        ground (arith, laws.header_taken d.inner c src left, laws.nothing_taken d.inner c src left)
    settle-InStep d d' src src' item (err x) c left h es e = cc

    at_end-clean :
        (r : Result IoError (Decoded Packet)) (d : MqttDecoder rmqtt) (src : List ℕ)
        (d' : MqttDecoder rmqtt) (src' : List ℕ)
        → (r ≡ ok insufficient → InStep d)
        → at_end rmqtt (r, d, src) ≡ (ok insufficient, d', src')
        → (src' ≡ []) × (holding d'.inner ≡ false)
    unfolding at_end
    at_end-clean (ok (Decoded.some item)) d src d' src' h e = cc
    at_end-clean (ok insufficient) d [] d' src' h e = ground (arith, h refl)
    at_end-clean (ok insufficient) d (b ∷ src) d' src' h e = cc
    at_end-clean (err x) d src d' src' h e = cc

    -- For an inner codec that keeps its documented laws, when the flag of the decoder says that a
    -- frame starts exactly when the inner codec holds no header, the same is so after every call
    -- of `decode` that does not fail.
    pub decode-InStep :
        (d d' : MqttDecoder rmqtt) (src src' : List ℕ) (item : Decoded Packet)
        → InStep d
        → decode rmqtt d src ≡ (ok item, d', src')
        → InStep d'
    unfolding decode
    decode-InStep d d' src src' item h e =
        let (passes, settled) = decode-passes d d' src src' item e in
        settle-InStep d d' src src' item (step d.inner src).0 (step d.inner src).1
          (step d.inner src).2 h refl settled

    -- A clean end of the stream is reported only with nothing buffered and no header held.
    pub decode_eof-clean :
        (d d' : MqttDecoder rmqtt) (src src' : List ℕ)
        → InStep d
        → decode_eof rmqtt d src ≡ (ok insufficient, d', src')
        → (src' ≡ []) × (holding d'.inner ≡ false)
    unfolding decode_eof
    decode_eof-clean d d' src src' h e =
        let (r, after, left) = decode rmqtt d src in
        at_end-clean r after left d' src'
          (λ q. decode-InStep d after src left insufficient h (λ i. (q i, after, left))) e

    -- How a stream that ends where `decode` wants more bytes is reported.
    abbrev pub EndsAs : Outcome rmqtt → MqttDecoder rmqtt → List ℕ → Type 0
    EndsAs end d left =
        ((left ≡ []) × (holding d.inner ≡ false) × (end ≡ (ok insufficient, d, left)))
        ⊎ (((left ≢ []) ⊎ (holding d.inner ≡ true)) × (end ≡ (err truncation, d, left)))

    at_end-EndsAs :
        (d : MqttDecoder rmqtt) (left : List ℕ)
        → InStep d
        → EndsAs (at_end rmqtt (ok insufficient, d, left)) d left
    unfolding at_end
    at_end-EndsAs d [] h = ground arith
    at_end-EndsAs d (b ∷ left) h = inr (inl (λ e. cc), refl)

    -- For an inner codec that keeps its documented laws, and a decoder whose flag agrees with it,
    -- a stream that ends where `decode` wants more bytes is reported as a clean end when nothing
    -- is buffered and no header is held, and otherwise as a truncated packet.
    pub decode_eof-EndsAs :
        (d d' : MqttDecoder rmqtt) (src left : List ℕ)
        → InStep d
        → decode rmqtt d src ≡ (ok insufficient, d', left)
        → EndsAs (decode_eof rmqtt d src) d' left
    unfolding decode_eof
    decode_eof-EndsAs d d' src left h e =
        rw (e, decode_eof) (at_end-EndsAs d' left (decode-InStep d d' src left insufficient h e))

  module _ (d : MqttDecoder rmqtt) (starts : d.at_frame_start ≡ true) (first : ℕ) (g rest : List ℕ)
      (v : IsVarint g) (short : length g ≤ 4) where
    -- The frame at the front of the buffer.
    abbrev frame : List ℕ
    frame = first ∷ g ++ rest

    -- At the start of a frame, with a complete header of at most four Remaining Length bytes in
    -- the buffer: a packet over the bound is refused as `MaxSizeExceeded`. Within the bound, a
    -- PINGREQ with a body and a Remaining Length that is not in the standard's encoding are
    -- refused as malformed. Neither changes the decoder or the buffer. Any other header goes to
    -- the inner codec, whose answer is settled.
    pub decode-frame :
        ((d.max_inbound_packet_size.bytes < 1 + length g + value g)
          × (decode rmqtt d frame ≡ (err (rejection max_size_exceeded), d, frame)))
        ⊎ ((1 + length g + value g ≤ d.max_inbound_packet_size.bytes)
            × (((first ≡ 0xc0) × (value g ≢ 0)) ⊎ (varint (value g) ≢ g))
            × (decode rmqtt d frame ≡ (err (rejection malformed_packet), d, frame)))
        ⊎ ((1 + length g + value g ≤ d.max_inbound_packet_size.bytes)
            × ((first ≢ 0xc0) ⊎ (value g ≡ 0))
            × (varint (value g) ≡ g)
            × (decode rmqtt d frame ≡ settle rmqtt d (length frame) (step d.inner frame)))
    unfolding decode
    decode-frame =
        let size = rejects_fixed_header-varint d.max_inbound_packet_size first g rest v short in
        let form = rejects_malformed_fixed_header_iff first g rest v short in
        let accepted = accepted_header first g rest v short in
        elim (Bool-cases (rejects_fixed_header d.max_inbound_packet_size frame)) [
          | inl over ↦ inl (ground (arith, size), rw (starts, over, decode) refl)
          | inr fits ↦ elim (Bool-cases (rejects_malformed_fixed_header frame)) [
            | inl bad ↦
                inr (inl (ground (arith, size), form.0 bad, rw (starts, fits, bad, decode) refl))
            | inr good ↦ inr (
                inr (
                  ground (arith, size),
                  ground (arith, accepted good),
                  (accepted good).1,
                  rw (starts, fits, good, decode) refl,
                ))
          ]
        ]
