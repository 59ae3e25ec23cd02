-- ===== src/Session/Serve.antt =====
-- `serve_session`: the handshake under one time budget, and then the packet loop. `into_packets` only
-- changes the codec, and log lines are left out.
pub mod Opens
pub mod Connacks
pub mod Handshake
use uring_mqtt.Common.{
  ℕ, ◌-◌, min, Bool, true, false, Option, none, some, List, [], ◌∷◌, if◌then◌else◌,
}
use uring_mqtt.Common.Result.{Result, ok, err}
use uring_mqtt.Error.{
  Error, io, timeout, client_closed, protocol, IoError, DecodeError, decode_source,
}
use uring_mqtt.Codec.Protocol.{ProtocolVersion, mqtt3, mqtt5}
use uring_mqtt.Codec.Bound.{MaxInboundPacketSize}
use uring_mqtt.Packet.Types.{MqttPacket, ConnectAckReasonV3, ConnectAckReasonV5}
use uring_mqtt.Packet.Size.{Encoder}
use uring_mqtt.Handshake.{
  Accepted, ConnectDecision, accept, refuse, refuse_persistent_session, not_connect,
  honest_v5_connack, v3_connack, v5_connack, evaluate_connect, max_timeout_secs, from_secs,
}
use uring_mqtt.Session.Io.{
  Timed, in_time, timed_out, Query, now, next_version, next_packet, send_and_flush, Answer, Program,
  give, ask, bind,
}
use uring_mqtt.Session.Replies.{SessionOutcome, refused}
use uring_mqtt.Session.PacketLoop.{first_state, run_packet_loop}

-- `none` where the packet loop is still running after its turns.
abbrev pub Served : Type 0
Served = Option (Result Error SessionOutcome)

abbrev failed : Error → Program Served
failed e = give (some (err e))

sent : Timed (Result IoError (Unit {0})) → Result Error (Unit {0})
sent (in_time (ok done)) = ok tt
sent (in_time (err e)) = err (io e)
sent timed_out = err timeout

unfoldable pub bounded_send : MqttPacket → ℕ → Program (Result Error (Unit {0}))
unfolding sent
bounded_send packet deadline = ask (send_and_flush deadline packet) (λ answer. give (sent answer))

-- The `?` behind `bounded_send`, and what follows it.
and_then : Program Served → Result Error (Unit {0}) → Program Served
and_then rest (ok done) = rest
and_then rest (err e) = failed e

abbrev pub no_connect_text : List ℕ
no_connect_text =
    b'f' ∷ b'i' ∷ b'r' ∷ b's' ∷ b't' ∷ b' ' ∷ b'p' ∷ b'a' ∷ b'c' ∷ b'k' ∷ b'e' ∷ b't' ∷ b' ' ∷ b'w'
    ∷ b'a' ∷ b's' ∷ b' ' ∷ b'n' ∷ b'o' ∷ b't' ∷ b' ' ∷ b'C' ∷ b'O' ∷ b'N' ∷ b'N' ∷ b'E' ∷ b'C'
    ∷ b'T' ∷ []

module _ (encode : Encoder) (turns : ℕ) (peer : List ℕ) (connection_timeout_secs : ℕ)
    (idle_timeout_secs : ℕ) (bound : MaxInboundPacketSize) (ingest_deadline : ℕ) where
  -- `budget.saturating_sub(handshake_start.elapsed())`
  abbrev remaining : ℕ → ℕ → ℕ
  remaining start time = from_secs (min connection_timeout_secs max_timeout_secs) - (time - start)

  send_connack : ℕ → MqttPacket → Program Served → Program Served
  unfolding bounded_send and_then
  send_connack start connack rest =
      ask now (λ time. bind (bounded_send connack (remaining start time)) (and_then rest))

  refuse_with : ℕ → MqttPacket → Program Served
  unfolding send_connack
  refuse_with start connack = send_connack start connack (give (some (ok refused)))

  on_decision : ℕ → ProtocolVersion → ℕ → ConnectDecision → Program Served
  unfolding refuse_with send_connack run_packet_loop
  on_decision start version received not_connect = failed (protocol no_connect_text)
  on_decision start version received (refuse connack sendable) =
      if sendable then refuse_with start connack else give (some (ok refused))
  on_decision start version received refuse_persistent_session = give (some (ok refused))
  on_decision start version received (accept a) = send_connack start a.connack (
      run_packet_loop encode version a.idle_timeout a.max_packet_size ingest_deadline turns
        (first_state received))

  -- The CONNACK that refuses a client id, for each version.
  id_refusal : ProtocolVersion → MqttPacket
  unfolding honest_v5_connack
  id_refusal mqtt3 = v3_connack ConnectAckReasonV3.identifier_rejected
  id_refusal mqtt5 =
      v5_connack (honest_v5_connack ConnectAckReasonV5.client_identifier_not_valid bound)

  on_connect_error : ℕ → ProtocolVersion → IoError → Option DecodeError → Program Served
  unfolding refuse_with id_refusal
  on_connect_error start version e (some DecodeError.invalid_client_id) =
      refuse_with start (id_refusal version)
  on_connect_error start version e other = failed (io e)

  on_connect : ℕ → ProtocolVersion → Timed (Option (Result IoError MqttPacket)) → Program Served
  unfolding on_decision on_connect_error
  on_connect start version (in_time (some (ok packet))) = ask now (λ received.
      on_decision start version received
        (evaluate_connect encode packet idle_timeout_secs peer bound))
  on_connect start version (in_time (some (err e))) =
      on_connect_error start version e (decode_source e)
  on_connect start version (in_time none) = failed client_closed
  on_connect start version timed_out = failed timeout

  on_version_error : ℕ → IoError → Option DecodeError → Program Served
  unfolding refuse_with
  on_version_error start e (some DecodeError.unsupported_protocol_level) =
      refuse_with start (v3_connack ConnectAckReasonV3.unacceptable_protocol_version)
  on_version_error start e other = failed (io e)

  on_version : ℕ → Timed (Option (Result IoError ProtocolVersion)) → Program Served
  unfolding on_connect on_version_error
  on_version start (in_time (some (ok version))) =
      ask now (λ time. ask (next_packet (remaining start time)) (on_connect start version))
  on_version start (in_time (some (err e))) = on_version_error start e (decode_source e)
  on_version start (in_time none) = failed client_closed
  on_version start timed_out = failed timeout

  unfoldable pub serve_session : Program Served
  unfolding on_version
  serve_session =
      ask now
        (λ start. ask now (λ time. ask (next_version (remaining start time)) (on_version start)))
