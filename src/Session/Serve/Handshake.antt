-- ===== src/Session/Serve/Handshake.antt =====
-- `serve_session`, followed query by query.
use uring_mqtt.Common.{ℕ, true, false, Option, none, some, List, [], ◌∷◌, ◌≡◌, inl, inr, refl}
use uring_mqtt.Common.Result.{Result, ok, err}
use uring_mqtt.Error.{io, timeout, IoError, DecodeError, decode_source}
use uring_mqtt.Codec.Protocol.{ProtocolVersion, mqtt3, mqtt5}
use uring_mqtt.Codec.Bound.{MaxInboundPacketSize}
use uring_mqtt.Packet.Types.{MqttPacket, ConnectAckReasonV3}
use uring_mqtt.Packet.Size.{Encoder}
use uring_mqtt.Handshake.{
  Accepted, ConnectDecision, accept, refuse, refuse_persistent_session, not_connect, v3_connack,
  evaluate_connect,
}
use uring_mqtt.Session.Io.{
  Timed, in_time, timed_out, Query, now, next_version, next_packet, send_and_flush, Program, give,
  bind,
}
use uring_mqtt.Session.Always.{Log, Event, event, Always, Always-keep}
use uring_mqtt.Session.Allowed.{Allowed}
use uring_mqtt.Session.Replies.{served, violated, refused}
use uring_mqtt.Session.PacketLoop.{first_state, run_packet_loop}
use uring_mqtt.Session.PacketLoop.Safe.{LoopEnds, run_packet_loop-Allowed}
use uring_mqtt.Session.Serve.Opens.{
  NoPackets, BeganAt, FirstPacket, Detected, IsConnack, IsOpen, SessionAllowed, SessionEnds,
}
use uring_mqtt.Session.Serve.{
  Served, sent, bounded_send, and_then, send_connack, refuse_with, on_decision, id_refusal,
  on_connect_error, on_connect, on_version_error, on_version, serve_session,
}
use uring_mqtt.Session.Serve.Connacks.{SendsConnack, connect-SendsConnack}

module _ (encode : Encoder) (peer : List ℕ) (connection_timeout_secs : ℕ) (idle_timeout_secs : ℕ)
    (bound : MaxInboundPacketSize) (ingest_deadline : ℕ) where
  abbrev Open : ProtocolVersion → Accepted → Log → Type 0
  Open = IsOpen encode peer connection_timeout_secs idle_timeout_secs bound ingest_deadline

  abbrev May : Log → Query → Type 0
  May = SessionAllowed encode peer connection_timeout_secs idle_timeout_secs bound ingest_deadline

  abbrev Ends : Log → Served → Type 0
  Ends = SessionEnds encode peer connection_timeout_secs idle_timeout_secs bound ingest_deadline

  abbrev Session : Log → Program Served → Type 0
  Session log p = Always May Ends log p

  grows_IsOpen :
      (version : ProtocolVersion) (a : Accepted) (e : Event) (log : Log)
      → Open version a log
      → Open version a (e ∷ log)
  grows_IsOpen version a e log ((k, first, decided), detected, written) =
      ((k, inl first, decided), inl detected, inl written)

  LoopEnds-Ends :
      (version : ProtocolVersion) (a : Accepted) (log : Log) (r : Served)
      → Open version a log
      → LoopEnds encode version a.idle_timeout a.max_packet_size ingest_deadline r
      → Ends log r
  LoopEnds-Ends version a log none i h = tt
  LoopEnds-Ends version a log (some (ok served)) i h = (version, a, i)
  LoopEnds-Ends version a log (some (ok violated)) i h = (version, a, i)
  LoopEnds-Ends version a log (some (ok refused)) i h = tt
  LoopEnds-Ends version a log (some (err (io e))) i h = tt
  LoopEnds-Ends version a log (some (err timeout)) i h = tt
  LoopEnds-Ends version a log (some (err e)) i h = absurd h

  module _ (turns : ℕ) where
    -- The packet loop in an open session.
    run_packet_loop-Session :
        (version : ProtocolVersion) (a : Accepted) (received : ℕ) (log : Log)
        → Open version a log
        → Always May Ends log (
            run_packet_loop encode version a.idle_timeout a.max_packet_size ingest_deadline turns
              (first_state received))
    run_packet_loop-Session version a received log i =
        Always-keep (Open version a)
          (Allowed encode version a.idle_timeout a.max_packet_size ingest_deadline) May
          (λ l r. LoopEnds encode version a.idle_timeout a.max_packet_size ingest_deadline r) Ends
          log
          (run_packet_loop encode version a.idle_timeout a.max_packet_size ingest_deadline turns
            (first_state received))
          (grows_IsOpen version a) (λ l q j h. inr (version, a, j, h)) (LoopEnds-Ends version a) i
          (run_packet_loop-Allowed encode version a.idle_timeout a.max_packet_size ingest_deadline
            turns (first_state received) log)

    after_sent :
        (start : ℕ) (connack : MqttPacket) (rest : Program Served) (log : Log) (left : ℕ)
        (a : Timed (Result IoError (Unit {0})))
        → Session (event (send_and_flush left connack) (in_time (ok tt)) ∷ log) rest
        → Session (event (send_and_flush left connack) a ∷ log) (and_then rest (sent a))
    unfolding and_then sent
    after_sent start connack rest log left (in_time (ok done)) h = h
    after_sent start connack rest log left (in_time (err e)) h = tt
    after_sent start connack rest log left timed_out h = tt

    send_connack-Session :
        (start : ℕ) (connack : MqttPacket) (rest : Program Served) (log : Log)
        → IsConnack connack
        → BeganAt start log
        → ((time left : ℕ)
            → Session
                (event (send_and_flush left connack) (in_time (ok tt)) ∷ event now time ∷ log)
                rest)
        → Session log (
            send_connack encode turns peer connection_timeout_secs idle_timeout_secs bound
              ingest_deadline start connack rest)
    unfolding send_connack bounded_send bind
    send_connack-Session start connack rest log k s h = (
      inl tt,
      λ time. (
        inl ((start, time, inl s, refl, refl), k),
        λ a. after_sent start connack rest (event now time ∷ log) _ a (h time _),
      ),
    )

    refuse_with-Session :
        (start : ℕ) (connack : MqttPacket) (log : Log)
        → IsConnack connack
        → BeganAt start log
        → Session log (
            refuse_with encode turns peer connection_timeout_secs idle_timeout_secs bound
              ingest_deadline start connack)
    unfolding refuse_with
    refuse_with-Session start connack log k s =
        send_connack-Session start connack (give (some (ok refused))) log k s (λ time left. tt)

    on_decision-Session :
        (start : ℕ) (version : ProtocolVersion) (received : ℕ) (k : MqttPacket)
        (d : ConnectDecision) (log : Log)
        → evaluate_connect encode k idle_timeout_secs peer bound ≡ d
        → SendsConnack d
        → FirstPacket k log
        → Detected version log
        → BeganAt start log
        → Session log (
            on_decision encode turns peer connection_timeout_secs idle_timeout_secs bound
              ingest_deadline start version received d)
    unfolding on_decision
    on_decision-Session start version received k not_connect log e c f v s = (k, f, e)
    on_decision-Session start version received k (refuse connack false) log e c f v s = tt
    on_decision-Session start version received k (refuse connack true) log e c f v s =
        refuse_with-Session start connack log c s
    on_decision-Session start version received k refuse_persistent_session log e c f v s = tt
    on_decision-Session start version received k (accept a) log e c f v s =
        send_connack-Session start a.connack
          (run_packet_loop encode version a.idle_timeout a.max_packet_size ingest_deadline turns
            (first_state received))
          log c s
          (λ time left.
            run_packet_loop-Session version a received _
              ((k, inl (inl f), e), inl (inl v), inr (refl, refl)))

    id_refusal-IsConnack :
        (version : ProtocolVersion)
        → IsConnack (
            id_refusal encode turns peer connection_timeout_secs idle_timeout_secs bound
              ingest_deadline version)
    unfolding id_refusal
    id_refusal-IsConnack mqtt3 = tt
    id_refusal-IsConnack mqtt5 = tt

    on_connect_error-Session :
        (start : ℕ) (version : ProtocolVersion) (e : IoError) (d : Option DecodeError) (log : Log)
        → BeganAt start log
        → Session log (
            on_connect_error encode turns peer connection_timeout_secs idle_timeout_secs bound
              ingest_deadline start version e d)
    unfolding on_connect_error
    on_connect_error-Session start version e (some DecodeError.invalid_client_id) log s =
        refuse_with-Session start _ log (id_refusal-IsConnack version) s
    on_connect_error-Session start version e d log s = tt

    on_connect-Session :
        (start : ℕ) (version : ProtocolVersion) (left : ℕ)
        (a : Timed (Option (Result IoError MqttPacket))) (log : Log)
        → NoPackets log
        → Detected version log
        → BeganAt start log
        → Session (event (next_packet left) a ∷ log) (
            on_connect encode turns peer connection_timeout_secs idle_timeout_secs bound
              ingest_deadline start version a)
    unfolding on_connect
    on_connect-Session start version left (in_time (some (ok k))) log n v s = (
      inl tt,
      λ received.
          on_decision-Session start version received k
            (evaluate_connect encode k idle_timeout_secs peer bound) _ refl
            (connect-SendsConnack encode k idle_timeout_secs peer bound) (inl (inr (n, refl)))
            (inl (inl v)) (inl (inl s)),
    )
    on_connect-Session start version left (in_time (some (err e))) log n v s =
        on_connect_error-Session start version e (decode_source e) _ (inl s)
    on_connect-Session start version left (in_time none) log n v s = tt
    on_connect-Session start version left timed_out log n v s = tt

    on_version_error-Session :
        (start : ℕ) (e : IoError) (d : Option DecodeError) (log : Log)
        → BeganAt start log
        → Session log (
            on_version_error encode turns peer connection_timeout_secs idle_timeout_secs bound
              ingest_deadline start e d)
    unfolding on_version_error
    on_version_error-Session start e (some DecodeError.unsupported_protocol_level) log s =
        refuse_with-Session start (v3_connack ConnectAckReasonV3.unacceptable_protocol_version) log
          tt s
    on_version_error-Session start e d log s = tt

    on_version-Session :
        (start left : ℕ) (a : Timed (Option (Result IoError ProtocolVersion))) (log : Log)
        → NoPackets log
        → BeganAt start log
        → Session (event (next_version left) a ∷ log) (
            on_version encode turns peer connection_timeout_secs idle_timeout_secs bound
              ingest_deadline start a)
    unfolding on_version
    on_version-Session start left (in_time (some (ok version))) log n s = (
      inl tt,
      λ time. (
        inl ((start, time, inl (inl s), refl, refl), (tt, (tt, n))),
        λ a. on_connect-Session start version _ a _ (tt, (tt, n)) (inl (inr refl)) (inl (inl s)),
      ),
    )
    on_version-Session start left (in_time (some (err e))) log n s =
        on_version_error-Session start e (decode_source e) _ (inl s)
    on_version-Session start left (in_time none) log n s = tt
    on_version-Session start left timed_out log n s = tt

    -- Whatever its runtime answers, every query of a session is one of the handshake or one that
    -- the packet loop may ask. The handshake reads the clock, waits for the version, then for one
    -- packet, and has a CONNACK written, and each wait gets what is left, at the reading of the
    -- clock just before it, of one budget that runs since the first reading: the connection
    -- timeout, of at most a year. The packet loop asks only after a first packet that is accepted
    -- as a CONNECT, a version that was detected, and a CONNACK for it written in time, and with
    -- that version and the deadline and packet size limit of that CONNECT. A session that ends
    -- served or closed for a violation got that far. One that fails does so with an error of I/O,
    -- a timeout, the end of the stream, or, after a first packet that is no CONNECT, a protocol
    -- error.
    pub serve_session-Allowed :
        Always
          (SessionAllowed encode peer connection_timeout_secs idle_timeout_secs bound
            ingest_deadline)
          (SessionEnds encode peer connection_timeout_secs idle_timeout_secs bound ingest_deadline)
          []
          (serve_session encode turns peer connection_timeout_secs idle_timeout_secs bound
            ingest_deadline)
    unfolding serve_session
    serve_session-Allowed = (
      inl tt,
      λ start. (
        inl tt,
        λ time. (
          inl (start, time, inl (inr (tt, refl)), refl, refl),
          λ a. on_version-Session start _ a _ (tt, (tt, tt)) (inl (inr (tt, refl))),
        ),
      ),
    )
