-- ===== src/Error.antt =====
-- src/error.rs, with what the source names of the errors that it wraps: rmqtt-codec's
-- `DecodeError`, `std::io::Error` with its kind and source, and `TruncatedPacket` of
-- src/codec/mqtt.rs. An encode error stands for
-- its number, and a text for its code points.
use uring_mqtt.Common.{ℕ, Bool, true, false, List, Option, none, some}

-- The rejections of rmqtt-codec that the source tells apart; `other` is any further one.
pub data DecodeError : Type 0 where
  max_size_exceeded malformed_packet invalid_protocol : DecodeError
  unsupported_protocol_level invalid_client_id : DecodeError
  other : ℕ → DecodeError

-- `std::io::ErrorKind`; `other` is any kind that the source does not name.
pub data ErrorKind : Type 0 where
  invalid_data unexpected_eof connection_reset broken_pipe : ErrorKind
  other : ℕ → ErrorKind

-- What `get_ref` and `downcast_ref` find in an I/O error.
pub data Source : Type 0 where
  decode_error : DecodeError → Source
  truncated_packet : Source
  no_source : Source

pub record IoError : Type 0 where
  pub kind : ErrorKind
  pub source : Source

pub data Error : Type 0 where
  io : IoError → Error
  decode : DecodeError → Error
  encode : ℕ → Error
  timeout client_closed : Error
  protocol worker : List ℕ → Error

-- `err.get_ref().and_then(|s| s.downcast_ref::<DecodeError>())`
unfoldable pub decode_source : IoError → Option DecodeError
decode_source e = elim e.source [ decode_error d ↦ some d | _ ↦ none ]

abbrev pub is_reset : ErrorKind → Bool
is_reset connection_reset = true
is_reset broken_pipe = true
is_reset k = false

unfoldable pub is_routine_disconnect : Error → Bool
is_routine_disconnect timeout = true
is_routine_disconnect client_closed = true
is_routine_disconnect (io e) = is_reset e.kind
is_routine_disconnect e = false

abbrev pub is_truncation : Source → Bool
is_truncation truncated_packet = true
is_truncation s = false

unfoldable pub is_truncated_packet : Error → Bool
is_truncated_packet (io e) = is_truncation e.source
is_truncated_packet e = false

-- `io::Error::new(InvalidData, e)` for a rejection of the decoder.
abbrev pub rejection : DecodeError → IoError
rejection e = record { kind = invalid_data; source = decode_error e }
