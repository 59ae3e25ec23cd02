-- ===== src/Lib.antt =====
-- uring-mqtt is an MQTT 3.1.1 and MQTT 5 broker core: worker threads accept TCP connections, read
-- their packets, and hand every PUBLISH to a callback of the application. It keeps no session and
-- sends no PUBLISH to a client. A connection goes through these parts, in this order:
--
-- * src/codec/version.rs reads the protocol version off the first packet, and src/codec/mqtt.rs
--   frames every packet: both check the fixed header, against a bound on the packet size and for
--   its form, before rmqtt-codec decodes the packet. Codec/Header has the fixed header
--   (`fixed_header`, `packet_len`, `holds_complete_packet`, `varint_len`,
--   `rejects_malformed_fixed_header`), Codec/Bound has `MaxInboundPacketSize`, Codec/Decoder has
--   `MqttDecoder` with `decode` and `decode_eof`, Codec/Version has `VersionDecoder` with
--   `names_a_known_protocol`.
--
-- * src/broker/handshake.rs decides on the CONNECT: Handshake, with `evaluate_connect` as one
--   function for each protocol, `negotiate` for its keep-alive arithmetic, and `owed_connack` for
--   the CONNACK that it builds.
--
-- * src/broker/packet.rs decides on every later packet, without I/O: Packet/Dispatch has
--   `dispatch`, Packet/Awaiting the bitset of QoS 2 packet ids (`record` is `record_id`),
--   Packet/Reply the replies, Packet/Violation the violations, Packet/Size the gates for the
--   client's Maximum Packet Size (`reply_over_max_packet_size` is `over_max_packet_size`).
--   Packet/Types has the packets.
--
-- * src/broker/handler.rs runs a session: Session/Serve has `serve_session`, cut at each wait
--   into `on_version`, `on_connect` and `on_decision`, Session/PacketLoop has `run_packet_loop`
--   and `deliver_publish`, Session/Replies has `queue_reply`, `flush_replies` and
--   `close_with_violation`. They are programs of queries to the runtime, Session/Io, which are
--   the traits of src/broker/runtime.rs, the clock, and the event channel. Session/Always says
--   what holds of a program whatever the answers are.
--
-- * src/broker/worker.rs keeps the connections of a worker and the channel to its callback:
--   Worker/Slots has `WorkerState` and the end of a connection's task, Worker/Events the event
--   channel. `admit_with` is cut where it waits for a slot, into `admit_start` and `admit_end`;
--   Worker/Events/Ledger has the steps of the channel with everything that uses it, in any order.
--   Worker/Accept has `run_worker` behind its barrier: the accept loop, the drain, and the wait
--   for `process_events`, as steps that come in any order, with the senders of the `done` and of
--   the event channel that the worker and its sessions clone and drop.
--
-- * src/broker/mod.rs starts, stops and joins the workers: Broker/Startup has `supervise_startup`
--   with what a worker reports and how it takes the decision, Broker/Shutdown the handle and the
--   exit guards, Broker/Join `join`.
--
-- * src/error.rs classifies errors: Error.
--
-- * bench/src is a load generator with a recorder, to measure the broker. Bench/Payload has the
--   stamp that its messages carry (bench/src/payload.rs), Bench/Recorder the recorder of what was
--   delivered (bench/src/record.rs), Bench/Wire the packets that are written (bench/src/wire.rs),
--   Bench/Analysis the percentiles of a histogram and Bench/Cpus `cpu_count`
--   (bench/src/analysis.rs). Of bench/src/gen.rs, Bench/Config and Bench/Generator have the
--   configuration, its checks and the report, and Bench/PacketIds, Bench/Slots and Bench/Pacer
--   the packet ids, the slots and the pacer of a latency connection: Bench/Pacer/Loop has
--   `latency_pacer`. Its clock, its socket and the PUBACKs that its reader finds are a `World`,
--   which answers by the number of readings of the clock so far, and every message submitted is
--   kept.
--
-- Common has the shared helpers: lists, tests, bits and the result type.
--
-- Numbers are natural numbers. Where the code computes in u16, u32 or u64 and a result can be too
-- large, the reduction modulo the power of two is written out; where it subtracts and can
-- underflow, the function answers `none`. Bytes are numbers, texts are lists of code points,
-- durations and instants are milliseconds. An array of 1024 words is a list of that length, and a
-- write out of bounds changes nothing.
--
-- Loops: the loop of `varint_len` recurses on the accessibility of `<`, that of `fixed_header` on
-- the bytes, and that of `remaining_length_limit` on the value that it counts down; all of them
-- are total. The packet loop may run for ever; it is cut after a number of turns, and what is
-- shown holds for every such number. The waits and the rounds of `latency_pacer` recurse on fuel:
-- readings of the clock until the end of the slot grid, and one more round than the connection
-- has slots, are enough. The merge of `cpu_count` recurses on fuel too, which its heap bounds:
-- each turn raises a CPU of its heap or takes it out. The heap is kept as a list, the least
-- element first.
--
-- Parameters: rmqtt-codec's decoders (`InnerCodec` and the argument of the version decoder) with
-- its laws `KeepsHeader`, its encoder (`Encoder`), local-sync's channel and semaphore
-- (`LocalSync`, and `Mpsc` for the channel with its senders) with the laws `Documented` and
-- `CountsSenders`, the text of the peer's address, hdrhistogram's histograms (`Histograms`), the
-- rank of a percentile, and the `World` of the pacer. The laws say that the inner decoder takes
-- the fixed header off the buffer before the body and holds it until the packet is whole, that a
-- channel is a queue, which ends when its senders are gone and it is empty, and that a semaphore
-- counts permits.
--
-- Not modelled: the length of the drain deadline, and the spawning of the threads in
-- src/broker/mod.rs; log lines and their texts; the monoio adapters; the rest of the benchmark,
-- which is the teardown of a connection, the generator's other modes, and the processes, files
-- and arithmetic of the measurements; the examples and the fuzz harness.
pub mod Common
pub mod Error
pub mod Codec
pub mod Packet
pub mod Handshake
pub mod Worker
pub mod Broker
pub mod Bench
pub mod Session
pub mod Tests
