-- ===== src/Broker/Startup.antt =====
-- The start barrier: what each worker reports of its setup, `supervise_startup`, and what a worker
-- does with the decision. As in the code, a report or a decision that cannot be delivered is ignored.
pub mod AllOrNone
pub mod Barrier
use uring_mqtt.Common.{
  ℕ, ◌+◌, Bool, true, false, Option, none, some, List, [], ◌∷◌, ◌==◌, if◌then◌else◌, length,
  replicate,
}
use uring_mqtt.Common.Result.{Result, ok, err}
use uring_mqtt.Error.{Error, io, worker, IoError}

abbrev pub Report : Type 0
Report = ℕ × Result Error (Unit {0})

-- How the setup of a worker goes: its runtime is not built, with a text; the bind or the shutdown
-- stream fails; it panics; or it is ready.
pub data Setup : Type 0 where
  runtime_fails : List ℕ → Setup
  bind_fails stream_fails : IoError → Setup
  panics ready : Setup

-- The message that a worker puts into the ready channel before its sender is dropped.
unfoldable pub report : ℕ → Setup → Option Report
report worker_id (runtime_fails text) = some (worker_id, err (worker text))
report worker_id (bind_fails e) = some (worker_id, err (io e))
report worker_id (stream_fails e) = some (worker_id, err (io e))
report worker_id panics = none
report worker_id ready = some (worker_id, ok tt)

-- Whether a worker goes on to its accept loop, by the message of the go channel, or `none` where its
-- sender is dropped.
unfoldable pub passes_barrier : Setup → Option Bool → Bool
passes_barrier ready (some go) = go
passes_barrier setup go = false

abbrev pub no_report_text : List ℕ
no_report_text =
    b'w' ∷ b'o' ∷ b'r' ∷ b'k' ∷ b'e' ∷ b'r' ∷ b' ' ∷ b'e' ∷ b'x' ∷ b'i' ∷ b't' ∷ b'e' ∷ b'd' ∷ b' '
    ∷ b'b' ∷ b'e' ∷ b'f' ∷ b'o' ∷ b'r' ∷ b'e' ∷ b' ' ∷ b'r' ∷ b'e' ∷ b'p' ∷ b'o' ∷ b'r' ∷ b't'
    ∷ b'i' ∷ b'n' ∷ b'g' ∷ b' ' ∷ b's' ∷ b't' ∷ b'a' ∷ b'r' ∷ b't' ∷ b'u' ∷ b'p' ∷ b' ' ∷ b'r'
    ∷ b'e' ∷ b's' ∷ b'u' ∷ b'l' ∷ b't' ∷ []

-- The reports in the order in which they come, until every sender is dropped; the answer comes with
-- the message for each of the go senders.
unfoldable pub supervise_loop : List Report → ℕ → ℕ → ℕ → Result Error (Unit {0}) × List Bool
supervise_loop [] go_txs num_workers count = (err (worker no_report_text), replicate go_txs false)
supervise_loop ((id, ok done) ∷ reports) go_txs num_workers count =
    if count + 1 == num_workers
    then (ok tt, replicate go_txs true)
    else supervise_loop reports go_txs num_workers (count + 1)
supervise_loop ((id, err e) ∷ reports) go_txs num_workers count = (err e, replicate go_txs false)

unfoldable pub supervise_startup : List Report → ℕ → ℕ → Result Error (Unit {0}) × List Bool
unfolding supervise_loop
supervise_startup ready_rx go_txs num_workers = supervise_loop ready_rx go_txs num_workers 0
