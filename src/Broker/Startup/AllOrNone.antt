-- ===== src/Broker/Startup/AllOrNone.antt =====
-- Which reports decide a start.
use uring_mqtt.Common.{
  ℕ, zero, suc, ◌+◌, ◌≤◌, ◌<◌, Bool, true, false, some, List, [], ◌∷◌, ◌≡◌, ◌⊎◌, inl, inr, refl,
  arith, ◌==◌, length, replicate, take, get_elem?, All, Bool-cases,
}
use uring_mqtt.Common.Result.{Result, ok, err}
use uring_mqtt.Error.{Error, worker}
use uring_mqtt.Broker.Startup.{Report, no_report_text, supervise_loop, supervise_startup}

abbrev pub IsSuccess : Report → Type 0
IsSuccess (id, ok done) = Unit {0}
IsSuccess (id, err e) = ⊥

-- Enough successes come first.
abbrev pub AllSucceed : List Report → ℕ → Type 0
AllSucceed reports missing = (missing ≤ length reports) × All IsSuccess (take missing reports)

-- A failure comes before there are enough successes.
abbrev pub FailsFirst : List Report → ℕ → Error → Type 0
FailsFirst reports missing e =
    (k : ℕ) × (id : ℕ) × (k < missing)
    × All IsSuccess (take k reports)
    × (get_elem? reports k ≡ some (id, err e))

-- The channel ends before there are enough successes.
abbrev pub EndsEarly : List Report → ℕ → Type 0
EndsEarly reports missing = (length reports < missing) × All IsSuccess reports

abbrev pub Supervised : List Report → ℕ → ℕ → Result Error (Unit {0}) × List Bool → Type 0
Supervised reports go_txs missing r =
    (AllSucceed reports missing × (r ≡ (ok tt, replicate go_txs true)))
    ⊎ (((e : Error) × FailsFirst reports missing e × (r ≡ (err e, replicate go_txs false)))
        ⊎ (EndsEarly reports missing × (r ≡ (err (worker no_report_text), replicate go_txs false))))

one_more :
    (id : ℕ) (reports : List Report) (go_txs missing : ℕ) (r : Result Error (Unit {0}) × List Bool)
    → Supervised reports go_txs (suc missing) r
    → Supervised ((id, ok tt) ∷ reports) go_txs (suc (suc missing)) r
one_more id reports go_txs missing r (inl ((enough, all), e)) = inl ((omega arith, (tt, all)), e)
one_more id reports go_txs missing r (inr (inl (e, (k, i, lt, all, at), same))) =
    inr (inl (e, (suc k, i, omega arith, (tt, all), at), same))
one_more id reports go_txs missing r (inr (inr ((early, all), e))) =
    inr (inr ((omega arith, (tt, all)), e))

supervise_loop-Supervised :
    (reports : List Report) (go_txs num_workers count missing : ℕ)
    → num_workers ≡ count + suc missing
    → Supervised reports go_txs (suc missing) (supervise_loop reports go_txs num_workers count)
unfolding supervise_loop
supervise_loop-Supervised [] go_txs num_workers count missing h =
    inr (inr ((omega arith, tt), refl))
supervise_loop-Supervised ((id, err e) ∷ reports) go_txs num_workers count missing h =
    inr (inl (e, (0, id, omega arith, tt, refl), refl))
supervise_loop-Supervised ((id, ok done) ∷ reports) go_txs num_workers count zero h =
    elim (Bool-cases (count + 1 == num_workers)) [
      | inl last ↦ rw last (inl ((omega arith, (tt, tt)), refl))
      | inr more ↦ absurd (ground arith)
    ]
supervise_loop-Supervised ((id, ok done) ∷ reports) go_txs num_workers count (suc missing) h =
    elim (Bool-cases (count + 1 == num_workers)) [
      | inl last ↦ absurd (ground arith)
      | inr more ↦ rw more (
          one_more id reports go_txs missing _ (
            supervise_loop-Supervised reports go_txs num_workers (count + 1) missing (omega arith)))
    ]

-- With at least one worker, the supervisor succeeds and sends true to every worker when as many
-- reports as there are workers come first and are all successes; it returns the first error that
-- is reported and sends false to every worker when that comes before; and it returns the error
-- for a missing report and sends false to every worker when the channel ends, after successes
-- only, before there are enough of them.
pub supervise_startup-Supervised :
    (reports : List Report) (go_txs num_workers : ℕ)
    → 1 ≤ num_workers
    → Supervised reports go_txs num_workers (supervise_startup reports go_txs num_workers)
unfolding supervise_startup
supervise_startup-Supervised reports go_txs zero h = absurd (omega arith)
supervise_startup-Supervised reports go_txs (suc n) h =
    supervise_loop-Supervised reports go_txs (suc n) 0 n (omega arith)
