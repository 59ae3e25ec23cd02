-- ===== src/Broker/Join.antt =====
-- `BrokerHandle::join`: the results of the workers, in their order.
use uring_mqtt.Common.{
  ℕ, suc, Option, none, some, List, [], ◌∷◌, ◌≡◌, ◌⊎◌, inl, inr, refl, take, get_elem?, All,
}
use uring_mqtt.Common.Result.{Result, ok, err}
use uring_mqtt.Error.{Error, worker}

-- What the join of a thread gives; `none` for a panic.
abbrev pub Joined : Type 0
Joined = Option (Result Error (Unit {0}))

abbrev pub panicked_text : List ℕ
panicked_text =
    b'w' ∷ b'o' ∷ b'r' ∷ b'k' ∷ b'e' ∷ b'r' ∷ b' ' ∷ b't' ∷ b'h' ∷ b'r' ∷ b'e' ∷ b'a' ∷ b'd' ∷ b' '
    ∷ b'p' ∷ b'a' ∷ b'n' ∷ b'i' ∷ b'c' ∷ b'k' ∷ b'e' ∷ b'd' ∷ []

abbrev pub or_error : Option Error → Error → Option Error
or_error none e = some e
or_error (some first) e = some first

unfoldable pub join_loop : List Joined → Option Error → Option Error
join_loop [] worker_err = worker_err
join_loop (none ∷ handles) worker_err =
    join_loop handles (or_error worker_err (worker panicked_text))
join_loop (some (err e) ∷ handles) worker_err = join_loop handles (or_error worker_err e)
join_loop (some (ok done) ∷ handles) worker_err = join_loop handles worker_err

unfoldable pub join : List Joined → Result Error (Unit {0})
unfolding join_loop
join handles = elim (join_loop handles none) [ none ↦ ok tt | some e ↦ err e ]

abbrev pub Succeeds : Joined → Type 0
Succeeds (some (ok done)) = Unit {0}
Succeeds j = ⊥

-- The error that a worker ends with; a panic stands for one.
abbrev pub FailsWith : Error → Joined → Type 0
FailsWith e none = e ≡ worker panicked_text
FailsWith e (some (err e')) = e ≡ e'
FailsWith e (some (ok done)) = ⊥

abbrev pub FirstFailure : List Joined → Error → Type 0
FirstFailure handles e =
    (k : ℕ) × (j : Joined) × All Succeeds (take k handles)
    × (get_elem? handles k ≡ some j)
    × FailsWith e j

keeps_first : (handles : List Joined) (e : Error) → join_loop handles (some e) ≡ some e
unfolding join_loop
keeps_first [] e = refl
keeps_first (none ∷ handles) e = keeps_first handles e
keeps_first (some (err e') ∷ handles) e = keeps_first handles e
keeps_first (some (ok done) ∷ handles) e = keeps_first handles e

loop_decided :
    (handles : List Joined)
    → (All Succeeds handles × (join_loop handles none ≡ none))
      ⊎ ((e : Error) × FirstFailure handles e × (join_loop handles none ≡ some e))
unfolding join_loop
loop_decided [] = inl (tt, refl)
loop_decided (none ∷ handles) =
    inr (worker panicked_text, (0, none, tt, refl, refl), keeps_first handles _)
loop_decided (some (err e) ∷ handles) =
    inr (e, (0, some (err e), tt, refl, refl), keeps_first handles e)
loop_decided (some (ok done) ∷ handles) = elim (loop_decided handles) [
  | inl (all, e) ↦ inl ((tt, all), e)
  | inr (e, (k, j, all, at, fails), same) ↦ inr (e, (suc k, j, (tt, all), at, fails), same)
]

-- The join returns success when every worker did, and otherwise the error of the first worker, in
-- their order, that failed or panicked, where the error for a panic is the one for a panicked
-- worker.
pub join_decided :
    (handles : List Joined)
    → (All Succeeds handles × (join handles ≡ ok tt))
      ⊎ ((e : Error) × FirstFailure handles e × (join handles ≡ err e))
unfolding join
join_decided handles = elim (loop_decided handles) [
  | inl (all, e) ↦ rw (e, join) (inl (all, refl))
  | inr (x, first, e) ↦ rw (e, join) (inr (x, first, refl))
]
