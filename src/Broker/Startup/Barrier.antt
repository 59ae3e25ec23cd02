-- ===== src/Broker/Startup/Barrier.antt =====
-- Which workers pass the barrier, for reports that come in any order.
use uring_mqtt.Common.{
  ℕ, zero, suc, ◌≤◌, Bool, true, false, none, some, List, [], ◌∷◌, ◌++◌, ◌≡◌, ◌⊎◌, inl, inr, ◌↔◌,
  refl, arith, length, replicate, take, get_elem?, All, subst, ap,
}
use uring_mqtt.Common.Result.{Result, ok, err}
use uring_mqtt.Error.{Error}
use uring_mqtt.Broker.Startup.{
  Report, Setup, runtime_fails, bind_fails, stream_fails, panics, ready, report, passes_barrier,
  supervise_startup,
}
use uring_mqtt.Broker.Startup.AllOrNone.{IsSuccess, supervise_startup-Supervised}

-- The reports of the workers with their ids and setups, in any order.
pub data Arrives : List (ℕ × Setup) → List Report → Type 0 where
  nobody : Arrives [] []
  silent :
      (id : ℕ) (setup : Setup) (ws : List (ℕ × Setup)) (rs : List Report)
      → Arrives ws rs
      → report id setup ≡ none
      → Arrives ((id, setup) ∷ ws) rs
  reports :
      (id : ℕ) (setup : Setup) (ws : List (ℕ × Setup)) (before after : List Report) (r : Report)
      → Arrives ws (before ++ after)
      → report id setup ≡ some r
      → Arrives ((id, setup) ∷ ws) (before ++ (r ∷ after))

abbrev pub IsReady : ℕ × Setup → Type 0
IsReady (id, ready) = Unit {0}
IsReady (id, setup) = ⊥

All-insert :
    (xs ys : List Report) (r : Report)
    → (All IsSuccess (xs ++ (r ∷ ys))) ↔ (IsSuccess r × All IsSuccess (xs ++ ys))
All-insert [] ys r = ((λ h. h), (λ h. h))
All-insert (x ∷ xs) ys r = (
  (λ (p, all). let (q, rest) = (All-insert xs ys r).0 all in (q, (p, rest))),
  (λ (q, (p, rest)). (p, (All-insert xs ys r).1 (q, rest))),
)

length-insert :
    (xs ys : List Report) (r : Report) → length (xs ++ (r ∷ ys)) ≡ suc (length (xs ++ ys))
length-insert [] ys r = refl
length-insert (x ∷ xs) ys r = ap suc (length-insert xs ys r)

IsSuccess-IsReady :
    (id : ℕ) (setup : Setup) (r : Report)
    → report id setup ≡ some r
    → (IsSuccess r) ↔ (IsReady (id, setup))
unfolding report
IsSuccess-IsReady id (runtime_fails text) (i, ok done) h = absurd cc
IsSuccess-IsReady id (runtime_fails text) (i, err e) h = ((λ f. f), (λ f. f))
IsSuccess-IsReady id (bind_fails e) (i, ok done) h = absurd cc
IsSuccess-IsReady id (bind_fails e) (i, err e') h = ((λ f. f), (λ f. f))
IsSuccess-IsReady id (stream_fails e) (i, ok done) h = absurd cc
IsSuccess-IsReady id (stream_fails e) (i, err e') h = ((λ f. f), (λ f. f))
IsSuccess-IsReady id panics r h = absurd cc
IsSuccess-IsReady id ready (i, ok done) h = ((λ u. u), (λ u. u))
IsSuccess-IsReady id ready (i, err e) h = absurd cc

silent_not_IsReady : (id : ℕ) (setup : Setup) → report id setup ≡ none → ¬ IsReady (id, setup)
unfolding report
silent_not_IsReady id ready h r = cc
silent_not_IsReady id (runtime_fails text) h r = r
silent_not_IsReady id (bind_fails e) h r = r
silent_not_IsReady id (stream_fails e) h r = r
silent_not_IsReady id panics h r = r

-- What the reports tell of the workers.
pub Arrives-Ready :
    (ws : List (ℕ × Setup)) (rs : List Report)
    → Arrives ws rs
    → (length rs ≤ length ws) × (((length ws ≤ length rs) × All IsSuccess rs) ↔ (All IsReady ws))
Arrives-Ready _ _ Arrives.nobody = (omega arith, ((λ h. tt), (λ h. (omega arith, tt))))
Arrives-Ready _ _ (Arrives.silent id setup ws rs h e) =
    let (le, tells) = Arrives-Ready ws rs h in
    (
      omega arith,
      (
        (λ (ge, all). absurd (omega arith)),
        (λ (r, rest). absurd (silent_not_IsReady id setup e r)),
      ),
    )
Arrives-Ready _ _ (Arrives.reports id setup ws before after r h e) =
    let (le, tells) = Arrives-Ready ws (before ++ after) h in
    let len = length-insert before after r in
    let one = IsSuccess-IsReady id setup r e in
    (
      omega arith,
      (
        (λ (ge, all).
            let (p, rest) = (All-insert before after r).0 all in
            (one.0 p, tells.0 (omega arith, rest))),
        (λ (p, rest).
            let (ge, all) = tells.1 rest in
            (omega arith, (All-insert before after r).1 (one.1 p, all))),
      ),
    )

All-take : (rs : List Report) (n : ℕ) → length rs ≤ n → All IsSuccess (take n rs) → All IsSuccess rs
All-take [] n h all = tt
All-take (r ∷ rs) zero h all = absurd (omega arith)
All-take (r ∷ rs) (suc n) h (p, all) = (p, All-take rs n (omega arith) all)

All-get_elem? :
    (rs : List Report) (k id : ℕ) (e : Error)
    → All IsSuccess rs
    → ¬ (get_elem? rs k ≡ some (id, err e))
All-get_elem? [] k id e all h = cc
All-get_elem? ((i, ok done) ∷ rs) zero id e (p, all) h = cc
All-get_elem? ((i, err e') ∷ rs) zero id e (p, all) h = p
All-get_elem? (r ∷ rs) (suc k) id e (p, all) h = All-get_elem? rs k id e all h

-- The two outcomes of a start.
abbrev pub Starts : List (ℕ × Setup) → Result Error (Unit {0}) × List Bool → Type 0
Starts ws r =
    (All IsReady ws × (r ≡ (ok tt, replicate (length ws) true)))
    ⊎ ((¬ All IsReady ws) × ((e : Error) × (r ≡ (err e, replicate (length ws) false))))

pub supervise_startup-Starts :
    (ws : List (ℕ × Setup)) (rs : List Report)
    → 1 ≤ length ws
    → Arrives ws rs
    → Starts ws (supervise_startup rs (length ws) (length ws))
supervise_startup-Starts ws rs h a =
    let (le, tells) = Arrives-Ready ws rs a in
    elim (supervise_startup-Supervised rs (length ws) (length ws) h) [
      | inl ((enough, all), e) ↦ inl (tells.0 (enough, All-take rs (length ws) le all), e)
      | inr (inl (e, (k, id, lt, all, at), same)) ↦
          inr ((λ r. All-get_elem? rs k id e ((tells.1 r).1) at), (e, same))
      | inr (inr ((early, all), same)) ↦
          inr ((λ r. let (ge, _) = tells.1 r in omega arith), (_, same))
    ]

get_elem?-replicate :
    {A : Type 0} (xs : List A) (x : A) (i : ℕ) (b : Bool)
    → get_elem? xs i ≡ some x
    → get_elem? (replicate (length xs) b) i ≡ some b
get_elem?-replicate [] x i b h = absurd cc
get_elem?-replicate (y ∷ xs) x zero b h = refl
get_elem?-replicate (y ∷ xs) x (suc i) b h = get_elem?-replicate xs x i b h

ready_passes :
    (ws : List (ℕ × Setup)) (w : ℕ × Setup) (i : ℕ)
    → All IsReady ws
    → get_elem? ws i ≡ some w
    → passes_barrier w.1 (some true) ≡ true
unfolding passes_barrier
ready_passes [] w i all h = absurd cc
ready_passes ((j, ready) ∷ ws) w zero (p, all) h =
    let same : (j, ready) ≡ w = cc in subst (λ v. passes_barrier v.1 (some true) ≡ true) same refl
ready_passes ((j, setup) ∷ ws) w zero (p, all) h = absurd p
ready_passes (v ∷ ws) w (suc i) (p, all) h = ready_passes ws w i all h

aborted_stops : (setup : Setup) → ¬ (passes_barrier setup (some false) ≡ true)
unfolding passes_barrier
aborted_stops ready h = cc
aborted_stops (runtime_fails text) h = cc
aborted_stops (bind_fails e) h = cc
aborted_stops (stream_fails e) h = cc
aborted_stops panics h = cc

-- With at least one worker, and the reports of the workers in any order, the start succeeds
-- exactly when the setup of every worker is ready, and each worker goes on to its accept loop
-- exactly then.
pub passes_barrier_iff :
    (ws : List (ℕ × Setup)) (rs : List Report) (w : ℕ × Setup) (i : ℕ)
    → 1 ≤ length ws
    → Arrives ws rs
    → get_elem? ws i ≡ some w
    → let r = supervise_startup rs (length ws) (length ws) in
      ((r.0 ≡ ok tt) ↔ (All IsReady ws))
      × ((passes_barrier w.1 (get_elem? r.1 i) ≡ true) ↔ (All IsReady ws))
passes_barrier_iff ws rs w i h a at = elim (supervise_startup-Starts ws rs h a) [
  | inl (all, e) ↦
      rw (e, get_elem?-replicate ws w i true at)
        (((λ q. all), (λ r. refl)), ((λ q. all), (λ r. ready_passes ws w i all at)))
  | inr (some_fails, (x, e)) ↦
      rw (e, get_elem?-replicate ws w i false at)
        (
          ((λ q. absurd cc), (λ r. absurd (some_fails r))),
          ((λ q. absurd (aborted_stops w.1 q)), (λ r. absurd (some_fails r))),
        )
]
