-- ===== src/Bench/Cpus/Cuts.antt =====
-- The cuts of the elements, sorted and without duplicates.
use uring_mqtt.Common.{
  ℕ, ◌<◌, ◌≤◌, Bool, true, false, ◌||◌, List, [], ◌∷◌, All, any, ◌≡◌, ◌⊎◌, refl, subst, arith, inl,
  inr, Bool-cases, leb, ◌==◌,
}
use uring_mqtt.Bench.Cpus.{insert_cut, sort_cuts, dedup_after}
use uring_mqtt.Bench.Cpus.Segments.{Known, Known-low, IsAscending}

abbrev pub has : ℕ → List ℕ → Bool
has x cuts = any (λ y. y == x) cuts

abbrev pub IsSorted : ℕ → List ℕ → Type 0
IsSorted lo [] = Unit
IsSorted lo (x ∷ cuts) = (lo ≤ x) × IsSorted x cuts

insert_cut-IsSorted :
    (lo x : ℕ) (cuts : List ℕ) → lo ≤ x → IsSorted lo cuts → IsSorted lo (insert_cut x cuts)
unfolding insert_cut
insert_cut-IsSorted lo x [] le h = (le, tt)
insert_cut-IsSorted lo x (y ∷ cuts) le (le', h) = elim (Bool-cases (leb x y)) [
  | inl before ↦ let p : x ≤ y = ground arith in rw before (le, (p, h))
  | inr after ↦ let p : y ≤ x = ground arith in rw after (le', insert_cut-IsSorted y x cuts p h)
]

pub sort_cuts-IsSorted : (cuts : List ℕ) → IsSorted 0 (sort_cuts cuts)
unfolding sort_cuts
sort_cuts-IsSorted [] = tt
sort_cuts-IsSorted (x ∷ cuts) =
    insert_cut-IsSorted 0 x (sort_cuts cuts) (omega arith) (sort_cuts-IsSorted cuts)

or_swap' : (x y z : Bool) → (x || (y || z)) ≡ (y || (x || z))
or_swap' true true z = refl
or_swap' true false z = refl
or_swap' false y z = refl

has-insert_cut : (x y : ℕ) (cuts : List ℕ) → has x (insert_cut y cuts) ≡ ((y == x) || has x cuts)
unfolding insert_cut
has-insert_cut x y [] = refl
has-insert_cut x y (z ∷ cuts) = elim (Bool-cases (leb y z)) [
  | inl before ↦ rw before refl
  | inr after ↦ rw (after, has-insert_cut x y cuts) (or_swap' (z == x) (y == x) (has x cuts))
]

pub has-sort_cuts : (x : ℕ) (cuts : List ℕ) → has x (sort_cuts cuts) ≡ has x cuts
unfolding sort_cuts
has-sort_cuts x [] = refl
has-sort_cuts x (y ∷ cuts) = rw (has-insert_cut x y (sort_cuts cuts), has-sort_cuts x cuts) refl

pub dedup_after-IsAscending :
    (lo : ℕ) (cuts : List ℕ) → IsSorted lo cuts → IsAscending lo (dedup_after lo cuts)
unfolding dedup_after
dedup_after-IsAscending lo [] h = tt
dedup_after-IsAscending lo (y ∷ cuts) (le, h) = elim (Bool-cases (y == lo)) [
  | inl same ↦
      let e : y ≡ lo = ground arith in
      rw same (subst (λ z. IsAscending z (dedup_after y cuts)) e (dedup_after-IsAscending y cuts h))
  | inr other ↦ let lt : lo < y = ground arith in rw other (lt, dedup_after-IsAscending y cuts h)
]

-- A cut of those given is the one kept before, or among those kept.
pub has-dedup_after :
    (lo x : ℕ) (cuts : List ℕ) → has x cuts ≡ true → (lo ≡ x) ⊎ (has x (dedup_after lo cuts) ≡ true)
unfolding dedup_after
has-dedup_after lo x [] h = absurd cc
has-dedup_after lo x (y ∷ cuts) h = elim (Bool-cases (y == x)) [
  | inl here ↦ elim (Bool-cases (y == lo)) [
    | inl same ↦ inl (ground arith)
    | inr other ↦ inr (rw (other, here) refl)
  ]
  | inr later ↦
      let h' = subst (λ z. (z || has x cuts) ≡ true) later h in
      elim (has-dedup_after y x cuts h') [
        | inl e ↦ absurd (ground arith)
        | inr kept ↦ elim (Bool-cases (y == lo)) [
          | inl same ↦ inr (rw same kept)
          | inr other ↦ inr (rw (other, later) kept)
        ]
      ]
]

pub has-above : (lo x : ℕ) (cuts : List ℕ) → IsAscending lo cuts → has x cuts ≡ true → lo < x
has-above lo x [] up h = absurd cc
has-above lo x (y ∷ cuts) (lt, up) h = elim (Bool-cases (y == x)) [
  | inl here ↦ ground arith
  | inr later ↦
      let h' = subst (λ z. (z || has x cuts) ≡ true) later h in
      let lt' = has-above y x cuts up h' in omega arith
]

pub has-Known :
    (lo x : ℕ) (cuts : List ℕ) → IsAscending lo cuts → has x cuts ≡ true → Known lo cuts x
has-Known lo x [] up h = absurd cc
has-Known lo x (y ∷ cuts) (lt, up) h = elim (Bool-cases (y == x)) [
  | inl here ↦ let e : y ≡ x = ground arith in inr (omega arith, Known-low y cuts x (omega arith))
  | inr later ↦
      let h' = subst (λ z. (z || has x cuts) ≡ true) later h in
      let lt' = has-above y x cuts up h' in inr (omega arith, has-Known y x cuts up h')
]

All-insert_cut :
    (P : ℕ → Type 0) (x : ℕ) (cuts : List ℕ) → P x → All P cuts → All P (insert_cut x cuts)
unfolding insert_cut
All-insert_cut P x [] px h = (px, tt)
All-insert_cut P x (y ∷ cuts) px (py, h) = elim (Bool-cases (leb x y)) [
  | inl before ↦ rw before (px, (py, h))
  | inr after ↦ rw after (py, All-insert_cut P x cuts px h)
]

pub All-sort_cuts : (P : ℕ → Type 0) (cuts : List ℕ) → All P cuts → All P (sort_cuts cuts)
unfolding sort_cuts
All-sort_cuts P [] h = tt
All-sort_cuts P (x ∷ cuts) (px, h) = All-insert_cut P x (sort_cuts cuts) px (All-sort_cuts P cuts h)

pub All-dedup_after :
    (P : ℕ → Type 0) (lo : ℕ) (cuts : List ℕ) → All P cuts → All P (dedup_after lo cuts)
unfolding dedup_after
All-dedup_after P lo [] h = tt
All-dedup_after P lo (y ∷ cuts) (py, h) = elim (Bool-cases (y == lo)) [
  | inl same ↦ rw same (All-dedup_after P y cuts h)
  | inr other ↦ rw other (py, All-dedup_after P y cuts h)
]
