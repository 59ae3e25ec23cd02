-- ===== src/Bench/Cpus/Total.antt =====
-- `cpu_count` as a whole, against the CPUs that the list names.
use uring_mqtt.Common.{
  ℕ, suc, ◌+◌, ◌-◌, ◌^◌, ◌<◌, ◌≤◌, min, Bool, true, false, ◌||◌, some, List, [], ◌∷◌, All, ◌≡◌,
  refl, sym, ◌∙◌, ap, subst, arith, inl, inr, Bool-cases, leb, ◌==◌,
}
use uring_mqtt.Bench.Cpus.{
  split, parse_parts, cuts_of, sort_cuts, dedup_after, dedup, count_cuts, cpu_count,
}
use uring_mqtt.Bench.Cpus.Count.{count_in, count_in-empty, count_in-append}
use uring_mqtt.Bench.Cpus.Cuts.{
  has, IsSorted, sort_cuts-IsSorted, has-sort_cuts, dedup_after-IsAscending, has-dedup_after,
  has-above, has-Known, All-sort_cuts, All-dedup_after,
}
use uring_mqtt.Bench.Cpus.Segments.{
  named, IsElement, Known, Known-low, EndsKnown, UpTo, count_from-counts,
}
use uring_mqtt.Bench.Cpus.Elements.{parse_parts-IsElement}

All-implies {ℓ κ} :
    {A : Type ℓ} (P Q : A → Type κ) (xs : List A) → ((x : A) → P x → Q x) → All P xs → All Q xs
All-implies P Q [] f h = tt
All-implies P Q (x ∷ xs) f (p, h) = (f x p, All-implies P Q xs f h)

abbrev Ends : List ℕ → ℕ × ℕ × ℕ → Type 0
Ends cuts (a, b, s) = (has a cuts ≡ true) × (has (suc b) cuts ≡ true)

or_true : (x y : Bool) → y ≡ true → (x || y) ≡ true
or_true true y e = refl
or_true false y e = e

Ends-more : (x : ℕ) (cuts : List ℕ) (e : ℕ × ℕ × ℕ) → Ends cuts e → Ends (x ∷ cuts) e
Ends-more x cuts (a, b, s) (first, last) =
    (or_true (x == a) (has a cuts) first, or_true (x == suc b) (has (suc b) cuts) last)

cuts_of-Ends : (elements : List (ℕ × ℕ × ℕ)) → All (Ends (cuts_of elements)) elements
unfolding cuts_of
cuts_of-Ends [] = tt
cuts_of-Ends ((a, b, s) ∷ elements) =
    let self : (n : ℕ) → (n == n) ≡ true = λ n. ground arith in
    let cuts = cuts_of elements in
    let rest =
      All-implies (Ends cuts) (Ends (a ∷ suc b ∷ cuts)) elements
        (λ e h. Ends-more a (suc b ∷ cuts) e (Ends-more (suc b) cuts e h))
        (cuts_of-Ends elements) in
    ((rw (self a) refl, or_true (a == suc b) _ (rw (self (suc b)) refl)), rest)

sort_cuts-Ends : (elements : List (ℕ × ℕ × ℕ)) → All (Ends (sort_cuts (cuts_of elements))) elements
sort_cuts-Ends elements =
    let cuts = cuts_of elements in
    All-implies (Ends cuts) (Ends (sort_cuts cuts)) elements
      (λ (a, b, s) (first, last). (has-sort_cuts a cuts ∙ first, has-sort_cuts (suc b) cuts ∙ last))
      (cuts_of-Ends elements)

kept :
    (lo x : ℕ) (cuts : List ℕ)
    → IsSorted lo cuts
    → has x (lo ∷ cuts) ≡ true
    → (lo ≤ x) × Known lo (dedup_after lo cuts) x
kept lo x cuts sorted h =
    let cuts' = dedup_after lo cuts in
    let up = dedup_after-IsAscending lo cuts sorted in
    let here : lo ≡ x → (lo ≤ x) × Known lo cuts' x =
      λ e. (omega arith, Known-low lo cuts' x (omega arith)) in
    elim (Bool-cases (lo == x)) [
      | inl same ↦ here (ground arith)
      | inr other ↦
          elim (has-dedup_after lo x cuts (subst (λ z. (z || has x cuts) ≡ true) other h)) [
            | inl e ↦ here e
            | inr later ↦
                let lt = has-above lo x cuts' up later in
                (omega arith, has-Known lo x cuts' up later)
          ]
    ]

abbrev IsFrom : ℕ → ℕ × ℕ × ℕ → Type 0
IsFrom lo (a, b, s) = lo ≤ a

abbrev pub IsBelow : ℕ → ℕ × ℕ × ℕ → Type 0
IsBelow n (a, b, s) = b < n

kept-All :
    (lo : ℕ) (cuts : List ℕ) (elements : List (ℕ × ℕ × ℕ))
    → IsSorted lo cuts
    → All (Ends (lo ∷ cuts)) elements
    → All (IsFrom lo) elements × All (EndsKnown lo (dedup_after lo cuts)) elements
kept-All lo cuts [] sorted h = (tt, tt)
kept-All lo cuts ((a, b, s) ∷ elements) sorted ((first, last), h) =
    let (above, known) = kept-All lo cuts elements sorted h in
    let (le, known_a) = kept lo a cuts sorted first in
    let (_, known_b) = kept lo (suc b) cuts sorted last in
    ((le, above), ((known_a, known_b), known))

named-before :
    (lo c : ℕ) (elements : List (ℕ × ℕ × ℕ))
    → All (IsFrom lo) elements
    → c < lo
    → named elements c ≡ false
named-before lo c [] h lt = refl
named-before lo c ((a, b, s) ∷ elements) (le, h) lt =
    let out : leb a c ≡ false = ground arith in rw (out, named-before lo c elements h lt) refl

cuts_of-UpTo :
    (n : ℕ) (elements : List (ℕ × ℕ × ℕ))
    → All IsElement elements
    → All (IsBelow n) elements
    → All (UpTo n) (cuts_of elements)
unfolding cuts_of
cuts_of-UpTo n [] valid below = tt
cuts_of-UpTo n ((a, b, s) ∷ elements) ((le, _), valid) (lt, below) =
    (omega arith, (omega arith, cuts_of-UpTo n elements valid below))

count_cuts-counts :
    (n : ℕ) (elements : List (ℕ × ℕ × ℕ)) (cuts : List ℕ)
    → All IsElement elements
    → IsSorted 0 cuts
    → All (Ends cuts) elements
    → All (UpTo n) cuts
    → count_cuts elements (dedup cuts) ≡ some (count_in (named elements) 0 n)
count_cuts-counts n [] [] valid sorted ends top =
    ap some (sym (count_in-empty (named []) 0 n (λ c _ _. refl)))
count_cuts-counts n ((a, b, s) ∷ elements) [] valid sorted ((first, _), ends) top = absurd cc
count_cuts-counts n elements (lo ∷ cuts) valid (_, sorted) ends (le, top) =
    let (above, known) = kept-All lo cuts elements sorted ends in
    let whole : lo + (n - lo) ≡ n = omega arith in
    let before =
      count_in-empty (named elements) 0 lo
        (λ c _ lt. named-before lo c elements above (omega arith)) in
    let start : 0 + lo ≡ lo = omega arith in
    let parts =
      subst
        (λ z.
          count_in (named elements) 0 (lo + (n - lo))
          ≡ count_in (named elements) 0 lo + count_in (named elements) z (n - lo))
        start (count_in-append (named elements) 0 lo (n - lo)) in
    count_from-counts elements lo (dedup_after lo cuts) (n - lo) valid
      (dedup_after-IsAscending lo cuts sorted) known
      (subst (λ z. All (UpTo z) (dedup_after lo cuts)) (sym whole)
        (All-dedup_after (UpTo n) lo cuts top))
    ∙ ap some (
        subst (λ z. count_in (named elements) lo (n - lo) ≡ count_in (named elements) 0 z) whole
          (omega (arith, parts, before)))

-- If a CPU list is read as elements, with every last CPU below a number, then its count is the
-- number of the CPUs below that number that some element names, each counted once, or the largest
-- u32 if that is less. An element names the CPUs from its first to its last whose distance from
-- the first its stride divides.
pub cpu_count-named :
    (set : List ℕ) (elements : List (ℕ × ℕ × ℕ)) (n : ℕ)
    → parse_parts (split set) ≡ some elements
    → All (IsBelow n) elements
    → cpu_count set ≡ some (min (count_in (named elements) 0 n) (2 ^ 32 - 1))
unfolding cpu_count
cpu_count-named set elements n read below =
    let valid = parse_parts-IsElement (split set) elements read in
    let cuts = cuts_of elements in
    let total =
      count_cuts-counts n elements (sort_cuts cuts) valid (sort_cuts-IsSorted cuts)
        (sort_cuts-Ends elements)
        (All-sort_cuts (UpTo n) cuts (cuts_of-UpTo n elements valid below)) in
    rw (read, total) refl
