-- ===== src/Bench/Recorder/Timelines.antt =====
-- The bins of a timeline, one for each second.
use native.Mathlib.Decide.{ℕ_discrete}
use uring_mqtt.Common.{
  ℕ, zero, suc, ◌+◌, ◌-◌, ◌<◌, ◌≤◌, ◌^◌, none, some, List, [], ◌∷◌, ◌++◌, ◌≡◌, inl, inr, refl, ap,
  ◌∙◌, arith, ltb, leb, ◌==◌, if◌then◌else◌, length, get_or, set, replicate, length-append,
  length-replicate, get_or-set_self, get_or-set_ne, Bool-cases,
}
use uring_mqtt.Bench.Recorder.{sec, saturating_add, Bins, resize, bump, bump_timeline}

abbrev pub sum : List ℕ → ℕ
sum [] = 0
sum (x ∷ xs) = x + sum xs

abbrev pub get : List ℕ → ℕ → ℕ
get counts i = get_or counts i 0

-- What a timeline holds for a second.
abbrev pub bin_at : Bins → ℕ → ℕ
bin_at (none, counts) t = 0
bin_at (some origin, counts) t = if leb origin t then get counts (t - origin) else 0

abbrev pub AreBins : Bins → Type 0
AreBins (none, counts) = counts ≡ []
AreBins (some origin, counts) = Unit {0}

get-replicate : (k i : ℕ) → get (replicate k 0) i ≡ 0
get-replicate zero i = refl
get-replicate (suc k) zero = refl
get-replicate (suc k) (suc i) = get-replicate k i

pub get-resized : (xs : List ℕ) (k i : ℕ) → get (xs ++ replicate k 0) i ≡ get xs i
get-resized [] k i = get-replicate k i
get-resized (x ∷ xs) k zero = refl
get-resized (x ∷ xs) k (suc i) = get-resized xs k i

pub get-grown :
    (k : ℕ) (xs : List ℕ) (i : ℕ)
    → get (replicate k 0 ++ xs) i ≡ (if leb k i then get xs (i - k) else 0)
get-grown zero xs i = let same : i - 0 ≡ i = omega arith in rw same (ground arith)
get-grown (suc k) xs zero = ground arith
get-grown (suc k) xs (suc i) =
    let same : suc i - suc k ≡ i - k = omega arith in rw (get-grown k xs i, same) (ground arith)

pub sum-append : (xs ys : List ℕ) → sum (xs ++ ys) ≡ sum xs + sum ys
sum-append [] ys = omega arith
sum-append (x ∷ xs) ys = omega (arith, sum-append xs ys)

pub sum-replicate : (k : ℕ) → sum (replicate k 0) ≡ 0
sum-replicate zero = refl
sum-replicate (suc k) = omega (arith, sum-replicate k)

pub sum-set : (xs : List ℕ) (i v : ℕ) → i < length xs → sum (set xs i v) + get xs i ≡ sum xs + v
sum-set [] i v h = absurd (omega arith)
sum-set (x ∷ xs) zero v h = omega arith
sum-set (x ∷ xs) (suc i) v h = omega (arith, sum-set xs i v (omega arith))

pub get-le-sum : (xs : List ℕ) (i : ℕ) → get xs i ≤ sum xs
get-le-sum [] i = omega arith
get-le-sum (x ∷ xs) zero = omega arith
get-le-sum (x ∷ xs) (suc i) = omega (arith, get-le-sum xs i)

pub length-resize : (counts : List ℕ) (idx : ℕ) → idx < length (resize counts (idx + 1))
length-resize counts idx = omega (
  arith,
  length-append {0} counts (replicate (idx + 1 - length counts) 0),
  length-replicate {A = ℕ} (idx + 1 - length counts) 0,
)

abbrev pub one_at : ℕ → ℕ → ℕ
one_at s t = if s == t then 1 else 0

get-bump :
    (counts : List ℕ) (idx i : ℕ)
    → get counts idx + 1 < 2 ^ 64
    → get (bump counts idx) i ≡ get counts i + one_at idx i
get-bump counts idx i h =
    let at_idx = get-resized counts (idx + 1 - length counts) idx in
    let at_i = get-resized counts (idx + 1 - length counts) i in
    elim (ℕ_discrete idx i) [
      | yes same ↦ rw (← same) (
          get_or-set_self (resize counts (idx + 1)) idx _ 0 (length-resize counts idx)
          ∙ (ground (arith, at_idx)))
      | no other ↦ get_or-set_ne (resize counts (idx + 1)) idx i _ 0 other ∙ (at_i ∙ (ground arith))
    ]

sum-bump :
    (counts : List ℕ) (idx : ℕ)
    → get counts idx + 1 < 2 ^ 64
    → sum (bump counts idx) ≡ sum counts + 1
sum-bump counts idx h = ground (
  arith,
  sum-set (resize counts (idx + 1)) idx (saturating_add (get (resize counts (idx + 1)) idx) 1)
      (length-resize counts idx),
  get-resized counts (idx + 1 - length counts) idx,
  sum-append counts (replicate (idx + 1 - length counts) 0),
  sum-replicate (idx + 1 - length counts),
)

abbrev pub Bumps : Bins → ℕ → Bins → Type 0
Bumps b s b' =
    AreBins b' × ((t : ℕ) → bin_at b' t ≡ bin_at b t + one_at s t) × (sum b'.1 ≡ sum b.1 + 1)

bump_later :
    (base s : ℕ) (counts : List ℕ)
    → base ≤ s
    → sum counts + 1 < 2 ^ 64
    → Bumps (some base, counts) s (some base, bump counts (s - base))
bump_later base s counts le h =
    let room : get counts (s - base) + 1 < 2 ^ 64 = omega (arith, get-le-sum counts (s - base)) in
    (
      tt,
      (λ t. ground (arith, get-bump counts (s - base) (t - base) room)),
      sum-bump counts (s - base) room,
    )

bump_earlier :
    (base s : ℕ) (counts : List ℕ)
    → s < base
    → sum counts + 1 < 2 ^ 64
    → Bumps (some base, counts) s (some s, bump (replicate (base - s) 0 ++ counts) 0)
bump_earlier base s counts lt h =
    let grown : List ℕ = replicate (base - s) 0 ++ counts in
    let room : get grown 0 + 1 < 2 ^ 64 = ground (arith, get-grown (base - s) counts 0) in
    (
      tt,
      (λ t.
          let same : t - s - (base - s) ≡ t - base = omega arith in
          ground (
            arith,
            get-bump grown 0 (t - s) room,
            get-grown (base - s) counts (t - s),
            ap (get counts) same,
          )),
      omega (
        arith,
        sum-bump grown 0 room,
        sum-append (replicate (base - s) 0) counts,
        sum-replicate (base - s),
      ),
    )

bump_from :
    (base now_ns origin_sec : ℕ) (counts : List ℕ)
    → sum counts + 1 < 2 ^ 64
    → Bumps (some base, counts) (sec now_ns) (bump_timeline (some base, counts) now_ns origin_sec)
unfolding bump_timeline
bump_from base now_ns origin_sec counts h = elim (Bool-cases (ltb (sec now_ns) base)) [
  | inl before ↦ rw before (bump_earlier base (sec now_ns) counts (ground arith) h)
  | inr after ↦ rw after (bump_later base (sec now_ns) counts (ground arith) h)
]

-- A delivery adds one to the bin of its second, and to no other.
pub bump_timeline-Bumps :
    (b : Bins) (now_ns origin_sec : ℕ)
    → AreBins b
    → sum b.1 + 1 < 2 ^ 64
    → Bumps b (sec now_ns) (bump_timeline b now_ns origin_sec)
unfolding bump_timeline
bump_timeline-Bumps (some base, counts) now_ns origin_sec e h =
    bump_from base now_ns origin_sec counts h
bump_timeline-Bumps (none, counts) now_ns origin_sec e h =
    let (v, bins, total) = bump_from origin_sec now_ns origin_sec counts h in
    let empty : (t : ℕ) → bin_at (some origin_sec, counts) t ≡ 0 = λ t. rw e (ground arith) in
    (v, (λ t. omega (arith, bins t, empty t)), total)
