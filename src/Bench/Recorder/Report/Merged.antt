-- ===== src/Bench/Recorder/Report/Merged.antt =====
-- The merged timeline against those of the shards.
use uring_mqtt.Common.{
  ℕ, suc, ◌+◌, ◌-◌, ◌<◌, ◌≤◌, ◌^◌, min, true, false, some, List, [], ◌∷◌, ◌≡◌, inl, inr, refl, sym,
  ap, ◌∙◌, subst, All, arith, ltb, leb, if◌then◌else◌, length, set, replicate, length-append,
  length-replicate, length-set, get_or-set_self, get_or-set_ne, Bool-cases,
}
use native.Mathlib.Decide.{ℕ_discrete}
use uring_mqtt.Bench.Recorder.{saturating_add, resize}
use uring_mqtt.Bench.Recorder.Timelines.{
  sum, get, bin_at, sum-set, sum-append, sum-replicate, get-le-sum, get-resized,
}
use uring_mqtt.Bench.Recorder.Report.{
  Timeline, total, total_loop, add_counts, merge, least, earliest,
}

-- What a list holds at an index that starts at an offset.
abbrev from_offset : ℕ → List ℕ → ℕ → ℕ
from_offset offset counts i = if leb offset i then get counts (i - offset) else 0

from_offset_head : (idx c : ℕ) (counts : List ℕ) → from_offset idx (c ∷ counts) idx ≡ c
from_offset_head idx c counts = let z : idx - idx ≡ 0 = omega arith in rw z (ground arith)

from_offset_tail :
    (idx c : ℕ) (counts : List ℕ) (i : ℕ)
    → ¬ (idx ≡ i)
    → from_offset (idx + 1) counts i ≡ from_offset idx (c ∷ counts) i
from_offset_tail idx c counts i other = elim (Bool-cases (leb (idx + 1) i)) [
  | inl later ↦
      let behind : leb idx i ≡ true = ground arith in
      let step : i - idx ≡ suc (i - (idx + 1)) = ground arith in rw (later, behind, step) refl
  | inr earlier ↦ let before : leb idx i ≡ false = ground arith in rw (earlier, before) refl
]

-- One count added at the head of the offset.
added :
    (timeline : List ℕ) (idx c : ℕ) (counts : List ℕ) (i new_one : ℕ)
    → new_one ≡ get timeline idx + c
    → idx < length timeline
    → get (set timeline idx new_one) i + from_offset (idx + 1) counts i
      ≡ get timeline i + from_offset idx (c ∷ counts) i
added timeline idx c counts i new_one small h = elim (ℕ_discrete idx i) [
  | yes same ↦
      subst
        (λ i.
          get (set timeline idx new_one) i + from_offset (idx + 1) counts i
          ≡ get timeline i + from_offset idx (c ∷ counts) i)
        same
        (let past : from_offset (idx + 1) counts idx ≡ 0 = ground arith in
          omega
            (arith, get_or-set_self timeline idx new_one 0 h, past, from_offset_head idx c counts))
  | no other ↦
      omega
        (arith, get_or-set_ne timeline idx i new_one 0 other, from_offset_tail idx c counts i other)
]

add_counts-Adds :
    (timeline : List ℕ) (idx : ℕ) (counts : List ℕ)
    → idx + length counts ≤ length timeline
    → sum timeline + sum counts < 2 ^ 64
    → (sum (add_counts timeline idx counts) ≡ sum timeline + sum counts)
      × ((i : ℕ)
          → get (add_counts timeline idx counts) i ≡ get timeline i + from_offset idx counts i)
unfolding add_counts
add_counts-Adds timeline idx [] h room = (omega arith, (λ i. ground arith))
add_counts-Adds timeline idx (c ∷ counts) h room =
    let new_one = saturating_add (get timeline idx) c in
    let small : new_one ≡ get timeline idx + c = ground (arith, get-le-sum timeline idx) in
    let total = sum-set timeline idx new_one (omega arith) in
    let len = length-set timeline idx new_one in
    let (rest, each) =
      add_counts-Adds (set timeline idx new_one) (idx + 1) counts (omega arith) (omega arith) in
    (omega arith, (λ i. each i ∙ added timeline idx c counts i new_one small (omega arith)))

abbrev pub totals : List (ℕ × List ℕ) → ℕ
totals [] = 0
totals ((o, counts) ∷ shards) = sum counts + totals shards

abbrev pub bins_of : List (ℕ × List ℕ) → ℕ → ℕ
bins_of [] t = 0
bins_of ((o, counts) ∷ shards) t = bin_at (some o, counts) t + bins_of shards t

abbrev NotBefore : ℕ → List (ℕ × List ℕ) → Type 0
NotBefore origin shards = All (λ s. origin ≤ s.0) shards

in_place :
    (origin o t : ℕ) (counts : List ℕ)
    → origin ≤ o
    → origin ≤ t
    → from_offset (o - origin) counts (t - origin) ≡ bin_at (some o, counts) t
in_place origin o t counts h ht =
    let same : t - origin - (o - origin) ≡ t - o = omega arith in
    let test : leb (o - origin) (t - origin) ≡ leb o t = ground arith in rw (same, test) refl

merge-Merges :
    (origin : ℕ) (timeline : List ℕ) (shards : List (ℕ × List ℕ))
    → NotBefore origin shards
    → sum timeline + totals shards < 2 ^ 64
    → (sum (merge origin timeline shards) ≡ sum timeline + totals shards)
      × ((t : ℕ)
          → origin ≤ t
          → get (merge origin timeline shards) (t - origin)
            ≡ get timeline (t - origin) + bins_of shards t)
unfolding merge
merge-Merges origin timeline [] h room = (omega arith, (λ t ht. omega arith))
merge-Merges origin timeline ((o, counts) ∷ shards) (le, h) room =
    let size : ℕ = o - origin + length counts in
    let grown = resize timeline size in
    let grown_sum : sum grown ≡ sum timeline = omega (
      arith,
      sum-append timeline (replicate (size - length timeline) 0),
      sum-replicate (size - length timeline),
    ) in
    let grown_length : size ≤ length grown = omega (
      arith,
      length-append {0} timeline (replicate (size - length timeline) 0),
      length-replicate {A = ℕ} (size - length timeline) 0,
    ) in
    let (one_sum, one) = add_counts-Adds grown (o - origin) counts grown_length (omega arith) in
    let (rest_sum, rest) =
      merge-Merges origin (add_counts grown (o - origin) counts) shards h (omega arith) in
    (
      omega arith,
      (λ t ht. omega (
        arith,
        rest t ht,
        one (t - origin),
        get-resized timeline (size - length timeline) (t - origin),
        in_place origin o t counts le ht,
      )),
    )

least-le :
    (m : ℕ) (shards : List (ℕ × List ℕ)) → (least m shards ≤ m) × NotBefore (least m shards) shards
least-le m [] = (omega arith, tt)
least-le m ((o, counts) ∷ shards) =
    let (le, rest) = least-le (min m o) shards in (omega arith, (omega arith, rest))

earliest-NotBefore :
    (shards : List (ℕ × List ℕ)) (armed : ℕ) → NotBefore (earliest shards armed) shards
earliest-NotBefore [] armed = tt
earliest-NotBefore ((o, counts) ∷ shards) armed = let (le, rest) = least-le o shards in (le, rest)

bins_of-before :
    (origin t : ℕ) (shards : List (ℕ × List ℕ))
    → NotBefore origin shards
    → t < origin
    → bins_of shards t ≡ 0
bins_of-before origin t [] h lt = refl
bins_of-before origin t ((o, counts) ∷ shards) (le, h) lt =
    let early : leb o t ≡ false = ground arith in
    rw early (omega (arith, bins_of-before origin t shards h lt))

-- Each bin of the merged timeline is the sum of the shards' bins, and so is its total.
pub merge-earliest :
    (shards : List (ℕ × List ℕ)) (armed : ℕ)
    → totals shards < 2 ^ 64
    → let origin = earliest shards armed in
      ((t : ℕ) → bin_at (some origin, merge origin [] shards) t ≡ bins_of shards t)
      × (sum (merge origin [] shards) ≡ totals shards)
merge-earliest shards armed room =
    let origin : ℕ = earliest shards armed in
    let h = earliest-NotBefore shards armed in
    let (all, each) = merge-Merges origin [] shards h (omega arith) in
    (
      (λ t. elim (Bool-cases (leb origin t)) [
        | inl later ↦ rw later (omega (arith, each t (ground arith)))
        | inr earlier ↦ rw earlier (sym (bins_of-before origin t shards h (ground arith)))
      ]),
      omega arith,
    )

total_loop_lem :
    (acc : ℕ) (counts : List ℕ)
    → acc + sum counts < 2 ^ 64
    → total_loop acc counts ≡ some (acc + sum counts)
unfolding total_loop
total_loop_lem acc [] h = ap some (omega arith)
total_loop_lem acc (c ∷ counts) h =
    let fits : ltb (acc + c) (2 ^ 64) ≡ true = ground arith in
    rw fits (total_loop_lem (acc + c) counts (omega arith) ∙ ap some (omega arith))

pub total_lem : (t : Timeline) → sum t.counts < 2 ^ 64 → total t ≡ some (sum t.counts)
unfolding total
total_lem t h = total_loop_lem 0 t.counts (omega arith) ∙ ap some (omega arith)
