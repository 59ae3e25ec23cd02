-- ===== src/Bench/Cpus/Segments.antt =====
-- The segments between two cuts, and their sum, against the CPUs that the elements name.
use native.Mathlib.Nat.{mod-one}
use uring_mqtt.Common.{
  ℕ, suc, ◌+◌, ◌-◌, ◌%◌, ◌<◌, ◌≤◌, Bool, true, false, ◌&&◌, ◌||◌, some, List, [], ◌∷◌, All, any,
  ◌≡◌, ◌⊎◌, refl, sym, ◌∙◌, ap, subst, arith, inl, inr, Bool-cases, leb, ◌==◌,
}
use uring_mqtt.Bench.Cpus.{active, heap_of, is_plain, count_strides, count_segment, count_from}
use uring_mqtt.Bench.Cpus.Count.{
  count_in, count_in-same, count_in-empty, count_in-full, count_in-append,
}
use uring_mqtt.Bench.Cpus.Heap.{in_stride, in_heap}
use uring_mqtt.Bench.Cpus.Merge.{and_false, merged-counts}
use uring_mqtt.Bench.Cpus.Strides.{
  ActiveAt, count_after-counts, heap_of-IsHeap, heap_of-bounds, in_heap-heap_of,
}

-- The element names the CPU.
abbrev pub names : ℕ → ℕ × ℕ × ℕ → Bool
names c (a, b, s) = leb a c && (leb c b && ((c - a) % s == 0))

-- Some element names the CPU.
abbrev pub named : List (ℕ × ℕ × ℕ) → ℕ → Bool
named elements c = any (names c) elements

abbrev pub IsElement : ℕ × ℕ × ℕ → Type 0
IsElement (a, b, s) = (a ≤ b) × (1 ≤ s)

or_true : (x : Bool) → (x || true) ≡ true
or_true true = refl
or_true false = refl

or_none : (x : Bool) → (x || false) ≡ x
or_none true = refl
or_none false = refl

and_out : (x y z : Bool) → (x && y) ≡ false → (x && (y && z)) ≡ false
and_out true true z e = absurd cc
and_out true false z e = refl
and_out false y z e = refl

plain-full :
    (lo c : ℕ) (strides : List (ℕ × ℕ))
    → All (ActiveAt lo) strides
    → lo ≤ c
    → any is_plain strides ≡ true
    → in_heap strides c ≡ true
plain-full lo c [] h above plain = absurd cc
plain-full lo c ((a, s) ∷ strides) ((h, le), rest) above plain = elim (Bool-cases (s == 1)) [
  | inl one ↦
      let e : s ≡ 1 = ground arith in
      let begun : leb a c ≡ true = ground arith in
      let fits : (c - a) % s ≡ 0 = subst (λ z. (c - a) % z ≡ 0) (sym e) (mod-one (c - a)) in
      rw (begun, fits) refl
  | inr more ↦
      let plain' = subst (λ z. (z || any is_plain strides) ≡ true) more plain in
      rw (plain-full lo c strides rest above plain') (or_true (in_stride c (a, s)))
]

module _ (lo n : ℕ) where
  count_strides-counts :
      (x : ℕ × ℕ) (strides : List (ℕ × ℕ))
      → All (ActiveAt lo) (x ∷ strides)
      → count_strides lo (lo + n) x strides ≡ some (count_in (in_heap (x ∷ strides)) lo n)
  count_strides-counts (a, s) [] ((h, le), _) = ap some (
      count_after-counts lo n a s h le
      ∙ count_in-same (λ c. in_stride c (a, s)) (in_heap ((a, s) ∷ [])) lo n
          (λ c _ _. sym (or_none (in_stride c (a, s)))))
  count_strides-counts x (y ∷ strides) h =
      let all = x ∷ y ∷ strides in
      let (steps, above) = heap_of-bounds lo all h in
      merged-counts lo n (heap_of lo all) (heap_of-IsHeap lo all) steps above
      ∙ ap some (
          count_in-same (in_heap (heap_of lo all)) (in_heap all) lo n
            (λ c le _. in_heap-heap_of lo all c h le))

  count_segment-counts :
      (strides : List (ℕ × ℕ))
      → All (ActiveAt lo) strides
      → count_segment lo (lo + n) strides ≡ some (count_in (in_heap strides) lo n)
  count_segment-counts [] h = ap some (sym (count_in-empty (in_heap []) lo n (λ c _ _. refl)))
  count_segment-counts (x ∷ strides) h = elim (Bool-cases (any is_plain (x ∷ strides))) [
    | inl plain ↦
        let full =
          count_in-full (in_heap (x ∷ strides)) lo n
            (λ c le _. plain-full lo c (x ∷ strides) h le plain) in
        rw plain (ap some (omega (arith, full)))
    | inr strided ↦ rw strided (count_strides-counts x strides h)
  ]

active-ActiveAt :
    (lo hi : ℕ) (elements : List (ℕ × ℕ × ℕ))
    → All IsElement elements
    → All (ActiveAt lo) (active lo hi elements)
unfolding active
active-ActiveAt lo hi [] h = tt
active-ActiveAt lo hi ((a, b, s) ∷ elements) ((le, pos), rest) =
    elim (Bool-cases (leb a lo && leb hi (suc b))) [
      | inl within ↦
          let begun : a ≤ lo = ground arith in
          rw within ((pos, begun), active-ActiveAt lo hi elements rest)
      | inr outside ↦ rw outside (active-ActiveAt lo hi elements rest)
    ]

-- No end of the element lies inside of the segment.
abbrev IsUncut : ℕ → ℕ → ℕ × ℕ × ℕ → Type 0
IsUncut lo hi (a, b, s) = ((a ≤ lo) ⊎ (hi ≤ a)) × ((suc b ≤ lo) ⊎ (hi ≤ suc b))

in_heap-active :
    (lo hi c : ℕ) (elements : List (ℕ × ℕ × ℕ))
    → All (IsUncut lo hi) elements
    → lo ≤ c
    → c < hi
    → in_heap (active lo hi elements) c ≡ named elements c
unfolding active
in_heap-active lo hi c [] h le lt = refl
in_heap-active lo hi c ((a, b, s) ∷ elements) ((first, last), h) le lt =
    let rest = in_heap-active lo hi c elements h le lt in
    elim (Bool-cases (leb a lo && leb hi (suc b))) [
      | inl within ↦ let ends : leb c b ≡ true = ground arith in rw (within, rest, ends) refl
      | inr outside ↦
          let out : (leb a c && leb c b) ≡ false = ground arith in
          let unnamed : names c (a, b, s) ≡ false = and_out (leb a c) (leb c b) _ out in
          rw (outside, rest, unnamed) refl
    ]

-- A cut of those from `lo` on, or one before.
abbrev pub Known : ℕ → List ℕ → ℕ → Type 0
Known lo [] x = x ≤ lo
Known lo (hi ∷ cuts) x = (x ≤ lo) ⊎ ((hi ≤ x) × Known hi cuts x)

abbrev pub EndsKnown : ℕ → List ℕ → ℕ × ℕ × ℕ → Type 0
EndsKnown lo cuts (a, b, s) = Known lo cuts a × Known lo cuts (suc b)

abbrev pub IsAscending : ℕ → List ℕ → Type 0
IsAscending lo [] = Unit
IsAscending lo (hi ∷ cuts) = (lo < hi) × IsAscending hi cuts

abbrev pub UpTo : ℕ → ℕ → Type 0
UpTo top x = x ≤ top

pub Known-low : (lo : ℕ) (cuts : List ℕ) (x : ℕ) → x ≤ lo → Known lo cuts x
Known-low lo [] x le = le
Known-low lo (hi ∷ cuts) x le = inl le

Known-uncut : (lo hi : ℕ) (cuts : List ℕ) (x : ℕ) → Known lo (hi ∷ cuts) x → (x ≤ lo) ⊎ (hi ≤ x)
Known-uncut lo hi cuts x (inl le) = inl le
Known-uncut lo hi cuts x (inr (le, _)) = inr le

Known-next :
    (lo hi : ℕ) (cuts : List ℕ) (x : ℕ) → lo < hi → Known lo (hi ∷ cuts) x → Known hi cuts x
Known-next lo hi cuts x lt (inl le) = Known-low hi cuts x (omega arith)
Known-next lo hi cuts x lt (inr (_, known)) = known

EndsKnown-step :
    (lo hi : ℕ) (cuts : List ℕ) (elements : List (ℕ × ℕ × ℕ))
    → lo < hi
    → All (EndsKnown lo (hi ∷ cuts)) elements
    → All (IsUncut lo hi) elements × All (EndsKnown hi cuts) elements
EndsKnown-step lo hi cuts [] lt h = (tt, tt)
EndsKnown-step lo hi cuts ((a, b, s) ∷ elements) lt ((first, last), h) =
    let (uncut, known) = EndsKnown-step lo hi cuts elements lt h in
    (
      ((Known-uncut lo hi cuts a first, Known-uncut lo hi cuts (suc b) last), uncut),
      ((Known-next lo hi cuts a lt first, Known-next lo hi cuts (suc b) lt last), known),
    )

named-past :
    (lo c : ℕ) (elements : List (ℕ × ℕ × ℕ))
    → All (EndsKnown lo []) elements
    → lo ≤ c
    → named elements c ≡ false
named-past lo c [] h le = refl
named-past lo c ((a, b, s) ∷ elements) ((first, last), h) le =
    let out : leb c b ≡ false = ground arith in
    rw (out, named-past lo c elements h le) (or_none (leb a c && false) ∙ and_false (leb a c))

-- The sum over the segments is the number of the CPUs that the elements name.
pub count_from-counts :
    (elements : List (ℕ × ℕ × ℕ)) (lo : ℕ) (cuts : List ℕ) (m : ℕ)
    → All IsElement elements
    → IsAscending lo cuts
    → All (EndsKnown lo cuts) elements
    → All (UpTo (lo + m)) cuts
    → count_from elements lo cuts ≡ some (count_in (named elements) lo m)
unfolding count_from
count_from-counts elements lo [] m valid up known top =
    ap some
      (sym (count_in-empty (named elements) lo m (λ c le _. named-past lo c elements known le)))
count_from-counts elements lo (hi ∷ cuts) m valid (lt, up) known (below, top) =
    let n : ℕ = hi - lo in
    let whole : hi ≡ lo + n = omega arith in
    let parts : m ≡ n + (m - n) = omega arith in
    let end : lo + m ≡ hi + (m - n) = omega arith in
    let (uncut, known') = EndsKnown-step lo hi cuts elements lt known in
    let strides = active lo hi elements in
    let segment : count_segment lo hi strides ≡ some (count_in (named elements) lo n) =
      subst (λ z. count_segment lo z strides ≡ some (count_in (in_heap strides) lo n)) (sym whole)
        (count_segment-counts lo n strides (active-ActiveAt lo hi elements valid))
      ∙ ap some (
          count_in-same (in_heap strides) (named elements) lo n
            (λ c le lt'. in_heap-active lo hi c elements uncut le (omega arith))) in
    let rest =
      count_from-counts elements hi cuts (m - n) valid up known'
        (subst (λ z. All (UpTo z) cuts) end top) in
    let sum : count_in (named elements) lo m
        ≡ count_in (named elements) lo n + count_in (named elements) hi (m - n) =
      ap (count_in (named elements) lo) parts
      ∙ (count_in-append (named elements) lo n (m - n)
          ∙ ap (λ z. count_in (named elements) lo n + count_in (named elements) z (m - n))
              (sym whole)) in
    rw (segment, rest) (ap some (sym sum))
