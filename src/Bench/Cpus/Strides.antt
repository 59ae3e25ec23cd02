-- ===== src/Bench/Cpus/Strides.antt =====
-- The CPUs that a stride has in a segment, from the first of them on.
use native.Mathlib.Nat.{
  mod-eq_of_lt, mod-lt, div-add-mod', add-mod_right, add-mul-mod_self_right, div-eq_of_lt,
  div-eq-sub-div,
}
use uring_mqtt.Common.{
  ℕ, zero, suc, ◌+◌, ◌-◌, ◌*◌, ◌/◌, ◌%◌, ◌<◌, ◌≤◌, true, false, List, [], ◌∷◌, All, ◌≡◌, refl, sym,
  ◌∙◌, ap, subst, arith, inl, inr, le-or-lt, ltb, leb, ltb-cases, ◌==◌, if◌then◌else◌,
}
use uring_mqtt.Bench.Slots.{div_ceil}
use uring_mqtt.Bench.Cpus.{first_from, heap_of}
use uring_mqtt.Bench.Cpus.Count.{count_in, count_in-same, count_in-empty, count_in-more}
use uring_mqtt.Bench.Cpus.Heap.{
  in_stride, in_heap, Steps, From, IsHeap, in_stride-next, push-All, push-IsHeap, in_heap-push,
}
use uring_mqtt.Bench.Cpus.Merge.{and_false}

ceil_bounds : (d s : ℕ) → 1 ≤ s → (d ≤ div_ceil d s * s) × (div_ceil d s * s < d + s)
ceil_bounds d s h =
    let whole = div-add-mod' (d + (s - 1)) s in
    let rest = mod-lt (d + (s - 1)) {m = s} (omega arith) in
    (omega (arith, whole, rest), omega (arith, whole, rest))

first_from-bounds :
    (lo a s : ℕ) → 1 ≤ s → a ≤ lo → (lo ≤ first_from lo (a, s)) × (first_from lo (a, s) < lo + s)
first_from-bounds lo a s h le =
    let (low, high) = ceil_bounds (lo - a) s h in (omega (arith, low), omega (arith, high))

in_stride-first_from :
    (lo a s c : ℕ)
    → 1 ≤ s
    → a ≤ lo
    → lo ≤ c
    → in_stride c (first_from lo (a, s), s) ≡ in_stride c (a, s)
in_stride-first_from lo a s c h le above =
    let q : ℕ = div_ceil (lo - a) s in
    let (low, high) = ceil_bounds (lo - a) s h in
    elim (le-or-lt (a + q * s) c) [
      | inl after ↦
          let apart : c - a ≡ (c - (a + q * s)) + q * s = omega arith in
          let same : (c - a) % s ≡ (c - (a + q * s)) % s =
            ap (λ z. z % s) apart ∙ add-mul-mod_self_right (c - (a + q * s)) q s in
          let over : leb (a + q * s) c ≡ true = ground arith in
          let over' : leb a c ≡ true = ground arith in rw (same, over, over') refl
      | inr before ↦
          let apart : (c - a) + s ≡ ((c - a) + s - q * s) + q * s = omega arith in
          let rest : (c - a) % s ≡ (c - a) + s - q * s =
            sym (add-mod_right (c - a) s)
            ∙ (ap (λ z. z % s) apart
                ∙ (add-mul-mod_self_right ((c - a) + s - q * s) q s
                    ∙ mod-eq_of_lt (omega arith))) in
          let out : leb (a + q * s) c ≡ false = ground arith in
          let between : ((c - a) % s == 0) ≡ false =
            subst (λ z. (z == 0) ≡ false) (sym rest) (ground arith) in
          rw (out, between) (sym (and_false (leb a c)))
    ]

abbrev count_after : ℕ → ℕ → ℕ → ℕ
count_after hi cpu s = if ltb cpu hi then suc ((hi - 1 - cpu) / s) else 0

count_after-next :
    (hi cpu s : ℕ) → 1 ≤ s → cpu < hi → count_after hi cpu s ≡ suc (count_after hi (cpu + s) s)
count_after-next hi cpu s h lt =
    let here : ltb cpu hi ≡ true = ground arith in
    elim (ltb-cases (cpu + s) hi) [
      | inl (more, lt') ↦
          let apart : hi - 1 - cpu - s ≡ hi - 1 - (cpu + s) = omega arith in
          let next = div-eq-sub-div {m = s} {n = hi - 1 - cpu} (omega arith) (omega arith) in
          rw (here, more) (omega (arith, next, ap (λ z. z / s) apart))
      | inr (last, le) ↦
          let none_left : (hi - 1 - cpu) / s ≡ 0 = div-eq_of_lt (omega arith) in
          rw (here, last, none_left) refl
    ]

module _ (lo n : ℕ) where
  count_stride-over :
      (cpu s : ℕ)
      → lo + n ≤ cpu
      → count_in (λ c. in_stride c (cpu, s)) lo n ≡ count_after (lo + n) cpu s
  count_stride-over cpu s le =
      let over : ltb cpu (lo + n) ≡ false = ground arith in
      rw over (
        count_in-empty (λ c. in_stride c (cpu, s)) lo n
          (λ c _ lt. let out : leb cpu c ≡ false = ground arith in rw out refl))

  count_stride-more :
      (cpu s : ℕ)
      → 1 ≤ s
      → lo ≤ cpu
      → cpu < lo + n
      → count_in (λ c. in_stride c (cpu, s)) lo n
        ≡ suc (count_in (λ c. in_stride c (cpu + s, s)) lo n)
  count_stride-more cpu s h above lt =
      let here : (cpu == cpu) ≡ true = ground arith in
      let has : in_stride cpu (cpu, s) ≡ true = rw (in_stride-next cpu cpu s h, here) refl in
      let hasnt : in_stride cpu (cpu + s, s) ≡ false =
        let out : leb (cpu + s) cpu ≡ false = ground arith in rw out refl in
      count_in-more (λ c. in_stride c (cpu, s)) (λ c. in_stride c (cpu + s, s)) cpu lo n above lt
        has hasnt
        (λ c other.
          let apart : (c == cpu) ≡ false = ground arith in
          rw (in_stride-next c cpu s h, apart) refl)

  count_stride :
      (k cpu s : ℕ)
      → lo + n ≤ cpu + k
      → 1 ≤ s
      → lo ≤ cpu
      → count_in (λ c. in_stride c (cpu, s)) lo n ≡ count_after (lo + n) cpu s
  count_stride zero cpu s enough h above = count_stride-over cpu s (omega arith)
  count_stride (suc k) cpu s enough h above = elim (le-or-lt (lo + n) cpu) [
    | inl over ↦ count_stride-over cpu s over
    | inr under ↦
        count_stride-more cpu s h above under
        ∙ (ap suc (count_stride k (cpu + s) s (omega arith) h (omega arith))
            ∙ sym (count_after-next (lo + n) cpu s h under))
  ]

  -- One stride alone, counted by a division.
  pub count_after-counts :
      (a s : ℕ)
      → 1 ≤ s
      → a ≤ lo
      → count_after (lo + n) (first_from lo (a, s)) s ≡ count_in (λ c. in_stride c (a, s)) lo n
  count_after-counts a s h le =
      let (above, _) = first_from-bounds lo a s h le in
      sym (count_stride (lo + n) (first_from lo (a, s)) s (omega arith) h above)
      ∙ count_in-same (λ c. in_stride c (first_from lo (a, s), s)) (λ c. in_stride c (a, s)) lo n
          (λ c low _. in_stride-first_from lo a s c h le low)

-- An active stride: it is one, and begins at or before the segment.
abbrev pub ActiveAt : ℕ → ℕ × ℕ → Type 0
ActiveAt lo (a, s) = (1 ≤ s) × (a ≤ lo)

pub heap_of-IsHeap : (lo : ℕ) (strides : List (ℕ × ℕ)) → IsHeap (heap_of lo strides)
unfolding heap_of
heap_of-IsHeap lo [] = tt
heap_of-IsHeap lo ((a, s) ∷ strides) =
    push-IsHeap (first_from lo (a, s), s) (heap_of lo strides) (heap_of-IsHeap lo strides)

pub heap_of-bounds :
    (lo : ℕ) (strides : List (ℕ × ℕ))
    → All (ActiveAt lo) strides
    → All Steps (heap_of lo strides) × All (From lo) (heap_of lo strides)
unfolding heap_of
heap_of-bounds lo [] h = (tt, tt)
heap_of-bounds lo ((a, s) ∷ strides) ((h, le), rest) =
    let (steps, above) = heap_of-bounds lo strides rest in
    (
      push-All Steps (first_from lo (a, s), s) (heap_of lo strides) h steps,
      push-All (From lo) (first_from lo (a, s), s) (heap_of lo strides)
          ((first_from-bounds lo a s h le).0) above,
    )

pub in_heap-heap_of :
    (lo : ℕ) (strides : List (ℕ × ℕ)) (c : ℕ)
    → All (ActiveAt lo) strides
    → lo ≤ c
    → in_heap (heap_of lo strides) c ≡ in_heap strides c
unfolding heap_of
in_heap-heap_of lo [] c h above = refl
in_heap-heap_of lo ((a, s) ∷ strides) c ((h, le), rest) above =
    rw (in_heap-push (first_from lo (a, s), s) (heap_of lo strides) c)
      (rw (in_stride-first_from lo a s c h le above, in_heap-heap_of lo strides c rest above) refl)
