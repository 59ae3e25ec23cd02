-- ===== src/Bench/Cpus/Merge.antt =====
-- The merge of strides against the CPUs that they have.
use uring_mqtt.Common.{
  ℕ, zero, suc, ◌+◌, ◌<◌, ◌≤◌, Bool, true, false, not, ◌&&◌, ◌||◌, Option, none, some, List, [],
  ◌∷◌, All, ◌≡◌, ◌≢◌, ◌⊎◌, refl, sym, ◌∙◌, ap, subst, arith, inl, inr, Bool-cases, le-or-lt, leb,
  leb-cases, ◌==◌,
}
use uring_mqtt.Bench.Cpus.{push, is_last, walk, turns_for, merged}
use uring_mqtt.Bench.Cpus.Count.{count_in, count_in-same, count_in-empty, count_in-more}
use uring_mqtt.Bench.Cpus.Heap.{
  in_stride, in_heap, Steps, From, IsHeap, in_stride-next, push-All, in_heap-push, push-IsHeap,
  turns_for-push, in_heap-below, or_assoc,
}

-- The CPUs of a heap that were not the last one counted.
abbrev new_in : Option ℕ → List (ℕ × ℕ) → ℕ → Bool
new_in last heap c = in_heap heap c && not (is_last last c)

-- The last CPU counted is not after any of the heap.
abbrev Follows : Option ℕ → List (ℕ × ℕ) → Type 0
Follows none heap = Unit
Follows (some l) heap = All (From l) heap

Follows-rest :
    (last : Option ℕ) (x : ℕ × ℕ) (heap : List (ℕ × ℕ))
    → Follows last (x ∷ heap)
    → Follows last heap
Follows-rest none x heap h = tt
Follows-rest (some l) x heap (p, h) = h

-- The heap when the least CPU gives way to the next of its stride.
in_heap-next :
    (cpu s : ℕ) (heap : List (ℕ × ℕ)) (c : ℕ)
    → 1 ≤ s
    → in_heap ((cpu, s) ∷ heap) c ≡ ((c == cpu) || in_heap (push (cpu + s, s) heap) c)
in_heap-next cpu s heap c h =
    rw (in_stride-next c cpu s h, in_heap-push (cpu + s, s) heap c)
      (or_assoc (c == cpu) (in_stride c (cpu + s, s)) (in_heap heap c))

is_last-cases :
    (last : Option ℕ) (cpu : ℕ)
    → ((last ≡ some cpu) × (is_last last cpu ≡ true)) ⊎ (is_last last cpu ≡ false)
is_last-cases none cpu = inr refl
is_last-cases (some l) cpu = elim (Bool-cases (l == cpu)) [
  | inl same ↦ inl (ap some (ground arith), same)
  | inr other ↦ inr other
]

is_last-later :
    (last : Option ℕ) (cpu s c : ℕ) (heap : List (ℕ × ℕ))
    → Follows last ((cpu, s) ∷ heap)
    → cpu < c
    → is_last last c ≡ false
is_last-later none cpu s c heap follows lt = refl
is_last-later (some l) cpu s c heap (le, _) lt = ground arith

and_true : (x : Bool) → (x && true) ≡ x
and_true true = refl
and_true false = refl

pub and_false : (x : Bool) → (x && false) ≡ false
and_false true = refl
and_false false = refl

not_new : (cpu : ℕ) (heap : List (ℕ × ℕ)) (c : ℕ) → c ≡ cpu → new_in (some cpu) heap c ≡ false
not_new cpu heap c e =
    let same : (cpu == c) ≡ true = ground arith in rw same (and_false (in_heap heap c))

is_new :
    (last : Option ℕ) (cpu s : ℕ) (heap : List (ℕ × ℕ))
    → 1 ≤ s
    → is_last last cpu ≡ false
    → new_in last ((cpu, s) ∷ heap) cpu ≡ true
is_new last cpu s heap h fresh =
    let same : (cpu == cpu) ≡ true = ground arith in
    rw (in_heap-next cpu s heap cpu h, same, fresh) refl

-- Without the least CPU there is what was new, less that CPU.
new_in-next :
    (last : Option ℕ) (cpu s : ℕ) (heap : List (ℕ × ℕ)) (c : ℕ)
    → 1 ≤ s
    → Follows last ((cpu, s) ∷ heap)
    → All (From cpu) heap
    → c ≢ cpu
    → new_in last ((cpu, s) ∷ heap) c ≡ new_in (some cpu) (push (cpu + s, s) heap) c
new_in-next last cpu s heap c h follows above other = elim (le-or-lt cpu c) [
  | inl le ↦
      let old = is_last-later last cpu s c heap follows (omega arith) in
      let apart : (c == cpu) ≡ false = ground arith in
      let apart' : (cpu == c) ≡ false = ground arith in
      rw (in_heap-next cpu s heap c h, old, apart, apart') refl
  | inr lt ↦
      let out =
        in_heap-below cpu (push (cpu + s, s) heap) c
          (push-All (From cpu) (cpu + s, s) heap (omega arith) above) lt in
      let apart : (c == cpu) ≡ false = ground arith in
      rw (in_heap-next cpu s heap c h, out, apart) refl
]

new_in-same :
    (cpu s : ℕ) (heap : List (ℕ × ℕ)) (c : ℕ)
    → 1 ≤ s
    → All (From cpu) heap
    → new_in (some cpu) ((cpu, s) ∷ heap) c ≡ new_in (some cpu) (push (cpu + s, s) heap) c
new_in-same cpu s heap c h above = elim (Bool-cases (c == cpu)) [
  | inl same ↦
      let e : c ≡ cpu = ground arith in
      not_new cpu ((cpu, s) ∷ heap) c e ∙ sym (not_new cpu (push (cpu + s, s) heap) c e)
  | inr other ↦ new_in-next (some cpu) cpu s heap c h ((omega arith), above) above (ground arith)
]

module _ (lo n : ℕ) where
  walk-counts :
      (turns : ℕ) (heap : List (ℕ × ℕ)) (count : ℕ) (last : Option ℕ)
      → IsHeap heap
      → All Steps heap
      → All (From lo) heap
      → Follows last heap
      → turns_for (lo + n) heap ≤ turns
      → walk turns (lo + n) heap count last ≡ some (count + count_in (new_in last heap) lo n)
  unfolding walk turns_for
  walk-counts turns [] count last h steps above follows enough =
      ap some (omega (arith, count_in-empty (new_in last []) lo n (λ c le lt. refl)))
  walk-counts zero ((cpu, s) ∷ heap) count last h steps above follows enough = absurd (omega arith)
  walk-counts (suc turns) ((cpu, s) ∷ heap) count last (least, h) (step, steps) (from_lo, above)
        follows enough =
      elim (leb-cases (lo + n) cpu) [
        | inl (over, le) ↦
            let rest =
              walk-counts turns heap count last h steps above (Follows-rest last _ heap follows)
                (omega arith) in
            let same =
              count_in-same (new_in last ((cpu, s) ∷ heap)) (new_in last heap) lo n
                (λ c _ lt. let out : leb cpu c ≡ false = ground arith in rw out refl) in
            rw (walk, over) (rest ∙ ap some (omega (arith, same)))
        | inr (under, lt) ↦
            let next = push (cpu + s, s) heap in
            let rest : (count' : ℕ)
                → walk turns (lo + n) next count' (some cpu)
                  ≡ some (count' + count_in (new_in (some cpu) next) lo n) =
              λ count'.
                walk-counts turns next count' (some cpu) (push-IsHeap (cpu + s, s) heap h)
                  (push-All Steps (cpu + s, s) heap step steps)
                  (push-All (From lo) (cpu + s, s) heap (omega arith) above)
                  (push-All (From cpu) (cpu + s, s) heap (omega arith) least)
                  (omega (arith, turns_for-push (lo + n) (cpu + s, s) heap)) in
            elim (is_last-cases last cpu) [
              | inl (e, counted) ↦
                  rw (walk, under, counted)
                    (rest count
                      ∙ ap some (
                          subst
                            (λ l.
                              count + count_in (new_in (some cpu) next) lo n
                              ≡ count + count_in (new_in l ((cpu, s) ∷ heap)) lo n)
                            (sym e)
                            (ap (λ k. count + k)
                              (sym (
                                count_in-same (new_in (some cpu) ((cpu, s) ∷ heap))
                                  (new_in (some cpu) next) lo n
                                  (λ c _ _. new_in-same cpu s heap c step least))))))
              | inr fresh ↦
                  rw (walk, under, fresh)
                    (rest (suc count)
                      ∙ ap some (
                          let has : new_in last ((cpu, s) ∷ heap) cpu ≡ true =
                            is_new last cpu s heap step fresh in
                          let more =
                            count_in-more (new_in last ((cpu, s) ∷ heap)) (new_in (some cpu) next)
                              cpu lo n from_lo lt has (not_new cpu next cpu refl)
                              (λ c other. new_in-next last cpu s heap c step follows least other) in
                          omega (arith, more)))
            ]
      ]

  -- The merge counts each CPU once, however many of its strides have it.
  pub merged-counts :
      (heap : List (ℕ × ℕ))
      → IsHeap heap
      → All Steps heap
      → All (From lo) heap
      → merged (lo + n) heap ≡ some (count_in (in_heap heap) lo n)
  merged-counts heap h steps above =
      let all =
        count_in-same (new_in none heap) (in_heap heap) lo n (λ c _ _. and_true (in_heap heap c)) in
      walk-counts (turns_for (lo + n) heap) heap 0 none h steps above tt (omega arith)
      ∙ ap some (omega (arith, all))
