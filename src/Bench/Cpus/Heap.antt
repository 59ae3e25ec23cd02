-- ===== src/Bench/Cpus/Heap.antt =====
-- The heap of `cpu_count`, and the CPUs that its strides have.
use native.Mathlib.Nat.{mod-eq-sub-mod, mod-eq_of_lt}
use uring_mqtt.Common.{
  ℕ, suc, ◌+◌, ◌-◌, ◌%◌, ◌<◌, ◌≤◌, Bool, true, false, ◌&&◌, ◌||◌, List, [], ◌∷◌, All, any, ◌≡◌,
  refl, ◌∙◌, ap, arith, inl, inr, Bool-cases, le-or-lt, leb, ◌==◌,
}
use uring_mqtt.Bench.Cpus.{goes_first, push, turns_for}

-- A CPU of the stride `s` that begins at `a`.
abbrev pub in_stride : ℕ → ℕ × ℕ → Bool
in_stride c (a, s) = leb a c && ((c - a) % s == 0)

abbrev pub in_heap : List (ℕ × ℕ) → ℕ → Bool
in_heap heap c = any (in_stride c) heap

abbrev pub Steps : ℕ × ℕ → Type 0
Steps (a, s) = 1 ≤ s

abbrev pub From : ℕ → ℕ × ℕ → Type 0
From m (a, s) = m ≤ a

-- The least CPU comes first.
abbrev pub IsHeap : List (ℕ × ℕ) → Type 0
IsHeap [] = Unit
IsHeap ((a, s) ∷ heap) = All (From a) heap × IsHeap heap

pub in_stride-next : (c a s : ℕ) → 1 ≤ s → in_stride c (a, s) ≡ ((c == a) || in_stride c (a + s, s))
in_stride-next c a s h = elim (le-or-lt (a + s) c) [
  | inl after ↦
      let apart : c - a - s ≡ c - (a + s) = omega arith in
      let same : (c - a) % s ≡ (c - (a + s)) % s =
        mod-eq-sub-mod {n = c - a} {m = s} (omega arith) ∙ ap (λ z. z % s) apart in
      rw same (ground arith)
  | inr before ↦ elim (le-or-lt a c) [
    | inl within ↦
        let small : (c - a) % s ≡ c - a = mod-eq_of_lt {n = c - a} {m = s} (omega arith) in
        rw small (ground arith)
    | inr under ↦ ground arith
  ]
]

or_swap : (x y z : Bool) → (x || (y || z)) ≡ (y || (x || z))
or_swap true true z = refl
or_swap true false z = refl
or_swap false true z = refl
or_swap false false z = refl

pub or_assoc : (x y z : Bool) → ((x || y) || z) ≡ (x || (y || z))
or_assoc true y z = refl
or_assoc false y z = refl

pub push-All :
    (P : ℕ × ℕ → Type 0) (x : ℕ × ℕ) (heap : List (ℕ × ℕ)) → P x → All P heap → All P (push x heap)
unfolding push
push-All P x [] px h = (px, tt)
push-All P x (y ∷ heap) px (py, h) = elim (Bool-cases (goes_first x y)) [
  | inl before ↦ rw before (px, (py, h))
  | inr after ↦ rw after (py, push-All P x heap px h)
]

pub in_heap-push :
    (x : ℕ × ℕ) (heap : List (ℕ × ℕ)) (c : ℕ)
    → in_heap (push x heap) c ≡ (in_stride c x || in_heap heap c)
unfolding push
in_heap-push x [] c = refl
in_heap-push x (y ∷ heap) c = elim (Bool-cases (goes_first x y)) [
  | inl before ↦ rw before refl
  | inr after ↦
      let ih = in_heap-push x heap c in
      rw (after, ih) (or_swap (in_stride c y) (in_stride c x) (in_heap heap c))
]

All-From : (m n : ℕ) (heap : List (ℕ × ℕ)) → m ≤ n → All (From n) heap → All (From m) heap
All-From m n [] le h = tt
All-From m n ((a, s) ∷ heap) le (p, h) = (omega arith, All-From m n heap le h)

pub push-IsHeap : (x : ℕ × ℕ) (heap : List (ℕ × ℕ)) → IsHeap heap → IsHeap (push x heap)
unfolding push
push-IsHeap (a, s) [] h = (tt, tt)
push-IsHeap (a, s) ((b, r) ∷ heap) (above, h) = elim (Bool-cases (goes_first (a, s) (b, r))) [
  | inl before ↦
      let le : a ≤ b = ground arith in rw before ((le, All-From a b heap le above), (above, h))
  | inr after ↦
      let le : b ≤ a = ground arith in
      rw after (push-All (From b) (a, s) heap le above, push-IsHeap (a, s) heap h)
]

pub turns_for-push :
    (hi : ℕ) (x : ℕ × ℕ) (heap : List (ℕ × ℕ))
    → turns_for hi (push x heap) ≡ suc (hi - x.0) + turns_for hi heap
unfolding push turns_for
turns_for-push hi (a, s) [] = refl
turns_for-push hi (a, s) ((b, r) ∷ heap) = elim (Bool-cases (goes_first (a, s) (b, r))) [
  | inl before ↦ rw before refl
  | inr after ↦ rw after (omega (arith, turns_for-push hi (a, s) heap))
]

pub in_heap-below :
    (m : ℕ) (heap : List (ℕ × ℕ)) (c : ℕ) → All (From m) heap → c < m → in_heap heap c ≡ false
in_heap-below m [] c h lt = refl
in_heap-below m ((a, s) ∷ heap) c (p, h) lt =
    let out : leb a c ≡ false = ground arith in rw (out, in_heap-below m heap c h lt) refl
