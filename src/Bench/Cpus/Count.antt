-- ===== src/Bench/Cpus/Count.antt =====
-- The number of members that a set of CPUs, a Boolean test, has in a range.
use uring_mqtt.Common.{
  ℕ, zero, suc, ◌+◌, ◌<◌, ◌≤◌, Bool, true, false, ◌≡◌, ◌≢◌, refl, subst, arith, inl, inr, le-or-lt,
}

abbrev pub one_if : Bool → ℕ
one_if true = 1
one_if false = 0

-- The members among the `n` CPUs from `lo` on.
unfoldable pub count_in : (ℕ → Bool) → ℕ → ℕ → ℕ
count_in p lo zero = 0
count_in p lo (suc n) = one_if (p lo) + count_in p (suc lo) n

pub count_in-same :
    (p q : ℕ → Bool) (lo n : ℕ)
    → ((c : ℕ) → lo ≤ c → c < lo + n → p c ≡ q c)
    → count_in p lo n ≡ count_in q lo n
unfolding count_in
count_in-same p q lo zero h = refl
count_in-same p q lo (suc n) h =
    rw (h lo (omega arith) (omega arith))
      (omega (arith, count_in-same p q (suc lo) n (λ c le lt. h c (omega arith) (omega arith))))

pub count_in-empty :
    (p : ℕ → Bool) (lo n : ℕ) → ((c : ℕ) → lo ≤ c → c < lo + n → p c ≡ false) → count_in p lo n ≡ 0
unfolding count_in
count_in-empty p lo zero h = refl
count_in-empty p lo (suc n) h =
    rw (h lo (omega arith) (omega arith))
      (omega (arith, count_in-empty p (suc lo) n (λ c le lt. h c (omega arith) (omega arith))))

pub count_in-full :
    (p : ℕ → Bool) (lo n : ℕ) → ((c : ℕ) → lo ≤ c → c < lo + n → p c ≡ true) → count_in p lo n ≡ n
unfolding count_in
count_in-full p lo zero h = refl
count_in-full p lo (suc n) h =
    rw (h lo (omega arith) (omega arith))
      (omega (arith, count_in-full p (suc lo) n (λ c le lt. h c (omega arith) (omega arith))))

pub count_in-append :
    (p : ℕ → Bool) (lo n m : ℕ) → count_in p lo (n + m) ≡ count_in p lo n + count_in p (lo + n) m
unfolding count_in
count_in-append p lo zero m =
    let left : 0 + m ≡ m = omega arith in
    let right : lo + 0 ≡ lo = omega arith in rw (left, right) (omega arith)
count_in-append p lo (suc n) m =
    let left : suc n + m ≡ suc (n + m) = omega arith in
    let right : lo + suc n ≡ suc lo + n = omega arith in
    rw (left, right) (omega (arith, count_in-append p (suc lo) n m))

-- A set with one more member in the range.
pub count_in-more :
    (p q : ℕ → Bool) (x lo n : ℕ)
    → lo ≤ x
    → x < lo + n
    → p x ≡ true
    → q x ≡ false
    → ((c : ℕ) → c ≢ x → p c ≡ q c)
    → count_in p lo n ≡ suc (count_in q lo n)
unfolding count_in
count_in-more p q x lo zero le lt has hasnt same = absurd (omega arith)
count_in-more p q x lo (suc n) le lt has hasnt same = elim (le-or-lt x lo) [
  | inl here ↦
      let e : x ≡ lo = omega arith in
      let after = count_in-same p q (suc lo) n (λ c above below. same c (omega arith)) in
      let has' = subst (λ z. p z ≡ true) e has in
      let hasnt' = subst (λ z. q z ≡ false) e hasnt in rw (has', hasnt') (omega (arith, after))
  | inr later ↦
      rw (same lo (omega arith))
        (omega (arith, count_in-more p q x (suc lo) n (omega arith) (omega arith) has hasnt same))
]
