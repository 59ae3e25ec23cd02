-- ===== src/Common/Bits.antt =====
-- `&` and `|` on machine words at variables, from the definitions that the native operations
-- stand for.
use Prim.Native.Nat.{
  ℕ, zero, suc, ◌+◌, ◌-◌, ◌*◌, ◌/◌, ◌%◌, ◌^◌, ◌≤◌, ◌<◌, min, max, bit_and, bit_or, digits,
  bit_and-bitwise, bit_or-bitwise,
}
use mathlib.Core.Path.{◌≡◌, refl, ap}
use mathlib.Core.Logic.{◌≢◌, ◌⊎◌}
use native.Mathlib.Omega.{arith}
use native.Mathlib.Nat.{pow-suc}

-- The binary digit of weight `2 ^ k`.
abbrev pub bit : ℕ → ℕ → ℕ
bit zero w = w % 2
bit (suc k) w = bit k (w / 2)

-- Once the fuel of `digits` reaches the number, more of it changes nothing.
module _ (rest : ℕ → ℕ) (digit : ℕ → ℕ → ℕ) where
  enough_fuel : (n m a b : ℕ) → a ≤ n → a ≤ m → digits rest digit n a b ≡ digits rest digit m a b
  enough_fuel zero zero a b p q = refl
  enough_fuel zero (suc m) zero b p q = refl
  enough_fuel zero (suc m) (suc a) b p q = absurd (omega arith)
  enough_fuel (suc n) zero zero b p q = refl
  enough_fuel (suc n) zero (suc a) b p q = absurd (omega arith)
  enough_fuel (suc n) (suc m) zero b p q = refl
  enough_fuel (suc n) (suc m) (suc a) b p q =
      omega (arith, enough_fuel n m (suc a / 2) (b / 2) (omega arith) (omega arith))

pub bit_or_halves : (a b : ℕ) → bit_or a b ≡ 2 * bit_or (a / 2) (b / 2) + max (a % 2) (b % 2)
bit_or_halves zero b = omega (arith, bit_or-bitwise 0 b, bit_or-bitwise 0 (b / 2))
bit_or_halves (suc a) b = omega (
  arith,
  bit_or-bitwise (suc a) b,
  bit_or-bitwise (suc a / 2) (b / 2),
  enough_fuel (λ y. y) max a (suc a / 2) (suc a / 2) (b / 2) (omega arith) (omega arith),
)

pub bit_and_halves : (a b : ℕ) → bit_and a b ≡ 2 * bit_and (a / 2) (b / 2) + min (a % 2) (b % 2)
bit_and_halves zero b = omega (arith, bit_and-bitwise 0 b, bit_and-bitwise 0 (b / 2))
bit_and_halves (suc a) b = omega (
  arith,
  bit_and-bitwise (suc a) b,
  bit_and-bitwise (suc a / 2) (b / 2),
  enough_fuel (λ y. 0) min a (suc a / 2) (suc a / 2) (b / 2) (omega arith) (omega arith),
)

-- The digits of a disjunction and of a conjunction.
pub bit-bit_or : (k a b : ℕ) → bit k (bit_or a b) ≡ max (bit k a) (bit k b)
bit-bit_or zero a b = omega (arith, bit_or_halves a b)
bit-bit_or (suc k) a b =
    let half : bit_or a b / 2 ≡ bit_or (a / 2) (b / 2) = omega (arith, bit_or_halves a b) in
    rw half (bit-bit_or k (a / 2) (b / 2))

pub bit-bit_and : (k a b : ℕ) → bit k (bit_and a b) ≡ min (bit k a) (bit k b)
bit-bit_and zero a b = omega (arith, bit_and_halves a b)
bit-bit_and (suc k) a b =
    let half : bit_and a b / 2 ≡ bit_and (a / 2) (b / 2) = omega (arith, bit_and_halves a b) in
    rw half (bit-bit_and k (a / 2) (b / 2))

doubled : (q k : ℕ) → q * 2 ^ suc k ≡ 2 * (q * 2 ^ k)
doubled q k = omega (arith, ap (λ (t : ℕ). q * t) (pow-suc 2 k))

zero-bit_or : (b : ℕ) → bit_or 0 b ≡ b
zero-bit_or b = omega (arith, bit_or-bitwise 0 b)

zero-bit_and : (b : ℕ) → bit_and 0 b ≡ 0
zero-bit_and b = omega (arith, bit_and-bitwise 0 b)

bit_and-zero_upto : (n a : ℕ) → a ≤ n → bit_and a 0 ≡ 0
bit_and-zero_upto n zero h = refl
bit_and-zero_upto zero (suc a) h = absurd (omega arith)
bit_and-zero_upto (suc n) (suc a) h =
    omega (arith, bit_and_halves (suc a) 0, bit_and-zero_upto n (suc a / 2) (omega arith))

bit_and-zero : (a : ℕ) → bit_and a 0 ≡ 0
bit_and-zero a = bit_and-zero_upto a a (omega arith)

-- A field above `k` low bits joins them by addition.
pub bit_or-field : (k a m : ℕ) → a < 2 ^ k → bit_or a (m * 2 ^ k) ≡ a + m * 2 ^ k
bit_or-field zero a m h =
    let none_left : a ≡ 0 = omega arith in rw none_left (rw zero-bit_or (omega arith))
bit_or-field (suc k) a m h = ground (
  arith,
  bit_or_halves a (m * 2 ^ suc k),
  doubled m k,
  pow-suc 2 k,
  bit_or-field k (a / 2) m (omega (arith, pow-suc 2 k)),
)

bit_and-three_ones : (a : ℕ) → bit_and a 7 ≡ a % 8
bit_and-three_ones a = omega (
  arith,
  bit_and_halves a 7,
  bit_and_halves (a / 2) 3,
  bit_and_halves (a / 2 / 2) 1,
  bit_and-zero (a / 2 / 2 / 2),
)

-- The mask of the seven low bits takes the remainder.
pub bit_and-seven_ones : (a : ℕ) → bit_and a 0x7f ≡ a % 128
bit_and-seven_ones a = omega (
  arith,
  bit_and_halves a 127,
  bit_and_halves (a / 2) 63,
  bit_and_halves (a / 2 / 2) 31,
  bit_and_halves (a / 2 / 2 / 2) 15,
  bit_and-three_ones (a / 2 / 2 / 2 / 2),
)

-- A mask of one bit.
pub bit_and-power : (k w : ℕ) → bit_and w (2 ^ k) ≡ bit k w * 2 ^ k
bit_and-power zero w = omega (arith, bit_and_halves w 1, bit_and-zero (w / 2))
bit_and-power (suc k) w = ground (
  arith,
  bit_and_halves w (2 ^ suc k),
  pow-suc 2 k,
  bit_and-power k (w / 2),
  doubled (bit k (w / 2)) k,
)

pub bit-power_self : (k : ℕ) → bit k (2 ^ k) ≡ 1
bit-power_self zero = refl
bit-power_self (suc k) =
    let half : 2 ^ suc k / 2 ≡ 2 ^ k = omega (arith, pow-suc 2 k) in rw half (bit-power_self k)

pub bit-zero : (k : ℕ) → bit k 0 ≡ 0
bit-zero zero = refl
bit-zero (suc k) = bit-zero k

pub bit-power_ne : (j k : ℕ) → j ≢ k → bit j (2 ^ k) ≡ 0
bit-power_ne zero zero h = absurd (h refl)
bit-power_ne zero (suc k) h = omega (arith, pow-suc 2 k)
bit-power_ne (suc j) zero h = bit-zero j
bit-power_ne (suc j) (suc k) h =
    let half : 2 ^ suc k / 2 ≡ 2 ^ k = omega (arith, pow-suc 2 k) in
    rw half (bit-power_ne j k (λ e. h (ap suc e)))

-- The complement `!w` of a word of `n` bits.
pub bit-complement : (j n w : ℕ) → j < n → w < 2 ^ n → bit j (2 ^ n - 1 - w) ≡ 1 - bit j w
bit-complement j zero w h f = elim h [ ]
bit-complement zero (suc n) w h f = omega (arith, pow-suc 2 n)
bit-complement (suc j) (suc n) w h f =
    let half : (2 ^ suc n - 1 - w) / 2 ≡ 2 ^ n - 1 - w / 2 = omega (arith, pow-suc 2 n) in
    rw half (bit-complement j n (w / 2) (omega arith) (omega (arith, pow-suc 2 n)))

pub bit-le_one : (k w : ℕ) → bit k w ≤ 1
bit-le_one zero w = omega arith
bit-le_one (suc k) w = bit-le_one k (w / 2)

-- Words stay words.
pub bit_or-lt : (n a b : ℕ) → a < 2 ^ n → b < 2 ^ n → bit_or a b < 2 ^ n
bit_or-lt zero a b ha hb = let none_left : a ≡ 0 = omega arith in rw none_left (rw zero-bit_or hb)
bit_or-lt (suc n) a b ha hb = omega (
  arith,
  bit_or_halves a b,
  pow-suc 2 n,
  bit_or-lt n (a / 2) (b / 2) (omega (arith, pow-suc 2 n)) (omega (arith, pow-suc 2 n)),
)

pub bit_and-lt : (n a b : ℕ) → a < 2 ^ n → bit_and a b < 2 ^ n
bit_and-lt zero a b ha =
    let none_left : a ≡ 0 = omega arith in rw none_left (rw zero-bit_and (omega arith))
bit_and-lt (suc n) a b ha = omega (
  arith,
  bit_and_halves a b,
  pow-suc 2 n,
  bit_and-lt n (a / 2) (b / 2) (omega (arith, pow-suc 2 n)),
)

pub two-pow-pos : (k : ℕ) → 1 ≤ 2 ^ k
two-pow-pos zero = omega arith
two-pow-pos (suc k) = omega (arith, pow-suc 2 k, two-pow-pos k)

pub two-pow-lt : (k n : ℕ) → k < n → 2 ^ k < 2 ^ n
two-pow-lt k zero h = elim h [ ]
two-pow-lt zero (suc n) h = omega (arith, pow-suc 2 n, two-pow-pos n)
two-pow-lt (suc k) (suc n) h = omega (arith, pow-suc 2 n, pow-suc 2 k, two-pow-lt k n (omega arith))

pub bit-cases : (k w : ℕ) → (bit k w ≡ 0) ⊎ (bit k w ≡ 1)
bit-cases k w = ground (arith, bit-le_one k w)
