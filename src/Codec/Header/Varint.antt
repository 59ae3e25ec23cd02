-- ===== src/Codec/Header/Varint.antt =====
-- The Remaining Length encoding of MQTT 3.1.1 and 5.0, stated on its own: groups of seven bits,
-- lowest first, with 128 added to every byte but the last.
use uring_mqtt.Common.{
  ℕ, zero, suc, ◌+◌, ◌*◌, ◌/◌, ◌%◌, ◌^◌, ◌≤◌, ◌<◌, ◌≡◌, List, [], ◌∷◌, arith, ltb, if◌then◌else◌,
  length, Bool-cases, inl, inr,
}
use uring_mqtt.Codec.Header.Width.{width}

-- The standard's encoding algorithm, for a value that takes at most `suc k` bytes.
unfoldable pub groups_of : ℕ → ℕ → List ℕ
groups_of zero r = r ∷ []
groups_of (suc k) r =
    let rest = groups_of k (r / 128) in if ltb r 128 then r ∷ [] else (r % 128 + 128) ∷ rest

unfoldable pub varint : ℕ → List ℕ
unfolding groups_of
varint r = groups_of 3 r

-- The value of a list of groups.
unfoldable pub value : List ℕ → ℕ
value [] = 0
value (b ∷ bs) = b % 128 + 128 * value bs

-- Every byte but the last has its top bit set.
abbrev pub IsVarint : List ℕ → Type 0
IsVarint [] = ⊥
IsVarint (b ∷ []) = b < 128
IsVarint (b ∷ c ∷ bs) = (128 ≤ b) × (b < 256) × IsVarint (c ∷ bs)

-- A byte with its top bit set goes in front of any encoding.
abbrev Extends : List ℕ → Type 0
Extends l = (b : ℕ) → 128 ≤ b → b < 256 → IsVarint (b ∷ l)

extends : (l : List ℕ) → IsVarint l → Extends l
extends [] v b h h' = absurd v
extends (c ∷ l) v b h h' = (h, h', v)

groups_of-IsVarint : (k r : ℕ) → r < 128 ^ suc k → IsVarint (groups_of k r)
unfolding groups_of
groups_of-IsVarint zero r h = omega arith
groups_of-IsVarint (suc k) r h = elim (Bool-cases (ltb r 128)) [
  | inl small ↦ rw small (ground arith)
  | inr large ↦ rw large (
      extends (groups_of k (r / 128)) (groups_of-IsVarint k (r / 128) (omega arith)) (r % 128 + 128)
        (omega arith) (omega arith))
]

groups_of-value : (k r : ℕ) → r < 128 ^ suc k → value (groups_of k r) ≡ r
unfolding groups_of value
groups_of-value zero r h = omega arith
groups_of-value (suc k) r h = ground (arith, groups_of-value k (r / 128) (omega arith))

pub varint-IsVarint : (r : ℕ) → r < 128 ^ 4 → IsVarint (varint r)
unfolding varint
varint-IsVarint r h = groups_of-IsVarint 3 r h

pub value-varint : (r : ℕ) → r < 128 ^ 4 → value (varint r) ≡ r
unfolding varint
value-varint r h = groups_of-value 3 r h

pub length-varint : (r : ℕ) → r < 128 ^ 4 → length (varint r) ≡ width r
unfolding varint
length-varint r h = ground arith
