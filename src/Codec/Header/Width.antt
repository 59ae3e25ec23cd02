-- ===== src/Codec/Header/Width.antt =====
-- The width that `varint_len` computes, by the thresholds of MQTT table 2.4.
use mathlib.Core.WellFounded.{Acc}
use uring_mqtt.Common.{ℕ, zero, suc, ◌+◌, ◌/◌, ◌^◌, ◌<◌, ◌≡◌, ◌∙◌, arith, ltb, if◌then◌else◌}
use uring_mqtt.Common.Order.{lt_wf}
use uring_mqtt.Codec.Header.{len_loop, varint_len}

-- The varint bytes that a value below `128 ^ 5` takes.
abbrev pub width : ℕ → ℕ
width r =
    if ltb r 128
    then 1
    else if ltb r 16384
    then 2
    else if ltb r 2097152
    then 3
    else if ltb r 268435456
    then 4
    else 5

-- The groups of seven bits above zero, for a value below `128 ^ k`.
groups : ℕ → ℕ → ℕ
groups zero rest = 0
groups (suc k) rest = if ltb 0 rest then groups k (rest / 128) + 1 else 0

len_loop-groups :
    (k rest len : ℕ) (w : Acc ◌<◌ rest) → rest < 128 ^ k → len_loop rest len w ≡ len + groups k rest
unfolding len_loop groups
len_loop-groups zero rest len (Acc.intro _ smaller) h = ground arith
len_loop-groups (suc k) rest len (Acc.intro _ smaller) h =
    grind (
      arith,
      λ (w : Acc ◌<◌ (rest / 128)). len_loop-groups k (rest / 128) (len + 1) w (omega arith),
    )

groups-width : (r : ℕ) → r < 2 ^ 32 → 1 + groups 4 (r / 128) ≡ width r
unfolding groups
groups-width r h = ground arith

-- On every u32 `varint_len` is the width by the thresholds of the standard's table, 5 from 2^28
-- on.
pub varint_len-width : (r : ℕ) → r < 2 ^ 32 → varint_len r ≡ width r
unfolding varint_len
varint_len-width r h =
    len_loop-groups 4 (r / 128) 1 (lt_wf.apply (r / 128)) (omega arith) ∙ groups-width r h
