-- ===== src/Handshake/Deadline.antt =====
-- The idle deadline that a client gets for its keep-alive.
use uring_mqtt.Common.{
  ℕ, ◌+◌, ◌*◌, ◌≤◌, ◌<◌, Option, none, some, leb, ◌==◌, ◌≡◌, ◌⊎◌, inl, inr, Bool-cases, refl, arith,
}
use uring_mqtt.Handshake.{negotiate, grace, announced, clamp, from_secs}

-- What the client is to keep to: the value that the CONNACK announces, and else its own.
abbrev pub effective : ℕ → Option ℕ → ℕ
effective keep_alive none = keep_alive
effective keep_alive (some announced) = announced

-- A keep-alive `e` with its deadline `idle`, for a client that asks for `ask` under `cap`
-- milliseconds: 0 gets the cap. Another gets one and a half times `e`, which is between 1 and `ask`, is the
-- largest one that fits the cap, and fits it or is 1.
abbrev pub Deadline : (ask e idle cap : ℕ) → Type 0
Deadline ask e idle cap =
    ((ask ≡ 0) × (e ≡ 0) × (idle ≡ cap))
    ⊎ ((1 ≤ e)
        × (e ≤ ask)
        × (idle ≡ e * 1500)
        × ((e ≡ 1) ⊎ (idle ≤ cap))
        × ((e ≡ ask) ⊎ (cap < (e + 1) * 1500)))

pub grace_lem : (k : ℕ) → k ≤ 65535 → grace k ≡ k * 1500
unfolding grace
grace_lem k le = omega arith

announced_lem :
    (cfg : ℕ)
    → cfg ≤ 31536000
    → (1 ≤ announced cfg)
      × (announced cfg ≤ 65535)
      × ((announced cfg ≡ 1) ⊎ (announced cfg * 3 ≤ cfg * 2))
      × ((announced cfg ≡ 65535) ⊎ (cfg * 2 < (announced cfg + 1) * 3))
unfolding announced clamp
announced_lem cfg le = ground arith

-- For a keep-alive that fits 16 bits and a timeout of at most a year, the negotiated keep-alive
-- is the announced one, or else the client's. Keep-alive 0 gets the configured timeout as its
-- deadline. For any other, the negotiated one is between 1 and the client's, its deadline is one
-- and a half times it, which is within the timeout unless the negotiated one is 1, and it is the
-- client's or the next longer one would not fit the timeout.
pub negotiate_lem :
    (ask cfg : ℕ)
    → ask ≤ 65535
    → cfg ≤ 31536000
    → ((negotiate ask cfg).negotiated ≡ effective ask (negotiate ask cfg).announce)
      × Deadline ask (negotiate ask cfg).negotiated (negotiate ask cfg).idle (cfg * 1000)
unfolding negotiate
negotiate_lem ask cfg u16 cap =
    let g = grace_lem ask u16 in
    let (one, top, fits, largest) = announced_lem cfg cap in
    let h = grace_lem (announced cfg) top in
    elim (Bool-cases (ask == 0)) [
      | inl no_limit ↦ rw no_limit (ground arith)
      | inr limit ↦ elim (Bool-cases (leb (grace ask) (from_secs cfg))) [
        | inl within ↦
            rw (limit, within)
              (refl, inr (ground arith, ground arith, g, inr (ground arith), inl refl))
        | inr beyond ↦
            rw (limit, beyond) (refl, inr (one, ground arith, h, ground arith, ground arith))
      ]
    ]
