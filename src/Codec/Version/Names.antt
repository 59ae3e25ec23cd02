-- ===== src/Codec/Version/Names.antt =====
-- When a refused CONNECT names a protocol that the server knows.
use uring_mqtt.Common.{
  take-append, drop-append, ℕ, ◌+◌, ◌*◌, ◌-◌, ◌≤◌, ◌<◌, ◌≡◌, ◌≢◌, ◌↔◌, ◌⊎◌, sym, subst, true, false,
  some, List, [], ◌∷◌, ◌++◌, length, length-append, arith,
}
use mathlib.Core.List.{append_assoc}
use uring_mqtt.Codec.Header.{varint_len, rejects_malformed_fixed_header}
use uring_mqtt.Codec.Header.Varint.{varint, varint-IsVarint, value-varint, length-varint}
use uring_mqtt.Codec.Header.Width.{varint_len-width}
use uring_mqtt.Codec.Header.Complete.{fixed_header-standard, varint-le_four}
use uring_mqtt.Codec.Header.Minimal.{rejects_malformed_fixed_header_iff}
use uring_mqtt.Codec.Version.{
  slice, eq_bytes, is_known, names_at, names_a_known_protocol, protocol_name_mqtt,
  protocol_name_mqisdp,
}

-- A slice of what stands in the middle.
slice-middle :
    (pre mid post : List ℕ) (from to : ℕ)
    → from ≡ length pre
    → to ≡ length pre + length mid
    → slice (pre ++ (mid ++ post)) from to ≡ some mid
slice-middle pre mid post from to ef et =
    let width : length pre + length mid - length pre ≡ length mid = omega arith in
    rw (ef, et, drop-append pre (mid ++ post), width, take-append mid post)
      (ground (arith, length-append pre (mid ++ post), length-append mid post))

eq_bytes_iff : (xs ys : List ℕ) → (eq_bytes xs ys ≡ true) ↔ (xs ≡ ys)
unfolding eq_bytes
eq_bytes_iff [] [] = ground arith
eq_bytes_iff [] (y ∷ ys) = ground arith
eq_bytes_iff (x ∷ xs) [] = ground arith
eq_bytes_iff (x ∷ xs) (y ∷ ys) = ground (arith, eq_bytes_iff xs ys)

module _ (first r hi lo : ℕ) (name rest : List ℕ) (other : first ≢ 0xc0) (small : r ≤ 268435455)
    (counted : length name ≡ hi * 256 + lo) where
  -- A first packet in the standard's framing, with a text behind its length prefix.
  abbrev packet : List ℕ
  packet = first ∷ varint r ++ (hi ∷ lo ∷ (name ++ rest))

  well_formed : rejects_malformed_fixed_header packet ≡ false
  well_formed = ground (
    arith,
    rejects_malformed_fixed_header_iff first (varint r) (hi ∷ lo ∷ (name ++ rest))
        (varint-IsVarint r (omega arith)) (varint-le_four r small),
    value-varint r (omega arith),
  )

  header_len : length (first ∷ varint r) ≡ 1 + varint_len r
  header_len = omega (arith, length-varint r (omega arith), varint_len-width r (omega arith))

  length_prefix : slice packet (1 + varint_len r) (1 + varint_len r + 2) ≡ some (hi ∷ lo ∷ [])
  length_prefix =
      slice-middle (first ∷ varint r) (hi ∷ lo ∷ []) (name ++ rest) _ _ (sym header_len)
        (omega (arith, header_len))

  named : slice packet (1 + varint_len r + 2) (1 + varint_len r + 2 + (hi * 256 + lo)) ≡ some name
  named =
      let whole = length-append (first ∷ varint r) (hi ∷ lo ∷ []) in
      subst
        (λ l. slice l (1 + varint_len r + 2) (1 + varint_len r + 2 + (hi * 256 + lo)) ≡ some name)
        (append_assoc (first ∷ varint r) (hi ∷ lo ∷ []) (name ++ rest))
        (slice-middle (first ∷ varint r ++ (hi ∷ lo ∷ [])) name rest (1 + varint_len r + 2)
          (1 + varint_len r + 2 + (hi * 256 + lo)) (omega (arith, header_len, whole))
          (omega (arith, header_len, whole)))

  -- Take a packet whose first byte is not that of PINGREQ, with a Remaining Length of at most
  -- 268435455 in the standard's encoding, then a length prefix of two bytes and a text of that
  -- length. It names a known protocol exactly when the text is MQTT or MQIsdp and the byte behind
  -- the text lies inside the declared frame.
  pub names_a_known_protocol_iff :
      (names_a_known_protocol packet ≡ true)
      ↔ ((2 + length name < r) × ((name ≡ protocol_name_mqtt) ⊎ (name ≡ protocol_name_mqisdp)))
  unfolding names_a_known_protocol
  names_a_known_protocol_iff =
      rw
        (
          fixed_header-standard first r (hi ∷ lo ∷ (name ++ rest)) small,
          well_formed,
          length_prefix,
          named,
          names_a_known_protocol,
          names_at,
          is_known,
        )
        (ground
          (arith, eq_bytes_iff name protocol_name_mqtt, eq_bytes_iff name protocol_name_mqisdp))
