-- ===== src/Codec/Header/Complete.antt =====
-- What `packet_len` and `holds_complete_packet` say of a buffer, and of one that grows.
use uring_mqtt.Common.{
  ℕ, zero, suc, ◌+◌, ◌^◌, ◌≤◌, ◌<◌, ◌≡◌, ◌↔◌, ◌∙◌, true, some, List, [], ◌∷◌, ◌++◌, arith, length,
  length-append, take,
}
use uring_mqtt.Codec.Header.{
  varint_len, packet_len, fixed_header, header_loop, holds_complete_packet, with_group,
}
use uring_mqtt.Codec.Header.Width.{width, varint_len-width}
use uring_mqtt.Codec.Header.Varint.{varint, varint-IsVarint, value-varint, length-varint}
use uring_mqtt.Codec.Header.Scan.{fixed_header-varint}

width-le_four : (r : ℕ) → r ≤ 268435455 → width r ≤ 4
width-le_four r h = ground arith

pub varint-le_four : (r : ℕ) → r ≤ 268435455 → length (varint r) ≤ 4
varint-le_four r h = omega (arith, length-varint r (omega arith), width-le_four r h)

-- For every Remaining Length of at most 268435455, the fixed header with its standard encoding is
-- read back, whatever follows: the value, and 1 more than `varint_len` of it.
pub fixed_header-standard :
    (first r : ℕ) (rest : List ℕ)
    → r ≤ 268435455
    → fixed_header (first ∷ varint r ++ rest) ≡ some (1 + varint_len r, r)
fixed_header-standard first r rest h =
    let fits : r < 128 ^ 4 = omega arith in
    let wide : length (varint r) ≡ varint_len r =
      rw (varint_len-width r (omega arith)) (length-varint r fits) in
    fixed_header-varint first (varint r) rest (varint-IsVarint r fits) (varint-le_four r h)
    ∙ ground (arith, wide, value-varint r fits)

pub packet_len-standard :
    (first r : ℕ) (rest : List ℕ)
    → r ≤ 268435455
    → packet_len (first ∷ varint r ++ rest) ≡ some (1 + varint_len r + r)
unfolding packet_len
packet_len-standard first r rest h = rw (fixed_header-standard first r rest h, packet_len)

-- Behind a fixed header with the standard encoding of a Remaining Length of at most 268435455, a
-- buffer holds a complete packet exactly when at least that many bytes follow.
pub holds_complete_packet-standard :
    (first r : ℕ) (rest : List ℕ)
    → r ≤ 268435455
    → (holds_complete_packet (first ∷ varint r ++ rest) ≡ true) ↔ (r ≤ length rest)
unfolding holds_complete_packet
holds_complete_packet-standard first r rest h =
    rw (packet_len-standard first r rest h, holds_complete_packet)
      (ground (
        arith,
        length-append (varint r) rest,
        length-varint r (omega arith),
        varint_len-width r (omega arith),
      ))

header_loop-append :
    (n i acc : ℕ) (l more : List ℕ) (found : ℕ × ℕ)
    → header_loop i acc (take n l) ≡ some found
    → header_loop i acc (take n (l ++ more)) ≡ some found
unfolding header_loop
header_loop-append zero i acc l more found e = e
header_loop-append (suc n) i acc [] more found e = cc
header_loop-append (suc n) i acc (b ∷ l) more found e =
    ground (arith, header_loop-append n (i + 1) (with_group i acc b) l more found)

-- A header that is read off a buffer is read off it unchanged when more bytes have arrived.
pub fixed_header-append :
    (src more : List ℕ) (found : ℕ × ℕ)
    → fixed_header src ≡ some found
    → fixed_header (src ++ more) ≡ some found
unfolding fixed_header
fixed_header-append [] more found e = unfold header_loop in cc
fixed_header-append (first ∷ src) more found e = header_loop-append 4 0 0 src more found e
