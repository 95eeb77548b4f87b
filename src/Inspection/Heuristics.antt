-- ===== src/Inspection/Heuristics.antt =====
-- The tests on single payloads of internal/dpiengine/composite.go. Averages and ratios are compared
-- as exact fractions: at the lengths of a payload, rounding to float64 moves none of these tests.
use meow_frp_server.Prelude.{
  ℕ, zero, suc, ◌+◌, ◌*◌, ◌/◌, ◌%◌, Bool, true, false, not, ◌&&◌, ◌||◌, [], ◌∷◌, Bytes, codes,
  has_prefix, ltb, leb, ◌==◌, length, if◌then◌else◌,
}
use meow_frp_server.Inspection.Http.{looks_like_http}
use meow_frp_server.Inspection.Outcome.{Outcome, returns, ◌>>=◌, byte_at, slice_of, uint32}
pub mod Total

-- `p && q` and `p || q` in code that may panic: `q` is run only if `p` leaves the result open.
abbrev pub and_then : Outcome Bool → Outcome Bool → Outcome Bool
and_then p q = p >>= λ b. elim b [ true ↦ q | false ↦ returns false ]

abbrev pub or_then : Outcome Bool → Outcome Bool → Outcome Bool
or_then p q = p >>= λ b. elim b [ true ↦ returns true | false ↦ q ]

-- `data[i] == v`
abbrev pub byte_is : Bytes → ℕ → ℕ → Outcome Bool
byte_is bytes i v = byte_at bytes i >>= λ b. returns (b == v)

abbrev pub negated : Outcome Bool → Outcome Bool
negated p = p >>= λ b. returns (not b)

-- `first&m != 0` for a mask of one bit `m`.
abbrev has_bit : ℕ → ℕ → Bool
has_bit first m = (first / m) % 2 == 1

-- `IsQUICInitial`
unfoldable pub is_quic_initial : Bytes → Outcome Bool
is_quic_initial bytes = elim (ltb (length bytes) 20) [
  | true ↦ returns false
  | false ↦ do
    first ← byte_at bytes 0
    elim (not (has_bit first 0x80) || not (has_bit first 0x40)) [
      | true ↦ returns false
      | false ↦ elim ((first / 16) % 4 == 0) [
        | false ↦ returns false
        | true ↦ do version ← slice_of bytes 1 5; returns (uint32 version == 0x00000001)
      ]
    ]
]

-- `bitsInByte`: the loop ends when no bit is left, after eight rounds at most.
unfoldable pub bits_from : ℕ → ℕ → ℕ
bits_from zero value = 0
bits_from (suc f) value = value % 2 + bits_from f (value / 2)

unfoldable pub bits_in_byte : ℕ → ℕ
unfolding bits_from
bits_in_byte b = bits_from 8 b

-- `total` of `calcAvgPopcount`
unfoldable pub total_popcount : Bytes → ℕ
unfolding bits_in_byte
total_popcount [] = 0
total_popcount (b ∷ bs) = bits_in_byte b + total_popcount bs

-- `count` of `calcPrintableRatio`
unfoldable pub printable_count : Bytes → ℕ
printable_count [] = 0
printable_count (b ∷ bs) = (if leb 0x20 b && leb b 0x7e then 1 else 0) + printable_count bs

unfoldable pub occurs : ℕ → Bytes → Bool
occurs v [] = false
occurs v (b ∷ bs) = b == v || occurs v bs

-- How many of the values below `n` the payload holds: the loop over `counter`.
unfoldable pub unique_below : ℕ → Bytes → ℕ
unfolding occurs
unique_below zero bytes = 0
unique_below (suc n) bytes = (if occurs n bytes then 1 else 0) + unique_below n bytes

-- `isUniformDistribution`
unfoldable pub is_uniform_distribution : Bytes → Bool
unfolding unique_below
is_uniform_distribution bytes =
    if ltb (length bytes) 20
    then false
    else let unique = unique_below 256 bytes in
      leb 15 unique && ltb (3 * length bytes) (10 * unique)

abbrev same_as : ℕ → ℕ → ℕ
same_as a b = if b == a then 1 else 0

-- `hasProtocolStructure`; `data[0]+1` is a byte and wraps.
unfoldable pub has_protocol_structure : Bytes → Outcome Bool
has_protocol_structure bytes = elim (ltb (length bytes) 4) [
  | true ↦ returns false
  | false ↦ do
    b0 ← byte_at bytes 0
    b1 ← byte_at bytes 1
    b2 ← byte_at bytes 2
    b3 ← byte_at bytes 3
    elim (leb 2 (same_as b0 b1 + same_as b0 b2 + same_as b0 b3)) [
      | true ↦ returns true
      | false ↦ returns (b1 == (b0 + 1) % 256 && b2 == (b1 + 1) % 256)
    ]
]

-- `isKnownProtocol`
unfoldable pub is_known_protocol : Bytes → Outcome Bool
is_known_protocol bytes = elim (ltb (length bytes) 5) [
  | true ↦ returns false
  | false ↦ or_then (returns (has_prefix bytes (codes "SSH-"))) (
      or_then
        (and_then (returns (leb 3 (length bytes)))
          (and_then (byte_is bytes 0 0x03) (byte_is bytes 1 0x00)))
        (or_then (returns (has_prefix bytes (0x4a ∷ 0x00 ∷ 0x00 ∷ 0x00 ∷ 0x0a ∷ []))) (
          or_then
            (and_then (returns (leb 8 (length bytes)))
              (and_then (byte_is bytes 0 0x12) (byte_is bytes 1 0x01)))
            (and_then (returns (leb 8 (length bytes)))
              (and_then (byte_is bytes 0 0x00) (byte_is bytes 4 0x00))))))
]

-- `looksLikeTLS`
unfoldable pub looks_like_tls : Bytes → Outcome Bool
looks_like_tls bytes = and_then (returns (leb 3 (length bytes))) (
    and_then (byte_at bytes 0 >>= λ b. returns (leb 0x14 b)) (
      and_then (byte_at bytes 0 >>= λ b. returns (leb b 0x17))
        (and_then (byte_is bytes 1 0x03) (byte_at bytes 2 >>= λ b. returns (leb b 0x04)))))

-- `isLikelyEncryptedTunnel`
unfoldable pub is_likely_encrypted_tunnel : Bytes → Outcome Bool
unfolding total_popcount printable_count is_uniform_distribution has_protocol_structure
    is_known_protocol
is_likely_encrypted_tunnel bytes =
    and_then
      (returns (
        leb (34 * length bytes) (10 * total_popcount bytes)
        && leb (10 * total_popcount bytes) (46 * length bytes)
        && leb (100 * printable_count bytes) (35 * length bytes)
        && is_uniform_distribution bytes))
      (and_then (negated (byte_is bytes 0 0x00))
        (and_then (negated (has_protocol_structure bytes)) (negated (is_known_protocol bytes))))

-- What `detectEncryptedTunnel` rules out before it judges the bytes.
unfoldable pub is_recognised : Bytes → Outcome Bool
unfolding looks_like_tls looks_like_http is_quic_initial is_known_protocol
is_recognised bytes = or_then (looks_like_tls bytes) (
    or_then (returns (looks_like_http bytes))
      (or_then (is_quic_initial bytes) (is_known_protocol bytes)))
