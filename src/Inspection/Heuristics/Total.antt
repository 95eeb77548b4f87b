-- ===== src/Inspection/Heuristics/Total.antt =====
-- The indices and slices of the tests on single payloads.
use meow_frp_server.Prelude.{ℕ, ◌≤◌, ◌<◌, Bool, true, false, arith, Bytes, length}
use meow_frp_server.Inspection.Outcome.{
  Outcome, returns, panics, out_of_fuel, byte_at, slice_of, Completes,
}
use meow_frp_server.Inspection.Heuristics.{
  is_quic_initial, has_protocol_structure, is_known_protocol, looks_like_tls,
  is_likely_encrypted_tunnel, is_recognised, and_then, negated, byte_is,
}

pub is_quic_initial_total : (bytes : Bytes) → Completes (is_quic_initial bytes)
unfolding is_quic_initial byte_at slice_of
is_quic_initial_total bytes = ground arith

has_protocol_structure_total : (bytes : Bytes) → Completes (has_protocol_structure bytes)
unfolding has_protocol_structure byte_at
has_protocol_structure_total bytes = ground arith

is_known_protocol_total : (bytes : Bytes) → Completes (is_known_protocol bytes)
unfolding is_known_protocol byte_at
is_known_protocol_total bytes = ground arith

looks_like_tls_total : (bytes : Bytes) → Completes (looks_like_tls bytes)
unfolding looks_like_tls byte_at
looks_like_tls_total bytes = ground arith

Completes-and_then : (p q : Outcome Bool) → Completes p → Completes q → Completes (and_then p q)
Completes-and_then (returns true) q h k = k
Completes-and_then (returns false) q h k = tt
Completes-and_then panics q h k = h
Completes-and_then out_of_fuel q h k = h

Completes-negated : (p : Outcome Bool) → Completes p → Completes (negated p)
Completes-negated (returns b) h = tt
Completes-negated panics h = h
Completes-negated out_of_fuel h = h

byte_is_total : (bytes : Bytes) (i v : ℕ) → i < length bytes → Completes (byte_is bytes i v)
unfolding byte_at
byte_is_total bytes i v h = ground (arith, h)

pub is_likely_encrypted_tunnel_total :
    (bytes : Bytes) → 20 ≤ length bytes → Completes (is_likely_encrypted_tunnel bytes)
unfolding is_likely_encrypted_tunnel
is_likely_encrypted_tunnel_total bytes h = Completes-and_then (returns _) _ tt (
    Completes-and_then (negated (byte_is bytes 0 0x00)) _
      (Completes-negated (byte_is bytes 0 0x00) (byte_is_total bytes 0 0x00 (omega arith)))
      (Completes-and_then (negated (has_protocol_structure bytes))
        (negated (is_known_protocol bytes))
        (Completes-negated (has_protocol_structure bytes) (has_protocol_structure_total bytes))
        (Completes-negated (is_known_protocol bytes) (is_known_protocol_total bytes))))

pub is_recognised_total : (bytes : Bytes) → Completes (is_recognised bytes)
unfolding is_recognised
is_recognised_total bytes =
    ground (
      arith,
      looks_like_tls_total bytes,
      is_quic_initial_total bytes,
      is_known_protocol_total bytes,
    )
