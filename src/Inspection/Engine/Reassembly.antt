-- ===== src/Inspection/Engine/Reassembly.antt =====
-- A ClientHello that arrives in pieces.
use mathlib.Core.List.{append_assoc}
use meow_frp_server.Prelude.{
  ◌+◌, ◌≤◌, ◌<◌, ◌≡◌, ◌≢◌, refl, sym, ap, ◌∙◌, ◌⊎◌, inl, true, false, [], ◌∷◌, ◌++◌, arith, Bytes,
  ltb, length, length-append, get_or,
}
use meow_frp_server.Inspection.Outcome.{Outcome, returns, ◌>>=◌, byte_at}
use meow_frp_server.Inspection.Tls.{parse_tls_client_hello_sni}
use meow_frp_server.Inspection.Engine.{FlowState, max_inspect_bytes, feed_tls_client_hello}

-- A handshake record goes on, or begins with the first byte of `bytes`.
abbrev pub IsHandshake : FlowState → Bytes → Type 0
IsHandshake s bytes = (0 < length s.tls_buffer) ⊎ (get_or bytes 0 0 ≡ 0x16)

-- What becomes of a flow that holds `buffer`.
abbrev judge : FlowState → Bytes → Outcome (FlowState × Bytes)
judge s buffer = do
  sni ← parse_tls_client_hello_sni buffer
  elim (ltb 0 (length sni)) [
    | true ↦ returns (record s { tls_buffer = [] }, sni)
    | false ↦ returns (record s { tls_buffer = buffer }, [])
  ]

-- What is fed to a flow is judged with all that the flow holds.
feed_step :
    (s : FlowState) (bytes : Bytes)
    → 0 < length bytes
    → IsHandshake s bytes
    → length s.tls_buffer + length bytes ≤ max_inspect_bytes
    → feed_tls_client_hello s bytes ≡ judge s (s.tls_buffer ++ bytes)
unfolding feed_tls_client_hello byte_at
feed_step s bytes n h m = ground arith

-- A server name split over two payloads is found as if both had come in one, provided that neither
-- is empty, the first begins a handshake record or continues one, it alone names none, and the whole
-- fits the buffer.
pub feed_in_pieces :
    (s : FlowState) (p q : Bytes)
    → p ≢ []
    → q ≢ []
    → IsHandshake s p
    → length s.tls_buffer + (length p + length q) ≤ max_inspect_bytes
    → parse_tls_client_hello_sni (s.tls_buffer ++ p) ≡ returns []
    → (feed_tls_client_hello s p >>= λ fed. feed_tls_client_hello fed.0 q)
      ≡ feed_tls_client_hello s (p ++ q)
feed_in_pieces s [] q n k h m e = absurd (n refl)
feed_in_pieces s (b ∷ p) [] n k h m e = absurd (k refl)
feed_in_pieces s (b ∷ p) (c ∷ q) n k h m e =
    let first = feed_step s (b ∷ p) (omega arith) h (omega arith) in
    let held = record s { tls_buffer = s.tls_buffer ++ (b ∷ p) } in
    let longer = length-append s.tls_buffer (b ∷ p) in
    let both = length-append (b ∷ p) (c ∷ q) in
    let second =
      feed_step held (c ∷ q) (omega arith) (inl (omega (arith, longer))) (omega (arith, longer)) in
    let whole = feed_step s (b ∷ (p ++ c ∷ q)) (omega arith) h (omega (arith, both)) in
    let joined = ap (judge s) (append_assoc s.tls_buffer (b ∷ p) (c ∷ q)) in
    rw first (rw e (rw second (joined ∙ sym whole)))
