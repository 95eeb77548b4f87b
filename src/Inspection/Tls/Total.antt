-- ===== src/Inspection/Tls/Total.antt =====
-- The indices, slices and loops of `parseTLSClientHelloSNI`.
use meow_frp_server.Prelude.{
  ℕ, zero, suc, ◌+◌, ◌-◌, ◌≤◌, ◌<◌, ◌≡◌, inl, inr, arith, Bytes, ltb, length, get_or, slice,
  Bool-cases,
}
use meow_frp_server.Inspection.Outcome.{returns, Completes, byte_at-lt, slice_of-le, uint16}
use meow_frp_server.Inspection.Tls.{
  uint16_at, clamp, parse_sni_extension, extensions, after_compression, after_ciphers,
  after_session_id, after_random, parse_client_hello_record, tls_records,
  parse_tls_client_hello_sni,
}

pub uint16_at-le :
    (bytes : Bytes) (at : ℕ)
    → at + 2 ≤ length bytes
    → uint16_at bytes at ≡ returns (uint16 (slice bytes at (at + 2)))
unfolding uint16_at
uint16_at-le bytes at h = ground (arith, slice_of-le bytes at (at + 2))

pub parse_sni_extension_total : (bytes : Bytes) → Completes (parse_sni_extension bytes)
unfolding parse_sni_extension
parse_sni_extension_total bytes = elim (Bool-cases (ltb (length bytes) 5)) [
  | inl short ↦ rw (short, parse_sni_extension) tt
  | inr long ↦
      let list_len = uint16 (slice bytes 0 2) in
      let name_len = uint16 (slice bytes 3 5) in
      ground (
        arith,
        uint16_at-le bytes 0,
        byte_at-lt bytes 2,
        uint16_at-le bytes 3,
        slice_of-le bytes 5 (5 + name_len),
      )
]

extensions_total :
    (f : ℕ) (r : Bytes) (end pos : ℕ)
    → end ≤ length r
    → end - pos < f
    → Completes (extensions f r end pos)
unfolding extensions
extensions_total zero r end pos h m = absurd (omega arith)
extensions_total (suc f) r end pos h m =
    let ext_len = uint16 (slice r (pos + 2) (pos + 2 + 2)) in
    ground (
      arith,
      uint16_at-le r pos,
      uint16_at-le r (pos + 2),
      slice_of-le r (pos + 4) (pos + 4 + ext_len),
      parse_sni_extension_total (slice r (pos + 4) (pos + 4 + ext_len)),
      extensions_total f r end (pos + 4 + ext_len),
    )

after_compression_total : (r : Bytes) (pos : ℕ) → Completes (after_compression r pos)
unfolding after_compression
after_compression_total r pos =
    let end = clamp (pos + 2 + uint16 (slice r pos (pos + 2))) (length r) in
    ground (arith, uint16_at-le r pos, extensions_total (suc (length r)) r end (pos + 2))

after_ciphers_total : (r : Bytes) (pos : ℕ) → Completes (after_ciphers r pos)
unfolding after_ciphers
after_ciphers_total r pos =
    ground (arith, byte_at-lt r pos, after_compression_total r (pos + (1 + get_or r pos 0)))

after_session_id_total : (r : Bytes) (pos : ℕ) → Completes (after_session_id r pos)
unfolding after_session_id
after_session_id_total r pos =
    ground (
      arith,
      uint16_at-le r pos,
      after_ciphers_total r (pos + (2 + uint16 (slice r pos (pos + 2)))),
    )

after_random_total : (r : Bytes) (pos : ℕ) → Completes (after_random r pos)
unfolding after_random
after_random_total r pos =
    ground (arith, byte_at-lt r pos, after_session_id_total r (pos + (1 + get_or r pos 0)))

pub parse_client_hello_record_total : (r : Bytes) → Completes (parse_client_hello_record r)
unfolding parse_client_hello_record
parse_client_hello_record_total r =
    ground (
      arith,
      byte_at-lt r 0,
      byte_at-lt r 1,
      byte_at-lt r 2,
      byte_at-lt r 3,
      after_random_total r 38,
    )

tls_records_total :
    (f : ℕ) (b : Bytes) (offset : ℕ) → length b - offset < f → Completes (tls_records f b offset)
unfolding tls_records
tls_records_total zero b offset m = absurd (omega arith)
tls_records_total (suc f) b offset m =
    let record_len = uint16 (slice b (offset + 3) (offset + 3 + 2)) in
    let body = slice b (offset + 5) (offset + 5 + record_len) in
    ground (
      arith,
      byte_at-lt b offset,
      uint16_at-le b (offset + 1),
      uint16_at-le b (offset + 3),
      slice_of-le b (offset + 5) (offset + 5 + record_len),
      parse_client_hello_record_total body,
      tls_records_total f b (offset + 1),
      tls_records_total f b (offset + (5 + record_len)),
    )

-- Whatever the buffer, `parseTLSClientHelloSNI` returns: no index or slice is out of range and
-- every loop ends.
pub parse_tls_client_hello_sni_total :
    (buffer : Bytes) → Completes (parse_tls_client_hello_sni buffer)
unfolding parse_tls_client_hello_sni
parse_tls_client_hello_sni_total buffer =
    tls_records_total (suc (length buffer)) buffer 0 (omega arith)
