-- ===== src/Tests/Parsers.antt =====
-- The inspection engine of internal/dpiengine/composite.go on concrete payloads.
use meow_frp_server.Prelude.{
  ℕ, zero, suc, ◌+◌, none, [], ◌∷◌, ◌++◌, ◌≡◌, ◌≢◌, ◌≤◌, ◌<◌, refl, inr, arith, Bytes, codes,
  length, bytes_eq, has_prefix,
}
use meow_frp_server.Prelude.Table.{Table, lookup}
use meow_frp_server.Inspection.Engine.Bounds.{AllBounded, inspect_bounded}
use meow_frp_server.Inspection.Engine.Capacity.{flow_states_grow}
use meow_frp_server.Inspection.Engine.Reassembly.{feed_in_pieces}
use meow_frp_server.Inspection.Engine.{
  FlowState, new_state, feed_tls_client_hello, inspect, flow_key,
}
use meow_frp_server.Inspection.Http.Total.{parse_http_host_total}
use meow_frp_server.Inspection.Http.{
  parse_http_host, looks_like_http, host_lines, header_limit, index_of, scan, host_value_start,
  folds_to, equal_fold_byte, next_line, host_value,
}
use meow_frp_server.Inspection.Outcome.{byte_at, slice_of, returns, Returns, Completes, ◌>>=◌}
use meow_frp_server.Inspection.Tls.Encoding.{
  ClientHello, handshake, tls_record, hello_tail, server_name, extensions_onto,
}
use meow_frp_server.Inspection.Tls.RoundTrip.{parse-tls_record}
use meow_frp_server.Inspection.Tls.Total.{parse_tls_client_hello_sni_total}
use meow_frp_server.Inspection.Tls.{tls_records, parse_tls_client_hello_sni}
use meow_frp_server.Tests.Samples.{sample}

abbrev zeros : ℕ → Bytes
zeros zero = []
zeros (suc n) = 0 ∷ zeros n

abbrev hello : ClientHello
hello = record {
  random = 3 ∷ 3 ∷ zeros 32;
  session_id = [];
  ciphers = 0x13 ∷ 0x01 ∷ [];
  compression = 0 ∷ [];
  before = record { kind = 43; body = 2 ∷ 3 ∷ 4 ∷ [] } ∷ [];
  host = codes "a.io";
  after = [];
}

parse_http_host_total_example : Completes (parse_http_host (codes "GET / HTTP/1.1"))
parse_http_host_total_example = parse_http_host_total (codes "GET / HTTP/1.1")

parse_tls_client_hello_sni_total_example :
    Completes (parse_tls_client_hello_sni (0x16 ∷ 3 ∷ 1 ∷ 255 ∷ 255 ∷ []))
parse_tls_client_hello_sni_total_example =
    parse_tls_client_hello_sni_total (0x16 ∷ 3 ∷ 1 ∷ 255 ∷ 255 ∷ [])

kind_lem : ◌≢◌ {A = ℕ} 43 0
kind_lem e = omega (arith, e)

long_enough : length hello.random ≡ 34
long_enough = refl

named : 0 < length hello.host
named = omega arith

fits : length (handshake hello) ≤ 16384
unfolding handshake hello_tail server_name extensions_onto
fits = omega arith

parse-tls_record_example :
    parse_tls_client_hello_sni (tls_record 0x0303 hello ++ (1 ∷ 2 ∷ [])) ≡ returns (codes "a.io")
parse-tls_record_example =
    parse-tls_record 0x0303 hello (1 ∷ 2 ∷ []) long_enough named (kind_lem, tt) (omega arith) fits

inspect_bounded_example : Returns (λ r. AllBounded r.0) (inspect 9 sample [])
inspect_bounded_example = inspect_bounded 9 sample [] tt

seen_now : sample.observed_at ≢ 0
seen_now e = omega (arith, e)

something : codes "GET / HTTP/1.1" ≢ []
something e = cc

abbrev one_state : Table FlowState
one_state = ([], new_state) ∷ []

unknown : lookup (flow_key sample.flow sample.direction) one_state ≡ none
unfolding flow_key lookup bytes_eq
unknown = refl

flow_states_grow_example :
    Returns (λ r. length r.0 ≡ length one_state + 1) (inspect 9 sample one_state)
flow_states_grow_example =
    flow_states_grow 9 sample one_state seen_now something unknown (omega arith, tt)

abbrev first_piece : Bytes
first_piece = 0x16 ∷ 3 ∷ 3 ∷ []

piece_lem : first_piece ≢ []
piece_lem e = cc

piece_fits : length new_state.tls_buffer + (length first_piece + length first_piece) ≤ 8192
piece_fits = omega arith

names_none : parse_tls_client_hello_sni (new_state.tls_buffer ++ first_piece) ≡ returns []
unfolding parse_tls_client_hello_sni tls_records
names_none = refl

feed_in_pieces_example :
    (feed_tls_client_hello new_state first_piece >>= λ fed. feed_tls_client_hello fed.0 first_piece)
    ≡ feed_tls_client_hello new_state (first_piece ++ first_piece)
feed_in_pieces_example =
    feed_in_pieces new_state first_piece first_piece piece_lem piece_lem (inr refl) piece_fits
      names_none

-- The header name is read in any case and the port is dropped; a payload that begins with no method names no host.
hosts :
    (parse_http_host (codes "GET / HTTP/1.1\r\nA: b\r\nhOST: Example.com:80\r\n\r\n")
      ≡ returns (codes "Example.com"))
    × (parse_http_host (codes "SSH-2.0-OpenSSH") ≡ returns [])
unfolding parse_http_host looks_like_http has_prefix host_lines header_limit index_of scan byte_at
    host_value_start folds_to equal_fold_byte next_line host_value slice_of
hosts = (refl, refl)
