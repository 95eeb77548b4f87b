-- ===== src/Inspection/Tls/RoundTrip.antt =====
-- The parser on a ClientHello in one record.
use mathlib.Core.List.{append-nil}
use meow_frp_server.Prelude.{
  ℕ, zero, suc, ◌+◌, ◌-◌, ◌/◌, ◌%◌, ◌≤◌, ◌<◌, ◌≡◌, refl, List, [], ◌∷◌, ◌++◌, arith, Bytes, length,
  length-append,
}
use meow_frp_server.Inspection.Outcome.{returns}
use meow_frp_server.Inspection.Tls.{
  parse_sni_extension, extensions, after_compression, after_ciphers, after_session_id, after_random,
  parse_client_hello_record, tls_records, parse_tls_client_hello_sni,
}
use meow_frp_server.Inspection.Tls.Cursor.{
  IsAt, IsAt-start, IsAt-skip, byte_at-IsAt, slice_of-IsAt, uint16_at-IsAt,
}
use meow_frp_server.Inspection.Tls.Encoding.{
  be16, be24, server_name, Extension, extension_onto, extensions_onto, ClientHello, extension_block,
  hello_tail, handshake, tls_record, NoServerName,
}

length-server_name : (host : Bytes) → length (server_name host) ≡ 5 + length host
unfolding server_name
length-server_name host = omega arith

parse_sni_at :
    (b host : Bytes)
    → 0 < length host
    → length b ≡ 5 + length host
    → IsAt b 0 (be16 (3 + length host) ++ (0 ∷ (be16 (length host) ++ (host ++ []))))
    → parse_sni_extension b ≡ returns host
unfolding parse_sni_extension
parse_sni_at b host h size a =
    let kind = IsAt-skip b 0 2 (be16 (3 + length host)) _ refl a in
    let len = IsAt-skip b 2 3 (0 ∷ []) (be16 (length host) ++ (host ++ [])) refl kind in
    let name = IsAt-skip b 3 5 (be16 (length host)) (host ++ []) refl len in
    ground (
      arith,
      size,
      uint16_at-IsAt b 0 (3 + length host) _ a,
      byte_at-IsAt b 2 0 _ kind,
      uint16_at-IsAt b 3 (length host) _ len,
      slice_of-IsAt b 5 host [] name,
    )

parse_server_name :
    (host : Bytes) → 0 < length host → parse_sni_extension (server_name host) ≡ returns host
unfolding server_name
parse_server_name host h =
    parse_sni_at (server_name host) host h (length-server_name host)
      (rw append-nil (IsAt-start (server_name host)))

-- The loop passes every extension of another kind, and reads the server name.
extensions_find :
    (f : ℕ) (r : Bytes) (pos : ℕ) (es : List Extension) (host after : Bytes)
    → 0 < length host
    → NoServerName es
    → IsAt r pos (extensions_onto es (extension_onto 0 (server_name host) after))
    → length r - pos < f
    → extensions f r (length r) pos ≡ returns host
unfolding extensions extensions_onto
extensions_find zero r pos es host after h n a m = absurd (omega arith)
extensions_find (suc f) r pos [] host after h n a m =
    let body = server_name host in
    let len = IsAt-skip r pos (pos + 2) (be16 0) _ refl a in
    let at_body =
      IsAt-skip r (pos + 2) (pos + 4) (be16 (length body)) (body ++ after) (omega arith) len in
    ground (
      arith,
      a.size,
      length-append body after,
      uint16_at-IsAt r pos 0 _ a,
      uint16_at-IsAt r (pos + 2) (length body) _ len,
      slice_of-IsAt r (pos + 4) body after at_body,
      parse_server_name host h,
    )
extensions_find (suc f) r pos (e ∷ es) host after h n a m =
    let rest = extensions_onto es (extension_onto 0 (server_name host) after) in
    let len = IsAt-skip r pos (pos + 2) (be16 e.kind) _ refl a in
    let at_body =
      IsAt-skip r (pos + 2) (pos + 4) (be16 (length e.body)) (e.body ++ rest) (omega arith) len in
    let next = IsAt-skip r (pos + 4) (pos + 4 + length e.body) e.body rest refl at_body in
    ground (
      arith,
      a.size,
      length-append e.body rest,
      uint16_at-IsAt r pos e.kind _ a,
      uint16_at-IsAt r (pos + 2) (length e.body) _ len,
      extensions_find f r (pos + 4 + length e.body) es host after h n.1 next,
    )

compression_find :
    (r : Bytes) (pos : ℕ) (h : ClientHello)
    → 0 < length h.host
    → NoServerName h.before
    → IsAt r pos (be16 (length (extension_block h)) ++ extension_block h)
    → after_compression r pos ≡ returns h.host
unfolding after_compression
compression_find r pos h n k a =
    let block = IsAt-skip r pos (pos + 2) (be16 (length (extension_block h))) _ refl a in
    let ends : pos + 2 + length (extension_block h) ≡ length r = block.size in
    ground (
      arith,
      ends,
      uint16_at-IsAt r pos (length (extension_block h)) _ a,
      extensions_find (suc (length r)) r (pos + 2) h.before h.host h.after n k block,
    )

hello_tail_find :
    (r : Bytes) (h : ClientHello)
    → 0 < length h.host
    → NoServerName h.before
    → IsAt r 38 (hello_tail h)
    → after_random r 38 ≡ returns h.host
unfolding after_random after_session_id after_ciphers hello_tail
hello_tail_find r h n k a =
    let sid = length h.session_id in
    let cs = length h.ciphers in
    let comp = length h.compression in
    let id = IsAt-skip r 38 39 (sid ∷ []) _ refl a in
    let at_cs = IsAt-skip r 39 (38 + (1 + sid)) h.session_id _ (omega arith) id in
    let suites = IsAt-skip r (38 + (1 + sid)) (38 + (1 + sid) + 2) (be16 cs) _ refl at_cs in
    let at_comp = IsAt-skip r _ (38 + (1 + sid) + (2 + cs)) h.ciphers _ (omega arith) suites in
    let methods = IsAt-skip r _ (38 + (1 + sid) + (2 + cs) + 1) (comp ∷ []) _ refl at_comp in
    let at_ext =
      IsAt-skip r _ (38 + (1 + sid) + (2 + cs) + (1 + comp)) h.compression _ (omega arith)
        methods in
    ground (
      arith,
      a.size,
      at_cs.size,
      at_comp.size,
      byte_at-IsAt r 38 sid _ a,
      uint16_at-IsAt r (38 + (1 + sid)) cs _ at_cs,
      byte_at-IsAt r (38 + (1 + sid) + (2 + cs)) comp _ at_comp,
      compression_find r (38 + (1 + sid) + (2 + cs) + (1 + comp)) h n k at_ext,
    )

handshake_at :
    (r : Bytes) (h : ClientHello)
    → length h.random ≡ 34
    → 0 < length h.host
    → NoServerName h.before
    → IsAt r 0 (0x01 ∷ (be24 (length (h.random ++ hello_tail h)) ++ (h.random ++ hello_tail h)))
    → parse_client_hello_record r ≡ returns h.host
unfolding parse_client_hello_record
handshake_at r h e n k a =
    let len = length (h.random ++ hello_tail h) in
    let s1 = IsAt-skip r 0 1 (0x01 ∷ []) _ refl a in
    let s2 = IsAt-skip r 1 2 (len / 65536 ∷ []) _ refl s1 in
    let s3 = IsAt-skip r 2 3 ((len / 256) % 256 ∷ []) _ refl s2 in
    let s4 = IsAt-skip r 3 4 (len % 256 ∷ []) (h.random ++ hello_tail h) refl s3 in
    let tail = IsAt-skip r 4 38 h.random (hello_tail h) (omega (arith, e)) s4 in
    ground (
      arith,
      e,
      s4.size,
      length-append h.random (hello_tail h),
      byte_at-IsAt r 0 0x01 _ a,
      byte_at-IsAt r 1 (len / 65536) _ s1,
      byte_at-IsAt r 2 ((len / 256) % 256) _ s2,
      byte_at-IsAt r 3 (len % 256) _ s3,
      hello_tail_find r h n k tail,
    )

-- The record parser returns the server name of a ClientHello with 34 bytes of version and random, a
-- non-empty host name and no other extension of kind 0 in front of it.
pub parse_client_hello_record-handshake :
    (h : ClientHello)
    → length h.random ≡ 34
    → 0 < length h.host
    → NoServerName h.before
    → parse_client_hello_record (handshake h) ≡ returns h.host
unfolding handshake
parse_client_hello_record-handshake h e n k =
    handshake_at (handshake h) h e n k (IsAt-start (handshake h))

tls_record_at :
    (b : Bytes) (version : ℕ) (h : ClientHello) (more : Bytes)
    → length h.random ≡ 34
    → 0 < length h.host
    → NoServerName h.before
    → 0x0301 ≤ version
    → length (handshake h) ≤ 16384
    → 0 < length (handshake h)
    → IsAt b 0 (0x16 ∷ (be16 version ++ (be16 (length (handshake h)) ++ (handshake h ++ more))))
    → parse_tls_client_hello_sni b ≡ returns h.host
unfolding parse_tls_client_hello_sni tls_records
tls_record_at b version h more e n k v m p a =
    let s1 = IsAt-skip b 0 1 (0x16 ∷ []) _ refl a in
    let s2 = IsAt-skip b 1 3 (be16 version) _ refl s1 in
    let s3 = IsAt-skip b 3 5 (be16 (length (handshake h))) (handshake h ++ more) refl s2 in
    ground (
      arith,
      s3.size,
      length-append (handshake h) more,
      byte_at-IsAt b 0 0x16 _ a,
      uint16_at-IsAt b 1 version _ s1,
      uint16_at-IsAt b 3 (length (handshake h)) _ s2,
      slice_of-IsAt b 5 (handshake h) more s3,
      parse_client_hello_record-handshake h e n k,
    )

-- The buffer parser returns the server name of a ClientHello with 34 bytes of version and random, a
-- non-empty host name and no other extension of kind 0 in front of it, that stands in one record of
-- TLS 1.0 or later, of 16384 bytes at most, whatever follows the record.
pub parse-tls_record :
    (version : ℕ) (h : ClientHello) (more : Bytes)
    → length h.random ≡ 34
    → 0 < length h.host
    → NoServerName h.before
    → 0x0301 ≤ version
    → length (handshake h) ≤ 16384
    → parse_tls_client_hello_sni (tls_record version h ++ more) ≡ returns h.host
unfolding tls_record
parse-tls_record version h more e n k v m =
    tls_record_at _ version h more e n k v m (unfold handshake in omega arith)
      (IsAt-start (tls_record version h ++ more))
