-- ===== src/Inspection/Tls.antt =====
-- `parseTLSClientHelloSNI` of internal/dpiengine/composite.go and what it calls: the server name of
-- a ClientHello, empty where none is found.
pub mod Total
pub mod Encoding
mod Cursor
pub mod RoundTrip
use meow_frp_server.Prelude.{
  ℕ, zero, suc, ◌+◌, ◌-◌, ◌*◌, Bool, true, false, not, ◌&&◌, ◌||◌, [], Bytes, ltb, leb, ◌==◌,
  length, if◌then◌else◌,
}
use meow_frp_server.Inspection.Outcome.{
  Outcome, returns, out_of_fuel, ◌>>=◌, byte_at, slice_of, uint16,
}

-- `binary.BigEndian.Uint16(data[at : at+2])`
unfoldable pub uint16_at : Bytes → ℕ → Outcome ℕ
uint16_at bytes at = do b ← slice_of bytes at (at + 2); returns (uint16 b)

-- The smaller of two ends, `if end > n { end = n }`.
abbrev pub clamp : ℕ → ℕ → ℕ
clamp end n = if ltb n end then n else end

-- `parseSNIExtension`
unfoldable pub parse_sni_extension : Bytes → Outcome Bytes
parse_sni_extension bytes = elim (ltb (length bytes) 5) [
  | true ↦ returns []
  | false ↦ do
    list_len ← uint16_at bytes 0
    let end = clamp (2 + list_len) (length bytes)
    elim (ltb end (2 + 3)) [
      | true ↦ returns []
      | false ↦ do
        name_type ← byte_at bytes 2
        name_len ← uint16_at bytes (2 + 1)
        elim (name_type == 0 && ltb 0 name_len && leb (2 + 3 + name_len) end) [
          | true ↦ slice_of bytes (2 + 3) (2 + 3 + name_len)
          | false ↦ returns []
        ]
    ]
]

-- The loop over the extensions of a ClientHello.
unfoldable pub extensions : ℕ → Bytes → ℕ → ℕ → Outcome Bytes
extensions zero record_ end pos = out_of_fuel
extensions (suc f) record_ end pos = elim (leb (pos + 4) end) [
  | false ↦ returns []
  | true ↦ do
    ext_type ← uint16_at record_ pos
    ext_len ← uint16_at record_ (pos + 2)
    elim (ltb end (pos + 4 + ext_len)) [
      | true ↦ returns []
      | false ↦ elim (ext_type == 0) [
        | true ↦ do body ← slice_of record_ (pos + 4) (pos + 4 + ext_len); parse_sni_extension body
        | false ↦ extensions f record_ end (pos + 4 + ext_len)
      ]
    ]
]

-- From the length of the extensions on.
unfoldable pub after_compression : Bytes → ℕ → Outcome Bytes
after_compression record_ pos = elim (ltb (length record_) (pos + 2)) [
  | true ↦ returns []
  | false ↦ do
    ext_len ← uint16_at record_ pos
    let end = clamp (pos + 2 + ext_len) (length record_)
    extensions (suc (length record_)) record_ end (pos + 2)
]

-- From the length of the compression methods on.
unfoldable pub after_ciphers : Bytes → ℕ → Outcome Bytes
after_ciphers record_ pos = elim (leb (length record_) pos) [
  | true ↦ returns []
  | false ↦ do comp_len ← byte_at record_ pos; after_compression record_ (pos + (1 + comp_len))
]

-- From the length of the cipher suites on.
unfoldable pub after_session_id : Bytes → ℕ → Outcome Bytes
after_session_id record_ pos = elim (ltb (length record_) (pos + 2)) [
  | true ↦ returns []
  | false ↦ do cs_len ← uint16_at record_ pos; after_ciphers record_ (pos + (2 + cs_len))
]

-- From the length of the session id on.
unfoldable pub after_random : Bytes → ℕ → Outcome Bytes
after_random record_ pos = elim (leb (length record_) pos) [
  | true ↦ returns []
  | false ↦ do sid_len ← byte_at record_ pos; after_session_id record_ (pos + (1 + sid_len))
]

-- `parseClientHelloRecord`
unfoldable pub parse_client_hello_record : Bytes → Outcome Bytes
parse_client_hello_record record_ = elim (ltb (length record_) 4) [
  | true ↦ returns []
  | false ↦ do
    kind ← byte_at record_ 0
    elim (kind == 0x01) [
      | false ↦ returns []
      | true ↦ do
        b1 ← byte_at record_ 1
        b2 ← byte_at record_ 2
        b3 ← byte_at record_ 3
        let hs_len = b1 * 65536 + b2 * 256 + b3
        elim (ltb (length record_ - 4) hs_len || ltb (4 + hs_len) (4 + 34)) [
          | true ↦ returns []
          | false ↦ after_random record_ (4 + 34)
        ]
    ]
]

-- The loop over the TLS records of the buffer.
unfoldable pub tls_records : ℕ → Bytes → ℕ → Outcome Bytes
tls_records zero buffer offset = out_of_fuel
tls_records (suc f) buffer offset = elim (leb (offset + 5) (length buffer)) [
  | false ↦ returns []
  | true ↦ do
    kind ← byte_at buffer offset
    elim (kind == 0x16) [
      | false ↦ tls_records f buffer (offset + 1)
      | true ↦ do
        version ← uint16_at buffer (offset + 1)
        elim (ltb version 0x0301) [
          | true ↦ tls_records f buffer (offset + 1)
          | false ↦ do
            record_len ← uint16_at buffer (offset + 3)
            elim (leb record_len 0 || ltb 16384 record_len) [
              | true ↦ tls_records f buffer (offset + 1)
              | false ↦ elim (ltb (length buffer) (offset + 5 + record_len)) [
                | true ↦ returns []
                | false ↦ do
                  body ← slice_of buffer (offset + 5) (offset + 5 + record_len)
                  sni ← parse_client_hello_record body
                  elim (ltb 0 (length sni)) [
                    | true ↦ returns sni
                    | false ↦ tls_records f buffer (offset + (5 + record_len))
                  ]
              ]
            ]
        ]
    ]
]

-- `parseTLSClientHelloSNI`
unfoldable pub parse_tls_client_hello_sni : Bytes → Outcome Bytes
parse_tls_client_hello_sni buffer = tls_records (suc (length buffer)) buffer 0
