-- ===== src/Inspection/Tls/Encoding.antt =====
-- A ClientHello as RFC 8446 (section 4.1.2) and RFC 6066 (section 3) lay it out, written without
-- reference to the parser. A length that does not fit its field gives no real message.
use meow_frp_server.Prelude.{ℕ, ◌+◌, ◌/◌, ◌%◌, ◌≢◌, List, [], ◌∷◌, ◌++◌, Bytes, length}

abbrev pub be16 : ℕ → Bytes
be16 n = n / 256 ∷ n % 256 ∷ []

abbrev pub be24 : ℕ → Bytes
be24 n = n / 65536 ∷ (n / 256) % 256 ∷ n % 256 ∷ []

-- A server name list of one host name.
unfoldable pub server_name : Bytes → Bytes
server_name host = be16 (3 + length host) ++ (0 ∷ (be16 (length host) ++ host))

pub record Extension : Type 0 where
  pub kind : ℕ
  pub body : Bytes

-- One extension, in front of what follows it.
abbrev pub extension_onto : ℕ → Bytes → Bytes → Bytes
extension_onto kind body rest = be16 kind ++ (be16 (length body) ++ (body ++ rest))

unfoldable pub extensions_onto : List Extension → Bytes → Bytes
extensions_onto [] rest = rest
extensions_onto (e ∷ es) rest = extension_onto e.kind e.body (extensions_onto es rest)

-- What a client sends; `random` holds the legacy version and the 32 random bytes, and `after` the
-- extensions behind the server name.
pub record ClientHello : Type 0 where
  pub random : Bytes
  pub session_id : Bytes
  pub ciphers : Bytes
  pub compression : Bytes
  pub before : List Extension
  pub host : Bytes
  pub after : Bytes

abbrev pub extension_block : ClientHello → Bytes
extension_block h = extensions_onto h.before (extension_onto 0 (server_name h.host) h.after)

-- From the session id on.
unfoldable pub hello_tail : ClientHello → Bytes
hello_tail h =
    length h.session_id
    ∷ (h.session_id
        ++ (be16 (length h.ciphers)
            ++ (h.ciphers
                ++ (length h.compression
                    ∷ (h.compression
                        ++ (be16 (length (extension_block h)) ++ extension_block h))))))

-- The handshake message.
unfoldable pub handshake : ClientHello → Bytes
handshake h = 0x01 ∷ (be24 (length (h.random ++ hello_tail h)) ++ (h.random ++ hello_tail h))

-- The TLS record that carries it.
unfoldable pub tls_record : ℕ → ClientHello → Bytes
tls_record version h = 0x16 ∷ (be16 version ++ (be16 (length (handshake h)) ++ handshake h))

abbrev pub NoServerName : List Extension → Type 0
NoServerName [] = Unit
NoServerName (e ∷ es) = (e.kind ≢ 0) × NoServerName es
