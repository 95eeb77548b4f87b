-- ===== src/Manager/Types.antt =====
-- The records of internal/frpcore/manager.go and the runtime lease of internal/db/store.go.
-- Identifiers are database keys and times are nanoseconds since an epoch, both natural numbers.
use meow_frp_server.Prelude.{ℕ, ◌++◌, Bool, Option, Bytes, codes, decimal}

-- `db.RuntimeLease`
pub record RuntimeLease : Type 0 where
  pub id : ℕ
  pub lease_id : Bytes
  pub user_id : ℕ
  pub token_id : ℕ
  pub client_id : Bytes
  pub runtime_token_hash : Bytes
  pub status : Bytes
  pub expires_at : ℕ

-- What a missing key of `runtimeLeases` reads as.
abbrev pub zero_lease : RuntimeLease
zero_lease = record {
  id = 0;
  lease_id = codes "";
  user_id = 0;
  token_id = 0;
  client_id = codes "";
  runtime_token_hash = codes "";
  status = codes "";
  expires_at = 0;
}

-- `clientKey`
unfoldable pub client_key : ℕ → Bytes → Bytes
client_key token_id client_id = decimal token_id ++ codes ":" ++ client_id

pub record ProxyBinding : Type 0 where
  pub user_id : ℕ
  pub token_id : ℕ
  pub client_id : Bytes
  pub client_addr : Bytes
  pub lease_id : Bytes
  pub proxy_name : Bytes
  pub proxy_type : Bytes
  pub remote_port : ℕ

pub record ActiveConnection : Type 0 where
  pub id : Bytes
  pub protocol : Bytes
  pub user_id : ℕ
  pub token_id : ℕ
  pub client_id : Bytes
  pub client_addr : Bytes
  pub lease_id : Bytes
  pub proxy_name : Bytes
  pub proxy_type : Bytes
  pub remote_port : ℕ
  pub inbound_addr : Bytes
  pub inbound_ip : Bytes
  pub inbound_port : ℕ
  pub server_addr : Bytes
  pub opened_at : ℕ
  pub last_seen_at : ℕ
  pub can_terminate : Bool

pub record BlockedInboundIp : Type 0 where
  pub ip : Bytes
  pub reason : Bytes
  pub created_at : ℕ

pub record TrafficSnapshot : Type 0 where
  pub bytes_inbound : ℕ
  pub bytes_outbound : ℕ
  pub samples_inbound : ℕ
  pub samples_outbound : ℕ
  pub started_at : ℕ
  pub captured_at : ℕ

-- `activeTCPConnection`; a network connection is a number, and a nil work connection is `none`.
pub record TcpConnection : Type 0 where
  pub connection : ActiveConnection
  pub user_conn : ℕ
  pub work_conn : Option ℕ

-- `dpihook.ConnectionInfo` of the FRP fork, the fields that the manager reads.
pub record ConnectionInfo : Type 0 where
  pub lease_id : Bytes
  pub proxy_name : Bytes
  pub proxy_type : Bytes
  pub local_addr : Bytes
  pub remote_addr : Bytes
