-- ===== src/Inspection/Sample.antt =====
-- The records of internal/dpiengine/engine.go. Times are nanoseconds since an epoch, 0 for Go's zero
-- time; a confidence is in hundredths.
use meow_frp_server.Prelude.{ℕ, Bytes, codes}
use meow_frp_server.Prelude.Table.{Table}

pub record FlowContext : Type 0 where
  pub user_id : ℕ
  pub token_id : ℕ
  pub client_id : Bytes
  pub lease_id : Bytes
  pub proxy_name : Bytes
  pub proxy_type : Bytes
  pub remote_port : ℕ
  pub local_addr : Bytes
  pub remote_addr : Bytes
  pub user : Bytes
  pub metas : Table Bytes

-- `Direction`, a string type.
abbrev pub inbound : Bytes
inbound = codes "inbound"

abbrev pub outbound : Bytes
outbound = codes "outbound"

pub record TrafficSample : Type 0 where
  pub flow : FlowContext
  pub direction : Bytes
  pub payload : Bytes
  pub payload_length : ℕ
  pub captured_length : ℕ
  pub observed_at : ℕ

pub record Finding : Type 0 where
  pub detector : Bytes
  pub protocol : Bytes
  pub host : Bytes
  pub sni : Bytes
  pub target_ip : Bytes
  pub confidence : ℕ
  pub summary : Bytes
