-- ===== src/Dpi/Types.antt =====
-- The types of internal/dpi/service.go.
use meow_frp_server.Prelude.{ℕ, Bool, Option, List, Bytes, codes}
use meow_frp_server.Prelude.Table.{Table}
use meow_frp_server.Inspection.Sample.{FlowContext, Finding}

-- `Action`
pub data Action : Type 0 where
  allow monitor block : Action

-- `Mode`, a string type.
abbrev pub mode_monitor : Bytes
mode_monitor = codes "monitor"

abbrev pub mode_block : Bytes
mode_block = codes "block"

pub record Decision : Type 0 where
  pub action : Action
  pub reason : Bytes
  pub finding : Option Finding
  pub findings : List Finding

pub record Policy : Type 0 where
  pub user_id : ℕ
  pub enabled : Bool
  pub mode : Bytes
  pub enabled_detectors : List Bytes
  pub block_on_any_finding : Bool
  pub allow_http : Bool
  pub allow_tls : Bool
  pub allow_quic : Bool
  pub allow_encrypted_tunnel : Bool
  pub max_inspect_bytes : ℕ
  pub temporary_block_ttl : ℕ
  pub encrypted_tunnel_mode : Bytes

pub record Event : Type 0 where
  pub flow : FlowContext
  pub direction : Bytes
  pub action : Action
  pub reason : Bytes
  pub finding : Finding
  pub observed_at : ℕ

-- What `GetPolicy` returns: a policy, `ErrPolicySynchronizing`, or another error.
pub data PolicyResult : Type 0 where
  policy : Policy → PolicyResult
  synchronizing : PolicyResult
  failed : PolicyResult

-- What the engine's `Inspect` returns: findings, or the text of an error.
pub data EngineResult : Type 0 where
  found : List Finding → EngineResult
  engine_error : Bytes → EngineResult

pub record Service : Type 0 where
  pub provider_unavailable : Bool
  pub events_paused : Bool
  pub lease_policies : Table Policy
  pub policy_provider : FlowContext → PolicyResult
  pub has_event_sink : Bool
