-- ===== src/Fault/Types.antt =====
-- The state of internal/httpapi/node_fault.go and of what it calls.
use meow_frp_server.Prelude.{ℕ, ◌*◌, ◌^◌, Bool, Option, Bytes}
use meow_frp_server.Prelude.Table.{Table}
use meow_frp_server.Dpi.{Service}
use meow_frp_server.Manager.Admission.{Admission}

-- `faultClient`
pub record FaultClient : Type 0 where
  pub row_id : ℕ
  pub token_hash : Bytes
  pub token_id : ℕ
  pub client_id : Bytes
  pub draining : Bool
  pub warned : Bool
  pub logout_sent : Bool
  pub last_seen : ℕ

-- `nodeFaultState`
pub record NodeFaultState : Type 0 where
  pub closed : Bool
  pub database_failed : Bool
  pub clients : Table FaultClient
  pub drains : Table Bool
  pub local_failed : Bool

-- The flags of internal/cluster's `ControllerServer`.
pub record ControllerFlags : Type 0 where
  pub database_suspect : Bool
  pub database_fault : Bool

-- What `edgeClient` and `edgeState` answer.
pub record EdgeLink : Type 0 where
  pub has_client : Bool
  pub connected : Bool
  pub sync_ready : Bool
  pub controller_fault : Bool
  pub identity_reset_pending : Bool

-- `Server`, the fields that node_fault.go uses: `core` is the FRP manager's admission, `controller`
-- is `controllerControl`, and `has_edge_state` tells whether `edgeState` is set.
pub record Server : Type 0 where
  pub fault : NodeFaultState
  pub core : Admission
  pub dpi : Service
  pub controller : Option ControllerFlags
  pub has_edge_state : Bool
  pub mode_edge : Bool
  pub embedded_frp_enabled : Bool

-- Ten seconds.
abbrev pub fault_delay : ℕ
fault_delay = 10 * 10 ^ 9
