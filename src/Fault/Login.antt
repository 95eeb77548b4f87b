-- ===== src/Fault/Login.antt =====
-- How a login ends the drain of a client: `rememberClient` of internal/httpapi/node_fault.go.
use meow_frp_server.Prelude.{ℕ, true, none, some, ◌≡◌, Bytes}
use meow_frp_server.Prelude.Library.{TextLibrary}
use meow_frp_server.Prelude.Table.{lookup}
use meow_frp_server.Fault.{Server, fault_client_key}

-- The client that the node knows under this key, if any, is draining and has this token and device.
abbrev pub DrainsAs : TextLibrary → Bytes → ℕ → Bytes → Server → Type 0
DrainsAs lib hash token_id client_id s =
    elim (lookup (fault_client_key lib hash client_id) s.fault.clients) [
      | none ↦ Unit
      | some c ↦ (c.draining ≡ true) × (c.token_id ≡ token_id) × (c.client_id ≡ client_id)
    ]
