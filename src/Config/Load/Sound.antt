-- ===== src/Config/Load/Sound.antt =====
-- What the rest of the server may rely on in a configuration that `Load` calls configured.
use meow_frp_server.Prelude.{ℕ, ◌≤◌, ◌≡◌, Bool, true, false}
use meow_frp_server.Prelude.Integers.{ℤ, pos}
use meow_frp_server.Config.Types.{ConfigState, configured, Config}

-- A number that the code may use as a port.
abbrev pub IsPort : ℤ → Type 0
IsPort z = (p : ℕ) × (z ≡ pos p) × (1 ≤ p) × (p ≤ 65535)

-- The first is no greater than the second.
abbrev pub InOrder : ℤ → ℤ → Type 0
InOrder (pos a) (pos b) = a ≤ b
InOrder _ _ = ⊥

-- The endpoint that older parts read is that of the node, the tunnels are encrypted, and the port of the FRP
-- server and both ends of the range for proxies are ports, the ends in order.
pub record IsUsable (c : Config) : Type 0 where
  pub port : IsPort c.node.frp_bind_port
  pub range_start : IsPort c.node.port_range_start
  pub range_end : IsPort c.node.port_range_end
  pub range_order : InOrder c.node.port_range_start c.node.port_range_end
  pub same_port : c.frp_server_port ≡ c.node.frp_bind_port
  pub same_addr : c.frp_server_addr ≡ c.node.frp_advertise_addr
  pub tls : c.frp_transport_tls ≡ true

is_configured : ConfigState → Bool
is_configured configured = true
is_configured _ = false
