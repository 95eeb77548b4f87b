-- ===== src/Manager/Network.antt =====
-- The methods of internal/frpcore/manager.go that trim texts or take network addresses apart.
use meow_frp_server.Prelude.{
  ℕ, ◌+◌, ◌-◌, ◌*◌, ◌%◌, ◌^◌, Bool, true, false, not, ◌&&◌, ◌||◌, Option, none, some, List, [], ◌∷◌,
  ◌++◌, map, Bytes, codes, bytes_eq, decimal, ltb, leb, ◌==◌, length, if◌then◌else◌,
}
use meow_frp_server.Prelude.Library.{TextLibrary}
use meow_frp_server.Manager.Tracking.{
  Tracking, uint64, value_or, binding_for, set_blocked, readdress_binding, readdress, readdress_tcp,
}
use meow_frp_server.Manager.Types.{
  ProxyBinding, ActiveConnection, BlockedInboundIp, TcpConnection, ConnectionInfo,
}
use meow_frp_server.Prelude.Table.{Table, lookup, insert, remove, map_values}
pub mod Blocking
pub mod Flows

-- `strings.Join([]string{info.LeaseID, info.ProxyName, info.RemoteAddr}, "\x00")`
abbrev pub udp_key : ConnectionInfo → Bytes
udp_key info = info.lease_id ++ (0 ∷ info.proxy_name) ++ (0 ∷ info.remote_addr)

module _ (lib : TextLibrary) where
  open lib use {trim_space, split_host_port, atoi}

  -- `splitAddr`
  unfoldable pub split_addr : Bytes → Bytes × ℕ
  split_addr addr = elim (split_host_port (trim_space addr)) [
    | none ↦ (trim_space addr, 0)
    | some (host, port_text) ↦ (host, atoi port_text)
  ]

  unfoldable pub set_lease_client_address : Bytes → Bytes → Tracking → Tracking
  set_lease_client_address lease_id client_address m =
      let addr = trim_space client_address in
      record m {
        lease_client_addresses = insert lease_id addr m.lease_client_addresses;
        bindings = map_values (readdress_binding lease_id addr) m.bindings;
        tcp_connections = map_values (readdress_tcp lease_id addr) m.tcp_connections;
        udp_flows = map_values (readdress lease_id addr) m.udp_flows;
      }

  unfoldable pub is_inbound_blocked : ConnectionInfo → Tracking → Bool
  unfolding split_addr
  is_inbound_blocked info m =
      let ip = (split_addr info.remote_addr).0 in
      if bytes_eq ip []
      then false
      else elim (lookup ip m.blocked_inbound_ips) [ none ↦ false | some _ ↦ true ]

  unfoldable pub block_inbound_ip : ℕ → Bytes → Bytes → Tracking → Tracking × List ℕ
  block_inbound_ip now ip reason =
      set_blocked (record { ip = trim_space ip; reason = trim_space reason; created_at = now }) true

  unfoldable pub unblock_inbound_ip : Bytes → Tracking → Tracking
  unblock_inbound_ip ip m = record m {
    blocked_inbound_ips = remove (trim_space ip) m.blocked_inbound_ips;
  }

  -- What both kinds of connection take from the binding and the hook's information.
  abbrev pub describe : Bytes → Bytes → ConnectionInfo → ℕ → ℕ → Bool → Tracking → ActiveConnection
  describe id protocol info opened now can_terminate m =
      let b = binding_for info.lease_id info.proxy_name m in
      let from = split_addr info.remote_addr in
      record {
        id = id;
        protocol = protocol;
        user_id = b.user_id;
        token_id = b.token_id;
        client_id = b.client_id;
        client_addr = b.client_addr;
        lease_id = info.lease_id;
        proxy_name = info.proxy_name;
        proxy_type = value_or info.proxy_type b.proxy_type;
        remote_port = b.remote_port;
        inbound_addr = info.remote_addr;
        inbound_ip = from.0;
        inbound_port = from.1;
        server_addr = info.local_addr;
        opened_at = opened;
        last_seen_at = now;
        can_terminate = can_terminate;
      }

  unfoldable pub register_tcp_connection :
      ℕ → ConnectionInfo → ℕ → Option ℕ → Tracking → Tracking × Bytes
  register_tcp_connection now info user_conn work_conn m =
      let next = (m.next_connection_id + 1) % uint64 in
      let id = codes "tcp_" ++ decimal next in
      let conn = describe id (codes "tcp") info now now true m in
      (
        record m {
          next_connection_id = next;
          tcp_connections =
              insert id (record { connection = conn; user_conn = user_conn; work_conn = work_conn })
                m.tcp_connections;
        },
        id,
      )

  abbrev open_flow : ℕ → ConnectionInfo → Tracking → Tracking
  open_flow now info m =
      let next = (m.next_connection_id + 1) % uint64 in
      record m {
        next_connection_id = next;
        udp_flows =
            insert (udp_key info)
              (describe (codes "udp_" ++ decimal next) (codes "udp") info now now false m)
              m.udp_flows;
      }

  unfoldable pub observe_udp_flow : ℕ → ConnectionInfo → Tracking → Tracking
  observe_udp_flow now info m = elim (lookup (udp_key info) m.udp_flows) [
    | none ↦
        if ltb 0 m.max_udp_flows && leb m.max_udp_flows (length m.udp_flows)
        then m
        else open_flow now info m
    | some flow ↦
        if bytes_eq flow.id []
        then if ltb 0 m.max_udp_flows && leb m.max_udp_flows (length m.udp_flows)
          then m
          else open_flow now info m
        else record m {
          udp_flows =
              insert (udp_key info) (describe flow.id (codes "udp") info flow.opened_at now false m)
                m.udp_flows;
        }
  ]
