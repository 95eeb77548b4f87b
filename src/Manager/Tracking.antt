-- ===== src/Manager/Tracking.antt =====
-- internal/frpcore/manager.go: bindings, live connections, UDP flows, blocked addresses and traffic
-- counters. The methods that read addresses are in Network. Each function is one method under `mu`.
-- A method that closes network connections also returns them, in the order in which it closes them; a
-- range over a map goes in table order.
use meow_frp_server.Prelude.{
  ℕ, ◌+◌, ◌-◌, ◌*◌, ◌%◌, ◌^◌, Bool, true, false, not, ◌&&◌, Option, none, some, List, [], ◌∷◌, ◌++◌,
  map, Bytes, bytes_eq, ltb, ◌==◌, length, if◌then◌else◌,
}
use meow_frp_server.Inspection.Sample.{FlowContext, TrafficSample, inbound, outbound}
use meow_frp_server.Manager.Types.{
  ProxyBinding, ActiveConnection, BlockedInboundIp, TrafficSnapshot, TcpConnection,
}
use meow_frp_server.Prelude.Table.{Table, lookup, insert, remove, get_or, remove_where}

pub record Tracking : Type 0 where
  pub bindings : Table ProxyBinding
  pub lease_client_addresses : Table Bytes
  pub tcp_connections : Table TcpConnection
  pub udp_flows : Table ActiveConnection
  pub blocked_inbound_ips : Table BlockedInboundIp
  pub traffic : TrafficSnapshot
  pub next_connection_id : ℕ
  pub udp_flow_timeout : ℕ
  pub max_udp_flows : ℕ

-- Ten seconds.
abbrev pub default_udp_flow_timeout : ℕ
default_udp_flow_timeout = 10 * 10 ^ 9

abbrev pub max_tracked_udp_flows : ℕ
max_tracked_udp_flows = 32768

abbrev pub uint64 : ℕ
uint64 = 2 ^ 64

-- `bindingKey`
abbrev pub binding_key : Bytes → Bytes → Bytes
binding_key lease_id proxy_name = lease_id ++ 0 ∷ [] ++ proxy_name

-- `valueOr`
abbrev pub value_or : Bytes → Bytes → Bytes
value_or value fallback = if bytes_eq value [] then fallback else value

-- The fields that `NewManager` sets up.
unfoldable pub new_tracking : ℕ → Tracking
new_tracking now = record {
  bindings = [];
  lease_client_addresses = [];
  tcp_connections = [];
  udp_flows = [];
  blocked_inbound_ips = [];
  traffic = record {
    bytes_inbound = 0;
    bytes_outbound = 0;
    samples_inbound = 0;
    samples_outbound = 0;
    started_at = now;
    captured_at = 0;
  };
  next_connection_id = 0;
  udp_flow_timeout = default_udp_flow_timeout;
  max_udp_flows = max_tracked_udp_flows;
}

unfoldable pub set_udp_flow_timeout : ℕ → Tracking → Tracking
set_udp_flow_timeout timeout m = record m {
  udp_flow_timeout = if timeout == 0 then default_udp_flow_timeout else timeout;
}

unfoldable pub bind_proxy : ProxyBinding → Tracking → Tracking
bind_proxy b m =
    let addr =
      if bytes_eq b.client_addr []
      then get_or b.lease_id [] m.lease_client_addresses
      else b.client_addr in
    record m {
      bindings =
          insert (binding_key b.lease_id b.proxy_name) (record b { client_addr = addr }) m.bindings;
    }

unfoldable pub unbind_proxy : Bytes → Bytes → Tracking → Tracking
unbind_proxy lease_id proxy_name m = record m {
  bindings = remove (binding_key lease_id proxy_name) m.bindings;
}

unfoldable pub lookup_proxy : Bytes → Bytes → Tracking → Option ProxyBinding
lookup_proxy lease_id proxy_name m = lookup (binding_key lease_id proxy_name) m.bindings

abbrev pub readdress_binding : Bytes → Bytes → ProxyBinding → ProxyBinding
readdress_binding lease_id addr b =
    if bytes_eq b.lease_id lease_id then record b { client_addr = addr } else b

abbrev pub readdress : Bytes → Bytes → ActiveConnection → ActiveConnection
readdress lease_id addr c =
    if bytes_eq c.lease_id lease_id then record c { client_addr = addr } else c

abbrev pub readdress_tcp : Bytes → Bytes → TcpConnection → TcpConnection
readdress_tcp lease_id addr t = record t { connection = readdress lease_id addr t.connection }

-- `bindingForLocked`
unfoldable pub binding_for : Bytes → Bytes → Tracking → ProxyBinding
binding_for lease_id proxy_name m = elim (lookup (binding_key lease_id proxy_name) m.bindings) [
  | some b ↦ b
  | none ↦ record {
    user_id = 0;
    token_id = 0;
    client_id = [];
    client_addr = get_or lease_id [] m.lease_client_addresses;
    lease_id = lease_id;
    proxy_name = proxy_name;
    proxy_type = [];
    remote_port = 0;
  }
]

-- The connections that `abortiveClose` is called on.
unfoldable pub close_handles : List TcpConnection → List ℕ
close_handles [] = []
close_handles (t ∷ ts) = elim t.work_conn [
  | none ↦ t.user_conn ∷ close_handles ts
  | some w ↦ t.user_conn ∷ w ∷ close_handles ts
]

-- The entries of a map that pass a test, as `tcpToClose` collects them.
unfoldable pub select {ℓ} : {V : Type ℓ} → (V → Bool) → Table V → List V
select p [] = []
select p ((_, v) ∷ m) = if p v then v ∷ select p m else select p m

unfoldable pub unregister_tcp_connection : Bytes → Tracking → Tracking
unregister_tcp_connection id m =
    if bytes_eq id [] then m else record m { tcp_connections = remove id m.tcp_connections }

unfoldable pub terminate_tcp_connection : Bytes → Tracking → Tracking × Bool × List ℕ
unfolding close_handles
terminate_tcp_connection id m = elim (lookup id m.tcp_connections) [
  | none ↦ (record m { tcp_connections = remove id m.tcp_connections }, false, [])
  | some t ↦
      (record m { tcp_connections = remove id m.tcp_connections }, true, close_handles (t ∷ []))
]

abbrev pub of_tcp : (ActiveConnection → Bool) → TcpConnection → Bool
of_tcp match t = match t.connection

unfoldable pub terminate_connections : (ActiveConnection → Bool) → Tracking → Tracking × ℕ × List ℕ
terminate_connections match m = (
  record m {
    tcp_connections = remove_where (of_tcp match) m.tcp_connections;
    udp_flows = remove_where match m.udp_flows;
  },
  length (select (of_tcp match) m.tcp_connections) + length (select match m.udp_flows),
  close_handles (select (of_tcp match) m.tcp_connections),
)

abbrev pub from_ip : Bytes → ActiveConnection → Bool
from_ip ip c = bytes_eq c.inbound_ip ip

-- `setBlockedInboundIP`
unfoldable pub set_blocked : BlockedInboundIp → Bool → Tracking → Tracking × List ℕ
set_blocked block close_existing m = (
  record m {
    blocked_inbound_ips = insert block.ip block m.blocked_inbound_ips;
    tcp_connections =
        if close_existing
        then remove_where (of_tcp (from_ip block.ip)) m.tcp_connections
        else m.tcp_connections;
    udp_flows = remove_where (from_ip block.ip) m.udp_flows;
  },
  if close_existing
      then close_handles (select (of_tcp (from_ip block.ip)) m.tcp_connections)
      else [],
)

abbrev pub stamped : ℕ → BlockedInboundIp → BlockedInboundIp
stamped now block = if block.created_at == 0 then record block { created_at = now } else block

-- `SetBlockedInboundIP`
unfoldable pub set_blocked_inbound_ip : ℕ → BlockedInboundIp → Tracking → Tracking × List ℕ
set_blocked_inbound_ip now block = set_blocked (stamped now block) false

-- `EnforceBlockedInboundIP`
unfoldable pub enforce_blocked_inbound_ip : ℕ → BlockedInboundIp → Tracking → Tracking × List ℕ
enforce_blocked_inbound_ip now block = set_blocked (stamped now block) true

unfoldable pub list_connections : ℕ → ℕ → Tracking → List ActiveConnection
list_connections udp_timeout now m =
    let timeout = if udp_timeout == 0 then default_udp_flow_timeout else udp_timeout in
    map (λ t. t.connection) (select (λ _. true) m.tcp_connections)
    ++ select (λ c. not (ltb timeout (now - c.last_seen_at))) m.udp_flows

unfoldable pub list_blocked_inbound_ips : Tracking → List BlockedInboundIp
list_blocked_inbound_ips m = select (λ _. true) m.blocked_inbound_ips

unfoldable pub cleanup_expired_udp_flows : ℕ → Tracking → Tracking × ℕ
cleanup_expired_udp_flows now m =
    let timeout =
      if m.udp_flow_timeout == 0 then default_udp_flow_timeout else m.udp_flow_timeout in
    let expired = λ (c : ActiveConnection). ltb timeout (now - c.last_seen_at) in
    (record m { udp_flows = remove_where expired m.udp_flows }, length (select expired m.udp_flows))

unfoldable pub clear_tracked_connections : Tracking → Tracking × List TcpConnection
clear_tracked_connections m =
    (record m { tcp_connections = []; udp_flows = [] }, select (λ _. true) m.tcp_connections)

unfoldable pub traffic_snapshot : ℕ → Tracking → TrafficSnapshot
traffic_snapshot now m = record (m.traffic) { captured_at = now }

-- The counters of `FeedTrafficSample`, which are uint64 and wrap.
unfoldable pub count_traffic : Bytes → ℕ → TrafficSnapshot → TrafficSnapshot
count_traffic direction n t =
    if ltb 0 n
    then if bytes_eq direction inbound
      then record t {
        bytes_inbound = (t.bytes_inbound + n) % uint64;
        samples_inbound = (t.samples_inbound + 1) % uint64;
      }
      else if bytes_eq direction outbound
      then record t {
        bytes_outbound = (t.bytes_outbound + n) % uint64;
        samples_outbound = (t.samples_outbound + 1) % uint64;
      }
      else t
    else t

-- The flow of a sample that carries no user is completed from the binding of its proxy.
unfoldable pub complete_flow : FlowContext → Tracking → FlowContext
complete_flow f m =
    if f.user_id == 0 && not (bytes_eq f.lease_id []) && not (bytes_eq f.proxy_name [])
    then elim (lookup (binding_key f.lease_id f.proxy_name) m.bindings) [
      | none ↦ f
      | some b ↦ record f {
        user_id = b.user_id;
        token_id = b.token_id;
        client_id = b.client_id;
        remote_port = b.remote_port;
        proxy_type = if bytes_eq f.proxy_type [] then b.proxy_type else f.proxy_type;
      }
    ]
    else f

-- `FeedTrafficSample` up to the call of the inspector: the new state, and the sample it is handed.
unfoldable pub feed_traffic_sample : TrafficSample → Tracking → Tracking × TrafficSample
unfolding count_traffic complete_flow
feed_traffic_sample sample m =
    let n = if sample.payload_length == 0 then length sample.payload else sample.payload_length in
    (
      record m { traffic = count_traffic sample.direction n m.traffic },
      record sample { flow = complete_flow sample.flow m },
    )
