-- ===== src/Tests/Connections.antt =====
-- The connections of internal/frpcore/manager.go.
use meow_frp_server.Prelude.{
  ℕ, ◌+◌, Bool, true, not, ◌&&◌, ◌||◌, none, some, [], ◌∷◌, ◌≡◌, ◌≢◌, refl, arith, codes, bytes_eq,
  decimal, ◌==◌, length,
}
use meow_frp_server.Prelude.Table.{lookup}
use meow_frp_server.Manager.Network.Blocking.{Ends, block_inbound_ip-Ends}
use meow_frp_server.Manager.Network.Flows.{
  AllNamed, Observed, is_within_limit, observe_udp_flow-Observed, register_tcp_connection_fresh,
}
use meow_frp_server.Manager.Network.{
  split_addr, is_inbound_blocked, block_inbound_ip, observe_udp_flow, udp_key,
  register_tcp_connection,
}
use meow_frp_server.Manager.Termination.{
  Manager, IsCutOff, terminate-IsCutOff, terminate_connections_for_user,
  terminate_connections_for_token, terminate_connections_for_client,
  terminate_connections_for_lease,
}
use meow_frp_server.Dpi.{found}
use meow_frp_server.Inspection.Sample.{inbound}
use meow_frp_server.Manager.Hooks.{HookSample, inspect_series, traffic_is_counted}
use meow_frp_server.Manager.Tracking.{Tracking, from_ip, new_tracking}
use meow_frp_server.Manager.Types.{ActiveConnection, ConnectionInfo}
use meow_frp_server.Tests.Samples.{plain_text, one_proxy}

abbrev connection : ActiveConnection
connection = record {
  id = codes "tcp_1";
  protocol = codes "tcp";
  user_id = 7;
  token_id = 3;
  client_id = codes "dev";
  client_addr = codes "10.0.0.1";
  lease_id = codes "L";
  proxy_name = codes "web";
  proxy_type = codes "tcp";
  remote_port = 6000;
  inbound_addr = codes "10.0.0.2";
  inbound_ip = codes "10.0.0.2";
  inbound_port = 7000;
  server_addr = [];
  opened_at = 1;
  last_seen_at = 1;
  can_terminate = true;
}

abbrev tracking : Tracking
tracking = record (new_tracking 0) {
  tcp_connections =
      (codes "tcp_1", record { connection = connection; user_conn = 4; work_conn = some 5 }) ∷ [];
  next_connection_id = 1;
}

abbrev info : ConnectionInfo
info = record {
  lease_id = codes "L";
  proxy_name = codes "web";
  proxy_type = codes "tcp";
  local_addr = codes "10.0.0.1";
  remote_addr = codes "10.0.0.2";
}

abbrev of_lease : ActiveConnection → Bool
of_lease c = bytes_eq c.lease_id (codes "L")

block_inbound_ip-Ends_example :
    let r = block_inbound_ip plain_text 2 (codes "10.0.0.2") [] tracking in
    let host = (split_addr plain_text info.remote_addr).0 in
    Ends (from_ip (codes "10.0.0.2")) tracking r.0 r.1
    × (is_inbound_blocked plain_text info r.0
        ≡ not (bytes_eq host [])
          && (bytes_eq host (codes "10.0.0.2") || is_inbound_blocked plain_text info tracking))
block_inbound_ip-Ends_example =
    block_inbound_ip-Ends plain_text 2 (codes "10.0.0.2") [] tracking info

observe_udp_flow-Observed_example :
    let m' = observe_udp_flow plain_text 3 info tracking in
    Observed (udp_key info) tracking m' × (is_within_limit m' ≡ is_within_limit tracking)
observe_udp_flow-Observed_example = observe_udp_flow-Observed plain_text 3 info tracking

named_lem : AllNamed 1 tracking.tcp_connections
unfolding decimal
named_lem = ((1, omega arith, refl), tt)

register_tcp_connection_fresh_example :
    let r = register_tcp_connection plain_text 3 info 6 (some 7) tracking in
    (lookup r.1 tracking.tcp_connections ≡ none)
    × (length r.0.tcp_connections ≡ length tracking.tcp_connections + 1)
    × AllNamed r.0.next_connection_id r.0.tcp_connections
register_tcp_connection_fresh_example =
    register_tcp_connection_fresh plain_text 3 info 6 (some 7) tracking (omega arith) named_lem

abbrev manager : Manager
manager = record { admission = one_proxy; tracking = tracking }

id_lem : ◌≢◌ {A = ℕ} 3 0
id_lem e = omega (arith, e)

text_lem : codes "L" ≢ []
text_lem e = cc

terminate-IsCutOff_example :
    IsCutOff
      (λ l. l.user_id == 3)
      (λ c. c.user_id == 3)
      manager
      (terminate_connections_for_user 3 manager)
    × IsCutOff
        (λ l. l.token_id == 3)
        (λ c. c.token_id == 3)
        manager
        (terminate_connections_for_token 3 manager)
    × IsCutOff
        (λ l. l.token_id == 3 && bytes_eq l.client_id (codes "L"))
        (λ c. c.token_id == 3 && bytes_eq c.client_id (codes "L"))
        manager
        (terminate_connections_for_client plain_text 3 (codes "L") manager)
    × IsCutOff
        (λ l. bytes_eq l.lease_id (codes "L"))
        (λ c. bytes_eq c.lease_id (codes "L"))
        manager
        (terminate_connections_for_lease (codes "L") manager)
terminate-IsCutOff_example =
    terminate-IsCutOff plain_text manager 3 (codes "L") id_lem text_lem text_lem

abbrev hook_sample : HookSample
hook_sample = record {
  lease_id = codes "L";
  proxy_name = codes "web";
  proxy_type = codes "tcp";
  local_addr = [];
  remote_addr = [];
  user = [];
  metas = [];
  direction = inbound;
  payload = codes "hello";
  payload_length = 0;
  captured_length = 5;
  observed_at = 1;
}

traffic_is_counted_example :
    let t =
      (inspect_series plain_text
        (λ _. found [])
        ((1, hook_sample) ∷ (2, hook_sample) ∷ [])
        tracking
        none).traffic in
    (t.bytes_inbound ≡ 10) × (t.bytes_outbound ≡ 0)
unfolding new_tracking bytes_eq
traffic_is_counted_example =
    traffic_is_counted plain_text (λ _. found []) ((1, hook_sample) ∷ (2, hook_sample) ∷ [])
      tracking none (omega arith) (omega arith)
