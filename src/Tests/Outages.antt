-- ===== src/Tests/Outages.antt =====
-- The node of internal/httpapi/node_fault.go during outages.
use meow_frp_server.Prelude.{
  ℕ, true, false, ◌*◌, ◌^◌, ◌≤◌, none, some, [], ◌∷◌, ◌≡◌, refl, arith, codes, bytes_eq,
}
use meow_frp_server.Prelude.Table.{lookup}
use meow_frp_server.Dpi.{synchronizing}
use meow_frp_server.Fault.Health.{
  observe_all, AllDraining, SameDrains, brief_outage_drains_nobody, long_outage_drains_everybody,
}
use meow_frp_server.Fault.Heartbeat.Replies.{warnings, warned_once}
use meow_frp_server.Fault.{
  FaultClient, Server, EdgeLink, drained, fault_client_key, observe_controller_database_health,
}
use meow_frp_server.Tests.Samples.{plain_text, lease, one_proxy, nothing_admitted}

abbrev client : FaultClient
client = record {
  row_id = 1;
  token_hash = codes "t";
  token_id = 3;
  client_id = codes "dev";
  draining = false;
  warned = false;
  logout_sent = false;
  last_seen = 0;
}

-- A controller with one client and its open proxy.
abbrev controller_node : Server
controller_node = record {
  fault = record {
    closed = false;
    database_failed = false;
    clients = (codes "t:dev", client) ∷ [];
    drains = [];
    local_failed = false;
  };
  core = one_proxy;
  dpi = record {
    provider_unavailable = false;
    events_paused = false;
    lease_policies = [];
    policy_provider = λ _. synchronizing;
    has_event_sink = false;
  };
  controller = some (record { database_suspect = false; database_fault = false });
  has_edge_state = false;
  mode_edge = false;
  embedded_frp_enabled = true;
}

abbrev second : ℕ
second = 10 ^ 9

brief_outage_drains_nobody_example :
    let during =
      observe_all plain_text ((second, true) ∷ (2 * second, true) ∷ []) (controller_node, none) in
    let after = observe_controller_database_health plain_text (3 * second) false during in
    (during.0.core.admission_closed ≡ true)
    × SameDrains controller_node during.0
    × SameDrains controller_node after.0
    × (after.0.core.admission_closed ≡ false)
    × (after.1 ≡ none)
brief_outage_drains_nobody_example =
    brief_outage_drains_nobody plain_text second (3 * second) ((2 * second, true) ∷ [])
      controller_node refl (refl, omega arith, tt)

client_known : lookup (codes "t:dev") controller_node.fault.clients ≡ some client
unfolding lookup bytes_eq
client_known = refl

lease_known : lookup (codes "L") controller_node.core.runtime_leases ≡ some lease
unfolding lookup bytes_eq
lease_known = refl

long_outage_drains_everybody_example :
    let t =
      (observe_controller_database_health plain_text
        (20 * second)
        true
        (controller_node, some second)).0 in
    (t.core.admission_closed ≡ true)
    × (t.fault.closed ≡ true)
    × (t.fault.database_failed ≡ true)
    × AllDraining plain_text controller_node t
long_outage_drains_everybody_example =
    long_outage_drains_everybody plain_text second (20 * second) controller_node refl (omega arith)

abbrev healthy : EdgeLink
healthy = record {
  has_client = false;
  connected = false;
  sync_ready = false;
  controller_fault = false;
  identity_reset_pending = false;
}

abbrev failed_node : Server
failed_node = record controller_node {
  fault = record (controller_node.fault) { closed = true; database_failed = true };
}

client_found :
    lookup (fault_client_key plain_text (codes "t") (codes "dev")) failed_node.fault.clients
    ≡ some client
unfolding lookup bytes_eq
client_found = refl

warned_once_example :
    warnings plain_text
      (codes "t")
      (codes "dev")
      ((5, healthy, true, false) ∷ (6, healthy, true, true) ∷ [])
      failed_node
    ≤ 1
warned_once_example =
    warned_once plain_text (codes "t") (codes "dev")
      ((5, healthy, true, false) ∷ (6, healthy, true, true) ∷ []) failed_node

-- The client drains and has no proxy left.
abbrev drained_node : Server
drained_node = record controller_node {
  fault = record (controller_node.fault) {
    clients = (codes "t:dev", drained client) ∷ [];
    drains = (codes "3:dev", true) ∷ [];
  };
  core = nothing_admitted;
}
