-- ===== src/Tests/Samples.antt =====
-- The inputs of the tests.
use meow_frp_server.Prelude.{false, some, [], ◌∷◌, ◌++◌, codes}
use meow_frp_server.Prelude.Library.{TextLibrary}
use meow_frp_server.Manager.Admission.Schedule.{System}
use meow_frp_server.Manager.Admission.{Admission, UserInfo}
use meow_frp_server.Manager.Types.{RuntimeLease}
use meow_frp_server.Inspection.Sample.{FlowContext, TrafficSample, inbound}

-- A library for texts of lower case with no space around them, where an address has no port.
abbrev pub plain_text : TextLibrary
plain_text = record {
  trim_space = λ t. t;
  to_lower = λ t. t;
  split_host_port = λ t. some (t, codes "7000");
  atoi = λ t. 7000;
}

abbrev pub lease : RuntimeLease
lease = record {
  id = 1;
  lease_id = codes "L";
  user_id = 7;
  token_id = 3;
  client_id = codes "dev";
  runtime_token_hash = codes "h";
  status = codes "active";
  expires_at = 100;
}

abbrev pub user : UserInfo
user = record { run_id = codes "r"; metas = (codes "lease_id", codes "L") ∷ [] }

abbrev pub nothing_admitted : Admission
nothing_admitted = record {
  admission_closed = false;
  draining_clients = [];
  runtime_leases = [];
  registered_proxies = [];
  proxy_counts = [];
  lease_proxy_counts = [];
}

-- The lease is known, and its proxy "web" is open.
abbrev pub one_proxy : Admission
one_proxy = record {
  admission_closed = false;
  draining_clients = [];
  runtime_leases = (codes "L", lease) ∷ [];
  registered_proxies = (codes "r" ++ 0 ∷ [] ++ codes "web", codes "L") ∷ [];
  proxy_counts = (codes "3:dev", 1) ∷ [];
  lease_proxy_counts = (codes "L", 1) ∷ [];
}

abbrev pub idle : Admission → System
idle a = record { admission = a; in_flight = [] }

abbrev pub flow : FlowContext
flow = record {
  user_id = 7;
  token_id = 3;
  client_id = codes "dev";
  lease_id = codes "L";
  proxy_name = codes "web";
  proxy_type = codes "tcp";
  remote_port = 6000;
  local_addr = codes "10.0.0.1";
  remote_addr = codes "10.0.0.2";
  user = codes "u";
  metas = [];
}

abbrev pub sample : TrafficSample
sample = record {
  flow = flow;
  direction = inbound;
  payload = codes "GET / HTTP/1.1";
  payload_length = 0;
  captured_length = 0;
  observed_at = 5;
}
