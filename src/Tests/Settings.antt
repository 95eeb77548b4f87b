-- ===== src/Tests/Settings.antt =====
-- The configuration of internal/config on the file of a controller.
use meow_frp_server.Prelude.{true, false, none, some, [], codes}
use meow_frp_server.Prelude.Integers.{pos}
use meow_frp_server.Config.Types.{FileConfig, ValueLibrary}
use meow_frp_server.Config.Load.{Environment, no_tuning, no_tls, default_edge}

-- A library that parses nothing, and an empty environment.
abbrev no_values : ValueLibrary
no_values = record { atoi = λ _. none; parse_bool = λ _. none; parse_duration = λ _. none }

abbrev no_environment : Environment
no_environment = λ _. []

abbrev controller_file : FileConfig
controller_file = record {
  config_version = pos 2;
  configuration_mode = codes "automatic";
  connection_tuning = no_tuning;
  mode = codes "controller";
  mysql_dsn = codes "u:p@tcp(db)/frp";
  cookie_secret = codes "s";
  session_ttl = codes "1h";
  runtime_token_ttl = codes "24h";
  udp_connection_ttl = codes "10s";
  embedded_frp_enabled = some true;
  frp_bind_addr = [];
  frp_proxy_bind_addr = [];
  frp_server_addr = [];
  frp_server_port = pos 0;
  frp_transport_tls = false;
  client_config_comment = [];
  initial_admin = record { username = codes "admin"; display_name = []; password_hash = codes "h" };
  controller = record {
    edge_access_enabled = false;
    listen_addr = [];
    public_address = [];
    tls = no_tls;
    ca_key_file = [];
    heartbeat_interval_seconds = pos 0;
  };
  edge = default_edge;
  node = record {
    tag = codes "t";
    public_api_url = [];
    frp_advertise_addr = codes "h";
    frp_bind_port = pos 7001;
    port_range_start = pos 2000;
    port_range_end = pos 3000;
    selectable = true;
  };
  initialized = true;
}
