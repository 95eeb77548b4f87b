-- ===== src/Config/Load.antt =====
-- `Load` of internal/config/config.go: the defaults, the file and the environment.
pub mod Sound
use meow_frp_server.Prelude.{
  ℕ, ◌*◌, ◌^◌, Bool, true, false, not, ◌&&◌, ◌||◌, Option, none, some, List, [], ◌∷◌, Bytes, codes,
  bytes_eq, if◌then◌else◌,
}
use meow_frp_server.Prelude.Integers.{ℤ, pos}
use meow_frp_server.Config.Types.{
  ConnectionTuning, NodeRuntimeConfig, TlsFiles, ControllerConfig, EdgeReportingConfig,
  EdgeRemoteCommandsConfig, EdgeConfig, InitialAdminConfig, ConfigState, unset, configured,
  unconfigured, invalid, Config, FileConfig, ValueLibrary,
}
use meow_frp_server.Config.Checks.{Problem, is_set, validate}
use meow_frp_server.Config.Merge.{or_default, parse_duration_or, apply_file_config}

abbrev pub Environment : Type 0
Environment = Bytes → Bytes

-- `env`, `envInt`, `envBool` and `envDuration`
abbrev pub env : Environment → Bytes → Bytes → Bytes
env getenv key fallback = or_default (getenv key) fallback

abbrev pub env_int : ValueLibrary → Environment → Bytes → ℤ → ℤ
env_int lib getenv key fallback =
    if is_set (getenv key)
    then elim (lib.atoi (getenv key)) [ none ↦ fallback | some n ↦ n ]
    else fallback

abbrev pub env_bool : ValueLibrary → Environment → Bytes → Bool → Bool
env_bool lib getenv key fallback =
    if is_set (getenv key)
    then elim (lib.parse_bool (getenv key)) [ none ↦ fallback | some b ↦ b ]
    else fallback

abbrev pub env_duration : ValueLibrary → Environment → Bytes → ℤ → ℤ
env_duration lib getenv key fallback =
    if is_set (getenv key) then parse_duration_or lib (getenv key) fallback else fallback

-- The zero values.
abbrev pub no_tls : TlsFiles
no_tls = record {
  ca_file = [];
  cert_file = [];
  key_file = [];
  ca_certificate_base64 = [];
  ca_private_key_base64 = [];
  certificate_base64 = [];
  private_key_base64 = [];
}

abbrev pub no_tuning : ConnectionTuning
no_tuning = record {
  disable_tcp_mux = false;
  tcp_mux_keepalive_seconds = pos 0;
  tcp_keepalive_seconds = pos 0;
  max_pool_count = pos 0;
  heartbeat_timeout_seconds = pos 0;
  user_connection_timeout_seconds = pos 0;
  mtls_handshake_timeout_seconds = pos 0;
  disable_mtls_session_tickets = false;
  enable_mtls_session_resumption = false;
}

abbrev pub default_edge : EdgeConfig
default_edge = record {
  node_id = [];
  node_name = [];
  controller_addr = [];
  controller_api_addr = [];
  server_name = [];
  tls = no_tls;
  state_path = codes "data/edge-state.db";
  controller_administration_enabled = false;
  reporting = record {
    client_presence = true;
    connections = false;
    traffic_statistics = false;
    dpi_events = false;
    runtime_logs = false;
  };
  remote_commands = record {
    disconnect_client = true;
    disconnect_connection = true;
    block_ip = false;
    change_runtime_settings = false;
  };
}

-- `defaults`
unfoldable pub defaults : ValueLibrary → Environment → Config
defaults lib getenv = record {
  config_version = pos 2;
  configuration_mode = codes "automatic";
  connection_tuning = no_tuning;
  mode = [];
  config_state = unset;
  http_addr = env getenv (codes "FRP_CONTROL_HTTP_ADDR") (codes ":8080");
  mysql_dsn = [];
  cookie_secret =
      env getenv (codes "FRP_CONTROL_COOKIE_SECRET") (codes "dev-change-me-before-production");
  session_ttl = env_duration lib getenv (codes "FRP_CONTROL_SESSION_TTL") (pos (3600 * 10 ^ 9));
  runtime_token_ttl =
      env_duration lib getenv (codes "FRP_CONTROL_RUNTIME_TOKEN_TTL") (pos (86400 * 10 ^ 9));
  udp_connection_ttl =
      env_duration lib getenv (codes "FRP_CONTROL_UDP_CONNECTION_TTL") (pos (10 * 10 ^ 9));
  embedded_frp_enabled = env_bool lib getenv (codes "FRP_CONTROL_EMBEDDED_FRPS_ENABLED") true;
  frp_bind_addr = env getenv (codes "FRP_CONTROL_FRP_BIND_ADDR") (codes "0.0.0.0");
  frp_proxy_bind_addr = env getenv (codes "FRP_CONTROL_FRP_PROXY_BIND_ADDR") (codes "0.0.0.0");
  frp_server_addr = env getenv (codes "FRP_CONTROL_FRP_SERVER_ADDR") (codes "127.0.0.1");
  frp_server_port = env_int lib getenv (codes "FRP_CONTROL_FRP_SERVER_PORT") (pos 7000);
  frp_transport_tls = env_bool lib getenv (codes "FRP_CONTROL_FRP_TRANSPORT_TLS") true;
  client_config_comment =
      env getenv (codes "FRP_CONTROL_CLIENT_CONFIG_COMMENT")
        (codes "generated by frp-control-server");
  initial_admin = record { username = []; display_name = []; password_hash = [] };
  controller = record {
    edge_access_enabled = false;
    listen_addr = codes "0.0.0.0:9443";
    public_address = [];
    tls = no_tls;
    ca_key_file = [];
    heartbeat_interval_seconds = pos 5;
  };
  edge = default_edge;
  node = record {
    tag = [];
    public_api_url = [];
    frp_advertise_addr = [];
    frp_bind_port = pos 7000;
    port_range_start = pos 1024;
    port_range_end = pos 65535;
    selectable = true;
  };
  initialized = false;
}

-- `ApplyRecommended`
unfoldable pub apply_recommended : Config → Config
apply_recommended c = record c { embedded_frp_enabled = true; frp_transport_tls = true }

-- `applyEnv`
unfoldable pub apply_env : ValueLibrary → Environment → Config → Config
apply_env lib getenv c =
    let addr = env getenv (codes "FRP_CONTROL_FRP_SERVER_ADDR") c.frp_server_addr in
    let port = env_int lib getenv (codes "FRP_CONTROL_FRP_SERVER_PORT") c.frp_server_port in
    record c {
      mysql_dsn = env getenv (codes "FRP_CONTROL_MYSQL_DSN") c.mysql_dsn;
      http_addr = env getenv (codes "FRP_CONTROL_HTTP_ADDR") c.http_addr;
      cookie_secret = env getenv (codes "FRP_CONTROL_COOKIE_SECRET") c.cookie_secret;
      session_ttl = env_duration lib getenv (codes "FRP_CONTROL_SESSION_TTL") c.session_ttl;
      runtime_token_ttl =
          env_duration lib getenv (codes "FRP_CONTROL_RUNTIME_TOKEN_TTL") c.runtime_token_ttl;
      udp_connection_ttl =
          env_duration lib getenv (codes "FRP_CONTROL_UDP_CONNECTION_TTL") c.udp_connection_ttl;
      embedded_frp_enabled =
          env_bool lib getenv (codes "FRP_CONTROL_EMBEDDED_FRPS_ENABLED") c.embedded_frp_enabled;
      frp_bind_addr = env getenv (codes "FRP_CONTROL_FRP_BIND_ADDR") c.frp_bind_addr;
      frp_proxy_bind_addr =
          env getenv (codes "FRP_CONTROL_FRP_PROXY_BIND_ADDR") c.frp_proxy_bind_addr;
      frp_server_addr = addr;
      frp_server_port = port;
      frp_transport_tls = true;
      client_config_comment =
          env getenv (codes "FRP_CONTROL_CLIENT_CONFIG_COMMENT") c.client_config_comment;
      node = record c.node { frp_advertise_addr = addr; frp_bind_port = port };
    }

-- What reading the file gives; a file that cannot be read or does not decode is `broken`.
pub data FileResult : Type 0 where
  file : FileConfig → FileResult
  absent broken : FileResult

-- The configuration of a file that decodes, in the automatic mode with what is recommended.
abbrev pub of_file : ValueLibrary → Environment → FileConfig → Config
of_file lib getenv f =
    let c = apply_file_config lib (defaults lib getenv) f in
    if bytes_eq c.configuration_mode (codes "automatic") then apply_recommended c else c

-- `Load`
unfoldable pub load : ValueLibrary → Environment → FileResult → Config
unfolding defaults apply_recommended apply_env
load lib getenv (file f) =
    let c = of_file lib getenv f in
    elim (validate c) [
      | none ↦ apply_env lib getenv (record c { config_state = configured })
      | some _ ↦ record c { config_state = invalid; initialized = false }
    ]
load lib getenv absent =
    apply_env lib getenv
      (apply_recommended (record (defaults lib getenv) { config_state = unconfigured }))
load lib getenv broken = record (defaults lib getenv) {
  config_state = invalid;
  initialized = false;
}
