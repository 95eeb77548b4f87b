-- ===== src/Config/Types.antt =====
-- The configuration of internal/config: config.go and connection_tuning.go. A duration is its number of
-- nanoseconds.
use meow_frp_server.Prelude.{Bool, Option, Bytes}
use meow_frp_server.Prelude.Integers.{ℤ}

-- `ConnectionTuning`
pub record ConnectionTuning : Type 0 where
  pub disable_tcp_mux : Bool
  pub tcp_mux_keepalive_seconds : ℤ
  pub tcp_keepalive_seconds : ℤ
  pub max_pool_count : ℤ
  pub heartbeat_timeout_seconds : ℤ
  pub user_connection_timeout_seconds : ℤ
  pub mtls_handshake_timeout_seconds : ℤ
  pub disable_mtls_session_tickets : Bool
  pub enable_mtls_session_resumption : Bool

-- `NodeRuntimeConfig`
pub record NodeRuntimeConfig : Type 0 where
  pub tag : Bytes
  pub public_api_url : Bytes
  pub frp_advertise_addr : Bytes
  pub frp_bind_port : ℤ
  pub port_range_start : ℤ
  pub port_range_end : ℤ
  pub selectable : Bool

-- `TLSFiles`
pub record TlsFiles : Type 0 where
  pub ca_file : Bytes
  pub cert_file : Bytes
  pub key_file : Bytes
  pub ca_certificate_base64 : Bytes
  pub ca_private_key_base64 : Bytes
  pub certificate_base64 : Bytes
  pub private_key_base64 : Bytes

-- `ControllerConfig`
pub record ControllerConfig : Type 0 where
  pub edge_access_enabled : Bool
  pub listen_addr : Bytes
  pub public_address : Bytes
  pub tls : TlsFiles
  pub ca_key_file : Bytes
  pub heartbeat_interval_seconds : ℤ

-- `EdgeReportingConfig` and `EdgeRemoteCommandsConfig`
pub record EdgeReportingConfig : Type 0 where
  pub client_presence : Bool
  pub connections : Bool
  pub traffic_statistics : Bool
  pub dpi_events : Bool
  pub runtime_logs : Bool

pub record EdgeRemoteCommandsConfig : Type 0 where
  pub disconnect_client : Bool
  pub disconnect_connection : Bool
  pub block_ip : Bool
  pub change_runtime_settings : Bool

-- `EdgeConfig`
pub record EdgeConfig : Type 0 where
  pub node_id : Bytes
  pub node_name : Bytes
  pub controller_addr : Bytes
  pub controller_api_addr : Bytes
  pub server_name : Bytes
  pub tls : TlsFiles
  pub state_path : Bytes
  pub controller_administration_enabled : Bool
  pub reporting : EdgeReportingConfig
  pub remote_commands : EdgeRemoteCommandsConfig

-- `InitialAdminConfig`
pub record InitialAdminConfig : Type 0 where
  pub username : Bytes
  pub display_name : Bytes
  pub password_hash : Bytes

-- `cfg.ConfigState`; `unset` is the empty text.
pub data ConfigState : Type 0 where
  unset configured unconfigured invalid : ConfigState

-- `Config`, less the path and the text of the error.
pub record Config : Type 0 where
  pub config_version : ℤ
  pub configuration_mode : Bytes
  pub connection_tuning : ConnectionTuning
  pub mode : Bytes
  pub config_state : ConfigState
  pub http_addr : Bytes
  pub mysql_dsn : Bytes
  pub cookie_secret : Bytes
  pub session_ttl : ℤ
  pub runtime_token_ttl : ℤ
  pub udp_connection_ttl : ℤ
  pub embedded_frp_enabled : Bool
  pub frp_bind_addr : Bytes
  pub frp_proxy_bind_addr : Bytes
  pub frp_server_addr : Bytes
  pub frp_server_port : ℤ
  pub frp_transport_tls : Bool
  pub client_config_comment : Bytes
  pub initial_admin : InitialAdminConfig
  pub controller : ControllerConfig
  pub edge : EdgeConfig
  pub node : NodeRuntimeConfig
  pub initialized : Bool

-- `FileConfig`, less the time of its creation.
pub record FileConfig : Type 0 where
  pub config_version : ℤ
  pub configuration_mode : Bytes
  pub connection_tuning : ConnectionTuning
  pub mode : Bytes
  pub mysql_dsn : Bytes
  pub cookie_secret : Bytes
  pub session_ttl : Bytes
  pub runtime_token_ttl : Bytes
  pub udp_connection_ttl : Bytes
  pub embedded_frp_enabled : Option Bool
  pub frp_bind_addr : Bytes
  pub frp_proxy_bind_addr : Bytes
  pub frp_server_addr : Bytes
  pub frp_server_port : ℤ
  pub frp_transport_tls : Bool
  pub client_config_comment : Bytes
  pub initial_admin : InitialAdminConfig
  pub controller : ControllerConfig
  pub edge : EdgeConfig
  pub node : NodeRuntimeConfig
  pub initialized : Bool

-- What the code takes of Go's strconv and time: `none` is an error.
pub record ValueLibrary : Type 0 where
  pub atoi : Bytes → Option ℤ
  pub parse_bool : Bytes → Option Bool
  pub parse_duration : Bytes → Option ℤ
