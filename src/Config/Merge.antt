-- ===== src/Config/Merge.antt =====
-- The configuration with the values of a file: `applyFileConfig` of internal/config/config.go and the
-- functions that merge its parts.
use meow_frp_server.Prelude.{
  Bool, true, not, ◌&&◌, ◌||◌, none, some, Bytes, codes, bytes_eq, if◌then◌else◌,
}
use meow_frp_server.Prelude.Integers.{ℤ, pos, is_zero, is_positive}
use meow_frp_server.Config.Types.{
  NodeRuntimeConfig, TlsFiles, ControllerConfig, EdgeConfig, Config, FileConfig, ValueLibrary,
}
use meow_frp_server.Config.Checks.{is_set}

-- A text, or another one where it is empty.
abbrev pub or_default : Bytes → Bytes → Bytes
or_default value base = if is_set value then value else base

abbrev pub positive_or : ℤ → ℤ → ℤ
positive_or value base = if is_positive value then value else base

abbrev pub nonzero_or : ℤ → ℤ → ℤ
nonzero_or value base = if is_zero value then base else value

-- `parseDuration`
abbrev pub parse_duration_or : ValueLibrary → Bytes → ℤ → ℤ
parse_duration_or lib value fallback = elim (lib.parse_duration value) [
  | none ↦ fallback
  | some d ↦ d
]

-- `mergeNodeRuntimeConfig`
unfoldable pub merge_node_runtime_config : NodeRuntimeConfig → NodeRuntimeConfig → NodeRuntimeConfig
merge_node_runtime_config base value = record {
  tag = value.tag;
  public_api_url = value.public_api_url;
  frp_advertise_addr = value.frp_advertise_addr;
  frp_bind_port = positive_or value.frp_bind_port base.frp_bind_port;
  port_range_start = positive_or value.port_range_start base.port_range_start;
  port_range_end = positive_or value.port_range_end base.port_range_end;
  selectable = value.selectable;
}

-- `nodeRuntimeConfigured`
unfoldable pub node_runtime_configured : NodeRuntimeConfig → Bool
node_runtime_configured n =
    is_set n.tag
    || is_set n.public_api_url
    || is_set n.frp_advertise_addr
    || not (is_zero n.frp_bind_port)
    || not (is_zero n.port_range_start)
    || not (is_zero n.port_range_end)

-- The files of the parts, and `mergeTLSMaterial`.
unfoldable pub merge_tls : TlsFiles → TlsFiles → TlsFiles
merge_tls base value = record {
  ca_file = or_default value.ca_file base.ca_file;
  cert_file = or_default value.cert_file base.cert_file;
  key_file = or_default value.key_file base.key_file;
  ca_certificate_base64 = or_default value.ca_certificate_base64 base.ca_certificate_base64;
  ca_private_key_base64 = or_default value.ca_private_key_base64 base.ca_private_key_base64;
  certificate_base64 = or_default value.certificate_base64 base.certificate_base64;
  private_key_base64 = or_default value.private_key_base64 base.private_key_base64;
}

-- `mergeControllerConfig`
unfoldable pub merge_controller_config : ControllerConfig → ControllerConfig → ControllerConfig
unfolding merge_tls
merge_controller_config base value = record {
  edge_access_enabled = value.edge_access_enabled;
  listen_addr = or_default value.listen_addr base.listen_addr;
  public_address = or_default value.public_address base.public_address;
  tls = merge_tls base.tls value.tls;
  ca_key_file = or_default value.ca_key_file base.ca_key_file;
  heartbeat_interval_seconds =
      positive_or value.heartbeat_interval_seconds base.heartbeat_interval_seconds;
}

-- `mergeEdgeConfig`
unfoldable pub merge_edge_config : EdgeConfig → EdgeConfig → EdgeConfig
unfolding merge_tls
merge_edge_config base value = record {
  node_id = or_default value.node_id base.node_id;
  node_name = or_default value.node_name base.node_name;
  controller_addr = or_default value.controller_addr base.controller_addr;
  controller_api_addr = or_default value.controller_api_addr base.controller_api_addr;
  server_name = or_default value.server_name base.server_name;
  tls = merge_tls base.tls value.tls;
  state_path = or_default value.state_path base.state_path;
  controller_administration_enabled = value.controller_administration_enabled;
  reporting = value.reporting;
  remote_commands = value.remote_commands;
}

-- The node of the file, or what older files say of it.
unfoldable pub node_of : Bytes → NodeRuntimeConfig → FileConfig → NodeRuntimeConfig
unfolding merge_node_runtime_config node_runtime_configured
node_of mode base f =
    if node_runtime_configured f.node then merge_node_runtime_config base f.node else record base {
      frp_advertise_addr = f.frp_server_addr;
      frp_bind_port = f.frp_server_port;
      tag =
          if bytes_eq mode (codes "edge") && is_set f.edge.node_name
          then f.edge.node_name
          else base.tag;
    }

-- The node with a value for what is missing.
abbrev pub completed_node : Bytes → ℤ → NodeRuntimeConfig → NodeRuntimeConfig
completed_node addr port n = record n {
  frp_bind_port = nonzero_or n.frp_bind_port port;
  frp_advertise_addr = or_default n.frp_advertise_addr addr;
  port_range_start = nonzero_or n.port_range_start (pos 1024);
  port_range_end = nonzero_or n.port_range_end (pos 65535);
}

-- `applyFileConfig`
unfoldable pub apply_file_config : ValueLibrary → Config → FileConfig → Config
unfolding node_of merge_controller_config merge_edge_config
apply_file_config lib c f =
    let mode =
      if not (is_set f.mode) && (is_set f.mysql_dsn || f.initialized)
      then codes "controller"
      else f.mode in
    let bind = or_default f.frp_bind_addr (codes "0.0.0.0") in
    let addr = or_default f.frp_server_addr (codes "127.0.0.1") in
    let port = nonzero_or f.frp_server_port (pos 7000) in
    let node = completed_node addr port (node_of mode c.node f) in
    record {
      config_version = nonzero_or f.config_version (pos 1);
      configuration_mode = or_default f.configuration_mode (codes "manual");
      connection_tuning = f.connection_tuning;
      mode = mode;
      config_state = c.config_state;
      http_addr = c.http_addr;
      mysql_dsn = f.mysql_dsn;
      cookie_secret = or_default f.cookie_secret (codes "dev-change-me-before-production");
      session_ttl = parse_duration_or lib f.session_ttl c.session_ttl;
      runtime_token_ttl = parse_duration_or lib f.runtime_token_ttl c.runtime_token_ttl;
      udp_connection_ttl = parse_duration_or lib f.udp_connection_ttl c.udp_connection_ttl;
      embedded_frp_enabled = elim f.embedded_frp_enabled [
        | none ↦ c.embedded_frp_enabled
        | some b ↦ b
      ];
      frp_bind_addr = bind;
      frp_proxy_bind_addr = or_default f.frp_proxy_bind_addr bind;
      frp_server_addr = node.frp_advertise_addr;
      frp_server_port = node.frp_bind_port;
      frp_transport_tls = true;
      client_config_comment =
          or_default f.client_config_comment (codes "generated by frp-control-server");
      initial_admin = f.initial_admin;
      controller = merge_controller_config c.controller f.controller;
      edge = merge_edge_config c.edge f.edge;
      node = node;
      initialized = f.initialized || is_set f.initial_admin.password_hash;
    }
