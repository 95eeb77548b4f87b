-- ===== src/Config/Checks.antt =====
-- The validation of a configuration: `Validate` and `ValidateNodeRuntime` of internal/config/config.go, and
-- `ValidateConnectionTuning` of connection_tuning.go.
use meow_frp_server.Prelude.{
  Bool, not, ◌&&◌, ◌||◌, Option, none, some, [], Bytes, codes, bytes_eq, if◌then◌else◌,
}
use meow_frp_server.Prelude.Integers.{ℤ, pos, negsuc, int_leb, is_positive}
use meow_frp_server.Config.Types.{ConnectionTuning, NodeRuntimeConfig, TlsFiles, Config}

-- What a check reports; the texts of the errors are left out.
pub data Problem : Type 0 where
  tuning_out_of_range unknown_configuration_mode unknown_mode not_initialized no_administrator
        no_mysql :
      Problem
  no_enrolment no_edge_tls port_out_of_range invalid_port_range : Problem

abbrev pub is_within : ℤ → ℤ → ℤ → Bool
is_within low high value = int_leb low value && int_leb value high

-- `ValidateConnectionTuning`
unfoldable pub validate_connection_tuning : ConnectionTuning → Option Problem
validate_connection_tuning t =
    if is_within (pos 0) (pos 3600) t.tcp_mux_keepalive_seconds
      && is_within (negsuc 0) (pos 86400) t.tcp_keepalive_seconds
      && is_within (pos 0) (pos 1024) t.max_pool_count
      && is_within (negsuc 0) (pos 3600) t.heartbeat_timeout_seconds
      && is_within (pos 0) (pos 600) t.user_connection_timeout_seconds
      && is_within (pos 0) (pos 120) t.mtls_handshake_timeout_seconds
    then none
    else some tuning_out_of_range

-- `ValidateNodeRuntime`
unfoldable pub validate_node_runtime : NodeRuntimeConfig → Option Problem
validate_node_runtime n =
    if not (is_positive n.frp_bind_port) || not (int_leb n.frp_bind_port (pos 65535))
    then some port_out_of_range
    else if not (int_leb (pos 1) n.port_range_start)
        || not (int_leb n.port_range_end (pos 65535))
        || not (int_leb n.port_range_start n.port_range_end)
    then some invalid_port_range
    else none

abbrev pub is_set : Bytes → Bool
is_set value = not (bytes_eq value [])

-- Whether the edge has certificates, in the configuration or in files.
abbrev pub has_tls : TlsFiles → Bool
has_tls t =
    is_set t.ca_certificate_base64 && is_set t.certificate_base64 && is_set t.private_key_base64
    || is_set t.ca_file && is_set t.cert_file && is_set t.key_file

abbrev pub first_of : Option Problem → Option Problem → Option Problem
first_of none p = p
first_of (some e) p = some e

-- The part of `Validate` that depends on the mode.
unfoldable pub validate_mode : Config → Option Problem
validate_mode c =
    if bytes_eq c.mode (codes "controller")
    then if is_set c.mysql_dsn then none else some no_mysql
    else if not (is_set c.edge.node_id) || not (is_set c.edge.controller_addr)
    then some no_enrolment
    else if has_tls c.edge.tls
    then none
    else some no_edge_tls

-- `Validate`
unfoldable pub validate : Config → Option Problem
unfolding validate_connection_tuning validate_node_runtime validate_mode
validate c = first_of (validate_connection_tuning c.connection_tuning) (
    if is_set c.configuration_mode
      && not (bytes_eq c.configuration_mode (codes "automatic"))
      && not (bytes_eq c.configuration_mode (codes "manual"))
    then some unknown_configuration_mode
    else if not (bytes_eq c.mode (codes "controller")) && not (bytes_eq c.mode (codes "edge"))
    then some unknown_mode
    else if not c.initialized
    then some not_initialized
    else if not (is_set c.initial_admin.username) || not (is_set c.initial_admin.password_hash)
    then some no_administrator
    else first_of (validate_mode c) (validate_node_runtime c.node))
