-- ===== src/Fault/Heartbeat.antt =====
-- The requests that internal/httpapi/node_fault.go answers during a fault: `faultHeartbeat`,
-- `guardNodeAdmission` and `faultFRPPlugin`.
use meow_frp_server.Prelude.{
  ℕ, ◌+◌, ◌≤◌, Bool, true, false, not, ◌&&◌, ◌||◌, Option, none, some, List, [], ◌∷◌, ◌≡◌, inl, inr,
  refl, arith, Bytes, codes, bytes_eq, bytes_eq_iff, ◌==◌, ltb, if◌then◌else◌, Option-cases,
}
use meow_frp_server.Prelude.Library.{TextLibrary}
use meow_frp_server.Prelude.Table.{lookup, insert, lookup-insert}
use meow_frp_server.Manager.Admission.{client_proxy_count}
use meow_frp_server.Fault.{
  FaultClient, EdgeLink, Server, node_unavailable, node_unavailable_edge, fault_client_key,
  fault_drain_key, put_client, client_is_draining, allow_fault_runtime,
}
pub mod Replies

-- The commands of a reply; their texts are left out.
pub data Command : Type 0 where
  reauth show_warning : Command

-- `faultHeartbeat` leaves the request to the ordinary handler, answers that the node is at fault, that
-- it recovers, or what a draining client has to do, with the number of its open proxies.
pub data Reply : Type 0 where
  unhandled node_fault_response node_recovering : Reply
  node_fault : List Command → ℕ → Reply

-- The store that the client's presence is reported to, with the client row and whether it is active.
pub data Presence : Type 0 where
  edge_state store : ℕ → Bool → Presence

-- The client with what `faultHeartbeat` does first: a fault of the node drains it.
unfoldable pub with_fault : EdgeLink → Server → FaultClient → FaultClient
unfolding node_unavailable_edge
with_fault e s c =
    if s.fault.closed && (s.has_edge_state || s.fault.database_failed) || node_unavailable_edge e s
    then record c { draining = true }
    else c

-- The client that is answered, and the commands.
unfoldable pub commands : Bool → ℕ → FaultClient → FaultClient × List Command
commands authoritative count c =
    if count == 0 && authoritative
    then (record c { logout_sent = true }, reauth ∷ [])
    else if not c.warned
    then (record c { warned = true }, show_warning ∷ [])
    else (c, [])

-- The call of `TouchClient` or `TouchClientHeartbeat`: `has_store` tells whether there is a store.
unfoldable pub presence : Bool → Bool → ℕ → ℕ → Server → Option Presence
presence has_store frpc_running row_id count s =
    if s.has_edge_state && not s.fault.local_failed
    then some (edge_state row_id (ltb 0 count || frpc_running))
    else if not s.fault.closed && not s.has_edge_state && has_store
    then some (store row_id (ltb 0 count || frpc_running))
    else none

module _ (lib : TextLibrary) where
  -- `s.fault.drains[…] = true`, where the client drains because of a fault.
  unfoldable pub drain_with_fault : EdgeLink → FaultClient → Server → Server
  unfolding node_unavailable_edge
  drain_with_fault e c s =
      if s.fault.closed && (s.has_edge_state || s.fault.database_failed)
        || node_unavailable_edge e s
      then record s {
        fault = record (s.fault) {
          drains = insert (fault_drain_key lib c.token_id c.client_id) true s.fault.drains;
        };
      }
      else s

  -- The rest of `faultHeartbeat`, for a client that the node knows.
  unfoldable pub answer_known :
      Bool → Bool → ℕ → Bytes → FaultClient → Server → Server × Reply × Option Presence
  answer_known has_store frpc_running now key c s =
      let count = client_proxy_count c.token_id c.client_id s.core in
      let told = commands s.embedded_frp_enabled count (record c { last_seen = now }) in
      if not c.draining
      then if s.fault.closed && not s.has_edge_state
        then (put_client lib key (record c { last_seen = now }) s, node_recovering, none)
        else (put_client lib key c s, unhandled, none)
      else (
        put_client lib key told.0 s,
        node_fault told.1 count,
        presence has_store frpc_running c.row_id count s,
      )

  -- `faultHeartbeat`, for the fingerprint of the access token and the client's id.
  unfoldable pub fault_heartbeat :
      Bool → Bool → ℕ → EdgeLink → Bytes → Bytes → Server → Server × Reply × Option Presence
  unfolding answer_known with_fault drain_with_fault
  fault_heartbeat has_store frpc_running now e hash client_id s =
      let key = fault_client_key lib hash client_id in
      elim (lookup key s.fault.clients) [
        | none ↦ (s, if node_unavailable e s then node_fault_response else unhandled, none)
        | some c ↦
            answer_known has_store frpc_running now key (with_fault e s c) (drain_with_fault e c s)
      ]

  -- `guardNodeAdmission`: whether the request of this path reaches the next handler.
  unfoldable pub guard_node_admission : EdgeLink → Bytes → Server → Bool
  guard_node_admission e path s = not (
      (bytes_eq path (codes "/api/v1/client/login")
        || bytes_eq path (codes "/api/v1/client/resource-policy")
        || bytes_eq path (codes "/api/v1/client/bootstrap"))
      && node_unavailable e s)

  -- `faultFRPPlugin`: `some` is the answer that it writes, rejecting or allowing, and `none` leaves the
  -- request to the ordinary handler. The content is the lease id and the fingerprint of the token of
  -- the user's metas, or `none` where it is not JSON.
  unfoldable pub fault_frp_plugin : EdgeLink → Bytes → Option (Bytes × Bytes) → Server → Option Bool
  fault_frp_plugin e op content s =
      if bytes_eq op (codes "Login") || bytes_eq op (codes "NewProxy")
      then if node_unavailable e s then some false else none
      else if not (bytes_eq op (codes "Ping"))
          && not (bytes_eq op (codes "NewWorkConn"))
          && not (bytes_eq op (codes "NewUserConn"))
      then none
      else elim content [
        | none ↦ none
        | some metas ↦ if allow_fault_runtime lib e metas.0 metas.1 s then some true else none
      ]
