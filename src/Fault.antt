-- ===== src/Fault.antt =====
-- internal/httpapi/node_fault.go: how a node closes admission when its database or its controller is
-- out of reach, drains the clients that it knows, and opens again. The handlers run one after the
-- other here; the clock, the state of the edge link and the fingerprint of tokens are arguments.
use meow_frp_server.Prelude.{
  ℕ, ◌+◌, ◌-◌, ◌*◌, ◌^◌, Bool, true, false, not, ◌&&◌, ◌||◌, Option, none, some, List, [], ◌∷◌,
  ◌++◌, Bytes, codes, bytes_eq, decimal, ltb, leb, ◌==◌, if◌then◌else◌,
}
use meow_frp_server.Prelude.Library.{TextLibrary}
use meow_frp_server.Prelude.Table.{Table, lookup, insert, remove, get_or, remove_where, map_values}
use meow_frp_server.Dpi.{Service, set_provider_unavailable, prime_lease}
use meow_frp_server.Manager.Types.{RuntimeLease}
use meow_frp_server.Manager.Admission.{
  Admission, set_admission_closed, pause_admission, finish_client_drain, client_draining,
  client_proxy_count, existing_runtime, remember_runtime_lease,
}
mod Types
pub use Types.*
pub mod Health
pub mod Login
pub mod Heartbeat

-- `nodeUnavailableEdge`
unfoldable pub node_unavailable_edge : EdgeLink → Server → Bool
node_unavailable_edge e s =
    s.mode_edge
    && (not e.has_client || not e.connected || e.controller_fault || e.identity_reset_pending)

-- `edgeOnlineForNewSessions` of handlers_edge_client.go
unfoldable pub edge_online_for_new_sessions : EdgeLink → Server → Bool
edge_online_for_new_sessions e s =
    not (s.fault.closed || s.fault.local_failed)
    && s.has_edge_state
    && e.has_client
    && e.connected
    && e.sync_ready
    && not e.controller_fault

-- `nodeUnavailable`
unfoldable pub node_unavailable : EdgeLink → Server → Bool
unfolding edge_online_for_new_sessions
node_unavailable e s =
    if s.mode_edge then not (edge_online_for_new_sessions e s) else s.fault.closed

abbrev pub drained : FaultClient → FaultClient
drained c = record c { draining = true }

module _ (lib : TextLibrary) where
  open lib use {trim_space}

  -- `faultClientKey`
  abbrev pub fault_client_key : Bytes → Bytes → Bytes
  fault_client_key hash id = hash ++ codes ":" ++ trim_space id

  -- `faultDrainKey`
  abbrev pub fault_drain_key : ℕ → Bytes → Bytes
  fault_drain_key token_id id = decimal token_id ++ codes ":" ++ trim_space id

  -- `s.fault.drains[faultDrainKey(…)] = true` for each client.
  unfoldable pub mark_drains : Table FaultClient → Table Bool → Table Bool
  mark_drains [] drains = drains
  mark_drains ((_, c) ∷ cs) drains =
      mark_drains cs (insert (fault_drain_key c.token_id c.client_id) true drains)

  -- `clientIsDraining`
  unfoldable pub client_is_draining : ℕ → Bytes → Server → Bool
  client_is_draining token_id client_id s =
      get_or (fault_drain_key token_id client_id) false s.fault.drains
      || client_draining token_id client_id s.core

  -- `transitionNodeFault`
  unfoldable pub transition_node_fault : Bool → Server → Server
  transition_node_fault closed s =
      if not closed && s.has_edge_state && s.fault.local_failed then s else record s {
        core = set_admission_closed closed s.core;
        dpi = set_provider_unavailable closed (not s.has_edge_state) s.dpi;
        fault =
            if closed
            then record (s.fault) {
              closed = closed;
              clients = map_values drained s.fault.clients;
              drains = mark_drains s.fault.clients s.fault.drains;
            }
            else record (s.fault) { closed = closed };
      }

  -- `pauseDatabaseAdmission`
  unfoldable pub pause_database_admission : Server → Server
  pause_database_admission s = record s {
    core = pause_admission s.core;
    dpi = set_provider_unavailable true true s.dpi;
    fault = record (s.fault) { closed = true };
  }

  -- `SetDatabaseSuspect` and `SetDatabaseFault` on the flags; a nil `controllerControl` has none.
  unfoldable pub set_database_suspect : Bool → Server → Server
  set_database_suspect suspect s = elim s.controller [
    | none ↦ s
    | some c ↦ record s { controller = some (record c { database_suspect = suspect }) }
  ]

  unfoldable pub set_database_fault : Bool → Server → Server
  set_database_fault fault s = elim s.controller [
    | none ↦ s
    | some c ↦ record s {
      controller = some (record {
        database_suspect = if fault then c.database_suspect else false;
        database_fault = fault;
      });
    }
  ]

  -- The part of `observeControllerDatabaseHealth` for a first failure.
  unfoldable pub first_failure : ℕ → Server × Option ℕ → Server × Option ℕ
  unfolding pause_database_admission set_database_suspect
  first_failure now (s, some since) = (s, some since)
  first_failure now (s, none) = (set_database_suspect true (pause_database_admission s), some now)

  -- The part for a failure that lasts.
  unfoldable pub declare_fault : Server → Server
  declare_fault s =
      let failed = record s { fault = record (s.fault) { database_failed = true } } in
      if s.fault.database_failed
      then failed
      else transition_node_fault true (set_database_fault true failed)

  -- The part for a probe that succeeds.
  unfoldable pub database_recovered : Server → Server
  database_recovered s =
      let suspect : Bool = elim s.controller [ none ↦ false | some c ↦ c.database_suspect ] in
      let healthy = record s { fault = record (s.fault) { database_failed = false } } in
      if s.fault.closed || suspect
      then transition_node_fault false (set_database_fault false healthy)
      else healthy

  -- What a failed probe does once `failedSince` is set: past the delay, the fault is declared.
  lasting : ℕ → Server × Option ℕ → Server × Option ℕ
  lasting now (s, none) = (s, none)
  lasting now (s, some since) =
      (if leb fault_delay (now - since) then declare_fault s else s, some since)

  -- `observeControllerDatabaseHealth`: `failed` tells whether the probe returned an error, and the
  -- second component is `failedSince`.
  unfoldable pub observe_controller_database_health :
      ℕ → Bool → Server × Option ℕ → Server × Option ℕ
  unfolding first_failure declare_fault database_recovered lasting
  observe_controller_database_health now failed (s, since) =
      if failed then lasting now (first_failure now (s, since)) else (database_recovered s, none)

  -- One round of the edge's loop in `runNodeHealth`; the probe's result is `none` when none is due.
  unfoldable pub edge_health_round : EdgeLink → Option Bool → Server → Server
  edge_health_round e probe s =
      let probed =
        if s.has_edge_state
        then elim probe [
          | none ↦ s
          | some failed ↦ record s { fault = record (s.fault) { local_failed = failed } }
        ]
        else s in
      let closed =
        not e.has_client
        || not s.has_edge_state
        || not e.connected
        || e.controller_fault
        || e.identity_reset_pending
        || probed.fault.local_failed in
      if (if closed then probed.fault.closed else not probed.fault.closed)
      then probed
      else transition_node_fault closed probed

  -- The clients that `runNodeHealth` forgets: idle for two timeouts, with no open proxy.
  unfoldable pub forget_idle_clients : ℕ → ℕ → Server → Server
  forget_idle_clients heartbeat_timeout now s = record s {
    fault = record (s.fault) {
      clients =
          remove_where
            (λ c.
              ltb (2 * heartbeat_timeout) (now - c.last_seen)
              && client_proxy_count c.token_id c.client_id s.core == 0)
            s.fault.clients;
    };
  }

  -- `databaseRejection`, less the response that it builds.
  unfoldable pub database_rejection : Server → Server
  unfolding pause_database_admission set_database_suspect
  database_rejection s = set_database_suspect true (pause_database_admission s)

  -- What `rememberClient` does to both states where a drain ends.
  unfoldable pub end_drain : ℕ → Bytes → Server → Server
  end_drain token_id client_id s = record s {
    core = finish_client_drain token_id client_id s.core;
    fault = record (s.fault) {
      drains = remove (fault_drain_key token_id client_id) s.fault.drains;
    };
  }

  abbrev pub put_client : Bytes → FaultClient → Server → Server
  put_client key c s = record s {
    fault = record (s.fault) { clients = insert key c s.fault.clients };
  }

  -- `rememberClient` for a client row of this id, token and device.
  unfoldable pub remember_client : ℕ → Bytes → ℕ → ℕ → Bytes → Bool → Server → Server
  remember_client now hash row_id token_id client_id login s =
      let key = fault_client_key hash client_id in
      elim (lookup key s.fault.clients) [
        | some c ↦
            if login
              && c.draining
              && not s.fault.closed
              && client_proxy_count c.token_id c.client_id s.core == 0
            then put_client key
                (record c {
                  draining = false;
                  warned = false;
                  logout_sent = false;
                  last_seen = now;
                })
                (end_drain c.token_id c.client_id s)
            else put_client key (record c { last_seen = now }) s
        | none ↦
            let s' =
              if login && not s.fault.closed && client_proxy_count token_id client_id s.core == 0
              then end_drain token_id client_id s
              else s in
            put_client key
              (record {
                row_id = row_id;
                token_hash = hash;
                token_id = token_id;
                client_id = client_id;
                draining = false;
                warned = false;
                logout_sent = false;
                last_seen = now;
              })
              s'
      ]

  -- `rememberRuntime`
  unfoldable pub remember_runtime : RuntimeLease → Server → Server
  remember_runtime l s = record s {
    core = remember_runtime_lease l s.core;
    dpi =
        prime_lease
          (record {
            user_id = l.user_id;
            token_id = l.token_id;
            client_id = l.client_id;
            lease_id = l.lease_id;
            proxy_name = [];
            proxy_type = [];
            remote_port = 0;
            local_addr = [];
            remote_addr = [];
            user = [];
            metas = [];
          })
          s.dpi;
  }

  -- `allowFaultRuntime`, for a lease id and the fingerprint of a runtime token.
  unfoldable pub allow_fault_runtime : EdgeLink → Bytes → Bytes → Server → Bool
  unfolding node_unavailable_edge
  allow_fault_runtime e lease_id hash s =
      let found = existing_runtime lease_id hash s.core in
      found.1
      && (s.fault.closed
          || node_unavailable_edge e s
          || client_is_draining (found.0).token_id (found.0).client_id s)
