-- ===== src/Manager/Termination.antt =====
-- The methods of internal/frpcore/manager.go that cut off a user, a token, a client or a lease: they
-- revoke its runtime leases and then end its connections.
use meow_frp_server.Prelude.{
  ℕ, ◌+◌, ◌≡◌, ◌≢◌, Bool, true, false, ◌&&◌, ◌||◌, none, some, refl, List, [], arith, Bytes,
  bytes_eq, bytes_eq_iff, ◌==◌, length, if◌then◌else◌,
}
use meow_frp_server.Prelude.Table.{lookup, lookup-map_values}
use meow_frp_server.Manager.Admission.{
  Admission, UserInfo, begin_proxy, existing_runtime, invalidate_runtime, lease_meta, revoke,
}
use meow_frp_server.Manager.Network.Blocking.{Ends, terminate_connections-Ends}
use meow_frp_server.Prelude.Library.{TextLibrary}
use meow_frp_server.Manager.Tracking.{Tracking, terminate_connections}
use meow_frp_server.Manager.Types.{ActiveConnection, RuntimeLease}

-- `Manager`, the fields that are modelled.
pub record Manager : Type 0 where
  pub admission : Admission
  pub tracking : Tracking

-- What all four methods do with their two tests.
unfoldable pub cut_off :
    (RuntimeLease → Bool) → (ActiveConnection → Bool) → Manager → Manager × ℕ × List ℕ
cut_off leases connections m =
    let r = terminate_connections connections m.tracking in
    (record { admission = invalidate_runtime leases m.admission; tracking = r.0 }, r.1, r.2)

unfoldable pub terminate_connections_for_user : ℕ → Manager → Manager × ℕ × List ℕ
unfolding cut_off
terminate_connections_for_user user_id m =
    if user_id == 0
    then (m, 0, [])
    else cut_off (λ l. l.user_id == user_id) (λ c. c.user_id == user_id) m

unfoldable pub terminate_connections_for_token : ℕ → Manager → Manager × ℕ × List ℕ
unfolding cut_off
terminate_connections_for_token token_id m =
    if token_id == 0
    then (m, 0, [])
    else cut_off (λ l. l.token_id == token_id) (λ c. c.token_id == token_id) m

unfoldable pub terminate_connections_for_client :
    TextLibrary → ℕ → Bytes → Manager → Manager × ℕ × List ℕ
unfolding cut_off
terminate_connections_for_client lib token_id client_id m =
    let id = lib.trim_space client_id in
    if token_id == 0 || bytes_eq id []
    then (m, 0, [])
    else cut_off (λ l. l.token_id == token_id && bytes_eq l.client_id id)
        (λ c. c.token_id == token_id && bytes_eq c.client_id id) m

unfoldable pub terminate_connections_for_lease : Bytes → Manager → Manager × ℕ × List ℕ
unfolding cut_off
terminate_connections_for_lease lease_id m =
    if bytes_eq lease_id []
    then (m, 0, [])
    else cut_off (λ l. bytes_eq l.lease_id lease_id) (λ c. bytes_eq c.lease_id lease_id) m

-- Nothing that passes the tests is left: no connection, and no lease that could begin a
-- registration or keep a connection through an outage. What does not pass them is kept as it was.
pub record IsCutOff (leases : RuntimeLease → Bool) (connections : ActiveConnection → Bool)
    (m : Manager) (r : Manager × ℕ × List ℕ) : Type 0 where
  pub ended : Ends connections m.tracking r.0.tracking r.2
  pub counted :
      r.1 + (length r.0.tracking.tcp_connections + length r.0.tracking.udp_flows)
      ≡ length m.tracking.tcp_connections + length m.tracking.udp_flows
  pub no_begin :
      (u : UserInfo) (l : RuntimeLease)
      → lookup (lease_meta u) m.admission.runtime_leases ≡ some l
      → leases l ≡ true
      → begin_proxy u r.0.admission ≡ false
  pub no_runtime :
      (id hash : Bytes) (l : RuntimeLease)
      → lookup id m.admission.runtime_leases ≡ some l
      → leases l ≡ true
      → (existing_runtime id hash r.0.admission).1 ≡ false
  pub leases_kept :
      (id : Bytes) (l : RuntimeLease)
      → lookup id m.admission.runtime_leases ≡ some l
      → leases l ≡ false
      → lookup id r.0.admission.runtime_leases ≡ some l
  pub no_lease_added :
      (id : Bytes)
      → lookup id m.admission.runtime_leases ≡ none
      → lookup id r.0.admission.runtime_leases ≡ none
  pub admission_kept :
      r.0.admission ≡ record (m.admission) { runtime_leases = r.0.admission.runtime_leases }
  pub tracking_kept : r.0.tracking ≡ record (m.tracking) {
    tcp_connections = r.0.tracking.tcp_connections;
    udp_flows = r.0.tracking.udp_flows;
  }

cut_off-IsCutOff :
    (leases : RuntimeLease → Bool) (connections : ActiveConnection → Bool) (m : Manager)
    → IsCutOff leases connections m (cut_off leases connections m)
unfolding cut_off invalidate_runtime begin_proxy existing_runtime
cut_off-IsCutOff leases connections m = record {
  ended = (terminate_connections-Ends connections m.tracking).0;
  counted = (terminate_connections-Ends connections m.tracking).1;
  no_begin = λ u l h p.
      unfold bytes_eq in
      ground
        (arith, h, p, lookup-map_values (revoke leases) (lease_meta u) m.admission.runtime_leases);
  no_runtime = λ id hash l h p.
      unfold bytes_eq in
      ground (arith, h, p, lookup-map_values (revoke leases) id m.admission.runtime_leases);
  leases_kept = λ id l h p.
      ground (arith, h, p, lookup-map_values (revoke leases) id m.admission.runtime_leases);
  no_lease_added =
      λ id h. ground (arith, h, lookup-map_values (revoke leases) id m.admission.runtime_leases);
  admission_kept = refl;
  tracking_kept = unfold terminate_connections in refl;
}

-- Each of the four methods, called with an argument that is not empty, cuts off what it names, a user,
-- a token, a client of a token, or a lease: its connections end and its leases are of no more use. The
-- other connections and leases are kept, and of what is closed everything is an end of a connection named.
pub terminate-IsCutOff :
    (lib : TextLibrary) (m : Manager) (id : ℕ) (text : Bytes)
    → id ≢ 0
    → lib.trim_space text ≢ []
    → text ≢ []
    → IsCutOff (λ l. l.user_id == id) (λ c. c.user_id == id) m (terminate_connections_for_user id m)
      × IsCutOff
          (λ l. l.token_id == id)
          (λ c. c.token_id == id)
          m
          (terminate_connections_for_token id m)
      × IsCutOff
          (λ l. l.token_id == id && bytes_eq l.client_id (lib.trim_space text))
          (λ c. c.token_id == id && bytes_eq c.client_id (lib.trim_space text))
          m
          (terminate_connections_for_client lib id text m)
      × IsCutOff
          (λ l. bytes_eq l.lease_id text)
          (λ c. bytes_eq c.lease_id text)
          m
          (terminate_connections_for_lease text m)
unfolding terminate_connections_for_user terminate_connections_for_token
    terminate_connections_for_client terminate_connections_for_lease
terminate-IsCutOff lib m id text n t f =
    let some_id : (id == 0) ≡ false = ground (arith, n) in
    let some_client : bytes_eq (lib.trim_space text) [] ≡ false =
      ground (arith, t, bytes_eq_iff (lib.trim_space text) []) in
    let some_text : bytes_eq text [] ≡ false = ground (arith, f, bytes_eq_iff text []) in
    (
      rw some_id (cut_off-IsCutOff _ _ m),
      rw some_id (cut_off-IsCutOff _ _ m),
      rw (some_id, some_client) (cut_off-IsCutOff _ _ m),
      rw some_text (cut_off-IsCutOff _ _ m),
    )
