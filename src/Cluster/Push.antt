-- ===== src/Cluster/Push.antt =====
-- What the controller sends to a node next: `pushNodeIdentity` of internal/cluster/push.go, with
-- `identitySnapshotForUsers` of server.go for the nodes that do not know pages. The encoding of a snapshot
-- as JSON is a parameter.
pub mod Tracked
pub mod InFlight
use meow_frp_server.Prelude.{
  ℕ, Bool, true, false, not, ◌&&◌, ◌||◌, Option, none, some, List, [], ◌∷◌, map, Bytes, bytes_eq,
  ltb, leb, filter, if◌then◌else◌,
}
use meow_frp_server.Identity.{
  Index, contains, has_access, next_identity_revision, pending_node_identity_users,
}
use meow_frp_server.Cluster.Types.{Block, SnapshotUser, SnapshotToken, IdentitySnapshot}
use meow_frp_server.Cluster.Session.{NodeSession, Failure, request_cache_reset, enqueue_identity}
use meow_frp_server.Cluster.Pages.{missing_from, identity_page}
use meow_frp_server.Cluster.Blocklist.{blocked_ip_snapshot}

-- What the push reads of the controller and of its tables, with the id of a new cache session.
pub record Source : Type 0 where
  pub database_suspect : Bool
  pub database_fault : Bool
  pub heartbeat_interval : ℕ
  pub fresh_session : Bytes
  pub users : List SnapshotUser
  pub tokens : List SnapshotToken
  pub blocks : List Block
  pub encode : IdentitySnapshot → Bytes

-- The users of a snapshot: all of those that may use the node, or those of them that are asked for.
abbrev pub kept_users : (ℕ → Bool) → Option (List ℕ) → List SnapshotUser → List SnapshotUser
kept_users allowed none users = filter (λ u. allowed u.id) users
kept_users allowed (some ids) users = filter (λ u. contains u.id ids && allowed u.id) users

-- `identitySnapshotForUsers`, less the encoding.
unfoldable pub snapshot_for_users :
    Source → Bytes → Option (List ℕ) → Index → IdentitySnapshot × Index
unfolding next_identity_revision
snapshot_for_users source node requested index =
    let drawn = next_identity_revision index in
    let kept = kept_users (λ id. has_access id node index.access) requested source.users in
    let ids = map (λ u. u.id) kept in
    let incremental : Bool = elim requested [ none ↦ false | some _ ↦ true ] in
    (
      record {
        baseline = false;
        baseline_end = false;
        replace_blocked_ips = false;
        incremental = incremental;
        removed_user_ids = elim requested [ none ↦ [] | some asked ↦ missing_from ids asked ];
        revision = drawn.revision;
        users = kept;
        tokens = filter (λ t. contains t.user_id ids) source.tokens;
        blocked_ips = if incremental then [] else source.blocks;
        removed_blocked_ips = [];
      },
      drawn,
    )

-- The push of the blocked addresses: one that fails stays due.
unfoldable pub push_blocked : Source → Bool → NodeSession → Index → NodeSession × Index
unfolding blocked_ip_snapshot enqueue_identity
push_blocked source current s index =
    let r = blocked_ip_snapshot source.blocks s index in
    let sent = enqueue_identity current r.0 (source.encode r.0) r.1 r.2 in
    (elim sent.2 [ none ↦ sent.0 | some _ ↦ record sent.0 { needs_blocked_ips = true } ], sent.1)

-- The push of users: all of them, the next page of a baseline, or those that are pending.
unfoldable pub push_users :
    Source → Bool → Option (List ℕ) → NodeSession → Index → NodeSession × Index
unfolding identity_page snapshot_for_users enqueue_identity
push_users source current requested s index =
    if leb 3 s.cache_protocol
    then elim (identity_page source.users source.tokens source.blocks requested s index) [
      | none ↦ (s, index)
      | some r ↦
          let sent = enqueue_identity current r.0 (source.encode r.0) r.1 r.2 in (sent.0, sent.1)
    ]
    else let r = snapshot_for_users source s.node_id requested index in
      let sent = enqueue_identity current r.0 (source.encode r.0) s r.1 in (sent.0, sent.1)

-- The push of the users that are pending, if there are any.
unfoldable pub push_pending : Source → Bool → NodeSession → Index → NodeSession × Index
unfolding push_users pending_node_identity_users
push_pending source current s index =
    elim (pending_node_identity_users s.node_id s.cache_session_id index) [
      | [] ↦ (s, index)
      | id ∷ ids ↦
          push_users source current (if ltb s.cache_protocol 2 then none else some (id ∷ ids)) s
            index
    ]

-- The push that restarts the cache of the node; one that fails cancels the connection.
unfoldable pub push_reset : Source → Bool → NodeSession → Index → NodeSession × Index × Bool
unfolding request_cache_reset
push_reset source current s index =
    let r =
      request_cache_reset source.fresh_session source.database_fault source.heartbeat_interval
        current s in
    (r.0, index, elim r.1 [ none ↦ false | some _ ↦ true ])

-- Whether a snapshot may follow: the cache session has begun, and no snapshot waits to be acknowledged.
abbrev pub is_idle : NodeSession → Bool
is_idle s = not (bytes_eq s.cache_session_id []) && leb s.pending_revision s.applied_revision

abbrev pub no_cancel : NodeSession × Index → NodeSession × Index × Bool
no_cancel r = (r.0, r.1, false)

-- `pushNodeIdentity`, with whether it cancels the connection.
unfoldable pub push_node_identity : Source → Bool → NodeSession → Index → NodeSession × Index × Bool
unfolding push_reset push_blocked push_users push_pending
push_node_identity source current s index =
    let paged = leb 3 s.cache_protocol in
    let full = s.needs_full in
    let baseline = s.baseline_active in
    if source.database_suspect || not (is_idle s)
    then (s, index, false)
    else if full && not s.cache_ready && paged
    then push_reset source current s index
    else if not s.cache_ready
    then (s, index, false)
    else if full && not baseline && paged
    then push_reset source current s index
    else if s.needs_blocked_ips && not full && not baseline && paged
    then no_cancel (push_blocked source current s index)
    else if full || baseline
    then no_cancel (push_users source current none s index)
    else no_cancel (push_pending source current s index)
