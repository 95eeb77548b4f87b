-- ===== src/Identity.antt =====
-- internal/db/user_node_cache.go: the durable index of which user is cached on which node, and up to
-- which revision. A table is a list of rows, a transaction happens as a whole or not at all, and a
-- SELECT without ORDER BY goes in table order. Times are left out: `cached_at` is whether it is set.
use meow_frp_server.Prelude.{
  ℕ, ◌+◌, Bool, true, false, not, ◌&&◌, ◌||◌, Option, none, some, List, [], ◌∷◌, ◌++◌, Bytes, codes,
  bytes_eq, ltb, leb, ◌==◌, take, if◌then◌else◌,
}
use meow_frp_server.Prelude.Table.{Table, lookup, insert}
pub mod Rows
pub mod Changes
pub mod Consistency
pub mod Delivery

-- A row of `user_node_cache`, whose primary key is the user and the node.
pub record CacheRow : Type 0 where
  pub user_id : ℕ
  pub node_id : Bytes
  pub session_id : Bytes
  pub desired_revision : ℕ
  pub applied_revision : ℕ
  pub cached : Bool

-- `sessions` is `node_cache_sessions`, with the session and the boot of each node, `access` is
-- `user_node_access`, and `nodes` are the ids of `edge_nodes`.
pub record Index : Type 0 where
  pub revision : ℕ
  pub cache : List CacheRow
  pub sessions : Table (Bytes × Bytes)
  pub access : List (ℕ × Bytes)
  pub nodes : List Bytes

abbrev pub greatest : ℕ → ℕ → ℕ
greatest a b = if leb a b then b else a

abbrev pub contains : ℕ → List ℕ → Bool
contains x [] = false
contains x (y ∷ ys) = x == y || contains x ys

abbrev pub is_row : ℕ → Bytes → CacheRow → Bool
is_row user node r = r.user_id == user && bytes_eq r.node_id node

unfoldable pub find_row : ℕ → Bytes → List CacheRow → Option CacheRow
find_row user node [] = none
find_row user node (r ∷ rs) = if is_row user node r then some r else find_row user node rs

-- `UPDATE user_node_cache SET … WHERE …`
unfoldable pub update_rows :
    (CacheRow → Bool) → (CacheRow → CacheRow) → List CacheRow → List CacheRow
update_rows p f [] = []
update_rows p f (r ∷ rs) = (if p r then f r else r) ∷ update_rows p f rs

-- `DELETE FROM user_node_cache WHERE …`
unfoldable pub delete_rows : (CacheRow → Bool) → List CacheRow → List CacheRow
delete_rows p [] = []
delete_rows p (r ∷ rs) = let rest = delete_rows p rs in if p r then rest else r ∷ rest

-- `INSERT … ON DUPLICATE KEY UPDATE desired_revision=GREATEST(desired_revision,VALUES(desired_revision))`
unfoldable pub upsert_desired : ℕ → Bytes → Bytes → ℕ → List CacheRow → List CacheRow
upsert_desired user node session revision [] =
    record {
      user_id = user;
      node_id = node;
      session_id = session;
      desired_revision = revision;
      applied_revision = 0;
      cached = false;
    }
    ∷ []
upsert_desired user node session revision (r ∷ rs) =
    let rest = upsert_desired user node session revision rs in
    if is_row user node r
    then record r { desired_revision = greatest r.desired_revision revision } ∷ rs
    else r ∷ rest

-- `NextIdentityRevision`: the counter, which is the revision that it returns.
unfoldable pub next_identity_revision : Index → Index
next_identity_revision s = record s { revision = s.revision + 1 }

-- `ResetNodeIdentityCache`
unfoldable pub reset_node_identity_cache : Bytes → Bytes → Bytes → Index → Index
reset_node_identity_cache node session boot s = record s {
  sessions = insert node (session, boot) s.sessions;
  cache = delete_rows (λ r. bytes_eq r.node_id node) s.cache;
}

-- `COALESCE(n.session_id,'')`
abbrev pub session_of : Bytes → Index → Bytes
session_of node s = elim (lookup node s.sessions) [ none ↦ [] | some v ↦ v.0 ]

abbrev pub has_access : ℕ → Bytes → List (ℕ × Bytes) → Bool
has_access user node [] = false
has_access user node ((u, n) ∷ rest) = u == user && bytes_eq n node || has_access user node rest

-- The nodes of `user_node_cache UNION user_node_access`.
unfoldable pub is_target : ℕ → Index → Bytes → Bool
is_target user s node =
    elim (find_row user node s.cache) [ some _ ↦ true | none ↦ false ]
    || has_access user node s.access

-- The loop over the targets, which are edge nodes.
unfoldable pub mark_targets : ℕ → ℕ → Index → List Bytes → List CacheRow → List CacheRow
mark_targets user revision s [] rows = rows
mark_targets user revision s (n ∷ ns) rows =
    mark_targets user revision s ns
      (if is_target user s n then upsert_desired user n (session_of n s) revision rows else rows)

-- `markUserIdentityDirtyTx`
unfoldable pub mark_user_identity_dirty : ℕ → Index → Index
unfolding mark_targets
mark_user_identity_dirty user s =
    let next = s.revision + 1 in
    record s { revision = next; cache = mark_targets user next s s.nodes s.cache }

-- The row awaits an acknowledgement.
abbrev pub is_pending : CacheRow → Bool
is_pending r = ltb r.applied_revision r.desired_revision

abbrev pub insert_id : ℕ → List ℕ → List ℕ
insert_id x [] = x ∷ []
insert_id x (y ∷ ys) = if leb x y then x ∷ y ∷ ys else y ∷ insert_id x ys

-- `… ORDER BY user_id`
unfoldable pub pending_ids : Bytes → Bytes → List CacheRow → List ℕ
pending_ids node session [] = []
pending_ids node session (r ∷ rs) =
    let rest = pending_ids node session rs in
    if bytes_eq r.node_id node && bytes_eq r.session_id session && is_pending r
    then insert_id r.user_id rest
    else rest

-- `PendingNodeIdentityUsers`
unfoldable pub pending_node_identity_users : Bytes → Bytes → Index → List ℕ
pending_node_identity_users node session s = take 64 (pending_ids node session s.cache)

-- `lockCacheSession`: whether it succeeds.
unfoldable pub lock_cache_session : Bytes → Bytes → Index → Bool
lock_cache_session node session s = elim (lookup node s.sessions) [
  | none ↦ false
  | some v ↦ bytes_eq v.0 session
]

unfoldable pub prepare_rows : Bytes → Bytes → ℕ → List ℕ → List CacheRow → List CacheRow
prepare_rows node session revision [] rows = rows
prepare_rows node session revision (id ∷ ids) rows =
    prepare_rows node session revision ids (upsert_desired id node session revision rows)

-- `PrepareNodeIdentityCache`
unfoldable pub prepare_node_identity_cache : Bytes → Bytes → ℕ → List ℕ → Index → Option Index
prepare_node_identity_cache node session revision users s =
    if lock_cache_session node session s
    then some (record s { cache = prepare_rows node session revision users s.cache })
    else none

abbrev pub is_own : ℕ → Bytes → Bytes → CacheRow → Bool
is_own id node session r = is_row id node r && bytes_eq r.session_id session

abbrev pub applied : Bool → ℕ → CacheRow → CacheRow
applied cached revision r = record r {
  applied_revision = greatest r.applied_revision revision;
  cached = cached;
}

unfoldable pub confirm_users : Bytes → Bytes → ℕ → List ℕ → List CacheRow → List CacheRow
confirm_users node session revision [] rows = rows
confirm_users node session revision (id ∷ ids) rows =
    confirm_users node session revision ids
      (update_rows (is_own id node session) (applied true revision) rows)

unfoldable pub confirm_removed : Bytes → Bytes → ℕ → List ℕ → List CacheRow → List CacheRow
confirm_removed node session revision [] rows = rows
confirm_removed node session revision (id ∷ ids) rows = confirm_removed node session revision ids (
    delete_rows (λ r. is_own id node session r && leb r.desired_revision revision)
      (update_rows (is_own id node session) (applied false revision) rows))

abbrev pub is_in : Bytes → Bytes → CacheRow → Bool
is_in node session r = bytes_eq r.node_id node && bytes_eq r.session_id session

-- What a full snapshot does to the users that it omits.
unfoldable pub confirm_full : Bytes → Bytes → ℕ → List CacheRow → List CacheRow
confirm_full node session revision rows =
    delete_rows (λ r. is_in node session r && leb r.desired_revision revision && not r.cached)
      (update_rows (λ r. is_in node session r && ltb r.applied_revision revision)
        (λ r. record r { cached = false; applied_revision = revision }) rows)

-- `ConfirmNodeIdentityCache`
unfoldable pub confirm_node_identity_cache :
    Bytes → Bytes → ℕ → List ℕ → List ℕ → Bool → Index → Option Index
confirm_node_identity_cache node session revision users removed full s =
    let rows =
      confirm_removed node session revision removed
        (confirm_users node session revision users s.cache) in
    if lock_cache_session node session s
    then some (record s { cache = if full then confirm_full node session revision rows else rows })
    else none
