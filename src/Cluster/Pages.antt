-- ===== src/Cluster/Pages.antt =====
-- The pages in which a node gets the users that may use it: `ReadNodeIdentityPage` of
-- internal/db/identity_page.go and `identityPageMessage` of internal/cluster/identity_transfer.go. The
-- tables of users and tokens are lists in the order of their primary keys, which every query asks for.
-- The policies and grants of the users, which a page carries along, are left out.
pub mod Cursor
pub mod Baseline
use meow_frp_server.Prelude.{
  ℕ, ◌+◌, Bool, true, false, not, ◌&&◌, ◌||◌, Option, none, some, List, [], ◌∷◌, map, Bytes, ltb,
  leb, ◌==◌, length, take, filter, if◌then◌else◌,
}
use meow_frp_server.Identity.{Index, contains, has_access, next_identity_revision}
use meow_frp_server.Cluster.Types.{Block, SnapshotUser, SnapshotToken, IdentitySnapshot}
use meow_frp_server.Cluster.Session.{NodeSession}

-- `NodeIdentityPage`
pub record Page : Type 0 where
  pub users : List SnapshotUser
  pub tokens : List SnapshotToken
  pub removed : List ℕ
  pub last_id : ℕ
  pub end_ : Bool

abbrev pub last_id_of : ℕ → List SnapshotUser → ℕ
last_id_of after [] = after
last_id_of after (u ∷ us) = last_id_of u.id us

-- The rows that the query for the users selects, before its limit.
abbrev pub eligible : (ℕ → Bool) → ℕ → List SnapshotUser → List SnapshotUser
eligible allowed after users = filter (λ u. ltb after u.id && allowed u.id) users

abbrev pub missing_from : List ℕ → List ℕ → List ℕ
missing_from kept requested = filter (λ id. not (contains id kept)) requested

-- The page of what the query selects, for the users that were asked for.
abbrev pub page_of : List SnapshotToken → ℕ → List ℕ → ℕ → List SnapshotUser → Page
page_of tokens after requested limit rows =
    let users = take limit rows in
    let ids = map (λ u. u.id) users in
    record {
      users = users;
      tokens = filter (λ t. contains t.user_id ids) tokens;
      removed = missing_from ids requested;
      last_id = last_id_of after users;
      end_ = leb (length rows) limit;
    }

-- `ReadNodeIdentityPage`, where `none` for the users asked for is every user; the outer `none` is the error.
unfoldable pub read_node_identity_page :
    (ℕ → Bool) → List SnapshotUser → List SnapshotToken → ℕ → Option (List ℕ) → ℕ → Option Page
read_node_identity_page allowed users tokens after none limit =
    if ltb limit 1
    then none
    else some (page_of tokens after [] limit (take (limit + 1) (eligible allowed after users)))
read_node_identity_page allowed users tokens after (some ids) limit =
    if ltb limit 1 || (ltb limit (length ids) || not (after == 0))
    then none
    else some (
        page_of tokens after ids limit
          (take (limit + 1) (eligible (λ id. allowed id && contains id ids) after users)))

-- The snapshot that carries a page; the last page of a baseline carries the blocked addresses.
abbrev pub page_snapshot : Bool → ℕ → List Block → Page → IdentitySnapshot
page_snapshot baseline revision blocks p =
    let last = baseline && p.end_ in
    record {
      baseline = baseline;
      baseline_end = last;
      replace_blocked_ips = last;
      incremental = not baseline;
      removed_user_ids = p.removed;
      revision = revision;
      users = p.users;
      tokens = p.tokens;
      blocked_ips = if last then blocks else [];
      removed_blocked_ips = [];
    }

-- `identityPageMessage`, with the tables of users, tokens and blocked addresses.
unfoldable pub identity_page :
    List SnapshotUser
    → List SnapshotToken
    → List Block
    → Option (List ℕ)
    → NodeSession
    → Index
    → Option (IdentitySnapshot × NodeSession × Index)
unfolding read_node_identity_page next_identity_revision
identity_page users tokens blocks requested s index =
    let cursor = if s.baseline_active then s.baseline_cursor else 0 in
    let drawn = next_identity_revision index in
    elim (read_node_identity_page (λ id. has_access id s.node_id index.access) users tokens cursor
      requested 64) [
        | none ↦ none
        | some p ↦ some (
          page_snapshot s.baseline_active drawn.revision blocks p,
          record s { pending_cursor = p.last_id },
          drawn,
        )
      ]
