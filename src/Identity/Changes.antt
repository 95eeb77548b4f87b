-- ===== src/Identity/Changes.antt =====
-- The transactions of internal/db/user_node_cache.go in a row, and what other code of internal/db does to
-- the tables that they read: nodes.go registers and deletes nodes, and user_nodes.go sets who has access. A transaction that fails changes nothing.
use meow_frp_server.Prelude.{
  ℕ, Bool, true, false, not, Option, none, some, List, [], ◌∷◌, ◌++◌, ◌≤◌, Bytes, bytes_eq, filter,
  if◌then◌else◌,
}
use meow_frp_server.Prelude.Table.{remove}
use meow_frp_server.Identity.{
  Index, delete_rows, next_identity_revision, reset_node_identity_cache, mark_user_identity_dirty,
  prepare_node_identity_cache, confirm_node_identity_cache,
}

pub data Change : Type 0 where
  draws : Change
  resets : Bytes → Bytes → Bytes → Change
  marks : ℕ → Change
  prepares : Bytes → Bytes → ℕ → List ℕ → Change
  confirms : Bytes → Bytes → ℕ → List ℕ → List ℕ → Bool → Change
  grants : List (ℕ × Bytes) → Change
  registers : Bytes → Change
  deletes : Bytes → Change

abbrev pub is_node : Bytes → List Bytes → Bool
is_node node [] = false
is_node node (n ∷ ns) = if bytes_eq n node then true else is_node node ns

-- `UpsertEdgeNode`, on the ids.
unfoldable pub upsert_edge_node : Bytes → Index → Index
upsert_edge_node node s =
    if is_node node s.nodes then s else record s { nodes = s.nodes ++ (node ∷ []) }

-- `DeleteEdgeNode`, which fails on an unknown node: the rows of the node go in one transaction.
unfoldable pub delete_edge_node : Bytes → Index → Option Index
delete_edge_node node s =
    if is_node node s.nodes
    then some (record s {
      access = filter (λ a. not (bytes_eq a.1 node)) s.access;
      cache = delete_rows (λ r. bytes_eq r.node_id node) s.cache;
      sessions = remove node s.sessions;
      nodes = filter (λ n. not (bytes_eq n node)) s.nodes;
    })
    else none

abbrev pub or_unchanged : Index → Option Index → Index
or_unchanged s none = s
or_unchanged s (some t) = t

unfoldable pub change : Change → Index → Index
unfolding upsert_edge_node delete_edge_node
change draws s = next_identity_revision s
change (resets node session boot) s = reset_node_identity_cache node session boot s
change (marks user) s = mark_user_identity_dirty user s
change (prepares node session revision users) s =
    or_unchanged s (prepare_node_identity_cache node session revision users s)
change (confirms node session revision users removed full) s =
    or_unchanged s (confirm_node_identity_cache node session revision users removed full s)
change (grants access) s = record s { access = access }
change (registers node) s = upsert_edge_node node s
change (deletes node) s = or_unchanged s (delete_edge_node node s)

unfoldable pub changes : List Change → Index → Index
changes [] s = s
changes (c ∷ cs) s = changes cs (change c s)

-- The revisions that are acknowledged were drawn before.
abbrev pub IsDrawn : Change → Index → Type 0
IsDrawn (confirms _ _ revision _ _ _) s = revision ≤ s.revision
IsDrawn _ s = Unit

abbrev pub AreDrawn : List Change → Index → Type 0
AreDrawn [] s = Unit
AreDrawn (c ∷ cs) s = IsDrawn c s × AreDrawn cs (change c s)
