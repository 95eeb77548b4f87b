-- ===== src/Tests/Identities.antt =====
-- The index of cached users of internal/db/user_node_cache.go on a node with one user.
use meow_frp_server.Prelude.{◌≢◌, false, List, [], ◌∷◌, refl, arith, codes, bytes_eq, inl}
use meow_frp_server.Prelude.Table.{lookup}
use meow_frp_server.Identity.{
  Index, session_of, mark_user_identity_dirty, pending_node_identity_users, is_target,
  next_identity_revision, prepare_node_identity_cache, lock_cache_session, find_row,
}
use meow_frp_server.Identity.Rows.{Awaits}
use meow_frp_server.Identity.Changes.{Change, draws, marks, prepares, confirms, changes, change}
use meow_frp_server.Identity.Consistency.{IsConsistent, changes-IsConsistent}
use meow_frp_server.Identity.Delivery.{changed_user_stays_pending}

abbrev index : Index
index = record {
  revision = 5;
  cache = [];
  sessions = (codes "n", (codes "cs", codes "b")) ∷ [];
  access = (7, codes "n") ∷ [];
  nodes = codes "n" ∷ [];
}

-- A change of the user, its snapshot and the acknowledgement.
abbrev delivery : List Change
delivery =
    marks 7
    ∷ draws
    ∷ prepares (codes "n") (codes "cs") 7 (7 ∷ [])
    ∷ confirms (codes "n") (codes "cs") 7 (7 ∷ []) [] false
    ∷ []

changes-IsConsistent_example : IsConsistent (changes delivery index)
unfolding change next_identity_revision mark_user_identity_dirty prepare_node_identity_cache
    lock_cache_session lookup bytes_eq
changes-IsConsistent_example =
    changes-IsConsistent delivery index (tt, (tt, (tt, (omega arith, tt)))) tt

-- An acknowledgement of a snapshot from before the change.
abbrev stale : List Change
stale =
    prepares (codes "n") (codes "cs") 5 (7 ∷ [])
    ∷ confirms (codes "n") (codes "cs") 5 (7 ∷ []) [] false
    ∷ []

changed_user_stays_pending_example :
    let t = changes stale (mark_user_identity_dirty 7 index) in
    Awaits 7 (codes "n") 6 t.cache
    × (pending_node_identity_users (codes "n") (session_of (codes "n") t) t ≢ [])
unfolding change mark_user_identity_dirty prepare_node_identity_cache lock_cache_session lookup
    bytes_eq is_target find_row
changed_user_stays_pending_example =
    changed_user_stays_pending 7 (codes "n") stale index tt (tt, (omega arith, tt)) (inl refl) refl
      (refl, (refl, tt))
