-- ===== src/Identity/Delivery.antt =====
-- What becomes of a change of a user, on one of the nodes that it concerns.
use meow_frp_server.Prelude.{
  ℕ, ◌+◌, ◌<◌, ◌≡◌, ◌≢◌, ◌⊎◌, ap, ◌∙◌, Bool, true, false, ◌&&◌, ◌||◌, some, List, [], ◌∷◌, arith,
  Bytes, bytes_eq, bytes_eq_iff, take, inl, inr, Bool-cases, Option-cases,
}
use meow_frp_server.Identity.{
  CacheRow, Index, contains, is_row, is_pending, find_row, upsert_desired, session_of, is_target,
  insert_id, pending_ids, pending_node_identity_users, mark_targets, mark_user_identity_dirty,
  next_identity_revision, reset_node_identity_cache, lock_cache_session,
  prepare_node_identity_cache, confirm_node_identity_cache,
}
use meow_frp_server.Identity.Rows.{
  Awaits, reaches, find_row-upsert_new, find_row-upsert_desired, find_row-upsert_other,
  upsert_desired-Awaits, prepare_rows-Awaits, confirm_users-Awaits, confirm_removed-Awaits,
  confirm_full-Awaits, delete_rows-Awaits, find_row-key,
}
use meow_frp_server.Identity.Changes.{
  Change, draws, resets, marks, prepares, confirms, grants, registers, deletes, upsert_edge_node,
  delete_edge_node, is_node, change, changes, AreDrawn,
}
use meow_frp_server.Identity.Consistency.{
  IsConsistent, AllRows-found, change-IsConsistent, changes-IsConsistent,
}

-- The change settles what was changed at revision `since` for the user on the node: a new session of the
-- node, its deletion, or an acknowledgement of a snapshot that was drawn later and covers the user.
abbrev pub settles : ℕ → Bytes → ℕ → Change → Bool
settles user node since (resets at _ _) = bytes_eq at node
settles user node since (deletes at) = bytes_eq at node
settles user node since (confirms at _ revision users removed full) =
    reaches user node at revision since && (contains user users || contains user removed || full)
settles user node since _ = false

abbrev pub NoneSettles : ℕ → Bytes → ℕ → List Change → Type 0
NoneSettles user node since [] = Unit
NoneSettles user node since (c ∷ cs) =
    (settles user node since c ≡ false) × NoneSettles user node since cs

module _ (user : ℕ) (node : Bytes) where
  mark_targets-Awaits :
      (u revision since : ℕ) (s : Index) (nodes : List Bytes) (rows : List CacheRow)
      → Awaits user node since rows
      → Awaits user node since (mark_targets u revision s nodes rows)
  unfolding mark_targets
  mark_targets-Awaits u revision since s [] rows a = a
  mark_targets-Awaits u revision since s (n ∷ ns) rows a = elim (Bool-cases (is_target u s n)) [
    | inl i ↦
        rw (i, mark_targets)
          (mark_targets-Awaits u revision since s ns _
            (upsert_desired-Awaits user node u n (session_of n s) revision since rows a))
    | inr i ↦ rw (i, mark_targets) (mark_targets-Awaits u revision since s ns rows a)
  ]

  change-Awaits :
      (c : Change) (since : ℕ) (s : Index)
      → settles user node since c ≡ false
      → Awaits user node since s.cache
      → Awaits user node since (change c s).cache
  unfolding change next_identity_revision reset_node_identity_cache mark_user_identity_dirty
      prepare_node_identity_cache confirm_node_identity_cache upsert_edge_node delete_edge_node
  change-Awaits draws since s n a = a
  change-Awaits (grants access) since s n a = a
  change-Awaits (registers at) since s n a = elim (Bool-cases (is_node at s.nodes)) [
    | inl i ↦ rw (i, upsert_edge_node) a
    | inr i ↦ rw (i, upsert_edge_node) a
  ]
  change-Awaits (deletes at) since s n a =
      let key = find_row-key user node s.cache a.row a.found in
      elim (Bool-cases (is_node at s.nodes)) [
        | inl i ↦
            rw (i, delete_edge_node)
              (delete_rows-Awaits user node (λ r. bytes_eq r.node_id at) since s.cache a
                (ground (arith, n, key, bytes_eq_iff a.row.node_id at, bytes_eq_iff at node)))
        | inr i ↦ rw (i, delete_edge_node) a
      ]
  change-Awaits (resets at session boot) since s n a =
      let key = find_row-key user node s.cache a.row a.found in
      delete_rows-Awaits user node (λ r. bytes_eq r.node_id at) since s.cache a
        (ground (arith, n, key, bytes_eq_iff a.row.node_id at, bytes_eq_iff at node))
  change-Awaits (marks u) since s n a =
      mark_targets-Awaits u (s.revision + 1) since s s.nodes s.cache a
  change-Awaits (prepares at session revision users) since s n a =
      elim (Bool-cases (lock_cache_session at session s)) [
        | inl i ↦
            rw (i, prepare_node_identity_cache)
              (prepare_rows-Awaits user node at session revision since users s.cache a)
        | inr i ↦ rw (i, prepare_node_identity_cache) a
      ]
  change-Awaits (confirms at session revision users removed full) since s n a =
      let b =
        confirm_removed-Awaits user node at session revision since removed _ (ground (arith, n)) (
          confirm_users-Awaits user node at session revision since users s.cache (ground (arith, n))
            a) in
      elim (Bool-cases (lock_cache_session at session s)) [
        | inl i ↦
            rw (i, confirm_node_identity_cache)
              (elim (Bool-cases full) [
                | inl f ↦
                    rw (f, confirm_node_identity_cache)
                      (confirm_full-Awaits user node at session revision since _
                        (ground (arith, n, f)) b)
                | inr f ↦ rw (f, confirm_node_identity_cache) b
              ])
        | inr i ↦ rw (i, confirm_node_identity_cache) a
      ]

  changes-Awaits :
      (cs : List Change) (since : ℕ) (s : Index)
      → NoneSettles user node since cs
      → Awaits user node since s.cache
      → Awaits user node since (changes cs s).cache
  unfolding changes
  changes-Awaits [] since s n a = a
  changes-Awaits (c ∷ cs) since s n a =
      changes-Awaits cs since (change c s) n.1 (change-Awaits c since s n.0 a)

  -- No row of the user on the node has applied the revision.
  abbrev IsBehind : ℕ → List CacheRow → Type 0
  IsBehind since rows =
      (c : CacheRow) → find_row user node rows ≡ some c → c.applied_revision < since

  upsert_own-Awaits :
      (session : Bytes) (since : ℕ) (rows : List CacheRow)
      → IsBehind since rows
      → 0 < since
      → Awaits user node since (upsert_desired user node session since rows)
  upsert_own-Awaits session since rows b z = elim (Option-cases (find_row user node rows)) [
    | inl e ↦ record {
      row = _;
      found = find_row-upsert_new user node session since rows e;
      desired = omega arith;
      behind = z;
    }
    | inr (c, e) ↦ record {
      row = _;
      found = find_row-upsert_desired user node user node session since c rows e;
      desired = ground (arith, bytes_eq_iff node node);
      behind = ground (arith, b c e);
    }
  ]

  -- The node is one of these.
  abbrev pub IsAmong : List Bytes → Type 0
  IsAmong [] = ⊥
  IsAmong (n ∷ ns) = (n ≡ node) ⊎ IsAmong ns

  mark_targets-own :
      (since : ℕ) (s : Index) (nodes : List Bytes) (rows : List CacheRow)
      → 0 < since
      → is_target user s node ≡ true
      → IsAmong nodes
      → IsBehind since rows
      → Awaits user node since (mark_targets user since s nodes rows)
  unfolding mark_targets
  mark_targets-own since s [] rows z t m b = absurd m
  mark_targets-own since s (n ∷ ns) rows z t m b = elim (Bool-cases (bytes_eq n node)) [
    | inl e ↦
        let same : n ≡ node = (bytes_eq_iff n node).0 e in
        rw same (
          rw (t, mark_targets)
            (mark_targets-Awaits user since since s ns _
              (upsert_own-Awaits (session_of node s) since rows b z)))
    | inr d ↦
        let later : IsAmong ns = elim m [
          | inl e ↦ absurd (ground (arith, d, e, bytes_eq_iff n node))
          | inr l ↦ l
        ] in
        elim (Bool-cases (is_target user s n)) [
          | inl i ↦
              rw (i, mark_targets)
                (mark_targets-own since s ns _ z t later (λ c f. b c (
                  ground (
                    arith,
                    f,
                    find_row-upsert_other user node user n (session_of n s) since rows d,
                  ))))
          | inr i ↦ rw (i, mark_targets) (mark_targets-own since s ns rows z t later b)
        ]
  ]

insert_id-nonempty : (x : ℕ) (xs : List ℕ) → insert_id x xs ≢ []
insert_id-nonempty x [] e = cc
insert_id-nonempty x (y ∷ ys) e = ground (arith, e)

pending_ids-found :
    (user : ℕ) (node session : Bytes) (rows : List CacheRow) (c : CacheRow)
    → find_row user node rows ≡ some c
    → c.session_id ≡ session
    → is_pending c ≡ true
    → pending_ids node session rows ≢ []
unfolding find_row pending_ids
pending_ids-found user node session [] c f e p n = cc
pending_ids-found user node session (r ∷ rs) c f e p n =
    let some_id = insert_id-nonempty r.user_id (pending_ids node session rs) in
    elim (Bool-cases (is_row user node r)) [
      | inl i ↦
          let same : r ≡ c = ground arith in
          ground (arith, same, i, e, p, n, some_id, bytes_eq_iff r.session_id session)
      | inr i ↦
          ground (arith, i, n, some_id, pending_ids-found user node session rs c (ground arith) e p)
    ]

take-nonempty : (xs : List ℕ) → xs ≢ [] → take 64 xs ≢ []
take-nonempty [] h e = h e
take-nonempty (x ∷ xs) h e = cc

-- After a user has been marked as changed, and as long as no new session of a node that it concerns
-- begins, that node is not deleted and it acknowledges no snapshot drawn since that covers the user, the row of the user on
-- the node stays behind the change, and the node has users to send in its current session.
pub changed_user_stays_pending :
    (user : ℕ) (node : Bytes) (cs : List Change) (s : Index)
    → IsConsistent s
    → AreDrawn cs (mark_user_identity_dirty user s)
    → IsAmong user node s.nodes
    → is_target user s node ≡ true
    → NoneSettles user node (s.revision + 1) cs
    → let t = changes cs (mark_user_identity_dirty user s) in
      Awaits user node (s.revision + 1) t.cache
      × (pending_node_identity_users node (session_of node t) t ≢ [])
unfolding mark_user_identity_dirty pending_node_identity_users change
changed_user_stays_pending user node cs s v d m i n =
    let marked = mark_user_identity_dirty user s in
    let behind : IsBehind user node (s.revision + 1) s.cache =
      λ c f. omega (arith, (AllRows-found _ user node s.cache c v f).0) in
    let a =
      changes-Awaits user node cs (s.revision + 1) marked n
        (mark_targets-own user node (s.revision + 1) s s.nodes s.cache (omega arith) i m behind) in
    let t = changes cs marked in
    let valid = changes-IsConsistent cs marked d (change-IsConsistent (marks user) s tt v) in
    let key = find_row-key user node t.cache a.row a.found in
    let own = AllRows-found _ user node t.cache a.row valid a.found in
    (
      a,
      take-nonempty _ (
          pending_ids-found user node (session_of node t) t.cache a.row a.found
            (own.1 ∙ ap (λ x. session_of x t) key.1) (ground (arith, a.desired, a.behind))),
    )
