-- ===== src/Identity/Rows.antt =====
-- What the statements of internal/db/user_node_cache.go do to the row of one user on one node.
use meow_frp_server.Prelude.{
  ℕ, ◌≤◌, ◌<◌, ◌≡◌, refl, Bool, true, false, not, ◌&&◌, none, some, List, [], ◌∷◌, arith, Bytes,
  bytes_eq, bytes_eq_iff, ltb, leb, ◌==◌, inl, inr, Bool-cases, if◌then◌else◌,
}
use meow_frp_server.Identity.{
  CacheRow, greatest, contains, is_row, find_row, update_rows, delete_rows, upsert_desired,
  prepare_rows, is_own, applied, is_in, confirm_users, confirm_removed, confirm_full,
}

-- The change keeps the primary key.
abbrev KeepsKey : (CacheRow → CacheRow) → Type 0
KeepsKey f = (r : CacheRow) → (((f r).user_id ≡ r.user_id) × ((f r).node_id ≡ r.node_id))

module _ (user : ℕ) (node : Bytes) where
  find_row-update_rows :
      (p : CacheRow → Bool) (f : CacheRow → CacheRow) (c : CacheRow) (rows : List CacheRow)
      → KeepsKey f
      → find_row user node rows ≡ some c
      → find_row user node (update_rows p f rows) ≡ some (if p c then f c else c)
  unfolding find_row update_rows
  find_row-update_rows p f c [] k h = cc
  find_row-update_rows p f c (r ∷ rs) k h = ground (arith, k r, find_row-update_rows p f c rs k)

  find_row-delete_rows :
      (p : CacheRow → Bool) (c : CacheRow) (rows : List CacheRow)
      → p c ≡ false
      → find_row user node rows ≡ some c
      → find_row user node (delete_rows p rows) ≡ some c
  unfolding find_row delete_rows
  find_row-delete_rows p c [] n h = cc
  find_row-delete_rows p c (r ∷ rs) n h = ground (arith, find_row-delete_rows p c rs n)

  pub find_row-upsert_desired :
      (id : ℕ) (at session : Bytes) (revision : ℕ) (c : CacheRow) (rows : List CacheRow)
      → find_row user node rows ≡ some c
      → find_row user node (upsert_desired id at session revision rows)
        ≡ some (
            if id == user && bytes_eq at node
            then record c { desired_revision = greatest c.desired_revision revision }
            else c)
  unfolding find_row upsert_desired
  find_row-upsert_desired id at session revision c [] h = cc
  find_row-upsert_desired id at session revision c (r ∷ rs) h =
      let later = find_row-upsert_desired id at session revision c rs in
      elim (Bool-cases (is_row id at r)) [
        | inl i ↦
            rw (i, upsert_desired)
              (ground (
                arith,
                h,
                i,
                bytes_eq_iff r.node_id at,
                bytes_eq_iff r.node_id node,
                bytes_eq_iff at node,
              ))
        | inr i ↦
            rw (i, upsert_desired)
              (ground (
                arith,
                h,
                i,
                later,
                bytes_eq_iff r.node_id at,
                bytes_eq_iff r.node_id node,
                bytes_eq_iff at node,
              ))
      ]

  pub find_row-upsert_new :
      (session : Bytes) (revision : ℕ) (rows : List CacheRow)
      → find_row user node rows ≡ none
      → find_row user node (upsert_desired user node session revision rows)
        ≡ some (record {
          user_id = user;
          node_id = node;
          session_id = session;
          desired_revision = revision;
          applied_revision = 0;
          cached = false;
        })
  unfolding find_row upsert_desired
  find_row-upsert_new session revision [] h = ground (arith, bytes_eq_iff node node)
  find_row-upsert_new session revision (r ∷ rs) h =
      ground (arith, find_row-upsert_new session revision rs)

  pub find_row-upsert_other :
      (id : ℕ) (at session : Bytes) (revision : ℕ) (rows : List CacheRow)
      → bytes_eq at node ≡ false
      → find_row user node (upsert_desired id at session revision rows) ≡ find_row user node rows
  unfolding find_row upsert_desired
  find_row-upsert_other id at session revision [] n = ground arith
  find_row-upsert_other id at session revision (r ∷ rs) n = ground (
    arith,
    n,
    find_row-upsert_other id at session revision rs,
    bytes_eq_iff r.node_id at,
    bytes_eq_iff r.node_id node,
    bytes_eq_iff at node,
  )

  pub find_row-key :
      (rows : List CacheRow) (c : CacheRow)
      → find_row user node rows ≡ some c
      → (c.user_id ≡ user) × (c.node_id ≡ node)
  unfolding find_row
  find_row-key [] c h = cc
  find_row-key (r ∷ rs) c h = ground (arith, find_row-key rs c, bytes_eq_iff r.node_id node)

  -- The user's change of revision `since` is not applied on the node.
  pub record Awaits (since : ℕ) (rows : List CacheRow) : Type 0 where
    pub row : CacheRow
    pub found : find_row user node rows ≡ some row
    pub desired : since ≤ row.desired_revision
    pub behind : row.applied_revision < since

  pub upsert_desired-Awaits :
      (id : ℕ) (at session : Bytes) (revision since : ℕ) (rows : List CacheRow)
      → Awaits since rows
      → Awaits since (upsert_desired id at session revision rows)
  upsert_desired-Awaits id at session revision since rows a = record {
    row = _;
    found = find_row-upsert_desired id at session revision a.row rows a.found;
    desired = ground (arith, a.desired);
    behind = ground (arith, a.behind);
  }

  pub prepare_rows-Awaits :
      (at session : Bytes) (revision since : ℕ) (ids : List ℕ) (rows : List CacheRow)
      → Awaits since rows
      → Awaits since (prepare_rows at session revision ids rows)
  unfolding prepare_rows
  prepare_rows-Awaits at session revision since [] rows a = a
  prepare_rows-Awaits at session revision since (id ∷ ids) rows a =
      prepare_rows-Awaits at session revision since ids _
        (upsert_desired-Awaits id at session revision since rows a)

  -- A row that a change leaves behind `since`, or does not touch.
  update_rows-Awaits :
      (p : CacheRow → Bool) (f : CacheRow → CacheRow) (since : ℕ) (rows : List CacheRow)
      → KeepsKey f
      → (a : Awaits since rows)
      → (p a.row ≡ true
          → ((f a.row).desired_revision ≡ a.row.desired_revision)
            × ((f a.row).applied_revision < since))
      → Awaits since (update_rows p f rows)
  update_rows-Awaits p f since rows k a h = record {
    row = _;
    found = find_row-update_rows p f a.row rows k a.found;
    desired = ground (arith, a.desired, h);
    behind = ground (arith, a.behind, h);
  }

  pub delete_rows-Awaits :
      (p : CacheRow → Bool) (since : ℕ) (rows : List CacheRow) (a : Awaits since rows)
      → p a.row ≡ false
      → Awaits since (delete_rows p rows)
  delete_rows-Awaits p since rows a n = record {
    row = a.row;
    found = find_row-delete_rows p a.row rows n a.found;
    desired = a.desired;
    behind = a.behind;
  }

  -- The acknowledgement of `revision` by the node `at` may settle a change of revision `since`.
  abbrev pub reaches : Bytes → ℕ → ℕ → Bool
  reaches at revision since = bytes_eq at node && leb since revision

  pub confirm_users-Awaits :
      (at session : Bytes) (revision since : ℕ) (ids : List ℕ) (rows : List CacheRow)
      → reaches at revision since && contains user ids ≡ false
      → Awaits since rows
      → Awaits since (confirm_users at session revision ids rows)
  unfolding confirm_users
  confirm_users-Awaits at session revision since [] rows n a = a
  confirm_users-Awaits at session revision since (id ∷ ids) rows n a =
      let key = find_row-key rows a.row a.found in
      confirm_users-Awaits at session revision since ids _ (ground (arith, n)) (
        update_rows-Awaits (is_own id at session) (applied true revision) since rows
          (λ r. (refl, refl)) a
          (λ own. (
            refl,
            ground
                (arith, own, n, key, a.behind, bytes_eq_iff a.row.node_id at, bytes_eq_iff at node),
          )))

  pub confirm_removed-Awaits :
      (at session : Bytes) (revision since : ℕ) (ids : List ℕ) (rows : List CacheRow)
      → reaches at revision since && contains user ids ≡ false
      → Awaits since rows
      → Awaits since (confirm_removed at session revision ids rows)
  unfolding confirm_removed
  confirm_removed-Awaits at session revision since [] rows n a = a
  confirm_removed-Awaits at session revision since (id ∷ ids) rows n a =
      let key = find_row-key rows a.row a.found in
      let b =
        update_rows-Awaits (is_own id at session) (applied false revision) since rows
          (λ r. (refl, refl)) a
          (λ own. (
            refl,
            ground
                (arith, own, n, key, a.behind, bytes_eq_iff a.row.node_id at, bytes_eq_iff at node),
          )) in
      let key' =
        find_row-key (update_rows (is_own id at session) (applied false revision) rows) b.row
          b.found in
      confirm_removed-Awaits at session revision since ids _ (ground (arith, n)) (
        delete_rows-Awaits (λ r. is_own id at session r && leb r.desired_revision revision) since _
          b
          (ground (arith, n, key', b.desired, bytes_eq_iff b.row.node_id at, bytes_eq_iff at node)))

  pub confirm_full-Awaits :
      (at session : Bytes) (revision since : ℕ) (rows : List CacheRow)
      → reaches at revision since ≡ false
      → Awaits since rows
      → Awaits since (confirm_full at session revision rows)
  unfolding confirm_full
  confirm_full-Awaits at session revision since rows n a =
      let key = find_row-key rows a.row a.found in
      let b =
        update_rows-Awaits (λ r. is_in at session r && ltb r.applied_revision revision)
          (λ r. record r { cached = false; applied_revision = revision }) since rows
          (λ r. (refl, refl)) a
          (λ own. (
            refl,
            ground (arith, own, n, key, bytes_eq_iff a.row.node_id at, bytes_eq_iff at node),
          )) in
      let key' = find_row-key _ b.row b.found in
      delete_rows-Awaits
        (λ r. is_in at session r && leb r.desired_revision revision && not r.cached) since _ b
        (ground (arith, n, key', b.desired, bytes_eq_iff b.row.node_id at, bytes_eq_iff at node))
