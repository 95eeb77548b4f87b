-- ===== src/Identity/Consistency.antt =====
-- The sessions and the applied revisions of the rows.
use meow_frp_server.Prelude.{
  ℕ, ◌+◌, ◌≤◌, ◌≡◌, refl, Bool, true, false, not, ◌&&◌, some, List, [], ◌∷◌, arith, Bytes, bytes_eq,
  bytes_eq_iff, ltb, leb, inl, inr, Bool-cases, Option-cases,
}
use meow_frp_server.Prelude.Table.{lookup, lookup-insert, lookup-remove}
use meow_frp_server.Identity.{
  CacheRow, Index, is_row, is_own, is_in, find_row, update_rows, delete_rows, upsert_desired,
  applied, session_of, is_target, mark_targets, mark_user_identity_dirty, next_identity_revision,
  reset_node_identity_cache, lock_cache_session, prepare_rows, prepare_node_identity_cache,
  confirm_users, confirm_removed, confirm_full, confirm_node_identity_cache,
}
use meow_frp_server.Identity.Changes.{
  Change, draws, resets, marks, prepares, confirms, grants, registers, deletes, upsert_edge_node,
  delete_edge_node, is_node, change, changes, IsDrawn, AreDrawn,
}

abbrev pub AllRows : (CacheRow → Type 0) → List CacheRow → Type 0
AllRows P [] = Unit
AllRows P (r ∷ rs) = P r × AllRows P rs

abbrev pub IsCurrent : Index → CacheRow → Type 0
IsCurrent s r = (r.applied_revision ≤ s.revision) × (r.session_id ≡ session_of r.node_id s)

abbrev pub IsConsistent : Index → Type 0
IsConsistent s = AllRows (IsCurrent s) s.cache

pub AllRows-found :
    (P : CacheRow → Type 0) (user : ℕ) (node : Bytes) (rows : List CacheRow) (c : CacheRow)
    → AllRows P rows
    → find_row user node rows ≡ some c
    → P c
unfolding find_row
AllRows-found P user node [] c a h = absurd cc
AllRows-found P user node (r ∷ rs) c a h = elim (Bool-cases (is_row user node r)) [
  | inl i ↦ let e : r ≡ c = ground arith in rw (← e) a.0
  | inr i ↦ AllRows-found P user node rs c a.1 (ground arith)
]

AllRows-map :
    (P Q : CacheRow → Type 0) (rows : List CacheRow)
    → ((r : CacheRow) → P r → Q r)
    → AllRows P rows
    → AllRows Q rows
AllRows-map P Q [] f a = tt
AllRows-map P Q (r ∷ rs) f a = (f r a.0, AllRows-map P Q rs f a.1)

update_rows-AllRows :
    (P : CacheRow → Type 0) (p : CacheRow → Bool) (f : CacheRow → CacheRow) (rows : List CacheRow)
    → ((r : CacheRow) → P r → P (f r))
    → AllRows P rows
    → AllRows P (update_rows p f rows)
unfolding update_rows
update_rows-AllRows P p f [] k a = tt
update_rows-AllRows P p f (r ∷ rs) k a =
    let rest = update_rows-AllRows P p f rs k a.1 in
    elim (Bool-cases (p r)) [
      | inl i ↦ rw (i, update_rows) (k r a.0, rest)
      | inr i ↦ rw (i, update_rows) (a.0, rest)
    ]

delete_rows-AllRows :
    (P Q : CacheRow → Type 0) (p : CacheRow → Bool) (rows : List CacheRow)
    → ((r : CacheRow) → p r ≡ false → P r → Q r)
    → AllRows P rows
    → AllRows Q (delete_rows p rows)
unfolding delete_rows
delete_rows-AllRows P Q p [] k a = tt
delete_rows-AllRows P Q p (r ∷ rs) k a =
    let rest = delete_rows-AllRows P Q p rs k a.1 in
    elim (Bool-cases (p r)) [
      | inl i ↦ rw (i, delete_rows) rest
      | inr i ↦ rw (i, delete_rows) (k r i a.0, rest)
    ]

module _ (s : Index) where
  upsert_desired-AllRows :
      (user : ℕ) (node session : Bytes) (revision : ℕ) (rows : List CacheRow)
      → session ≡ session_of node s
      → AllRows (IsCurrent s) rows
      → AllRows (IsCurrent s) (upsert_desired user node session revision rows)
  unfolding upsert_desired
  upsert_desired-AllRows user node session revision [] e a = ((omega arith, e), tt)
  upsert_desired-AllRows user node session revision (r ∷ rs) e a =
      let rest = upsert_desired-AllRows user node session revision rs e a.1 in
      elim (Bool-cases (is_row user node r)) [
        | inl i ↦ rw (i, upsert_desired) (a.0, a.1)
        | inr i ↦ rw (i, upsert_desired) (a.0, rest)
      ]

  prepare_rows-AllRows :
      (node session : Bytes) (revision : ℕ) (ids : List ℕ) (rows : List CacheRow)
      → session ≡ session_of node s
      → AllRows (IsCurrent s) rows
      → AllRows (IsCurrent s) (prepare_rows node session revision ids rows)
  unfolding prepare_rows
  prepare_rows-AllRows node session revision [] rows e a = a
  prepare_rows-AllRows node session revision (id ∷ ids) rows e a =
      prepare_rows-AllRows node session revision ids _ e
        (upsert_desired-AllRows id node session revision rows e a)

  mark_targets-AllRows :
      (t : Index) (user revision : ℕ) (nodes : List Bytes) (rows : List CacheRow)
      → t.sessions ≡ s.sessions
      → AllRows (IsCurrent s) rows
      → AllRows (IsCurrent s) (mark_targets user revision t nodes rows)
  unfolding mark_targets
  mark_targets-AllRows t user revision [] rows e a = a
  mark_targets-AllRows t user revision (n ∷ ns) rows e a = elim (Bool-cases (is_target user t n)) [
    | inl i ↦
        rw (i, mark_targets)
          (mark_targets-AllRows t user revision ns _ e
            (upsert_desired-AllRows user n (session_of n t) revision rows (rw e) a))
    | inr i ↦ rw (i, mark_targets) (mark_targets-AllRows t user revision ns rows e a)
  ]

  module _ (node session : Bytes) (revision : ℕ) (drawn : revision ≤ s.revision) where
    confirm_users-AllRows :
        (ids : List ℕ) (rows : List CacheRow)
        → AllRows (IsCurrent s) rows
        → AllRows (IsCurrent s) (confirm_users node session revision ids rows)
    unfolding confirm_users
    confirm_users-AllRows [] rows a = a
    confirm_users-AllRows (id ∷ ids) rows a = confirm_users-AllRows ids _ (
        update_rows-AllRows (IsCurrent s) (is_own id node session) (applied true revision) rows
          (λ r c. (ground (arith, c.0, drawn), c.1)) a)

    confirm_removed-AllRows :
        (ids : List ℕ) (rows : List CacheRow)
        → AllRows (IsCurrent s) rows
        → AllRows (IsCurrent s) (confirm_removed node session revision ids rows)
    unfolding confirm_removed
    confirm_removed-AllRows [] rows a = a
    confirm_removed-AllRows (id ∷ ids) rows a = confirm_removed-AllRows ids _ (
        delete_rows-AllRows (IsCurrent s) (IsCurrent s)
          (λ r. is_own id node session r && leb r.desired_revision revision) _ (λ r _ c. c)
          (update_rows-AllRows (IsCurrent s) (is_own id node session) (applied false revision) rows
            (λ r c. (ground (arith, c.0, drawn), c.1)) a))

    confirm_full-AllRows :
        (rows : List CacheRow)
        → AllRows (IsCurrent s) rows
        → AllRows (IsCurrent s) (confirm_full node session revision rows)
    unfolding confirm_full
    confirm_full-AllRows rows a =
        delete_rows-AllRows (IsCurrent s) (IsCurrent s)
          (λ r. is_in node session r && leb r.desired_revision revision && not r.cached) _
          (λ r _ c. c)
          (update_rows-AllRows (IsCurrent s)
            (λ r. is_in node session r && ltb r.applied_revision revision)
            (λ r. record r { cached = false; applied_revision = revision }) rows
            (λ r c. (drawn, c.1)) a)

lock_lem :
    (node session : Bytes) (s : Index)
    → lock_cache_session node session s ≡ true
    → session ≡ session_of node s
unfolding lock_cache_session
lock_lem node session s h = elim (Option-cases (lookup node s.sessions)) [
  | inl e ↦ absurd (ground (arith, e, h))
  | inr (v, e) ↦ ground (arith, e, h, bytes_eq_iff v.0 session)
]

pub change-IsConsistent :
    (c : Change) (s : Index) → IsDrawn c s → IsConsistent s → IsConsistent (change c s)
unfolding change next_identity_revision reset_node_identity_cache mark_user_identity_dirty
    prepare_node_identity_cache confirm_node_identity_cache upsert_edge_node delete_edge_node
change-IsConsistent draws s d a =
    AllRows-map (IsCurrent s) _ s.cache (λ r c. (omega (arith, c.0), c.1)) a
change-IsConsistent (resets node session boot) s d a =
    delete_rows-AllRows (IsCurrent s) _ (λ r. bytes_eq r.node_id node) s.cache
      (λ r n c. (
        c.0,
        ground (
          arith,
          c.1,
          n,
          bytes_eq_iff r.node_id node,
          bytes_eq_iff node r.node_id,
          lookup-insert node r.node_id (session, boot) s.sessions,
        ),
      ))
      a
change-IsConsistent (marks user) s d a =
    let t = record s { revision = s.revision + 1 } in
    mark_targets-AllRows t s user (s.revision + 1) s.nodes s.cache refl
      (AllRows-map (IsCurrent s) (IsCurrent t) s.cache (λ r c. (omega (arith, c.0), c.1)) a)
change-IsConsistent (prepares node session revision users) s d a =
    elim (Bool-cases (lock_cache_session node session s)) [
      | inl i ↦
          rw (i, prepare_node_identity_cache)
            (prepare_rows-AllRows s node session revision users s.cache (lock_lem node session s i)
              a)
      | inr i ↦ rw (i, prepare_node_identity_cache) a
    ]
change-IsConsistent (confirms node session revision users removed full) s d a =
    let rows =
      confirm_removed node session revision removed
        (confirm_users node session revision users s.cache) in
    let kept =
      confirm_removed-AllRows s node session revision d removed _
        (confirm_users-AllRows s node session revision d users s.cache a) in
    elim (Bool-cases (lock_cache_session node session s)) [
      | inl i ↦
          rw (i, confirm_node_identity_cache)
            (elim (Bool-cases full) [
              | inl f ↦
                  rw (f, confirm_node_identity_cache)
                    (confirm_full-AllRows s node session revision d rows kept)
              | inr f ↦ rw (f, confirm_node_identity_cache) kept
            ])
      | inr i ↦ rw (i, confirm_node_identity_cache) a
    ]
change-IsConsistent (grants access) s d a = a
change-IsConsistent (registers node) s d a = elim (Bool-cases (is_node node s.nodes)) [
  | inl i ↦ rw (i, upsert_edge_node) a
  | inr i ↦ rw (i, upsert_edge_node) a
]
change-IsConsistent (deletes node) s d a = elim (Bool-cases (is_node node s.nodes)) [
  | inl i ↦
      rw (i, delete_edge_node)
        (delete_rows-AllRows (IsCurrent s) _ (λ r. bytes_eq r.node_id node) s.cache
          (λ r n c. (
            c.0,
            ground (
              arith,
              c.1,
              n,
              bytes_eq_iff r.node_id node,
              bytes_eq_iff node r.node_id,
              lookup-remove node r.node_id s.sessions,
            ),
          ))
          a)
  | inr i ↦ rw (i, delete_edge_node) a
]

-- Whatever transactions run, as long as only drawn revisions are acknowledged, every row belongs to
-- the current session of its node and no applied revision is ahead of the counter.
pub changes-IsConsistent :
    (cs : List Change) (s : Index) → AreDrawn cs s → IsConsistent s → IsConsistent (changes cs s)
unfolding changes
changes-IsConsistent [] s d a = a
changes-IsConsistent (c ∷ cs) s d a =
    changes-IsConsistent cs (change c s) d.1 (change-IsConsistent c s d.0 a)
