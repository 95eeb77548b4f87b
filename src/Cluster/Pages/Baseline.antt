-- ===== src/Cluster/Pages/Baseline.antt =====
-- A whole baseline: page after page, each one once the node has applied the one before it.
use meow_frp_server.Prelude.{
  ℕ, zero, suc, ◌+◌, ◌≤◌, ◌<◌, ◌≡◌, refl, ap, ◌∙◌, Bool, true, false, inl, inr, Option, none, some,
  List, [], ◌∷◌, ◌++◌, arith, Bool-cases, leb, length, take, drop, take-length, length-take,
  length-drop, if◌then◌else◌,
}
use meow_frp_server.Identity.{Index, has_access, next_identity_revision}
use meow_frp_server.Cluster.Types.{Block, SnapshotUser, SnapshotToken, IdentitySnapshot}
use meow_frp_server.Cluster.Session.{NodeSession, with_applied, add_blocks, drop_blocks}
use meow_frp_server.Cluster.Pages.{
  Page, eligible, page_of, page_snapshot, read_node_identity_page, identity_page,
}
use meow_frp_server.Cluster.Pages.Cursor.{is_above, eligible_rest}

-- The rounds of a baseline, with the users of its pages in order and the session that they lead to.
unfoldable pub baseline_rounds :
    ℕ
    → List SnapshotUser
    → List SnapshotToken
    → List Block
    → NodeSession
    → Index
    → Option (List SnapshotUser × NodeSession)
baseline_rounds zero users tokens blocks s index = none
baseline_rounds (suc n) users tokens blocks s index =
    elim (identity_page users tokens blocks none s index) [
      | none ↦ none
      | some r ↦
          let t = with_applied r.0 r.1 in
          if t.baseline_active
          then elim (baseline_rounds n users tokens blocks t r.2) [
            | none ↦ none
            | some q ↦ some (r.0.users ++ q.0, q.1)
          ]
          else some (r.0.users, t)
    ]

take-take : (k : ℕ) (us : List SnapshotUser) → take k (take (suc k) us) ≡ take k us
take-take zero us = refl
take-take (suc k) [] = refl
take-take (suc k) (u ∷ us) = ap (◌∷◌ u) (take-take k us)

take-append-drop : (k : ℕ) (us : List SnapshotUser) → take k us ++ drop k us ≡ us
take-append-drop zero us = refl
take-append-drop (suc k) [] = refl
take-append-drop (suc k) (u ∷ us) = ap (◌∷◌ u) (take-append-drop k us)

abbrev rows_of : NodeSession → Index → List SnapshotUser → List SnapshotUser
rows_of s index users =
    eligible (λ id. has_access id s.node_id index.access) s.baseline_cursor users

abbrev page_at : NodeSession → Index → List SnapshotUser → List SnapshotToken → Page
page_at s index users tokens =
    page_of tokens s.baseline_cursor [] 64 (take (64 + 1) (rows_of s index users))

abbrev page_result :
    NodeSession
    → Index
    → List SnapshotUser
    → List SnapshotToken
    → List Block
    → IdentitySnapshot × NodeSession × Index
page_result s index users tokens blocks = (
  page_snapshot true (index.revision + 1) blocks (page_at s index users tokens),
  record s { pending_cursor = (page_at s index users tokens).last_id },
  record index { revision = index.revision + 1 },
)

identity_page_baseline :
    (users : List SnapshotUser) (tokens : List SnapshotToken) (blocks : List Block)
    (s : NodeSession) (index : Index)
    → s.baseline_active ≡ true
    → identity_page users tokens blocks none s index
      ≡ some (page_result s index users tokens blocks)
unfolding identity_page read_node_identity_page next_identity_revision
identity_page_baseline users tokens blocks s index h = rw h refl

-- Where the page takes all the rows.
last_page :
    (s : NodeSession) (index : Index) (users : List SnapshotUser) (tokens : List SnapshotToken)
    → length (rows_of s index users) ≤ 64
    → let p = page_at s index users tokens in (p.users ≡ rows_of s index users) × (p.end_ ≡ true)
last_page s index users tokens h =
    let rows = rows_of s index users in
    let l = length-take 65 rows in (take-take 64 rows ∙ take-length 64 rows h, ground (arith, h, l))

other_page :
    (s : NodeSession) (index : Index) (users : List SnapshotUser) (tokens : List SnapshotToken)
    → 64 < length (rows_of s index users)
    → let p = page_at s index users tokens in
      (p.users ≡ take 64 (rows_of s index users)) × (p.end_ ≡ false)
other_page s index users tokens h =
    let rows = rows_of s index users in
    let l = length-take 65 rows in (take-take 64 rows, ground (arith, h, l))

-- The rows behind a page.
behind_page :
    (s : NodeSession) (index : Index) (users : List SnapshotUser) (tokens : List SnapshotToken)
    (blocks : List Block)
    → is_above 0 users ≡ true
    → let p = page_at s index users tokens in
      let t =
        with_applied
          (page_snapshot true (index.revision + 1) blocks p)
          (record s { pending_cursor = p.last_id }) in
      rows_of t (record index { revision = index.revision + 1 }) users
      ≡ drop 64 (rows_of s index users)
unfolding with_applied
behind_page s index users tokens blocks o =
    let rows = rows_of s index users in
    let allowed : ℕ → Bool = λ id. has_access id s.node_id index.access in
    rw (take-take 64 rows) (eligible_rest allowed s.baseline_cursor 64 users o)

over_a_page : (a : ℕ) → leb a 64 ≡ false → 64 < a
over_a_page a h = ground (arith, h)

module _ (n : ℕ) (users : List SnapshotUser) (tokens : List SnapshotToken)
    (blocks : List Block) where
  round_last :
      (s : NodeSession) (index : Index) (r : IdentitySnapshot × NodeSession × Index)
      → identity_page users tokens blocks none s index ≡ some r
      → (with_applied r.0 r.1).baseline_active ≡ false
      → baseline_rounds (suc n) users tokens blocks s index ≡ some (r.0.users, with_applied r.0 r.1)
  unfolding baseline_rounds
  round_last s index r h a = rw (h, baseline_rounds) (rw a refl)

  round_other :
      (s : NodeSession) (index : Index) (r : IdentitySnapshot × NodeSession × Index)
      (q : List SnapshotUser × NodeSession)
      → identity_page users tokens blocks none s index ≡ some r
      → (with_applied r.0 r.1).baseline_active ≡ true
      → baseline_rounds n users tokens blocks (with_applied r.0 r.1) r.2 ≡ some q
      → baseline_rounds (suc n) users tokens blocks s index ≡ some (r.0.users ++ q.0, q.1)
  unfolding baseline_rounds
  round_other s index r q h a e = rw (h, baseline_rounds) (rw e (rw a refl))

-- From any point of a baseline on, in a number of rounds above the number of the rows that are left, the
-- pages hold together just these rows, in order, each of them once: the users with access to the node above the
-- cursor. The baseline is over then, and the node's blocked addresses are those of the controller.
pub baseline_rounds_complete :
    (n : ℕ) (users : List SnapshotUser) (tokens : List SnapshotToken) (blocks : List Block)
    (s : NodeSession) (index : Index)
    → is_above 0 users ≡ true
    → s.baseline_active ≡ true
    → length (rows_of s index users) < n
    → (t : NodeSession) × (baseline_rounds n users tokens blocks s index
        ≡ some (rows_of s index users, t))
      × (t.baseline_active ≡ false)
      × (t.blocked_ips ≡ add_blocks blocks [])
unfolding with_applied drop_blocks
baseline_rounds_complete zero users tokens blocks s index o a h = absurd (omega (arith, h))
baseline_rounds_complete (suc n) users tokens blocks s index o a h =
    let p = page_at s index users tokens in
    let rows = rows_of s index users in
    elim (Bool-cases (leb (length rows) 64)) [
      | inl e ↦
          let f = last_page s index users tokens (ground (arith, e)) in
          let t =
            with_applied (page_snapshot true (index.revision + 1) blocks p)
              (record s { pending_cursor = p.last_id }) in
          (
            t,
            round_last n users tokens blocks s index (page_result s index users tokens blocks)
                  (identity_page_baseline users tokens blocks s index a) (rw (f.1) refl)
                ∙ ap (λ us. some (us, t)) (f.0),
            rw (f.1) refl,
            rw (f.1) refl,
          )
      | inr e ↦
          let f = other_page s index users tokens (ground (arith, e)) in
          let t =
            with_applied (page_snapshot true (index.revision + 1) blocks p)
              (record s { pending_cursor = p.last_id }) in
          let after = record index { revision = index.revision + 1 } in
          let d = behind_page s index users tokens blocks o in
          let rest =
            baseline_rounds_complete n users tokens blocks t after o (rw (f.1) refl)
              (rw d (omega (arith, h, length-drop 64 rows, over_a_page (length rows) e))) in
          (
            rest.0,
            round_other n users tokens blocks s index (page_result s index users tokens blocks)
                  (drop 64 rows, rest.0) (identity_page_baseline users tokens blocks s index a)
                  (rw (f.1) refl) (rest.1 ∙ ap (λ us. some (us, rest.0)) d)
                ∙ ap (λ us. some (us ++ drop 64 rows, rest.0)) (f.0)
                ∙ ap (λ us. some (us, rest.0)) (take-append-drop 64 rows),
            rest.2,
            rest.3,
          )
    ]
