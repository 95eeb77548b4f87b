-- ===== src/Cluster/Push/InFlight.antt =====
-- The snapshot under way to a node, over acknowledgements and pushes.
use meow_frp_server.Prelude.{
  ℕ, ◌+◌, ◌<◌, ◌≡◌, refl, Bool, true, false, not, ◌&&◌, ◌||◌, inl, inr, Option, none, some, List,
  [], ◌∷◌, arith, Option-cases, if_intro, ltb, leb, if◌then◌else◌,
}
use meow_frp_server.Identity.{
  Index, has_access, next_identity_revision, pending_node_identity_users,
}
use meow_frp_server.Cluster.Types.{IdentitySnapshot, Message}
use meow_frp_server.Cluster.Session.{
  NodeSession, Failure, request_cache_reset, accept_cache_cleared, enqueue_identity,
  accept_identity_progress, confirm_identity,
}
use meow_frp_server.Cluster.Pages.{page_snapshot, identity_page, read_node_identity_page}
use meow_frp_server.Cluster.Blocklist.{blocked_ip_snapshot}
use meow_frp_server.Cluster.Push.{
  Source, is_idle, snapshot_for_users, push_blocked, push_users, push_pending, push_reset,
  push_node_identity,
}
use meow_frp_server.Cluster.Push.Tracked.{
  IsTracked, AreAlike, alike_IsTracked, sent_IsTracked, enqueue_identity-IsTracked,
  accept_identity_progress-IsTracked, confirm_identity-IsTracked, accept_cache_cleared-IsTracked,
}

due_IsTracked :
    (o : Option Failure) (s : NodeSession) (index : Index)
    → IsTracked s index
    → IsTracked (elim o [ none ↦ s | some _ ↦ record s { needs_blocked_ips = true } ]) index
due_IsTracked none s index w = w
due_IsTracked (some _) s index w = record { pending = w.pending; done = w.done; drawn = w.drawn }

-- A snapshot with a revision that has just been drawn.
drawn_IsTracked :
    (s t : NodeSession) (index : Index)
    → AreAlike s t
    → IsTracked s index
    → IsTracked t (record index { revision = index.revision + 1 })
      × (t.applied_revision < index.revision + 1)
drawn_IsTracked s t index e w =
    let v = alike_IsTracked s t index e w in
    (
      record {
        pending = v.pending;
        done = v.done;
        drawn = (omega (arith, v.drawn.0), omega (arith, v.drawn.1));
      },
      omega (arith, v.drawn.0),
    )

push_reset-IsTracked :
    (source : Source) (current : Bool) (s : NodeSession) (index : Index)
    → IsTracked s index
    → let r = push_reset source current s index in IsTracked r.0 r.1
unfolding push_reset request_cache_reset
push_reset-IsTracked source current s index w =
    let P : NodeSession × Option Failure → Type 0 = λ r. IsTracked r.0 index in
    if_intro P current
      (sent_IsTracked _
        (record s {
          cache_session_id = source.fresh_session;
          cache_ready = false;
          needs_full = false;
        })
        index (record { pending = w.pending; done = w.done; drawn = w.drawn }))
      w

push_blocked-IsTracked :
    (source : Source) (current : Bool) (s : NodeSession) (index : Index)
    → IsTracked s index
    → let r = push_blocked source current s index in IsTracked r.0 r.1
unfolding push_blocked blocked_ip_snapshot next_identity_revision
push_blocked-IsTracked source current s index w =
    let r = blocked_ip_snapshot source.blocks s index in
    let v =
      drawn_IsTracked s r.1 index (record { identity = refl; revision = refl; applied = refl }) w in
    let sent = enqueue_identity current r.0 (source.encode r.0) r.1 r.2 in
    let t = enqueue_identity-IsTracked current r.0 (source.encode r.0) r.1 r.2 (v.0) refl (v.1) in
    due_IsTracked sent.2 sent.0 sent.1 t

push_users-IsTracked :
    (source : Source) (current : Bool) (requested : Option (List ℕ)) (s : NodeSession)
    (index : Index)
    → IsTracked s index
    → let r = push_users source current requested s index in IsTracked r.0 r.1
unfolding push_users identity_page snapshot_for_users next_identity_revision
push_users-IsTracked source current requested s index w =
    let P : NodeSession × Index → Type 0 = λ r. IsTracked r.0 r.1 in
    let allowed : ℕ → Bool = λ id. has_access id s.node_id index.access in
    let cursor = if s.baseline_active then s.baseline_cursor else 0 in
    let drawn = next_identity_revision index in
    let whole = snapshot_for_users source s.node_id requested index in
    let v =
      drawn_IsTracked s s index (record { identity = refl; revision = refl; applied = refl }) w in
    if_intro P (leb 3 s.cache_protocol)
      (elim (Option-cases
        (read_node_identity_page allowed source.users source.tokens cursor requested 64)) [
          | inl x ↦ rw x w
          | inr (p, x) ↦
              let n = page_snapshot s.baseline_active drawn.revision source.blocks p in
              let t = record s { pending_cursor = p.last_id } in
              let u =
                drawn_IsTracked s t index
                  (record { identity = refl; revision = refl; applied = refl }) w in
              rw x (enqueue_identity-IsTracked current n (source.encode n) t drawn (u.0) refl (u.1))
        ])
      (enqueue_identity-IsTracked current whole.0 (source.encode whole.0) s drawn (v.0) refl (v.1))

some_due :
    (ids : List ℕ) (source : Source) (current : Bool) (s : NodeSession) (index : Index)
    → IsTracked s index
    → let r : NodeSession × Index = elim ids [
      | [] ↦ (s, index)
      | i ∷ is ↦
          push_users source current (if ltb s.cache_protocol 2 then none else some (i ∷ is)) s index
    ] in
      IsTracked r.0 r.1
some_due [] source current s index w = w
some_due (i ∷ is) source current s index w =
    push_users-IsTracked source current (if ltb s.cache_protocol 2 then none else some (i ∷ is)) s
      index w

push_pending-IsTracked :
    (source : Source) (current : Bool) (s : NodeSession) (index : Index)
    → IsTracked s index
    → let r = push_pending source current s index in IsTracked r.0 r.1
unfolding push_pending
push_pending-IsTracked source current s index w =
    some_due (pending_node_identity_users s.node_id s.cache_session_id index) source current s index
      w

push_node_identity-IsTracked :
    (source : Source) (current : Bool) (s : NodeSession) (index : Index)
    → IsTracked s index
    → let r = push_node_identity source current s index in IsTracked r.0 r.1
unfolding push_node_identity
push_node_identity-IsTracked source current s index w =
    let P : NodeSession × Index × Bool → Type 0 = λ r. IsTracked r.0 r.1 in
    let paged = leb 3 s.cache_protocol in
    let full = s.needs_full in
    let baseline = s.baseline_active in
    let reset = push_reset-IsTracked source current s index w in
    if_intro P (source.database_suspect || not (is_idle s)) w (
      if_intro P (full && not s.cache_ready && paged) reset (
        if_intro P (not s.cache_ready) w (
          if_intro P (full && not baseline && paged) reset (
            if_intro P (s.needs_blocked_ips && not full && not baseline && paged)
              (push_blocked-IsTracked source current s index w)
              (if_intro P (full || baseline) (push_users-IsTracked source current none s index w)
                (push_pending-IsTracked source current s index w))))))

-- What happens to a session, by the messages of its node and by the push.
pub data SessionStep : Type 0 where
  pushes : Source → Bool → SessionStep
  progresses confirms : Bool → Message → SessionStep
  clears : Bool → Bool → Message → SessionStep

unfoldable pub session_step : SessionStep → NodeSession × Index → NodeSession × Index
unfolding push_node_identity accept_identity_progress confirm_identity accept_cache_cleared
session_step (pushes source current) (s, index) =
    let r = push_node_identity source current s index in (r.0, r.1)
session_step (progresses current m) (s, index) = ((accept_identity_progress current m s).0, index)
session_step (confirms current m) (s, index) =
    let r = confirm_identity current m s index in (r.0, r.1)
session_step (clears fails current m) (s, index) =
    let r = accept_cache_cleared fails current m s index in (r.0, r.1)

unfoldable pub session_steps : List SessionStep → NodeSession × Index → NodeSession × Index
session_steps [] p = p
session_steps (x ∷ xs) p = session_steps xs (session_step x p)

session_step-IsTracked :
    (x : SessionStep) (p : NodeSession × Index)
    → IsTracked p.0 p.1
    → IsTracked (session_step x p).0 (session_step x p).1
unfolding session_step
session_step-IsTracked (pushes source current) (s, index) w =
    push_node_identity-IsTracked source current s index w
session_step-IsTracked (progresses current m) (s, index) w =
    accept_identity_progress-IsTracked current m s index w
session_step-IsTracked (confirms current m) (s, index) w =
    confirm_identity-IsTracked current m s index w
session_step-IsTracked (clears fails current m) (s, index) w =
    accept_cache_cleared-IsTracked fails current m s index w

-- What a session knows of the snapshot under way agrees after any acknowledgements and pushes, in any order,
-- stale and wrong acknowledgements and failures included.
pub session_steps-IsTracked :
    (xs : List SessionStep) (s : NodeSession) (index : Index)
    → IsTracked s index
    → let q = session_steps xs (s, index) in IsTracked q.0 q.1
unfolding session_steps
session_steps-IsTracked [] s index w = w
session_steps-IsTracked (x ∷ xs) s index w =
    let q = session_step x (s, index) in
    session_steps-IsTracked xs q.0 q.1 (session_step-IsTracked x (s, index) w)

-- After any acknowledgements and pushes, while a snapshot waits to be acknowledged, the push changes neither
-- the session nor the index, and does not cancel the connection: one snapshot at a time is under way.
pub push_waits :
    (xs : List SessionStep) (s : NodeSession) (index : Index) (source : Source) (current : Bool)
    (n : IdentitySnapshot)
    → IsTracked s index
    → (session_steps xs (s, index)).0.pending_identity ≡ some n
    → let q = session_steps xs (s, index) in
      push_node_identity source current q.0 q.1 ≡ (q.0, q.1, false)
unfolding push_node_identity
push_waits xs s index source current n w h =
    let q = session_steps xs (s, index) in
    let p = (session_steps-IsTracked xs s index w).pending n h in
    let busy : (source.database_suspect || not (is_idle q.0)) ≡ true = ground (arith, p.1) in
    rw busy refl
