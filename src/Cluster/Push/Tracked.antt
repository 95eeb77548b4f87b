-- ===== src/Cluster/Push/Tracked.antt =====
-- What a session knows of the snapshot under way to its node: the lemmas of the acknowledgements.
use native.Mathlib.Nat.{le_refl}
use meow_frp_server.Prelude.{
  ℕ, ◌+◌, ◌≤◌, ◌<◌, ◌≡◌, refl, sym, ap, ◌∙◌, Bool, true, false, not, ◌&&◌, ◌||◌, inl, inr, Option,
  none, some, List, map, arith, Bytes, bytes_eq, Bool-cases, Option-cases, if_intro, ltb, leb, ◌==◌,
  if◌then◌else◌, length,
}
use meow_frp_server.Identity.{
  Index, lock_cache_session, prepare_node_identity_cache, confirm_node_identity_cache,
  reset_node_identity_cache,
}
use meow_frp_server.Cluster.Types.{IdentitySnapshot, Message, identity_progress, queue_capacity}
use meow_frp_server.Cluster.Session.{
  NodeSession, Failure, unexpected, incomplete, mismatch, send_message, accept_cache_cleared,
  send_identity_chunk, enqueue_identity, accept_chunk_ack, accept_identity_progress,
  confirm_snapshot, confirm_identity, covered, chunk_message, with_pending, with_chunks,
  with_applied,
}
use meow_frp_server.Cluster.Push.{}

-- The snapshot that is kept is that of the pending revision and not yet applied; without one, nothing is
-- pending; and no revision is ahead of the index.
pub record IsTracked (s : NodeSession) (index : Index) : Type 0 where
  pub pending :
      (n : IdentitySnapshot)
      → s.pending_identity ≡ some n
      → (n.revision ≡ s.pending_revision) × (s.applied_revision < s.pending_revision)
  pub done : s.pending_identity ≡ none → s.pending_revision ≤ s.applied_revision
  pub drawn : (s.applied_revision ≤ index.revision) × (s.pending_revision ≤ index.revision)

-- Two sessions that differ in other fields only.
pub record AreAlike (s t : NodeSession) : Type 0 where
  pub identity : t.pending_identity ≡ s.pending_identity
  pub revision : t.pending_revision ≡ s.pending_revision
  pub applied : t.applied_revision ≡ s.applied_revision

pub alike_IsTracked :
    (s t : NodeSession) (index : Index) → AreAlike s t → IsTracked s index → IsTracked t index
alike_IsTracked s t index e w = record {
  pending = λ n h. rw (e.revision) (rw (e.applied) (w.pending n (sym e.identity ∙ h)));
  done = λ h. rw (e.revision) (rw (e.applied) (w.done (sym e.identity ∙ h)));
  drawn = rw (e.revision) (rw (e.applied) w.drawn);
}

send_message-AreAlike : (m : Message) (s : NodeSession) → AreAlike s (send_message m s).0
unfolding send_message
send_message-AreAlike m s = elim (Bool-cases (ltb (length s.send) queue_capacity)) [
  | inl e ↦ rw e (record { identity = refl; revision = refl; applied = refl })
  | inr e ↦ rw e (record { identity = refl; revision = refl; applied = refl })
]

pub sent_IsTracked :
    (m : Message) (s : NodeSession) (index : Index)
    → IsTracked s index
    → IsTracked (send_message m s).0 index
sent_IsTracked m s index w =
    alike_IsTracked s (send_message m s).0 index (send_message-AreAlike m s) w

guarded_revision :
    (b : Bool) (index next : Index)
    → (if b then some index else none) ≡ some next
    → next.revision ≡ index.revision
guarded_revision true index next h = sym (ap (λ o. elim o [ none ↦ 0 | some x ↦ x.revision ]) h)
guarded_revision false index next h = absurd (ground (arith, h))

prepare_revision :
    (node session : Bytes) (revision : ℕ) (users : List ℕ) (index next : Index)
    → prepare_node_identity_cache node session revision users index ≡ some next
    → next.revision ≡ index.revision
unfolding prepare_node_identity_cache
prepare_revision node session revision users index next h =
    guarded_revision (lock_cache_session node session index) _ next h

confirm_revision :
    (node session : Bytes) (revision : ℕ) (users removed : List ℕ) (full : Bool)
    (index next : Index)
    → confirm_node_identity_cache node session revision users removed full index ≡ some next
    → next.revision ≡ index.revision
unfolding confirm_node_identity_cache
confirm_revision node session revision users removed full index next h =
    guarded_revision (lock_cache_session node session index) _ next h

index_IsTracked :
    (s : NodeSession) (a b : Index) → b.revision ≡ a.revision → IsTracked s a → IsTracked s b
index_IsTracked s a b e w = record { pending = w.pending; done = w.done; drawn = rw e w.drawn }

some_revision : (n m : IdentitySnapshot) → some n ≡ some m → m.revision ≡ n.revision
some_revision n m h = sym (ap (λ o. elim o [ none ↦ 0 | some x ↦ x.revision ]) h)

with_pending-IsTracked :
    (n : IdentitySnapshot) (s : NodeSession) (index : Index)
    → IsTracked s index
    → n.revision ≡ index.revision
    → s.applied_revision < index.revision
    → IsTracked (with_pending n s) index
with_pending-IsTracked n s index w e a = record {
  pending = λ m h. (some_revision n m h, rw e a);
  done = λ h. absurd (ground (arith, h));
  drawn = (w.drawn.0, rw e (le_refl _));
}

pub enqueue_identity-IsTracked :
    (current : Bool) (n : IdentitySnapshot) (payload : Bytes) (s : NodeSession) (index : Index)
    → IsTracked s index
    → n.revision ≡ index.revision
    → s.applied_revision < index.revision
    → let r = enqueue_identity current n payload s index in IsTracked r.0 r.1
unfolding enqueue_identity send_identity_chunk
enqueue_identity-IsTracked current n payload s index w e a =
    elim (Option-cases
      (prepare_node_identity_cache s.node_id s.cache_session_id n.revision (covered n) index)) [
        | inl x ↦ rw (x, enqueue_identity) w
        | inr (next, x) ↦
            let same =
              prepare_revision s.node_id s.cache_session_id n.revision (covered n) index next x in
            let kept = index_IsTracked s index next same w in
            let t = with_pending-IsTracked n s next kept (e ∙ sym same) (rw same a) in
            rw (x, enqueue_identity)
              (elim (Bool-cases current) [
                | inl c ↦ elim (Bool-cases (leb 3 s.cache_protocol)) [
                  | inl p ↦
                      let u = with_chunks payload (with_pending n s) in
                      let v : IsTracked u next = record {
                        pending = t.pending;
                        done = t.done;
                        drawn = t.drawn;
                      } in
                      rw c (rw p (sent_IsTracked (chunk_message u) u next v))
                  | inr p ↦ rw c (rw p (sent_IsTracked _ (with_pending n s) next t))
                ]
                | inr c ↦ rw c kept
              ])
      ]

-- The acknowledgements and the push.
accept_chunk_ack-IsTracked :
    (m : Message) (s : NodeSession) (index : Index)
    → IsTracked s index
    → IsTracked (accept_chunk_ack m s).0 index
unfolding accept_chunk_ack send_identity_chunk
accept_chunk_ack-IsTracked m s index w =
    let next = record s { chunk_index = s.chunk_index + 1 } in
    let v : IsTracked next index = record { pending = w.pending; done = w.done; drawn = w.drawn } in
    let P : NodeSession × Option Failure → Type 0 = λ r. IsTracked r.0 index in
    if_intro P (ltb m.sequence s.chunk_index) w (
      if_intro P (not (m.sequence == s.chunk_index) || leb s.chunk_total s.chunk_index) w (
        if_intro P (ltb next.chunk_index s.chunk_total)
          (sent_IsTracked (chunk_message next) next index v) v))

guarded_IsTracked :
    (stale old foreign is_progress newer : Bool) (m : Message) (s : NodeSession) (index : Index)
    → IsTracked s index
    → IsTracked (record s { apply_progress = m.sequence }) index
    → let r : NodeSession × Option Failure =
        if stale
        then (s, none)
        else if old
        then (s, none)
        else if foreign
        then (s, some mismatch)
        else if is_progress
        then (if newer then record s { apply_progress = m.sequence } else s, none)
        else accept_chunk_ack m s in
      IsTracked r.0 index
guarded_IsTracked true old foreign is_progress newer m s index w v = w
guarded_IsTracked false true foreign is_progress newer m s index w v = w
guarded_IsTracked false false true is_progress newer m s index w v = w
guarded_IsTracked false false false true true m s index w v = v
guarded_IsTracked false false false true false m s index w v = w
guarded_IsTracked false false false false newer m s index w v =
    accept_chunk_ack-IsTracked m s index w

pub accept_identity_progress-IsTracked :
    (current : Bool) (m : Message) (s : NodeSession) (index : Index)
    → IsTracked s index
    → IsTracked (accept_identity_progress current m s).0 index
unfolding accept_identity_progress
accept_identity_progress-IsTracked current m s index w =
    let own = bytes_eq m.cache_session_id s.cache_session_id in
    let is_progress : Bool = elim m.kind [ identity_progress ↦ true | _ ↦ false ] in
    let awaited : Bool = elim s.pending_identity [
      | none ↦ false
      | some _ ↦ m.revision == s.pending_revision
    ] in
    let noted : IsTracked (record s { apply_progress = m.sequence }) index = record {
      pending = w.pending;
      done = w.done;
      drawn = w.drawn;
    } in
    let stale = current && not own in
    let old = own && leb m.revision s.applied_revision in
    let foreign = not current || ltb s.cache_protocol 3 || not own || not awaited in
    guarded_IsTracked stale old foreign is_progress (ltb s.apply_progress m.sequence) m s index w
      noted

confirm_snapshot-IsTracked :
    (n : IdentitySnapshot) (s : NodeSession) (index : Index)
    → s.pending_identity ≡ some n
    → IsTracked s index
    → let r = confirm_snapshot n s index in IsTracked r.0 r.1
unfolding confirm_snapshot with_applied
confirm_snapshot-IsTracked n s index h w =
    let p = w.pending n h in
    elim (Option-cases (
      confirm_node_identity_cache s.node_id s.cache_session_id n.revision (map (λ u. u.id) n.users)
        n.removed_user_ids (not n.incremental && not n.baseline) index)) [
          | inl x ↦ rw (x, confirm_snapshot) w
          | inr (next, x) ↦
              let same =
                confirm_revision s.node_id s.cache_session_id n.revision (map (λ u. u.id) n.users)
                  n.removed_user_ids (not n.incremental && not n.baseline) index next x in
              let t : IsTracked (with_applied n s) next = record {
                pending = λ m k. absurd (ground (arith, k));
                done = λ _. omega (arith, p.0);
                drawn = (rw same (omega (arith, p.0, w.drawn.1)), rw same w.drawn.1);
              } in
              rw (x, confirm_snapshot)
                (elim (Bool-cases (leb 2 s.cache_protocol)) [
                  | inl c ↦ rw c (sent_IsTracked _ (with_applied n s) next t)
                  | inr c ↦ rw c t
                ])
        ]

confirm_awaited-IsTracked :
    (m : Message) (s : NodeSession) (index : Index) (o : Option IdentitySnapshot)
    → s.pending_identity ≡ o
    → IsTracked s index
    → let r : NodeSession × Index × Option Failure = elim o [
      | none ↦ (s, index, some unexpected)
      | some n ↦
          if not (n.revision == m.revision)
          then (s, index, some unexpected)
          else if leb 3 s.cache_protocol && not (s.chunk_index == s.chunk_total)
          then (s, index, some incomplete)
          else confirm_snapshot n s index
    ] in
      IsTracked r.0 r.1
confirm_awaited-IsTracked m s index none x w = w
confirm_awaited-IsTracked m s index (some n) x w =
    let P : NodeSession × Index × Option Failure → Type 0 = λ r. IsTracked r.0 r.1 in
    if_intro P (not (n.revision == m.revision)) w (
      if_intro P (leb 3 s.cache_protocol && not (s.chunk_index == s.chunk_total)) w
        (confirm_snapshot-IsTracked n s index x w))

pub confirm_identity-IsTracked :
    (current : Bool) (m : Message) (s : NodeSession) (index : Index)
    → IsTracked s index
    → let r = confirm_identity current m s index in IsTracked r.0 r.1
unfolding confirm_identity
confirm_identity-IsTracked current m s index w =
    let P : NodeSession × Index × Option Failure → Type 0 = λ r. IsTracked r.0 r.1 in
    let own = bytes_eq m.cache_session_id s.cache_session_id in
    if_intro P (not current) w (
      if_intro P (leb 2 s.cache_protocol && not own) w (
        if_intro P (leb m.revision s.applied_revision) w
          (confirm_awaited-IsTracked m s index s.pending_identity refl w)))

pub accept_cache_cleared-IsTracked :
    (fails current : Bool) (m : Message) (s : NodeSession) (index : Index)
    → IsTracked s index
    → let r = accept_cache_cleared fails current m s index in IsTracked r.0 r.1
unfolding accept_cache_cleared reset_node_identity_cache
accept_cache_cleared-IsTracked fails current m s index w =
    let P : NodeSession × Index × Option Failure → Type 0 = λ r. IsTracked r.0 r.1 in
    if_intro P
      (not (current && leb 3 s.cache_protocol && bytes_eq m.cache_session_id s.cache_session_id))
      (if_intro P (not (bytes_eq m.cache_session_id s.cache_session_id)) w w)
      (if_intro P s.cache_ready w (
        if_intro P fails w (record {
          pending = λ n h. absurd (ground (arith, h));
          done = λ _. le_refl _;
          drawn = (omega arith, omega arith);
        })))
