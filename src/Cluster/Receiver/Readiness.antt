-- ===== src/Cluster/Receiver/Readiness.antt =====
-- When a message that the edge receives makes it take itself for synchronized.
use meow_frp_server.Prelude.{
  ◌+◌, ◌≡◌, refl, Bool, true, false, not, ◌&&◌, ◌||◌, Option, none, some, [], ◌++◌, arith, Bytes,
  bytes_eq, bytes_eq_iff, if_intro, ltb, leb, ◌==◌, ==_iff, length, if◌then◌else◌,
}
use meow_frp_server.Cluster.Types.{
  IdentityChunk, HeartbeatAck, Payload, empty, chunk, ack, text, Kind, welcome, heartbeat_ack,
  controller_state, command, hello, other, event_ack, identity_progress, identity_ack,
  identity_chunk_ack, cache_cleared, identity_chunk, identity_snapshot, identity_confirmed, Message,
  queue_capacity,
}
use meow_frp_server.Cluster.Receiver.{
  Receiver, Job, Fault, node_mismatch, confirmation_mismatch, overlapping_application, enqueue,
  queue_apply, begun, chunk_ack, is_valid_fragment, count_fragment, then_count, receive_chunk,
  receive_snapshot, receive_confirmed, with_fault, receive_welcome, with_interval, receive_ack,
  dispatch, receive,
}

-- The receiver does not take itself for synchronized.
abbrev IsUnready : Receiver × Option Fault → Type 0
IsUnready p = p.0.sync_ready ≡ false

enqueue-IsUnready : (m : Message) (r : Receiver) → r.sync_ready ≡ false → IsUnready (enqueue m r)
unfolding enqueue
enqueue-IsUnready m r h = if_intro IsUnready (ltb (length r.outgoing) queue_capacity) h h

queue_apply-IsUnready :
    (j : Job) (r : Receiver) → r.sync_ready ≡ false → IsUnready (queue_apply j r)
unfolding queue_apply
queue_apply-IsUnready j r h = queued r.job
  where
    queued :
        (o : Option Job)
        → IsUnready (elim o [
          | none ↦ (record r { job = some j }, none)
          | some _ ↦ (r, some overlapping_application)
        ])
    queued none = h
    queued (some _) = h

count_fragment-IsUnready :
    (m : Message) (r : Receiver) → r.sync_ready ≡ false → IsUnready (count_fragment m r)
unfolding count_fragment
count_fragment-IsUnready m r h =
    if_intro IsUnready (r.chunk_index + 1 == r.chunk_total)
      (queue_apply-IsUnready _ (record r { chunk_index = r.chunk_index + 1; chunk_buffer = [] }) h)
      h

then_count-IsUnready :
    (m : Message) (p : Receiver × Option Fault) → IsUnready p → IsUnready (then_count m p)
unfolding then_count
then_count-IsUnready m (r, none) h = count_fragment-IsUnready m r h
then_count-IsUnready m (r, some f) h = h

receive_chunk-IsUnready :
    (m : Message) (c : IdentityChunk) (r : Receiver)
    → r.sync_ready ≡ false
    → IsUnready (receive_chunk m c r)
unfolding receive_chunk
receive_chunk-IsUnready m c r h =
    let s = begun m c r in
    let t = record s { chunk_buffer = s.chunk_buffer ++ c.data_ } in
    let k : s.sync_ready ≡ false =
      if_intro (λ (x : Receiver). x.sync_ready ≡ false) (c.index == 0) refl h in
    if_intro IsUnready
      (ltb r.identity_protocol 3 || not (bytes_eq m.cache_session_id r.cache_session_id)) h
      (if_intro IsUnready (c.index == 0 && ltb 0 (length r.chunk_buffer)) h (
        if_intro IsUnready (not (is_valid_fragment m c s)) k (
          then_count-IsUnready m (enqueue (chunk_ack m s) t)
            (enqueue-IsUnready (chunk_ack m s) t k))))

receive_snapshot-IsUnready :
    (m : Message) (payload : Bytes) (r : Receiver)
    → r.sync_ready ≡ false
    → IsUnready (receive_snapshot m payload r)
unfolding receive_snapshot
receive_snapshot-IsUnready m payload r h =
    if_intro IsUnready
      (leb 2 r.identity_protocol
        && (bytes_eq m.cache_session_id [] || not (bytes_eq m.cache_session_id r.cache_session_id)))
      h (queue_apply-IsUnready _ (record r { sync_ready = false }) refl)

with_fault_unready :
    (a : HeartbeatAck) (r : Receiver) → r.sync_ready ≡ false → (with_fault a r).sync_ready ≡ false
with_fault_unready a r h =
    if_intro (λ (x : Receiver). x.sync_ready ≡ false) (a.controller_fault && not r.controller_fault)
      refl h

with_interval-IsUnready :
    (a : HeartbeatAck) (p : Receiver × Option Fault) → IsUnready p → IsUnready (with_interval a p)
with_interval-IsUnready a (r, f) h =
    if_intro IsUnready (leb 2 a.interval_seconds && leb a.interval_seconds 60) h h

receive_welcome-IsUnready :
    (m : Message) (a : HeartbeatAck) (r : Receiver)
    → r.sync_ready ≡ false
    → IsUnready (receive_welcome m a r)
unfolding receive_welcome
receive_welcome-IsUnready m a r h =
    if_intro IsUnready (leb 3 a.identity_protocol)
      (if_intro IsUnready (bytes_eq m.cache_session_id []) refl (queue_apply-IsUnready _ _ refl)) h

receive_ack-IsUnready :
    (m : Message) (a : HeartbeatAck) (r : Receiver)
    → r.sync_ready ≡ false
    → IsUnready (receive_ack m a r)
unfolding receive_ack
receive_ack-IsUnready m a r h =
    let s = with_fault a (record r { connected = true }) in
    let k = with_fault_unready a (record r { connected = true }) h in
    let w = receive_welcome m a s in
    let v = receive_welcome-IsUnready m a s k in
    let is_welcome : Bool = elim m.kind [ welcome ↦ true | _ ↦ false ] in
    if_intro IsUnready is_welcome (welcomed w v w.1) (with_interval-IsUnready a (s, none) k)
  where
    welcomed :
        (w : Receiver × Option Fault)
        → IsUnready w
        → (o : Option Fault)
        → IsUnready (elim o [ none ↦ with_interval a w | some f ↦ (w.0, some f) ])
    welcomed w v none = with_interval-IsUnready a w v
    welcomed w v (some f) = v

-- What a confirmation must agree with.
abbrev pub IsConfirmation : Message → Receiver → Type 0
IsConfirmation m r =
    (m.kind ≡ identity_confirmed)
    × (m.cache_session_id ≡ r.cache_session_id)
    × (m.revision ≡ r.locally_applied_revision)

passed :
    (bad : Bool) (p q : Receiver × Option Fault)
    → IsUnready p
    → (if bad then p else q).0.sync_ready ≡ true
    → bad ≡ false
passed true p q h k = absurd (ground (arith, h, k))
passed false p q h k = refl

never : (p : Receiver × Option Fault) {A : Type 0} → IsUnready p → p.0.sync_ready ≡ true → A
never p h k = absurd (ground (arith, h, k))

receive_confirmed_ready :
    (m : Message) (r : Receiver)
    → r.sync_ready ≡ false
    → (receive_confirmed m r).0.sync_ready ≡ true
    → (m.cache_session_id ≡ r.cache_session_id) × (m.revision ≡ r.locally_applied_revision)
unfolding receive_confirmed
receive_confirmed_ready m r h k =
    let bad =
      not (bytes_eq m.cache_session_id r.cache_session_id)
      || not (m.revision == r.locally_applied_revision) in
    let agrees : bad ≡ false = passed bad (r, some confirmation_mismatch) _ h k in
    let both : (bytes_eq m.cache_session_id r.cache_session_id ≡ true)
        × ((m.revision == r.locally_applied_revision) ≡ true) =
      ground (arith, agrees) in
    ((bytes_eq_iff _ _).0 (both.0), (==_iff _ _).0 (both.1))

own_ready :
    (bad : Bool) (p q : Receiver × Option Fault)
    → IsUnready p
    → (if bad then p else q).0.sync_ready ≡ true
    → q.0.sync_ready ≡ true
own_ready true p q h k = never p h k
own_ready false p q h k = k

dispatch_ready :
    (kind : Kind) (p : Payload) (m : Message) (r : Receiver)
    → r.sync_ready ≡ false
    → (dispatch kind p m r).0.sync_ready ≡ true
    → (kind ≡ identity_confirmed)
      × (m.cache_session_id ≡ r.cache_session_id)
      × (m.revision ≡ r.locally_applied_revision)
unfolding dispatch
dispatch_ready identity_confirmed _ m r h k =
    let c = receive_confirmed_ready m r h k in (refl, c.0, c.1)
dispatch_ready identity_chunk (chunk c) m r h k =
    never (receive_chunk m c r) (receive_chunk-IsUnready m c r h) k
dispatch_ready identity_chunk empty m r h k = never (r, none) h k
dispatch_ready identity_chunk (ack a) m r h k = never (r, none) h k
dispatch_ready identity_chunk (text t) m r h k = never (r, none) h k
dispatch_ready identity_snapshot (text t) m r h k =
    never (receive_snapshot m t r) (receive_snapshot-IsUnready m t r h) k
dispatch_ready identity_snapshot empty m r h k =
    never (receive_snapshot m [] r) (receive_snapshot-IsUnready m [] r h) k
dispatch_ready identity_snapshot (chunk c) m r h k =
    never (receive_snapshot m [] r) (receive_snapshot-IsUnready m [] r h) k
dispatch_ready identity_snapshot (ack a) m r h k =
    never (receive_snapshot m [] r) (receive_snapshot-IsUnready m [] r h) k
dispatch_ready welcome (ack a) m r h k = never (receive_ack m a r) (receive_ack-IsUnready m a r h) k
dispatch_ready welcome empty m r h k = never (r, none) h k
dispatch_ready welcome (chunk c) m r h k = never (r, none) h k
dispatch_ready welcome (text t) m r h k = never (r, none) h k
dispatch_ready heartbeat_ack (ack a) m r h k =
    never (receive_ack m a r) (receive_ack-IsUnready m a r h) k
dispatch_ready heartbeat_ack empty m r h k = never (r, none) h k
dispatch_ready heartbeat_ack (chunk c) m r h k = never (r, none) h k
dispatch_ready heartbeat_ack (text t) m r h k = never (r, none) h k
dispatch_ready controller_state (ack a) m r h k =
    never (receive_ack m a r) (receive_ack-IsUnready m a r h) k
dispatch_ready controller_state empty m r h k = never (r, none) h k
dispatch_ready controller_state (chunk c) m r h k = never (r, none) h k
dispatch_ready controller_state (text t) m r h k = never (r, none) h k
dispatch_ready cache_cleared _ m r h k = never (r, none) h k
dispatch_ready identity_ack _ m r h k = never (r, none) h k
dispatch_ready identity_chunk_ack _ m r h k = never (r, none) h k
dispatch_ready identity_progress _ m r h k = never (r, none) h k
dispatch_ready event_ack _ m r h k = never (r, none) h k
dispatch_ready command _ m r h k = never (r, none) h k
dispatch_ready hello _ m r h k = never (r, none) h k
dispatch_ready other _ m r h k = never (r, none) h k

-- A message that makes the edge take itself for synchronized is a confirmation, for the current cache session
-- and for the revision that the edge has applied; no other message does, whatever it holds.
pub receive_ready :
    (m : Message) (r : Receiver)
    → r.sync_ready ≡ false
    → (receive m r).0.sync_ready ≡ true
    → IsConfirmation m r
unfolding receive
receive_ready m r h k =
    let foreign = not (bytes_eq m.node_id []) && not (bytes_eq m.node_id r.node_id) in
    dispatch_ready m.kind m.payload m r h
      (own_ready foreign (r, some node_mismatch) (dispatch m.kind m.payload m r) h k)
