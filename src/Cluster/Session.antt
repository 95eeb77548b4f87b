-- ===== src/Cluster/Session.antt =====
-- What the controller keeps of one connection of an edge node: `nodeSession` of internal/cluster/server.go
-- with the methods of push.go and identity_transfer.go. A method is told whether the session is still the
-- node's current one (`s.sessions[nodeID] == session`), and shares the index of cached users. The lock
-- `syncMu` makes each method one step.
use meow_frp_server.Prelude.{
  ℕ, ◌+◌, ◌-◌, ◌*◌, ◌/◌, Bool, true, false, not, ◌&&◌, ◌||◌, Option, none, some, List, [], ◌∷◌,
  ◌++◌, map, Bytes, bytes_eq, ltb, leb, ◌==◌, length, slice, if◌then◌else◌,
}
use meow_frp_server.Prelude.Table.{Table, insert, remove}
use meow_frp_server.Identity.{
  Index, reset_node_identity_cache, prepare_node_identity_cache, confirm_node_identity_cache,
}
use meow_frp_server.Cluster.Types.{
  Block, IdentitySnapshot, chunk, ack, text, welcome, identity_chunk, identity_snapshot,
  identity_confirmed, identity_progress, Message, message, identity_chunk_bytes, queue_capacity,
}

-- `nodeSession`, less the clocks and the capabilities. `send` is the channel, oldest message first.
pub record NodeSession : Type 0 where
  pub node_id : Bytes
  pub boot_id : Bytes
  pub send : List Message
  pub admission_protocol : ℕ
  pub cache_protocol : ℕ
  pub cache_session_id : Bytes
  pub blocked_ips : Table Block
  pub pending_revision : ℕ
  pub applied_revision : ℕ
  pub needs_full : Bool
  pub needs_blocked_ips : Bool
  pub pending_identity : Option IdentitySnapshot
  pub cache_ready : Bool
  pub baseline_active : Bool
  pub baseline_cursor : ℕ
  pub pending_cursor : ℕ
  pub pending_payload : Bytes
  pub chunk_index : ℕ
  pub chunk_total : ℕ
  pub apply_progress : ℕ

-- What the methods report; the texts of the errors are left out.
pub data Failure : Type 0 where
  superseded queue_full mismatch unexpected incomplete storage : Failure

-- A send that does not wait: it fails on a full channel.
unfoldable pub send_message : Message → NodeSession → NodeSession × Option Failure
send_message m s =
    if ltb (length s.send) queue_capacity
    then (record s { send = s.send ++ m ∷ [] }, none)
    else (s, some queue_full)

-- `requestCacheReset`, with the new session id and the controller's fault and heartbeat interval.
unfoldable pub request_cache_reset :
    Bytes → Bool → ℕ → Bool → NodeSession → NodeSession × Option Failure
unfolding send_message
request_cache_reset id fault interval current s =
    if current
    then send_message
        (record (message welcome s.node_id) {
          cache_session_id = id;
          payload = ack (record {
            controller_fault = fault;
            identity_protocol = 3;
            interval_seconds = interval;
          });
        })
        (record s { cache_session_id = id; cache_ready = false; needs_full = false })
    else (s, some superseded)

-- What the reset of the index leads to.
abbrev pub cleared : NodeSession → NodeSession
cleared s = record s {
  cache_ready = true;
  needs_full = false;
  baseline_active = true;
  baseline_cursor = 0;
  pending_revision = 0;
  applied_revision = 0;
  pending_identity = none;
  blocked_ips = [];
}

-- `acceptCacheCleared`; `sql_fails` tells whether the transaction fails.
unfoldable pub accept_cache_cleared :
    Bool → Bool → Message → NodeSession → Index → NodeSession × Index × Option Failure
accept_cache_cleared sql_fails current m s index =
    if not (current && leb 3 s.cache_protocol && bytes_eq m.cache_session_id s.cache_session_id)
    then if not (bytes_eq m.cache_session_id s.cache_session_id)
      then (s, index, none)
      else (s, index, some mismatch)
    else if s.cache_ready
    then (s, index, none)
    else if sql_fails
    then (s, index, some storage)
    else (cleared s, reset_node_identity_cache s.node_id s.cache_session_id s.boot_id index, none)

-- The message that `sendIdentityChunkLocked` sends.
abbrev pub chunk_message : NodeSession → Message
chunk_message s =
    let start = s.chunk_index * identity_chunk_bytes in
    let past = start + identity_chunk_bytes in
    let end = if ltb (length s.pending_payload) past then length s.pending_payload else past in
    record (message identity_chunk s.node_id) {
      revision = s.pending_revision;
      sequence = s.chunk_index;
      cache_session_id = s.cache_session_id;
      payload = chunk (record {
        index = s.chunk_index;
        total = s.chunk_total;
        data_ = slice s.pending_payload start end;
      });
    }

-- `sendIdentityChunkLocked`
unfoldable pub send_identity_chunk : NodeSession → NodeSession × Option Failure
unfolding send_message
send_identity_chunk s = send_message (chunk_message s) s

-- The users that a snapshot covers: those that it removes, then those that it holds.
abbrev pub covered : IdentitySnapshot → List ℕ
covered n = n.removed_user_ids ++ map (λ u. u.id) n.users

-- The session with a snapshot under way.
abbrev pub with_pending : IdentitySnapshot → NodeSession → NodeSession
with_pending n s = record s {
  pending_revision = n.revision;
  pending_identity = some n;
  apply_progress = 0;
  needs_full = if not n.incremental && not n.baseline then false else s.needs_full;
}

-- The session with the text to be sent in pieces.
abbrev pub with_chunks : Bytes → NodeSession → NodeSession
with_chunks payload s = record s {
  pending_payload = payload;
  chunk_index = 0;
  chunk_total = (length payload + identity_chunk_bytes - 1) / identity_chunk_bytes;
}

-- `enqueueIdentity`, for a message that carries this snapshot as this text, and its revision.
unfoldable pub enqueue_identity :
    Bool → IdentitySnapshot → Bytes → NodeSession → Index → NodeSession × Index × Option Failure
unfolding send_identity_chunk send_message
enqueue_identity current n payload s index =
    elim (prepare_node_identity_cache s.node_id s.cache_session_id n.revision (covered n) index) [
      | none ↦ (s, index, some storage)
      | some prepared ↦
          let sent =
            if leb 3 s.cache_protocol
            then send_identity_chunk (with_chunks payload (with_pending n s))
            else send_message
                (record (message identity_snapshot s.node_id) {
                  revision = n.revision;
                  cache_session_id = s.cache_session_id;
                  payload = text payload;
                })
                (with_pending n s) in
          if current then (sent.0, prepared, sent.1) else (s, prepared, some superseded)
    ]

-- The acknowledgement of the next piece.
unfoldable pub accept_chunk_ack : Message → NodeSession → NodeSession × Option Failure
unfolding send_identity_chunk
accept_chunk_ack m s =
    let next = record s { chunk_index = s.chunk_index + 1 } in
    if ltb m.sequence s.chunk_index
    then (s, none)
    else if not (m.sequence == s.chunk_index) || leb s.chunk_total s.chunk_index
    then (s, some unexpected)
    else if ltb next.chunk_index s.chunk_total
    then send_identity_chunk next
    else (next, none)

-- `acceptIdentityProgress`
unfoldable pub accept_identity_progress :
    Bool → Message → NodeSession → NodeSession × Option Failure
unfolding accept_chunk_ack
accept_identity_progress current m s =
    let own = bytes_eq m.cache_session_id s.cache_session_id in
    let is_progress : Bool = elim m.kind [ identity_progress ↦ true | _ ↦ false ] in
    let awaited : Bool = elim s.pending_identity [
      | none ↦ false
      | some _ ↦ m.revision == s.pending_revision
    ] in
    if current && not own
    then (s, none)
    else if own && leb m.revision s.applied_revision
    then (s, none)
    else if not current || ltb s.cache_protocol 3 || not own || not awaited
    then (s, some mismatch)
    else if is_progress
    then (
      if ltb s.apply_progress m.sequence then record s { apply_progress = m.sequence } else s,
      none,
    )
    else accept_chunk_ack m s

unfoldable pub add_blocks : List Block → Table Block → Table Block
add_blocks [] known = known
add_blocks (b ∷ bs) known = add_blocks bs (insert b.ip b known)

unfoldable pub drop_blocks : List Bytes → Table Block → Table Block
drop_blocks [] known = known
drop_blocks (ip ∷ ips) known = drop_blocks ips (remove ip known)

-- What `confirmIdentity` records of a snapshot that the edge has applied.
unfoldable pub with_applied : IdentitySnapshot → NodeSession → NodeSession
unfolding add_blocks drop_blocks
with_applied n s = record s {
  applied_revision = n.revision;
  pending_identity = none;
  pending_payload = [];
  blocked_ips =
      drop_blocks n.removed_blocked_ips
        (add_blocks n.blocked_ips (if n.replace_blocked_ips then [] else s.blocked_ips));
  baseline_cursor = if n.baseline then s.pending_cursor else s.baseline_cursor;
  baseline_active = if n.baseline then not n.baseline_end else s.baseline_active;
}

-- The part of `confirmIdentity` from the index on, for the snapshot that is acknowledged.
unfoldable pub confirm_snapshot :
    IdentitySnapshot → NodeSession → Index → NodeSession × Index × Option Failure
unfolding with_applied send_message
confirm_snapshot n s index =
    elim (confirm_node_identity_cache s.node_id s.cache_session_id n.revision
      (map (λ u. u.id) n.users) n.removed_user_ids (not n.incremental && not n.baseline) index) [
        | none ↦ (s, index, some storage)
        | some confirmed ↦
            let t = with_applied n s in
            let sent =
              if leb 2 t.cache_protocol
              then send_message
                  (record (message identity_confirmed t.node_id) {
                    revision = n.revision;
                    cache_session_id = t.cache_session_id;
                    sync_complete = not n.baseline || n.baseline_end;
                  })
                  t
              else (t, none) in
            (sent.0, confirmed, sent.1)
      ]

-- `confirmIdentity`
unfoldable pub confirm_identity :
    Bool → Message → NodeSession → Index → NodeSession × Index × Option Failure
unfolding confirm_snapshot
confirm_identity current m s index =
    let own = bytes_eq m.cache_session_id s.cache_session_id in
    if not current
    then (s, index, some superseded)
    else if leb 2 s.cache_protocol && not own
    then (s, index, none)
    else if leb m.revision s.applied_revision
    then (s, index, none)
    else elim s.pending_identity [
      | none ↦ (s, index, some unexpected)
      | some n ↦
          if not (n.revision == m.revision)
          then (s, index, some unexpected)
          else if leb 3 s.cache_protocol && not (s.chunk_index == s.chunk_total)
          then (s, index, some incomplete)
          else confirm_snapshot n s index
    ]
