-- ===== src/Cluster/Transfer.antt =====
-- The transfer of a snapshot in pieces, with the controller's session at one end and the edge's receiver
-- at the other: one piece is under way at a time.
pub mod Rounds
use native.Mathlib.Nat.{le_refl}
use meow_frp_server.Prelude.{
  ℕ, zero, suc, ◌+◌, ◌-◌, ◌*◌, ◌/◌, ◌≤◌, ◌<◌, ◌≡◌, ◌≢◌, refl, sym, ap, ◌∙◌, inl, inr, Bool, true,
  false, not, ◌&&◌, ◌||◌, Option, none, some, List, [], ◌∷◌, ◌++◌, arith, Bytes, bytes_eq,
  bytes_eq_iff, bytes_eq_refl, ltb, leb, ◌==◌, length, slice, take, drop, take-length,
  length-append, length-take, length-drop, Bool-cases, if◌then◌else◌,
}
use meow_frp_server.Inspection.Outcome.{length-slice}
use meow_frp_server.Cluster.Types.{
  IdentitySnapshot, IdentityChunk, Payload, chunk, identity_chunk, identity_chunk_ack, Message,
  message, identity_chunk_bytes, queue_capacity,
}
use meow_frp_server.Cluster.Session.{
  NodeSession, send_message, chunk_message, send_identity_chunk, accept_chunk_ack,
  accept_identity_progress,
}
use meow_frp_server.Cluster.Receiver.{
  Receiver, Job, Fault, is_valid_fragment, begun, applies, enqueue, queue_apply, chunk_ack,
  receive_chunk, dispatch, count_fragment, then_count, receive,
}
use meow_frp_server.Cluster.Pieces.{
  first_pieces, piece, piece-first_pieces, length-piece, last_piece,
}

-- The session waits for the acknowledgement of its piece, which the receiver has not got yet.
pub record IsMidway (s : NodeSession) (r : Receiver) : Type 0 where
  pub same_node : r.node_id ≡ s.node_id
  pub protocol : 3 ≤ s.cache_protocol
  pub receiver_protocol : 3 ≤ r.identity_protocol
  pub same_session : r.cache_session_id ≡ s.cache_session_id
  pub pending : (n : IdentitySnapshot) × (s.pending_identity ≡ some n)
  pub unapplied : s.applied_revision < s.pending_revision
  pub more : s.chunk_index < s.chunk_total
  pub enough :
      s.chunk_total ≡ (length s.pending_payload + identity_chunk_bytes - 1) / identity_chunk_bytes
  pub buffer : r.chunk_buffer ≡ first_pieces s.chunk_index s.pending_payload
  pub count :
      0 < s.chunk_index
      → (r.chunk_index ≡ s.chunk_index)
        × (r.chunk_total ≡ s.chunk_total)
        × (r.chunk_revision ≡ s.pending_revision)
  pub silent : r.outgoing ≡ []
  pub idle : r.job ≡ none
  pub sent : s.send ≡ chunk_message s ∷ []

-- The first message of the controller reaches the edge, and the first answer the controller; `none` where
-- either end reports a failure.
unfoldable pub deliver_answer :
    NodeSession → Receiver × Option Fault → Option (NodeSession × Receiver)
deliver_answer s (r, some _) = none
deliver_answer s (r, none) = elim r.outgoing [
  | [] ↦ some (s, r)
  | a ∷ others ↦
      let t = accept_identity_progress true a s in
      elim t.1 [ none ↦ some (t.0, record r { outgoing = others }) | some _ ↦ none ]
]

unfoldable pub exchange : NodeSession × Receiver → Option (NodeSession × Receiver)
unfolding deliver_answer
exchange (s, r) = elim s.send [
  | [] ↦ none
  | m ∷ rest ↦ deliver_answer (record s { send = rest }) (receive m r)
]

unfoldable pub exchanges : ℕ → NodeSession × Receiver → Option (NodeSession × Receiver)
exchanges zero p = some p
exchanges (suc n) p = elim (exchange p) [ none ↦ none | some q ↦ exchanges n q ]

abbrev pub chunk_of : NodeSession → IdentityChunk
chunk_of s = record {
  index = s.chunk_index;
  total = s.chunk_total;
  data_ = piece s.chunk_index s.pending_payload;
}

-- The receiver that has begun the snapshot expects just this piece.
pub begun_expects :
    (s : NodeSession) (r : Receiver)
    → IsMidway s r
    → let t = begun (chunk_message s) (chunk_of s) r in
      (t.chunk_index ≡ s.chunk_index)
      × (t.chunk_total ≡ s.chunk_total)
      × (t.chunk_revision ≡ s.pending_revision)
      × (t.chunk_buffer ≡ first_pieces s.chunk_index s.pending_payload)
      × (t.cache_session_id ≡ s.cache_session_id)
      × (t.outgoing ≡ [])
      × (t.job ≡ none)
      × (t.node_id ≡ s.node_id)
      × (t.identity_protocol ≡ r.identity_protocol)
begun_expects s r w = elim (Bool-cases (s.chunk_index == 0)) [
  | inl z ↦
      rw z (
        ground (arith, z),
        refl,
        refl,
        w.buffer,
        w.same_session,
        w.silent,
        w.idle,
        w.same_node,
        refl,
      )
  | inr p ↦
      let c = w.count (ground (arith, p)) in
      rw p (c.0, c.1, c.2, w.buffer, w.same_session, w.silent, w.idle, w.same_node, refl)
]

begun_valid :
    (s : NodeSession) (r : Receiver)
    → IsMidway s r
    → is_valid_fragment (chunk_message s) (chunk_of s) (begun (chunk_message s) (chunk_of s) r)
      ≡ true
begun_valid s r w =
    let e = begun_expects s r w in
    let l =
      length-piece s.chunk_index s.pending_payload
        (last_piece s.chunk_index s.chunk_total s.pending_payload w.enough w.more) in
    rw (e.0, e.1, e.2) (ground (arith, l.0, l.1, w.more))

receive_routed :
    (s : NodeSession) (r : Receiver)
    → r.node_id ≡ s.node_id
    → receive (chunk_message s) r ≡ receive_chunk (chunk_message s) (chunk_of s) r
unfolding receive dispatch
receive_routed s r e =
    let own : (not (bytes_eq s.node_id []) && not (bytes_eq s.node_id r.node_id)) ≡ false =
      ground (arith, e, bytes_eq_iff s.node_id r.node_id) in
    rw own refl

-- The receiver with the piece, and its acknowledgement.
abbrev pub with_piece : NodeSession → Receiver → Receiver
with_piece s r =
    let t = begun (chunk_message s) (chunk_of s) r in
    record t {
      chunk_buffer = t.chunk_buffer ++ piece s.chunk_index s.pending_payload;
      outgoing = t.outgoing ++ chunk_ack (chunk_message s) t ∷ [];
    }

empty_buffer :
    (s : NodeSession) (r : Receiver)
    → IsMidway s r
    → s.chunk_index ≡ 0
    → ltb 0 (length r.chunk_buffer) ≡ false
empty_buffer s r w z = rw w.buffer (rw z refl)

pub receive_piece :
    (s : NodeSession) (r : Receiver)
    → IsMidway s r
    → receive (chunk_message s) r ≡ count_fragment (chunk_message s) (with_piece s r)
unfolding receive_chunk then_count enqueue
receive_piece s r w =
    let t = begun (chunk_message s) (chunk_of s) r in
    let e = begun_expects s r w in
    let own : (ltb r.identity_protocol 3 || not (bytes_eq s.cache_session_id r.cache_session_id))
        ≡ false =
      ground (
        arith,
        w.receiver_protocol,
        w.same_session,
        bytes_eq_iff s.cache_session_id r.cache_session_id,
      ) in
    let fresh : (s.chunk_index == 0 && ltb 0 (length r.chunk_buffer)) ≡ false =
      elim (Bool-cases (s.chunk_index == 0)) [
        | inl z ↦ rw z (empty_buffer s r w (ground (arith, z)))
        | inr p ↦ rw p refl
      ] in
    let room : ltb (length t.outgoing) queue_capacity ≡ true = rw (e.5) refl in
    receive_routed s r w.same_node ∙ rw own (rw fresh (rw (begun_valid s r w) (rw room refl)))
