-- ===== src/Cluster/Transfer/Rounds.antt =====
-- The rounds of a transfer, piece after piece.
use meow_frp_server.Prelude.{
  ℕ, zero, suc, ◌+◌, ◌*◌, ◌<◌, ◌≡◌, refl, ap, ◌∙◌, inl, inr, true, false, none, some, [], ◌∷◌,
  arith, bytes_eq, bytes_eq_refl, ltb, leb, ◌==◌, take, take-length, Bool-cases, if◌then◌else◌,
}
use meow_frp_server.Cluster.Types.{Message, identity_chunk_bytes}
use meow_frp_server.Cluster.Session.{
  NodeSession, send_message, chunk_message, send_identity_chunk, accept_chunk_ack,
  accept_identity_progress,
}
use meow_frp_server.Cluster.Receiver.{
  Receiver, begun, applies, queue_apply, chunk_ack, count_fragment,
}
use meow_frp_server.Cluster.Pieces.{piece-first_pieces, last_piece}
use meow_frp_server.Cluster.Transfer.{
  IsMidway, deliver_answer, exchange, exchanges, chunk_of, with_piece, begun_expects, receive_piece,
}

-- The session without its message, at the next piece, and with the next message.
abbrev counted : NodeSession → NodeSession
counted s = record s { send = []; chunk_index = s.chunk_index + 1 }

abbrev advanced : NodeSession → NodeSession
advanced s = record (counted s) { send = chunk_message (counted s) ∷ [] }

accept_own_ack :
    (s : NodeSession) (r t : Receiver)
    → IsMidway s r
    → t.cache_session_id ≡ s.cache_session_id
    → t.chunk_index ≡ s.chunk_index
    → accept_identity_progress true (chunk_ack (chunk_message s) t) (record s { send = [] })
      ≡ (if ltb (s.chunk_index + 1) s.chunk_total then advanced s else counted s, none)
unfolding accept_identity_progress accept_chunk_ack send_identity_chunk send_message
accept_own_ack s r t w e i =
    let own : bytes_eq t.cache_session_id s.cache_session_id ≡ true =
      rw e (bytes_eq_refl s.cache_session_id) in
    let unseen : leb s.pending_revision s.applied_revision ≡ false = ground (arith, w.unapplied) in
    let current : ltb s.cache_protocol 3 ≡ false = ground (arith, w.protocol) in
    let same : (s.pending_revision == s.pending_revision) ≡ true = ground arith in
    let in_turn : ltb t.chunk_index s.chunk_index ≡ false = ground (arith, i) in
    let next : (t.chunk_index == s.chunk_index) ≡ true = ground (arith, i) in
    let open_ : leb s.chunk_total s.chunk_index ≡ false = ground (arith, w.more) in
    rw own (
      rw unseen (
        rw current (
          rw (w.pending.1) (
            rw same (
              rw in_turn (
                rw next (
                  rw open_ (elim (Bool-cases (ltb (s.chunk_index + 1) s.chunk_total)) [
                    | inl e ↦ rw e refl
                    | inr e ↦ rw e refl
                  ]))))))))

-- The receiver once it has counted the piece.
abbrev received : NodeSession → Receiver → Receiver
received s r = let t = with_piece s r in record t { chunk_index = t.chunk_index + 1; outgoing = [] }

deliver_answered :
    (s t : NodeSession) (r : Receiver) (a : Message)
    → r.outgoing ≡ a ∷ []
    → accept_identity_progress true a s ≡ (t, none)
    → deliver_answer s (r, none) ≡ some (t, record r { outgoing = [] })
unfolding deliver_answer
deliver_answered s t r a e h =
    rw e (rw (ap (λ u. u.1) h) (ap (λ u. some (u.0, record r { outgoing = [] })) h))

exchange_next :
    (s : NodeSession) (r : Receiver)
    → IsMidway s r
    → s.chunk_index + 1 < s.chunk_total
    → exchange (s, r) ≡ some (advanced s, received s r)
unfolding exchange count_fragment
exchange_next s r w h =
    let t = begun (chunk_message s) (chunk_of s) r in
    let e = begun_expects s r w in
    let open_ : (t.chunk_index + 1 == t.chunk_total) ≡ false = ground (arith, e.0, e.1, h) in
    let more : ltb (s.chunk_index + 1) s.chunk_total ≡ true = ground (arith, h) in
    rw w.sent (
      rw (receive_piece s r w) (
        rw open_ (
          deliver_answered (record s { send = [] }) (advanced s)
            (record (with_piece s r) { chunk_index = t.chunk_index + 1 })
            (chunk_ack (chunk_message s) t) (rw (e.5) refl)
            (accept_own_ack s r t w (e.4) (e.0) ∙ rw more refl))))

advanced-IsMidway :
    (s : NodeSession) (r : Receiver)
    → IsMidway s r
    → s.chunk_index + 1 < s.chunk_total
    → IsMidway (advanced s) (received s r)
advanced-IsMidway s r w h =
    let e = begun_expects s r w in
    let l = last_piece s.chunk_index s.chunk_total s.pending_payload w.enough w.more in
    record {
      same_node = e.7;
      protocol = w.protocol;
      receiver_protocol = rw (e.8) w.receiver_protocol;
      same_session = e.4;
      pending = w.pending;
      unapplied = w.unapplied;
      more = h;
      enough = w.enough;
      buffer = rw (e.3) (piece-first_pieces s.chunk_index s.pending_payload (omega (arith, l)));
      count = λ _. (ap (λ n. n + 1) (e.0), e.1, e.2);
      silent = refl;
      idle = e.6;
      sent = refl;
    }

exchange_last :
    (s : NodeSession) (r : Receiver)
    → IsMidway s r
    → s.chunk_index + 1 ≡ s.chunk_total
    → (t : Receiver) × (exchange (s, r) ≡ some (counted s, t))
      × (t.job
          ≡ some
              (applies r.identity_protocol s.cache_session_id s.pending_revision s.pending_payload))
unfolding exchange count_fragment queue_apply
exchange_last s r w h =
    let t = begun (chunk_message s) (chunk_of s) r in
    let e = begun_expects s r w in
    let closed : (t.chunk_index + 1 == t.chunk_total) ≡ true = ground (arith, e.0, e.1, h) in
    let more : ltb (s.chunk_index + 1) s.chunk_total ≡ false = ground (arith, h) in
    let whole : take ((s.chunk_index + 1) * identity_chunk_bytes) s.pending_payload
        ≡ s.pending_payload =
      take-length ((s.chunk_index + 1) * identity_chunk_bytes) s.pending_payload
        (omega (arith, h, w.enough)) in
    let l = last_piece s.chunk_index s.chunk_total s.pending_payload w.enough w.more in
    let text_ : (with_piece s r).chunk_buffer ≡ s.pending_payload =
      rw (e.3) (piece-first_pieces s.chunk_index s.pending_payload (omega (arith, l)) ∙ whole) in
    let u = record (with_piece s r) {
      chunk_index = t.chunk_index + 1;
      chunk_buffer = [];
      job = some (
          applies t.identity_protocol t.cache_session_id s.pending_revision
            (with_piece s r).chunk_buffer);
    } in
    (
      record u { outgoing = [] },
      rw w.sent (
          rw (receive_piece s r w) (
            rw closed (
              rw (e.6) (
                deliver_answered (record s { send = [] }) (counted s) u
                  (chunk_ack (chunk_message s) t) (rw (e.5) refl)
                  (accept_own_ack s r t w (e.4) (e.0) ∙ rw more refl))))),
      rw (e.8) (rw (e.4) (rw text_ refl)),
    )

exchanges_step :
    (n : ℕ) (p q : NodeSession × Receiver)
    → exchange p ≡ some q
    → exchanges (suc n) p ≡ exchanges n q
unfolding exchanges
exchanges_step n p q h = rw (h, exchanges) refl

exchanges_once : (p q : NodeSession × Receiver) → exchange p ≡ some q → exchanges 1 p ≡ some q
unfolding exchanges
exchanges_once p q h = exchanges_step zero p q h ∙ refl

-- From the first piece on: in as many rounds as pieces are left, none of which fails, the whole text of the
-- pending snapshot comes to the edge's apply worker, under its revision and for the session, and the
-- controller has counted all the pieces.
pub exchanges-applies :
    (s : NodeSession) (r : Receiver) (n : ℕ)
    → IsMidway s r
    → s.chunk_index + suc n ≡ s.chunk_total
    → (t : NodeSession × Receiver) × (exchanges (suc n) (s, r) ≡ some t)
      × (t.0.chunk_index ≡ s.chunk_total)
      × (t.0.chunk_total ≡ s.chunk_total)
      × (t.1.job
          ≡ some
              (applies r.identity_protocol s.cache_session_id s.pending_revision s.pending_payload))
unfolding exchanges
exchanges-applies s r zero w h =
    let l = exchange_last s r w (omega (arith, h)) in
    ((counted s, l.0), exchanges_once (s, r) (counted s, l.0) (l.1), omega (arith, h), refl, l.2)
exchanges-applies s r (suc n) w h =
    let q = advanced-IsMidway s r w (omega (arith, h)) in
    let rest = exchanges-applies (advanced s) (received s r) n q (omega (arith, h)) in
    let e = begun_expects s r w in
    (
      rest.0,
      exchanges_step (suc n) (s, r) (advanced s, received s r)
            (exchange_next s r w (omega (arith, h)))
          ∙ rest.1,
      rest.2,
      rest.3,
      rest.4 ∙ rw (e.8) refl,
    )
