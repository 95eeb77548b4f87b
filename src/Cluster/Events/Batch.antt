-- ===== src/Cluster/Events/Batch.antt =====
-- What a batch of events does to the rows of its node, and what is acknowledged of it.
use meow_frp_server.Prelude.{
  ℕ, ◌+◌, ◌^◌, ◌≤◌, ◌<◌, ◌≡◌, ◌⊎◌, refl, ap, ◌∙◌, sym, inl, inr, true, false, Option, none, some,
  List, [], ◌∷◌, arith, Bytes, bytes_eq, bytes_eq_iff, Bool-cases, Option-cases, length,
}
use meow_frp_server.Cluster.Events.{
  EventEnvelope, StoredEvent, event_number, takes_batch, has_id, has_number, Attempt, fails,
  succeeds, succeeds_only, drop_old_logs, insert_event, record_node_event_durably, record_events,
  record_event_batch,
}
use meow_frp_server.Cluster.Events.Rows.{IsIn, is_log, row_of, Unique, Pruned, drop_old_logs-Pruned}

-- A row that the id has, from before or new; it stays unless it is a runtime log.
record Present (number : ℕ) (e : EventEnvelope) (rows after : List StoredEvent) : Type 0 where
  row : StoredEvent
  own_id : row.event.event_id ≡ e.event_id
  origin : IsIn row rows ⊎ (row ≡ row_of number e)
  stays : is_log row ≡ false → IsIn row after

-- What one event does to the rows.
record Inserted (number : ℕ) (e : EventEnvelope) (rows after : List StoredEvent) : Type 0 where
  back : (r : StoredEvent) → IsIn r after → IsIn r rows ⊎ (r ≡ row_of number e)
  kept : (r : StoredEvent) → IsIn r rows → is_log r ≡ false → IsIn r after
  unique : Unique rows → Unique after
  present : Present number e rows after

find_id :
    (id : Bytes) (rows : List StoredEvent)
    → has_id id rows ≡ true
    → (r : StoredEvent) × IsIn r rows × (r.event.event_id ≡ id)
unfolding has_id
find_id id [] h = absurd (ground (arith, h))
find_id id (r ∷ rs) h = elim (Bool-cases (bytes_eq r.event.event_id id)) [
  | inl e ↦ (r, inl refl, (bytes_eq_iff r.event.event_id id).0 e)
  | inr e ↦ let rest = find_id id rs (ground (arith, h, e)) in (rest.0, inr rest.1, rest.2)
]

-- The row of an id that is there already.
known-Inserted :
    (number : ℕ) (e : EventEnvelope) (rows after : List StoredEvent)
    → has_id e.event_id rows ≡ true
    → Pruned rows after
    → Inserted number e rows after
known-Inserted number e rows after h p =
    let own = find_id e.event_id rows h in
    record {
      back = λ r i. inl (p.back r i);
      kept = p.kept;
      unique = p.unique;
      present = record {
        row = own.0;
        own_id = own.2;
        origin = inl own.1;
        stays = p.kept own.0 own.1;
      };
    }

new-Inserted :
    (number : ℕ) (e : EventEnvelope) (rows after : List StoredEvent)
    → has_id e.event_id rows ≡ false
    → has_number number rows ≡ false
    → Pruned (row_of number e ∷ rows) after
    → Inserted number e rows after
new-Inserted number e rows after h k p = record {
  back = λ r i. elim (p.back r i) [ inl new ↦ inr new | inr old ↦ inl old ];
  kept = λ r i n. p.kept r (inr i) n;
  unique = λ u. p.unique (h, k, u);
  present = record {
    row = row_of number e;
    own_id = refl;
    origin = inr refl;
    stays = p.kept (row_of number e) (inl refl);
  };
}

insert_event-Inserted :
    (a : Attempt) (number : ℕ) (e : EventEnvelope) (rows inserted : List StoredEvent)
    → insert_event number e rows ≡ some inserted
    → Inserted number e rows (drop_old_logs a e inserted)
unfolding insert_event
insert_event-Inserted a number e rows inserted q = elim (Bool-cases (has_id e.event_id rows)) [
  | inl h ↦
      let same : rows ≡ inserted = ground (arith, h, q) in
      rw (← same)
        (known-Inserted number e rows (drop_old_logs a e rows) h (drop_old_logs-Pruned a e rows))
  | inr h ↦ elim (Bool-cases (has_number number rows)) [
    | inl k ↦ absurd (ground (arith, h, k, q))
    | inr k ↦
        let same : row_of number e ∷ rows ≡ inserted = ground (arith, h, k, q) in
        rw (← same) (
          new-Inserted number e rows (drop_old_logs a e (row_of number e ∷ rows)) h k
            (drop_old_logs-Pruned a e (row_of number e ∷ rows)))
  ]
]

recorded_as :
    (a : Attempt) (number : ℕ) (e : EventEnvelope) (rows after : List StoredEvent)
    (o : Option (List StoredEvent))
    → insert_event number e rows ≡ o
    → elim o as (λ _. Option (List StoredEvent)) [
      | none ↦ none
      | some inserted ↦ some (drop_old_logs a e inserted)
    ]
      ≡ some after
    → Inserted number e rows after
recorded_as a number e rows after none o h = absurd (ground (arith, h))
recorded_as a number e rows after (some inserted) o h =
    let same : drop_old_logs a e inserted ≡ after = ground (arith, h) in
    rw (← same) (insert_event-Inserted a number e rows inserted o)

recorded :
    (a : Attempt) (number : ℕ) (e : EventEnvelope) (rows after : List StoredEvent)
    → record_node_event_durably a number e rows ≡ some after
    → Inserted number e rows after
unfolding record_node_event_durably
recorded fails number e rows after h = absurd (ground (arith, h))
recorded succeeds number e rows after h = recorded_as succeeds number e rows after _ refl h
recorded succeeds_only number e rows after h =
    recorded_as succeeds_only number e rows after _ refl h

-- A row that the batch adds: its id is acknowledged, its event is one of the batch, and its number is in the
-- range from `from` on and below `past`.
pub record IsNew (from past : ℕ) (es : List EventEnvelope) (acked : List Bytes) (r : StoredEvent)
    : Type 0 where
  pub acknowledged : IsIn r.event.event_id acked
  pub reported : IsIn r.event es
  pub low : from ≤ r.number
  pub high : r.number < past

-- A row that accounts for an acknowledgement of the id: it was there before or is new, and is there
-- afterwards unless it is a runtime log.
pub record Accounts (from past : ℕ) (es : List EventEnvelope) (rows after : List StoredEvent)
    (acked : List Bytes) (id : Bytes) : Type 0 where
  pub row : StoredEvent
  pub own_id : row.event.event_id ≡ id
  pub origin : IsIn row rows ⊎ IsNew from past es acked row
  pub stays : is_log row ≡ false → IsIn row after

-- What a batch does to the rows: it adds new rows only, deletes none but runtime logs, keeps ids and
-- numbers unique, and accounts for what it acknowledges.
pub record Recorded (from past : ℕ) (es : List EventEnvelope) (rows after : List StoredEvent)
    (acked : List Bytes) : Type 0 where
  pub back : (r : StoredEvent) → IsIn r after → IsIn r rows ⊎ IsNew from past es acked r
  pub kept : (r : StoredEvent) → IsIn r rows → is_log r ≡ false → IsIn r after
  pub unique : Unique rows → Unique after
  pub acked_stored : (id : Bytes) → IsIn id acked → Accounts from past es rows after acked id

nothing-Recorded :
    (from past : ℕ) (es : List EventEnvelope) (rows : List StoredEvent)
    → Recorded from past es rows rows []
nothing-Recorded from past es rows = record {
  back = λ r i. inl i;
  kept = λ r i _. i;
  unique = λ u. u;
  acked_stored = λ id i. absurd i;
}

skip-IsNew :
    (from past : ℕ) (e : EventEnvelope) (es : List EventEnvelope) (acked : List Bytes)
    (r : StoredEvent)
    → IsNew from past es acked r
    → IsNew from past (e ∷ es) acked r
skip-IsNew from past e es acked r n = record {
  acknowledged = n.acknowledged;
  reported = inr n.reported;
  low = n.low;
  high = n.high;
}

skip-Recorded :
    (from past : ℕ) (e : EventEnvelope) (es : List EventEnvelope) (rows after : List StoredEvent)
    (acked : List Bytes)
    → Recorded from past es rows after acked
    → Recorded from past (e ∷ es) rows after acked
skip-Recorded from past e es rows after acked p = record {
  back = λ r i. elim (p.back r i) [
    | inl old ↦ inl old
    | inr new ↦ inr (skip-IsNew from past e es acked r new)
  ];
  kept = p.kept;
  unique = p.unique;
  acked_stored = λ id i.
      let a = p.acked_stored id i in
      record {
        row = a.row;
        own_id = a.own_id;
        origin = elim a.origin [
          | inl old ↦ inl old
          | inr new ↦ inr (skip-IsNew from past e es acked a.row new)
        ];
        stays = a.stays;
      };
}

grown-IsNew :
    (from past number : ℕ) (e : EventEnvelope) (es : List EventEnvelope) (acked : List Bytes)
    (r : StoredEvent)
    → IsNew from past es acked r
    → IsNew from past (e ∷ es) (e.event_id ∷ acked) r
grown-IsNew from past number e es acked r n = record {
  acknowledged = inr n.acknowledged;
  reported = inr n.reported;
  low = n.low;
  high = n.high;
}

first-IsNew :
    (from past number : ℕ) (e : EventEnvelope) (es : List EventEnvelope) (acked : List Bytes)
    (r : StoredEvent)
    → from ≤ number
    → number < past
    → r ≡ row_of number e
    → IsNew from past (e ∷ es) (e.event_id ∷ acked) r
first-IsNew from past number e es acked r l h q = record {
  acknowledged = inl (ap (λ x. x.event.event_id) q);
  reported = inl (ap (λ x. x.event) q);
  low = omega (arith, l, ap (λ x. x.number) q);
  high = omega (arith, h, ap (λ x. x.number) q);
}

-- An event that is stored, and the rest of its batch.
stored-Recorded :
    (from past number : ℕ) (e : EventEnvelope) (es : List EventEnvelope)
    (rows stored after : List StoredEvent) (acked : List Bytes)
    → from ≤ number
    → number < past
    → Inserted number e rows stored
    → Recorded from past es stored after acked
    → Recorded from past (e ∷ es) rows after (e.event_id ∷ acked)
stored-Recorded from past number e es rows stored after acked l h first rest =
    let origin : (r : StoredEvent)
        → IsIn r rows ⊎ (r ≡ row_of number e)
        → IsIn r rows ⊎ IsNew from past (e ∷ es) (e.event_id ∷ acked) r =
      λ r o. elim o [
        | inl old ↦ inl old
        | inr new ↦ inr (first-IsNew from past number e es acked r l h new)
      ] in
    let origin_later : (r : StoredEvent)
        → IsIn r stored ⊎ IsNew from past es acked r
        → IsIn r rows ⊎ IsNew from past (e ∷ es) (e.event_id ∷ acked) r =
      λ r o. elim o [
        | inl old ↦ origin r (first.back r old)
        | inr new ↦ inr (grown-IsNew from past number e es acked r new)
      ] in
    record {
      back = λ r i. origin_later r (rest.back r i);
      kept = λ r i n. rest.kept r (first.kept r i n) n;
      unique = λ u. rest.unique (first.unique u);
      acked_stored = λ id i. elim i [
        | inl own ↦
            let p = first.present in
            record {
              row = p.row;
              own_id = p.own_id ∙ sym own;
              origin = origin p.row p.origin;
              stays = λ n. rest.kept p.row (p.stays n) n;
            }
        | inr later ↦
            let a = rest.acked_stored id later in
            record {
              row = a.row;
              own_id = a.own_id;
              origin = origin_later a.row a.origin;
              stays = a.stays;
            }
      ];
    }

record_events-Recorded :
    (attempt : ℕ → Attempt) (sequence index : ℕ) (es : List EventEnvelope) (rows : List StoredEvent)
    (from past : ℕ)
    → from ≤ event_number sequence index
    → event_number sequence index + length es ≤ past
    → let p = record_events attempt sequence index es rows in Recorded from past es rows p.0 p.1
unfolding record_events
record_events-Recorded attempt sequence index [] rows from past l h =
    nothing-Recorded from past [] rows
record_events-Recorded attempt sequence index (e ∷ es) rows from past l h =
    let number = event_number sequence index in
    let skipped = skip-Recorded from past e es rows _ _ (
      record_events-Recorded attempt sequence (index + 1) es rows from past (omega (arith, l))
        (omega (arith, h))) in
    elim (Bool-cases (bytes_eq e.event_id [])) [
      | inl x ↦ rw (x, record_events) skipped
      | inr x ↦ elim (Option-cases (record_node_event_durably (attempt index) number e rows)) [
        | inl n ↦ rw (x, record_events) (rw (n, record_events) skipped)
        | inr (stored, n) ↦
            rw (x, record_events)
              (rw (n, record_events)
                (stored-Recorded from past number e es rows stored _ _ l (omega (arith, h))
                  (recorded (attempt index) number e rows stored n)
                  (record_events-Recorded attempt sequence (index + 1) es stored from past
                    (omega (arith, l)) (omega (arith, h)))))
      ]
    ]

-- Whatever the database makes of its events, a batch adds rows only of its own events that it acknowledges, with
-- numbers from a thousand times its sequence on, in the first hundred of these and within int64, and deletes
-- no row but of runtime logs. Where no id and no number is there twice before, none is afterwards. Each id
-- that it acknowledges has a row, from before or new, which is there afterwards unless it is a runtime log.
pub record_event_batch-Recorded :
    (attempt : ℕ → Attempt) (sequence : ℕ) (events : List EventEnvelope) (rows : List StoredEvent)
    → let p = record_event_batch attempt sequence events rows in
      Recorded (event_number sequence 0) (event_number sequence 100) events rows p.0 p.1
      × Recorded 0 (2 ^ 63) events rows p.0 p.1
unfolding record_event_batch takes_batch
record_event_batch-Recorded attempt sequence events rows =
    let first = event_number sequence 0 in
    let last = event_number sequence 100 in
    elim (Bool-cases (takes_batch sequence events)) [
      | inl t ↦
          rw (t, record_event_batch)
            (
              record_events-Recorded attempt sequence 0 events rows first last (omega arith)
                  (ground (arith, t)),
              record_events-Recorded attempt sequence 0 events rows 0 (2 ^ 63) (omega arith)
                  (ground (arith, t)),
            )
      | inr t ↦
          rw (t, record_event_batch)
            (nothing-Recorded first last events rows, nothing-Recorded 0 (2 ^ 63) events rows)
    ]
