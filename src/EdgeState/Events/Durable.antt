-- ===== src/EdgeState/Events/Durable.antt =====
-- What the steps of the queue of events do to the row of an event.
use meow_frp_server.Prelude.{
  ℕ, zero, suc, ◌≡◌, refl, sym, ap, ◌∙◌, inl, inr, Bool, true, false, ◌&&◌, Option, some, List, [],
  ◌∷◌, arith, Bytes, codes, bytes_eq, bytes_eq_iff, Bool-cases, Option-cases, if◌then◌else◌,
  if_intro,
}
use meow_frp_server.EdgeState.Events.{
  OutboundEvent, max_queued_telemetry_events, is_telemetry, find_event, insert_or_ignore,
  keep_newest, is_disabled, queue_event, prune_disabled_dpi_events, open_queue, mark_acknowledged,
  mark_all, delete_acknowledged, acknowledge_events, is_one_of, QueueStep, queues, prunes,
  acknowledges, reopens, queue_step, queue_steps, acknowledges_id,
}

find_event-hit :
    (id : Bytes) (r : OutboundEvent) (rs : List OutboundEvent)
    → bytes_eq r.event_id id ≡ true
    → find_event id (r ∷ rs) ≡ some r
unfolding find_event
find_event-hit id r rs h = rw h refl

find_event-miss :
    (id : Bytes) (r : OutboundEvent) (rs : List OutboundEvent)
    → bytes_eq r.event_id id ≡ false
    → find_event id (r ∷ rs) ≡ find_event id rs
unfolding find_event
find_event-miss id r rs h = rw h refl

some_injective : (r e : OutboundEvent) → some r ≡ some e → r ≡ e
some_injective r e p = ground (arith, p)

-- The row that an id finds first is its row.
find_event-here :
    (id : Bytes) (r e : OutboundEvent) (rs : List OutboundEvent)
    → bytes_eq r.event_id id ≡ true
    → find_event id (r ∷ rs) ≡ some e
    → r ≡ e
find_event-here id r e rs h f = some_injective r e (sym (find_event-hit id r rs h) ∙ f)

-- A row in front is passed over or is what is found, with any rows behind it that agree.
find_event-behind :
    (id : Bytes) (r e : OutboundEvent) (rs ss : List OutboundEvent)
    → (find_event id rs ≡ some e → find_event id ss ≡ some e)
    → find_event id (r ∷ rs) ≡ some e
    → find_event id (r ∷ ss) ≡ some e
find_event-behind id r e rs ss agree f = elim (Bool-cases (bytes_eq r.event_id id)) [
  | inl h ↦ find_event-hit id r ss h ∙ sym (find_event-hit id r rs h) ∙ f
  | inr h ↦ find_event-miss id r ss h ∙ agree (sym (find_event-miss id r rs h) ∙ f)
]

-- A row that goes is not the one that is found.
find_event-without :
    (id : Bytes) (goes : OutboundEvent → Bool) (r e : OutboundEvent) (rs ss : List OutboundEvent)
    → goes e ≡ false
    → (find_event id rs ≡ some e → find_event id ss ≡ some e)
    → find_event id (r ∷ rs) ≡ some e
    → find_event id (if goes r then ss else r ∷ ss) ≡ some e
find_event-without id goes r e rs ss z agree f = elim (Bool-cases (goes r)) [
  | inl k ↦ elim (Bool-cases (bytes_eq r.event_id id)) [
    | inl h ↦ absurd (ground (arith, sym k ∙ ap goes (find_event-here id r e rs h f) ∙ z))
    | inr h ↦
        ap (λ b. find_event id (if b then ss else r ∷ ss)) k
        ∙ agree (sym (find_event-miss id r rs h) ∙ f)
  ]
  | inr k ↦
      ap (λ b. find_event id (if b then ss else r ∷ ss)) k ∙ find_event-behind id r e rs ss agree f
]

find_event-keep_newest :
    (id kind : Bytes) (n : ℕ) (rows : List OutboundEvent) (e : OutboundEvent)
    → bytes_eq e.event_type kind ≡ false
    → find_event id rows ≡ some e
    → find_event id (keep_newest kind n rows) ≡ some e
unfolding keep_newest
find_event-keep_newest id kind n [] e z f = f
find_event-keep_newest id kind zero (r ∷ rs) e z f =
    find_event-without id (λ x. bytes_eq x.event_type kind) r e rs (keep_newest kind zero rs) z
      (find_event-keep_newest id kind zero rs e z) f
find_event-keep_newest id kind (suc n) (r ∷ rs) e z f =
    let left = if bytes_eq r.event_type kind then n else suc n in
    find_event-behind id r e rs (keep_newest kind left rs)
      (find_event-keep_newest id kind left rs e z) f

find_event-delete_acknowledged :
    (id : Bytes) (n : ℕ) (rows : List OutboundEvent) (e : OutboundEvent)
    → e.acknowledged ≡ false
    → find_event id rows ≡ some e
    → find_event id (delete_acknowledged n rows) ≡ some e
unfolding delete_acknowledged
find_event-delete_acknowledged id n [] e z f = f
find_event-delete_acknowledged id zero (r ∷ rs) e z f =
    find_event-without id (λ x. x.acknowledged) r e rs (delete_acknowledged zero rs) z
      (find_event-delete_acknowledged id zero rs e z) f
find_event-delete_acknowledged id (suc n) (r ∷ rs) e z f =
    find_event-behind id r e rs (delete_acknowledged n rs)
      (find_event-delete_acknowledged id n rs e z) f

find_event-mark_acknowledged :
    (id other : Bytes) (rows : List OutboundEvent)
    → bytes_eq other id ≡ false
    → find_event id (mark_acknowledged other rows) ≡ find_event id rows
unfolding find_event mark_acknowledged
find_event-mark_acknowledged id other [] z = refl
find_event-mark_acknowledged id other (r ∷ rs) z =
    let rest = find_event-mark_acknowledged id other rs z in
    elim (Bool-cases (bytes_eq r.event_id other)) [
      | inl h ↦
          let different : bytes_eq r.event_id id ≡ false =
            ap (λ i. bytes_eq i id) ((bytes_eq_iff r.event_id other).0 h) ∙ z in
          rw h (rw different rest)
      | inr h ↦ rw (h, rest) refl
    ]

find_event-mark_all :
    (id : Bytes) (ids : List Bytes) (rows : List OutboundEvent)
    → is_one_of id ids ≡ false
    → find_event id (mark_all ids rows) ≡ find_event id rows
unfolding mark_all is_one_of
find_event-mark_all id [] rows z = refl
find_event-mark_all id (i ∷ ids) rows z =
    let both : (bytes_eq i id ≡ false) × (is_one_of id ids ≡ false) = ground (arith, z) in
    find_event-mark_all id ids (mark_acknowledged i rows) (both.1)
    ∙ find_event-mark_acknowledged id i rows (both.0)

find_event-insert_or_ignore :
    (id : Bytes) (new e : OutboundEvent) (rows : List OutboundEvent)
    → find_event id rows ≡ some e
    → find_event id (insert_or_ignore new rows) ≡ some e
unfolding insert_or_ignore
find_event-insert_or_ignore id new e rows f = elim (Option-cases (find_event new.event_id rows)) [
  | inl n ↦ elim (Bool-cases (bytes_eq new.event_id id)) [
    | inl h ↦
        let same = (bytes_eq_iff new.event_id id).0 h in
        absurd (ground (arith, sym f ∙ sym (ap (λ i. find_event i rows) same) ∙ n))
    | inr h ↦ rw (n, insert_or_ignore) (find_event-miss id new rows h ∙ f)
  ]
  | inr (old, n) ↦ rw (n, insert_or_ignore) f
]

other_kind :
    (kind own : Bytes)
    → is_telemetry kind ≡ true
    → is_telemetry own ≡ false
    → bytes_eq own kind ≡ false
other_kind kind own t z = elim (Bool-cases (bytes_eq own kind)) [
  | inl h ↦ absurd (ground (arith, sym z ∙ ap is_telemetry ((bytes_eq_iff own kind).0 h) ∙ t))
  | inr h ↦ h
]

find_event-queue_event :
    (reporting : Option Bool) (id new kind encoded : Bytes) (rows : List OutboundEvent)
    (e : OutboundEvent)
    → is_telemetry e.event_type ≡ false
    → find_event id rows ≡ some e
    → find_event id (queue_event reporting new kind encoded rows) ≡ some e
unfolding queue_event
find_event-queue_event reporting id new kind encoded rows e z f =
    let row : OutboundEvent = record {
      event_id = new;
      event_type = kind;
      payload = encoded;
      acknowledged = false;
    } in
    let inserted = find_event-insert_or_ignore id row e rows f in
    elim (Bool-cases (bytes_eq kind (codes "dpi_event") && is_disabled reporting)) [
      | inl d ↦ rw d f
      | inr d ↦ elim (Bool-cases (is_telemetry kind)) [
        | inl t ↦ rw d (
            rw t (
              find_event-keep_newest id kind max_queued_telemetry_events (insert_or_ignore row rows)
                e (other_kind kind e.event_type t z) inserted))
        | inr t ↦ rw d (rw t inserted)
      ]
    ]

find_event-queue_step :
    (id : Bytes) (s : QueueStep) (rows : List OutboundEvent) (e : OutboundEvent)
    → is_telemetry e.event_type ≡ false
    → e.acknowledged ≡ false
    → acknowledges_id id (s ∷ []) ≡ false
    → find_event id rows ≡ some e
    → find_event id (queue_step s rows) ≡ some e
unfolding queue_step acknowledges_id prune_disabled_dpi_events acknowledge_events open_queue
find_event-queue_step id (queues reporting new kind encoded) rows e z o a f =
    find_event-queue_event reporting id new kind encoded rows e z f
find_event-queue_step id (prunes reporting) rows e z o a f =
    let other : bytes_eq e.event_type (codes "dpi_event") ≡ false = ground (arith, z) in
    if_intro (λ kept. find_event id kept ≡ some e) (is_disabled reporting)
      (find_event-keep_newest id (codes "dpi_event") 0 rows e other f) f
find_event-queue_step id (acknowledges ids) rows e z o a f =
    let others : is_one_of id ids ≡ false = ground (arith, a) in
    find_event-delete_acknowledged id 1000 (mark_all ids rows) e o
      (find_event-mark_all id ids rows others ∙ f)
find_event-queue_step id reopens rows e z o a f =
    let not_log : bytes_eq e.event_type (codes "runtime_log") ≡ false = ground (arith, z) in
    let not_dpi : bytes_eq e.event_type (codes "dpi_event") ≡ false = ground (arith, z) in
    let max = max_queued_telemetry_events in
    find_event-keep_newest id (codes "dpi_event") max (keep_newest (codes "runtime_log") max rows) e
      not_dpi (find_event-keep_newest id (codes "runtime_log") max rows e not_log f)

split_acknowledges :
    (id : Bytes) (s : QueueStep) (ss : List QueueStep)
    → acknowledges_id id (s ∷ ss) ≡ false
    → (acknowledges_id id (s ∷ []) ≡ false) × (acknowledges_id id ss ≡ false)
unfolding acknowledges_id
split_acknowledges id (queues _ _ _ _) ss z = (refl, z)
split_acknowledges id (prunes _) ss z = (refl, z)
split_acknowledges id (acknowledges ids) ss z = ground (arith, z)
split_acknowledges id reopens ss z = (refl, z)

-- A queued event that is neither a runtime log nor a DPI event, and that no acknowledgement names, is kept as
-- it was queued and unacknowledged, whatever else is queued, pruned and acknowledged, and however often the
-- store is opened again.
pub durable_event_stays_queued :
    (id : Bytes) (ss : List QueueStep) (rows : List OutboundEvent) (e : OutboundEvent)
    → is_telemetry e.event_type ≡ false
    → e.acknowledged ≡ false
    → acknowledges_id id ss ≡ false
    → find_event id rows ≡ some e
    → find_event id (queue_steps ss rows) ≡ some e
unfolding queue_steps
durable_event_stays_queued id [] rows e z o a f = f
durable_event_stays_queued id (s ∷ ss) rows e z o a f =
    let both = split_acknowledges id s ss a in
    durable_event_stays_queued id ss (queue_step s rows) e z o (both.1)
      (find_event-queue_step id s rows e z o (both.0) f)
