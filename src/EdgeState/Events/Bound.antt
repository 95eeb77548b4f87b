-- ===== src/EdgeState/Events/Bound.antt =====
-- How many runtime logs and DPI events the queue of events holds.
use meow_frp_server.Prelude.{
  ℕ, zero, suc, ◌≤◌, ◌≡◌, refl, ap, ◌∙◌, inl, inr, Bool, true, false, ◌&&◌, Option, List, [], ◌∷◌,
  arith, Bytes, codes, bytes_eq, bytes_eq_iff, Bool-cases, Option-cases, if◌then◌else◌, if_intro,
}
use meow_frp_server.EdgeState.Events.{
  OutboundEvent, max_queued_telemetry_events, is_telemetry, find_event, insert_or_ignore,
  keep_newest, is_disabled, queue_event, prune_disabled_dpi_events, open_queue, mark_acknowledged,
  mark_all, delete_acknowledged, acknowledge_events, QueueStep, queues, prunes, acknowledges,
  reopens, queue_step, queue_steps, count_kind,
}

trans_le : {a b c : ℕ} → a ≤ b → b ≤ c → a ≤ c
trans_le h k = omega arith

count_kind-behind :
    (kind : Bytes) (r : OutboundEvent) (rs ss : List OutboundEvent)
    → count_kind kind ss ≤ count_kind kind rs
    → count_kind kind (r ∷ ss) ≤ count_kind kind (r ∷ rs)
unfolding count_kind
count_kind-behind kind r rs ss h = elim (Bool-cases (bytes_eq r.event_type kind)) [
  | inl e ↦ rw e (omega arith)
  | inr e ↦ rw e h
]

count_kind-tail :
    (kind : Bytes) (r : OutboundEvent) (rs : List OutboundEvent)
    → count_kind kind rs ≤ count_kind kind (r ∷ rs)
unfolding count_kind
count_kind-tail kind r rs = elim (Bool-cases (bytes_eq r.event_type kind)) [
  | inl e ↦ rw e (omega arith)
  | inr e ↦ rw e (omega arith)
]

count_kind-other :
    (kind : Bytes) (r : OutboundEvent) (rs : List OutboundEvent)
    → bytes_eq r.event_type kind ≡ false
    → count_kind kind (r ∷ rs) ≡ count_kind kind rs
unfolding count_kind
count_kind-other kind r rs e = rw e refl

-- Rows that are left out add nothing to a count.
count_kind-without :
    (kind : Bytes) (goes : Bool) (r : OutboundEvent) (rs ss : List OutboundEvent)
    → count_kind kind ss ≤ count_kind kind rs
    → count_kind kind (if goes then ss else r ∷ ss) ≤ count_kind kind (r ∷ rs)
count_kind-without kind goes r rs ss h =
    if_intro (λ kept. count_kind kind kept ≤ count_kind kind (r ∷ rs)) goes
      (trans_le h (count_kind-tail kind r rs)) (count_kind-behind kind r rs ss h)

count_kind-keep_newest :
    (kind other : Bytes) (n : ℕ) (rows : List OutboundEvent)
    → count_kind kind (keep_newest other n rows) ≤ count_kind kind rows
unfolding keep_newest
count_kind-keep_newest kind other n [] = omega arith
count_kind-keep_newest kind other zero (r ∷ rs) =
    count_kind-without kind (bytes_eq r.event_type other) r rs (keep_newest other zero rs)
      (count_kind-keep_newest kind other zero rs)
count_kind-keep_newest kind other (suc n) (r ∷ rs) =
    let left = if bytes_eq r.event_type other then n else suc n in
    count_kind-behind kind r rs (keep_newest other left rs)
      (count_kind-keep_newest kind other left rs)

-- The limit of a kind holds for that kind.
keep_newest-le :
    (kind : Bytes) (n : ℕ) (rows : List OutboundEvent)
    → count_kind kind (keep_newest kind n rows) ≤ n
unfolding keep_newest count_kind
keep_newest-le kind n [] = omega arith
keep_newest-le kind zero (r ∷ rs) =
    let rest = keep_newest-le kind zero rs in
    elim (Bool-cases (bytes_eq r.event_type kind)) [ inl e ↦ rw e rest | inr e ↦ rw e (rw e rest) ]
keep_newest-le kind (suc n) (r ∷ rs) = elim (Bool-cases (bytes_eq r.event_type kind)) [
  | inl e ↦ rw e (omega (arith, keep_newest-le kind n rs))
  | inr e ↦ rw e (keep_newest-le kind (suc n) rs)
]

keep_newest-le-same :
    (kind other : Bytes) (n : ℕ) (rows : List OutboundEvent)
    → other ≡ kind
    → count_kind kind (keep_newest other n rows) ≤ n
keep_newest-le-same kind other n rows same = rw same (keep_newest-le kind n rows)

count_kind-delete_acknowledged :
    (kind : Bytes) (n : ℕ) (rows : List OutboundEvent)
    → count_kind kind (delete_acknowledged n rows) ≤ count_kind kind rows
unfolding delete_acknowledged
count_kind-delete_acknowledged kind n [] = omega arith
count_kind-delete_acknowledged kind zero (r ∷ rs) =
    count_kind-without kind r.acknowledged r rs (delete_acknowledged zero rs)
      (count_kind-delete_acknowledged kind zero rs)
count_kind-delete_acknowledged kind (suc n) (r ∷ rs) =
    count_kind-behind kind r rs (delete_acknowledged n rs)
      (count_kind-delete_acknowledged kind n rs)

count_kind-mark_acknowledged :
    (kind id : Bytes) (rows : List OutboundEvent)
    → count_kind kind (mark_acknowledged id rows) ≡ count_kind kind rows
unfolding count_kind mark_acknowledged
count_kind-mark_acknowledged kind id [] = refl
count_kind-mark_acknowledged kind id (r ∷ rs) =
    let rest = count_kind-mark_acknowledged kind id rs in
    elim (Bool-cases (bytes_eq r.event_id id)) [
      | inl e ↦ rw (e, rest) refl
      | inr e ↦ rw (e, rest) refl
    ]

count_kind-mark_all :
    (kind : Bytes) (ids : List Bytes) (rows : List OutboundEvent)
    → count_kind kind (mark_all ids rows) ≡ count_kind kind rows
unfolding mark_all
count_kind-mark_all kind [] rows = refl
count_kind-mark_all kind (id ∷ ids) rows =
    count_kind-mark_all kind ids (mark_acknowledged id rows)
    ∙ count_kind-mark_acknowledged kind id rows

count_kind-insert_or_ignore :
    (kind : Bytes) (new : OutboundEvent) (rows : List OutboundEvent)
    → bytes_eq new.event_type kind ≡ false
    → count_kind kind (insert_or_ignore new rows) ≡ count_kind kind rows
unfolding insert_or_ignore
count_kind-insert_or_ignore kind new rows e = elim (Option-cases (find_event new.event_id rows)) [
  | inl n ↦ rw (n, insert_or_ignore) (count_kind-other kind new rows e)
  | inr (old, n) ↦ rw (n, insert_or_ignore) refl
]

count_kind-queue_event :
    (kind : Bytes) (reporting : Option Bool) (id other encoded : Bytes) (rows : List OutboundEvent)
    → is_telemetry kind ≡ true
    → count_kind kind rows ≤ max_queued_telemetry_events
    → count_kind kind (queue_event reporting id other encoded rows) ≤ max_queued_telemetry_events
unfolding queue_event
count_kind-queue_event kind reporting id other encoded rows t h =
    let row : OutboundEvent = record {
      event_id = id;
      event_type = other;
      payload = encoded;
      acknowledged = false;
    } in
    let inserted = insert_or_ignore row rows in
    let max = max_queued_telemetry_events in
    if_intro (λ kept. count_kind kind kept ≤ max)
      (bytes_eq other (codes "dpi_event") && is_disabled reporting) h
      (elim (Bool-cases (bytes_eq other kind)) [
        | inl e ↦
            let same = (bytes_eq_iff other kind).0 e in
            let limited : count_kind kind (keep_newest other max inserted) ≤ max =
              keep_newest-le-same kind other max inserted same in
            rw (ap is_telemetry same ∙ t) limited
        | inr e ↦
            let before : count_kind kind inserted ≤ max =
              rw (count_kind-insert_or_ignore kind row rows e) h in
            if_intro (λ kept. count_kind kind kept ≤ max) (is_telemetry other)
              (trans_le (count_kind-keep_newest kind other max inserted) before) before
      ])

count_kind-queue_step :
    (kind : Bytes) (s : QueueStep) (rows : List OutboundEvent)
    → is_telemetry kind ≡ true
    → count_kind kind rows ≤ max_queued_telemetry_events
    → count_kind kind (queue_step s rows) ≤ max_queued_telemetry_events
unfolding queue_step prune_disabled_dpi_events acknowledge_events open_queue
count_kind-queue_step kind (queues reporting id other encoded) rows t h =
    count_kind-queue_event kind reporting id other encoded rows t h
count_kind-queue_step kind (prunes reporting) rows t h =
    if_intro (λ kept. count_kind kind kept ≤ max_queued_telemetry_events) (is_disabled reporting)
      (trans_le (count_kind-keep_newest kind (codes "dpi_event") 0 rows) h) h
count_kind-queue_step kind (acknowledges ids) rows t h =
    trans_le (count_kind-delete_acknowledged kind 1000 (mark_all ids rows))
      (rw (count_kind-mark_all kind ids rows) h)
count_kind-queue_step kind reopens rows t h =
    let max = max_queued_telemetry_events in
    let logs = keep_newest (codes "runtime_log") max rows in
    trans_le (count_kind-keep_newest kind (codes "dpi_event") max logs)
      (trans_le (count_kind-keep_newest kind (codes "runtime_log") max rows) h)

-- A queue that holds at most 5000 runtime logs, or DPI events, holds at most 5000 of them after whatever
-- events are queued, pruned and acknowledged, and however often the store is opened again.
pub telemetry_is_bounded :
    (kind : Bytes) (ss : List QueueStep) (rows : List OutboundEvent)
    → is_telemetry kind ≡ true
    → count_kind kind rows ≤ 5000
    → count_kind kind (queue_steps ss rows) ≤ 5000
unfolding queue_steps
telemetry_is_bounded kind [] rows t h = h
telemetry_is_bounded kind (s ∷ ss) rows t h =
    telemetry_is_bounded kind ss (queue_step s rows) t (count_kind-queue_step kind s rows t h)
