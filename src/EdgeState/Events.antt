-- ===== src/EdgeState/Events.antt =====
-- The queue of events that an edge is to send: `outbound_events` of internal/edgestate/store.go and
-- internal/edgestate/control.go. The rows stand newest first. A statement that the database refuses changes
-- nothing; the encoding of a payload is done before.
pub mod Durable
pub mod Bound
use meow_frp_server.Prelude.{
  ℕ, zero, suc, ◌≡◌, refl, sym, ap, ◌∙◌, inl, inr, Bool, true, false, not, ◌&&◌, ◌||◌, Option, none,
  some, List, [], ◌∷◌, arith, Bytes, codes, bytes_eq, bytes_eq_iff, Bool-cases, Option-cases,
  if◌then◌else◌, filter, take,
}

-- A row of `outbound_events`, less the times.
pub record OutboundEvent : Type 0 where
  pub event_id : Bytes
  pub event_type : Bytes
  pub payload : Bytes
  pub acknowledged : Bool

abbrev pub max_queued_telemetry_events : ℕ
max_queued_telemetry_events = 5000

abbrev pub is_telemetry : Bytes → Bool
is_telemetry kind = bytes_eq kind (codes "runtime_log") || bytes_eq kind (codes "dpi_event")

-- The row of an id, which is unique.
unfoldable pub find_event : Bytes → List OutboundEvent → Option OutboundEvent
find_event id [] = none
find_event id (r ∷ rs) =
    let rest = find_event id rs in if bytes_eq r.event_id id then some r else rest

-- `INSERT OR IGNORE`
unfoldable pub insert_or_ignore : OutboundEvent → List OutboundEvent → List OutboundEvent
insert_or_ignore e rows = elim (find_event e.event_id rows) [ none ↦ e ∷ rows | some _ ↦ rows ]

-- The rows of a kind, but for the `n` newest, are deleted.
unfoldable pub keep_newest : Bytes → ℕ → List OutboundEvent → List OutboundEvent
keep_newest kind n [] = []
keep_newest kind zero (r ∷ rs) =
    let rest = keep_newest kind zero rs in if bytes_eq r.event_type kind then rest else r ∷ rest
keep_newest kind (suc n) (r ∷ rs) =
    r ∷ keep_newest kind (if bytes_eq r.event_type kind then n else suc n) rs

-- Whether the setting of `SetDPIEventReporting`, where there is one, turns the reports off.
abbrev pub is_disabled : Option Bool → Bool
is_disabled none = false
is_disabled (some enabled) = not enabled

-- `QueueEvent`
unfoldable pub queue_event :
    Option Bool → Bytes → Bytes → Bytes → List OutboundEvent → List OutboundEvent
queue_event reporting id kind encoded rows =
    if bytes_eq kind (codes "dpi_event") && is_disabled reporting
    then rows
    else let e : OutboundEvent = record {
      event_id = id;
      event_type = kind;
      payload = encoded;
      acknowledged = false;
    } in
      let inserted = insert_or_ignore e rows in
      if is_telemetry kind then keep_newest kind max_queued_telemetry_events inserted else inserted

-- `PruneDisabledDPIEvents`
unfoldable pub prune_disabled_dpi_events : Option Bool → List OutboundEvent → List OutboundEvent
prune_disabled_dpi_events reporting rows =
    if is_disabled reporting then keep_newest (codes "dpi_event") 0 rows else rows

-- What `migrate` deletes when the store is opened.
unfoldable pub open_queue : List OutboundEvent → List OutboundEvent
open_queue rows =
    keep_newest (codes "dpi_event") max_queued_telemetry_events
      (keep_newest (codes "runtime_log") max_queued_telemetry_events rows)

unfoldable pub mark_acknowledged : Bytes → List OutboundEvent → List OutboundEvent
mark_acknowledged id [] = []
mark_acknowledged id (r ∷ rs) =
    (if bytes_eq r.event_id id
      then record {
        event_id = r.event_id;
        event_type = r.event_type;
        payload = r.payload;
        acknowledged = true;
      }
      else r)
    ∷ mark_acknowledged id rs

unfoldable pub mark_all : List Bytes → List OutboundEvent → List OutboundEvent
mark_all [] rows = rows
mark_all (id ∷ ids) rows = mark_all ids (mark_acknowledged id rows)

-- The acknowledged rows are deleted that are not among the `n` newest rows.
unfoldable pub delete_acknowledged : ℕ → List OutboundEvent → List OutboundEvent
delete_acknowledged n [] = []
delete_acknowledged zero (r ∷ rs) =
    let rest = delete_acknowledged zero rs in if r.acknowledged then rest else r ∷ rest
delete_acknowledged (suc n) (r ∷ rs) = r ∷ delete_acknowledged n rs

-- `AcknowledgeEvents`
unfoldable pub acknowledge_events : List Bytes → List OutboundEvent → List OutboundEvent
acknowledge_events ids rows = delete_acknowledged 1000 (mark_all ids rows)

-- Whether an event is of one of the kinds that are asked for; no kinds ask for all.
unfoldable pub is_one_of : Bytes → List Bytes → Bool
is_one_of kind [] = false
is_one_of kind (k ∷ ks) = bytes_eq k kind || is_one_of kind ks

abbrev pub is_asked : List Bytes → OutboundEvent → Bool
is_asked [] r = not r.acknowledged
is_asked (k ∷ ks) r = not r.acknowledged && is_one_of r.event_type (k ∷ ks)

unfoldable pub oldest_first : List OutboundEvent → List OutboundEvent → List OutboundEvent
oldest_first [] done = done
oldest_first (r ∷ rs) done = oldest_first rs (r ∷ done)

-- `pendingEvents`
unfoldable pub pending_events : List Bytes → List OutboundEvent → List OutboundEvent
pending_events types rows = take 100 (oldest_first (filter (is_asked types) rows) [])

-- `PendingEventsForTypes`
unfoldable pub pending_events_for_types : List Bytes → List OutboundEvent → List OutboundEvent
pending_events_for_types [] rows = []
pending_events_for_types (k ∷ ks) rows = pending_events (k ∷ ks) rows

-- What happens to the queue.
pub data QueueStep : Type 0 where
  queues : Option Bool → Bytes → Bytes → Bytes → QueueStep
  prunes : Option Bool → QueueStep
  acknowledges : List Bytes → QueueStep
  reopens : QueueStep

unfoldable pub queue_step : QueueStep → List OutboundEvent → List OutboundEvent
queue_step (queues reporting id kind encoded) rows = queue_event reporting id kind encoded rows
queue_step (prunes reporting) rows = prune_disabled_dpi_events reporting rows
queue_step (acknowledges ids) rows = acknowledge_events ids rows
queue_step reopens rows = open_queue rows

unfoldable pub queue_steps : List QueueStep → List OutboundEvent → List OutboundEvent
queue_steps [] rows = rows
queue_steps (s ∷ ss) rows = queue_steps ss (queue_step s rows)

-- Whether a step acknowledges the id.
unfoldable pub acknowledges_id : Bytes → List QueueStep → Bool
acknowledges_id id [] = false
acknowledges_id id (queues _ _ _ _ ∷ ss) = acknowledges_id id ss
acknowledges_id id (prunes _ ∷ ss) = acknowledges_id id ss
acknowledges_id id (acknowledges ids ∷ ss) = is_one_of id ids || acknowledges_id id ss
acknowledges_id id (reopens ∷ ss) = acknowledges_id id ss

-- How many rows are of a kind.
unfoldable pub count_kind : Bytes → List OutboundEvent → ℕ
count_kind kind [] = 0
count_kind kind (r ∷ rs) =
    let rest = count_kind kind rs in if bytes_eq r.event_type kind then suc rest else rest
