-- ===== src/Cluster/Events.antt =====
-- The events that an edge reports: `recordEventBatch` of internal/cluster/server.go for a store with
-- `RecordNodeEventDurably` of internal/db/node_event_ingest.go, and that method on the rows of one node in
-- `node_events`. What the event of a kind `dpi_event` writes besides, its view, is left out, and ids and
-- kinds are taken to fit their columns.
use meow_frp_server.Prelude.{
  ℕ, zero, suc, ◌+◌, ◌-◌, ◌*◌, ◌/◌, ◌^◌, ◌≤◌, ◌≡◌, ◌⊎◌, refl, inl, inr, Bool, true, false, ◌&&◌,
  ◌||◌, Option, none, some, List, [], ◌∷◌, arith, Bytes, codes, bytes_eq, Bool-cases, Option-cases,
  ltb, leb, ◌==◌, length, if◌then◌else◌,
}
pub mod Rows
pub mod Batch

-- `EventEnvelope`, less the time.
pub record EventEnvelope : Type 0 where
  pub event_id : Bytes
  pub event_type : Bytes
  pub payload : Bytes

-- A row of `node_events`; the rows of a node stand newest first.
pub record StoredEvent : Type 0 where
  pub number : ℕ
  pub event : EventEnvelope

-- The largest int64.
abbrev max_int64 : ℕ
max_int64 = 2 ^ 63 - 1

-- The number of an event by its batch and its place in it.
abbrev pub event_number : ℕ → ℕ → ℕ
event_number sequence index = sequence * 1000 + index

-- Whether a batch is taken; the sequence is an int64 of the edge, and one below 0 is refused as well.
unfoldable pub takes_batch : ℕ → List EventEnvelope → Bool
takes_batch sequence events =
    if ltb ((max_int64 - 999) / 1000) sequence then false else leb (length events) 100

-- The node has a row with the id.
unfoldable pub has_id : Bytes → List StoredEvent → Bool
has_id id [] = false
has_id id (r ∷ rs) = bytes_eq r.event.event_id id || has_id id rs

-- The node has a row with the number.
unfoldable pub has_number : ℕ → List StoredEvent → Bool
has_number n [] = false
has_number n (r ∷ rs) = r.number == n || has_number n rs

-- The runtime logs but for the `n` newest are deleted.
unfoldable pub keep_newest_logs : ℕ → List StoredEvent → List StoredEvent
keep_newest_logs n [] = []
keep_newest_logs zero (r ∷ rs) =
    let rest = keep_newest_logs zero rs in
    if bytes_eq r.event.event_type (codes "runtime_log") then rest else r ∷ rest
keep_newest_logs (suc n) (r ∷ rs) =
    r ∷ keep_newest_logs (if bytes_eq r.event.event_type (codes "runtime_log") then n else suc n) rs

-- What the database makes of an event: the transaction fails, or succeeds with or without the deletion of
-- old logs after it.
pub data Attempt : Type 0 where
  fails succeeds succeeds_only : Attempt

unfoldable pub drop_old_logs : Attempt → EventEnvelope → List StoredEvent → List StoredEvent
drop_old_logs succeeds e rows =
    if bytes_eq e.event_type (codes "runtime_log") then keep_newest_logs 5000 rows else rows
drop_old_logs _ e rows = rows

-- `INSERT IGNORE`: a row with the id or the number stays as it is. A number that another event has is an
-- error.
unfoldable pub insert_event : ℕ → EventEnvelope → List StoredEvent → Option (List StoredEvent)
insert_event number e rows =
    if has_id e.event_id rows
    then some rows
    else if has_number number rows
    then none
    else some (record { number = number; event = e } ∷ rows)

-- `RecordNodeEventDurably`: the rows, or an error.
unfoldable pub record_node_event_durably :
    Attempt → ℕ → EventEnvelope → List StoredEvent → Option (List StoredEvent)
unfolding insert_event
record_node_event_durably fails number e rows = none
record_node_event_durably a number e rows = elim (insert_event number e rows) [
  | none ↦ none
  | some inserted ↦ some (drop_old_logs a e inserted)
]

-- The loop over the batch from one place on: the rows, and the ids that are acknowledged. `attempt` tells by
-- the place what the database makes of an event.
unfoldable pub record_events :
    (ℕ → Attempt) → ℕ → ℕ → List EventEnvelope → List StoredEvent → List StoredEvent × List Bytes
record_events attempt sequence index [] rows = (rows, [])
record_events attempt sequence index (e ∷ es) rows = elim (bytes_eq e.event_id []) [
  | true ↦ record_events attempt sequence (index + 1) es rows
  | false ↦ elim (record_node_event_durably (attempt index) (event_number sequence index) e rows) [
    | none ↦ record_events attempt sequence (index + 1) es rows
    | some stored ↦
        let rest = record_events attempt sequence (index + 1) es stored in
        (rest.0, e.event_id ∷ rest.1)
  ]
]

-- `recordEventBatch`
unfoldable pub record_event_batch :
    (ℕ → Attempt) → ℕ → List EventEnvelope → List StoredEvent → List StoredEvent × List Bytes
unfolding takes_batch record_events
record_event_batch attempt sequence events rows =
    if takes_batch sequence events then record_events attempt sequence 0 events rows else (rows, [])
