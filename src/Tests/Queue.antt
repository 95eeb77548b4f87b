-- ===== src/Tests/Queue.antt =====
-- The queue of events of internal/edgestate on two events, and on the runs of its steps.
use meow_frp_server.Prelude.{
  false, none, some, [], ◌∷◌, ◌≡◌, ◌≤◌, refl, codes, bytes_eq, List, Bytes, filter, arith,
}
use meow_frp_server.EdgeState.Events.{
  OutboundEvent, find_event, pending_events, oldest_first, is_one_of, queues, prunes, acknowledges,
  reopens, QueueStep, queue_steps, acknowledges_id, count_kind,
}
use meow_frp_server.EdgeState.Events.Durable.{durable_event_stays_queued}
use meow_frp_server.EdgeState.Events.Bound.{telemetry_is_bounded}

abbrev event_of : Bytes → Bytes → OutboundEvent
event_of id kind = record {
  event_id = id;
  event_type = kind;
  payload = codes "{}";
  acknowledged = false;
}

abbrev usage_event : OutboundEvent
usage_event = event_of (codes "e1") (codes "connection_closed")

abbrev two_events : List OutboundEvent
two_events = event_of (codes "e2") (codes "dpi_event") ∷ usage_event ∷ []

pending_oldest_first :
    pending_events [] two_events ≡ usage_event ∷ event_of (codes "e2") (codes "dpi_event") ∷ []
unfolding pending_events oldest_first filter
pending_oldest_first = refl

abbrev queue_run : List QueueStep
queue_run =
    queues none (codes "e3") (codes "runtime_log") (codes "{}")
    ∷ prunes (some false)
    ∷ acknowledges (codes "e2" ∷ codes "e3" ∷ [])
    ∷ reopens
    ∷ []

durable_event_stays_queued_example :
    find_event (codes "e1") (queue_steps queue_run two_events) ≡ some usage_event
unfolding bytes_eq find_event acknowledges_id is_one_of
durable_event_stays_queued_example =
    durable_event_stays_queued (codes "e1") queue_run two_events usage_event refl refl refl refl

telemetry_is_bounded_example :
    count_kind (codes "runtime_log") (queue_steps queue_run two_events) ≤ 5000
unfolding bytes_eq count_kind
telemetry_is_bounded_example =
    telemetry_is_bounded (codes "runtime_log") queue_run two_events refl (omega arith)
