-- ===== src/Cluster/Receiver.antt =====
-- The edge's end of the control channel: what `EdgeClient.connect` of internal/cluster/client.go does
-- with one message that it receives, and what its apply worker does with one job. The handlers of the
-- cache are arguments, and are set; the queue of outgoing messages is returned, and what fails ends the connection.
pub mod Readiness
pub mod Backoff
use meow_frp_server.Prelude.{
  ℕ, ◌+◌, ◌*◌, ◌^◌, ◌%◌, Bool, true, false, not, ◌&&◌, ◌||◌, Option, none, some, List, [], ◌∷◌,
  ◌++◌, Bytes, bytes_eq, ltb, leb, ◌==◌, length, if◌then◌else◌,
}
use meow_frp_server.Cluster.Types.{
  Payload, Kind, IdentityChunk, HeartbeatAck, chunk, ack, text, welcome, heartbeat_ack,
  controller_state, identity_chunk, identity_snapshot, identity_confirmed, cache_cleared,
  identity_ack, identity_chunk_ack, Message, message, identity_chunk_bytes, queue_capacity,
}

-- A job of the apply worker.
pub data Job : Type 0 where
  clears_cache : Bytes → Job
  applies : ℕ → Bytes → ℕ → Bytes → Job

-- The flags of `EdgeClient` and the variables of `connect`. `job` is the channel `applyJobs`, which holds
-- one job, `working` the job that the apply worker is at, `outgoing` the channel of messages to be sent,
-- oldest first, and `fault_calls` the calls of `faultHandler`, latest first.
pub record Receiver : Type 0 where
  pub node_id : Bytes
  pub connected : Bool
  pub sync_ready : Bool
  pub controller_fault : Bool
  pub fault_generation : ℕ
  pub heartbeat_seconds : ℕ
  pub locally_applied_revision : ℕ
  pub identity_protocol : ℕ
  pub cache_session_id : Bytes
  pub chunk_buffer : Bytes
  pub chunk_revision : ℕ
  pub chunk_index : ℕ
  pub chunk_total : ℕ
  pub job : Option Job
  pub working : Option Job
  pub outgoing : List Message
  pub fault_calls : List Bool

-- What ends the connection; the texts of the errors are left out.
pub data Fault : Type 0 where
  node_mismatch session_mismatch overlapping_fragments invalid_fragment overlapping_application :
      Fault
  confirmation_mismatch missing_epoch queue_full bad_payload revision_mismatch handler_failed :
      Fault

-- `enqueue`
unfoldable pub enqueue : Message → Receiver → Receiver × Option Fault
enqueue m r =
    if ltb (length r.outgoing) queue_capacity
    then (record r { outgoing = r.outgoing ++ m ∷ [] }, none)
    else (r, some queue_full)

-- `queueApply`
unfoldable pub queue_apply : Job → Receiver → Receiver × Option Fault
queue_apply j r = elim r.job [
  | none ↦ (record r { job = some j }, none)
  | some _ ↦ (r, some overlapping_application)
]

-- `signalFault`; the generation is a uint64.
abbrev pub signal_fault : Receiver → Receiver
signal_fault r = record r {
  fault_generation = (r.fault_generation + 1) % 2 ^ 64;
  fault_calls = true ∷ r.fault_calls;
}

-- The first piece of a snapshot starts the buffer over.
abbrev pub begun : Message → IdentityChunk → Receiver → Receiver
begun m c r =
    if c.index == 0
    then record r {
      chunk_revision = m.revision;
      chunk_total = c.total;
      chunk_index = 0;
      sync_ready = false;
    }
    else r

abbrev pub is_valid_fragment : Message → IdentityChunk → Receiver → Bool
is_valid_fragment m c r =
    leb 1 c.total
    && c.total == r.chunk_total
    && c.index == r.chunk_index
    && m.sequence == r.chunk_index
    && m.revision == r.chunk_revision
    && not (length c.data_ == 0)
    && leb (length c.data_) identity_chunk_bytes

abbrev pub chunk_ack : Message → Receiver → Message
chunk_ack m r = record (message identity_chunk_ack r.node_id) {
  cache_session_id = r.cache_session_id;
  revision = m.revision;
  sequence = r.chunk_index;
}

-- After a piece has been acknowledged: the last one hands the whole text to the apply worker.
unfoldable pub count_fragment : Message → Receiver → Receiver × Option Fault
unfolding queue_apply
count_fragment m r =
    let next = record r { chunk_index = r.chunk_index + 1 } in
    if next.chunk_index == r.chunk_total
    then queue_apply (applies r.identity_protocol r.cache_session_id m.revision r.chunk_buffer)
        (record next { chunk_buffer = [] })
    else (next, none)

unfoldable pub then_count : Message → Receiver × Option Fault → Receiver × Option Fault
unfolding count_fragment
then_count m (r, none) = count_fragment m r
then_count m (r, some f) = (r, some f)

-- A message of type `identity_chunk`
unfoldable pub receive_chunk : Message → IdentityChunk → Receiver → Receiver × Option Fault
unfolding enqueue then_count
receive_chunk m c r =
    let s = begun m c r in
    let t = record s { chunk_buffer = s.chunk_buffer ++ c.data_ } in
    if ltb r.identity_protocol 3 || not (bytes_eq m.cache_session_id r.cache_session_id)
    then (r, some session_mismatch)
    else if c.index == 0 && ltb 0 (length r.chunk_buffer)
    then (r, some overlapping_fragments)
    else if not (is_valid_fragment m c s)
    then (s, some invalid_fragment)
    else then_count m (enqueue (chunk_ack m s) t)

-- A message of type `identity_snapshot`
unfoldable pub receive_snapshot : Message → Bytes → Receiver → Receiver × Option Fault
unfolding queue_apply
receive_snapshot m payload r =
    if leb 2 r.identity_protocol
      && (bytes_eq m.cache_session_id [] || not (bytes_eq m.cache_session_id r.cache_session_id))
    then (r, some session_mismatch)
    else queue_apply (applies r.identity_protocol r.cache_session_id m.revision payload)
        (record r { sync_ready = false })

-- A message of type `identity_confirmed`
unfoldable pub receive_confirmed : Message → Receiver → Receiver × Option Fault
receive_confirmed m r =
    if not (bytes_eq m.cache_session_id r.cache_session_id)
      || not (m.revision == r.locally_applied_revision)
    then (r, some confirmation_mismatch)
    else let ready = ltb r.identity_protocol 3 || m.sync_complete in
      (
        record r {
          sync_ready = ready;
          fault_calls =
              if ready && not r.controller_fault then false ∷ r.fault_calls else r.fault_calls;
        },
        none,
      )

-- The controller's fault as the acknowledgement reports it.
abbrev pub with_fault : HeartbeatAck → Receiver → Receiver
with_fault a r =
    if a.controller_fault && not r.controller_fault
    then record (signal_fault r) { controller_fault = true; sync_ready = false }
    else record r { controller_fault = a.controller_fault }

-- What a welcome sets up.
unfoldable pub receive_welcome : Message → HeartbeatAck → Receiver → Receiver × Option Fault
unfolding queue_apply
receive_welcome m a r =
    let s = record (signal_fault r) {
      identity_protocol = a.identity_protocol;
      cache_session_id = m.cache_session_id;
    } in
    if leb 3 a.identity_protocol
    then if bytes_eq m.cache_session_id []
      then (record s { sync_ready = false; chunk_buffer = [] }, some missing_epoch)
      else queue_apply (clears_cache m.cache_session_id)
          (record s { sync_ready = false; chunk_buffer = [] })
    else (s, none)

abbrev pub with_interval : HeartbeatAck → Receiver × Option Fault → Receiver × Option Fault
with_interval a (r, f) =
    if leb 2 a.interval_seconds && leb a.interval_seconds 60
    then (record r { heartbeat_seconds = a.interval_seconds }, f)
    else (r, f)

-- A message of one of the types with a `HeartbeatAck`; one that fails stops before the interval.
unfoldable pub receive_ack : Message → HeartbeatAck → Receiver → Receiver × Option Fault
unfolding receive_welcome
receive_ack m a r =
    let s = with_fault a (record r { connected = true }) in
    let w = receive_welcome m a s in
    let is_welcome : Bool = elim m.kind [ welcome ↦ true | _ ↦ false ] in
    if is_welcome
    then elim w.1 [ none ↦ with_interval a w | some f ↦ (w.0, some f) ]
    else with_interval a (s, none)

-- A message by its type; one whose payload does not decode leaves the flags alone. Commands and
-- acknowledgements of events go to a queue that is left out.
unfoldable pub dispatch : Kind → Payload → Message → Receiver → Receiver × Option Fault
unfolding receive_chunk receive_snapshot receive_confirmed receive_ack
dispatch identity_chunk (chunk c) m r = receive_chunk m c r
dispatch identity_chunk _ m r = (
  r,
  some (
      if ltb r.identity_protocol 3 || not (bytes_eq m.cache_session_id r.cache_session_id)
      then session_mismatch
      else bad_payload),
)
dispatch identity_snapshot (text t) m r = receive_snapshot m t r
dispatch identity_snapshot _ m r = receive_snapshot m [] r
dispatch identity_confirmed _ m r = receive_confirmed m r
dispatch welcome (ack a) m r = receive_ack m a r
dispatch welcome _ m r = (record r { connected = true }, none)
dispatch heartbeat_ack (ack a) m r = receive_ack m a r
dispatch heartbeat_ack _ m r = (record r { connected = true }, none)
dispatch controller_state (ack a) m r = receive_ack m a r
dispatch controller_state _ m r = (record r { connected = true }, none)
dispatch _ _ m r = (r, none)

-- One message from the controller.
unfoldable pub receive : Message → Receiver → Receiver × Option Fault
unfolding dispatch
receive m r =
    if not (bytes_eq m.node_id []) && not (bytes_eq m.node_id r.node_id)
    then (r, some node_mismatch)
    else dispatch m.kind m.payload m r

-- The apply worker takes a job from the channel.
unfoldable pub take_job : Receiver → Receiver
take_job r = elim r.working [ none ↦ record r { job = none; working = r.job } | some _ ↦ r ]

-- The apply worker finishes its job, for what the handlers of the cache do: which revision the text holds
-- and whether the handler succeeds.
unfoldable pub work : (Bytes → ℕ) → (Job → Bool) → Receiver → Receiver × Option Fault
unfolding enqueue
work revision_of succeeds r = elim r.working [
  | none ↦ (r, none)
  | some (clears_cache session) ↦
      if succeeds (clears_cache session)
      then enqueue (record (message cache_cleared r.node_id) { cache_session_id = session })
          (record r { working = none; locally_applied_revision = 0 })
      else (record r { working = none }, some handler_failed)
  | some (applies protocol session revision payload) ↦
      if not (revision_of payload == revision)
      then (record r { working = none }, some revision_mismatch)
      else if succeeds (applies protocol session revision payload)
      then enqueue
          (record (message identity_ack r.node_id) {
            revision = revision;
            cache_session_id = session;
          })
          (record r {
            working = none;
            locally_applied_revision = revision;
            sync_ready = if ltb protocol 2 then true else r.sync_ready;
          })
      else (record r { working = none }, some handler_failed)
]

-- `nextReconnectDelay`, in nanoseconds.
unfoldable pub next_reconnect_delay : ℕ → Bool → ℕ
next_reconnect_delay current established =
    if established
    then 10 ^ 9
    else if ltb (30 * 10 ^ 9) (current * 2)
    then 30 * 10 ^ 9
    else current * 2

-- The variables of `connect` at its start.
unfoldable pub begin_connect : Receiver → Receiver
begin_connect r = record r {
  locally_applied_revision = 0;
  identity_protocol = 0;
  cache_session_id = [];
  chunk_buffer = [];
  chunk_revision = 0;
  chunk_index = 0;
  chunk_total = 0;
  job = none;
  working = none;
  outgoing = [];
}

-- What `connect` does when it ends.
unfoldable pub end_connect : Receiver → Receiver
end_connect r = signal_fault (record r { connected = false; sync_ready = false })

-- A round of `Run` after its call of `connect`, with the delay before the next one.
unfoldable pub end_round : Receiver × ℕ → Receiver × ℕ
unfolding next_reconnect_delay
end_round (r, delay) = (
  record (signal_fault r) { connected = false; sync_ready = false },
  next_reconnect_delay delay r.connected,
)

-- The messages of a connection, up to the first that ends it.
unfoldable pub receive_all : List Message → Receiver → Receiver
unfolding receive
receive_all [] r = r
receive_all (m ∷ ms) r = elim (receive m r).1 [
  | none ↦ receive_all ms (receive m r).0
  | some _ ↦ (receive m r).0
]

-- The rounds of `Run`, each with the messages of its connection; one whose connection fails to come about has none.
unfoldable pub run_rounds : List (List Message) → Receiver × ℕ → Receiver × ℕ
unfolding begin_connect end_connect end_round receive_all
run_rounds [] p = p
run_rounds (ms ∷ rest) (r, delay) =
    run_rounds rest (end_round (end_connect (receive_all ms (begin_connect r)), delay))
