-- ===== src/Cluster/Server.antt =====
-- The controller's table of edge nodes and of their connections: `ControllerServer` of
-- internal/cluster/server.go, with the methods of server.go, push.go and fault.go that take its lock `mu`,
-- each of them one step. Times are in nanoseconds; a context that is cancelled is a flag.
use meow_frp_server.Prelude.{
  ℕ, ◌-◌, ◌*◌, ◌^◌, Bool, true, false, not, ◌&&◌, ◌||◌, Option, none, some, List, [], ◌∷◌, Bytes,
  bytes_eq, ltb, leb, ◌==◌, length, if◌then◌else◌,
}
use meow_frp_server.Prelude.Table.{Table, lookup, insert, remove, map_values}
use meow_frp_server.Cluster.Types.{
  ack, hello, controller_state, Message, message, heartbeat_timeout,
}
use meow_frp_server.Cluster.Session.{NodeSession, send_message}

-- `db.EdgeNode`, less what only the web pages show.
pub record EdgeNode : Type 0 where
  pub node_id : Bytes
  pub certificate_serial : Bytes
  pub status : Bytes

-- A `nodeSession` with the address that tells it from the node's other sessions, its context and its clocks.
pub record Connection : Type 0 where
  pub handle : ℕ
  pub session : NodeSession
  pub cancelled : Bool
  pub last_heartbeat : Option ℕ
  pub sync_started : ℕ

-- `ControllerServer`, less the listeners. A waiter for the result of a command holds at most one result;
-- `wakes` is the channel `identityChanges`, which holds at most one token.
pub record ControllerServer : Type 0 where
  pub forgotten_nodes : Table Bool
  pub node_catalog : Table EdgeNode
  pub database_fault : Bool
  pub database_suspect : Bool
  pub sessions : Table Connection
  pub command_waiters : Table (Option Bytes)
  pub heartbeat_interval : ℕ
  pub wakes : Bool

-- `SetHeartbeatInterval`; a negative number of seconds is taken as 0.
unfoldable pub set_heartbeat_interval : ℕ → ControllerServer → ControllerServer
set_heartbeat_interval seconds s = record s {
  heartbeat_interval = if ltb seconds 2 then 2 else if ltb 60 seconds then 60 else seconds;
}

-- `HeartbeatInterval`
abbrev pub current_interval : ControllerServer → ℕ
current_interval s = if s.heartbeat_interval == 0 then 5 else s.heartbeat_interval

-- `sessionAliveLocked`
unfoldable pub session_alive : ControllerServer → ℕ → Option Connection → Bool
session_alive s now none = false
session_alive s now (some c) = elim c.last_heartbeat [
  | none ↦ false
  | some last ↦
      not c.cancelled && leb (now - last) (heartbeat_timeout (current_interval s) * 10 ^ 9)
]

-- `ConnectedNodes`, in the order of the table.
unfoldable pub alive_of : ControllerServer → ℕ → Table Connection → List Bytes
unfolding session_alive
alive_of s now [] = []
alive_of s now ((id, c) ∷ rest) =
    if session_alive s now (some c) then id ∷ alive_of s now rest else alive_of s now rest

abbrev pub connected_nodes : ControllerServer → ℕ → List Bytes
connected_nodes s now = alive_of s now s.sessions

-- The start of `Connect`: the previous connection of the node is cancelled, and the new one takes its place.
-- The cancelled one is returned, since its handlers go on for a while.
unfoldable pub register :
    Bytes → Connection → ControllerServer → ControllerServer × Option Connection
register id c s = (
  record s { sessions = insert id c s.sessions },
  elim (lookup id s.sessions) [ none ↦ none | some old ↦ some (record old { cancelled = true }) ],
)

-- Whether a handler's session is still the one in the table.
unfoldable pub is_current : Bytes → ℕ → ControllerServer → Bool
is_current id handle s = elim (lookup id s.sessions) [ none ↦ false | some c ↦ c.handle == handle ]

-- The end of `Connect`.
unfoldable pub unregister : Bytes → ℕ → ControllerServer → ControllerServer
unfolding is_current
unregister id handle s =
    if is_current id handle s then record s { sessions = remove id s.sessions } else s

-- `DisconnectNode`: the connection that leaves the table is cancelled.
unfoldable pub disconnect_node : Bytes → ControllerServer → ControllerServer × Option Connection
disconnect_node id s = (
  record s { sessions = remove id s.sessions },
  elim (lookup id s.sessions) [ none ↦ none | some old ↦ some (record old { cancelled = true }) ],
)

-- The first message of an edge.
pub data HelloError : Type 0 where
  identity_mismatch invalid_epoch epoch_required : HelloError

unfoldable pub accept_hello :
    Bytes → Message → Bytes → ℕ → ℕ → NodeSession → NodeSession × Option HelloError
accept_hello id m boot cache admission s =
    let is_hello : Bool = elim m.kind [ hello ↦ true | _ ↦ false ] in
    let t = record s { boot_id = boot; cache_protocol = cache; admission_protocol = admission } in
    if not is_hello || not (bytes_eq m.node_id id)
    then (s, some identity_mismatch)
    else if ltb 128 (length boot)
    then (s, some invalid_epoch)
    else if leb 2 cache && bytes_eq boot []
    then (t, some epoch_required)
    else (t, none)

-- What a message of the edge does to the clock of its connection.
unfoldable pub beat : ℕ → Bytes → ℕ → ControllerServer → ControllerServer
beat now id handle s = elim (lookup id s.sessions) [
  | none ↦ s
  | some c ↦
      if c.handle == handle
      then record s { sessions = insert id (record c { last_heartbeat = some now }) s.sessions }
      else s
]

-- The watchdog of `Connect`, each second: what ends the connection, if anything does. The limit is
-- `identityIdleTimeout`.
pub data Expiry : Type 0 where
  heartbeat_lost acknowledgement_lost : Expiry

unfoldable pub watch : ℕ → ℕ → Connection → ControllerServer → Option Expiry
unfolding session_alive
watch limit now c s =
    let waits =
      not c.session.cache_ready || ltb c.session.applied_revision c.session.pending_revision in
    if not (session_alive s now (some c))
    then some heartbeat_lost
    else if waits && ltb limit (now - c.sync_started) && not s.database_suspect
    then some acknowledgement_lost
    else none

-- `SendCommand`; the command is carried as text.
unfoldable pub send_command : ℕ → Bytes → Message → ControllerServer → ControllerServer × Bool
unfolding session_alive send_message
send_command now id m s = elim (lookup id s.sessions) [
  | none ↦ (s, false)
  | some c ↦
      let sent = send_message m c.session in
      if not (session_alive s now (some c)) then (s, false) else elim sent.1 [
        | none ↦
            (record s { sessions = insert id (record c { session = sent.0 }) s.sessions }, true)
        | some _ ↦
            (record s { sessions = insert id (record c { cancelled = true }) s.sessions }, false)
      ]
]

-- The start of `SendCommandAndWait`, and its end.
pub data WaitError : Type 0 where
  offline duplicate_command : WaitError

unfoldable pub begin_wait :
    ℕ → Bytes → Bytes → ControllerServer → ControllerServer × Option WaitError
unfolding session_alive
begin_wait now node id s =
    if not (session_alive s now (lookup node s.sessions))
    then (s, some offline)
    else elim (lookup id s.command_waiters) [
      | none ↦ (record s { command_waiters = insert id none s.command_waiters }, none)
      | some _ ↦ (s, some duplicate_command)
    ]

unfoldable pub end_wait : Bytes → ControllerServer → ControllerServer
end_wait id s = record s { command_waiters = remove id s.command_waiters }

-- `deliverCommandResult`: a waiter keeps the first result.
unfoldable pub deliver_command_result : Bytes → Bytes → ControllerServer → ControllerServer × Bool
deliver_command_result id result s = elim (lookup id s.command_waiters) [
  | none ↦ (s, false)
  | some none ↦ (record s { command_waiters = insert id (some result) s.command_waiters }, true)
  | some (some _) ↦ (s, true)
]

-- `ScheduleIdentityPush`
unfoldable pub schedule_identity_push : ControllerServer → ControllerServer
schedule_identity_push s = record s {
  sessions =
      map_values (λ c. record c { session = record c.session { needs_full = true } }) s.sessions;
  wakes = true;
}

-- `ScheduleBlockedIPPush`
abbrev pub marked_blocked : Connection → Connection
marked_blocked c =
    if leb 3 c.session.cache_protocol
    then record c { session = record c.session { needs_blocked_ips = true } }
    else record c { session = record c.session { needs_full = true } }

unfoldable pub schedule_blocked_ip_push : ControllerServer → ControllerServer
schedule_blocked_ip_push s = record s {
  sessions = map_values marked_blocked s.sessions;
  wakes = true;
}

-- `SetDatabaseSuspect`
unfoldable pub set_database_suspect : Bool → ControllerServer → ControllerServer
set_database_suspect suspect s = record s { database_suspect = suspect }

-- What `SetDatabaseFault` does to one connection.
unfoldable pub announce : ℕ → Bool → Bool → ℕ → Connection → Connection
unfolding send_message
announce now fault was_fault interval c =
    let full = c.session.needs_full || (not fault && (was_fault || not c.session.cache_ready)) in
    let t = record c.session { needs_full = full } in
    let sent =
      send_message
        (record (message controller_state t.node_id) {
          payload = ack (record {
            controller_fault = fault;
            identity_protocol = 0;
            interval_seconds = interval;
          });
        })
        t in
    if fault && ltb c.session.admission_protocol 1
    then record c { cancelled = true }
    else record c {
      session = sent.0;
      sync_started = now;
      cancelled = elim sent.1 [ none ↦ c.cancelled | some _ ↦ true ];
    }

-- `SetDatabaseFault`
unfoldable pub set_database_fault : ℕ → Bool → ControllerServer → ControllerServer
unfolding announce
set_database_fault now fault s = record s {
  database_fault = fault;
  database_suspect = fault && s.database_suspect;
  sessions = map_values (announce now fault s.database_fault s.heartbeat_interval) s.sessions;
  wakes = s.wakes || not fault;
}
