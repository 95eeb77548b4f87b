-- ===== src/Tests/Channels.antt =====
-- The control channel of internal/cluster with one node: its catalog, its users and its snapshots.
use native.Mathlib.Nat.{le_refl}
use meow_frp_server.Prelude.{
  ◌*◌, ◌^◌, ◌≤◌, true, false, none, some, List, [], ◌∷◌, ◌≡◌, refl, arith, codes, filter, bytes_eq,
}
use meow_frp_server.Prelude.Table.{lookup}
use meow_frp_server.Identity.{
  Index, has_access, prepare_node_identity_cache, lock_cache_session, next_identity_revision,
}
use meow_frp_server.Cluster.Types.{
  Block, SnapshotUser, IdentitySnapshot, Message, message, ack, welcome, identity_ack,
  identity_confirmed, identity_chunk_ack,
}
use meow_frp_server.Cluster.Session.{
  NodeSession, send_message, send_identity_chunk, enqueue_identity, with_applied, with_pending,
  with_chunks, add_blocks, chunk_message,
}
use meow_frp_server.Cluster.Server.{EdgeNode, ControllerServer}
use meow_frp_server.Cluster.Catalog.{found, start_lookup, finish_lookup, forget_node}
use meow_frp_server.Cluster.Catalog.Forgotten.{
  answers, suspects, occurs, leave_out, forgotten_node_refused,
}
use meow_frp_server.Cluster.Pages.{eligible, read_node_identity_page, identity_page}
use meow_frp_server.Cluster.Pages.Cursor.{is_above}
use meow_frp_server.Cluster.Pages.Baseline.{baseline_rounds, baseline_rounds_complete}
use meow_frp_server.Cluster.Blocklist.{find_block, is_wanted, blocked_ip_snapshot}
use meow_frp_server.Cluster.Blocklist.Delta.{IsKeyed, are_distinct, blocked_ip_delta}
use meow_frp_server.Cluster.Push.{Source, push_users, push_node_identity}
use meow_frp_server.Cluster.Push.Tracked.{IsTracked}
use meow_frp_server.Cluster.Push.InFlight.{
  pushes, progresses, confirms, session_step, session_steps, session_steps-IsTracked, push_waits,
}
use meow_frp_server.Cluster.Events.{EventEnvelope, record_event_batch, event_number, succeeds}
use meow_frp_server.Cluster.Events.Batch.{Recorded, record_event_batch-Recorded}
use meow_frp_server.Cluster.Receiver.{
  Receiver, applies, receive, dispatch, receive_confirmed, run_rounds,
}
use meow_frp_server.Cluster.Receiver.Readiness.{IsConfirmation, receive_ready}
use meow_frp_server.Cluster.Receiver.Backoff.{doubled, run_rounds-doubled}
use meow_frp_server.Cluster.Transfer.{IsMidway, exchanges}
use meow_frp_server.Cluster.Transfer.Rounds.{exchanges-applies}

abbrev user : SnapshotUser
user = record {
  id = 7;
  username = codes "u";
  role = codes "user";
  status = codes "active";
  ban_reason = [];
}

abbrev index : Index
index = record {
  revision = 5;
  cache = [];
  sessions = (codes "n", (codes "cs", codes "b")) ∷ [];
  access = (7, codes "n") ∷ [];
  nodes = codes "n" ∷ [];
}

abbrev block : Block
block = record { ip = codes "9"; reason = codes "abuse"; created_at = 4 }

-- A session of the newest protocol whose cache has just been cleared.
abbrev session : NodeSession
session = record {
  node_id = codes "n";
  boot_id = codes "b";
  send = [];
  admission_protocol = 1;
  cache_protocol = 3;
  cache_session_id = codes "cs";
  blocked_ips = [];
  pending_revision = 0;
  applied_revision = 0;
  needs_full = false;
  needs_blocked_ips = false;
  pending_identity = none;
  cache_ready = true;
  baseline_active = true;
  baseline_cursor = 0;
  pending_cursor = 0;
  pending_payload = [];
  chunk_index = 0;
  chunk_total = 0;
  apply_progress = 0;
}

abbrev receiver : Receiver
receiver = record {
  node_id = codes "n";
  connected = true;
  sync_ready = false;
  controller_fault = false;
  fault_generation = 0;
  heartbeat_seconds = 5;
  locally_applied_revision = 6;
  identity_protocol = 3;
  cache_session_id = codes "cs";
  chunk_buffer = [];
  chunk_revision = 0;
  chunk_index = 0;
  chunk_total = 0;
  job = none;
  working = none;
  outgoing = [];
  fault_calls = [];
}

abbrev node : EdgeNode
node = record { node_id = codes "n"; certificate_serial = codes "1f"; status = codes "active" }

abbrev server : ControllerServer
server = record {
  forgotten_nodes = [];
  node_catalog = (codes "n", node) ∷ [];
  database_fault = false;
  database_suspect = false;
  sessions = [];
  command_waiters = [];
  heartbeat_interval = 5;
  wakes = false;
}

-- A late answer of the database does not bring the node back.
forgotten_node_refused_example :
    let t =
      occurs
        (answers (codes "n") (found node) ∷ suspects true ∷ [])
        (forget_node (codes "n") server).0 in
    (start_lookup (codes "n") t ≡ some none)
    × ((finish_lookup (codes "n") (found node) t).1 ≡ none)
    × (lookup (codes "n") t.node_catalog ≡ none)
unfolding leave_out
forgotten_node_refused_example =
    forgotten_node_refused (codes "n") (answers (codes "n") (found node) ∷ suspects true ∷ [])
      (found node) server refl

baseline_rounds_complete_example :
    (t : NodeSession) × (baseline_rounds 2 (user ∷ []) [] (block ∷ []) session index
      ≡ some (eligible (λ id. has_access id (codes "n") ((7, codes "n") ∷ [])) 0 (user ∷ []), t))
    × (t.baseline_active ≡ false)
    × (t.blocked_ips ≡ add_blocks (block ∷ []) [])
unfolding is_above filter bytes_eq
baseline_rounds_complete_example =
    baseline_rounds_complete 2 (user ∷ []) [] (block ∷ []) session index refl refl (omega arith)

session-IsKeyed : IsKeyed session.blocked_ips
unfolding lookup
session-IsKeyed ip b h = absurd (ground (arith, h))

-- The node has learned of another address, and of an older reason.
abbrev older : List Block
older = record block { reason = codes "scan" } ∷ record block { ip = codes "8" } ∷ []

abbrev informed : NodeSession
informed = let r = blocked_ip_snapshot older session index in with_applied r.0 r.1

informed-IsKeyed : IsKeyed informed.blocked_ips
unfolding are_distinct is_wanted bytes_eq
informed-IsKeyed = (blocked_ip_delta older session index (codes "8") refl session-IsKeyed).1

blocked_ip_delta_example :
    let r = blocked_ip_snapshot (block ∷ []) informed index in
    (lookup (codes "9") (with_applied r.0 r.1).blocked_ips ≡ find_block (codes "9") (block ∷ []))
    × IsKeyed (with_applied r.0 r.1).blocked_ips
unfolding are_distinct
blocked_ip_delta_example =
    blocked_ip_delta (block ∷ []) informed index (codes "9") refl informed-IsKeyed

-- The text of a snapshot is its revision.
abbrev source : Source
source = record {
  database_suspect = false;
  database_fault = false;
  heartbeat_interval = 5;
  fresh_session = codes "cs2";
  users = user ∷ [];
  tokens = [];
  blocks = block ∷ [];
  encode = λ n. n.revision ∷ [];
}

session-IsTracked : IsTracked session index
session-IsTracked = record {
  pending = λ n h. absurd (ground (arith, h));
  done = λ _. le_refl _;
  drawn = (omega arith, omega arith);
}

-- A push, an acknowledgement of its only piece, and one of the snapshot.
abbrev piece_ack : Message
piece_ack = record (message identity_chunk_ack (codes "n")) {
  revision = 6;
  cache_session_id = codes "cs";
}

abbrev snapshot_ack : Message
snapshot_ack = record (message identity_ack (codes "n")) {
  revision = 6;
  cache_session_id = codes "cs";
}

session_steps-IsTracked_example :
    let q =
      session_steps
        (pushes source true ∷ progresses true piece_ack ∷ confirms true snapshot_ack ∷ [])
        (session, index) in
    IsTracked q.0 q.1
session_steps-IsTracked_example =
    session_steps-IsTracked
      (pushes source true ∷ progresses true piece_ack ∷ confirms true snapshot_ack ∷ []) session
      index session-IsTracked

abbrev report : EventEnvelope
report = record { event_id = codes "e1"; event_type = codes "runtime_log"; payload = codes "{}" }

-- The first page of the baseline, which is the last.
abbrev pushed_snapshot : IdentitySnapshot
pushed_snapshot = record {
  baseline = true;
  baseline_end = true;
  replace_blocked_ips = true;
  incremental = false;
  removed_user_ids = [];
  revision = 6;
  users = user ∷ [];
  tokens = [];
  blocked_ips = block ∷ [];
  removed_blocked_ips = [];
}

-- The push that waits for these acknowledgements.
push_waits_example :
    let q = session_steps (pushes source true ∷ []) (session, index) in
    push_node_identity source true q.0 q.1 ≡ (q.0, q.1, false)
unfolding session_steps session_step push_node_identity push_users identity_page
    read_node_identity_page filter enqueue_identity prepare_node_identity_cache lock_cache_session
    send_identity_chunk send_message next_identity_revision lookup bytes_eq
push_waits_example =
    push_waits (pushes source true ∷ []) session index source true pushed_snapshot session-IsTracked
      refl

receive_ready_example :
    IsConfirmation
      (record (message identity_confirmed (codes "n")) {
        revision = 6;
        cache_session_id = codes "cs";
        sync_complete = true;
      })
      receiver
unfolding receive dispatch receive_confirmed bytes_eq
receive_ready_example =
    receive_ready
      (record (message identity_confirmed (codes "n")) {
        revision = 6;
        cache_session_id = codes "cs";
        sync_complete = true;
      })
      receiver refl refl

record_event_batch-Recorded_example :
    let p = record_event_batch (λ _. succeeds) 3 (report ∷ report ∷ []) [] in
    Recorded (event_number 3 0) (event_number 3 100) (report ∷ report ∷ []) [] p.0 p.1
    × Recorded 0 (2 ^ 63) (report ∷ report ∷ []) [] p.0 p.1
record_event_batch-Recorded_example =
    record_event_batch-Recorded (λ _. succeeds) 3 (report ∷ report ∷ []) []

-- Two connections that are welcomed, and lost.
abbrev greeting : Message
greeting = record (message welcome (codes "n")) {
  cache_session_id = codes "cs";
  payload = ack (record { controller_fault = false; identity_protocol = 3; interval_seconds = 5 });
}

run_rounds-doubled_example :
    let d = (run_rounds ((greeting ∷ []) ∷ (greeting ∷ []) ∷ []) (receiver, 10 ^ 9)).1 in
    (d ≡ doubled 2 (10 ^ 9)) × (d ≤ 30 * 10 ^ 9)
run_rounds-doubled_example =
    run_rounds-doubled ((greeting ∷ []) ∷ (greeting ∷ []) ∷ []) receiver (10 ^ 9) (omega arith)

-- A snapshot of two bytes on its way.
abbrev sending : NodeSession
sending =
    let s = with_chunks (6 ∷ 7 ∷ []) (with_pending pushed_snapshot session) in
    record s { send = chunk_message s ∷ [] }

sending-IsMidway : IsMidway sending receiver
sending-IsMidway = record {
  same_node = refl;
  protocol = le_refl _;
  receiver_protocol = le_refl _;
  same_session = refl;
  pending = (pushed_snapshot, refl);
  unapplied = omega arith;
  more = omega arith;
  enough = refl;
  buffer = refl;
  count = λ h. absurd (omega (arith, h));
  silent = refl;
  idle = refl;
  sent = refl;
}

exchanges-applies_example :
    (t : NodeSession × Receiver) × (exchanges 1 (sending, receiver) ≡ some t)
    × (t.0.chunk_index ≡ 1)
    × (t.0.chunk_total ≡ 1)
    × (t.1.job ≡ some (applies 3 (codes "cs") 6 (6 ∷ 7 ∷ [])))
exchanges-applies_example = exchanges-applies sending receiver 0 sending-IsMidway refl
