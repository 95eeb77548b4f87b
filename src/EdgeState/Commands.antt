-- ===== src/EdgeState/Commands.antt =====
-- The commands that an edge has received: `BeginCommand` and `FinishCommand` of internal/edgestate/control.go.
-- The decoding of a result as JSON is a parameter. A statement that the database refuses changes nothing.
use meow_frp_server.Prelude.{
  ◌≡◌, refl, sym, ap, ◌∙◌, inl, inr, Bool, true, false, not, ◌&&◌, ◌||◌, Option, none, some, List,
  [], ◌∷◌, arith, Bytes, codes, bytes_eq, bytes_eq_iff, bytes_eq_refl, Bool-cases, Option-cases,
  if◌then◌else◌,
}
use meow_frp_server.Prelude.Table.{Table, lookup, insert, lookup-insert}

-- `NodeCommand` and `CommandResult` of internal/cluster/protocol.go, less the times.
pub record NodeCommand : Type 0 where
  pub command_id : Bytes
  pub command : Bytes
  pub payload : Bytes

pub record CommandResult : Type 0 where
  pub command_id : Bytes
  pub status : Bytes
  pub result : Bytes
  pub error : Bytes

-- A row of `received_commands`, whose key is the id.
pub record ReceivedCommand : Type 0 where
  pub status : Bytes
  pub result : Bytes

-- The commands that state what is wanted, and may run again.
abbrev pub is_idempotent : Bytes → Bool
is_idempotent command =
    bytes_eq command (codes "update_edge_runtime_settings")
    || bytes_eq command (codes "update_edge_permissions")
    || bytes_eq command (codes "update_edge_advanced_settings")
    || bytes_eq command (codes "block_ip")
    || bytes_eq command (codes "unblock_ip")
    || bytes_eq command (codes "disconnect_client")
    || bytes_eq command (codes "disconnect_connection")
    || bytes_eq command (codes "reset_frp_tls")

abbrev pub is_executing : ReceivedCommand → Bool
is_executing r = bytes_eq r.status (codes "executing")

-- What is answered for a command whose result is not there.
abbrev pub incomplete : Bytes → CommandResult
incomplete id = record {
  command_id = id;
  status = codes "failed";
  result = [];
  error = codes "previous command execution did not complete";
}

pub data Beginning : Type 0 where
  executes : Beginning
  answers : CommandResult → Beginning

-- The result of a command that was received before.
unfoldable pub again : (Bytes → Option CommandResult) → NodeCommand → ReceivedCommand → Beginning
again decode c r =
    if is_executing r
    then if is_idempotent c.command then executes else answers (incomplete c.command_id)
    else elim (decode r.result) [
      | none ↦ answers (incomplete c.command_id)
      | some cached ↦ answers cached
    ]

-- `BeginCommand`
unfoldable pub begin_command :
    (Bytes → Option CommandResult)
    → NodeCommand
    → Table ReceivedCommand
    → Table ReceivedCommand × Beginning
unfolding again
begin_command decode c t = elim (lookup c.command_id t) [
  | none ↦ (insert c.command_id (record { status = codes "executing"; result = [] }) t, executes)
  | some r ↦ (t, again decode c r)
]

-- `FinishCommand`, with the result and its encoding; an id without a row changes nothing.
unfoldable pub finish_command :
    CommandResult → Bytes → Table ReceivedCommand → Table ReceivedCommand
finish_command result encoded t = elim (lookup result.command_id t) [
  | none ↦ t
  | some _ ↦ insert result.command_id (record { status = result.status; result = encoded }) t
]

-- What happens to the table.
pub data CommandEvent : Type 0 where
  begins : NodeCommand → CommandEvent
  finishes : CommandResult → Bytes → CommandEvent

unfoldable pub command_event :
    (Bytes → Option CommandResult) → CommandEvent → Table ReceivedCommand → Table ReceivedCommand
unfolding begin_command finish_command
command_event decode (begins c) t = (begin_command decode c t).0
command_event decode (finishes result encoded) t = finish_command result encoded t

unfoldable pub command_events :
    (Bytes → Option CommandResult)
    → List CommandEvent
    → Table ReceivedCommand
    → Table ReceivedCommand
command_events decode [] t = t
command_events decode (e ∷ es) t = command_events decode es (command_event decode e t)

-- No result claims that its command is still executing.
unfoldable pub are_final : List CommandEvent → Bool
are_final [] = true
are_final (begins c ∷ es) = are_final es
are_final (finishes result encoded ∷ es) =
    not (bytes_eq result.status (codes "executing")) && are_final es

-- The command has a row, with a result.
pub IsFinished : Bytes → Table ReceivedCommand → Type 0
IsFinished id t = (r : ReceivedCommand) × (lookup id t ≡ some r) × (is_executing r ≡ false)

begin_command-IsFinished :
    (decode : Bytes → Option CommandResult) (id : Bytes) (c : NodeCommand)
    (t : Table ReceivedCommand)
    → IsFinished id t
    → IsFinished id (begin_command decode c t).0
unfolding begin_command IsFinished
begin_command-IsFinished decode id c t (r, h, f) = elim (Option-cases (lookup c.command_id t)) [
  | inl n ↦ elim (Bool-cases (bytes_eq c.command_id id)) [
    | inl e ↦
        let same = (bytes_eq_iff c.command_id id).0 e in
        absurd (ground (arith, sym h ∙ sym (ap (λ i. lookup i t) same) ∙ n))
    | inr e ↦ rw (n, begin_command) (r, lookup-insert c.command_id id _ t ∙ rw e h, f)
  ]
  | inr (s, n) ↦ rw (n, begin_command) (r, h, f)
]

finish_command-IsFinished :
    (id : Bytes) (result : CommandResult) (encoded : Bytes) (t : Table ReceivedCommand)
    → bytes_eq result.status (codes "executing") ≡ false
    → IsFinished id t
    → IsFinished id (finish_command result encoded t)
unfolding finish_command IsFinished
finish_command-IsFinished id result encoded t z (r, h, f) =
    elim (Option-cases (lookup result.command_id t)) [
      | inl n ↦ rw (n, finish_command) (r, h, f)
      | inr (s, n) ↦ elim (Bool-cases (bytes_eq result.command_id id)) [
        | inl e ↦
            let row : ReceivedCommand = record { status = result.status; result = encoded } in
            rw (n, finish_command) (row, lookup-insert result.command_id id row t ∙ rw e refl, z)
        | inr e ↦ rw (n, finish_command) (r, lookup-insert result.command_id id _ t ∙ rw e h, f)
      ]
    ]

command_events-IsFinished :
    (decode : Bytes → Option CommandResult) (id : Bytes) (es : List CommandEvent)
    (t : Table ReceivedCommand)
    → are_final es ≡ true
    → IsFinished id t
    → IsFinished id (command_events decode es t)
unfolding command_events command_event are_final
command_events-IsFinished decode id [] t z w = w
command_events-IsFinished decode id (begins c ∷ es) t z w =
    command_events-IsFinished decode id es (begin_command decode c t).0 z
      (begin_command-IsFinished decode id c t w)
command_events-IsFinished decode id (finishes result encoded ∷ es) t z w =
    let both : (bytes_eq result.status (codes "executing") ≡ false) × (are_final es ≡ true) =
      ground (arith, z) in
    command_events-IsFinished decode id es (finish_command result encoded t) (both.1)
      (finish_command-IsFinished id result encoded t (both.0) w)

-- Whether the edge is to run a command that it begins.
abbrev pub runs : Beginning → Bool
runs executes = true
runs (answers _) = false

begun_command_found :
    (decode : Bytes → Option CommandResult) (c : NodeCommand) (t : Table ReceivedCommand)
    → (r : ReceivedCommand) × (lookup c.command_id (begin_command decode c t).0 ≡ some r)
unfolding begin_command
begun_command_found decode c t = elim (Option-cases (lookup c.command_id t)) [
  | inl n ↦
      let row : ReceivedCommand = record { status = codes "executing"; result = [] } in
      rw (n, begin_command)
        (row, lookup-insert c.command_id c.command_id row t ∙ rw (bytes_eq_refl c.command_id) refl)
  | inr (r, n) ↦ rw (n, begin_command) (r, n)
]

found_command-IsFinished :
    (result : CommandResult) (encoded : Bytes) (t : Table ReceivedCommand) (r : ReceivedCommand)
    → lookup result.command_id t ≡ some r
    → bytes_eq result.status (codes "executing") ≡ false
    → IsFinished result.command_id (finish_command result encoded t)
unfolding finish_command IsFinished
found_command-IsFinished result encoded t r h z =
    let row : ReceivedCommand = record { status = result.status; result = encoded } in
    rw (h, finish_command)
      (
        row,
        lookup-insert result.command_id result.command_id row t
            ∙ rw (bytes_eq_refl result.command_id) refl,
        z,
      )

again_not_run :
    (decode : Bytes → Option CommandResult) (c : NodeCommand) (r : ReceivedCommand)
    → is_executing r ≡ false
    → runs (again decode c r) ≡ false
unfolding again
again_not_run decode c r f = elim (Option-cases (decode r.result)) [
  | inl n ↦ rw f (rw n refl)
  | inr (x, n) ↦ rw f (rw n refl)
]

finished_not_run :
    (decode : Bytes → Option CommandResult) (c : NodeCommand) (t : Table ReceivedCommand)
    → IsFinished c.command_id t
    → runs (begin_command decode c t).1 ≡ false
unfolding begin_command IsFinished
finished_not_run decode c t (r, h, f) = rw (h, begin_command) (again_not_run decode c r f)

-- Once a command has begun and has been finished, and whatever commands begin and finish after it, it is not
-- run again, whatever its kind: every delivery of its id is answered.
pub finished_command_not_run :
    (decode : Bytes → Option CommandResult) (c again_ : NodeCommand) (result : CommandResult)
    (encoded : Bytes) (es : List CommandEvent) (t : Table ReceivedCommand)
    → result.command_id ≡ c.command_id
    → again_.command_id ≡ c.command_id
    → bytes_eq result.status (codes "executing") ≡ false
    → are_final es ≡ true
    → let u =
        command_events decode es (finish_command result encoded (begin_command decode c t).0) in
      runs (begin_command decode again_ u).1 ≡ false
finished_command_not_run decode c again_ result encoded es t i j z g =
    let begun = (begin_command decode c t).0 in
    let found = begun_command_found decode c t in
    let now =
      found_command-IsFinished result encoded begun found.0 (ap (λ k. lookup k begun) i ∙ found.1)
        z in
    let later =
      command_events-IsFinished decode result.command_id es (finish_command result encoded begun) g
        now in
    finished_not_run decode again_ (command_events decode es (finish_command result encoded begun))
      (rw (j ∙ sym i) later)
