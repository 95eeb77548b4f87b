-- ===== src/Lib.antt =====
-- MeowFRP server: what decides who may open tunnels, and what passes through them.
--
-- The server runs FRP inside a controller or an edge node. Its parts, and the modules here:
--   * internal/frpcore/admission.go: Manager/Admission. `Admission` holds the six fields of `Manager`
--     that the file uses, each method and each callback of `proxyLifecycle` is a function on it.
--     Admission/Schedule is the step relation of their interleavings: a granted `Begin` holds the read
--     lock until its registration has opened or failed, the methods that take the write lock wait for
--     these, `Closed` and `RememberRuntimeLease` wait for nobody.
--   * internal/frpcore/manager.go: Manager/Tracking (bindings, connections, UDP flows, blocked
--     addresses, counters), Manager/Network (what reads addresses), Manager/Termination (the
--     methods that cut off a user, a token, a client or a lease) and Manager/Hooks (what the FRP
--     server reports).
--   * internal/dpiengine/composite.go and engine.go: Inspection. Http and Tls are the parsers,
--     Heuristics the tests of byte patterns, Engine the table of flows.
--   * internal/dpi/service.go: Dpi, the policy that decides what becomes of a finding.
--   * internal/httpapi/node_fault.go: Fault, what a node does while its database or its controller is
--     out of reach. It drives the admission and the DPI service: Server holds both.
--   * internal/db/user_node_cache.go: Identity, the index of which user is cached on which node and up to
--     which revision. Changes is a run of its transactions, with the nodes that internal/db/nodes.go registers
--     and deletes in between.
--   * internal/cluster: Cluster, the control channel. Types holds the messages of protocol.go, Session what
--     the controller keeps of one connection (nodeSession, with the acknowledgements of identity_transfer.go
--     and push.go), Server the table of the connections (server.go, fault.go), Catalog the nodes that may
--     connect (fault.go), Pages, Blocklist and Push what is sent to a node next (identity_transfer.go,
--     push.go, and ReadNodeIdentityPage of internal/db/identity_page.go), Events the batches of events
--     (recordEventBatch, with RecordNodeEventDurably of internal/db/node_event_ingest.go), Receiver the edge's end (client.go), Transfer both ends of the transfer of a
--     snapshot in pieces. Session uses the index of Identity: a push prepares its rows, an
--     acknowledgement confirms them.
--   * internal/config: Config, the checks of a configuration, its merge with the file, and what `Load`
--     makes of the file and the environment.
--   * internal/edgestate/control.go and store.go: EdgeState/Commands, the commands that an edge has
--     received, and Events, the queue of events that it is to send.
--
-- Conventions. A method is a function from the state it locks to the new state; what it hands to
-- others (connections to close, events for a sink, a call that reports presence) is returned. Clocks
-- are arguments, in nanoseconds, 0 for Go's zero time; a subtraction of times stops at 0, so that a
-- clock that runs backwards counts as no time passed. Maps are association lists, and a range over a map goes in the order of the list.
-- Identifiers are natural numbers, byte counters wrap at 2 ^ 64. The averages of the heuristics are
-- compared by products of natural numbers instead of floating point. The parsers and the tests of byte patterns run in `Outcome`: an index
-- or a slice out of range is a panic, and a loop has as much fuel as its buffer has bytes, plus one;
-- each turn of a loop moves on by a byte at least, and Http/Total and Tls/Total show that the fuel
-- is enough. A transfer has a round for each piece, a baseline a round for each row at most.
-- A database transaction happens as a whole or not at all; a lock makes a method one step, and a method that
-- asks the database between two sections under its lock is two functions. Whether a session is still the
-- node's current one is an argument of its methods.
--
-- Parameters. `TextLibrary` stands for strings.TrimSpace, strings.ToLower, net.SplitHostPort and
-- strconv.Atoi, `ValueLibrary` for the parsing of numbers, flags and durations, and the environment is a
-- function. The fingerprints of tokens, the answers of the policy provider, the errors of database probes,
-- what the database answers to GetEdgeNode and whether a store or a handler fails are arguments, and so is
-- the encoding of a snapshot as JSON. Nothing is assumed of them.
--
-- Not modelled: HTTP, gRPC, certificates and the FRP fork in third_party/frp, whose calls are the
-- events of the step relation; SQL but for the statements of the index, of the deletion of a node, of the pages of users
-- and of the events; logging,
-- tickers and contexts; a nil receiver; the goroutines of a connection that only move messages; the
-- policies and grants that snapshots carry along; enrolment, keys and reports of internal/cluster;
-- the other parts of internal/edgestate, what internal/config writes, and the other parts of internal/db and internal/httpapi, but for
-- edgeOnlineForNewSessions, which node_fault.go calls. The step relation of the admission lets a lease be
-- remembered for the client that it was issued to, or under an id that no open proxy uses.
pub mod Prelude
pub mod Manager
pub mod Inspection
pub mod Dpi
pub mod Fault
pub mod Identity
pub mod Cluster
pub mod Config
pub mod EdgeState
pub mod Tests
