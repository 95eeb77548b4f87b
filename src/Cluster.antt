-- ===== src/Cluster.antt =====
-- internal/cluster: the control channel between the controller and its edge nodes. Types holds the
-- messages, Session what the controller keeps of one connection, Server the table of them, Catalog the
-- nodes that may connect, Pages, Blocklist and Push what is sent to a node, Events what is recorded of it,
-- Receiver the edge's end, Pieces and Transfer the way of a snapshot from one end to the other.
pub mod Types
pub mod Session
pub mod Server
pub mod Catalog
pub mod Pages
pub mod Blocklist
pub mod Push
pub mod Events
pub mod Receiver
pub mod Pieces
pub mod Transfer
