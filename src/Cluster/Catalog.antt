-- ===== src/Cluster/Catalog.antt =====
-- The nodes that may connect, known to the controller without its database: internal/cluster/fault.go.
-- A lookup reads the database between two sections under the lock, which are two functions here; what the
-- database answers is an argument.
pub mod Forgotten
use meow_frp_server.Prelude.{
  Bool, true, false, not, ◌&&◌, Option, none, some, List, [], ◌∷◌, Bytes, if◌then◌else◌,
}
use meow_frp_server.Prelude.Table.{Table, lookup, insert, remove, get_or}
use meow_frp_server.Cluster.Server.{EdgeNode, Connection, ControllerServer, disconnect_node}

-- The catalog of a list of nodes.
unfoldable pub catalog_of : List EdgeNode → Table EdgeNode → Table EdgeNode
catalog_of [] m = m
catalog_of (n ∷ ns) m = catalog_of ns (insert n.node_id n m)

unfoldable pub without_forgotten : Table Bool → Table EdgeNode → Table EdgeNode
without_forgotten [] m = m
without_forgotten ((id, _) ∷ rest) m = without_forgotten rest (remove id m)

-- `ReplaceNodeCatalog`
unfoldable pub replace_node_catalog : List EdgeNode → ControllerServer → ControllerServer
unfolding catalog_of without_forgotten
replace_node_catalog nodes s = record s {
  node_catalog = without_forgotten s.forgotten_nodes (catalog_of nodes []);
}

-- `s.forgottenNodes[id]`
abbrev pub is_forgotten : Bytes → ControllerServer → Bool
is_forgotten id s = get_or id false s.forgotten_nodes

-- What the database answers to `GetEdgeNode`.
pub data Answer : Type 0 where
  found : EdgeNode → Answer
  missing failed : Answer

-- `authorizedNode` up to the query; `none` where the database is asked, or else what it returns, where
-- `none` stands for an error.
unfoldable pub start_lookup : Bytes → ControllerServer → Option (Option EdgeNode)
start_lookup id s =
    if is_forgotten id s
    then some none
    else if s.database_suspect
    then some (lookup id s.node_catalog)
    else none

-- `authorizedNode` from the answer on.
unfoldable pub finish_lookup :
    Bytes → Answer → ControllerServer → ControllerServer × Option EdgeNode
finish_lookup id (found node) s =
    if is_forgotten id s
    then (s, none)
    else (record s { node_catalog = insert id node s.node_catalog }, some node)
finish_lookup id missing s = (s, none)
finish_lookup id failed s = (s, if s.database_suspect then lookup id s.node_catalog else none)

-- `authorizedNode` where nothing comes between its sections.
unfoldable pub authorized_node :
    Bytes → Answer → ControllerServer → ControllerServer × Option EdgeNode
unfolding start_lookup finish_lookup
authorized_node id a s = elim (start_lookup id s) [ none ↦ finish_lookup id a s | some r ↦ (s, r) ]

-- `ForgetNode`
unfoldable pub forget_node : Bytes → ControllerServer → ControllerServer × Option Connection
unfolding disconnect_node
forget_node id s = disconnect_node id (record s {
  forgotten_nodes = insert id true s.forgotten_nodes;
  node_catalog = remove id s.node_catalog;
})

-- `RememberEnrolledNode`, with the answer of the database.
unfoldable pub remember_enrolled_node : Bytes → Answer → ControllerServer → ControllerServer
remember_enrolled_node id (found node) s = record s {
  forgotten_nodes = remove id s.forgotten_nodes;
  node_catalog = insert id node s.node_catalog;
}
remember_enrolled_node id missing s = s
remember_enrolled_node id failed s = s
