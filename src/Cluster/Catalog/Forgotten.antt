-- ===== src/Cluster/Catalog/Forgotten.antt =====
-- A node that the administrator deletes, and the lookups that are under way.
use meow_frp_server.Prelude.{
  ℕ, ◌≡◌, refl, ap, ◌∙◌, Bool, true, false, not, ◌&&◌, none, some, List, [], ◌∷◌, arith, Bytes,
  bytes_eq, bytes_eq_iff, bytes_eq_refl, Bool-cases, inl, inr,
}
use meow_frp_server.Prelude.Table.{Table, lookup, remove, get_or, lookup-insert, lookup-remove}
use meow_frp_server.Cluster.Server.{
  EdgeNode, ControllerServer, Connection, register, unregister, is_current, disconnect_node,
  set_database_suspect, set_database_fault,
}
use meow_frp_server.Cluster.Catalog.{
  is_forgotten, catalog_of, without_forgotten, replace_node_catalog, Answer, found, missing, failed,
  start_lookup, finish_lookup, forget_node, remember_enrolled_node,
}

-- What happens to the controller: an answer of the database can come long after the lookup began.
pub data CatalogEvent : Type 0 where
  replaces : List EdgeNode → CatalogEvent
  answers remembers : Bytes → Answer → CatalogEvent
  forgets : Bytes → CatalogEvent
  connects : Bytes → Connection → CatalogEvent
  leaves : Bytes → ℕ → CatalogEvent
  suspects : Bool → CatalogEvent
  faults : ℕ → Bool → CatalogEvent

unfoldable pub occur : CatalogEvent → ControllerServer → ControllerServer
unfolding replace_node_catalog finish_lookup remember_enrolled_node forget_node register unregister
    is_current set_database_suspect set_database_fault
occur (replaces nodes) s = replace_node_catalog nodes s
occur (answers id a) s = (finish_lookup id a s).0
occur (remembers id a) s = remember_enrolled_node id a s
occur (forgets id) s = (forget_node id s).0
occur (connects id c) s = (register id c s).0
occur (leaves id handle) s = unregister id handle s
occur (suspects suspect) s = set_database_suspect suspect s
occur (faults now fault) s = set_database_fault now fault s

unfoldable pub occurs : List CatalogEvent → ControllerServer → ControllerServer
occurs [] s = s
occurs (e ∷ es) s = occurs es (occur e s)

-- No event is the enrolment of the node.
unfoldable pub leaves_out : Bytes → CatalogEvent → Bool
leaves_out id (remembers j _) = not (bytes_eq j id)
leaves_out id _ = true

unfoldable pub leave_out : Bytes → List CatalogEvent → Bool
unfolding leaves_out
leave_out id [] = true
leave_out id (e ∷ es) = leaves_out id e && leave_out id es

-- The node is marked, and is not in the catalog.
pub record IsForgotten (id : Bytes) (s : ControllerServer) : Type 0 where
  pub marked : get_or id false s.forgotten_nodes ≡ true
  pub absent : lookup id s.node_catalog ≡ none

lookup-without_forgotten-none :
    (id : Bytes) (f : Table Bool) (m : Table EdgeNode)
    → lookup id m ≡ none
    → lookup id (without_forgotten f m) ≡ none
unfolding without_forgotten
lookup-without_forgotten-none id [] m h = h
lookup-without_forgotten-none id ((j, b) ∷ f) m h =
    lookup-without_forgotten-none id f (remove j m) (ground (arith, lookup-remove j id m, h))

lookup-without_forgotten :
    (id : Bytes) (f : Table Bool) (m : Table EdgeNode)
    → get_or id false f ≡ true
    → lookup id (without_forgotten f m) ≡ none
unfolding without_forgotten lookup
lookup-without_forgotten id [] m h = ground (arith, h)
lookup-without_forgotten id ((j, b) ∷ f) m h = elim (Bool-cases (bytes_eq j id)) [
  | inl e ↦ lookup-without_forgotten-none id f (remove j m) (lookup-remove j id m ∙ rw e refl)
  | inr e ↦ lookup-without_forgotten id f (remove j m) (ground (arith, h, e))
]

cong_get_or : (j id : Bytes) (f : Table Bool) → j ≡ id → get_or j false f ≡ get_or id false f
cong_get_or j id f e = ap (λ x. get_or x false f) e

not_forgotten_differs :
    (j id : Bytes) (f : Table Bool)
    → get_or j false f ≡ false
    → get_or id false f ≡ true
    → bytes_eq j id ≡ false
not_forgotten_differs j id f h k = ground (arith, bytes_eq_iff j id, cong_get_or j id f, h, k)

finish_lookup-IsForgotten :
    (id j : Bytes) (a : Answer) (s : ControllerServer)
    → IsForgotten id s
    → IsForgotten id (finish_lookup j a s).0
unfolding finish_lookup
finish_lookup-IsForgotten id j (found node) s w = elim (Bool-cases (is_forgotten j s)) [
  | inl e ↦ rw e w
  | inr e ↦
      let other = not_forgotten_differs j id s.forgotten_nodes e w.marked in
      rw e (record {
        marked = w.marked;
        absent = ground (arith, lookup-insert j id node s.node_catalog, other, w.absent);
      })
]
finish_lookup-IsForgotten id j missing s w = w
finish_lookup-IsForgotten id j failed s w = w

finish_lookup_refuses :
    (id : Bytes) (a : Answer) (s : ControllerServer)
    → IsForgotten id s
    → (finish_lookup id a s).1 ≡ none
unfolding finish_lookup
finish_lookup_refuses id (found node) s w = rw w.marked refl
finish_lookup_refuses id missing s w = refl
finish_lookup_refuses id failed s w = rw w.absent (ground arith)

occur-IsForgotten :
    (id : Bytes) (e : CatalogEvent) (s : ControllerServer)
    → leaves_out id e ≡ true
    → IsForgotten id s
    → IsForgotten id (occur e s)
unfolding occur leaves_out replace_node_catalog remember_enrolled_node forget_node disconnect_node
    unregister
occur-IsForgotten id (replaces nodes) s h w = record {
  marked = w.marked;
  absent = lookup-without_forgotten id s.forgotten_nodes (catalog_of nodes []) w.marked;
}
occur-IsForgotten id (answers j a) s h w = finish_lookup-IsForgotten id j a s w
occur-IsForgotten id (remembers j (found node)) s h w = record {
  marked = ground (arith, lookup-remove j id s.forgotten_nodes, h, w.marked);
  absent = ground (arith, lookup-insert j id node s.node_catalog, h, w.absent);
}
occur-IsForgotten id (remembers j missing) s h w = w
occur-IsForgotten id (remembers j failed) s h w = w
occur-IsForgotten id (forgets j) s h w = record {
  marked = ground (arith, lookup-insert j id true s.forgotten_nodes, w.marked);
  absent = ground (arith, lookup-remove j id s.node_catalog, w.absent);
}
occur-IsForgotten id (connects j c) s h w = record { marked = w.marked; absent = w.absent }
occur-IsForgotten id (leaves j n) s h w = elim (Bool-cases (is_current j n s)) [
  | inl e ↦ rw e (record { marked = w.marked; absent = w.absent })
  | inr e ↦ rw e w
]
occur-IsForgotten id (suspects b) s h w = record { marked = w.marked; absent = w.absent }
occur-IsForgotten id (faults now b) s h w = record { marked = w.marked; absent = w.absent }

occurs-IsForgotten :
    (id : Bytes) (es : List CatalogEvent) (s : ControllerServer)
    → leave_out id es ≡ true
    → IsForgotten id s
    → IsForgotten id (occurs es s)
unfolding occurs leave_out
occurs-IsForgotten id [] s h w = w
occurs-IsForgotten id (e ∷ es) s h w =
    let both : (leaves_out id e ≡ true) × (leave_out id es ≡ true) = ground (arith, h) in
    occurs-IsForgotten id es (occur e s) (both.1) (occur-IsForgotten id e s (both.0) w)

-- From the deletion of a node on, and as long as it is not enrolled again, every lookup of it is refused:
-- one that the controller answers by itself, and one that the database answers, also where the lookup began
-- before the deletion or the database still knows the node.
pub forgotten_node_refused :
    (id : Bytes) (es : List CatalogEvent) (a : Answer) (s : ControllerServer)
    → leave_out id es ≡ true
    → let t = occurs es (forget_node id s).0 in
      (start_lookup id t ≡ some none)
      × ((finish_lookup id a t).1 ≡ none)
      × (lookup id t.node_catalog ≡ none)
unfolding start_lookup forget_node disconnect_node
forgotten_node_refused id es a s h =
    let w = occurs-IsForgotten id es (forget_node id s).0 h (record {
      marked = ground (arith, lookup-insert id id true s.forgotten_nodes, bytes_eq_refl id);
      absent = ground (arith, lookup-remove id id s.node_catalog, bytes_eq_refl id);
    }) in
    (rw w.marked refl, finish_lookup_refuses id a (occurs es (forget_node id s).0) w, w.absent)
