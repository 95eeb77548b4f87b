-- ===== src/Fault/Health.antt =====
-- What a series of database probes does to the controller's node.
use meow_frp_server.Prelude.{
  ℕ, ◌-◌, ◌≤◌, ◌<◌, ◌≡◌, refl, ap, ◌∙◌, inl, inr, Bool, true, false, Option, none, some, List, [],
  ◌∷◌, arith, Bytes, bytes_eq, bytes_eq_iff, leb, Bool-cases,
}
use meow_frp_server.Prelude.Library.{TextLibrary}
use meow_frp_server.Prelude.Table.{Table, lookup, insert, get_or, lookup-insert, lookup-map_values}
use meow_frp_server.Manager.Admission.Schedule.Draining.{drain_all_marks}
use meow_frp_server.Manager.Admission.{client_draining, set_admission_closed, pause_admission}
use meow_frp_server.Manager.Types.{RuntimeLease}
use meow_frp_server.Fault.{
  FaultClient, Server, fault_delay, drained, fault_drain_key, mark_drains, transition_node_fault,
  pause_database_admission, set_database_suspect, set_database_fault, declare_fault,
  client_is_draining, observe_controller_database_health,
}

unfoldable pub observe_all : TextLibrary → List (ℕ × Bool) → Server × Option ℕ → Server × Option ℕ
observe_all lib [] r = r
observe_all lib ((now, failed) ∷ rest) r =
    observe_all lib rest (observe_controller_database_health lib now failed r)

-- Probes that all fail, before the fault timer that started at `since` has run out.
abbrev pub FailingBefore : ℕ → List (ℕ × Bool) → Type 0
FailingBefore since [] = Unit
FailingBefore since ((now, failed) ∷ rest) =
    (failed ≡ true) × (now - since < fault_delay) × FailingBefore since rest

-- Who is draining is the same in both.
pub record SameDrains (s t : Server) : Type 0 where
  pub clients : t.fault.clients ≡ s.fault.clients
  pub drains : t.fault.drains ≡ s.fault.drains
  pub core : t.core.draining_clients ≡ s.core.draining_clients

waiting :
    (lib : TextLibrary) (since now : ℕ) (s : Server)
    → now - since < fault_delay
    → observe_controller_database_health lib now true (s, some since) ≡ (s, some since)
unfolding observe_controller_database_health
waiting lib since now s h =
    let early : leb fault_delay (now - since) ≡ false = ground arith in rw early

waiting_all :
    (lib : TextLibrary) (since : ℕ) (probes : List (ℕ × Bool)) (s : Server)
    → FailingBefore since probes
    → observe_all lib probes (s, some since) ≡ (s, some since)
unfolding observe_all
waiting_all lib since [] s f = refl
waiting_all lib since ((now, failed) ∷ rest) s (b, t, f) =
    rw b (ap (observe_all lib rest) (waiting lib since now s t) ∙ waiting_all lib since rest s f)

paused : TextLibrary → Server → Server
unfolding set_database_suspect pause_database_admission pause_admission
paused lib s = set_database_suspect lib true (pause_database_admission lib s)

paused_lem :
    (lib : TextLibrary) (s : Server)
    → SameDrains s (paused lib s)
      × ((paused lib s).fault.closed ≡ true)
      × ((paused lib s).core.admission_closed ≡ true)
      × ((paused lib s).has_edge_state ≡ s.has_edge_state)
unfolding paused
paused_lem lib s = (
  record { clients = ground arith; drains = ground arith; core = ground arith },
  ground arith,
  ground arith,
  ground arith,
)

starts :
    (lib : TextLibrary) (now : ℕ) (s : Server)
    → observe_controller_database_health lib now true (s, none) ≡ (paused lib s, some now)
unfolding observe_controller_database_health paused
starts lib now s = let early : leb fault_delay (now - now) ≡ false = ground arith in rw early

recovered :
    (lib : TextLibrary) (now : ℕ) (s : Server) (since : Option ℕ)
    → s.has_edge_state ≡ false
    → s.fault.closed ≡ true
    → let t = (observe_controller_database_health lib now false (s, since)).0 in
      SameDrains s t × (t.fault.closed ≡ false) × (t.core.admission_closed ≡ false)
unfolding observe_controller_database_health transition_node_fault set_admission_closed
    set_database_fault
recovered lib now s since e c = (
  record { clients = ground arith; drains = ground arith; core = ground arith },
  ground arith,
  ground arith,
)

SameDrains-trans : (s t u : Server) → SameDrains s t → SameDrains t u → SameDrains s u
SameDrains-trans s t u p q = record {
  clients = q.clients ∙ p.clients;
  drains = q.drains ∙ p.drains;
  core = q.core ∙ p.core;
}

-- On a node without edge state, an outage of the database that is over before the fault timer runs
-- out closes admission at once, drains no client, and ends with admission open and the timer reset.
pub brief_outage_drains_nobody :
    (lib : TextLibrary) (start end : ℕ) (probes : List (ℕ × Bool)) (s : Server)
    → s.has_edge_state ≡ false
    → FailingBefore start probes
    → let during = observe_all lib ((start, true) ∷ probes) (s, none) in
      let after = observe_controller_database_health lib end false during in
      (during.0.core.admission_closed ≡ true)
      × SameDrains s during.0
      × SameDrains s after.0
      × (after.0.core.admission_closed ≡ false)
      × (after.1 ≡ none)
unfolding observe_all observe_controller_database_health
brief_outage_drains_nobody lib start end probes s e f =
    let p = paused_lem lib s in
    let waited : observe_all lib ((start, true) ∷ probes) (s, none) ≡ (paused lib s, some start) =
      ap (observe_all lib probes) (starts lib start s)
      ∙ waiting_all lib start probes (paused lib s) f in
    let r = recovered lib end (paused lib s) (some start) (p.3 ∙ e) p.1 in
    rw waited (p.2, p.0, SameDrains-trans s (paused lib s) _ p.0 r.0, r.2, refl)

mark_drains_keeps :
    (lib : TextLibrary) (key : Bytes) (cs : Table FaultClient) (drains : Table Bool)
    → get_or key false drains ≡ true
    → get_or key false (mark_drains lib cs drains) ≡ true
unfolding mark_drains
mark_drains_keeps lib key [] drains h = h
mark_drains_keeps lib key ((i, c) ∷ cs) drains h =
    let own = fault_drain_key lib c.token_id c.client_id in
    mark_drains_keeps lib key cs (insert own true drains)
      (ground (arith, lookup-insert own key true drains))

mark_drains_marks :
    (lib : TextLibrary) (key : Bytes) (c : FaultClient) (cs : Table FaultClient)
    (drains : Table Bool)
    → lookup key cs ≡ some c
    → get_or (fault_drain_key lib c.token_id c.client_id) false (mark_drains lib cs drains) ≡ true
unfolding mark_drains lookup
mark_drains_marks lib key c [] drains h = cc
mark_drains_marks lib key c ((i, w) ∷ cs) drains h = elim (Bool-cases (bytes_eq i key)) [
  | inl here ↦
      let e : w ≡ c = ground arith in
      let own = fault_drain_key lib w.token_id w.client_id in
      mark_drains_keeps lib (fault_drain_key lib c.token_id c.client_id) cs (insert own true drains)
        (ground (
          arith,
          e,
          bytes_eq_iff own (fault_drain_key lib c.token_id c.client_id),
          lookup-insert own (fault_drain_key lib c.token_id c.client_id) true drains,
        ))
  | inr later ↦
      mark_drains_marks lib key c cs
        (insert (fault_drain_key lib w.token_id w.client_id) true drains) (ground arith)
]

declared :
    (lib : TextLibrary) (since now : ℕ) (s : Server)
    → fault_delay ≤ now - since
    → observe_controller_database_health lib now true (s, some since)
      ≡ (declare_fault lib s, some since)
unfolding observe_controller_database_health
declared lib since now s h =
    let late : leb fault_delay (now - since) ≡ true = ground arith in rw late

-- Every client that the node knew in `s` is draining in `t`, and marked so, and so is the client of every
-- runtime lease.
pub record AllDraining (lib : TextLibrary) (s t : Server) : Type 0 where
  pub clients :
      (key : Bytes) (c : FaultClient)
      → lookup key s.fault.clients ≡ some c
      → (client_is_draining lib c.token_id c.client_id t ≡ true)
        × (lookup key t.fault.clients ≡ some (drained c))
  pub leases :
      (id : Bytes) (l : RuntimeLease)
      → lookup id s.core.runtime_leases ≡ some l
      → client_is_draining lib l.token_id l.client_id t ≡ true

-- A failed probe after the fault timer has run out, while no fault is declared yet, closes the admission of
-- the node and of its FRP server, and drains every client that the node knows and the client of every
-- runtime lease, whether or not there are any.
pub long_outage_drains_everybody :
    (lib : TextLibrary) (since now : ℕ) (s : Server)
    → s.fault.database_failed ≡ false
    → fault_delay ≤ now - since
    → let t = (observe_controller_database_health lib now true (s, some since)).0 in
      (t.core.admission_closed ≡ true)
      × (t.fault.closed ≡ true)
      × (t.fault.database_failed ≡ true)
      × AllDraining lib s t
unfolding declare_fault transition_node_fault set_admission_closed set_database_fault
    client_is_draining client_draining
long_outage_drains_everybody lib since now s f late = rw (declared lib since now s late) (
  ground arith,
  ground arith,
  ground arith,
  record {
    clients = λ key c h.
        let m = mark_drains_marks lib key c s.fault.clients s.fault.drains h in
        (ground (arith, m), ground (arith, lookup-map_values drained key s.fault.clients));
    leases = λ id l k.
        let d = drain_all_marks id l s.core.runtime_leases s.core.draining_clients k in
        ground (arith, d);
  },
)
