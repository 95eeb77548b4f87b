-- ===== src/Fault/Heartbeat/Replies.antt =====
-- What a client hears from `faultHeartbeat`.
use meow_frp_server.Prelude.{
  ℕ, ◌+◌, ◌≤◌, Bool, true, false, ◌&&◌, ◌||◌, none, some, List, [], ◌∷◌, ◌≡◌, inl, inr, refl, arith,
  Bytes, bytes_eq_iff, if◌then◌else◌, Option-cases,
}
use meow_frp_server.Prelude.Library.{TextLibrary}
use meow_frp_server.Prelude.Table.{lookup, lookup-insert}
use meow_frp_server.Manager.Admission.{client_proxy_count}
use meow_frp_server.Fault.{FaultClient, EdgeLink, Server, fault_client_key, put_client}
use meow_frp_server.Fault.Heartbeat.{
  show_warning, Reply, node_fault, with_fault, commands, drain_with_fault, answer_known,
  fault_heartbeat,
}

abbrev pub warns : Reply → Bool
warns (node_fault (show_warning ∷ _) _) = true
warns _ = false

abbrev pub was_warned : Bytes → Server → Bool
was_warned key s = elim (lookup key s.fault.clients) [ none ↦ false | some c ↦ c.warned ]

was_warned-put_client :
    (lib : TextLibrary) (key : Bytes) (c : FaultClient) (s : Server)
    → was_warned key (put_client lib key c s) ≡ c.warned
was_warned-put_client lib key c s =
    ground (arith, bytes_eq_iff key key, lookup-insert key key c s.fault.clients)

answer_known-warns :
    (lib : TextLibrary) (has_store frpc_running : Bool) (now : ℕ) (key : Bytes) (c : FaultClient)
    (s : Server)
    → let r = answer_known lib has_store frpc_running now key c s in
      (was_warned key r.0 ≡ c.warned || warns r.1) × (c.warned && warns r.1 ≡ false)
unfolding answer_known commands
answer_known-warns lib has_store frpc_running now key c s =
    let put = was_warned-put_client lib key in
    let told =
      commands s.embedded_frp_enabled (client_proxy_count c.token_id c.client_id s.core)
        (record c { last_seen = now }) in
    ground (arith, put c s, put (record c { last_seen = now }) s, put told.0 s)

heartbeat_warns :
    (lib : TextLibrary) (has_store frpc_running : Bool) (now : ℕ) (e : EdgeLink)
    (hash client_id : Bytes) (s : Server)
    → let key = fault_client_key lib hash client_id in
      let r = fault_heartbeat lib has_store frpc_running now e hash client_id s in
      (was_warned key r.0 ≡ was_warned key s || warns r.1) × (was_warned key s && warns r.1 ≡ false)
unfolding fault_heartbeat with_fault
heartbeat_warns lib has_store frpc_running now e hash client_id s =
    let key = fault_client_key lib hash client_id in
    elim (Option-cases (lookup key s.fault.clients)) [
      | inl unknown ↦ rw (unknown, fault_heartbeat) (ground (arith, unknown))
      | inr (c, known) ↦
          let same : (with_fault e s c).warned ≡ was_warned key s = ground (arith, known) in
          let a =
            answer_known-warns lib has_store frpc_running now key (with_fault e s c)
              (drain_with_fault lib e c s) in
          rw (known, fault_heartbeat) (ground (arith, same, a.0, a.1, known))
    ]

-- A series of heartbeats of one client.
unfoldable pub warnings :
    TextLibrary → Bytes → Bytes → List (ℕ × EdgeLink × Bool × Bool) → Server → ℕ
warnings lib hash client_id [] s = 0
warnings lib hash client_id ((now, e, has_store, frpc_running) ∷ rest) s =
    let r = fault_heartbeat lib has_store frpc_running now e hash client_id s in
    (if warns r.1 then 1 else 0) + warnings lib hash client_id rest r.0

warned_before :
    (lib : TextLibrary) (hash client_id : Bytes) (series : List (ℕ × EdgeLink × Bool × Bool))
    (s : Server)
    → was_warned (fault_client_key lib hash client_id) s ≡ true
    → warnings lib hash client_id series s ≡ 0
unfolding warnings
warned_before lib hash client_id [] s w = refl
warned_before lib hash client_id ((now, e, has_store, frpc_running) ∷ rest) s w =
    let h = heartbeat_warns lib has_store frpc_running now e hash client_id s in
    let r = fault_heartbeat lib has_store frpc_running now e hash client_id s in
    ground (arith, w, h.0, h.1, warned_before lib hash client_id rest r.0)

-- However many heartbeats a client sends, while nothing but the node's links changes in between, it
-- is warned once at most.
pub warned_once :
    (lib : TextLibrary) (hash client_id : Bytes) (series : List (ℕ × EdgeLink × Bool × Bool))
    (s : Server)
    → warnings lib hash client_id series s ≤ 1
unfolding warnings
warned_once lib hash client_id [] s = omega arith
warned_once lib hash client_id ((now, e, has_store, frpc_running) ∷ rest) s =
    let h = heartbeat_warns lib has_store frpc_running now e hash client_id s in
    let r = fault_heartbeat lib has_store frpc_running now e hash client_id s in
    ground (
      arith,
      h.0,
      h.1,
      warned_before lib hash client_id rest r.0,
      warned_once lib hash client_id rest r.0,
    )
