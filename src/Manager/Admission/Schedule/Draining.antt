-- ===== src/Manager/Admission/Schedule/Draining.antt =====
-- The drain of a client over the interleavings of the schedule.
use meow_frp_server.Prelude.{
  ℕ, Bool, true, false, not, List, [], ◌∷◌, ◌≡◌, refl, ◌⊎◌, inl, inr, some, arith, Bytes, bytes_eq,
  bytes_eq_iff, Bool-cases, ltb,
}
use meow_frp_server.Prelude.Table.{Table, lookup, insert, get_or, lookup-insert, lookup-remove}
use meow_frp_server.Manager.Types.{RuntimeLease, client_key}
use meow_frp_server.Manager.Admission.{
  Admission, UserInfo, lease_key, lease_of, lease_meta, begin_proxy, remember_runtime_lease,
  set_admission_closed, pause_admission, finish_client_drain, invalidate_runtime, drain_all,
}
use meow_frp_server.Manager.Admission.Schedule.{
  System, Event, Step, begun, registered, failed, unregistered, remembered, written, Runs, stop,
  then_, Exclusive, sets_closed, pauses, finishes, invalidates, exclusive, writes, AllEvents,
}
use meow_frp_server.Manager.Admission.Schedule.Bookkeeping.{opened_tables, closed_leases}
use meow_frp_server.Manager.Admission.Schedule.Fence.{open_count}

abbrev pub is_draining : Bytes → Admission → Bool
is_draining key a = get_or key false a.draining_clients

drain_all_keeps :
    (key : Bytes) (ls : Table RuntimeLease) (d : Table Bool)
    → get_or key false d ≡ true
    → get_or key false (drain_all ls d) ≡ true
unfolding drain_all
drain_all_keeps key [] d h = h
drain_all_keeps key ((i, l) ∷ ls) d h =
    drain_all_keeps key ls (insert (lease_key l) true d)
      (ground (arith, lookup-insert (lease_key l) key true d))

pub drain_all_marks :
    (id : Bytes) (l : RuntimeLease) (ls : Table RuntimeLease) (d : Table Bool)
    → lookup id ls ≡ some l
    → get_or (lease_key l) false (drain_all ls d) ≡ true
unfolding drain_all lookup
drain_all_marks id l [] d h = cc
drain_all_marks id l ((i, w) ∷ ls) d h = elim (Bool-cases (bytes_eq i id)) [
  | inl here ↦
      let e : w ≡ l = ground arith in
      drain_all_keeps (lease_key l) ls (insert (lease_key w) true d) (
        ground (
          arith,
          e,
          bytes_eq_iff (lease_key w) (lease_key l),
          lookup-insert (lease_key w) (lease_key l) true d,
        ))
  | inr later ↦ drain_all_marks id l ls (insert (lease_key w) true d) (ground arith)
]

-- The event finishes the drain of `key`, and finds no open proxy of that client.
abbrev pub FinishesAtZero : Bytes → Event → Admission → Type 0
FinishesAtZero key e a =
    (token_id : ℕ) × (client_id : Bytes) × (e ≡ writes (finishes token_id client_id))
    × (client_key token_id client_id ≡ key)
    × (open_count key a ≡ 0)

exclusive_draining :
    (x : Exclusive) (key : Bytes) (a : Admission)
    → is_draining key a ≡ true
    → (is_draining key (exclusive x a) ≡ true) ⊎ FinishesAtZero key (writes x) a
unfolding exclusive
exclusive_draining (sets_closed b) key a d = inl (
    unfold set_admission_closed in
    ground (arith, drain_all_keeps key a.runtime_leases a.draining_clients))
exclusive_draining pauses key a d = inl (unfold pause_admission in d)
exclusive_draining (invalidates match) key a d = inl (unfold invalidate_runtime in d)
exclusive_draining (finishes t c) key a d = elim (Bool-cases (bytes_eq (client_key t c) key)) [
  | inr other ↦ inl (
      unfold finish_client_drain in
      ground (arith, lookup-remove (client_key t c) key a.draining_clients))
  | inl same ↦
      let e = (bytes_eq_iff (client_key t c) key).0 same in
      elim (Bool-cases (ltb 0 (open_count (client_key t c) a))) [
        | inl busy ↦ inl (unfold finish_client_drain in rw (busy, finish_client_drain) d)
        | inr none_left ↦ inr (t, c, refl, e, ground (arith, e))
      ]
]

-- A client stops draining only when its drain is finished while it has no open proxy.
pub draining_ends_at_zero :
    {e : Event} {s t : System} (key : Bytes)
    → Step e s t
    → is_draining key s.admission ≡ true
    → (is_draining key t.admission ≡ true) ⊎ FinishesAtZero key e s.admission
draining_ends_at_zero key (begun u s h) d = inl d
draining_ends_at_zero key (registered u name s rest l) d =
    inl (rw ((opened_tables u name s.admission).3) d)
draining_ends_at_zero key (failed u s rest l) d = inl d
draining_ends_at_zero key (unregistered u name s) d =
    inl (rw ((closed_leases u name s.admission).2) d)
draining_ends_at_zero key (remembered l s m) d = inl (unfold remember_runtime_lease in d)
draining_ends_at_zero key (written x s i) d = exclusive_draining x key s.admission d

-- The event finishes the drain of `key`, whether it has an effect or not.
abbrev pub finishes_drain : Bytes → Event → Bool
finishes_drain key (writes (finishes t c)) = bytes_eq (client_key t c) key
finishes_drain key _ = false

Runs-draining :
    {es : List Event} {s t : System} (key : Bytes)
    → Runs es s t
    → AllEvents (λ e. not (finishes_drain key e)) es
    → is_draining key s.admission ≡ true
    → is_draining key t.admission ≡ true
Runs-draining key stop n d = d
Runs-draining key (then_ {e} st r) n d = elim (draining_ends_at_zero key st d) [
  | inl d' ↦ Runs-draining key r n.1 d'
  | inr (t, c, ev, k, z) ↦ absurd (ground (arith, ev, n.0, (bytes_eq_iff (client_key t c) key).1 k))
]

begin_proxy_draining :
    (u : UserInfo) (a : Admission)
    → is_draining (lease_key (lease_of a (lease_meta u))) a ≡ true
    → begin_proxy u a ≡ false
unfolding begin_proxy
begin_proxy_draining u a d = ground arith

-- After `SetAdmissionClosed(true)`, also once admission is open again, no client of a lease known
-- then can begin a registration until its drain is finished.
pub drained_clients_stay_out :
    {es : List Event} {s t : System} (id : Bytes) (l : RuntimeLease) (u : UserInfo)
    → lookup id s.admission.runtime_leases ≡ some l
    → Runs (writes (sets_closed true) ∷ es) s t
    → AllEvents (λ e. not (finishes_drain (lease_key l) e)) es
    → lease_key (lease_of t.admission (lease_meta u)) ≡ lease_key l
    → begin_proxy u t.admission ≡ false
unfolding exclusive set_admission_closed
drained_clients_stay_out id l u h (then_ (written _ s i) r) n same =
    let marked = drain_all_marks id l s.admission.runtime_leases s.admission.draining_clients h in
    begin_proxy_draining u _ (rw same (Runs-draining (lease_key l) r n marked))
