-- ===== src/Manager/Admission/Schedule/Revocation.antt =====
-- The leases that an explicit ban or logout revokes.
use meow_frp_server.Prelude.{
  ℕ, Bool, true, false, not, List, ◌∷◌, ◌≡◌, refl, ◌⊎◌, inl, inr, none, some, arith, Bytes, codes,
  bytes_eq, Bool-cases, ltb,
}
use meow_frp_server.Prelude.Table.{lookup, get_or, remove_where, lookup-insert, lookup-map_values}
use meow_frp_server.Prelude.Table.Count.{
  Distinct, lookup-remove_where_missing, lookup-remove_where_kept, lookup-remove_where_gone,
}
use meow_frp_server.Manager.Types.{RuntimeLease, client_key}
use meow_frp_server.Manager.Admission.{
  Admission, UserInfo, lease_key, lease_meta, begin_proxy, opened, closed, existing_runtime,
  remember_runtime_lease, set_admission_closed, pause_admission, finish_client_drain,
  invalidate_runtime, revoke,
}
use meow_frp_server.Manager.Admission.Schedule.{
  System, Event, Step, begun, registered, failed, unregistered, remembered, written, Runs, stop,
  then_, Exclusive, sets_closed, pauses, finishes, invalidates, exclusive, remembers, writes,
  AllEvents,
}
use meow_frp_server.Manager.Admission.Schedule.Bookkeeping.{
  IsConsistent, Step-IsConsistent, opened_tables, closed_leases,
}

-- The lease is forgotten, or marked as revoked.
abbrev IsRevoked : Bytes → Admission → Type 0
IsRevoked id a =
    (lookup id a.runtime_leases ≡ none)
    ⊎ ((l : RuntimeLease) × (lookup id a.runtime_leases ≡ some l) × (l.status ≡ codes "revoked"))

abbrev pub remembers_lease : Bytes → Event → Bool
remembers_lease id (remembers l) = bytes_eq l.lease_id id
remembers_lease id _ = false

IsRevoked-same :
    (id : Bytes) (a b : Admission)
    → lookup id b.runtime_leases ≡ lookup id a.runtime_leases
    → IsRevoked id a
    → IsRevoked id b
IsRevoked-same id a b e (inl h) = inl (ground (arith, e))
IsRevoked-same id a b e (inr (l, h, r)) = inr (l, ground (arith, e), r)

forget-IsRevoked :
    (drops : RuntimeLease → Bool) (id : Bytes) (a : Admission)
    → Distinct a.runtime_leases
    → IsRevoked id a
    → (lookup id (remove_where drops a.runtime_leases) ≡ none)
      ⊎ ((l : RuntimeLease) × (lookup id (remove_where drops a.runtime_leases) ≡ some l)
          × (l.status ≡ codes "revoked"))
forget-IsRevoked drops id a d (inl h) =
    inl (lookup-remove_where_missing drops id a.runtime_leases h)
forget-IsRevoked drops id a d (inr (l, h, r)) = elim (Bool-cases (drops l)) [
  | inl dropped ↦ inl (lookup-remove_where_gone drops id l a.runtime_leases d h dropped)
  | inr kept ↦ inr (l, lookup-remove_where_kept drops id l a.runtime_leases h kept, r)
]

finish_client_drain-IsRevoked :
    (t : ℕ) (c id : Bytes) (a : Admission)
    → Distinct a.runtime_leases
    → IsRevoked id a
    → IsRevoked id (finish_client_drain t c a)
unfolding finish_client_drain
finish_client_drain-IsRevoked t c id a d r =
    let drops = λ (l : RuntimeLease). bytes_eq (lease_key l) (client_key t c) in
    elim (Bool-cases (ltb 0 (get_or (client_key t c) 0 a.proxy_counts))) [
      | inl busy ↦ rw (busy, finish_client_drain) r
      | inr none_left ↦ rw (none_left, finish_client_drain) (forget-IsRevoked drops id a d r)
    ]

exclusive-IsRevoked :
    (x : Exclusive) (id : Bytes) (s : System)
    → IsConsistent s
    → IsRevoked id s.admission
    → IsRevoked id (exclusive x s.admission)
unfolding exclusive set_admission_closed pause_admission invalidate_runtime
exclusive-IsRevoked (sets_closed true) id s v r = r
exclusive-IsRevoked (sets_closed false) id s v r = r
exclusive-IsRevoked pauses id s v r = r
exclusive-IsRevoked (finishes t c) id s v r =
    finish_client_drain-IsRevoked t c id s.admission v.leases_distinct r
exclusive-IsRevoked (invalidates match) id s v (inl h) =
    inl (ground (arith, lookup-map_values (revoke match) id s.admission.runtime_leases))
exclusive-IsRevoked (invalidates match) id s v (inr (l, h, r)) = inr (
  revoke match l,
  ground (arith, lookup-map_values (revoke match) id s.admission.runtime_leases),
  ground arith,
)

Step-IsRevoked :
    {e : Event} {s t : System} (id : Bytes)
    → Step e s t
    → remembers_lease id e ≡ false
    → IsConsistent s
    → IsRevoked id s.admission
    → IsRevoked id t.admission
Step-IsRevoked id (begun u s h) n v r = r
Step-IsRevoked id (registered u name s rest l) n v r =
    IsRevoked-same id s.admission (opened u name s.admission)
      (rw ((opened_tables u name s.admission).0)) r
Step-IsRevoked id (failed u s rest l) n v r = r
Step-IsRevoked id (unregistered u name s) n v r =
    IsRevoked-same id s.admission (closed u name s.admission)
      (rw ((closed_leases u name s.admission).0)) r
Step-IsRevoked id (remembered l s m) n v r =
    IsRevoked-same id s.admission (remember_runtime_lease l s.admission)
      (unfold remember_runtime_lease in
        ground (arith, lookup-insert l.lease_id id l s.admission.runtime_leases))
      r
Step-IsRevoked id (written x s i) n v r = exclusive-IsRevoked x id s v r

Runs-IsRevoked :
    {es : List Event} {s t : System} (id : Bytes)
    → Runs es s t
    → AllEvents (λ e. not (remembers_lease id e)) es
    → IsConsistent s
    → IsRevoked id s.admission
    → IsRevoked id t.admission
Runs-IsRevoked id stop n v r = r
Runs-IsRevoked id (then_ {e} st es) n v r =
    Runs-IsRevoked id es n.1 (Step-IsConsistent st v)
      (Step-IsRevoked id st (ground (arith, n.0)) v r)

begin_proxy-IsRevoked :
    (u : UserInfo) (a : Admission) → IsRevoked (lease_meta u) a → begin_proxy u a ≡ false
unfolding begin_proxy bytes_eq
begin_proxy-IsRevoked u a r = ground arith

existing_runtime-IsRevoked :
    (id hash : Bytes) (a : Admission) → IsRevoked id a → (existing_runtime id hash a).1 ≡ false
unfolding existing_runtime bytes_eq
existing_runtime-IsRevoked id hash a r = ground arith

invalidated :
    (match : RuntimeLease → Bool) (id : Bytes) (l : RuntimeLease) (a : Admission)
    → lookup id a.runtime_leases ≡ some l
    → match l ≡ true
    → IsRevoked id (invalidate_runtime match a)
unfolding invalidate_runtime
invalidated match id l a h m = inr (
  record l { status = codes "revoked" },
  ground (arith, lookup-map_values (revoke match) id a.runtime_leases),
  refl,
)

-- From a consistent state, a known lease that a ban or a logout matched can neither begin a registration nor keep a connection
-- through an outage, whatever happens next, until a lease of that id is remembered again.
pub revoked_stays_revoked :
    {es : List Event} {s t : System} (match : RuntimeLease → Bool) (id hash : Bytes)
    (l : RuntimeLease) (u : UserInfo)
    → IsConsistent s
    → lookup id s.admission.runtime_leases ≡ some l
    → match l ≡ true
    → lease_meta u ≡ id
    → Runs (writes (invalidates match) ∷ es) s t
    → AllEvents (λ e. not (remembers_lease id e)) es
    → (begin_proxy u t.admission ≡ false) × ((existing_runtime id hash t.admission).1 ≡ false)
unfolding exclusive
revoked_stays_revoked match id hash l u v h m e (then_ (written x s i) r) n =
    let start = invalidated match id l s.admission h m in
    let last = Runs-IsRevoked id r n (Step-IsConsistent (written x s i) v) start in
    (begin_proxy-IsRevoked u _ (rw e last), existing_runtime-IsRevoked id hash _ last)
