-- ===== src/Manager/Admission/Schedule/Bookkeeping.antt =====
-- The bookkeeping invariant over every interleaving.
use meow_frp_server.Prelude.{
  true, false, List, [], ◌∷◌, ◌≡◌, ◌≢◌, refl, inl, inr, none, some, arith, Bytes, bytes_eq,
  Bool-cases, Option-cases,
}
use meow_frp_server.Prelude.Table.{lookup, insert, lookup-insert, lookup-remove, lookup-map_values}
use meow_frp_server.Prelude.Table.Count.{
  Distinct, insert-Distinct, remove_where-Distinct, map_values-Distinct, hit-le-count,
  lookup-remove_where_kept,
}
use meow_frp_server.Manager.Types.{RuntimeLease, client_key}
use meow_frp_server.Manager.Admission.{
  Admission, UserInfo, lease_key, lease_of, lease_meta, begin_proxy, opened, closed,
  registration_key, remember_runtime_lease, set_admission_closed, pause_admission,
  finish_client_drain, invalidate_runtime, revoke,
}
use meow_frp_server.Manager.Admission.Counts.{
  IsCounted, closed-IsCounted, opened-IsCounted, finish_client_drain-IsCounted,
  invalidate_runtime-IsCounted, remember_runtime_lease-IsCounted,
}
use meow_frp_server.Manager.Admission.Schedule.{
  System, Event, Step, begun, registered, failed, unregistered, remembered, written, Runs, stop,
  then_, Leaves, here, there, Exclusive, sets_closed, pauses, finishes, invalidates, exclusive,
}

-- The lease of `id` is still remembered.
abbrev pub IsKnown : Admission → Bytes → Type 0
IsKnown a id = lookup id a.runtime_leases ≢ none

abbrev pub AllKnown : Admission → List UserInfo → Type 0
AllKnown a [] = Unit
AllKnown a (u ∷ us) = IsKnown a (lease_meta u) × AllKnown a us

-- The counts are right, and no registered proxy and no registration under way has lost its lease.
pub record IsConsistent (s : System) : Type 0 where
  pub counted : IsCounted s.admission
  pub registered_known :
      (key id : Bytes)
      → lookup key s.admission.registered_proxies ≡ some id
      → IsKnown s.admission id
  pub in_flight_known : AllKnown s.admission s.in_flight
  pub leases_distinct : Distinct s.admission.runtime_leases

Leaves-AllKnown :
    (a : Admission) {u : UserInfo} {us vs : List UserInfo}
    → Leaves u us vs
    → AllKnown a us
    → IsKnown a (lease_meta u) × AllKnown a vs
Leaves-AllKnown a here k = k
Leaves-AllKnown a (there l) k = ground (arith, Leaves-AllKnown a l k.1)

AllKnown-weaken :
    (a b : Admission) (us : List UserInfo)
    → ((id : Bytes) → IsKnown a id → IsKnown b id)
    → AllKnown a us
    → AllKnown b us
AllKnown-weaken a b [] h k = tt
AllKnown-weaken a b (u ∷ us) h k = (h (lease_meta u) k.0, AllKnown-weaken a b us h k.1)

pub begin_proxy-IsKnown :
    (u : UserInfo) (a : Admission) → begin_proxy u a ≡ true → IsKnown a (lease_meta u)
unfolding begin_proxy
begin_proxy-IsKnown u a h = ground arith

-- What `Opened` and `Closed` leave in the table of registrations, and the leases they keep.
pub opened_tables :
    (u : UserInfo) (name : Bytes) (a : Admission)
    → ((opened u name a).runtime_leases ≡ a.runtime_leases)
      × ((opened u name a).registered_proxies
          ≡ insert (registration_key u name) (lease_meta u) a.registered_proxies)
      × ((opened u name a).admission_closed ≡ a.admission_closed)
      × ((opened u name a).draining_clients ≡ a.draining_clients)
unfolding opened
opened_tables u name a = ground arith

pub closed_leases :
    (u : UserInfo) (name : Bytes) (a : Admission)
    → ((closed u name a).runtime_leases ≡ a.runtime_leases)
      × ((closed u name a).admission_closed ≡ a.admission_closed)
      × ((closed u name a).draining_clients ≡ a.draining_clients)
unfolding closed
closed_leases u name a = ground arith

closed_registered :
    (u : UserInfo) (name key id : Bytes) (a : Admission)
    → lookup key (closed u name a).registered_proxies ≡ some id
    → lookup key a.registered_proxies ≡ some id
unfolding closed
closed_registered u name key id a h =
    ground (arith, lookup-remove (registration_key u name) key a.registered_proxies)

IsKnown-same :
    (a b : Admission) (id : Bytes)
    → b.runtime_leases ≡ a.runtime_leases
    → IsKnown a id
    → IsKnown b id
IsKnown-same a b id e k = rw e k

remember-IsKnown :
    (l : RuntimeLease) (a : Admission) (id : Bytes)
    → IsKnown a id
    → IsKnown (remember_runtime_lease l a) id
unfolding remember_runtime_lease
remember-IsKnown l a id k = ground (arith, lookup-insert l.lease_id id l a.runtime_leases)

-- No method under the write lock forgets the lease of a registered proxy.
exclusive-IsKnown :
    (x : Exclusive) (a : Admission) (key id : Bytes)
    → IsCounted a
    → lookup key a.registered_proxies ≡ some id
    → IsKnown a id
    → IsKnown (exclusive x a) id
unfolding exclusive
exclusive-IsKnown (sets_closed b) a key id v r k = unfold set_admission_closed in ground arith
exclusive-IsKnown pauses a key id v r k = unfold pause_admission in k
exclusive-IsKnown (invalidates match) a key id v r k =
    unfold invalidate_runtime in
    ground (arith, lookup-map_values (revoke match) id a.runtime_leases)
exclusive-IsKnown (finishes t c) a key id v r k = elim (Option-cases (lookup id a.runtime_leases)) [
  | inl e ↦ absurd (k e)
  | inr (l, e) ↦
      unfold finish_client_drain in
      ground (
        arith,
        v.clients (client_key t c),
        hit-le-count (λ i. bytes_eq (lease_key (lease_of a i)) (client_key t c)) key
            a.registered_proxies,
        lookup-remove_where_kept (λ m. bytes_eq (lease_key m) (client_key t c)) id l
            a.runtime_leases e,
      )
]

exclusive-IsCounted : (x : Exclusive) (a : Admission) → IsCounted a → IsCounted (exclusive x a)
unfolding exclusive
exclusive-IsCounted (sets_closed true) a v =
    unfold set_admission_closed in
    record { distinct = v.distinct; clients = v.clients; leases = v.leases }
exclusive-IsCounted (sets_closed false) a v =
    unfold set_admission_closed in
    record { distinct = v.distinct; clients = v.clients; leases = v.leases }
exclusive-IsCounted pauses a v =
    unfold pause_admission in
    record { distinct = v.distinct; clients = v.clients; leases = v.leases }
exclusive-IsCounted (finishes t c) a v = finish_client_drain-IsCounted t c a v
exclusive-IsCounted (invalidates match) a v = invalidate_runtime-IsCounted match a v

exclusive_registered :
    (x : Exclusive) (a : Admission) → (exclusive x a).registered_proxies ≡ a.registered_proxies
unfolding exclusive set_admission_closed pause_admission finish_client_drain invalidate_runtime
exclusive_registered (sets_closed b) a = ground arith
exclusive_registered pauses a = refl
exclusive_registered (finishes t c) a = ground arith
exclusive_registered (invalidates match) a = refl

exclusive-Distinct :
    (x : Exclusive) (a : Admission)
    → Distinct a.runtime_leases
    → Distinct (exclusive x a).runtime_leases
unfolding exclusive set_admission_closed pause_admission finish_client_drain invalidate_runtime
exclusive-Distinct (sets_closed true) a d = d
exclusive-Distinct (sets_closed false) a d = d
exclusive-Distinct pauses a d = d
exclusive-Distinct (finishes t c) a d =
    ground (
      arith,
      remove_where-Distinct (λ l. bytes_eq (lease_key l) (client_key t c)) a.runtime_leases d,
    )
exclusive-Distinct (invalidates match) a d = map_values-Distinct (revoke match) a.runtime_leases d

registered_after_open :
    (u : UserInfo) (name : Bytes) (a : Admission) (key id : Bytes)
    → IsKnown a (lease_meta u)
    → (lookup key a.registered_proxies ≡ some id → IsKnown a id)
    → lookup key (opened u name a).registered_proxies ≡ some id
    → IsKnown a id
registered_after_open u name a key id k old h =
    let h' = rw ((opened_tables u name a).1) at h in
    elim (Bool-cases (bytes_eq (registration_key u name) key)) [
      | inl same ↦
          let e : id ≡ lease_meta u = ground (
            arith,
            same,
            h',
            lookup-insert (registration_key u name) key (lease_meta u) a.registered_proxies,
          ) in
          rw e k
      | inr other ↦ old (
          ground (
            arith,
            lookup-insert (registration_key u name) key (lease_meta u) a.registered_proxies,
            h',
          ))
    ]

remembered_registered :
    (l : RuntimeLease) (a : Admission) (key id : Bytes)
    → lookup key (remember_runtime_lease l a).registered_proxies ≡ some id
    → lookup key a.registered_proxies ≡ some id
unfolding remember_runtime_lease
remembered_registered l a key id h = h

pub Step-IsConsistent : {e : Event} {s t : System} → Step e s t → IsConsistent s → IsConsistent t
Step-IsConsistent (begun u s h) v = record {
  counted = v.counted;
  registered_known = v.registered_known;
  in_flight_known = (begin_proxy-IsKnown u s.admission h, v.in_flight_known);
  leases_distinct = v.leases_distinct;
}
Step-IsConsistent (registered u name s rest l) v =
    let a = s.admission in
    let kept = (opened_tables u name a).0 in
    let leaves = Leaves-AllKnown a l v.in_flight_known in
    record {
      counted = opened-IsCounted u name a v.counted;
      registered_known = λ key id h.
          IsKnown-same a (opened u name a) id kept
            (registered_after_open u name a key id leaves.0 (v.registered_known key id) h);
      in_flight_known =
          AllKnown-weaken a (opened u name a) rest
            (λ id k. IsKnown-same a (opened u name a) id kept k) leaves.1;
      leases_distinct = rw kept v.leases_distinct;
    }
Step-IsConsistent (failed u s rest l) v = record {
  counted = v.counted;
  registered_known = v.registered_known;
  in_flight_known = (Leaves-AllKnown s.admission l v.in_flight_known).1;
  leases_distinct = v.leases_distinct;
}
Step-IsConsistent (unregistered u name s) v =
    let a = s.admission in
    let kept = λ (id : Bytes). IsKnown-same a (closed u name a) id (closed_leases u name a).0 in
    record {
      counted = closed-IsCounted u name a v.counted;
      registered_known =
          λ key id h. kept id (v.registered_known key id (closed_registered u name key id a h));
      in_flight_known = AllKnown-weaken a (closed u name a) s.in_flight kept v.in_flight_known;
      leases_distinct = rw ((closed_leases u name a).0) v.leases_distinct;
    }
Step-IsConsistent (remembered l s m) v =
    let a = s.admission in
    record {
      counted = remember_runtime_lease-IsCounted l a m v.counted;
      registered_known = λ key id h.
          remember-IsKnown l a id (v.registered_known key id (remembered_registered l a key id h));
      in_flight_known =
          AllKnown-weaken a (remember_runtime_lease l a) s.in_flight (remember-IsKnown l a)
            v.in_flight_known;
      leases_distinct =
          unfold remember_runtime_lease in
          insert-Distinct l.lease_id l a.runtime_leases v.leases_distinct;
    }
Step-IsConsistent (written x s idle) v =
    let a = s.admission in
    record {
      counted = exclusive-IsCounted x a v.counted;
      registered_known = λ key id h.
          let r = rw (exclusive_registered x a) at h in
          exclusive-IsKnown x a key id v.counted r (v.registered_known key id r);
      in_flight_known = rw idle tt;
      leases_distinct = exclusive-Distinct x a v.leases_distinct;
    }

-- From a state where this holds, and however the calls interleave, every client's and every lease's count is the number of its
-- registered proxies, and no registered proxy has lost the lease that its count is kept under.
pub Runs-IsConsistent :
    {es : List Event} {s t : System} → Runs es s t → IsConsistent s → IsConsistent t
Runs-IsConsistent stop v = v
Runs-IsConsistent (then_ st r) v = Runs-IsConsistent r (Step-IsConsistent st v)
