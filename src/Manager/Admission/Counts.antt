-- ===== src/Manager/Admission/Counts.antt =====
-- The counts of open proxies, by client and by lease, and the registered proxies.
use meow_frp_server.Prelude.{
  ℕ, ◌+◌, ◌-◌, ◌≡◌, ap, ◌∙◌, ◌⊎◌, inl, inr, Bool, false, some, arith, Bytes, bytes_eq, bytes_eq_iff,
  ltb, Bool-cases, Option-cases, if◌then◌else◌,
}
use meow_frp_server.Prelude.Table.{
  Table, lookup, insert, get_or, remove_where, map_values, lookup-insert, lookup-remove,
  lookup-map_values,
}
use meow_frp_server.Prelude.Table.Count.{
  Distinct, insert-Distinct, remove-Distinct, count, count_none, hit-le-count, count-insert,
  count-remove, count-congr, lookup-remove_where_missing, lookup-remove_where_kept,
}
use meow_frp_server.Manager.Types.{RuntimeLease, client_key}
use meow_frp_server.Manager.Admission.{
  Admission, UserInfo, lease_key, lease_of, increment, decrement, registration_key, lease_meta,
  opened, closed, remember_runtime_lease, finish_client_drain, invalidate_runtime, revoke,
}

-- Registered proxies of the client `key`, and of the lease `id`.
abbrev pub of_client : Admission → Bytes → ℕ
of_client a key = count (λ id. bytes_eq (lease_key (lease_of a id)) key) a.registered_proxies

abbrev pub of_lease : Admission → Bytes → ℕ
of_lease a id = count (λ i. bytes_eq i id) a.registered_proxies

pub record IsCounted (a : Admission) : Type 0 where
  pub distinct : Distinct a.registered_proxies
  pub clients : (key : Bytes) → get_or key 0 a.proxy_counts ≡ of_client a key
  pub leases : (id : Bytes) → get_or id 0 a.lease_proxy_counts ≡ of_lease a id

pub get_or-increment :
    (k j : Bytes) (m : Table ℕ)
    → get_or j 0 (increment k m) ≡ get_or j 0 m + (if bytes_eq k j then 1 else 0)
unfolding increment
get_or-increment k j m = ground (arith, bytes_eq_iff k j, lookup-insert k j (get_or k 0 m + 1) m)

pub get_or-decrement :
    (k j : Bytes) (m : Table ℕ)
    → get_or j 0 (decrement k m) ≡ get_or j 0 m - (if bytes_eq k j then 1 else 0)
unfolding decrement
get_or-decrement k j m =
    ground (arith, bytes_eq_iff k j, lookup-insert k j (get_or k 0 m - 1) m, lookup-remove k j m)

pub closed-IsCounted :
    (user : UserInfo) (name : Bytes) (a : Admission) → IsCounted a → IsCounted (closed user name a)
unfolding closed
closed-IsCounted user name a v =
    let rk = registration_key user name in
    elim (Option-cases (lookup rk a.registered_proxies)) [
      | inl e ↦ rw (e, closed) v
      | inr (id, e) ↦
          rw (e, closed)
            (record {
              distinct = remove-Distinct rk a.registered_proxies v.distinct;
              clients = λ key. ground (
                arith,
                v.clients key,
                get_or-decrement (lease_key (lease_of a id)) key a.proxy_counts,
                count-remove (λ i. bytes_eq (lease_key (lease_of a i)) key) rk a.registered_proxies
                    v.distinct,
              );
              leases = λ i. ground (
                arith,
                v.leases i,
                get_or-decrement id i a.lease_proxy_counts,
                count-remove (λ j. bytes_eq j i) rk a.registered_proxies v.distinct,
              );
            })
    ]

-- A registration that replaces the one of lease `old` moves one from `old` to `id`.
module _ (rk id old key : Bytes) (a : Admission) (v : IsCounted a)
    (e : lookup rk a.registered_proxies ≡ some old) where
  reopened_clients :
      get_or key 0 (
        increment
          (lease_key (lease_of a id))
          (decrement (lease_key (lease_of a old)) a.proxy_counts))
      ≡ count (λ i. bytes_eq (lease_key (lease_of a i)) key) (insert rk id a.registered_proxies)
  reopened_clients = ground (
    arith,
    v.clients key,
    get_or-increment (lease_key (lease_of a id)) key
        (decrement (lease_key (lease_of a old)) a.proxy_counts),
    get_or-decrement (lease_key (lease_of a old)) key a.proxy_counts,
    hit-le-count (λ i. bytes_eq (lease_key (lease_of a i)) key) rk a.registered_proxies,
    count-insert (λ i. bytes_eq (lease_key (lease_of a i)) key) rk id a.registered_proxies,
  )

  reopened_leases :
      get_or key 0 (increment id (decrement old a.lease_proxy_counts))
      ≡ count (λ i. bytes_eq i key) (insert rk id a.registered_proxies)
  reopened_leases = ground (
    arith,
    v.leases key,
    get_or-increment id key (decrement old a.lease_proxy_counts),
    get_or-decrement old key a.lease_proxy_counts,
    hit-le-count (λ i. bytes_eq i key) rk a.registered_proxies,
    count-insert (λ i. bytes_eq i key) rk id a.registered_proxies,
  )

pub opened-IsCounted :
    (user : UserInfo) (name : Bytes) (a : Admission) → IsCounted a → IsCounted (opened user name a)
unfolding opened
opened-IsCounted user name a v =
    let rk = registration_key user name in
    let id = lease_meta user in
    let lk = lease_key (lease_of a id) in
    elim (Option-cases (lookup rk a.registered_proxies)) [
      | inl e ↦
          rw (e, opened)
            (record {
              distinct = insert-Distinct rk id a.registered_proxies v.distinct;
              clients = λ key. ground (
                arith,
                v.clients key,
                get_or-increment lk key a.proxy_counts,
                count-insert (λ i. bytes_eq (lease_key (lease_of a i)) key) rk id
                    a.registered_proxies,
              );
              leases = λ i. ground (
                arith,
                v.leases i,
                get_or-increment id i a.lease_proxy_counts,
                count-insert (λ j. bytes_eq j i) rk id a.registered_proxies,
              );
            })
      | inr (old, e) ↦
          rw (e, opened)
            (record {
              distinct = insert-Distinct rk id a.registered_proxies v.distinct;
              clients = λ key. reopened_clients rk id old key a v e;
              leases = λ i. reopened_leases rk id old i a v e;
            })
    ]

-- A lease that `drops` spares reads the same after the loop, and so does a missing one.
lease_of-remove_where :
    (drops : RuntimeLease → Bool) (id : Bytes) (a : Admission)
    → drops (lease_of a id) ≡ false
    → lease_of (record a { runtime_leases = remove_where drops a.runtime_leases }) id
      ≡ lease_of a id
lease_of-remove_where drops id a h = elim (Option-cases (lookup id a.runtime_leases)) [
  | inl e ↦ ground (arith, lookup-remove_where_missing drops id a.runtime_leases e)
  | inr (l, e) ↦ ground (arith, lookup-remove_where_kept drops id l a.runtime_leases e)
]

pub finish_client_drain-IsCounted :
    (token_id : ℕ) (client_id : Bytes) (a : Admission)
    → IsCounted a
    → IsCounted (finish_client_drain token_id client_id a)
unfolding finish_client_drain
finish_client_drain-IsCounted token_id client_id a v =
    let key = client_key token_id client_id in
    let drops = λ (l : RuntimeLease). bytes_eq (lease_key l) key in
    let a' = record a { runtime_leases = remove_where drops a.runtime_leases } in
    elim (Bool-cases (ltb 0 (get_or key 0 a.proxy_counts))) [
      | inl busy ↦ rw busy v
      | inr none_left ↦ rw none_left (record {
        distinct = v.distinct;
        clients = λ k.
            v.clients k
            ∙ count-congr (λ id. bytes_eq (lease_key (lease_of a id)) key)
                (λ id. bytes_eq (lease_key (lease_of a id)) k)
                (λ id. bytes_eq (lease_key (lease_of a' id)) k) a.registered_proxies
                (λ id h. rw (lease_of-remove_where drops id a h)) (ground (arith, v.clients key));
        leases = v.leases;
      })
    ]

pub invalidate_runtime-IsCounted :
    (match : RuntimeLease → Bool) (a : Admission)
    → IsCounted a
    → IsCounted (invalidate_runtime match a)
unfolding invalidate_runtime
invalidate_runtime-IsCounted match a v =
    let a' = record a { runtime_leases = map_values (revoke match) a.runtime_leases } in
    record {
      distinct = v.distinct;
      clients = λ k.
          v.clients k
          ∙ count-congr (λ _. false) (λ id. bytes_eq (lease_key (lease_of a id)) k)
              (λ id. bytes_eq (lease_key (lease_of a' id)) k) a.registered_proxies
              (λ id _. ground (
                arith,
                lookup-map_values (revoke match) id a.runtime_leases,
                Option-cases (lookup id a.runtime_leases),
              ))
              (count_none a.registered_proxies);
      leases = v.leases;
    }

-- A lease may be remembered again for the same client, or under an id that no proxy uses.
abbrev pub MayRemember : RuntimeLease → Admission → Type 0
MayRemember l a =
    (lease_key (lease_of a l.lease_id) ≡ lease_key l)
    ⊎ (get_or l.lease_id 0 a.lease_proxy_counts ≡ 0)

pub remember_runtime_lease-IsCounted :
    (l : RuntimeLease) (a : Admission)
    → MayRemember l a
    → IsCounted a
    → IsCounted (remember_runtime_lease l a)
unfolding remember_runtime_lease
remember_runtime_lease-IsCounted l a m v =
    let a' = record a { runtime_leases = insert l.lease_id l a.runtime_leases } in
    let same =
      λ (p : Bytes → Bool)
          (keep : (id : Bytes)
            → p id ≡ false
            → lease_key (lease_of a id) ≡ lease_key (lease_of a' id))
          (z : count p a.registered_proxies ≡ 0) (k : Bytes).
        v.clients k
        ∙ count-congr p (λ id. bytes_eq (lease_key (lease_of a id)) k)
            (λ id. bytes_eq (lease_key (lease_of a' id)) k) a.registered_proxies
            (λ id h. ap (λ j. bytes_eq j k) (keep id h)) z in
    record {
      distinct = v.distinct;
      clients = elim m [
        | inl e ↦
            same (λ _. false)
              (λ id _. ground (
                arith,
                e,
                bytes_eq_iff l.lease_id id,
                lookup-insert l.lease_id id l a.runtime_leases,
              ))
              (count_none a.registered_proxies)
        | inr z ↦
            same (λ id. bytes_eq id l.lease_id)
              (λ id h. ground (
                arith,
                bytes_eq_iff l.lease_id id,
                bytes_eq_iff id l.lease_id,
                lookup-insert l.lease_id id l a.runtime_leases,
              ))
              (ground (arith, v.leases l.lease_id))
      ];
      leases = v.leases;
    }
