-- ===== src/Manager/Admission.antt =====
-- internal/frpcore/admission.go: which clients may register proxies, and how many they have open.
-- Each function is one method under its locks; who waits for whom is in Admission/Schedule.
use meow_frp_server.Prelude.{
  ℕ, ◌+◌, ◌-◌, Bool, true, false, not, ◌&&◌, ◌||◌, none, some, [], ◌∷◌, ◌++◌, Bytes, codes,
  bytes_eq, ltb, leb, if◌then◌else◌,
}
use meow_frp_server.Prelude.Table.{Table, lookup, insert, remove, get_or, remove_where, map_values}
use meow_frp_server.Manager.Types.{RuntimeLease, zero_lease, client_key}
pub mod Counts
pub mod Schedule

-- The fields of `Manager` that admission.go reads and writes.
pub record Admission : Type 0 where
  pub admission_closed : Bool
  pub draining_clients : Table Bool
  pub runtime_leases : Table RuntimeLease
  pub registered_proxies : Table Bytes
  pub proxy_counts : Table ℕ
  pub lease_proxy_counts : Table ℕ

-- `server.UserInfo` of the FRP plugin protocol, the fields that the hooks read.
pub record UserInfo : Type 0 where
  pub run_id : Bytes
  pub metas : Table Bytes

abbrev pub lease_key : RuntimeLease → Bytes
lease_key l = client_key l.token_id l.client_id

-- `m.runtimeLeases[id]`
abbrev pub lease_of : Admission → Bytes → RuntimeLease
lease_of a id = get_or id zero_lease a.runtime_leases

-- `for _, lease := range m.runtimeLeases { m.drainingClients[…] = true }`
unfoldable pub drain_all : Table RuntimeLease → Table Bool → Table Bool
drain_all [] drains = drains
drain_all ((_, l) ∷ ls) drains = drain_all ls (insert (lease_key l) true drains)

unfoldable pub set_admission_closed : Bool → Admission → Admission
set_admission_closed closed a =
    if closed
    then record a {
      admission_closed = closed;
      draining_clients = drain_all a.runtime_leases a.draining_clients;
    }
    else record a { admission_closed = closed }

unfoldable pub pause_admission : Admission → Admission
pause_admission a = record a { admission_closed = true }

unfoldable pub remember_runtime_lease : RuntimeLease → Admission → Admission
remember_runtime_lease l a = record a { runtime_leases = insert l.lease_id l a.runtime_leases }

unfoldable pub client_draining : ℕ → Bytes → Admission → Bool
client_draining token_id client_id a =
    get_or (client_key token_id client_id) false a.draining_clients

unfoldable pub client_proxy_count : ℕ → Bytes → Admission → ℕ
client_proxy_count token_id client_id a = get_or (client_key token_id client_id) 0 a.proxy_counts

unfoldable pub finish_client_drain : ℕ → Bytes → Admission → Admission
finish_client_drain token_id client_id a =
    let key = client_key token_id client_id in
    if ltb 0 (get_or key 0 a.proxy_counts) then a else record a {
      draining_clients = remove key a.draining_clients;
      runtime_leases = remove_where (λ l. bytes_eq (lease_key l) key) a.runtime_leases;
    }

unfoldable pub existing_runtime : Bytes → Bytes → Admission → RuntimeLease × Bool
existing_runtime lease_id hash a = elim (lookup lease_id a.runtime_leases) [
  | none ↦ (zero_lease, false)
  | some l ↦ (l, bytes_eq l.status (codes "active") && bytes_eq l.runtime_token_hash hash)
]

-- `user.Metas["lease_id"]`
abbrev pub lease_meta : UserInfo → Bytes
lease_meta user = get_or (codes "lease_id") (codes "") user.metas

-- `proxyLifecycle().Begin`: true where it returns the release of the read lock, false where it
-- returns an error and releases the lock itself.
unfoldable pub begin_proxy : UserInfo → Admission → Bool
begin_proxy user a = elim (lookup (lease_meta user) a.runtime_leases) [
  | none ↦ false
  | some l ↦ not (
      a.admission_closed
      || not (bytes_eq l.status (codes "active"))
      || get_or (lease_key l) false a.draining_clients)
]

-- One count of `removeProxyCountLocked`.
unfoldable pub decrement : Bytes → Table ℕ → Table ℕ
decrement key counts =
    if leb (get_or key 0 counts) 1
    then remove key counts
    else insert key (get_or key 0 counts - 1) counts

unfoldable pub increment : Bytes → Table ℕ → Table ℕ
increment key counts = insert key (get_or key 0 counts + 1) counts

unfoldable pub remove_proxy_count : Bytes → Admission → Admission
remove_proxy_count id a = record a {
  proxy_counts = decrement (lease_key (lease_of a id)) a.proxy_counts;
  lease_proxy_counts = decrement id a.lease_proxy_counts;
}

-- `user.RunID + "\x00" + name`
abbrev pub registration_key : UserInfo → Bytes → Bytes
registration_key user name = user.run_id ++ 0 ∷ [] ++ name

-- The count of `id` and the entry of `key`, as the end of `Opened` writes them.
unfoldable pub add_registration : Bytes → Bytes → Admission → Admission
add_registration key id a = record a {
  registered_proxies = insert key id a.registered_proxies;
  proxy_counts = increment (lease_key (lease_of a id)) a.proxy_counts;
  lease_proxy_counts = increment id a.lease_proxy_counts;
}

-- `proxyLifecycle().Opened`
unfoldable pub opened : UserInfo → Bytes → Admission → Admission
unfolding remove_proxy_count add_registration
opened user name a = elim (lookup (registration_key user name) a.registered_proxies) [
  | none ↦ add_registration (registration_key user name) (lease_meta user) a
  | some old ↦
      add_registration (registration_key user name) (lease_meta user) (remove_proxy_count old a)
]

-- `proxyLifecycle().Closed`
unfoldable pub closed : UserInfo → Bytes → Admission → Admission
unfolding remove_proxy_count
closed user name a = elim (lookup (registration_key user name) a.registered_proxies) [
  | none ↦ a
  | some id ↦
      let a' = remove_proxy_count id a in
      record a' { registered_proxies = remove (registration_key user name) a.registered_proxies }
]

abbrev pub revoke : (RuntimeLease → Bool) → RuntimeLease → RuntimeLease
revoke match l = if match l then record l { status = codes "revoked" } else l

unfoldable pub invalidate_runtime : (RuntimeLease → Bool) → Admission → Admission
invalidate_runtime match a = record a {
  runtime_leases = map_values (revoke match) a.runtime_leases;
}
