-- ===== src/Tests/Sessions.antt =====
-- Schedules of the admission state.
use meow_frp_server.Prelude.{
  Bool, true, false, some, [], ◌∷◌, ◌≡◌, ◌≤◌, ◌⊎◌, refl, inr, codes, decimal, bytes_eq,
}
use meow_frp_server.Manager.Admission.Schedule.Bookkeeping.{IsConsistent, Runs-IsConsistent}
use meow_frp_server.Manager.Admission.Schedule.Draining.{
  FinishesAtZero, draining_ends_at_zero, drained_clients_stay_out, is_draining,
}
use meow_frp_server.Manager.Admission.Schedule.Fence.{fenced_counts_fall, open_count}
use meow_frp_server.Manager.Admission.Schedule.Revocation.{revoked_stays_revoked}
use meow_frp_server.Manager.Admission.Schedule.{
  exclusive, Runs, here, stop, then_, begun, registered, unregistered, remembered, written, begins,
  opens, closes, remembers, writes, sets_closed, pauses, finishes, invalidates,
}
use meow_frp_server.Manager.Admission.{
  Admission, begin_proxy, remove_proxy_count, add_registration, increment, opened, closed,
  existing_runtime, lease_key, lease_of, lease_meta, set_admission_closed, remember_runtime_lease,
}
use meow_frp_server.Manager.Types.{RuntimeLease, client_key}
use meow_frp_server.Prelude.Table.Count.{count}
use meow_frp_server.Prelude.Table.{lookup, insert}
use meow_frp_server.Tests.Samples.{lease, user, nothing_admitted, one_proxy, idle}

abbrev known : Admission
known = record nothing_admitted { runtime_leases = (codes "L", lease) ∷ [] }

remember_lem : remember_runtime_lease lease nothing_admitted ≡ known
unfolding remember_runtime_lease insert
remember_lem = refl

begin_lem : begin_proxy user known ≡ true
unfolding begin_proxy lookup bytes_eq client_key
begin_lem = refl

opened_lem : opened user (codes "web") known ≡ one_proxy
unfolding opened remove_proxy_count add_registration increment lookup insert bytes_eq client_key
    decimal
opened_lem = refl

-- The lease is remembered, a registration begins, and its proxy is opened.
opening-Runs :
    Runs
      (remembers lease ∷ begins user ∷ opens user (codes "web") ∷ [])
      (idle nothing_admitted)
      (idle (opened user (codes "web") (remember_runtime_lease lease nothing_admitted)))
unfolding lookup
opening-Runs = then_ (remembered lease (idle nothing_admitted) (inr refl)) (
    then_ (begun user _ (rw remember_lem begin_lem))
      (then_ (registered user (codes "web") _ [] here) stop))

nothing-IsConsistent : IsConsistent (idle nothing_admitted)
unfolding lookup count
nothing-IsConsistent = record {
  counted = record { distinct = tt; clients = λ key. refl; leases = λ id. refl };
  registered_known = λ key id e. λ _. cc;
  in_flight_known = tt;
  leases_distinct = tt;
}

abbrev after_opening : Admission
after_opening = opened user (codes "web") (remember_runtime_lease lease nothing_admitted)

Runs-IsConsistent_example : IsConsistent (idle after_opening)
Runs-IsConsistent_example = Runs-IsConsistent opening-Runs nothing-IsConsistent

-- The proxy of a paused node is closed.
fenced_counts_fall_example :
    ((idle (closed user (codes "web") (exclusive pauses one_proxy))).in_flight ≡ [])
    × (open_count (codes "3:dev") (closed user (codes "web") (exclusive pauses one_proxy))
        ≤ open_count (codes "3:dev") one_proxy)
fenced_counts_fall_example =
    fenced_counts_fall {es = closes user (codes "web") ∷ []} {s = idle one_proxy}
      {t = idle (closed user (codes "web") (exclusive pauses one_proxy))} pauses (codes "3:dev")
      refl
      (then_ (written pauses (idle one_proxy) refl)
        (then_ (unregistered user (codes "web") (idle (exclusive pauses one_proxy))) stop))
      (refl, tt)

abbrev one_draining : Admission
one_draining = record nothing_admitted { draining_clients = (codes "3:dev", true) ∷ [] }

draining_lem : is_draining (codes "3:dev") one_draining ≡ true
unfolding lookup bytes_eq
draining_lem = refl

draining_ends_at_zero_example :
    (is_draining (codes "3:dev") (exclusive (finishes 3 (codes "dev")) one_draining) ≡ true)
    ⊎ FinishesAtZero (codes "3:dev") (writes (finishes 3 (codes "dev"))) one_draining
draining_ends_at_zero_example =
    draining_ends_at_zero (codes "3:dev")
      (written (finishes 3 (codes "dev")) (idle one_draining) refl) draining_lem

known_lem : lookup (codes "L") known.runtime_leases ≡ some lease
unfolding lookup bytes_eq
known_lem = refl

abbrev reopened : Admission
reopened = exclusive (sets_closed false) (exclusive (sets_closed true) known)

lease_kept : lease_key (lease_of reopened (lease_meta user)) ≡ lease_key lease
unfolding exclusive set_admission_closed lookup bytes_eq
lease_kept = refl

drained_clients_stay_out_example : begin_proxy user reopened ≡ false
drained_clients_stay_out_example =
    drained_clients_stay_out {es = writes (sets_closed false) ∷ []} {s = idle known}
      {t = idle reopened} (codes "L") lease user known_lem
      (then_ (written (sets_closed true) (idle known) refl)
        (then_ (written (sets_closed false) (idle (exclusive (sets_closed true) known)) refl) stop))
      (refl, tt) lease_kept

abbrev everybody : RuntimeLease → Bool
everybody _ = true

after_opening_lem : lookup (codes "L") after_opening.runtime_leases ≡ some lease
unfolding opened add_registration remember_runtime_lease insert lookup bytes_eq
after_opening_lem = refl

abbrev banned : Admission
banned = closed user (codes "web") (exclusive (invalidates everybody) after_opening)

revoked_stays_revoked_example :
    (begin_proxy user banned ≡ false)
    × ((existing_runtime (codes "L") (codes "h") banned).1 ≡ false)
unfolding lookup bytes_eq
revoked_stays_revoked_example =
    revoked_stays_revoked {es = closes user (codes "web") ∷ []} {s = idle after_opening}
      {t = idle banned} everybody (codes "L") (codes "h") lease user Runs-IsConsistent_example
      after_opening_lem refl refl
      (then_ (written (invalidates everybody) (idle after_opening) refl) (
        then_
          (unregistered user (codes "web") (idle (exclusive (invalidates everybody) after_opening)))
          stop))
      (refl, tt)
