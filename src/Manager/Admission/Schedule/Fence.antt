-- ===== src/Manager/Admission/Schedule/Fence.antt =====
-- The counts of open proxies while the admission is closed.
use meow_frp_server.Prelude.{
  ℕ, ◌≤◌, Bool, true, false, not, List, [], ◌∷◌, ◌≡◌, refl, ◌∙◌, inl, inr, arith, Bytes,
  Option-cases,
}
use native.Mathlib.Nat.{le_refl, le_trans}
use meow_frp_server.Prelude.Table.{lookup, get_or}
use meow_frp_server.Manager.Admission.{
  Admission, UserInfo, lease_key, lease_of, begin_proxy, closed, registration_key,
  remember_runtime_lease, set_admission_closed, pause_admission, finish_client_drain,
  invalidate_runtime, remove_proxy_count,
}
use meow_frp_server.Manager.Admission.Counts.{get_or-decrement}
use meow_frp_server.Manager.Admission.Schedule.{
  System, Event, Step, begun, registered, failed, unregistered, remembered, written, Runs, stop,
  then_, Leaves, Exclusive, sets_closed, pauses, finishes, invalidates, exclusive, writes,
  AllEvents,
}
use meow_frp_server.Manager.Admission.Schedule.Bookkeeping.{closed_leases}

abbrev pub open_count : Bytes → Admission → ℕ
open_count key a = get_or key 0 a.proxy_counts

-- The event that opens admission again.
abbrev pub reopens : Event → Bool
reopens (writes (sets_closed b)) = not b
reopens _ = false

-- The events that close admission.
abbrev pub fences : Exclusive → Bool
fences (sets_closed b) = b
fences pauses = true
fences _ = false

closed_count-le :
    (u : UserInfo) (name key : Bytes) (a : Admission)
    → open_count key (closed u name a) ≤ open_count key a
unfolding closed remove_proxy_count
closed_count-le u name key a =
    elim (Option-cases (lookup (registration_key u name) a.registered_proxies)) [
      | inl e ↦ rw (e, closed) (le_refl _)
      | inr (id, e) ↦
          rw (e, closed)
            (omega (arith, get_or-decrement (lease_key (lease_of a id)) key a.proxy_counts))
    ]

exclusive_count :
    (x : Exclusive) (key : Bytes) (a : Admission)
    → open_count key (exclusive x a) ≡ open_count key a
unfolding exclusive set_admission_closed pause_admission finish_client_drain invalidate_runtime
exclusive_count (sets_closed b) key a = ground arith
exclusive_count pauses key a = refl
exclusive_count (finishes t c) key a = ground arith
exclusive_count (invalidates match) key a = refl

exclusive_closed :
    (x : Exclusive) (a : Admission)
    → a.admission_closed ≡ true
    → reopens (writes x) ≡ false
    → (exclusive x a).admission_closed ≡ true
unfolding exclusive set_admission_closed pause_admission finish_client_drain invalidate_runtime
exclusive_closed (sets_closed b) a h n = ground arith
exclusive_closed pauses a h n = refl
exclusive_closed (finishes t c) a h n = ground arith
exclusive_closed (invalidates match) a h n = h

begin_proxy_closed :
    (u : UserInfo) (a : Admission) → a.admission_closed ≡ true → begin_proxy u a ≡ false
unfolding begin_proxy
begin_proxy_closed u a h = ground arith

-- Closed, with no registration under way.
record IsFenced (s : System) : Type 0 where
  shut : s.admission.admission_closed ≡ true
  idle : s.in_flight ≡ []

abbrev CountsFall : System → System → Type 0
CountsFall s t = (key : Bytes) → open_count key t.admission ≤ open_count key s.admission

nobody_Leaves : {u : UserInfo} {us rest : List UserInfo} → Leaves u us rest → us ≡ [] → ⊥
nobody_Leaves Leaves.here e = cc
nobody_Leaves (Leaves.there l) e = cc

Step-IsFenced :
    {e : Event} {s t : System}
    → Step e s t
    → reopens e ≡ false
    → IsFenced s
    → IsFenced t × CountsFall s t
Step-IsFenced (begun u s h) n f =
    let no_entry = begin_proxy_closed u s.admission f.shut in absurd (ground (arith, no_entry))
Step-IsFenced (registered u name s rest l) n f = absurd (nobody_Leaves l f.idle)
Step-IsFenced (failed u s rest l) n f = absurd (nobody_Leaves l f.idle)
Step-IsFenced (unregistered u name s) n f = (
  record { shut = (closed_leases u name s.admission).1 ∙ f.shut; idle = f.idle },
  λ key. closed_count-le u name key s.admission,
)
Step-IsFenced (remembered l s m) n f =
    unfold remember_runtime_lease in (record { shut = f.shut; idle = f.idle }, λ key. le_refl _)
Step-IsFenced (written x s i) n f = (
  record { shut = exclusive_closed x s.admission f.shut n; idle = f.idle },
  λ key. rw (exclusive_count x key s.admission) (le_refl _),
)

Runs-IsFenced :
    {es : List Event} {s t : System}
    → Runs es s t
    → AllEvents (λ e. not (reopens e)) es
    → IsFenced s
    → IsFenced t × CountsFall s t
Runs-IsFenced stop n f = (f, λ key. le_refl _)
Runs-IsFenced (then_ {e} st r) n f =
    let (g, fall) = Step-IsFenced st (ground (arith, n.0)) f in
    let (h, falls) = Runs-IsFenced r n.1 g in (h, λ key. le_trans (falls key) (fall key))

exclusive-fences :
    (x : Exclusive) (a : Admission) → fences x ≡ true → (exclusive x a).admission_closed ≡ true
unfolding exclusive set_admission_closed pause_admission
exclusive-fences (sets_closed b) a h = ground arith
exclusive-fences pauses a h = refl
exclusive-fences (finishes t c) a h = cc
exclusive-fences (invalidates match) a h = cc

-- Once `SetAdmissionClosed(true)` or `PauseAdmission` has got the write lock, and until admission
-- is opened again, no registration is under way and no client's count of open proxies grows.
pub fenced_counts_fall :
    {es : List Event} {s t : System} (x : Exclusive) (key : Bytes)
    → fences x ≡ true
    → Runs (writes x ∷ es) s t
    → AllEvents (λ e. not (reopens e)) es
    → (t.in_flight ≡ []) × (open_count key t.admission ≤ open_count key s.admission)
fenced_counts_fall x key f (then_ (written _ s i) r) n =
    let start : IsFenced (record s { admission = exclusive x s.admission }) = record {
      shut = exclusive-fences x s.admission f;
      idle = i;
    } in
    let (h, falls) = Runs-IsFenced r n start in
    (h.idle, le_trans (falls key) (rw (exclusive_count x key s.admission) (le_refl _)))
