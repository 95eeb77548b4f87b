-- ===== src/Manager/Admission/Schedule.antt =====
-- The interleavings of admission.go: what the read and write locks of `admissionMu` let happen.
-- `RegisterProxy` of the FRP server holds the read lock from a granted `Begin` until it returns,
-- whether it called `Opened` or failed; `Closed` and `RememberRuntimeLease` take only `mu`.
use meow_frp_server.Prelude.{ℕ, Bool, true, false, List, [], ◌∷◌, ◌≡◌, Bytes}
use meow_frp_server.Manager.Types.{RuntimeLease}
use meow_frp_server.Manager.Admission.{
  Admission, UserInfo, begin_proxy, opened, closed, remember_runtime_lease, set_admission_closed,
  pause_admission, finish_client_drain, invalidate_runtime,
}
use meow_frp_server.Manager.Admission.Counts.{MayRemember}
pub mod Bookkeeping
pub mod Fence
pub mod Draining
pub mod Revocation

-- The admission state, and the users that hold the read lock.
pub record System : Type 0 where
  pub admission : Admission
  pub in_flight : List UserInfo

-- The methods that hold the write lock.
pub data Exclusive : Type 0 where
  sets_closed : Bool → Exclusive
  pauses : Exclusive
  finishes : ℕ → Bytes → Exclusive
  invalidates : (RuntimeLease → Bool) → Exclusive

unfoldable pub exclusive : Exclusive → Admission → Admission
exclusive (sets_closed b) = set_admission_closed b
exclusive pauses = pause_admission
exclusive (finishes token_id client_id) = finish_client_drain token_id client_id
exclusive (invalidates match) = invalidate_runtime match

pub data Event : Type 0 where
  begins : UserInfo → Event
  opens : UserInfo → Bytes → Event
  fails : UserInfo → Event
  closes : UserInfo → Bytes → Event
  remembers : RuntimeLease → Event
  writes : Exclusive → Event

-- One of the holders of the read lock returns.
pub data Leaves (u : UserInfo) : List UserInfo → List UserInfo → Type 0 where
  here : {us : List UserInfo} → Leaves u (u ∷ us) us
  there : {w : UserInfo} {us vs : List UserInfo} → Leaves u us vs → Leaves u (w ∷ us) (w ∷ vs)

pub data Step : Event → System → System → Type 0 where
  begun :
      (u : UserInfo) (s : System)
      → begin_proxy u s.admission ≡ true
      → Step (begins u) s (record s { in_flight = u ∷ s.in_flight })
  registered :
      (u : UserInfo) (name : Bytes) (s : System) (rest : List UserInfo)
      → Leaves u s.in_flight rest
      → Step (opens u name) s (record { admission = opened u name s.admission; in_flight = rest })
  failed :
      (u : UserInfo) (s : System) (rest : List UserInfo)
      → Leaves u s.in_flight rest
      → Step (fails u) s (record s { in_flight = rest })
  unregistered :
      (u : UserInfo) (name : Bytes) (s : System)
      → Step (closes u name) s (record s { admission = closed u name s.admission })
  remembered :
      (l : RuntimeLease) (s : System)
      → MayRemember l s.admission
      → Step (remembers l) s (record s { admission = remember_runtime_lease l s.admission })
  written :
      (x : Exclusive) (s : System)
      → s.in_flight ≡ []
      → Step (writes x) s (record s { admission = exclusive x s.admission })

pub data Runs : List Event → System → System → Type 0 where
  stop : {s : System} → Runs [] s s
  then_ :
      {e : Event} {es : List Event} {s t u : System} → Step e s t → Runs es t u → Runs (e ∷ es) s u

-- Every event of a run passes a test.
abbrev pub AllEvents : (Event → Bool) → List Event → Type 0
AllEvents p [] = Unit
AllEvents p (e ∷ es) = (p e ≡ true) × AllEvents p es
