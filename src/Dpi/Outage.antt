-- ===== src/Dpi/Outage.antt =====
-- What the service does while the policy provider is unavailable.
use meow_frp_server.Prelude.{
  ℕ, ◌≡◌, ◌≢◌, refl, sym, ap, ◌∙◌, Bool, true, false, none, some, List, [], ◌∷◌, arith,
  bytes_eq_iff,
}
use meow_frp_server.Prelude.Library.{TextLibrary}
use meow_frp_server.Prelude.Table.{lookup, lookup-insert}
use meow_frp_server.Inspection.Sample.{TrafficSample}
use meow_frp_server.Dpi.{
  block, Policy, policy, EngineResult, Service, set_provider_unavailable, save_policy, apply_policy,
  completed, current_policy, saved_policy, inspect,
}

-- An inspection during an outage changes no state.
outage_keeps :
    (lib : TextLibrary) (engine : TrafficSample → EngineResult) (clock : ℕ) (raw : TrafficSample)
    (s : Service)
    → s.provider_unavailable ≡ true
    → (inspect lib engine clock raw s).0 ≡ s
unfolding inspect current_policy
outage_keeps lib engine clock raw s h = rw (h, current_policy)

refused :
    (lib : TextLibrary) (engine : TrafficSample → EngineResult) (clock : ℕ) (raw : TrafficSample)
    (s : Service)
    → s.provider_unavailable ≡ true
    → lookup raw.flow.lease_id s.lease_policies ≡ none
    → let r = inspect lib engine clock raw s in (r.1.action ≡ block) × (r.2 ≡ [])
unfolding inspect current_policy saved_policy completed
refused lib engine clock raw s h e = ground arith

-- While the provider is there, its policy is what a sample is judged by.
judged_by :
    (lib : TextLibrary) (engine : TrafficSample → EngineResult) (clock : ℕ) (raw : TrafficSample)
    (s : Service) (p : Policy)
    → s.provider_unavailable ≡ false
    → s.policy_provider raw.flow ≡ policy p
    → let r = inspect lib engine clock raw s in
      (r.1, r.2) ≡ apply_policy lib engine s (completed lib clock raw) p
unfolding inspect current_policy completed
judged_by lib engine clock raw s p h e = ground arith

frozen :
    (lib : TextLibrary) (engine : TrafficSample → EngineResult) (clock : ℕ) (raw : TrafficSample)
    (s : Service) (p : Policy)
    → s.provider_unavailable ≡ true
    → raw.flow.lease_id ≢ []
    → lookup raw.flow.lease_id s.lease_policies ≡ some p
    → let r = inspect lib engine clock raw s in
      (r.1, r.2) ≡ apply_policy lib engine s (completed lib clock raw) p
unfolding inspect current_policy saved_policy completed
frozen lib engine clock raw s p h n e = ground (arith, bytes_eq_iff raw.flow.lease_id [])

-- The inspections of a series of samples, each with its clock.
unfoldable pub inspect_all :
    TextLibrary → (TrafficSample → EngineResult) → List (ℕ × TrafficSample) → Service → Service
inspect_all lib engine [] s = s
inspect_all lib engine ((clock, raw) ∷ rest) s =
    inspect_all lib engine rest (inspect lib engine clock raw s).0

outage_keeps_all :
    (lib : TextLibrary) (engine : TrafficSample → EngineResult) (series : List (ℕ × TrafficSample))
    (s : Service)
    → s.provider_unavailable ≡ true
    → inspect_all lib engine series s ≡ s
unfolding inspect_all
outage_keeps_all lib engine [] s h = refl
outage_keeps_all lib engine ((clock, raw) ∷ rest) s h =
    ap (inspect_all lib engine rest) (outage_keeps lib engine clock raw s h)
    ∙ outage_keeps_all lib engine rest s h

-- A lease that no policy is saved for when an outage begins is blocked all through it, whatever it sends and
-- however many samples of whatever leases are inspected in between, and nothing is recorded; once the
-- provider is back, the lease is judged by the policy that the provider gives for it.
pub outage_blocks :
    (lib : TextLibrary) (engine : TrafficSample → EngineResult) (clock later : ℕ)
    (raw : TrafficSample) (series : List (ℕ × TrafficSample)) (pause pause' : Bool) (s : Service)
    (p : Policy)
    → lookup raw.flow.lease_id s.lease_policies ≡ none
    → s.policy_provider raw.flow ≡ policy p
    → let during = inspect_all lib engine series (set_provider_unavailable true pause s) in
      let r = inspect lib engine clock raw during in
      let after = set_provider_unavailable false pause' r.0 in
      let r' = inspect lib engine later raw after in
      (r.1.action ≡ block)
      × (r.2 ≡ [])
      × ((r'.1, r'.2) ≡ apply_policy lib engine after (completed lib later raw) p)
unfolding set_provider_unavailable
outage_blocks lib engine clock later raw series pause pause' s p e g =
    let out = set_provider_unavailable true pause s in
    let kept : inspect_all lib engine series out ≡ out =
      outage_keeps_all lib engine series out refl in
    let same : (inspect lib engine clock raw out).0 ≡ out =
      outage_keeps lib engine clock raw out refl in
    let now = refused lib engine clock raw out refl e in
    let back = set_provider_unavailable false pause' out in
    let after = judged_by lib engine later raw back p refl g in
    rw kept (now.0, now.1, rw same after)

inspect_saves :
    (lib : TextLibrary) (engine : TrafficSample → EngineResult) (clock : ℕ) (raw : TrafficSample)
    (s : Service) (p : Policy)
    → s.provider_unavailable ≡ false
    → raw.flow.lease_id ≢ []
    → s.policy_provider raw.flow ≡ policy p
    → lookup raw.flow.lease_id (inspect lib engine clock raw s).0.lease_policies ≡ some p
unfolding inspect current_policy completed save_policy
inspect_saves lib engine clock raw s p h n e = ground (
  arith,
  bytes_eq_iff raw.flow.lease_id [],
  bytes_eq_iff raw.flow.lease_id raw.flow.lease_id,
  lookup-insert raw.flow.lease_id raw.flow.lease_id p s.lease_policies,
)

-- A lease with an id, whose provider gave `p` when it was inspected right before an outage, is judged by `p` all
-- through it, however many samples of whatever leases are inspected in between.
pub outage_freezes_policy :
    (lib : TextLibrary) (engine : TrafficSample → EngineResult) (clock later : ℕ)
    (raw next : TrafficSample) (series : List (ℕ × TrafficSample)) (pause : Bool) (s : Service)
    (p : Policy)
    → s.provider_unavailable ≡ false
    → raw.flow.lease_id ≢ []
    → next.flow.lease_id ≡ raw.flow.lease_id
    → s.policy_provider raw.flow ≡ policy p
    → let s' = set_provider_unavailable true pause (inspect lib engine clock raw s).0 in
      let r = inspect lib engine later next (inspect_all lib engine series s') in
      (r.1, r.2) ≡ apply_policy lib engine s' (completed lib later next) p
unfolding set_provider_unavailable
outage_freezes_policy lib engine clock later raw next series pause s p h n same e =
    let s' = set_provider_unavailable true pause (inspect lib engine clock raw s).0 in
    let saved : lookup next.flow.lease_id s'.lease_policies ≡ some p =
      rw same (inspect_saves lib engine clock raw s p h n e) in
    let kept = outage_keeps_all lib engine series s' refl in
    rw kept (frozen lib engine later next s' p refl (λ empty. n (sym same ∙ empty)) saved)
