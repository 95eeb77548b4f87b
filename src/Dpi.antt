-- ===== src/Dpi.antt =====
-- internal/dpi/service.go: the policy of a user decides what becomes of the findings of the engine.
-- The engine, the policy provider and the event sink are interfaces of the source: the service holds
-- the provider as a function, the engine is an argument, and what reaches the sink is returned.
use meow_frp_server.Prelude.{
  ℕ, Bool, true, false, not, ◌&&◌, ◌||◌, Option, none, some, List, [], ◌∷◌, ◌++◌, Bytes, codes,
  bytes_eq, ◌==◌, length, if◌then◌else◌,
}
use meow_frp_server.Prelude.Library.{TextLibrary}
use meow_frp_server.Prelude.Table.{Table, lookup, insert}
use meow_frp_server.Inspection.Sample.{FlowContext, TrafficSample, Finding}
mod Types
pub use Types.*
pub mod Decisions
pub mod Outage

-- `SetPolicyProvider`
unfoldable pub set_policy_provider : Option (FlowContext → PolicyResult) → Service → Service
set_policy_provider none s = s
set_policy_provider (some p) s = record s { policy_provider = p }

-- `SetEventSink`
unfoldable pub set_event_sink : Bool → Service → Service
set_event_sink sink s = record s { has_event_sink = sink }

-- `SetProviderUnavailable`
unfoldable pub set_provider_unavailable : Bool → Bool → Service → Service
set_provider_unavailable unavailable pause_events s = record s {
  provider_unavailable = unavailable;
  events_paused = unavailable && pause_events;
}

unfoldable pub save_policy : Bytes → Policy → Service → Service
save_policy lease_id p s = record s { lease_policies = insert lease_id p s.lease_policies }

-- `PrimeLease`
unfoldable pub prime_lease : FlowContext → Service → Service
prime_lease flow s = if bytes_eq flow.lease_id [] then s else elim (s.policy_provider flow) [
  | policy p ↦ save_policy flow.lease_id p s
  | synchronizing ↦ s
  | failed ↦ s
]

-- `DefaultPolicy`
abbrev pub default_policy : Policy
default_policy = record {
  user_id = 0;
  enabled = false;
  mode = mode_monitor;
  enabled_detectors = codes "http" ∷ codes "tls" ∷ codes "quic" ∷ codes "encrypted_tunnel" ∷ [];
  block_on_any_finding = false;
  allow_http = true;
  allow_tls = true;
  allow_quic = true;
  allow_encrypted_tunnel = true;
  max_inspect_bytes = 8192;
  temporary_block_ttl = 120;
  encrypted_tunnel_mode = mode_monitor;
}

-- `StaticPolicyProvider.GetPolicy`
unfoldable pub static_policy : Policy → FlowContext → PolicyResult
static_policy p flow = policy (
    if p.max_inspect_bytes == 0
    then record p {
      max_inspect_bytes = default_policy.max_inspect_bytes;
      temporary_block_ttl = default_policy.temporary_block_ttl;
    }
    else p)

-- `NewService`; a nil engine is the engine that finds nothing.
unfoldable pub new_service : Option (FlowContext → PolicyResult) → Bool → Service
new_service provider sink = record {
  provider_unavailable = false;
  events_paused = false;
  lease_policies = [];
  policy_provider = elim provider [ some p ↦ p | none ↦ static_policy default_policy ];
  has_event_sink = sink;
}

-- `NoopEngine`
abbrev pub noop_engine : TrafficSample → EngineResult
noop_engine _ = found []

abbrev pub blank_decision : Action → Bytes → Decision
blank_decision action reason = record {
  action = action;
  reason = reason;
  finding = none;
  findings = [];
}

-- `Allow`
abbrev pub allowed : Decision
allowed = blank_decision allow []

-- The text of `ErrPolicySynchronizing`.
abbrev pub synchronizing_text : Bytes
synchronizing_text = codes "identity policy synchronization in progress"

-- One finding: its detector, in lower case, may be forbidden by the policy.
unfoldable pub forbidden : Policy → Bytes → Option Bytes
forbidden p detector =
    if bytes_eq detector (codes "http")
    then if not p.allow_http then some (codes "http is blocked by user dpi policy") else none
    else if bytes_eq detector (codes "tls")
    then if not p.allow_tls then some (codes "tls is blocked by user dpi policy") else none
    else if bytes_eq detector (codes "quic")
    then if not p.allow_quic then some (codes "quic is blocked by user dpi policy") else none
    else if bytes_eq detector (codes "encrypted_tunnel")
    then if not p.allow_encrypted_tunnel
      then some (codes "encrypted tunnel is blocked by user dpi policy")
      else none
    else none

-- `record`: what reaches the sink.
unfoldable pub record_event : Service → TrafficSample → Decision → Finding → List Event
record_event s sample d f =
    if s.events_paused || not s.has_event_sink
    then []
    else record {
      flow = sample.flow;
      direction = sample.direction;
      action = d.action;
      reason = d.reason;
      finding = f;
      observed_at = sample.observed_at;
    }
      ∷ []

-- `for _, finding := range findings { s.record(…) }`
unfoldable pub record_all : Service → TrafficSample → Decision → List Finding → List Event
record_all s sample d [] = []
record_all s sample d (f ∷ fs) = record_event s sample d f ++ record_all s sample d fs

unfoldable pub elem : Bytes → List Bytes → Bool
elem k [] = false
elem k (x ∷ xs) = bytes_eq x k || elem k xs

module _ (lib : TextLibrary) where
  open lib use {trim_space, to_lower}

  -- `blockedByPolicy`
  unfoldable pub blocked_by_policy : Policy → List Finding → Option (Bytes × Finding)
  blocked_by_policy p [] = none
  blocked_by_policy p (f ∷ fs) = elim (forbidden p (to_lower f.detector)) [
    | some reason ↦ some (reason, f)
    | none ↦ blocked_by_policy p fs
  ]

  -- The set `enabled` of `filterFindings`.
  unfoldable pub enabled_set : List Bytes → List Bytes
  enabled_set [] = []
  enabled_set (d ∷ ds) =
      let name = to_lower (trim_space d) in
      if bytes_eq name [] then enabled_set ds else name ∷ enabled_set ds

  unfoldable pub keep_enabled : List Bytes → List Finding → List Finding
  unfolding elem
  keep_enabled enabled [] = []
  keep_enabled enabled (f ∷ fs) =
      if elem (to_lower f.detector) enabled
      then f ∷ keep_enabled enabled fs
      else keep_enabled enabled fs

  -- `filterFindings`
  unfoldable pub filter_findings : List Finding → List Bytes → List Finding
  filter_findings fs detectors = keep_enabled (enabled_set detectors) fs

  -- The decision on findings that are left, with the first of them.
  unfoldable pub decide : Policy → Finding → List Finding → Decision
  decide p first rest =
      let findings = first ∷ rest in
      let observed : Decision = record {
        action = monitor;
        reason = codes "dpi finding observed";
        finding = some first;
        findings = findings;
      } in
      if bytes_eq p.mode mode_block
      then elim (blocked_by_policy p findings) [
        | some (reason, f) ↦ record observed { action = block; reason = reason; finding = some f }
        | none ↦
            if p.block_on_any_finding
            then record observed { action = block; reason = codes "blocked by dpi policy" }
            else observed
      ]
      else observed

  judge : Service → TrafficSample → Policy → List Finding → Decision × List Event
  judge s sample p [] = (allowed, [])
  judge s sample p (f ∷ fs) = let d = decide p f fs in (d, record_all s sample d (f ∷ fs))

  -- `Inspect` from the call of the engine on.
  unfoldable pub apply_policy :
      (TrafficSample → EngineResult) → Service → TrafficSample → Policy → Decision × List Event
  unfolding judge
  apply_policy engine s sample p =
      if not p.enabled || length p.enabled_detectors == 0
      then (allowed, [])
      else elim (engine sample) [
        | engine_error text ↦
            let d = blank_decision monitor (codes "dpi engine error: " ++ text) in
            (
              d,
              record_event s sample d (record {
                detector = codes "engine";
                protocol = [];
                host = [];
                sni = [];
                target_ip = [];
                confidence = 0;
                summary = d.reason;
              }),
            )
        | found fs ↦ judge s sample p (filter_findings fs p.enabled_detectors)
      ]

  -- The defaults that `Inspect` fills in.
  unfoldable pub completed : ℕ → TrafficSample → TrafficSample
  completed clock sample = record sample {
    observed_at = if sample.observed_at == 0 then clock else sample.observed_at;
    payload_length =
        if sample.payload_length == 0 then length sample.payload else sample.payload_length;
    captured_length =
        if sample.captured_length == 0 then length sample.payload else sample.captured_length;
  }

  -- The policy that `Inspect` asks for.
  unfoldable pub current_policy : Service → FlowContext → PolicyResult
  current_policy s flow = if s.provider_unavailable then synchronizing else s.policy_provider flow

  -- What an error leaves: the policy saved for the lease, or the error.
  unfoldable pub saved_policy : Service → FlowContext → PolicyResult → PolicyResult
  saved_policy s flow error =
      if bytes_eq flow.lease_id []
      then error
      else elim (lookup flow.lease_id s.lease_policies) [ some p ↦ policy p | none ↦ error ]

  finish :
      (TrafficSample → EngineResult)
      → Service
      → TrafficSample
      → PolicyResult
      → Decision × List Event
  finish engine s sample (policy p) = apply_policy engine s sample p
  finish engine s sample synchronizing = (blank_decision block synchronizing_text, [])
  finish engine s sample failed = (allowed, [])

  -- `Inspect`: the new state, the decision and what reaches the sink.
  unfoldable pub inspect :
      (TrafficSample → EngineResult) → ℕ → TrafficSample → Service → Service × Decision × List Event
  unfolding finish
  inspect engine clock raw s =
      let sample = completed clock raw in
      elim (current_policy s sample.flow) [
        | policy p ↦
            let r = finish engine s sample (policy p) in
            (
              if bytes_eq sample.flow.lease_id [] then s else save_policy sample.flow.lease_id p s,
              r.0,
              r.1,
            )
        | synchronizing ↦
            let r = finish engine s sample (saved_policy s sample.flow synchronizing) in
            (s, r.0, r.1)
        | failed ↦
            let r = finish engine s sample (saved_policy s sample.flow failed) in (s, r.0, r.1)
      ]
