-- ===== src/Tests/Policies.antt =====
-- The service of internal/dpi/service.go on concrete samples.
use meow_frp_server.Prelude.{
  filter, true, false, not, ◌||◌, [], ◌∷◌, ◌≡◌, ◌≢◌, refl, codes, map, if◌then◌else◌,
}
use meow_frp_server.Prelude.Table.{lookup}
use meow_frp_server.Inspection.Sample.{TrafficSample, Finding}
use meow_frp_server.Dpi.Decisions.{apply_policy-verdict, verdict, names, reported, with_action}
use meow_frp_server.Dpi.Outage.{outage_blocks, outage_freezes_policy, inspect_all}
use meow_frp_server.Dpi.{
  Service, Policy, policy, EngineResult, found, block, default_policy, apply_policy, inspect,
  completed, set_provider_unavailable,
}
use meow_frp_server.Tests.Samples.{plain_text, sample}

abbrev http_found : Finding
http_found = record {
  detector = codes "http";
  protocol = codes "HTTP";
  host = codes "a.io";
  sni = [];
  target_ip = [];
  confidence = 90;
  summary = [];
}

abbrev engine : TrafficSample → EngineResult
engine _ = found (http_found ∷ [])

abbrev strict : Policy
strict = record default_policy { enabled = true; mode = codes "block"; allow_http = false }

abbrev service : Service
service = record {
  provider_unavailable = false;
  events_paused = false;
  lease_policies = [];
  policy_provider = λ _. policy strict;
  has_event_sink = true;
}

apply_policy-verdict_example :
    let kept =
      filter (λ f. names plain_text strict.enabled_detectors f.detector) (http_found ∷ []) in
    let r = apply_policy plain_text engine service sample strict in
    (r.0.action ≡ verdict plain_text strict kept)
    × (r.0.findings ≡ kept)
    × (map reported r.1 ≡ (
        if service.events_paused || not service.has_event_sink
        then []
        else map (with_action r.0.action) kept))
apply_policy-verdict_example =
    apply_policy-verdict plain_text engine service sample strict (http_found ∷ []) refl refl refl

outage_blocks_example :
    let during =
      inspect_all plain_text engine
        ((10, sample) ∷ [])
        (set_provider_unavailable true true service) in
    let r = inspect plain_text engine 11 sample during in
    let after = set_provider_unavailable false true r.0 in
    let r' = inspect plain_text engine 12 sample after in
    (r.1.action ≡ block)
    × (r.2 ≡ [])
    × ((r'.1, r'.2) ≡ apply_policy plain_text engine after (completed plain_text 12 sample) strict)
unfolding lookup
outage_blocks_example =
    outage_blocks plain_text engine 11 12 sample ((10, sample) ∷ []) true true service strict refl
      refl

has_lease : sample.flow.lease_id ≢ []
has_lease e = cc

outage_freezes_policy_example :
    let s' = set_provider_unavailable true true (inspect plain_text engine 9 sample service).0 in
    let r =
      inspect plain_text engine 11 sample (inspect_all plain_text engine ((10, sample) ∷ []) s') in
    (r.1, r.2) ≡ apply_policy plain_text engine s' (completed plain_text 11 sample) strict
outage_freezes_policy_example =
    outage_freezes_policy plain_text engine 9 11 sample sample ((10, sample) ∷ []) true service
      strict refl has_lease refl refl
