-- ===== src/Dpi/Decisions.antt =====
-- What the service decides on the findings of the engine, and what it records.
use meow_frp_server.Prelude.{
  ◌≡◌, refl, ap, ◌∙◌, Bool, true, false, not, ◌&&◌, ◌||◌, none, some, List, [], ◌∷◌, map, arith,
  bytes_eq, bytes_eq_iff, Bytes, codes, filter, inl, inr, Bool-cases, Option, Option-cases, ◌==◌,
  length, if◌then◌else◌,
}
use meow_frp_server.Prelude.Library.{TextLibrary}
use meow_frp_server.Inspection.Sample.{TrafficSample, Finding}
use meow_frp_server.Dpi.{
  Event, Action, Action, allow, monitor, block, mode_block, Decision, Policy, Event, EngineResult,
  found, Service, forbidden, record_event, record_all, blocked_by_policy, filter_findings, decide,
  judge, apply_policy, elem, enabled_set, keep_enabled,
}

-- Some entry of the list names the detector, up to space and case; an empty entry names none.
abbrev pub names : TextLibrary → List Bytes → Bytes → Bool
names lib [] detector = false
names lib (d ∷ ds) detector =
    not (bytes_eq (lib.to_lower (lib.trim_space d)) [])
      && bytes_eq (lib.to_lower (lib.trim_space d)) (lib.to_lower detector)
    || names lib ds detector

-- The detectors that a policy can refuse, with whether it allows them.
abbrev pub rules : Policy → List (Bytes × Bool)
rules p =
    (codes "http", p.allow_http)
    ∷ (codes "tls", p.allow_tls)
    ∷ (codes "quic", p.allow_quic)
    ∷ (codes "encrypted_tunnel", p.allow_encrypted_tunnel)
    ∷ []

abbrev pub is_refused : List (Bytes × Bool) → Bytes → Bool
is_refused [] name = false
is_refused ((detector, is_allowed) ∷ rest) name =
    bytes_eq name detector && not is_allowed || is_refused rest name

-- The policy refuses the detector of the finding.
abbrev pub refuses : TextLibrary → Policy → Finding → Bool
refuses lib p f = is_refused (rules p) (lib.to_lower f.detector)

-- Some finding's detector is refused by the policy.
abbrev pub any_refused : TextLibrary → Policy → List Finding → Bool
any_refused lib p [] = false
any_refused lib p (f ∷ fs) = refuses lib p f || any_refused lib p fs

-- The action that a policy asks for on the findings of its detectors.
abbrev pub verdict : TextLibrary → Policy → List Finding → Action
verdict lib p [] = allow
verdict lib p (f ∷ fs) =
    if bytes_eq p.mode mode_block && (p.block_on_any_finding || any_refused lib p (f ∷ fs))
    then block
    else monitor

elem-enabled_set :
    (lib : TextLibrary) (ds : List Bytes) (detector : Bytes)
    → elem (lib.to_lower detector) (enabled_set lib ds) ≡ names lib ds detector
unfolding elem enabled_set
elem-enabled_set lib [] detector = refl
elem-enabled_set lib (d ∷ ds) detector =
    let rest = elem-enabled_set lib ds detector in
    elim (Bool-cases (bytes_eq (lib.to_lower (lib.trim_space d)) [])) [
      | inl e ↦ rw e rest
      | inr e ↦ rw (e, rest) refl
    ]

keep_enabled-filter :
    (lib : TextLibrary) (ds : List Bytes) (fs : List Finding)
    → keep_enabled lib (enabled_set lib ds) fs ≡ filter (λ f. names lib ds f.detector) fs
unfolding keep_enabled filter
keep_enabled-filter lib ds [] = refl
keep_enabled-filter lib ds (f ∷ fs) =
    rw (elem-enabled_set lib ds f.detector, keep_enabled-filter lib ds fs) refl

forbids : Policy → Bytes → Bool
unfolding forbidden
forbids p name = elim (forbidden p name) [ some _ ↦ true | none ↦ false ]

forbids_refused : (p : Policy) (name : Bytes) → forbids p name ≡ is_refused (rules p) name
unfolding forbids forbidden bytes_eq
forbids_refused p name = elim (Bool-cases (bytes_eq name (codes "http"))) [
  | inl e ↦ rw ((bytes_eq_iff name (codes "http")).0 e) (ground arith)
  | inr a ↦ elim (Bool-cases (bytes_eq name (codes "tls"))) [
    | inl e ↦ rw ((bytes_eq_iff name (codes "tls")).0 e) (ground arith)
    | inr b ↦ elim (Bool-cases (bytes_eq name (codes "quic"))) [
      | inl e ↦ rw ((bytes_eq_iff name (codes "quic")).0 e) (ground arith)
      | inr c ↦ rw (a, b, c) (ground arith)
    ]
  ]
]

abbrev blocks : Option (Bytes × Finding) → Bool
blocks o = elim o [ some _ ↦ true | none ↦ false ]

first_or_later :
    (o : Option Bytes) (rest : Option (Bytes × Finding)) (f : Finding)
    → blocks (elim o [ some reason ↦ some (reason, f) | none ↦ rest ])
      ≡ (elim o [ some _ ↦ true | none ↦ false ]) || blocks rest
first_or_later none rest f = refl
first_or_later (some reason) rest f = refl

blocked_iff_refused :
    (lib : TextLibrary) (p : Policy) (fs : List Finding)
    → blocks (blocked_by_policy lib p fs) ≡ any_refused lib p fs
unfolding blocked_by_policy forbids
blocked_iff_refused lib p [] = refl
blocked_iff_refused lib p (f ∷ fs) =
    let name = lib.to_lower f.detector in
    first_or_later (forbidden p name) (blocked_by_policy lib p fs) f
    ∙ ap (λ b. b || blocks (blocked_by_policy lib p fs)) (forbids_refused p name)
    ∙ ap (λ b. refuses lib p f || b) (blocked_iff_refused lib p fs)

decide-action :
    (lib : TextLibrary) (p : Policy) (f : Finding) (fs : List Finding)
    → (decide lib p f fs).action ≡ (
        if bytes_eq p.mode mode_block
          && (p.block_on_any_finding || blocks (blocked_by_policy lib p (f ∷ fs)))
        then block
        else monitor)
unfolding decide
decide-action lib p f fs = elim (Bool-cases (bytes_eq p.mode mode_block)) [
  | inr m ↦ rw (m, decide) refl
  | inl m ↦ elim (Option-cases (blocked_by_policy lib p (f ∷ fs))) [
    | inl e ↦ elim (Bool-cases p.block_on_any_finding) [
      | inl a ↦ rw (m, decide) (rw (e, a) refl)
      | inr a ↦ rw (m, decide) (rw (e, a) refl)
    ]
    | inr (x, e) ↦ elim (Bool-cases p.block_on_any_finding) [
      | inl a ↦ rw (m, decide) (rw (e, a) refl)
      | inr a ↦ rw (m, decide) (rw (e, a) refl)
    ]
  ]
]

decide-findings :
    (lib : TextLibrary) (p : Policy) (f : Finding) (fs : List Finding)
    → (decide lib p f fs).findings ≡ f ∷ fs
unfolding decide
decide-findings lib p f fs = ground arith

decide-verdict :
    (lib : TextLibrary) (p : Policy) (f : Finding) (fs : List Finding)
    → ((decide lib p f fs).action ≡ verdict lib p (f ∷ fs))
      × ((decide lib p f fs).findings ≡ f ∷ fs)
decide-verdict lib p f fs = (
  decide-action lib p f fs
      ∙ ap
          (λ b.
            if bytes_eq p.mode mode_block && (p.block_on_any_finding || b) then block else monitor)
          (blocked_iff_refused lib p (f ∷ fs)),
  decide-findings lib p f fs,
)

abbrev pub reported : Event → Finding × Action
reported e = (e.finding, e.action)

abbrev pub with_action : Action → Finding → Finding × Action
with_action a f = (f, a)

-- The findings of the events with the actions that they carry.
recorded :
    (s : Service) (sample : TrafficSample) (d : Decision) (fs : List Finding)
    → map reported (record_all s sample d fs)
      ≡ (if s.events_paused || not s.has_event_sink then [] else map (with_action d.action) fs)
unfolding record_all record_event
recorded s sample d [] = ground arith
recorded s sample d (f ∷ fs) = ground (arith, recorded s sample d fs)

judged :
    (lib : TextLibrary) (s : Service) (sample : TrafficSample) (p : Policy) (kept : List Finding)
    → let r = judge lib s sample p kept in
      (r.0.action ≡ verdict lib p kept)
      × (r.0.findings ≡ kept)
      × (map reported r.1 ≡ (
          if s.events_paused || not s.has_event_sink
          then []
          else map (with_action r.0.action) kept))
unfolding judge
judged lib s sample p [] = (refl, refl, ground arith)
judged lib s sample p (f ∷ fs) =
    let d = decide lib p f fs in
    let v = decide-verdict lib p f fs in (v.0, v.1, recorded s sample d (f ∷ fs))

-- An enabled policy with detectors considers the findings whose detector it names, up to space and case. It
-- allows a sample with none of these; with some, it blocks it if its mode is to block and it blocks on any
-- finding or refuses the detector of one of these, and monitors it otherwise. The events are these findings
-- in order, each with the action taken, and none while events are paused or there is no sink.
pub apply_policy-verdict :
    (lib : TextLibrary) (engine : TrafficSample → EngineResult) (s : Service)
    (sample : TrafficSample) (p : Policy) (fs : List Finding)
    → p.enabled ≡ true
    → (length p.enabled_detectors == 0) ≡ false
    → engine sample ≡ found fs
    → let kept = filter (λ f. names lib p.enabled_detectors f.detector) fs in
      let r = apply_policy lib engine s sample p in
      (r.0.action ≡ verdict lib p kept)
      × (r.0.findings ≡ kept)
      × (map reported r.1 ≡ (
          if s.events_paused || not s.has_event_sink
          then []
          else map (with_action r.0.action) kept))
unfolding apply_policy filter_findings
apply_policy-verdict lib engine s sample p fs e n h =
    let opens : (not p.enabled || length p.enabled_detectors == 0) ≡ false = ground arith in
    let kept = keep_enabled-filter lib p.enabled_detectors fs in
    rw (opens, apply_policy)
      (rw (h, apply_policy)
        (rw kept
          (judged lib s sample p (filter (λ f. names lib p.enabled_detectors f.detector) fs))))
