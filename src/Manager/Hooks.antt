-- ===== src/Manager/Hooks.antt =====
-- The traffic hooks of internal/frpcore/manager.go, from the FRP fork to the inspector, and what the
-- traffic counters say.
use meow_frp_server.Prelude.{
  ℕ, ◌+◌, ◌%◌, ◌<◌, ◌≡◌, refl, ap, ◌∙◌, inl, inr, false, Option, none, some, List, [], ◌∷◌, arith,
  Bytes, bytes_eq, bytes_eq_iff, ◌==◌, length, Bool-cases, if◌then◌else◌,
}
use meow_frp_server.Prelude.Library.{TextLibrary}
use meow_frp_server.Prelude.Table.{Table}
use meow_frp_server.Dpi.{Action, Decision, EngineResult, Event, Service, allowed, inspect}
use meow_frp_server.Inspection.Sample.{TrafficSample, inbound, outbound}
use meow_frp_server.Manager.Tracking.{Tracking, uint64, count_traffic, feed_traffic_sample}
use meow_frp_server.Manager.Types.{ProxyBinding, TrafficSnapshot}

-- `dpihook.TrafficSample` of the FRP fork with its flow, the fields that the manager reads.
pub record HookSample : Type 0 where
  pub lease_id : Bytes
  pub proxy_name : Bytes
  pub proxy_type : Bytes
  pub local_addr : Bytes
  pub remote_addr : Bytes
  pub user : Bytes
  pub metas : Table Bytes
  pub direction : Bytes
  pub payload : Bytes
  pub payload_length : ℕ
  pub captured_length : ℕ
  pub observed_at : ℕ

-- `fromHookSample`
unfoldable pub from_hook_sample : HookSample → TrafficSample
from_hook_sample h = record {
  flow = record {
    user_id = 0;
    token_id = 0;
    client_id = [];
    lease_id = h.lease_id;
    proxy_name = h.proxy_name;
    proxy_type = h.proxy_type;
    remote_port = 0;
    local_addr = h.local_addr;
    remote_addr = h.remote_addr;
    user = h.user;
    metas = h.metas;
  };
  direction = h.direction;
  payload = h.payload;
  payload_length = h.payload_length;
  captured_length = h.captured_length;
  observed_at = h.observed_at;
}

-- `SampleForBinding`
unfoldable pub sample_for_binding : ProxyBinding → Bytes → Bytes → Bytes → Bytes → TrafficSample
sample_for_binding b direction payload local_addr remote_addr = record {
  flow = record {
    user_id = b.user_id;
    token_id = b.token_id;
    client_id = b.client_id;
    lease_id = b.lease_id;
    proxy_name = b.proxy_name;
    proxy_type = b.proxy_type;
    remote_port = b.remote_port;
    local_addr = local_addr;
    remote_addr = remote_addr;
    user = [];
    metas = [];
  };
  direction = direction;
  payload = payload;
  payload_length = length payload;
  captured_length = length payload;
  observed_at = 0;
}

-- `toHookDecision`
abbrev pub to_hook_decision : Decision → Action × Bytes
to_hook_decision d = (d.action, d.reason)

-- `InspectTCP` and `InspectUDP`, with the DPI service as the inspector if there is one: the new states,
-- the answer, and what reaches the event sink.
unfoldable pub inspect_traffic :
    TextLibrary
    → (TrafficSample → EngineResult)
    → ℕ
    → HookSample
    → Tracking
    → Option Service
    → Tracking × Option Service × (Action × Bytes) × List Event
inspect_traffic lib engine clock h m inspector =
    let fed = feed_traffic_sample (from_hook_sample h) m in
    elim inspector [
      | none ↦ (fed.0, none, to_hook_decision allowed, [])
      | some s ↦
          let r = inspect lib engine clock fed.1 s in (fed.0, some r.0, to_hook_decision r.1, r.2)
    ]

unfoldable pub inspect_series :
    TextLibrary
    → (TrafficSample → EngineResult)
    → List (ℕ × HookSample)
    → Tracking
    → Option Service
    → Tracking
inspect_series lib engine [] m inspector = m
inspect_series lib engine ((clock, h) ∷ rest) m inspector =
    let r = inspect_traffic lib engine clock h m inspector in inspect_series lib engine rest r.0 r.1

-- The bytes that samples of one direction carry: what they declare, or else their payload.
abbrev pub carried : HookSample → ℕ
carried h = if h.payload_length == 0 then length h.payload else h.payload_length

abbrev pub share : Bytes → HookSample → ℕ
share direction h = if bytes_eq h.direction direction then carried h else 0

abbrev pub total : Bytes → List (ℕ × HookSample) → ℕ
total direction [] = 0
total direction ((_, h) ∷ rest) = share direction h + total direction rest

fed_bytes :
    (lib : TextLibrary) (engine : TrafficSample → EngineResult) (clock : ℕ) (h : HookSample)
    (m : Tracking) (inspector : Option Service)
    → let t = (inspect_traffic lib engine clock h m inspector).0.traffic in
      (t ≡ count_traffic h.direction (carried h) m.traffic)
unfolding inspect_traffic feed_traffic_sample from_hook_sample
fed_bytes lib engine clock h m none = ground arith
fed_bytes lib engine clock h m (some s) = ground arith

counted_bytes :
    (h : HookSample) (t : TrafficSnapshot)
    → t.bytes_inbound < uint64
    → t.bytes_outbound < uint64
    → let t' = count_traffic h.direction (carried h) t in
      (t'.bytes_inbound ≡ (t.bytes_inbound + share inbound h) % uint64)
      × (t'.bytes_outbound ≡ (t.bytes_outbound + share outbound h) % uint64)
unfolding count_traffic
counted_bytes h t p q =
    let differ : bytes_eq inbound outbound ≡ false = unfold bytes_eq in refl in
    let a = bytes_eq_iff h.direction inbound in
    elim (Bool-cases (bytes_eq h.direction inbound)) [
      | inl i ↦
          let same : h.direction ≡ inbound = a.0 i in
          let o : bytes_eq h.direction outbound ≡ false = ground (arith, same, differ) in
          ground (arith, i, o)
      | inr i ↦ ground (arith, i)
    ]

wrapped : (b n k : ℕ) → ((b + n) % uint64 + k) % uint64 ≡ (b + (n + k)) % uint64
wrapped b n k = omega arith

-- However many samples the hooks report, and whatever the inspector answers, the byte counters grow by
-- what the samples of their direction carry, modulo 2 ^ 64.
pub traffic_is_counted :
    (lib : TextLibrary) (engine : TrafficSample → EngineResult) (series : List (ℕ × HookSample))
    (m : Tracking) (inspector : Option Service)
    → m.traffic.bytes_inbound < uint64
    → m.traffic.bytes_outbound < uint64
    → let t = (inspect_series lib engine series m inspector).traffic in
      (t.bytes_inbound ≡ (m.traffic.bytes_inbound + total inbound series) % uint64)
      × (t.bytes_outbound ≡ (m.traffic.bytes_outbound + total outbound series) % uint64)
unfolding inspect_series
traffic_is_counted lib engine [] m inspector p q = (omega arith, omega arith)
traffic_is_counted lib engine ((clock, h) ∷ rest) m inspector p q =
    let r = inspect_traffic lib engine clock h m inspector in
    let f = fed_bytes lib engine clock h m inspector in
    let c = counted_bytes h m.traffic p q in
    let same_in : r.0.traffic.bytes_inbound ≡ (m.traffic.bytes_inbound + share inbound h) % uint64 =
      ap (λ t. t.bytes_inbound) f ∙ c.0 in
    let same_out : r.0.traffic.bytes_outbound
        ≡ (m.traffic.bytes_outbound + share outbound h) % uint64 =
      ap (λ t. t.bytes_outbound) f ∙ c.1 in
    let ih =
      traffic_is_counted lib engine rest r.0 r.1 (omega (arith, same_in))
        (omega (arith, same_out)) in
    (
      ih.0
          ∙ (ap (λ b. (b + total inbound rest) % uint64) same_in
              ∙ wrapped m.traffic.bytes_inbound (share inbound h) (total inbound rest)),
      ih.1
          ∙ (ap (λ b. (b + total outbound rest) % uint64) same_out
              ∙ wrapped m.traffic.bytes_outbound (share outbound h) (total outbound rest)),
    )
