-- ===== src/Inspection/Engine.antt =====
-- `CompositeEngine` of internal/dpiengine/composite.go: the states of the flows, and what one sample
-- does to them. Each function runs under the engine's mutex; the clock is an argument.
use meow_frp_server.Prelude.{
  ℕ, ◌+◌, ◌-◌, ◌*◌, ◌^◌, Bool, true, false, not, ◌&&◌, ◌||◌, Option, none, some, List, [], ◌∷◌,
  ◌++◌, Bytes, codes, ltb, leb, ◌==◌, length, if◌then◌else◌,
}
use meow_frp_server.Prelude.Table.{Table, lookup, insert, remove_where}
use meow_frp_server.Inspection.Heuristics.{
  is_quic_initial, is_recognised, is_likely_encrypted_tunnel, and_then, or_then, negated, byte_is,
}
use meow_frp_server.Inspection.Http.{parse_http_host}
use meow_frp_server.Inspection.Outcome.{Outcome, returns, ◌>>=◌}
use meow_frp_server.Inspection.Sample.{FlowContext, TrafficSample, Finding}
use meow_frp_server.Inspection.Tls.{parse_tls_client_hello_sni}
pub mod Bounds
pub mod Capacity
pub mod Reassembly

abbrev pub max_inspect_bytes : ℕ
max_inspect_bytes = 8192

abbrev pub max_flow_states : ℕ
max_flow_states = 8192

-- Three minutes.
abbrev pub flow_state_ttl : ℕ
flow_state_ttl = 180 * 10 ^ 9

pub record FlowState : Type 0 where
  pub tls_buffer : Bytes
  pub inspected_bytes : ℕ
  pub ss_packets : ℕ
  pub ss_detected : Bool
  pub last_seen : ℕ

-- `&flowState{}`
abbrev pub new_state : FlowState
new_state = record {
  tls_buffer = [];
  inspected_bytes = 0;
  ss_packets = 0;
  ss_detected = false;
  last_seen = 0;
}

-- `feedTLSClientHello`: the state and the server name, empty where there is none yet.
unfoldable pub feed_tls_client_hello : FlowState → Bytes → Outcome (FlowState × Bytes)
feed_tls_client_hello state bytes = do
  idle ←
      or_then (returns (length bytes == 0))
        (and_then (returns (length state.tls_buffer == 0)) (negated (byte_is bytes 0 0x16)))
  elim idle [
    | true ↦ returns (state, [])
    | false ↦ elim (ltb max_inspect_bytes (length state.tls_buffer + length bytes)) [
      | true ↦ returns (record state { tls_buffer = [] }, [])
      | false ↦
          let buffer = state.tls_buffer ++ bytes in
          do
            sni ← parse_tls_client_hello_sni buffer
            elim (ltb 0 (length sni)) [
              | true ↦ returns (record state { tls_buffer = [] }, sni)
              | false ↦ returns (record state { tls_buffer = buffer }, [])
            ]
    ]
  ]

-- `detectEncryptedTunnel`
unfoldable pub detect_encrypted_tunnel : FlowState → Bytes → Outcome (FlowState × Bool)
detect_encrypted_tunnel state bytes = elim (state.ss_detected || ltb (length bytes) 20) [
  | true ↦ returns (state, false)
  | false ↦
      let counted = record state { ss_packets = state.ss_packets + 1 } in
      elim (ltb 3 counted.ss_packets) [
        | true ↦ returns (counted, false)
        | false ↦ do
          recognised ← is_recognised bytes
          elim recognised [
            | true ↦ returns (counted, false)
            | false ↦ do
              likely ← is_likely_encrypted_tunnel bytes
              returns (
                  if likely
                  then (record counted { ss_detected = true }, true)
                  else (counted, false))
          ]
      ]
]

abbrev blank_finding : Finding
blank_finding = record {
  detector = [];
  protocol = [];
  host = [];
  sni = [];
  target_ip = [];
  confidence = 0;
  summary = [];
}

abbrev pub http_finding : Bytes → Finding
http_finding host = record blank_finding {
  detector = codes "http";
  protocol = codes "HTTP";
  host = host;
  summary = codes "http host detected";
}

abbrev pub tls_finding : Bytes → Finding
tls_finding sni = record blank_finding {
  detector = codes "tls";
  protocol = codes "TLS";
  sni = sni;
  summary = codes "tls sni detected";
}

abbrev pub quic_finding : Finding
quic_finding = record blank_finding {
  detector = codes "quic";
  protocol = codes "QUIC";
  summary = codes "quic initial detected";
}

abbrev pub tunnel_finding : Finding
tunnel_finding = record blank_finding {
  detector = codes "encrypted_tunnel";
  protocol = codes "SS";
  confidence = 72;
  summary = codes "encrypted tunnel heuristic matched";
}

-- One finding if the test holds.
abbrev pub when : Bool → Finding → List Finding
when b f = if b then f ∷ [] else []

-- `inspectLocked`
unfoldable pub inspect_locked : Bytes → FlowState → Outcome (FlowState × List Finding)
inspect_locked payload state = do
  host ← parse_http_host payload
  fed ← feed_tls_client_hello state payload
  quic ← is_quic_initial payload
  detected ← detect_encrypted_tunnel fed.0 payload
  returns (
    detected.0,
    when (ltb 0 (length host)) (http_finding host)
        ++ when (ltb 0 (length fed.1)) (tls_finding fed.1)
        ++ when quic quic_finding
        ++ when detected.1 tunnel_finding,
  )

-- `cleanupLocked`
unfoldable pub cleanup_locked : ℕ → Table FlowState → Table FlowState
cleanup_locked now = remove_where (λ state. ltb flow_state_ttl (now - state.last_seen))

-- `flowKey`
unfoldable pub flow_key : FlowContext → Bytes → Bytes
flow_key flow direction =
    flow.lease_id
    ++ codes "|"
    ++ flow.proxy_name
    ++ codes "|"
    ++ flow.proxy_type
    ++ codes "|"
    ++ flow.remote_addr
    ++ codes "|"
    ++ direction

-- What `Inspect` does once it has the flow's state: `states` holds all other flows.
unfoldable pub inspect_flow :
    ℕ → Bytes → Bytes → FlowState → Table FlowState → Outcome (Table FlowState × List Finding)
inspect_flow now key payload state states =
    let seen = record state { last_seen = now } in
    elim (leb max_inspect_bytes state.inspected_bytes) [
      | true ↦ returns (insert key seen states, [])
      | false ↦ do
        r ←
            inspect_locked payload
              (record seen { inspected_bytes = state.inspected_bytes + length payload })
        returns (insert key r.0 states, r.1)
    ]

-- `Inspect`, with the clock's time for a sample that carries none.
unfoldable pub inspect :
    ℕ → TrafficSample → Table FlowState → Outcome (Table FlowState × List Finding)
inspect clock sample states = elim (length sample.payload == 0) [
  | true ↦ returns (states, [])
  | false ↦
      let now = if sample.observed_at == 0 then clock else sample.observed_at in
      let key = flow_key sample.flow sample.direction in
      elim (lookup key states) [
        | some state ↦ inspect_flow now key sample.payload state states
        | none ↦
            inspect_flow now key sample.payload new_state
              (if leb max_flow_states (length states) then cleanup_locked now states else states)
      ]
]
