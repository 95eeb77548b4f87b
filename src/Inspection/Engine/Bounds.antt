-- ===== src/Inspection/Engine/Bounds.antt =====
-- `Inspect` on one sample, and the TLS buffers of the flows.
use meow_frp_server.Prelude.{
  ℕ, ◌-◌, ◌≤◌, ◌≡◌, inl, inr, Bool, some, [], ◌∷◌, ◌++◌, arith, Bytes, ltb, leb, ◌==◌, length,
  length-append, Bool-cases, Option-cases, if◌then◌else◌,
}
use meow_frp_server.Prelude.Table.{Table, lookup, insert, remove_where}
use meow_frp_server.Inspection.Http.{parse_http_host}
use meow_frp_server.Inspection.Http.Total.{parse_http_host_total}
use meow_frp_server.Inspection.Heuristics.{is_quic_initial}
use meow_frp_server.Inspection.Heuristics.Total.{
  is_quic_initial_total, is_recognised_total, is_likely_encrypted_tunnel_total,
}
use meow_frp_server.Inspection.Outcome.{Returns, Returns-bind, byte_at}
use meow_frp_server.Inspection.Sample.{TrafficSample}
use meow_frp_server.Inspection.Tls.Total.{parse_tls_client_hello_sni_total}
use meow_frp_server.Inspection.Engine.{
  FlowState, max_inspect_bytes, max_flow_states, flow_state_ttl, new_state, feed_tls_client_hello,
  detect_encrypted_tunnel, inspect_locked, inspect_flow, inspect, cleanup_locked, flow_key,
}

-- The TLS buffer of a flow is no longer than the limit.
abbrev pub IsBounded : FlowState → Type 0
IsBounded s = length s.tls_buffer ≤ max_inspect_bytes

abbrev pub AllBounded : Table FlowState → Type 0
AllBounded [] = Unit
AllBounded ((_, s) ∷ m) = IsBounded s × AllBounded m

feed_lem :
    (s : FlowState) (bytes : Bytes)
    → IsBounded s
    → Returns (λ r. IsBounded r.0) (feed_tls_client_hello s bytes)
unfolding feed_tls_client_hello byte_at
feed_lem s bytes h = ground (
  arith,
  parse_tls_client_hello_sni_total (s.tls_buffer ++ bytes),
  length-append s.tls_buffer bytes,
)

detect_lem :
    (s : FlowState) (bytes : Bytes)
    → IsBounded s
    → Returns (λ r. IsBounded r.0) (detect_encrypted_tunnel s bytes)
unfolding detect_encrypted_tunnel
detect_lem s bytes h =
    ground (arith, is_recognised_total bytes, is_likely_encrypted_tunnel_total bytes)

pub inspect_locked_lem :
    (s : FlowState) (payload : Bytes)
    → IsBounded s
    → Returns (λ r. IsBounded r.0) (inspect_locked payload s)
unfolding inspect_locked
inspect_locked_lem s payload h =
    Returns-bind (λ _. Unit {0}) (λ r. IsBounded r.0) (parse_http_host payload) _
      (parse_http_host_total payload)
      λ host _.
        Returns-bind (λ r. IsBounded r.0) (λ r. IsBounded r.0) (feed_tls_client_hello s payload) _
          (feed_lem s payload h)
          λ fed b.
            Returns-bind (λ _. Unit {0}) (λ r. IsBounded r.0) (is_quic_initial payload) _
              (is_quic_initial_total payload)
              λ quic _.
                Returns-bind (λ r. IsBounded r.0) (λ r. IsBounded r.0)
                  (detect_encrypted_tunnel fed.0 payload) _ (detect_lem fed.0 payload b)
                  λ detected d. d

insert-AllBounded :
    (k : Bytes) (s : FlowState) (m : Table FlowState)
    → IsBounded s
    → AllBounded m
    → AllBounded (insert k s m)
unfolding insert
insert-AllBounded k s [] h b = (h, tt)
insert-AllBounded k s ((j, w) ∷ m) h b = ground (arith, insert-AllBounded k s m h b.1)

remove_where-AllBounded :
    (p : FlowState → Bool) (m : Table FlowState) → AllBounded m → AllBounded (remove_where p m)
unfolding remove_where
remove_where-AllBounded p [] b = tt
remove_where-AllBounded p ((j, w) ∷ m) b = ground (arith, remove_where-AllBounded p m b.1)

lookup-AllBounded :
    (k : Bytes) (s : FlowState) (m : Table FlowState)
    → AllBounded m
    → lookup k m ≡ some s
    → IsBounded s
unfolding lookup
lookup-AllBounded k s [] b h = cc
lookup-AllBounded k s ((j, w) ∷ m) b h = ground (arith, lookup-AllBounded k s m b.1)

inspect_flow_lem :
    (now : ℕ) (key payload : Bytes) (s : FlowState) (m : Table FlowState)
    → IsBounded s
    → AllBounded m
    → Returns (λ r. AllBounded r.0) (inspect_flow now key payload s m)
unfolding inspect_flow
inspect_flow_lem now key payload s m h b =
    elim (Bool-cases (leb max_inspect_bytes s.inspected_bytes)) [
      | inl spent ↦
          rw (spent, inspect_flow) (insert-AllBounded key (record s { last_seen = now }) m h b)
      | inr left ↦
          rw (left, inspect_flow)
            (Returns-bind (λ r. IsBounded r.0) (λ r. AllBounded r.0) (inspect_locked payload _) _
              (inspect_locked_lem _ payload h) λ r g. insert-AllBounded key r.0 m g b)
    ]

-- `Inspect` returns for every sample, with no index or slice out of range and every loop ended, and keeps every flow's TLS buffer within the limit.
pub inspect_bounded :
    (clock : ℕ) (sample : TrafficSample) (states : Table FlowState)
    → AllBounded states
    → Returns (λ r. AllBounded r.0) (inspect clock sample states)
unfolding inspect cleanup_locked
inspect_bounded clock sample states b =
    let now = if sample.observed_at == 0 then clock else sample.observed_at in
    let key = flow_key sample.flow sample.direction in
    let room = if leb max_flow_states (length states) then cleanup_locked now states else states in
    let kept : AllBounded room =
      ground
        (arith, remove_where-AllBounded (λ s. ltb flow_state_ttl (now - s.last_seen)) states b) in
    elim (Bool-cases (length sample.payload == 0)) [
      | inl empty ↦ rw (empty, inspect) b
      | inr filled ↦ elim (Option-cases (lookup key states)) [
        | inl e ↦
            rw (filled, inspect)
              (rw (e, inspect)
                (inspect_flow_lem now key sample.payload new_state room (omega arith) kept))
        | inr (s, e) ↦
            rw (filled, inspect)
              (rw (e, inspect)
                (inspect_flow_lem now key sample.payload s states
                  (lookup-AllBounded key s states b e) b))
      ]
    ]
