-- ===== src/Inspection/Engine/Capacity.antt =====
-- `maxFlowStates` and the eviction of idle flows.
use meow_frp_server.Prelude.{
  ℕ, ◌+◌, ◌-◌, ◌≤◌, ◌≡◌, ◌≢◌, refl, false, none, [], ◌∷◌, arith, Bytes, leb, ◌==◌, length,
  if◌then◌else◌,
}
use meow_frp_server.Prelude.Table.{Table, lookup, remove_where}
use meow_frp_server.Prelude.Table.Count.{length-insert_new}
use meow_frp_server.Inspection.Outcome.{
  Outcome, returns, panics, out_of_fuel, Returns, Completes, Returns-bind,
}
use meow_frp_server.Inspection.Sample.{TrafficSample}
use meow_frp_server.Inspection.Engine.{
  FlowState, max_flow_states, flow_state_ttl, new_state, inspect_locked, inspect_flow, inspect,
  cleanup_locked, flow_key,
}
use meow_frp_server.Inspection.Engine.Bounds.{inspect_locked_lem}

abbrev pub AllFresh : ℕ → Table FlowState → Type 0
AllFresh now [] = Unit
AllFresh now ((_, s) ∷ m) = (now - s.last_seen ≤ flow_state_ttl) × AllFresh now m

cleanup_nothing : (now : ℕ) (m : Table FlowState) → AllFresh now m → cleanup_locked now m ≡ m
unfolding cleanup_locked remove_where
cleanup_nothing now [] f = refl
cleanup_nothing now ((j, s) ∷ m) f = ground (arith, cleanup_nothing now m f.1)

completes {ℓ} : {A : Type ℓ} (P : A → Type 0) (m : Outcome A) → Returns P m → Completes m
completes P (returns a) h = tt
completes P panics h = h
completes P out_of_fuel h = h

nonempty : (bytes : Bytes) → bytes ≢ [] → (length bytes == 0) ≡ false
nonempty [] h = absurd (h refl)
nonempty (b ∷ bs) h = ground arith

new_flow_grows :
    (now : ℕ) (key payload : Bytes) (m : Table FlowState)
    → lookup key m ≡ none
    → Returns (λ r. length r.0 ≡ length m + 1) (inspect_flow now key payload new_state m)
unfolding inspect_flow
new_flow_grows now key payload m new =
    Returns-bind (λ _. Unit {0}) (λ r. length r.0 ≡ length m + 1) (inspect_locked payload _) _
      (completes _ (inspect_locked payload _) (inspect_locked_lem _ payload (omega arith)))
      λ r _. length-insert_new key r.0 m new

-- `maxFlowStates` is no limit: while no flow has been idle for three minutes, a sample of a new flow
-- adds a state, however many there are.
pub flow_states_grow :
    (clock : ℕ) (sample : TrafficSample) (states : Table FlowState)
    → sample.observed_at ≢ 0
    → sample.payload ≢ []
    → lookup (flow_key sample.flow sample.direction) states ≡ none
    → AllFresh sample.observed_at states
    → Returns (λ r. length r.0 ≡ length states + 1) (inspect clock sample states)
unfolding inspect
flow_states_grow clock sample states t p new fresh =
    let now = sample.observed_at in
    let room = if leb max_flow_states (length states) then cleanup_locked now states else states in
    let same : room ≡ states = ground (arith, cleanup_nothing now states fresh) in
    let stamped : (if now == 0 then clock else now) ≡ now = ground arith in
    let filled : (length sample.payload == 0) ≡ false = nonempty sample.payload p in
    rw (filled, inspect)
      (rw (new, inspect) (rw stamped (rw same (new_flow_grows now _ sample.payload states new))))
