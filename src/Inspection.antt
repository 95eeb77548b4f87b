-- ===== src/Inspection.antt =====
-- internal/dpiengine/composite.go: deep packet inspection. Outcome is how the code reads bytes, Http
-- and Tls extract host names, Heuristics judges single payloads and Engine keeps the flow states.
pub mod Outcome
pub mod Http
pub mod Tls
pub mod Heuristics
pub mod Sample
pub mod Engine
