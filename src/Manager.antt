-- ===== src/Manager.antt =====
-- internal/frpcore/admission.go and internal/frpcore/manager.go: the state that the embedded FRP
-- server and the HTTP API share. Admission is what decides on registrations, Tracking what is
-- known of live traffic.
pub mod Types
pub mod Admission
pub mod Tracking
pub mod Network
pub mod Termination
pub mod Hooks
