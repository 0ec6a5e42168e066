-- ===== src/Engine/Invariants.antt =====
-- Invariants of the runs of execute.go, by the rule of Engine.Kept.
pub mod Keys
pub mod Reports
pub mod Leases
pub mod History
pub mod Progress
