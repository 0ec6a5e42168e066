-- ===== src/Engine.antt =====
-- execute.go: the saga engine. The children hold its functions, callees first.
pub mod Monad
pub mod Notify
pub mod Persist
pub mod Attempts
pub mod Compensate
pub mod Running
pub mod Resume
pub mod Shapes
pub mod Logic
pub mod Safety
pub mod Spending
pub mod Rollback
pub mod Kept
pub mod Invariants
pub mod Landing
pub mod Fuel
pub mod Fold
