-- ===== src/Engine/Safety.antt =====
-- No function of execute.go panics or saves an execution of an unsound shape; each child takes the
-- functions of one of the engine's modules.
pub mod Persist
pub mod Attempts
pub mod Undo
pub mod Compensate
pub mod Stops
pub mod Abort
pub mod Outcomes
pub mod Forward
pub mod Resume
pub mod Execute
