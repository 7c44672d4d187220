-- ===== src/Exclusive/Invariant.antt =====
-- What holds in every reachable state of the engine with a section of asyncengine/exclusive.go.
pub mod Single
pub mod Cleanups
pub mod Record
pub mod Phases
pub mod Steps
