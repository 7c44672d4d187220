-- ===== src/Chain.antt =====
-- Chains of asyncengine/scenario.go and asyncengine/scenario_admin.go.
pub mod Run
pub mod Env
pub mod Plan
pub mod Steps
pub mod Check
pub mod Apply
pub mod Task
pub mod Keeps
pub mod StepKeeps
pub mod Outcome
pub mod Steady
pub mod RetryUnsafe
pub mod Custody
pub mod Handles
pub mod Settlement
pub mod Whole
pub mod Reports
pub mod FinalHook
pub mod Submit
pub mod Admission
pub mod Route
pub mod Start
pub mod NilSafety
