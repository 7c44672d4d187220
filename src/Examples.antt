-- ===== src/Examples.antt =====
-- Tests of the model at concrete inputs, and the properties at inputs that meet their hypotheses.
mod LaneRuns
mod ChainRuns
mod Values
mod ReservationRuns
mod FenceRuns
mod ShardRuns
mod RegistryRuns
mod OperationRuns
mod ExclusiveRuns
mod ModelRuns
mod LockRuns
mod EngineRuns
