-- ===== src/Model/Adjustment.antt =====
-- `AccountAdjustment` of model/account_adjustment.go.
pub mod Balance
pub mod Position
pub mod Amount
pub mod Bounds
pub mod State
pub mod Operations
pub mod Groups
pub mod Whole
pub mod View
pub mod Refines
pub mod RoundTrip
pub mod Retention
