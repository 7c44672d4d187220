-- ===== src/Model/Native.antt =====
-- The C structs of internal/native/order.go and internal/native/account_adjustment.go, one module each. A
-- C struct is a record of its fields; `{}` in the source is the value with every field zero.
pub mod OrderOperation
pub mod OrderPosition
pub mod OrderMargin
pub mod BalanceOperation
pub mod PositionOperation
pub mod AdjustmentAmounts
pub mod AdjustmentBounds
