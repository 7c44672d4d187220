-- ===== src/Model.antt =====
-- Orders and account adjustments as the caller fills them in: model/order.go, model/account_adjustment.go,
-- model/account_adjustment_pnl.go and model/pnl.go, over the plain C structs of internal/native.
pub mod Param
pub mod Native
pub mod Order
pub mod Adjustment
