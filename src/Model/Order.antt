-- ===== src/Model/Order.antt =====
-- `Order` of model/order.go.
pub mod Operation
pub mod Position
pub mod Margin
pub mod Whole
pub mod Refines
pub mod RoundTrip
pub mod Retention
