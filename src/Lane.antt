-- ===== src/Lane.antt =====
-- One lane of asyncengine/strategy.go.
pub mod Queue
pub mod System
pub mod Invariant
pub mod Fifo
pub mod Backlog
pub mod Taking
pub mod Ordering
pub mod Wakeup
pub mod Guarantees
