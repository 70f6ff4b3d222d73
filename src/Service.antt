-- ===== src/Service.antt =====
-- application/rebalance_service.py: one cycle of a strategy, from the connection to its report.
pub mod Fence
pub mod Signal
pub mod Claim
pub mod Cycle
pub mod Whole
pub mod Once
pub mod AtMostOnce
pub mod First
pub mod Fenced
pub mod Recorded
pub mod Marks
