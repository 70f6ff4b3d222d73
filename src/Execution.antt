-- ===== src/Execution.antt =====
-- application/execution_service.py: the execution of one rebalance.
pub mod Types
pub mod Outcome
pub mod Accounts
pub mod Sizing
pub mod Targets
pub mod Run
pub mod Plan
pub mod Orders
pub mod Options
pub mod Guards
pub mod Rebalance
pub mod Summaries
pub mod Blocks
pub mod Cycle
pub mod Effects
