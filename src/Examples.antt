-- ===== src/Examples.antt =====
-- Runs on concrete inputs, and each theorem applied to one.
mod Samples
mod Runs
mod Orders
mod Parts
mod Others
mod More
mod Cycles
mod Gates
mod Papers
mod Recoveries
mod Portfolios
mod Deadlines
mod Receipts
mod Observed
mod Decisions
mod Heartbeats
