-- ===== src/Recovery.antt =====
-- The recovery of a frozen live baseline.
pub mod Ledger
