-- ===== src/Reconcile.antt =====
-- application/broker_reconciliation.py and application/broker_reconciliation_candidate.py: what a broker
-- shows for a recovery, and the records that a candidate of a baseline rests on.
pub mod Checked
pub mod Sources
pub mod Candidate
pub mod Observed
pub mod Decision
