-- ===== src/Heartbeat.antt =====
-- scripts/runtime_heartbeat_policy.py: when a run of a target is due.
pub mod Cron
pub mod Due
