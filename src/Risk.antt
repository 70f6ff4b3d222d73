-- ===== src/Risk.antt =====
-- application/account_new_risk_gate_support.py and application/ibkr_order_execution.py: the gate that
-- every purchase passes before it reaches IBKR.
pub mod Admission
pub mod Submission
pub mod Buys
