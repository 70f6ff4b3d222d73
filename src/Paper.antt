-- ===== src/Paper.antt =====
-- application/paper_execution_command_consumer.py and application/paper_execution_admission.py: what a
-- paper account may be asked to trade.
pub mod Commands
pub mod Admission
