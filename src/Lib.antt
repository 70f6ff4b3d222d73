-- ===== src/Lib.antt =====
-- A model of the core of IBKRQuant, a program that rebalances Interactive Brokers accounts to the target
-- weights of a strategy: the cycle of a strategy, the execution of its orders, the gates that an order
-- passes, and parts of the scheduling around them.
--
-- application/rebalance_service.py is modelled under Service. `run_strategy_core` is an action on a
-- session (Claim): the broker's, the marker store, and the two variables of the claim. It connects,
-- reads the portfolio and the signal (Signal), and then follows one of three cycles (Cycle): no targets,
-- an execution that is recorded already, or a trade, which runs `execute_rebalance` with the claim
-- of this cycle (Claim, with the account fence of Fence), records the marker and reports. Whole says
-- what a relation must be for the function to keep it; First, First, Once, AtMostOnce, Fenced, Recorded and Marks are
-- about the orders that cycles send.
--
-- application/execution_service.py is modelled under Execution. A run of `execute_rebalance` is an
-- action (Run) on the broker's session, the list of the orders sent, the lock files and the execution
-- summary; it returns or raises, and what it wrote stays. Its phases, in the order of the code, are:
--   * the arguments, prices, weights and targets (Accounts, Targets, Rebalance), with the substitution
--     of small weights by cash;
--   * the guards (Guards): admission, pending orders, the day's fills, and the lock file of the day;
--   * the plan (Plan), made with the sizes of Sizing before anything is locked;
--   * the sales, the reasons that block purchases (Blocks), the purchases and the option orders (Orders,
--     Options), each filed by the status of its report (Outcome);
--   * the status of the summary (Summaries). Cycle composes them.
-- A phase of the function is a definition of its own; its name is the variable or the helper of the
-- code where there is one. Effects holds the theorems on whole runs: a relation that each statement
-- keeps is kept by the function.
--
-- An order then passes application/ibkr_order_execution.py, Risk.Submission, which asks the new-risk gate
-- of application/account_new_risk_gate_support.py, Risk.Admission; Risk.Buys is about the orders that
-- reach the broker. Under Paper are the commands of a paper account, with their proposals
-- (application/paper_execution_command_consumer.py, Commands), and the admission of a rebalance
-- (application/paper_execution_admission.py, Admission).
--
-- application/ibkr_portfolio.py is modelled by Portfolio: the snapshot of the stocks that a cycle works
-- with (Stocks), and the snapshot for the paper commands (Reconciled).
--
-- Under Reconcile are application/broker_reconciliation.py, with the observations of a broker (Observed,
-- Observed.Surfaces) and the candidate that is made of them (Decision), and
-- application/broker_reconciliation_candidate.py, with the designated sources and their records (Sources,
-- Sources.Records) and the candidate that is bound to them (Candidate). A
-- value of these modules, or the test that refused it, is a Checked one.
--
-- scripts/reconciliation_recovery_state_ledger.py is modelled by Recovery.Ledger: the ledger that is
-- built of a verification, and the one transition of a runtime target that it allows.
--
-- application/runtime_deadline.py, and the dry run of main.py that works under it, are modelled by
-- Deadline. A block is an action on the process's timer and its handler of SIGALRM, and its result says
-- whether it returns, raises, or is ended by the deadline.
--
-- decision_mapper.py is modelled by Mapper: the tests that stop the execution of a decision (Gates), its
-- weights, and the metadata of a cycle (Described).
--
-- application/paper_liquidation_service.py is modelled by Liquidation, and of
-- scripts/runtime_heartbeat_policy.py the cron expressions by Heartbeat.Cron and the due times of a
-- target by Heartbeat.Due. scripts/execution_report_heartbeat.py is modelled by Reports: the acceptance
-- of a report (Accepted), the target that it is about (Matching), and the verdict over all reports
-- (Verdict). Prelude holds texts, dicts and tests that all share.
--
-- Parameters. Python's floats are a parameter with the operations that the program uses (Number), and
-- with the documented behaviour that a theorem names; Number.Fixed is an instance on which the examples
-- run, with a value for NaN. The quantity rounding, the cash sweep rule, the compatibility of small
-- accounts, the target hash, the marker store and its key, the verdict on new risk and the command gate
-- come from the package quant_platform_kit and are parameters (Kit, Store, RiskKit, AdmissionKit,
-- RecoveryKit), as are the broker (Broker, Runtime, Feed), the request and the report's writing of a dry
-- run (DryRunKit), the digests, the evidence and the baseline candidates of a reconciliation
-- (DecisionKit, CandidateKit), the translation and the allocation of a decision (MapperKit), Python's
-- values of JSON (Values), the listing and the reading of reports (Check), the timezones and the market
-- calendars (Clock). A Python set is read in an order that is a parameter too. A value that the code
-- passes through `float` is the result of that, with none where it raises.
--
-- Fuel. A range of a cron field has as much fuel as its last value and one more, where each turn goes
-- on by at least one; the loop over the minutes of a window has one turn for each second up to now,
-- and each turn goes on by a minute. All other loops are structural.
--
-- Bounds of the model. Times are whole seconds. A letter or digit in the name of a lock file is an ASCII
-- one, and the directory of the lock files is fixed. An alarm that arrives after the body of a deadline,
-- before its timer is cleared, has no place in a run. The new-risk gate takes the snapshot of the cycle as
-- an argument. The equity of a cash-only account and the elements of a list of managed symbols are
-- functions that do not raise. The number of reports that a heartbeat reads is not negative.
--
-- Not modelled: the texts for logs and notifications, the quote snapshots and rows that the summary
-- copies, the fields of the reconciliation records, the contents of a lock file but for its hash, the
-- parsing of JSON, the wiring of the services, the HTTP routes, the strategies, and the operational
-- scripts but for the ledger and the verdict of the heartbeat.
pub mod Examples
pub mod Deadline
pub mod Execution
pub mod Heartbeat
pub mod Liquidation
pub mod Mapper
pub mod Number
pub mod Paper
pub mod Portfolio
pub mod Prelude
pub mod Reconcile
pub mod Recovery
pub mod Reports
pub mod Risk
pub mod Service
