-- ===== src/Examples/Heartbeats.antt =====
-- A heartbeat over one report of the service that was due.
use ibkrquant.Prelude.{
  ◌≡◌, ◌↔◌, refl, Bool, true, false, ℕ, List, [], ◌∷◌, Option, none, some, Text, codes, Dict,
  text_eq, mem_text, if◌then◌else◌, is_empty, is_some, all,
}
use ibkrquant.Reports.{Values, Rules}
use ibkrquant.Reports.Matching.{Target}
use ibkrquant.Reports.Verdict.{
  Entry, Check, Outcome, ok, alert, required_keys, read_objects, heartbeat,
}
use ibkrquant.Reports.Answered.{Some, IsAnswer, heartbeat-IsAnswered}

-- JSON with texts only
abbrev values : Values Text
values = record {
  truthy = λ t. if is_empty t then false else true;
  text = λ t. t;
  as_mapping = λ t. none;
  as_list = λ t. none;
  as_string = some;
  is_false = λ t. false;
  is_true = λ t. false;
}

abbrev report : Dict Text
report = (codes "service_name", codes "svc") ∷ (codes "status", codes "OK") ∷ []

abbrev rules : Rules
rules = record {
  accept_statuses = none;
  reject_statuses = none;
  accept_stages = none;
  reject_stages = none;
  accept_with_errors = none;
  require_status = none;
}

-- The service was due at the time.
abbrev due_at : ℕ → Check Text
due_at at = record {
  since = 5;
  max_reports = 20;
  globs = codes "g" ∷ [];
  list_objects = λ g. some (record { uri = codes "r"; updated = some 10 } ∷ []);
  cat_json = λ u. some report;
  rules = rules;
  platform = [];
  account_scope = [];
  due_targets =
      record {
        target = record { service = codes "svc"; strategy_profile = []; account_scope = [] };
        latest_due_at = some at;
      }
      ∷ [];
  services = [];
}

run_answered : heartbeat values (due_at 8) ≡ some ok
unfolding heartbeat ibkrquant.Reports.Verdict.inspect read_objects required_keys
    ibkrquant.Reports.Verdict.required_targets ibkrquant.Reports.Verdict.newest_first
    ibkrquant.Reports.Verdict.list_all ibkrquant.Reports.Verdict.add_entries
    ibkrquant.Prelude.insert ibkrquant.Reports.Verdict.insert_newest
    ibkrquant.Reports.Verdict.answer_of ibkrquant.Reports.Matching.payload_matches
    ibkrquant.Prelude.lower ibkrquant.Prelude.strip ibkrquant.Reports.Matching.match_payload_target
    ibkrquant.Reports.Matching.first_fitting ibkrquant.Reports.Matching.fits_target
    ibkrquant.Prelude.contains ibkrquant.Prelude.lookup ibkrquant.Prelude.lstrip mem_text
    ibkrquant.Prelude.starts_with text_eq ibkrquant.Prelude.upper
    ibkrquant.Reports.Matching.account_scope_from ibkrquant.Reports.Matching.first_value
    ibkrquant.Reports.Matching.payload_service_name ibkrquant.Reports.Matching.payload_value
    ibkrquant.Reports.Matching.target_key ibkrquant.Reports.Verdict.required_due_at
    ibkrquant.Reports.env_bool ibkrquant.Reports.Accepted.is_accepted_report
    ibkrquant.Reports.Accepted.is_expected_execution_guard ibkrquant.Reports.Accepted.judged
    ibkrquant.Reports.report_errors ibkrquant.Reports.report_execution_backend
    ibkrquant.Reports.report_notification_failure ibkrquant.Reports.split_on
    ibkrquant.Reports.split_values
run_answered = refl

run_late : heartbeat values (due_at 12) ≡ some alert
unfolding heartbeat ibkrquant.Reports.Verdict.inspect read_objects required_keys
    ibkrquant.Reports.Verdict.required_targets ibkrquant.Reports.Verdict.newest_first
    ibkrquant.Reports.Verdict.list_all ibkrquant.Reports.Verdict.add_entries
    ibkrquant.Prelude.insert ibkrquant.Reports.Verdict.insert_newest
    ibkrquant.Reports.Verdict.answer_of ibkrquant.Reports.Matching.payload_matches
    ibkrquant.Prelude.lower ibkrquant.Prelude.strip ibkrquant.Reports.Matching.match_payload_target
    ibkrquant.Reports.Matching.first_fitting ibkrquant.Reports.Matching.fits_target
    ibkrquant.Prelude.contains ibkrquant.Prelude.lookup ibkrquant.Prelude.lstrip mem_text
    ibkrquant.Prelude.starts_with text_eq ibkrquant.Prelude.upper
    ibkrquant.Reports.Matching.account_scope_from ibkrquant.Reports.Matching.first_value
    ibkrquant.Reports.Matching.payload_service_name ibkrquant.Reports.Matching.payload_value
    ibkrquant.Reports.Matching.target_key ibkrquant.Reports.Verdict.required_due_at
    ibkrquant.Reports.env_bool ibkrquant.Reports.Accepted.is_accepted_report
    ibkrquant.Reports.Accepted.is_expected_execution_guard ibkrquant.Reports.Accepted.judged
    ibkrquant.Reports.report_errors ibkrquant.Reports.report_execution_backend
    ibkrquant.Reports.report_notification_failure ibkrquant.Reports.split_on
    ibkrquant.Reports.split_values
run_late = refl

has_key : is_empty (required_keys values (due_at 8)) ≡ false
unfolding required_keys ibkrquant.Reports.Verdict.required_targets
has_key = refl

heartbeat-IsAnswered_example : (ok ≡ ok) ↔ (
    (key : Text)
    → mem_text key (required_keys values (due_at 8)) ≡ true
    → Some (IsAnswer values (due_at 8) key) (read_objects values (due_at 8)))
heartbeat-IsAnswered_example = heartbeat-IsAnswered values (due_at 8) ok has_key run_answered
