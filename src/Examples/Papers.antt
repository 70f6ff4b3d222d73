-- ===== src/Examples/Papers.antt =====
-- The paper commands and their admission, on the numbers of the samples.
use ibkrquant.Prelude.{
  ℕ, ◌≡◌, ◌≢◌, refl, Bool, true, false, List, [], ◌∷◌, Option, none, some, Text, codes, All, map,
  sorted, is_empty,
}
use ibkrquant.Number.Fixed.{Fixed, fixed_float, dollars}
use ibkrquant.Examples.Samples.{voo, xlk}
use ibkrquant.Paper.Commands.{CommandIntent, PaperPortfolio, Feed, symbol_set, reconcile}
use ibkrquant.Paper.Commands.Managed.{IsFor, reconcile-IsFor}
use ibkrquant.Paper.Admission.{
  Submitted, command, AdmissionArgs, AdmissionKit, evaluate_paper_execution_admission,
}
use ibkrquant.Paper.Admission.Closed.{Admissible, evaluate_paper_execution_admission-Admissible}

abbrev feed : Feed Fixed
feed = record { is_finite = λ _. true; quote = λ n symbol. some (dollars 100) }

abbrev intent : CommandIntent Fixed
intent = record {
  schema_version = codes "ibkr.paper-execution-intent.v1";
  target_mode = codes "value";
  targets = some ((codes "voo", some (dollars 500)) ∷ (xlk, some (dollars 300)) ∷ []);
  strategy_symbols = xlk ∷ voo ∷ [];
}

abbrev portfolio : PaperPortfolio Fixed
portfolio = record {
  positions =
      record { symbol = voo; quantity = some (dollars 5); market_value = some (dollars 500) } ∷ [];
  market_currency_cash = some (dollars 300);
  total_equity = some (dollars 800);
}

abbrev managed : List Text
managed = voo ∷ xlk ∷ []

reconcile-IsFor_example :
    All (IsFor (symbol_set managed)) (reconcile feed intent portfolio managed).proposals
reconcile-IsFor_example = reconcile-IsFor feed intent portfolio managed

abbrev admission : AdmissionKit Fixed
admission = record {
  is_finite = λ _. true;
  admission_findings = λ _. [];
  gate = λ s session e findings. is_empty findings;
}

abbrev request : AdmissionArgs Fixed
request = record {
  submitted = command (record {
    platform = codes "ibkr";
    execution_mode = codes "paper";
    strategy_profile = codes "rotation";
    account_scope = codes "u1";
    effective_date = codes "2026-03-26";
  });
  effective_date = codes "2026-03-26T00:00";
  trade_date = [];
  strategy_profile = codes "Rotation";
  account_scope = codes "U1";
  positions = (voo, some (dollars 5)) ∷ (xlk, some (dollars 0)) ∷ [];
  prices = (voo, some (dollars 100)) ∷ (xlk, some (dollars 50)) ∷ [];
  target_market_values = (xlk, some (dollars 300)) ∷ [];
  has_option_order_intents = false;
}

shut_by_findings : (findings : List Text) → findings ≢ [] → is_empty findings ≡ false
shut_by_findings [] h = absurd (h refl)
shut_by_findings (x ∷ findings) h = refl

evaluate_paper_execution_admission-Admissible_example : Admissible admission request
unfolding evaluate_paper_execution_admission ibkrquant.Paper.Admission.exposure_facts
    ibkrquant.Paper.Admission.facts_from ibkrquant.Paper.Admission.exposed_symbols sorted
    ibkrquant.Prelude.unique ibkrquant.Paper.Admission.normalized_items ibkrquant.Prelude.normalize
    ibkrquant.Prelude.insert ibkrquant.Prelude.text_eq ibkrquant.Paper.Admission.fact_of
    ibkrquant.Paper.Admission.finite_nonnegative ibkrquant.Prelude.lookup
    ibkrquant.Paper.Admission.admission_findings ibkrquant.Paper.Admission.append_findings
    ibkrquant.Paper.Admission.append_finding ibkrquant.Paper.Admission.command_contract_findings
    ibkrquant.Paper.Admission.effective_session ibkrquant.Paper.Admission.load_findings
    ibkrquant.Prelude.lower ibkrquant.Prelude.mem_text ibkrquant.Prelude.strip
evaluate_paper_execution_admission-Admissible_example =
    evaluate_paper_execution_admission-Admissible admission request
      (λ s session e. shut_by_findings) refl
