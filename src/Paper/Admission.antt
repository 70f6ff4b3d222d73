-- ===== src/Paper/Admission.antt =====
-- application/paper_execution_admission.py: the admission of a rebalance of a paper account.
pub mod Priced
pub mod Closed
use ibkrquant.Prelude.{
  ℕ, zero, suc, Bool, true, false, ◌&&◌, ◌||◌, not, List, [], ◌∷◌, ◌++◌, Option, none, some, Text,
  codes, strip, lower, normalize, text_eq, mem_text, unique, sorted, is_blank_text, is_empty, map,
  all, get_or, keys, Dict, lookup, insert, ◌==◌, if◌then◌else◌,
}
use ibkrquant.Number.{Float, ◌⊖◌, ◌⊗◌, ◌≼◌, ◌≺◌, nought, neg, abs}
use ibkrquant.Execution.Types.{admission_not_paper, Result, ok, raise}
use ibkrquant.Paper.Commands.{Effect, reduces, increases, neutral, mismatch}

-- `resolve_paper_execution_admission_enabled`, on the value of the variable, the mode and the environment
unfoldable pub resolve_paper_execution_admission_enabled : Text → Bool → Text → Text → Result Bool
resolve_paper_execution_admission_enabled raw_value dry_run_only mode environment =
    let enabled =
      mem_text (lower (strip raw_value))
        (codes "1" ∷ codes "true" ∷ codes "t" ∷ codes "yes" ∷ codes "y" ∷ codes "on" ∷ []) in
    let normalized_mode = map (λ c. if c == b'-' then b'_' else c) (lower (strip mode)) in
    if not enabled
    then ok false
    else if dry_run_only
        || not (text_eq normalized_mode (codes "paper"))
        || not (text_eq (lower (strip environment)) (codes "paper"))
    then raise admission_not_paper
    else ok true

-- What the module reads of an `ExecutionCommand`.
pub record PaperCommand : Type 0 where
  pub platform : Text
  pub execution_mode : Text
  pub strategy_profile : Text
  pub account_scope : Text
  pub effective_date : Text

-- `signal_metadata["paper_execution_command"]`: no mapping, a mapping that `from_dict` refuses, or a command
pub data Submitted : Type 0 where
  absent malformed : Submitted
  command : PaperCommand → Submitted

-- `exposure_facts`
pub record Fact (F : Type 0) : Type 0 where
  pub symbol : Text
  pub position_quantity : F
  pub quote_price : F
  pub current_market_value : F
  pub target_market_value : F
  pub exposure_effect : Effect

-- The arguments of `evaluate_ibkr_paper_execution_admission`. A number is what `float` makes of it.
pub record AdmissionArgs (F : Type 0) : Type 0 where
  pub submitted : Submitted
  pub effective_date : Text
  pub trade_date : Text
  pub strategy_profile : Text
  pub account_scope : Text
  -- the quantities of the positions
  pub positions : Dict (Option F)
  pub prices : Dict (Option F)
  pub target_market_values : Dict (Option F)
  pub has_option_order_intents : Bool

-- What `quant_platform_kit` decides: the findings of `evaluate_paper_execution_admission` on a command, and
-- whether `evaluate_runtime_command_gate` allows a write with this effect and these findings.
pub record AdmissionKit (F : Type 0) : Type 0 where
  pub is_finite : F → Bool
  pub admission_findings : PaperCommand → List Text
  pub gate : Submitted → Text → Effect → List Text → Bool

pub record Evaluation (F : Type 0) : Type 0 where
  pub integrity_findings : List Text
  pub exposure_facts : List (Fact F)
  pub broker_write_allowed : Bool

-- `_append_finding`
unfoldable pub append_finding : List Text → Text → List Text
append_finding findings finding =
    if mem_text finding findings then findings else findings ++ finding ∷ []

-- `for finding in more: _append_finding(findings, finding)`
unfoldable pub append_findings : List Text → List Text → List Text
append_findings findings [] = findings
append_findings findings (g ∷ more) = append_findings (append_finding findings g) more

-- the finding, if the test fails
abbrev pub require : Bool → Text → List Text → List Text
require true finding findings = findings
require false finding findings = append_finding findings finding

abbrev take_10 : ℕ → Text → Text
take_10 zero t = []
take_10 (suc n) [] = []
take_10 (suc n) (c ∷ t) = c ∷ take_10 n t

-- `_effective_session`; a blank text stands for None
unfoldable pub effective_session : Text → Text → Text
effective_session effective trade =
    take_10 10 (strip (if is_blank_text effective then trade else effective))

-- the findings of `_load_command`
unfoldable pub load_findings : Submitted → List Text
load_findings absent = codes "paper_risk_admission_receipt_missing" ∷ []
load_findings malformed = codes "command_digest_mismatch" ∷ []
load_findings (command c) = []

-- `_command_contract_findings`
unfoldable pub command_contract_findings : Submitted → Text → Text → Text → List Text
command_contract_findings (command c) profile scope session =
    require (not (is_blank_text session) && text_eq c.effective_date session)
      (codes "signal_timing_invalid")
      (require (text_eq c.account_scope (lower (strip scope)))
        (codes "durable_event_history_invalid")
        (require (text_eq c.strategy_profile (lower (strip profile)))
          (codes "command_digest_mismatch")
          (require (text_eq c.execution_mode (codes "paper")) (codes "paper_execution_mode_invalid")
            (require (text_eq c.platform (codes "ibkr")) (codes "durable_event_history_invalid")
              []))))
command_contract_findings _ profile scope session = []

module _ {F : Type 0} where
  -- `{normalize(symbol): value for symbol, value in items if symbol}`
  unfoldable pub normalized_items : Dict (Option F) → Dict (Option F) → Dict (Option F)
  normalized_items acc [] = acc
  normalized_items acc ((s, v) ∷ d) =
      let with = normalized_items (insert (normalize s) v acc) d in
      let without = normalized_items acc d in if is_blank_text (normalize s) then without else with

  -- the symbols of the positions and the targets
  unfoldable pub exposed_symbols : Dict (Option F) → Dict (Option F) → List Text
  exposed_symbols positions targets =
      sorted (unique (keys (normalized_items [] positions) ++ keys (normalized_items [] targets)))

  abbrev pub flatten : Option (Option F) → Option F
  flatten none = none
  flatten (some v) = v

module _ {F : Type 0} ⦃f : Float F⦄ where
  abbrev epsilon : F
  epsilon = f.lit 1 2

  -- the effect of a change of the exposure
  unfoldable pub exposure_effect : F → F → Effect
  exposure_effect current target =
      if epsilon ≺ abs target ⊖ abs current
      then increases
      else if abs target ⊖ abs current ≺ neg epsilon
      then reduces
      else neutral

  abbrev pub fact : Text → Option F → Option F → Option F → Option (Fact F)
  fact symbol (some quantity) (some target) (some price) =
      if price ≼ nought
      then none
      else some (record {
        symbol = symbol;
        position_quantity = f.round quantity 8;
        quote_price = f.round price 8;
        current_market_value = f.round (quantity ⊗ price) 8;
        target_market_value = f.round target 8;
        exposure_effect = exposure_effect (quantity ⊗ price) target;
      })
  fact symbol _ _ _ = none

module _ {F : Type 0} ⦃f : Float F⦄ (kit : AdmissionKit F) (a : AdmissionArgs F) where
  -- `_finite_nonnegative`
  unfoldable pub finite_nonnegative : Option F → Option F
  finite_nonnegative none = none
  finite_nonnegative (some x) = if not (kit.is_finite x) || x ≺ nought then none else some x

  -- one turn of the loop of `_exposure_facts`; `none` is the mismatch
  unfoldable pub fact_of : Text → Option (Fact F)
  fact_of symbol =
      fact symbol (finite_nonnegative (flatten (lookup symbol (normalized_items [] a.positions))))
        (finite_nonnegative
          (get_or (lookup symbol (normalized_items [] a.target_market_values)) (some nought)))
        (finite_nonnegative (flatten (lookup symbol (normalized_items [] a.prices))))

  abbrev pub with_fact : Option (Fact F) → List (Fact F) × List Text → List (Fact F) × List Text
  with_fact none (facts, findings) = (facts, append_finding findings mismatch)
  with_fact (some x) (facts, findings) = (facts ++ x ∷ [], findings)

  unfoldable pub facts_from : List (Fact F) × List Text → List Text → List (Fact F) × List Text
  facts_from acc [] = acc
  facts_from acc (s ∷ ss) = facts_from (with_fact (fact_of s) acc) ss

  -- `_exposure_facts`
  unfoldable pub exposure_facts : List (Fact F) × List Text
  exposure_facts = facts_from ([], []) (exposed_symbols a.positions a.target_market_values)

  abbrev pub command_findings : Submitted → List Text
  command_findings (command c) = kit.admission_findings c
  command_findings _ = []

  -- `findings`
  unfoldable pub admission_findings : List Text
  admission_findings =
      append_findings
        (require (not a.has_option_order_intents) (codes "durable_event_history_invalid") (
          append_findings
            (append_findings (load_findings a.submitted) (
              command_contract_findings a.submitted a.strategy_profile a.account_scope
                (effective_session a.effective_date a.trade_date)))
            (command_findings a.submitted)))
        exposure_facts.1

  abbrev pub effects : List (Fact F) → List Effect
  effects [] = neutral ∷ []
  effects (x ∷ xs) = map (λ y. y.exposure_effect) (x ∷ xs)

  -- `evaluate_ibkr_paper_execution_admission`
  unfoldable pub evaluate_paper_execution_admission : Evaluation F
  evaluate_paper_execution_admission = record {
    integrity_findings = unique admission_findings;
    exposure_facts = exposure_facts.0;
    broker_write_allowed =
        all
          (λ e.
            kit.gate a.submitted (effective_session a.effective_date a.trade_date) e
              admission_findings)
          (effects exposure_facts.0);
  }
