-- ===== src/Paper/Commands.antt =====
-- application/paper_execution_command_consumer.py: `_reconcile`, which turns a command into proposals.
pub mod Checked
pub mod Proposals
pub mod Managed
use ibkrquant.Prelude.{
  same_set, ℕ, suc, Bool, true, false, ◌&&◌, ◌||◌, not, List, [], ◌∷◌, ◌++◌, Option, none, some,
  Text, codes, normalize, text_eq, mem_text, unique, sorted, is_blank_text, is_empty, keep, map,
  any, all, get_or, keys, values, Dict, lookup, insert, if◌then◌else◌,
}
use ibkrquant.Number.{Float, ◌⊕◌, ◌⊖◌, ◌⊗◌, ◌⊘◌, ◌≼◌, ◌≺◌, nought, neg, max, abs, sum_from}

-- `command.intent`. A number is what `float` makes of the value, and `none` where it raises; targets
-- that are no mapping are `none`.
pub record CommandIntent (F : Type 0) : Type 0 where
  pub schema_version : Text
  pub target_mode : Text
  pub targets : Option (Dict (Option F))
  pub strategy_symbols : List Text

pub record PaperPosition (F : Type 0) : Type 0 where
  pub symbol : Text
  pub quantity : Option F
  pub market_value : Option F

pub record PaperPortfolio (F : Type 0) : Type 0 where
  pub positions : List (PaperPosition F)
  pub market_currency_cash : Option F
  pub total_equity : Option F

-- `RuntimeCommandExposureEffect`
pub data Effect : Type 0 where
  reduces increases neutral : Effect

-- `PaperExecutionProposal`
pub record Proposal (F : Type 0) : Type 0 where
  pub symbol : Text
  pub exposure_effect : Effect
  -- `details["side"]`: a purchase or a sale
  pub buys : Bool
  pub quantity : F
  pub reference_price : F
  pub current_value : F
  pub target_value : F
  pub target_notional_delta : F
  pub current_quantity : F

-- `PaperExecutionReconciliation`
pub record Reconciliation (F : Type 0) : Type 0 where
  pub proposals : List (Proposal F)
  pub integrity_findings : List Text

abbrev pub data_artifact_invalid : Text
data_artifact_invalid = codes "data_artifact_invalid"

abbrev pub mismatch : Text
mismatch = codes "position_reconciliation_mismatch"

-- `math.isfinite`, and the price that the n-th call of `quote_loader` has for a symbol, `none` where it
-- raises or has none.
pub record Feed (F : Type 0) : Type 0 where
  pub is_finite : F → Bool
  pub quote : ℕ → Text → Option F

-- the variables of the loop over the positions, and the calls of `quote_loader` so far
pub record Tally (F : Type 0) : Type 0 where
  pub findings : List Text
  pub quantities : Dict F
  pub current_values : Dict F
  pub calls : ℕ

-- the variables of the loop over the symbols
pub record ProposalDraft (F : Type 0) : Type 0 where
  pub findings : List Text
  pub proposals : List (Proposal F)
  pub calls : ℕ

-- `_symbols`
abbrev pub symbol_set : List Text → List Text
symbol_set symbols = unique (keep (λ s. not (is_blank_text s)) (map normalize symbols))

abbrev pub note : Text → Bool → List Text → List Text
note finding found findings = if found then findings ++ finding ∷ [] else findings

module _ {F : Type 0} where
  abbrev with_target : Text → Option F → Option (Dict F) → Option (Dict F)
  with_target symbol (some v) (some d) = some (insert symbol v d)
  with_target symbol _ _ = none

  abbrev pub failed : Tally F → Tally F
  failed t = record t { findings = t.findings ++ mismatch ∷ [] }

  abbrev pub invalid : Reconciliation F
  invalid = record { proposals = []; integrity_findings = data_artifact_invalid ∷ [] }

  abbrev pub no_tally : Tally F
  no_tally = record { findings = []; quantities = []; current_values = []; calls = 0 }

module _ {F : Type 0} ⦃f : Float F⦄ where
  abbrev pub positive_price : Option F → Option F
  positive_price none = none
  positive_price (some price) = if price ≼ nought then none else some price

  -- `max(1.0, abs(value) * 0.005)`
  abbrev pub tolerance : F → F
  tolerance value = max (f.lit 1 0) (abs value ⊗ f.lit 5 3)

  abbrev pub notional_tolerance : F
  notional_tolerance = f.lit 1 2

  abbrev value_at : Text → Dict F → F
  value_at symbol d = get_or (lookup symbol d) nought

  -- a position with finite numbers and a price
  abbrev pub counted : Text → F → F → F → Tally F → Tally F
  counted symbol quantity recorded price t =
      let value = quantity ⊗ price in
      let short = quantity ≺ neg notional_tolerance || recorded ≺ neg notional_tolerance in
      let off = tolerance value ≺ abs (recorded ⊖ value) in
      record t {
        findings = note mismatch off (note mismatch short t.findings);
        quantities = insert symbol (value_at symbol t.quantities ⊕ quantity) t.quantities;
        current_values = insert symbol (value_at symbol t.current_values ⊕ value) t.current_values;
      }

  abbrev pub priced : Text → F → F → Option F → Tally F → Tally F
  priced symbol quantity recorded none t = failed t
  priced symbol quantity recorded (some price) t = counted symbol quantity recorded price t

  -- the check of the equity
  abbrev pub equity_off : Option F → Option F → Dict F → Bool
  equity_off (some cash) (some equity) current_values =
      tolerance equity ≺ abs (cash ⊕ sum_from nought (values current_values) ⊖ equity)
  equity_off _ _ current_values = true

  -- the exposure effect of a change
  unfoldable pub effect_of : F → F → Effect
  effect_of current target =
      if abs target ≺ abs current ⊖ notional_tolerance
      then reduces
      else if abs current ⊕ notional_tolerance ≺ abs target
      then increases
      else neutral

  unfoldable pub proposal_of : Text → F → F → F → F → Proposal F
  proposal_of symbol price current target held = record {
    symbol = symbol;
    exposure_effect = effect_of current target;
    buys = nought ≺ target ⊖ current;
    quantity = f.round (abs (target ⊖ current) ⊘ price) 8;
    reference_price = f.round price 8;
    current_value = f.round current 8;
    target_value = f.round target 8;
    target_notional_delta = f.round (target ⊖ current) 8;
    current_quantity = f.round held 8;
  }

  -- whether the target of a symbol is near its value
  unfoldable pub is_settled : Dict F → Dict F → Text → Bool
  is_settled targets current_values symbol =
      abs (value_at symbol targets ⊖ value_at symbol current_values) ≼ notional_tolerance

  -- the tests of the targets against the symbols of the command and of the strategy
  unfoldable pub is_valid_target : List Text → List Text → Dict F → Bool
  is_valid_target symbols expected targets =
      not (is_empty symbols)
      && same_set symbols expected
      && same_set (keys targets) symbols
      && not (any (λ v. v ≺ nought) (values targets))

module _ {F : Type 0} ⦃f : Float F⦄ (feed : Feed F) where
  -- `_finite`
  abbrev pub finite : Option F → Option F
  finite none = none
  finite (some x) = if feed.is_finite x then some x else none

  -- the comprehension of `targets`, from those made so far; `none` is the `ValueError`
  unfoldable pub targets_from : Option (Dict F) → Dict (Option F) → Option (Dict F)
  targets_from acc [] = acc
  targets_from acc ((symbol, value) ∷ rest) =
      let with = targets_from (with_target (normalize symbol) (finite value) acc) rest in
      let without = targets_from acc rest in
      if is_blank_text (normalize symbol) then without else with

  abbrev pub measured : Text → Option F → Option F → Tally F → Tally F
  measured symbol (some quantity) (some recorded) t =
      priced symbol quantity recorded (positive_price (finite (feed.quote t.calls symbol)))
        (record t { calls = suc t.calls })
  measured symbol _ _ t = failed t

  -- one turn of the loop over the positions
  unfoldable pub tally_one : List Text → PaperPosition F → Tally F → Tally F
  tally_one symbols p t =
      if mem_text (normalize p.symbol) symbols
      then measured (normalize p.symbol) (finite p.quantity) (finite p.market_value) t
      else failed t

  unfoldable pub tally : List Text → List (PaperPosition F) → Tally F → Tally F
  tally symbols [] t = t
  tally symbols (p ∷ ps) t = tally symbols ps (tally_one symbols p t)

  abbrev pub proposed : Dict F → Tally F → Text → Option F → ProposalDraft F → ProposalDraft F
  proposed targets t symbol none d = record d { findings = d.findings ++ mismatch ∷ [] }
  proposed targets t symbol (some price) d = record d {
    proposals =
        d.proposals
        ++ proposal_of symbol price (value_at symbol t.current_values) (value_at symbol targets)
            (value_at symbol t.quantities)
          ∷ [];
  }

  -- one turn of the loop over the symbols
  unfoldable pub propose_one : Dict F → Tally F → Text → ProposalDraft F → ProposalDraft F
  propose_one targets t symbol d =
      if is_settled targets t.current_values symbol
      then d
      else proposed targets t symbol (positive_price (finite (feed.quote d.calls symbol)))
          (record d { calls = suc d.calls })

  unfoldable pub propose : Dict F → Tally F → List Text → ProposalDraft F → ProposalDraft F
  propose targets t [] d = d
  propose targets t (symbol ∷ symbols) d =
      propose targets t symbols (propose_one targets t symbol d)

  -- the tally of the positions and the check of the equity
  unfoldable pub positions_checked : PaperPortfolio F → List Text → Tally F
  positions_checked p symbols =
      let t = tally symbols p.positions no_tally in
      record t {
        findings =
            note mismatch
              (equity_off (finite p.market_currency_cash) (finite p.total_equity) t.current_values)
              t.findings;
      }

  -- from the loop over the positions on
  unfoldable pub reconcile_positions : PaperPortfolio F → Dict F → List Text → Reconciliation F
  reconcile_positions p targets symbols =
      let t = positions_checked p symbols in
      let d =
        propose targets t (sorted symbols)
          (record { findings = t.findings; proposals = []; calls = t.calls }) in
      record { proposals = d.proposals; integrity_findings = unique d.findings }

  abbrev pub with_targets :
      PaperPortfolio F → List Text → List Text → Option (Dict F) → Reconciliation F
  with_targets p symbols expected none = invalid
  with_targets p symbols expected (some targets) =
      if is_valid_target symbols expected targets
      then reconcile_positions p targets symbols
      else invalid

  abbrev pub mapped : Option (Dict (Option F)) → Option (Dict F)
  mapped none = none
  mapped (some raw) = targets_from (some []) raw

  -- `_reconcile`
  unfoldable pub reconcile : CommandIntent F → PaperPortfolio F → List Text → Reconciliation F
  reconcile intent p managed_symbols =
      if not (text_eq intent.schema_version (codes "ibkr.paper-execution-intent.v1"))
      then invalid
      else if not (text_eq intent.target_mode (codes "value"))
      then invalid
      else with_targets p (symbol_set intent.strategy_symbols) (symbol_set managed_symbols)
          (mapped intent.targets)
