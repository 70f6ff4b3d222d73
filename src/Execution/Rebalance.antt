-- ===== src/Execution/Rebalance.antt =====
-- application/execution_service.py: the arguments of `execute_rebalance`, and the targets, prices and
-- limits that it fixes before it plans.
use ibkrquant.Prelude.{
  Bool, ◌&&◌, not, List, [], ◌∷◌, ◌++◌, Option, none, some, Text, normalize, mem_text, unique,
  is_empty, keep, keys, map, Dict, insert, if◌then◌else◌,
}
use ibkrquant.Number.{Float, ◌⊖◌, ◌⊗◌, ◌≼◌, ◌≺◌, nought, max, is_zero, sum_from}
use ibkrquant.Execution.Sizing.{value_of}
use ibkrquant.Execution.Targets.{
  Allocation, apply_safe_haven_cash_substitution, Compatibility, apply_snapshot_price_fallbacks,
  normalize_price_fallbacks, symbols_of,
}
use ibkrquant.Execution.Plan.{SweepRule, Cycle}
use ibkrquant.Execution.Options.{OptionIntent}

pub record Position (F : Type 0) : Type 0 where
  pub quantity : F
  pub avg_cost : F

-- The arguments. Dates are normalised, and what `signal_metadata` lacks is empty.
pub record Args (F : Type 0) : Type 0 where
  pub positions : Dict (Position F)
  pub equity : F
  pub buying_power : F
  pub allocation : Option (Allocation F)
  pub option_order_intents : List (OptionIntent F)
  pub trade_date : Option Text
  pub snapshot_date : Option Text
  pub small_account_warning : Bool
  pub price_fallbacks : Dict F
  pub strategy_profile : Option Text
  pub account_group : Option Text
  pub service_name : Option Text
  pub account_ids : List Text
  pub dry_run_only : Bool
  pub execution_mode : Option Text
  pub cash_reserve_ratio : F
  pub rebalance_threshold_ratio : F
  pub limit_buy_premium : F
  pub cash_reserve_floor_usd : F
  pub quantity_step : F
  pub min_order_notional : F
  pub safe_haven_cash_substitute_threshold_usd : F
  pub market_currency : Text
  pub limit_buy_premium_by_symbol : Dict F
  pub cash_only_execution : Bool

-- What the function calls that is no code of the file: `quant_platform_kit`, the other modules of the
-- application, `float(text)`, the hash, and the order in which a set of symbols is iterated.
pub record Kit (F : Type 0) : Type 0 where
  pub sweep_rule : SweepRule F
  -- `apply_small_account_cash_compatibility`: targets, prices, candidates, havens, step, limit
  pub compatibility : Dict F → Dict F → List Text → List Text → F → F → Compatibility F
  pub iterate : List Text → List Text
  -- `evaluate_ibkr_paper_execution_admission`, if it is enabled, on the prices and the targets
  pub paper_admission : Option (Dict F → Dict F → Bool)
  -- the new-risk gate, if it is enabled: whether it prohibits purchases, and its reason codes
  pub new_risk : Option (Bool × List Text)
  pub target_hash : Dict F → Text
  pub parse : Text → Option F

-- What is fixed before the planning.
pub record Setup (F : Type 0) : Type 0 where
  pub cycle : Cycle F
  pub reserved : F
  pub target_weights : Dict F
  pub haven_substituted : List Text
  pub fallback_symbols : List Text
  pub whole_share_substituted : List Text
  pub havens_cleared : List Text

abbrev head_of : List Text → Option Text
head_of [] = none
head_of (s ∷ ss) = some s

module _ {F : Type 0} where
  abbrev pub quantities_of : Dict (Position F) → Dict F
  quantities_of = map (λ e. (e.0, e.1.quantity))

module _ {F : Type 0} ⦃f : Float F⦄ where
  -- `gross_positions`
  gross_positions : Dict (Position F) → F
  gross_positions positions = sum_from nought (map (λ e. e.1.quantity ⊗ e.1.avg_cost) positions)

  -- The equity that the cycle works with; `none` is the early return without equity.
  unfoldable pub resolve_equity : Args F → Option F
  unfolding gross_positions
  resolve_equity a =
      if a.equity ≼ nought
      then if a.cash_only_execution && nought ≺ gross_positions a.positions
        then some (gross_positions a.positions)
        else none
      else some a.equity

  abbrev zero_weights : List Text → Dict F → Dict F
  zero_weights [] weights = weights
  zero_weights (s ∷ ss) weights = zero_weights ss (insert s nought weights)

  abbrev pub market_values : Dict F → Dict F → List Text → Dict F
  market_values quantities prices [] = []
  market_values quantities prices (s ∷ ss) =
      (s, value_of s quantities ⊗ value_of s prices) ∷ market_values quantities prices ss

  abbrev candidates_of : Allocation F → Dict F → List Text
  candidates_of a targets =
      let named = unique (symbols_of (a.risk_symbols ++ a.income_symbols)) in
      if is_empty named
      then map normalize
          (keep (λ s. not (mem_text (normalize s) a.safe_haven_symbols)) (keys targets))
      else named

  abbrev all_symbols_of : Args F → Allocation F → Dict F → List Text
  all_symbols_of a alloc weights =
      let both = unique (keys weights ++ keys a.positions) in
      if is_empty alloc.strategy_symbols
      then both
      else keep (λ s. mem_text s alloc.strategy_symbols) both

  -- from `reserved` to the targets after the small-account compatibility
  unfoldable pub set_up : Args F → Kit F → Allocation F → F → (List Text → Dict F) → Setup F
  set_up a kit alloc equity quotes =
      let reserved = max (equity ⊗ a.cash_reserve_ratio) (max nought a.cash_reserve_floor_usd) in
      let investable = equity ⊖ reserved in
      let (weights, substituted) =
        apply_safe_haven_cash_substitution alloc.targets alloc.safe_haven_symbols investable
          a.safe_haven_cash_substitute_threshold_usd in
      let step = if is_zero a.quantity_step then f.lit 1 0 else a.quantity_step in
      let all = kit.iterate (all_symbols_of a alloc weights) in
      let (prices, fallback) =
        apply_snapshot_price_fallbacks (quotes all) all
          (normalize_price_fallbacks [] a.price_fallbacks) in
      let quantities = quantities_of a.positions in
      let target_mv = map (λ e. (e.0, investable ⊗ e.1)) weights in
      let small =
        kit.compatibility target_mv prices (candidates_of alloc target_mv) alloc.safe_haven_symbols
          step (f.lit 2000 0) in
      record {
        cycle = record {
          terms = record {
            threshold = equity ⊗ a.rebalance_threshold_ratio;
            quantity_step = step;
            minimum_order_notional = max nought a.min_order_notional;
            limit_buy_premium = a.limit_buy_premium;
            premium_by_symbol = a.limit_buy_premium_by_symbol;
            prices = prices;
            current_mv = market_values quantities prices all;
            target_mv = small.targets;
          };
          all_symbols = all;
          quantities = quantities;
          safe_haven_symbol = head_of alloc.safe_haven_symbols;
          sweep_rule = kit.sweep_rule;
        };
        reserved = reserved;
        target_weights =
            zero_weights small.safe_haven_cash_substituted_symbols
              (zero_weights small.whole_share_substituted_symbols weights);
        haven_substituted = substituted;
        fallback_symbols = fallback;
        whole_share_substituted = small.whole_share_substituted_symbols;
        havens_cleared = small.safe_haven_cash_substituted_symbols;
      }
