-- ===== src/Execution/Targets.antt =====
-- application/execution_service.py: the target weights and values of a cycle, and the prices.
pub mod Substitution
use ibkrquant.Prelude.{
  Bool, true, false, ◌&&◌, not, List, [], ◌∷◌, ◌++◌, Option, none, some, Text, normalize, unique,
  is_blank_text, is_empty, keep, map, Dict, lookup, insert, if◌then◌else◌,
}
use ibkrquant.Number.{Float, ◌⊕◌, ◌⊗◌, ◌≼◌, ◌≺◌, nought, max}
use ibkrquant.Execution.Types.{missing_allocation, target_mode_not_weight, Result, ok, raise}
use ibkrquant.Execution.Sizing.{value_of}

-- `signal_metadata["allocation"]`. `is_weight` is the test of `target_mode`.
pub record Allocation (F : Type 0) : Type 0 where
  pub is_weight : Bool
  pub strategy_symbols : List Text
  pub risk_symbols : List Text
  pub income_symbols : List Text
  pub safe_haven_symbols : List Text
  pub targets : Dict F

module _ {F : Type 0} where
  -- `{normalize(symbol): value for symbol, value in items}`
  unfoldable pub normalize_keys : Dict F → Dict F → Dict F
  unfolding insert normalize
  normalize_keys acc [] = acc
  normalize_keys acc ((k, v) ∷ d) = normalize_keys (insert (normalize k) v acc) d

  -- `_resolve_weight_allocation`
  unfoldable pub resolve_weight_allocation : Option (Allocation F) → Result (Allocation F)
  unfolding normalize_keys
  resolve_weight_allocation none = raise missing_allocation
  resolve_weight_allocation (some a) =
      if not a.is_weight
      then raise target_mode_not_weight
      else ok (record {
        is_weight = true;
        strategy_symbols = map normalize a.strategy_symbols;
        risk_symbols = map normalize a.risk_symbols;
        income_symbols = map normalize a.income_symbols;
        safe_haven_symbols = map normalize a.safe_haven_symbols;
        targets = normalize_keys [] a.targets;
      })

-- The result of `apply_small_account_cash_compatibility`, without the notes for the log.
pub record Compatibility (F : Type 0) : Type 0 where
  pub targets : Dict F
  pub whole_share_substituted_symbols : List Text
  pub safe_haven_cash_substituted_symbols : List Text

-- the symbols among the texts, normalised
abbrev pub symbols_of : List Text → List Text
symbols_of ss = keep (λ s. not (is_blank_text s)) (map normalize ss)

module _ {F : Type 0} ⦃f : Float F⦄ where
  -- `_positive_target_total`
  unfoldable pub positive_target_total : Dict F → F → F
  positive_target_total [] total = total
  positive_target_total ((_, v) ∷ d) total = positive_target_total d (total ⊕ max nought v)

  -- one turn of the loop of `_apply_safe_haven_cash_substitution_to_weights`
  unfoldable pub substitute_one : F → F → Text → Dict F → Dict F × Bool
  unfolding insert lookup
  substitute_one investable threshold symbol weights =
      let notional = max nought (investable ⊗ value_of symbol weights) in
      if nought ≺ notional && notional ≺ threshold
      then (insert symbol nought weights, true)
      else (weights, false)

  unfoldable pub substitute_from : F → F → List Text → Dict F × List Text → Dict F × List Text
  unfolding substitute_one
  substitute_from investable threshold [] acc = acc
  substitute_from investable threshold (s ∷ ss) (weights, substituted) =
      let (weights', taken) = substitute_one investable threshold s weights in
      substitute_from investable threshold ss
        (weights', if taken then substituted ++ s ∷ [] else substituted)

  -- `_apply_safe_haven_cash_substitution_to_weights`
  unfoldable pub apply_safe_haven_cash_substitution :
      Dict F → List Text → F → F → Dict F × List Text
  unfolding substitute_from normalize_keys
  apply_safe_haven_cash_substitution weights safe_haven investable threshold_usd =
      let threshold = max nought threshold_usd in
      let adjusted = normalize_keys [] weights in
      let (weights', substituted) =
        substitute_from investable threshold (symbols_of safe_haven) (adjusted, []) in
      if threshold ≼ nought then (adjusted, []) else (weights', unique substituted)

  -- one turn of the loop of `_project_unbuyable_value_targets_to_cash`
  unfoldable pub project_one : Dict F → F → Text → Dict F → Dict F × Bool
  unfolding insert lookup
  project_one prices step symbol targets =
      let target = max nought (value_of symbol targets) in
      let price = max nought (value_of symbol prices) in
      if nought ≺ price && (nought ≺ target && target ≺ price ⊗ step)
      then (insert symbol nought targets, true)
      else (targets, false)

  unfoldable pub project_from : Dict F → F → List Text → Dict F × List Text → Dict F × List Text
  unfolding project_one
  project_from prices step [] acc = acc
  project_from prices step (s ∷ ss) (targets, substituted) =
      let (targets', taken) = project_one prices step s targets in
      project_from prices step ss (targets', if taken then substituted ++ s ∷ [] else substituted)

  -- `_project_unbuyable_value_targets_to_cash`, for named candidates
  unfoldable pub project_unbuyable_value_targets_to_cash :
      Dict F → Dict F → List Text → F → Dict F × List Text
  unfolding project_from normalize_keys
  project_unbuyable_value_targets_to_cash targets prices candidates quantity_step =
      let step = max nought quantity_step in
      let adjusted = normalize_keys [] targets in
      let (targets', substituted) =
        project_from (normalize_keys [] prices) step (unique (map normalize candidates))
          (adjusted, []) in
      if step ≼ nought then (adjusted, []) else (targets', unique substituted)

  -- the loop over the safe havens of `apply_small_account_cash_compatibility`
  unfoldable pub clear_havens : List Text → Dict F × List Text → Dict F × List Text
  unfolding insert lookup
  clear_havens [] acc = acc
  clear_havens (s ∷ ss) (targets, cleared) = clear_havens ss (
      if nought ≺ value_of s targets
      then (insert s nought targets, cleared ++ s ∷ [])
      else (targets, cleared))

  -- `apply_small_account_cash_compatibility`, the version of the file itself
  unfoldable pub apply_small_account_cash_compatibility :
      Dict F → Dict F → List Text → List Text → F → F → Compatibility F
  unfolding project_unbuyable_value_targets_to_cash clear_havens positive_target_total
  apply_small_account_cash_compatibility targets prices candidates safe_haven step limit =
      let (adjusted, substituted) =
        project_unbuyable_value_targets_to_cash targets prices candidates step in
      let remaining =
        keep (λ s. nought ≺ value_of s adjusted) (unique (map normalize candidates)) in
      let clears =
        not (is_empty substituted)
        && is_empty remaining
        && positive_target_total adjusted nought ≼ max nought limit in
      let (cleared, havens) = clear_havens (unique (symbols_of safe_haven)) (adjusted, []) in
      if clears
      then record {
        targets = cleared;
        whole_share_substituted_symbols = substituted;
        safe_haven_cash_substituted_symbols = havens;
      }
      else record {
        targets = adjusted;
        whole_share_substituted_symbols = substituted;
        safe_haven_cash_substituted_symbols = [];
      }

  -- one turn of the loop of `_apply_snapshot_price_fallbacks`
  fallback_one : Dict F → Text → Dict F × List Text → Dict F × List Text
  fallback_one fallbacks symbol (prices, used) =
      let s = normalize symbol in
      if nought ≺ value_of s prices
      then (insert s (value_of s prices) prices, used)
      else if nought ≺ value_of s fallbacks
      then (insert s (value_of s fallbacks) prices, used ++ s ∷ [])
      else (prices, used)

  fallback_from : Dict F → List Text → Dict F × List Text → Dict F × List Text
  fallback_from fallbacks [] acc = acc
  fallback_from fallbacks (s ∷ ss) acc = fallback_from fallbacks ss (fallback_one fallbacks s acc)

  -- `_apply_snapshot_price_fallbacks`
  unfoldable pub apply_snapshot_price_fallbacks : Dict F → List Text → Dict F → Dict F × List Text
  unfolding fallback_from fallback_one insert lookup
  apply_snapshot_price_fallbacks prices symbols fallbacks =
      if is_empty fallbacks then (prices, []) else fallback_from fallbacks symbols (prices, [])

  -- the loop of `_normalize_price_fallbacks`, on the prices that are numbers
  unfoldable pub normalize_price_fallbacks : Dict F → Dict F → Dict F
  unfolding insert normalize
  normalize_price_fallbacks acc [] = acc
  normalize_price_fallbacks acc ((k, v) ∷ d) =
      normalize_price_fallbacks
        (if not (is_blank_text (normalize k)) && nought ≺ v
          then insert (normalize k) v acc
          else acc)
        d
