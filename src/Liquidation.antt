-- ===== src/Liquidation.antt =====
-- application/paper_liquidation_service.py: closing the positions of a paper account.
pub mod Accounting
use ibkrquant.Prelude.{
  ℕ, Bool, true, false, ◌&&◌, ◌||◌, not, List, [], ◌∷◌, ◌++◌, Option, none, some, Text, codes,
  normalize, mem_text, is_blank_text, is_empty, map, length, get_or, if◌then◌else◌,
}
use ibkrquant.Number.{Float, ◌⊖◌, ◌≼◌, ◌≺◌, nought, is_zero, abs}
use ibkrquant.Execution.Types.{Result, ok, raise}

-- `ACCEPTED_ORDER_STATUSES`
abbrev pub accepted_order_statuses : List Text
accepted_order_statuses =
    codes "PendingSubmit"
    ∷ codes "ApiPending"
    ∷ codes "ApiPendingSubmit"
    ∷ codes "Submitted"
    ∷ codes "PreSubmitted"
    ∷ codes "Filled"
    ∷ codes "PartiallyFilled"
    ∷ codes "Partial"
    ∷ []

-- a position that is a dict, with the key that a dict of positions has it under; `quantity` is its
-- quantity, or else its `position`
pub record Held (F : Type 0) : Type 0 where
  pub hint : Option Text
  pub symbol : Option Text
  pub quantity : F

pub record Close (F : Type 0) : Type 0 where
  pub symbol : Text
  pub side : Text
  pub quantity : F

-- the dict of a report, or of a simulated order
pub record Payload (F : Type 0) : Type 0 where
  pub symbol : Text
  pub side : Text
  pub quantity : F
  pub status : Text

pub data LiquidationStatus : Type 0 where
  no_op dry_run executing submitted blocked : LiquidationStatus

pub record LiquidationSummary (F : Type 0) : Type 0 where
  pub dry_run_mode : Bool
  pub positions_seen : ℕ
  pub orders_submitted : List (Payload F)
  -- with the reason
  pub orders_skipped : List (Payload F × Text)
  pub execution_status : LiquidationStatus

abbrev or_text : Text → Text → Text
or_text t default = if is_blank_text t then default else t

-- `_position_symbol`
unfoldable pub position_symbol : {F : Type 0} → Held F → Text
unfolding normalize
position_symbol p = normalize (or_text (get_or p.symbol []) (get_or p.hint []))

module _ {F : Type 0} ⦃f : Float F⦄ where
  -- `build_liquidation_intents`
  unfoldable pub build_liquidation_intents : List (Held F) → List (Close F)
  unfolding position_symbol is_zero abs
  build_liquidation_intents [] = []
  build_liquidation_intents (p ∷ ps) =
      let rest = build_liquidation_intents ps in
      if is_blank_text (position_symbol p) || is_zero p.quantity
      then rest
      else record {
        symbol = position_symbol p;
        side = if nought ≺ p.quantity then codes "sell" else codes "buy";
        quantity = abs p.quantity;
      }
        ∷ rest

abbrev pub simulated : {F : Type 0} → Close F → Payload F
simulated i = record {
  symbol = i.symbol;
  side = i.side;
  quantity = i.quantity;
  status = codes "dry_run";
}

module _ {F : Type 0} where
  -- one turn of the loop over the reports
  unfoldable pub account_for : Payload F → LiquidationSummary F → LiquidationSummary F
  unfolding mem_text
  account_for p s =
      if mem_text p.status accepted_order_statuses
      then record s { orders_submitted = s.orders_submitted ++ p ∷ [] }
      else record s {
        orders_skipped = s.orders_skipped ++ (p, or_text p.status (codes "submit_failed")) ∷ [];
      }

  -- `summary` as it is first built
  abbrev pub first_summary : Bool → List (Held F) → List (Close F) → LiquidationSummary F
  first_summary dry_run_only positions intents = record {
    dry_run_mode = dry_run_only;
    positions_seen = length positions;
    orders_submitted = [];
    orders_skipped = [];
    execution_status =
        if is_empty intents
        then LiquidationStatus.no_op
        else if dry_run_only
        then LiquidationStatus.dry_run
        else LiquidationStatus.executing;
  }

  abbrev pub finish : LiquidationSummary F → LiquidationSummary F
  finish s = record s {
    execution_status =
        if is_empty s.orders_submitted
        then LiquidationStatus.blocked
        else LiquidationStatus.submitted;
  }

-- goes on with a report, or leaves with the error
abbrev pub proceed : {A B S : Type 0} → Result A → S → (A → S → Result B × S) → Result B × S
proceed (ok a) session k = k a session
proceed (raise e) session k = (raise e, session)

module _ {F S : Type 0} (submit : Close F → S → Result (Payload F) × S) where
  -- the loop over the intents, which an error of the broker leaves
  unfoldable pub submit_all :
      List (Close F) → LiquidationSummary F → S → Result (LiquidationSummary F) × S
  submit_all [] s session = (ok (finish s), session)
  submit_all (i ∷ is) s session =
      proceed (submit i session).0 (submit i session).1 (λ p. submit_all is (account_for p s))

  -- what is done with the intents
  unfoldable pub liquidate :
      List (Held F) → Bool → List (Close F) → S → Result (LiquidationSummary F) × S
  unfolding submit_all
  liquidate positions dry_run_only [] session =
      (ok (first_summary dry_run_only positions []), session)
  liquidate positions true (i ∷ is) session = (
    ok (record (first_summary true positions (i ∷ is)) {
      orders_submitted = map simulated (i ∷ is);
    }),
    session,
  )
  liquidate positions false (i ∷ is) session =
      submit_all (i ∷ is) (first_summary false positions (i ∷ is)) session

  -- `execute_paper_liquidation`
  unfoldable pub execute_paper_liquidation :
      ⦃f : Float F⦄ → List (Held F) → Bool → S → Result (LiquidationSummary F) × S
  unfolding liquidate
  execute_paper_liquidation positions dry_run_only session =
      liquidate positions dry_run_only (build_liquidation_intents positions) session
