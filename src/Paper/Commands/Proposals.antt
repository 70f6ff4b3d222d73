-- ===== src/Paper/Commands/Proposals.antt =====
-- application/paper_execution_command_consumer.py: the symbols of the proposals of a command.
use ibkrquant.Prelude.{◌≡◌, not, List, Option, some, Text, keep, map, lookup, get_or, sorted, Dict}
use ibkrquant.Number.{Float, ◌⊖◌, ◌≼◌, nought, abs}
use ibkrquant.Paper.Commands.Checked.{IsTarget, AllCounted, IsBalanced}
use ibkrquant.Paper.Commands.{
  PaperPortfolio, Proposal, Reconciliation, Feed, Tally, finite, proposed, positive_price,
  notional_tolerance, positions_checked,
}

module _ {F : Type 0} ⦃f : Float F⦄ (feed : Feed F) (targets : Dict F) (t : Tally F) where
  -- the symbols that are out of tolerance
  abbrev pub unsettled : List Text → List Text
  unsettled = keep λ s. not (
      abs (get_or (lookup s targets) nought ⊖ get_or (lookup s t.current_values) nought)
      ≼ notional_tolerance)

  abbrev names : List (Proposal F) → List Text
  names = map (λ q. q.symbol)

-- A command that reconciled without a finding: `mapped` gives the targets, which are valid for the symbols of
-- the strategy; every position is counted and the equity is balanced; and the proposals are for the
-- symbols whose target and value differ by more than the tolerance, in order.
pub record Reconciled {F : Type 0} ⦃f : Float F⦄ (feed : Feed F) (o : Option (Dict F))
    (p : PaperPortfolio F) (symbols expected : List Text) (out : Reconciliation F) : Type 0 where
  pub targets : Dict F
  pub is_mapped : o ≡ some targets
  pub is_target : IsTarget symbols expected targets
  pub counted : AllCounted feed symbols 0 p.positions
  pub balanced : IsBalanced feed p (positions_checked feed p symbols).current_values
  pub proposed :
      map (λ q. q.symbol) out.proposals
      ≡ unsettled feed targets (positions_checked feed p symbols) (sorted symbols)
