-- ===== src/Paper/Commands/Managed.antt =====
-- application/paper_execution_command_consumer.py: the proposals stay among the symbols of the strategy.
use ibkrquant.Prelude.{
  same_set, ◌≡◌, refl, Bool, true, false, not, List, [], ◌∷◌, Option, none, some, Text, codes, All,
  All-append, all→All, sorted, sorted-All, mem_text, text_eq, Dict, if◌then◌else◌, arith,
}
use ibkrquant.Number.{Float}
use ibkrquant.Paper.Commands.{
  CommandIntent, PaperPortfolio, Proposal, Reconciliation, Feed, Tally, ProposalDraft, symbol_set,
  mapped, is_settled, proposed, proposal_of, propose_one, propose, is_valid_target,
  reconcile_positions, with_targets, reconcile, invalid,
}

-- The symbol of a proposal is one of these.
abbrev pub IsFor : {F : Type 0} → List Text → Proposal F → Type 0
IsFor symbols q = mem_text q.symbol symbols ≡ true

module _ {F : Type 0} ⦃f : Float F⦄ (feed : Feed F) (targets : Dict F) (t : Tally F)
    (managed : List Text) where
  proposed-IsFor :
      (s : Text) (price : Option F) (d : ProposalDraft F)
      → mem_text s managed ≡ true
      → All (IsFor managed) d.proposals
      → All (IsFor managed) (proposed feed targets t s price d).proposals
  unfolding proposal_of
  proposed-IsFor s none d h hs = hs
  proposed-IsFor s (some price) d h hs = All-append (IsFor managed) d.proposals _ hs (h, tt)

  turn-IsFor :
      (b : Bool) (x y : ProposalDraft F)
      → All (IsFor managed) x.proposals
      → All (IsFor managed) y.proposals
      → All (IsFor managed) (if b then x else y).proposals
  turn-IsFor true x y hx hy = hx
  turn-IsFor false x y hx hy = hy

  propose-IsFor :
      (ss : List Text) (d : ProposalDraft F)
      → All (λ s. mem_text s managed ≡ true) ss
      → All (IsFor managed) d.proposals
      → All (IsFor managed) (propose feed targets t ss d).proposals
  unfolding propose propose_one
  propose-IsFor [] d h hs = hs
  propose-IsFor (s ∷ ss) d h hs =
      propose-IsFor ss _ h.1
        (turn-IsFor (is_settled targets t.current_values s) d _ hs (proposed-IsFor s _ _ h.0 hs))

module _ {F : Type 0} ⦃f : Float F⦄ (feed : Feed F) (p : PaperPortfolio F)
    (symbols expected : List Text) where
  valid-same_set :
      (targets : Dict F)
      → is_valid_target symbols expected targets ≡ true
      → same_set symbols expected ≡ true
  unfolding is_valid_target
  valid-same_set targets h = ground arith

  same_set-All : same_set symbols expected ≡ true → All (λ s. mem_text s expected ≡ true) symbols
  same_set-All h = all→All (λ s. mem_text s expected) symbols (ground arith)

  valid-IsFor :
      (targets : Dict F) (b : Bool)
      → is_valid_target symbols expected targets ≡ b
      → All
          (IsFor expected)
          (if b then reconcile_positions feed p targets symbols else invalid).proposals
  unfolding reconcile_positions
  valid-IsFor targets true valid =
      propose-IsFor feed targets _ expected (sorted symbols) _
        (sorted-All (λ s. mem_text s expected ≡ true) symbols
          (same_set-All (valid-same_set targets valid)))
        tt
  valid-IsFor targets false valid = tt

  with_targets-IsFor :
      (o : Option (Dict F))
      → All (IsFor expected) (with_targets feed p symbols expected o).proposals
  with_targets-IsFor none = tt
  with_targets-IsFor (some targets) =
      valid-IsFor targets (is_valid_target symbols expected targets) refl

module _ {F : Type 0} where
  refused-IsFor :
      (expected : List Text) (b d : Bool) (x : Reconciliation F)
      → All (IsFor expected) x.proposals
      → All (IsFor expected) (if b then invalid else if d then invalid else x).proposals
  refused-IsFor expected true d x h = tt
  refused-IsFor expected false true x h = tt
  refused-IsFor expected false false x h = h

module _ {F : Type 0} ⦃f : Float F⦄ (feed : Feed F) where
  -- Every proposal is for a symbol that the strategy manages, whatever the command asks for and whatever
  -- the portfolio holds.
  pub reconcile-IsFor :
      (intent : CommandIntent F) (p : PaperPortfolio F) (managed : List Text)
      → All (IsFor (symbol_set managed)) (reconcile feed intent p managed).proposals
  unfolding reconcile
  reconcile-IsFor intent p managed =
      refused-IsFor (symbol_set managed)
        (not (text_eq intent.schema_version (codes "ibkr.paper-execution-intent.v1")))
        (not (text_eq intent.target_mode (codes "value")))
        (with_targets feed p (symbol_set intent.strategy_symbols) (symbol_set managed)
          (mapped feed intent.targets))
        (with_targets-IsFor feed p (symbol_set intent.strategy_symbols) (symbol_set managed)
          (mapped feed intent.targets))
