-- ===== src/Paper/Admission/Closed.antt =====
-- application/paper_execution_admission.py: what an admitted write rests on.
use ibkrquant.Prelude.{
  ◌≡◌, ◌≢◌, refl, sym, ◌∙◌, ap, Bool, true, false, not, ◌&&◌, List, [], ◌∷◌, ◌++◌, Option, none,
  some, Text, codes, strip, lower, mem_text, text_eq, text_eq→path, is_blank_text, all, map, All,
  arith,
}
use mathlib.Core.List.{append-nil, append_assoc}
use ibkrquant.Paper.Admission.Priced.{IsPriced, facts_from-IsPriced}
use ibkrquant.Number.{Float}
use ibkrquant.Paper.Commands.{Effect, mismatch}
use ibkrquant.Paper.Admission.{
  PaperCommand, Submitted, absent, malformed, command, Fact, AdmissionArgs, AdmissionKit,
  append_finding, append_findings, require, effective_session, load_findings,
  command_contract_findings, exposed_symbols, fact, fact_of, with_fact, facts_from, exposure_facts,
  command_findings, admission_findings, effects, evaluate_paper_execution_admission,
}

append_finding_not_nil : {B : Type 0} (fs : List Text) (g : Text) → append_finding fs g ≡ [] → B
unfolding append_finding mem_text
append_finding_not_nil [] g h = cc
append_finding_not_nil (x ∷ fs) g h = ground arith

append_findings-nil : (fs gs : List Text) → append_findings fs gs ≡ [] → (fs ≡ []) × (gs ≡ [])
unfolding append_findings
append_findings-nil fs [] h = (h, refl)
append_findings-nil fs (g ∷ gs) h =
    append_finding_not_nil fs g (append_findings-nil (append_finding fs g) gs h).0

require-nil : (b : Bool) (g : Text) (fs : List Text) → require b g fs ≡ [] → (b ≡ true) × (fs ≡ [])
require-nil true g fs h = (refl, h)
require-nil false g fs h = append_finding_not_nil fs g h

module _ {F : Type 0} ⦃f : Float F⦄ (kit : AdmissionKit F) (a : AdmissionArgs F) where
  abbrev names : List (Fact F) → List Text
  names = map (λ x. x.symbol)

  names-snoc : (xs : List (Fact F)) (x : Fact F) → names (xs ++ x ∷ []) ≡ names xs ++ x.symbol ∷ []
  names-snoc [] x = refl
  names-snoc (y ∷ xs) x = ap (λ zs. y.symbol ∷ zs) (names-snoc xs x)

  fact-symbol :
      (s : Text) (quantity target price : Option F) (x : Fact F)
      → fact s quantity target price ≡ some x
      → x.symbol ≡ s
  fact-symbol s (some q) (some t) (some p) x h = ground arith
  fact-symbol s none t p x h = cc
  fact-symbol s (some q) none p x h = cc
  fact-symbol s (some q) (some t) none x h = cc

  with_fact-names :
      (o : Option (Fact F)) (s : Text) (facts : List (Fact F)) (findings : List Text)
      → ((x : Fact F) → o ≡ some x → x.symbol ≡ s)
      → (with_fact kit a o (facts, findings)).1 ≡ []
      → (findings ≡ []) × (names (with_fact kit a o (facts, findings)).0 ≡ names facts ++ s ∷ [])
  with_fact-names none s facts findings h e = append_finding_not_nil findings mismatch e
  with_fact-names (some x) s facts findings h e =
      (e, names-snoc facts x ∙ ap (λ t. names facts ++ t ∷ []) (h x refl))

  fact_of-symbol : (s : Text) (x : Fact F) → fact_of kit a s ≡ some x → x.symbol ≡ s
  unfolding fact_of
  fact_of-symbol s = fact-symbol s _ _ _

  facts_from-names :
      (ss : List Text) (facts : List (Fact F)) (findings : List Text)
      → (facts_from kit a (facts, findings) ss).1 ≡ []
      → (findings ≡ []) × (names (facts_from kit a (facts, findings) ss).0 ≡ names facts ++ ss)
  unfolding facts_from
  facts_from-names [] facts findings h = (h, sym (append-nil _))
  facts_from-names (s ∷ ss) facts findings h =
      let p =
        facts_from-names ss (with_fact kit a (fact_of kit a s) (facts, findings)).0
          (with_fact kit a (fact_of kit a s) (facts, findings)).1 h in
      let q = with_fact-names (fact_of kit a s) s facts findings (fact_of-symbol s) p.0 in
      (q.0, p.1 ∙ ap (λ xs. xs ++ ss) q.1 ∙ append_assoc (names facts) (s ∷ []) ss)

-- A cycle whose paper command is for this platform, mode, profile, scope and session, with no finding of
-- its own and no option order, and with a fact for every symbol of the positions and targets, in order: a
-- finite quantity and target that are not negative, and a finite positive price.
pub record Admissible {F : Type 0} ⦃f : Float F⦄ (kit : AdmissionKit F) (a : AdmissionArgs F)
    : Type 0 where
  pub submission : PaperCommand
  pub submitted : a.submitted ≡ command submission
  pub platform : submission.platform ≡ codes "ibkr"
  pub execution_mode : submission.execution_mode ≡ codes "paper"
  pub strategy_profile : submission.strategy_profile ≡ lower (strip a.strategy_profile)
  pub account_scope : submission.account_scope ≡ lower (strip a.account_scope)
  pub effective_date : submission.effective_date ≡ effective_session a.effective_date a.trade_date
  pub has_session : is_blank_text (effective_session a.effective_date a.trade_date) ≡ false
  pub no_findings : kit.admission_findings submission ≡ []
  pub no_options : a.has_option_order_intents ≡ false
  pub facts :
      map (λ x. x.symbol) (exposure_facts kit a).0
      ≡ exposed_symbols a.positions a.target_market_values
  pub priced : All (IsPriced kit a) (exposed_symbols a.positions a.target_market_values)

text_eq-both : (b d : Bool) → not b && d ≡ true → (b ≡ false) × (d ≡ true)
text_eq-both true d h = cc
text_eq-both false d h = (refl, h)

module _ {F : Type 0} ⦃f : Float F⦄ (kit : AdmissionKit F) (a : AdmissionArgs F) where
  contract-Admissible :
      (s : Submitted)
      → a.submitted ≡ s
      → load_findings s ≡ []
      → command_contract_findings s a.strategy_profile a.account_scope
          (effective_session a.effective_date a.trade_date)
        ≡ []
      → command_findings kit a s ≡ []
      → a.has_option_order_intents ≡ false
      → map (λ x. x.symbol) (exposure_facts kit a).0
        ≡ exposed_symbols a.positions a.target_market_values
      → All (IsPriced kit a) (exposed_symbols a.positions a.target_market_values)
      → Admissible kit a
  unfolding load_findings command_contract_findings
  contract-Admissible absent e l h g o x y = cc
  contract-Admissible malformed e l h g o x y = cc
  contract-Admissible (command c) e l h g o x y =
      let p₁ =
        require-nil
          (not (is_blank_text (effective_session a.effective_date a.trade_date))
            && text_eq c.effective_date (effective_session a.effective_date a.trade_date))
          (codes "signal_timing_invalid") _ h in
      let p₂ =
        require-nil (text_eq c.account_scope (lower (strip a.account_scope)))
          (codes "durable_event_history_invalid") _ p₁.1 in
      let p₃ =
        require-nil (text_eq c.strategy_profile (lower (strip a.strategy_profile)))
          (codes "command_digest_mismatch") _ p₂.1 in
      let p₄ =
        require-nil (text_eq c.execution_mode (codes "paper"))
          (codes "paper_execution_mode_invalid") _ p₃.1 in
      let p₅ =
        require-nil (text_eq c.platform (codes "ibkr")) (codes "durable_event_history_invalid") _
          p₄.1 in
      let session =
        text_eq-both (is_blank_text (effective_session a.effective_date a.trade_date))
          (text_eq c.effective_date (effective_session a.effective_date a.trade_date)) p₁.0 in
      record {
        submission = c;
        submitted = e;
        platform = text_eq→path _ _ p₅.0;
        execution_mode = text_eq→path _ _ p₄.0;
        strategy_profile = text_eq→path _ _ p₃.0;
        account_scope = text_eq→path _ _ p₂.0;
        effective_date = text_eq→path _ _ session.1;
        has_session = session.0;
        no_findings = g;
        no_options = o;
        facts = x;
        priced = y;
      }

  not-true : (b : Bool) → not b ≡ true → b ≡ false
  not-true true h = cc
  not-true false h = refl

  findings-Admissible : admission_findings kit a ≡ [] → Admissible kit a
  unfolding admission_findings exposure_facts
  findings-Admissible h =
      let p = append_findings-nil _ _ h in
      let q =
        require-nil (not a.has_option_order_intents) (codes "durable_event_history_invalid") _
          p.0 in
      let r = append_findings-nil _ _ q.1 in
      let u = append_findings-nil _ _ r.0 in
      let v =
        facts_from-names kit a (exposed_symbols a.positions a.target_market_values) [] [] p.1 in
      contract-Admissible a.submitted refl u.0 u.1 r.1 (not-true a.has_option_order_intents q.0) v.1
        (facts_from-IsPriced kit a (exposed_symbols a.positions a.target_market_values) [] [] p.1).1

  allowed-findings :
      (facts : List (Fact F)) (findings : List Text)
      → ((e : Effect)
          → findings ≢ []
          → kit.gate a.submitted (effective_session a.effective_date a.trade_date) e findings
            ≡ false)
      → all
          (λ e. kit.gate a.submitted (effective_session a.effective_date a.trade_date) e findings)
          (effects kit a facts)
        ≡ true
      → findings ≡ []
  allowed-findings facts [] closed h = refl
  allowed-findings [] (g ∷ gs) closed h =
      (let shut = closed Effect.neutral (λ e. cc) in ground arith)
  allowed-findings (x ∷ xs) (g ∷ gs) closed h =
      (let shut = closed x.exposure_effect (λ e. cc) in ground arith)

  -- Where the command gate allows no write in the presence of a finding, a write of the broker is allowed
  -- only for a cycle whose paper command is admissible, without option orders, and where every symbol
  -- that the cycle holds or aims at has a finite quantity and target, neither negative, and a finite
  -- positive price.
  pub evaluate_paper_execution_admission-Admissible :
      ((s : Submitted) (session : Text) (e : Effect) (findings : List Text)
        → findings ≢ []
        → kit.gate s session e findings ≡ false)
      → (evaluate_paper_execution_admission kit a).broker_write_allowed ≡ true
      → Admissible kit a
  unfolding evaluate_paper_execution_admission
  evaluate_paper_execution_admission-Admissible closed h =
      findings-Admissible (
        allowed-findings (exposure_facts kit a).0 (admission_findings kit a) (λ e. closed _ _ e _)
          h)
