-- ===== src/Examples/Observed.antt =====
-- The surfaces of a broker with two accounts, of which one is selected, and a candidate of them.
use ibkrquant.Prelude.{
  ℕ, ◌≡◌, refl, sym, ap, ◌∙◌, Bool, true, false, ◌&&◌, List, [], ◌∷◌, Option, none, some, Text,
  codes, text_eq, text_eq→path, Dict, lookup, length, is_empty, if◌then◌else◌, arith,
}
use mathlib.Core.Path.{subst}
use ibkrquant.Reconcile.Checked.{ok, ok-injective}
use ibkrquant.Reconcile.Observed.{
  Contract, Position, PositionRecord, stock, OptionPosition, option, Cell, CashRecord, OpenTrade,
  OrderRecord, Execution, Fill, ExecutionRecord, scope_ids,
}
use ibkrquant.Reconcile.Observed.Surfaces.{
  Surfaces, Snapshot, Reprs, Observations, collect_observations,
}
use ibkrquant.Reconcile.Observed.Collected.{IsObserved, collect_observations-IsObserved}
use ibkrquant.Reconcile.Decision.{
  Decoded, object, Baseline, EvidenceFields, Expected, DecisionKit, RecoveryCandidate,
  resolve_expected_digests, expected_digest_keys, build_reconciliation_candidate,
}
use ibkrquant.Reconcile.Decision.Closed.{
  IsClear, ReportsAll, IsExpected, build_reconciliation_candidate-IsExpected,
}

abbrev voo : Contract
voo = record {
  con_id = codes "1";
  symbol = codes "voo ";
  local_symbol = codes "VOO";
  sec_type = codes "stk";
  currency = codes "usd";
}

abbrev trade_of : Text → OpenTrade ℕ
trade_of account = record {
  order_account = [];
  account = account;
  contract = some voo;
  perm_id = codes "9";
  action = codes "buy";
  order_type = codes "LMT";
  total_quantity = some 5;
  limit_price = some 10;
  aux_price = some 0;
  status = codes "Submitted";
  filled = some 0;
  remaining = some 5;
}

abbrev fill_of : Text → Fill ℕ
fill_of account = record {
  account_number = codes " ";
  order_account = account;
  execution = some (record {
    execution_id = codes "e1";
    order_id = codes "9";
    time = codes "t";
    side = codes "bot";
    shares = some 2;
    price = some 10;
  });
  contract = some voo;
}

abbrev ib : Surfaces ℕ
ib = record {
  managed_accounts = some (codes "U1" ∷ codes "U2" ∷ []);
  open_trades = some (trade_of (codes "U2") ∷ trade_of (codes "U1") ∷ []);
  executions = some (fill_of (codes "U1") ∷ fill_of (codes "U2") ∷ []);
}

abbrev cash : Dict (Cell ℕ)
cash =
    (codes "account_id", record { text = codes "U1"; number = none })
    ∷ (codes "currency", record { text = codes "usd"; number = none })
    ∷ (codes "NetLiquidation", record { text = codes "900"; number = some 900 })
    ∷ (codes "CashBalance", record { text = codes "70"; number = some 70 })
    ∷ []

abbrev snapshot : Snapshot ℕ
snapshot = record {
  positions =
      record {
        symbol = codes "voo";
        quantity = some 3;
        average_cost = some 8;
        currency = codes "usd";
      }
      ∷ [];
  cash_balances = some (cash ∷ []);
  option_positions = some [];
}

abbrev reprs : Reprs ℕ
reprs = record {
  of_position = λ r. [];
  of_cash = λ r. r.account;
  of_order = λ r. r.account;
  of_execution = λ r. r.account;
}

abbrev contract : Contract
contract = record {
  con_id = codes "1";
  symbol = codes "VOO";
  local_symbol = codes "VOO";
  sec_type = codes "STK";
  currency = codes "USD";
}

abbrev observed : Observations ℕ
observed = record {
  account_scope = codes "U1" ∷ [];
  account_identity_match = true;
  positions = stock (codes "VOO") 3 8 (codes "USD") ∷ [];
  cash =
      record {
        account = codes "U1";
        currency = codes "USD";
        tag = codes "CashBalance";
        amount = 70;
      }
      ∷ [];
  open_orders =
      record {
        account = codes "U1";
        contract = contract;
        perm_id = codes "9";
        action = codes "BUY";
        order_type = codes "LMT";
        total_quantity = 5;
        limit_price = 10;
        aux_price = 0;
        status = codes "Submitted";
        filled = 0;
        remaining = 5;
      }
      ∷ [];
  recent_executions =
      record {
        account = codes "U1";
        contract = contract;
        execution_id = codes "e1";
        order_id = codes "9";
        time = codes "t";
        side = codes "BOT";
        shares = 2;
        price = 10;
      }
      ∷ [];
}

run_collect :
    collect_observations reprs ib (some (codes " U1" ∷ [])) (λ ids. some snapshot) ≡ ok observed
unfolding collect_observations ibkrquant.Reconcile.Observed.scope_ids ibkrquant.Prelude.strip
    ibkrquant.Prelude.lstrip ibkrquant.Prelude.unique ibkrquant.Prelude.unique_from
    ibkrquant.Prelude.mem_text text_eq ibkrquant.Prelude.upper lookup ibkrquant.Prelude.insert
    ibkrquant.Prelude.sorted ibkrquant.Reconcile.Observed.normalise_position
    ibkrquant.Reconcile.Observed.Surfaces.normalise_all
    ibkrquant.Reconcile.Observed.normalise_cash_balance
    ibkrquant.Reconcile.Observed.Surfaces.normalise_within
    ibkrquant.Reconcile.Observed.account_in_scope ibkrquant.Reconcile.Observed.numeric_tags
    ibkrquant.Reconcile.Observed.first_tag ibkrquant.Reconcile.Observed.open_trade_account
    ibkrquant.Reconcile.Observed.execution_account ibkrquant.Reconcile.Observed.safe_contract_fields
    ibkrquant.Reconcile.Sources.Records.sort_by ibkrquant.Reconcile.Sources.Records.insert_by
run_collect = refl

collect_observations-IsObserved_example :
    (selected : List Text) × (scope_ids (some (codes " U1" ∷ [])) ≡ ok selected)
    × IsObserved ib selected observed
collect_observations-IsObserved_example =
    collect_observations-IsObserved reprs ib (some (codes " U1" ∷ [])) (λ ids. some snapshot)
      observed run_collect

-- The package as one test, and digests that are the number of the records.
abbrev same_scope : Option Text → Text → Bool
same_scope none t = false
same_scope (some s) t = text_eq s t

abbrev is_clear : EvidenceFields → Expected → Bool
is_clear i x =
    i.account_identity_match
    && i.positions_match
    && i.cash_match
    && i.open_orders_match
    && i.recent_executions_match
    && i.local_execution_ledger_match
    && same_scope x.account_scope_sha256 i.account_scope_sha256

abbrev findings : Bool → List ℕ
findings b = if b then [] else 1 ∷ []

abbrev kit : DecisionKit ℕ EvidenceFields ℕ
kit = record {
  of_scope = λ ids. codes "a";
  of_positions = λ l. length l ∷ [];
  of_cash = λ l. length l ∷ [];
  of_orders = λ l. length l ∷ [];
  of_executions = λ l. length l ∷ [];
  recent_ledger = some (codes "l", 4);
  evidence = ok;
  evaluate = λ i x. findings (is_clear i x);
}

same_scope-some : (o : Option Text) (t : Text) → same_scope o t ≡ true → o ≡ some t
same_scope-some none t h = cc
same_scope-some (some s) t h = ap some (text_eq→path s t h)

IsClear-of : (i : EvidenceFields) (x : Expected) → is_clear i x ≡ true → IsClear i x
IsClear-of i x h = record {
  identity = ground arith;
  positions = ground arith;
  cash = ground arith;
  orders = ground arith;
  executions = ground arith;
  ledger = ground arith;
  scope = same_scope-some x.account_scope_sha256 i.account_scope_sha256 (ground arith);
}

no_findings : (b : Bool) → is_empty (findings b) ≡ true → b ≡ true
no_findings true h = refl
no_findings false h = cc

reports : ReportsAll kit
reports i x e made h =
    subst (λ j. IsClear j x) (sym (ok-injective i e made))
      (IsClear-of e x (no_findings (is_clear e x) h))

abbrev digests : Dict Text
digests =
    (codes "account_scope_sha256", codes "a")
    ∷ (codes "positions_sha256", 1 ∷ [])
    ∷ (codes "cash_sha256", 1 ∷ [])
    ∷ (codes "open_orders_sha256", 1 ∷ [])
    ∷ (codes "recent_executions_sha256", 1 ∷ [])
    ∷ (codes "local_execution_ledger_sha256", codes "l ")
    ∷ []

abbrev baseline : Baseline
baseline = record { baseline_id = codes "b1"; baseline_target_sha256 = codes "F0 " }

abbrev permitted : RecoveryCandidate EvidenceFields ℕ
permitted = record {
  evidence = record {
    platform_id = codes "ibkr";
    strategy_profile = codes "p";
    account_scope_sha256 = codes "a";
    baseline_id = codes "b1";
    baseline_target_sha256 = codes "f0";
    runtime_target_sha256 = codes "f0";
    observed_at = 100;
    broker_connected = true;
    account_identity_match = true;
    positions_match = true;
    cash_match = true;
    open_orders_match = true;
    recent_executions_match = true;
    local_execution_ledger_match = true;
    positions_sha256 = 1 ∷ [];
    cash_sha256 = 1 ∷ [];
    open_orders_sha256 = 1 ∷ [];
    recent_executions_sha256 = 1 ∷ [];
    local_execution_ledger_sha256 = codes "l";
  };
  recovery_blockers = [];
  expected_digests_configured = true;
  execution_ledger_records_count = 4;
}

run_decision :
    build_reconciliation_candidate kit
      (λ raw. object digests)
      (some (codes "{...}"))
      observed
      (some baseline)
      (codes "ibkr")
      (codes "p")
      100
      101
    ≡ ok permitted
unfolding build_reconciliation_candidate resolve_expected_digests ibkrquant.Prelude.strip lookup
    text_eq ibkrquant.Reconcile.Decision.continuity_fields ibkrquant.Prelude.lower
    ibkrquant.Reconcile.Decision.matches
run_decision = refl

build_reconciliation_candidate-IsExpected_example :
    (d : Dict Text) × (resolve_expected_digests (λ raw. object digests) (some (codes "{...}"))
      ≡ ok (some d))
    × IsExpected kit d observed
build_reconciliation_candidate-IsExpected_example =
    build_reconciliation_candidate-IsExpected kit (λ raw. object digests) (some (codes "{...}"))
      observed (some baseline) (codes "ibkr") (codes "p") 100 101 permitted reports run_decision
      refl
