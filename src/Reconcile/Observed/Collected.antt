-- ===== src/Reconcile/Observed/Collected.antt =====
-- application/broker_reconciliation.py: the observations of the selected accounts, and all of them.
use ibkrquant.Prelude.{
  ◌≡◌, refl, sym, ap, ◌∙◌, List, [], ◌++◌, Option, none, some, Text, codes, strip, mem_text, keep,
  length, All, All-append, sorted,
}
use mathlib.Core.Path.{subst}
use ibkrquant.Reconcile.Checked.{Checked, ok, refused, >>=-ok, ok-injective, Refusal}
use ibkrquant.Reconcile.Checked
use ibkrquant.Reconcile.Sources.Order.{sort_by-All, length-sort_by}
use ibkrquant.Reconcile.Observed.{
  OpenTrade, Fill, scope_ids, normalise_position, normalise_option_position, normalise_cash_balance,
  open_trade_account, order_record, execution_account, execution_record,
}
use ibkrquant.Reconcile.Observed.Surfaces.{
  Surfaces, Snapshot, Reprs, Observations, normalise_within, normalise_all, found,
  collect_observations,
}
use ibkrquant.Reconcile.Observed.Scope.{
  IsSelected, OptionIsSelected, IsBalance, normalise_within-All, normalise_all-All,
  order_record-account, execution_record-account, normalise_position-stock,
  normalise_option_position-selected, normalise_cash_balance-IsBalance,
}

-- What is observed of selected accounts, of the surfaces that the broker has.
pub record IsObserved {F : Type 0} (ib : Surfaces F) (selected : List Text) (o : Observations F)
    : Type 0 where
  pub scope : o.account_scope ≡ sorted selected
  pub options : All (OptionIsSelected selected) o.positions
  pub balances : All (IsBalance selected) o.cash
  pub orders : All (λ r. IsSelected selected (r.account)) o.open_orders
  pub executions : All (λ r. IsSelected selected (r.account)) o.recent_executions
  pub every_order :
      (trades : List (OpenTrade F)) × (ib.open_trades ≡ some trades)
      × (length o.open_orders
          ≡ length (keep (λ t. mem_text (strip (open_trade_account t)) selected) trades))
  pub every_execution :
      (fills : List (Fill F)) × (ib.executions ≡ some fills)
      × (length o.recent_executions
          ≡ length (keep (λ f. mem_text (strip (execution_account f)) selected) fills))

pub found-some : {A : Type 0} (o : Option A) (e : Refusal) (a : A) → found o e ≡ ok a → o ≡ some a
found-some none e a h = cc
found-some (some b) e a h = ap some (ok-injective b a h)

module _ {F : Type 0} (reprs : Reprs F) where
  -- What is collected is of the selected accounts alone: each cash record, with a tag that stands for a
  -- balance, each open order, each execution and each option position. And of the broker's open trades and
  -- fills, none of a selected account is left out.
  pub collect_observations-IsObserved :
      (ib : Surfaces F) (account_ids : Option (List Text)) (fetch : List Text → Option (Snapshot F))
      (o : Observations F)
      → collect_observations reprs ib account_ids fetch ≡ ok o
      → (selected : List Text) × (scope_ids account_ids ≡ ok selected) × IsObserved ib selected o
  unfolding collect_observations
  collect_observations-IsObserved ib account_ids fetch o h =
      let (selected, ids, h1) = >>=-ok (scope_ids account_ids) _ o h in
      let (managed, _, h2) = >>=-ok (found ib.managed_accounts Checked.no_identity) _ o h1 in
      let (snapshot, _, h3) = >>=-ok (found (fetch selected) Checked.snapshot_failed) _ o h2 in
      let (balances, _, h4) =
        >>=-ok (found snapshot.cash_balances Checked.no_cash_balances) _ o h3 in
      let (options, _, h5) = >>=-ok (found snapshot.option_positions Checked.bad_metadata) _ o h4 in
      let (stocks, made_stocks, h6) =
        >>=-ok (normalise_all normalise_position snapshot.positions) _ o h5 in
      let (option_records, made_options, h7) =
        >>=-ok (normalise_all (normalise_option_position selected) options) _ o h6 in
      let (trades, opened, h8) = >>=-ok (found ib.open_trades Checked.no_open_orders) _ o h7 in
      let (orders, made_orders, h9) =
        >>=-ok
          (normalise_within open_trade_account order_record (codes "open order") selected trades) _
          o h8 in
      let (fills, filled, h10) = >>=-ok (found ib.executions Checked.no_executions) _ o h9 in
      let (executions, made_executions, h11) =
        >>=-ok
          (normalise_within execution_account
            (λ f. execution_record (strip (execution_account f)) f.execution f.contract)
            (codes "execution") selected fills)
          _ o h10 in
      let (cash, made_cash, h12) =
        >>=-ok (normalise_all (normalise_cash_balance selected) balances) _ o h11 in
      let (orders_in, orders_count) =
        normalise_within-All open_trade_account order_record (codes "open order") selected
          (λ r. IsSelected selected (r.account)) trades orders
          (λ t r e made. subst (IsSelected selected) (sym (order_record-account t r made)) e)
          made_orders in
      let (executions_in, executions_count) =
        normalise_within-All execution_account
          (λ f. execution_record (strip (execution_account f)) f.execution f.contract)
          (codes "execution") selected (λ r. IsSelected selected (r.account)) fills executions
          (λ f r e made.
            subst (IsSelected selected)
              (sym (
                execution_record-account (strip (execution_account f)) f.execution f.contract r
                  made))
              e)
          made_executions in
      let stocks_in =
        normalise_all-All normalise_position (OptionIsSelected selected) snapshot.positions stocks
          (normalise_position-stock selected) made_stocks in
      let options_in =
        normalise_all-All (normalise_option_position selected) (OptionIsSelected selected) options
          option_records (normalise_option_position-selected selected) made_options in
      let cash_in =
        normalise_all-All (normalise_cash_balance selected) (IsBalance selected) balances cash
          (normalise_cash_balance-IsBalance selected) made_cash in
      (
        selected,
        ids,
        subst (IsObserved ib selected) (ok-injective _ o h12) (record {
          scope = refl;
          options =
              sort_by-All (λ r. (reprs.of_position r, [])) (OptionIsSelected selected)
                (stocks ++ option_records)
                (All-append (OptionIsSelected selected) stocks option_records stocks_in options_in);
          balances = sort_by-All (λ r. (reprs.of_cash r, [])) (IsBalance selected) cash cash_in;
          orders =
              sort_by-All (λ r. (reprs.of_order r, [])) (λ r. IsSelected selected (r.account))
                orders orders_in;
          executions =
              sort_by-All (λ r. (reprs.of_execution r, [])) (λ r. IsSelected selected (r.account))
                executions executions_in;
          every_order = (
            trades,
            found-some ib.open_trades Checked.no_open_orders trades opened,
            length-sort_by (λ r. (reprs.of_order r, [])) orders ∙ orders_count,
          );
          every_execution = (
            fills,
            found-some ib.executions Checked.no_executions fills filled,
            length-sort_by (λ r. (reprs.of_execution r, [])) executions ∙ executions_count,
          );
        }),
      )
