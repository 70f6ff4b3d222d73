-- ===== src/Execution/Types.antt =====
-- The values that application/execution_service.py passes around: orders, broker reports, the
-- execution summary with its buckets, and the broker as the code sees it.
use ibkrquant.Prelude.{Bool, Option, List, Text, Dict}

pub data Side : Type 0 where
  buy sell : Side

-- The exceptions that the code raises itself, and one that a broker call raises.
pub data Error : Type 0 where
  missing_allocation target_mode_not_weight dry_run_mode_without_flag bad_execution_mode : Error
  several_accounts execution_claim_required zero_division broker_error : Error
  owner_accounts_missing owner_not_single owner_label_refused owner_scope_refused : Error
  owner_fence_unavailable owner_fence_contested execution_claim_unavailable : Error
  admission_not_paper : Error

pub data Result (A : Type 0) : Type 0 where
  ok : A → Result A
  raise : Error → Result A

-- The texts of `skipped_reasons` and `no_op_reason`, `prefix:a,b` as a constructor with its parts.
pub data Reason (F : Type 0) : Type 0 where
  no_equity paper_execution_admission_blocked target_diff_below_threshold : Reason F
  option_orders_skipped small_account_below_recommended_equity account_new_risk_gate : Reason F
  broker_order_pending_confirmation : Reason F
  pending_orders_detected same_day_fills_detected missing_price : List Text → Reason F
  insufficient_buying_power min_notional quantity_zero pending_sell_release : List Text → Reason F
  same_day_execution_locked : Text → Option Text → Reason F
  negative_cash : F → Reason F
  submit_failed option_submit_failed : Text → Text → Reason F
  unsupported_option_intent_type option_insufficient_buying_power : Text → Reason F

-- `order_intent_cls(...)`
pub record Intent (F : Type 0) : Type 0 where
  pub symbol : Text
  pub side : Side
  pub quantity : F
  pub order_type : Option Text
  pub limit_price : Option F
  pub time_in_force : Option Text
  pub account_id : Option Text
  -- `security_type` of the metadata of an option order
  pub security_type : Option Text

-- The broker's report of a submitted order.
pub record Report (F : Type 0) : Type 0 where
  pub status : Text
  pub quantity : F
  pub filled_quantity : F
  pub average_fill_price : F
  pub broker_order_id : Option Text

-- The payload of an order in the summary. `action` is the side, or the action of an option intent.
pub record Row (F : Type 0) : Type 0 where
  pub symbol : Text
  pub action : Text
  pub quantity : F
  pub limit_price : Option F
  pub status : Text
  pub broker_order_id : Option Text

-- An entry of `orders_skipped` or `option_orders_skipped`.
pub record Skipped (F : Type 0) : Type 0 where
  pub symbol : Text
  pub action : Option Text
  pub quantity : Option F
  pub limit_price : Option F
  pub reason : Text

-- `orders_*` or `option_orders_*`
pub record Buckets (F : Type 0) : Type 0 where
  pub submitted : List (Row F)
  pub pending : List (Row F)
  pub filled : List (Row F)
  pub partially_filled : List (Row F)
  pub skipped : List (Skipped F)

pub data Status : Type 0 where
  not_started blocked no_op executing pending_reconciliation executed : Status

-- `execution_summary`, without the fields that are copied from the arguments.
pub record Summary (F : Type 0) : Type 0 where
  pub orders : Buckets F
  pub option_orders : Buckets F
  pub skipped_reasons : List (Reason F)
  pub execution_status : Status
  pub no_op_reason : Option (Reason F)
  pub cash_reserve_dollars : F
  pub safe_haven_cash_substituted_symbols : List Text
  pub small_account_whole_share_substituted_symbols : List Text
  pub small_account_safe_haven_cash_substituted_symbols : List Text
  pub small_account_buy_block_reason : Option (Reason F)
  pub account_new_risk_block_reason : Option (Reason F)
  pub account_new_risk_reason_codes : List Text
  pub snapshot_price_fallback_symbols : List Text
  pub pending_sell_release_symbols : List Text
  pub projected_sell_release_value : F
  pub residual_cash_estimate : F
  pub lock_path : Option Text

pub record AccountValue : Type 0 where
  pub account : Text
  pub tag : Text
  pub currency : Text
  pub value : Text

-- What the code reads of an entry of `ib.openTrades()`.
pub record OpenOrder : Type 0 where
  pub symbol : Text
  pub status : Text
  -- `order.account`, then `account`
  pub order_account : Text
  pub account : Text

-- What the code reads of an entry of `ib.fills()`. The times are ISO dates.
pub record Fill : Type 0 where
  pub symbol : Text
  -- `execution.acctNumber`, `execution.account` and `account`
  pub execution_number : Text
  pub execution_account : Text
  pub account : Text
  -- `execution.time` and `time`
  pub execution_time : Option Text
  pub time : Option Text

-- The broker session and the process around it. `S` is its state; reads are functions of it.
pub record Broker (F S : Type 0) : Type 0 where
  -- the delegate of `submit_order_intent`; a raise is `raise`
  pub submit : Intent F → S → Result (Report F) × S
  -- `acquire_execution_claim()`, which may raise
  pub claim : Option (S → Result Bool × S)
  -- `time.sleep(sell_settle_delay_sec)`
  pub settle : S → S
  pub account_values : S → List AccountValue
  pub open_orders : S → List OpenOrder
  pub fills : S → List Fill
  -- `fetch_quote_snapshots`: the last prices
  pub quotes : List Text → S → Dict F

-- The world of a run: the session, every order handed to the broker so far, and the lock files
-- with the target hash that each holds.
pub record World (F S : Type 0) : Type 0 where
  pub session : S
  pub sent : List (Intent F)
  pub locks : Dict Text
