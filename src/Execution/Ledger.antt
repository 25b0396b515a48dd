-- ===== src/Execution/Ledger.antt =====
-- The durable PAPER account of src/stock_trading/execution/paper.py: `PaperPositionState`,
-- `PaperLedgerState` and `FilePaperLedger`. A file is what its JSON text decodes to, `none` when
-- there is none; the atomic replacement of the file is one assignment.
use stock_traiding.Base.{
  Bool, false, not, String, infinity, negated, ◌&&◌, ◌||◌, Option, none, some, List, [], map, Float,
  decimal, ◌≼◌, ◌≺◌, ◌⊖◌, Result, ok, value_error, raise_if, rethrow, check_each, ◌>>◌, Datetime,
  datetime_eq, datetime_lt, ℤ, or_else, ltb, ◌==◌, elem, any, has_duplicates,
}
use stock_traiding.Engine.Contracts.{
  Identity, FeatureValue, float, int, str, bool, null, OrderIntent, ExecutionReport, check_order,
  check_report, execution_day,
}
use stock_traiding.Engine.Validation.{order_key, report_key}

pub record PaperPositionState (F : Type 0) : Type 0 where
  pub position_id : Identity
  pub strategy_id : Identity
  pub company_id : Identity
  pub security_id : Identity
  pub shares : F
  pub average_entry_price : F
  pub opened_at : Datetime
  pub last_price : F
  pub horizon_sessions : Option ℤ
  pub candidate_id : Option Identity
  pub event_id : Option Identity

pub record PaperLedgerState (F : Type 0) : Type 0 where
  pub cash : F
  pub positions : List (PaperPositionState F)
  pub pending_orders : List (OrderIntent F)
  pub completed_reports : List (ExecutionReport F)
  pub submitted_orders : List (OrderIntent F)

-- The payload of the file; a file of the first release has no submitted orders.
pub record LedgerFile (F : Type 0) : Type 0 where
  pub cash : F
  pub positions : List (PaperPositionState F)
  pub pending_orders : List (OrderIntent F)
  pub completed_reports : List (ExecutionReport F)
  pub submitted_orders : Option (List (OrderIntent F))

module _ {F : Type 0} where
  abbrev pub position_key : PaperPositionState F → Identity
  position_key p = p.position_id

  abbrev pub company_key : PaperPositionState F → Identity
  company_key p = p.company_id

  -- The order of `_order_sort_key`
  abbrev pub order_before : OrderIntent F → OrderIntent F → Bool
  order_before a b =
      ltb (execution_day a) (execution_day b)
      || execution_day a == execution_day b
        && (datetime_lt a.created_at b.created_at
            || datetime_eq a.created_at b.created_at && ltb a.order_id b.order_id)

  -- The order of the completed reports in the file
  abbrev pub report_before : ExecutionReport F → ExecutionReport F → Bool
  report_before a b = ltb a.order_id b.order_id

  -- `payload` of `save`, as the file that it makes
  unfoldable pub payload : PaperLedgerState F → Option (LedgerFile F)
  payload s = some (record {
    cash = s.cash;
    positions = s.positions;
    pending_orders = s.pending_orders;
    completed_reports = s.completed_reports;
    submitted_orders = some s.submitted_orders;
  })

module _ {F : Type 0} ⦃fl : Float F⦄ where
  -- The floats that `json.dumps(…, allow_nan=False)` refuses: NaN and the infinities
  abbrev pub is_refused : F → Bool
  is_refused x = not (x ≼ x) || infinity ≼ x || x ≼ negated infinity

  abbrev refused_feature : String × FeatureValue F → Bool
  refused_feature (name, float x) = is_refused x
  refused_feature (name, int n) = false
  refused_feature (name, str s) = false
  refused_feature (name, bool b) = false
  refused_feature (name, null) = false

  abbrev refused_order : OrderIntent F → Bool
  refused_order o = is_refused o.allocation_pct || any refused_feature o.metadata

  abbrev refused_price : Option F → Bool
  refused_price none = false
  refused_price (some x) = is_refused x

  abbrev refused_position : PaperPositionState F → Bool
  refused_position p =
      is_refused p.shares || is_refused p.average_entry_price || is_refused p.last_price

  unfoldable pub is_unencodable : PaperLedgerState F → Bool
  is_unencodable s =
      is_refused s.cash
      || any refused_position s.positions
      || any refused_order s.pending_orders
      || any (λ r. refused_price r.fill_price) s.completed_reports
      || any refused_order s.submitted_orders

  -- `FilePaperLedger.save`, which gives the new file
  unfoldable pub save : PaperLedgerState F → Result (Option (LedgerFile F))
  unfolding is_unencodable
  save s =
      raise_if (is_unencodable s) (value_error "Out of range float values are not JSON compliant")
      >> ok (payload s)

  unfoldable pub check_paper_position : PaperPositionState F → Result (Unit {0})
  check_paper_position p = do
    raise_if (p.shares ≼ decimal 0 0) (value_error "paper position shares must be > 0")
    raise_if (p.average_entry_price ≼ decimal 0 0 || p.last_price ≼ decimal 0 0)
        (value_error "paper position prices must be > 0")

  unfoldable pub check_ledger : PaperLedgerState F → Result (Unit {0})
  check_ledger s = do
    let pending_ids = map order_key s.pending_orders
    let completed_ids = map report_key s.completed_reports
    raise_if (s.cash ≺ decimal 0 0 ⊖ decimal 1 9) (value_error "paper cash must be >= 0")
    raise_if (has_duplicates (map position_key s.positions))
        (value_error "duplicate paper position_id")
    raise_if (has_duplicates pending_ids) (value_error "duplicate pending paper order_id")
    raise_if (has_duplicates completed_ids) (value_error "duplicate completed paper order_id")
    raise_if (any (λ id. elem id completed_ids) pending_ids)
        (value_error "paper order cannot be pending and completed")
    raise_if (has_duplicates (map order_key s.submitted_orders))
        (value_error "duplicate submitted paper order_id")

  abbrev pub starting_state : F → PaperLedgerState F
  starting_state cash = record {
    cash = cash;
    positions = [];
    pending_orders = [];
    completed_reports = [];
    submitted_orders = [];
  }

  abbrev pub decoded_state : LedgerFile F → PaperLedgerState F
  decoded_state f = record {
    cash = f.cash;
    positions = f.positions;
    pending_orders = f.pending_orders;
    completed_reports = f.completed_reports;
    submitted_orders = or_else f.submitted_orders f.pending_orders;
  }

  -- The constructors that decoding calls, in order
  unfoldable pub construct : PaperLedgerState F → Result (PaperLedgerState F)
  construct s = do
    check_each check_order s.pending_orders
    check_each check_order s.submitted_orders
    check_each check_paper_position s.positions
    check_each check_report s.completed_reports
    check_ledger s
    ok s

  unfoldable pub load : F → Option (LedgerFile F) → Result (PaperLedgerState F)
  load starting_cash none =
      check_ledger (starting_state starting_cash) >> ok (starting_state starting_cash)
  load starting_cash (some f) =
      rethrow (value_error "invalid paper ledger") (construct (decoded_state f))

  -- The check of `FilePaperLedger.__init__`
  unfoldable pub check_starting_cash : F → Result (Unit {0})
  check_starting_cash starting_cash =
      raise_if (starting_cash ≼ decimal 0 0) (value_error "starting_cash must be > 0")
