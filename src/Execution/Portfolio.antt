-- ===== src/Execution/Portfolio.antt =====
-- `PaperPortfolioStateProvider.snapshot` of src/stock_trading/execution/paper.py: the ledger, marked
-- at prices, as the engine's portfolio.
pub mod Parts
pub mod Snapshot
use stock_traiding.Base.{
  Option, none, some, List, [], ◌∷◌, map, Float, decimal, ◌⊕◌, ◌⊗◌, ◌⊘◌, ◌≼◌, ◌≺◌, min_of, max_of,
  Result, ok, value_error, raise_if, ◌>>=◌, ◌>>◌, Datetime, or_else, if◌then◌else◌, ℤ,
}
use stock_traiding.Engine.Contracts.{
  Identity, FeatureValue, float, int, str, null, PortfolioPosition, PortfolioSnapshot,
  check_position, check_snapshot,
}
use stock_traiding.Execution.Ledger.{PaperPositionState, PaperLedgerState, LedgerFile, load}
use stock_traiding.Execution.Fill.{PriceProvider}

-- A position with its mark and its value
pub record Marked (F : Type 0) : Type 0 where
  pub position : PaperPositionState F
  pub mark : F
  pub value : F

abbrev pub optional_int : {F : Type 0} → Option ℤ → FeatureValue F
optional_int none = null
optional_int (some n) = int n

abbrev pub optional_str : {F : Type 0} → Option Identity → FeatureValue F
optional_str none = null
optional_str (some s) = str s

module _ {F : Type 0} ⦃fl : Float F⦄ where
  abbrev pub marked_at : PaperPositionState F → F → Marked F
  marked_at p mark = record { position = p; mark = mark; value = p.shares ⊗ mark }

  unfoldable pub mark_positions :
      PriceProvider F → Datetime → List (PaperPositionState F) → Result (List (Marked F))
  mark_positions prices as_of [] = ok []
  mark_positions prices as_of (p ∷ ps) = do
    let mark = or_else (prices p.security_id as_of) p.last_price
    raise_if (mark ≼ decimal 0 0) (value_error "paper position has no valid mark price")
    rest ← mark_positions prices as_of ps
    ok (marked_at p mark ∷ rest)

  -- `sum(value …)`, which starts at 0
  unfoldable pub sum_values : F → List (Marked F) → F
  sum_values total [] = total
  sum_values total (v ∷ vs) = sum_values (total ⊕ v.value) vs

  -- `value / equity if equity > 0 else 0.0`
  abbrev pub share_of : F → F → F
  share_of equity value = if decimal 0 0 ≺ equity then value ⊘ equity else decimal 0 0

  abbrev pub portfolio_position : F → Marked F → PortfolioPosition F
  portfolio_position equity v = record {
    position_id = v.position.position_id;
    strategy_id = v.position.strategy_id;
    company_id = v.position.company_id;
    security_id = v.position.security_id;
    allocation_pct = share_of equity v.value;
    opened_on = v.position.opened_at.date;
    planned_exit_date = none;
    metadata =
        ("shares", float v.position.shares)
        ∷ ("average_entry_price", float v.position.average_entry_price)
        ∷ ("mark_price", float v.mark)
        ∷ ("horizon_sessions", optional_int v.position.horizon_sessions)
        ∷ ("candidate_id", optional_str v.position.candidate_id)
        ∷ ("event_id", optional_str v.position.event_id)
        ∷ [];
  }

  -- The positions with a value, each constructed and checked
  unfoldable pub portfolio_positions : F → List (Marked F) → Result (List (PortfolioPosition F))
  portfolio_positions equity [] = ok []
  portfolio_positions equity (v ∷ vs) =
      let rest = portfolio_positions equity vs in
      if decimal 0 0 ≺ v.value
      then (check_position (portfolio_position equity v)
          >> (rest >>= λ ps. ok (portfolio_position equity v ∷ ps)))
      else rest

  abbrev pub portfolio_snapshot :
      Datetime → F → F → F → List (PortfolioPosition F) → PortfolioSnapshot F
  portfolio_snapshot as_of equity cash exposure positions = record {
    as_of = as_of;
    equity = equity;
    cash = max_of (decimal 0 0) cash;
    gross_exposure_pct = min_of (decimal 1 0) (max_of (decimal 0 0) exposure);
    positions = positions;
  }

  unfoldable pub snapshot_state :
      PriceProvider F → Datetime → PaperLedgerState F → Result (PortfolioSnapshot F)
  unfolding mark_positions sum_values portfolio_positions
  snapshot_state prices as_of state = do
    values ← mark_positions prices as_of state.positions
    let gross_value = sum_values (decimal 0 0) values
    let equity = state.cash ⊕ gross_value
    positions ← portfolio_positions equity values
    check_snapshot
        (portfolio_snapshot as_of equity state.cash (share_of equity gross_value) positions)
    ok (portfolio_snapshot as_of equity state.cash (share_of equity gross_value) positions)

  unfoldable pub snapshot :
      F → PriceProvider F → Option (LedgerFile F) → Datetime → Result (PortfolioSnapshot F)
  unfolding snapshot_state
  snapshot starting_cash prices file as_of = load starting_cash file >>= snapshot_state prices as_of
