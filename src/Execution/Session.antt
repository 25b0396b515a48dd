-- ===== src/Execution/Session.antt =====
-- src/stock_trading/execution/session_paper.py with prices.py: the PAPER brokers that fill an order
-- on its own session. What the market database answers is a function.
pub mod Fills
use stock_traiding.Base.{
  ℕ, suc, ◌+◌, Bool, true, false, not, ◌&&◌, Option, none, some, List, [], ◌∷◌, Float, Result, ok,
  raise, value_error, raise_if, ◌>>=◌, ◌>>◌, Datetime, combine, ltb, ◌==◌, if◌then◌else◌, select,
  decimal, ◌≼◌, or_else,
}
use stock_traiding.Base.Dict.{lookup}
use stock_traiding.Engine.Contracts.{
  Identity, FeatureValue, str, null, metadata_get, metadata_put, OrderIntent, is_buy, buy, sell,
  execution_day,
}
use stock_traiding.Engine.Validation.{order_key}
use stock_traiding.Execution.Ledger.{LedgerFile, load, PaperPositionState}
use stock_traiding.Execution.Fill.{PriceProvider, Filled, fill, fill_buy, fill_sell}
use stock_traiding.Execution.Broker.{FillFunction}

pub record Bar (F : Type 0) : Type 0 where
  pub adj_open : F
  pub adj_close : F

-- `bar_on` and `bars_before`, which gives the last bars before a date, oldest first
pub record MarketStore (F : Type 0) : Type 0 where
  pub bar_on : Identity → ℕ → Option (Bar F)
  pub bars_before : Identity → ℕ → ℕ → List (Bar F)

module _ {F : Type 0} where
  -- `float(bars[-1].adj_close) if bars else None`
  abbrev pub last_close : List (Bar F) → Option F
  last_close [] = none
  last_close (b ∷ []) = some b.adj_close
  last_close (b ∷ c ∷ bs) = last_close (c ∷ bs)

  abbrev pub close_of : Option (Bar F) → Option F
  close_of none = none
  close_of (some bar) = some bar.adj_close

  -- `FixedPriceProvider`
  unfoldable pub fixed_price : (Identity → Option F) → PriceProvider F
  fixed_price prices security as_of = prices security

  -- `DuckDbClosePriceProvider`
  unfoldable pub close_price : MarketStore F → PriceProvider F
  close_price store security as_of = close_of (store.bar_on security as_of.date)

  -- `DuckDbLatestClosePriceProvider`
  unfoldable pub latest_close : MarketStore F → PriceProvider F
  latest_close store security as_of = last_close (store.bars_before security (as_of.date + 1) 1)

  -- `DuckDbPreviousClosePriceProvider`
  unfoldable pub previous_close : MarketStore F → PriceProvider F
  previous_close store security as_of = last_close (store.bars_before security as_of.date 1)

module _ {F : Type 0} ⦃fl : Float F⦄ where
  unfoldable pub pending_entry_orders : F → Option (LedgerFile F) → Result (List (OrderIntent F))
  pending_entry_orders starting_cash file = do
    state ← load starting_cash file
    ok (select (λ o. is_buy o.side) state.pending_orders)

  unfoldable pub submitted_entry_orders : F → Option (LedgerFile F) → Result (List (OrderIntent F))
  submitted_entry_orders starting_cash file = do
    state ← load starting_cash file
    ok (select (λ o. is_buy o.side) state.submitted_orders)

  module _ (position_digest : Identity → Identity → Identity → Identity)
      (per_side_cost_bps : F) where
    -- `SessionClosePaperExecutionBroker._fill`
    unfoldable pub session_close_fill : PriceProvider F → FillFunction F
    session_close_fill prices o as_of cash positions =
        if ltb as_of.date (execution_day o)
        then ok none
        else fill position_digest per_side_cost_bps prices o
            (combine (execution_day o) as_of.timetz) cash positions

    -- The fill of `SessionBarPaperExecutionBroker` on a bar: a buy at its open, marked at the close
    -- before; a sale at its close, marked at the latest close.
    unfoldable pub fill_on_bar :
        MarketStore F
        → OrderIntent F
        → Datetime
        → F
        → List (PaperPositionState F)
        → Bar F
        → Result (Filled F)
    fill_on_bar store o at cash positions bar = elim o.side [
      | buy ↦
          fill_buy position_digest per_side_cost_bps (previous_close store) o at bar.adj_open cash
            positions
      | sell ↦
          fill_sell position_digest per_side_cost_bps (latest_close store) o at bar.adj_close cash
            positions
    ]

    abbrev pub if_bar : Option (Bar F) → (Bar F → Result (Filled F)) → Result (Option (Filled F))
    if_bar none on = ok none
    if_bar (some bar) on = on bar >>= λ done. ok (some done)

    -- `SessionBarPaperExecutionBroker._fill`
    unfoldable pub session_bar_fill : MarketStore F → FillFunction F
    unfolding fill_on_bar
    session_bar_fill store o as_of cash positions =
        if ltb as_of.date (execution_day o)
        then ok none
        else if_bar (store.bar_on o.security_id (execution_day o))
            (fill_on_bar store o (combine (execution_day o) as_of.timetz) cash positions)
