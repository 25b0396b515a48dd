-- ===== src/Execution/Fill.antt =====
-- The fills of `PaperExecutionBroker` in src/stock_trading/execution/paper.py: `_fill`,
-- `_fill_buy`, `_fill_sell` and `_marked_equity`. The list of positions that the source mutates is
-- passed and returned; a price provider is a function, and `position_digest` the identity that
-- SHA-256 gives to a new position.
pub mod Contract
pub mod Priced
use stock_traiding.Base.{
  ℕ, String, Bool, true, false, not, ◌&&◌, ◌||◌, Option, none, some, List, [], ◌∷◌, ◌++◌, Float,
  decimal, ◌⊕◌, ◌⊖◌, ◌⊗◌, ◌⊘◌, ◌≼◌, ◌≺◌, min_of, max_of, Result, ok, raise, value_error,
  zero_division_error, raise_if, ◌>>=◌, ◌>>◌, Datetime, ℤ, pos, negsuc, ◌==◌, if◌then◌else◌, any,
  or_else,
}
use stock_traiding.Engine.Contracts.{
  Identity, FeatureValue, float, int, str, bool, null, metadata_get, OrderIntent, buy, sell,
  ExecutionReport, queued, filled, rejected, Message, plain, with_fee, check_report,
}
use stock_traiding.Execution.Ledger.{PaperPositionState, check_paper_position}

abbrev pub PriceProvider : Type 0 → Type 0
PriceProvider F = Identity → Datetime → Option F

-- What a fill returns: the cash, the final report and the positions.
abbrev pub Filled : Type 0 → Type 0
Filled F = F × ExecutionReport F × List (PaperPositionState F)

module _ {F : Type 0} where
  unfoldable pub queued_report : OrderIntent F → Datetime → String → ExecutionReport F
  queued_report o at message = record {
    order_id = o.order_id;
    accepted = true;
    executed_at = at;
    message = plain message;
    fill_price = none;
    status = queued;
  }

  unfoldable pub rejected_report : OrderIntent F → Datetime → String → ExecutionReport F
  rejected_report o at message = record {
    order_id = o.order_id;
    accepted = false;
    executed_at = at;
    message = plain message;
    fill_price = none;
    status = rejected;
  }

  abbrev pub filled_report : OrderIntent F → Datetime → Message F → F → ExecutionReport F
  filled_report o at message price = record {
    order_id = o.order_id;
    accepted = true;
    executed_at = at;
    message = message;
    fill_price = some price;
    status = filled;
  }

  -- `item.company_id == order.company_id and …` of `_fill_sell`
  abbrev pub is_sold_by : OrderIntent F → PaperPositionState F → Bool
  is_sold_by o p =
      p.company_id == o.company_id
      && p.security_id == o.security_id
      && p.strategy_id == o.strategy_id

  -- The first position that the order sells
  abbrev pub open_position :
      OrderIntent F → List (PaperPositionState F) → Option (PaperPositionState F)
  open_position o [] = none
  open_position o (p ∷ ps) = if is_sold_by o p then some p else open_position o ps

  -- `positions.pop(match_index)`
  abbrev pub pop_position :
      OrderIntent F → List (PaperPositionState F) → List (PaperPositionState F)
  pop_position o [] = []
  pop_position o (p ∷ ps) = if is_sold_by o p then ps else p ∷ pop_position o ps

  -- `positions[match_index] = new`
  abbrev pub set_position :
      OrderIntent F
      → PaperPositionState F
      → List (PaperPositionState F)
      → List (PaperPositionState F)
  set_position o new [] = []
  set_position o new (p ∷ ps) = if is_sold_by o p then new ∷ ps else p ∷ set_position o new ps

module _ {F : Type 0} ⦃fl : Float F⦄ where
  -- `x / y`
  unfoldable pub divide : F → F → Result F
  divide x y = raise_if (fl.same y (decimal 0 0)) zero_division_error >> ok (x ⊘ y)

  -- `bool(value)` of a feature
  abbrev pub truthy : FeatureValue F → Bool
  truthy (float x) = not (fl.same x (decimal 0 0))
  truthy (int (pos n)) = not (n == 0)
  truthy (int (negsuc n)) = true
  truthy (str s) = not (s == 0)
  truthy (bool b) = b
  truthy null = false

  abbrev mark_price : PriceProvider F → Datetime → PaperPositionState F → F
  mark_price prices as_of p =
      if p.opened_at.date == as_of.date
      then p.last_price
      else or_else (prices p.security_id as_of) p.last_price

  unfoldable pub marked_equity : F → List (PaperPositionState F) → PriceProvider F → Datetime → F
  marked_equity equity [] prices as_of = equity
  marked_equity equity (p ∷ ps) prices as_of =
      marked_equity (equity ⊕ p.shares ⊗ mark_price prices as_of p) ps prices as_of

  module _ (position_digest : Identity → Identity → Identity → Identity)
      (per_side_cost_bps : F) where
    abbrev bought_position : OrderIntent F → Datetime → F → F → PaperPositionState F
    bought_position o as_of price shares = record {
      position_id = position_digest o.strategy_id o.order_id o.company_id;
      strategy_id = o.strategy_id;
      company_id = o.company_id;
      security_id = o.security_id;
      shares = shares;
      average_entry_price = price;
      opened_at = as_of;
      last_price = price;
      horizon_sessions = o.horizon_sessions;
      candidate_id = o.candidate_id;
      event_id = o.event_id;
    }

    -- `notional` of `_fill_buy`, with the rate of the fee
    unfoldable pub buy_notional : OrderIntent F → F → F → F
    buy_notional o cash equity =
        let fee_rate = per_side_cost_bps ⊘ decimal 10_000 0 in
        let max_notional =
          if decimal 0 0 ≼ fee_rate then cash ⊘ (decimal 1 0 ⊕ fee_rate) else cash in
        min_of (equity ⊗ o.allocation_pct) max_notional

    unfoldable pub buy_shares :
        OrderIntent F → Datetime → F → F → F → List (PaperPositionState F) → Result (Filled F)
    buy_shares o as_of price cash notional positions = do
      let fee = notional ⊗ (per_side_cost_bps ⊘ decimal 10_000 0)
      shares ← divide notional price
      let position = bought_position o as_of price shares
      let report = filled_report o as_of (with_fee "paper buy filled" fee) price
      check_paper_position position
      check_report report
      ok (cash ⊖ (notional ⊕ fee), report, positions ++ position ∷ [])

    unfoldable pub fill_buy :
        PriceProvider F
        → OrderIntent F
        → Datetime
        → F
        → F
        → List (PaperPositionState F)
        → Result (Filled F)
    unfolding buy_notional buy_shares
    fill_buy marks o as_of price cash positions =
        let notional = buy_notional o cash (marked_equity cash positions marks as_of) in
        if any (λ p. p.company_id == o.company_id) positions
        then ok (cash, rejected_report o as_of "company already has an open position", positions)
        else if notional ≼ decimal 1 12
        then ok (cash, rejected_report o as_of "insufficient cash", positions)
        else buy_shares o as_of price cash notional positions

    -- `notional` of `_fill_sell`
    unfoldable pub sell_notional : OrderIntent F → F → F → F
    sell_notional o position_value equity =
        let target = equity ⊗ o.allocation_pct in
        if truthy (metadata_get "full_exit" o.metadata)
        then position_value
        else if position_value ⊗ (decimal 1 0 ⊖ decimal 1 9) ≼ target
        then position_value
        else min_of position_value target

    abbrev reduced_position : PaperPositionState F → F → F → PaperPositionState F
    reduced_position p remaining price = record p { shares = remaining; last_price = price }

    -- The positions after a sale that leaves `remaining` shares
    unfoldable pub keep_remaining :
        OrderIntent F
        → PaperPositionState F
        → F
        → F
        → List (PaperPositionState F)
        → Result (List (PaperPositionState F))
    keep_remaining o p remaining price positions =
        if remaining ≼ max_of (decimal 1 12) (p.shares ⊗ decimal 1 9)
        then ok (pop_position o positions)
        else check_paper_position (reduced_position p remaining price)
          >> ok (set_position o (reduced_position p remaining price) positions)

    unfoldable pub sell_shares :
        OrderIntent F
        → Datetime
        → F
        → F
        → PaperPositionState F
        → F
        → List (PaperPositionState F)
        → Result (Filled F)
    unfolding keep_remaining
    sell_shares o as_of price cash p to_sell positions = do
      let gross_proceeds = to_sell ⊗ price
      let fee = gross_proceeds ⊗ per_side_cost_bps ⊘ decimal 10_000 0
      let report = filled_report o as_of (with_fee "paper sell filled" fee) price
      kept ← keep_remaining o p (p.shares ⊖ to_sell) price positions
      check_report report
      ok (cash ⊕ (gross_proceeds ⊖ fee), report, kept)

    unfoldable pub sell_position :
        PriceProvider F
        → OrderIntent F
        → Datetime
        → F
        → F
        → List (PaperPositionState F)
        → PaperPositionState F
        → Result (Filled F)
    unfolding sell_notional sell_shares
    sell_position marks o as_of price cash positions p = do
      let equity = marked_equity cash positions marks as_of
      wanted ← divide (sell_notional o (p.shares ⊗ price) equity) price
      let to_sell = min_of p.shares wanted
      if to_sell ≼ decimal 1 12
          then ok (cash, rejected_report o as_of "sell amount is too small", positions)
          else sell_shares o as_of price cash p to_sell positions

    unfoldable pub fill_sell :
        PriceProvider F
        → OrderIntent F
        → Datetime
        → F
        → F
        → List (PaperPositionState F)
        → Result (Filled F)
    unfolding sell_position
    fill_sell marks o as_of price cash positions = elim (open_position o positions) [
      | none ↦ ok (cash, rejected_report o as_of "position is not open", positions)
      | some p ↦ sell_position marks o as_of price cash positions p
    ]

    -- By the side of the order, with one provider for each side
    unfoldable pub fill_at :
        PriceProvider F
        → OrderIntent F
        → Datetime
        → F
        → F
        → List (PaperPositionState F)
        → Result (Filled F)
    unfolding fill_buy fill_sell
    fill_at marks o as_of price cash positions = elim o.side [
      | buy ↦ fill_buy marks o as_of price cash positions
      | sell ↦ fill_sell marks o as_of price cash positions
    ]

    -- `PaperExecutionBroker._fill`; `none` means that there is no price yet.
    unfoldable pub fill :
        PriceProvider F
        → OrderIntent F
        → Datetime
        → F
        → List (PaperPositionState F)
        → Result (Option (Filled F))
    unfolding fill_at
    fill prices o as_of cash positions = elim (prices o.security_id as_of) [
      | none ↦ ok none
      | some price ↦ do
        raise_if (price ≼ decimal 0 0) (value_error "price provider returned non-positive price")
        outcome ← fill_at prices o as_of price cash positions
        ok (some outcome)
    ]

  -- The check of `PaperExecutionBroker.__init__`
  unfoldable pub check_cost : F → Result (Unit {0})
  check_cost per_side_cost_bps =
      raise_if (per_side_cost_bps ≺ decimal 0 0) (value_error "per_side_cost_bps must be >= 0")
