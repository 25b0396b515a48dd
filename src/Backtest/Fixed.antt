-- ===== src/Backtest/Fixed.antt =====
-- `FixedAllocationBacktester` of src/stock_trading/backtest/portfolio.py. The variables of `run` are a
-- record; the open positions, a dict by company, are the list of its values. A loop over the days
-- closes what is due, marks the equity, and enters what is ranked best.
pub mod Slots
pub mod Counted
pub mod Closed
use stock_traiding.Base.{
  String, ◌>>=◌, ℕ, suc, ◌+◌, Bool, not, ◌||◌, Option, List, [], ◌∷◌, ◌++◌, map, Float, decimal,
  ◌⊕◌, ◌⊖◌, ◌⊗◌, ◌⊘◌, ◌≼◌, ◌≺◌, min_of, max_of, Result, ok, raise, runtime_error, ltb, leb, ◌==◌,
  if◌then◌else◌, select, length, to_set,
}
use stock_traiding.Base.Dict.{has, put, pop}
use stock_traiding.Base.Sort.{sorted}
use stock_traiding.Backtest.Contracts.{
  BacktestConfig, TrainingRow, OpportunityPrediction, ScoredCandidate, TradeRecord, BacktestResult,
  OpenPosition, entry_of, exit_of, company_of, is_due, exits_before, passes_signal, ranks_before,
  capital_in, trade_of, build_result,
}

pub record Account (F : Type 0) : Type 0 where
  pub cash : F
  pub positions : List (OpenPosition F)
  pub trades : List (TradeRecord F)
  pub equity_peak : F
  pub drawdown : F
  pub by_signal : ℕ
  pub duplicate : ℕ
  pub capacity : ℕ

-- `sorted(set(by_entry) | {exit dates})`
unfoldable pub all_dates : {F : Type 0} → List (ScoredCandidate F) → List ℕ
unfolding to_set
all_dates cs = sorted ltb (to_set (map entry_of cs ++ map exit_of cs))

-- `by_entry.get(current_date, ())`
abbrev pub entering : {F : Type 0} → ℕ → List (ScoredCandidate F) → List (ScoredCandidate F)
entering day cs = select (λ c. entry_of c == day) cs

-- `score_rows`, with the prediction of the trained model as a function of the features
unfoldable pub score_rows :
    {F : Type 0}
    → (List (String × Option F) → Result (OpportunityPrediction F))
    → List (TrainingRow F)
    → Result (List (ScoredCandidate F))
score_rows predict [] = ok []
score_rows predict (row ∷ rows) = do
  prediction ← predict row.features
  rest ← score_rows predict rows
  ok (record { row = row; prediction = prediction } ∷ rest)

module _ {F : Type 0} ⦃fl : Float F⦄ where
  -- The peak of the equity and the drawdown from it
  abbrev pub marked_peak : F → F → F
  marked_peak peak equity = max_of peak equity

  abbrev pub marked_drawdown : F → F → F → F
  marked_drawdown drawdown peak equity =
      if decimal 0 0 ≺ peak then max_of drawdown ((peak ⊖ equity) ⊘ peak) else drawdown

  module _ (config : BacktestConfig F) where
    abbrev pub opening : Account F
    opening = record {
      cash = config.starting_capital;
      positions = [];
      trades = [];
      equity_peak = config.starting_capital;
      drawdown = decimal 0 0;
      by_signal = 0;
      duplicate = 0;
      capacity = 0;
    }

    abbrev pub close_position : Account F → OpenPosition F → Account F
    close_position a p = record a {
      cash = a.cash ⊕ (p.capital ⊕ (trade_of config p).pnl);
      trades = a.trades ++ trade_of config p ∷ [];
      positions = pop company_of (company_of p) a.positions;
    }

    abbrev pub close_each : Account F → List (OpenPosition F) → Account F
    close_each a [] = a
    close_each a (p ∷ ps) = close_each (close_position a p) ps

    unfoldable pub close_due : ℕ → Account F → Account F
    close_due day a = close_each a (sorted exits_before (select (is_due day) a.positions))

    abbrev mark_with : F → Account F → Account F
    mark_with equity a = record a {
      equity_peak = marked_peak a.equity_peak equity;
      drawdown = marked_drawdown a.drawdown (marked_peak a.equity_peak equity) equity;
    }

    unfoldable pub mark : Account F → Account F
    mark a = mark_with (a.cash ⊕ capital_in a.positions) a

    -- `capital` of an entry
    abbrev pub capital_for : Account F → F
    capital_for a = min_of a.cash ((a.cash ⊕ capital_in a.positions) ⊗ config.allocation_pct)

    abbrev open_position : Account F → ScoredCandidate F → F → Account F
    open_position a c capital = record a {
      cash = a.cash ⊖ capital;
      positions = put company_of (record { candidate = c; capital = capital }) a.positions;
    }

    unfoldable pub enter : Account F → ScoredCandidate F → Account F
    enter a c =
        if not (passes_signal config c.prediction)
        then record a { by_signal = a.by_signal + 1 }
        else if has company_of c.row.company_id a.positions
        then record a { duplicate = a.duplicate + 1 }
        else if leb config.max_open_positions (length a.positions)
        then record a { capacity = a.capacity + 1 }
        else if capital_for a ≼ decimal 0 0
        then record a { capacity = a.capacity + 1 }
        else open_position a c (capital_for a)

    unfoldable pub enter_each : Account F → List (ScoredCandidate F) → Account F
    unfolding enter
    enter_each a [] = a
    enter_each a (c ∷ cs) = enter_each (enter a c) cs

    -- One round of the loop over the dates
    unfoldable pub trade_day : List (ScoredCandidate F) → Account F → ℕ → Account F
    unfolding close_due mark enter_each
    trade_day cs a day = enter_each (mark (close_due day a)) (sorted ranks_before (entering day cs))

    unfoldable pub trade_days : List (ScoredCandidate F) → Account F → List ℕ → Account F
    unfolding trade_day
    trade_days cs a [] = a
    trade_days cs a (day ∷ days) = trade_days cs (trade_day cs a day) days

    -- The end of `run`, on the positions that are still open
    abbrev pub finish_with : Account F → List (OpenPosition F) → Result (BacktestResult F)
    finish_with a [] =
        ok (build_result config a.trades a.cash a.drawdown a.by_signal a.duplicate a.capacity)
    finish_with a (_ ∷ _) =
        raise (runtime_error "backtest ended with positions that never reached their exit date")

    unfoldable pub finish : Account F → Result (BacktestResult F)
    finish a = finish_with a a.positions

    unfoldable pub run : List (ScoredCandidate F) → Result (BacktestResult F)
    unfolding finish trade_days all_dates
    run cs = finish (trade_days cs opening (all_dates cs))
