-- ===== src/Backtest/Tranche.antt =====
-- `FixedAllocationTrancheBacktester` of src/stock_trading/backtest/portfolio.py. The open positions are a
-- dict by the text of `_position_key`, whose format is a function here.
pub mod Capped
use stock_traiding.Base.{
  ℕ, suc, ◌+◌, Bool, not, ◌||◌, ◌&&◌, Option, none, some, List, [], ◌∷◌, ◌++◌, map, Float, decimal,
  ◌⊕◌, ◌⊖◌, ◌⊗◌, ◌≼◌, min_of, Result, ok, raise, runtime_error, value_error, raise_if, ltb, leb,
  ◌==◌, if◌then◌else◌, select, length,
}
use stock_traiding.Base.Dict.{lookup, put, pop}
use stock_traiding.Base.Sort.{sorted}
use stock_traiding.Engine.Contracts.{Identity}
use stock_traiding.Backtest.Contracts.{
  BacktestConfig, ScoredCandidate, TradeRecord, BacktestResult, OpenPosition, exit_of, company_of,
  is_due, exits_before, passes_signal, ranks_before, capital_in, trade_of, build_result,
}
use stock_traiding.Backtest.Fixed.{all_dates, entering, marked_peak, marked_drawdown}

-- The company, the event, the date and the salt
abbrev pub PositionKey : Type 0
PositionKey = Identity → Identity → ℕ → ℕ → Identity

pub record Tranche (F : Type 0) : Type 0 where
  pub key : Identity
  pub position : OpenPosition F

pub record TrancheAccount (F : Type 0) : Type 0 where
  pub cash : F
  pub positions : List (Tranche F)
  pub trades : List (TradeRecord F)
  pub equity_peak : F
  pub drawdown : F
  pub by_signal : ℕ
  pub company_limit : ℕ
  pub capacity : ℕ

-- An entry of `company_open_counts`
pub record CompanyCount : Type 0 where
  pub company : Identity
  pub count : ℕ

abbrev pub counted_company : CompanyCount → Identity
counted_company c = c.company

abbrev pub count_or_zero : Option CompanyCount → ℕ
count_or_zero none = 0
count_or_zero (some c) = c.count

-- `company_open_counts.get(company_id, 0)`
abbrev pub count_of : Identity → List CompanyCount → ℕ
count_of company counts = count_or_zero (lookup counted_company company counts)

abbrev pub bump : Identity → List CompanyCount → List CompanyCount
bump company counts =
    put counted_company (record { company = company; count = count_of company counts + 1 }) counts

unfoldable pub check_tranches : ℕ → Result (Unit {0})
check_tranches max_company_tranches =
    raise_if (max_company_tranches == 0) (value_error "max_company_tranches must be > 0")

-- The counts of the day and the account
abbrev pub Day : Type 0 → Type 0
Day F = List CompanyCount × TrancheAccount F

module _ {F : Type 0} where
  abbrev pub key_of : Tranche F → Identity
  key_of t = t.key

  abbrev pub tranche_company : Tranche F → Identity
  tranche_company t = company_of t.position

  abbrev pub count_positions : List CompanyCount → List (Tranche F) → List CompanyCount
  count_positions counts [] = counts
  count_positions counts (t ∷ ts) = count_positions (bump (tranche_company t) counts) ts

  abbrev pub start_day : TrancheAccount F → Day F
  start_day a = (count_positions [] a.positions, a)

module _ {F : Type 0} ⦃fl : Float F⦄ (config : BacktestConfig F) where
  abbrev pub opening : TrancheAccount F
  opening = record {
    cash = config.starting_capital;
    positions = [];
    trades = [];
    equity_peak = config.starting_capital;
    drawdown = decimal 0 0;
    by_signal = 0;
    company_limit = 0;
    capacity = 0;
  }

  abbrev pub close_tranche : TrancheAccount F → Tranche F → TrancheAccount F
  close_tranche a t = record a {
    cash = a.cash ⊕ (t.position.capital ⊕ (trade_of config t.position).pnl);
    trades = a.trades ++ trade_of config t.position ∷ [];
    positions = pop key_of t.key a.positions;
  }

  abbrev pub close_each : TrancheAccount F → List (Tranche F) → TrancheAccount F
  close_each a [] = a
  close_each a (t ∷ ts) = close_each (close_tranche a t) ts

  unfoldable pub close_due : ℕ → TrancheAccount F → TrancheAccount F
  close_due day a = close_each a (
      sorted (λ s t. exits_before s.position t.position)
        (select (λ t. is_due day t.position) a.positions))

  abbrev pub equity_of : TrancheAccount F → F
  equity_of a = a.cash ⊕ capital_in (map (λ t. t.position) a.positions)

  unfoldable pub mark : TrancheAccount F → TrancheAccount F
  mark a = record a {
    equity_peak = marked_peak a.equity_peak (equity_of a);
    drawdown = marked_drawdown a.drawdown (marked_peak a.equity_peak (equity_of a)) (equity_of a);
  }

  abbrev pub capital_for : TrancheAccount F → F
  capital_for a = min_of a.cash (equity_of a ⊗ config.allocation_pct)

  abbrev pub finish : TrancheAccount F → List (Tranche F) → Result (BacktestResult F)
  finish a [] =
      ok (build_result config a.trades a.cash a.drawdown a.by_signal a.company_limit a.capacity)
  finish a (_ ∷ _) =
      raise (runtime_error "backtest ended with tranches that never reached their exit date")

  module _ (max_company_tranches : ℕ) (position_key : PositionKey) where
    abbrev pub open_tranche : TrancheAccount F → ScoredCandidate F → F → TrancheAccount F
    open_tranche a c capital = record a {
      cash = a.cash ⊖ capital;
      positions =
          put key_of
            (record {
              key =
                  position_key c.row.company_id c.row.event_id c.row.execution_date
                    (length a.positions);
              position = record { candidate = c; capital = capital };
            })
            a.positions;
    }

    unfoldable pub enter : Day F → ScoredCandidate F → Day F
    enter (counts, a) c =
        if not (passes_signal config c.prediction)
        then (counts, record a { by_signal = a.by_signal + 1 })
        else if leb max_company_tranches (count_of c.row.company_id counts)
        then (counts, record a { company_limit = a.company_limit + 1 })
        else if leb config.max_open_positions (length a.positions)
        then (counts, record a { capacity = a.capacity + 1 })
        else if capital_for a ≼ decimal 0 0
        then (counts, record a { capacity = a.capacity + 1 })
        else (bump c.row.company_id counts, open_tranche a c (capital_for a))

    unfoldable pub enter_each : Day F → List (ScoredCandidate F) → Day F
    unfolding enter
    enter_each d [] = d
    enter_each d (c ∷ cs) = enter_each (enter d c) cs

    unfoldable pub trade_day : List (ScoredCandidate F) → TrancheAccount F → ℕ → TrancheAccount F
    unfolding close_due mark enter_each
    trade_day cs a day =
        (enter_each (start_day (mark (close_due day a))) (sorted ranks_before (entering day cs))).1

    unfoldable pub trade_days :
        List (ScoredCandidate F) → TrancheAccount F → List ℕ → TrancheAccount F
    unfolding trade_day
    trade_days cs a [] = a
    trade_days cs a (day ∷ days) = trade_days cs (trade_day cs a day) days

    unfoldable pub run : List (ScoredCandidate F) → Result (BacktestResult F)
    unfolding trade_days all_dates
    run cs = let a = trade_days cs opening (all_dates cs) in finish a a.positions
