-- ===== src/Tests/Backtest.antt =====
-- Runs of the backtests and of the walk-forward splits (src/stock_trading/backtest, ml and research)
-- on three candidates of two companies.
use stock_traiding.Base.{
  ℕ, ◌+◌, ◌*◌, ◌≡◌, refl, none, List, [], ◌∷◌, map, ok, All, length, pos, arith,
}
use stock_traiding.Engine.Contracts.{
  Identity, AllocationIntent, Opportunity, PortfolioSnapshot, FeatureSnapshot,
}
use stock_traiding.Engine.Validation.{validate_subset}
use stock_traiding.Backtest.Contracts.{
  BacktestConfig, TrainingRow, ScoredCandidate, BacktestResult, build_result,
}
use stock_traiding.Backtest.Fixed.{opening, trade_days}
use stock_traiding.Backtest.Fixed.Slots.{IsWithin, trade_days-IsWithin}
use stock_traiding.Backtest.Fixed.Counted.{IsAccounted, run-IsAccounted}
use stock_traiding.Backtest.Fixed.Closed.{run_returns}
use stock_traiding.Backtest.Tranche
use stock_traiding.Backtest.Tranche.Capped.{IsCapped, trade_days-IsCapped}
use stock_traiding.Learning.Splits.{WalkForwardSplit, Minimums, annual_walk_forward_splits}
use stock_traiding.Learning.Splits.Leaks.{IsLeakFree, annual_walk_forward_splits-IsLeakFree}
use stock_traiding.Research.Historical.{
  HistoricalOutcome, HistoricalCandidate, HistoricalBacktestResult, historical_key,
  validate_opportunities, validate_opportunity_subset, validate_allocations,
}
use stock_traiding.Research.Historical.Accepted.{snapshots_of, accepted_live}
use stock_traiding.Research.Historical.Run.{Production, Settings, Book, all_dates, result_of}
use stock_traiding.Research.Historical.Run.Realized.{IsRealized, run-IsRealized}
use stock_traiding.Research.Historical.Run.Closed.{run_closes}
use stock_traiding.Tests.Samples.{Fixed, fixed_point, value_of, at, candidate, opportunity}

abbrev config : BacktestConfig Fixed
config = record {
  starting_capital = 10_000_000_000;
  allocation_pct = 100_000;
  max_open_positions = 2;
  min_expected_alpha = 0;
  min_probability_positive = 500_000;
  max_expected_downside = 100_000;
  round_trip_cost_bps = 20_000_000;
}

abbrev row : ℕ → ℕ → ℕ → ℕ → TrainingRow Fixed
row id company entry exit = record {
  event_id = id;
  company_id = company;
  decision_time = at (entry + 737_999);
  execution_date = entry;
  exit_date_20d = exit;
  features = [];
  stock_return_20d = 50_000;
  benchmark_return_20d = 10_000;
  alpha_20d = 40_000;
  downside_20d = 20_000;
  mfe_20d = 60_000;
  positive_alpha_20d = 1;
  trigger_event_ids = [];
}

abbrev scored : ℕ → ℕ → ℕ → ℕ → ScoredCandidate Fixed
scored id company entry exit = record {
  row = row id company entry exit;
  prediction = record {
    expected_alpha_20d = 30_000;
    expected_downside_20d = 20_000;
    probability_positive_alpha = 600_000;
    opportunity_score = id;
  };
}

abbrev candidates : List (ScoredCandidate Fixed)
candidates = scored 1 7 1 5 ∷ scored 2 7 2 6 ∷ scored 3 8 2 6 ∷ []

abbrev empty_result : BacktestResult Fixed
empty_result = record {
  starting_capital = 0;
  ending_capital = 0;
  net_profit = 0;
  total_return = 0;
  trades = [];
  win_rate = none;
  profit_factor = none;
  average_trade_return = none;
  realized_max_drawdown = 0;
  worst_trade_mae = none;
  rejected_by_signal = 0;
  rejected_duplicate_company = 0;
  rejected_capacity = 0;
}

backtested : BacktestResult Fixed
backtested = value_of empty_result (stock_traiding.Backtest.Fixed.run config candidates)

trades_made : length backtested.trades ≡ 2
unfolding backtested stock_traiding.Backtest.Fixed.run build_result
trades_made = refl

duplicates_met : backtested.rejected_duplicate_company ≡ 1
unfolding backtested stock_traiding.Backtest.Fixed.run build_result
duplicates_met = refl

backtested_ok : stock_traiding.Backtest.Fixed.run config candidates ≡ ok backtested
unfolding stock_traiding.Backtest.Fixed.run backtested build_result
backtested_ok = refl

run-IsAccounted_example : IsAccounted config candidates backtested
run-IsAccounted_example = run-IsAccounted config candidates backtested backtested_ok

trade_days-IsWithin_example :
    IsWithin config (trade_days config candidates (opening config) (1 ∷ 2 ∷ []))
trade_days-IsWithin_example = trade_days-IsWithin config candidates (1 ∷ 2 ∷ [])

run_returns_example :
    (r : BacktestResult Fixed) × (stock_traiding.Backtest.Fixed.run config candidates ≡ ok r)
run_returns_example = run_returns config candidates (omega arith, (omega arith, (omega arith, tt)))

-- Rows decided on the first days of 2022, 2023 and 2024
abbrev dated : ℕ → ℕ → TrainingRow Fixed
dated id day = record (row id 7 day (day + 30)) { decision_time = at day }

abbrev rows : List (TrainingRow Fixed)
rows = dated 1 738_200 ∷ dated 2 738_600 ∷ dated 3 738_900 ∷ []

abbrev minimums : Minimums
minimums = record { train = 1; validation = 1; test = 1 }

splits : List (WalkForwardSplit Fixed)
splits = value_of [] (annual_walk_forward_splits rows none minimums none)

splits_made : map (λ split. split.test_year) splits ≡ 2024 ∷ []
unfolding splits annual_walk_forward_splits
splits_made = refl

splits_ok : annual_walk_forward_splits rows none minimums none ≡ ok splits
unfolding annual_walk_forward_splits splits
splits_ok = refl

annual_walk_forward_splits-IsLeakFree_example : All (IsLeakFree minimums none) splits
annual_walk_forward_splits-IsLeakFree_example =
    annual_walk_forward_splits-IsLeakFree rows none minimums none splits
      (omega arith, (omega arith, (omega arith, tt))) splits_ok

abbrev settings : Settings Fixed
settings = record { starting_capital = 10_000_000_000; round_trip_cost_bps = 20_000_000 }

abbrev outcome : HistoricalOutcome Fixed
outcome = record {
  horizon_sessions = pos 5;
  exit_date = 16;
  stock_return = 50_000;
  alpha = 40_000;
  downside = 20_000;
}

abbrev past : ℕ → ℕ → HistoricalCandidate Fixed
past id company = record { snapshot = candidate id company; outcomes = (pos 5, outcome) ∷ [] }

abbrev pasts : List (HistoricalCandidate Fixed)
pasts = past 21 2 ∷ past 22 3 ∷ []

abbrev proposals : List (Opportunity Fixed)
proposals = opportunity 21 2 100 ∷ opportunity 22 3 200 ∷ []

abbrev shares : List (AllocationIntent Fixed)
shares =
    record { opportunity = opportunity 21 2 100; allocation_pct = 20_000; reason = "test" }
    ∷ record { opportunity = opportunity 22 3 200; allocation_pct = 20_000; reason = "test" }
    ∷ []

abbrev production : Production Fixed
production = record {
  strategy_id = 7;
  evaluate = λ snapshots portfolio. ok proposals;
  opportunity_risk = λ opportunities portfolio. ok opportunities;
  allocate = λ opportunities portfolio. ok shares;
  portfolio_risk = λ allocations portfolio. ok allocations;
  hist_id = λ s c. 5000 + c;
}

accepted_live_example :
    (stock_traiding.Engine.Validation.validate_opportunities 7 proposals (snapshots_of pasts)
      ≡ ok tt)
    × (validate_subset proposals proposals ≡ ok tt)
    × (stock_traiding.Engine.Validation.validate_allocations shares proposals ≡ ok tt)
unfolding validate_opportunities validate_opportunity_subset
    stock_traiding.Engine.Equality.opportunity_eq stock_traiding.Engine.Equality.metadata_eq
    validate_allocations
accepted_live_example = accepted_live 7 pasts proposals proposals shares refl refl refl

abbrev no_book : Book Fixed
no_book = record {
  cash = 0;
  positions = [];
  trades = [];
  equity_peak = 0;
  max_drawdown = 0;
  rejected_cash = 0;
}

book : Book Fixed
book = value_of no_book (
    stock_traiding.Research.Historical.Run.trade_days settings production pasts
      (stock_traiding.Research.Historical.Run.opening settings) (all_dates pasts))

book_made : length book.trades ≡ 2
unfolding book stock_traiding.Research.Historical.Run.trade_days all_dates
    stock_traiding.Research.Historical.Run.portfolio_snapshot
    stock_traiding.Engine.Contracts.check_snapshot stock_traiding.Research.Historical.Run.decide
    validate_opportunities validate_opportunity_subset stock_traiding.Engine.Equality.opportunity_eq
    stock_traiding.Engine.Equality.metadata_eq validate_allocations
    stock_traiding.Research.Historical.validate_portfolio_risk
book_made = refl

book_ok :
    stock_traiding.Research.Historical.Run.trade_days settings production pasts
      (stock_traiding.Research.Historical.Run.opening settings)
      (all_dates pasts)
    ≡ ok book
unfolding stock_traiding.Research.Historical.Run.trade_days all_dates
    stock_traiding.Research.Historical.Run.portfolio_snapshot
    stock_traiding.Engine.Contracts.check_snapshot stock_traiding.Research.Historical.Run.decide
    validate_opportunities validate_opportunity_subset stock_traiding.Engine.Equality.opportunity_eq
    stock_traiding.Engine.Equality.metadata_eq validate_allocations
    stock_traiding.Research.Historical.validate_portfolio_risk book
book_ok = refl

run_closes_example :
    stock_traiding.Research.Historical.Run.run settings production pasts
    ≡ ok (result_of settings book)
run_closes_example =
    run_closes settings production pasts book (refl, (refl, tt))
      ((omega arith, tt), ((omega arith, tt), tt)) book_ok

run-IsRealized_example : All (IsRealized pasts) (result_of settings book).trades
run-IsRealized_example =
    run-IsRealized settings production pasts (result_of settings book) run_closes_example

abbrev position_key : ℕ → ℕ → ℕ → ℕ → ℕ
position_key company event day salt = 100 * event + salt

abbrev repeated : List (ScoredCandidate Fixed)
repeated = scored 1 7 1 5 ∷ scored 2 7 2 6 ∷ scored 3 7 2 6 ∷ []

tranches_held :
    length
      (stock_traiding.Backtest.Tranche.trade_days config 2 position_key repeated
        (stock_traiding.Backtest.Tranche.opening config)
        (1 ∷ 2 ∷ [])).positions
    ≡ 2
unfolding stock_traiding.Backtest.Tranche.trade_days
tranches_held = refl

trade_days-IsCapped_example : IsCapped config 2 (
    stock_traiding.Backtest.Tranche.trade_days config 2 position_key repeated
      (stock_traiding.Backtest.Tranche.opening config)
      (1 ∷ 2 ∷ []))
trade_days-IsCapped_example = trade_days-IsCapped config 2 position_key repeated (1 ∷ 2 ∷ [])
