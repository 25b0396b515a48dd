-- ===== src/Backtest/Contracts.antt =====
-- The records of src/stock_trading/backtest/portfolio.py, those of src/stock_trading/ml that it
-- uses, and what its two backtests share. A date is its ordinal.
use stock_traiding.Base.{
  ℕ, Bool, not, ◌&&◌, ◌||◌, Option, none, some, List, [], ◌∷◌, map, Float, decimal, negated,
  infinity, ◌⊖◌, ◌⊗◌, ◌⊘◌, ◌≼◌, ◌≺◌, min_of, sum_of, Result, value_error, raise_if, ◌>>◌, Datetime,
  String, ltb, ◌==◌, if◌then◌else◌, select, length, pos,
}
use stock_traiding.Engine.Contracts.{Identity, is_fraction}

pub record BacktestConfig (F : Type 0) : Type 0 where
  pub starting_capital : F
  pub allocation_pct : F
  pub max_open_positions : ℕ
  pub min_expected_alpha : F
  pub min_probability_positive : F
  pub max_expected_downside : F
  pub round_trip_cost_bps : F

pub record TrainingRow (F : Type 0) : Type 0 where
  pub event_id : Identity
  pub company_id : Identity
  pub decision_time : Datetime
  pub execution_date : ℕ
  pub exit_date_20d : ℕ
  pub features : List (String × Option F)
  pub stock_return_20d : F
  pub benchmark_return_20d : F
  pub alpha_20d : F
  pub downside_20d : F
  pub mfe_20d : F
  pub positive_alpha_20d : ℕ
  pub trigger_event_ids : List Identity

pub record OpportunityPrediction (F : Type 0) : Type 0 where
  pub expected_alpha_20d : F
  pub expected_downside_20d : F
  pub probability_positive_alpha : F
  pub opportunity_score : F

pub record ScoredCandidate (F : Type 0) : Type 0 where
  pub row : TrainingRow F
  pub prediction : OpportunityPrediction F

pub record TradeRecord (F : Type 0) : Type 0 where
  pub event_id : Identity
  pub company_id : Identity
  pub entry_date : ℕ
  pub exit_date : ℕ
  pub allocated_capital : F
  pub gross_return : F
  pub net_return : F
  pub alpha_20d : F
  pub max_adverse_excursion : F
  pub pnl : F
  pub opportunity_score : F

pub record BacktestResult (F : Type 0) : Type 0 where
  pub starting_capital : F
  pub ending_capital : F
  pub net_profit : F
  pub total_return : F
  pub trades : List (TradeRecord F)
  pub win_rate : Option F
  pub profit_factor : Option F
  pub average_trade_return : Option F
  pub realized_max_drawdown : F
  pub worst_trade_mae : Option F
  pub rejected_by_signal : ℕ
  pub rejected_duplicate_company : ℕ
  pub rejected_capacity : ℕ

pub record OpenPosition (F : Type 0) : Type 0 where
  pub candidate : ScoredCandidate F
  pub capital : F

module _ {F : Type 0} where
  abbrev pub entry_of : ScoredCandidate F → ℕ
  entry_of c = c.row.execution_date

  abbrev pub exit_of : ScoredCandidate F → ℕ
  exit_of c = c.row.exit_date_20d

  abbrev pub company_of : OpenPosition F → Identity
  company_of p = p.candidate.row.company_id

  abbrev pub is_due : ℕ → OpenPosition F → Bool
  is_due day p = not (ltb day (exit_of p.candidate))

  -- The order of (exit_date_20d, event_id)
  abbrev pub exits_before : OpenPosition F → OpenPosition F → Bool
  exits_before a b =
      ltb (exit_of a.candidate) (exit_of b.candidate)
      || exit_of a.candidate == exit_of b.candidate
        && ltb a.candidate.row.event_id b.candidate.row.event_id

module _ {F : Type 0} ⦃fl : Float F⦄ where
  unfoldable pub check_config : BacktestConfig F → Result (Unit {0})
  check_config c = do
    raise_if (c.starting_capital ≼ decimal 0 0) (value_error "starting_capital must be > 0")
    raise_if (not (decimal 0 0 ≺ c.allocation_pct && c.allocation_pct ≼ decimal 1 0))
        (value_error "allocation_pct must be in (0, 1]")
    raise_if (c.max_open_positions == 0) (value_error "max_open_positions must be > 0")
    raise_if (not (is_fraction c.min_probability_positive))
        (value_error "min_probability_positive must be in [0, 1]")
    raise_if (c.max_expected_downside ≺ decimal 0 0)
        (value_error "max_expected_downside must be >= 0")
    raise_if (c.round_trip_cost_bps ≺ decimal 0 0) (value_error "round_trip_cost_bps must be >= 0")

  -- `_passes_signal`
  abbrev pub passes_signal : BacktestConfig F → OpportunityPrediction F → Bool
  passes_signal c p =
      c.min_expected_alpha ≼ p.expected_alpha_20d
      && c.min_probability_positive ≼ p.probability_positive_alpha
      && p.expected_downside_20d ≼ c.max_expected_downside

  -- The order of (-opportunity_score, event_id)
  abbrev pub ranks_before : ScoredCandidate F → ScoredCandidate F → Bool
  ranks_before a b =
      if fl.same a.prediction.opportunity_score b.prediction.opportunity_score
      then ltb a.row.event_id b.row.event_id
      else b.prediction.opportunity_score ≺ a.prediction.opportunity_score

  abbrev pub capital_in : List (OpenPosition F) → F
  capital_in ps = sum_of (map (λ p. p.capital) ps)

  abbrev pub net_return_of : BacktestConfig F → OpenPosition F → F
  net_return_of c p = p.candidate.row.stock_return_20d ⊖ c.round_trip_cost_bps ⊘ decimal 10_000 0

  abbrev pub trade_of : BacktestConfig F → OpenPosition F → TradeRecord F
  trade_of c p = record {
    event_id = p.candidate.row.event_id;
    company_id = p.candidate.row.company_id;
    entry_date = p.candidate.row.execution_date;
    exit_date = p.candidate.row.exit_date_20d;
    allocated_capital = p.capital;
    gross_return = p.candidate.row.stock_return_20d;
    net_return = net_return_of c p;
    alpha_20d = p.candidate.row.alpha_20d;
    max_adverse_excursion = negated p.candidate.row.downside_20d;
    pnl = p.capital ⊗ net_return_of c p;
    opportunity_score = p.candidate.prediction.opportunity_score;
  }

  abbrev pub least_from : F → List F → F
  least_from m [] = m
  least_from m (x ∷ xs) = least_from (min_of m x) xs

  abbrev pub count : {A : Type 0} → List A → F
  count xs = fl.from_int (pos (length xs))

  -- A quotient by the number of trades, none where there is no trade
  abbrev per_trade : F → List (TradeRecord F) → Option F
  per_trade x [] = none
  per_trade x (t ∷ ts) = some (x ⊘ count (t ∷ ts))

  abbrev worst_mae : List (TradeRecord F) → Option F
  worst_mae [] = none
  worst_mae (t ∷ ts) =
      some (least_from t.max_adverse_excursion (map (λ t. t.max_adverse_excursion) ts))

  abbrev pub gains_of : List (TradeRecord F) → F
  gains_of ts = sum_of (map (λ t. t.pnl) (select (λ t. decimal 0 0 ≺ t.pnl) ts))

  abbrev pub losses_of : List (TradeRecord F) → F
  losses_of ts = negated (sum_of (map (λ t. t.pnl) (select (λ t. t.pnl ≺ decimal 0 0) ts)))

  abbrev factor_of : F → F → Option F
  factor_of gains losses =
      if decimal 0 0 ≺ losses
      then some (gains ⊘ losses)
      else if decimal 0 0 ≺ gains
      then some infinity
      else none

  -- `_build_result`
  unfoldable pub build_result :
      BacktestConfig F → List (TradeRecord F) → F → F → ℕ → ℕ → ℕ → BacktestResult F
  build_result c trades ending_capital drawdown by_signal duplicate capacity = record {
    starting_capital = c.starting_capital;
    ending_capital = ending_capital;
    net_profit = ending_capital ⊖ c.starting_capital;
    total_return = ending_capital ⊘ c.starting_capital ⊖ decimal 1 0;
    trades = trades;
    win_rate =
        per_trade (count (select (λ (t : TradeRecord F). decimal 0 0 ≺ t.pnl) trades)) trades;
    profit_factor = factor_of (gains_of trades) (losses_of trades);
    average_trade_return =
        per_trade (sum_of (map (λ (t : TradeRecord F). t.net_return) trades)) trades;
    realized_max_drawdown = drawdown;
    worst_trade_mae = worst_mae trades;
    rejected_by_signal = by_signal;
    rejected_duplicate_company = duplicate;
    rejected_capacity = capacity;
  }
