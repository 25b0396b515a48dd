-- ===== src/Research/Historical/Run.antt =====
-- `HistoricalStrategyBacktester` of src/stock_trading/research/historical.py. The variables of `run` are a
-- record; the open positions, a dict by company, are the list of its values. The strategy and the policies
-- answer from their arguments.
pub mod Realized
pub mod Closed
use stock_traiding.Base.{
  ℕ, suc, ◌+◌, Bool, not, ◌||◌, ◌&&◌, Option, none, some, List, [], ◌∷◌, ◌++◌, map, Float, decimal,
  negated, infinity, ◌⊕◌, ◌⊖◌, ◌⊗◌, ◌⊘◌, ◌≼◌, ◌≺◌, min_of, sum_of, Result, ok, raise, value_error,
  runtime_error, raise_if, ◌>>◌, ◌>>=◌, combine, ltb, ◌==◌, if◌then◌else◌, select, to_set, elem,
  has_duplicates, ℤ,
}
use stock_traiding.Base.Dict.{lookup, has, put, pop}
use stock_traiding.Base.Sort.{sorted}
use stock_traiding.Engine.Contracts.{
  Identity, FeatureSnapshot, Opportunity, PortfolioPosition, PortfolioSnapshot, AllocationIntent,
  check_position, check_snapshot,
}
use stock_traiding.Backtest.Fixed.{marked_peak, marked_drawdown}
use stock_traiding.Research.Historical.{
  HistoricalOutcome, HistoricalCandidate, HistoricalTrade, HistoricalBacktestResult,
  HistoricalPosition, historical_key, outcome_at, validate_opportunities,
  validate_opportunity_subset, validate_allocations, validate_portfolio_risk,
}

-- The arguments of `run`, but for the candidates
pub record Production (F : Type 0) : Type 0 where
  pub strategy_id : Identity
  pub evaluate : List (FeatureSnapshot F) → PortfolioSnapshot F → Result (List (Opportunity F))
  pub opportunity_risk : List (Opportunity F) → PortfolioSnapshot F → Result (List (Opportunity F))
  pub allocate : List (Opportunity F) → PortfolioSnapshot F → Result (List (AllocationIntent F))
  pub portfolio_risk :
      List (AllocationIntent F) → PortfolioSnapshot F → Result (List (AllocationIntent F))
  -- The identity `hist:` of a strategy and a candidate
  pub hist_id : Identity → Identity → Identity

-- The backtester's own fields
pub record Settings (F : Type 0) : Type 0 where
  pub starting_capital : F
  pub round_trip_cost_bps : F

pub record Book (F : Type 0) : Type 0 where
  pub cash : F
  pub positions : List (HistoricalPosition F)
  pub trades : List (HistoricalTrade F)
  pub equity_peak : F
  pub max_drawdown : F
  pub rejected_cash : ℕ

module _ {F : Type 0} where
  abbrev pub held_by : HistoricalPosition F → Identity
  held_by p = p.opportunity.company_id

  abbrev pub leaves_on : HistoricalPosition F → ℕ
  leaves_on p = p.outcome.exit_date

  abbrev pub entry_of : HistoricalCandidate F → ℕ
  entry_of c = c.snapshot.execution_date

  abbrev pub exit_days : List (ℤ × HistoricalOutcome F) → List ℕ
  exit_days [] = []
  exit_days ((_, outcome) ∷ rest) = outcome.exit_date ∷ exit_days rest

  abbrev pub days_of : List (HistoricalCandidate F) → List ℕ
  days_of [] = []
  days_of (c ∷ cs) = entry_of c ∷ exit_days c.outcomes ++ days_of cs

  -- `sorted(all_dates)`
  unfoldable pub all_dates : List (HistoricalCandidate F) → List ℕ
  unfolding to_set
  all_dates cs = sorted ltb (to_set (days_of cs))

  abbrev pub is_due : ℕ → HistoricalPosition F → Bool
  is_due day p = not (ltb day (leaves_on p))

  -- The order of (exit_date, event_id)
  abbrev pub exits_before : HistoricalPosition F → HistoricalPosition F → Bool
  exits_before a b =
      ltb (leaves_on a) (leaves_on b)
      || leaves_on a == leaves_on b && ltb a.opportunity.event_id b.opportunity.event_id

  abbrev by_candidate : HistoricalPosition F → HistoricalPosition F → Bool
  by_candidate a b = ltb a.opportunity.candidate_id b.opportunity.candidate_id

module _ {F : Type 0} ⦃fl : Float F⦄ where
  abbrev pub held_capital : List (HistoricalPosition F) → F
  held_capital ps = sum_of (map (λ p. p.capital) ps)

  unfoldable pub check_settings : Settings F → Result (Unit {0})
  check_settings s = do
    raise_if (s.starting_capital ≼ decimal 0 0) (value_error "starting_capital must be > 0")
    raise_if (s.round_trip_cost_bps ≺ decimal 0 0) (value_error "round_trip_cost_bps must be >= 0")

  abbrev position_of : Production F → HistoricalPosition F → PortfolioPosition F
  position_of production p = record {
    position_id = production.hist_id p.opportunity.strategy_id p.opportunity.candidate_id;
    strategy_id = p.opportunity.strategy_id;
    company_id = p.opportunity.company_id;
    security_id = p.opportunity.security_id;
    allocation_pct = p.allocation_pct;
    opened_on = p.opportunity.execution_date;
    planned_exit_date = some p.outcome.exit_date;
    metadata = [];
  }

  -- The positions of the snapshot, each constructed and checked
  abbrev positions_of :
      Production F → List (HistoricalPosition F) → Result (List (PortfolioPosition F))
  positions_of production [] = ok []
  positions_of production (p ∷ ps) = do
    check_position (position_of production p)
    rest ← positions_of production ps
    ok (position_of production p ∷ rest)

  abbrev snapshot_with :
      ℕ → F → F → List (HistoricalPosition F) → List (PortfolioPosition F) → PortfolioSnapshot F
  snapshot_with day equity cash open_positions positions = record {
    as_of = combine day 0;
    equity = equity;
    cash = cash;
    gross_exposure_pct =
        if decimal 0 0 ≺ equity then held_capital open_positions ⊘ equity else decimal 0 0;
    positions = positions;
  }

  unfoldable pub portfolio_snapshot :
      Production F → ℕ → F → F → List (HistoricalPosition F) → Result (PortfolioSnapshot F)
  portfolio_snapshot production day equity cash open_positions = do
    positions ← positions_of production (sorted by_candidate open_positions)
    check_snapshot (snapshot_with day equity cash open_positions positions)
    ok (snapshot_with day equity cash open_positions positions)

  abbrev pub trade_of : Settings F → HistoricalPosition F → HistoricalTrade F
  trade_of settings p =
      let net_return = p.outcome.stock_return ⊖ settings.round_trip_cost_bps ⊘ decimal 10_000 0 in
      record {
        strategy_id = p.opportunity.strategy_id;
        candidate_id = p.opportunity.candidate_id;
        event_id = p.opportunity.event_id;
        company_id = p.opportunity.company_id;
        security_id = p.opportunity.security_id;
        entry_date = p.opportunity.execution_date;
        exit_date = p.outcome.exit_date;
        horizon_sessions = p.opportunity.horizon_sessions;
        allocation_pct = p.allocation_pct;
        allocated_capital = p.capital;
        gross_return = p.outcome.stock_return;
        net_return = net_return;
        alpha = p.outcome.alpha;
        downside = p.outcome.downside;
        pnl = p.capital ⊗ net_return;
        opportunity_score = p.opportunity.score;
      }

  module _ (settings : Settings F) where
    abbrev pub opening : Book F
    opening = record {
      cash = settings.starting_capital;
      positions = [];
      trades = [];
      equity_peak = settings.starting_capital;
      max_drawdown = decimal 0 0;
      rejected_cash = 0;
    }

    abbrev pub close_position : Book F → HistoricalPosition F → Book F
    close_position b p = record b {
      cash = b.cash ⊕ (p.capital ⊕ (trade_of settings p).pnl);
      trades = b.trades ++ trade_of settings p ∷ [];
      positions = pop held_by (held_by p) b.positions;
    }

    abbrev pub close_each : Book F → List (HistoricalPosition F) → Book F
    close_each b [] = b
    close_each b (p ∷ ps) = close_each (close_position b p) ps

    -- `_close_due`
    unfoldable pub close_due : ℕ → Book F → Book F
    close_due day b = close_each b (sorted exits_before (select (is_due day) b.positions))

    abbrev pub equity_of : Book F → F
    equity_of b = b.cash ⊕ held_capital b.positions

    abbrev pub mark : Book F → Book F
    mark b = record b {
      equity_peak = marked_peak b.equity_peak (equity_of b);
      max_drawdown =
          marked_drawdown b.max_drawdown (marked_peak b.equity_peak (equity_of b)) (equity_of b);
    }

    abbrev pub open_position :
        F → Book F → AllocationIntent F → HistoricalCandidate F → HistoricalOutcome F → F → Book F
    open_position equity b a historical outcome capital = record b {
      cash = b.cash ⊖ capital;
      positions =
          put held_by
            (record {
              opportunity = a.opportunity;
              candidate = historical;
              outcome = outcome;
              capital = capital;
              allocation_pct = if decimal 0 0 ≺ equity then capital ⊘ equity else decimal 0 0;
            })
            b.positions;
    }

    abbrev pub fund :
        F → Book F → AllocationIntent F → HistoricalCandidate F → HistoricalOutcome F → F → Book F
    fund equity b a historical outcome capital =
        if capital ≼ decimal 0 0
        then record b { rejected_cash = b.rejected_cash + 1 }
        else open_position equity b a historical outcome capital

    abbrev pub realize :
        F
        → Book F
        → AllocationIntent F
        → HistoricalCandidate F
        → Option (HistoricalOutcome F)
        → Result (Book F)
    realize equity b a historical none = raise (value_error "missing realized outcome")
    realize equity b a historical (some outcome) =
        ok (fund equity b a historical outcome (min_of b.cash (equity ⊗ a.allocation_pct)))

    abbrev pub place :
        F → Book F → AllocationIntent F → Option (HistoricalCandidate F) → Result (Book F)
    place equity b a none =
        raise (value_error "portfolio allocation references non-current candidate")
    place equity b a (some historical) = do
      raise_if (has held_by a.opportunity.company_id b.positions)
          (value_error "portfolio policy opened duplicate active company")
      realize equity b a historical (outcome_at a.opportunity.horizon_sessions historical.outcomes)

    abbrev pub place_each :
        F → List (HistoricalCandidate F) → Book F → List (AllocationIntent F) → Result (Book F)
    place_each equity batch b [] = ok b
    place_each equity batch b (a ∷ rest) = do
      next ← place equity b a (lookup historical_key a.opportunity.candidate_id batch)
      place_each equity batch next rest

    module _ (production : Production F) where
      -- What the strategy and the policies decide for a batch, checked
      unfoldable pub decide :
          List (HistoricalCandidate F) → PortfolioSnapshot F → Result (List (AllocationIntent F))
      decide batch portfolio = do
        opportunities ← production.evaluate (map (λ c. c.snapshot) batch) portfolio
        validate_opportunities production.strategy_id opportunities batch
        eligible ← production.opportunity_risk opportunities portfolio
        validate_opportunity_subset opportunities eligible
        proposed ← production.allocate eligible portfolio
        validate_allocations proposed eligible
        allocations ← production.portfolio_risk proposed portfolio
        validate_portfolio_risk proposed allocations
        ok allocations

      -- The rest of a round, for the candidates of the day
      abbrev pub enter_batch : ℕ → Book F → List (HistoricalCandidate F) → Result (Book F)
      enter_batch day b [] = ok b
      enter_batch day b (c ∷ cs) = do
        portfolio ← portfolio_snapshot production day (equity_of b) b.cash b.positions
        allocations ← decide (c ∷ cs) portfolio
        place_each (equity_of b) (c ∷ cs) b allocations

      unfoldable pub trade_day : List (HistoricalCandidate F) → Book F → ℕ → Result (Book F)
      unfolding close_due
      trade_day cs b day =
          enter_batch day (mark (close_due day b)) (select (λ c. entry_of c == day) cs)

      unfoldable pub trade_days : List (HistoricalCandidate F) → Book F → List ℕ → Result (Book F)
      unfolding trade_day
      trade_days cs b [] = ok b
      trade_days cs b (day ∷ days) = do next ← trade_day cs b day; trade_days cs next days

    abbrev gains_of : List (HistoricalTrade F) → F
    gains_of ts =
        sum_of (map (λ t. t.pnl) (select (λ (t : HistoricalTrade F). decimal 0 0 ≺ t.pnl) ts))

    abbrev losses_of : List (HistoricalTrade F) → F
    losses_of ts =
        negated
          (sum_of (map (λ t. t.pnl) (select (λ (t : HistoricalTrade F). t.pnl ≺ decimal 0 0) ts)))

    abbrev profit_factor_of : F → F → F
    profit_factor_of gains losses =
        if decimal 0 0 ≺ losses
        then gains ⊘ losses
        else if decimal 0 0 ≺ gains
        then infinity
        else decimal 0 0

    abbrev pub result_of : Book F → HistoricalBacktestResult F
    result_of b = record {
      starting_capital = settings.starting_capital;
      ending_capital = b.cash;
      total_return = b.cash ⊘ settings.starting_capital ⊖ decimal 1 0;
      profit_factor = profit_factor_of (gains_of b.trades) (losses_of b.trades);
      realized_max_drawdown = b.max_drawdown;
      trades = b.trades;
      rejected_cash = b.rejected_cash;
    }

    -- The end of `run`, on the positions that are still open
    abbrev pub finish : Book F → List (HistoricalPosition F) → Result (HistoricalBacktestResult F)
    finish b [] = ok (result_of b)
    finish b (_ ∷ _) = raise (runtime_error "historical backtest ended with unclosed positions")

    unfoldable pub run :
        Production F → List (HistoricalCandidate F) → Result (HistoricalBacktestResult F)
    unfolding trade_days all_dates has_duplicates
    run production cs = do
      raise_if (has_duplicates (map historical_key cs))
          (value_error "duplicate historical candidate")
      book ← trade_days production cs opening (all_dates cs)
      finish book book.positions
