-- ===== src/Live/Sessions.antt =====
-- src/stock_trading/live/session_calendar.py, and src/stock_trading/market/execution_time.py, which it
-- uses. The calendar of the package `exchange_calendars` is a function that tells whether a day is a
-- session, with the times of each opening and close, for days within its coverage, outside of which the package
-- raises; the New York date of a time in UTC and the time in
-- UTC of the regular opening come from the time zone database, so they are functions too.
pub mod Resolved
use stock_traiding.Base.{
  ℕ, zero, suc, ◌+◌, ◌-◌, Bool, not, Option, none, some, List, [], ◌∷◌, Datetime, datetime_lt,
  Result, ok, raise, runtime_error, value_error, raise_if, ◌>>◌, leb, ltb, if◌then◌else◌, select,
}

pub record Exchange : Type 0 where
  pub is_session : ℕ → Bool
  pub open_of : ℕ → Datetime
  pub close_of : ℕ → Datetime
  pub eastern_date : Datetime → ℕ
  pub regular_open : ℕ → Datetime

-- The days of a range, from its first
abbrev pub days_from : ℕ → ℕ → List ℕ
days_from start zero = []
days_from start (suc n) = start ∷ days_from (start + 1) n

-- The first and the last item of a list of sessions
abbrev pub first_of : Result ℕ → List ℕ → Result ℕ
first_of missing [] = missing
first_of missing (day ∷ days) = ok day

abbrev pub last_from : ℕ → List ℕ → ℕ
last_from day [] = day
last_from day (next ∷ days) = last_from next days

abbrev pub last_of : Result ℕ → List ℕ → Result ℕ
last_of missing [] = missing
last_of missing (day ∷ days) = ok (last_from day days)

module _ (exchange : Exchange) where
  -- `sessions_in_range`, for the days from the first to the last
  abbrev pub sessions_in_range : ℕ → ℕ → List ℕ
  sessions_in_range first last = select exchange.is_session (days_from first (last + 1 - first))

  -- `decision_market_date`
  abbrev pub decision_market_date : Datetime → ℕ
  decision_market_date public_time = exchange.eastern_date public_time

  -- `_first_session_after`
  abbrev pub first_session_after : ℕ → Result ℕ
  first_session_after day =
      first_of (raise (runtime_error "XNYS calendar has no session"))
        (sessions_in_range (day + 1) (day + 14))

  unfoldable pub execution_date : Datetime → Result ℕ
  execution_date publication_time = first_session_after (decision_market_date publication_time)

  abbrev cycle_day : Datetime → ℕ → List ℕ → Result ℕ
  cycle_day cutoff eastern_day [] = first_session_after eastern_day
  cycle_day cutoff eastern_day (session ∷ _) =
      let next = first_session_after eastern_day in
      if datetime_lt cutoff (exchange.open_of session) then ok eastern_day else next

  unfoldable pub cycle_execution_date : Datetime → Result ℕ
  cycle_execution_date as_of =
      let eastern_day = decision_market_date as_of in
      cycle_day as_of eastern_day (sessions_in_range eastern_day eastern_day)

  abbrev time_of : (ℕ → Datetime) → List ℕ → Result Datetime
  time_of time (session ∷ []) = ok (time session)
  time_of time _ = raise (value_error "is not an XNYS session")

  unfoldable pub session_open : ℕ → Result Datetime
  session_open day = time_of exchange.open_of (sessions_in_range day day)

  unfoldable pub session_close : ℕ → Result Datetime
  session_close day = time_of exchange.close_of (sessions_in_range day day)

  -- The fourteen days before
  abbrev pub previous_session : ℕ → Result ℕ
  previous_session day =
      last_of (raise (runtime_error "XNYS calendar has no completed session"))
        (sessions_in_range (day - 14) (day - 1))

  abbrev completed_day : Datetime → ℕ → List ℕ → Result ℕ
  completed_day cutoff eastern_day [] = previous_session eastern_day
  completed_day cutoff eastern_day (session ∷ _) =
      let previous = previous_session eastern_day in
      if datetime_lt cutoff (exchange.close_of session) then previous else ok eastern_day

  unfoldable pub last_completed_session : Datetime → Result ℕ
  last_completed_session as_of =
      let eastern_day = decision_market_date as_of in
      completed_day as_of eastern_day (sessions_in_range eastern_day eastern_day)

  abbrev next_open_timestamp : ℕ → Datetime
  next_open_timestamp day = exchange.regular_open day

  unfoldable pub conservative_first_tradable_time : Datetime → ℕ → Result Datetime
  conservative_first_tradable_time public_time next_trading_date = do
    raise_if (leb next_trading_date (decision_market_date public_time))
        (value_error "next_trading_date must be after publication date")
    ok (next_open_timestamp next_trading_date)
