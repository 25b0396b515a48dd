-- ===== src/Engine/Horizon.antt =====
-- `FixedHorizonPositionManager` of src/stock_trading/positions/horizon.py. The dates of the bars from
-- a day on are a function, as are Python's `int` of a float and of a string, which may raise.
pub mod Exits
use stock_traiding.Base.{
  ℕ, zero, suc, Bool, true, false, not, Option, none, some, List, [], ◌∷◌, Float, Result, ok, Error,
  value_error, type_error, key_error, runtime_error, zero_division_error, overflow_error, raise,
  raise_if, ◌>>=◌, ◌>>◌, Datetime, combine, ℤ, pos, negsuc, is_positive, int_le, leb, ltb,
  if◌then◌else◌, select, length,
}
use stock_traiding.Base.Sort.{sorted}
use stock_traiding.Engine.Contracts.{
  Identity, FeatureValue, float, int, str, bool, null, metadata_get, PortfolioPosition,
  PortfolioSnapshot, OrderIntent, sell, check_order,
}
use stock_traiding.Engine.Naming.{Naming}

pub record HorizonSources (F : Type 0) : Type 0 where
  pub bars_from : Identity → ℕ → ℤ → List ℕ
  pub int_of_float : F → Result ℤ
  pub int_of_str : Identity → Result ℤ

-- `items[n]`, `none` past the end
abbrev pub nth : ℕ → List ℕ → Option ℕ
nth n [] = none
nth zero (x ∷ xs) = some x
nth (suc n) (x ∷ xs) = nth n xs

-- The index of the last session of a horizon
abbrev pub last_index : ℤ → ℕ
last_index (pos zero) = 0
last_index (pos (suc n)) = n
last_index (negsuc n) = 0

-- `except (TypeError, ValueError)`: the other exceptions pass.
abbrev pub invalid_horizon : Error → Error
invalid_horizon (value_error m) = value_error "invalid horizon_sessions on position"
invalid_horizon (type_error m) = value_error "invalid horizon_sessions on position"
invalid_horizon (key_error m) = key_error m
invalid_horizon (runtime_error m) = runtime_error m
invalid_horizon zero_division_error = zero_division_error
invalid_horizon overflow_error = overflow_error

module _ {F : Type 0} ⦃fl : Float F⦄ (naming : Naming) (sources : HorizonSources F)
    (max_session_lookback : ℤ) where
  -- `max_session_lookback` of `__init__`
  unfoldable pub check_lookback : Result (Unit {0})
  check_lookback =
      raise_if (not (is_positive max_session_lookback))
        (value_error "max_session_lookback must be > 0")

  -- `int(raw_horizon)`
  abbrev pub horizon_of : FeatureValue F → Result ℤ
  horizon_of (int n) = ok n
  horizon_of (bool true) = ok (pos 1)
  horizon_of (bool false) = ok (pos 0)
  horizon_of (float x) = sources.int_of_float x
  horizon_of (str s) = sources.int_of_str s
  horizon_of null = raise (type_error "int() argument must not be 'NoneType'")

  abbrev pub exit_order : PortfolioPosition F → Datetime → ℤ → ℕ → ℕ → OrderIntent F
  exit_order p as_of horizon held exit_date = record {
    order_id = naming.exit_order_id p.position_id;
    strategy_id = p.strategy_id;
    company_id = p.company_id;
    security_id = p.security_id;
    side = sell;
    allocation_pct = p.allocation_pct;
    created_at = combine exit_date as_of.timetz;
    candidate_id = none;
    event_id = none;
    horizon_sessions = some horizon;
    execute_on = some exit_date;
    reason = "strategy_horizon_complete";
    metadata =
        ("position_id", str p.position_id)
        ∷ ("held_sessions", int (pos held))
        ∷ ("intended_exit_date", str (naming.iso_date exit_date))
        ∷ ("observed_at", str (naming.iso_datetime as_of))
        ∷ ("full_exit", bool true)
        ∷ [];
  }

  -- The exit of a position, once its horizon is known: none while fewer sessions are observed.
  unfoldable pub exit_at :
      PortfolioPosition F → Datetime → ℤ → Option ℕ → ℕ → Result (Option (OrderIntent F))
  exit_at p as_of horizon none held = ok none
  exit_at p as_of horizon (some day) held =
      check_order (exit_order p as_of horizon held day)
      >> ok (some (exit_order p as_of horizon held day))

  abbrev pub observed : PortfolioPosition F → Datetime → ℤ → List ℕ
  observed p as_of horizon =
      select (λ day. leb day as_of.date) (sources.bars_from p.security_id p.opened_on horizon)

  unfoldable pub exit_after :
      PortfolioPosition F → Datetime → Result ℤ → Result (Option (OrderIntent F))
  unfolding exit_at
  exit_after p as_of (raise e) = raise (invalid_horizon e)
  exit_after p as_of (ok horizon) = do
    raise_if (not (is_positive horizon)) (value_error "invalid horizon_sessions on position")
    raise_if (not (int_le horizon max_session_lookback))
        (value_error "position horizon exceeds configured PIT session lookback")
    exit_at p as_of horizon (nth (last_index horizon) (observed p as_of horizon))
        (length (observed p as_of horizon))

  -- One round of the loop
  unfoldable pub exit_of :
      PortfolioPosition F → Datetime → FeatureValue F → Result (Option (OrderIntent F))
  unfolding exit_after
  exit_of p as_of null = ok none
  exit_of p as_of (int n) = exit_after p as_of (horizon_of (int n))
  exit_of p as_of (bool b) = exit_after p as_of (horizon_of (bool b))
  exit_of p as_of (float x) = exit_after p as_of (horizon_of (float x))
  exit_of p as_of (str s) = exit_after p as_of (horizon_of (str s))

  abbrev pub add_exit : Option (OrderIntent F) → List (OrderIntent F) → List (OrderIntent F)
  add_exit none os = os
  add_exit (some o) os = o ∷ os

  unfoldable pub exits_of : Datetime → List (PortfolioPosition F) → Result (List (OrderIntent F))
  unfolding exit_of
  exits_of as_of [] = ok []
  exits_of as_of (p ∷ ps) = do
    first ← exit_of p as_of (metadata_get "horizon_sessions" p.metadata)
    rest ← exits_of as_of ps
    ok (add_exit first rest)

  -- `orders`
  unfoldable pub exit_orders : PortfolioSnapshot F → Datetime → Result (List (OrderIntent F))
  unfolding exits_of
  exit_orders portfolio as_of =
      exits_of as_of (sorted (λ a b. ltb a.position_id b.position_id) portfolio.positions)
