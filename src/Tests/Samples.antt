-- ===== src/Tests/Samples.antt =====
-- Concrete floats and records: a number with six decimal places, one strategy, two companies and a
-- PAPER account.
use Prim.Native.Nat.{◌+◌, ◌-◌, ◌*◌, ◌/◌, ◌^◌}
use stock_traiding.Base.{
  ℕ, true, Option, none, some, List, [], ◌∷◌, Float, ℤ, pos, negsuc, leb, ltb, ◌==◌, Result, ok,
  raise, Datetime, if◌then◌else◌,
}
use stock_traiding.Engine.Contracts.{
  Identity, FeatureSnapshot, Opportunity, PortfolioPosition, PortfolioSnapshot, OrderIntent,
  OrderSide, buy, sell, PreparedEngineCycle, ExecutionReport, plain, filled,
}
use stock_traiding.Engine.Naming.{Naming}
use stock_traiding.Engine.Runtime.{Plugins}
use stock_traiding.Engine.Policies.{FixedAllocationPortfolioPolicy, allocate}
use stock_traiding.Execution.Ledger.{LedgerFile, PaperPositionState}
use stock_traiding.Execution.Fill.{PriceProvider, fill}
use stock_traiding.Execution.Broker.{FillFunction}

-- A number of millionths
abbrev pub Fixed : Type 0
Fixed = ℕ

abbrev unsigned : ℤ → ℕ
unsigned (pos n) = n
unsigned (negsuc n) = 0

instance abbrev pub fixed_point : Float Fixed
fixed_point = record {
  decimal = λ m k. m * 10 ^ 6 / 10 ^ k;
  from_int = λ n. unsigned n * 10 ^ 6;
  add = λ x y. x + y;
  sub = λ x y. x - y;
  mul = λ x y. x * y / 10 ^ 6;
  neg = λ x. if x == 10 ^ 30 then 10 ^ 31 else 0;
  infinity = 10 ^ 30;
  div = λ x y. if y == 0 then 0 else x * 10 ^ 6 / y;
  le = λ x y. if y == 10 ^ 31 then x == y else leb x y;
  lt = ltb;
  same = λ x y. x == y;
}

abbrev pub value_of : {A : Type 0} → A → Result A → A
value_of d (ok a) = a
value_of d (raise e) = d

abbrev pub at : ℕ → Datetime
at day = record { date = day; timetz = 9 }

abbrev pub naming : Naming
naming = record {
  entry_order_id = λ s c. 1000 + c;
  exit_order_id = λ p. 2000 + p;
  reserved_id = λ o. 3000 + o;
  position_id = λ s o c. 4000 + o;
  iso_date = λ d. d;
  iso_datetime = λ d. d.date;
}

abbrev pub candidate : ℕ → ℕ → FeatureSnapshot Fixed
candidate id company = record {
  candidate_id = id;
  event_id = 50 + id;
  company_id = company;
  security_id = 100 + company;
  decision_time = at 10;
  execution_date = 11;
  features = [];
}

abbrev pub opportunity : ℕ → ℕ → ℕ → Opportunity Fixed
opportunity id company score = record {
  strategy_id = 7;
  candidate_id = id;
  event_id = 50 + id;
  company_id = company;
  security_id = 100 + company;
  execution_date = 11;
  score = score;
  expected_return = 10_000;
  expected_alpha = 5_000;
  expected_downside = 2_000;
  probability_positive = 600_000;
  horizon_sessions = pos 5;
  metadata = [];
}

abbrev pub order : OrderSide → ℕ → ℕ → Option ℕ → OrderIntent Fixed
order side id company day = record {
  order_id = id;
  strategy_id = 7;
  company_id = company;
  security_id = 100 + company;
  side = side;
  allocation_pct = 20_000;
  created_at = at 10;
  candidate_id = some id;
  event_id = some (50 + id);
  horizon_sessions = some (pos 5);
  execute_on = day;
  reason = "test";
  metadata = [];
}

abbrev pub held : ℕ → PaperPositionState Fixed
held company = record {
  position_id = 400 + company;
  strategy_id = 7;
  company_id = company;
  security_id = 100 + company;
  shares = 10_000_000;
  average_entry_price = 50_000_000;
  opened_at = at 3;
  last_price = 50_000_000;
  horizon_sessions = some (pos 5);
  candidate_id = none;
  event_id = none;
}

abbrev pub position : ℕ → PortfolioPosition Fixed
position company = record {
  position_id = 400 + company;
  strategy_id = 7;
  company_id = company;
  security_id = 100 + company;
  allocation_pct = 50_000;
  opened_on = 3;
  planned_exit_date = none;
  metadata = [];
}

-- An account with one position and one entry that waits for day 11
abbrev pub account : LedgerFile Fixed
account = record {
  cash = 9_500_000_000;
  positions = held 1 ∷ [];
  pending_orders = order buy 31 3 (some 11) ∷ [];
  completed_reports = [];
  submitted_orders = some (order buy 31 3 (some 11) ∷ []);
}

-- Every security at 50
abbrev pub fifty : PriceProvider Fixed
fifty security as_of = some 50_000_000

abbrev pub digest : Identity → Identity → Identity → Identity
digest s o c = 4000 + o

abbrev pub paper_fill : FillFunction Fixed
paper_fill = fill digest 10_000_000 fifty

abbrev pub cash : Fixed
cash = 10_000_000_000

abbrev pub portfolio : PortfolioSnapshot Fixed
portfolio = record {
  as_of = at 10;
  equity = 10_000_000_000;
  cash = 9_500_000_000;
  gross_exposure_pct = 50_000;
  positions = position 1 ∷ [];
}

abbrev pub cycle : PreparedEngineCycle Fixed
cycle = record {
  as_of = at 10;
  portfolio = portfolio;
  candidates = candidate 21 2 ∷ candidate 22 2 ∷ [];
  settlements = [];
}

abbrev pub policy : FixedAllocationPortfolioPolicy Fixed
policy = record {
  allocation_pct = 20_000;
  max_open_positions = 15;
  max_gross_exposure_pct = 300_000;
  one_position_per_company = true;
}

abbrev pub report : OrderIntent Fixed → ExecutionReport Fixed
report o = record {
  order_id = o.order_id;
  accepted = true;
  executed_at = at 10;
  message = plain "test";
  fill_price = some 50_000_000;
  status = filled;
}

abbrev reports : List (OrderIntent Fixed) → List (ExecutionReport Fixed)
reports [] = []
reports (o ∷ os) = report o ∷ reports os

-- A strategy with two opportunities for one company, a sale of the open position, and a broker
-- that counts its calls
abbrev pub plugins : Plugins Fixed ℕ
plugins = record {
  candidates = λ s as_of. ok cycle.candidates;
  strategy_id = λ s. ok 7;
  evaluate = λ s cs p. ok (opportunity 21 2 100 ∷ opportunity 22 2 200 ∷ []);
  position_orders = λ s p as_of cs os. ok (order sell 71 1 none ∷ []);
  opportunity_risk = λ os p. ok os;
  allocate = allocate policy;
  portfolio_risk = λ as' p. ok as';
  snapshot = λ s as_of. ok portfolio;
  pending_entry_orders = λ s. ok (some (order buy 31 3 (some 11) ∷ []));
  settle = none;
  execute = λ os s. (ok (reports os), s + 1);
  record_result = λ r s. (ok tt, s);
}
