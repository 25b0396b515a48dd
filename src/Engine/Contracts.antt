-- ===== src/Engine/Contracts.antt =====
-- src/stock_trading/engine/contracts.py: the records that the engine's parts exchange, and the
-- checks of their `__post_init__` methods. A constructor call of the source is `check_… >> ok …`.
use text.Mathlib.Text.{◌==◌ as str_eq}
use stock_traiding.Base.{
  ℕ, String, Bool, true, false, not, ◌&&◌, ◌||◌, Option, none, some, List, [], ◌∷◌, Float, decimal,
  ◌≼◌, ◌≺◌, Result, value_error, raise_if, ◌>>◌, Datetime, datetime_eq, ℤ, is_positive,
  if◌then◌else◌, or_else, ltb,
}

-- Identities are strings that the program only compares and sorts: the number of an identity is
-- its place in that order, and 0 is the empty string.
abbrev pub Identity : Type 0
Identity = ℕ

pub data FeatureValue (F : Type 0) : Type 0 where
  float : F → FeatureValue F
  int : ℤ → FeatureValue F
  str : Identity → FeatureValue F
  bool : Bool → FeatureValue F
  null : FeatureValue F

abbrev pub Metadata : Type 0 → Type 0
Metadata F = List (String × FeatureValue F)

-- `metadata.get(name)`; a missing name and a stored `None` are both `null`.
abbrev pub metadata_get : {F : Type 0} → String → Metadata F → FeatureValue F
metadata_get name [] = null
metadata_get name ((n, v) ∷ m) = if str_eq name n then v else metadata_get name m

-- `{**metadata, name: value}`
abbrev pub metadata_put : {F : Type 0} → String → FeatureValue F → Metadata F → Metadata F
metadata_put name v [] = (name, v) ∷ []
metadata_put name v ((n, w) ∷ m) =
    if str_eq name n then (n, v) ∷ m else (n, w) ∷ metadata_put name v m

pub data StrategyStage : Type 0 where
  development shadow paper live retired : StrategyStage

abbrev pub stage_eq : StrategyStage → StrategyStage → Bool
stage_eq development development = true
stage_eq shadow shadow = true
stage_eq paper paper = true
stage_eq live live = true
stage_eq retired retired = true
stage_eq _ _ = false

pub data OrderSide : Type 0 where
  buy sell : OrderSide

abbrev pub is_buy : OrderSide → Bool
is_buy buy = true
is_buy sell = false

abbrev pub side_eq : OrderSide → OrderSide → Bool
side_eq buy buy = true
side_eq sell sell = true
side_eq buy sell = false
side_eq sell buy = false

pub data ExecutionStatus : Type 0 where
  queued filled rejected cancelled : ExecutionStatus

abbrev pub is_queued : ExecutionStatus → Bool
is_queued queued = true
is_queued filled = false
is_queued rejected = false
is_queued cancelled = false

-- `status in {QUEUED, FILLED}`; the other two statuses are `{REJECTED, CANCELLED}`.
abbrev pub is_positive_status : ExecutionStatus → Bool
is_positive_status queued = true
is_positive_status filled = true
is_positive_status rejected = false
is_positive_status cancelled = false

pub record FeatureSnapshot (F : Type 0) : Type 0 where
  pub candidate_id : Identity
  pub event_id : Identity
  pub company_id : Identity
  pub security_id : Identity
  pub decision_time : Datetime
  pub execution_date : ℕ
  pub features : Metadata F

pub record Opportunity (F : Type 0) : Type 0 where
  pub strategy_id : Identity
  pub candidate_id : Identity
  pub event_id : Identity
  pub company_id : Identity
  pub security_id : Identity
  pub execution_date : ℕ
  pub score : F
  pub expected_return : F
  pub expected_alpha : F
  pub expected_downside : F
  pub probability_positive : F
  pub horizon_sessions : ℤ
  pub metadata : Metadata F

pub record PortfolioPosition (F : Type 0) : Type 0 where
  pub position_id : Identity
  pub strategy_id : Identity
  pub company_id : Identity
  pub security_id : Identity
  pub allocation_pct : F
  pub opened_on : ℕ
  pub planned_exit_date : Option ℕ
  pub metadata : Metadata F

pub record PortfolioSnapshot (F : Type 0) : Type 0 where
  pub as_of : Datetime
  pub equity : F
  pub cash : F
  pub gross_exposure_pct : F
  pub positions : List (PortfolioPosition F)

pub record AllocationIntent (F : Type 0) : Type 0 where
  pub opportunity : Opportunity F
  pub allocation_pct : F
  pub reason : String

pub record OrderIntent (F : Type 0) : Type 0 where
  pub order_id : Identity
  pub strategy_id : Identity
  pub company_id : Identity
  pub security_id : Identity
  pub side : OrderSide
  pub allocation_pct : F
  pub created_at : Datetime
  pub candidate_id : Option Identity
  pub event_id : Option Identity
  pub horizon_sessions : Option ℤ
  pub execute_on : Option ℕ
  pub reason : String
  pub metadata : Metadata F

-- A report's message: a constant text, or one that quotes a fee.
pub data Message (F : Type 0) : Type 0 where
  plain : String → Message F
  with_fee : String → F → Message F

pub record ExecutionReport (F : Type 0) : Type 0 where
  pub order_id : Identity
  pub accepted : Bool
  pub executed_at : Datetime
  pub message : Message F
  pub fill_price : Option F
  pub status : ExecutionStatus

pub record PreparedEngineCycle (F : Type 0) : Type 0 where
  pub as_of : Datetime
  pub portfolio : PortfolioSnapshot F
  pub candidates : List (FeatureSnapshot F)
  pub settlements : List (ExecutionReport F)

pub record EngineCycleResult (F : Type 0) : Type 0 where
  pub as_of : Datetime
  pub strategy_id : Identity
  pub candidate_count : ℕ
  pub opportunity_count : ℕ
  pub eligible_opportunity_count : ℕ
  pub allocation_count : ℕ
  pub position_orders : List (OrderIntent F)
  pub entry_orders : List (OrderIntent F)
  pub executions : List (ExecutionReport F)
  pub settlements : List (ExecutionReport F)

-- `order.execute_on or order.created_at.date()`
abbrev pub execution_day : {F : Type 0} → OrderIntent F → ℕ
execution_day o = or_else o.execute_on o.created_at.date

-- `cycle.portfolio.as_of != cycle.as_of`
unfoldable pub check_prepared : {F : Type 0} → PreparedEngineCycle F → Result (Unit {0})
check_prepared c =
    raise_if (not (datetime_eq c.portfolio.as_of c.as_of))
      (value_error "prepared portfolio as_of does not match cycle")

-- `horizon is not None and horizon <= 0`
abbrev pub bad_horizon : Option ℤ → Bool
bad_horizon none = false
bad_horizon (some h) = not (is_positive h)

-- `execute_on is not None and execute_on < created_at.date()`
abbrev pub precedes : Option ℕ → ℕ → Bool
precedes none day = false
precedes (some d) day = ltb d day

module _ {F : Type 0} ⦃fl : Float F⦄ where
  -- `low <= x <= high` of a fraction
  abbrev pub is_fraction : F → Bool
  is_fraction x = decimal 0 0 ≼ x && x ≼ decimal 1 0

  unfoldable pub check_opportunity : Opportunity F → Result (Unit {0})
  check_opportunity o = do
    raise_if (not (is_positive o.horizon_sessions)) (value_error "horizon_sessions must be > 0")
    raise_if (not (is_fraction o.probability_positive))
        (value_error "probability_positive must be in [0, 1]")

  unfoldable pub check_position : PortfolioPosition F → Result (Unit {0})
  check_position p =
      raise_if (p.allocation_pct ≼ decimal 0 0) (value_error "position allocation_pct must be > 0")

  unfoldable pub check_snapshot : PortfolioSnapshot F → Result (Unit {0})
  check_snapshot s = do
    raise_if (s.equity ≺ decimal 0 0 || s.cash ≺ decimal 0 0)
        (value_error "equity and cash must be >= 0")
    raise_if (not (is_fraction s.gross_exposure_pct))
        (value_error "gross_exposure_pct must be in [0, 1]")

  unfoldable pub check_allocation : AllocationIntent F → Result (Unit {0})
  check_allocation a =
      raise_if (a.allocation_pct ≼ decimal 0 0) (value_error "allocation_pct must be > 0")

  unfoldable pub check_order : OrderIntent F → Result (Unit {0})
  check_order o = do
    raise_if (o.allocation_pct ≼ decimal 0 0) (value_error "order allocation_pct must be > 0")
    raise_if (bad_horizon o.horizon_sessions)
        (value_error "horizon_sessions must be > 0 when provided")
    raise_if (precedes o.execute_on o.created_at.date)
        (value_error "execute_on cannot precede order creation date")

  -- `fill_price is not None and fill_price <= 0`
  abbrev pub bad_price : Option F → Bool
  bad_price none = false
  bad_price (some p) = p ≼ decimal 0 0

  unfoldable pub check_report : ExecutionReport F → Result (Unit {0})
  check_report r = do
    raise_if (is_positive_status r.status && not r.accepted)
        (value_error "queued/filled execution reports must be accepted")
    raise_if (not (is_positive_status r.status) && r.accepted)
        (value_error "rejected/cancelled execution reports cannot be accepted")
    raise_if (bad_price r.fill_price) (value_error "fill_price must be > 0 when provided")
