-- ===== src/Research/Historical.antt =====
-- src/stock_trading/research/historical.py: its records and the checks on what the strategy and the
-- policies answer. The mapping of a candidate's outcomes is a list of pairs.
pub mod Accepted
pub mod Run
use stock_traiding.Base.{
  ℕ, Bool, true, false, not, ◌&&◌, Option, none, some, List, [], ◌∷◌, Float, decimal, ◌⊕◌, ◌≺◌,
  Result, ok, raise, value_error, raise_if, ◌>>◌, check_each, ltb, ◌==◌, if◌then◌else◌, elem, ℤ,
  int_eq, is_positive,
}
use stock_traiding.Base.Dict.{lookup, dict_of}
use stock_traiding.Engine.Contracts.{Identity, FeatureSnapshot, Opportunity, AllocationIntent}
use stock_traiding.Engine.Equality.{opportunity_eq}
use stock_traiding.Engine.Validation.{opportunity_key, allocation_key, same_candidate}

pub record HistoricalOutcome (F : Type 0) : Type 0 where
  pub horizon_sessions : ℤ
  pub exit_date : ℕ
  pub stock_return : F
  pub alpha : F
  pub downside : F

pub record HistoricalCandidate (F : Type 0) : Type 0 where
  pub snapshot : FeatureSnapshot F
  pub outcomes : List (ℤ × HistoricalOutcome F)

pub record HistoricalTrade (F : Type 0) : Type 0 where
  pub strategy_id : Identity
  pub candidate_id : Identity
  pub event_id : Identity
  pub company_id : Identity
  pub security_id : Identity
  pub entry_date : ℕ
  pub exit_date : ℕ
  pub horizon_sessions : ℤ
  pub allocation_pct : F
  pub allocated_capital : F
  pub gross_return : F
  pub net_return : F
  pub alpha : F
  pub downside : F
  pub pnl : F
  pub opportunity_score : F

pub record HistoricalBacktestResult (F : Type 0) : Type 0 where
  pub starting_capital : F
  pub ending_capital : F
  pub total_return : F
  pub profit_factor : F
  pub realized_max_drawdown : F
  pub trades : List (HistoricalTrade F)
  pub rejected_cash : ℕ

pub record HistoricalPosition (F : Type 0) : Type 0 where
  pub opportunity : Opportunity F
  pub candidate : HistoricalCandidate F
  pub outcome : HistoricalOutcome F
  pub capital : F
  pub allocation_pct : F

module _ {F : Type 0} where
  abbrev pub historical_key : HistoricalCandidate F → Identity
  historical_key c = c.snapshot.candidate_id

  -- `candidate.outcomes.get(horizon)`
  abbrev pub outcome_at : ℤ → List (ℤ × HistoricalOutcome F) → Option (HistoricalOutcome F)
  outcome_at horizon [] = none
  outcome_at horizon ((key, outcome) ∷ rest) =
      if int_eq horizon key then some outcome else outcome_at horizon rest

  -- The check of an item of `candidate.outcomes`
  abbrev check_entry : FeatureSnapshot F → ℤ × HistoricalOutcome F → Result (Unit {0})
  check_entry snapshot (horizon, outcome) = do
    raise_if (not (int_eq horizon outcome.horizon_sessions))
        (value_error "historical outcome key/horizon mismatch")
    raise_if (ltb outcome.exit_date snapshot.execution_date)
        (value_error "historical outcome exits before execution")

  abbrev is_empty : List (ℤ × HistoricalOutcome F) → Bool
  is_empty [] = true
  is_empty (_ ∷ _) = false

  unfoldable pub check_historical : HistoricalCandidate F → Result (Unit {0})
  check_historical c = do
    raise_if (is_empty c.outcomes)
        (value_error "historical candidate must have at least one outcome")
    check_each (check_entry c.snapshot) c.outcomes

  abbrev check_known : Opportunity F → Option (HistoricalCandidate F) → Result (Unit {0})
  check_known o none = raise (value_error "strategy emitted candidate outside current PIT batch")
  check_known o (some historical) =
      raise_if (not (same_candidate o historical.snapshot))
        (value_error "strategy mutated candidate identity")

  unfoldable pub opportunities_checked :
      Identity
      → List (HistoricalCandidate F)
      → List Identity
      → List (Opportunity F)
      → Result (Unit {0})
  opportunities_checked strategy_id by_id seen [] = ok tt
  opportunities_checked strategy_id by_id seen (o ∷ os) = do
    raise_if (not (o.strategy_id == strategy_id))
        (value_error "strategy emitted foreign strategy_id")
    raise_if (elem o.candidate_id seen) (value_error "strategy emitted duplicate opportunity")
    check_known o (lookup historical_key o.candidate_id by_id)
    opportunities_checked strategy_id by_id (o.candidate_id ∷ seen) os

  -- `_validate_opportunities`
  unfoldable pub validate_opportunities :
      Identity → List (Opportunity F) → List (HistoricalCandidate F) → Result (Unit {0})
  unfolding opportunities_checked
  validate_opportunities strategy_id os by_id = opportunities_checked strategy_id by_id [] os

module _ {F : Type 0} ⦃fl : Float F⦄ where
  unfoldable pub check_outcome : HistoricalOutcome F → Result (Unit {0})
  check_outcome o = do
    raise_if (not (is_positive o.horizon_sessions)) (value_error "horizon_sessions must be > 0")
    raise_if (o.downside ≺ decimal 0 0) (value_error "downside must be >= 0")

  -- `allowed.get(candidate_id) == opportunity`
  abbrev pub is_allowed : Opportunity F → Option (Opportunity F) → Bool
  is_allowed o none = false
  is_allowed o (some expected) = opportunity_eq expected o

  unfoldable pub subset_checked :
      List (Opportunity F) → List Identity → List (Opportunity F) → Result (Unit {0})
  subset_checked allowed seen [] = ok tt
  subset_checked allowed seen (o ∷ os) = do
    raise_if (elem o.candidate_id seen) (value_error "opportunity risk duplicated candidate")
    raise_if (not (is_allowed o (lookup opportunity_key o.candidate_id allowed)))
        (value_error "opportunity risk introduced or mutated opportunity")
    subset_checked allowed (o.candidate_id ∷ seen) os

  unfoldable pub validate_opportunity_subset :
      List (Opportunity F) → List (Opportunity F) → Result (Unit {0})
  unfolding subset_checked
  validate_opportunity_subset source subset =
      subset_checked (dict_of opportunity_key source) [] subset

  unfoldable pub allocations_checked :
      List (Opportunity F) → List Identity → List (AllocationIntent F) → Result (Unit {0})
  allocations_checked allowed seen [] = ok tt
  allocations_checked allowed seen (a ∷ rest) = do
    raise_if (elem (allocation_key a) seen) (value_error "portfolio policy duplicated candidate")
    raise_if (not (is_allowed a.opportunity (lookup opportunity_key (allocation_key a) allowed)))
        (value_error "portfolio policy introduced or mutated opportunity")
    allocations_checked allowed (allocation_key a ∷ seen) rest

  -- `_validate_allocations`
  unfoldable pub validate_allocations :
      List (AllocationIntent F) → List (Opportunity F) → Result (Unit {0})
  unfolding allocations_checked
  validate_allocations allocations opportunities =
      allocations_checked (dict_of opportunity_key opportunities) [] allocations

  abbrev check_original : AllocationIntent F → Option (AllocationIntent F) → Result (Unit {0})
  check_original a none = raise (value_error "portfolio risk introduced or mutated opportunity")
  check_original a (some original) = do
    raise_if (not (opportunity_eq original.opportunity a.opportunity))
        (value_error "portfolio risk introduced or mutated opportunity")
    raise_if (original.allocation_pct ⊕ decimal 1 15 ≺ a.allocation_pct)
        (value_error "portfolio risk may not upsize allocation")

  unfoldable pub risk_checked :
      List (AllocationIntent F) → List Identity → List (AllocationIntent F) → Result (Unit {0})
  risk_checked allowed seen [] = ok tt
  risk_checked allowed seen (a ∷ rest) = do
    raise_if (elem (allocation_key a) seen) (value_error "portfolio risk duplicated candidate")
    check_original a (lookup allocation_key (allocation_key a) allowed)
    risk_checked allowed (allocation_key a ∷ seen) rest

  unfoldable pub validate_portfolio_risk :
      List (AllocationIntent F) → List (AllocationIntent F) → Result (Unit {0})
  unfolding risk_checked
  validate_portfolio_risk proposed filtered =
      risk_checked (dict_of allocation_key proposed) [] filtered
