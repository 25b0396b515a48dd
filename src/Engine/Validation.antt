-- ===== src/Engine/Validation.antt =====
-- The checks by which `TradingEngine` (src/stock_trading/engine/runtime.py) holds every plugin to
-- its contract. Each loop is a function of the set `seen` that it keeps.
pub mod Inputs
pub mod Outputs
use stock_traiding.Base.{
  ℕ, Bool, true, false, not, ◌&&◌, ◌||◌, Option, none, some, List, [], ◌∷◌, map, Float, decimal,
  ◌⊕◌, ◌≺◌, Result, ok, raise, value_error, raise_if, ◌>>=◌, ◌>>◌, ◌==◌, if◌then◌else◌, elem, any,
  has_duplicates, String,
}
use stock_traiding.Base.Dict.{lookup, has, put, dict_of}
use stock_traiding.Engine.Contracts.{
  Identity, FeatureSnapshot, Opportunity, PortfolioPosition, PortfolioSnapshot, AllocationIntent,
  OrderIntent, ExecutionReport, is_buy, is_queued,
}
use stock_traiding.Engine.Equality.{opportunity_eq}

-- `set(returned) != expected`
abbrev pub differ : List ℕ → List ℕ → Bool
differ xs ys = any (λ x. not (elem x ys)) xs || any (λ y. not (elem y xs)) ys

module _ {F : Type 0} where
  abbrev pub candidate_key : FeatureSnapshot F → Identity
  candidate_key c = c.candidate_id

  abbrev pub opportunity_key : Opportunity F → Identity
  opportunity_key o = o.candidate_id

  abbrev pub allocation_key : AllocationIntent F → Identity
  allocation_key a = a.opportunity.candidate_id

  abbrev pub order_key : OrderIntent F → Identity
  order_key o = o.order_id

  abbrev pub report_key : ExecutionReport F → Identity
  report_key r = r.order_id

  unfoldable pub unique_from :
      List (FeatureSnapshot F) → List (FeatureSnapshot F) → Result (List (FeatureSnapshot F))
  unique_from result [] = ok result
  unique_from result (c ∷ cs) =
      raise_if (has candidate_key c.candidate_id result) (value_error "duplicate candidate_id")
      >> unique_from (put candidate_key c result) cs

  -- The dict by candidate, as the list of its values
  unfoldable pub unique_candidates : List (FeatureSnapshot F) → Result (List (FeatureSnapshot F))
  unfolding unique_from
  unique_candidates cs = unique_from [] cs

  abbrev pub same_candidate : Opportunity F → FeatureSnapshot F → Bool
  same_candidate o c =
      o.event_id == c.event_id
      && o.company_id == c.company_id
      && o.security_id == c.security_id
      && o.execution_date == c.execution_date

  abbrev pub check_candidate : Opportunity F → Option (FeatureSnapshot F) → Result (Unit {0})
  check_candidate o none = raise (value_error "strategy emitted unknown candidate")
  check_candidate o (some c) =
      raise_if (not (same_candidate o c)) (value_error "strategy changed candidate identity")

  unfoldable pub opportunities_from :
      Identity → List (FeatureSnapshot F) → List ℕ → List (Opportunity F) → Result (Unit {0})
  opportunities_from sid candidates seen [] = ok tt
  opportunities_from sid candidates seen (o ∷ os) = do
    raise_if (not (o.strategy_id == sid))
        (value_error "strategy emitted opportunity with foreign strategy_id")
    raise_if (elem o.candidate_id seen) (value_error "strategy emitted duplicate candidate")
    check_candidate o (lookup candidate_key o.candidate_id candidates)
    opportunities_from sid candidates (o.candidate_id ∷ seen) os

  unfoldable pub validate_opportunities :
      Identity → List (Opportunity F) → List (FeatureSnapshot F) → Result (Unit {0})
  unfolding opportunities_from
  validate_opportunities sid os candidates = opportunities_from sid candidates [] os

  -- `validate_strategy_opportunities`, the entry point of the shadow evaluation
  unfoldable pub validate_strategy_opportunities :
      Identity → List (Opportunity F) → List (FeatureSnapshot F) → Result (Unit {0})
  validate_strategy_opportunities sid os candidates =
      unique_candidates candidates >>= validate_opportunities sid os

  abbrev pub stands_at : Identity → Identity → PortfolioPosition F → Bool
  stands_at company security p = p.company_id == company && p.security_id == security

  -- The dict of the positions by company and security: of two with one key the later stays.
  abbrev pub position_at :
      Identity → Identity → List (PortfolioPosition F) → Option (PortfolioPosition F)
  position_at company security [] = none
  position_at company security (p ∷ ps) = elim (position_at company security ps) [
    | some q ↦ some q
    | none ↦ if stands_at company security p then some p else none
  ]

  abbrev pub check_ownership : OrderIntent F → Option (PortfolioPosition F) → Result (Unit {0})
  check_ownership o none = raise (value_error "position manager referenced a non-open position")
  check_ownership o (some p) = do
    raise_if (is_buy o.side)
        (value_error "position manager may only reduce/exit existing positions")
    raise_if (not (o.strategy_id == p.strategy_id))
        (value_error "position manager changed position strategy ownership")

  -- `(company, security) in seen`
  abbrev pub seen_pair : Identity → Identity → List (OrderIntent F) → Bool
  seen_pair company security = any (λ o. company == o.company_id && security == o.security_id)

  unfoldable pub position_orders_from :
      List (PortfolioPosition F) → List (OrderIntent F) → List (OrderIntent F) → Result (Unit {0})
  position_orders_from positions seen [] = ok tt
  position_orders_from positions seen (o ∷ os) = do
    check_ownership o (position_at o.company_id o.security_id positions)
    raise_if (seen_pair o.company_id o.security_id seen)
        (value_error "position manager emitted multiple orders for one position")
    position_orders_from positions (o ∷ seen) os

  unfoldable pub validate_position_orders :
      List (OrderIntent F) → PortfolioSnapshot F → Result (Unit {0})
  unfolding position_orders_from
  validate_position_orders os portfolio = position_orders_from portfolio.positions [] os

  unfoldable pub validate_subset : List (Opportunity F) → List (Opportunity F) → Result (Unit {0})
  validate_subset source subset = do
    let allowed = map opportunity_key source
    let returned = map opportunity_key subset
    raise_if (has_duplicates returned) (value_error "returned duplicate opportunities")
    raise_if (any (λ id. not (elem id allowed)) returned)
        (value_error "introduced unknown opportunities")

  unfoldable pub require_unique_order_ids : List (OrderIntent F) → Result (Unit {0})
  require_unique_order_ids os =
      raise_if (has_duplicates (map order_key os))
        (value_error "duplicate order_id in engine cycle")

  unfoldable pub validate_execution_reports :
      List (OrderIntent F) → List (ExecutionReport F) → Result (Unit {0})
  validate_execution_reports os reports = do
    let returned = map report_key reports
    raise_if (has_duplicates returned) (value_error "broker returned duplicate execution report")
    raise_if (differ returned (map order_key os))
        (value_error "broker must return exactly one execution report per order")

  unfoldable pub validate_settlements : List (ExecutionReport F) → Result (Unit {0})
  validate_settlements reports = do
    raise_if (has_duplicates (map report_key reports))
        (value_error "broker returned duplicate settlement report")
    raise_if (any (λ r. is_queued r.status) reports)
        (value_error "settle() cannot return still-queued orders")

  module _ ⦃fl : Float F⦄ where
    abbrev pub check_opportunity_kept : Opportunity F → Option (Opportunity F) → Result (Unit {0})
    check_opportunity_kept o none =
        raise (value_error "portfolio policy introduced or mutated an opportunity")
    check_opportunity_kept o (some expected) =
        raise_if (not (opportunity_eq expected o))
          (value_error "portfolio policy introduced or mutated an opportunity")

    unfoldable pub allocations_from :
        List (Opportunity F) → List ℕ → List (AllocationIntent F) → Result (Unit {0})
    allocations_from allowed seen [] = ok tt
    allocations_from allowed seen (a ∷ rest) = do
      raise_if (elem (allocation_key a) seen) (value_error "portfolio policy duplicated candidate")
      check_opportunity_kept a.opportunity (lookup opportunity_key (allocation_key a) allowed)
      allocations_from allowed (allocation_key a ∷ seen) rest

    unfoldable pub validate_allocations :
        List (AllocationIntent F) → List (Opportunity F) → Result (Unit {0})
    unfolding allocations_from
    validate_allocations allocations opportunities =
        allocations_from (dict_of opportunity_key opportunities) [] allocations

    abbrev pub check_not_upsized :
        AllocationIntent F → Option (AllocationIntent F) → Result (Unit {0})
    check_not_upsized a none = raise (value_error "portfolio risk introduced an allocation")
    check_not_upsized a (some expected) = do
      raise_if (not (opportunity_eq a.opportunity expected.opportunity))
          (value_error "portfolio risk mutated opportunity identity")
      raise_if (expected.allocation_pct ⊕ decimal 1 15 ≺ a.allocation_pct)
          (value_error "portfolio risk may reduce/reject but not upsize allocation")

    unfoldable pub allocation_subset_from :
        List (AllocationIntent F) → List ℕ → List (AllocationIntent F) → Result (Unit {0})
    allocation_subset_from allowed seen [] = ok tt
    allocation_subset_from allowed seen (a ∷ rest) = do
      raise_if (elem (allocation_key a) seen) (value_error "portfolio risk duplicated candidate")
      check_not_upsized a (lookup allocation_key (allocation_key a) allowed)
      allocation_subset_from allowed (allocation_key a ∷ seen) rest

    unfoldable pub validate_allocation_subset :
        List (AllocationIntent F) → List (AllocationIntent F) → Result (Unit {0})
    unfolding allocation_subset_from
    validate_allocation_subset source subset =
        allocation_subset_from (dict_of allocation_key source) [] subset
