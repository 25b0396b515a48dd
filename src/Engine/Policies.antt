-- ===== src/Engine/Policies.antt =====
-- The allocation and risk policies of src/stock_trading/engine/policies.py.
pub mod Allocation
use stock_traiding.Base.{
  ℕ, zero, suc, ◌-◌, Bool, true, false, not, ◌&&◌, ◌||◌, List, [], ◌∷◌, map, Float, decimal, ◌⊕◌,
  ◌⊖◌, ◌≼◌, ◌≺◌, max_of, sum_of, Result, ok, value_error, raise_if, ◌>>=◌, ◌>>◌, ◌==◌,
  if◌then◌else◌, ltb, leb, elem, length, select, String,
}
use stock_traiding.Base.Sort.{sorted}
use stock_traiding.Engine.Contracts.{
  Identity, Opportunity, PortfolioPosition, PortfolioSnapshot, AllocationIntent, OrderIntent,
  check_allocation, is_fraction,
}
use stock_traiding.Engine.Reservations.{company_of}

pub record FixedAllocationPortfolioPolicy (F : Type 0) : Type 0 where
  pub allocation_pct : F
  pub max_open_positions : ℕ
  pub max_gross_exposure_pct : F
  pub one_position_per_company : Bool

pub record BasicOpportunityRiskPolicy (F : Type 0) : Type 0 where
  pub max_expected_downside : F
  pub min_expected_return : F
  pub min_probability_positive : F

module _ {F : Type 0} ⦃fl : Float F⦄ where
  unfoldable pub check_allocation_policy : FixedAllocationPortfolioPolicy F → Result (Unit {0})
  check_allocation_policy p = do
    raise_if (not (decimal 0 0 ≺ p.allocation_pct && p.allocation_pct ≼ decimal 1 0))
        (value_error "allocation_pct must be in (0, 1]")
    raise_if (p.max_open_positions == 0) (value_error "max_open_positions must be > 0")
    raise_if
        (not (decimal 0 0 ≺ p.max_gross_exposure_pct && p.max_gross_exposure_pct ≼ decimal 1 0))
        (value_error "max_gross_exposure_pct must be in (0, 1]")

  -- Highest score first, then by candidate: the order of `(-score, candidate_id)`. Where a score is a
  -- NaN this is not an order, and what `sorted` makes of it is left to the sort.
  abbrev pub ranks_before : Opportunity F → Opportunity F → Bool
  ranks_before a b =
      if fl.same a.score b.score then ltb a.candidate_id b.candidate_id else b.score ≺ a.score

  abbrev pub ranked_entry : FixedAllocationPortfolioPolicy F → Opportunity F → AllocationIntent F
  ranked_entry p o = record {
    opportunity = o;
    allocation_pct = p.allocation_pct;
    reason = "fixed_allocation_ranked_entry";
  }

  -- The loop over the ranked opportunities, with the slots and the exposure that are left
  unfoldable pub allocate_from :
      FixedAllocationPortfolioPolicy F
      → ℕ
      → List ℕ
      → F
      → List (Opportunity F)
      → Result (List (AllocationIntent F))
  allocate_from p slots occupied exposure [] = ok []
  allocate_from p zero occupied exposure (o ∷ os) = ok []
  allocate_from p (suc slots) occupied exposure (o ∷ os) =
      let skipped = allocate_from p (suc slots) occupied exposure os in
      let taken =
        check_allocation (ranked_entry p o)
        >> (allocate_from p slots (o.company_id ∷ occupied) (exposure ⊖ p.allocation_pct) os
            >>= λ rest. ok (ranked_entry p o ∷ rest)) in
      if p.one_position_per_company && elem o.company_id occupied
      then skipped
      else if exposure ⊕ decimal 1 15 ≺ p.allocation_pct
      then ok []
      else taken

  unfoldable pub allocate :
      FixedAllocationPortfolioPolicy F
      → List (Opportunity F)
      → PortfolioSnapshot F
      → Result (List (AllocationIntent F))
  allocate p os portfolio =
      allocate_from p (p.max_open_positions - length portfolio.positions)
        (map company_of portfolio.positions)
        (max_of (decimal 0 0) (p.max_gross_exposure_pct ⊖ portfolio.gross_exposure_pct))
        (sorted ranks_before os)

  unfoldable pub check_risk_policy : BasicOpportunityRiskPolicy F → Result (Unit {0})
  check_risk_policy p = do
    raise_if (p.max_expected_downside ≺ decimal 0 0)
        (value_error "max_expected_downside must be >= 0")
    raise_if (not (is_fraction p.min_probability_positive))
        (value_error "min_probability_positive must be in [0, 1]")

  abbrev pub is_eligible : BasicOpportunityRiskPolicy F → Opportunity F → Bool
  is_eligible p o =
      o.expected_downside ≼ p.max_expected_downside
      && p.min_expected_return ≼ o.expected_return
      && p.min_probability_positive ≼ o.probability_positive

  -- `BasicOpportunityRiskPolicy.filter`
  unfoldable pub risk_filter :
      BasicOpportunityRiskPolicy F
      → List (Opportunity F)
      → PortfolioSnapshot F
      → List (Opportunity F)
  risk_filter p os portfolio = select (is_eligible p) os

-- The policies that change nothing
abbrev pub pass_opportunities :
    {F : Type 0} → List (Opportunity F) → PortfolioSnapshot F → List (Opportunity F)
pass_opportunities os portfolio = os

abbrev pub pass_allocations :
    {F : Type 0} → List (AllocationIntent F) → PortfolioSnapshot F → List (AllocationIntent F)
pass_allocations as' portfolio = as'

abbrev pub hold_positions : {F : Type 0} → PortfolioSnapshot F → List (OrderIntent F)
hold_positions portfolio = []

abbrev pub total_requested_exposure : {F : Type 0} → ⦃fl : Float F⦄ → List (AllocationIntent F) → F
total_requested_exposure as' = sum_of (map (λ a. a.allocation_pct) as')
