-- ===== src/Tests/Cycle.antt =====
-- Runs of the decision engine (src/stock_trading/engine) on the sample cycle.
use stock_traiding.Base.{
  ℕ, zero, suc, pos, ◌+◌, ◌-◌, ◌≡◌, refl, ◌↔◌, Bool, true, false, Option, none, some, List, [], ◌∷◌,
  map, Result, ok, raise, overflow_error, value_error, All, Nodup, elem, length, subst,
}
use stock_traiding.Base.Dict.{dict_of}
use stock_traiding.Engine.Contracts.{
  OrderIntent, Opportunity, AllocationIntent, PortfolioSnapshot, ExecutionReport, EngineCycleResult,
  int, buy, sell,
}
use stock_traiding.Engine.Equality.{opportunity_eq, SameIdentity, opportunity_eq-SameIdentity}
use stock_traiding.Engine.Validation.{
  candidate_key, opportunity_key, allocation_key, order_key, report_key, validate_opportunities,
  validate_position_orders, validate_subset, validate_allocations, validate_allocation_subset,
  validate_execution_reports, validate_settlements,
}
use stock_traiding.Engine.Validation.Inputs.{
  IsFaithful, validate_opportunities_iff, IsOwnSale, DistinctPairs, validate_position_orders_iff,
}
use stock_traiding.Engine.Validation.Outputs.{
  IsKept, IsReduced, validate_allocations_iff, validate_allocation_subset_iff,
}
use stock_traiding.Engine.Reservations.{company_of, with_reservations}
use stock_traiding.Engine.Reservations.View.{IsReservedView, with_reservations-IsReservedView}
use stock_traiding.Engine.Policies.{allocate}
use stock_traiding.Engine.Horizon.{HorizonSources, exit_orders}
use stock_traiding.Engine.Horizon.Exits.{IsExit, exit_orders-IsExit}
use stock_traiding.Engine.Policies.Allocation.{IsAllocated, allocate-IsAllocated}
use stock_traiding.Engine.Runtime.{Decision, decide, all_orders, run_prepared}
use stock_traiding.Engine.Runtime.Decided.{IsDecided, decide-IsDecided}
use stock_traiding.Execution.Ledger.{LedgerFile}
use stock_traiding.Execution.Fill.Contract.{fill-IsOutcome}
use stock_traiding.Execution.Broker.{execute}
use stock_traiding.Execution.Broker.Soundness.{IsFill}
use stock_traiding.Execution.Accepted.{execute_accepted}
use stock_traiding.Tests.Samples.{
  Fixed, fixed_point, value_of, at, naming, opportunity, order, position, account, fifty, digest,
  paper_fill, cash, portfolio, cycle, policy, report, plugins,
}

abbrev opportunities : List (Opportunity Fixed)
opportunities = opportunity 21 2 100 ∷ opportunity 22 2 200 ∷ []

abbrev waiting : List (OrderIntent Fixed)
waiting = order buy 31 3 (some 11) ∷ []

abbrev nothing : Decision Fixed
nothing = record {
  strategy_id = 0;
  opportunities = [];
  eligible = [];
  proposed = [];
  allocations = [];
  position_orders = [];
  entry_orders = [];
}

decision : Decision Fixed
unfolding decide
decision = value_of nothing (decide naming plugins cycle 0)

decided_ok : decide naming plugins cycle 0 ≡ ok decision
unfolding decide decision stock_traiding.Engine.Runtime.evaluate_candidates
    stock_traiding.Engine.Runtime.plan_exits stock_traiding.Engine.Runtime.plan_allocations
    stock_traiding.Engine.Runtime.plan_entries stock_traiding.Engine.Runtime.entry_orders
    stock_traiding.Engine.Runtime.entry_order stock_traiding.Engine.Validation.unique_candidates
    stock_traiding.Engine.Validation.unique_from stock_traiding.Engine.Validation.opportunities_from
    stock_traiding.Engine.Validation.position_orders_from
    stock_traiding.Engine.Validation.require_unique_order_ids
    stock_traiding.Engine.Validation.allocations_from
    stock_traiding.Engine.Validation.allocation_subset_from validate_opportunities
    validate_position_orders validate_subset validate_allocations validate_allocation_subset
    opportunity_eq stock_traiding.Engine.Equality.metadata_eq stock_traiding.Base.has_duplicates
    with_reservations stock_traiding.Engine.Reservations.reserve
    stock_traiding.Engine.Contracts.check_position stock_traiding.Engine.Contracts.check_snapshot
    stock_traiding.Engine.Contracts.check_order allocate
    stock_traiding.Engine.Policies.allocate_from stock_traiding.Engine.Contracts.check_allocation
decided_ok = refl

decide-IsDecided_example : IsDecided naming cycle decision
decide-IsDecided_example = decide-IsDecided naming plugins cycle 0 decision decided_ok

abbrev no_result : EngineCycleResult Fixed
no_result = record {
  as_of = at 0;
  strategy_id = 0;
  candidate_count = 0;
  opportunity_count = 0;
  eligible_opportunity_count = 0;
  allocation_count = 0;
  position_orders = [];
  entry_orders = [];
  executions = [];
  settlements = [];
}

ran : Result (EngineCycleResult Fixed) × ℕ
unfolding run_prepared
ran = run_prepared naming plugins cycle 0

paper_fill-IsFill : IsFill paper_fill
paper_fill-IsFill = record {
  outcome = λ o now c ps done h. fill-IsOutcome digest 10_000_000 fifty o now c ps h;
}

executed : List (ExecutionReport Fixed) × Option (LedgerFile Fixed)
unfolding execute decide decision
executed =
    value_of ([], none)
      (execute cash paper_fill (some account) (all_orders naming plugins decision))

executed_ok :
    execute cash paper_fill (some account) (all_orders naming plugins decision)
    ≡ ok (executed.0, executed.1)
unfolding execute executed stock_traiding.Execution.Ledger.load
    stock_traiding.Execution.Ledger.construct stock_traiding.Engine.Contracts.check_order
    stock_traiding.Execution.Ledger.check_paper_position
    stock_traiding.Execution.Ledger.check_ledger stock_traiding.Base.has_duplicates
    stock_traiding.Execution.Broker.open_book stock_traiding.Execution.Fill.fill
    stock_traiding.Execution.Fill.divide stock_traiding.Execution.Fill.marked_equity
    stock_traiding.Engine.Contracts.check_report
    stock_traiding.Execution.Broker.validate_replayed_order
    stock_traiding.Execution.Broker.closed_state decide decision
    stock_traiding.Engine.Runtime.evaluate_candidates stock_traiding.Engine.Runtime.plan_exits
    stock_traiding.Engine.Runtime.plan_allocations stock_traiding.Engine.Runtime.plan_entries
    stock_traiding.Engine.Runtime.entry_orders stock_traiding.Engine.Runtime.entry_order
    stock_traiding.Engine.Validation.unique_candidates stock_traiding.Engine.Validation.unique_from
    stock_traiding.Engine.Validation.opportunities_from
    stock_traiding.Engine.Validation.position_orders_from
    stock_traiding.Engine.Validation.require_unique_order_ids
    stock_traiding.Engine.Validation.allocations_from
    stock_traiding.Engine.Validation.allocation_subset_from validate_opportunities
    validate_position_orders validate_subset validate_allocations validate_allocation_subset
    opportunity_eq stock_traiding.Engine.Equality.metadata_eq with_reservations
    stock_traiding.Engine.Reservations.reserve stock_traiding.Engine.Contracts.check_position
    stock_traiding.Engine.Contracts.check_snapshot allocate
    stock_traiding.Engine.Policies.allocate_from stock_traiding.Engine.Contracts.check_allocation
executed_ok = refl

execute_accepted_example :
    validate_execution_reports (all_orders naming plugins decision) executed.0 ≡ ok tt
execute_accepted_example =
    execute_accepted naming plugins cash paper_fill paper_fill-IsFill cycle 0 decision
      (some account) executed.1 executed.0 decided_ok executed_ok

view : PortfolioSnapshot Fixed
unfolding with_reservations
view = value_of portfolio (with_reservations naming portfolio (some waiting))

view_ok : with_reservations naming portfolio (some waiting) ≡ ok view
unfolding with_reservations view stock_traiding.Engine.Reservations.reserve
    stock_traiding.Engine.Contracts.check_position stock_traiding.Engine.Contracts.check_snapshot
view_ok = refl

with_reservations-IsReservedView_example : IsReservedView naming portfolio waiting view
with_reservations-IsReservedView_example =
    with_reservations-IsReservedView naming portfolio waiting view view_ok

allocated : List (AllocationIntent Fixed)
unfolding allocate
allocated = value_of [] (allocate policy opportunities portfolio)

allocated_ok : allocate policy opportunities portfolio ≡ ok allocated
unfolding allocate allocated stock_traiding.Engine.Policies.allocate_from
    stock_traiding.Engine.Contracts.check_allocation
allocated_ok = refl

allocate-IsAllocated_example :
    IsAllocated policy
      (15 - length portfolio.positions)
      (map company_of portfolio.positions)
      opportunities
      allocated
allocate-IsAllocated_example =
    allocate-IsAllocated policy opportunities portfolio allocated (refl, (refl, tt)) allocated_ok

validate_opportunities_iff_example :
    All (IsFaithful 7 cycle.candidates) opportunities × Nodup (map opportunity_key opportunities)
unfolding validate_opportunities
validate_opportunities_iff_example =
    (validate_opportunities_iff 7 opportunities cycle.candidates).0 refl

validate_position_orders_iff_example :
    All (IsOwnSale portfolio.positions) (order sell 71 1 none ∷ [])
    × DistinctPairs (order sell 71 1 none ∷ [])
unfolding validate_position_orders
validate_position_orders_iff_example =
    (validate_position_orders_iff (order sell 71 1 none ∷ []) portfolio).0 refl

abbrev allocation : ℕ → AllocationIntent Fixed
allocation pct = record {
  opportunity = opportunity 22 2 200;
  allocation_pct = pct;
  reason = "test";
}

validate_allocations_iff_example :
    All (IsKept (dict_of opportunity_key opportunities)) (allocation 20_000 ∷ [])
    × Nodup (map allocation_key (allocation 20_000 ∷ []))
unfolding validate_allocations opportunity_eq stock_traiding.Engine.Equality.metadata_eq
validate_allocations_iff_example =
    (validate_allocations_iff (allocation 20_000 ∷ []) opportunities).0 refl

validate_allocation_subset_iff_example :
    All (IsReduced (dict_of allocation_key (allocation 20_000 ∷ []))) (allocation 10_000 ∷ [])
    × Nodup (map allocation_key (allocation 10_000 ∷ []))
unfolding validate_allocation_subset opportunity_eq stock_traiding.Engine.Equality.metadata_eq
validate_allocation_subset_iff_example =
    (validate_allocation_subset_iff (allocation 20_000 ∷ []) (allocation 10_000 ∷ [])).0 refl

abbrev answered : List (ExecutionReport Fixed)
answered = report (order buy 31 3 none) ∷ report (order buy 41 4 none) ∷ []

abbrev asked : List (OrderIntent Fixed)
asked = order buy 41 4 none ∷ order buy 31 3 none ∷ []

-- A session on every day from the first
abbrev from_day : ℕ → ℕ → List ℕ
from_day day zero = []
from_day day (suc n) = day ∷ from_day (day + 1) n

abbrev daily : HorizonSources Fixed
daily = record {
  bars_from = λ security day n. from_day day 5;
  int_of_float = λ x. raise overflow_error;
  int_of_str = λ s. raise (value_error "invalid literal for int()");
}

abbrev aged : PortfolioSnapshot Fixed
aged = record portfolio {
  positions = record (position 1) { metadata = ("horizon_sessions", int (pos 5)) ∷ [] } ∷ [];
}

exits : List (OrderIntent Fixed)
unfolding exit_orders
exits = value_of [] (exit_orders naming daily (pos 512) aged (at 10))

exits_ok : exit_orders naming daily (pos 512) aged (at 10) ≡ ok exits
unfolding exit_orders exits stock_traiding.Engine.Contracts.check_order
exits_ok = refl

exit_orders-IsExit_example : All (IsExit naming daily (pos 512) aged (at 10)) exits
exit_orders-IsExit_example = exit_orders-IsExit naming daily (pos 512) aged (at 10) exits exits_ok
