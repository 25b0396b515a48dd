-- ===== src/Engine/Runtime.antt =====
-- `TradingEngine` of src/stock_trading/engine/runtime.py. The plugins are functions; what they and
-- the broker change is a state `S`, which a call returns also when it raises.
pub mod Decided
pub mod Cycle
use stock_traiding.Base.{
  Bool, not, Option, none, some, List, [], ◌∷◌, ◌++◌, map, Float, Result, ok, raise, value_error,
  raise_if, ◌>>=◌, ◌>>◌, Datetime, datetime_eq, length, String,
}
use stock_traiding.Engine.Contracts.{
  Identity, FeatureSnapshot, Opportunity, PortfolioSnapshot, AllocationIntent, OrderIntent, buy,
  ExecutionReport, PreparedEngineCycle, EngineCycleResult, float, Metadata, metadata_put,
  check_order, check_prepared,
}
use stock_traiding.Engine.Naming.{Naming}
use stock_traiding.Engine.Validation.{
  unique_candidates, validate_opportunities, validate_position_orders, validate_subset,
  validate_allocations, validate_allocation_subset, require_unique_order_ids,
  validate_execution_reports, validate_settlements,
}
use stock_traiding.Engine.Reservations.{with_reservations}

-- A call with effects on `S`
abbrev pub Action : Type 0 → Type 0 → Type 0
Action S A = S → Result A × S

-- The rest of a method after a call: not reached when the call raises.
abbrev pub and_then : {S A B : Type 0} → Result A × S → (A → Action S B) → Result B × S
and_then (ok a, s) k = k a s
and_then (raise e, s) k = (raise e, s)

-- What the engine asks of the outside. `settle` and `pending_entry_orders` are optional methods of
-- a broker; `record_result` is the observer's, and does nothing where there is no observer.
pub record Plugins (F S : Type 0) : Type 0 where
  pub candidates : S → Datetime → Result (List (FeatureSnapshot F))
  pub strategy_id : S → Result Identity
  pub evaluate : S → List (FeatureSnapshot F) → PortfolioSnapshot F → Result (List (Opportunity F))
  pub position_orders :
      S
      → PortfolioSnapshot F
      → Datetime
      → List (FeatureSnapshot F)
      → List (Opportunity F)
      → Result (List (OrderIntent F))
  pub opportunity_risk : List (Opportunity F) → PortfolioSnapshot F → Result (List (Opportunity F))
  pub allocate : List (Opportunity F) → PortfolioSnapshot F → Result (List (AllocationIntent F))
  pub portfolio_risk :
      List (AllocationIntent F) → PortfolioSnapshot F → Result (List (AllocationIntent F))
  pub snapshot : S → Datetime → Result (PortfolioSnapshot F)
  pub pending_entry_orders : S → Result (Option (List (OrderIntent F)))
  pub settle : Option (Datetime → Action S (List (ExecutionReport F)))
  pub execute : List (OrderIntent F) → Action S (List (ExecutionReport F))
  pub record_result : EngineCycleResult F → Action S (Unit {0})

-- All that a cycle has settled before it goes to the broker
pub record Decision (F : Type 0) : Type 0 where
  pub strategy_id : Identity
  pub opportunities : List (Opportunity F)
  pub eligible : List (Opportunity F)
  pub proposed : List (AllocationIntent F)
  pub allocations : List (AllocationIntent F)
  pub position_orders : List (OrderIntent F)
  pub entry_orders : List (OrderIntent F)

-- `{**first, **second}`
abbrev merge : {F : Type 0} → Metadata F → Metadata F → Metadata F
merge m [] = m
merge m ((k, v) ∷ n) = merge (metadata_put k v m) n

module _ {F : Type 0} ⦃fl : Float F⦄ (naming : Naming) where
  unfoldable pub entry_order : Datetime → AllocationIntent F → OrderIntent F
  entry_order as_of a = record {
    order_id = naming.entry_order_id a.opportunity.strategy_id a.opportunity.candidate_id;
    strategy_id = a.opportunity.strategy_id;
    company_id = a.opportunity.company_id;
    security_id = a.opportunity.security_id;
    side = buy;
    allocation_pct = a.allocation_pct;
    created_at = as_of;
    candidate_id = some a.opportunity.candidate_id;
    event_id = some a.opportunity.event_id;
    horizon_sessions = some a.opportunity.horizon_sessions;
    execute_on = some a.opportunity.execution_date;
    reason = a.reason;
    metadata =
        merge
          (("score", float a.opportunity.score)
            ∷ ("expected_return", float a.opportunity.expected_return)
            ∷ ("expected_alpha", float a.opportunity.expected_alpha)
            ∷ ("expected_downside", float a.opportunity.expected_downside)
            ∷ ("probability_positive", float a.opportunity.probability_positive)
            ∷ [])
          a.opportunity.metadata;
  }

  -- The entry orders of the allocations, each constructed and checked
  unfoldable pub entry_orders : Datetime → List (AllocationIntent F) → Result (List (OrderIntent F))
  entry_orders as_of [] = ok []
  entry_orders as_of (a ∷ rest) = do
    check_order (entry_order as_of a)
    orders ← entry_orders as_of rest
    ok (entry_order as_of a ∷ orders)

  module _ {S : Type 0} (plugins : Plugins F S) where
    open plugins use {
      candidates, strategy_id, evaluate, position_orders, opportunity_risk, allocate,
      portfolio_risk, snapshot, pending_entry_orders, settle, execute, record_result,
    }

    -- `run_prepared` up to the validated opportunities
    unfoldable pub evaluate_candidates :
        PreparedEngineCycle F → S → Result (Identity × List (Opportunity F))
    evaluate_candidates prepared s = do
      by_id ← unique_candidates prepared.candidates
      sid ← strategy_id s
      opportunities ← evaluate s prepared.candidates prepared.portfolio
      validate_opportunities sid opportunities by_id
      ok (sid, opportunities)

    -- The orders of the position policy, and the eligible opportunities
    unfoldable pub plan_exits :
        PreparedEngineCycle F
        → S
        → List (Opportunity F)
        → Result (List (OrderIntent F) × List (Opportunity F))
    plan_exits prepared s opportunities = do
      exits ← position_orders s prepared.portfolio prepared.as_of prepared.candidates opportunities
      validate_position_orders exits prepared.portfolio
      eligible ← opportunity_risk opportunities prepared.portfolio
      validate_subset opportunities eligible
      ok (exits, eligible)

    -- The allocations proposed and kept, on the view with reserved entries
    unfoldable pub plan_allocations :
        PreparedEngineCycle F
        → S
        → List (Opportunity F)
        → Result (List (AllocationIntent F) × List (AllocationIntent F))
    plan_allocations prepared s eligible = do
      pending ← pending_entry_orders s
      view ← with_reservations naming prepared.portfolio pending
      proposed ← allocate eligible view
      validate_allocations proposed eligible
      allocations ← portfolio_risk proposed view
      validate_allocation_subset proposed allocations
      ok (proposed, allocations)

    unfoldable pub plan_entries :
        PreparedEngineCycle F
        → List (OrderIntent F)
        → List (AllocationIntent F)
        → Result (List (OrderIntent F))
    plan_entries prepared exits allocations = do
      entries ← entry_orders prepared.as_of allocations
      require_unique_order_ids (exits ++ entries)
      ok entries

    -- The body of `run_prepared` up to the call of the broker
    unfoldable pub decide : PreparedEngineCycle F → S → Result (Decision F)
    decide prepared s = do
      evaluated ← evaluate_candidates prepared s
      planned ← plan_exits prepared s evaluated.1
      funded ← plan_allocations prepared s planned.1
      entries ← plan_entries prepared planned.0 funded.1
      ok (record {
        strategy_id = evaluated.0;
        opportunities = evaluated.1;
        eligible = planned.1;
        proposed = funded.0;
        allocations = funded.1;
        position_orders = planned.0;
        entry_orders = entries;
      })

    unfoldable pub cycle_result :
        PreparedEngineCycle F → Decision F → List (ExecutionReport F) → EngineCycleResult F
    cycle_result prepared d executions = record {
      as_of = prepared.as_of;
      strategy_id = d.strategy_id;
      candidate_count = length prepared.candidates;
      opportunity_count = length d.opportunities;
      eligible_opportunity_count = length d.eligible;
      allocation_count = length d.allocations;
      position_orders = d.position_orders;
      entry_orders = d.entry_orders;
      executions = executions;
      settlements = prepared.settlements;
    }

    abbrev pub all_orders : Decision F → List (OrderIntent F)
    all_orders d = d.position_orders ++ d.entry_orders

    -- The observer's call, and the result of the cycle
    unfoldable pub observe : EngineCycleResult F → Action S (EngineCycleResult F)
    observe result s = and_then (record_result result s) (λ _ s'. (ok result, s'))

    -- The rest of `run_prepared`, from the broker's answer on
    unfoldable pub accept :
        PreparedEngineCycle F
        → Decision F
        → List (ExecutionReport F)
        → Action S (EngineCycleResult F)
    unfolding observe cycle_result
    accept prepared d executions s =
        and_then (validate_execution_reports (all_orders d) executions, s)
          (λ _. observe (cycle_result prepared d executions))

    unfoldable pub submit : PreparedEngineCycle F → Decision F → Action S (EngineCycleResult F)
    unfolding accept
    submit prepared d s = and_then (execute (all_orders d) s) (accept prepared d)

    unfoldable pub run_prepared : PreparedEngineCycle F → Action S (EngineCycleResult F)
    unfolding submit
    run_prepared prepared s = and_then (decide prepared s, s) (submit prepared)

    -- `prepare_cycle` after the settlement of old orders
    unfoldable pub capture :
        Datetime → List (ExecutionReport F) → S → Result (PreparedEngineCycle F)
    capture as_of settlements s = do
      validate_settlements settlements
      portfolio ← snapshot s as_of
      raise_if (not (datetime_eq portfolio.as_of as_of))
          (value_error "portfolio snapshot as_of does not match engine cycle")
      found ← candidates s as_of
      unique ← unique_candidates found
      let prepared : PreparedEngineCycle F = record {
        as_of = as_of;
        portfolio = portfolio;
        candidates = found;
        settlements = settlements;
      }
      check_prepared prepared
      ok prepared

    abbrev settle_first : Datetime → Action S (List (ExecutionReport F))
    settle_first as_of s = elim settle [ none ↦ (ok [], s) | some run ↦ run as_of s ]

    unfoldable pub prepare_cycle : Datetime → Action S (PreparedEngineCycle F)
    unfolding capture
    prepare_cycle as_of s =
        and_then (settle_first as_of s) (λ settlements s'. (capture as_of settlements s', s'))

    unfoldable pub run_cycle : Datetime → Action S (EngineCycleResult F)
    unfolding prepare_cycle run_prepared
    run_cycle as_of s = and_then (prepare_cycle as_of s) run_prepared
