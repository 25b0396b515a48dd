-- ===== src/Engine/Runtime/Decided.antt =====
-- What a decision of `TradingEngine.run_prepared` (src/stock_trading/engine/runtime.py) satisfies
-- when the engine goes on to the broker with it.
use stock_traiding.Base.{
  ℕ, ◌≡◌, refl, true, List, [], ◌∷◌, ◌++◌, map, Float, ok, >>=-eq-ok, >>-eq-ok, ok-injective, elem,
  All, Nodup, ap, sym, ◌∙◌, subst, Datetime,
}
use stock_traiding.Base.Dict.{dict_of}
use stock_traiding.Engine.Contracts.{
  Identity, Opportunity, OrderIntent, AllocationIntent, PreparedEngineCycle, check_order,
}
use stock_traiding.Engine.Naming.{Naming}
use stock_traiding.Engine.Validation.{
  candidate_key, opportunity_key, allocation_key, order_key, unique_candidates,
  validate_opportunities, validate_position_orders, validate_subset, validate_allocations,
  validate_allocation_subset, require_unique_order_ids,
}
use stock_traiding.Engine.Validation.Inputs.{
  unique_candidates_iff, IsFaithful, validate_opportunities_iff, IsOwnSale, DistinctPairs,
  validate_position_orders_iff,
}
use stock_traiding.Engine.Validation.Outputs.{
  IsKept, IsReduced, validate_subset_iff, validate_allocations_iff, validate_allocation_subset_iff,
  require_unique_order_ids_iff,
}
use stock_traiding.Engine.Reservations.{with_reservations}
use stock_traiding.Engine.Runtime.{
  Plugins, Decision, entry_order, entry_orders, evaluate_candidates, plan_exits, plan_allocations,
  plan_entries, decide,
}

module _ {F : Type 0} ⦃fl : Float F⦄ (naming : Naming) where
  entry_orders-map :
      (as_of : Datetime) (as' : List (AllocationIntent F)) (os : List (OrderIntent F))
      → entry_orders naming as_of as' ≡ ok os
      → (os ≡ map (entry_order naming as_of) as') × All (λ o. check_order o ≡ ok tt) os
  unfolding entry_orders
  entry_orders-map as_of [] os h =
      subst (λ xs. (xs ≡ []) × All (λ o. check_order o ≡ ok tt) xs) (ok-injective h) (refl, tt)
  entry_orders-map as_of (a ∷ rest) os h =
      let (checked, k) = >>-eq-ok (check_order (entry_order naming as_of a)) _ h in
      let (orders, e, k') = >>=-eq-ok (entry_orders naming as_of rest) _ k in
      let (same, others) = entry_orders-map as_of rest orders e in
      subst
        (λ xs.
          (xs ≡ map (entry_order naming as_of) (a ∷ rest)) × All (λ o. check_order o ≡ ok tt) xs)
        (ok-injective k') (ap (◌∷◌ (entry_order naming as_of a)) same, (checked, others))

  -- The decision as the engine's contract wants it.
  pub record IsDecided (prepared : PreparedEngineCycle F) (d : Decision F) : Type 0 where
    pub candidates : Nodup (map candidate_key prepared.candidates)
    pub faithful : All (IsFaithful d.strategy_id prepared.candidates) d.opportunities
    pub exits : All (IsOwnSale prepared.portfolio.positions) d.position_orders
    pub one_exit : DistinctPairs d.position_orders
    pub eligible :
        (x : ℕ)
        → elem x (map opportunity_key d.eligible) ≡ true
        → elem x (map opportunity_key d.opportunities) ≡ true
    pub proposed : All (IsKept (dict_of opportunity_key d.eligible)) d.proposed
    pub reduced : All (IsReduced (dict_of allocation_key d.proposed)) d.allocations
    pub once : Nodup (map allocation_key d.allocations)
    pub entries : d.entry_orders ≡ map (entry_order naming prepared.as_of) d.allocations
    pub entries_checked : All (λ o. check_order o ≡ ok tt) d.entry_orders
    pub order_ids : Nodup (map order_key (d.position_orders ++ d.entry_orders))

  module _ {S : Type 0} (plugins : Plugins F S) where
    evaluate_candidates-eq-ok :
        (prepared : PreparedEngineCycle F) (s : S) (r : Identity × List (Opportunity F))
        → evaluate_candidates naming plugins prepared s ≡ ok r
        → Nodup (map candidate_key prepared.candidates)
          × All (IsFaithful r.0 prepared.candidates) r.1
    unfolding evaluate_candidates
    evaluate_candidates-eq-ok prepared s r h =
        let (by_id, e1, h1) = >>=-eq-ok (unique_candidates prepared.candidates) _ h in
        let (sid, _, h2) = >>=-eq-ok (plugins.strategy_id s) _ h1 in
        let (os, _, h3) =
          >>=-eq-ok (plugins.evaluate s prepared.candidates prepared.portfolio) _ h2 in
        let (e4, h4) = >>-eq-ok (validate_opportunities sid os by_id) _ h3 in
        let (distinct, same) = (unique_candidates_iff prepared.candidates by_id).0 e1 in
        (
          distinct,
          subst
              (λ (p : Identity × List (Opportunity F)).
                All (IsFaithful p.0 prepared.candidates) p.1)
              (ok-injective h4)
              ((validate_opportunities_iff sid os prepared.candidates).0
                (ap (validate_opportunities sid os) (sym same) ∙ e4)).0,
        )

    plan_exits-eq-ok :
        (prepared : PreparedEngineCycle F) (s : S) (os : List (Opportunity F))
        (r : List (OrderIntent F) × List (Opportunity F))
        → plan_exits naming plugins prepared s os ≡ ok r
        → All (IsOwnSale prepared.portfolio.positions) r.0
          × DistinctPairs r.0
          × ((x : ℕ)
              → elem x (map opportunity_key r.1) ≡ true
              → elem x (map opportunity_key os) ≡ true)
    unfolding plan_exits
    plan_exits-eq-ok prepared s os r h =
        let (exits, _, h1) =
          >>=-eq-ok
            (plugins.position_orders s prepared.portfolio prepared.as_of prepared.candidates os) _
            h in
        let (e2, h2) = >>-eq-ok (validate_position_orders exits prepared.portfolio) _ h1 in
        let (eligible, _, h3) = >>=-eq-ok (plugins.opportunity_risk os prepared.portfolio) _ h2 in
        let (e4, h4) = >>-eq-ok (validate_subset os eligible) _ h3 in
        let (own, pairs) = (validate_position_orders_iff exits prepared.portfolio).0 e2 in
        subst
          (λ (p : List (OrderIntent F) × List (Opportunity F)).
            All (IsOwnSale prepared.portfolio.positions) p.0
            × DistinctPairs p.0
            × ((x : ℕ)
                → elem x (map opportunity_key p.1) ≡ true
                → elem x (map opportunity_key os) ≡ true))
          (ok-injective h4) (own, pairs, ((validate_subset_iff os eligible).0 e4).1)

    plan_allocations-eq-ok :
        (prepared : PreparedEngineCycle F) (s : S) (eligible : List (Opportunity F))
        (r : List (AllocationIntent F) × List (AllocationIntent F))
        → plan_allocations naming plugins prepared s eligible ≡ ok r
        → All (IsKept (dict_of opportunity_key eligible)) r.0
          × All (IsReduced (dict_of allocation_key r.0)) r.1
          × Nodup (map allocation_key r.1)
    unfolding plan_allocations
    plan_allocations-eq-ok prepared s eligible r h =
        let (pending, _, h1) = >>=-eq-ok (plugins.pending_entry_orders s) _ h in
        let (view, _, h2) = >>=-eq-ok (with_reservations naming prepared.portfolio pending) _ h1 in
        let (proposed, _, h3) = >>=-eq-ok (plugins.allocate eligible view) _ h2 in
        let (e4, h4) = >>-eq-ok (validate_allocations proposed eligible) _ h3 in
        let (allocations, _, h5) = >>=-eq-ok (plugins.portfolio_risk proposed view) _ h4 in
        let (e6, h6) = >>-eq-ok (validate_allocation_subset proposed allocations) _ h5 in
        let (kept, _) = (validate_allocations_iff proposed eligible).0 e4 in
        let (reduced, once) = (validate_allocation_subset_iff proposed allocations).0 e6 in
        subst
          (λ (p : List (AllocationIntent F) × List (AllocationIntent F)).
            All (IsKept (dict_of opportunity_key eligible)) p.0
            × All (IsReduced (dict_of allocation_key p.0)) p.1
            × Nodup (map allocation_key p.1))
          (ok-injective h6) (kept, reduced, once)

    plan_entries-eq-ok :
        (prepared : PreparedEngineCycle F) (exits : List (OrderIntent F))
        (allocations : List (AllocationIntent F)) (r : List (OrderIntent F))
        → plan_entries naming plugins prepared exits allocations ≡ ok r
        → (r ≡ map (entry_order naming prepared.as_of) allocations)
          × All (λ o. check_order o ≡ ok tt) r
          × Nodup (map order_key (exits ++ r))
    unfolding plan_entries
    plan_entries-eq-ok prepared exits allocations r h =
        let (entries, e1, h1) = >>=-eq-ok (entry_orders naming prepared.as_of allocations) _ h in
        let (e2, h2) = >>-eq-ok (require_unique_order_ids (exits ++ entries)) _ h1 in
        let (mapped, checked) = entry_orders-map prepared.as_of allocations entries e1 in
        subst
          (λ (p : List (OrderIntent F)).
            (p ≡ map (entry_order naming prepared.as_of) allocations)
            × All (λ o. check_order o ≡ ok tt) p
            × Nodup (map order_key (exits ++ p)))
          (ok-injective h2)
          (mapped, checked, (require_unique_order_ids_iff (exits ++ entries)).0 e2)

    -- Whatever the plugins return, `run_prepared` goes to the broker only with a decision in which:
    -- every opportunity stands for a candidate of the cycle and carries the strategy's identity;
    -- every exit sells an open position of its own strategy, one order for each; only candidates
    -- of the strategy are eligible; allocations are for eligible opportunities, unchanged, none
    -- twice, none larger than proposed; the entries are the orders of the allocations, checked;
    -- and no order identity stands twice.
    pub decide-IsDecided :
        (prepared : PreparedEngineCycle F) (s : S) (d : Decision F)
        → decide naming plugins prepared s ≡ ok d
        → IsDecided prepared d
    unfolding decide
    decide-IsDecided prepared s d h =
        let (evaluated, e1, h1) = >>=-eq-ok (evaluate_candidates naming plugins prepared s) _ h in
        let (planned, e2, h2) = >>=-eq-ok (plan_exits naming plugins prepared s evaluated.1) _ h1 in
        let (funded, e3, h3) =
          >>=-eq-ok (plan_allocations naming plugins prepared s planned.1) _ h2 in
        let (entries, e4, h4) =
          >>=-eq-ok (plan_entries naming plugins prepared planned.0 funded.1) _ h3 in
        let (distinct, faithful) = evaluate_candidates-eq-ok prepared s evaluated e1 in
        let (own, pairs, within) = plan_exits-eq-ok prepared s evaluated.1 planned e2 in
        let (kept, reduced, once) = plan_allocations-eq-ok prepared s planned.1 funded e3 in
        let (mapped, checked, ids) = plan_entries-eq-ok prepared planned.0 funded.1 entries e4 in
        subst (IsDecided prepared) (ok-injective h4) (record {
          candidates = distinct;
          faithful = faithful;
          exits = own;
          one_exit = pairs;
          eligible = within;
          proposed = kept;
          reduced = reduced;
          once = once;
          entries = mapped;
          entries_checked = checked;
          order_ids = ids;
        })
