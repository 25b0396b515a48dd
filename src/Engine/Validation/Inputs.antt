-- ===== src/Engine/Validation/Inputs.antt =====
-- What the checks of candidates, opportunities and position orders in
-- src/stock_trading/engine/runtime.py accept, against declarative descriptions.
use stock_traiding.Base.{
  ℕ, ◌≡◌, refl, ◌↔◌, inl, inr, false, some, List, [], ◌∷◌, ◌++◌, map, ok, All, Nodup, NodupFrom,
  NodupFrom-iff, arith, Option-cases, ap, ◌∙◌, sym,
}
use stock_traiding.Base.Dict.{keys, lookup, has, put, has-eq-elem, put_new, elem_front, Nodup-put}
use mathlib.Core.List.{append-nil, append_assoc}
use stock_traiding.Engine.Contracts.{
  Identity, FeatureSnapshot, Opportunity, PortfolioPosition, PortfolioSnapshot, OrderIntent, sell,
}
use stock_traiding.Engine.Validation.{
  candidate_key, opportunity_key, unique_from, unique_candidates, opportunities_from,
  validate_opportunities, position_at, seen_pair, position_orders_from, validate_position_orders,
}

module _ {F : Type 0} where
  unique_from_sound :
      (result cs : List (FeatureSnapshot F)) {d : List (FeatureSnapshot F)}
      → Nodup (keys candidate_key result)
      → unique_from result cs ≡ ok d
      → Nodup (keys candidate_key (result ++ cs)) × (d ≡ result ++ cs)
  unfolding unique_from
  unique_from_sound result [] n h = rw append-nil (n, ground arith)
  unique_from_sound result (c ∷ cs) {d} n h =
      let fresh : has candidate_key c.candidate_id result ≡ false = ground arith in
      let appended =
        put_new candidate_key c result (sym (has-eq-elem candidate_key _ result) ∙ fresh) in
      let rest =
        unique_from_sound (put candidate_key c result) cs {d = d}
          (Nodup-put candidate_key c result n) (ground arith) in
      rw (← append_assoc result (c ∷ []) cs, ← appended) rest

  unique_from_complete :
      (result cs : List (FeatureSnapshot F))
      → Nodup (keys candidate_key (result ++ cs))
      → unique_from result cs ≡ ok (result ++ cs)
  unfolding unique_from
  unique_from_complete result [] n = rw append-nil
  unique_from_complete result (c ∷ cs) n =
      let fresh = elem_front candidate_key c result cs n in
      rw
        (
          has-eq-elem candidate_key c.candidate_id result,
          fresh,
          put_new candidate_key c result fresh,
        )
        (unique_from_complete (result ++ c ∷ []) cs (rw (append_assoc result (c ∷ []) cs) n)
          ∙ ap ok (append_assoc result (c ∷ []) cs))

  -- The engine accepts a set of candidates exactly when no identity stands twice; the dict that it
  -- builds then holds all of them, in their order.
  pub unique_candidates_iff :
      (cs d : List (FeatureSnapshot F))
      → (unique_candidates cs ≡ ok d) ↔ (Nodup (map candidate_key cs) × (d ≡ cs))
  unfolding unique_candidates
  unique_candidates_iff cs d =
      (λ h. unique_from_sound [] cs tt h, λ h. unique_from_complete [] cs h.0 ∙ ap ok (sym h.1))

  -- The opportunity names a candidate of the cycle and repeats its identity.
  pub record IsFaithful (sid : Identity) (cs : List (FeatureSnapshot F)) (o : Opportunity F)
      : Type 0 where
    pub candidate : FeatureSnapshot F
    pub known : lookup candidate_key o.candidate_id cs ≡ some candidate
    pub strategy : o.strategy_id ≡ sid
    pub event : o.event_id ≡ candidate.event_id
    pub company : o.company_id ≡ candidate.company_id
    pub security : o.security_id ≡ candidate.security_id
    pub day : o.execution_date ≡ candidate.execution_date

  opportunities_from_sound :
      (sid : Identity) (cs : List (FeatureSnapshot F)) (seen : List ℕ) (os : List (Opportunity F))
      → opportunities_from sid cs seen os ≡ ok tt
      → All (IsFaithful sid cs) os × NodupFrom seen (map opportunity_key os)
  unfolding opportunities_from
  opportunities_from_sound sid cs seen [] h = (tt, tt)
  opportunities_from_sound sid cs seen (o ∷ os) h =
      elim (Option-cases (lookup candidate_key o.candidate_id cs)) [
        | inl e ↦ ground arith
        | inr (c, e) ↦
            let rest = opportunities_from_sound sid cs (o.candidate_id ∷ seen) os (ground arith) in
            (
              (
                record {
                  candidate = c;
                  known = e;
                  strategy = ground arith;
                  event = ground arith;
                  company = ground arith;
                  security = ground arith;
                  day = ground arith;
                },
                rest.0,
              ),
              (ground arith, rest.1),
            )
      ]

  opportunities_from_complete :
      (sid : Identity) (cs : List (FeatureSnapshot F)) (seen : List ℕ) (os : List (Opportunity F))
      → All (IsFaithful sid cs) os
      → NodupFrom seen (map opportunity_key os)
      → opportunities_from sid cs seen os ≡ ok tt
  unfolding opportunities_from
  opportunities_from_complete sid cs seen [] a n = refl
  opportunities_from_complete sid cs seen (o ∷ os) a n =
      ground (arith, opportunities_from_complete sid cs (o.candidate_id ∷ seen) os a.1 n.1)

  -- The check of a strategy's output accepts it exactly when every opportunity carries the
  -- strategy's identity and repeats the identity of a known candidate, and no candidate is named
  -- twice.
  pub validate_opportunities_iff :
      (sid : Identity) (os : List (Opportunity F)) (cs : List (FeatureSnapshot F))
      → (validate_opportunities sid os cs ≡ ok tt)
        ↔ (All (IsFaithful sid cs) os × Nodup (map opportunity_key os))
  unfolding validate_opportunities
  validate_opportunities_iff sid os cs = (
    λ h.
        let (faithful, distinct) = opportunities_from_sound sid cs [] os h in
        (faithful, (NodupFrom-iff _).0 distinct),
    λ h. opportunities_from_complete sid cs [] os h.0 ((NodupFrom-iff _).1 h.1),
  )

  -- The order sells an open position of its own strategy.
  pub record IsOwnSale (ps : List (PortfolioPosition F)) (o : OrderIntent F) : Type 0 where
    pub position : PortfolioPosition F
    pub open_there : position_at o.company_id o.security_id ps ≡ some position
    pub sells : o.side ≡ sell
    pub owner : o.strategy_id ≡ position.strategy_id

  -- No two orders are for the same company and security.
  abbrev pub DistinctPairs : List (OrderIntent F) → Type 0
  DistinctPairs [] = Unit
  DistinctPairs (o ∷ os) = (seen_pair o.company_id o.security_id os ≡ false) × DistinctPairs os

  abbrev AvoidsPairs : List (OrderIntent F) → List (OrderIntent F) → Type 0
  AvoidsPairs seen [] = Unit
  AvoidsPairs seen (o ∷ os) =
      (seen_pair o.company_id o.security_id seen ≡ false) × AvoidsPairs seen os

  AvoidsPairs-cons :
      (p : OrderIntent F) (seen os : List (OrderIntent F))
      → AvoidsPairs (p ∷ seen) os
        ↔ ((seen_pair p.company_id p.security_id os ≡ false) × AvoidsPairs seen os)
  AvoidsPairs-cons p seen [] = (λ _. (refl, tt), λ _. tt)
  AvoidsPairs-cons p seen (o ∷ os) = (
    λ h. ground (arith, (AvoidsPairs-cons p seen os).0 h.1),
    λ h. ground (arith, (AvoidsPairs-cons p seen os).1),
  )

  AvoidsPairs-nil : (os : List (OrderIntent F)) → AvoidsPairs [] os
  AvoidsPairs-nil [] = tt
  AvoidsPairs-nil (o ∷ os) = (refl, AvoidsPairs-nil os)

  position_orders_from_sound :
      (ps : List (PortfolioPosition F)) (seen os : List (OrderIntent F))
      → position_orders_from ps seen os ≡ ok tt
      → All (IsOwnSale ps) os × DistinctPairs os × AvoidsPairs seen os
  unfolding position_orders_from
  position_orders_from_sound ps seen [] h = (tt, tt, tt)
  position_orders_from_sound ps seen (o ∷ os) h =
      elim (Option-cases (position_at o.company_id o.security_id ps)) [
        | inl e ↦ ground arith
        | inr (p, e) ↦
            let (own, distinct, apart) =
              position_orders_from_sound ps (o ∷ seen) os (ground arith) in
            let (fresh, rest) = (AvoidsPairs-cons o seen os).0 apart in
            (
              (
                record { position = p; open_there = e; sells = ground arith; owner = ground arith },
                own,
              ),
              (fresh, distinct),
              (ground arith, rest),
            )
      ]

  position_orders_from_complete :
      (ps : List (PortfolioPosition F)) (seen os : List (OrderIntent F))
      → All (IsOwnSale ps) os
      → DistinctPairs os
      → AvoidsPairs seen os
      → position_orders_from ps seen os ≡ ok tt
  unfolding position_orders_from
  position_orders_from_complete ps seen [] own distinct apart = refl
  position_orders_from_complete ps seen (o ∷ os) own distinct apart = ground (
    arith,
    position_orders_from_complete ps (o ∷ seen) os own.1 distinct.1
        ((AvoidsPairs-cons o seen os).1 (distinct.0, apart.1)),
  )

  -- The check of a position manager's output accepts it exactly when every order sells an open
  -- position of its own strategy, and no position is ordered for twice.
  pub validate_position_orders_iff :
      (os : List (OrderIntent F)) (portfolio : PortfolioSnapshot F)
      → (validate_position_orders os portfolio ≡ ok tt)
        ↔ (All (IsOwnSale portfolio.positions) os × DistinctPairs os)
  unfolding validate_position_orders
  validate_position_orders_iff os portfolio = (
    λ h.
        let (own, distinct, _) = position_orders_from_sound portfolio.positions [] os h in
        (own, distinct),
    λ h. position_orders_from_complete portfolio.positions [] os h.0 h.1 (AvoidsPairs-nil os),
  )
