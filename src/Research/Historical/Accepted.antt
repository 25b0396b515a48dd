-- ===== src/Research/Historical/Accepted.antt =====
-- The checks of src/stock_trading/research/historical.py beside those of the engine,
-- src/stock_trading/engine/runtime.py.
use stock_traiding.Base.{
  ℕ, ◌≡◌, refl, true, ◌||◌, some, List, [], ◌∷◌, map, Float, ok, elem, NodupFrom, NodupFrom-iff,
  Option-cases, inl, inr, arith,
}
use stock_traiding.Base.Dict.{keys, lookup, has, has-eq-elem, put, put_all, dict_of, elem-put}
use stock_traiding.Engine.Contracts.{Identity, FeatureSnapshot, Opportunity, AllocationIntent}
use stock_traiding.Engine.Validation.{
  candidate_key, opportunity_key, allocation_key, opportunities_from, validate_subset,
  allocations_from,
}
use stock_traiding.Engine.Validation.Outputs.{validate_subset_iff}
use stock_traiding.Research.Historical.{
  HistoricalCandidate, historical_key, opportunities_checked, subset_checked, allocations_checked,
  validate_opportunities, validate_opportunity_subset, validate_allocations,
}

elem-put_all :
    {V : Type 0} (key : V → ℕ) (k : ℕ) (xs d : List V)
    → elem k (keys key (put_all key xs d)) ≡ (elem k (keys key xs) || elem k (keys key d))
elem-put_all key k [] d = refl
elem-put_all key k (x ∷ xs) d =
    ground (arith, elem-put_all key k xs (put key x d), elem-put key k x d)

module _ {F : Type 0} where
  abbrev pub snapshots_of : List (HistoricalCandidate F) → List (FeatureSnapshot F)
  snapshots_of = map (λ c. c.snapshot)

  lookup-snapshots :
      (k : ℕ) (cs : List (HistoricalCandidate F)) {c : HistoricalCandidate F}
      → lookup historical_key k cs ≡ some c
      → lookup candidate_key k (snapshots_of cs) ≡ some c.snapshot
  lookup-snapshots k [] h = cc
  lookup-snapshots k (x ∷ cs) {c} h = ground (arith, lookup-snapshots k cs {c = c})

  opportunities_live :
      (sid : Identity) (cs : List (HistoricalCandidate F)) (seen : List ℕ)
      (os : List (Opportunity F))
      → opportunities_checked sid cs seen os ≡ ok tt
      → opportunities_from sid (snapshots_of cs) seen os ≡ ok tt
  unfolding opportunities_checked opportunities_from
  opportunities_live sid cs seen [] h = refl
  opportunities_live sid cs seen (o ∷ os) h =
      elim (Option-cases (lookup historical_key o.candidate_id cs)) [
        | inl e ↦ ground arith
        | inr (c, e) ↦
            let rest = opportunities_live sid cs (o.candidate_id ∷ seen) os (ground arith) in
            ground (arith, lookup-snapshots o.candidate_id cs {c = c} e, rest)
      ]

module _ {F : Type 0} ⦃fl : Float F⦄ where
  subset_distinct :
      (allowed : List (Opportunity F)) (seen : List ℕ) (os : List (Opportunity F))
      → subset_checked allowed seen os ≡ ok tt
      → NodupFrom seen (map opportunity_key os)
        × ((x : ℕ) → elem x (map opportunity_key os) ≡ true → has opportunity_key x allowed ≡ true)
  unfolding subset_checked
  subset_distinct allowed seen [] h = (tt, λ x m. cc)
  subset_distinct allowed seen (o ∷ os) h =
      elim (Option-cases (lookup opportunity_key o.candidate_id allowed)) [
        | inl e ↦ ground arith
        | inr (found, e) ↦
            let (fresh, within) =
              subset_distinct allowed (o.candidate_id ∷ seen) os (ground arith) in
            ((ground arith, fresh), λ x m. ground (arith, within x))
      ]

  allocations_live :
      (allowed : List (Opportunity F)) (seen : List ℕ) (allocations : List (AllocationIntent F))
      → allocations_checked allowed seen allocations ≡ ok tt
      → allocations_from allowed seen allocations ≡ ok tt
  unfolding allocations_checked allocations_from
  allocations_live allowed seen [] h = refl
  allocations_live allowed seen (a ∷ rest) h =
      elim (Option-cases (lookup opportunity_key (allocation_key a) allowed)) [
        | inl e ↦ ground arith
        | inr (found, e) ↦ ground (arith, allocations_live allowed (allocation_key a ∷ seen) rest)
      ]

  -- What the backtest accepts of a strategy, of the opportunity risk and of the portfolio policy, the
  -- engine accepts too: the same answers pass the checks of a live cycle.
  pub accepted_live :
      (strategy_id : Identity) (batch : List (HistoricalCandidate F))
      (opportunities eligible : List (Opportunity F)) (proposed : List (AllocationIntent F))
      → validate_opportunities strategy_id opportunities batch ≡ ok tt
      → validate_opportunity_subset opportunities eligible ≡ ok tt
      → validate_allocations proposed eligible ≡ ok tt
      → (stock_traiding.Engine.Validation.validate_opportunities strategy_id opportunities
            (snapshots_of batch)
          ≡ ok tt)
        × (validate_subset opportunities eligible ≡ ok tt)
        × (stock_traiding.Engine.Validation.validate_allocations proposed eligible ≡ ok tt)
  unfolding validate_opportunities validate_opportunity_subset validate_allocations
      stock_traiding.Engine.Validation.validate_opportunities
      stock_traiding.Engine.Validation.validate_allocations
  accepted_live strategy_id batch opportunities eligible proposed named kept placed =
      let (fresh, within) =
        subset_distinct (dict_of opportunity_key opportunities) [] eligible kept in
      (
        opportunities_live strategy_id batch [] opportunities named,
        (validate_subset_iff opportunities eligible).1 (
          (NodupFrom-iff _).0 fresh,
          λ x m.
              let held = within x m in
              ground (
                arith,
                has-eq-elem opportunity_key x (dict_of opportunity_key opportunities),
                elem-put_all opportunity_key x opportunities [],
              ),
        ),
        allocations_live (dict_of opportunity_key eligible) [] proposed placed,
      )
