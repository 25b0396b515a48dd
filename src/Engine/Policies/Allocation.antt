-- ===== src/Engine/Policies/Allocation.antt =====
-- What the fixed allocation of src/stock_trading/engine/policies.py hands out.
use stock_traiding.Base.{
  ℕ, zero, suc, ◌-◌, ◌≤◌, ◌≡◌, refl, inl, inr, true, false, ◌&&◌, some, List, [], ◌∷◌, map, Float,
  decimal, ◌⊕◌, ◌⊖◌, ◌≺◌, ok, >>=-eq-ok, >>-eq-ok, ok-injective, elem, length, Nodup, All, arith,
  Bool-cases, sym, ◌∙◌, subst,
}
use stock_traiding.Base.Dict.{keys, lookup, has-eq-elem}
use stock_traiding.Base.Sort.{sorted, Nodup-sorted, lookup-sorted}
use stock_traiding.Engine.Contracts.{
  Opportunity, PortfolioSnapshot, AllocationIntent, check_allocation,
}
use stock_traiding.Engine.Reservations.{company_of}
use stock_traiding.Engine.Validation.{opportunity_key, allocation_key}
use stock_traiding.Engine.Policies.{
  FixedAllocationPortfolioPolicy, ranks_before, ranked_entry, allocate_from, allocate,
}

abbrev pub allocation_company : {F : Type 0} → AllocationIntent F → ℕ
allocation_company a = a.opportunity.company_id

module _ {F : Type 0} ⦃fl : Float F⦄ where
  -- The allocations: at most the slots, each of the policy's share, to opportunities in the order
  -- in which they are listed, and to free companies once, if the policy wants that.
  pub record IsAllocated (p : FixedAllocationPortfolioPolicy F) (slots : ℕ) (occupied : List ℕ)
      (os : List (Opportunity F)) (as' : List (AllocationIntent F)) : Type 0 where
    pub within : length as' ≤ slots
    pub share : All (λ a. a.allocation_pct ≡ p.allocation_pct) as'
    pub free :
        p.one_position_per_company ≡ true
        → (x : ℕ) → elem x (map allocation_company as') ≡ true
        → elem x occupied ≡ false
    pub distinct : p.one_position_per_company ≡ true → Nodup (map allocation_company as')
    pub known : All (λ a. lookup opportunity_key (allocation_key a) os ≡ some a.opportunity) as'
    pub once : Nodup (map allocation_key as')

  empty-IsAllocated :
      (p : FixedAllocationPortfolioPolicy F) (slots : ℕ) (occupied : List ℕ)
      (os : List (Opportunity F))
      → IsAllocated p slots occupied os []
  empty-IsAllocated p slots occupied os = record {
    within = omega arith;
    share = tt;
    free = λ one x m. cc;
    distinct = λ one. tt;
    known = tt;
    once = tt;
  }

  known_later :
      (o : Opportunity F) (os : List (Opportunity F)) (as' : List (AllocationIntent F))
      → elem o.candidate_id (keys opportunity_key os) ≡ false
      → All (λ a. lookup opportunity_key (allocation_key a) os ≡ some a.opportunity) as'
      → All (λ a. lookup opportunity_key (allocation_key a) (o ∷ os) ≡ some a.opportunity) as'
  known_later o os [] fresh k = tt
  known_later o os (a ∷ rest) fresh k = (
    ground (arith, k.0, has-eq-elem opportunity_key (allocation_key a) os),
    known_later o os rest fresh k.1,
  )

  elsewhere :
      (id : ℕ) (os : List (Opportunity F)) (as' : List (AllocationIntent F))
      → elem id (keys opportunity_key os) ≡ false
      → All (λ a. lookup opportunity_key (allocation_key a) os ≡ some a.opportunity) as'
      → elem id (map allocation_key as') ≡ false
  elsewhere id os [] fresh k = refl
  elsewhere id os (a ∷ rest) fresh k =
      let there = k.0 in
      ground
        (arith, elsewhere id os rest fresh k.1, has-eq-elem opportunity_key (allocation_key a) os)

  taken-IsAllocated :
      (p : FixedAllocationPortfolioPolicy F) (slots : ℕ) (occupied : List ℕ) (o : Opportunity F)
      (os : List (Opportunity F)) (rest : List (AllocationIntent F))
      → Nodup (keys opportunity_key (o ∷ os))
      → (p.one_position_per_company && elem o.company_id occupied) ≡ false
      → IsAllocated p slots (o.company_id ∷ occupied) os rest
      → IsAllocated p (suc slots) occupied (o ∷ os) (ranked_entry p o ∷ rest)
  taken-IsAllocated p slots occupied o os rest n open' r = record {
    within = omega (arith, r.within);
    share = (refl, r.share);
    free = λ one x m. let later = r.free one x in ground arith;
    distinct = λ one. let later = r.free one o.company_id in (ground arith, r.distinct one);
    known = (ground arith, known_later o os rest n.0 r.known);
    once = (elsewhere o.candidate_id os rest n.0 r.known, r.once);
  }

  allocate_from-IsAllocated :
      (p : FixedAllocationPortfolioPolicy F) (slots : ℕ) (occupied : List ℕ) (exposure : F)
      (os : List (Opportunity F)) (as' : List (AllocationIntent F))
      → Nodup (keys opportunity_key os)
      → allocate_from p slots occupied exposure os ≡ ok as'
      → IsAllocated p slots occupied os as'
  unfolding allocate_from
  allocate_from-IsAllocated p slots occupied exposure [] as' n h =
      subst (IsAllocated p slots occupied []) (ok-injective h)
        (empty-IsAllocated p slots occupied [])
  allocate_from-IsAllocated p zero occupied exposure (o ∷ os) as' n h =
      subst (IsAllocated p zero occupied (o ∷ os)) (ok-injective h)
        (empty-IsAllocated p zero occupied (o ∷ os))
  allocate_from-IsAllocated p (suc slots) occupied exposure (o ∷ os) as' n h =
      elim (Bool-cases (p.one_position_per_company && elem o.company_id occupied)) [
        | inl taken ↦
            let r =
              allocate_from-IsAllocated p (suc slots) occupied exposure os as' n.1
                (rw taken at h) in
            record {
              within = r.within;
              share = r.share;
              free = r.free;
              distinct = r.distinct;
              known = known_later o os as' n.0 r.known;
              once = r.once;
            }
        | inr open' ↦ elim (Bool-cases (exposure ⊕ decimal 1 15 ≺ p.allocation_pct)) [
          | inl full ↦
              subst (IsAllocated p (suc slots) occupied (o ∷ os))
                (ok-injective (rw (open', full) at h))
                (empty-IsAllocated p (suc slots) occupied (o ∷ os))
          | inr room ↦
              let (_, k) =
                >>-eq-ok (check_allocation (ranked_entry p o)) _ (rw (open', room) at h) in
              let (rest, e, k') =
                >>=-eq-ok
                  (allocate_from p slots (o.company_id ∷ occupied) (exposure ⊖ p.allocation_pct) os)
                  _ k in
              subst (IsAllocated p (suc slots) occupied (o ∷ os)) (ok-injective k') (
                taken-IsAllocated p slots occupied o os rest n open' (
                  allocate_from-IsAllocated p slots (o.company_id ∷ occupied)
                    (exposure ⊖ p.allocation_pct) os rest n.1 e))
        ]
      ]

  known_unsorted :
      (os : List (Opportunity F)) (as' : List (AllocationIntent F))
      → Nodup (keys opportunity_key os)
      → All
          (λ a.
            lookup opportunity_key (allocation_key a) (sorted ranks_before os) ≡ some a.opportunity)
          as'
      → All (λ a. lookup opportunity_key (allocation_key a) os ≡ some a.opportunity) as'
  known_unsorted os [] n k = tt
  known_unsorted os (a ∷ rest) n k = (
    sym (lookup-sorted ranks_before opportunity_key (allocation_key a) os n) ∙ k.0,
    known_unsorted os rest n k.1,
  )

  -- For opportunities on different candidates, an allocation that is returned fits the open slots,
  -- gives each opportunity the policy's share, takes opportunities of the list only and none
  -- twice, and, if the policy wants one position for each company, takes only companies that have
  -- none, and none of them twice.
  pub allocate-IsAllocated :
      (p : FixedAllocationPortfolioPolicy F) (os : List (Opportunity F)) (v : PortfolioSnapshot F)
      (as' : List (AllocationIntent F))
      → Nodup (map opportunity_key os)
      → allocate p os v ≡ ok as'
      → IsAllocated p
          (p.max_open_positions - length v.positions)
          (map company_of v.positions)
          os
          as'
  unfolding allocate
  allocate-IsAllocated p os v as' n h =
      let r =
        allocate_from-IsAllocated p (p.max_open_positions - length v.positions)
          (map company_of v.positions) _ (sorted ranks_before os) as'
          (Nodup-sorted ranks_before opportunity_key os n) h in
      record {
        within = r.within;
        share = r.share;
        free = r.free;
        distinct = r.distinct;
        known = known_unsorted os as' n r.known;
        once = r.once;
      }
