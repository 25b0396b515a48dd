-- ===== src/Engine/Validation/Outputs.antt =====
-- What the checks of risk filters, allocations, executions and settlements in
-- src/stock_trading/engine/runtime.py accept, against declarative descriptions.
use stock_traiding.Base.{
  ℕ, ◌≡◌, refl, ◌↔◌, inl, inr, Bool, true, false, some, List, [], ◌∷◌, map, Float, decimal, ◌⊕◌,
  ◌≺◌, ok, elem, any, All, Nodup, NodupFrom, NodupFrom-iff, has_duplicates_iff, subset_iff, arith,
  Option-cases, sym, ◌∙◌,
}
use stock_traiding.Base.Dict.{lookup, dict_of}
use stock_traiding.Engine.Contracts.{
  Opportunity, AllocationIntent, OrderIntent, ExecutionReport, is_queued,
}
use stock_traiding.Engine.Equality.{opportunity_eq}
use stock_traiding.Engine.Validation.{
  opportunity_key, allocation_key, order_key, report_key, differ, validate_subset,
  validate_execution_reports, validate_settlements, allocations_from, validate_allocations,
  allocation_subset_from, validate_allocation_subset, require_unique_order_ids,
}

-- The same identities, whatever their order.
abbrev pub SameIdentities : List ℕ → List ℕ → Type 0
SameIdentities xs ys = (x : ℕ) → elem x xs ≡ elem x ys

same_bool : (a b : Bool) → (a ≡ true → b ≡ true) → (b ≡ true → a ≡ true) → a ≡ b
same_bool true b f g = sym (f refl)
same_bool false true f g = g refl
same_bool false false f g = refl

differ_iff : (xs ys : List ℕ) → (differ xs ys ≡ false) ↔ SameIdentities xs ys
differ_iff xs ys = (
  λ h x.
      same_bool (elem x xs) (elem x ys) ((subset_iff xs ys).0 (ground arith) x)
        ((subset_iff ys xs).0 (ground arith) x),
  λ h.
      let there = (subset_iff xs ys).1 (λ x m. sym (h x) ∙ m) in
      let back = (subset_iff ys xs).1 (λ x m. h x ∙ m) in ground arith,
)

module _ {F : Type 0} where
  -- The opportunity filter is accepted exactly when its result has no repetition and names only
  -- candidates that the strategy proposed.
  pub validate_subset_iff :
      (source subset : List (Opportunity F))
      → (validate_subset source subset ≡ ok tt) ↔ (
          Nodup (map opportunity_key subset)
          × ((x : ℕ)
              → elem x (map opportunity_key subset) ≡ true
              → elem x (map opportunity_key source) ≡ true))
  unfolding validate_subset
  validate_subset_iff source subset =
      let dup = has_duplicates_iff (map opportunity_key subset) in
      let within = subset_iff (map opportunity_key subset) (map opportunity_key source) in
      (λ h. (dup.0 (ground arith), within.0 (ground arith)), λ h. rw (dup.1 h.0, within.1 h.1))

  -- The orders of a cycle pass exactly when no order identity stands twice.
  pub require_unique_order_ids_iff :
      (os : List (OrderIntent F)) → (require_unique_order_ids os ≡ ok tt) ↔ Nodup (map order_key os)
  unfolding require_unique_order_ids
  require_unique_order_ids_iff os =
      let dup = has_duplicates_iff (map order_key os) in
      (λ h. dup.0 (ground arith), λ h. rw (dup.1 h))

  -- The broker's reports are accepted exactly when they are for different orders and for just the
  -- orders that were sent.
  pub validate_execution_reports_iff :
      (os : List (OrderIntent F)) (reports : List (ExecutionReport F))
      → (validate_execution_reports os reports ≡ ok tt) ↔ (
          Nodup (map report_key reports)
          × SameIdentities (map report_key reports) (map order_key os))
  unfolding validate_execution_reports
  validate_execution_reports_iff os reports =
      let dup = has_duplicates_iff (map report_key reports) in
      let same = differ_iff (map report_key reports) (map order_key os) in
      (
        λ h. (dup.0 (ground arith), same.0 (ground arith)),
        λ h. ground (arith, dup.1 h.0, same.1 h.1),
      )

  -- No report of the list is still queued.
  abbrev pub IsFinal : ExecutionReport F → Type 0
  IsFinal r = is_queued r.status ≡ false

  any-IsFinal :
      (rs : List (ExecutionReport F)) → (any (λ r. is_queued r.status) rs ≡ false) ↔ All IsFinal rs
  any-IsFinal [] = (λ _. tt, λ _. refl)
  any-IsFinal (r ∷ rs) =
      (λ h. ground (arith, (any-IsFinal rs).0), λ h. ground (arith, (any-IsFinal rs).1 h.1))

  -- Settlement reports are accepted exactly when they are for different orders and all final.
  pub validate_settlements_iff :
      (rs : List (ExecutionReport F))
      → (validate_settlements rs ≡ ok tt) ↔ (Nodup (map report_key rs) × All IsFinal rs)
  unfolding validate_settlements
  validate_settlements_iff rs =
      let dup = has_duplicates_iff (map report_key rs) in
      let final = any-IsFinal rs in
      (
        λ h. (dup.0 (ground arith), final.0 (ground arith)),
        λ h. ground (arith, dup.1 h.0, final.1 h.1),
      )

  module _ ⦃fl : Float F⦄ where
    -- The allocation is for an opportunity that was eligible, and carries it unchanged.
    pub record IsKept (os : List (Opportunity F)) (a : AllocationIntent F) : Type 0 where
      pub expected : Opportunity F
      pub known : lookup opportunity_key (allocation_key a) os ≡ some expected
      pub unchanged : opportunity_eq expected a.opportunity ≡ true

    allocations_from_sound :
        (os : List (Opportunity F)) (seen : List ℕ) (as' : List (AllocationIntent F))
        → allocations_from os seen as' ≡ ok tt
        → All (IsKept os) as' × NodupFrom seen (map allocation_key as')
    unfolding allocations_from
    allocations_from_sound os seen [] h = (tt, tt)
    allocations_from_sound os seen (a ∷ rest) h =
        elim (Option-cases (lookup opportunity_key (allocation_key a) os)) [
          | inl e ↦ ground arith
          | inr (o, e) ↦
              let (kept, fresh) =
                allocations_from_sound os (allocation_key a ∷ seen) rest (ground arith) in
              (
                (record { expected = o; known = e; unchanged = ground arith }, kept),
                (ground arith, fresh),
              )
        ]

    allocations_from_complete :
        (os : List (Opportunity F)) (seen : List ℕ) (as' : List (AllocationIntent F))
        → All (IsKept os) as'
        → NodupFrom seen (map allocation_key as')
        → allocations_from os seen as' ≡ ok tt
    unfolding allocations_from
    allocations_from_complete os seen [] k n = refl
    allocations_from_complete os seen (a ∷ rest) k n =
        ground (arith, allocations_from_complete os (allocation_key a ∷ seen) rest k.1 n.1)

    -- The allocation policy is accepted exactly when it allocates to eligible opportunities only,
    -- leaves them unchanged, and allocates to none twice.
    pub validate_allocations_iff :
        (as' : List (AllocationIntent F)) (os : List (Opportunity F))
        → (validate_allocations as' os ≡ ok tt)
          ↔ (All (IsKept (dict_of opportunity_key os)) as' × Nodup (map allocation_key as'))
    unfolding validate_allocations
    validate_allocations_iff as' os = (
      λ h.
          let (kept, fresh) = allocations_from_sound (dict_of opportunity_key os) [] as' h in
          (kept, (NodupFrom-iff _).0 fresh),
      λ h.
          allocations_from_complete (dict_of opportunity_key os) [] as' h.0
            ((NodupFrom-iff _).1 h.1),
    )

    -- The allocation was proposed for the same opportunity, with no smaller share up to 1e-15.
    pub record IsReduced (proposed : List (AllocationIntent F)) (a : AllocationIntent F)
        : Type 0 where
      pub expected : AllocationIntent F
      pub known : lookup allocation_key (allocation_key a) proposed ≡ some expected
      pub unchanged : opportunity_eq a.opportunity expected.opportunity ≡ true
      pub not_upsized : expected.allocation_pct ⊕ decimal 1 15 ≺ a.allocation_pct ≡ false

    allocation_subset_from_sound :
        (proposed : List (AllocationIntent F)) (seen : List ℕ) (as' : List (AllocationIntent F))
        → allocation_subset_from proposed seen as' ≡ ok tt
        → All (IsReduced proposed) as' × NodupFrom seen (map allocation_key as')
    unfolding allocation_subset_from
    allocation_subset_from_sound proposed seen [] h = (tt, tt)
    allocation_subset_from_sound proposed seen (a ∷ rest) h =
        elim (Option-cases (lookup allocation_key (allocation_key a) proposed)) [
          | inl e ↦ ground arith
          | inr (o, e) ↦
              let (kept, fresh) =
                allocation_subset_from_sound proposed (allocation_key a ∷ seen) rest
                  (ground arith) in
              (
                (
                  record {
                    expected = o;
                    known = e;
                    unchanged = ground arith;
                    not_upsized = ground arith;
                  },
                  kept,
                ),
                (ground arith, fresh),
              )
        ]

    allocation_subset_from_complete :
        (proposed : List (AllocationIntent F)) (seen : List ℕ) (as' : List (AllocationIntent F))
        → All (IsReduced proposed) as'
        → NodupFrom seen (map allocation_key as')
        → allocation_subset_from proposed seen as' ≡ ok tt
    unfolding allocation_subset_from
    allocation_subset_from_complete proposed seen [] k n = refl
    allocation_subset_from_complete proposed seen (a ∷ rest) k n =
        ground
          (arith, allocation_subset_from_complete proposed (allocation_key a ∷ seen) rest k.1 n.1)

    -- The portfolio risk filter is accepted exactly when it only drops or shrinks proposed
    -- allocations: each stands for the same opportunity, none is larger, none is there twice.
    pub validate_allocation_subset_iff :
        (source subset : List (AllocationIntent F))
        → (validate_allocation_subset source subset ≡ ok tt) ↔ (
            All (IsReduced (dict_of allocation_key source)) subset
            × Nodup (map allocation_key subset))
    unfolding validate_allocation_subset
    validate_allocation_subset_iff source subset = (
      λ h.
          let (kept, fresh) =
            allocation_subset_from_sound (dict_of allocation_key source) [] subset h in
          (kept, (NodupFrom-iff _).0 fresh),
      λ h.
          allocation_subset_from_complete (dict_of allocation_key source) [] subset h.0
            ((NodupFrom-iff _).1 h.1),
    )
