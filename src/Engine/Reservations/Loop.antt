-- ===== src/Engine/Reservations/Loop.antt =====
-- What the loop over the pending entries in `_portfolio_with_pending_entry_reservations` of
-- src/stock_trading/engine/runtime.py reserves.
use stock_traiding.Base.{
  ℕ, ◌≡◌, refl, inl, inr, true, false, not, ◌||◌, some, List, [], ◌∷◌, ◌++◌, map, Float, ◌⊕◌, ok,
  raise_if, >>-eq-ok, ok-injective, elem, Nodup, arith, Bool-cases, All, ==_refl, raise_if-eq-ok,
  ap, sym, ◌∙◌,
}
use stock_traiding.Base.Every.{All-map, IsSublist, nothing, keep_one, leave_out}
use stock_traiding.Base.Dict.{lookup}
use mathlib.Core.List.{append_assoc, append-nil}
use stock_traiding.Engine.Contracts.{OrderIntent, PortfolioPosition, is_buy, check_position}
use stock_traiding.Engine.Naming.{Naming}
use stock_traiding.Engine.Reservations.{company_of, order_company, reservation, reserve}

module _ {F : Type 0} ⦃fl : Float F⦄ where
  -- The exposure with the shares of some orders
  abbrev pub total_allocation : F → List (OrderIntent F) → F
  total_allocation exposure [] = exposure
  total_allocation exposure (o ∷ os) = total_allocation (exposure ⊕ o.allocation_pct) os

-- The order is the first of its company, which is not occupied.
abbrev pub IsFirstFree : {F : Type 0} → List ℕ → List (OrderIntent F) → OrderIntent F → Type 0
IsFirstFree occupied os c =
    (lookup order_company c.company_id os ≡ some c) × (elem c.company_id occupied ≡ false)

module _ {F : Type 0} ⦃fl : Float F⦄ (naming : Naming) where
  -- What the loop does: it appends reservations, one for each company that was free.
  pub record IsReserved (occupied : List ℕ) (os : List (OrderIntent F)) (exposure e : F)
      (new : List (PortfolioPosition F)) : Type 0 where
    pub chosen : List (OrderIntent F)
    pub made : new ≡ map (reservation naming) chosen
    pub picked : IsSublist chosen os
    pub firsts : All (IsFirstFree occupied os) chosen
    pub sum : e ≡ total_allocation exposure chosen
    pub bought : All (λ o. is_buy o.side ≡ true) os
    pub distinct : Nodup (map company_of new)
    pub free : (x : ℕ) → elem x (map company_of new) ≡ true → elem x occupied ≡ false
    pub complete :
        (x : ℕ)
        → elem x (map order_company os) ≡ true
        → (elem x occupied || elem x (map company_of new)) ≡ true

  pub reserve-IsReserved :
      (occupied : List ℕ) (exposure : F) (made : List (PortfolioPosition F))
      (os : List (OrderIntent F)) (e : F) (all : List (PortfolioPosition F))
      → reserve naming occupied exposure made os ≡ ok (e, all)
      → (new : List (PortfolioPosition F)) × (all ≡ made ++ new)
        × IsReserved occupied os exposure e new
  unfolding reserve
  reserve-IsReserved occupied exposure made [] e all h = (
    [],
    ap (λ p. p.1) (ok-injective (sym h)) ∙ sym (append-nil made),
    record {
      chosen = [];
      made = refl;
      picked = nothing;
      firsts = tt;
      sum = ap (λ p. p.0) (ok-injective (sym h));
      bought = tt;
      distinct = tt;
      free = λ x m. cc;
      complete = λ x m. cc;
    },
  )
  reserve-IsReserved occupied exposure made (o ∷ os) e all h =
      let (buys, k) = >>-eq-ok (raise_if (not (is_buy o.side)) _) _ h in
      let is_bought : is_buy o.side ≡ true = let e = raise_if-eq-ok _ _ buys in ground arith in
      elim (Bool-cases (elem o.company_id occupied)) [
        | inl taken ↦
            let (new, same, r) =
              reserve-IsReserved occupied exposure made os e all (rw taken at k) in
            (
              new,
              same,
              record {
                chosen = r.chosen;
                made = r.made;
                picked = leave_out o r.picked;
                firsts = All-map r.chosen (λ c f. ground (arith, f, taken)) r.firsts;
                sum = r.sum;
                bought = (is_bought, r.bought);
                distinct = r.distinct;
                free = r.free;
                complete = λ x m. ground (arith, r.complete x);
              },
            )
        | inr open' ↦
            let (_, k') = >>-eq-ok (check_position (reservation naming o)) _ (rw open' at k) in
            let (new, same, r) =
              reserve-IsReserved (o.company_id ∷ occupied) (exposure ⊕ o.allocation_pct)
                (made ++ reservation naming o ∷ []) os e all k' in
            (
              reservation naming o ∷ new,
              same ∙ append_assoc made (reservation naming o ∷ []) new,
              record {
                chosen = o ∷ r.chosen;
                made = ap (◌∷◌ (reservation naming o)) r.made;
                picked = keep_one o r.picked;
                firsts = (
                  ground (arith, ==_refl o.company_id, open'),
                  All-map r.chosen (λ c f. ground (arith, f)) r.firsts,
                );
                sum = r.sum;
                bought = (is_bought, r.bought);
                distinct = (ground (arith, r.free o.company_id), r.distinct);
                free = λ x m. ground (arith, r.free x);
                complete = λ x m. ground (arith, r.complete x);
              },
            )
      ]
