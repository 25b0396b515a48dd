-- ===== src/Engine/Reservations/View.antt =====
-- The portfolio with reservations of src/stock_trading/engine/runtime.py: which pending entries it
-- reserves, and with what exposure.
use stock_traiding.Base.{
  ℕ, ◌≡◌, refl, true, false, some, List, [], ◌∷◌, ◌++◌, map, Float, decimal, ◌⊕◌, min_of, ok,
  >>=-eq-ok, >>-eq-ok, ok-injective, elem, Nodup, All, ap, sym, ◌∙◌, subst,
}
use stock_traiding.Base.Sort.{sorted, elem-sorted, sorted-All}
use stock_traiding.Base.Every.{All-map, IsSublist, nothing}
use stock_traiding.Base.Dict.{lookup, elem-keys-append}
use mathlib.Core.List.{append-nil}
use stock_traiding.Engine.Contracts.{
  OrderIntent, PortfolioPosition, PortfolioSnapshot, is_buy, check_snapshot,
}
use stock_traiding.Engine.Naming.{Naming}
use stock_traiding.Execution.Ledger.{order_before}
use stock_traiding.Engine.Reservations.{
  company_of, order_company, reservation, reserve, with_positions, reserved_snapshot,
  with_reservations,
}
use stock_traiding.Engine.Reservations.Loop.{total_allocation, reserve-IsReserved}

module _ {F : Type 0} ⦃fl : Float F⦄ (naming : Naming) where
  -- The gross exposure of a portfolio with the reservations of some orders
  abbrev pub exposure_with : PortfolioSnapshot F → List (OrderIntent F) → F
  exposure_with p [] = p.gross_exposure_pct
  exposure_with p (o ∷ os) =
      min_of (decimal 1 0) (p.gross_exposure_pct ⊕ total_allocation (decimal 0 0) (o ∷ os))

  -- What a snapshot with reservations says: the same account at the same time, the open positions
  -- first, and then one position for each further company that has a pending entry, which reserves
  -- the share of the first pending entry of the company.
  pub record IsReservedView (p : PortfolioSnapshot F) (pending : List (OrderIntent F))
      (v : PortfolioSnapshot F) : Type 0 where
    pub bought : All (λ o. is_buy o.side ≡ true) pending
    pub chosen : List (OrderIntent F)
    pub picked : IsSublist chosen (sorted order_before pending)
    pub firsts :
        All (λ c. lookup order_company c.company_id (sorted order_before pending) ≡ some c) chosen
    pub exposure : v.gross_exposure_pct ≡ exposure_with p chosen
    pub time : v.as_of ≡ p.as_of
    pub equity : v.equity ≡ p.equity
    pub cash : v.cash ≡ p.cash
    pub made : List (PortfolioPosition F)
    pub reserved : made ≡ map (reservation naming) chosen
    pub kept : v.positions ≡ p.positions ++ made
    pub distinct : Nodup (map company_of made)
    pub free :
        (x : ℕ) → elem x (map company_of made) ≡ true → elem x (map company_of p.positions) ≡ false
    pub complete :
        (x : ℕ)
        → elem x (map order_company pending) ≡ true
        → elem x (map company_of v.positions) ≡ true

  reserved_snapshot-eq :
      (p : PortfolioSnapshot F) (e : F) (made : List (PortfolioPosition F))
      (v : PortfolioSnapshot F)
      → reserved_snapshot naming p e made ≡ ok v
      → (v.as_of ≡ p.as_of)
        × (v.equity ≡ p.equity)
        × (v.cash ≡ p.cash)
        × (v.positions ≡ p.positions ++ made)
  reserved_snapshot-eq p e [] v h =
      let same = ok-injective (sym h) in
      (
        ap (λ s. s.as_of) same,
        ap (λ s. s.equity) same,
        ap (λ s. s.cash) same,
        ap (λ s. s.positions) same ∙ sym (append-nil p.positions),
      )
  reserved_snapshot-eq p e (r ∷ rs) v h =
      let (_, k) = >>-eq-ok (check_snapshot (with_positions naming p e (r ∷ rs))) _ h in
      let same = ok-injective (sym k) in
      (
        ap (λ s. s.as_of) same,
        ap (λ s. s.equity) same,
        ap (λ s. s.cash) same,
        ap (λ s. s.positions) same,
      )

  reserved_snapshot-exposure :
      (p : PortfolioSnapshot F) (chosen : List (OrderIntent F)) (v : PortfolioSnapshot F)
      → reserved_snapshot naming p
          (total_allocation (decimal 0 0) chosen)
          (map (reservation naming) chosen)
        ≡ ok v
      → v.gross_exposure_pct ≡ exposure_with p chosen
  reserved_snapshot-exposure p [] v h = ap (λ s. s.gross_exposure_pct) (ok-injective (sym h))
  reserved_snapshot-exposure p (c ∷ cs) v h =
      let (_, k) =
        >>-eq-ok
          (check_snapshot (
            with_positions naming p (total_allocation (decimal 0 0) (c ∷ cs))
              (map (reservation naming) (c ∷ cs))))
          _ h in
      ap (λ s. s.gross_exposure_pct) (ok-injective (sym k))

  -- The portfolio that allocation sees, when it is built from the broker's pending orders, which then
  -- are all BUYs, is the real one followed by reservations. Each reservation is made of the first
  -- pending order of its company, in the ledger's order of the orders; the companies are those that
  -- have a pending order and no open position, each once. The gross exposure is the real one where
  -- nothing is reserved, and otherwise the sum of it and of the reserved shares, 1 at most.
  pub with_reservations-IsReservedView :
      (p : PortfolioSnapshot F) (pending : List (OrderIntent F)) (v : PortfolioSnapshot F)
      → with_reservations naming p (some pending) ≡ ok v
      → IsReservedView p pending v
  unfolding with_reservations
  with_reservations-IsReservedView p [] v h = subst (IsReservedView p []) (ok-injective h) (record {
    bought = tt;
    chosen = [];
    picked = nothing;
    firsts = tt;
    exposure = refl;
    reserved = refl;
    time = refl;
    equity = refl;
    cash = refl;
    made = [];
    kept = sym (append-nil p.positions);
    distinct = tt;
    free = λ x m. cc;
    complete = λ x m. cc;
  })
  with_reservations-IsReservedView p (o ∷ os) v h =
      let (done, e, k) =
        >>=-eq-ok
          (reserve naming (map company_of p.positions) (decimal 0 0) []
            (sorted order_before (o ∷ os)))
          _ h in
      let (made, same, r) =
        reserve-IsReserved naming (map company_of p.positions) (decimal 0 0) []
          (sorted order_before (o ∷ os)) done.0 done.1 e in
      let (time, equity, cash, kept) = reserved_snapshot-eq p done.0 done.1 v k in
      let there = kept ∙ ap (λ xs. p.positions ++ xs) same in
      let listed = same ∙ r.made in
      record {
        bought = sorted-All order_before (λ x. is_buy x.side ≡ true) (o ∷ os) r.bought;
        chosen = r.chosen;
        picked = r.picked;
        firsts = All-map r.chosen (λ c f. f.0) r.firsts;
        exposure = reserved_snapshot-exposure p r.chosen v (
            subst (λ x. reserved_snapshot naming p x (map (reservation naming) r.chosen) ≡ ok v)
              r.sum (subst (λ ms. reserved_snapshot naming p done.0 ms ≡ ok v) listed k));
        reserved = r.made;
        time = time;
        equity = equity;
        cash = cash;
        made = made;
        kept = there;
        distinct = r.distinct;
        free = r.free;
        complete = λ x m.
            ap (λ xs. elem x (map company_of xs)) there
            ∙ elem-keys-append company_of x p.positions made
            ∙ r.complete x (elem-sorted order_before order_company x (o ∷ os) ∙ m);
      }
