-- ===== src/Execution/Fill/Contract.antt =====
-- What the broker's loops may rely on of any `_fill` method, and the proof that the fills of
-- src/stock_trading/execution/paper.py meet it.
use stock_traiding.Base.{
  ℕ, String, ◌≡◌, refl, ◌⊎◌, inl, inr, false, some, List, [], ◌∷◌, ◌++◌, map, Float, decimal, ◌≼◌,
  ok, >>=-eq-ok, Datetime, elem, any, All, Nodup, All-append, arith, Option-cases, Bool-cases, ◌==◌,
  subst, ok-injective, ◌⊖◌, ◌⊗◌, min_of,
}
use stock_traiding.Base.Dict.{elem-keys-append}
use stock_traiding.Engine.Contracts.{
  Identity, OrderIntent, OrderSide, buy, sell, is_queued, check_report,
}
use stock_traiding.Execution.Ledger.{PaperPositionState, company_key, check_paper_position}
use stock_traiding.Execution.Fill.{
  PriceProvider, Filled, rejected_report, open_position, pop_position, set_position, divide,
  bought_position, buy_shares, fill_buy, reduced_position, keep_remaining, sell_shares,
  sell_position, fill_sell, fill_at, fill, buy_notional, marked_equity, sell_notional,
}

pub side-cases : (s : OrderSide) → (s ≡ buy) ⊎ (s ≡ sell)
side-cases buy = inl refl
side-cases sell = inr refl

module _ {F : Type 0} ⦃fl : Float F⦄ where
  abbrev pub IsChecked : PaperPositionState F → Type 0
  IsChecked p = check_paper_position p ≡ ok tt

  -- The report is a checked final report on the order, and the positions stay checked and keep to
  -- one for each company.
  pub record IsOutcome (o : OrderIntent F) (ps : List (PaperPositionState F)) (done : Filled F)
      : Type 0 where
    pub reports_order : done.1.order_id ≡ o.order_id
    pub final : is_queued done.1.status ≡ false
    pub report_checked : check_report done.1 ≡ ok tt
    pub positions_checked : All IsChecked ps → All IsChecked done.2
    pub one_per_company : Nodup (map company_key ps) → Nodup (map company_key done.2)

  rejected_report-IsOutcome :
      (o : OrderIntent F) (at : Datetime) (cash : F) (m : String) (ps : List (PaperPositionState F))
      → IsOutcome o ps (cash, rejected_report o at m, ps)
  unfolding rejected_report check_report
  rejected_report-IsOutcome o at cash m ps = record {
    reports_order = refl;
    final = refl;
    report_checked = refl;
    positions_checked = λ h. h;
    one_per_company = λ h. h;
  }

  Nodup-company-append :
      (p : PaperPositionState F) (ps : List (PaperPositionState F))
      → any (λ q. q.company_id == p.company_id) ps ≡ false
      → Nodup (map company_key ps)
      → Nodup (map company_key (ps ++ p ∷ []))
  Nodup-company-append p [] h n = (refl, tt)
  Nodup-company-append p (q ∷ ps) h n =
      ground
        (arith, Nodup-company-append p ps, elem-keys-append company_key q.company_id ps (p ∷ []))

  elem-company-pop :
      (o : OrderIntent F) (k : ℕ) (ps : List (PaperPositionState F))
      → elem k (map company_key ps) ≡ false
      → elem k (map company_key (pop_position o ps)) ≡ false
  elem-company-pop o k [] h = refl
  elem-company-pop o k (p ∷ ps) h = ground (arith, elem-company-pop o k ps)

  Nodup-company-pop :
      (o : OrderIntent F) (ps : List (PaperPositionState F))
      → Nodup (map company_key ps)
      → Nodup (map company_key (pop_position o ps))
  Nodup-company-pop o [] n = tt
  Nodup-company-pop o (p ∷ ps) n =
      ground (arith, Nodup-company-pop o ps n.1, elem-company-pop o p.company_id ps)

  companies-set_position :
      (o : OrderIntent F) (new : PaperPositionState F) (ps : List (PaperPositionState F))
      → new.company_id ≡ o.company_id
      → map company_key (set_position o new ps) ≡ map company_key ps
  companies-set_position o new [] e = refl
  companies-set_position o new (p ∷ ps) e = ground (arith, companies-set_position o new ps e)

  All-pop_position :
      (o : OrderIntent F) (ps : List (PaperPositionState F))
      → All IsChecked ps
      → All IsChecked (pop_position o ps)
  All-pop_position o [] h = tt
  All-pop_position o (p ∷ ps) h = ground (arith, All-pop_position o ps h.1)

  All-set_position :
      (o : OrderIntent F) (new : PaperPositionState F) (ps : List (PaperPositionState F))
      → IsChecked new
      → All IsChecked ps
      → All IsChecked (set_position o new ps)
  All-set_position o new [] c h = tt
  All-set_position o new (p ∷ ps) c h = ground (arith, All-set_position o new ps c h.1)

  company_of_open :
      (o : OrderIntent F) (ps : List (PaperPositionState F)) {p : PaperPositionState F}
      → open_position o ps ≡ some p
      → p.company_id ≡ o.company_id
  company_of_open o [] h = cc
  company_of_open o (q ∷ ps) {p} h = ground (arith, company_of_open o ps {p = p})

  module _ (position_digest : Identity → Identity → Identity → Identity) (bps : F) where
    buy_shares-IsOutcome :
        (o : OrderIntent F) (as_of : Datetime) (price cash notional : F)
        (ps : List (PaperPositionState F)) {done : Filled F}
        → any (λ p. p.company_id == o.company_id) ps ≡ false
        → buy_shares position_digest bps o as_of price cash notional ps ≡ ok done
        → IsOutcome o ps done
    unfolding buy_shares
    buy_shares-IsOutcome o as_of price cash notional ps {done} fresh h =
        let (shares, _, k) = >>=-eq-ok (divide notional price) _ h in
        let p = bought_position position_digest bps o as_of price shares in
        record {
          reports_order = ground arith;
          final = ground arith;
          report_checked = ground arith;
          positions_checked = λ c. ground (arith, All-append IsChecked ps (p ∷ []) c);
          one_per_company = λ n. ground (arith, Nodup-company-append p ps fresh n);
        }

    pub fill_buy-IsOutcome :
        (marks : PriceProvider F) (o : OrderIntent F) (as_of : Datetime) (price cash : F)
        (ps : List (PaperPositionState F)) {done : Filled F}
        → fill_buy position_digest bps marks o as_of price cash ps ≡ ok done
        → IsOutcome o ps done
    unfolding fill_buy
    fill_buy-IsOutcome marks o as_of price cash ps {done} h =
        let notional =
          buy_notional position_digest bps o cash (marked_equity cash ps marks as_of) in
        elim (Bool-cases (any (λ p. p.company_id == o.company_id) ps)) [
          | inl occupied ↦ refused "company already has an open position" (rw occupied at h)
          | inr fresh ↦ elim (Bool-cases (notional ≼ decimal 1 12)) [
            | inl small ↦ refused "insufficient cash" (rw (fresh, small) at h)
            | inr large ↦
                buy_shares-IsOutcome o as_of price cash notional ps fresh (rw (fresh, large) at h)
          ]
        ]
      where
        refused :
            (m : String) → ok (cash, rejected_report o as_of m, ps) ≡ ok done → IsOutcome o ps done
        refused m e =
            subst (IsOutcome o ps) (ok-injective e) (rejected_report-IsOutcome o as_of cash m ps)

    keep_remaining-keeps :
        (o : OrderIntent F) (p : PaperPositionState F) (remaining price : F)
        (ps : List (PaperPositionState F)) {kept : List (PaperPositionState F)}
        → p.company_id ≡ o.company_id
        → keep_remaining position_digest bps o p remaining price ps ≡ ok kept
        → (All IsChecked ps → All IsChecked kept)
          × (Nodup (map company_key ps) → Nodup (map company_key kept))
    unfolding keep_remaining
    keep_remaining-keeps o p remaining price ps {kept} e h =
        let new = reduced_position position_digest bps p remaining price in
        (
          λ c. ground (arith, All-pop_position o ps c, All-set_position o new ps),
          λ n. ground (arith, Nodup-company-pop o ps n, companies-set_position o new ps e),
        )

    sell_shares-IsOutcome :
        (o : OrderIntent F) (as_of : Datetime) (price cash : F) (p : PaperPositionState F)
        (to_sell : F) (ps : List (PaperPositionState F)) {done : Filled F}
        → p.company_id ≡ o.company_id
        → sell_shares position_digest bps o as_of price cash p to_sell ps ≡ ok done
        → IsOutcome o ps done
    unfolding sell_shares
    sell_shares-IsOutcome o as_of price cash p to_sell ps {done} e h =
        let (kept, keep, _) =
          >>=-eq-ok (keep_remaining position_digest bps o p (p.shares ⊖ to_sell) price ps) _ h in
        let (checked, distinct) = keep_remaining-keeps o p (p.shares ⊖ to_sell) price ps e keep in
        record {
          reports_order = ground arith;
          final = ground arith;
          report_checked = ground arith;
          positions_checked = λ c. ground (arith, checked c);
          one_per_company = λ n. ground (arith, distinct n);
        }

    sell_position-IsOutcome :
        (marks : PriceProvider F) (o : OrderIntent F) (as_of : Datetime) (price cash : F)
        (ps : List (PaperPositionState F)) (p : PaperPositionState F) {done : Filled F}
        → p.company_id ≡ o.company_id
        → sell_position position_digest bps marks o as_of price cash ps p ≡ ok done
        → IsOutcome o ps done
    unfolding sell_position
    sell_position-IsOutcome marks o as_of price cash ps p {done} e h =
        let (wanted, _, k) =
          >>=-eq-ok
            (divide
              (sell_notional position_digest bps o (p.shares ⊗ price)
                (marked_equity cash ps marks as_of))
              price)
            _ h in
        elim (Bool-cases (min_of p.shares wanted ≼ decimal 1 12)) [
          | inl small ↦
              subst (IsOutcome o ps) (ok-injective (rw small at k))
                (rejected_report-IsOutcome o as_of cash "sell amount is too small" ps)
          | inr large ↦
              sell_shares-IsOutcome o as_of price cash p (min_of p.shares wanted) ps e
                (rw large at k)
        ]

    pub fill_sell-IsOutcome :
        (marks : PriceProvider F) (o : OrderIntent F) (as_of : Datetime) (price cash : F)
        (ps : List (PaperPositionState F)) {done : Filled F}
        → fill_sell position_digest bps marks o as_of price cash ps ≡ ok done
        → IsOutcome o ps done
    unfolding fill_sell
    fill_sell-IsOutcome marks o as_of price cash ps {done} h =
        elim (Option-cases (open_position o ps)) [
          | inl e ↦
              subst (IsOutcome o ps) (ok-injective (rw (e, fill_sell) at h))
                (rejected_report-IsOutcome o as_of cash "position is not open" ps)
          | inr (p, e) ↦
              sell_position-IsOutcome marks o as_of price cash ps p (company_of_open o ps e)
                (rw (e, fill_sell) at h)
        ]

    -- A buy or a sale that returns meets the contract.
    pub fill_at-IsOutcome :
        (marks : PriceProvider F) (o : OrderIntent F) (as_of : Datetime) (price cash : F)
        (ps : List (PaperPositionState F)) {done : Filled F}
        → fill_at position_digest bps marks o as_of price cash ps ≡ ok done
        → IsOutcome o ps done
    unfolding fill_at
    fill_at-IsOutcome marks o as_of price cash ps {done} h = elim (side-cases o.side) [
      | inl e ↦ fill_buy-IsOutcome marks o as_of price cash ps (rw (e, fill_at) at h)
      | inr e ↦ fill_sell-IsOutcome marks o as_of price cash ps (rw (e, fill_at) at h)
    ]

    -- A fill of the PAPER broker that returns an outcome gives a checked final report on its order,
    -- keeps the positions checked, and keeps them to one for each company.
    pub fill-IsOutcome :
        (prices : PriceProvider F) (o : OrderIntent F) (as_of : Datetime) (cash : F)
        (ps : List (PaperPositionState F)) {done : Filled F}
        → fill position_digest bps prices o as_of cash ps ≡ ok (some done)
        → IsOutcome o ps done
    unfolding fill
    fill-IsOutcome prices o as_of cash ps {done} h =
        elim (Option-cases (prices o.security_id as_of)) [
          | inl e ↦ ground arith
          | inr (price, e) ↦ fill_at-IsOutcome prices o as_of price cash ps (ground arith)
        ]
