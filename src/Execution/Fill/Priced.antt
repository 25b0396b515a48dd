-- ===== src/Execution/Fill/Priced.antt =====
-- The price and the date of the fills of src/stock_trading/execution/paper.py.
use stock_traiding.Base.{
  ◌≡◌, refl, inl, inr, none, some, List, String, Float, decimal, ◌≼◌, ok, >>=-eq-ok, >>-eq-ok,
  ok-injective, Datetime, any, Option-cases, Bool-cases, ◌==◌, subst, ◌⊗◌, ◌⊖◌, min_of,
}
use stock_traiding.Engine.Contracts.{Identity, OrderIntent, filled, rejected, check_report}
use stock_traiding.Execution.Ledger.{PaperPositionState, check_paper_position}
use stock_traiding.Execution.Fill.{
  PriceProvider, Filled, rejected_report, open_position, divide, bought_position, buy_shares,
  fill_buy, keep_remaining, sell_shares, sell_position, fill_sell, buy_notional, marked_equity,
  sell_notional,
}

module _ {F : Type 0} ⦃fl : Float F⦄ where
  -- The order is filled at the price, or it is refused, and then the cash and the positions stay as
  -- they are; the report is dated as given.
  pub data IsPricedAt (at : Datetime) (price cash : F) (ps : List (PaperPositionState F))
      : Filled F → Type 0 where
    priced :
        {done : Filled F}
        → done.1.status ≡ filled
        → done.1.fill_price ≡ some price
        → done.1.executed_at ≡ at
        → IsPricedAt at price cash ps done
    refused :
        {done : Filled F}
        → done.1.status ≡ rejected
        → done.1.fill_price ≡ none
        → done.1.executed_at ≡ at
        → done.0 ≡ cash
        → done.2 ≡ ps
        → IsPricedAt at price cash ps done

  rejected_report-IsPricedAt :
      (o : OrderIntent F) (at : Datetime) (price cash : F) (ps : List (PaperPositionState F))
      (m : String) {done : Filled F}
      → ok (cash, rejected_report o at m, ps) ≡ ok done
      → IsPricedAt at price cash ps done
  unfolding rejected_report
  rejected_report-IsPricedAt o at price cash ps m h =
      subst (IsPricedAt at price cash ps) (ok-injective h) (refused refl refl refl refl refl)

  module _ (position_digest : Identity → Identity → Identity → Identity) (bps : F) where
    buy_shares-IsPricedAt :
        (o : OrderIntent F) (at : Datetime) (price cash notional : F)
        (ps : List (PaperPositionState F)) {done : Filled F}
        → buy_shares position_digest bps o at price cash notional ps ≡ ok done
        → IsPricedAt at price cash ps done
    unfolding buy_shares
    buy_shares-IsPricedAt o at price cash notional ps h =
        let (shares, _, h1) = >>=-eq-ok (divide notional price) _ h in
        let (_, h2) =
          >>-eq-ok (check_paper_position (bought_position position_digest bps o at price shares)) _
            h1 in
        let (_, h3) = >>-eq-ok (check_report _) _ h2 in
        subst (IsPricedAt at price cash ps) (ok-injective h3) (priced refl refl refl)

    pub fill_buy-IsPricedAt :
        (marks : PriceProvider F) (o : OrderIntent F) (at : Datetime) (price cash : F)
        (ps : List (PaperPositionState F)) {done : Filled F}
        → fill_buy position_digest bps marks o at price cash ps ≡ ok done
        → IsPricedAt at price cash ps done
    unfolding fill_buy
    fill_buy-IsPricedAt marks o at price cash ps h =
        let notional = buy_notional position_digest bps o cash (marked_equity cash ps marks at) in
        elim (Bool-cases (any (λ p. p.company_id == o.company_id) ps)) [
          | inl occupied ↦
              rejected_report-IsPricedAt o at price cash ps "company already has an open position"
                (rw occupied at h)
          | inr fresh ↦ elim (Bool-cases (notional ≼ decimal 1 12)) [
            | inl small ↦
                rejected_report-IsPricedAt o at price cash ps "insufficient cash"
                  (rw (fresh, small) at h)
            | inr large ↦ buy_shares-IsPricedAt o at price cash notional ps (rw (fresh, large) at h)
          ]
        ]

    sell_shares-IsPricedAt :
        (o : OrderIntent F) (at : Datetime) (price cash : F) (p : PaperPositionState F)
        (to_sell : F) (ps : List (PaperPositionState F)) {done : Filled F}
        → sell_shares position_digest bps o at price cash p to_sell ps ≡ ok done
        → IsPricedAt at price cash ps done
    unfolding sell_shares
    sell_shares-IsPricedAt o at price cash p to_sell ps h =
        let (_, _, h1) =
          >>=-eq-ok (keep_remaining position_digest bps o p (p.shares ⊖ to_sell) price ps) _ h in
        let (_, h2) = >>-eq-ok (check_report _) _ h1 in
        subst (IsPricedAt at price cash ps) (ok-injective h2) (priced refl refl refl)

    sell_position-IsPricedAt :
        (marks : PriceProvider F) (o : OrderIntent F) (at : Datetime) (price cash : F)
        (ps : List (PaperPositionState F)) (p : PaperPositionState F) {done : Filled F}
        → sell_position position_digest bps marks o at price cash ps p ≡ ok done
        → IsPricedAt at price cash ps done
    unfolding sell_position
    sell_position-IsPricedAt marks o at price cash ps p h =
        let equity = marked_equity cash ps marks at in
        let (wanted, _, k) =
          >>=-eq-ok (divide (sell_notional position_digest bps o (p.shares ⊗ price) equity) price) _
            h in
        let to_sell = min_of p.shares wanted in
        elim (Bool-cases (to_sell ≼ decimal 1 12)) [
          | inl small ↦
              rejected_report-IsPricedAt o at price cash ps "sell amount is too small"
                (rw small at k)
          | inr large ↦ sell_shares-IsPricedAt o at price cash p to_sell ps (rw large at k)
        ]

    pub fill_sell-IsPricedAt :
        (marks : PriceProvider F) (o : OrderIntent F) (at : Datetime) (price cash : F)
        (ps : List (PaperPositionState F)) {done : Filled F}
        → fill_sell position_digest bps marks o at price cash ps ≡ ok done
        → IsPricedAt at price cash ps done
    unfolding fill_sell
    fill_sell-IsPricedAt marks o at price cash ps h = elim (Option-cases (open_position o ps)) [
      | inl e ↦
          rejected_report-IsPricedAt o at price cash ps "position is not open"
            (rw (e, fill_sell) at h)
      | inr (p, e) ↦ sell_position-IsPricedAt marks o at price cash ps p (rw (e, fill_sell) at h)
    ]
