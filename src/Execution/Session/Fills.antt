-- ===== src/Execution/Session/Fills.antt =====
-- The fills of src/stock_trading/execution/session_paper.py meet the contract of the broker's loops.
use stock_traiding.Base.{
  ◌≡◌, refl, inl, inr, false, Option, none, some, List, Float, Result, ok, >>=-eq-ok, ok-injective,
  Datetime, combine, ltb, Bool-cases, subst, arith,
}
use stock_traiding.Engine.Contracts.{Identity, OrderIntent, buy, sell, execution_day}
use stock_traiding.Execution.Ledger.{PaperPositionState}
use stock_traiding.Execution.Fill.{Filled}
use stock_traiding.Execution.Fill.Contract.{
  IsOutcome, side-cases, fill_buy-IsOutcome, fill_sell-IsOutcome,
}
use stock_traiding.Execution.Fill.Priced.{IsPricedAt, fill_buy-IsPricedAt, fill_sell-IsPricedAt}
use stock_traiding.Execution.Broker.Soundness.{IsFill}
use stock_traiding.Execution.Session.{
  Bar, MarketStore, previous_close, latest_close, fill_on_bar, if_bar, session_bar_fill,
}

some_injective : {A : Type 0} {a b : A} → (some a ≡ some b) → a ≡ b
some_injective h = cc

module _ {F : Type 0} ⦃fl : Float F⦄ (position_digest : Identity → Identity → Identity → Identity)
    (bps : F) where
  fill_on_bar-IsOutcome :
      (store : MarketStore F) (o : OrderIntent F) (at : Datetime) (cash : F)
      (ps : List (PaperPositionState F)) (bar : Bar F) {done : Filled F}
      → fill_on_bar position_digest bps store o at cash ps bar ≡ ok done
      → IsOutcome o ps done
  unfolding fill_on_bar
  fill_on_bar-IsOutcome store o at cash ps bar {done} h = elim (side-cases o.side) [
    | inl e ↦
        fill_buy-IsOutcome position_digest bps (previous_close store) o at bar.adj_open cash ps
          (rw (e, fill_on_bar) at h)
    | inr e ↦
        fill_sell-IsOutcome position_digest bps (latest_close store) o at bar.adj_close cash ps
          (rw (e, fill_on_bar) at h)
  ]

  -- What is known when the bar broker has filled an order: the day of the order has come, its bar
  -- is stored, and a BUY is filled at the open of this bar, a SELL at its close, dated to the day of
  -- the order, or the order is refused on that day and the account stays as it is.
  pub record IsOnSession (store : MarketStore F) (o : OrderIntent F) (as_of : Datetime) (cash : F)
      (ps : List (PaperPositionState F)) (done : Filled F) : Type 0 where
    pub due : ltb as_of.date (execution_day o) ≡ false
    pub bar : Bar F
    pub stored : store.bar_on o.security_id (execution_day o) ≡ some bar
    pub bought :
        o.side ≡ buy → IsPricedAt (combine (execution_day o) as_of.timetz) bar.adj_open cash ps done
    pub sold :
        o.side ≡ sell
        → IsPricedAt (combine (execution_day o) as_of.timetz) bar.adj_close cash ps done

  fill_on_bar-bought :
      (store : MarketStore F) (o : OrderIntent F) (at : Datetime) (cash : F)
      (ps : List (PaperPositionState F)) (bar : Bar F) {done : Filled F}
      → fill_on_bar position_digest bps store o at cash ps bar ≡ ok done
      → o.side ≡ buy
      → IsPricedAt at bar.adj_open cash ps done
  unfolding fill_on_bar
  fill_on_bar-bought store o at cash ps bar h e =
      fill_buy-IsPricedAt position_digest bps (previous_close store) o at bar.adj_open cash ps
        (rw (e, fill_on_bar) at h)

  fill_on_bar-sold :
      (store : MarketStore F) (o : OrderIntent F) (at : Datetime) (cash : F)
      (ps : List (PaperPositionState F)) (bar : Bar F) {done : Filled F}
      → fill_on_bar position_digest bps store o at cash ps bar ≡ ok done
      → o.side ≡ sell
      → IsPricedAt at bar.adj_close cash ps done
  unfolding fill_on_bar
  fill_on_bar-sold store o at cash ps bar h e =
      fill_sell-IsPricedAt position_digest bps (latest_close store) o at bar.adj_close cash ps
        (rw (e, fill_on_bar) at h)

  if_bar-eq-some :
      (b : Option (Bar F)) (on : Bar F → Result (Filled F)) (done : Filled F)
      → if_bar position_digest bps b on ≡ ok (some done)
      → (bar : Bar F) × (b ≡ some bar) × (on bar ≡ ok done)
  if_bar-eq-some none on done h = cc
  if_bar-eq-some (some bar) on done h =
      let (d, e, k) = >>=-eq-ok (on bar) _ h in
      (bar, refl, subst (λ x. on bar ≡ ok x) (some_injective (ok-injective k)) e)

  session_bar_fill-eq-some :
      (store : MarketStore F) (o : OrderIntent F) (as_of : Datetime) (cash : F)
      (ps : List (PaperPositionState F)) (done : Filled F)
      → session_bar_fill position_digest bps store o as_of cash ps ≡ ok (some done)
      → (ltb as_of.date (execution_day o) ≡ false)
        × (bar : Bar F) × (store.bar_on o.security_id (execution_day o) ≡ some bar)
        × (fill_on_bar position_digest bps store o
              (combine (execution_day o) as_of.timetz)
              cash
              ps
              bar
            ≡ ok done)
  unfolding session_bar_fill
  session_bar_fill-eq-some store o as_of cash ps done h =
      elim (Bool-cases (ltb as_of.date (execution_day o))) [
        | inl e ↦ ground (arith, h, e)
        | inr e ↦
            let (bar, stored, at_bar) =
              if_bar-eq-some (store.bar_on o.security_id (execution_day o)) _ done
                (rw (e, session_bar_fill) at h) in
            (e, bar, stored, at_bar)
      ]

  -- The bar broker deals with an order finally only when its day has come and the bar of just that
  -- day is stored. A BUY is filled at the open of this bar and a SELL at its close, and the report is
  -- dated to the day of the order, whatever the day of the settlement; or the order is refused, with
  -- a report of the same date and no price, and the cash and the positions stay as they are.
  pub session_bar_fill-IsOnSession :
      (store : MarketStore F) (o : OrderIntent F) (as_of : Datetime) (cash : F)
      (ps : List (PaperPositionState F)) (done : Filled F)
      → session_bar_fill position_digest bps store o as_of cash ps ≡ ok (some done)
      → IsOnSession store o as_of cash ps done
  session_bar_fill-IsOnSession store o as_of cash ps done h =
      let at = combine (execution_day o) as_of.timetz in
      let (due, bar, stored, at_bar) = session_bar_fill-eq-some store o as_of cash ps done h in
      record {
        due = due;
        bar = bar;
        stored = stored;
        bought = fill_on_bar-bought store o at cash ps bar at_bar;
        sold = fill_on_bar-sold store o at cash ps bar at_bar;
      }

  -- Every order that the bar broker fills gets a checked final report on that order, and the
  -- positions stay checked and keep to one for each company, as the broker's loops need.
  pub session_bar_fill-IsFill :
      (store : MarketStore F) → IsFill (session_bar_fill position_digest bps store)
  session_bar_fill-IsFill store = record {
    outcome = λ o at cash ps done h.
        let (_, bar, _, at_bar) = session_bar_fill-eq-some store o at cash ps done h in
        fill_on_bar-IsOutcome store o (combine (execution_day o) at.timetz) cash ps bar at_bar;
  }
