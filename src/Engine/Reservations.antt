-- ===== src/Engine/Reservations.antt =====
-- `_portfolio_with_pending_entry_reservations` of src/stock_trading/engine/runtime.py. The broker's
-- pending orders are an argument, `none` for a broker that cannot name them.
pub mod Loop
pub mod View
use stock_traiding.Base.{
  ℕ, ◌≡◌, refl, inl, inr, true, false, not, ◌||◌, Option, none, some, List, [], ◌∷◌, ◌++◌, map,
  Float, decimal, ◌⊕◌, min_of, Result, ok, value_error, raise_if, ◌>>=◌, ◌>>◌, >>=-eq-ok, >>-eq-ok,
  ok-injective, elem, Nodup, if◌then◌else◌, arith, Bool-cases, All, ==_refl, raise_if-eq-ok, ap,
  sym, ◌∙◌, subst,
}
use stock_traiding.Base.Sort.{sorted, elem-sorted, sorted-All}
use stock_traiding.Base.Every.{All-map, IsSublist, nothing, keep_one, leave_out}
use stock_traiding.Base.Dict.{lookup, elem-keys-append}
use mathlib.Core.List.{append_assoc, append-nil}
use stock_traiding.Engine.Contracts.{
  Identity, OrderIntent, PortfolioPosition, PortfolioSnapshot, bool, str, is_buy, execution_day,
  check_position, check_snapshot,
}
use stock_traiding.Engine.Naming.{Naming}
use stock_traiding.Execution.Ledger.{order_before}

abbrev pub company_of : {F : Type 0} → PortfolioPosition F → Identity
company_of p = p.company_id

abbrev pub order_company : {F : Type 0} → OrderIntent F → Identity
order_company o = o.company_id

module _ {F : Type 0} ⦃fl : Float F⦄ (naming : Naming) where
  abbrev pub reservation : OrderIntent F → PortfolioPosition F
  reservation o = record {
    position_id = naming.reserved_id o.order_id;
    strategy_id = o.strategy_id;
    company_id = o.company_id;
    security_id = o.security_id;
    allocation_pct = o.allocation_pct;
    opened_on = o.created_at.date;
    planned_exit_date = none;
    metadata =
        ("pending_entry_reservation", bool true)
        ∷ ("order_id", str o.order_id)
        ∷ ("execute_on", str (naming.iso_date (execution_day o)))
        ∷ [];
  }

  -- The loop: the companies that are taken, the exposure reserved so far and the reservations.
  unfoldable pub reserve :
      List ℕ
      → F
      → List (PortfolioPosition F)
      → List (OrderIntent F)
      → Result (F × List (PortfolioPosition F))
  reserve occupied exposure made [] = ok (exposure, made)
  reserve occupied exposure made (o ∷ os) =
      raise_if (not (is_buy o.side))
        (value_error "pending entry reservation provider returned a non-BUY order")
      >> (let rest =
            check_position (reservation o)
            >> reserve (o.company_id ∷ occupied) (exposure ⊕ o.allocation_pct)
                (made ++ reservation o ∷ []) os in
          let skipped = reserve occupied exposure made os in
          if elem o.company_id occupied then skipped else rest)

  abbrev pub with_positions :
      PortfolioSnapshot F → F → List (PortfolioPosition F) → PortfolioSnapshot F
  with_positions p exposure made = record {
    as_of = p.as_of;
    equity = p.equity;
    cash = p.cash;
    gross_exposure_pct = min_of (decimal 1 0) (p.gross_exposure_pct ⊕ exposure);
    positions = p.positions ++ made;
  }

  abbrev pub reserved_snapshot :
      PortfolioSnapshot F → F → List (PortfolioPosition F) → Result (PortfolioSnapshot F)
  reserved_snapshot p exposure [] = ok p
  reserved_snapshot p exposure (r ∷ rs) =
      check_snapshot (with_positions p exposure (r ∷ rs)) >> ok (with_positions p exposure (r ∷ rs))

  unfoldable pub with_reservations :
      PortfolioSnapshot F → Option (List (OrderIntent F)) → Result (PortfolioSnapshot F)
  with_reservations p none = ok p
  with_reservations p (some []) = ok p
  with_reservations p (some (o ∷ os)) = do
    done ← reserve (map company_of p.positions) (decimal 0 0) [] (sorted order_before (o ∷ os))
    reserved_snapshot p done.0 done.1
