-- ===== src/Execution/Portfolio/Snapshot.antt =====
-- The snapshots of `PaperPortfolioStateProvider` in src/stock_trading/execution/paper.py.
use stock_traiding.Base.{
  ◌≡◌, refl, Bool, false, ◌⊗◌, min_of, max_of, select, raise_if-eq-ok, Option, List, [], ◌∷◌, map,
  Float, decimal, ◌≼◌, ◌≺◌, ◌⊕◌, ok, raise_if, >>=-eq-ok, >>-eq-ok, ok-injective, Datetime, All,
  subst, sym, ap, ◌∙◌, Bool-cases, inl, inr, or_else,
}
use stock_traiding.Engine.Contracts.{
  PortfolioPosition, PortfolioSnapshot, check_position, check_snapshot, metadata_get,
}
use stock_traiding.Execution.Ledger.{
  PaperPositionState, PaperLedgerState, LedgerFile, load, company_key,
}
use stock_traiding.Base.Every.{AllPairs}
use stock_traiding.Execution.Fill.{PriceProvider}
use stock_traiding.Execution.Portfolio.{
  Marked, marked_at, optional_int, mark_positions, portfolio_position, portfolio_positions,
  portfolio_snapshot, share_of, sum_values, snapshot_state, snapshot,
}
use stock_traiding.Execution.Portfolio.Parts.{
  IsPart, mark_positions-map, portfolio_positions-IsPart,
}

module _ {F : Type 0} ⦃fl : Float F⦄ where
  module _ (prices : PriceProvider F) (as_of : Datetime) where
    -- The provider's price of a position, or its last price where there is none, and its worth at it
    abbrev pub mark_at : PaperPositionState F → F
    mark_at p = or_else (prices p.security_id as_of) p.last_price

    abbrev pub worth : PaperPositionState F → F
    worth p = p.shares ⊗ mark_at p

    abbrev pub total_worth : F → List (PaperPositionState F) → F
    total_worth total [] = total
    total_worth total (p ∷ ps) = total_worth (total ⊕ worth p) ps

    abbrev pub is_worth : PaperPositionState F → Bool
    is_worth p = decimal 0 0 ≺ worth p

    -- The engine's view of a position of the ledger
    pub record IsView (equity : F) (p : PaperPositionState F) (q : PortfolioPosition F)
        : Type 0 where
      pub id : q.position_id ≡ p.position_id
      pub strategy : q.strategy_id ≡ p.strategy_id
      pub company : q.company_id ≡ p.company_id
      pub security : q.security_id ≡ p.security_id
      pub share : q.allocation_pct ≡ share_of equity (worth p)
      pub opened : q.opened_on ≡ p.opened_at.date
      pub horizon : metadata_get "horizon_sessions" q.metadata ≡ optional_int p.horizon_sessions

    -- A snapshot that the engine may plan on: dated as asked, with amounts in range and checked
    -- positions, each of a company that the ledger holds, none twice if the ledger has none twice. It
    -- shows just the positions of a positive worth, with their shares of the equity.
    pub record IsSnapshot (s : PaperLedgerState F) (made : PortfolioSnapshot F) : Type 0 where
      pub dated : made.as_of ≡ as_of
      pub in_range : check_snapshot made ≡ ok tt
      pub part : IsPart (map company_key s.positions) made.positions
      pub priced : All (λ p. (mark_at p ≼ decimal 0 0) ≡ false) s.positions
      pub equity : made.equity ≡ s.cash ⊕ total_worth (decimal 0 0) s.positions
      pub cash : made.cash ≡ max_of (decimal 0 0) s.cash
      pub exposure :
          made.gross_exposure_pct
          ≡ min_of
              (decimal 1 0)
              (max_of (decimal 0 0) (share_of made.equity (total_worth (decimal 0 0) s.positions)))
      pub views : AllPairs (IsView made.equity) (select is_worth s.positions) made.positions

    mark_positions-eq :
        (ps : List (PaperPositionState F)) (vs : List (Marked F))
        → mark_positions prices as_of ps ≡ ok vs
        → (vs ≡ map (λ p. marked_at p (mark_at p)) ps)
          × All (λ p. (mark_at p ≼ decimal 0 0) ≡ false) ps
    unfolding mark_positions
    mark_positions-eq [] vs h = (sym (ok-injective h), tt)
    mark_positions-eq (p ∷ ps) vs h =
        let (priced, h1) = >>-eq-ok (raise_if (mark_at p ≼ decimal 0 0) _) _ h in
        let (rest, e, h2) = >>=-eq-ok (mark_positions prices as_of ps) _ h1 in
        let (same, others) = mark_positions-eq ps rest e in
        (
          sym (ok-injective h2) ∙ ap (◌∷◌ (marked_at p (mark_at p))) same,
          (raise_if-eq-ok _ _ priced, others),
        )

    sum_values-eq :
        (total : F) (ps : List (PaperPositionState F))
        → sum_values total (map (λ p. marked_at p (mark_at p)) ps) ≡ total_worth total ps
    unfolding sum_values
    sum_values-eq total [] = refl
    sum_values-eq total (p ∷ ps) = sum_values-eq (total ⊕ worth p) ps

    portfolio_positions-views :
        (equity : F) (ps : List (PaperPositionState F)) (held : List (PortfolioPosition F))
        → portfolio_positions equity (map (λ p. marked_at p (mark_at p)) ps) ≡ ok held
        → AllPairs (IsView equity) (select is_worth ps) held
    unfolding portfolio_positions
    portfolio_positions-views equity [] held h =
        subst (AllPairs (IsView equity) []) (ok-injective h) tt
    portfolio_positions-views equity (p ∷ ps) held h = elim (Bool-cases (is_worth p)) [
      | inr e ↦ rw e (portfolio_positions-views equity ps held (rw (e, portfolio_positions) at h))
      | inl e ↦
          let v = marked_at p (mark_at p) in
          let (_, h1) =
            >>-eq-ok (check_position (portfolio_position equity v)) _
              (rw (e, portfolio_positions) at h) in
          let (rest, e1, h2) =
            >>=-eq-ok (portfolio_positions equity (map (λ q. marked_at q (mark_at q)) ps)) _ h1 in
          let viewed : IsView equity p (portfolio_position equity v) = record {
            id = refl;
            strategy = refl;
            company = refl;
            security = refl;
            share = refl;
            opened = refl;
            horizon = refl;
          } in
          rw e (
            subst (AllPairs (IsView equity) (p ∷ select is_worth ps)) (ok-injective h2)
              (viewed, portfolio_positions-views equity ps rest e1))
    ]

    snapshot_state-IsSnapshot :
        (s : PaperLedgerState F) (made : PortfolioSnapshot F)
        → snapshot_state prices as_of s ≡ ok made
        → IsSnapshot s made
    unfolding snapshot_state
    snapshot_state-IsSnapshot s made h =
        let (vs, e1, h2) = >>=-eq-ok (mark_positions prices as_of s.positions) _ h in
        let (marks, priced) = mark_positions-eq s.positions vs e1 in
        let gross = sum_values (decimal 0 0) vs in
        let total = ap (sum_values (decimal 0 0)) marks ∙ sum_values-eq (decimal 0 0) s.positions in
        let (held, e2, h3) = >>=-eq-ok (portfolio_positions (s.cash ⊕ gross) vs) _ h2 in
        let (fine, h4) =
          >>-eq-ok
            (check_snapshot (
              portfolio_snapshot as_of (s.cash ⊕ gross) s.cash (share_of (s.cash ⊕ gross) gross)
                held))
            _ h3 in
        subst (IsSnapshot s) (ok-injective h4) (record {
          dated = refl;
          in_range = fine;
          part =
              subst (λ ids. IsPart ids held) (mark_positions-map prices as_of s.positions vs e1)
                (portfolio_positions-IsPart (s.cash ⊕ gross) vs held e2);
          priced = priced;
          equity = ap (λ x. s.cash ⊕ x) total;
          cash = refl;
          exposure =
              ap (λ x. min_of (decimal 1 0) (max_of (decimal 0 0) (share_of (s.cash ⊕ gross) x)))
                total;
          views =
              portfolio_positions-views (s.cash ⊕ gross) s.positions held
                (subst (λ ws. portfolio_positions (s.cash ⊕ gross) ws ≡ ok held) marks e2);
        })

  -- A snapshot of the PAPER account that returns is one of the ledger as it loads. The price of a
  -- position is the provider's, or its last one where the provider has none, and no price is zero or
  -- less. The snapshot is dated as asked and its amounts are in range: the equity is the ledger's cash
  -- and the worth of the positions at these prices, the cash is the ledger's where that is not below
  -- zero, and the exposure is the share of the worth in the equity, between 0 and 1. It shows, in the
  -- ledger's order, just the positions of a positive worth, each with the ledger's identities, day of
  -- opening and horizon and with its share of the equity, as checked positions; if the ledger holds no
  -- company twice, so does the snapshot.
  pub snapshot-IsSnapshot :
      (starting_cash : F) (prices : PriceProvider F) (file : Option (LedgerFile F))
      (as_of : Datetime) (made : PortfolioSnapshot F)
      → snapshot starting_cash prices file as_of ≡ ok made
      → (s : PaperLedgerState F) × (load starting_cash file ≡ ok s) × IsSnapshot prices as_of s made
  unfolding snapshot
  snapshot-IsSnapshot starting_cash prices file as_of made h =
      let (s, loads, h1) = >>=-eq-ok (load starting_cash file) _ h in
      (s, loads, snapshot_state-IsSnapshot prices as_of s made h1)
