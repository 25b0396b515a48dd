-- ===== src/Execution/Portfolio/Parts.antt =====
-- Which companies the snapshots of `PaperPortfolioStateProvider` in src/stock_trading/execution/paper.py
-- show.
use stock_traiding.Base.{
  ℕ, ◌≡◌, true, false, List, [], ◌∷◌, map, Float, decimal, ◌≼◌, ◌≺◌, ok, raise_if, >>=-eq-ok,
  >>-eq-ok, ok-injective, Datetime, All, Nodup, elem, subst, sym, ap, ◌∙◌, arith, Bool-cases, inl,
  inr, or_else,
}
use stock_traiding.Engine.Contracts.{Identity, PortfolioPosition, check_position}
use stock_traiding.Execution.Ledger.{PaperPositionState, company_key}
use stock_traiding.Execution.Fill.{PriceProvider}
use stock_traiding.Execution.Portfolio.{
  Marked, mark_positions, portfolio_position, portfolio_positions,
}

-- The company of a position of the engine's portfolio
abbrev pub held_company : {F : Type 0} → PortfolioPosition F → Identity
held_company p = p.company_id

abbrev pub marked_company : {F : Type 0} → Marked F → Identity
marked_company v = v.position.company_id

absent :
    (c : ℕ) (xs ys : List ℕ)
    → ((x : ℕ) → elem x ys ≡ true → elem x xs ≡ true)
    → elem c xs ≡ false
    → elem c ys ≡ false
absent c xs ys f h = elim (Bool-cases (elem c ys)) [
  | inl e ↦ let m = f c e in absurd (ground (arith, m, h))
  | inr e ↦ e
]

module _ {F : Type 0} ⦃fl : Float F⦄ where
  pub mark_positions-map :
      (prices : PriceProvider F) (as_of : Datetime) (ps : List (PaperPositionState F))
      (vs : List (Marked F))
      → mark_positions prices as_of ps ≡ ok vs
      → map marked_company vs ≡ map company_key ps
  unfolding mark_positions
  mark_positions-map prices as_of [] vs h = ap (map marked_company) (sym (ok-injective h))
  mark_positions-map prices as_of (p ∷ ps) vs h =
      let (_, h1) =
        >>-eq-ok (raise_if (or_else (prices p.security_id as_of) p.last_price ≼ decimal 0 0) _) _
          h in
      let (rest, e, h2) = >>=-eq-ok (mark_positions prices as_of ps) _ h1 in
      ap (map marked_company) (sym (ok-injective h2))
      ∙ ap (◌∷◌ p.company_id) (mark_positions-map prices as_of ps rest e)

  -- Checked positions, of some of the companies, and of none twice if no company has two
  pub record IsPart (companies : List ℕ) (held : List (PortfolioPosition F)) : Type 0 where
    pub checked : All (λ p. check_position p ≡ ok tt) held
    pub within : (x : ℕ) → elem x (map held_company held) ≡ true → elem x companies ≡ true
    pub once : Nodup companies → Nodup (map held_company held)

  pub portfolio_positions-IsPart :
      (equity : F) (vs : List (Marked F)) (held : List (PortfolioPosition F))
      → portfolio_positions equity vs ≡ ok held
      → IsPart (map marked_company vs) held
  unfolding portfolio_positions
  portfolio_positions-IsPart equity [] held h =
      subst (IsPart []) (ok-injective h) (record { checked = tt; within = λ x m. m; once = λ n. n })
  portfolio_positions-IsPart equity (v ∷ vs) held h = elim (Bool-cases (decimal 0 0 ≺ v.value)) [
    | inl e ↦
        let (fine, h1) =
          >>-eq-ok (check_position (portfolio_position equity v)) _
            (rw (e, portfolio_positions) at h) in
        let (rest, e1, h2) = >>=-eq-ok (portfolio_positions equity vs) _ h1 in
        let part = portfolio_positions-IsPart equity vs rest e1 in
        let some_of = part.within in
        subst (IsPart (map marked_company (v ∷ vs))) (ok-injective h2) (record {
          checked = (fine, part.checked);
          within = λ x m. let w = some_of x in ground arith;
          once = λ n. (
            absent (marked_company v) (map marked_company vs) (map held_company rest) some_of n.0,
            part.once n.1,
          );
        })
    | inr e ↦
        let part = portfolio_positions-IsPart equity vs held (rw (e, portfolio_positions) at h) in
        let some_of = part.within in
        record {
          checked = part.checked;
          within = λ x m. let w = some_of x m in ground arith;
          once = λ n. part.once n.1;
        }
  ]
