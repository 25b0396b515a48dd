-- ===== src/Research/Historical/Run/Realized.antt =====
-- What the positions and the trades of `HistoricalStrategyBacktester.run`
-- (src/stock_trading/research/historical.py) rest on.
use stock_traiding.Base.{
  ℕ, ◌≡◌, refl, sym, ap, subst, Bool, false, some, List, [], ◌∷◌, map, Float, ok, ok-injective,
  raise_if, >>-eq-ok, >>=-eq-ok, raise_if-eq-ok, ◌==◌, ◌≼◌, decimal, ◌⊗◌, min_of, All, All-append,
  Nodup, select, elem, has_duplicates, has_duplicates_iff, Option-cases, Bool-cases, inl, inr,
  arith,
}
use stock_traiding.Base.Dict.{keys, lookup, has, put, Nodup-put, All-put, Nodup-pop, All-pop}
use stock_traiding.Base.Sort.{sorted, All-sorted}
use stock_traiding.Base.Removal.{All-select}
use stock_traiding.Engine.Contracts.{AllocationIntent}
use stock_traiding.Research.Historical.{
  HistoricalOutcome, HistoricalCandidate, HistoricalTrade, HistoricalBacktestResult,
  HistoricalPosition, historical_key, outcome_at,
}
use stock_traiding.Research.Historical.Run.{
  Production, Settings, Book, held_by, entry_of, is_due, exits_before, trade_of, opening,
  close_position, close_each, close_due, mark, equity_of, fund, realize, place, place_each,
  portfolio_snapshot, decide, enter_batch, trade_day, trade_days, all_dates, finish, run,
}

-- Of candidates with different identities, those of a day are found as among all.
lookup-select :
    {V : Type 0} (key : V → ℕ) (test : V → Bool) (k : ℕ) (xs : List V) {x : V}
    → Nodup (keys key xs)
    → lookup key k (select test xs) ≡ some x
    → lookup key k xs ≡ some x
lookup-select key test k [] n h = h
lookup-select key test k (y ∷ xs) {x} n h = elim (Bool-cases (test y)) [
  | inl e ↦ elim (Bool-cases (k == key y)) [
    | inl same ↦ ground (arith, e, same, rw (e, same) at h)
    | inr other ↦ rw other (lookup-select key test k xs n.1 (rw (e, other) at h))
  ]
  | inr e ↦ elim (Bool-cases (k == key y)) [
    | inl same ↦ absurd (missing key test k xs {x = x} (ground (arith, n.0, same)) (rw e at h))
    | inr other ↦ rw other (lookup-select key test k xs n.1 (rw e at h))
  ]
]
  where
    missing :
        {V : Type 0} (key : V → ℕ) (test : V → Bool) (k : ℕ) (xs : List V) {x : V}
        → elem k (keys key xs) ≡ false
        → ¬ (lookup key k (select test xs) ≡ some x)
    missing key test k [] absent h = cc
    missing key test k (y ∷ xs) {x} absent h =
        ground (arith, missing key test k xs {x = x}, absent, h)

module _ {F : Type 0} where
  module _ (cs : List (HistoricalCandidate F)) where
    -- The position rests on a candidate and on the outcome that this has for the chosen horizon.
    pub record IsFounded (p : HistoricalPosition F) : Type 0 where
      pub known : lookup historical_key p.opportunity.candidate_id cs ≡ some p.candidate
      pub chosen : outcome_at p.opportunity.horizon_sessions p.candidate.outcomes ≡ some p.outcome

    -- The trade repeats the outcome that a candidate has for the trade's horizon.
    pub record IsRealized (t : HistoricalTrade F) : Type 0 where
      pub candidate : HistoricalCandidate F
      pub outcome : HistoricalOutcome F
      pub known : lookup historical_key t.candidate_id cs ≡ some candidate
      pub chosen : outcome_at t.horizon_sessions candidate.outcomes ≡ some outcome
      pub exit : t.exit_date ≡ outcome.exit_date
      pub gross : t.gross_return ≡ outcome.stock_return
      pub alpha : t.alpha ≡ outcome.alpha
      pub downside : t.downside ≡ outcome.downside

    pub record IsKept (b : Book F) : Type 0 where
      pub companies : Nodup (keys held_by b.positions)
      pub founded : All IsFounded b.positions
      pub realized : All IsRealized b.trades

  -- What the placing of an allocation has done: it has found no cash, or it has opened a position for a
  -- company that had none.
  pub data IsPlaced (batch : List (HistoricalCandidate F)) (b after : Book F) : Type 0 where
    unfunded : after.positions ≡ b.positions → after.trades ≡ b.trades → IsPlaced batch b after
    placed :
        (p : HistoricalPosition F)
        → IsFounded batch p
        → after.positions ≡ put held_by p b.positions
        → after.trades ≡ b.trades
        → IsPlaced batch b after

module _ {F : Type 0} ⦃fl : Float F⦄ (settings : Settings F) where
  module _ (cs : List (HistoricalCandidate F)) where
    trade_of-IsRealized :
        (p : HistoricalPosition F) → IsFounded cs p → IsRealized cs (trade_of settings p)
    trade_of-IsRealized p f = record {
      candidate = p.candidate;
      outcome = p.outcome;
      known = f.known;
      chosen = f.chosen;
      exit = refl;
      gross = refl;
      alpha = refl;
      downside = refl;
    }

    close_each-IsKept :
        (b : Book F) (ps : List (HistoricalPosition F))
        → All (IsFounded cs) ps
        → IsKept cs b
        → IsKept cs (close_each settings b ps)
    close_each-IsKept b [] f k = k
    close_each-IsKept b (p ∷ ps) f k =
        close_each-IsKept (close_position settings b p) ps f.1 (record {
          companies = Nodup-pop held_by (held_by p) b.positions k.companies;
          founded = All-pop held_by (IsFounded cs) (held_by p) b.positions k.founded;
          realized =
              All-append (IsRealized cs) b.trades (trade_of settings p ∷ []) k.realized
                (trade_of-IsRealized p f.0, tt);
        })

    pub close_due-IsKept :
        (day : ℕ) (b : Book F) → IsKept cs b → IsKept cs (close_due settings day b)
    unfolding close_due
    close_due-IsKept day b k =
        close_each-IsKept b (sorted exits_before (select (is_due day) b.positions))
          (All-sorted exits_before (IsFounded cs) (select (is_due day) b.positions)
            (All-select (IsFounded cs) (is_due day) b.positions k.founded))
          k

    mark-IsKept : (b : Book F) → IsKept cs b → IsKept cs (mark settings b)
    mark-IsKept b k = record { companies = k.companies; founded = k.founded; realized = k.realized }

  fund-IsPlaced :
      (batch : List (HistoricalCandidate F)) (equity : F) (b : Book F) (a : AllocationIntent F)
      (historical : HistoricalCandidate F) (outcome : HistoricalOutcome F) (capital : F)
      → lookup historical_key a.opportunity.candidate_id batch ≡ some historical
      → outcome_at a.opportunity.horizon_sessions historical.outcomes ≡ some outcome
      → IsPlaced batch b (fund settings equity b a historical outcome capital)
  fund-IsPlaced batch equity b a historical outcome capital known chosen =
      elim (Bool-cases (capital ≼ decimal 0 0)) [
        | inl e ↦ rw e (unfunded refl refl)
        | inr e ↦ rw e (placed _ (record { known = known; chosen = chosen }) refl refl)
      ]

  realize-IsPlaced :
      (batch : List (HistoricalCandidate F)) (equity : F) (b after : Book F)
      (a : AllocationIntent F) (historical : HistoricalCandidate F)
      → lookup historical_key a.opportunity.candidate_id batch ≡ some historical
      → realize settings equity b a historical
          (outcome_at a.opportunity.horizon_sessions historical.outcomes)
        ≡ ok after
      → IsPlaced batch b after
  realize-IsPlaced batch equity b after a historical known h =
      elim (Option-cases (outcome_at a.opportunity.horizon_sessions historical.outcomes)) [
        | inl e ↦ let h' = rw e at h in cc
        | inr (outcome, e) ↦ subst (IsPlaced batch b) (ok-injective (rw e at h)) (
            fund-IsPlaced batch equity b a historical outcome
              (min_of b.cash (equity ⊗ a.allocation_pct)) known e)
      ]

  pub place-IsPlaced :
      (batch : List (HistoricalCandidate F)) (equity : F) (b after : Book F)
      (a : AllocationIntent F)
      → place settings equity b a (lookup historical_key a.opportunity.candidate_id batch)
        ≡ ok after
      → IsPlaced batch b after
  place-IsPlaced batch equity b after a h =
      elim (Option-cases (lookup historical_key a.opportunity.candidate_id batch)) [
        | inl e ↦ let h' = rw e at h in cc
        | inr (historical, e) ↦
            realize-IsPlaced batch equity b after a historical e
              (>>-eq-ok (raise_if (has held_by a.opportunity.company_id b.positions) _) _
                (rw e at h)).1
      ]

  module _ (cs batch : List (HistoricalCandidate F))
      (within : (k : ℕ) (c : HistoricalCandidate F)
        → lookup historical_key k batch ≡ some c
        → lookup historical_key k cs ≡ some c) where
    placed-IsKept : (b after : Book F) → IsPlaced batch b after → IsKept cs b → IsKept cs after
    placed-IsKept b after (unfunded ps ts) k = record {
      companies = subst (λ ps. Nodup (keys held_by ps)) (sym ps) k.companies;
      founded = subst (All (IsFounded cs)) (sym ps) k.founded;
      realized = subst (All (IsRealized cs)) (sym ts) k.realized;
    }
    placed-IsKept b after (placed p f ps ts) k = record {
      companies =
          subst (λ ps. Nodup (keys held_by ps)) (sym ps)
            (Nodup-put held_by p b.positions k.companies);
      founded = subst (All (IsFounded cs)) (sym ps) (
          All-put held_by (IsFounded cs) p b.positions
            (record {
              known = within p.opportunity.candidate_id p.candidate f.known;
              chosen = f.chosen;
            })
            k.founded);
      realized = subst (All (IsRealized cs)) (sym ts) k.realized;
    }

    place_each-IsKept :
        (equity : F) (b after : Book F) (allocations : List (AllocationIntent F))
        → place_each settings equity batch b allocations ≡ ok after
        → IsKept cs b
        → IsKept cs after
    place_each-IsKept equity b after [] h k = subst (IsKept cs) (ok-injective h) k
    place_each-IsKept equity b after (a ∷ rest) h k =
        let (next, now, later) =
          >>=-eq-ok
            (place settings equity b a (lookup historical_key a.opportunity.candidate_id batch)) _
            h in
        place_each-IsKept equity next after rest later
          (placed-IsKept b next (place-IsPlaced batch equity b next a now) k)

  module _ (production : Production F) where
    enter_batch-IsKept :
        (cs batch : List (HistoricalCandidate F)) (day : ℕ) (b after : Book F)
        → ((k : ℕ) (c : HistoricalCandidate F)
            → lookup historical_key k batch ≡ some c
            → lookup historical_key k cs ≡ some c)
        → enter_batch settings production day b batch ≡ ok after
        → IsKept cs b
        → IsKept cs after
    enter_batch-IsKept cs [] day b after within h k = subst (IsKept cs) (ok-injective h) k
    enter_batch-IsKept cs (c ∷ batch) day b after within h k =
        let (portfolio, seen, rest) =
          >>=-eq-ok (portfolio_snapshot production day (equity_of settings b) b.cash b.positions) _
            h in
        let (allocations, decided, last) =
          >>=-eq-ok (decide settings production (c ∷ batch) portfolio) _ rest in
        place_each-IsKept cs (c ∷ batch) within (equity_of settings b) b after allocations last k

    pub trade_day-IsKept :
        (cs : List (HistoricalCandidate F)) (day : ℕ) (b after : Book F)
        → Nodup (keys historical_key cs)
        → trade_day settings production cs b day ≡ ok after
        → IsKept cs b
        → IsKept cs after
    unfolding trade_day
    trade_day-IsKept cs day b after distinct h k =
        enter_batch-IsKept cs (select (λ c. entry_of c == day) cs) day
          (mark settings (close_due settings day b)) after
          (λ id c. lookup-select historical_key (λ c. entry_of c == day) id cs distinct) h
          (mark-IsKept cs (close_due settings day b) (close_due-IsKept cs day b k))

    -- Rounds of the backtest over candidates with different identities keep at most one position for
    -- each company, each on a candidate and its outcome, and every trade repeats such an outcome.
    pub trade_days-IsKept :
        (cs : List (HistoricalCandidate F)) (days : List ℕ) (b after : Book F)
        → Nodup (keys historical_key cs)
        → trade_days settings production cs b days ≡ ok after
        → IsKept cs b
        → IsKept cs after
    unfolding trade_days
    trade_days-IsKept cs [] b after distinct h k = subst (IsKept cs) (ok-injective h) k
    trade_days-IsKept cs (day ∷ days) b after distinct h k =
        let (next, now, later) = >>=-eq-ok (trade_day settings production cs b day) _ h in
        trade_days-IsKept cs days next after distinct later
          (trade_day-IsKept cs day b next distinct now k)

    pub opening-IsKept : (cs : List (HistoricalCandidate F)) → IsKept cs (opening settings)
    opening-IsKept cs = record { companies = tt; founded = tt; realized = tt }

    finish_trades :
        (b : Book F) (ps : List (HistoricalPosition F)) (r : HistoricalBacktestResult F)
        → finish settings b ps ≡ ok r
        → b.trades ≡ r.trades
    finish_trades b [] r h = ap (λ r. r.trades) (ok-injective h)
    finish_trades b (p ∷ ps) r h = cc

    -- Every trade of a result repeats the exit date, the return, the alpha and the downside that one of
    -- the candidates has for the trade's horizon, whatever the strategy and the policies answer.
    pub run-IsRealized :
        (cs : List (HistoricalCandidate F)) (r : HistoricalBacktestResult F)
        → run settings production cs ≡ ok r
        → All (IsRealized cs) r.trades
    unfolding run
    run-IsRealized cs r h =
        let (distinct, rest) = >>-eq-ok (raise_if (has_duplicates (map historical_key cs)) _) _ h in
        let (book, traded, last) =
          >>=-eq-ok (trade_days settings production cs (opening settings) (all_dates cs)) _ rest in
        let unique = (has_duplicates_iff (map historical_key cs)).0 (raise_if-eq-ok _ _ distinct) in
        let kept =
          trade_days-IsKept cs (all_dates cs) (opening settings) book unique traded
            (opening-IsKept cs) in
        subst (All (IsRealized cs)) (finish_trades book book.positions r last) kept.realized
