-- ===== src/Research/Historical/Run/Closed.antt =====
-- Why a backtest of src/stock_trading/research/historical.py ends without open positions.
use stock_traiding.Base.{
  ℕ, ◌<◌, ◌≡◌, refl, sym, ◌∙◌, subst, true, not, some, List, [], ◌∷◌, map, Float, ok, ok-injective,
  >>=-eq-ok, ◌==◌, All, Nodup, select, elem, elem-append, has_duplicates_iff, Bool-cases, inl, inr,
  arith, ℤ, int_eq,
}
use stock_traiding.Base.Dict.{keys, lookup, All-put, All-lookup}
use stock_traiding.Base.Every.{All-map, All_selected}
use stock_traiding.Base.Sort.{sorted}
use stock_traiding.Base.Removal.{pop_all, pop_all_found}
use stock_traiding.Backtest.Dates.{
  IsAhead, IsAhead-later, still_ahead, Ascending, sorted_set-Ascending, elem-sorted_set,
}
use stock_traiding.Engine.Contracts.{AllocationIntent}
use stock_traiding.Research.Historical.{
  HistoricalOutcome, HistoricalCandidate, HistoricalPosition, historical_key, outcome_at,
}
use stock_traiding.Research.Historical.Run.{
  Production, Settings, Book, held_by, leaves_on, entry_of, exit_days, days_of, all_dates, is_due,
  exits_before, opening, close_position, close_each, close_due, mark, equity_of, place, place_each,
  portfolio_snapshot, decide, enter_batch, trade_day, trade_days, finish, result_of, run,
}
use stock_traiding.Research.Historical.Run.Realized.{
  IsFounded, IsKept, IsPlaced, IsPlaced.unfunded, IsPlaced.placed, place-IsPlaced, trade_day-IsKept,
  opening-IsKept,
}

module _ {F : Type 0} where
  -- All the candidate's outcomes leave on days with the property.
  abbrev Exits : (ℕ → Type 0) → HistoricalCandidate F → Type 0
  Exits P c = All (λ (entry : ℤ × HistoricalOutcome F). P entry.1.exit_date) c.outcomes

  -- Every outcome of the candidate leaves after its entry.
  abbrev pub IsForward : HistoricalCandidate F → Type 0
  IsForward c = Exits (λ day. entry_of c < day) c

  abbrev Leaves : List ℕ → HistoricalPosition F → Type 0
  Leaves days p = elem (leaves_on p) days ≡ true

  chosen_exit :
      (P : ℕ → Type 0) (horizon : ℤ) (outcomes : List (ℤ × HistoricalOutcome F))
      {outcome : HistoricalOutcome F}
      → All (λ (entry : ℤ × HistoricalOutcome F). P entry.1.exit_date) outcomes
      → outcome_at horizon outcomes ≡ some outcome
      → P outcome.exit_date
  chosen_exit P horizon [] h e = cc
  chosen_exit P horizon ((key, found) ∷ rest) {outcome} h e =
      elim (Bool-cases (int_eq horizon key)) [
        | inl same ↦
            let is : found ≡ outcome = let e' = rw same at e in cc in
            subst (λ (o : HistoricalOutcome F). P o.exit_date) is h.0
        | inr other ↦ chosen_exit P horizon rest h.1 (rw other at e)
      ]

  founded-Leaves :
      (days : List ℕ) (batch : List (HistoricalCandidate F)) (p : HistoricalPosition F)
      → All (Exits (λ day. elem day days ≡ true)) batch
      → IsFounded batch p
      → Leaves days p
  founded-Leaves days batch p h f =
      chosen_exit (λ day. elem day days ≡ true) p.opportunity.horizon_sessions p.candidate.outcomes
        (All-lookup historical_key (Exits (λ day. elem day days ≡ true)) p.opportunity.candidate_id
          batch h f.known)
        f.chosen

  later_exits :
      (day : ℕ) (days : List ℕ) (c : HistoricalCandidate F)
      (outcomes : List (ℤ × HistoricalOutcome F))
      → entry_of c ≡ day
      → All (λ (entry : ℤ × HistoricalOutcome F). entry_of c < entry.1.exit_date) outcomes
      → All (λ (entry : ℤ × HistoricalOutcome F). IsAhead (day ∷ days) entry.1.exit_date) outcomes
      → All (λ (entry : ℤ × HistoricalOutcome F). elem entry.1.exit_date days ≡ true) outcomes
  later_exits day days c [] e f h = tt
  later_exits day days c (entry ∷ rest) e f h =
      let after = f.0 in
      (
        still_ahead day days entry.1.exit_date (omega arith) h.0,
        later_exits day days c rest e f.1 h.1,
      )

  exits_within :
      (days : List ℕ) (outcomes : List (ℤ × HistoricalOutcome F))
      → ((x : ℕ) → elem x (exit_days outcomes) ≡ true → IsAhead days x)
      → All (λ (entry : ℤ × HistoricalOutcome F). IsAhead days entry.1.exit_date) outcomes
  exits_within days [] f = tt
  exits_within days ((horizon, outcome) ∷ rest) f =
      (f outcome.exit_date (ground arith), exits_within days rest (λ x m. f x (ground arith)))

  Exits-listed :
      (days : List ℕ) (cs : List (HistoricalCandidate F))
      → ((x : ℕ) → elem x (days_of cs) ≡ true → IsAhead days x)
      → All (Exits (IsAhead days)) cs
  Exits-listed days [] f = tt
  Exits-listed days (c ∷ cs) f = (
    exits_within days c.outcomes
        (λ x m. f x (ground (arith, elem-append x (exit_days c.outcomes) (days_of cs), m))),
    Exits-listed days cs
        (λ x m. f x (ground (arith, elem-append x (exit_days c.outcomes) (days_of cs), m))),
  )

  Exits-IsAhead : (cs : List (HistoricalCandidate F)) → All (Exits (IsAhead (all_dates cs))) cs
  unfolding all_dates
  Exits-IsAhead cs =
      Exits-listed (all_dates cs) cs (λ x m. inl (elem-sorted_set x (days_of cs) ∙ m))

module _ {F : Type 0} ⦃fl : Float F⦄ (settings : Settings F) where
  close_each_positions :
      (b : Book F) (ps : List (HistoricalPosition F))
      → (close_each settings b ps).positions ≡ pop_all held_by (map held_by ps) b.positions
  close_each_positions b [] = refl
  close_each_positions b (p ∷ ps) = close_each_positions (close_position settings b p) ps

  close_due-Leaves :
      (day : ℕ) (days : List ℕ) (b : Book F)
      → Nodup (keys held_by b.positions)
      → All (Leaves (day ∷ days)) b.positions
      → All (Leaves days) (close_due settings day b).positions
  unfolding close_due
  close_due-Leaves day days b n h =
      subst (All (Leaves days))
        (sym (
          close_each_positions b (sorted exits_before (select (is_due day) b.positions))
          ∙ pop_all_found held_by exits_before (is_due day) b.positions n))
        (All_selected (Leaves (day ∷ days)) (Leaves days) (λ p. not (is_due day p)) b.positions
          (λ p late m. ground arith) h)

  placed-Leaves :
      (days : List ℕ) (batch : List (HistoricalCandidate F)) (b after : Book F)
      → All (Exits (λ day. elem day days ≡ true)) batch
      → IsPlaced batch b after
      → All (Leaves days) b.positions
      → All (Leaves days) after.positions
  placed-Leaves days batch b after m (unfunded ps ts) h = subst (All (Leaves days)) (sym ps) h
  placed-Leaves days batch b after m (placed p f ps ts) h =
      subst (All (Leaves days)) (sym ps)
        (All-put held_by (Leaves days) p b.positions (founded-Leaves days batch p m f) h)

  place_each-Leaves :
      (days : List ℕ) (batch : List (HistoricalCandidate F)) (equity : F) (b after : Book F)
      (allocations : List (AllocationIntent F))
      → All (Exits (λ day. elem day days ≡ true)) batch
      → place_each settings equity batch b allocations ≡ ok after
      → All (Leaves days) b.positions
      → All (Leaves days) after.positions
  place_each-Leaves days batch equity b after [] m h l =
      subst (λ (b : Book F). All (Leaves days) b.positions) (ok-injective h) l
  place_each-Leaves days batch equity b after (a ∷ rest) m h l =
      let (next, now, later) =
        >>=-eq-ok
          (place settings equity b a (lookup historical_key a.opportunity.candidate_id batch)) _
          h in
      place_each-Leaves days batch equity next after rest m later
        (placed-Leaves days batch b next m (place-IsPlaced settings batch equity b next a now) l)

  -- The outcomes of the day's candidates leave on one of the days after.
  entering-Exits :
      (day : ℕ) (days : List ℕ) (cs : List (HistoricalCandidate F))
      → All IsForward cs
      → All (Exits (IsAhead (day ∷ days))) cs
      → All (Exits (λ x. elem x days ≡ true)) (select (λ c. entry_of c == day) cs)
  entering-Exits day days [] f h = tt
  entering-Exits day days (c ∷ cs) f h = elim (Bool-cases (entry_of c == day)) [
    | inl e ↦ rw e (
      later_exits day days c c.outcomes (ground arith) f.0 h.0,
      entering-Exits day days cs f.1 h.1,
    )
    | inr e ↦ rw e (entering-Exits day days cs f.1 h.1)
  ]

  module _ (production : Production F) where
    enter_batch-Leaves :
        (days : List ℕ) (batch : List (HistoricalCandidate F)) (day : ℕ) (b after : Book F)
        → All (Exits (λ x. elem x days ≡ true)) batch
        → enter_batch settings production day b batch ≡ ok after
        → All (Leaves days) b.positions
        → All (Leaves days) after.positions
    enter_batch-Leaves days [] day b after m h l =
        subst (λ (b : Book F). All (Leaves days) b.positions) (ok-injective h) l
    enter_batch-Leaves days (c ∷ batch) day b after m h l =
        let (portfolio, seen, rest) =
          >>=-eq-ok (portfolio_snapshot production day (equity_of settings b) b.cash b.positions) _
            h in
        let (allocations, decided, last) =
          >>=-eq-ok (decide settings production (c ∷ batch) portfolio) _ rest in
        place_each-Leaves days (c ∷ batch) (equity_of settings b) b after allocations m last l

    trade_days-Leaves :
        (cs : List (HistoricalCandidate F)) (days : List ℕ) (b after : Book F)
        → Nodup (keys historical_key cs)
        → All IsForward cs
        → Ascending days
        → All (Exits (IsAhead days)) cs
        → trade_days settings production cs b days ≡ ok after
        → IsKept cs b
        → All (Leaves days) b.positions
        → All (Leaves []) after.positions
    unfolding trade_days trade_day
    trade_days-Leaves cs [] b after n f up ahead h k l =
        subst (λ (b : Book F). All (Leaves []) b.positions) (ok-injective h) l
    trade_days-Leaves cs (day ∷ days) b after n f up ahead h k l =
        let (next, now, rest) = >>=-eq-ok (trade_day settings production cs b day) _ h in
        trade_days-Leaves cs days next after n f up.1
          (All-map cs
            (λ c. All-map c.outcomes (λ entry. IsAhead-later day days entry.1.exit_date up.0))
            ahead)
          rest (trade_day-IsKept settings production cs day b next n now k)
          (enter_batch-Leaves days (select (λ c. entry_of c == day) cs) day
            (mark settings (close_due settings day b)) next (entering-Exits day days cs f ahead) now
            (close_due-Leaves day days b k.companies l))

    none_left : (ps : List (HistoricalPosition F)) → All (Leaves []) ps → ps ≡ []
    none_left [] h = refl
    none_left (p ∷ ps) h = let m = h.0 in cc

    finish_closed :
        (b : Book F) (ps : List (HistoricalPosition F))
        → ps ≡ []
        → finish settings b ps ≡ ok (result_of settings b)
    finish_closed b [] e = refl
    finish_closed b (p ∷ ps) e = cc

    -- When the candidates have different identities and each of their outcomes leaves after the day of
    -- its entry, a backtest whose rounds all pass returns a result: no position is left open.
    pub run_closes :
        (cs : List (HistoricalCandidate F)) (book : Book F)
        → Nodup (keys historical_key cs)
        → All IsForward cs
        → trade_days settings production cs (opening settings) (all_dates cs) ≡ ok book
        → run settings production cs ≡ ok (result_of settings book)
    unfolding run all_dates
    run_closes cs book n f h =
        let passed = (has_duplicates_iff (map historical_key cs)).1 n in
        rw (passed, h)
          (finish_closed book book.positions (
            none_left book.positions (
              trade_days-Leaves cs (all_dates cs) (opening settings) book n f
                (sorted_set-Ascending (days_of cs)) (Exits-IsAhead cs) h
                (opening-IsKept settings production cs) tt)))
