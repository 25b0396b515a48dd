-- ===== src/Backtest/Fixed/Closed.antt =====
-- Why `FixedAllocationBacktester.run` (src/stock_trading/backtest/portfolio.py) returns.
use stock_traiding.Base.{
  ℕ, ◌<◌, ◌≡◌, inl, inr, refl, sym, ◌∙◌, subst, true, not, List, [], ◌∷◌, ◌++◌, map, Float, All,
  elem, elem-append, select, Nodup, arith, ok, Bool-cases, ◌==◌,
}
use stock_traiding.Base.Dict.{keys, All-put}
use stock_traiding.Base.Sort.{sorted, All-sorted}
use stock_traiding.Base.Removal.{All-select, select-All}
use stock_traiding.Backtest.Contracts.{
  BacktestConfig, ScoredCandidate, OpenPosition, BacktestResult, company_of, is_due, ranks_before,
  entry_of, exit_of, build_result,
}
use stock_traiding.Backtest.Dates.{
  IsAhead, IsAhead-later, still_ahead, Ascending, sorted_set-Ascending, elem-sorted_set,
}
use stock_traiding.Backtest.Fixed.{
  Account, all_dates, entering, opening, close_due, mark, enter, enter_each, trade_day, trade_days,
  finish_with, finish, run,
}
use stock_traiding.Backtest.Fixed.Slots.{
  IsEntered, IsEntered.turned_away, IsEntered.opened, enter-IsEntered, IsWithin,
  close_due_positions, trade_day-IsWithin, opening-IsWithin,
}

module _ {F : Type 0} ⦃fl : Float F⦄ (config : BacktestConfig F) where
  -- The candidate leaves after its entry.
  abbrev pub IsForward : ScoredCandidate F → Type 0
  IsForward c = entry_of c < exit_of c

  -- The position leaves on one of the days to come.
  abbrev Leaves : List ℕ → OpenPosition F → Type 0
  Leaves days p = elem (exit_of p.candidate) days ≡ true

  kept_leave :
      (day : ℕ) (days : List ℕ) (ps : List (OpenPosition F))
      → All (Leaves (day ∷ days)) ps
      → All (λ p. not (is_due day p) ≡ true) ps
      → All (Leaves days) ps
  kept_leave day days [] h k = tt
  kept_leave day days (p ∷ ps) h k =
      (let m = h.0 in let late = k.0 in ground arith, kept_leave day days ps h.1 k.1)

  close_due-Leaves :
      (day : ℕ) (days : List ℕ) (a : Account F)
      → Nodup (keys company_of a.positions)
      → All (Leaves (day ∷ days)) a.positions
      → All (Leaves days) (close_due config day a).positions
  close_due-Leaves day days a n h =
      subst (All (Leaves days)) (sym (close_due_positions config day a n)) (
        kept_leave day days (select (λ p. not (is_due day p)) a.positions)
          (All-select (Leaves (day ∷ days)) (λ p. not (is_due day p)) a.positions h)
          (select-All (λ p. not (is_due day p)) a.positions))

  entered-Leaves :
      (days : List ℕ) (a : Account F) (c : ScoredCandidate F) (after : Account F)
      → IsEntered config a c after
      → elem (exit_of c) days ≡ true
      → All (Leaves days) a.positions
      → All (Leaves days) after.positions
  entered-Leaves days a c after (turned_away ps ts n) m h = subst (All (Leaves days)) (sym ps) h
  entered-Leaves days a c after (opened capital free room ps ts n) m h =
      subst (All (Leaves days)) (sym ps) (
        All-put company_of (Leaves days) (record { candidate = c; capital = capital }) a.positions m
          h)

  enter_each-Leaves :
      (days : List ℕ) (a : Account F) (cs : List (ScoredCandidate F))
      → All (λ c. elem (exit_of c) days ≡ true) cs
      → All (Leaves days) a.positions
      → All (Leaves days) (enter_each config a cs).positions
  unfolding enter_each
  enter_each-Leaves days a [] m h = h
  enter_each-Leaves days a (c ∷ cs) m h =
      enter_each-Leaves days (enter config a c) cs m.1
        (entered-Leaves days a c (enter config a c) (enter-IsEntered config a c) m.0 h)

  entering_leave :
      (day : ℕ) (days : List ℕ) (cs : List (ScoredCandidate F))
      → All IsForward cs
      → All (λ c. IsAhead (day ∷ days) (exit_of c)) cs
      → All (λ c. elem (exit_of c) days ≡ true) (entering day cs)
  entering_leave day days [] f h = tt
  entering_leave day days (c ∷ cs) f h = elim (Bool-cases (entry_of c == day)) [
    | inl e ↦
        let forward = f.0 in
        rw e
          (still_ahead day days (exit_of c) (ground arith) h.0, entering_leave day days cs f.1 h.1)
    | inr e ↦ rw e (entering_leave day days cs f.1 h.1)
  ]

  trade_day-Leaves :
      (day : ℕ) (days : List ℕ) (cs : List (ScoredCandidate F)) (a : Account F)
      → Nodup (keys company_of a.positions)
      → All IsForward cs
      → All (λ c. IsAhead (day ∷ days) (exit_of c)) cs
      → All (Leaves (day ∷ days)) a.positions
      → All (Leaves days) (trade_day config cs a day).positions
  unfolding trade_day mark
  trade_day-Leaves day days cs a n f ahead h =
      enter_each-Leaves days (mark config (close_due config day a))
        (sorted ranks_before (entering day cs))
        (All-sorted ranks_before (λ c. elem (exit_of c) days ≡ true) (entering day cs)
          (entering_leave day days cs f ahead))
        (close_due-Leaves day days a n h)

  all_later :
      (day : ℕ) (days : List ℕ) (cs : List (ScoredCandidate F))
      → All (λ d. day < d) days
      → All (λ c. IsAhead (day ∷ days) (exit_of c)) cs
      → All (λ c. IsAhead days (exit_of c)) cs
  all_later day days [] up h = tt
  all_later day days (c ∷ cs) up h =
      (IsAhead-later day days (exit_of c) up h.0, all_later day days cs up h.1)

  trade_days-Leaves :
      (days : List ℕ) (cs : List (ScoredCandidate F)) (a : Account F)
      → Ascending days
      → IsWithin config a
      → All IsForward cs
      → All (λ c. IsAhead days (exit_of c)) cs
      → All (Leaves days) a.positions
      → All (Leaves []) (trade_days config cs a days).positions
  unfolding trade_days
  trade_days-Leaves [] cs a up w f ahead h = h
  trade_days-Leaves (day ∷ days) cs a up w f ahead h =
      trade_days-Leaves days cs (trade_day config cs a day) up.1
        (trade_day-IsWithin config cs a day w) f (all_later day days cs up.0 ahead)
        (trade_day-Leaves day days cs a w.companies f ahead h)

  none_left : (ps : List (OpenPosition F)) → All (Leaves []) ps → ps ≡ []
  none_left [] h = refl
  none_left (p ∷ ps) h = let m = h.0 in cc

  exits-IsAhead :
      (cs ds : List (ScoredCandidate F))
      → ((x : ℕ) → elem x (map exit_of ds) ≡ true → elem x (map exit_of cs) ≡ true)
      → All (λ c. IsAhead (all_dates cs) (exit_of c)) ds
  unfolding all_dates
  exits-IsAhead cs [] f = tt
  exits-IsAhead cs (c ∷ ds) f = (
    inl (
        elem-sorted_set (exit_of c) (map entry_of cs ++ map exit_of cs)
        ∙ ground (
          arith,
          elem-append (exit_of c) (map entry_of cs) (map exit_of cs),
          f (exit_of c) (ground arith),
        )),
    exits-IsAhead cs ds (λ x m. f x (ground arith)),
  )

  finish_closed :
      (a : Account F) (ps : List (OpenPosition F))
      → ps ≡ []
      → (r : BacktestResult F) × (finish_with config a ps ≡ ok r)
  finish_closed a [] e =
      (build_result config a.trades a.cash a.drawdown a.by_signal a.duplicate a.capacity, refl)
  finish_closed a (p ∷ ps) e = cc

  -- When every candidate leaves after the day of its entry, the backtest returns a result: every
  -- position that it opens is closed by the last date.
  pub run_returns :
      (cs : List (ScoredCandidate F))
      → All IsForward cs
      → (r : BacktestResult F) × (run config cs ≡ ok r)
  unfolding run finish all_dates
  run_returns cs f =
      finish_closed (trade_days config cs (opening config) (all_dates cs))
        (trade_days config cs (opening config) (all_dates cs)).positions
        (none_left (trade_days config cs (opening config) (all_dates cs)).positions (
          trade_days-Leaves (all_dates cs) cs (opening config)
            (sorted_set-Ascending (map entry_of cs ++ map exit_of cs)) (opening-IsWithin config) f
            (exits-IsAhead cs cs (λ x m. m)) tt))
