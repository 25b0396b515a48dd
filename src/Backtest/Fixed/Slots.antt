-- ===== src/Backtest/Fixed/Slots.antt =====
-- The slots of `FixedAllocationBacktester` (src/stock_trading/backtest/portfolio.py).
use stock_traiding.Base.{
  ℕ, suc, ◌+◌, ◌≤◌, ◌≡◌, refl, sym, ap, ◌∙◌, subst, false, not, List, [], ◌∷◌, map, Float, Nodup,
  length, select, leb, Bool-cases, inl, inr, arith, ◌≼◌, decimal, length-append,
}
use stock_traiding.Base.Dict.{keys, has, put, put_new, has-eq-elem, Nodup-put}
use stock_traiding.Base.Sort.{sorted}
use stock_traiding.Base.Removal.{pop_all, pop_all_found, Nodup-select, length-select}
use stock_traiding.Backtest.Contracts.{
  BacktestConfig, ScoredCandidate, OpenPosition, company_of, is_due, exits_before, passes_signal,
  ranks_before,
}
use stock_traiding.Backtest.Fixed.{
  Account, entering, opening, close_position, close_each, close_due, mark, capital_for, enter,
  enter_each, trade_day, trade_days,
}

module _ {F : Type 0} ⦃fl : Float F⦄ (config : BacktestConfig F) where
  close_each_positions :
      (a : Account F) (ps : List (OpenPosition F))
      → (close_each config a ps).positions ≡ pop_all company_of (map company_of ps) a.positions
  close_each_positions a [] = refl
  close_each_positions a (p ∷ ps) = close_each_positions (close_position config a p) ps

  -- Closing keeps just the positions that are not due.
  pub close_due_positions :
      (day : ℕ) (a : Account F)
      → Nodup (keys company_of a.positions)
      → (close_due config day a).positions ≡ select (λ p. not (is_due day p)) a.positions
  unfolding close_due
  close_due_positions day a h =
      close_each_positions a (sorted exits_before (select (is_due day) a.positions))
      ∙ pop_all_found company_of exits_before (is_due day) a.positions h

  -- One position at most for each company, and no more positions than slots.
  pub record IsWithin (a : Account F) : Type 0 where
    pub companies : Nodup (keys company_of a.positions)
    pub slots : length a.positions ≤ config.max_open_positions

  close_due-IsWithin : (day : ℕ) (a : Account F) → IsWithin a → IsWithin (close_due config day a)
  close_due-IsWithin day a w =
      let kept = close_due_positions day a w.companies in
      record {
        companies =
            subst (λ ps. Nodup (keys company_of ps)) (sym kept)
              (Nodup-select company_of (λ p. not (is_due day p)) a.positions w.companies);
        slots =
            let fits = w.slots in
            omega (arith, ap length kept, length-select (is_due day) a.positions);
      }

  mark-IsWithin : (a : Account F) → IsWithin a → IsWithin (mark config a)
  unfolding mark
  mark-IsWithin a w = record { companies = w.companies; slots = w.slots }

  pub length-put :
      (p : OpenPosition F) (ps : List (OpenPosition F))
      → has company_of (company_of p) ps ≡ false
      → length (put company_of p ps) ≡ suc (length ps)
  length-put p ps h =
      ap length (put_new company_of p ps (sym (has-eq-elem company_of (company_of p) ps) ∙ h))
      ∙ length-append ps (p ∷ [])
      ∙ omega arith

  -- The candidates that were turned away
  abbrev pub rejected : Account F → ℕ
  rejected a = a.by_signal + a.duplicate + a.capacity

  -- What `enter` has done: it has counted a rejection and left the rest, or opened a position in a
  -- free slot for a company that had none.
  pub data IsEntered (a : Account F) (c : ScoredCandidate F) (after : Account F) : Type 0 where
    turned_away :
        after.positions ≡ a.positions
        → after.trades ≡ a.trades
        → rejected after ≡ rejected a + 1
        → IsEntered a c after
    opened :
        (capital : F)
        → has company_of c.row.company_id a.positions ≡ false
        → leb config.max_open_positions (length a.positions) ≡ false
        → after.positions ≡ put company_of (record { candidate = c; capital = capital }) a.positions
        → after.trades ≡ a.trades
        → rejected after ≡ rejected a
        → IsEntered a c after

  pub enter-IsEntered : (a : Account F) (c : ScoredCandidate F) → IsEntered a c (enter config a c)
  unfolding enter
  enter-IsEntered a c = elim (Bool-cases (passes_signal config c.prediction)) [
    | inr signal ↦ rw signal (turned_away refl refl (omega arith))
    | inl signal ↦ elim (Bool-cases (has company_of c.row.company_id a.positions)) [
      | inl held ↦ rw (signal, held) (turned_away refl refl (omega arith))
      | inr held ↦ elim (Bool-cases (leb config.max_open_positions (length a.positions))) [
        | inl full ↦ rw (signal, held, full) (turned_away refl refl (omega arith))
        | inr full ↦ elim (Bool-cases (capital_for config a ≼ decimal 0 0)) [
          | inl broke ↦ rw (signal, held, full, broke) (turned_away refl refl (omega arith))
          | inr broke ↦
              rw (signal, held, full, broke)
                (opened (capital_for config a) held full refl refl refl)
        ]
      ]
    ]
  ]

  entered-IsWithin :
      (a : Account F) (c : ScoredCandidate F) (after : Account F)
      → IsEntered a c after
      → IsWithin a
      → IsWithin after
  entered-IsWithin a c after (turned_away ps ts n) w = record {
    companies = subst (λ ps. Nodup (keys company_of ps)) (sym ps) w.companies;
    slots = let fits = w.slots in omega (arith, ap length ps);
  }
  entered-IsWithin a c after (opened capital free room ps ts n) w =
      let made : OpenPosition F = record { candidate = c; capital = capital } in
      record {
        companies =
            subst (λ ps. Nodup (keys company_of ps)) (sym ps)
              (Nodup-put company_of made a.positions w.companies);
        slots = ground (arith, ap length ps, length-put made a.positions free, room);
      }

  enter-IsWithin :
      (a : Account F) (c : ScoredCandidate F) → IsWithin a → IsWithin (enter config a c)
  enter-IsWithin a c w = entered-IsWithin a c (enter config a c) (enter-IsEntered a c) w

  pub enter_each-IsWithin :
      (a : Account F) (cs : List (ScoredCandidate F))
      → IsWithin a
      → IsWithin (enter_each config a cs)
  unfolding enter_each
  enter_each-IsWithin a [] w = w
  enter_each-IsWithin a (c ∷ cs) w =
      enter_each-IsWithin (enter config a c) cs (enter-IsWithin a c w)

  pub trade_day-IsWithin :
      (cs : List (ScoredCandidate F)) (a : Account F) (day : ℕ)
      → IsWithin a
      → IsWithin (trade_day config cs a day)
  unfolding trade_day
  trade_day-IsWithin cs a day w =
      enter_each-IsWithin (mark config (close_due config day a))
        (sorted ranks_before (entering day cs))
        (mark-IsWithin (close_due config day a) (close_due-IsWithin day a w))

  trade_days_from :
      (cs : List (ScoredCandidate F)) (a : Account F) (days : List ℕ)
      → IsWithin a
      → IsWithin (trade_days config cs a days)
  unfolding trade_days
  trade_days_from cs a [] w = w
  trade_days_from cs a (day ∷ days) w =
      trade_days_from cs (trade_day config cs a day) days (trade_day-IsWithin cs a day w)

  pub opening-IsWithin : IsWithin (opening config)
  opening-IsWithin = record { companies = tt; slots = omega arith }

  -- After any days of trading, no company has two open positions, and no more positions are open
  -- than the configuration has slots.
  pub trade_days-IsWithin :
      (cs : List (ScoredCandidate F)) (days : List ℕ)
      → IsWithin (trade_days config cs (opening config) days)
  trade_days-IsWithin cs days = trade_days_from cs (opening config) days opening-IsWithin
