-- ===== src/Backtest/Tranche/Capped.antt =====
-- The limits of `FixedAllocationTrancheBacktester` (src/stock_trading/backtest/portfolio.py).
use stock_traiding.Base.{
  ℕ, ◌+◌, ◌≤◌, ◌≡◌, refl, false, List, [], ◌∷◌, Float, length, select, leb, ◌==◌, ◌≼◌, decimal,
  if◌then◌else◌, Bool-cases, inl, inr, arith,
}
use stock_traiding.Base.Dict.{put, pop, lookup-put}
use stock_traiding.Base.Sort.{sorted}
use stock_traiding.Engine.Contracts.{Identity}
use stock_traiding.Backtest.Contracts.{
  BacktestConfig, ScoredCandidate, is_due, exits_before, passes_signal, ranks_before,
}
use stock_traiding.Backtest.Fixed.{entering}
use stock_traiding.Backtest.Tranche.{
  PositionKey, Tranche, TrancheAccount, CompanyCount, counted_company, count_of, bump, key_of,
  tranche_company, count_positions, opening, close_tranche, close_each, close_due, mark,
  capital_for, open_tranche, enter, enter_each, start_day, trade_day, trade_days, Day,
}

count-bump :
    (c company : Identity) (counts : List CompanyCount)
    → count_of c (bump company counts)
      ≡ (if c == company then count_of company counts + 1 else count_of c counts)
count-bump c company counts =
    let made : CompanyCount = record { company = company; count = count_of company counts + 1 } in
    elim (Bool-cases (c == company)) [
      | inl e ↦ rw (lookup-put counted_company c made counts, e) refl
      | inr e ↦ rw (lookup-put counted_company c made counts, e) refl
    ]

module _ {F : Type 0} where
  -- How many tranches a company has
  abbrev pub tranches_of : Identity → List (Tranche F) → ℕ
  tranches_of company ts = length (select (λ t. tranche_company t == company) ts)

  count-positions :
      (c : Identity) (counts : List CompanyCount) (ts : List (Tranche F))
      → count_of c (count_positions counts ts) ≡ count_of c counts + tranches_of c ts
  count-positions c counts [] = omega arith
  count-positions c counts (t ∷ ts) = ground (
    arith,
    count-positions c (bump (tranche_company t) counts) ts,
    count-bump c (tranche_company t) counts,
  )

  tranches-put :
      (c : Identity) (x : Tranche F) (ts : List (Tranche F))
      → tranches_of c (put key_of x ts)
        ≤ tranches_of c ts + (if c == tranche_company x then 1 else 0)
  tranches-put c x [] = ground arith
  tranches-put c x (t ∷ ts) = ground (arith, tranches-put c x ts)

  length-put : (x : Tranche F) (ts : List (Tranche F)) → length (put key_of x ts) ≤ length ts + 1
  length-put x [] = omega arith
  length-put x (t ∷ ts) = ground (arith, length-put x ts)

  tranches-pop :
      (c k : Identity) (ts : List (Tranche F)) → tranches_of c (pop key_of k ts) ≤ tranches_of c ts
  tranches-pop c k [] = omega arith
  tranches-pop c k (t ∷ ts) = ground (arith, tranches-pop c k ts)

  length-pop : (k : Identity) (ts : List (Tranche F)) → length (pop key_of k ts) ≤ length ts
  length-pop k [] = omega arith
  length-pop k (t ∷ ts) = ground (arith, length-pop k ts)

module _ {F : Type 0} ⦃fl : Float F⦄ (config : BacktestConfig F) (max_company_tranches : ℕ) where
  -- No more positions than slots, and no more tranches of a company than its limit
  pub record IsCapped (a : TrancheAccount F) : Type 0 where
    pub slots : length a.positions ≤ config.max_open_positions
    pub tranches : (c : Identity) → tranches_of c a.positions ≤ max_company_tranches

  -- During a day, the counts bound the tranches and keep to the limit.
  record IsTallied (counts : List CompanyCount) (a : TrancheAccount F) : Type 0 where
    pub slots : length a.positions ≤ config.max_open_positions
    pub bound : (c : Identity) → tranches_of c a.positions ≤ count_of c counts
    pub limit : (c : Identity) → count_of c counts ≤ max_company_tranches

  close_each-IsCapped :
      (a : TrancheAccount F) (ts : List (Tranche F))
      → IsCapped a
      → IsCapped (close_each config a ts)
  close_each-IsCapped a [] w = w
  close_each-IsCapped a (t ∷ ts) w = close_each-IsCapped (close_tranche config a t) ts (record {
    slots = let fits = w.slots in omega (arith, length-pop t.key a.positions);
    tranches = λ c. omega (arith, w.tranches c, tranches-pop c t.key a.positions);
  })

  close_due-IsCapped :
      (day : ℕ) (a : TrancheAccount F) → IsCapped a → IsCapped (close_due config day a)
  unfolding close_due
  close_due-IsCapped day a w =
      close_each-IsCapped a
        (sorted (λ s t. exits_before s.position t.position)
          (select (λ t. is_due day t.position) a.positions))
        w

  mark-IsTallied :
      (a : TrancheAccount F)
      → IsCapped a
      → IsTallied (count_positions [] a.positions) (mark config a)
  unfolding mark
  mark-IsTallied a w = record {
    slots = w.slots;
    bound = λ c. omega (arith, count-positions c [] a.positions);
    limit = λ c. omega (arith, count-positions c [] a.positions, w.tranches c);
  }

  module _ (position_key : PositionKey) where
    opened-IsTallied :
        (counts : List CompanyCount) (a : TrancheAccount F) (c : ScoredCandidate F) (capital : F)
        → leb max_company_tranches (count_of c.row.company_id counts) ≡ false
        → leb config.max_open_positions (length a.positions) ≡ false
        → IsTallied counts a
        → IsTallied
            (bump c.row.company_id counts)
            (open_tranche config max_company_tranches position_key a c capital)
    opened-IsTallied counts a c capital below room w =
        let made : Tranche F = record {
          key =
              position_key c.row.company_id c.row.event_id c.row.execution_date
                (length a.positions);
          position = record { candidate = c; capital = capital };
        } in
        record {
          slots = ground (arith, length-put made a.positions, room);
          bound = λ d. ground (
            arith,
            tranches-put d made a.positions,
            count-bump d c.row.company_id counts,
            w.bound d,
          );
          limit = λ d. ground (arith, count-bump d c.row.company_id counts, w.limit d, below);
        }

    entered-IsTallied :
        (d : Day F) (c : ScoredCandidate F)
        → IsTallied d.0 d.1
        → (let after = enter config max_company_tranches position_key d c in
            IsTallied after.0 after.1)
    unfolding enter
    entered-IsTallied (counts, a) c w = elim (Bool-cases (passes_signal config c.prediction)) [
      | inr signal ↦ rw signal (record { slots = w.slots; bound = w.bound; limit = w.limit })
      | inl signal ↦
          elim (Bool-cases (leb max_company_tranches (count_of c.row.company_id counts))) [
            | inl over ↦
                rw (signal, over) (record { slots = w.slots; bound = w.bound; limit = w.limit })
            | inr below ↦ elim (Bool-cases (leb config.max_open_positions (length a.positions))) [
              | inl full ↦
                  rw (signal, below, full)
                    (record { slots = w.slots; bound = w.bound; limit = w.limit })
              | inr room ↦ elim (Bool-cases (capital_for config a ≼ decimal 0 0)) [
                | inl broke ↦
                    rw (signal, below, room, broke)
                      (record { slots = w.slots; bound = w.bound; limit = w.limit })
                | inr funded ↦
                    rw (signal, below, room, funded)
                      (opened-IsTallied counts a c (capital_for config a) below room w)
              ]
            ]
          ]
    ]

    enter_each-IsTallied :
        (d : Day F) (cs : List (ScoredCandidate F))
        → IsTallied d.0 d.1
        → (let after = enter_each config max_company_tranches position_key d cs in
            IsTallied after.0 after.1)
    unfolding enter_each
    enter_each-IsTallied d [] w = w
    enter_each-IsTallied d (c ∷ cs) w =
        enter_each-IsTallied (enter config max_company_tranches position_key d c) cs
          (entered-IsTallied d c w)

    trade_day-IsCapped :
        (cs : List (ScoredCandidate F)) (a : TrancheAccount F) (day : ℕ)
        → IsCapped a
        → IsCapped (trade_day config max_company_tranches position_key cs a day)
    unfolding trade_day mark
    trade_day-IsCapped cs a day w =
        let closed = close_due config day a in
        let done =
          enter_each-IsTallied (start_day (mark config closed))
            (sorted ranks_before (entering day cs))
            (mark-IsTallied closed (close_due-IsCapped day a w)) in
        record { slots = done.slots; tranches = λ c. omega (arith, done.bound c, done.limit c) }

    trade_days_from :
        (cs : List (ScoredCandidate F)) (a : TrancheAccount F) (days : List ℕ)
        → IsCapped a
        → IsCapped (trade_days config max_company_tranches position_key cs a days)
    unfolding trade_days
    trade_days_from cs a [] w = w
    trade_days_from cs a (day ∷ days) w =
        trade_days_from cs (trade_day config max_company_tranches position_key cs a day) days
          (trade_day-IsCapped cs a day w)

    -- After any days of the tranche backtest, no more positions are open than the configuration has
    -- slots, and no company has more tranches than the limit, whatever the keys of the positions are.
    pub trade_days-IsCapped :
        (cs : List (ScoredCandidate F)) (days : List ℕ)
        → IsCapped (trade_days config max_company_tranches position_key cs (opening config) days)
    trade_days-IsCapped cs days =
        trade_days_from cs (opening config) days
          (record { slots = omega arith; tranches = λ c. omega arith })
