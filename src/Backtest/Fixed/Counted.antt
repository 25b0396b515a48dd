-- ===== src/Backtest/Fixed/Counted.antt =====
-- What `FixedAllocationBacktester` (src/stock_trading/backtest/portfolio.py) does with each candidate.
use stock_traiding.Base.{
  ℕ, ◌+◌, ◌≡◌, refl, sym, ap, ◌∙◌, Bool, true, ◌==◌, List, [], ◌∷◌, ◌++◌, map, Float, All, elem,
  elem-append, length, select, Nodup, arith, ok, ok-injective,
}
use stock_traiding.Base.Dict.{keys, put_new, has-eq-elem}
use stock_traiding.Base.Occurrences.{
  occurs, occurs-append, occurs-select, occurs_either_way, occurs-sorted,
}
use mathlib.Core.List.{append_assoc, append-nil}
use stock_traiding.Base.Sort.{sorted}
use stock_traiding.Base.Removal.{All-select}
use stock_traiding.Backtest.Contracts.{
  BacktestConfig, ScoredCandidate, OpenPosition, BacktestResult, company_of, is_due, exits_before,
  ranks_before, entry_of, exit_of, trade_of, build_result,
}
use stock_traiding.Backtest.Dates.{
  visited, visited-eq-length, sorted_set-Ascending, Ascending-Nodup, elem-sorted_set,
}
use stock_traiding.Backtest.Fixed.{
  Account, all_dates, entering, opening, close_position, close_each, close_due, mark, enter,
  enter_each, trade_day, trade_days, finish_with, finish, run,
}
use stock_traiding.Backtest.Fixed.Slots.{
  rejected, IsEntered, IsEntered.turned_away, IsEntered.opened, enter-IsEntered, IsWithin,
  close_due_positions, trade_day-IsWithin, opening-IsWithin,
}

map-append : {A B : Type 0} (f : A → B) (xs ys : List A) → map f (xs ++ ys) ≡ map f xs ++ map f ys
map-append f [] ys = refl
map-append f (x ∷ xs) ys = ap (◌∷◌ (f x)) (map-append f xs ys)

module _ {F : Type 0} ⦃fl : Float F⦄ (config : BacktestConfig F) where
  abbrev Test : Type 0
  Test = ScoredCandidate F → Bool

  abbrev pub of_position : (ScoredCandidate F → Bool) → OpenPosition F → Bool
  of_position t p = t p.candidate

  -- What an account has done with the candidates, of which `n` says how many of each kind there have
  -- been: each is that of a position that has been closed and booked as its own trade, or of one that
  -- is open, or was turned away.
  record IsDealt (n : Test → ℕ) (a : Account F) : Type 0 where
    closed : List (OpenPosition F)
    refused : List (ScoredCandidate F)
    traded : a.trades ≡ map (trade_of config) closed
    counted : length refused ≡ rejected config a
    dealt :
        (t : Test)
        → occurs (of_position t) closed + occurs (of_position t) a.positions + occurs t refused
          ≡ n t

  recounted :
      (n m : Test → ℕ) (a : Account F) → ((t : Test) → n t ≡ m t) → IsDealt n a → IsDealt m a
  recounted n m a same d = record {
    closed = d.closed;
    refused = d.refused;
    traded = d.traded;
    counted = d.counted;
    dealt = λ t. d.dealt t ∙ same t;
  }

  entered-IsDealt :
      (n : Test → ℕ) (a : Account F) (c : ScoredCandidate F) (after : Account F)
      → IsEntered config a c after
      → IsDealt n a
      → IsDealt (λ t. n t + occurs t (c ∷ [])) after
  entered-IsDealt n a c after (turned_away ps ts r) d = record {
    closed = d.closed;
    refused = c ∷ d.refused;
    traded = ts ∙ d.traded;
    counted = omega (arith, d.counted);
    dealt = λ t.
        let held = ap (occurs (of_position t)) ps in
        ground (arith, d.dealt t, held, occurs-append t (c ∷ []) d.refused);
  }
  entered-IsDealt n a c after (opened capital free room ps ts r) d =
      let made : OpenPosition F = record { candidate = c; capital = capital } in
      let there =
        ps
        ∙ put_new company_of made a.positions
            (sym (has-eq-elem company_of (company_of made) a.positions) ∙ free) in
      record {
        closed = d.closed;
        refused = d.refused;
        traded = ts ∙ d.traded;
        counted = d.counted ∙ sym r;
        dealt = λ t.
            let held =
              ap (occurs (of_position t)) there
              ∙ occurs-append (of_position t) a.positions (made ∷ []) in
            ground (arith, d.dealt t, held);
      }

  enter_each-IsDealt :
      (n : Test → ℕ) (a : Account F) (cs : List (ScoredCandidate F))
      → IsDealt n a
      → IsDealt (λ t. n t + occurs t cs) (enter_each config a cs)
  unfolding enter_each
  enter_each-IsDealt n a [] d = recounted n (λ t. n t + 0) a (λ t. omega arith) d
  enter_each-IsDealt n a (c ∷ cs) d =
      recounted (λ t. n t + occurs t (c ∷ []) + occurs t cs) (λ t. n t + occurs t (c ∷ cs))
        (enter_each config (enter config a c) cs) (λ t. omega (arith, occurs-append t (c ∷ []) cs))
        (enter_each-IsDealt (λ t. n t + occurs t (c ∷ [])) (enter config a c) cs
          (entered-IsDealt n a c (enter config a c) (enter-IsEntered config a c) d))

  close_each-trades :
      (a : Account F) (ps : List (OpenPosition F))
      → ((close_each config a ps).trades ≡ a.trades ++ map (trade_of config) ps)
        × (rejected config (close_each config a ps) ≡ rejected config a)
  close_each-trades a [] = (sym (append-nil a.trades), refl)
  close_each-trades a (p ∷ ps) =
      let (more, same) = close_each-trades (close_position config a p) ps in
      (more ∙ append_assoc a.trades (trade_of config p ∷ []) (map (trade_of config) ps), same)

  close_due-IsDealt :
      (n : Test → ℕ) (day : ℕ) (a : Account F)
      → Nodup (keys company_of a.positions)
      → IsDealt n a
      → IsDealt n (close_due config day a)
  unfolding close_due
  close_due-IsDealt n day a h d =
      let due = select (is_due day) a.positions in
      let leaving = sorted exits_before due in
      let kept = close_due_positions config day a h in
      let (more, same) = close_each-trades a leaving in
      record {
        closed = d.closed ++ leaving;
        refused = d.refused;
        traded =
            more
            ∙ ap (λ ts. ts ++ map (trade_of config) leaving) d.traded
            ∙ sym (map-append (trade_of config) d.closed leaving);
        counted = d.counted ∙ sym same;
        dealt = λ t.
            let test = of_position t in
            let gone = occurs-append test d.closed leaving in
            let moved = occurs-sorted test exits_before due in
            let left = ap (occurs test) kept in
            let split = occurs-select test (is_due day) a.positions in omega (arith, d.dealt t);
      }

  trade_day-IsDealt :
      (n : Test → ℕ) (cs : List (ScoredCandidate F)) (a : Account F) (day : ℕ)
      → Nodup (keys company_of a.positions)
      → IsDealt n a
      → IsDealt (λ t. n t + occurs t (entering day cs)) (trade_day config cs a day)
  unfolding trade_day mark
  trade_day-IsDealt n cs a day h d =
      let best_first = sorted ranks_before (entering day cs) in
      let before = mark config (close_due config day a) in
      let closed = close_due-IsDealt n day a h d in
      let marked : IsDealt n before = record {
        closed = closed.closed;
        refused = closed.refused;
        traded = closed.traded;
        counted = closed.counted;
        dealt = closed.dealt;
      } in
      recounted (λ t. n t + occurs t best_first) (λ t. n t + occurs t (entering day cs))
        (enter_each config before best_first)
        (λ t. omega (arith, occurs-sorted t ranks_before (entering day cs)))
        (enter_each-IsDealt n before best_first marked)

  trade_days-IsDealt :
      (n : Test → ℕ) (cs : List (ScoredCandidate F)) (a : Account F) (days : List ℕ)
      → IsWithin config a
      → IsDealt n a
      → IsDealt (λ t. n t + visited entry_of days (select t cs)) (trade_days config cs a days)
  unfolding trade_days
  trade_days-IsDealt n cs a [] w d = recounted n (λ t. n t + 0) a (λ t. omega arith) d
  trade_days-IsDealt n cs a (day ∷ days) w d =
      let today = λ (t : Test). n t + occurs t (entering day cs) in
      recounted (λ t. today t + visited entry_of days (select t cs))
        (λ t. n t + visited entry_of (day ∷ days) (select t cs))
        (trade_days config cs (trade_day config cs a day) days)
        (λ t. omega (arith, occurs_either_way t (λ c. entry_of c == day) cs))
        (trade_days-IsDealt today cs (trade_day config cs a day) days
          (trade_day-IsWithin config cs a day w) (trade_day-IsDealt n cs a day w.companies d))

  finish_with-cases :
      (a : Account F) (ps : List (OpenPosition F)) (r : BacktestResult F)
      → finish_with config a ps ≡ ok r
      → (ps ≡ [])
        × (r.trades ≡ a.trades)
        × (r.rejected_by_signal + r.rejected_duplicate_company + r.rejected_capacity
            ≡ rejected config a)
  unfolding build_result
  finish_with-cases a [] r h = let e = sym (ok-injective h) in (refl, rw e refl, rw e refl)
  finish_with-cases a (p ∷ ps) r h = cc

  entries_listed :
      (cs ds : List (ScoredCandidate F))
      → All (λ c. elem (entry_of c) (map entry_of cs) ≡ true) ds
      → All (λ c. elem (entry_of c) (all_dates cs) ≡ true) ds
  unfolding all_dates
  entries_listed cs [] h = tt
  entries_listed cs (c ∷ ds) h = (
    elem-sorted_set (entry_of c) (map entry_of cs ++ map exit_of cs)
        ∙ ground (arith, elem-append (entry_of c) (map entry_of cs) (map exit_of cs), h.0),
    entries_listed cs ds h.1,
  )

  self_listed :
      (cs ds : List (ScoredCandidate F))
      → ((x : ℕ) → elem x (map entry_of ds) ≡ true → elem x (map entry_of cs) ≡ true)
      → All (λ c. elem (entry_of c) (map entry_of cs) ≡ true) ds
  self_listed cs [] f = tt
  self_listed cs (c ∷ ds) f =
      (f (entry_of c) (ground arith), self_listed cs ds (λ x m. f x (ground arith)))

  -- What a result says of the candidates: there are positions, each with a candidate and a capital,
  -- and candidates that were turned away; together they hold the candidates just once. The trades are
  -- those of the positions, in order, and the three counts of rejections are of the others.
  pub record IsAccounted (cs : List (ScoredCandidate F)) (r : BacktestResult F) : Type 0 where
    pub closed : List (OpenPosition F)
    pub refused : List (ScoredCandidate F)
    pub traded : r.trades ≡ map (trade_of config) closed
    pub counted :
        length refused ≡ r.rejected_by_signal + r.rejected_duplicate_company + r.rejected_capacity
    pub once :
        (t : ScoredCandidate F → Bool)
        → occurs (of_position t) closed + occurs t refused ≡ occurs t cs

  opening-IsDealt : IsDealt (λ t. 0) (opening config)
  opening-IsDealt = record {
    closed = [];
    refused = [];
    traded = refl;
    counted = refl;
    dealt = λ t. refl;
  }

  -- Every candidate enters on one of the days.
  all_visited :
      (cs : List (ScoredCandidate F)) (t : ScoredCandidate F → Bool)
      → visited entry_of (all_dates cs) (select t cs) ≡ occurs t cs
  unfolding all_dates
  all_visited cs t =
      visited-eq-length entry_of (all_dates cs) (select t cs)
        (Ascending-Nodup (all_dates cs) (sorted_set-Ascending (map entry_of cs ++ map exit_of cs)))
        (All-select (λ c. elem (entry_of c) (all_dates cs) ≡ true) t cs
          (entries_listed cs cs (self_listed cs cs (λ x m. m))))

  -- A backtest that returns has dealt with each candidate just once: the candidates, each as often
  -- as it was given, are those of some closed positions and those that were turned away. The trades
  -- of the result are the trades of just these positions, one for each, and the three counts of
  -- rejections add up to the number of the candidates that were turned away.
  pub run-IsAccounted :
      (cs : List (ScoredCandidate F)) (r : BacktestResult F)
      → run config cs ≡ ok r
      → IsAccounted cs r
  unfolding run finish
  run-IsAccounted cs r h =
      let last = trade_days config cs (opening config) (all_dates cs) in
      let (none_open, traded, rest) = finish_with-cases last last.positions r h in
      let d =
        trade_days-IsDealt (λ t. 0) cs (opening config) (all_dates cs) (opening-IsWithin config)
          opening-IsDealt in
      record {
        closed = d.closed;
        refused = d.refused;
        traded = traded ∙ d.traded;
        counted = d.counted ∙ sym rest;
        once = λ t.
            let held = ap (occurs (of_position t)) none_open in
            omega (arith, d.dealt t, all_visited cs t);
      }
