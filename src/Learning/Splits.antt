-- ===== src/Learning/Splits.antt =====
-- src/stock_trading/ml/walk_forward.py: the annual splits. The optional mapping of maturity dates is a
-- list of pairs, and a minimum below zero is refused as zero is.
pub mod Leaks
use stock_traiding.Base.{
  ℕ, suc, ◌+◌, Bool, true, false, not, ◌||◌, ◌&&◌, Option, none, some, List, [], ◌∷◌, map, Result,
  ok, raise, value_error, key_error, raise_if, ◌>>◌, ltb, leb, ◌==◌, if◌then◌else◌, select, any,
  elem, length, to_set, datetime_lt, datetime_eq,
}
use stock_traiding.Base.Calendar.{year_of, year_start}
use stock_traiding.Base.Dict.{lookup}
use stock_traiding.Base.Sort.{sorted}
use stock_traiding.Engine.Contracts.{Identity}
use stock_traiding.Backtest.Contracts.{TrainingRow}

pub record WalkForwardSplit (F : Type 0) : Type 0 where
  pub test_year : ℕ
  pub train_rows : List (TrainingRow F)
  pub validation_rows : List (TrainingRow F)
  pub test_rows : List (TrainingRow F)

pub record Minimums : Type 0 where
  pub train : ℕ
  pub validation : ℕ
  pub test : ℕ

pub record Maturity : Type 0 where
  pub event_id : Identity
  pub matures_on : ℕ

abbrev event_of : Maturity → Identity
event_of m = m.event_id

abbrev pub years_from : Option ℕ → List ℕ → List ℕ
years_from none years = years
years_from (some first) years = select (λ year. leb first year) years

module _ {F : Type 0} where
  abbrev pub decision_year : TrainingRow F → ℕ
  decision_year row = year_of row.decision_time.date

  -- The order of (decision_time, event_id)
  abbrev pub decided_before : TrainingRow F → TrainingRow F → Bool
  decided_before a b =
      datetime_lt a.decision_time b.decision_time
      || datetime_eq a.decision_time b.decision_time && ltb a.event_id b.event_id

  -- `maturity_dates[row.event_id]`: an absent row has been refused before.
  abbrev matures : TrainingRow F → Option Maturity → ℕ
  matures row none = row.exit_date_20d
  matures row (some m) = m.matures_on

  -- `_maturity_date`
  abbrev pub maturity_date : Option (List Maturity) → TrainingRow F → ℕ
  maturity_date none row = row.exit_date_20d
  maturity_date (some dates) row = matures row (lookup event_of row.event_id dates)

  abbrev pub covers : Option (List Maturity) → List (TrainingRow F) → Bool
  covers none rows = true
  covers (some dates) rows =
      not (any (λ (row : TrainingRow F). not (elem row.event_id (map event_of dates))) rows)

  abbrev pub tested_years : Option ℕ → List (TrainingRow F) → List ℕ
  tested_years first rows = years_from first (sorted ltb (to_set (map decision_year rows)))

  -- The split of a test year, whose validation year is the one before
  abbrev pub split_of : Option (List Maturity) → List (TrainingRow F) → ℕ → WalkForwardSplit F
  split_of dates rows test_year =
      let eligible : List (TrainingRow F) =
        select (λ row. ltb (maturity_date dates row) (year_start test_year)) rows in
      record {
        test_year = test_year;
        train_rows = select (λ row. ltb (decision_year row + 1) test_year) eligible;
        validation_rows = select (λ row. decision_year row + 1 == test_year) eligible;
        test_rows = select (λ row. decision_year row == test_year) rows;
      }

  abbrev pub is_short : Minimums → WalkForwardSplit F → Bool
  is_short least split =
      ltb (length split.train_rows) least.train
      || ltb (length split.validation_rows) least.validation
      || ltb (length split.test_rows) least.test

  abbrev pub splits_of :
      Minimums → Option (List Maturity) → List (TrainingRow F) → List ℕ → List (WalkForwardSplit F)
  splits_of least dates rows years =
      select (λ split. not (is_short least split)) (map (split_of dates rows) years)

  unfoldable pub annual_walk_forward_splits :
      List (TrainingRow F)
      → Option ℕ
      → Minimums
      → Option (List Maturity)
      → Result (List (WalkForwardSplit F))
  unfolding year_of to_set
  annual_walk_forward_splits rows first least dates = do
    raise_if (least.train == 0 || least.validation == 0 || least.test == 0)
        (value_error "minimum row counts must be > 0")
    raise_if (not (covers dates (sorted decided_before rows)))
        (value_error "maturity_dates missing rows: ")
    ok (
        splits_of least dates (sorted decided_before rows)
          (tested_years first (sorted decided_before rows)))
