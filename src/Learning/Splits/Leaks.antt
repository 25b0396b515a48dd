-- ===== src/Learning/Splits/Leaks.antt =====
-- What separates the rows of an annual split (src/stock_trading/ml/walk_forward.py).
use stock_traiding.Base.{
  ℕ, ◌+◌, ◌≤◌, ◌<◌, ◌≡◌, Bool, true, false, not, ◌||◌, Option, none, some, List, [], ◌∷◌, map, All,
  ok, ok-injective, raise_if, >>-eq-ok, value_error, ltb, leb, ◌==◌, select, length, subst, arith,
  Bool-cases, inl, inr,
}
use stock_traiding.Base.Calendar.{year_start, year_of-start}
use stock_traiding.Base.Removal.{All-select, select-All}
use stock_traiding.Base.Every.{All-map, All_both}
use stock_traiding.Base.Sort.{sorted, All-sorted}
use stock_traiding.Backtest.Contracts.{TrainingRow}
use stock_traiding.Backtest.Dates.{Ascending, sorted_set-Ascending}
use stock_traiding.Learning.Splits.{
  WalkForwardSplit, Minimums, Maturity, decision_year, decided_before, maturity_date, covers,
  tested_years, split_of, is_short, splits_of, annual_walk_forward_splits,
}

select-Ascending :
    (test : ℕ → Bool) (years : List ℕ) → Ascending years → Ascending (select test years)
select-Ascending test [] h = tt
select-Ascending test (y ∷ years) h = elim (Bool-cases (test y)) [
  | inl e ↦ rw e (All-select (λ x. y < x) test years h.0, select-Ascending test years h.1)
  | inr e ↦ rw e (select-Ascending test years h.1)
]

module _ {F : Type 0} where
  -- Ordinals of dates begin at 1.
  abbrev pub IsDated : TrainingRow F → Type 0
  IsDated row = 1 ≤ row.decision_time.date

  abbrev MaturesBefore : Option (List Maturity) → ℕ → TrainingRow F → Type 0
  MaturesBefore dates day row = maturity_date dates row < day

  -- What a row to learn from promises is known before any decision of the test rows.
  abbrev pub IsKnown : Option (List Maturity) → List (TrainingRow F) → TrainingRow F → Type 0
  IsKnown dates tests row =
      All (λ (test : TrainingRow F). maturity_date dates row < test.decision_time.date) tests

  pub record IsLeakFree (least : Minimums) (dates : Option (List Maturity))
      (split : WalkForwardSplit F) : Type 0 where
    pub train_known : All (IsKnown dates split.test_rows) split.train_rows
    pub validation_known : All (IsKnown dates split.test_rows) split.validation_rows
    pub train_years :
        All (λ (row : TrainingRow F). decision_year row + 1 < split.test_year) split.train_rows
    pub validation_years :
        All (λ (row : TrainingRow F). decision_year row + 1 ≡ split.test_year) split.validation_rows
    pub test_years :
        All (λ (row : TrainingRow F). decision_year row ≡ split.test_year) split.test_rows
    pub train_enough : least.train ≤ length split.train_rows
    pub validation_enough : least.validation ≤ length split.validation_rows
    pub test_enough : least.test ≤ length split.test_rows

  test_late :
      (year : ℕ) (row : TrainingRow F)
      → (decision_year row ≡ year) × IsDated row
      → year_start year ≤ row.decision_time.date
  test_late year row h =
      subst (λ y. year_start y ≤ row.decision_time.date) h.0
        (year_of-start row.decision_time.date h.1)

  matured-IsKnown :
      (dates : Option (List Maturity)) (day : ℕ) (tests rows : List (TrainingRow F))
      → All (λ (test : TrainingRow F). day ≤ test.decision_time.date) tests
      → All (MaturesBefore dates day) rows
      → All (IsKnown dates tests) rows
  matured-IsKnown dates day tests rows late h =
      All-map rows (λ row before. All-map tests (λ test after. omega arith) late) h

  selected :
      (test : TrainingRow F → Bool) (P : TrainingRow F → Type 0) (rows : List (TrainingRow F))
      → ((row : TrainingRow F) → test row ≡ true → P row)
      → All P (select test rows)
  selected test P rows f = All-map (select test rows) f (select-All test rows)

  split-IsLeakFree :
      (least : Minimums) (dates : Option (List Maturity)) (rows : List (TrainingRow F)) (year : ℕ)
      → All IsDated rows
      → is_short least (split_of dates rows year) ≡ false
      → IsLeakFree least dates (split_of dates rows year)
  split-IsLeakFree least dates rows year dated long =
      let split = split_of dates rows year in
      let tested : All (λ (row : TrainingRow F). decision_year row ≡ year) split.test_rows =
        selected (λ row. decision_year row == year) (λ row. decision_year row ≡ year) rows
          (λ row e. ground arith) in
      let late = All-map split.test_rows (test_late year) (
        All_both (λ row. decision_year row ≡ year) IsDated split.test_rows tested
          (All-select IsDated (λ row. decision_year row == year) rows dated)) in
      let eligible = select (λ row. ltb (maturity_date dates row) (year_start year)) rows in
      let mature =
        selected (λ row. ltb (maturity_date dates row) (year_start year))
          (MaturesBefore dates (year_start year)) rows (λ row e. ground arith) in
      record {
        train_known =
            matured-IsKnown dates (year_start year) split.test_rows split.train_rows late (
              All-select (MaturesBefore dates (year_start year))
                (λ row. ltb (decision_year row + 1) year) eligible mature);
        validation_known =
            matured-IsKnown dates (year_start year) split.test_rows split.validation_rows late (
              All-select (MaturesBefore dates (year_start year))
                (λ row. decision_year row + 1 == year) eligible mature);
        train_years =
            selected (λ row. ltb (decision_year row + 1) year) (λ row. decision_year row + 1 < year)
              eligible (λ row e. ground arith);
        validation_years =
            selected (λ row. decision_year row + 1 == year) (λ row. decision_year row + 1 ≡ year)
              eligible (λ row e. ground arith);
        test_years = tested;
        train_enough = ground arith;
        validation_enough = ground arith;
        test_enough = ground arith;
      }

  splits-IsLeakFree :
      (least : Minimums) (dates : Option (List Maturity)) (rows : List (TrainingRow F))
      (years : List ℕ)
      → All IsDated rows
      → All (IsLeakFree least dates) (splits_of least dates rows years)
  splits-IsLeakFree least dates rows [] dated = tt
  splits-IsLeakFree least dates rows (year ∷ years) dated =
      elim (Bool-cases (is_short least (split_of dates rows year))) [
        | inl e ↦ rw e (splits-IsLeakFree least dates rows years dated)
        | inr e ↦ rw e (
          split-IsLeakFree least dates rows year dated e,
          splits-IsLeakFree least dates rows years dated,
        )
      ]

  returned_splits :
      (rows : List (TrainingRow F)) (first : Option ℕ) (least : Minimums)
      (dates : Option (List Maturity)) (splits : List (WalkForwardSplit F))
      → annual_walk_forward_splits rows first least dates ≡ ok splits
      → splits_of least dates
          (sorted decided_before rows)
          (tested_years first (sorted decided_before rows))
        ≡ splits
  unfolding annual_walk_forward_splits
  returned_splits rows first least dates splits h =
      ok-injective
        (>>-eq-ok
          (raise_if (not (covers dates (sorted decided_before rows)))
            (value_error "maturity_dates missing rows: "))
          (ok (
            splits_of least dates (sorted decided_before rows)
              (tested_years first (sorted decided_before rows))))
          (>>-eq-ok
            (raise_if (least.train == 0 || least.validation == 0 || least.test == 0)
              (value_error "minimum row counts must be > 0"))
            _ h).1).1

  -- The splits that are returned for rows with dates do not look ahead: what the training and the
  -- validation rows promise has matured before each decision of the test rows, the three sets come from
  -- the years before the last, the last and the test year itself, and none is below its minimum.
  pub annual_walk_forward_splits-IsLeakFree :
      (rows : List (TrainingRow F)) (first : Option ℕ) (least : Minimums)
      (dates : Option (List Maturity)) (splits : List (WalkForwardSplit F))
      → All IsDated rows
      → annual_walk_forward_splits rows first least dates ≡ ok splits
      → All (IsLeakFree least dates) splits
  annual_walk_forward_splits-IsLeakFree rows first least dates splits dated h =
      subst (All (IsLeakFree least dates)) (returned_splits rows first least dates splits h) (
        splits-IsLeakFree least dates (sorted decided_before rows)
          (tested_years first (sorted decided_before rows))
          (All-sorted decided_before IsDated rows dated))

  tested_years-Ascending :
      (first : Option ℕ) (rows : List (TrainingRow F)) → Ascending (tested_years first rows)
  tested_years-Ascending none rows = sorted_set-Ascending (map decision_year rows)
  tested_years-Ascending (some first) rows =
      select-Ascending (λ year. leb first year) (tested_years none rows)
        (sorted_set-Ascending (map decision_year rows))

  abbrev pub year_tested : WalkForwardSplit F → ℕ
  year_tested split = split.test_year

  splits_after :
      (least : Minimums) (dates : Option (List Maturity)) (rows : List (TrainingRow F)) (day : ℕ)
      (years : List ℕ)
      → All (λ y. day < y) years
      → All (λ y. day < y) (map year_tested (splits_of least dates rows years))
  splits_after least dates rows day [] h = tt
  splits_after least dates rows day (year ∷ years) h =
      elim (Bool-cases (is_short least (split_of dates rows year))) [
        | inl e ↦ rw e (splits_after least dates rows day years h.1)
        | inr e ↦ rw e (h.0, splits_after least dates rows day years h.1)
      ]

  splits-Ascending :
      (least : Minimums) (dates : Option (List Maturity)) (rows : List (TrainingRow F))
      (years : List ℕ)
      → Ascending years
      → Ascending (map year_tested (splits_of least dates rows years))
  splits-Ascending least dates rows [] h = tt
  splits-Ascending least dates rows (year ∷ years) h =
      elim (Bool-cases (is_short least (split_of dates rows year))) [
        | inl e ↦ rw e (splits-Ascending least dates rows years h.1)
        | inr e ↦ rw e (
          splits_after least dates rows year years h.0,
          splits-Ascending least dates rows years h.1,
        )
      ]

  -- The test years of the splits that are returned ascend, so that no row is tested twice.
  pub annual_walk_forward_splits-Ascending :
      (rows : List (TrainingRow F)) (first : Option ℕ) (least : Minimums)
      (dates : Option (List Maturity)) (splits : List (WalkForwardSplit F))
      → annual_walk_forward_splits rows first least dates ≡ ok splits
      → Ascending (map year_tested splits)
  annual_walk_forward_splits-Ascending rows first least dates splits h =
      subst (λ found. Ascending (map year_tested found))
        (returned_splits rows first least dates splits h)
        (splits-Ascending least dates (sorted decided_before rows)
          (tested_years first (sorted decided_before rows))
          (tested_years-Ascending first (sorted decided_before rows)))
