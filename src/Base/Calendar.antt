-- ===== src/Base/Calendar.antt =====
-- The proleptic Gregorian calendar of Python's `datetime`: the ordinal of the first day of a year,
-- and the year of an ordinal, which is found by a search from above.
use Prim.Native.Nat.{◌-◌, ◌*◌, ◌/◌}
use Prim.Native.Nat.{ℕ, zero, suc, ◌+◌, ◌≤◌, ◌<◌}
use mathlib.Core.Logic.{inl, inr}
use native.Mathlib.Omega.{arith}
use stock_traiding.Base.Tests.{leb, if◌then◌else◌, Bool-cases}

-- `date(y + 1, 1, 1).toordinal()`
abbrev pub year_end : ℕ → ℕ
year_end y = y * 365 + y / 4 - y / 100 + y / 400 + 1

-- `date(y, 1, 1).toordinal()`
abbrev pub year_start : ℕ → ℕ
year_start y = year_end (y - 1)

abbrev pub year_below : ℕ → ℕ → ℕ
year_below day zero = 0
year_below day (suc y) = let rest = year_below day y in if leb (year_end y) day then suc y else rest

-- `date.fromordinal(day).year`
unfoldable pub year_of : ℕ → ℕ
year_of day = year_below day (suc (day / 365))

year_below-start : (day bound : ℕ) → 1 ≤ day → 1 ≤ bound → year_start (year_below day bound) ≤ day
year_below-start day zero d b = absurd (omega arith)
year_below-start day (suc zero) d b = ground arith
year_below-start day (suc (suc y)) d b =
    let rest = year_below-start day (suc y) d (omega arith) in ground arith

-- A day is not before its year.
pub year_of-start : (day : ℕ) → 1 ≤ day → year_start (year_of day) ≤ day
unfolding year_of
year_of-start day d = year_below-start day (suc (day / 365)) d (omega arith)

year_below-end : (day bound : ℕ) → day < year_end bound → day < year_end (year_below day bound)
year_below-end day zero h = h
year_below-end day (suc y) h = elim (Bool-cases (leb (year_end y) day)) [
  | inl e ↦ rw e h
  | inr e ↦ rw e (year_below-end day y (ground arith))
]

-- A day is not after its year.
pub year_of-end : (day : ℕ) → day < year_end (year_of day)
unfolding year_of
year_of-end day = year_below-end day (suc (day / 365)) (omega arith)
