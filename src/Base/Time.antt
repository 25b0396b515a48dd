-- ===== src/Base/Time.antt =====
-- Dates and timezone-aware datetimes. A date is its ordinal; a datetime is normalised to UTC and
-- split into its date and its time of day, so that `.date()`, `.timetz()` and `combine` are exact.
use Prim.Native.Nat.{ℕ}
use mathlib.Core.Bool.{Bool, ◌&&◌, ◌||◌}
use stock_traiding.Base.Tests.{ltb, ◌==◌}

pub record Datetime : Type 0 where
  pub date : ℕ
  pub timetz : ℕ

-- `datetime.combine(date, timetz)`
abbrev pub combine : ℕ → ℕ → Datetime
combine d t = record { date = d; timetz = t }

abbrev pub datetime_eq : Datetime → Datetime → Bool
datetime_eq a b = a.date == b.date && a.timetz == b.timetz

abbrev pub datetime_lt : Datetime → Datetime → Bool
datetime_lt a b = ltb a.date b.date || (a.date == b.date && ltb a.timetz b.timetz)
