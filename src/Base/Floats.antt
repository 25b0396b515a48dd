-- ===== src/Base/Floats.antt =====
-- Python floats: any type with the operations and comparisons that the program uses. The
-- comparisons are Boolean, so a NaN, for which all of them are false, is not excluded.
use Prim.Native.Nat.{ℕ}
use mathlib.Core.Bool.{Bool}
use mathlib.Core.List.{List, [], ◌∷◌}
use stock_traiding.Base.Int.{ℤ}
use stock_traiding.Base.Tests.{if◌then◌else◌}

pub record Float (F : Type 0) : Type 0 where
  -- `decimal m k` is the literal m * 10^-k.
  pub decimal : ℕ → ℕ → F
  pub from_int : ℤ → F
  pub add : F → F → F
  pub sub : F → F → F
  pub mul : F → F → F
  pub div : F → F → F
  pub neg : F → F
  pub infinity : F
  pub le : F → F → Bool
  pub lt : F → F → Bool
  -- Equality as a dataclass or a tuple compares its fields.
  pub same : F → F → Bool

module _ {F : Type 0} ⦃float : Float F⦄ where
  abbrev pub decimal : ℕ → ℕ → F
  decimal = float.decimal

  infixl 65 ◌⊕◌ ◌⊖◌
  infixl 70 ◌⊗◌ ◌⊘◌
  infix 50 ◌≼◌ ◌≺◌
  abbrev pub ◌⊕◌ : F → F → F
  x ⊕ y = float.add x y

  abbrev pub ◌⊖◌ : F → F → F
  x ⊖ y = float.sub x y

  abbrev pub ◌⊗◌ : F → F → F
  x ⊗ y = float.mul x y

  abbrev pub ◌⊘◌ : F → F → F
  x ⊘ y = float.div x y

  abbrev pub ◌≼◌ : F → F → Bool
  x ≼ y = float.le x y

  abbrev pub ◌≺◌ : F → F → Bool
  x ≺ y = float.lt x y

  abbrev pub negated : F → F
  negated x = float.neg x

  abbrev pub infinity : F
  infinity = float.infinity

  -- Python's `min(x, y)` and `max(x, y)` keep the first of two equal arguments.
  abbrev pub min_of : F → F → F
  min_of x y = if y ≺ x then y else x

  abbrev pub max_of : F → F → F
  max_of x y = if x ≺ y then y else x

  -- `sum` of floats, which starts at 0
  abbrev pub sum_from : F → List F → F
  sum_from total [] = total
  sum_from total (x ∷ xs) = sum_from (total ⊕ x) xs

  abbrev pub sum_of : List F → F
  sum_of = sum_from (decimal 0 0)
