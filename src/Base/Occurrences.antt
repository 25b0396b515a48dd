-- ===== src/Base/Occurrences.antt =====
-- How many items of a list pass a test. Two lists with the same number for each test hold the same
-- items, each as often, in some order.
use Prim.Native.Nat.{ℕ, suc, ◌+◌}
use mathlib.Core.Path.{◌≡◌, refl}
use mathlib.Core.Bool.{Bool, not}
use mathlib.Core.List.{List, [], ◌∷◌, ◌++◌}
use native.Mathlib.Omega.{arith}
use stock_traiding.Base.Tests.{if◌then◌else◌}
use stock_traiding.Base.Lists.{select, length}
use stock_traiding.Base.Sort.{insert, sorted}

module _ {V : Type 0} (test : V → Bool) where
  abbrev pub occurs : List V → ℕ
  occurs xs = length (select test xs)

  pub occurs-append : (xs ys : List V) → occurs (xs ++ ys) ≡ occurs xs + occurs ys
  occurs-append [] ys = omega arith
  occurs-append (x ∷ xs) ys = ground (arith, occurs-append xs ys)

  -- A test and its negation share out the items that pass another.
  pub occurs-select :
      (p : V → Bool) (xs : List V)
      → occurs (select p xs) + occurs (select (λ x. not (p x)) xs) ≡ occurs xs
  occurs-select p [] = refl
  occurs-select p (x ∷ xs) = ground (arith, occurs-select p xs)

  pub occurs_either_way :
      (p : V → Bool) (xs : List V) → occurs (select p xs) ≡ length (select p (select test xs))
  occurs_either_way p [] = refl
  occurs_either_way p (x ∷ xs) = ground (arith, occurs_either_way p xs)

  module _ (before : V → V → Bool) where
    occurs-insert :
        (x : V) (xs : List V)
        → occurs (insert before x xs) ≡ (if test x then suc (occurs xs) else occurs xs)
    occurs-insert x [] = ground arith
    occurs-insert x (y ∷ ys) = ground (arith, occurs-insert x ys)

    pub occurs-sorted : (xs : List V) → occurs (sorted before xs) ≡ occurs xs
    occurs-sorted [] = refl
    occurs-sorted (x ∷ xs) = ground (arith, occurs-insert x (sorted before xs), occurs-sorted xs)
