-- ===== src/Engine/Equality.antt =====
-- The equality of the dataclass `Opportunity`, which `_validate_allocations` and
-- `_validate_allocation_subset` of src/stock_trading/engine/runtime.py compare with.
use text.Mathlib.Text.{◌==◌ as str_eq}
use stock_traiding.Base.{
  String, Bool, true, false, ◌&&◌, [], ◌∷◌, Float, ℤ, pos, int_eq, ◌≡◌, ◌==◌, if◌then◌else◌, length,
  arith,
}
use stock_traiding.Engine.Contracts.{
  FeatureValue, float, int, str, bool, null, Metadata, metadata_get, Opportunity,
}

-- `True == 1` and `False == 0`
abbrev of_bool : Bool → ℤ
of_bool true = pos 1
of_bool false = pos 0

module _ {F : Type 0} ⦃fl : Float F⦄ where
  -- `==` of two feature values; a number equals a number of another type with its value.
  abbrev pub value_eq : FeatureValue F → FeatureValue F → Bool
  value_eq (float x) (float y) = fl.same x y
  value_eq (float x) (int n) = fl.same x (fl.from_int n)
  value_eq (float x) (bool b) = fl.same x (fl.from_int (of_bool b))
  value_eq (int n) (float x) = fl.same (fl.from_int n) x
  value_eq (int m) (int n) = int_eq m n
  value_eq (int n) (bool b) = int_eq n (of_bool b)
  value_eq (bool b) (float x) = fl.same (fl.from_int (of_bool b)) x
  value_eq (bool b) (int n) = int_eq (of_bool b) n
  value_eq (bool b) (bool c) = int_eq (of_bool b) (of_bool c)
  value_eq (str s) (str t) = s == t
  value_eq null null = true
  value_eq _ _ = false

  -- `name in metadata`
  has_name : String → Metadata F → Bool
  has_name name [] = false
  has_name name ((n, v) ∷ m) = if str_eq name n then true else has_name name m

  -- Each entry of the first dict is in the second, with an equal value.
  includes : Metadata F → Metadata F → Bool
  unfolding has_name
  includes [] n = true
  includes ((k, v) ∷ m) n = (has_name k n && value_eq v (metadata_get k n)) && includes m n

  -- `==` of two dicts, whatever the order of their entries
  unfoldable pub metadata_eq : Metadata F → Metadata F → Bool
  unfolding includes
  metadata_eq m n = length m == length n && includes m n

  -- Field by field, in the order of the fields
  unfoldable pub opportunity_eq : Opportunity F → Opportunity F → Bool
  opportunity_eq a b =
      a.strategy_id == b.strategy_id
      && a.candidate_id == b.candidate_id
      && a.event_id == b.event_id
      && a.company_id == b.company_id
      && a.security_id == b.security_id
      && a.execution_date == b.execution_date
      && fl.same a.score b.score
      && fl.same a.expected_return b.expected_return
      && fl.same a.expected_alpha b.expected_alpha
      && fl.same a.expected_downside b.expected_downside
      && fl.same a.probability_positive b.probability_positive
      && int_eq a.horizon_sessions b.horizon_sessions
      && metadata_eq a.metadata b.metadata

  -- The identities that two opportunities share.
  pub record SameIdentity (a b : Opportunity F) : Type 0 where
    pub strategy : a.strategy_id ≡ b.strategy_id
    pub candidate : a.candidate_id ≡ b.candidate_id
    pub event : a.event_id ≡ b.event_id
    pub company : a.company_id ≡ b.company_id
    pub security : a.security_id ≡ b.security_id
    pub day : a.execution_date ≡ b.execution_date

  -- Opportunities that compare equal name the same candidate.
  pub opportunity_eq-SameIdentity :
      (a b : Opportunity F) → opportunity_eq a b ≡ true → SameIdentity a b
  unfolding opportunity_eq
  opportunity_eq-SameIdentity a b h = ground arith
