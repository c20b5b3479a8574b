-- ===== src/Stationarity/Decimals.antt =====
-- The decimal arithmetic that scripts/experiment-harness/evaluate-output-stationarity.py takes from
-- Python's module decimal, with its precision of 40 digits, as a record of operations: every
-- theorem holds whatever the rounding is.
use tcd_oran_testbed_integra.Base.{ℕ, Bool, not, String, List, [], ◌∷◌}

pub record Decimals : Type 1 where
  pub Number : Type 0
  pub decimal : ℕ → Number  -- `Decimal(n)`
  pub micro : Number  -- `Decimal("0.000001")`
  pub fifth : Number  -- `Decimal("0.2")`
  pub is_finite : Number → Bool
  pub add : Number → Number → Number
  pub sub : Number → Number → Number
  pub mul : Number → Number → Number
  pub div : Number → Number → Number
  pub sqrt : Number → Number
  pub magnitude : Number → Number  -- `abs`
  pub to_integral_value : Number → Number
  pub int : Number → ℕ  -- `int`, of a number that is not negative
  pub less : Number → Number → Bool  -- `<`
  pub same : Number → Number → Bool  -- `==`
  pub decimal_text : Number → String  -- `format(value, "f")`
  pub str : Number → String

module _ (D : Decimals) where
  -- `a <= b`, of finite numbers
  abbrev pub at_most : D.Number → D.Number → Bool
  at_most a b = not (D.less b a)

  -- `sum`
  abbrev pub sum_from : D.Number → List D.Number → D.Number
  sum_from total [] = total
  sum_from total (value ∷ values) = sum_from (D.add total value) values
