-- ===== src/Freshness/Policy.antt =====
-- load_policy of scripts/experiment-harness/prompt12-precontrol-freshness.py. `int_of` and
-- `decimal_of` are Python's `int` and `Decimal` of a text.
use tcd_oran_testbed_integra.Base.{
  ℕ, ◌==◌, Bool, true, false, not, Option, none, some, List, [], ◌∷◌, String, Result, ok, err,
  ◌>>=◌, ◌>>◌, require, ◌≡◌, ap, ok-eq, if◌then◌else◌,
}
use tcd_oran_testbed_integra.Base.Text.{Text, codes, text_eq, strip, splitlines}
use tcd_oran_testbed_integra.Base.Integers.{ℤ, pos, negsuc}
use tcd_oran_testbed_integra.Stationarity.Decimals.{Decimals}

abbrev pub Values : Type 0
Values = List (Text × Text)

unfoldable pub lookup : Text → Values → Option Text
lookup key [] = none
lookup key ((k, value) ∷ values) = if text_eq key k then some value else lookup key values

-- `line.split("=", 1)`, for a line that has an equals sign
abbrev cut : Text → Option (Text × Text)
cut [] = none
cut (c ∷ line) = let rest = cut line in if c == 61 then some ([], line) else put c rest
  where
    put : ℕ → Option (Text × Text) → Option (Text × Text)
    put c none = none
    put c (some (key, value)) = some (c ∷ key, value)

abbrev is_comment : Text → Bool
is_comment [] = true
is_comment (c ∷ line) = c == 35

abbrev is_known : Option Text → Bool
is_known none = false
is_known (some value) = true

-- A line that has been cut, after the values before it.
abbrev add : Values → Option (Text × Text) → Result Values
add values none = err "invalid policy line"
add values (some (key, value)) = do
  require (not (is_known (lookup key values))) "duplicate policy key"
  ok ((key, value) ∷ values)

unfoldable pub read_lines : Values → List Text → Result Values
read_lines values [] = ok values
read_lines values (raw ∷ lines) = do
  values' ← (let line = strip raw in if is_comment line then ok values else add values (cut line))
  read_lines values' lines

abbrev value_of : Option Text → Result Text
value_of none = err "missing policy keys"
value_of (some value) = ok value

pub value_of-ok : (o : Option Text) {text : Text} → value_of o ≡ ok text → o ≡ some text
value_of-ok none h = absurd (cc h)
value_of-ok (some value) h = ap some (ok-eq h)

unfoldable pub value : Values → String → Result Text
value values key = value_of (lookup (codes key) values)

abbrev or_value_error : {A : Type 0} → Option A → Result A
or_value_error none = err "ValueError"
or_value_error (some a) = ok a

abbrev pub is_int : ℤ → ℕ → Bool
is_int (pos m) n = m == n
is_int (negsuc m) n = false

-- The values of the policy that are used later.
module _ (D : Decimals) where
  pub record Policy : Type 0 where
    pub max_age_ms : Text
    pub selection : Text

  module _ (int_of : Text → Option ℤ) (decimal_of : Text → Option D.Number) where
    -- The tests of the values, after all keys have been found.
    unfoldable pub check_values : Text → Text → Text → Text → Text → Result (Unit {0})
    check_values period window samples count selection = do
      require (text_eq selection (codes "LATEST_50_COMPLETE_CONTIGUOUS_SAMPLES"))
          "unexpected FINAL_GATE_SELECTION"
      samples_int ← or_value_error (int_of samples)
      require (is_int samples_int 25) "stationarity samples/window is not 25"
      count_int ← or_value_error (int_of count)
      require (is_int count_int 2) "stationarity window count is not 2"
      window_s ← or_value_error (decimal_of window)
      require (D.same window_s (D.decimal 5)) "stationarity window is not 5 s"
      period_ms ← or_value_error (decimal_of period)
      require (D.same period_ms (D.decimal 200)) "primary sample period is not 200 ms"

    unfoldable pub check_policy : Values → Result Policy
    check_policy values = do
      period ← value values "PRIMARY_OUTPUT_TS_MS"
      window ← value values "STATIONARITY_WINDOW_S"
      samples ← value values "STATIONARITY_SAMPLES_PER_WINDOW"
      count ← value values "STATIONARITY_WINDOW_COUNT"
      selection ← value values "FINAL_GATE_SELECTION"
      max_age ← value values "FINAL_GATE_MAX_AGE_AT_DOCKER_START_MS"
      check_values period window samples count selection
      ok (record { max_age_ms = max_age; selection = selection })

    unfoldable pub load_policy : Text → Result Policy
    load_policy t = do values ← read_lines [] (splitlines t); check_policy values
