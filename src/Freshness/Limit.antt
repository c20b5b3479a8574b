-- ===== src/Freshness/Limit.antt =====
-- The limit of the age that a policy file sets
-- (scripts/experiment-harness/prompt12-precontrol-freshness.py).
use tcd_oran_testbed_integra.Base.{
  ◌≡◌, ap, ◌∙◌, Option, none, some, [], String, ok, >>-eq-ok, >>=-eq-ok, ok-eq,
}
use tcd_oran_testbed_integra.Base.Text.{Text, codes, splitlines}
use tcd_oran_testbed_integra.Base.Integers.{ℤ}
use tcd_oran_testbed_integra.Stationarity.Decimals.{Decimals}
use tcd_oran_testbed_integra.Freshness.Policy.{
  Policy, Values, load_policy, check_policy, check_values, read_lines, lookup, value, value_of-ok,
}
use tcd_oran_testbed_integra.Freshness.Main.{or_value_error}

module _ (D : Decimals) (int_of : Text → Option ℤ) (decimal_of : Text → Option D.Number) where
  -- The limit of the age that a policy's text sets.
  pub record SetsLimit (policy : Text) (max_age_ms : D.Number) : Type 0 where
    pub values : Values
    pub read : read_lines [] (splitlines policy) ≡ ok values
    pub limit : Text
    pub found : lookup (codes "FINAL_GATE_MAX_AGE_AT_DOCKER_START_MS") values ≡ some limit
    pub parsed : decimal_of limit ≡ some max_age_ms

  value-lookup :
      (values : Values) (key : String) {text : Text}
      → value values key ≡ ok text
      → lookup (codes key) values ≡ some text
  unfolding value
  value-lookup values key h = value_of-ok (lookup (codes key) values) h

  pub or_value_error-ok : {A : Type 0} (o : Option A) {a : A} → or_value_error o ≡ ok a → o ≡ some a
  or_value_error-ok none h = absurd (cc h)
  or_value_error-ok (some a) h = ap some (ok-eq h)

  pub load_policy-SetsLimit :
      (t : Text) {policy : Policy D} {max_age_ms : D.Number}
      → load_policy D int_of decimal_of t ≡ ok policy
      → decimal_of policy.max_age_ms ≡ some max_age_ms
      → SetsLimit t max_age_ms
  unfolding load_policy check_policy
  load_policy-SetsLimit t {policy} {max_age_ms} h parsed =
      let (values, read, h1) = >>=-eq-ok (read_lines [] (splitlines t)) _ h in
      let (period, _, h2) = >>=-eq-ok (value values "PRIMARY_OUTPUT_TS_MS") _ h1 in
      let (window, _, h3) = >>=-eq-ok (value values "STATIONARITY_WINDOW_S") _ h2 in
      let (samples, _, h4) = >>=-eq-ok (value values "STATIONARITY_SAMPLES_PER_WINDOW") _ h3 in
      let (count, _, h5) = >>=-eq-ok (value values "STATIONARITY_WINDOW_COUNT") _ h4 in
      let (selection, _, h6) = >>=-eq-ok (value values "FINAL_GATE_SELECTION") _ h5 in
      let (limit, found, h7) =
        >>=-eq-ok (value values "FINAL_GATE_MAX_AGE_AT_DOCKER_START_MS") _ h6 in
      let (_, h8) =
        >>-eq-ok (check_values D int_of decimal_of period window samples count selection) _ h7 in
      record {
        values = values;
        read = read;
        limit = limit;
        found = value-lookup values "FINAL_GATE_MAX_AGE_AT_DOCKER_START_MS" found;
        parsed = ap (λ (p : Policy D). decimal_of p.max_age_ms) (ok-eq h8) ∙ parsed;
      }
