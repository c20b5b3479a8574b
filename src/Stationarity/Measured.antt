-- ===== src/Stationarity/Measured.antt =====
-- The metrics of a window, in terms of its rows
-- (scripts/experiment-harness/evaluate-output-stationarity.py).
use mathlib.Core.Path.{subst}
use tcd_oran_testbed_integra.Base.{
  ◌≡◌, ◌∙◌, refl, sym, ap, suc, true, List, [], ◌∷◌, map, length, ok, require, >>-eq-ok, >>=-eq-ok,
  ok-eq, require-eq-ok,
}
use tcd_oran_testbed_integra.Stationarity.Decimals.{Decimals, sum_from}
use tcd_oran_testbed_integra.Stationarity.Interval.{Interval, decimal_value}
use tcd_oran_testbed_integra.Stationarity.Window.{
  Metrics, validate_window_geometry, throughputs, mean_of, variance_of, window_metrics, first_row,
  last_row,
}

module _ (D : Decimals) where
  abbrev throughput : Interval D → D.Number
  throughput row = row.throughput_kbit_s

  abbrev deviation : D.Number → Interval D → D.Number
  deviation mean row = D.mul (D.sub row.throughput_kbit_s mean) (D.sub row.throughput_kbit_s mean)

  -- The mean of the throughputs of the rows, and the coefficient of their variation in percent.
  pub record IsMeasured (window : List (Interval D)) (m : Metrics D) : Type 0 where
    pub mean :
        m.mean_kbit_s
        ≡ D.div (sum_from D (D.decimal 0) (map throughput window)) (D.decimal (length window))
    pub positive : D.less (D.decimal 0) m.mean_kbit_s ≡ true
    pub variation :
        m.cv_pct
        ≡ D.div
            (D.mul (D.decimal 100) (
              D.sqrt (
                D.div
                  (sum_from D (D.decimal 0) (map (deviation m.mean_kbit_s) window))
                  (D.decimal (length window)))))
            m.mean_kbit_s

  pub decimal_value-same :
      (value : D.Number) {read : D.Number} → decimal_value D value ≡ ok read → value ≡ read
  unfolding decimal_value
  decimal_value-same value h =
      let (_, h1) = >>-eq-ok (require (D.is_finite value) _) _ h in ok-eq h1

  throughputs-map :
      (window : List (Interval D)) {values : List D.Number}
      → throughputs D window ≡ ok values
      → map throughput window ≡ values
  unfolding throughputs
  throughputs-map [] h = ok-eq h
  throughputs-map (row ∷ rows) h =
      let (value, e, h1) = >>=-eq-ok (decimal_value D row.throughput_kbit_s) _ h in
      let (values, more, h2) = >>=-eq-ok (throughputs D rows) _ h1 in
      ap (λ v. v ∷ map throughput rows) (decimal_value-same row.throughput_kbit_s e)
      ∙ ap (λ vs. value ∷ vs) (throughputs-map rows more)
      ∙ ok-eq h2

  length-map : (window : List (Interval D)) → length (map throughput window) ≡ length window
  length-map [] = refl
  length-map (row ∷ rows) = ap suc (length-map rows)

  map-map :
      (mean : D.Number) (window : List (Interval D))
      → map (λ value. D.mul (D.sub value mean) (D.sub value mean)) (map throughput window)
        ≡ map (deviation mean) window
  map-map mean [] = refl
  map-map mean (row ∷ rows) = ap (λ vs. deviation mean row ∷ vs) (map-map mean rows)

  mean_of-map :
      (window : List (Interval D))
      → mean_of D (map throughput window)
        ≡ D.div (sum_from D (D.decimal 0) (map throughput window)) (D.decimal (length window))
  unfolding mean_of
  mean_of-map window =
      ap (λ n. D.div (sum_from D (D.decimal 0) (map throughput window)) (D.decimal n))
        (length-map window)

  variance_of-map :
      (mean : D.Number) (window : List (Interval D))
      → variance_of D mean (map throughput window)
        ≡ D.div (sum_from D (D.decimal 0) (map (deviation mean) window)) (D.decimal (length window))
  unfolding variance_of
  variance_of-map mean window =
      ap (λ vs. D.div (sum_from D (D.decimal 0) vs) (D.decimal (length (map throughput window))))
        (map-map mean window)
      ∙ ap (λ n. D.div (sum_from D (D.decimal 0) (map (deviation mean) window)) (D.decimal n))
          (length-map window)

  pub window_metrics-IsMeasured :
      (window : List (Interval D)) {m : Metrics D}
      → window_metrics D window ≡ ok m
      → IsMeasured window m
  unfolding window_metrics
  window_metrics-IsMeasured window h =
      let (_, h1) = >>-eq-ok (validate_window_geometry D window) _ h in
      let (values, read, h2) = >>=-eq-ok (throughputs D window) _ h1 in
      let (positive, h3) = >>-eq-ok (require (D.less (D.decimal 0) (mean_of D values)) _) _ h2 in
      let (first, _, h4) = >>=-eq-ok (first_row D window) _ h3 in
      let (final, _, h5) = >>=-eq-ok (last_row D window) _ h4 in
      let (_, _, h6) = >>=-eq-ok (decimal_value D first.interval_start_s) _ h5 in
      let (_, _, h7) = >>=-eq-ok (decimal_value D final.interval_end_s) _ h6 in
      let same = throughputs-map window read in
      let mean = mean_of D values in
      subst (IsMeasured window) (ok-eq h7) (record {
        mean = ap (mean_of D) (sym same) ∙ mean_of-map window;
        positive = require-eq-ok _ _ positive;
        variation =
            ap (λ v. D.div (D.mul (D.decimal 100) (D.sqrt v)) mean)
              (ap (variance_of D mean) (sym same) ∙ variance_of-map mean window);
      })
