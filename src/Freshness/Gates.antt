-- ===== src/Freshness/Gates.antt =====
-- The gates of the official report, and the windows that it names
-- (scripts/experiment-harness/prompt12-precontrol-freshness.py).
use package.text.Mathlib.Text.{◌==◌ as str_eq}
use text.Mathlib.TextEquality.{eq_iff}
use tcd_oran_testbed_integra.Base.{
  ◌≡◌, refl, ap, ◌∙◌, true, &&-eq-true, Option, none, some, List, ◌∷◌, take, drop, ok, >>=-eq-ok,
  ok-eq,
}
use tcd_oran_testbed_integra.Stationarity.Decimals.{Decimals}
use tcd_oran_testbed_integra.Stationarity.Latest.{last?}
use tcd_oran_testbed_integra.Stationarity.Window.{JsonMetrics}
use tcd_oran_testbed_integra.Stationarity.Evaluate.{Gate, pass, fail, not_evaluated, Report}
use tcd_oran_testbed_integra.Freshness.Rows.{Row, first_row, last_row}
use tcd_oran_testbed_integra.Freshness.Main.{
  is_pass, or_type_error, is_bound, check_binding, report_pass,
}
use tcd_oran_testbed_integra.Freshness.Admission.{first_row-ok, last_row-ok}

is_pass-pass : (g : Gate) → is_pass g ≡ true → g ≡ pass
unfolding is_pass
is_pass-pass pass h = refl
is_pass-pass fail h = absurd (cc h)
is_pass-pass not_evaluated h = absurd (cc h)

or_type_error-ok : {A : Type 0} (o : Option A) {a : A} → or_type_error o ≡ ok a → o ≡ some a
or_type_error-ok none h = absurd (cc h)
or_type_error-ok (some a) h = ap some (ok-eq h)

module _ (D : Decimals) where
  -- Every gate of the report is PASS.
  pub record AllPass (report : Report D) : Type 0 where
    pub cv_w1 : report.cv_w1_gate ≡ pass
    pub cv_w2 : report.cv_w2_gate ≡ pass
    pub mean_shift : report.mean_shift_gate ≡ pass
    pub output_stationarity : report.output_stationarity_gate ≡ pass
    pub minimum_phase_duration : report.minimum_phase_duration_gate ≡ pass

  -- The report names the first and the last record of a window.
  pub record Names (metrics : Option (JsonMetrics D)) (window : List (Row D)) : Type 0 where
    pub named : JsonMetrics D
    pub given : metrics ≡ some named
    pub first : Row D
    pub rest : List (Row D)
    pub begins : window ≡ first ∷ rest
    pub final : Row D
    pub ends : last? window ≡ some final
    pub first_id : named.json_record_id_first ≡ first.record_id
    pub final_id : named.json_record_id_last ≡ final.record_id

  pub report_pass-AllPass : (report : Report D) → report_pass D report ≡ true → AllPass report
  unfolding report_pass
  report_pass-AllPass report h =
      let (h1, minimum) = &&-eq-true _ (is_pass report.minimum_phase_duration_gate) h in
      let (h2, output) = &&-eq-true _ (is_pass report.output_stationarity_gate) h1 in
      let (h3, shift) = &&-eq-true _ (is_pass report.mean_shift_gate) h2 in
      let (w1, w2) = &&-eq-true (is_pass report.cv_w1_gate) (is_pass report.cv_w2_gate) h3 in
      record {
        cv_w1 = is_pass-pass _ w1;
        cv_w2 = is_pass-pass _ w2;
        mean_shift = is_pass-pass _ shift;
        output_stationarity = is_pass-pass _ output;
        minimum_phase_duration = is_pass-pass _ minimum;
      }

  is_bound-Names :
      (metrics : Option (JsonMetrics D)) (named : JsonMetrics D) (window : List (Row D))
      → metrics ≡ some named
      → is_bound D named window ≡ ok true
      → Names metrics window
  unfolding is_bound
  is_bound-Names metrics named window given h =
      let (first, f, h1) = >>=-eq-ok (first_row D window) _ h in
      let (final, l, h2) = >>=-eq-ok (last_row D window) _ h1 in
      let (rest, begins) = first_row-ok D window f in
      let (a, b) =
        &&-eq-true (str_eq named.json_record_id_first first.record_id)
          (str_eq named.json_record_id_last final.record_id) (ok-eq h2) in
      record {
        named = named;
        given = given;
        first = first;
        rest = rest;
        begins = begins;
        final = final;
        ends = last_row-ok D window l;
        first_id = (eq_iff _ _).0 a;
        final_id = (eq_iff _ _).0 b;
      }

  pub check_binding-Names :
      (selected : List (Row D)) (report : Report D)
      → check_binding D selected report ≡ ok true
      → Names report.w1 (take 25 selected) × Names report.w2 (drop 25 selected)
  unfolding check_binding
  check_binding-Names selected report h =
      let (m1, g1, h1) = >>=-eq-ok (or_type_error report.w1) _ h in
      let (b1, e1, h2) = >>=-eq-ok (is_bound D m1 (take 25 selected)) _ h1 in
      let (m2, g2, h3) = >>=-eq-ok (or_type_error report.w2) _ h2 in
      let (b2, e2, h4) = >>=-eq-ok (is_bound D m2 (drop 25 selected)) _ h3 in
      let (t1, t2) = &&-eq-true b1 b2 (ok-eq h4) in
      (
        is_bound-Names report.w1 m1 (take 25 selected) (or_type_error-ok report.w1 g1)
            (e1 ∙ ap ok t1),
        is_bound-Names report.w2 m2 (drop 25 selected) (or_type_error-ok report.w2 g2)
            (e2 ∙ ap ok t2),
      )
