-- ===== src/Freshness/Handover.antt =====
-- What the gate (scripts/experiment-harness/prompt12-precontrol-freshness.py) hands over to the
-- trigger executor.
use mathlib.Core.Path.{subst}
use tcd_oran_testbed_integra.Base.{
  ℕ, ◌+◌, ◌≤◌, ◌==◌, ◌≡◌, refl, sym, ap, ◌∙◌, Bool, true, false, not, Option, none, some, List, All,
  length, take, drop, String, ok, require, >>-eq-ok, >>=-eq-ok, ok-eq, arith, if◌then◌else◌,
}
use tcd_oran_testbed_integra.Base.Text.{Text, codes}
use tcd_oran_testbed_integra.Base.Integers.{ℤ}
use tcd_oran_testbed_integra.Base.Json.{Fields, get, is_text, is_number}
use tcd_oran_testbed_integra.Stationarity.Decimals.{Decimals}
use tcd_oran_testbed_integra.Stationarity.Latest.{last?}
use tcd_oran_testbed_integra.Stationarity.Evaluate.{Report}
use tcd_oran_testbed_integra.Executor.Checks.{required_source_pass}
use tcd_oran_testbed_integra.Freshness.Policy.{load_policy}
use tcd_oran_testbed_integra.Freshness.Rows.{
  Row, Line, load_rows, complete_rows, read_rows, last_row,
}
use tcd_oran_testbed_integra.Freshness.Main.{
  Args, select, official_report, check_binding, verdict_of, admission_pass, report_pass, is_fresh,
  decision_time, or_value_error, result_fields, main,
}
use tcd_oran_testbed_integra.Freshness.Limit.{SetsLimit, load_policy-SetsLimit, or_value_error-ok}
use tcd_oran_testbed_integra.Freshness.Gates.{
  Names, AllPass, report_pass-AllPass, check_binding-Names,
}
use tcd_oran_testbed_integra.Freshness.Samples.{
  IsSample, complete_rows-All, samples_of, rows_of, complete_rows-samples_of, read_rows-rows_of,
}
use tcd_oran_testbed_integra.Freshness.Admission.{IsSelection, select-IsSelection, last_row-ok}

module _ (D : Decimals) where
  load_rows-samples_of :
      (lines : List (Line D)) (experiment_id run_id : String) (cutoff : Option ℕ)
      {loaded : List (Row D) × List (Row D)}
      → load_rows D lines experiment_id run_id cutoff ≡ ok loaded
      → All (IsSample D cutoff) loaded.1 × (loaded.1 ≡ samples_of D cutoff (rows_of D lines))
  unfolding load_rows
  load_rows-samples_of lines e r cutoff h =
      let (rows, read, h1) = >>=-eq-ok (read_rows D e r lines) _ h in
      let (complete, c, h2) = >>=-eq-ok (complete_rows D cutoff none rows) _ h1 in
      subst (λ x. All (IsSample D cutoff) x.1 × (x.1 ≡ samples_of D cutoff (rows_of D lines)))
        (ok-eq h2)
        (
          complete_rows-All D cutoff none rows complete c,
          complete_rows-samples_of D cutoff none rows c
              ∙ ap (samples_of D cutoff) (read_rows-rows_of D e r lines read),
        )

  -- What the executor reads of the result.
  result-required_source_pass :
      (decision latest : ℕ) (max_age : Text) (binding report_passes fresh : Bool)
      → required_source_pass
          (result_fields D decision latest max_age (verdict_of D binding report_passes fresh) 50)
        ≡ admission_pass D (verdict_of D binding report_passes fresh)
  unfolding required_source_pass result_fields verdict_of admission_pass get is_text is_number
  result-required_source_pass d l m true true true = refl
  result-required_source_pass d l m true true false = refl
  result-required_source_pass d l m true false true = refl
  result-required_source_pass d l m true false false = refl
  result-required_source_pass d l m false true true = refl
  result-required_source_pass d l m false true false = refl
  result-required_source_pass d l m false false true = refl
  result-required_source_pass d l m false false false = refl

  code-admission : (b : Bool) → ((if b then 0 else 10) == 0) ≡ b
  code-admission true = refl
  code-admission false = refl

  code-pass : (b : Bool) → ◌≡◌ {A = ℕ} (if b then 0 else 10) 0 → b ≡ true
  code-pass true h = refl
  code-pass false h = absurd (omega arith)

  verdict-parts :
      (binding report_passes fresh : Bool)
      → admission_pass D (verdict_of D binding report_passes fresh) ≡ true
      → (binding ≡ true) × (report_passes ≡ true) × (fresh ≡ true)
  unfolding verdict_of admission_pass
  verdict-parts true true true h = (refl, refl, refl)
  verdict-parts true true false h = cc
  verdict-parts true false f h = cc
  verdict-parts false r f h = cc

  is_fresh-bounds :
      (decision latest : ℕ) (max_age : D.Number)
      → is_fresh D decision latest max_age ≡ true
      → (latest ≤ decision) × (decision ≤ latest + D.int (D.mul max_age (D.decimal 1000000)))
  unfolding is_fresh
  is_fresh-bounds decision latest max_age h = ground arith

  module _ (int_of : Text → Option ℤ) (decimal_of : Text → Option D.Number) where
    -- The control is admitted on the last fifty samples of the log.
    pub record IsQualified (args : Args D) : Type 0 where
      pub samples :
          All
            (IsSample D args.cutoff_utc_ns)
            (samples_of D args.cutoff_utc_ns (rows_of D args.lines))
      pub selected : List (Row D)
      pub selection :
          IsSelection D (samples_of D args.cutoff_utc_ns (rows_of D args.lines)) selected
      pub report : Report D
      pub judged : official_report D selected args.experiment_id args.run_id ≡ ok report
      pub first_window : Names D report.w1 (take 25 selected)
      pub second_window : Names D report.w2 (drop 25 selected)
      pub passes : AllPass D report
      pub final : Row D
      pub final_is : last? selected ≡ some final
      pub max_age_ms : D.Number
      pub limited : SetsLimit D int_of decimal_of args.policy max_age_ms
      pub not_future : final.timestamp_utc_ns ≤ decision_time args.decision_utc_ns args.clock
      pub not_stale :
          decision_time args.decision_utc_ns args.clock
          ≤ final.timestamp_utc_ns + D.int (D.mul max_age_ms (D.decimal 1000000))

    -- What main has computed when it returns.
    record IsRun (args : Args D) (fields : Fields) (rc : ℕ) : Type 0 where
      samples :
          All
            (IsSample D args.cutoff_utc_ns)
            (samples_of D args.cutoff_utc_ns (rows_of D args.lines))
      selected : List (Row D)
      selection : IsSelection D (samples_of D args.cutoff_utc_ns (rows_of D args.lines)) selected
      report : Report D
      judged : official_report D selected args.experiment_id args.run_id ≡ ok report
      binding : Bool
      bound : check_binding D selected report ≡ ok binding
      final : Row D
      final_is : last? selected ≡ some final
      max_age_ms : D.Number
      limited : SetsLimit D int_of decimal_of args.policy max_age_ms
      result :
          let decision = decision_time args.decision_utc_ns args.clock in
          let v =
            verdict_of D binding
              (report_pass D report)
              (is_fresh D decision final.timestamp_utc_ns max_age_ms) in
          ◌≡◌ {A = Fields × ℕ}
            (
              result_fields D decision final.timestamp_utc_ns
                  (codes (D.str max_age_ms))
                  v
                  (length selected),
              if admission_pass D v then 0 else 10,
            )
            (fields, rc)

    main-IsRun :
        (args : Args D) {fields : Fields} {rc : ℕ}
        → main D int_of decimal_of args ≡ ok (fields, rc)
        → IsRun args fields rc
    unfolding main
    main-IsRun args h =
        let (_, h1) = >>-eq-ok (require args.inputs_exist "required input missing") _ h in
        let (_, h2) = >>-eq-ok (require (not args.output_exists) "output already exists") _ h1 in
        let (policy, p, h3) = >>=-eq-ok (load_policy D int_of decimal_of args.policy) _ h2 in
        let (loaded, l, h4) =
          >>=-eq-ok (load_rows D args.lines args.experiment_id args.run_id args.cutoff_utc_ns) _
            h3 in
        let (selected, s, h5) = >>=-eq-ok (select D loaded.1) _ h4 in
        let (report, r, h6) =
          >>=-eq-ok (official_report D selected args.experiment_id args.run_id) _ h5 in
        let (binding, b, h7) = >>=-eq-ok (check_binding D selected report) _ h6 in
        let (final, f, h8) = >>=-eq-ok (last_row D selected) _ h7 in
        let (max_age, g, h9) = >>=-eq-ok (or_value_error (decimal_of policy.max_age_ms)) _ h8 in
        let (samples, same) =
          load_rows-samples_of args.lines args.experiment_id args.run_id args.cutoff_utc_ns l in
        record {
          samples = subst (All (IsSample D args.cutoff_utc_ns)) same samples;
          selected = selected;
          selection =
              subst (λ complete. IsSelection D complete selected) same
                (select-IsSelection D loaded.1 selected s);
          report = report;
          judged = r;
          binding = binding;
          bound = b;
          final = final;
          final_is = last_row-ok D selected f;
          max_age_ms = max_age;
          limited =
              load_policy-SetsLimit D int_of decimal_of args.policy p
                (or_value_error-ok D int_of decimal_of (decimal_of policy.max_age_ms) g);
          result = ok-eq h9;
        }

    -- When the gate exits with 0, it has selected the last fifty of the rows of the log that are
    -- complete intervals not later than the cutoff, each of 0.2 s and each adjoining the one before
    -- it; the official evaluator reports on exactly these rows, names the ends of the two windows
    -- selected, and passes each of its five gates; and the last of the rows is neither later than
    -- the decision nor older than the limit FINAL_GATE_MAX_AGE_AT_DOCKER_START_MS of the policy
    -- file.
    pub main-IsQualified :
        (args : Args D) {fields : Fields}
        → main D int_of decimal_of args ≡ ok (fields, 0)
        → IsQualified args
    main-IsQualified args h =
        let r = main-IsRun args h in
        let decision = decision_time args.decision_utc_ns args.clock in
        let fresh = is_fresh D decision r.final.timestamp_utc_ns r.max_age_ms in
        let (b, p, f) =
          verdict-parts r.binding (report_pass D r.report) fresh
            (code-pass _ (ap (λ x. x.1) r.result)) in
        let windows = check_binding-Names D r.selected r.report (r.bound ∙ ap ok b) in
        let (n, s) = is_fresh-bounds decision r.final.timestamp_utc_ns r.max_age_ms f in
        record {
          samples = r.samples;
          selected = r.selected;
          selection = r.selection;
          report = r.report;
          judged = r.judged;
          first_window = windows.0;
          second_window = windows.1;
          passes = report_pass-AllPass D r.report p;
          final = r.final;
          final_is = r.final_is;
          max_age_ms = r.max_age_ms;
          limited = r.limited;
          not_future = n;
          not_stale = s;
        }

    -- The executor's check of the precontrol record accepts what the gate has written exactly when
    -- the gate has exited with 0.
    pub required_source_pass-main :
        (args : Args D) {fields : Fields} {rc : ℕ}
        → main D int_of decimal_of args ≡ ok (fields, rc)
        → required_source_pass fields ≡ (rc == 0)
    required_source_pass-main args {fields} {rc} h =
        let r = main-IsRun args h in
        let decision = decision_time args.decision_utc_ns args.clock in
        let max_age = codes (D.str r.max_age_ms) in
        let fresh = is_fresh D decision r.final.timestamp_utc_ns r.max_age_ms in
        let v = verdict_of D r.binding (report_pass D r.report) fresh in
        ap required_source_pass (sym (ap (λ x. x.0) r.result))
        ∙ ap
            (λ n.
              required_source_pass (result_fields D decision r.final.timestamp_utc_ns max_age v n))
            r.selection.fifty
        ∙ result-required_source_pass decision r.final.timestamp_utc_ns max_age r.binding
            (report_pass D r.report) fresh
        ∙ sym (code-admission (admission_pass D v))
        ∙ ap (λ n. n == 0) (ap (λ x. x.1) r.result)
