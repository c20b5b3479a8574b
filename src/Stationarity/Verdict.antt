-- ===== src/Stationarity/Verdict.antt =====
-- What a passing evaluation says of the rows
-- (scripts/experiment-harness/evaluate-output-stationarity.py).
use tcd_oran_testbed_integra.Base.{
  ℕ, ◌+◌, ◌-◌, ◌/◌, ◌≤◌, ltb, leb, Option, none, some, require, ◌≡◌, ◌∙◌, refl, ap, inl, inr, Bool,
  true, false, ◌&&◌, List, length, ok, arith, >>-eq-ok, >>=-eq-ok, ok-eq, if-true, if-false,
  &&-eq-true, Bool-cases,
}
use tcd_oran_testbed_integra.Stationarity.Decimals.{Decimals, at_most}
use tcd_oran_testbed_integra.Stationarity.Interval.{
  Mode, initial_pre_step, post_step, Interval, eligible, contiguous, decimal_value,
  exact_duration_ns, observed_bounds,
}
use tcd_oran_testbed_integra.Stationarity.Latest.{last?, latest_eligible_run}
use tcd_oran_testbed_integra.Stationarity.LatestRun.{IsLatest, latest_eligible_run-IsLatest}
use tcd_oran_testbed_integra.Stationarity.Window.{Metrics, window_metrics, item_of, last_row}
use tcd_oran_testbed_integra.Stationarity.Measured.{
  IsMeasured, window_metrics-IsMeasured, decimal_value-same,
}
use tcd_oran_testbed_integra.Stationarity.Windows.{LastWindows, windows-LastWindows}
use tcd_oran_testbed_integra.Stationarity.Evaluate.{
  pass, gate, Report, evaluate, evaluate_run, evaluate_windows, evaluated, insufficient,
  first_window, second_window, mean_shift_of, stationarity_pass, duration_pass,
}

gate-pass : (b : Bool) → gate b ≡ pass → b ≡ true
unfolding gate
gate-pass true h = refl
gate-pass false h = cc

module _ (D : Decimals) where
  -- The phase has lasted the minimum at the end of a row: by the receiver's own seconds before the
  -- first control, and by the wall clock from the applied control on.
  abbrev pub HasLasted : Mode → Interval D → Type 0
  HasLasted initial_pre_step row = at_most D (D.decimal 11) row.interval_end_s ≡ true
  HasLasted (post_step t0_ns) row = t0_ns + 10000000000 ≤ row.rx_wall_ns

  -- The last two windows of the latest run vary little and lie close together, and the phase has
  -- lasted long enough at the end of the second.
  pub record IsStationary (mode : Mode) (rows : List (Interval D)) : Type 0 where
    pub run : List (Interval D)
    pub latest : IsLatest (eligible D mode) (contiguous D) rows run
    pub w1 : List (Interval D)
    pub w2 : List (Interval D)
    pub windows : LastWindows (Interval D) run w1 w2
    pub m1 : Metrics D
    pub m2 : Metrics D
    pub measured_w1 : IsMeasured D w1 m1
    pub measured_w2 : IsMeasured D w2 m2
    pub cv_w1 : at_most D m1.cv_pct (D.decimal 5) ≡ true
    pub cv_w2 : at_most D m2.cv_pct (D.decimal 5) ≡ true
    pub mean_shift :
        at_most D
          (D.div
            (D.mul (D.decimal 100) (D.magnitude (D.sub m2.mean_kbit_s m1.mean_kbit_s)))
            m1.mean_kbit_s)
          (D.decimal 5)
        ≡ true
    pub final : Interval D
    pub final_is : last? w2 ≡ some final
    pub long_enough : HasLasted mode final

  item_of-ok : (o : Option (Interval D)) {row : Interval D} → item_of D o ≡ ok row → o ≡ some row
  unfolding item_of
  item_of-ok none h = absurd (cc h)
  item_of-ok (some row) h = ap some (ok-eq h)

  last_row-last? :
      (window : List (Interval D)) {row : Interval D}
      → last_row D window ≡ ok row
      → last? window ≡ some row
  unfolding last_row
  last_row-last? window h = item_of-ok (last? window) h

  observed_bounds-end :
      (row : Interval D) {bounds : ℕ × ℕ}
      → observed_bounds D row ≡ ok bounds
      → row.rx_wall_ns ≡ bounds.1
  unfolding observed_bounds
  observed_bounds-end row h =
      let (duration_ns, _, h1) = >>=-eq-ok (exact_duration_ns D row.interval_duration_s) _ h in
      let (_, h2) = >>-eq-ok (require (leb duration_ns row.rx_wall_ns) _) _ h1 in
      ap (λ b. b.1) (ok-eq h2)

  lasted : (t0_ns stop : ℕ) → leb 10000000000 (stop - t0_ns) ≡ true → t0_ns + 10000000000 ≤ stop
  lasted t0_ns stop h = ground arith

  -- The last row of a window at the end of which the phase has lasted the minimum.
  duration_pass-HasLasted :
      (mode : Mode) (window : List (Interval D))
      → duration_pass D mode window ≡ ok true
      → (final : Interval D) × (last? window ≡ some final) × HasLasted mode final
  unfolding duration_pass
  duration_pass-HasLasted initial_pre_step window h =
      let (final, f, h1) = >>=-eq-ok (last_row D window) _ h in
      let (end_s, e, h2) = >>=-eq-ok (decimal_value D final.interval_end_s) _ h1 in
      (
        final,
        last_row-last? window f,
        ap (at_most D (D.decimal 11)) (decimal_value-same D final.interval_end_s e) ∙ ok-eq h2,
      )
  duration_pass-HasLasted (post_step t0_ns) window h =
      let (final, f, h1) = >>=-eq-ok (last_row D window) _ h in
      let (bounds, e, h2) = >>=-eq-ok (observed_bounds D final) _ h1 in
      (
        final,
        last_row-last? window f,
        lasted t0_ns final.rx_wall_ns
            (ap (λ stop. leb 10000000000 (stop - t0_ns)) (observed_bounds-end final e) ∙ ok-eq h2),
      )

  stationarity_pass-parts :
      (m1 m2 : Metrics D)
      → stationarity_pass D m1 m2 ≡ true
      → (at_most D m1.cv_pct (D.decimal 5) ≡ true)
        × (at_most D m2.cv_pct (D.decimal 5) ≡ true)
        × (at_most D (mean_shift_of D m1 m2) (D.decimal 5) ≡ true)
  unfolding stationarity_pass
  stationarity_pass-parts m1 m2 h =
      let cv = at_most D m1.cv_pct (D.decimal 5) && at_most D m2.cv_pct (D.decimal 5) in
      let (c, s) = &&-eq-true cv (at_most D (mean_shift_of D m1 m2) (D.decimal 5)) h in
      let (c1, c2) = &&-eq-true (at_most D m1.cv_pct (D.decimal 5)) _ c in (c1, c2, s)

  windows-IsStationary :
      (mode : Mode) (rows run : List (Interval D)) {report : Report D}
      → IsLatest (eligible D mode) (contiguous D) rows run
      → 2 ≤ length run / 25
      → evaluate_windows D mode run ≡ ok report
      → report.statistical_phase_candidate ≡ pass
      → IsStationary mode rows
  unfolding evaluate_windows evaluated mean_shift_of
  windows-IsStationary mode rows run l n h p =
      let (m1, e1, h1) = >>=-eq-ok (window_metrics D (first_window D run)) _ h in
      let (m2, e2, h2) = >>=-eq-ok (window_metrics D (second_window D run)) _ h1 in
      let (r, h3) = >>-eq-ok _ _ h2 in
      let (duration, e3, h4) = >>=-eq-ok (duration_pass D mode (second_window D run)) _ h3 in
      let p' = gate-pass _ (ap (λ r. r.statistical_phase_candidate) (ok-eq h4) ∙ p) in
      let (s, d) = &&-eq-true (stationarity_pass D m1 m2) duration p' in
      let (c1, c2, m) = stationarity_pass-parts m1 m2 s in
      let (final, f, long) = duration_pass-HasLasted mode (second_window D run) (e3 ∙ ap ok d) in
      record {
        run = run;
        latest = l;
        w1 = first_window D run;
        w2 = second_window D run;
        windows = windows-LastWindows D run n;
        m1 = m1;
        m2 = m2;
        measured_w1 = window_metrics-IsMeasured D (first_window D run) e1;
        measured_w2 = window_metrics-IsMeasured D (second_window D run) e2;
        cv_w1 = c1;
        cv_w2 = c2;
        mean_shift = m;
        final = final;
        final_is = f;
        long_enough = long;
      }

  -- When evaluate returns a report whose statistical_phase_candidate is PASS, the rows have a
  -- latest run of eligible rows without a gap; its last two full windows of 25 rows have, of the
  -- throughputs of their rows, a coefficient of variation of at most 5 percent each and means that
  -- differ by at most 5 percent of the first; and the phase has lasted long enough at the end of
  -- the last row of the second window: that row ends at 11 seconds or later before the first
  -- control, and 10 seconds or more after the time of the applied control in the mode post-step.
  pub evaluate-IsStationary :
      (rows : List (Interval D)) (mode : Mode) {report : Report D}
      → evaluate D rows mode ≡ ok report
      → report.statistical_phase_candidate ≡ pass
      → IsStationary mode rows
  unfolding evaluate evaluate_run insufficient
  evaluate-IsStationary rows mode h p =
      let (run, e, h1) = >>=-eq-ok (latest_eligible_run D mode rows) _ h in
      let l = latest_eligible_run-IsLatest D mode rows e in
      elim (Bool-cases (ltb (length run / 25) 2)) [
        | inl t ↦
            absurd (cc (ap (λ r. r.statistical_phase_candidate) (ok-eq (if-true _ _ t h1)) ∙ p))
        | inr t ↦ windows-IsStationary mode rows run l (ground arith) (if-false _ _ t h1) p
      ]
