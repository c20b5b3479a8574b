-- ===== src/Stationarity/Geometry.antt =====
-- The checks of a window that the windows of a run pass
-- (scripts/experiment-harness/evaluate-output-stationarity.py).
use mathlib.Core.Path.{subst}
use tcd_oran_testbed_integra.Base.{
  ◌/◌, ◌≤◌, ◌≡◌, ◌∙◌, refl, ap, inl, inr, Bool, true, not, Bool-cases, List, [], ◌∷◌, ◌++◌, All,
  length, Result, ok, >>=-eq-ok, if-true, ok-eq,
}
use tcd_oran_testbed_integra.Stationarity.Decimals.{Decimals}
use tcd_oran_testbed_integra.Stationarity.Interval.{
  Mode, Interval, eligible, is_complete, contiguous,
}
use tcd_oran_testbed_integra.Stationarity.LatestRun.{Chain, IsLatest}
use tcd_oran_testbed_integra.Stationarity.Window.{
  all_complete, all_contiguous, check_next, check_span, validate_window_geometry,
}
use tcd_oran_testbed_integra.Stationarity.Windows.{windows-LastWindows}
use tcd_oran_testbed_integra.Stationarity.Evaluate.{first_window, second_window}

All-append : {A : Type 0} (P : A → Type 0) (xs ys : List A) → All P (xs ++ ys) → All P xs × All P ys
All-append P [] ys a = (tt, a)
All-append P (x ∷ xs) ys a = let (l, r) = All-append P xs ys a.1 in ((a.0, l), r)

Chain-append :
    {A : Type 0} (f : A → Result Bool) (g : A → A → Result Bool) (xs ys : List A)
    → Chain f g (xs ++ ys)
    → Chain f g xs × Chain f g ys
Chain-append f g [] ys c = (tt, c)
Chain-append f g (x ∷ []) ys c = ((tt, tt), c.1)
Chain-append f g (x ∷ y ∷ xs) ys c = let (l, r) = Chain-append f g (y ∷ xs) ys c.1 in ((c.0, l), r)

module _ (D : Decimals) (mode : Mode) where
  eligible-is_complete :
      (row : Interval D) → eligible D mode row ≡ ok true → is_complete D row ≡ ok true
  unfolding eligible
  eligible-is_complete row h =
      let (c, e, h1) = >>=-eq-ok (is_complete D row) _ h in
      elim (Bool-cases c) [
        | inl t ↦ e ∙ ap ok t
        | inr t ↦ absurd (cc (ok-eq (if-true _ _ (ap not t) h1)))
      ]

  All-all_complete :
      (rows : List (Interval D))
      → All (λ row. eligible D mode row ≡ ok true) rows
      → all_complete D rows ≡ ok tt
  unfolding all_complete
  All-all_complete [] a = refl
  All-all_complete (row ∷ rows) a = rw (eligible-is_complete row a.0) (All-all_complete rows a.1)

  Chain-all_contiguous :
      (rows : List (Interval D))
      → Chain (eligible D mode) (contiguous D) rows
      → all_contiguous D rows ≡ ok tt
  unfolding all_contiguous check_next
  Chain-all_contiguous [] c = refl
  Chain-all_contiguous (row ∷ []) c = refl
  Chain-all_contiguous (row ∷ next ∷ rows) c = rw c.0 (Chain-all_contiguous (next ∷ rows) c.1)

  geometry-check_span :
      (w : List (Interval D))
      → length w ≡ 25
      → All (λ row. eligible D mode row ≡ ok true) w
      → Chain (eligible D mode) (contiguous D) w
      → validate_window_geometry D w ≡ check_span D w
  unfolding validate_window_geometry
  geometry-check_span w n a c = simp (n, All-all_complete w a, Chain-all_contiguous w c) refl

  -- In the two windows that evaluate takes from the latest run of any rows, the checks of the
  -- number of samples, of completeness and of contiguity never fail: validate_window_geometry
  -- comes down to the check of the span.
  pub windows-check_span :
      (rows run : List (Interval D))
      → IsLatest (eligible D mode) (contiguous D) rows run
      → 2 ≤ length run / 25
      → (validate_window_geometry D (first_window D run) ≡ check_span D (first_window D run))
        × (validate_window_geometry D (second_window D run) ≡ check_span D (second_window D run))
  windows-check_span rows run l n =
      let w = windows-LastWindows D run n in
      let E = λ (row : Interval D). eligible D mode row ≡ ok true in
      let w1 = first_window D run in
      let w2 = second_window D run in
      let a = All-append E w.front (w1 ++ (w2 ++ w.rest)) (subst (All E) w.cut l.eligible_run) in
      let a' = All-append E w1 (w2 ++ w.rest) a.1 in
      let C = Chain (eligible D mode) (contiguous D) in
      let c =
        Chain-append (eligible D mode) (contiguous D) w.front (w1 ++ (w2 ++ w.rest))
          (subst C w.cut l.chain) in
      let c' = Chain-append (eligible D mode) (contiguous D) w1 (w2 ++ w.rest) c.1 in
      (
        geometry-check_span w1 w.length_w1 a'.0 c'.0,
        geometry-check_span w2 w.length_w2 (All-append E w2 w.rest a'.1).0
            (Chain-append (eligible D mode) (contiguous D) w2 w.rest c'.1).0,
      )
