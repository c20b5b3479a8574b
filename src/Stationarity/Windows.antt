-- ===== src/Stationarity/Windows.antt =====
-- The two windows that evaluate takes from a run
-- (scripts/experiment-harness/evaluate-output-stationarity.py).
use tcd_oran_testbed_integra.Base.{
  take-drop, length-drop, length-take, ℕ, zero, suc, ◌+◌, ◌-◌, ◌*◌, ◌/◌, ◌%◌, ◌≤◌, ◌≡◌, ◌∙◌, refl,
  ap, sym, List, [], ◌∷◌, ◌++◌, length, take, drop, arith,
}
use tcd_oran_testbed_integra.Stationarity.Evaluate.{slice, first_window, second_window}
use tcd_oran_testbed_integra.Stationarity.Decimals.{Decimals}
use tcd_oran_testbed_integra.Stationarity.Interval.{Interval}

module _ {A : Type 0} where
  drop-nil : (n : ℕ) → drop {A = A} n [] ≡ []
  drop-nil zero = refl
  drop-nil (suc n) = refl

  drop-drop : (m n k : ℕ) (xs : List A) → n + m ≡ k → drop m (drop n xs) ≡ drop k xs
  drop-drop m zero k xs h = ap (λ i. drop i xs) (omega arith)
  drop-drop m (suc n) k [] h = drop-nil m ∙ sym (drop-nil k)
  drop-drop m (suc n) zero (x ∷ xs) h = absurd (omega arith)
  drop-drop m (suc n) (suc k) (x ∷ xs) h = drop-drop m n k xs (omega arith)

  drop-slice : (a b : ℕ) (xs : List A) → a ≤ b → drop a xs ≡ slice a b xs ++ drop b xs
  unfolding slice
  drop-slice a b xs h =
      sym (take-drop (b - a) (drop a xs))
      ∙ ap (λ r. take (b - a) (drop a xs) ++ r) (drop-drop (b - a) a b xs (omega arith))

  length-slice : (a b : ℕ) (xs : List A) → b ≤ length xs → length (slice a b xs) ≡ b - a
  unfolding slice
  length-slice a b xs h = length-take (b - a) (drop a xs) (omega (arith, length-drop a xs))

pub record LastWindows (A : Type 0) (run w1 w2 : List A) : Type 0 where
  pub front : List A
  pub rest : List A
  pub cut : run ≡ front ++ (w1 ++ (w2 ++ rest))
  pub length_w1 : length w1 ≡ 25
  pub length_w2 : length w2 ≡ 25
  pub length_rest : length rest ≡ length run % 25

module _ (D : Decimals) where
  pub windows-LastWindows :
      (run : List (Interval D))
      → 2 ≤ length run / 25
      → LastWindows (Interval D) run (first_window D run) (second_window D run)
  unfolding first_window second_window
  windows-LastWindows run h =
      let n = length run / 25 in
      let a = (n - 1 - 1) * 25 in
      let b = (n - 1) * 25 in
      let c = n * 25 in
      record {
        front = take a run;
        rest = drop c run;
        cut =
            sym (take-drop a run)
            ∙ ap (λ r. take a run ++ r)
                (drop-slice a b run (omega arith)
                  ∙ ap (λ r. slice a b run ++ r) (drop-slice b c run (omega arith)));
        length_w1 = length-slice a b run (omega arith) ∙ omega arith;
        length_w2 = length-slice b c run (omega arith) ∙ omega arith;
        length_rest = length-drop c run ∙ omega arith;
      }
