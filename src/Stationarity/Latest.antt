-- ===== src/Stationarity/Latest.antt =====
-- The loop of latest_eligible_run (scripts/experiment-harness/evaluate-output-stationarity.py) over
-- rows of any type, and its use for intervals.
use tcd_oran_testbed_integra.Base.{
  Bool, true, not, Option, none, some, List, [], ◌∷◌, ◌++◌, Result, ok, ◌>>=◌, if◌then◌else◌,
}
use tcd_oran_testbed_integra.Stationarity.Decimals.{Decimals}
use tcd_oran_testbed_integra.Stationarity.Interval.{Mode, Interval, eligible, contiguous}

-- `xs[-1]`
abbrev pub last? {ℓ} : {A : Type ℓ} → List A → Option A
last? [] = none
last? (x ∷ []) = some x
last? (x ∷ y ∷ xs) = last? (y ∷ xs)

module _ {A : Type 0} where
  -- `if current: runs.append(current)`
  unfoldable pub push : List (List A) → List A → List (List A)
  push runs [] = runs
  push runs (row ∷ rows) = runs ++ ((row ∷ rows) ∷ [])

  -- `if not runs: return []`, else `runs[-1]`
  unfoldable pub last_run : Option (List A) → List A
  last_run none = []
  last_run (some run) = run

module _ {A : Type 0} (is_eligible : A → Result Bool) (follows : A → A → Result Bool) where
  -- Whether the row goes on with `current`.
  unfoldable pub joins : Option A → A → Result Bool
  joins none row = ok true
  joins (some previous) row = follows previous row

  unfoldable pub collect_runs : List (List A) → List A → List A → Result (List (List A))
  collect_runs runs current [] = ok (push runs current)
  collect_runs runs current (row ∷ rows) = do
    is_in ← is_eligible row
    if not is_in then collect_runs (push runs current) [] rows else do
      joined ← joins (last? current) row
      if joined
          then collect_runs runs (current ++ (row ∷ [])) rows
          else collect_runs (push runs current) (row ∷ []) rows

  unfoldable pub latest_run : List A → Result (List A)
  latest_run rows = do runs ← collect_runs [] [] rows; ok (last_run (last? runs))

module _ (D : Decimals) where
  unfoldable pub latest_eligible_run : Mode → List (Interval D) → Result (List (Interval D))
  latest_eligible_run mode rows = latest_run (eligible D mode) (contiguous D) rows
