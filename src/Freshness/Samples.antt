-- ===== src/Freshness/Samples.antt =====
-- The rows of the log that count
-- (scripts/experiment-harness/prompt12-precontrol-freshness.py).
use mathlib.Core.Path.{subst}
use package.text.Mathlib.Text.{◌==◌ as str_eq}
use text.Mathlib.TextEquality.{eq_iff}
use tcd_oran_testbed_integra.Base.{
  ℕ, ◌≤◌, leb, ◌≡◌, refl, sym, Bool, true, false, not, ◌&&◌, ◌||◌, Option, none, some, List, [],
  ◌∷◌, All, Result, ok, err, require, >>-eq-ok, >>=-eq-ok, ok-eq, ◌∙◌, ap, ltb, String,
  if◌then◌else◌, require-eq-ok, &&-eq-true, arith,
}
use tcd_oran_testbed_integra.Stationarity.Decimals.{Decimals}
use tcd_oran_testbed_integra.Freshness.Rows.{
  Row, Line, blank, not_json, json_row, read_rows, is_selected, check_row, keep_row, complete_rows,
}

not-ltb : (a b : ℕ) → not (ltb a b) ≡ true → b ≤ a
not-ltb a b h = ground arith

not-ltb-leb : (a b : ℕ) → not (ltb a b) ≡ leb b a
not-ltb-leb a b = ground arith

and-true : (b : Bool) → (b && true) ≡ b
and-true true = refl
and-true false = refl

module _ (D : Decimals) where
  -- No time is later than a cutoff, if there is one.
  abbrev pub IsWithin : Option ℕ → ℕ → Type 0
  IsWithin none time = Unit
  IsWithin (some cutoff) time = time ≤ cutoff

  -- A complete interval of 0.2 s that the cutoff leaves.
  abbrev pub IsSample : Option ℕ → Row D → Type 0
  IsSample cutoff row =
      (row.interval_class ≡ "complete")
      × IsWithin cutoff row.timestamp_utc_ns
      × (D.same row.interval_duration_s D.fifth ≡ true)

  is_selected-IsWithin :
      (cutoff : Option ℕ) (row : Row D)
      → is_selected D cutoff row ≡ true
      → (row.interval_class ≡ "complete") × IsWithin cutoff row.timestamp_utc_ns
  unfolding is_selected
  is_selected-IsWithin none row h =
      let (complete, _) = &&-eq-true (str_eq row.interval_class "complete") _ h in
      ((eq_iff _ _).0 complete, tt)
  is_selected-IsWithin (some cutoff) row h =
      let (complete, within) = &&-eq-true (str_eq row.interval_class "complete") _ h in
      ((eq_iff _ _).0 complete, not-ltb cutoff row.timestamp_utc_ns within)

  -- The rows of a log, and those of them that count.
  abbrev pub rows_of : List (Line D) → List (Row D)
  rows_of [] = []
  rows_of (blank ∷ lines) = rows_of lines
  rows_of (not_json ∷ lines) = rows_of lines
  rows_of (json_row row ∷ lines) = row ∷ rows_of lines

  abbrev pub is_sample : Option ℕ → Row D → Bool
  is_sample none row = str_eq row.interval_class "complete"
  is_sample (some cutoff) row =
      str_eq row.interval_class "complete" && leb row.timestamp_utc_ns cutoff

  abbrev pub samples_of : Option ℕ → List (Row D) → List (Row D)
  samples_of cutoff [] = []
  samples_of cutoff (row ∷ rows) =
      if is_sample cutoff row then row ∷ samples_of cutoff rows else samples_of cutoff rows

  is_selected-is_sample :
      (cutoff : Option ℕ) (row : Row D) → is_selected D cutoff row ≡ is_sample cutoff row
  unfolding is_selected
  is_selected-is_sample none row = and-true (str_eq row.interval_class "complete")
  is_selected-is_sample (some cutoff) row =
      ap (λ b. str_eq row.interval_class "complete" && b) (not-ltb-leb cutoff row.timestamp_utc_ns)

  pub read_rows-rows_of :
      (experiment_id run_id : String) (lines : List (Line D)) {rows : List (Row D)}
      → read_rows D experiment_id run_id lines ≡ ok rows
      → rows ≡ rows_of lines
  unfolding read_rows
  read_rows-rows_of e r [] h = sym (ok-eq h)
  read_rows-rows_of e r (blank ∷ lines) h = read_rows-rows_of e r lines h
  read_rows-rows_of e r (not_json ∷ lines) h = absurd (cc h)
  read_rows-rows_of e r (json_row row ∷ lines) h =
      let (_, h1) = >>-eq-ok (require (str_eq row.experiment_id e) _) _ h in
      let (_, h2) = >>-eq-ok (require (str_eq row.run_id r) _) _ h1 in
      let (rest, h3, h4) = >>=-eq-ok (read_rows D e r lines) _ h2 in
      sym (ok-eq h4) ∙ ap (λ rows. row ∷ rows) (read_rows-rows_of e r lines h3)

  keep_row-if :
      (b : Bool) (row : Row D) (m : Result (List (Row D))) {complete : List (Row D)}
      → keep_row D b row m ≡ ok complete
      → (rest : List (Row D)) × (m ≡ ok rest) × (complete ≡ (if b then row ∷ rest else rest))
  keep_row-if true row (ok rest) h = (rest, refl, sym (ok-eq h))
  keep_row-if false row (ok rest) h = (rest, refl, sym (ok-eq h))
  keep_row-if true row (err reason) h = absurd (cc h)
  keep_row-if false row (err reason) h = absurd (cc h)

  pub complete_rows-samples_of :
      (cutoff previous : Option ℕ) (rows : List (Row D)) {complete : List (Row D)}
      → complete_rows D cutoff previous rows ≡ ok complete
      → complete ≡ samples_of cutoff rows
  unfolding complete_rows
  complete_rows-samples_of cutoff previous [] h = sym (ok-eq h)
  complete_rows-samples_of cutoff previous (row ∷ rows) h =
      let more = complete_rows D cutoff (some row.timestamp_utc_ns) rows in
      let (_, h1) =
        >>-eq-ok (check_row D cutoff previous row) (keep_row D (is_selected D cutoff row) row more)
          h in
      let (rest, h2, h3) = keep_row-if (is_selected D cutoff row) row more h1 in
      h3
      ∙ ap (λ b. if b then row ∷ rest else rest) (is_selected-is_sample cutoff row)
      ∙ ap (λ rest. if is_sample cutoff row then row ∷ rest else rest)
          (complete_rows-samples_of cutoff (some row.timestamp_utc_ns) rows h2)

  or-true : (a b : Bool) → (not a || b) ≡ true → a ≡ true → b ≡ true
  or-true true b h e = h
  or-true false b h e = cc

  check_row-duration :
      (cutoff previous : Option ℕ) (row : Row D)
      → check_row D cutoff previous row ≡ ok tt
      → is_selected D cutoff row ≡ true
      → D.same row.interval_duration_s D.fifth ≡ true
  unfolding check_row
  check_row-duration cutoff previous row h e =
      let (_, h1) = >>-eq-ok _ _ h in or-true (is_selected D cutoff row) _ (require-eq-ok _ _ h1) e

  keep_row-All :
      (P : Row D → Type 0) (b : Bool) (row : Row D) (m : Result (List (Row D)))
      {complete : List (Row D)}
      → (b ≡ true → P row)
      → ((rows : List (Row D)) → m ≡ ok rows → All P rows)
      → keep_row D b row m ≡ ok complete
      → All P complete
  keep_row-All P true row (ok rows) p a h = subst (All P) (ok-eq h) (p refl, a rows refl)
  keep_row-All P false row (ok rows) p a h = subst (All P) (ok-eq h) (a rows refl)
  keep_row-All P true row (err reason) p a h = absurd (cc h)
  keep_row-All P false row (err reason) p a h = absurd (cc h)

  pub complete_rows-All :
      (cutoff previous : Option ℕ) (rows complete : List (Row D))
      → complete_rows D cutoff previous rows ≡ ok complete
      → All (IsSample cutoff) complete
  unfolding complete_rows
  complete_rows-All cutoff previous [] complete h = subst (All (IsSample cutoff)) (ok-eq h) tt
  complete_rows-All cutoff previous (row ∷ rows) complete h =
      let rest = complete_rows D cutoff (some row.timestamp_utc_ns) rows in
      let (c, h1) =
        >>-eq-ok (check_row D cutoff previous row) (keep_row D (is_selected D cutoff row) row rest)
          h in
      keep_row-All (IsSample cutoff) (is_selected D cutoff row) row rest
        (λ e.
          let (complete, within) = is_selected-IsWithin cutoff row e in
          (complete, within, check_row-duration cutoff previous row c e))
        (λ kept e. complete_rows-All cutoff (some row.timestamp_utc_ns) rows kept e) h1
