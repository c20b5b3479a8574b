-- ===== src/Stationarity/LatestRun.antt =====
-- What the loop of latest_eligible_run finds
-- (scripts/experiment-harness/evaluate-output-stationarity.py).
use mathlib.Core.List.{append_assoc, append-nil}
use mathlib.Core.Path.{subst}
use tcd_oran_testbed_integra.Base.{
  Bool, true, false, not, Option, none, some, List, [], ◌∷◌, ◌++◌, Result, ok, All, >>=-eq-ok,
  ok-eq, if-true, if-false, ◌≡◌, ◌∙◌, ◌⊎◌, inl, inr, refl, sym, ap, Bool-cases,
}
use tcd_oran_testbed_integra.Stationarity.Latest.{
  last?, push, last_run, joins, collect_runs, latest_run, latest_eligible_run,
}
use tcd_oran_testbed_integra.Stationarity.Decimals.{Decimals}
use tcd_oran_testbed_integra.Stationarity.Interval.{Mode, Interval, eligible, contiguous}

last?-snoc : {A : Type 0} (xs : List A) (x : A) → last? (xs ++ (x ∷ [])) ≡ some x
last?-snoc [] x = refl
last?-snoc (y ∷ []) x = refl
last?-snoc (y ∷ z ∷ xs) x = last?-snoc (z ∷ xs) x

last?-append :
    {A : Type 0} (xs : List A) (y : A) (ys : List A) → last? (xs ++ (y ∷ ys)) ≡ last? (y ∷ ys)
last?-append [] y ys = refl
last?-append (x ∷ []) y ys = refl
last?-append (x ∷ z ∷ xs) y ys = last?-append (z ∷ xs) y ys

All-snoc :
    {A : Type 0} (P : A → Type 0) (xs : List A) {x : A} → All P xs → P x → All P (xs ++ (x ∷ []))
All-snoc P [] a p = (p, tt)
All-snoc P (y ∷ xs) a p = (a.0, All-snoc P xs a.1 p)

module _ {A : Type 0} (is_eligible : A → Result Bool) (follows : A → A → Result Bool) where
  -- Each row follows the one before it.
  abbrev pub Follows : A → List A → Type 0
  Follows row [] = Unit
  Follows row (next ∷ rows) = follows row next ≡ ok true

  abbrev pub Chain : List A → Type 0
  Chain [] = Unit
  Chain (row ∷ rows) = Follows row rows × Chain rows

  -- No longer run ends where this one does: there is no row before it, or the last one is not
  -- eligible, or the run does not follow it.
  abbrev pub Stops : Option A → List A → Type 0
  Stops none run = Unit
  Stops (some previous) [] = ⊥
  Stops (some previous) (row ∷ rows) =
      (is_eligible previous ≡ ok false) ⊎ (follows previous row ≡ ok false)

  -- The rows are cut in three: the second part is a run, and no row of the third is eligible.
  pub record IsLatest (rows run : List A) : Type 0 where
    pub before : List A
    pub after : List A
    pub cut : rows ≡ before ++ run ++ after
    pub eligible_run : All (λ row. is_eligible row ≡ ok true) run
    pub chain : Chain run
    pub stops : Stops (last? before) run
    pub ineligible_after : All (λ row. is_eligible row ≡ ok false) after

  -- A run that the loop has closed is the latest one, and no row can go on with it.
  abbrev Ended : Option A → Type 0
  Ended none = Unit
  Ended (some previous) = is_eligible previous ≡ ok false

  -- What the loop knows of the rows it has passed.
  abbrev Held : List A → List (List A) → List A → Type 0
  Held passed runs [] = IsLatest passed (last_run (last? runs)) × Ended (last? passed)
  Held passed runs (row ∷ rows) =
      (before : List A) × (passed ≡ before ++ (row ∷ rows))
      × All (λ r. is_eligible r ≡ ok true) (row ∷ rows)
      × Chain (row ∷ rows)
      × Stops (last? before) (row ∷ rows)

  Chain-snoc :
      (rows : List A) (row : A)
      → Chain rows
      → joins is_eligible follows (last? rows) row ≡ ok true
      → Chain (rows ++ (row ∷ []))
  unfolding joins
  Chain-snoc [] row c h = (tt, tt)
  Chain-snoc (x ∷ []) row c h = (h, (tt, tt))
  Chain-snoc (x ∷ y ∷ rows) row c h = (c.0, Chain-snoc (y ∷ rows) row c.1 h)

  Stops-head :
      (o : Option A) (row : A) (rows rows' : List A) → Stops o (row ∷ rows) → Stops o (row ∷ rows')
  Stops-head none row rows rows' s = tt
  Stops-head (some p) row rows rows' s = s

  Ended-Stops : (o : Option A) (row : A) → Ended o → Stops o (row ∷ [])
  Ended-Stops none row e = tt
  Ended-Stops (some p) row e = inl e

  joins-Stops :
      (o : Option A) (row : A) → joins is_eligible follows o row ≡ ok false → Stops o (row ∷ [])
  unfolding joins
  joins-Stops none row h = tt
  joins-Stops (some p) row h = inr h

  push-IsLatest :
      (passed : List A) (runs : List (List A)) (current : List A)
      → Held passed runs current
      → IsLatest passed (last_run (last? (push runs current)))
  unfolding push last_run
  push-IsLatest passed runs [] h = h.0
  push-IsLatest passed runs (row ∷ rows) (before, cut, all, chain, stops) =
      subst (λ o. IsLatest passed (last_run o)) (sym (last?-snoc runs (row ∷ rows)))
        (record {
          before = before;
          after = [];
          cut = cut ∙ sym (append-nil (before ++ (row ∷ rows)));
          eligible_run = all;
          chain = chain;
          stops = stops;
          ineligible_after = tt;
        })

  pass_ineligible :
      (passed : List A) (row : A) (runs : List (List A)) (current : List A)
      → Held passed runs current
      → is_eligible row ≡ ok false
      → Held (passed ++ (row ∷ [])) (push runs current) []
  pass_ineligible passed row runs current h e =
      let run = last_run (last? (push runs current)) in
      let l = push-IsLatest passed runs current h in
      (
        record {
          before = l.before;
          eligible_run = l.eligible_run;
          chain = l.chain;
          stops = l.stops;
          after = l.after ++ (row ∷ []);
          cut =
              ap (λ xs. xs ++ (row ∷ [])) l.cut ∙ append_assoc (l.before ++ run) l.after (row ∷ []);
          ineligible_after = All-snoc (λ r. is_eligible r ≡ ok false) l.after l.ineligible_after e;
        },
        subst Ended (sym (last?-snoc passed row)) e,
      )

  pass_joined :
      (passed : List A) (row : A) (runs : List (List A)) (current : List A)
      → Held passed runs current
      → is_eligible row ≡ ok true
      → joins is_eligible follows (last? current) row ≡ ok true
      → Held (passed ++ (row ∷ [])) runs (current ++ (row ∷ []))
  pass_joined passed row runs [] h e j =
      (passed, refl, (e, tt), (tt, tt), Ended-Stops (last? passed) row h.1)
  pass_joined passed row runs (c ∷ cs) (before, cut, all, chain, stops) e j = (
    before,
    ap (λ xs. xs ++ (row ∷ [])) cut ∙ append_assoc before (c ∷ cs) (row ∷ []),
    All-snoc (λ r. is_eligible r ≡ ok true) (c ∷ cs) all e,
    Chain-snoc (c ∷ cs) row chain j,
    Stops-head (last? before) c cs (cs ++ (row ∷ [])) stops,
  )

  pass_broken :
      (passed : List A) (row : A) (runs : List (List A)) (current : List A)
      → Held passed runs current
      → is_eligible row ≡ ok true
      → joins is_eligible follows (last? current) row ≡ ok false
      → Held (passed ++ (row ∷ [])) (push runs current) (row ∷ [])
  unfolding joins
  pass_broken passed row runs [] h e j = absurd (cc j)
  pass_broken passed row runs (c ∷ cs) (before, cut, all, chain, stops) e j = (
    passed,
    refl,
    (e, tt),
    (tt, tt),
    subst (λ o. Stops o (row ∷ [])) (sym (ap last? cut ∙ last?-append before c cs))
        (joins-Stops (last? (c ∷ cs)) row j),
  )

  collect_runs-IsLatest :
      (passed rows : List A) (runs : List (List A)) (current : List A) {out : List (List A)}
      → Held passed runs current
      → collect_runs is_eligible follows runs current rows ≡ ok out
      → IsLatest (passed ++ rows) (last_run (last? out))
  unfolding collect_runs
  collect_runs-IsLatest passed [] runs current {out = out} held h =
      subst (λ all. IsLatest all (last_run (last? out))) (sym (append-nil passed))
        (subst (λ o. IsLatest passed (last_run (last? o))) (ok-eq h)
          (push-IsLatest passed runs current held))
  collect_runs-IsLatest passed (row ∷ rows) runs current {out = out} held h =
      let (is_in, e, h1) = >>=-eq-ok (is_eligible row) _ h in
      subst (λ all. IsLatest all (last_run (last? out))) (append_assoc passed (row ∷ []) rows)
        (elim (Bool-cases is_in) [
          | inl t ↦
              let e' = e ∙ ap ok t in
              let (joined, j, h2) =
                >>=-eq-ok (joins is_eligible follows (last? current) row) _
                  (if-false _ _ (ap not t) h1) in
              elim (Bool-cases joined) [
                | inl u ↦
                    collect_runs-IsLatest (passed ++ (row ∷ [])) rows runs (current ++ (row ∷ []))
                      (pass_joined passed row runs current held e' (j ∙ ap ok u)) (if-true _ _ u h2)
                | inr u ↦
                    collect_runs-IsLatest (passed ++ (row ∷ [])) rows (push runs current) (row ∷ [])
                      (pass_broken passed row runs current held e' (j ∙ ap ok u))
                      (if-false _ _ u h2)
              ]
          | inr t ↦
              collect_runs-IsLatest (passed ++ (row ∷ [])) rows (push runs current) []
                (pass_ineligible passed row runs current held (e ∙ ap ok t))
                (if-true _ _ (ap not t) h1)
        ])

  pub latest_run-IsLatest :
      (rows : List A) {run : List A}
      → latest_run is_eligible follows rows ≡ ok run
      → IsLatest rows run
  unfolding latest_run last_run
  latest_run-IsLatest rows h =
      let (runs, e, h1) = >>=-eq-ok (collect_runs is_eligible follows [] [] rows) _ h in
      subst (λ r. IsLatest rows r) (ok-eq h1)
        (collect_runs-IsLatest [] rows [] []
          (
            record {
              before = [];
              after = [];
              cut = refl;
              eligible_run = tt;
              chain = tt;
              stops = tt;
              ineligible_after = tt;
            },
            tt,
          )
          e)

module _ (D : Decimals) where
  -- When latest_eligible_run returns a run, the rows are cut in three: rows before it, the run and
  -- rows after it. Every row of the run is eligible, each follows the one before it without a gap,
  -- no row after the run is eligible, and the row before the run is not eligible or the run does
  -- not follow it; a run that is empty has no row before it, so that no row is eligible.
  pub latest_eligible_run-IsLatest :
      (mode : Mode) (rows : List (Interval D)) {run : List (Interval D)}
      → latest_eligible_run D mode rows ≡ ok run
      → IsLatest (eligible D mode) (contiguous D) rows run
  unfolding latest_eligible_run
  latest_eligible_run-IsLatest mode rows h =
      latest_run-IsLatest (eligible D mode) (contiguous D) rows h
