-- ===== src/Sequence/Run.antt =====
-- The whole dry run, `main` of
-- scripts/experiment-harness/prompt12-six-transition-orchestrator.py.
use mathlib.Core.Path.{ap₂, subst}
use text.Mathlib.TextEquality.{eq_iff}
use tcd_oran_testbed_integra.Base.{
  ℕ, zero, suc, ◌≡◌, ◌↔◌, ◌⊎◌, inl, inr, true, false, Option, none, some, List, [], ◌∷◌, length, ok,
  err, Result, Returns, arith, refl, >>-eq-ok, >>=-eq-ok, sym, ap, ◌∙◌, Bool, ◌>>=◌, Bool-cases,
  &&-eq-true, take, if◌then◌else◌,
}
use tcd_oran_testbed_integra.Sequence.Plan.{
  Gate, pass, is_pass, Transition, expected_transitions, transition_eq, plan_eq,
  load_schema_transition_plan,
}
use tcd_oran_testbed_integra.Sequence.ParseLaws.{parse_post_gates_iff}
use tcd_oran_testbed_integra.Sequence.Parse.{parse_post_gates, validate_identity}
use tcd_oran_testbed_integra.Sequence.Identity.{NamesExperiment, NamesRun, validate_identity_iff}
use tcd_oran_testbed_integra.Sequence.Outcome.{
  admitted, passes, IsOutcome, evaluate_sequence-IsOutcome,
}
use tcd_oran_testbed_integra.Sequence.Evaluate.{
  make_control_plan, Args, Report, Control, evaluate_sequence, build_report, write_report, main,
}

-- Each control starts at the setting at which the one before it ended.
abbrev pub IsChain : ℕ → ℕ → List Control → Type 0
IsChain ratio prbs [] = Unit
IsChain ratio prbs (c ∷ cs) =
    (c.from_ratio_pct ≡ ratio) × (c.from_prbs ≡ prbs) × IsChain c.to_ratio_pct c.to_prbs cs

-- A report that the run has written, with its exit code.
pub record IsDryRun (args : Args) (report : Report) (rc : ℕ) : Type 0 where
  pub fresh : args.output_exists ≡ false
  pub experiment : NamesExperiment args.repeat_id args.experiment_id
  pub run : NamesRun args.run_id
  pub planned : args.schema ≡ some expected_transitions
  pub six : length report.post_stationarity_gates ≡ 6
  pub read : parse_post_gates args.post_stationarity_gates ≡ ok report.post_stationarity_gates
  pub outcome :
      IsOutcome (args.initial_stationarity_gate ∷ report.post_stationarity_gates) report.sequence
  pub chained : IsChain 25 13 report.sequence.controls
  pub exit :
      (rc ≡ 0) ↔ (passes (args.initial_stationarity_gate ∷ report.post_stationarity_gates) ≡ 7)
  pub blocked : (rc ≡ 0) ⊎ (rc ≡ 20)

transition_eq→eq : (a b : Transition) → transition_eq a b ≡ true → a ≡ b
transition_eq→eq a b h = ground (arith, eq_iff a.transition_label b.transition_label)

plan_eq→eq : (s t : List Transition) → plan_eq s t ≡ true → s ≡ t
plan_eq→eq [] [] h = refl
plan_eq→eq [] (b ∷ t) h = cc
plan_eq→eq (a ∷ s) [] h = cc
plan_eq→eq (a ∷ s) (b ∷ t) h =
    let (one, rest) = &&-eq-true (transition_eq a b) _ h in
    ap₂ (λ x xs. x ∷ xs) (transition_eq→eq a b one) (plan_eq→eq s t rest)

loaded :
    (schema : Option (List Transition)) (plan : List Transition)
    → load_schema_transition_plan schema ≡ ok plan
    → (schema ≡ some expected_transitions) × (plan ≡ expected_transitions)
unfolding load_schema_transition_plan
loaded none plan h = cc
loaded (some p) plan h = elim (Bool-cases (plan_eq p expected_transitions)) [
  | inl same ↦ let e = plan_eq→eq p expected_transitions same in (ap some e, cc (rw same at h, e))
  | inr other ↦ absurd (cc (rw other at h))
]

admitted-IsChain : (n : ℕ) → IsChain 25 13 (take n (admitted 0 expected_transitions))
unfolding make_control_plan
admitted-IsChain zero = ground arith
admitted-IsChain (suc zero) = ground arith
admitted-IsChain (suc (suc zero)) = ground arith
admitted-IsChain (suc (suc (suc zero))) = ground arith
admitted-IsChain (suc (suc (suc (suc zero)))) = ground arith
admitted-IsChain (suc (suc (suc (suc (suc zero))))) = ground arith
admitted-IsChain (suc (suc (suc (suc (suc (suc zero)))))) = ground arith
admitted-IsChain (suc (suc (suc (suc (suc (suc (suc n))))))) = ground arith

evaluated :
    (g : Gate) (gates : List Gate)
    → length gates ≡ 6
    → Returns (evaluate_sequence expected_transitions g gates) (IsOutcome (g ∷ gates))
evaluated g (g₁ ∷ g₂ ∷ g₃ ∷ g₄ ∷ g₅ ∷ g₆ ∷ []) six = evaluate_sequence-IsOutcome g g₁ g₂ g₃ g₄ g₅ g₆
evaluated g _ six = absurd (omega arith)

returned : {A : Type 0} (P : A → Type 0) (m : Result A) (a : A) → Returns m P → m ≡ ok a → P a
returned P (ok x) a p h = subst P (cc) p
returned P (err e) a p h = absurd p

exit_iff :
    (gate : Gate) (n : ℕ) (rc : ℕ)
    → (gate ≡ pass) ↔ (n ≡ 7)
    → rc ≡ (if is_pass gate then 0 else 20)
    → ((rc ≡ 0) ↔ (n ≡ 7)) × ((rc ≡ 0) ⊎ (rc ≡ 20))
exit_iff gate n rc p h = ground arith

kept :
    (output_exists : Bool) (built written : Report)
    → write_report output_exists built ≡ ok written
    → (output_exists ≡ false) × (built ≡ written)
unfolding write_report
kept true built written h = cc
kept false built written h = (refl, cc)

-- The entries of a built report that the gates decide.
abbrev Decided : Args → List Gate → Report → Type 0
Decided args gates report =
    (report.post_stationarity_gates ≡ gates)
    × IsOutcome (args.initial_stationarity_gate ∷ gates) report.sequence

decided :
    (args : Args) (gates : List Gate) (built : Report)
    → length gates ≡ 6
    → build_report args expected_transitions gates ≡ ok built
    → Decided args gates built
unfolding build_report
decided args gates built six builds =
    let g = args.initial_stationarity_gate in
    let (s, evaluates, whole) =
      >>=-eq-ok (evaluate_sequence expected_transitions g gates) _ builds in
    let outcome : IsOutcome (g ∷ gates) s =
      returned (IsOutcome (g ∷ gates)) _ s (evaluated g gates six) evaluates in
    returned (Decided args gates) _ built (refl, outcome) whole

dry_run :
    (args : Args) (gates : List Gate) (r : Report)
    → length gates ≡ 6
    → args.output_exists ≡ false
    → args.schema ≡ some expected_transitions
    → NamesExperiment args.repeat_id args.experiment_id
    → NamesRun args.run_id
    → parse_post_gates args.post_stationarity_gates ≡ ok gates
    → Decided args gates r
    → IsDryRun args r (if is_pass r.sequence.sequence_gate then 0 else 20)
dry_run args gates r six fresh schema named ran parsed (same, outcome) =
    let g = args.initial_stationarity_gate in
    let outcome' : IsOutcome (g ∷ r.post_stationarity_gates) r.sequence =
      subst (λ gs. IsOutcome (g ∷ gs) r.sequence) (sym same) outcome in
    let ends =
      exit_iff r.sequence.sequence_gate (passes (g ∷ r.post_stationarity_gates)) _
        outcome'.passes_gate refl in
    record {
      fresh = fresh;
      experiment = named;
      run = ran;
      planned = schema;
      six = ap length same ∙ six;
      read = parsed ∙ ap ok (sym same);
      outcome = outcome';
      chained =
          subst (IsChain 25 13) (sym outcome'.admits)
            (admitted-IsChain (passes (g ∷ r.post_stationarity_gates)));
      exit = ends.0;
      blocked = ends.1;
    }

-- Whatever `main` writes, the arguments were in order, the report holds the gates as they were
-- given with the outcome that they call for, its controls are a chain of settings that begins at
-- 25 percent and 13 PRBs, and the exit code is 0 exactly when all seven gates pass, else 20.
pub main-IsDryRun :
    (args : Args) (report : Report) (rc : ℕ) → main args ≡ ok (report, rc) → IsDryRun args report rc
unfolding main
main-IsDryRun args report rc h =
    let (identity, h1) =
      >>-eq-ok (validate_identity args.experiment_id args.run_id args.repeat_id) _ h in
    let (plan, loads, h2) = >>=-eq-ok (load_schema_transition_plan args.schema) _ h1 in
    let (gates, parsed, h3) = >>=-eq-ok (parse_post_gates args.post_stationarity_gates) _ h2 in
    let (built, builds, h4) = >>=-eq-ok (build_report args plan gates) _ h3 in
    let (written, writes, h5) = >>=-eq-ok (write_report args.output_exists built) _ h4 in
    let (schema, planned) = loaded args.schema plan loads in
    let six = ((parse_post_gates_iff args.post_stationarity_gates gates).0 parsed).1 in
    let (fresh, same) = kept args.output_exists built written writes in
    let d =
      decided args gates built six
        (subst (λ q. build_report args q gates ≡ ok built) planned builds) in
    let (named, ran) =
      (validate_identity_iff args.experiment_id args.run_id args.repeat_id).0 identity in
    returned (λ result. IsDryRun args result.0 result.1) _ (report, rc)
      (dry_run args gates written six fresh schema named ran parsed
        (subst (Decided args gates) same d))
      h5

loads_expected : load_schema_transition_plan (some expected_transitions) ≡ ok expected_transitions
unfolding load_schema_transition_plan
loads_expected = refl

is_returned : {A : Type 0} (P : A → Type 0) (m : Result A) → Returns m P → (a : A) × (m ≡ ok a)
is_returned P (ok a) h = (a, refl)
is_returned P (err e) h = absurd h

ok_map :
    {A B : Type 0} (m : Result A) (f : A → B) {a : A}
    → m ≡ ok a
    → (b : B) × ((m >>= λ x. ok (f x)) ≡ ok b)
ok_map (ok x) f h = (f x, refl)
ok_map (err e) f h = cc

built_report :
    (args : Args) (gates : List Gate)
    → length gates ≡ 6
    → (r : Report) × (build_report args expected_transitions gates ≡ ok r)
unfolding build_report
built_report args gates six =
    let g = args.initial_stationarity_gate in
    let (s, e) = is_returned (IsOutcome (g ∷ gates)) _ (evaluated g gates six) in
    ok_map (evaluate_sequence expected_transitions g gates) _ e

runs :
    (args : Args) (gates : List Gate) (r : Report)
    → validate_identity args.experiment_id args.run_id args.repeat_id ≡ ok tt
    → args.schema ≡ some expected_transitions
    → parse_post_gates args.post_stationarity_gates ≡ ok gates
    → build_report args expected_transitions gates ≡ ok r
    → args.output_exists ≡ false
    → main args ≡ ok (r, if is_pass r.sequence.sequence_gate then 0 else 20)
unfolding main write_report
runs args gates r identity schema parsed builds fresh =
    simp (identity, schema, loads_expected, parsed, builds, fresh)

-- Arguments in order are never refused: with the identities as they must be, the frozen plan in
-- the schema, six gates and no file at the output path, `main` writes a report.
pub main_returns :
    (args : Args) (gates : List Gate)
    → NamesExperiment args.repeat_id args.experiment_id
    → NamesRun args.run_id
    → args.schema ≡ some expected_transitions
    → parse_post_gates args.post_stationarity_gates ≡ ok gates
    → args.output_exists ≡ false
    → (report : Report) × (rc : ℕ) × (main args ≡ ok (report, rc)) × IsDryRun args report rc
main_returns args gates named ran schema parsed fresh =
    let six = ((parse_post_gates_iff args.post_stationarity_gates gates).0 parsed).1 in
    let (r, builds) = built_report args gates six in
    let rc = if is_pass r.sequence.sequence_gate then 0 else 20 in
    let identity =
      (validate_identity_iff args.experiment_id args.run_id args.repeat_id).1 (named, ran) in
    let run = runs args gates r identity schema parsed builds fresh in
    (r, rc, run, main-IsDryRun args r rc run)
