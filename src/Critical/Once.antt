-- ===== src/Critical/Once.antt =====
-- However the invocations of
-- scripts/experiment-harness/prompt12-t2-critical-section.py are interleaved, and wherever they
-- stop, a guard file is made once, and so the trigger that it guards is dispatched once.
use mathlib.Core.Path.{subst}
use tcd_oran_testbed_integra.Base.{
  ℕ, zero, suc, ◌+◌, ◌≤◌, ◌≡◌, refl, sym, ap, Bool, true, false, ◌&&◌, ◌||◌, Option, List, [], ◌∷◌,
  map, String, arith, inl, inr, Bool-cases, &&-eq-true, if◌then◌else◌,
}
use tcd_oran_testbed_integra.Base.Text.{Text, text_eq}
use tcd_oran_testbed_integra.Base.Text.Laws.{text_eq_iff}
use tcd_oran_testbed_integra.Base.Paths.Laws.{path_eq→eq}
use tcd_oran_testbed_integra.Base.Json.{Json}
use tcd_oran_testbed_integra.Base.Paths.{FilePath, path_eq, parent, ◌</>◌}
use tcd_oran_testbed_integra.Critical.Program.{
  File, intent, outcome, executor_output, claim, Label, precontrol, ratio_bind, trigger, Op, exists,
  create, persist, question, utc_now, child, read_report, Program, ret, fail, call,
}
use tcd_oran_testbed_integra.Critical.System.{
  file_eq, member, Environment, creation, added, perform, Triggers, note, System, step, run,
  start_all,
}
use tcd_oran_testbed_integra.Critical.Section.{Failure, Args, main}
use tcd_oran_testbed_integra.Critical.Guard.{
  Phase, fresh, owner, spent, after_create, next, Permitted, Runs,
}
use tcd_oran_testbed_integra.Critical.Phases.{claim_of, main-Safe}

file_eq→eq : (f g : File) → file_eq f g ≡ true → f ≡ g
file_eq→eq (intent a) (intent b) h = ap intent (path_eq→eq a b h)
file_eq→eq (outcome a) (outcome b) h = ap outcome (path_eq→eq a b h)
file_eq→eq (executor_output a) (executor_output b) h = ap executor_output (path_eq→eq a b h)
file_eq→eq (claim a s) (claim b t) h =
    let (e, f) = &&-eq-true (path_eq a b) (text_eq s t) h in
    λ i. claim (path_eq→eq a b e i) ((text_eq_iff s t).0 f i)
file_eq→eq (intent a) (outcome b) h = cc
file_eq→eq (intent a) (executor_output b) h = cc
file_eq→eq (intent a) (claim b t) h = cc
file_eq→eq (outcome a) (intent b) h = cc
file_eq→eq (outcome a) (executor_output b) h = cc
file_eq→eq (outcome a) (claim b t) h = cc
file_eq→eq (executor_output a) (intent b) h = cc
file_eq→eq (executor_output a) (outcome b) h = cc
file_eq→eq (executor_output a) (claim b t) h = cc
file_eq→eq (claim a s) (intent b) h = cc
file_eq→eq (claim a s) (outcome b) h = cc
file_eq→eq (claim a s) (executor_output b) h = cc

-- The triggers that the predicate holds of.
abbrev pub count : (FilePath → Text → Bool) → Triggers → ℕ
count matches [] = 0
count matches ((root, id) ∷ ts) = (if matches root id then 1 else 0) + count matches ts

abbrev weight : Phase → ℕ
weight fresh = 0
weight owner = 1
weight spent = 0

module _ (matches : FilePath → Text → Bool) (guard : File)
    (apart : (root : FilePath) → file_eq guard (executor_output root) ≡ false) where
  abbrev room : List File → ℕ
  room files = if member guard files then 1 else 0

  abbrev Safe : Phase → Program Failure ℕ → Type 0
  Safe ph p = Runs matches guard ph p (λ _ _. Unit) (λ _ _. Unit)

  -- The invocations are each in a phase, and their weights add up to a number.
  abbrev Phased : List (Program Failure ℕ) → ℕ → Type 0
  Phased [] n = n ≡ 0
  Phased (p ∷ ps) n = (ph : Phase) × (w : ℕ) × Safe ph p × Phased ps w × (n ≡ weight ph + w)

  -- A call keeps the weight, the triggers and the guard in balance.
  Balanced : ℕ → Triggers → List File → Phase → (op : Op) → Environment → Type 0
  Balanced extra ts files ph op e =
      weight (next matches guard ph op (perform op e files).0) + extra + count matches (note op ts)
      ≤ room (perform op e files).1

  create-Balanced :
      (extra : ℕ) (ts : Triggers) (files : List File) (ph : Phase) (f : File) (e : Environment)
      → weight ph + extra + count matches ts ≤ room files
      → Balanced extra ts files ph (create f) e
  unfolding Balanced next perform note creation
  create-Balanced extra ts files ph f e h = elim (Bool-cases (file_eq f guard)) [
    | inr n ↦ ground (arith, n)
    | inl y ↦
        subst
          (λ g.
            weight (after_create ph (file_eq g guard) (creation e.creation_fails (member g files)))
              + extra
              + count matches ts
            ≤ room (added g (creation e.creation_fails (member g files)) files))
          (sym (file_eq→eq f guard y))
          (ground (arith, subst (λ g. file_eq g guard ≡ true) (file_eq→eq f guard y) y))
  ]

  child-Balanced :
      (extra : ℕ) (ts : Triggers) (files : List File) (ph : Phase) (root : FilePath) (id : Text)
      (label : Label) (argv : List Text) (e : Environment)
      → weight ph + extra + count matches ts ≤ room files
      → Permitted matches guard ph (child root id label argv)
      → Balanced extra ts files ph (child root id label argv) e
  unfolding Balanced next perform note Permitted
  child-Balanced extra ts files ph root id trigger argv e h p =
      elim (Bool-cases (matches root id)) [
        | inl y ↦ ground (arith, y, p y, apart root)
        | inr n ↦ ground (arith, n, apart root)
      ]
  child-Balanced extra ts files ph root id precontrol argv e h p = ground (arith, apart root)
  child-Balanced extra ts files ph root id ratio_bind argv e h p = ground (arith, apart root)

  op-Balanced :
      (extra : ℕ) (ts : Triggers) (files : List File) (ph : Phase) (op : Op) (e : Environment)
      → weight ph + extra + count matches ts ≤ room files
      → Permitted matches guard ph op
      → Balanced extra ts files ph op e
  unfolding Balanced next perform note
  op-Balanced extra ts files ph (exists f) e h p = h
  op-Balanced extra ts files ph (create f) e h p = create-Balanced extra ts files ph f e h
  op-Balanced extra ts files ph (persist f content) e h p = h
  op-Balanced extra ts files ph (question q) e h p = h
  op-Balanced extra ts files ph utc_now e h p = h
  op-Balanced extra ts files ph (child root id label argv) e h p =
      child-Balanced extra ts files ph root id label argv e h p
  op-Balanced extra ts files ph (read_report f) e h p = h

  abbrev Balances : ℕ → System → Type 0
  Balances extra s =
      (n : ℕ) × Phased s.invocations n × (n + extra + count matches s.triggers ≤ room s.files)

  step-Balances :
      (i : ℕ) (e : Environment) (files : List File) (ts : Triggers) (ps : List (Program Failure ℕ))
      (n extra : ℕ)
      → Phased ps n
      → n + extra + count matches ts ≤ room files
      → Balances extra (step i e files ts ps)
  unfolding step Runs Balanced
  step-Balances i e files ts [] n extra p h = (n, p, h)
  step-Balances zero e files ts (ret a ∷ ps) n extra p h = (n, p, h)
  step-Balances zero e files ts (fail x ∷ ps) n extra p h = (n, p, h)
  step-Balances zero e files ts (call op k ∷ ps) n extra (ph, w, safe, rest, eq) h =
      let a = (perform op e files).0 in
      let ph' = next matches guard ph op a in
      let b = op-Balanced (w + extra) ts files ph op e (omega arith) safe.0 in
      (weight ph' + w, (ph', w, safe.1 a, rest, refl), omega (arith, b))
  step-Balances (suc i) e files ts (q ∷ ps) n extra (ph, w, safe, rest, eq) h =
      let (w', rest', h') =
        step-Balances i e files ts ps w (weight ph + extra) rest (omega arith) in
      (weight ph + w', (ph, w', safe, rest', refl), omega (arith, h'))

  run-Balances :
      (schedule : List (ℕ × Environment)) (s : System) → Balances 0 s → Balances 0 (run schedule s)
  unfolding run
  run-Balances [] s b = b
  run-Balances ((i, e) ∷ schedule) s (n, p, h) =
      run-Balances schedule _ (step-Balances i e s.files s.triggers s.invocations n 0 p h)

module _ (resolve : Text → Option FilePath) (script : String → FilePath)
    (loads : Text → Option Json) where
  module _ (matches : FilePath → Text → Bool) (guard : File)
      (apart : (root : FilePath) → file_eq guard (executor_output root) ≡ false)
      (guarded : (root : FilePath) (id : Text)
        → matches root id ≡ true
        → (file_eq (intent root) guard || file_eq (claim_of root id) guard) ≡ true) where
    all-Phased :
        (args : List Args) → Phased matches guard apart (map (main resolve script loads) args) 0
    all-Phased [] = refl
    all-Phased (a ∷ args) =
        (fresh, 0, main-Safe matches guard resolve script loads a guarded, all-Phased args, refl)

    guarded_once :
        (files : List File) (args : List Args) (schedule : List (ℕ × Environment))
        → count matches
            (run schedule (start_all files (map (main resolve script loads) args))).triggers
          ≤ 1
    unfolding start_all
    guarded_once files args schedule =
        let (n, p, h) =
          run-Balances matches guard apart schedule
            (start_all files (map (main resolve script loads) args))
            (0, all-Phased args, omega arith) in
        ground (arith, h)

  -- Whatever files are there at first, and however any number of invocations are interleaved and
  -- stopped, and whatever the environment answers, the trigger of a run is dispatched at most once.
  pub run_triggered_once :
      (files : List File) (args : List Args) (schedule : List (ℕ × Environment)) (root : FilePath)
      → count
          (λ r _. path_eq r root)
          (run schedule (start_all files (map (main resolve script loads) args))).triggers
        ≤ 1
  run_triggered_once files args schedule root =
      guarded_once (λ r _. path_eq r root) (intent root) (λ _. refl) (λ r id m. ground (arith, m))
        files args schedule

  -- In the same way, the runs that keep their claims in one directory dispatch at most one trigger
  -- for an operation id between them.
  pub operation_triggered_once :
      (files : List File) (args : List Args) (schedule : List (ℕ × Environment))
      (directory : FilePath) (operation_id : Text)
      → count
          (λ r id.
            path_eq (parent (parent r) </> ".t2-operation-claims") directory
            && text_eq id operation_id)
          (run schedule (start_all files (map (main resolve script loads) args))).triggers
        ≤ 1
  operation_triggered_once files args schedule directory operation_id =
      guarded_once
        (λ r id.
          path_eq (parent (parent r) </> ".t2-operation-claims") directory
          && text_eq id operation_id)
        (claim directory operation_id) (λ _. refl) (λ r id m. ground (arith, m)) files args schedule
