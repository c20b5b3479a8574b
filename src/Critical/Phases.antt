-- ===== src/Critical/Phases.antt =====
-- Each invocation of scripts/experiment-harness/prompt12-t2-critical-section.py dispatches the
-- trigger only after it has made the guard itself, and once.
use mathlib.Core.Path.{subst}
use tcd_oran_testbed_integra.Base.{
  ◌≡◌, refl, sym, Bool, true, false, not, ◌||◌, Option, none, some, List, String, Result, ok, err,
  inl, inr, Bool-cases,
}
use tcd_oran_testbed_integra.Base.Text.{Text, codes, splitlines}
use tcd_oran_testbed_integra.Base.Json.{
  Json, object, null, other_number, boolean, number, text, array,
}
use tcd_oran_testbed_integra.Base.Paths.{FilePath, parent, ◌</>◌}
use tcd_oran_testbed_integra.Critical.Program.{
  File, intent, outcome, claim, Content, Label, precontrol, ratio_bind, trigger, Creation, created,
  Question, claims_is_symlink, claims_mkdir, claims_is_dir, control_is_dir, question, exists,
  consumed, file_exists, os_error, executor_output, read_report, utc_now, json, unreadable,
  not_text, ◌>>◌, ChildResult, returned, failed, unknown, undecodable, Reading, Program, ret, fail,
  call, ◌>>=◌, ask, rethrow,
}
use tcd_oran_testbed_integra.Critical.System.{file_eq}
use tcd_oran_testbed_integra.Critical.Plan.{Plan, load_plan}
use tcd_oran_testbed_integra.Critical.Section.{
  Failure, Answered, is_authorized, file_exists_error, uncaught, critical, has_line,
  resolve_trigger, os_error_raised, raise_if, after_creation, operation_claimed, executor_pass,
  write_exclusive, run_child, child_output, check_stationarity, stationarity_pass, check_executor,
  attempt, attempt_recorded, claim_operation, run_live, Args, exit_code, inspect_or_run, main_read,
  main,
}
use tcd_oran_testbed_integra.Critical.Guard.{
  Phase, fresh, owner, after_create, next, Permitted, Runs, >>=-Runs, rethrow-Runs, finally_do-Runs,
}

-- The claim of an operation, for a run with the given root.
abbrev pub claim_of : FilePath → Text → File
claim_of root id = claim (parent (parent root) </> ".t2-operation-claims") id

owns :
    (a b : Bool) → (a || b) ≡ true → after_create (after_create fresh a created) b created ≡ owner
owns true true h = refl
owns true false h = refl
owns false true h = refl
owns false false h = cc

module _ (matches : FilePath → Text → Bool) (guard : File) where
  -- The program ends in the same phase, or raises.
  abbrev Stays : {E A : Type 0} → Phase → Program E A → Type 0
  Stays ph p = Runs matches guard ph p (λ ph' _. ph' ≡ ph) (λ _ _. Unit)

  abbrev Safe : {E A : Type 0} → Phase → Program E A → Type 0
  Safe ph p = Runs matches guard ph p (λ _ _. Unit) (λ _ _. Unit)

  Runs-Safe :
      {E A : Type 0} (ph : Phase) (p : Program E A) (Q : Phase → A → Type 0)
      → Runs matches guard ph p Q (λ _ _. Unit)
      → Safe ph p
  unfolding Runs
  Runs-Safe ph (ret a) Q r = tt
  Runs-Safe ph (fail e) Q r = tt
  Runs-Safe ph (call op k) Q r = (r.0, λ a. Runs-Safe (next matches guard ph op a) (k a) Q (r.1 a))

  raise_if-Stays : {E : Type 0} (ph : Phase) (b : Bool) (e : E) → Stays ph (raise_if b e)
  unfolding Runs
  raise_if-Stays ph true e = tt
  raise_if-Stays ph false e = refl

  raise_if-Runs : (ph : Phase) (w : Bool) → Stays ph (raise_if (not w) os_error_raised)
  unfolding Runs
  raise_if-Runs ph true = refl
  raise_if-Runs ph false = tt

  child_output-Stays :
      (ph : Phase) (label : Label) (r : ChildResult) → Stays ph (child_output label r)
  unfolding Runs
  child_output-Stays ph label (returned stdout) = refl
  child_output-Stays ph label (failed rc) = tt
  child_output-Stays ph label (unknown name) = tt
  child_output-Stays ph label undecodable = tt

  after_creation-Runs :
      (ph : Phase) (f : File) (content : Content) (c : Creation)
      → Runs matches guard
          (after_create ph (file_eq f guard) c)
          (after_creation f content c)
          (λ ph' _. ph' ≡ after_create ph (file_eq f guard) created)
          (λ _ _. Unit)
  unfolding Runs ask ◌>>=◌ next Permitted
  after_creation-Runs ph f content created =
      (tt, λ w. raise_if-Runs (after_create ph (file_eq f guard) created) w)
  after_creation-Runs ph f content file_exists = tt
  after_creation-Runs ph f content os_error = tt

  write_exclusive-Runs :
      (ph : Phase) (f : File) (content : Content)
      → Runs matches guard ph
          (write_exclusive f content)
          (λ ph' _. ph' ≡ after_create ph (file_eq f guard) created)
          (λ _ _. Unit)
  unfolding Runs write_exclusive ask ◌>>=◌ next Permitted
  write_exclusive-Runs ph f content = (tt, λ c. after_creation-Runs ph f content c)

  stays_then :
      {E A B : Type 0} (ph : Phase) (p : Program E A) (f : A → Program E B) (Q : Phase → B → Type 0)
      → Stays ph p
      → ((a : A) → Runs matches guard ph (f a) Q (λ _ _. Unit))
      → Runs matches guard ph (p >>= f) Q (λ _ _. Unit)
  stays_then ph p f Q s k =
      >>=-Runs matches guard ph p f (λ ph' _. ph' ≡ ph) Q (λ _ _. Unit) s
        (λ ph' a e. subst (λ x. Runs matches guard x (f a) Q (λ _ _. Unit)) (sym e) (k a))

  -- What is left after a call that changes no phase.
  ask_child-Stays :
      (ph : Phase) (root : FilePath) (id : Text) (argv : List Text)
      → Stays ph (run_child root id argv precontrol) × Stays ph (run_child root id argv ratio_bind)
  unfolding Runs run_child ask ◌>>=◌ next Permitted
  ask_child-Stays ph root id argv =
      ((tt, λ r. child_output-Stays ph precontrol r), (tt, λ r. child_output-Stays ph ratio_bind r))

  child_output-Safe :
      (ph : Phase) (label : Label) (r : ChildResult) → Safe ph (child_output label r)
  unfolding Runs
  child_output-Safe ph label (returned stdout) = tt
  child_output-Safe ph label (failed rc) = tt
  child_output-Safe ph label (unknown name) = tt
  child_output-Safe ph label undecodable = tt

  ask_trigger-Safe :
      (ph : Phase) (root : FilePath) (id : Text) (argv : List Text)
      → (matches root id ≡ true → ph ≡ owner)
      → Safe ph (run_child root id argv trigger)
  unfolding Runs run_child ask ◌>>=◌ next Permitted
  ask_trigger-Safe ph root id argv h = (h, λ r. child_output-Safe _ trigger r)

  check_stationarity-Stays : (ph : Phase) (o : Option Json) → Stays ph (check_stationarity o)
  unfolding Runs ◌>>=◌
  check_stationarity-Stays ph none = tt
  check_stationarity-Stays ph (some (object fields)) =
      stays_then ph (raise_if (not (stationarity_pass fields)) _) _ _
        (raise_if-Stays ph (not (stationarity_pass fields)) _) (λ _. refl)
  check_stationarity-Stays ph (some null) = tt
  check_stationarity-Stays ph (some other_number) = tt
  check_stationarity-Stays ph (some (boolean b)) = tt
  check_stationarity-Stays ph (some (number n)) = tt
  check_stationarity-Stays ph (some (text t)) = tt
  check_stationarity-Stays ph (some (array items)) = tt

  raise_if-Safe : {E : Type 0} (ph : Phase) (b : Bool) (e : E) → Safe ph (raise_if b e)
  unfolding Runs
  raise_if-Safe ph true e = tt
  raise_if-Safe ph false e = tt

  check_executor-Safe : (ph : Phase) (r : Reading) → Safe ph (check_executor r)
  unfolding Runs
  check_executor-Safe ph (json (object report)) = raise_if-Safe ph (not (executor_pass report)) _
  check_executor-Safe ph (json null) = tt
  check_executor-Safe ph (json other_number) = tt
  check_executor-Safe ph (json (boolean b)) = tt
  check_executor-Safe ph (json (number n)) = tt
  check_executor-Safe ph (json (text t)) = tt
  check_executor-Safe ph (json (array items)) = tt
  check_executor-Safe ph unreadable = tt
  check_executor-Safe ph not_text = tt

  now-Stays : (E : Type 0) (ph : Phase) → Stays {E = E} ph (ask utc_now)
  unfolding Runs ask next Permitted
  now-Stays E ph = (tt, λ t. refl)

  question-Stays : (E : Type 0) (ph : Phase) (q : Question) → Stays {E = E} ph (ask (question q))
  unfolding Runs ask next Permitted
  question-Stays E ph q = (tt, λ t. refl)

  exists-Stays : (E : Type 0) (ph : Phase) (f : File) → Stays {E = E} ph (ask (exists f))
  unfolding Runs ask next Permitted
  exists-Stays E ph f = (tt, λ t. refl)

  question_then :
      {E B : Type 0} (ph : Phase) (q : Question) (f : Bool → Program E B) (Q : Phase → B → Type 0)
      → ((a : Bool) → Runs matches guard ph (f a) Q (λ _ _. Unit))
      → Runs matches guard ph (ask (question q) >>= f) Q (λ _ _. Unit)
  question_then ph q f Q = stays_then ph (ask (question q)) f Q (question-Stays _ ph q)

  exists_then :
      {E B : Type 0} (ph : Phase) (g : File) (f : Bool → Program E B) (Q : Phase → B → Type 0)
      → ((a : Bool) → Runs matches guard ph (f a) Q (λ _ _. Unit))
      → Runs matches guard ph (ask (exists g) >>= f) Q (λ _ _. Unit)
  exists_then ph g f Q = stays_then ph (ask (exists g)) f Q (exists-Stays _ ph g)

  raise_then :
      {E B : Type 0} (ph : Phase) (b : Bool) (e : E) (p : Program E B) (Q : Phase → B → Type 0)
      → Runs matches guard ph p Q (λ _ _. Unit)
      → Runs matches guard ph (raise_if b e >> p) Q (λ _ _. Unit)
  raise_then ph b e p Q r = stays_then ph (raise_if b e) (λ _. p) Q (raise_if-Stays ph b e) (λ _. r)

  moves_then :
      {E B : Type 0} (ph ph' : Phase) (p : Program E (Unit {0})) (q : Program E B)
      (Q : Phase → B → Type 0)
      → Runs matches guard ph p (λ x _. x ≡ ph') (λ _ _. Unit)
      → Runs matches guard ph' q Q (λ _ _. Unit)
      → Runs matches guard ph (p >> q) Q (λ _ _. Unit)
  moves_then ph ph' p q Q r k =
      >>=-Runs matches guard ph p (λ _. q) (λ x _. x ≡ ph') Q (λ _ _. Unit) r
        (λ x _ e. subst (λ y. Runs matches guard y q Q (λ _ _. Unit)) (sym e) k)

  write_exclusive-Safe :
      (ph : Phase) (f : File) (content : Content) → Safe ph (write_exclusive f content)
  write_exclusive-Safe ph f content = Runs-Safe ph _ _ (write_exclusive-Runs ph f content)

  ret-Safe : (E : Type 0) {A : Type 0} (ph : Phase) (a : A) → Safe {E = E} ph (ret a)
  unfolding Runs
  ret-Safe E ph a = tt

  -- The last part of the body: the trigger and its report.
  trigger-Safe :
      (ph : Phase) (root : FilePath) (id : Text) (argv : List Text)
      → (matches root id ≡ true → ph ≡ owner)
      → Safe ph (
          run_child root id argv trigger >>= λ _.
          ask (read_report (executor_output root)) >>= λ r. check_executor r)
  unfolding Runs ask ◌>>=◌ next Permitted
  trigger-Safe ph root id argv h =
      >>=-Runs matches guard ph (run_child root id argv trigger) _ (λ _ _. Unit) (λ _ _. Unit)
        (λ _ _. Unit) (ask_trigger-Safe ph root id argv h)
        (λ ph' _ _. (tt, λ r. check_executor-Safe ph' r))

  ratio-Stays :
      (ph : Phase) (root : FilePath) (id : Text) (argv : List Text)
      → Stays ph (
          run_child root id argv ratio_bind >>= λ stdout.
          raise_if
            (not (has_line (codes "RATIO_BOUND=PASS") (splitlines stdout)))
            (critical "T2_RATIO_BIND_MARKER_MISSING")
          >> ask utc_now)
  ratio-Stays ph root id argv =
      stays_then ph (run_child root id argv ratio_bind) _ (λ ph' _. ph' ≡ ph)
        (ask_child-Stays ph root id argv).1
        (λ stdout.
          stays_then ph (raise_if _ _) _ (λ ph' _. ph' ≡ ph) (raise_if-Stays ph _ _)
            (λ _. now-Stays _ ph))

  module _ (loads : Text → Option Json) (plan : Plan) where
    attempt-Safe :
        (ph : Phase) (root : FilePath) (id token : Text)
        → (matches root id ≡ true → ph ≡ owner)
        → Safe ph (attempt loads root id plan token)
    unfolding attempt
    attempt-Safe ph root id token h =
        stays_then ph (rethrow _ _) _ (λ _ _. Unit)
          (rethrow-Runs matches guard ph _ _ (λ ph' _. ph' ≡ ph) (λ _ _. Unit)
            (stays_then ph (run_child root id plan.precontrol precontrol) _ (λ ph' _. ph' ≡ ph)
              (ask_child-Stays ph root id plan.precontrol).0
              (λ stdout. check_stationarity-Stays ph (loads stdout))))
          (λ st.
            stays_then ph (rethrow _ _) _ (λ _ _. Unit)
              (rethrow-Runs matches guard ph _ _ (λ ph' _. ph' ≡ ph) (λ _ _. Unit)
                (ratio-Stays ph root id plan.ratio))
              (λ rb.
                >>=-Runs matches guard ph (rethrow _ _) _ (λ _ _. Unit) (λ _ _. Unit) (λ _ _. Unit)
                  (rethrow-Runs matches guard ph _ _ (λ _ _. Unit) (λ _ _. Unit)
                    (trigger-Safe ph root id (resolve_trigger token plan.trigger) h))
                  (λ ph' _ _. ret-Safe _ ph' _)))

    attempt_recorded-Safe :
        (ph : Phase) (root : FilePath) (id token : Text)
        → (matches root id ≡ true → ph ≡ owner)
        → Safe ph (attempt_recorded loads root id plan token)
    unfolding attempt_recorded
    attempt_recorded-Safe ph root id token h =
        finally_do-Runs matches guard ph _ _ _ (attempt loads root id plan token) (λ _ _. Unit)
          (λ _ _. Unit) (attempt-Safe ph root id token h) (λ ph' a. write_exclusive-Safe ph' _ _)
          (λ ph' e. write_exclusive-Safe ph' _ _)

    claim_operation-Runs :
        (ph : Phase) (root : FilePath) (id : Text)
        → Runs matches guard ph
            (claim_operation loads root id)
            (λ ph' _. ph' ≡ after_create ph (file_eq (claim_of root id) guard) created)
            (λ _ _. Unit)
    unfolding claim_operation
    claim_operation-Runs ph root id =
        let Q = λ (ph' : Phase) (_ : Unit {0}).
          ph' ≡ after_create ph (file_eq (claim_of root id) guard) created in
        question_then ph claims_is_symlink _ Q (λ s. raise_then ph s _ _ Q (
          question_then ph claims_mkdir _ Q (λ m. raise_then ph (not m) _ _ Q (
            question_then ph claims_is_dir _ Q (λ d. raise_then ph (not d) _ _ Q (
              rethrow-Runs matches guard ph operation_claimed _ Q (λ _ _. Unit)
                (write_exclusive-Runs ph (claim_of root id) (consumed id))))))))

    run_live-Safe :
        (id token : Text)
        → (let root = parent (parent plan.executor_output) in
            matches root id ≡ true
            → (file_eq (intent root) guard || file_eq (claim_of root id) guard) ≡ true)
        → Safe fresh (run_live loads plan id token)
    unfolding run_live
    run_live-Safe id token h =
        let root = parent (parent plan.executor_output) in
        let Q = λ (_ : Phase) (_ : Answered). Unit {0} in
        let ph1 = after_create fresh (file_eq (intent root) guard) created in
        let ph2 = after_create ph1 (file_eq (claim_of root id) guard) created in
        question_then fresh control_is_dir _ Q (λ d. raise_then fresh (not d) _ _ Q (
          exists_then fresh (intent root) _ Q (λ a. raise_then fresh a _ _ Q (
            exists_then fresh (outcome root) _ Q (λ b. raise_then fresh b _ _ Q (
              exists_then fresh (executor_output root) _ Q (λ c. raise_then fresh c _ _ Q (
                moves_then fresh ph1 (write_exclusive (intent root) (consumed id)) _ Q
                  (write_exclusive-Runs fresh (intent root) (consumed id))
                  (moves_then ph1 ph2 (claim_operation loads root id) _ Q
                    (claim_operation-Runs ph1 root id)
                    (attempt_recorded-Safe ph2 root id token (λ m.
                      owns (file_eq (intent root) guard) (file_eq (claim_of root id) guard)
                        (h m))))))))))))

  exit_code-Safe :
      {A : Type 0} (ph : Phase) (p : Program Failure A) → Safe ph p → Safe ph (exit_code p)
  unfolding Runs exit_code
  exit_code-Safe ph (ret a) r = tt
  exit_code-Safe ph (fail (critical reason)) r = tt
  exit_code-Safe ph (fail file_exists_error) r = tt
  exit_code-Safe ph (fail os_error_raised) r = tt
  exit_code-Safe ph (fail uncaught) r = tt
  exit_code-Safe ph (call op k) r =
      (r.0, λ a. exit_code-Safe (next matches guard ph op a) (k a) (r.1 a))

  module _ (resolve : Text → Option FilePath) (script : String → FilePath)
      (loads : Text → Option Json) where
    run_or_inspect-Safe :
        (args : Args) (p : Result Plan)
        → ((root : FilePath) (id : Text)
            → matches root id ≡ true
            → (file_eq (intent root) guard || file_eq (claim_of root id) guard) ≡ true)
        → Safe fresh (inspect_or_run resolve script loads args p)
    unfolding inspect_or_run Runs
    run_or_inspect-Safe args (err reason) h = tt
    run_or_inspect-Safe args (ok plan) h = elim (Bool-cases args.is_live) [
      | inr e ↦ simp e tt
      | inl e ↦ elim (Bool-cases (is_authorized args)) [
        | inr f ↦ simp (e, f) tt
        | inl f ↦ simp (e, f) (exit_code-Safe fresh _ (run_live-Safe loads plan _ _ (h _ _)))
      ]
    ]

    main_read-Safe :
        (args : Args) (r : Reading)
        → ((root : FilePath) (id : Text)
            → matches root id ≡ true
            → (file_eq (intent root) guard || file_eq (claim_of root id) guard) ≡ true)
        → Safe fresh (main_read resolve script loads args r)
    unfolding main_read Runs
    main_read-Safe args (json j) h = run_or_inspect-Safe args (load_plan resolve script j) h
    main_read-Safe args unreadable h = tt
    main_read-Safe args not_text h = tt

    -- An invocation that has not started owns nothing, and is safe.
    pub main-Safe :
        (args : Args)
        → ((root : FilePath) (id : Text)
            → matches root id ≡ true
            → (file_eq (intent root) guard || file_eq (claim_of root id) guard) ≡ true)
        → Safe fresh (main resolve script loads args)
    unfolding main
    main-Safe args h = main_read-Safe args args.materialization h
