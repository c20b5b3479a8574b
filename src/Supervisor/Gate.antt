-- ===== src/Supervisor/Gate.antt =====
-- The stationarity gate of a phase: its rounds are bounded, and it leaves the report alone
-- (scripts/experiment-harness/prompt12-bounded-orchestration-supervisor.py).
use mathlib.Core.Path.{subst}
use text.Mathlib.Text.{◌==◌ as str_eq}
use tcd_oran_testbed_integra.Base.{
  ℕ, zero, suc, ◌+◌, ◌≤◌, ◌≡◌, true, false, Bool, List, Option, String, refl, arith, leb,
  if◌then◌else◌, Bool-cases, inl, inr,
}
use tcd_oran_testbed_integra.Base.Text.{Text}
use tcd_oran_testbed_integra.Supervisor.Host.{
  Host, Outcome, timed_out, unavailable, returned, success, failure, Reading, not_json, not_object,
  no_gate, gate_value, Action, ExitCode, code, child, Live, raise_if, pure, crash, Reply, done,
  ◌>>=◌,
}
use tcd_oran_testbed_integra.Supervisor.Phase.{
  Role, max_extensions, require_remaining, validate_extension_count, wait_for_observation,
  completed, run_command, gate_passes, extend, gate_loop, stationarity_gate,
}
use tcd_oran_testbed_integra.Supervisor.Recorded.{Preserves}
use tcd_oran_testbed_integra.Supervisor.Logic.{
  Anything, ends_somehow, Ends, >>=-Ends, IsQuiet, >>=-IsQuiet, ask-IsQuiet, act-IsQuiet,
  pure-IsQuiet, crash-IsQuiet, raise-IsQuiet, raise_if-IsQuiet,
}

module _ (host : Host) (I : host.World → Type 0) (Allowed : List String → Type 0)
    (keeps : Preserves host I Allowed) where
  open host use {World, monotonic, sleep, run, loads}

  pub require_remaining-IsQuiet :
      (started : ℕ) (reason : String) → IsQuiet I (require_remaining host started reason)
  unfolding require_remaining
  require_remaining-IsQuiet started reason =
      >>=-IsQuiet _ _ (ask-IsQuiet monotonic keeps.clock)
        (λ now. >>=-IsQuiet _ _ (raise_if-IsQuiet _ reason 124 (omega arith)) (λ _. pure-IsQuiet _))

  wait_for_observation-IsQuiet :
      (target started phase_started : ℕ) (role : Role)
      → IsQuiet I (wait_for_observation host target started phase_started role)
  unfolding wait_for_observation
  wait_for_observation-IsQuiet target started phase_started role =
      >>=-IsQuiet _ _ (raise_if-IsQuiet _ _ 124 (omega arith)) (λ _.
        >>=-IsQuiet _ _ (ask-IsQuiet monotonic keeps.clock) (λ now.
          >>=-IsQuiet _ _ (require_remaining-IsQuiet started "EXPERIMENT_TIMEOUT") (λ remaining.
            >>=-IsQuiet _ _ (raise_if-IsQuiet _ _ 124 (omega arith))
              (λ _. act-IsQuiet _ (keeps.slept _)))))

  completed-IsQuiet : (reason : String) (o : Outcome) → IsQuiet I (completed host reason o)
  unfolding completed
  completed-IsQuiet reason timed_out = raise-IsQuiet Text reason (code 124) (λ e. ground arith)
  completed-IsQuiet reason unavailable = crash-IsQuiet Text "OSError"
  completed-IsQuiet reason (returned success stdout) = pure-IsQuiet stdout
  completed-IsQuiet reason (returned (failure number) stdout) =
      raise-IsQuiet Text _ (child number) (λ e. cc)

  pub run_command-IsQuiet :
      (argv : List String) (started : ℕ) (reason : String)
      → Allowed argv
      → IsQuiet I (run_command host argv started reason)
  unfolding run_command
  run_command-IsQuiet argv started reason allowed =
      >>=-IsQuiet _ _ (require_remaining-IsQuiet started "EXPERIMENT_TIMEOUT") (λ remaining.
        >>=-IsQuiet _ _ (ask-IsQuiet (run argv remaining) (keeps.ran argv remaining allowed))
          (λ o. completed-IsQuiet reason o))

  gate_passes-IsQuiet : (reading : Reading) → IsQuiet I (gate_passes host reading)
  unfolding gate_passes
  gate_passes-IsQuiet not_json = raise-IsQuiet Bool _ (code 65) (λ e. ground arith)
  gate_passes-IsQuiet not_object = crash-IsQuiet Bool "AttributeError"
  gate_passes-IsQuiet no_gate = raise-IsQuiet Bool _ (code 65) (λ e. ground arith)
  gate_passes-IsQuiet (gate_value v) = elim (Bool-cases (str_eq v "PASS")) [
    | inl p ↦ rw p (pure-IsQuiet true)
    | inr n ↦ rw n (elim (Bool-cases (str_eq v "FAIL")) [
      | inl f ↦ rw f (pure-IsQuiet false)
      | inr g ↦ rw g (raise-IsQuiet Bool _ (code 65) (λ e. ground arith))
    ])
  ]

  extend-IsQuiet :
      (n : ℕ) (again : Action World ℕ) → IsQuiet I again → IsQuiet I (extend host n again)
  unfolding extend validate_extension_count
  extend-IsQuiet n again q =
      >>=-IsQuiet _ _ (raise_if-IsQuiet _ _ 125 (omega arith))
        (λ _. >>=-IsQuiet _ _ (raise_if-IsQuiet _ _ 125 (omega arith)) (λ _. q))

  gate_loop-IsQuiet :
      (fuel : ℕ) (argv : List String) (started phase_started : ℕ) (role : Role) (extensions : ℕ)
      → Allowed argv
      → IsQuiet I (gate_loop host fuel argv started phase_started role extensions)
  unfolding gate_loop
  gate_loop-IsQuiet zero argv started phase_started role n allowed = crash-IsQuiet ℕ "out of fuel"
  gate_loop-IsQuiet (suc fuel) argv started phase_started role n allowed =
      >>=-IsQuiet _ _ (wait_for_observation-IsQuiet _ started phase_started role) (λ _.
        >>=-IsQuiet _ _ (run_command-IsQuiet argv started "STATIONARITY_EVALUATOR_FAILED" allowed)
          (λ out. >>=-IsQuiet _ _ (gate_passes-IsQuiet (loads out)) (λ passed.
            round passed n (gate_loop host fuel argv started phase_started role (n + 1))
              (gate_loop-IsQuiet fuel argv started phase_started role (n + 1) allowed))))
    where
      round :
          (passed : Bool) (n : ℕ) (again : Action World ℕ)
          → IsQuiet I again
          → IsQuiet I (if passed then pure n else extend host n again)
      round true n again q = pure-IsQuiet n
      round false n again q = extend-IsQuiet n again q

  pub stationarity_gate-IsQuiet :
      (argv : List String) (started phase_started : ℕ) (role : Role)
      → Allowed argv
      → IsQuiet I (stationarity_gate host argv started phase_started role)
  unfolding stationarity_gate
  stationarity_gate-IsQuiet argv started phase_started role allowed =
      gate_loop-IsQuiet 3 argv started phase_started role 0 allowed

module _ (host : Host) where
  open host use {World}

  -- More rounds than three change nothing: the extensions run out first.
  pub gate_loop_enough :
      (fuel : ℕ) (argv : List String) (started phase_started : ℕ) (role : Role)
      → gate_loop host (suc (suc (suc fuel))) argv started phase_started role 0
        ≡ stationarity_gate host argv started phase_started role
  unfolding stationarity_gate gate_loop ◌>>=◌ raise_if pure
  gate_loop_enough fuel argv started phase_started role = refl

  abbrev AtMostTwo : ℕ → Live World → Type 0
  AtMostTwo n _ = n ≤ 2

  within : (n : ℕ) → leb max_extensions n ≡ false → n + 1 ≤ 2
  within n h = ground arith

  raise_if-passed :
      (c : Bool) (reason : String) (rc : ℕ) (s : Live World)
      → Ends (raise_if c reason rc s) (λ _ _. c ≡ false) Anything
  unfolding raise_if
  raise_if-passed true reason rc s = tt
  raise_if-passed false reason rc s = refl

  -- A further round is made only while another extension is allowed.
  extend-Ends :
      (n : ℕ) (again : Action World ℕ) (s : Live World)
      → (n + 1 ≤ 2 → (s' : Live World) → Ends (again s') AtMostTwo Anything)
      → Ends (extend host n again s) AtMostTwo Anything
  unfolding extend
  extend-Ends n again s k =
      >>=-Ends (λ _ _. leb max_extensions n ≡ false) AtMostTwo Anything _ _ s
        (raise_if-passed (leb max_extensions n) "MAX_STATIONARITY_EXTENSIONS_EXCEEDED" 125 s)
        (λ _ s1 more.
          >>=-Ends Anything AtMostTwo Anything _ _ s1 (ends_somehow _)
            (λ _ s2 _. k (within n more) s2))

  round-Ends :
      (n : ℕ) (again : Action World ℕ) (passed : Bool) (s : Live World)
      → n ≤ 2
      → (n + 1 ≤ 2 → (s' : Live World) → Ends (again s') AtMostTwo Anything)
      → Ends ((if passed then pure n else extend host n again) s) AtMostTwo Anything
  unfolding pure
  round-Ends n again true s h k = h
  round-Ends n again false s h k = extend-Ends n again s k

  gate_loop-Ends :
      (fuel : ℕ) (argv : List String) (started phase_started : ℕ) (role : Role) (n : ℕ)
      → n ≤ 2
      → (s : Live World)
      → Ends (gate_loop host fuel argv started phase_started role n s) AtMostTwo Anything
  unfolding gate_loop crash
  gate_loop-Ends zero argv started phase_started role n h s = tt
  gate_loop-Ends (suc fuel) argv started phase_started role n h s =
      >>=-Ends Anything AtMostTwo Anything _ _ s (ends_somehow _) (λ _ s1 _.
        >>=-Ends Anything AtMostTwo Anything _ _ s1 (ends_somehow _) (λ out s2 _.
          >>=-Ends Anything AtMostTwo Anything _ _ s2 (ends_somehow _) (λ passed s3 _.
            round-Ends n (gate_loop host fuel argv started phase_started role (n + 1)) passed s3 h
              (λ more s4. gate_loop-Ends fuel argv started phase_started role (n + 1) more s4))))

  ended :
      {A : Type 0} (Q : A → Live World → Type 0) (E : Option ExitCode → Live World → Type 0)
      (x : Reply A × Live World) (a : A) (s : Live World)
      → Ends x Q E
      → x ≡ (done a, s)
      → Q a s
  ended Q E x a s h e = subst (λ (y : Reply _ × Live World). Ends y Q E) e h

  -- However many rounds the loop of a gate may take, a phase that passes its gate took at most two
  -- extensions, and changed nothing in the report.
  pub gate_loop_bounded :
      (fuel : ℕ) (argv : List String) (started phase_started : ℕ) (role : Role) (s s' : Live World)
      (n : ℕ)
      → gate_loop host fuel argv started phase_started role 0 s ≡ (done n, s')
      → (n ≤ 2) × (s'.report ≡ s.report)
  gate_loop_bounded fuel argv started phase_started role s s' n h =
      let any : Preserves host (λ _. Unit {0}) (λ _. Unit {0}) = record {
        clock = λ _ _. tt;
        slept = λ _ _ _. tt;
        ran = λ _ _ _ _ _. tt;
        begun = λ _ _ _. tt;
        polled = λ _ _. tt;
        ended = λ _ _. tt;
      } in
      let same =
        (gate_loop-IsQuiet host _ _ any fuel argv started phase_started role 0 tt).quiet s.report s
          (record { report_is = refl; kept = tt }) in
      (
        ended AtMostTwo Anything _ n s'
            (gate_loop-Ends fuel argv started phase_started role 0 (omega arith) s) h,
        (ended _ _ _ n s' same h).report_is,
      )
