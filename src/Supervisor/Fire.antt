-- ===== src/Supervisor/Fire.antt =====
-- The triggers of a run: what was called, and what was counted
-- (scripts/experiment-harness/prompt12-bounded-orchestration-supervisor.py).
use mathlib.Core.Path.{subst}
use tcd_oran_testbed_integra.Base.{
  ℕ, ◌+◌, ◌≤◌, ◌≡◌, ◌≢◌, List, [], ◌∷◌, length, some, String, refl, arith, ◌∙◌, sym, ap, zero, suc,
  drop, get_elem?,
}
use tcd_oran_testbed_integra.Base.Text.{Text, strip}
use tcd_oran_testbed_integra.Supervisor.Host.{
  Host, Outcome, timed_out, unavailable, returned, success, failure, code, Live, pure, raise, crash,
  ask, update, ◌>>=◌,
}
use tcd_oran_testbed_integra.Supervisor.Phase.{
  post as post_role, require_remaining, completed, run_command,
}
use tcd_oran_testbed_integra.Supervisor.Live.{
  Plan, Transition, count_attempt, fire, one_transition, all_transitions,
}
use tcd_oran_testbed_integra.Supervisor.Logic.{
  Ends, >>=-Ends, Ends-weaken, Same, >>=-IsQuiet, ask-IsQuiet,
}
use tcd_oran_testbed_integra.Supervisor.Gate.{require_remaining-IsQuiet}
use tcd_oran_testbed_integra.Supervisor.Recorded.{
  Call, recorded, Preserves, IsBound, post, Calls, trigger, Sent, unsent, failed,
}
use tcd_oran_testbed_integra.Supervisor.Counts.{
  Counts, IsStopped, Stage, Done, Stops, keeps_Counts, phase-IsQuiet, require_traffic-IsQuiet,
  bind_ratio-Counts, attempt-Counts, success-Counts,
}

drop-head :
    {A : Type 0} (k : ℕ) (xs : List A) {x : A} {rest : List A}
    → drop k xs ≡ x ∷ rest
    → get_elem? xs k ≡ some x
drop-head zero [] h = absurd (cc h)
drop-head zero (y ∷ xs) h = cc h
drop-head (suc k) [] h = absurd (cc h)
drop-head (suc k) (y ∷ xs) h = drop-head k xs h

drop-tail :
    {A : Type 0} (k : ℕ) (xs : List A) {x : A} {rest : List A}
    → drop k xs ≡ x ∷ rest
    → drop (suc k) xs ≡ rest
drop-tail zero [] h = absurd (cc h)
drop-tail zero (y ∷ xs) h = cc h
drop-tail (suc k) [] h = absurd (cc h)
drop-tail (suc k) (y ∷ xs) h = drop-tail k xs h

drop-next :
    {A : Type 0} (k : ℕ) (xs : List A) {x : A} {rest : List A}
    → drop k xs ≡ x ∷ rest
    → drop (k + 1) xs ≡ rest
drop-next k xs h =
    let next : k + 1 ≡ suc k = omega arith in ap (λ (n : ℕ). drop n xs) next ∙ drop-tail k xs h

module _ (inner : Host) (plan : Plan) where
  abbrev host : Host
  host = recorded inner

  open host use {World, monotonic}

  -- Between the attempt and its success one attempt is open.
  open_stop :
      (k limit : ℕ) (s : Live World)
      → k + 1 ≤ limit
      → Counts (k + 1) k s.report
      → Sent plan (k + 1) k s.world.calls
      → IsStopped plan limit s.report s.world.calls
  open_stop k limit s h o sent = record {
    attempts = k + 1;
    successes = k;
    counts = o;
    in_order = omega arith;
    at_most_one_open = omega arith;
    limited = h;
    sent = sent;
  }

  -- The ratio of the next trigger is bound.
  abbrev IsReady : Transition → ℕ → World → Type 0
  IsReady t k j = Calls plan k j.calls × IsBound t j.calls

  keeps_IsReady : (t : Transition) (k : ℕ) → Preserves host (IsReady t k) (λ _. ⊥)
  keeps_IsReady t k = record {
    clock = λ w c. c;
    slept = λ n w c. c;
    ran = λ argv limit never w c. absurd never;
    begun = λ argv w c. c;
    polled = λ w c. c;
    ended = λ w c. c;
  }

  -- A trigger that has returned, and not yet been counted as a success.
  record Fired (k : ℕ) (s : Live World) : Type 0 where
    counts : Counts (k + 1) k s.report
    calls : Calls plan (k + 1) s.world.calls

  timed_out-fails : (stdout : Text) → ¬ (timed_out ≡ returned success stdout)
  timed_out-fails stdout = λ e. cc

  unavailable-fails : (stdout : Text) → ¬ (unavailable ≡ returned success stdout)
  unavailable-fails stdout = λ e. cc

  failure-fails :
      (number : String) (out stdout : Text)
      → ¬ (returned (failure number) out ≡ returned success stdout)
  failure-fails number out stdout = λ e. cc

  module _ (t : Transition) (k limit : ℕ) (at : get_elem? plan.transitions k ≡ some t)
      (h : k + 1 ≤ limit) where
    -- How the call of the trigger ends.
    completed-Fired :
        (reason : String) (outcome : Outcome) (s : Live World) (calls : List Call)
        → Counts (k + 1) k s.report
        → IsBound t calls
        → Calls plan k calls
        → s.world.calls ≡ record { argv = t.trigger_command; outcome = outcome } ∷ calls
        → Ends (completed host reason outcome s) (λ _ s'. Fired k s') (Stops inner plan limit)
    unfolding completed raise crash pure
    completed-Fired reason timed_out s calls c bound before e = (
      λ x. ground arith,
      open_stop k limit s h c
          (subst (Sent plan (k + 1) k) (sym e) (failed t at timed_out-fails bound before)),
    )
    completed-Fired reason unavailable s calls c bound before e = (
      λ x. cc,
      open_stop k limit s h c
          (subst (Sent plan (k + 1) k) (sym e) (failed t at unavailable-fails bound before)),
    )
    completed-Fired reason (returned success stdout) s calls c bound before e = record {
      counts = c;
      calls = subst (Calls plan (k + 1)) (sym e) (trigger t at bound before);
    }
    completed-Fired reason (returned (failure number) stdout) s calls c bound before e = (
      λ x. cc,
      open_stop k limit s h c (
          subst (Sent plan (k + 1) k) (sym e)
            (failed t at (failure-fails number stdout) bound before)),
    )

    -- The command of the trigger, after its attempt has been counted.
    run_command-Fired :
        (started : ℕ) (reason : String) (s : Live World)
        → Counts (k + 1) k s.report
        → IsBound t s.world.calls
        → Calls plan k s.world.calls
        → Ends
            (run_command host t.trigger_command started reason s)
            (λ _ s'. Fired k s')
            (Stops inner plan limit)
    unfolding run_command ask ◌>>=◌
    run_command-Fired started reason s c bound before =
        >>=-Ends (λ _ s'. Same (IsReady t k) s.report s') (λ _ s'. Fired k s')
          (Stops inner plan limit) (require_remaining host started "EXPERIMENT_TIMEOUT") _ s
          (Ends-weaken (λ _ s'. Same (IsReady t k) s.report s')
            (λ _ s'. Same (IsReady t k) s.report s')
            (λ rc s'. (rc ≢ some (code 0)) × Same (IsReady t k) s.report s')
            (Stops inner plan limit) _
            ((require_remaining-IsQuiet host (IsReady t k) (λ _. ⊥) (keeps_IsReady t k) started
                "EXPERIMENT_TIMEOUT").quiet
              s.report s (record { report_is = refl; kept = (before, bound) }))
            (λ _ s' e. e)
            (λ rc s' e. (e.0, open_stop k limit s' h (rw e.1.report_is c) (unsent e.1.kept.0))))
          (λ remaining s1 e.
            let w = inner.run t.trigger_command remaining s1.world.world in
            let s2 : Live World = record s1 {
              world = record {
                world = w.1;
                calls = record { argv = t.trigger_command; outcome = w.0 } ∷ s1.world.calls;
              };
            } in
            completed-Fired reason w.0 s2 s1.world.calls (rw e.report_is c) e.kept.1 e.kept.0 refl)

    fire-Counts :
        (started : ℕ) (s : Live World)
        → Stage plan k s
        → IsBound t s.world.calls
        → Ends (fire host started t s) (Done inner plan (k + 1)) (Stops inner plan limit)
    unfolding fire update
    fire-Counts started s c bound =
        >>=-Ends
          (λ _ s'.
            Counts (k + 1) k s'.report × Calls plan k s'.world.calls × IsBound t s'.world.calls)
          (Done inner plan (k + 1)) (Stops inner plan limit) (update count_attempt) _ s
          (attempt-Counts inner plan k s.report c.counts, c.calls, bound)
          (λ _ s1 c1.
            >>=-Ends (λ _ s'. Fired k s') (Done inner plan (k + 1)) (Stops inner plan limit) _ _ s1
              (run_command-Fired started _ s1 c1.0 c1.2 c1.1)
              (λ out s2 c2. record {
                counts = success-Counts inner plan t.label (strip out) k s2.report c2.counts;
                calls = c2.calls;
              }))

    one_transition-Counts :
        (started : ℕ) (s : Live World)
        → Stage plan k s
        → Ends (one_transition host started t s) (Done inner plan (k + 1)) (Stops inner plan limit)
    unfolding one_transition
    one_transition-Counts started s c =
        let n = k + 1 in
        >>=-Ends (Done inner plan k) (Done inner plan n) (Stops inner plan limit) _ _ s
          (keeps_Counts inner plan _ k limit s
            (require_traffic-IsQuiet inner plan k "TRAFFIC_TERMINATED_BEFORE_TRIGGER")
            (omega (arith, h)) c)
          (λ _ s1 c1.
            >>=-Ends (λ _ s'. Stage plan k s' × IsBound t s'.world.calls) (Done inner plan n)
              (Stops inner plan limit) _ _ s1
              (bind_ratio-Counts inner plan started t k limit s1 at (omega (arith, h)) c1)
              (λ _ s2 c2.
                >>=-Ends (Done inner plan n) (Done inner plan n) (Stops inner plan limit) _ _ s2
                  (fire-Counts started s2 c2.0 c2.1)
                  (λ _ s3 c3.
                    keeps_Counts inner plan _ n limit s3
                      (>>=-IsQuiet _ _ (ask-IsQuiet monotonic (λ w c. c)) (λ now.
                        phase-IsQuiet inner plan n t.post_stationarity_command started now post_role
                          (post k t at)))
                      h c3)))

  pub all_transitions-Counts :
      (started : ℕ) (ts : List Transition) (k limit : ℕ) (s : Live World)
      → drop k plan.transitions ≡ ts
      → k + length ts ≤ limit
      → Stage plan k s
      → Ends
          (all_transitions host started ts s)
          (Done inner plan (k + length ts))
          (Stops inner plan limit)
  unfolding all_transitions pure
  all_transitions-Counts started [] k limit s at h c =
      subst (λ (n : ℕ). Stage plan n s) (omega arith) c
  all_transitions-Counts started (t ∷ ts) k limit s at h c =
      let n = k + length (t ∷ ts) in
      >>=-Ends (Done inner plan (k + 1)) (Done inner plan n) (Stops inner plan limit) _ _ s
        (one_transition-Counts t k limit (drop-head k plan.transitions at) (omega (arith, h))
          started s c)
        (λ count s1 c1.
          >>=-Ends (Done inner plan n) (Done inner plan n) (Stops inner plan limit) _ _ s1
            (subst
              (λ (m : ℕ).
                Ends (all_transitions host started ts s1) (Done inner plan m)
                  (Stops inner plan limit))
              (omega arith)
              (all_transitions-Counts started ts (k + 1) limit s1 (drop-next k plan.transitions at)
                (omega (arith, h)) c1))
            (λ counts s2 c2. c2))
