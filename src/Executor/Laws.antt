-- ===== src/Executor/Laws.antt =====
-- What a run of scripts/experiment-harness/prompt12-precontrol-trigger-executor.py has done, and
-- what it says that it has done.
use mathlib.Core.Path.{subst}
use tcd_oran_testbed_integra.Base.{
  ℕ, ◌≤◌, ◌≡◌, ◌≢◌, ◌↔◌, refl, sym, ◌∙◌, Bool, true, false, Option, none, some, List, [], ◌∷◌, ◌++◌,
  length, String, arith, if◌then◌else◌,
}
use tcd_oran_testbed_integra.Base.Text.{Text}
use tcd_oran_testbed_integra.Base.Integers.{ℤ}
use tcd_oran_testbed_integra.Base.Json.{Json}
use tcd_oran_testbed_integra.Stationarity.Decimals.{Decimals}
use tcd_oran_testbed_integra.Executor.Report.{
  Mode, no_control, fifo, Args, Host, Write, complete, partial, raised, fail_after_age_gate,
  not_done, done, unknown, Report, Ended,
}
use tcd_oran_testbed_integra.Executor.Checks.{Checked, passed, refused, crashed, Admission, admit}
use tcd_oran_testbed_integra.Executor.Main.{
  write_result, refusal, dry_run, failure, success, closing, has_surrogate, after_write, fire,
  control, execute, conclude, main, is_early, is_stale,
}

-- A report agrees with the writes that were attempted and with how the FIFO answered: it counts
-- them, says that nothing was done only if there was none, that all was done only if the one write
-- was complete, and that it does not know only if the one write was not.
pub record IsTruthful (answer : Write) (writes : List Text) (r : Report) : Type 0 where
  pub counted : r.trigger_write_attempt_count ≡ length writes
  pub at_most_one : length writes ≤ 1
  pub untouched : (r.scientific_trigger_consumed ≡ not_done) ↔ (writes ≡ [])
  pub consumed :
      (r.scientific_trigger_consumed ≡ done) ↔ ((length writes ≡ 1) × (answer ≡ complete))
  pub unclear :
      (r.scientific_trigger_consumed ≡ unknown) ↔ ((length writes ≡ 1) × (answer ≢ complete))
  pub successes : (r.trigger_write_success_count ≡ 1) ↔ ((length writes ≡ 1) × (answer ≡ complete))
  pub bounded : r.trigger_write_success_count ≤ r.trigger_write_attempt_count
  pub executed : r.control_executed ≡ r.scientific_trigger_consumed
  pub late : r.scientific_trigger_consumed ≡ unknown → r.executor_gate ≡ fail_after_age_gate

record Tells (answer : Write) (ended : Ended) : Type 0 where
  tells : (r : Report) → ended.report ≡ some r → IsTruthful answer ended.writes r

written-Tells :
    (answer : Write) (b : Bool) (r : Report) (rc : ℕ) (writes : List Text)
    → IsTruthful answer writes r
    → Tells answer (
        if b
        then record { report = none; rc = none; writes = writes }
        else record { report = some r; rc = some rc; writes = writes })
written-Tells answer true r rc writes t = record { tells = λ r' h. absurd (cc h) }
written-Tells answer false r rc writes t = record {
  tells = λ r' h. subst (λ x. IsTruthful answer writes x) (cc h) t;
}

write_result-Tells :
    (host : Host) (r : Report) (rc : ℕ) (writes : List Text)
    → IsTruthful host.write writes r
    → Tells host.write (write_result host r rc writes)
unfolding write_result
write_result-Tells host r rc writes t = written-Tells host.write host.output_exists r rc writes t

closed-Tells :
    (answer : Write) (b : Bool) (e : Ended)
    → Tells answer e
    → Tells answer (if b then record e { rc = none } else e)
closed-Tells answer true e t = record { tells = t.tells }
closed-Tells answer false e t = t

Tells-if :
    (answer : Write) (b : Bool) (x y : Ended)
    → Tells answer x
    → Tells answer y
    → Tells answer (if b then x else y)
Tells-if answer true x y s t = s
Tells-if answer false x y s t = t

closing-Tells : (host : Host) (e : Ended) → Tells host.write e → Tells host.write (closing host e)
unfolding closing
closing-Tells host e t = closed-Tells host.write host.close_fails e t

refusal-IsTruthful :
    (w : Write) (reason : String) (a b : Option Bool) → IsTruthful w [] (refusal reason a b)
unfolding refusal
refusal-IsTruthful w reason a b = ground arith

failure-IsTruthful :
    (w : Write) (name : String) (t : Text)
    → w ≢ complete
    → IsTruthful w (t ∷ []) (failure name true)
unfolding failure
failure-IsTruthful w name t n = ground arith

open_failure-IsTruthful : (w : Write) (name : String) → IsTruthful w [] (failure name false)
unfolding failure
open_failure-IsTruthful w name = ground arith

success-IsTruthful : (t : Text) → IsTruthful complete (t ∷ []) success
unfolding success
success-IsTruthful t = ground arith

dry_run-IsTruthful : (w : Write) → IsTruthful w [] dry_run
unfolding dry_run
dry_run-IsTruthful w = ground arith

unreported-Tells :
    (w : Write) (writes : List Text)
    → Tells w (record { report = none; rc = none; writes = writes })
unreported-Tells w writes = record { tells = λ r h. absurd (cc h) }

incomplete : (name : String) → raised name ≢ complete
incomplete name = λ e. cc

in_part : partial ≢ complete
in_part = λ e. cc

after_write-Tells :
    (host : Host) (w : Write) (t : Text)
    → host.write ≡ w
    → Tells host.write (after_write host w (t ∷ []))
unfolding after_write
after_write-Tells host (raised name) t e = closing-Tells host _ (
    write_result-Tells host _ 40 (t ∷ [])
      (failure-IsTruthful host.write name t (λ c. incomplete name (sym e ∙ c))))
after_write-Tells host partial t e = closing-Tells host _ (
    write_result-Tells host _ 40 (t ∷ [])
      (failure-IsTruthful host.write "RuntimeError" t (λ c. in_part (sym e ∙ c))))
after_write-Tells host complete t e =
    Tells-if host.write host.close_fails _ _ (unreported-Tells host.write (t ∷ [])) (
      write_result-Tells host success 0 (t ∷ [])
        (subst (λ w. IsTruthful w (t ∷ []) success) (sym e) (success-IsTruthful t)))

fire-Tells : (token : Text) (host : Host) (o : Option String) → Tells host.write (fire token host o)
unfolding fire
fire-Tells token host (some name) =
    write_result-Tells host _ 40 [] (open_failure-IsTruthful host.write name)
fire-Tells token host none =
    Tells-if host.write (has_surrogate token) _ _
      (closing-Tells host _
        (write_result-Tells host _ 40 [] (open_failure-IsTruthful host.write "UnicodeEncodeError")))
      (after_write-Tells host host.write (token ++ (10 ∷ [])) refl)

control-Tells :
    (mode : Mode) (args : Args) (host : Host) → Tells host.write (control mode args host)
control-Tells no_control args host =
    write_result-Tells host dry_run 0 [] (dry_run-IsTruthful host.write)
control-Tells fifo args host = fire-Tells args.trigger_token host host.open_error

module _ (D : Decimals) (decimal_of : Json → Option D.Number) (int_of : Json → Option ℤ) where
  execute-Tells :
      (args : Args) (host : Host) (a : Admission D)
      → Tells host.write (execute D decimal_of int_of args host a)
  unfolding execute
  execute-Tells args host a =
      Tells-if host.write (is_early D decimal_of int_of host a) _ _
        (write_result-Tells host
          (refusal "EXECUTOR_START_PRECEDES_SOURCE_DECISION" (some false) none) 35 []
          (refusal-IsTruthful host.write _ _ _))
        (Tells-if host.write (is_stale D decimal_of int_of host a) _ _
          (write_result-Tells host
            (refusal "EXECUTOR_START_SAMPLE_AGE_OUT_OF_BOUNDS" (some true) (some false)) 32 []
            (refusal-IsTruthful host.write _ _ _))
          (control-Tells args.mode args host))

  conclude-Tells :
      (args : Args) (host : Host) (c : Checked (Admission D))
      → Tells host.write (conclude D decimal_of int_of args host c)
  unfolding conclude
  conclude-Tells args host (passed a) = execute-Tells args host a
  conclude-Tells args host (refused reason rc) =
      write_result-Tells host _ rc [] (refusal-IsTruthful host.write reason none none)
  conclude-Tells args host crashed = unreported-Tells host.write []

  -- A report that the executor has written agrees with what it has tried to write to the FIFO and
  -- with the answer to that: it counts the attempts, of which there is at most one, says that the
  -- trigger was not consumed exactly when there was none, that it was consumed exactly when the one
  -- write was complete, and that it does not know exactly when the one write was partial or raised.
  pub main-IsTruthful :
      (args : Args) (host : Host) {r : Report}
      → (main D decimal_of int_of args host).report ≡ some r
      → IsTruthful host.write (main D decimal_of int_of args host).writes r
  unfolding main
  main-IsTruthful args host h =
      (conclude-Tells args host (admit D decimal_of int_of args host)).tells _ h
