-- ===== src/Timeline/Crossings.antt =====
-- What main of scripts/experiment-harness/canonicalize-iperf-receiver.py writes: the classes, with
-- the timeline of build-actuator-timeline.py, and the order of the records.
use mathlib.Core.Path.{subst}
use tcd_oran_testbed_integra.Base.{
  ℕ, ◌≤◌, ◌<◌, ltb, leb, ◌≡◌, refl, sym, ap, ◌∙◌, Bool, true, not, Option, none, some, List, [],
  ◌∷◌, All, String, Result, ok, err, require, >>-eq-ok, >>=-eq-ok, ok-eq, require-eq-ok, ltb→lt,
  arith,
}
use tcd_oran_testbed_integra.Base.Text.{Text}
use tcd_oran_testbed_integra.Base.Integers.{ℤ, pos, negsuc, less}
use tcd_oran_testbed_integra.Stationarity.Decimals.{Decimals}
use tcd_oran_testbed_integra.Timeline.Event.{Event, Schema}
use tcd_oran_testbed_integra.Timeline.Build
use tcd_oran_testbed_integra.Timeline.Load.{load_actuator_timeline}
use tcd_oran_testbed_integra.Timeline.Handover.{load_actuator_timeline-main}
use tcd_oran_testbed_integra.Timeline.Receiver.{
  at_least, Row, Canonical, classify_interval, canonical_record, check_order, check_schema,
  canonical_rows,
}
use tcd_oran_testbed_integra.Timeline.Canonicalize.{
  actuator_transitions, validate_identity, check_output, check_scope, applied_of,
  applied_timestamps, Args, main,
}
use tcd_oran_testbed_integra.Timeline.Uncrossed.{
  Agrees, canonical_rows-Agrees, load_actuator_timeline-some,
}

applied_of-ok :
    (m : Result (List Event × List ℤ)) {times : List ℤ}
    → applied_of m ≡ ok times
    → (loaded : List Event × List ℤ) × (m ≡ ok loaded) × (loaded.1 ≡ times)
applied_of-ok (ok loaded) h = (loaded, refl, ok-eq h)
applied_of-ok (err reason) h = absurd (cc h)

at_least-pos :
    (bound : ℕ) (reason : String) (z : ℤ) {n : ℕ} → at_least bound reason z ≡ ok n → z ≡ pos n
unfolding at_least
at_least-pos bound reason (negsuc k) h = absurd (cc h)
at_least-pos bound reason (pos k) h =
    let (_, h1) = >>-eq-ok (require (leb bound k) reason) _ h in ap pos (ok-eq h1)

module _ (D : Decimals) (experiment_pattern : Text → Bool) (schema : Schema)
    (accepts : Canonical D → Bool) (args : Args D) where
  -- What main has done when it returned.
  main-rows :
      {records : List (Canonical D)}
      → main D experiment_pattern schema accepts args ≡ ok records
      → (times : List ℤ) × (applied_timestamps schema args.experiment_id args.run_id
            args.classification_scope args.actuator_timeline
          ≡ ok times)
        × (canonical_rows D accepts args.experiment_id args.run_id times none args.input
            ≡ ok records)
  unfolding main
  main-rows h =
      let (_, h1) =
        >>-eq-ok (validate_identity experiment_pattern args.experiment_id args.run_id) _ h in
      let (_, h2) = >>-eq-ok (check_output args.output_exists) _ h1 in
      let (_, h3) = >>-eq-ok (check_scope args.classification_scope args.actuator_timeline) _ h2 in
      >>=-eq-ok
        (applied_timestamps schema args.experiment_id args.run_id args.classification_scope
          args.actuator_timeline)
        _ h3

  -- When main returns records for a timeline, the timeline has been loaded, and every record has the
  -- class transition_crossing with exactly one applied time strictly inside its observed interval,
  -- or another class with none.
  pub main-Agrees :
      (timeline : List Event) {records : List (Canonical D)}
      → args.classification_scope ≡ actuator_transitions
      → args.actuator_timeline ≡ some timeline
      → main D experiment_pattern schema accepts args ≡ ok records
      → (loaded : List Event × List ℤ) × (load_actuator_timeline schema args.experiment_id
            args.run_id timeline
          ≡ ok loaded)
        × All (Agrees D loaded.1) records
  unfolding applied_timestamps
  main-Agrees timeline {records} scope given h =
      let (times, read, made) = main-rows h in
      let applied : applied_of
            (load_actuator_timeline schema args.experiment_id args.run_id timeline)
          ≡ ok times =
        sym (
          ap (λ s. applied_timestamps schema args.experiment_id args.run_id s (some timeline))
            scope)
        ∙ sym (
            ap (applied_timestamps schema args.experiment_id args.run_id args.classification_scope)
              given)
        ∙ read in
      let (loaded, l, same) = applied_of-ok _ applied in
      let (time, rest, first) =
        load_actuator_timeline-some schema args.experiment_id args.run_id timeline l in
      let classed =
        canonical_rows-Agrees D accepts args.experiment_id args.run_id time rest none args.input (
          subst
            (λ times.
              canonical_rows D accepts args.experiment_id args.run_id times none args.input
              ≡ ok records)
            (sym same ∙ first) made) in
      (loaded, l, subst (λ times. All (Agrees D times) records) (sym first) classed)

-- When the canonicalizer's main returns records for a timeline that the builder has written, for
-- the same schema file and identities, every record has the class transition_crossing with exactly
-- one of the plant's steps that the builder prints strictly inside its observed interval, or another
-- class with none.
pub main-Agrees-main :
    (D : Decimals) (experiment_pattern : Text → Bool) (schema : Schema)
    (accepts : Canonical D → Bool) (source : Build.Args) (args : Args D) {events : List Event}
    {steps : List ℤ} {records : List (Canonical D)}
    → Build.main schema source ≡ ok (events, steps)
    → source.experiment_id ≡ args.experiment_id
    → source.run_id ≡ args.run_id
    → args.classification_scope ≡ actuator_transitions
    → args.actuator_timeline ≡ some events
    → main D experiment_pattern schema accepts args ≡ ok records
    → All (Agrees D steps) records
main-Agrees-main D experiment_pattern schema accepts source args {events} {steps} {records} b e r
      scope given h =
    let (loaded, l, agree) =
      main-Agrees D experiment_pattern schema accepts args events scope given h in
    let handed : load_actuator_timeline schema args.experiment_id args.run_id events
        ≡ ok (events, steps) =
      subst (λ id. load_actuator_timeline schema args.experiment_id id events ≡ ok (events, steps))
        r
        (subst (λ id. load_actuator_timeline schema id source.run_id events ≡ ok (events, steps)) e
          (load_actuator_timeline-main schema source b)) in
    subst (λ times. All (Agrees D times) records) (ap (λ l. l.1) (ok-eq (sym l ∙ handed))) agree

-- The records stand in the order of their times: by the wall clock, and strictly by the monotonic
-- one.
pub InOrder : (D : Decimals) → List (Canonical D) → Type 0
InOrder D [] = Unit
InOrder D (a ∷ []) = Unit
InOrder D (a ∷ b ∷ rest) =
    (a.rx_wall_ns ≤ b.rx_wall_ns) × (a.rx_mono_ns < b.rx_mono_ns) × InOrder D (b ∷ rest)

not-ltb : (a b : ℕ) → not (ltb a b) ≡ true → b ≤ a
not-ltb a b h = ground arith

-- A row of the log has these two times.
abbrev HasTimes : (D : Decimals) → Row D → Canonical D → Type 0
HasTimes D row canonical =
    (row.rx_wall_ns ≡ pos canonical.rx_wall_ns) × (row.rx_mono_ns ≡ pos canonical.rx_mono_ns)

module _ (D : Decimals) (accepts : Canonical D → Bool) (experiment_id run_id : String)
    (times : List ℤ) where
  canonical_record-HasTimes :
      (row : Row D) {canonical : Canonical D}
      → canonical_record D experiment_id run_id row times ≡ ok canonical
      → HasTimes D row canonical
  unfolding canonical_record
  canonical_record-HasTimes row h =
      let (_, _, h1) = >>=-eq-ok (at_least 0 "invalid source_sequence" row.source_sequence) _ h in
      let (wall, e, h2) = >>=-eq-ok (at_least 1 "invalid rx_wall_ns" row.rx_wall_ns) _ h1 in
      let (mono, f, h3) = >>=-eq-ok (at_least 1 "invalid rx_mono_ns" row.rx_mono_ns) _ h2 in
      let (class, _, h4) = >>=-eq-ok (classify_interval D row times) _ h3 in
      subst (HasTimes D row) (ok-eq h4) (at_least-pos 1 _ _ e, at_least-pos 1 _ _ f)

  check_order-times :
      (previous row : Row D) (a b : Canonical D)
      → HasTimes D previous a
      → HasTimes D row b
      → check_order D (some previous) row ≡ ok tt
      → (a.rx_wall_ns ≤ b.rx_wall_ns) × (a.rx_mono_ns < b.rx_mono_ns)
  unfolding check_order
  check_order-times previous row a b p q h =
      let (wall, mono) = >>-eq-ok (require (not (less row.rx_wall_ns previous.rx_wall_ns)) _) _ h in
      let ordered : not (less (pos b.rx_wall_ns) (pos a.rx_wall_ns)) ≡ true =
        cc (require-eq-ok _ _ wall, p.0, q.0) in
      let later : less (pos a.rx_mono_ns) (pos b.rx_mono_ns) ≡ true =
        cc (require-eq-ok _ _ mono, p.1, q.1) in
      (not-ltb b.rx_wall_ns a.rx_wall_ns ordered, ltb→lt a.rx_mono_ns b.rx_mono_ns later)

  -- A step of the loop.
  canonical_rows-step :
      (previous : Option (Row D)) (row : Row D) (rows : List (Row D)) {records : List (Canonical D)}
      → canonical_rows D accepts experiment_id run_id times previous (row ∷ rows) ≡ ok records
      → (canonical : Canonical D) × (rest : List (Canonical D)) × (check_order D previous row
          ≡ ok tt)
        × HasTimes D row canonical
        × (canonical_rows D accepts experiment_id run_id times (some row) rows ≡ ok rest)
        × (canonical ∷ rest ≡ records)
  unfolding canonical_rows
  canonical_rows-step previous row rows h =
      let (_, h1) = >>-eq-ok (check_schema D row) _ h in
      let (order, h2) = >>-eq-ok (check_order D previous row) _ h1 in
      let (canonical, made, h3) =
        >>=-eq-ok (canonical_record D experiment_id run_id row times) _ h2 in
      let (_, h4) = >>-eq-ok (require (accepts canonical) _) _ h3 in
      let next = canonical_rows D accepts experiment_id run_id times (some row) rows in
      let (rest, h5, h6) = >>=-eq-ok next _ h4 in
      (canonical, rest, order, canonical_record-HasTimes row made, h5, ok-eq h6)

  canonical_rows-InOrder :
      (previous : Row D) (a : Canonical D) (rows : List (Row D)) {records : List (Canonical D)}
      → HasTimes D previous a
      → canonical_rows D accepts experiment_id run_id times (some previous) rows ≡ ok records
      → InOrder D (a ∷ records)
  unfolding InOrder canonical_rows
  canonical_rows-InOrder previous a [] p h = subst (λ rs. InOrder D (a ∷ rs)) (ok-eq h) tt
  canonical_rows-InOrder previous a (row ∷ rows) p h =
      let (b, rest, order, q, h1, same) = canonical_rows-step (some previous) row rows h in
      let (wall, mono) = check_order-times previous row a b p q order in
      subst (λ rs. InOrder D (a ∷ rs)) same (wall, mono, canonical_rows-InOrder row b rows q h1)

  rows-InOrder :
      (rows : List (Row D)) {records : List (Canonical D)}
      → canonical_rows D accepts experiment_id run_id times none rows ≡ ok records
      → InOrder D records
  unfolding InOrder canonical_rows
  rows-InOrder [] h = subst (InOrder D) (ok-eq h) tt
  rows-InOrder (row ∷ rows) h =
      let (b, rest, _, q, h1, same) = canonical_rows-step none row rows h in
      subst (InOrder D) same (canonical_rows-InOrder row b rows q h1)

-- The records that main writes have wall-clock times that do not decrease and monotonic times that
-- increase.
pub main-InOrder :
    (D : Decimals) (experiment_pattern : Text → Bool) (schema : Schema)
    (accepts : Canonical D → Bool) (args : Args D) {records : List (Canonical D)}
    → main D experiment_pattern schema accepts args ≡ ok records
    → InOrder D records
main-InOrder D experiment_pattern schema accepts args h =
    let (times, _, made) = main-rows D experiment_pattern schema accepts args h in
    rows-InOrder D accepts args.experiment_id args.run_id times args.input made
