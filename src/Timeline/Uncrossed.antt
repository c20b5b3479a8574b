-- ===== src/Timeline/Uncrossed.antt =====
-- Which intervals the canonicalizer marks as crossed by a control
-- (scripts/experiment-harness/canonicalize-iperf-receiver.py).
use mathlib.Core.Path.{subst}
use package.text.Mathlib.Text.{◌==◌ as str_eq}
use tcd_oran_testbed_integra.Base.{
  ℕ, zero, suc, ◌-◌, ◌/◌, ◌%◌, ◌≤◌, ◌==◌, leb, ltb, ◌≡◌, ◌≢◌, refl, sym, ap, ◌∙◌, Bool, true, false,
  ◌&&◌, if◌then◌else◌, Option, none, some, List, [], ◌∷◌, All, length, String, ok, require,
  >>-eq-ok, >>=-eq-ok, ok-eq, require-eq-ok, ◌⊎◌, inl, inr, arith,
}
use tcd_oran_testbed_integra.Base.Integers.{ℤ}
use tcd_oran_testbed_integra.Stationarity.Decimals.{Decimals}
use tcd_oran_testbed_integra.Timeline.Event.{Event, Schema}
use tcd_oran_testbed_integra.Timeline.Load.{
  check_rows, check_triplet, check_controls, load_actuator_timeline,
}
use tcd_oran_testbed_integra.Timeline.Receiver.{
  IntervalClass, startup_guard, complete, partial_terminal, transition_crossing, at_least,
  strict_hits, crossing, Row, exact_duration_ns, terminal_class, complete_class,
  base_interval_class, classify_crossing, classify_interval, Canonical, canonical_record,
  check_order, check_schema, canonical_rows,
}
use tcd_oran_testbed_integra.Timeline.Inside.{
  Outside, OnlyOne, strict_hits-none, strict_hits-OnlyOne,
}

leb→le : (a b : ℕ) → leb a b ≡ true → a ≤ b
leb→le a b h = ground arith

crossing-hits :
    (base_class class : IntervalClass) (hits : ℕ)
    → base_class ≢ transition_crossing
    → crossing base_class hits ≡ ok class
    → ((hits ≡ 0) × (class ≡ base_class))
      ⊎ ((hits ≡ 1) × (base_class ≡ complete) × (class ≡ transition_crossing))
unfolding crossing
crossing-hits base_class class zero n h = inl (refl, sym (ok-eq h))
crossing-hits complete class (suc zero) n h = inr (refl, refl, sym (ok-eq h))
crossing-hits startup_guard class (suc zero) n h = absurd (cc h)
crossing-hits partial_terminal class (suc zero) n h = absurd (cc h)
crossing-hits transition_crossing class (suc zero) n h = absurd (n refl)
crossing-hits startup_guard class (suc (suc k)) n h = absurd (cc h)
crossing-hits complete class (suc (suc k)) n h = absurd (cc h)
crossing-hits partial_terminal class (suc (suc k)) n h = absurd (cc h)
crossing-hits transition_crossing class (suc (suc k)) n h = absurd (cc h)

guarded-neq : (b : Bool) → (if b then startup_guard else complete) ≢ transition_crossing
guarded-neq true = λ h. cc
guarded-neq false = λ h. cc

terminal-neq : partial_terminal ≢ transition_crossing
terminal-neq = λ h. cc

module _ (D : Decimals) where
  terminal_class-neq :
      (row : Row D) {class : IntervalClass}
      → terminal_class D row ≡ ok class
      → class ≢ transition_crossing
  unfolding terminal_class
  terminal_class-neq row h = λ e. let (_, h1) = >>-eq-ok _ _ h in terminal-neq (ok-eq h1 ∙ e)

  complete_class-neq :
      (row : Row D) {class : IntervalClass}
      → complete_class D row ≡ ok class
      → class ≢ transition_crossing
  unfolding complete_class
  complete_class-neq row h = λ e.
      let (_, h1) = >>-eq-ok _ _ h in let (_, h2) = >>-eq-ok _ _ h1 in guarded-neq _ (ok-eq h2 ∙ e)

  base_class-neq :
      (terminal : Bool) (row : Row D) {class : IntervalClass}
      → (if terminal then terminal_class D row else complete_class D row) ≡ ok class
      → class ≢ transition_crossing
  base_class-neq true row h = terminal_class-neq row h
  base_class-neq false row h = complete_class-neq row h

  -- The class of the record says whether a control was applied while its interval was observed:
  -- the time from its end in nanoseconds back by its duration.
  pub record Agrees (times : List ℤ) (canonical : Canonical D) : Type 0 where
    pub duration_ns : ℕ
    pub exact : exact_duration_ns D canonical.interval_duration_s ≡ ok duration_ns
    pub fits : duration_ns ≤ canonical.rx_wall_ns
    pub crossed :
        canonical.interval_class ≡ transition_crossing
        → OnlyOne (canonical.rx_wall_ns - duration_ns) canonical.rx_wall_ns times
    pub uncrossed :
        canonical.interval_class ≢ transition_crossing
        → All (Outside (canonical.rx_wall_ns - duration_ns) canonical.rx_wall_ns) times

  -- What classify_interval finds, for a timeline with times.
  classify_interval-hits :
      (row : Row D) (time : ℤ) (times : List ℤ) (rx_wall_ns : ℕ) {class : IntervalClass}
      → at_least 1 "invalid rx_wall_ns" row.rx_wall_ns ≡ ok rx_wall_ns
      → classify_interval D row (time ∷ times) ≡ ok class
      → (base_class : IntervalClass) × (duration_ns : ℕ) × (base_class ≢ transition_crossing)
        × (exact_duration_ns D row.interval_duration_s ≡ ok duration_ns)
        × (duration_ns ≤ rx_wall_ns)
        × (crossing base_class
              (length (strict_hits (rx_wall_ns - duration_ns) rx_wall_ns (time ∷ times)))
            ≡ ok class)
  unfolding classify_interval classify_crossing base_interval_class
  classify_interval-hits row time times rx_wall_ns {class} e h =
      let (base_class, based, h1) = >>=-eq-ok (base_interval_class D row) _ h in
      let (stop, read, h2) = >>=-eq-ok (at_least 1 "invalid rx_wall_ns" row.rx_wall_ns) _ h1 in
      let (duration_ns, exact, h3) = >>=-eq-ok (exact_duration_ns D row.interval_duration_s) _ h2 in
      let (fits, h4) = >>-eq-ok (require (leb duration_ns stop) _) _ h3 in
      let same : stop ≡ rx_wall_ns = ok-eq (sym read ∙ e) in
      (
        base_class,
        duration_ns,
        base_class-neq (str_eq row.interval_shape "partial_terminal_candidate") row based,
        exact,
        subst (λ n. duration_ns ≤ n) same (leb→le _ _ (require-eq-ok _ _ fits)),
        subst
            (λ n.
              crossing base_class (length (strict_hits (n - duration_ns) n (time ∷ times)))
              ≡ ok class)
            same h4,
      )

  -- The record of the row and its class.
  agrees :
      (row : Row D) (time : ℤ) (times : List ℤ) (canonical : Canonical D)
      → at_least 1 "invalid rx_wall_ns" row.rx_wall_ns ≡ ok canonical.rx_wall_ns
      → classify_interval D row (time ∷ times) ≡ ok canonical.interval_class
      → row.interval_duration_s ≡ canonical.interval_duration_s
      → Agrees (time ∷ times) canonical
  agrees row time times canonical e h same =
      let (base_class, duration_ns, n, exact, fits, found) =
        classify_interval-hits row time times canonical.rx_wall_ns e h in
      let start = canonical.rx_wall_ns - duration_ns in
      let hits = length (strict_hits start canonical.rx_wall_ns (time ∷ times)) in
      let cases = crossing-hits base_class canonical.interval_class hits n found in
      record {
        duration_ns = duration_ns;
        exact = sym (ap (exact_duration_ns D) same) ∙ exact;
        fits = fits;
        crossed = λ c. elim cases [
          | inl p ↦ absurd (n (sym p.1 ∙ c))
          | inr p ↦ strict_hits-OnlyOne start canonical.rx_wall_ns (time ∷ times) p.0
        ];
        uncrossed = λ c. elim cases [
          | inl p ↦ strict_hits-none start canonical.rx_wall_ns (time ∷ times) p.0
          | inr p ↦ absurd (c p.2)
        ];
      }

  canonical_record-Agrees :
      (experiment_id run_id : String) (row : Row D) (time : ℤ) (times : List ℤ)
      {canonical : Canonical D}
      → canonical_record D experiment_id run_id row (time ∷ times) ≡ ok canonical
      → Agrees (time ∷ times) canonical
  unfolding canonical_record
  canonical_record-Agrees experiment_id run_id row time times h =
      let (_, _, h1) = >>=-eq-ok (at_least 0 "invalid source_sequence" row.source_sequence) _ h in
      let (wall, e, h2) = >>=-eq-ok (at_least 1 "invalid rx_wall_ns" row.rx_wall_ns) _ h1 in
      let (_, _, h3) = >>=-eq-ok (at_least 1 "invalid rx_mono_ns" row.rx_mono_ns) _ h2 in
      let (class, c, h4) = >>=-eq-ok (classify_interval D row (time ∷ times)) _ h3 in
      subst (Agrees (time ∷ times)) (ok-eq h4) (agrees row time times _ e c refl)

  pub canonical_rows-Agrees :
      (accepts : Canonical D → Bool) (experiment_id run_id : String) (time : ℤ) (times : List ℤ)
      (previous : Option (Row D)) (rows : List (Row D)) {records : List (Canonical D)}
      → canonical_rows D accepts experiment_id run_id (time ∷ times) previous rows ≡ ok records
      → All (Agrees (time ∷ times)) records
  unfolding canonical_rows
  canonical_rows-Agrees accepts experiment_id run_id time times previous [] h =
      subst (All (Agrees (time ∷ times))) (ok-eq h) tt
  canonical_rows-Agrees accepts experiment_id run_id time times previous (row ∷ rows) h =
      let (_, h1) = >>-eq-ok (check_schema D row) _ h in
      let (_, h2) = >>-eq-ok (check_order D previous row) _ h1 in
      let (canonical, made, h3) =
        >>=-eq-ok (canonical_record D experiment_id run_id row (time ∷ times)) _ h2 in
      let (_, h4) = >>-eq-ok (require (accepts canonical) _) _ h3 in
      let next = canonical_rows D accepts experiment_id run_id (time ∷ times) (some row) rows in
      let (rest, h5, h6) = >>=-eq-ok next _ h4 in
      subst (All (Agrees (time ∷ times))) (ok-eq h6) (
        canonical_record-Agrees experiment_id run_id row time times made,
        canonical_rows-Agrees accepts experiment_id run_id time times (some row) rows h5,
      )

-- A timeline that is loaded has a control.
check_controls-some :
    (rows : List Event) {times : List ℤ}
    → 3 ≤ length rows
    → check_controls none rows ≡ ok times
    → (time : ℤ) × (rest : List ℤ) × (times ≡ time ∷ rest)
unfolding check_controls
check_controls-some (command ∷ applied ∷ ack ∷ rows) n h =
    let (_, h1) = >>-eq-ok (check_triplet none command applied ack) _ h in
    let (rest, _, h2) = >>=-eq-ok (check_controls (some ack.timestamp_utc_ns) rows) _ h1 in
    (applied.timestamp_utc_ns, rest, sym (ok-eq h2))
check_controls-some [] n h = absurd (omega arith)
check_controls-some (a ∷ []) n h = absurd (omega arith)
check_controls-some (a ∷ b ∷ []) n h = absurd (omega arith)

some-count : (n : ℕ) → (leb 1 (n / 3) && leb (n / 3) 6) ≡ true → 3 ≤ n
some-count n h = ground arith

pub load_actuator_timeline-some :
    (schema : Schema) (experiment_id run_id : String) (rows : List Event)
    {loaded : List Event × List ℤ}
    → load_actuator_timeline schema experiment_id run_id rows ≡ ok loaded
    → (time : ℤ) × (rest : List ℤ) × (loaded.1 ≡ time ∷ rest)
unfolding load_actuator_timeline
load_actuator_timeline-some schema experiment_id run_id rows h =
    let (_, h1) = >>-eq-ok (require (ltb 0 (length rows)) _) _ h in
    let (_, h2) = >>-eq-ok (require (length rows % 3 == 0) _) _ h1 in
    let (count, h3) =
      >>-eq-ok (require (leb 1 (length rows / 3) && leb (length rows / 3) 6) _) _ h2 in
    let (_, h4) = >>-eq-ok (check_rows schema experiment_id run_id [] none rows) _ h3 in
    let (times, made, h5) = >>=-eq-ok (check_controls none rows) _ h4 in
    let (time, rest, same) =
      check_controls-some rows (some-count (length rows) (require-eq-ok _ _ count)) made in
    (time, rest, sym (ap (λ l. l.1) (ok-eq h5)) ∙ same)
