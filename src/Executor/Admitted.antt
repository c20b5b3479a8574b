-- ===== src/Executor/Admitted.antt =====
-- When scripts/experiment-harness/prompt12-precontrol-trigger-executor.py writes to the FIFO.
use mathlib.Core.Path.{subst}
use tcd_oran_testbed_integra.Base.{
  ℕ, ◌+◌, ◌≤◌, ◌≡◌, ◌≢◌, refl, ap, ◌∙◌, Bool, true, false, not, ◌||◌, Option, none, some, List, [],
  ◌∷◌, ◌++◌, String, arith, inl, inr, Bool-cases,
}
use tcd_oran_testbed_integra.Base.Text.{Text}
use tcd_oran_testbed_integra.Base.Integers.{ℤ, pos, negsuc, is_below, exceeds}
use tcd_oran_testbed_integra.Base.Json.{
  Json, Fields, object, null, other_number, boolean, number, text, array, get,
}
use tcd_oran_testbed_integra.Stationarity.Decimals.{Decimals}
use tcd_oran_testbed_integra.Executor.Report.{
  Mode, no_control, fifo, Source, missing, invalid, json, Args, Host, Write, complete, partial,
  raised, Ended, fifo_kind, PathKind, unavailable, other_kind, Report,
}
use tcd_oran_testbed_integra.Executor.Checks.{
  check_fifo, Checked, passed, refused, crashed, Admission, admit, ◌>>=◌, ◌>>◌, refuse_if,
  or_refuse, has_newline, load_source, required_source_pass, option_is, check_mode, injected_start,
}
use tcd_oran_testbed_integra.Executor.Main.{
  write_result, dry_run, success, closing, has_surrogate, after_write, fire, control, start_of,
  max_age_ns, execute, conclude, main, is_early, is_stale,
}

-- The time lies in the window that starts at a sample and ends at its greatest age.
abbrev pub IsFresh : ℕ → ℤ → ℕ → Type 0
IsFresh start (pos latest) limit = (latest ≤ start) × (start ≤ latest + limit)
IsFresh start (negsuc m) limit = start + m + 1 ≤ limit

-- The time is no earlier than a decision.
abbrev pub IsAfter : ℕ → ℤ → Type 0
IsAfter start (pos decision) = decision ≤ start
IsAfter start (negsuc m) = Unit

window-IsFresh :
    (start : ℕ) (z : ℤ) (limit : ℕ)
    → (is_below start z || exceeds start z limit) ≡ false
    → IsFresh start z limit
window-IsFresh start (pos l) limit h = ground arith
window-IsFresh start (negsuc m) limit h = ground arith

below-IsAfter : (start : ℕ) (z : ℤ) → is_below start z ≡ false → IsAfter start z
below-IsAfter start (pos d) h = ground arith
below-IsAfter start (negsuc m) h = tt

refuse_if-passed :
    {A : Type 0} (b : Bool) (reason : String) (rc : ℕ) (k : Checked A) {a : A}
    → (refuse_if b reason rc >> k) ≡ passed a
    → (b ≡ false) × (k ≡ passed a)
unfolding refuse_if ◌>>◌
refuse_if-passed true reason rc k h = cc
refuse_if-passed false reason rc k h = (refl, h)

or_refuse-passed :
    {A B : Type 0} (o : Option A) (reason : String) (rc : ℕ) (k : A → Checked B) {b : B}
    → (or_refuse o reason rc >>= k) ≡ passed b
    → (a : A) × (o ≡ some a) × (k a ≡ passed b)
unfolding or_refuse ◌>>=◌
or_refuse-passed none reason rc k h = cc
or_refuse-passed (some a) reason rc k h = (a, refl, h)

>>=-passed :
    {A B : Type 0} (c : Checked A) (k : A → Checked B) {b : B}
    → (c >>= k) ≡ passed b
    → (a : A) × (c ≡ passed a) × (k a ≡ passed b)
unfolding ◌>>=◌
>>=-passed (passed a) k h = (a, refl, h)
>>=-passed (refused reason rc) k h = cc
>>=-passed crashed k h = cc

>>-passed :
    {B : Type 0} (c : Checked (Unit {0})) (k : Checked B) {b : B}
    → (c >> k) ≡ passed b
    → (c ≡ passed tt) × (k ≡ passed b)
unfolding ◌>>◌
>>-passed (passed tt) k h = (refl, h)
>>-passed (refused reason rc) k h = cc
>>-passed crashed k h = cc

load_source-passed :
    (s : Source) {fields : Fields} → load_source s ≡ passed fields → s ≡ json (object fields)
unfolding load_source
load_source-passed missing h = cc
load_source-passed invalid h = cc
load_source-passed (json (object fields)) h = cc
load_source-passed (json null) h = cc
load_source-passed (json other_number) h = cc
load_source-passed (json (boolean b)) h = cc
load_source-passed (json (number n)) h = cc
load_source-passed (json (text t)) h = cc
load_source-passed (json (array items)) h = cc

writes-write_result :
    (host : Host) (r : Report) (rc : ℕ) (writes : List Text)
    → (write_result host r rc writes).writes ≡ writes
unfolding write_result
writes-write_result host r rc writes = ground arith

writes-closing : (host : Host) (e : Ended) → (closing host e).writes ≡ e.writes
unfolding closing
writes-closing host e = ground arith

writes-after_write :
    (host : Host) (w : Write) (writes : List Text) → (after_write host w writes).writes ≡ writes
unfolding after_write
writes-after_write host (raised name) writes =
    writes-closing host _ ∙ writes-write_result host _ 40 writes
writes-after_write host partial writes =
    writes-closing host _ ∙ writes-write_result host _ 40 writes
writes-after_write host complete writes = elim (Bool-cases host.close_fails) [
  | inl e ↦ simp e refl
  | inr e ↦ simp e (writes-write_result host success 0 writes)
]

-- What a run has written, when it has written something.
writes-fire :
    (token : Text) (host : Host) (o : Option String)
    → (fire token host o).writes ≢ []
    → (fire token host o).writes ≡ (token ++ (10 ∷ [])) ∷ []
unfolding fire
writes-fire token host (some name) h = absurd (h (writes-write_result host _ 40 []))
writes-fire token host none h = elim (Bool-cases (has_surrogate token)) [
  | inl e ↦ absurd (h (simp e (writes-closing host _ ∙ writes-write_result host _ 40 [])))
  | inr e ↦ simp e (writes-after_write host host.write ((token ++ (10 ∷ [])) ∷ []))
]

writes-control :
    (mode : Mode) (args : Args) (host : Host)
    → (control mode args host).writes ≢ []
    → (mode ≡ fifo) × ((control mode args host).writes ≡ (args.trigger_token ++ (10 ∷ [])) ∷ [])
writes-control no_control args host n = absurd (n (writes-write_result host dry_run 0 []))
writes-control fifo args host n = (refl, writes-fire args.trigger_token host host.open_error n)

check_fifo-passed : (kind : PathKind) → check_fifo kind ≡ passed tt → kind ≡ fifo_kind
check_fifo-passed unavailable h = cc
check_fifo-passed other_kind h = cc
check_fifo-passed fifo_kind h = refl

refused-passed :
    (b : Bool) (reason : String) (rc : ℕ) → refuse_if b reason rc ≡ passed tt → b ≡ false
unfolding refuse_if
refused-passed true reason rc h = cc
refused-passed false reason rc h = refl

not-false : (b : Bool) → not b ≡ false → b ≡ true
not-false true h = refl
not-false false h = cc

passed-eq : {A : Type 0} {a b : A} → passed a ≡ passed b → a ≡ b
passed-eq h = cc

-- What the arguments and the host are like, when the checks of the FIFO mode pass.
pub record IsArmed (args : Args) (host : Host) : Type 0 where
  pub authorized :
      option_is args.control_authorization_token "PROMPT12_T2_EXPLICIT_FIFO_CONTROL" ≡ true
  pub is_fifo : host.fifo_stat ≡ fifo_kind
  pub one_line : has_newline args.trigger_token ≡ false

check_mode-IsArmed :
    (args : Args) (host : Host) → check_mode fifo args host ≡ passed tt → IsArmed args host
unfolding check_mode
check_mode-IsArmed args host h =
    let (a, h1) = refuse_if-passed _ _ _ _ h in
    let (_, h2) = refuse_if-passed _ _ _ _ h1 in
    let (k, h3) = >>-passed (check_fifo host.fifo_stat) _ h2 in
    record {
      authorized = not-false _ a;
      is_fifo = check_fifo-passed host.fifo_stat k;
      one_line = refused-passed _ _ _ h3;
    }

module _ (D : Decimals) (decimal_of : Json → Option D.Number) (int_of : Json → Option ℤ) where
  -- What the checks have found when they pass in the FIFO mode.
  pub record IsSourced (args : Args) (host : Host) (a : Admission D) : Type 0 where
    pub source : Fields
    pub loaded : args.precontrol ≡ json (object source)
    pub qualified : required_source_pass source ≡ true
    pub latest : int_of (get "latest_sample_timestamp_utc_ns" source) ≡ some a.latest_sample_ns
    pub decision : int_of (get "decision_utc_ns" source) ≡ some a.decision_ns
    pub frozen : D.same a.max_age_ms (D.decimal 800) ≡ true
    pub clock : a.injected ≡ none
    pub armed : IsArmed args host

  injected-fifo :
      (o : Option Text) {r : Option ℕ}
      → injected_start D decimal_of int_of fifo o ≡ passed r
      → r ≡ none
  unfolding injected_start refuse_if ◌>>◌
  injected-fifo none h = cc
  injected-fifo (some t) h = cc

  admit-IsSourced :
      (args : Args) (host : Host) {a : Admission D}
      → args.mode ≡ fifo
      → admit D decimal_of int_of args host ≡ passed a
      → IsSourced args host a
  unfolding admit
  admit-IsSourced args host m h =
      let (source, s, h1) = >>=-passed (load_source args.precontrol) _ h in
      let (q, h2) = refuse_if-passed _ _ _ _ h1 in
      let (latest, l, h3) = or_refuse-passed _ _ _ _ h2 in
      let (decision, d, h4) = or_refuse-passed _ _ _ _ h3 in
      let (smax, x, h5) = or_refuse-passed _ _ _ _ h4 in
      let (requested, r, h6) = or_refuse-passed _ _ _ _ h5 in
      let (_, h7) = refuse_if-passed _ _ _ _ h6 in
      let (f, h8) = refuse_if-passed _ _ _ _ h7 in
      let (start, i, h9) =
        >>=-passed (injected_start D decimal_of int_of args.mode args.executor_start_utc_ns) _ h8 in
      let (k, h10) = >>-passed (check_mode args.mode args host) _ h9 in
      let e = passed-eq h10 in
      record {
        source = source;
        loaded = load_source-passed args.precontrol s;
        qualified = not-false _ q;
        latest = l ∙ ap (λ (x : Admission D). some x.latest_sample_ns) e;
        decision = d ∙ ap (λ (x : Admission D). some x.decision_ns) e;
        frozen =
            subst (λ (x : Admission D). D.same x.max_age_ms (D.decimal 800) ≡ true) e
              (not-false _ f);
        clock =
            subst (λ (x : Admission D). x.injected ≡ none) e
              (injected-fifo args.executor_start_utc_ns (
                subst
                  (λ mode.
                    injected_start D decimal_of int_of mode args.executor_start_utc_ns
                    ≡ passed start)
                  m i));
        armed =
            check_mode-IsArmed args host
              (subst (λ mode. check_mode mode args host ≡ passed tt) m k);
      }

  -- A run that writes has passed all the checks, at a time that the two gates of the clock let
  -- through.
  pub record IsAdmitted (args : Args) (host : Host) : Type 0 where
    pub is_fifo_mode : args.mode ≡ fifo
    pub admission : Admission D
    pub sourced : IsSourced args host admission
    pub after_decision : IsAfter host.start_ns admission.decision_ns
    pub age : IsFresh host.start_ns admission.latest_sample_ns 800000000

  -- What a run of the control path has passed before.
  execute-control :
      (args : Args) (host : Host) (a : Admission D)
      → (execute D decimal_of int_of args host a).writes ≢ []
      → (is_early D decimal_of int_of host a ≡ false)
        × (is_stale D decimal_of int_of host a ≡ false)
        × (execute D decimal_of int_of args host a ≡ control args.mode args host)
  unfolding execute
  execute-control args host a n = elim (Bool-cases (is_early D decimal_of int_of host a)) [
    | inl e ↦ absurd (n (simp e (writes-write_result host _ 35 [])))
    | inr e ↦ elim (Bool-cases (is_stale D decimal_of int_of host a)) [
      | inl f ↦ absurd (n (simp (e, f) (writes-write_result host _ 32 [])))
      | inr f ↦ (e, f, simp (e, f) refl)
    ]
  ]

  start_of-none :
      (a : Admission D) (clock : ℕ) → a.injected ≡ none → start_of a.injected clock ≡ clock
  start_of-none a clock e = ap (λ o. start_of o clock) e

  execute-IsAdmitted :
      (args : Args) (host : Host) (a : Admission D)
      → admit D decimal_of int_of args host ≡ passed a
      → (execute D decimal_of int_of args host a).writes ≢ []
      → ((x : D.Number)
          → D.same x (D.decimal 800) ≡ true
          → max_age_ns D decimal_of int_of x ≡ 800000000)
      → IsAdmitted args host
        × ((execute D decimal_of int_of args host a).writes
            ≡ (args.trigger_token ++ (10 ∷ [])) ∷ [])
  unfolding is_early is_stale
  execute-IsAdmitted args host a h n exact =
      let (e, f, c) = execute-control args host a n in
      let (m, w) = writes-control args.mode args host (λ x. n (ap (λ r. r.writes) c ∙ x)) in
      let s = admit-IsSourced args host m h in
      let t = start_of-none a host.start_ns s.clock in
      (
        record {
          is_fifo_mode = m;
          admission = a;
          sourced = s;
          after_decision =
              below-IsAfter host.start_ns a.decision_ns
                (subst (λ n. is_below n a.decision_ns ≡ false) t e);
          age = window-IsFresh host.start_ns a.latest_sample_ns 800000000 (
              subst
                (λ n.
                  (is_below n a.latest_sample_ns || exceeds n a.latest_sample_ns 800000000) ≡ false)
                t
                (subst
                  (λ k.
                    (is_below (start_of a.injected host.start_ns) a.latest_sample_ns
                      || exceeds (start_of a.injected host.start_ns) a.latest_sample_ns k)
                    ≡ false)
                  (exact a.max_age_ms s.frozen) f));
        },
        ap (λ r. r.writes) c ∙ w,
      )

  conclude-IsAdmitted :
      (args : Args) (host : Host) (c : Checked (Admission D))
      → admit D decimal_of int_of args host ≡ c
      → (conclude D decimal_of int_of args host c).writes ≢ []
      → ((x : D.Number)
          → D.same x (D.decimal 800) ≡ true
          → max_age_ns D decimal_of int_of x ≡ 800000000)
      → IsAdmitted args host
        × ((conclude D decimal_of int_of args host c).writes
            ≡ (args.trigger_token ++ (10 ∷ [])) ∷ [])
  unfolding conclude
  conclude-IsAdmitted args host (passed a) h n exact = execute-IsAdmitted args host a h n exact
  conclude-IsAdmitted args host (refused reason rc) h n exact =
      absurd (n (writes-write_result host _ rc []))
  conclude-IsAdmitted args host crashed h n exact = absurd (n refl)

  -- If 800 ms are 800000000 ns in the decimal arithmetic, a run that tries to write to the FIFO
  -- writes the token and a line feed once, and it is in the FIFO mode with the authorization token,
  -- a path that is a FIFO and a token of one line; the precontrol record has passed its six gates,
  -- its decision is not later than the start by the system clock, and its latest sample neither
  -- later than that nor older than 800 ms.
  pub main-IsAdmitted :
      (args : Args) (host : Host)
      → (main D decimal_of int_of args host).writes ≢ []
      → ((x : D.Number)
          → D.same x (D.decimal 800) ≡ true
          → max_age_ns D decimal_of int_of x ≡ 800000000)
      → IsAdmitted args host
        × ((main D decimal_of int_of args host).writes ≡ (args.trigger_token ++ (10 ∷ [])) ∷ [])
  unfolding main
  main-IsAdmitted args host n exact =
      conclude-IsAdmitted args host (admit D decimal_of int_of args host) refl n exact
