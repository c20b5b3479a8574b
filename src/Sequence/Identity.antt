-- ===== src/Sequence/Identity.antt =====
-- Which identities `validate_identity` of
-- scripts/experiment-harness/prompt12-six-transition-orchestrator.py accepts.
use mathlib.Core.List.{append-nil}
use mathlib.Core.Path.{subst}
use tcd_oran_testbed_integra.Base.{
  ℕ, suc, ◌≡◌, ◌↔◌, true, List, [], ◌∷◌, ◌++◌, ok, refl, arith, All, length, drop, >>_iff,
  require_iff, Bool, zero, replicate, ap, &&-eq-true, ==_iff, ◌==◌, leb, ◌&&◌, ◌⊎◌, inl, inr, false,
  ◌∙◌, sym,
}
use tcd_oran_testbed_integra.Base.Text.{Text, text_eq, codes, digit, full_match, literal}
use tcd_oran_testbed_integra.Base.Text.Laws.{text_eq_iff}
use tcd_oran_testbed_integra.Sequence.Plan.{Repeat, r01, r02, r03, r04}
use tcd_oran_testbed_integra.Sequence.Parse.{
  repeat_id, repeat_re, experiment_re, run_re, experiment_repeat, validate_identity,
}

-- A text of so many decimal digits.
abbrev pub Digits : ℕ → Text → Type 0
Digits n s = (length s ≡ n) × All (λ c. digit c ≡ true) s

-- The experiment's identity: the date and the repeat.
abbrev pub experiment_text : Text → Repeat → Text
experiment_text date repeat = codes "EXP-" ++ (date ++ (codes "-DL-18000K-" ++ repeat_id repeat))

-- The run's identity: the date, the time and the ordinal.
abbrev pub run_text : Text → Text → Text → Text
run_text date time ordinal =
    codes "RUN-" ++ (date ++ (codes "T" ++ (time ++ (codes "Z-" ++ ordinal))))

match_literal :
    (l : Text) (ps : List (ℕ → Bool)) (s : Text)
    → full_match (literal l ++ ps) s ≡ true
    → (r : Text) × (s ≡ l ++ r) × (full_match ps r ≡ true)
unfolding full_match
match_literal [] ps s h = (s, refl, h)
match_literal (c ∷ l) ps [] h = cc
match_literal (c ∷ l) ps (d ∷ s) h =
    let (same, rest) = &&-eq-true (d == c) _ h in
    let (r, e, m) = match_literal l ps s rest in (r, cc ((==_iff d c).0 same, e), m)

match-Digits :
    (n : ℕ) (ps : List (ℕ → Bool)) (s : Text)
    → full_match (replicate n digit ++ ps) s ≡ true
    → (d r : Text) × (s ≡ d ++ r) × Digits n d × (full_match ps r ≡ true)
unfolding full_match
match-Digits zero ps s h = ([], s, refl, (refl, tt), h)
match-Digits (suc n) ps [] h = cc
match-Digits (suc n) ps (c ∷ s) h =
    let (one, rest) = &&-eq-true _ _ h in
    let (d, r, e, ds, m) = match-Digits n ps s rest in
    (c ∷ d, r, ap (λ x. c ∷ x) e, (ap suc ds.0, (one, ds.1)), m)

write_literal :
    (l : Text) (ps : List (ℕ → Bool)) (r : Text)
    → full_match ps r ≡ true
    → full_match (literal l ++ ps) (l ++ r) ≡ true
unfolding full_match
write_literal [] ps r h = h
write_literal (c ∷ l) ps r h = ground (arith, write_literal l ps r h)

write-Digits :
    (n : ℕ) (d : Text) (ps : List (ℕ → Bool)) (r : Text)
    → Digits n d
    → full_match ps r ≡ true
    → full_match (replicate n digit ++ ps) (d ++ r) ≡ true
unfolding full_match
write-Digits zero [] ps r ds h = h
write-Digits zero (c ∷ d) ps r ds h = absurd (omega (arith, ds.0))
write-Digits (suc n) [] ps r ds h = absurd (omega (arith, ds.0))
write-Digits (suc n) (c ∷ d) ps r ds h =
    rw ds.1.0 (write-Digits n d ps r (omega (arith, ds.0), ds.1.1) h)

last_char : (c : ℕ) → (leb 49 c && leb c 52) ≡ true → (c ≡ 49) ⊎ ((c ≡ 50) ⊎ ((c ≡ 51) ⊎ (c ≡ 52)))
last_char c h = ground arith

match_last :
    (s : Text)
    → full_match ((λ c. leb 49 c && leb c 52) ∷ []) s ≡ true
    → (r : Repeat) × (codes "R0" ++ s ≡ repeat_id r)
unfolding full_match
match_last [] h = cc
match_last (c ∷ d ∷ s) h = absurd (bad (&&-eq-true _ _ h).1)
  where
    bad : false ≡ true → ⊥
    bad e = cc
match_last (c ∷ []) h = elim (last_char c (&&-eq-true _ _ h).0) [
  | inl e ↦ (r01, rw e)
  | inr (inl e) ↦ (r02, rw e)
  | inr (inr (inl e)) ↦ (r03, rw e)
  | inr (inr (inr e)) ↦ (r04, rw e)
]

match_repeat : (s : Text) → full_match repeat_re s ≡ true → (r : Repeat) × (s ≡ repeat_id r)
match_repeat s h =
    let (rest, e, m) = match_literal (codes "R0") _ s h in
    let (r, f) = match_last rest m in (r, e ∙ f)

write_repeat : (r : Repeat) → full_match repeat_re (repeat_id r) ≡ true
unfolding full_match
write_repeat r01 = refl
write_repeat r02 = refl
write_repeat r03 = refl
write_repeat r04 = refl

drop-date :
    (date : Text) (r : Repeat)
    → length date ≡ 8
    → experiment_repeat (experiment_text date r) ≡ repeat_id r
drop-date date r h = drop_more date _ h
  where
    drop_more : (d t : Text) → length d ≡ 8 → drop 19 (d ++ (codes "-DL-18000K-" ++ t)) ≡ t
    drop_more (a ∷ b ∷ c ∷ d ∷ e ∷ f ∷ g ∷ h ∷ []) t l = refl
    drop_more _ t l = absurd (omega arith)

-- The parts of an experiment's identity, and of a run's.
abbrev pub NamesExperiment : Repeat → Text → Type 0
NamesExperiment repeat s = (date : Text) × Digits 8 date × (s ≡ experiment_text date repeat)

abbrev pub NamesRun : Text → Type 0
NamesRun s =
    (date time ordinal : Text) × Digits 8 date
    × Digits 6 time
    × Digits 3 ordinal
    × (s ≡ run_text date time ordinal)

read_experiment :
    (s : Text) (repeat : Repeat)
    → full_match experiment_re s ≡ true
    → text_eq (experiment_repeat s) (repeat_id repeat) ≡ true
    → NamesExperiment repeat s
read_experiment s repeat h same =
    let (s1, e1, m1) = match_literal (codes "EXP-") _ s h in
    let (date, s2, e2, digits, m2) = match-Digits 8 _ s1 m1 in
    let (s3, e3, m3) = match_literal (codes "-DL-18000K-") _ s2 m2 in
    let (r, e4) = match_repeat s3 m3 in
    let whole : s ≡ experiment_text date r =
      e1
      ∙ ap (λ t. codes "EXP-" ++ t)
          (e2 ∙ ap (λ t. date ++ t) (e3 ∙ ap (λ t. codes "-DL-18000K-" ++ t) e4)) in
    let repeats : repeat_id r ≡ repeat_id repeat =
      sym (drop-date date r digits.0)
      ∙ sym (ap experiment_repeat whole)
      ∙ (text_eq_iff _ _).0 same in
    (date, digits, whole ∙ ap (λ t. codes "EXP-" ++ (date ++ (codes "-DL-18000K-" ++ t))) repeats)

write_experiment :
    (date : Text) (repeat : Repeat)
    → Digits 8 date
    → full_match experiment_re (experiment_text date repeat) ≡ true
write_experiment date repeat digits = write_literal (codes "EXP-") _ _ (
    write-Digits 8 date _ _ digits
      (write_literal (codes "-DL-18000K-") _ (repeat_id repeat) (write_repeat repeat)))

experiment_iff :
    (s : Text) (repeat : Repeat)
    → ((full_match experiment_re s ≡ true)
        × (text_eq (experiment_repeat s) (repeat_id repeat) ≡ true))
      ↔ NamesExperiment repeat s
experiment_iff s repeat = (
  λ h. read_experiment s repeat h.0 h.1,
  λ n.
      let (date, digits, e) = n in
      rw e
        (write_experiment date repeat digits, (text_eq_iff _ _).1 (drop-date date repeat digits.0)),
)

match_end : (s : Text) → full_match [] s ≡ true → s ≡ []
unfolding full_match
match_end [] h = refl
match_end (c ∷ s) h = cc

read_run : (s : Text) → full_match run_re s ≡ true → NamesRun s
read_run s h =
    let (s1, e1, m1) = match_literal (codes "RUN-") _ s h in
    let (date, s2, e2, d8, m2) = match-Digits 8 _ s1 m1 in
    let (s3, e3, m3) = match_literal (codes "T") _ s2 m2 in
    let (time, s4, e4, d6, m4) = match-Digits 6 _ s3 m3 in
    let (s5, e5, m5) = match_literal (codes "Z-") _ s4 m4 in
    let (ordinal, s6, e6, d3, m6) = match-Digits 3 [] s5 m5 in
    let last : s5 ≡ ordinal = e6 ∙ ap (λ t. ordinal ++ t) (match_end s6 m6) ∙ append-nil ordinal in
    let rest : s1 ≡ date ++ (codes "T" ++ (time ++ (codes "Z-" ++ ordinal))) =
      e2
      ∙ ap (λ t. date ++ t)
          (e3
            ∙ ap (λ t. codes "T" ++ t)
                (e4 ∙ ap (λ t. time ++ t) (e5 ∙ ap (λ t. codes "Z-" ++ t) last))) in
    (date, time, ordinal, d8, d6, d3, e1 ∙ ap (λ t. codes "RUN-" ++ t) rest)

write_last : (ordinal : Text) → Digits 3 ordinal → full_match (replicate 3 digit) ordinal ≡ true
unfolding full_match
write_last ordinal d3 =
    subst (λ (t : Text). full_match (replicate 3 digit) t ≡ true) (append-nil ordinal)
      (write-Digits 3 ordinal [] [] d3 refl)

write_run :
    (date time ordinal : Text)
    → Digits 8 date
    → Digits 6 time
    → Digits 3 ordinal
    → full_match run_re (run_text date time ordinal) ≡ true
write_run date time ordinal d8 d6 d3 = write_literal (codes "RUN-") _ _ (
    write-Digits 8 date _ _ d8 (
      write_literal (codes "T") _ _ (
        write-Digits 6 time _ _ d6
          (write_literal (codes "Z-") (replicate 3 digit) ordinal (write_last ordinal d3)))))

run_iff : (s : Text) → (full_match run_re s ≡ true) ↔ NamesRun s
run_iff s = (
  read_run s,
  λ n. let (date, time, ordinal, d8, d6, d3, e) = n in rw e (write_run date time ordinal d8 d6 d3),
)

-- The identity is accepted exactly when the experiment names its date of eight digits and the
-- repeat of the arguments, and the run a date, a time and an ordinal of eight, six and three.
pub validate_identity_iff :
    (experiment_id run_id : Text) (repeat : Repeat)
    → (validate_identity experiment_id run_id repeat ≡ ok tt)
      ↔ (NamesExperiment repeat experiment_id × NamesRun run_id)
unfolding validate_identity
validate_identity_iff experiment_id run_id repeat =
    let named = experiment_iff experiment_id repeat in
    let checks =
      >>_iff _ _ (require_iff (full_match experiment_re experiment_id) _ (λ h. h, λ h. h)) (
        >>_iff _ _
          (require_iff (text_eq (experiment_repeat experiment_id) (repeat_id repeat)) _
            (λ h. h, λ h. h))
          (require_iff _ _ (run_iff run_id))) in
    (
      λ h. let (a, r) = checks.0 h in (named.0 (a, r.0), r.1),
      λ n. let (a, b) = named.1 n.0 in checks.1 (a, (b, n.1)),
    )
