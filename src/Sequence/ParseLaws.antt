-- ===== src/Sequence/ParseLaws.antt =====
-- Reading the gates is exact, and inverse to writing them
-- (scripts/experiment-harness/prompt12-six-transition-orchestrator.py).
use tcd_oran_testbed_integra.Base.{
  ℕ, suc, String, require, ◌>>◌, >>-eq-ok, require-eq-ok, ◌+◌, ◌≡◌, ◌↔◌, ◌==◌, ==_iff, some, List,
  [], ◌∷◌, map, length, ok, refl, ap, sym, ◌∙◌, arith, All, >>=-eq-ok, Option-cases, inl, inr,
}
use tcd_oran_testbed_integra.Base.Text.{Text, codes, upper, strip, split}
use tcd_oran_testbed_integra.Base.Text.Laws.{text_eq_iff, join, Lacks, split-join}
use tcd_oran_testbed_integra.Sequence.Plan.{Gate, pass, fail}
use tcd_oran_testbed_integra.Sequence.Parse.{gate_of, check_values, parse_post_gates}

abbrev pub gate_text : Gate → Text
gate_text pass = codes "PASS"
gate_text fail = codes "FAIL"

abbrev pub normal : Text → Text
normal item = upper (strip item)

gate_of-eq-some : (v : Text) (g : Gate) → (gate_of v ≡ some g) ↔ (v ≡ gate_text g)
gate_of-eq-some v pass = ground (arith, text_eq_iff v (codes "PASS"), text_eq_iff v (codes "FAIL"))
gate_of-eq-some v fail = ground (arith, text_eq_iff v (codes "PASS"), text_eq_iff v (codes "FAIL"))

check_values_sound :
    (i : ℕ) (vs : List Text) (gs : List Gate) → check_values i vs ≡ ok gs → vs ≡ map gate_text gs
unfolding check_values
check_values_sound i [] gs h = ground arith
check_values_sound i (v ∷ vs) gs h = elim (Option-cases (gate_of v)) [
  | inl e ↦ absurd (cc (rw (e, check_values) at h))
  | inr (g, e) ↦
      let (rest, ok_rest, whole) =
        >>=-eq-ok (check_values (i + 1) vs) _ (rw (e, check_values) at h) in
      cc (check_values_sound (i + 1) vs rest ok_rest, (gate_of-eq-some v g).0 e, whole)
]

check_values_complete : (i : ℕ) (gs : List Gate) → check_values i (map gate_text gs) ≡ ok gs
unfolding check_values
check_values_complete i [] = refl
check_values_complete i (pass ∷ gs) = rw (check_values_complete (i + 1) gs)
check_values_complete i (fail ∷ gs) = rw (check_values_complete (i + 1) gs)

length-map-gate : (gs : List Gate) → length (map gate_text gs) ≡ length gs
length-map-gate [] = refl
length-map-gate (g ∷ gs) = ap suc (length-map-gate gs)

read_values :
    (vs : List Text) (reason : String) (gs : List Gate)
    → (require (length vs == 6) reason >> check_values 1 vs) ≡ ok gs
    → (vs ≡ map gate_text gs) × (length gs ≡ 6)
read_values vs reason gs h =
    let (counted, read) = >>-eq-ok _ _ h in
    let same = check_values_sound 1 vs gs read in
    let six = (==_iff _ _).0 (require-eq-ok _ reason counted) in
    (same, sym (length-map-gate gs) ∙ sym (ap length same) ∙ six)

written_values :
    (gs : List Gate) (reason : String)
    → length gs ≡ 6
    → (require (length (map gate_text gs) == 6) reason >> check_values 1 (map gate_text gs)) ≡ ok gs
written_values gs reason six =
    rw ((==_iff (length (map gate_text gs)) 6).1 (length-map-gate gs ∙ six))
      (check_values_complete 1 gs)

-- The argument is read as a list of gates exactly when its comma-separated items, stripped and in
-- upper case, are the words of those gates, and there are six of them.
pub parse_post_gates_iff :
    (text : Text) (gs : List Gate)
    → (parse_post_gates text ≡ ok gs)
      ↔ ((map normal (split b',' text) ≡ map gate_text gs) × (length gs ≡ 6))
unfolding parse_post_gates
parse_post_gates_iff text gs =
    (read_values (map normal (split b',' text)) _ gs, λ h. rw h.0 (written_values gs _ h.1))

-- Six items that have no comma and name the gates, in any case and with any white space around
-- them, are read back from the text that joins them by commas.
pub parse_post_gates-join :
    (item : Text) (items : List Text) (gs : List Gate)
    → All (Lacks b',') (item ∷ items)
    → map normal (item ∷ items) ≡ map gate_text gs
    → length gs ≡ 6
    → parse_post_gates (join b',' (item ∷ items)) ≡ ok gs
parse_post_gates-join item items gs plain named six =
    (parse_post_gates_iff _ gs).1 (ap (map normal) (split-join b',' item items plain) ∙ named, six)
