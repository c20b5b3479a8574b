-- ===== src/Base/Text/Laws.antt =====
-- Laws of the operations on text: comparison, splitting and joining, patterns.
use Prim.Native.Nat.{ℕ}
use mathlib.Core.Path.{◌≡◌, refl, ap, ◌∙◌}
use mathlib.Core.Logic.{◌↔◌, ◌≢◌}
use mathlib.Core.Bool.{true}
use mathlib.Core.List.{List, [], ◌∷◌, ◌++◌}
use native.Mathlib.Omega.{arith}
use tcd_oran_testbed_integra.Base.Lists.{All}
use tcd_oran_testbed_integra.Base.Text.{Text, text_eq, split}

text_eq→eq : (s t : Text) → text_eq s t ≡ true → s ≡ t
text_eq→eq [] [] h = refl
text_eq→eq [] (b ∷ t) h = cc
text_eq→eq (a ∷ s) [] h = cc
text_eq→eq (a ∷ s) (b ∷ t) h = ground (arith, text_eq→eq s t)

text_eq_refl : (s : Text) → text_eq s s ≡ true
text_eq_refl [] = refl
text_eq_refl (a ∷ s) = ground (arith, text_eq_refl s)

pub text_eq_iff : (s t : Text) → (text_eq s t ≡ true) ↔ (s ≡ t)
text_eq_iff s t = (text_eq→eq s t, λ e. rw e (text_eq_refl t))

-- The parts with the separator between them.
pub join : ℕ → List Text → Text
join separator [] = []
join separator (p ∷ []) = p
join separator (p ∷ q ∷ ps) = p ++ separator ∷ join separator (q ∷ ps)

abbrev pub Lacks : ℕ → Text → Type 0
Lacks separator = All (λ c. c ≢ separator)

split-lacking : (x : ℕ) (p : Text) → Lacks x p → split x p ≡ p ∷ []
unfolding split
split-lacking x [] h = refl
split-lacking x (c ∷ p) h = ground (arith, split-lacking x p h.1)

split-append : (x : ℕ) (p rest : Text) → Lacks x p → split x (p ++ x ∷ rest) ≡ p ∷ split x rest
unfolding split
split-append x [] rest h = ground arith
split-append x (c ∷ p) rest h = ground (arith, split-append x p rest h.1)

pub split-join :
    (x : ℕ) (p : Text) (ps : List Text)
    → All (Lacks x) (p ∷ ps)
    → split x (join x (p ∷ ps)) ≡ p ∷ ps
unfolding join
split-join x p [] h = split-lacking x p h.0
split-join x p (q ∷ ps) h =
    split-append x p (join x (q ∷ ps)) h.0 ∙ ap (λ r. p ∷ r) (split-join x q ps h.1)
