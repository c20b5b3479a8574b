-- ===== src/Base/Paths/Laws.antt =====
-- Equality of paths.
use mathlib.Core.Path.{◌≡◌, refl}
use mathlib.Core.Bool.{Bool, true, false}
use mathlib.Core.List.{List, [], ◌∷◌}
use tcd_oran_testbed_integra.Base.Tests.{&&-eq-true}
use tcd_oran_testbed_integra.Base.Text.{Text, text_eq}
use tcd_oran_testbed_integra.Base.Text.Laws.{text_eq_iff}
use tcd_oran_testbed_integra.Base.Paths.{FilePath, path_eq, texts_eq, bool_eq}

texts_eq→eq : (s t : List Text) → texts_eq s t ≡ true → s ≡ t
texts_eq→eq [] [] h = refl
texts_eq→eq [] (b ∷ t) h = cc
texts_eq→eq (a ∷ s) [] h = cc
texts_eq→eq (a ∷ s) (b ∷ t) h =
    let (e, f) = &&-eq-true (text_eq a b) (texts_eq s t) h in
    cc ((text_eq_iff a b).0 e, texts_eq→eq s t f)

texts_eq_refl : (s : List Text) → texts_eq s s ≡ true
texts_eq_refl [] = refl
texts_eq_refl (a ∷ s) = rw ((text_eq_iff a a).1 refl) (texts_eq_refl s)

bool_eq→eq : (a b : Bool) → bool_eq a b ≡ true → a ≡ b
bool_eq→eq true true h = refl
bool_eq→eq true false h = cc
bool_eq→eq false true h = cc
bool_eq→eq false false h = refl

bool_eq_refl : (a : Bool) → bool_eq a a ≡ true
bool_eq_refl true = refl
bool_eq_refl false = refl

pub path_eq→eq : (p q : FilePath) → path_eq p q ≡ true → p ≡ q
unfolding path_eq
path_eq→eq p q h =
    let (e, f) = &&-eq-true (bool_eq p.is_absolute q.is_absolute) (texts_eq p.parts q.parts) h in
    let e' = bool_eq→eq p.is_absolute q.is_absolute e in
    let f' = texts_eq→eq p.parts q.parts f in λ i. record { is_absolute = e' i; parts = f' i }

pub path_eq_refl : (p : FilePath) → path_eq p p ≡ true
unfolding path_eq
path_eq_refl p = rw (bool_eq_refl p.is_absolute) (texts_eq_refl p.parts)
