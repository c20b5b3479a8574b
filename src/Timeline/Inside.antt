-- ===== src/Timeline/Inside.antt =====
-- The times that strict_hits finds in an interval
-- (scripts/experiment-harness/canonicalize-iperf-receiver.py).
use tcd_oran_testbed_integra.Base.{
  ℕ, ◌≡◌, refl, sym, ap, ◌∙◌, Bool, true, false, ◌&&◌, if◌then◌else◌, List, [], ◌∷◌, ◌++◌, All,
  length, &&-eq-true, ◌⊎◌, inl, inr, arith,
}
use tcd_oran_testbed_integra.Base.Integers.{ℤ, pos, less}
use tcd_oran_testbed_integra.Timeline.Receiver.{is_inside, strict_hits}

hits-keep :
    (b : Bool) (t : ℤ) (rest : List ℤ)
    → length (if b then t ∷ rest else rest) ≡ 0
    → (b ≡ false) × (length rest ≡ 0)
hits-keep true t rest h = absurd (omega arith)
hits-keep false t rest h = (refl, h)

-- The time lies strictly inside the interval, or not.
abbrev pub Inside : ℕ → ℕ → ℤ → Type 0
Inside start stop time = (less (pos start) time ≡ true) × (less time (pos stop) ≡ true)

abbrev pub Outside : ℕ → ℕ → ℤ → Type 0
Outside start stop time = ¬ Inside start stop time

both→true : (a b : Bool) → (a ≡ true) × (b ≡ true) → (a && b) ≡ true
both→true true b p = p.1
both→true false b p = absurd (cc p.0)

is_inside-Outside : (start stop : ℕ) (t : ℤ) → is_inside start stop t ≡ false → Outside start stop t
unfolding is_inside
is_inside-Outside start stop t h =
    λ p. let inside = both→true (less (pos start) t) (less t (pos stop)) p in cc (sym h ∙ inside)

pub strict_hits-none :
    (start stop : ℕ) (times : List ℤ)
    → length (strict_hits start stop times) ≡ 0
    → All (Outside start stop) times
unfolding strict_hits
strict_hits-none start stop [] h = tt
strict_hits-none start stop (t ∷ times) h =
    let (out, rest) = hits-keep (is_inside start stop t) t (strict_hits start stop times) h in
    (is_inside-Outside start stop t out, strict_hits-none start stop times rest)

-- Exactly one of the times lies strictly inside.
pub record OnlyOne (start stop : ℕ) (times : List ℤ) : Type 0 where
  pub before : List ℤ
  pub time : ℤ
  pub after : List ℤ
  pub split : times ≡ before ++ time ∷ after
  pub inside : Inside start stop time
  pub none_before : All (Outside start stop) before
  pub none_after : All (Outside start stop) after

hits-one :
    (b : Bool) (t : ℤ) (rest : List ℤ)
    → length (if b then t ∷ rest else rest) ≡ 1
    → ((b ≡ true) × (length rest ≡ 0)) ⊎ ((b ≡ false) × (length rest ≡ 1))
hits-one true t rest h = inl (refl, omega (arith, h))
hits-one false t rest h = inr (refl, h)

pub strict_hits-OnlyOne :
    (start stop : ℕ) (times : List ℤ)
    → length (strict_hits start stop times) ≡ 1
    → OnlyOne start stop times
unfolding strict_hits is_inside
strict_hits-OnlyOne start stop [] h = absurd (omega (arith, h))
strict_hits-OnlyOne start stop (t ∷ times) h =
    elim (hits-one (is_inside start stop t) t (strict_hits start stop times) h) [
      | inl p ↦ record {
        before = [];
        time = t;
        after = times;
        split = refl;
        inside = &&-eq-true _ _ p.0;
        none_before = tt;
        none_after = strict_hits-none start stop times p.1;
      }
      | inr p ↦
          let one = strict_hits-OnlyOne start stop times p.1 in
          record {
            before = t ∷ one.before;
            time = one.time;
            after = one.after;
            split = ap (λ ts. t ∷ ts) one.split;
            inside = one.inside;
            none_before = (is_inside-Outside start stop t p.0, one.none_before);
            none_after = one.none_after;
          }
    ]
