-- ===== src/Freshness/Admission.antt =====
-- What the gate has found when it admits a control
-- (scripts/experiment-harness/prompt12-precontrol-freshness.py).
use mathlib.Core.Path.{subst}
use tcd_oran_testbed_integra.Base.{
  ℕ, ◌-◌, ◌≤◌, ◌==◌, ==_iff, leb, ◌≡◌, sym, Bool, true, false, ◌&&◌, Option, none, some, List, [],
  ◌∷◌, ◌++◌, length, take, drop, ok, require, >>-eq-ok, >>=-eq-ok, ok-eq, require-eq-ok, &&-eq-true,
  take-drop, length-drop, arith,
}
use tcd_oran_testbed_integra.Stationarity.Decimals.{Decimals}
use tcd_oran_testbed_integra.Stationarity.Latest.{last?}
use tcd_oran_testbed_integra.Freshness.Rows.{
  Row, adjoins, has_no_gap, index_error, first_row, last_row, validate_window,
}
use tcd_oran_testbed_integra.Freshness.Main.{last_fifty, select, consecutive}

module _ (D : Decimals) where
  both-true : (a b : Bool) → a ≡ true → b ≡ true → (a && b) ≡ true
  both-true true b e f = f
  both-true false b e f = absurd (cc e)

  index_error-ok : (o : Option (Row D)) {row : Row D} → index_error D o ≡ ok row → o ≡ some row
  index_error-ok none h = absurd (cc h)
  index_error-ok (some row) h = cc h

  -- Every row adjoins the one before it.
  has_no_gap-append :
      (xs ys : List (Row D)) (x y : Row D)
      → has_no_gap D xs ≡ true
      → has_no_gap D (y ∷ ys) ≡ true
      → last? xs ≡ some x
      → adjoins D x y ≡ true
      → has_no_gap D (xs ++ (y ∷ ys)) ≡ true
  unfolding has_no_gap
  has_no_gap-append [] ys x y g h l a = absurd (cc l)
  has_no_gap-append (z ∷ []) ys x y g h l a =
      let e : x ≡ z = cc l in
      both-true (adjoins D z y) (has_no_gap D (y ∷ ys)) (subst (λ r. adjoins D r y ≡ true) e a) h
  has_no_gap-append (z ∷ w ∷ xs) ys x y g h l a =
      let (e, f) = &&-eq-true (adjoins D z w) _ g in
      both-true (adjoins D z w) (has_no_gap D ((w ∷ xs) ++ (y ∷ ys))) e
        (has_no_gap-append (w ∷ xs) ys x y f h l a)

  pub last_row-ok :
      (rows : List (Row D)) {row : Row D} → last_row D rows ≡ ok row → last? rows ≡ some row
  unfolding last_row
  last_row-ok rows h = index_error-ok (last? rows) h

  pub first_row-ok :
      (rows : List (Row D)) {row : Row D}
      → first_row D rows ≡ ok row
      → (rest : List (Row D)) × (rows ≡ row ∷ rest)
  unfolding first_row
  first_row-ok [] h = absurd (cc h)
  first_row-ok (row ∷ rows) h = (rows, cc h)

  -- The rows that have been selected: the last fifty, each of which adjoins the one before it.
  pub record IsSelection (complete selected : List (Row D)) : Type 0 where
    pub front : List (Row D)
    pub latest : complete ≡ front ++ selected
    pub fifty : length selected ≡ 50
    pub no_gap : has_no_gap D selected ≡ true

  validate_window-no_gap :
      (window : List (Row D))
      → validate_window D window ≡ ok tt
      → (length window ≡ 25) × (has_no_gap D window ≡ true)
  unfolding validate_window
  validate_window-no_gap window h =
      let (n, h1) = >>-eq-ok (require (length window == 25) _) _ h in
      let (g, h2) = >>-eq-ok (require (has_no_gap D window) _) _ h1 in
      ((==_iff _ _).0 (require-eq-ok _ _ n), require-eq-ok _ _ g)

  consecutive-adjoins :
      (w1 w2 : List (Row D))
      → consecutive D w1 w2 ≡ ok tt
      → (x : Row D) × (y : Row D) × (rest : List (Row D)) × (last? w1 ≡ some x)
        × (w2 ≡ y ∷ rest)
        × (adjoins D x y ≡ true)
  unfolding consecutive
  consecutive-adjoins w1 w2 h =
      let (x, l, h1) = >>=-eq-ok (last_row D w1) _ h in
      let (y, r, h2) = >>=-eq-ok (first_row D w2) _ h1 in
      let (rest, e) = first_row-ok w2 r in
      (
        x,
        y,
        rest,
        last_row-ok w1 l,
        e,
        require-eq-ok (adjoins D x y) "W1 and W2 are not consecutive" h2,
      )

  windows-no_gap :
      (w1 w2 : List (Row D))
      → has_no_gap D w1 ≡ true
      → has_no_gap D w2 ≡ true
      → consecutive D w1 w2 ≡ ok tt
      → has_no_gap D (w1 ++ w2) ≡ true
  windows-no_gap w1 w2 g1 g2 h =
      let (x, y, rest, l, e, a) = consecutive-adjoins w1 w2 h in
      subst (λ w. has_no_gap D (w1 ++ w) ≡ true) (sym e)
        (has_no_gap-append w1 rest x y g1 (subst (λ w. has_no_gap D w ≡ true) e g2) l a)

  leb→le : (a b : ℕ) → leb a b ≡ true → a ≤ b
  leb→le a b h = ground arith

  fifty-IsSelection :
      (complete : List (Row D))
      → leb 50 (length complete) ≡ true
      → has_no_gap D (take 25 (last_fifty D complete) ++ drop 25 (last_fifty D complete)) ≡ true
      → IsSelection complete (last_fifty D complete)
  unfolding last_fifty
  fifty-IsSelection complete n g = record {
    front = take (length complete - 50) complete;
    latest = sym (take-drop (length complete - 50) complete);
    fifty =
        omega (arith, length-drop (length complete - 50) complete, leb→le 50 (length complete) n);
    no_gap = subst (λ w. has_no_gap D w ≡ true) (take-drop 25 (last_fifty D complete)) g;
  }

  pub select-IsSelection :
      (complete selected : List (Row D))
      → select D complete ≡ ok selected
      → IsSelection complete selected
  unfolding select
  select-IsSelection complete selected h =
      let w1 = take 25 (last_fifty D complete) in
      let w2 = drop 25 (last_fifty D complete) in
      let (n, h1) = >>-eq-ok (require (leb 50 (length complete)) _) _ h in
      let (v1, h2) = >>-eq-ok (validate_window D w1) _ h1 in
      let (v2, h3) = >>-eq-ok (validate_window D w2) _ h2 in
      let (c, h4) = >>-eq-ok (consecutive D w1 w2) _ h3 in
      subst (IsSelection complete) (ok-eq h4) (
        fifty-IsSelection complete (require-eq-ok _ _ n) (
          windows-no_gap w1 w2 (validate_window-no_gap w1 v1).1 (validate_window-no_gap w2 v2).1 c))
