-- ===== src/Supervisor/Logic.antt =====
-- Reasoning about the actions of the supervisor
-- (scripts/experiment-harness/prompt12-bounded-orchestration-supervisor.py): what holds when an
-- action is done, and what holds when it stops.
use tcd_oran_testbed_integra.Base.{ℕ, ◌≡◌, ◌≢◌, Bool, true, false, Option, some, none, String}
use tcd_oran_testbed_integra.Supervisor.Host.{
  Report, Reply, done, raised, crashed, ExitCode, code, Live, Action, pure, raise, crash, ◌>>=◌,
  ask, act, raise_if,
}

-- `Ends x Q E`: a value and the state in which it came satisfy `Q`, an exception's exit code and
-- the state in which it was raised satisfy `E`.
abbrev pub Ends :
    {W A : Type 0}
    → Reply A × Live W
    → (A → Live W → Type 0)
    → (Option ExitCode → Live W → Type 0)
    → Type 0
Ends (done a, s) Q E = Q a s
Ends (raised reason rc, s) Q E = E (some rc) s
Ends (crashed e, s) Q E = E none s

bind_ends :
    {W A B : Type 0} (Q : A → Live W → Type 0) (R : B → Live W → Type 0)
    (E : Option ExitCode → Live W → Type 0) (x : Reply A × Live W) (f : A → Action W B)
    → Ends x Q E
    → ((a : A) (s : Live W) → Q a s → Ends (f a s) R E)
    → Ends (((λ _. x) >>= f) x.1) R E
unfolding ◌>>=◌
bind_ends Q R E (done a, s) f q k = k a s q
bind_ends Q R E (raised reason rc, s) f q k = q
bind_ends Q R E (crashed e, s) f q k = q

-- The rule for one action after another.
pub >>=-Ends :
    {W A B : Type 0} (Q : A → Live W → Type 0) (R : B → Live W → Type 0)
    (E : Option ExitCode → Live W → Type 0) (m : Action W A) (f : A → Action W B) (s : Live W)
    → Ends (m s) Q E
    → ((a : A) (s' : Live W) → Q a s' → Ends (f a s') R E)
    → Ends ((m >>= f) s) R E
unfolding ◌>>=◌
>>=-Ends Q R E m f s q k = bind_ends Q R E (m s) f q k

pub Ends-weaken :
    {W A : Type 0} (Q R : A → Live W → Type 0) (E F : Option ExitCode → Live W → Type 0)
    (x : Reply A × Live W)
    → Ends x Q E
    → ((a : A) (s : Live W) → Q a s → R a s)
    → ((rc : Option ExitCode) (s : Live W) → E rc s → F rc s)
    → Ends x R F
Ends-weaken Q R E F (done a, s) q f g = f a s q
Ends-weaken Q R E F (raised reason rc, s) q f g = g (some rc) s q
Ends-weaken Q R E F (crashed e, s) q f g = g none s q

pub Ends-both :
    {W A : Type 0} (Q R : A → Live W → Type 0) (E F : Option ExitCode → Live W → Type 0)
    (x : Reply A × Live W)
    → Ends x Q E
    → Ends x R F
    → Ends x (λ a s. Q a s × R a s) E
Ends-both Q R E F (done a, s) q f = (q, f)
Ends-both Q R E F (raised reason rc, s) q f = q
Ends-both Q R E F (crashed e, s) q f = q

-- Any action ends somehow.
abbrev pub Anything : {W A : Type 0} → A → Live W → Type 0
Anything _ _ = Unit {0}

pub ends_somehow : {W A : Type 0} (x : Reply A × Live W) → Ends x Anything Anything
ends_somehow (done a, s) = tt
ends_somehow (raised reason rc, s) = tt
ends_somehow (crashed e, s) = tt

-- A state with a given report, in which the host has a property.
pub record Same {W : Type 0} (I : W → Type 0) (r : Report) (s : Live W) : Type 0 where
  pub report_is : s.report ≡ r
  pub kept : I s.world

-- The action leaves the report and a property of the host alone, and where it stops does not exit
-- with 0.
pub record IsQuiet {W A : Type 0} (I : W → Type 0) (m : Action W A) : Type 0 where
  pub quiet :
      (r : Report) (s : Live W)
      → Same I r s
      → Ends (m s) (λ _ s'. Same I r s') (λ rc s'. (rc ≢ some (code 0)) × Same I r s')

module _ {W : Type 0} {I : W → Type 0} where
  pub >>=-IsQuiet :
      {A B : Type 0} (m : Action W A) (f : A → Action W B)
      → IsQuiet I m
      → ((a : A) → IsQuiet I (f a))
      → IsQuiet I (m >>= f)
  >>=-IsQuiet m f q k = record {
    quiet = λ r s h.
        >>=-Ends (λ _ s'. Same I r s') (λ _ s'. Same I r s')
          (λ rc s'. (rc ≢ some (code 0)) × Same I r s') m f s (q.quiet r s h)
          (λ a s' e. (k a).quiet r s' e);
  }

  pub ask-IsQuiet : {A : Type 0} (f : W → A × W) → ((w : W) → I w → I (f w).1) → IsQuiet I (ask f)
  unfolding ask
  ask-IsQuiet f k = record {
    quiet = λ r s h. record { report_is = h.report_is; kept = k s.world h.kept };
  }

  pub act-IsQuiet : (f : W → W) → ((w : W) → I w → I (f w)) → IsQuiet I (act f)
  unfolding act
  act-IsQuiet f k = record {
    quiet = λ r s h. record { report_is = h.report_is; kept = k s.world h.kept };
  }

  pub pure-IsQuiet : {A : Type 0} (a : A) → IsQuiet I (pure a)
  unfolding pure
  pure-IsQuiet a = record { quiet = λ r s h. h }

  pub crash-IsQuiet : (A : Type 0) (e : String) → IsQuiet {A = A} I (crash e)
  unfolding crash
  crash-IsQuiet A e = record { quiet = λ r s h. (λ x. cc, h) }

  pub raise-IsQuiet :
      (A : Type 0) (reason : String) (rc : ExitCode)
      → rc ≢ code 0
      → IsQuiet {A = A} I (raise reason rc)
  unfolding raise
  raise-IsQuiet A reason rc n = record { quiet = λ r s h. (λ x. n (cc), h) }

  pub raise_if-IsQuiet :
      (c : Bool) (reason : String) (rc : ℕ) → rc ≢ 0 → IsQuiet I (raise_if c reason rc)
  unfolding raise_if
  raise_if-IsQuiet true reason rc n = record { quiet = λ r s h. (λ x. n (cc), h) }
  raise_if-IsQuiet false reason rc n = record { quiet = λ r s h. h }
