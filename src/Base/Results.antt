-- ===== src/Base/Results.antt =====
-- Exceptions as values: a computation ends with a value or raises with a reason.
use Prim.Native.String.{String}
use mathlib.Core.Path.{◌≡◌, refl}
use mathlib.Core.Logic.{◌↔◌}
use mathlib.Core.Bool.{Bool, true, false}

-- `err` is the exception, with its text.
pub data Result {ℓ} (A : Type ℓ) : Type ℓ where
  err : (reason : String) → Result A
  ok : (value : A) → Result A

-- `require(condition, reason)`
abbrev pub require : Bool → String → Result (Unit {0})
require true _ = ok tt
require false reason = err reason

-- `if condition: block`, for a block that only checks.
abbrev pub only_if : Bool → Result (Unit {0}) → Result (Unit {0})
only_if false _ = ok tt
only_if true m = m

infixl 5 ◌>>◌ ◌>>=◌
-- A statement and what follows it.
abbrev pub ◌>>◌ {κ} : {B : Type κ} → Result (Unit {0}) → Result B → Result B
err reason >> _ = err reason
ok _ >> rest = rest

-- A statement whose value is used.
abbrev pub ◌>>=◌ {ℓ κ} : {A : Type ℓ} {B : Type κ} → Result A → (A → Result B) → Result B
err reason >>= _ = err reason
ok value >>= rest = rest value

-- A block that returned has run all its statements.
pub >>-eq-ok {κ} :
    {B : Type κ} (first : Result (Unit {0})) (rest : Result B) {b : B}
    → (first >> rest) ≡ ok b
    → (first ≡ ok tt) × (rest ≡ ok b)
>>-eq-ok (err reason) rest h = cc
>>-eq-ok (ok tt) rest h = (refl, h)

pub >>=-eq-ok {ℓ κ} :
    {B : Type κ} {b : B} {A : Type ℓ} (first : Result A) (rest : A → Result B)
    → (first >>= rest) ≡ ok b
    → (value : A) × (first ≡ ok value) × (rest value ≡ ok b)
>>=-eq-ok (err reason) rest h = cc
>>=-eq-ok (ok value) rest h = (value, refl, h)

pub require-eq-ok : (b : Bool) (reason : String) → require b reason ≡ ok tt → b ≡ true
require-eq-ok true reason h = refl
require-eq-ok false reason h = cc

pub only_if-eq-ok : (b : Bool) (m : Result (Unit {0})) → only_if b m ≡ ok tt → b ≡ true → m ≡ ok tt
only_if-eq-ok true m h e = h
only_if-eq-ok false m h e = cc

-- What a check accepts, put together from its parts.
pub >>_iff {ℓ κ} :
    {P : Type ℓ} {Q : Type κ} (m k : Result (Unit {0}))
    → (m ≡ ok tt) ↔ P
    → (k ≡ ok tt) ↔ Q
    → ((m >> k) ≡ ok tt) ↔ (P × Q)
>>_iff (ok tt) k p q = (λ h. (p.0 refl, q.0 h), λ h. q.1 h.1)
>>_iff (err e) k p q = (λ h. cc, λ h. absurd (cc (p.1 h.0)))

pub only_if_iff {ℓ κ} :
    {P : Type ℓ} {Q : Type κ} (b : Bool) (m : Result (Unit {0}))
    → (b ≡ true) ↔ P
    → (m ≡ ok tt) ↔ Q
    → (only_if b m ≡ ok tt) ↔ (P → Q)
only_if_iff true m p q = (λ h _. q.0 h, λ f. q.1 (f (p.0 refl)))
only_if_iff false m p q = (λ _ a. absurd (cc (p.1 a)), λ _. refl)

pub require_iff {ℓ} :
    {P : Type ℓ} (b : Bool) (reason : String) → (b ≡ true) ↔ P → (require b reason ≡ ok tt) ↔ P
require_iff true reason p = (λ _. p.0 refl, λ _. refl)
require_iff false reason p = (λ h. cc, λ a. absurd (cc (p.1 a)))

-- The computation ends with a value, of which the predicate holds.
abbrev pub Returns {ℓ} : {A : Type ℓ} → Result A → (A → Type 0) → Type 0
Returns (ok a) P = P a
Returns (err _) P = ⊥

pub ok-eq {ℓ} : {A : Type ℓ} {a b : A} → ok a ≡ ok b → a ≡ b
ok-eq h = cc

-- Statements that pass, one by one.
pub >>-pass {κ} :
    {B : Type κ} (first : Result (Unit {0})) (rest : Result B) {z : Result B}
    → first ≡ ok tt
    → rest ≡ z
    → (first >> rest) ≡ z
>>-pass (ok tt) rest h k = k
>>-pass (err reason) rest h k = absurd (cc h)

pub require-pass : (b : Bool) (reason : String) → b ≡ true → require b reason ≡ ok tt
require-pass true reason h = refl
require-pass false reason h = absurd (cc h)
