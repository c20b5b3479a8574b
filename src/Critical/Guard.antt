-- ===== src/Critical/Guard.antt =====
-- What a program of the critical section may do while it holds a guard file or not, with the rules
-- for putting programs together.
use tcd_oran_testbed_integra.Base.{◌≡◌, Bool, true}
use tcd_oran_testbed_integra.Base.Text.{Text}
use tcd_oran_testbed_integra.Base.Paths.{FilePath}
use tcd_oran_testbed_integra.Critical.Program.{
  File, precontrol, ratio_bind, trigger, Op, exists, create, persist, question, utc_now, child,
  read_report, Creation, created, Answer, Program, ret, fail, call, ◌>>=◌, rethrow, finally_do,
}
use tcd_oran_testbed_integra.Critical.System.{file_eq}

-- Before the guard is made, from then on, and after the trigger.
pub data Phase : Type 0 where
  fresh owner spent : Phase

abbrev pub after_create : Phase → Bool → Creation → Phase
after_create fresh true created = owner
after_create ph _ _ = ph

abbrev pub after_trigger : Phase → Bool → Phase
after_trigger owner true = spent
after_trigger ph _ = ph

-- `matches` are the triggers that the guard is for.
module _ (matches : FilePath → Text → Bool) (guard : File) where
  unfoldable pub next : Phase → (op : Op) → Answer op → Phase
  next ph (create f) a = after_create ph (file_eq f guard) a
  next ph (child root id trigger argv) a = after_trigger ph (matches root id)
  next ph (child root id precontrol argv) a = ph
  next ph (child root id ratio_bind argv) a = ph
  next ph (exists f) a = ph
  next ph (persist f content) a = ph
  next ph (question q) a = ph
  next ph utc_now a = ph
  next ph (read_report f) a = ph

  -- Such a trigger is dispatched by the owner of the guard only, and once.
  unfoldable pub Permitted : Phase → Op → Type 0
  Permitted ph (child root id trigger argv) = matches root id ≡ true → ph ≡ owner
  Permitted ph (child root id precontrol argv) = Unit
  Permitted ph (child root id ratio_bind argv) = Unit
  Permitted ph (create f) = Unit
  Permitted ph (exists f) = Unit
  Permitted ph (persist f content) = Unit
  Permitted ph (question q) = Unit
  Permitted ph utc_now = Unit
  Permitted ph (read_report f) = Unit

  unfoldable pub Runs :
      {E A : Type 0} → Phase → Program E A → (Phase → A → Type 0) → (Phase → E → Type 0) → Type 0
  Runs ph (ret a) Q X = Q ph a
  Runs ph (fail e) Q X = X ph e
  Runs ph (call op k) Q X = Permitted ph op × ((a : Answer op) → Runs (next ph op a) (k a) Q X)

  pub >>=-Runs :
      {E A B : Type 0} (ph : Phase) (p : Program E A) (f : A → Program E B) (Q : Phase → A → Type 0)
      (R : Phase → B → Type 0) (X : Phase → E → Type 0)
      → Runs ph p Q X
      → ((ph' : Phase) (a : A) → Q ph' a → Runs ph' (f a) R X)
      → Runs ph (p >>= f) R X
  unfolding Runs ◌>>=◌
  >>=-Runs ph (ret a) f Q R X r h = h ph a r
  >>=-Runs ph (fail e) f Q R X r h = r
  >>=-Runs ph (call op k) f Q R X r h = (r.0, λ a. >>=-Runs (next ph op a) (k a) f Q R X (r.1 a) h)

  pub rethrow-Runs :
      {E F A : Type 0} (ph : Phase) (g : E → F) (p : Program E A) (Q : Phase → A → Type 0)
      (X : Phase → F → Type 0)
      → Runs ph p Q (λ ph' e. X ph' (g e))
      → Runs ph (rethrow g p) Q X
  unfolding Runs rethrow
  rethrow-Runs ph g (ret a) Q X r = r
  rethrow-Runs ph g (fail e) Q X r = r
  rethrow-Runs ph g (call op k) Q X r = (r.0, λ a. rethrow-Runs (next ph op a) g (k a) Q X (r.1 a))

  pub finally_do-Runs :
      {E F A : Type 0} (ph : Phase) (on_ret : A → Program F (Unit {0}))
      (on_fail : E → Program F (Unit {0})) (g : E → F) (p : Program E A) (Q : Phase → A → Type 0)
      (X : Phase → E → Type 0)
      → Runs ph p Q X
      → ((ph' : Phase) (a : A) → Runs ph' (on_ret a) (λ _ _. Unit) (λ _ _. Unit))
      → ((ph' : Phase) (e : E) → Runs ph' (on_fail e) (λ _ _. Unit) (λ _ _. Unit))
      → Runs ph (finally_do on_ret on_fail g p) (λ _ _. Unit) (λ _ _. Unit)
  unfolding Runs finally_do
  finally_do-Runs {F = F} ph on_ret on_fail g (ret a) Q X r h k =
      >>=-Runs {E = F} ph (on_ret a) (λ _. ret a) (λ _ _. Unit) (λ _ _. Unit) (λ _ _. Unit) (h ph a)
        (λ _ _ _. tt)
  finally_do-Runs {F = F} ph on_ret on_fail g (fail e) Q X r h k =
      >>=-Runs {E = F} ph (on_fail e) (λ _. fail (g e)) (λ _ _. Unit) (λ _ _. Unit) (λ _ _. Unit)
        (k ph e) (λ _ _ _. tt)
  finally_do-Runs {F = F} ph on_ret on_fail g (call op kont) Q X r h k =
      (r.0, λ a. finally_do-Runs (next ph op a) on_ret on_fail g (kont a) Q X (r.1 a) h k)
