-- ===== src/Exec/Fixes.antt =====
-- Actions that leave a part of the state as it was: one rule for each way to build an action.
use nexguard.Prelude.{◌≡◌, refl, ◌∙◌, Bool, true, false, if◌then◌else◌}
use nexguard.Prelude.Text.{Text}
use nexguard.Exec.{
  Error, Result, ok, err, Exec, pure, raise, gets, attempt, wrapping, continue, ◌>>=◌, ◌>>◌,
}

-- `view` is the same after the action, whether it returns or fails.
pub record Fixes {ℓ} {S A B : Type ℓ} (view : S → B) (m : Exec S A) : Type ℓ where
  pub at : (s : S) → view (m s).1 ≡ view s

module _ {ℓ} {S A B : Type ℓ} {view : S → B} where
  pub Fixes-pure : (a : A) → Fixes view (pure {S = S} a)
  Fixes-pure a = record { at = λ s. refl }

  pub Fixes-raise : (e : Error) → Fixes view (raise {S = S} {A = A} e)
  Fixes-raise e = record { at = λ s. refl }

  pub Fixes-gets : (f : S → A) → Fixes view (gets f)
  Fixes-gets f = record { at = λ s. refl }

  pub Fixes-attempt : (m : Exec S A) → Fixes view m → Fixes view (attempt m)
  Fixes-attempt m k = record { at = λ s. k.at s }

  pub Fixes-wrapping : (t : Text) (m : Exec S A) → Fixes view m → Fixes view (wrapping t m)
  Fixes-wrapping t m k = record { at = λ s. k.at s }

  pub Fixes-if :
      (b : Bool) (m n : Exec S A) → Fixes view m → Fixes view n → Fixes view (if b then m else n)
  Fixes-if true m n km kn = km
  Fixes-if false m n km kn = kn

module _ {ℓ} {S A C B : Type ℓ} {view : S → B} where
  Fixes-continue :
      (r : Result A) (f : A → Exec S C) (s : S)
      → ((a : A) → Fixes view (f a))
      → view (continue r f s).1 ≡ view s
  Fixes-continue (ok a) f s kf = (kf a).at s
  Fixes-continue (err e) f s kf = refl

  pub Fixes-bind :
      (m : Exec S A) (f : A → Exec S C)
      → Fixes view m
      → ((a : A) → Fixes view (f a))
      → Fixes view (m >>= f)
  Fixes-bind m f km kf = record { at = λ s. Fixes-continue (m s).0 f (m s).1 kf ∙ km.at s }

  pub Fixes-then : (m : Exec S A) (n : Exec S C) → Fixes view m → Fixes view n → Fixes view (m >> n)
  Fixes-then m n km kn = record {
    at = λ s. Fixes-continue (m s).0 (λ _. n) (m s).1 (λ _. kn) ∙ km.at s;
  }

pub ruleset fixes_rules = (
  Fixes-pure, Fixes-raise, Fixes-gets, Fixes-attempt, Fixes-wrapping, Fixes-if, Fixes-bind,
  Fixes-then,
)
