-- ===== src/Exec/Preserves.antt =====
-- Actions that keep a property of the state, whether they return or fail.
use nexguard.Prelude.{Bool, true, false, if◌then◌else◌}
use nexguard.Prelude.Text.{Text}
use nexguard.Exec.{
  Error, Result, ok, err, Exec, pure, raise, gets, attempt, wrapping, continue, ◌>>=◌, ◌>>◌,
}

pub record Preserves {ℓ} {S A : Type ℓ} (P : S → Type ℓ) (m : Exec S A) : Type ℓ where
  pub after : (s : S) → P s → P (m s).1

module _ {ℓ} {S A : Type ℓ} {P : S → Type ℓ} where
  pub pure-Preserves : (a : A) → Preserves P (pure a)
  pure-Preserves a = record { after = λ s holds. holds }

  pub raise-Preserves : (e : Error) → Preserves P (raise {A = A} e)
  raise-Preserves e = record { after = λ s holds. holds }

  pub gets-Preserves : (f : S → A) → Preserves P (gets f)
  gets-Preserves f = record { after = λ s holds. holds }

  pub attempt-Preserves : (m : Exec S A) → Preserves P m → Preserves P (attempt m)
  attempt-Preserves m keeps = record { after = λ s holds. keeps.after s holds }

  pub wrapping-Preserves : (t : Text) (m : Exec S A) → Preserves P m → Preserves P (wrapping t m)
  wrapping-Preserves t m keeps = record { after = λ s holds. keeps.after s holds }

  pub if-Preserves :
      (test : Bool) (m n : Exec S A)
      → Preserves P m
      → Preserves P n
      → Preserves P (if test then m else n)
  if-Preserves true m n keeps keeps' = keeps
  if-Preserves false m n keeps keeps' = keeps'

module _ {ℓ} {S A C : Type ℓ} {P : S → Type ℓ} where
  continue-holds :
      (r : Result A) (f : A → Exec S C) (s : S)
      → ((a : A) → Preserves P (f a))
      → P s
      → P (continue r f s).1
  continue-holds (ok a) f s keeps holds = (keeps a).after s holds
  continue-holds (err e) f s keeps holds = holds

  pub bind-Preserves :
      (m : Exec S A) (f : A → Exec S C)
      → Preserves P m
      → ((a : A) → Preserves P (f a))
      → Preserves P (m >>= f)
  bind-Preserves m f keeps keeps' = record {
    after = λ s holds. continue-holds (m s).0 f (m s).1 keeps' (keeps.after s holds);
  }

  pub then-Preserves :
      (m : Exec S A) (n : Exec S C) → Preserves P m → Preserves P n → Preserves P (m >> n)
  then-Preserves m n keeps keeps' = record {
    after = λ s holds. continue-holds (m s).0 (λ _. n) (m s).1 (λ _. keeps') (keeps.after s holds);
  }

pub ruleset preserves_rules = (
  pure-Preserves, raise-Preserves, gets-Preserves, attempt-Preserves, wrapping-Preserves,
  if-Preserves, bind-Preserves, then-Preserves,
)
