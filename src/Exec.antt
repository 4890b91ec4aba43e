-- ===== src/Exec.antt =====
-- Go functions that return `(T, error)` and change shared state. What was written before an error
-- stays written, so the state comes back beside the error too.
pub mod Fixes
pub mod Preserves
use nexguard.Prelude.{◌≡◌, refl, ◌⊎◌, inl, inr}
use nexguard.Prelude.Text.{Text}

-- A Go `error`: what the system reports, `fmt.Errorf` of a text, and `fmt.Errorf` with `%w`.
pub data Error : Type 0 where
  refused not_exist : Error
  -- a nil pointer, and `errUnknownStripeCustomer` of internal/web/billing/webhook.go
  panic unknown_stripe_customer : Error
  errorf : Text → Error
  wrap : Text → Error → Error

pub data Result {ℓ} (A : Type ℓ) : Type ℓ where
  ok : A → Result A
  err : Error → Result A

abbrev pub Exec {ℓ} : Type ℓ → Type ℓ → Type ℓ
Exec S A = S → Result A × S

abbrev relabel {ℓ} : {A : Type ℓ} → Text → Result A → Result A
relabel t (ok a) = ok a
relabel t (err e) = err (wrap t e)

module _ {ℓ} {S A : Type ℓ} where
  abbrev pub pure : A → Exec S A
  pure a s = (ok a, s)

  abbrev pub raise : Error → Exec S A
  raise e s = (err e, s)

  abbrev pub gets : (S → A) → Exec S A
  gets f s = (ok (f s), s)

  -- `x, err := m` with `err` looked at by the caller.
  abbrev pub attempt : Exec S A → Exec S (Result A)
  attempt m s = let (r, s') = m s in (ok r, s')

  -- `if err != nil { return fmt.Errorf("...: %w", err) }`
  abbrev pub wrapping : Text → Exec S A → Exec S A
  wrapping t m s = let (r, s') = m s in (relabel t r, s')

module _ {ℓ} {S A B : Type ℓ} where
  abbrev continue : Result A → (A → Exec S B) → Exec S B
  continue (ok a) f s = f a s
  continue (err e) f s = (err e, s)

  infixl 10 ◌>>=◌ ◌>>◌
  abbrev pub ◌>>=◌ : Exec S A → (A → Exec S B) → Exec S B
  ◌>>=◌ m f s = let (r, s') = m s in continue r f s'

  abbrev pub ◌>>◌ : Exec S A → Exec S B → Exec S B
  ◌>>◌ m n s = let (r, s') = m s in continue r (λ _. n) s'

-- To split on a result and keep the equation.
pub Result-cases {ℓ} :
    {A : Type ℓ} (r : Result A) → ((a : A) × (r ≡ ok a)) ⊎ ((e : Error) × (r ≡ err e))
Result-cases (ok a) = inl (a, refl)
Result-cases (err e) = inr (e, refl)
