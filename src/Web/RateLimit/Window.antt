-- ===== src/Web/RateLimit/Window.antt =====
-- The limiter against its specification: a full history of the attempts that were let through, of
-- which a call looks at those in its window.
use nexguard.Prelude.{
  ℕ, ◌≤◌, ◌≡◌, refl, Bool, ◌&&◌, List, [], ◌∷◌, ◌++◌, arith, if◌then◌else◌, ltb, length, select,
}
use nexguard.Prelude.Text.{Text, text_eq, text_eq_iff}
use nexguard.Web.RateLimit.Defs.{Limiter, in_window, set_attempts, allow}

pub select-append :
    (f : ℕ → Bool) (xs ys : List ℕ) → select f (xs ++ ys) ≡ select f xs ++ select f ys
select-append f [] ys = refl
select-append f (x ∷ xs) ys = ground (arith, select-append f xs ys)

-- Looking later at what was in the window before is looking at all.
select-select :
    (window a b : ℕ) (ts : List ℕ)
    → a ≤ b
    → select (in_window window b) (select (in_window window a) ts) ≡ select (in_window window b) ts
select-select window a b [] le = refl
select-select window a b (t ∷ ts) le = ground (arith, select-select window a b ts le)

-- The times at which attempts were let through, all of them, beside the limiter.
pub record Run : Type 0 where
  pub limiter : Limiter
  pub granted : Text → List ℕ

-- One attempt: what `Allow` answers decides whether its time is noted.
abbrev pub attempt : Run → Text → ℕ → Run
attempt s key now =
    let (passed, l) = allow s.limiter key now in
    record {
      limiter = l;
      granted = λ k. if passed && text_eq key k then s.granted k ++ now ∷ [] else s.granted k;
    }

abbrev pub attempts : Run → List (Text × ℕ) → Run
attempts s [] = s
attempts s ((key, now) ∷ calls) = attempts (attempt s key now) calls

-- The clock does not run backwards.
abbrev pub Ordered : ℕ → List (Text × ℕ) → Type 0
Ordered now [] = Unit
Ordered now ((key, t) ∷ calls) = (now ≤ t) × Ordered t calls

-- From a time on, the pruned list and the full one show the same window.
abbrev pub Agrees : Run → ℕ → Type 0
Agrees s now =
    (k : Text) (b : ℕ)
    → now ≤ b
    → select (in_window s.limiter.window b) (s.limiter.attempts k)
      ≡ select (in_window s.limiter.window b) (s.granted k)

pub attempt-Agrees :
    (s : Run) (key : Text) (before now : ℕ)
    → before ≤ now
    → Agrees s before
    → Agrees (attempt s key now) now
unfolding allow set_attempts
attempt-Agrees s key before now le agrees k b h =
    let window = s.limiter.window in
    ground (
      arith,
      agrees k b,
      select-select window now b (s.limiter.attempts k),
      select-append (in_window window b) (select (in_window window now) (s.limiter.attempts k))
          (now ∷ []),
      select-append (in_window window b) (s.granted k) (now ∷ []),
      text_eq_iff key k,
    )

-- An attempt is let through exactly if fewer than `max` that were let through are in its window.
pub attempt_exact :
    (s : Run) (key : Text) (before now : ℕ)
    → before ≤ now
    → Agrees s before
    → (allow s.limiter key now).0
      ≡ ltb (length (select (in_window s.limiter.window now) (s.granted key))) s.limiter.max
unfolding allow
attempt_exact s key before now le agrees = ground (arith, agrees key now)
