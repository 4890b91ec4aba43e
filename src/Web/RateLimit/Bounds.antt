-- ===== src/Web/RateLimit/Bounds.antt =====
-- How many attempts internal/web/ratelimit/ratelimit.go lets through, over any run of attempts.
use nexguard.Prelude.{
  ℕ, ◌+◌, ◌≤◌, ◌≡◌, refl, Bool, ◌&&◌, List, [], ◌∷◌, ◌++◌, arith, ltb, leb, length, select,
  length-append,
}
use nexguard.Prelude.Text.{Text, text_eq_iff}
use nexguard.Web.RateLimit.Defs.{new, in_window, set_attempts, allow}
use nexguard.Web.RateLimit.Window.{
  Run, attempt, attempts, Ordered, Agrees, attempt-Agrees, attempt_exact, select-append,
}

-- The times in the window that ends at `b`.
abbrev pub within : ℕ → ℕ → ℕ → Bool
within window b t = ltb b (t + window) && leb t b

abbrev pub passed_within : Run → ℕ → Text → ℕ → ℕ
passed_within s window key b = length (select (within window b) (s.granted key))

within-le :
    (window now b : ℕ) (ts : List ℕ)
    → now ≤ b
    → length (select (within window b) ts) ≤ length (select (in_window window now) ts)
within-le window now b [] h = omega arith
within-le window now b (t ∷ ts) h = ground (arith, within-le window now b ts h)

-- What holds after each attempt of a run with these settings.
record Invariant (max window now : ℕ) (s : Run) : Type 0 where
  max_kept : s.limiter.max ≡ max
  window_kept : s.limiter.window ≡ window
  agrees : Agrees s now
  limited : (key : Text) (b : ℕ) → passed_within s window key b ≤ max

module _ (max window : ℕ) where
  attempt_limited :
      (s : Run) (key : Text) (before now : ℕ)
      → before ≤ now
      → Invariant max window before s
      → (k : Text) (b : ℕ) → passed_within (attempt s key now) window k b ≤ max
  unfolding allow
  attempt_limited s key before now le inv k b = ground (
    arith,
    inv.limited k b,
    inv.max_kept,
    inv.window_kept,
    attempt_exact s key before now le inv.agrees,
    select-append (within window b) (s.granted k) (now ∷ []),
    length-append (select (within window b) (s.granted k)) (select (within window b) (now ∷ [])),
    within-le window now b (s.granted k),
    text_eq_iff key k,
  )

  attempt-Invariant :
      (s : Run) (key : Text) (before now : ℕ)
      → before ≤ now
      → Invariant max window before s
      → Invariant max window now (attempt s key now)
  unfolding allow set_attempts
  attempt-Invariant s key before now le inv = record {
    max_kept = ground (arith, inv.max_kept);
    window_kept = ground (arith, inv.window_kept);
    agrees = attempt-Agrees s key before now le inv.agrees;
    limited = attempt_limited s key before now le inv;
  }

  attempts-Invariant :
      (s : Run) (before : ℕ) (calls : List (Text × ℕ))
      → Ordered before calls
      → Invariant max window before s
      → (key : Text) (b : ℕ) → passed_within (attempts s calls) window key b ≤ max
  attempts-Invariant s before [] ordered inv = inv.limited
  attempts-Invariant s before ((key, now) ∷ calls) ordered inv =
      attempts-Invariant (attempt s key now) now calls ordered.1
        (attempt-Invariant s key before now ordered.0 inv)

  -- A limiter that has seen nothing.
  abbrev pub start : Run
  start = record { limiter = new max window; granted = λ key. [] }

  start-Invariant : Invariant max window 0 start
  unfolding new
  start-Invariant = record {
    max_kept = refl;
    window_kept = refl;
    agrees = λ k b h. refl;
    limited = λ key b. omega arith;
  }

  -- However the attempts of all callers fall, as long as the clock does not run backwards, no
  -- window of the limiter's length holds more than `max` that were let through for one key.
  allow_bounded :
      (calls : List (Text × ℕ)) (key : Text) (b : ℕ)
      → Ordered 0 calls
      → passed_within (attempts start calls) window key b ≤ max
  allow_bounded calls key b ordered = attempts-Invariant start 0 calls ordered start-Invariant key b

  allow_exact_from :
      (s : Run) (before : ℕ) (calls : List (Text × ℕ)) (key : Text) (now : ℕ)
      → Ordered before (calls ++ (key, now) ∷ [])
      → Invariant max window before s
      → let s' = attempts s calls in
        (allow s'.limiter key now).0
        ≡ ltb (length (select (in_window window now) (s'.granted key))) max
  allow_exact_from s before [] key now ordered inv =
      ground
        (arith, attempt_exact s key before now ordered.0 inv.agrees, inv.max_kept, inv.window_kept)
  allow_exact_from s before ((k, t) ∷ calls) key now ordered inv =
      allow_exact_from (attempt s k t) t calls key now ordered.1
        (attempt-Invariant s k before t ordered.0 inv)

  -- Pruning never changes an answer: as long as the clock does not run backwards, an attempt is let
  -- through exactly if fewer than `max` of all that were let through before for its key are in its
  -- window.
  pub allow_exact :
      (calls : List (Text × ℕ)) (key : Text) (now : ℕ)
      → Ordered 0 (calls ++ (key, now) ∷ [])
      → let s = attempts start calls in
        (allow s.limiter key now).0
        ≡ ltb (length (select (in_window window now) (s.granted key))) max
  allow_exact calls key now ordered = allow_exact_from start 0 calls key now ordered start-Invariant
