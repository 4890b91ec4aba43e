-- ===== src/Web/RateLimit/Defs.antt =====
-- internal/web/ratelimit/ratelimit.go: `Limiter`, `New` and `Allow`, with the clock as an argument.
use nexguard.Prelude.{
  ℕ, ◌+◌, Bool, true, false, List, [], ◌∷◌, ◌++◌, if◌then◌else◌, ltb, leb, length, select,
}
use nexguard.Prelude.Text.{Text, text_eq}

pub record Limiter : Type 0 where
  pub max : ℕ
  pub window : ℕ
  pub attempts : Text → List ℕ

unfoldable pub new : ℕ → ℕ → Limiter
new max window = record { max = max; window = window; attempts = λ key. [] }

-- `t.After(now.Add(-window))`
abbrev pub in_window : ℕ → ℕ → ℕ → Bool
in_window window now t = ltb now (t + window)

unfoldable pub set_attempts : Limiter → Text → List ℕ → Limiter
set_attempts l key ts = record l { attempts = λ k. if text_eq key k then ts else l.attempts k }

unfoldable pub allow : Limiter → Text → ℕ → Bool × Limiter
allow l key now =
    let kept = select (in_window l.window now) (l.attempts key) in
    if leb l.max (length kept)
    then (false, set_attempts l key kept)
    else (true, set_attempts l key (kept ++ now ∷ []))
