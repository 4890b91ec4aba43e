-- ===== src/Tests/RateLimit.antt =====
-- Witnesses for the rate limiter.
use nexguard.Prelude.{ℕ, ◌≡◌, refl, false, true, List, [], ◌∷◌, arith}
use nexguard.Prelude.Text.{Text, codes, text_eq}
use nexguard.Web.RateLimit.{new, set_attempts, allow}
use nexguard.Web.RateLimit.Window.{attempts}
use nexguard.Web.RateLimit.Bounds.{start, allow_exact}

abbrev calls : List (Text × ℕ)
calls = (codes "a", 1) ∷ (codes "b", 2) ∷ (codes "a", 3) ∷ (codes "a", 4) ∷ []

allow_exact_example : (allow (attempts (start 2 10) calls).limiter (codes "a") 5).0 ≡ false
unfolding allow new set_attempts text_eq
allow_exact_example = allow_exact 2 10 calls (codes "a") 5 (omega arith)

again_after_the_window : (allow (attempts (start 2 10) calls).limiter (codes "a") 11).0 ≡ true
unfolding allow new set_attempts text_eq
again_after_the_window = refl
