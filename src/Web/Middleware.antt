-- ===== src/Web/Middleware.antt =====
-- internal/web/auth/middleware.go: `RequireAuth` and `OptionalAuth`.
use nexguard.Prelude.{Option, none, some}
use nexguard.Prelude.Text.{Text, codes}
use nexguard.Exec.{Exec, Result, ok, err, pure, attempt, ◌>>=◌}
use nexguard.Web.World.{Service, Backend}
use nexguard.Web.Users.{User}
use nexguard.Web.Sessions.{validate_session}
use nexguard.Web.Http.{Request, Response, Handler, redirect}

unfoldable pub with_user : Handler → Request → Result User → Exec Service Response
with_user next r (err e) = pure (redirect (codes "/login"))
with_user next r (ok u) = next (some u) r

unfoldable pub with_maybe_user : Handler → Request → Result User → Exec Service Response
with_maybe_user next r (err e) = next none r
with_maybe_user next r (ok u) = next (some u) r

module _ (b : Backend) where
  unfoldable pub require_cookie : Handler → Request → Option Text → Exec Service Response
  unfolding with_user
  require_cookie next r none = pure (redirect (codes "/login"))
  require_cookie next r (some token) = do u ← attempt (validate_session b token); with_user next r u

  unfoldable pub require_auth : Handler → Handler
  unfolding require_cookie
  require_auth next u r = require_cookie next r r.cookie

  unfoldable pub optional_cookie : Handler → Request → Option Text → Exec Service Response
  unfolding with_maybe_user
  optional_cookie next r none = next none r
  optional_cookie next r (some token) = do
    u ← attempt (validate_session b token)
    with_maybe_user next r u

  unfoldable pub optional_auth : Handler → Handler
  unfolding optional_cookie
  optional_auth next u r = optional_cookie next r r.cookie
