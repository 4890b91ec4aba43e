-- ===== src/Web/Server/Guards.antt =====
-- Which routes of cmd/avtool-web/main.go want a session.
use nexguard.Prelude.{◌≡◌, refl, ◌⊎◌, inl, inr, Option, none, some, arith}
use nexguard.Prelude.Text.{Text, codes}
use nexguard.Exec.{Result, ok, err, Result-cases}
use nexguard.Exec.Fixes.{Fixes}
use nexguard.Web.World.{Service, Backend}
use nexguard.Web.Users.{User}
use nexguard.Web.Sessions.{validate_session}
use nexguard.Web.Http.{Request, redirect, Handler}
use nexguard.Web.Middleware.{require_cookie, require_auth}
use nexguard.Web.Handlers.Account.{dashboard_page, logout_handler}
use nexguard.Web.Handlers.Checkout.{checkout_redirect}
use nexguard.Web.Server.Defs.{Env, Server, Endpoint, dashboard, checkout, logout, handle, serve}

-- The pages of an account.
abbrev pub IsAccountPage : Endpoint → Type 0
IsAccountPage e = (e ≡ dashboard) ⊎ (e ≡ checkout) ⊎ (e ≡ logout)

abbrev user_in : Result User → Option User
user_in (ok u) = some u
user_in (err e) = none

-- The user of the session that a request's cookie names, if the database answers.
abbrev pub session_user : Backend → Request → Service → Option User
session_user b r s = elim r.cookie [
  | none ↦ none
  | some token ↦ user_in (validate_session b token s).0
]

pub validate_session-Fixes :
    (b : Backend) (token : Text) → Fixes (λ (s : Service). s.db) (validate_session b token)
unfolding validate_session
validate_session-Fixes b token = record { at = λ s. ground arith }

require_cookie_refused :
    (b : Backend) (next : Handler) (r : Request) (cookie : Option Text) (s : Service)
    → session_user b (record r { cookie = cookie }) s ≡ none
    → ((require_cookie b next r cookie s).0 ≡ ok (redirect (codes "/login")))
      × ((require_cookie b next r cookie s).1.db ≡ s.db)
unfolding require_cookie
require_cookie_refused b next r none s nobody = (refl, refl)
require_cookie_refused b next r (some token) s nobody =
    elim (Result-cases (validate_session b token s).0) [
      | inl (u, e) ↦ ground (arith, e)
      | inr (x, e) ↦ ground (arith, e, (validate_session-Fixes b token).at s)
    ]

module _ (env : Env) where
  -- A request for a page of an account whose cookie names no session that is valid now, or for
  -- which the database does not answer, is sent to the login page, and no table changes.
  pub serve_refused :
      (e : Endpoint) (r : Request) (s : Server)
      → IsAccountPage e
      → session_user env.backend r s.service ≡ none
      → let (answer, s') = serve env e r s in
        (answer ≡ ok (redirect (codes "/login"))) × (s'.service.db ≡ s.service.db)
  unfolding serve handle require_auth
  serve_refused e r s (inl page) nobody =
      rw page (require_cookie_refused env.backend dashboard_page r r.cookie s.service nobody)
  serve_refused e r s (inr (inl page)) nobody = rw page (
      require_cookie_refused env.backend (checkout_redirect env.api env.backend) r r.cookie
        s.service nobody)
  serve_refused e r s (inr (inr page)) nobody =
      rw page (
        require_cookie_refused env.backend (logout_handler env.backend) r r.cookie s.service nobody)
