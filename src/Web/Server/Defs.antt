-- ===== src/Web/Server/Defs.antt =====
-- cmd/avtool-web/main.go: `newRouter`. Which route a request takes is chi's decision; what a route
-- does is `serve`.
use nexguard.Prelude.{ℕ, ◌*◌, Bool, true, false, List, [], ◌∷◌, Option, none}
use nexguard.Prelude.Text.{Text, codes}
use nexguard.Exec.{Exec, pure, ◌>>=◌}
use nexguard.Web.World.{Service, Backend, nanos}
use nexguard.Web.Billing.{Stripe, Reply, handle_webhook}
use nexguard.Web.RateLimit.{Limiter, new, allow}
use nexguard.Web.Request.ClientIp.{client_ip}
use nexguard.Web.Http.{Request, Article, text, Response, respond, http_error}
use nexguard.Web.Middleware.{require_auth, optional_auth}
use nexguard.Web.Handlers.Account.{signup_page, login_page, logout_handler, dashboard_page}
use nexguard.Web.Handlers.Checkout.{StripeApi, checkout_redirect}
use nexguard.Web.Handlers.LicenseApi.{validate_license_api}
use nexguard.Web.Handlers.Pages.{
  landing, static_page, articles_index, article_show, alternatives, robots_txt, sitemap_xml,
}

-- What the router is built with.
pub record Env : Type 0 where
  pub backend : Backend
  pub stripe : Stripe
  pub api : StripeApi
  pub webhook_secret : Text
  pub articles : List Article
  -- `net.SplitHostPort`, `http.FileServer` and `xml.MarshalIndent`
  pub split_host_port : Text → Option Text
  pub file_server : Request → Response
  pub marshal_sitemap : List Text → Option Text

-- The service with the limiters that live in the router.
pub record Server : Type 0 where
  pub service : Service
  pub login_limiter : Limiter
  pub license_limiter : Limiter

abbrev pub login_window : ℕ
login_window = 15 * 60 * nanos

abbrev pub license_window : ℕ
license_window = 60 * nanos

unfoldable pub start : Service → Server
start s = record {
  service = s;
  login_limiter = new 5 login_window;
  license_limiter = new 30 license_window;
}

pub data Endpoint : Type 0 where
  healthz static_files home about contact privacy terms : Endpoint
  articles article alternatives_table robots sitemap : Endpoint
  signup login_form login_submit : Endpoint
  dashboard checkout logout : Endpoint
  license_validate stripe_webhook : Endpoint

pub data Verb : Type 0 where
  any get post : Verb

pub record Route : Type 0 where
  pub verb : Verb
  pub pattern : Text
  pub endpoint : Endpoint

abbrev route : Verb → Text → Endpoint → Route
route verb pattern endpoint = record { verb = verb; pattern = pattern; endpoint = endpoint }

abbrev pub routes : List Route
routes =
    route get (codes "/healthz") healthz
    ∷ route any (codes "/static/*") static_files
    ∷ route get (codes "/") home
    ∷ route get (codes "/about") about
    ∷ route get (codes "/contact") contact
    ∷ route get (codes "/privacy") privacy
    ∷ route get (codes "/terms") terms
    ∷ route get (codes "/articles") articles
    ∷ route get (codes "/articles/{slug}") article
    ∷ route get (codes "/alternatives") alternatives_table
    ∷ route get (codes "/robots.txt") robots
    ∷ route get (codes "/sitemap.xml") sitemap
    ∷ route get (codes "/signup") signup
    ∷ route post (codes "/signup") signup
    ∷ route get (codes "/login") login_form
    ∷ route post (codes "/login") login_submit
    ∷ route get (codes "/dashboard") dashboard
    ∷ route get (codes "/checkout") checkout
    ∷ route post (codes "/logout") logout
    ∷ route post (codes "/api/v1/license/validate") license_validate
    ∷ route post (codes "/webhooks/stripe") stripe_webhook
    ∷ []

abbrev pub on_service : Exec Service Response → Exec Server Response
on_service m s = let (r, t) = m s.service in (r, record s { service = t })

abbrev pub too_many : Response
too_many = http_error 429 (codes "too many requests, try again later")

-- `ratelimit.Middleware`, around a handler and for the limiter that a verdict belongs to.
unfoldable pub if_allowed : Bool → Exec Service Response → Exec Server Response
if_allowed true m = on_service m
if_allowed false m = pure too_many

unfoldable pub limit_login : Text → Exec Service Response → Exec Server Response
unfolding if_allowed
limit_login ip m s =
    let (allowed, l) = allow s.login_limiter ip s.service.now in
    if_allowed allowed m (record s { login_limiter = l })

unfoldable pub limit_license : Text → Exec Service Response → Exec Server Response
unfolding if_allowed
limit_license ip m s =
    let (allowed, l) = allow s.license_limiter ip s.service.now in
    if_allowed allowed m (record s { license_limiter = l })

abbrev pub of_reply : Reply → Exec Service Response
of_reply r = pure (respond r.status (text r.body))

module _ (env : Env) where
  abbrev pub ip_of : Request → Text
  ip_of r = client_ip env.split_host_port r.origin

  -- The handler of an endpoint, without its limiter.
  unfoldable pub handle : Endpoint → Request → Exec Service Response
  handle healthz r = pure (respond 200 (text (codes "ok")))
  handle static_files r = pure (env.file_server r)
  handle home r = optional_auth env.backend landing none r
  handle about r = static_page (codes "about.html") none r
  handle contact r = static_page (codes "contact.html") none r
  handle privacy r = static_page (codes "privacy.html") none r
  handle terms r = static_page (codes "terms.html") none r
  handle articles r = articles_index env.articles none r
  handle article r = article_show env.articles none r
  handle alternatives_table r = alternatives none r
  handle robots r = robots_txt none r
  handle sitemap r = sitemap_xml env.marshal_sitemap env.articles none r
  handle signup r = signup_page env.backend env.split_host_port none r
  handle login_form r = login_page env.backend none r
  handle login_submit r = login_page env.backend none r
  handle dashboard r = require_auth env.backend dashboard_page none r
  handle checkout r = require_auth env.backend (checkout_redirect env.api env.backend) none r
  handle logout r = require_auth env.backend (logout_handler env.backend) none r
  handle license_validate r = validate_license_api env.backend none r
  handle stripe_webhook r =
      handle_webhook env.backend env.stripe env.webhook_secret r.body r.stripe_signature
      >>= of_reply

  unfoldable pub serve : Endpoint → Request → Exec Server Response
  unfolding handle limit_login limit_license
  serve login_submit r = limit_login (ip_of r) (handle login_submit r)
  serve license_validate r = limit_license (ip_of r) (handle license_validate r)
  serve e r = on_service (handle e r)
