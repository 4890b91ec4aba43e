-- ===== src/Web/Http.antt =====
-- What the handlers of internal/web read of a request and put into a response.
use nexguard.Prelude.{ℕ, Bool, List, Option, none, some}
use nexguard.Prelude.Text.{Text, codes}
use nexguard.Exec.{Exec, Result, ok, err, pure, attempt, ◌>>=◌, ◌>>◌}
use nexguard.Web.World.{Service, call}
use nexguard.Web.Users.{User}
use nexguard.Web.Request.ClientIp.{Origin}

pub data Method : Type 0 where
  get post other : Method

pub record Request : Type 0 where
  pub method : Method
  -- the cookie `avtool_session`
  pub cookie : Option Text
  -- `r.FormValue`
  pub form : Text → Text
  pub origin : Origin
  pub user_agent : Text
  -- the headers X-API-Key and Stripe-Signature
  pub api_key : Text
  pub stripe_signature : Text
  pub body : Text
  -- `chi.URLParam(r, "slug")`
  pub slug : Text

-- internal/web/handlers/dashboard.go
pub record DashboardData : Type 0 where
  pub email : Text
  pub has_subscription : Bool
  pub subscription_status : Text
  pub license_key : Text

-- internal/web/handlers/articles.go
pub record Article : Type 0 where
  pub slug : Text
  pub title : Text
  pub dek : Text
  pub date : Text
  pub section : Text
  pub body : List Text

-- internal/web/handlers/alternatives.go
pub record Competitor : Type 0 where
  pub name : Text
  pub open_source : Bool
  pub free_tier : Text
  pub pricing : Text
  pub note : Text
  pub note_source : Text

-- What a template is executed with, besides the site's identity.
pub data View : Type 0 where
  plain : View
  with_error : Text → View
  dashboard : DashboardData → View
  index : List Article → View
  show : Article → View
  comparison : List Competitor → View

-- An answer of the license endpoint.
pub record Verdict : Type 0 where
  pub valid : Bool
  pub tier : Option Text
  pub error : Option Text

pub data Body : Type 0 where
  empty : Body
  text : Text → Body
  template : Text → View → Body
  json : Verdict → Body
  file : Body

-- What is done to the cookie `avtool_session`.
pub data CookieChange : Type 0 where
  keep clear : CookieChange
  -- its value and the time at which it expires
  set : Text → ℕ → CookieChange

pub record Response : Type 0 where
  pub status : ℕ
  pub location : Option Text
  pub cookie : CookieChange
  pub body : Body

abbrev pub respond : ℕ → Body → Response
respond status body = record { status = status; location = none; cookie = keep; body = body }

-- `http.Error`
abbrev pub http_error : ℕ → Text → Response
http_error status message = respond status (text message)

-- `http.Redirect` with `http.StatusFound`
abbrev pub redirect : Text → Response
redirect url = record { status = 302; location = some url; cookie = keep; body = empty }

-- The user in the request's context, and the request.
abbrev pub Handler : Type 0
Handler = Option User → Request → Exec Service Response

-- `tmpl.ExecuteTemplate` with its error looked at, and ignored.
abbrev answer_page : Text → View → Result (Unit {0}) → Response
answer_page name view (ok a) = respond 200 (template name view)
answer_page name view (err e) = http_error 500 (codes "internal error")

abbrev pub page : Text → View → Exec Service Response
page name view = do r ← attempt call; pure (answer_page name view r)

abbrev pub page_anyway : Text → View → Exec Service Response
page_anyway name view = do attempt call; pure (respond 200 (template name view))

-- `if r.Method == http.MethodGet { ... return }`
unfoldable pub if_get :
    Method → Exec Service Response → Exec Service Response → Exec Service Response
if_get get form submit = form
if_get post form submit = submit
if_get other form submit = submit
