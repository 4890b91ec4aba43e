-- ===== src/Tests/Server.antt =====
-- Witnesses for the service's router and its accounts.
use nexguard.Prelude.{
  map, ◌≡◌, refl, List, [], ◌∷◌, some, none, inl, arith, if◌then◌else◌, ltb, length, select,
}
use nexguard.Prelude.Text.{Text, codes, text_eq}
use nexguard.Exec.{ok}
use nexguard.Web.RateLimit.{in_window}
use nexguard.Web.RateLimit.Window.{attempts}
use nexguard.Web.RateLimit.Bounds
use nexguard.Web.Billing.{subscription_deleted}
use nexguard.Web.Http.{Request, post, respond, redirect, file}
use nexguard.Web.Handlers.Checkout.{StripeApi}
use nexguard.Web.Handlers.Pages.{find_article}
use nexguard.Web.Handlers.Pages.Articles.{articles}
use nexguard.Web.Server.{
  Env, start, login_submit, dashboard, signup, stripe_webhook, login_window, too_many, ip_of,
  handle, serve,
}
use nexguard.Web.Server.Guards.{serve_refused}
use nexguard.Web.Server.Limits.{Arrival, clock, serve_all, logins, serve_login_exact}
use nexguard.Web.Server.Requests.{ServerSound, serve_all-Sound}
use nexguard.Tests.Billing.{backend, service, sending, subscription, secret, payload}

abbrev pub api : StripeApi
api = record {
  new_customer = λ s email. some (codes "cus");
  new_session = λ s customer. some (codes "https://checkout");
}

abbrev pub env : Env
env = record {
  backend = backend;
  stripe = sending subscription_deleted subscription;
  api = api;
  webhook_secret = secret;
  articles = articles;
  split_host_port = λ addr. none;
  file_server = λ r. respond 200 file;
  marshal_sitemap = λ urls. some [];
}

abbrev pub form : Text → Text
form name = if text_eq name (codes "email") then codes "a@b" else codes "pw"

abbrev pub request : Request
request = record {
  method = post;
  cookie = none;
  form = form;
  origin = record { forwarded_for = []; remote_addr = codes "1.2.3.4" };
  user_agent = [];
  api_key = codes "key";
  stripe_signature = secret;
  body = payload;
  slug = [];
}

serve_refused_example :
    let (answer, s') = serve env dashboard request (start service) in
    (answer ≡ ok (redirect (codes "/login"))) × (s'.service.db ≡ (start service).service.db)
serve_refused_example = serve_refused env dashboard request (start service) (inl refl) refl

abbrev arrivals : List Arrival
arrivals =
    record { time = 1; endpoint = signup; request = request }
    ∷ record { time = 2; endpoint = login_submit; request = request }
    ∷ record { time = 3; endpoint = stripe_webhook; request = request }
    ∷ []

start-Sound : ServerSound env (start service)
unfolding start
start-Sound =
    ((tt, tt), ((refl, refl, (λ h. ground arith), (λ h. ground arith)), tt), (λ u. ground arith))

serve_all-Sound_example : ServerSound env (serve_all env (start service) arrivals)
serve_all-Sound_example = serve_all-Sound env arrivals (start service) start-Sound

serve_login_exact_example :
    let s = clock 4 (serve_all env (start service) arrivals) in
    let passed =
      (attempts (Bounds.start 5 login_window) (logins env arrivals)).granted (ip_of env request) in
    (serve env login_submit request s).0 ≡ (
      if ltb (length (select (in_window login_window 4) passed)) 5
      then (handle env login_submit request s.service).0
      else ok too_many)
serve_login_exact_example = serve_login_exact env service arrivals request 4 (omega arith)

-- Each article is found by its slug.
own_pages : map (λ a. find_article a.slug articles) articles ≡ map some articles
unfolding find_article text_eq
own_pages = refl
