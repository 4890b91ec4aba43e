-- ===== src/Web/Server/Requests.antt =====
-- Whole requests to cmd/avtool-web/main.go's router keep users and licenses sound.
use nexguard.Prelude.{subst, sym, Bool, true, false, List, [], ◌∷◌, Option, none, some, All}
use nexguard.Prelude.Text.{Text}
use nexguard.Exec.{Exec}
use nexguard.Exec.Preserves.{Preserves, preserves_rules}
use nexguard.Web.World.{UserRow, Service, Backend}
use nexguard.Web.Billing.{handle_webhook}
use nexguard.Web.Billing.Frame.{handle_webhook-Fixes}
use nexguard.Web.Billing.Deliveries.{handle_webhook-Preserves}
use nexguard.Web.Http.{Request, Article, Response, View, page}
use nexguard.Web.Handlers.Account.{dashboard_page, login_page, logout_handler}
use nexguard.Web.Handlers.Checkout.{checkout_redirect}
use nexguard.Web.Handlers.LicenseApi.{validate_license_api}
use nexguard.Web.Handlers.Pages.{
  landing, static_page, articles_index, article_show, show_article, alternatives, robots_txt,
  sitemap_xml,
}
use nexguard.Web.Server.Defs.{
  Env, Server, Endpoint, healthz, static_files, home, about, contact, privacy, terms, articles,
  article, alternatives_table, robots, sitemap, signup, login_form, login_submit, dashboard,
  checkout, logout, license_validate, stripe_webhook, if_allowed, limit_login, limit_license,
  handle, serve,
}
use nexguard.Web.Server.Limits.{Arrival, clock, serve_all}
use nexguard.Web.Server.Frame
use nexguard.Web.Server.Sound.{ConsentIsRecorded, EmailsDiffer, Sound, Fixes-Sound}
use nexguard.Web.Server.Invariant.{
  signup_page-Sound, checkout-Sound, require_auth-Sound, optional_auth-Sound,
}

module _ (env : Env) where
  abbrev b : Backend
  b = env.backend

  webhook-Sound :
      (payload signature : Text)
      → Preserves (Sound b) (handle_webhook b env.stripe env.webhook_secret payload signature)
  webhook-Sound payload signature = record {
    after = λ s sound.
        let same = (handle_webhook-Fixes b env.stripe env.webhook_secret payload signature).at s in
        let single =
          (handle_webhook-Preserves b env.stripe env.webhook_secret payload signature).after s
            sound.2 in
        let (differ, recorded) =
          subst (λ (us : List UserRow). EmailsDiffer b us × All ConsentIsRecorded us) (sym same)
            (sound.0, sound.1) in
        (differ, recorded, single);
  }

  page-Sound : (name : Text) (view : View) → Preserves (Sound b) (page name view)
  page-Sound name view = Fixes-Sound b (page name view) (Frame.page-Fixes name view)

  article-Sound : (o : Option Article) → Preserves (Sound b) (show_article o)
  unfolding show_article
  article-Sound none = search preserves_rules
  article-Sound (some a) = search page-Sound

  handle-Sound : (e : Endpoint) (r : Request) → Preserves (Sound b) (handle env e r)
  unfolding handle static_page articles_index article_show alternatives robots_txt sitemap_xml
  handle-Sound healthz r = search preserves_rules
  handle-Sound static_files r = search preserves_rules
  handle-Sound home r =
      optional_auth-Sound b landing r (λ u. Fixes-Sound b (landing u r) (Frame.landing-Fixes u r))
  handle-Sound about r = search page-Sound
  handle-Sound contact r = search page-Sound
  handle-Sound privacy r = search page-Sound
  handle-Sound terms r = search page-Sound
  handle-Sound articles r = search page-Sound
  handle-Sound article r = search article-Sound
  handle-Sound alternatives_table r = search page-Sound
  handle-Sound robots r = search preserves_rules
  handle-Sound sitemap r = search preserves_rules
  handle-Sound signup r = signup_page-Sound b env.split_host_port none r
  handle-Sound login_form r = Fixes-Sound b (login_page b none r) (Frame.login_page-Fixes b none r)
  handle-Sound login_submit r =
      Fixes-Sound b (login_page b none r) (Frame.login_page-Fixes b none r)
  handle-Sound dashboard r =
      require_auth-Sound b dashboard_page r
        (λ u. Fixes-Sound b (dashboard_page (some u) r) (Frame.dashboard_page-Fixes (some u) r))
  handle-Sound checkout r =
      require_auth-Sound b (checkout_redirect env.api b) r
        (λ u. checkout-Sound b env.api (some u) r)
  handle-Sound logout r =
      require_auth-Sound b (logout_handler b) r
        (λ u. Fixes-Sound b (logout_handler b (some u) r) (Frame.logout_handler-Fixes b (some u) r))
  handle-Sound license_validate r =
      Fixes-Sound b (validate_license_api b none r) (Frame.validate_license_api-Fixes b none r)
  handle-Sound stripe_webhook r = search (preserves_rules, webhook-Sound)

  abbrev pub ServerSound : Server → Type 0
  ServerSound s = Sound b s.service

  if_allowed-Sound :
      (n : Bool) (m : Exec Service Response) (s : Server)
      → Preserves (Sound b) m
      → ServerSound s
      → ServerSound (if_allowed n m s).1
  unfolding if_allowed
  if_allowed-Sound true m s keeps sound = keeps.after s.service sound
  if_allowed-Sound false m s keeps sound = sound

  serve-Sound :
      (e : Endpoint) (r : Request) (s : Server) → ServerSound s → ServerSound (serve env e r s).1
  unfolding serve limit_login limit_license
  serve-Sound login_submit r s sound =
      if_allowed-Sound _ (handle env login_submit r) _ (handle-Sound login_submit r) sound
  serve-Sound license_validate r s sound =
      if_allowed-Sound _ (handle env license_validate r) _ (handle-Sound license_validate r) sound
  serve-Sound healthz r s sound = (handle-Sound healthz r).after s.service sound
  serve-Sound e r s sound = (handle-Sound e r).after s.service sound

  -- Whatever is requested, in whatever order, and whatever the database or the system refuses, if
  -- requests are handled one after another and the tables are sound before, they are sound after:
  -- no two users have the same email, no user has two active licenses, and no user has a consent
  -- without its time and a phone number, or a time without its consent.
  pub serve_all-Sound :
      (h : List Arrival) (s : Server) → ServerSound s → ServerSound (serve_all env s h)
  serve_all-Sound [] s sound = sound
  serve_all-Sound (a ∷ more) s sound =
      serve_all-Sound more (serve env a.endpoint a.request (clock a.time s)).1
        (serve-Sound a.endpoint a.request (clock a.time s) sound)
