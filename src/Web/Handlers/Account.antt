-- ===== src/Web/Handlers/Account.antt =====
-- internal/web/handlers/signup.go, login.go, logout.go and dashboard.go.
use nexguard.Prelude.{
  ℕ, ◌+◌, ◌*◌, true, false, not, ◌&&◌, List, [], ◌∷◌, Option, none, some, if◌then◌else◌, ◌==◌,
}
use nexguard.Prelude.Text.{Text, codes, is_empty}
use nexguard.Exec.{Exec, Result, ok, err, pure, gets, attempt, ◌>>=◌, ◌>>◌}
use nexguard.Web.World.{SubscriptionRow, Service, Backend, query, nanos}
use nexguard.Web.Users.{User, Consent, create_user_with_consent, verify_password}
use nexguard.Web.Sessions.{create_session, delete_session}
use nexguard.Web.Request.Phone.{normalize_phone, checked}
use nexguard.Web.Request.ConsentIp.{consent_ip}
use nexguard.Web.Http.{
  Request, DashboardData, plain, with_error, dashboard, CookieChange, set, clear, Response,
  http_error, redirect, Handler, page_anyway, if_get,
}

-- `sessionTTL`
abbrev pub session_ttl : ℕ
session_ttl = 30 * 24 * 3600 * nanos

abbrev pub redirect_with : CookieChange → Text → Response
redirect_with cookie url = record (redirect url) { cookie = cookie }

-- The cookie of the new session, and on to the dashboard.
unfoldable pub start_session : Result Text → Exec Service Response
start_session (err e) = pure (http_error 500 (codes "internal error"))
start_session (ok token) = do
  now ← gets (λ s. s.now)
  pure (redirect_with (set token (now + session_ttl)) (codes "/dashboard"))

-- `split_host_port` is `net.SplitHostPort`.
unfoldable pub consent_of : (Text → Option Text) → Request → Text → Consent
unfolding checked consent_ip
consent_of split_host_port r phone = record {
  sms_service = checked (r.form (codes "sms_service_consent")) && not (is_empty phone);
  sms_marketing = checked (r.form (codes "sms_marketing_consent")) && not (is_empty phone);
  ip = consent_ip split_host_port r.origin;
  user_agent = r.user_agent;
}

-- `... WHERE user_id = ? ORDER BY id DESC LIMIT 1`, on rows with ascending ids
unfoldable pub latest_from :
    ℕ → Option SubscriptionRow → List SubscriptionRow → Option SubscriptionRow
latest_from user found [] = found
latest_from user found (r ∷ rows) =
    latest_from user (if r.user_id == user then some r else found) rows

unfoldable pub dashboard_data : User → Result (Option SubscriptionRow) → DashboardData
dashboard_data u (ok (some r)) = record {
  email = u.email;
  has_subscription = true;
  subscription_status = r.status;
  license_key = [];
}
dashboard_data u (ok none) = record {
  email = u.email;
  has_subscription = false;
  subscription_status = [];
  license_key = [];
}
dashboard_data u (err e) = record {
  email = u.email;
  has_subscription = false;
  subscription_status = [];
  license_key = [];
}

unfoldable pub dashboard_page : Handler
unfolding latest_from dashboard_data
dashboard_page none r = pure (redirect (codes "/login"))
dashboard_page (some u) r = do
  latest ← attempt (query (λ db. latest_from u.id none db.subscriptions))
  page_anyway (codes "dashboard.html") (dashboard (dashboard_data u latest))

module _ (b : Backend) where
  unfoldable pub signed_up : Result User → Exec Service Response
  unfolding start_session
  signed_up (err e) =
      page_anyway (codes "signup.html")
        (with_error (codes "Could not create account. That email may already be in use."))
  signed_up (ok u) = do token ← attempt (create_session b u.id session_ttl); start_session token

  unfoldable pub sign_up : (Text → Option Text) → Request → Exec Service Response
  unfolding signed_up
  sign_up split_host_port r =
      let phone = normalize_phone (r.form (codes "phone")) in
      attempt (
        create_user_with_consent b (r.form (codes "email")) phone (r.form (codes "password"))
          (consent_of split_host_port r phone))
      >>= signed_up

  unfoldable pub signup_page : (Text → Option Text) → Handler
  unfolding sign_up if_get
  signup_page split_host_port u r =
      if_get r.method (page_anyway (codes "signup.html") plain) (sign_up split_host_port r)

  unfoldable pub logged_in : Result User → Exec Service Response
  unfolding start_session
  logged_in (err e) =
      page_anyway (codes "login.html") (with_error (codes "Invalid email or password."))
  logged_in (ok u) = do token ← attempt (create_session b u.id session_ttl); start_session token

  unfoldable pub log_in : Request → Exec Service Response
  unfolding logged_in
  log_in r =
      attempt (verify_password b (r.form (codes "email")) (r.form (codes "password"))) >>= logged_in

  unfoldable pub login_page : Handler
  unfolding log_in if_get
  login_page u r = if_get r.method (page_anyway (codes "login.html") plain) (log_in r)

  unfoldable pub end_session : Option Text → Exec Service Unit
  end_session none = pure tt
  end_session (some token) = do attempt (delete_session b token); pure tt

  unfoldable pub logout_handler : Handler
  unfolding end_session
  logout_handler u r = do end_session r.cookie; pure (redirect_with clear (codes "/"))
