-- ===== src/Web/Server/Frame.antt =====
-- Parts of the service that leave users and licenses alone.
use nexguard.Prelude.{ℕ, List, Option, none, some, arith}
use nexguard.Prelude.Text.{Text, codes}
use nexguard.Exec.{Result, ok, err, Exec}
use nexguard.Exec.Fixes.{Fixes, fixes_rules}
use nexguard.Web.World.{UserRow, LicenseRow, Tables, Service, Backend, call, query}
use nexguard.Web.Users.{User, hash_password, or_error, verify_password}
use nexguard.Web.Sessions.{validate_session, create_session, store_session, delete_session}
use nexguard.Web.License.{validate}
use nexguard.Web.Http.{
  Method, get, post, other, Request, Response, View, plain, page, page_anyway, if_get,
}
use nexguard.Web.Handlers.Account.{
  start_session, dashboard_page, signed_up, logged_in, log_in, login_page, end_session,
  logout_handler,
}
use nexguard.Web.Handlers.LicenseApi.{license_reply, validate_key, validate_license_api}
use nexguard.Web.Handlers.Pages.{landing}

abbrev pub accounts : Service → List UserRow × List LicenseRow
accounts s = (s.db.users, s.db.licenses)

pub call-Fixes : Fixes accounts call
call-Fixes = record { at = λ s. ground arith }

pub query-Fixes : {A : Type 0} (f : Tables → A) → Fixes accounts (query f)
query-Fixes f = record { at = λ s. ground arith }

start_session-Fixes : (r : Result Text) → Fixes accounts (start_session r)
unfolding start_session
start_session-Fixes (ok token) = search fixes_rules
start_session-Fixes (err e) = search fixes_rules

pub page-Fixes : (name : Text) (view : View) → Fixes accounts (page name view)
page-Fixes name view = search (fixes_rules, call-Fixes)

pub page_anyway-Fixes : (name : Text) (view : View) → Fixes accounts (page_anyway name view)
page_anyway-Fixes name view = search (fixes_rules, call-Fixes)

if_get-Fixes :
    (method : Method) (form submit : Exec Service Response)
    → Fixes accounts form
    → Fixes accounts submit
    → Fixes accounts (if_get method form submit)
unfolding if_get
if_get-Fixes get form submit k k' = k
if_get-Fixes post form submit k k' = k'
if_get-Fixes other form submit k k' = k'

pub landing-Fixes : (u : Option User) (r : Request) → Fixes accounts (landing u r)
unfolding landing
landing-Fixes none r = search (fixes_rules, page_anyway-Fixes)
landing-Fixes (some u) r = search fixes_rules

pub dashboard_page-Fixes : (u : Option User) (r : Request) → Fixes accounts (dashboard_page u r)
unfolding dashboard_page
dashboard_page-Fixes none r = search fixes_rules
dashboard_page-Fixes (some u) r = search (fixes_rules, query-Fixes, page_anyway-Fixes)

module _ (b : Backend) where
  pub hash_password-Fixes : (password : Text) → Fixes accounts (hash_password b password)
  unfolding hash_password or_error
  hash_password-Fixes password = record { at = λ s. ground arith }

  verify_password-Fixes :
      (email password : Text) → Fixes accounts (verify_password b email password)
  unfolding verify_password
  verify_password-Fixes email password = record { at = λ s. ground arith }

  validate-Fixes : (key : Text) → Fixes accounts (validate b key)
  unfolding validate
  validate-Fixes key = record { at = λ s. ground arith }

  pub validate_session-Fixes : (token : Text) → Fixes accounts (validate_session b token)
  unfolding validate_session
  validate_session-Fixes token = record { at = λ s. ground arith }

  pub create_session-Fixes : (user ttl : ℕ) → Fixes accounts (create_session b user ttl)
  unfolding create_session store_session
  create_session-Fixes user ttl = record { at = λ s. ground arith }

  delete_session-Fixes : (token : Text) → Fixes accounts (delete_session b token)
  unfolding delete_session
  delete_session-Fixes token = record { at = λ s. ground arith }

  pub signed_up-Fixes : (r : Result User) → Fixes accounts (signed_up b r)
  unfolding signed_up
  signed_up-Fixes (ok u) = search (fixes_rules, create_session-Fixes, start_session-Fixes)
  signed_up-Fixes (err e) = search (fixes_rules, page_anyway-Fixes)

  logged_in-Fixes : (r : Result User) → Fixes accounts (logged_in b r)
  unfolding logged_in
  logged_in-Fixes (ok u) = search (fixes_rules, create_session-Fixes, start_session-Fixes)
  logged_in-Fixes (err e) = search (fixes_rules, page_anyway-Fixes)

  log_in-Fixes : (r : Request) → Fixes accounts (log_in b r)
  unfolding log_in
  log_in-Fixes r = search (fixes_rules, verify_password-Fixes, logged_in-Fixes)

  pub login_page-Fixes : (u : Option User) (r : Request) → Fixes accounts (login_page b u r)
  unfolding login_page
  login_page-Fixes u r =
      if_get-Fixes r.method (page_anyway (codes "login.html") plain) (log_in b r)
        (page_anyway-Fixes (codes "login.html") plain) (log_in-Fixes r)

  end_session-Fixes : (cookie : Option Text) → Fixes accounts (end_session b cookie)
  unfolding end_session
  end_session-Fixes none = search fixes_rules
  end_session-Fixes (some token) = search (fixes_rules, delete_session-Fixes)

  pub logout_handler-Fixes : (u : Option User) (r : Request) → Fixes accounts (logout_handler b u r)
  unfolding logout_handler
  logout_handler-Fixes u r = search (fixes_rules, end_session-Fixes)

  license_reply-Fixes : (r : Result (Option ℕ)) → Fixes accounts (license_reply b r)
  unfolding license_reply
  license_reply-Fixes (err e) = search fixes_rules
  license_reply-Fixes (ok none) = search fixes_rules
  license_reply-Fixes (ok (some user)) = search (fixes_rules, query-Fixes)

  validate_key-Fixes : (key : Text) → Fixes accounts (validate_key b key)
  unfolding validate_key
  validate_key-Fixes key = search (fixes_rules, validate-Fixes, license_reply-Fixes)

  pub validate_license_api-Fixes :
      (u : Option User) (r : Request) → Fixes accounts (validate_license_api b u r)
  unfolding validate_license_api
  validate_license_api-Fixes u r = search (fixes_rules, validate_key-Fixes)
