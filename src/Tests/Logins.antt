-- ===== src/Tests/Logins.antt =====
-- Witnesses for accounts, logins, the checkout and the license endpoint.
use nexguard.Prelude.{
  ℕ, ◌+◌, ◌*◌, ◌≡◌, refl, false, [], ◌∷◌, ◌++◌, some, none, arith, if◌then◌else◌, ltb,
}
use nexguard.Prelude.Text.{Text, codes, text_eq, text_eq_refl}
use nexguard.Exec.{ok}
use nexguard.World.{next_outcome, later_outcomes}
use nexguard.Web.World.{Service, UserRow, bytes_from, hex_encode, nanos}
use nexguard.Web.Users.{
  or_null, User, Consent, user_of, find_email, create_user_with_consent, hash_password, store_user,
  is_taken, insert_user, insert_unless, or_error, verify_password, checked_password,
}
use nexguard.Web.Users.Passwords.{BcryptLaws, verify_password-create_user_with_consent}
use nexguard.Web.Sessions
use nexguard.Web.Sessions.{
  create_session, store_session, session_taken, find_session, joined, unexpired, validate_session,
  find_user, expiry,
}
use nexguard.Web.Billing.{active_licenses, handle_webhook, find_subscription, subscription_deleted}
use nexguard.Web.License.{find_license, verdict}
use nexguard.Web.Http.{Request, Response, set, redirect}
use nexguard.Web.Handlers.Account.{
  sign_up, signed_up, signup_page, session_ttl, redirect_with, start_session, log_in, logged_in,
}
use nexguard.Web.Handlers.Checkout.{
  checkout_redirect, with_count, active_subscriptions, with_customer, customer_of,
  create_checkout_session, customer_or_new, go_to, saved, or_fails, null_string, set_customer,
  save_customer,
}
use nexguard.Web.Handlers.Checkout.Stored.{IsStored, checkout_redirect-IsStored}
use nexguard.Web.Handlers.LicenseApi.{invalid}
use nexguard.Web.Server.{
  license_validate, stripe_webhook, signup, logout, start, ip_of, handle, serve,
}
use nexguard.Web.Server.Signups.{serve-signup}
use nexguard.Web.Billing.Refusals.{handle_webhook_deleted}
use nexguard.Web.Server.Guards.{session_user}
use nexguard.Web.Server.Licensing.{license_validate-stripe_webhook}
use nexguard.Web.Server.Logins.{session_user-log_in, session_user-logout}
use nexguard.Tests.Billing.{
  backend, backend-IsCollation, user, service, licensed, subscription, subscribed, payload, secret,
}
use nexguard.Tests.Server.{api, env, request}

backend-BcryptLaws : BcryptLaws backend
backend-BcryptLaws = record {
  matches_own = λ salt password hash h. ground (arith, text_eq_refl password);
}

abbrev token : Text
token = codes "000102030405060708090a0b0c0d0e0f101112131415161718191a1b1c1d1e1f"

abbrev bearer : Request
bearer = record request { cookie = some token }

abbrev to_dashboard : Response
to_dashboard = redirect_with (set token (5000000000 + session_ttl)) (codes "/dashboard")

logged : (log_in backend request service).0 ≡ ok to_dashboard
unfolding log_in logged_in start_session verify_password checked_password find_email text_eq
    create_session store_session Sessions.insert_unless session_taken find_session bytes_from
    hex_encode next_outcome later_outcomes user_of
logged = refl

logged_calls : (log_in backend request service).1.outcomes ≡ []
unfolding log_in logged_in start_session verify_password checked_password find_email text_eq
    create_session store_session Sessions.insert_unless session_taken find_session bytes_from
    hex_encode next_outcome later_outcomes user_of
logged_calls = refl

-- One nanosecond after the thirty days.
abbrev too_late : ℕ
too_late = 5000000000 + session_ttl + 1

session_user-log_in_example :
    (u : User) × (row : UserRow) × ((verify_password backend (codes "a@b") (codes "pw") service).0
      ≡ ok u)
    × (find_user u.id service.db.users ≡ some row)
    × (session_user backend bearer (record (log_in backend request service).1 { now = too_late })
        ≡ (if ltb (expiry service.now session_ttl * nanos) too_late
            then none
            else some (user_of row)))
unfolding verify_password checked_password find_email text_eq user_of find_user
session_user-log_in_example =
    session_user-log_in backend backend-IsCollation request bearer service to_dashboard token
      (5000000000 + session_ttl) too_late logged refl logged_calls refl
      (λ u h. (user, ground arith))

abbrev in_session : Service
in_session = (create_session backend 1 session_ttl service).1

session_user-logout_example :
    session_user backend bearer (record (handle env logout bearer in_session).1 { now = 0 }) ≡ none
unfolding create_session store_session Sessions.insert_unless session_taken find_session bytes_from
    hex_encode next_outcome later_outcomes validate_session find_user text_eq joined unexpired
    expiry
session_user-logout_example =
    session_user-logout env bearer token in_session 0 refl refl (λ h. ground (arith, h))

abbrev no_boxes : Consent
no_boxes = record { sms_service = false; sms_marketing = false; ip = []; user_agent = [] }

abbrev account : User
account = record {
  id = 2;
  email = codes "c@d";
  phone = [];
  password_hash = codes "secret";
  created_at = 0;
}

abbrev accounts : Service
accounts = (create_user_with_consent backend (codes "c@d") [] (codes "secret") no_boxes service).1

verify_password-create_user_with_consent_example :
    (verify_password backend (codes "c@d") (codes "secret") accounts).0
    ≡ ok (record {
      id = 2;
      email = codes "c@d";
      phone = [];
      password_hash = codes "secret";
      created_at = 5;
    })
unfolding create_user_with_consent hash_password or_error store_user is_taken find_email
    insert_unless insert_user next_outcome later_outcomes text_eq
verify_password-create_user_with_consent_example =
    verify_password-create_user_with_consent backend backend-IsCollation backend-BcryptLaws
      (codes "c@d") [] (codes "secret") no_boxes account service refl refl

-- The user has no customer yet.
abbrev unknown_to_stripe : Service
unknown_to_stripe = record service {
  db = record service.db { users = record user { stripe_customer_id = none } ∷ [] };
}

abbrev to_stripe : Response
to_stripe = redirect (codes "https://checkout")

checkout_redirect-IsStored_example :
    (customer : Text) × (t : Service) × (api.new_session t customer
      ≡ some (codes "https://checkout"))
    × IsStored 1 customer
        (checkout_redirect api backend (some (user_of user)) request unknown_to_stripe).1
unfolding user_of set_customer save_customer checkout_redirect with_count active_subscriptions
    with_customer customer_of create_checkout_session customer_or_new go_to saved or_fails
    null_string find_user next_outcome later_outcomes text_eq
checkout_redirect-IsStored_example =
    checkout_redirect-IsStored api backend (user_of user) request unknown_to_stripe to_stripe
      (codes "https://checkout") (λ t mail h. ground (arith, h)) refl refl (λ h. ground (arith, h))

license_validate-stripe_webhook_example :
    (handle env license_validate request (handle env stripe_webhook request licensed).1).0
    ≡ ok (invalid 401 (codes "invalid or unknown license key"))
unfolding find_subscription text_eq find_license verdict
license_validate-stripe_webhook_example =
    license_validate-stripe_webhook env request request
      (record { kind = subscription_deleted; raw = payload }) subscription subscribed licensed refl
      (omega arith) refl refl refl refl refl refl

handle_webhook_deleted_example :
    let (answer, s') = handle_webhook backend env.stripe secret payload secret licensed in
    (answer ≡ ok (record { status = 200; body = [] })) × (active_licenses 1 s'.db ≡ 0)
unfolding find_subscription text_eq
handle_webhook_deleted_example =
    handle_webhook_deleted backend env.stripe secret payload secret licensed
      (record { kind = subscription_deleted; raw = payload }) subscription subscribed refl
      (omega arith) refl refl refl refl

-- A form with another email, behind the proxy, under an address that was made up.
abbrev other_form : Text → Text
other_form name = if text_eq name (codes "email") then codes "c@d" else codes "pw"

abbrev newcomer : Request
newcomer = record request {
  form = other_form;
  origin = record { forwarded_for = codes "1.2.3.4, 9.9.9.9"; remote_addr = [] };
  user_agent = codes "curl";
}

-- The salt of the password has taken the first sixteen bytes.
abbrev second_token : Text
second_token = codes "101112131415161718191a1b1c1d1e1f202122232425262728292a2b2c2d2e2f"

abbrev welcome : Response
welcome = redirect_with (set second_token (5000000000 + session_ttl)) (codes "/dashboard")

signed : (serve env signup newcomer (start service)).0 ≡ ok welcome
unfolding serve signup_page sign_up signed_up start_session create_user_with_consent hash_password
    or_error store_user is_taken insert_unless insert_user start find_email text_eq next_outcome
    later_outcomes create_session store_session Sessions.insert_unless session_taken find_session
    hex_encode bytes_from
signed = refl

serve-signup_example :
    (row : UserRow) × ((serve env signup newcomer (start service)).1.service.db.users
      ≡ service.db.users ++ row ∷ [])
    × (row.email ≡ newcomer.form (codes "email"))
    × (row.consent_ip ≡ or_null (ip_of env newcomer))
    × (row.consent_user_agent ≡ or_null newcomer.user_agent)
unfolding start
serve-signup_example =
    serve-signup env newcomer (start service) welcome second_token (5000000000 + session_ttl) signed
      refl
