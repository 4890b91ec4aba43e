-- ===== src/Web/Server/Invariant.antt =====
-- Every request to cmd/avtool-web/main.go's router keeps users and licenses sound.
use nexguard.Prelude.{ℕ, ◌≡◌, true, false, Option, none, some, arith}
use nexguard.Prelude.Text.{Text, codes, is_empty}
use nexguard.Exec.{Result, ok, err, Exec}
use nexguard.Exec.Preserves.{Preserves, preserves_rules, bind-Preserves, attempt-Preserves}
use nexguard.Web.World.{UserRow, Tables, Service, Backend, call, query}
use nexguard.Web.Users.{User, Consent, hash_password, create_user_with_consent}
use nexguard.Web.Request.Phone.{normalize_phone}
use nexguard.Web.Http.{
  Method, get, post, other, Request, Response, Handler, plain, page_anyway, if_get,
}
use nexguard.Web.Middleware.{
  with_user, require_cookie, require_auth, with_maybe_user, optional_cookie, optional_auth,
}
use nexguard.Web.Handlers.Account.{signed_up, consent_of, sign_up, signup_page}
use nexguard.Web.Handlers.Checkout.{
  StripeApi, Checkout, or_fails, customer_of, go_to, create_checkout_session, with_customer,
  with_count, checkout_redirect,
}
use nexguard.Web.Server.Frame
use nexguard.Web.Server.Frame.{
  accounts, call-Fixes, query-Fixes, page_anyway-Fixes, hash_password-Fixes,
}
use nexguard.Web.Server.Sound.{Sound, Fixes-Sound, save_customer-Sound, store_user-Sound}

module _ (b : Backend) where
  call-Sound : Preserves (Sound b) call
  call-Sound = Fixes-Sound b call call-Fixes

  query-Sound : {A : Type 0} (f : Tables → A) → Preserves (Sound b) (query f)
  query-Sound f = Fixes-Sound b (query f) (query-Fixes f)

  hash_password-Sound : (password : Text) → Preserves (Sound b) (hash_password b password)
  hash_password-Sound password =
      Fixes-Sound b (hash_password b password) (hash_password-Fixes b password)

  create-Sound :
      (email phone password : Text) (c : Consent)
      → (is_empty phone ≡ true → (c.sms_service ≡ false) × (c.sms_marketing ≡ false))
      → Preserves (Sound b) (create_user_with_consent b email phone password c)
  unfolding create_user_with_consent
  create-Sound email phone password c agreed =
      search
        (
          preserves_rules,
          call-Sound,
          hash_password-Sound,
          λ (hash : Text). store_user-Sound b email phone hash c agreed,
        )
        depth 8

  signed_up-Sound : (r : Result User) → Preserves (Sound b) (signed_up b r)
  signed_up-Sound r = Fixes-Sound b (signed_up b r) (Frame.signed_up-Fixes b r)

  consent_of_phone :
      (split : Text → Option Text) (r : Request) (phone : Text)
      → is_empty phone ≡ true
      → let c = consent_of split r phone in (c.sms_service ≡ false) × (c.sms_marketing ≡ false)
  unfolding consent_of
  consent_of_phone split r phone h = ground arith

  sign_up-Sound :
      (split : Text → Option Text) (r : Request) → Preserves (Sound b) (sign_up b split r)
  unfolding sign_up
  sign_up-Sound split r =
      let phone = normalize_phone (r.form (codes "phone")) in
      let created =
        create-Sound (r.form (codes "email")) phone (r.form (codes "password"))
          (consent_of split r phone) (consent_of_phone split r phone) in
      bind-Preserves _ (signed_up b) (attempt-Preserves _ created) signed_up-Sound

  if_get-Sound :
      (method : Method) (form submit : Exec Service Response)
      → Preserves (Sound b) form
      → Preserves (Sound b) submit
      → Preserves (Sound b) (if_get method form submit)
  unfolding if_get
  if_get-Sound get form submit k k' = k
  if_get-Sound post form submit k k' = k'
  if_get-Sound other form submit k k' = k'

  pub signup_page-Sound :
      (split : Text → Option Text) (u : Option User) (r : Request)
      → Preserves (Sound b) (signup_page b split u r)
  unfolding signup_page
  signup_page-Sound split u r =
      if_get-Sound r.method (page_anyway (codes "signup.html") plain) (sign_up b split r)
        (Fixes-Sound b (page_anyway (codes "signup.html") plain)
          (page_anyway-Fixes (codes "signup.html") plain))
        (sign_up-Sound split r)

  customer_of-Sound : (o : Option UserRow) → Preserves (Sound b) (customer_of o)
  unfolding customer_of
  customer_of-Sound none = search preserves_rules
  customer_of-Sound (some u) = search preserves_rules

  go_to-Sound :
      (id : ℕ) (existing : Text) (r : Result Checkout) → Preserves (Sound b) (go_to id existing r)
  unfolding go_to
  go_to-Sound id existing (err e) = search preserves_rules
  go_to-Sound id existing (ok c) = search (preserves_rules, save_customer-Sound b)

  module _ (api : StripeApi) where
    checkout_session-Sound :
        (email existing : Text) → Preserves (Sound b) (create_checkout_session api email existing)
    unfolding create_checkout_session or_fails
    checkout_session-Sound email existing =
        Fixes-Sound b (create_checkout_session api email existing)
          (record { at = λ s. ground arith })

    with_customer-Sound : (u : User) (r : Result Text) → Preserves (Sound b) (with_customer api u r)
    unfolding with_customer
    with_customer-Sound u (err e) = search preserves_rules
    with_customer-Sound u (ok existing) =
        search (preserves_rules, checkout_session-Sound, go_to-Sound)

    with_count-Sound : (u : User) (r : Result ℕ) → Preserves (Sound b) (with_count api u r)
    unfolding with_count
    with_count-Sound u (err e) = search preserves_rules
    with_count-Sound u (ok n) =
        search (preserves_rules, query-Sound, customer_of-Sound, with_customer-Sound)

    pub checkout-Sound :
        (u : Option User) (r : Request) → Preserves (Sound b) (checkout_redirect api b u r)
    unfolding checkout_redirect
    checkout-Sound none r = search preserves_rules
    checkout-Sound (some u) r = search (preserves_rules, query-Sound, with_count-Sound)

  with_user-Sound :
      (next : Handler) (r : Request) (o : Result User)
      → ((u : User) → Preserves (Sound b) (next (some u) r))
      → Preserves (Sound b) (with_user next r o)
  unfolding with_user
  with_user-Sound next r (err e) keeps = search preserves_rules
  with_user-Sound next r (ok u) keeps = keeps u

  pub require_auth-Sound :
      (next : Handler) (r : Request)
      → ((u : User) → Preserves (Sound b) (next (some u) r))
      → Preserves (Sound b) (require_auth b next none r)
  unfolding require_auth
  require_auth-Sound next r keeps = cookie r.cookie
    where
      cookie : (o : Option Text) → Preserves (Sound b) (require_cookie b next r o)
      cookie none = search preserves_rules
      cookie (some token) =
          bind-Preserves _ (with_user next r)
            (attempt-Preserves _ (Fixes-Sound b _ (Frame.validate_session-Fixes b token)))
            (λ o. with_user-Sound next r o keeps)

  with_maybe_user-Sound :
      (next : Handler) (r : Request) (o : Result User)
      → ((u : Option User) → Preserves (Sound b) (next u r))
      → Preserves (Sound b) (with_maybe_user next r o)
  unfolding with_maybe_user
  with_maybe_user-Sound next r (err e) keeps = keeps none
  with_maybe_user-Sound next r (ok u) keeps = keeps (some u)

  pub optional_auth-Sound :
      (next : Handler) (r : Request)
      → ((u : Option User) → Preserves (Sound b) (next u r))
      → Preserves (Sound b) (optional_auth b next none r)
  unfolding optional_auth
  optional_auth-Sound next r keeps = cookie r.cookie
    where
      cookie : (o : Option Text) → Preserves (Sound b) (optional_cookie b next r o)
      cookie none = keeps none
      cookie (some token) =
          bind-Preserves _ (with_maybe_user next r)
            (attempt-Preserves _ (Fixes-Sound b _ (Frame.validate_session-Fixes b token)))
            (λ o. with_maybe_user-Sound next r o keeps)
