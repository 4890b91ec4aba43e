-- ===== src/Web/Handlers/Checkout.antt =====
-- internal/web/handlers/checkout.go: `CheckoutRedirect`, and internal/web/billing/checkout.go.
pub mod Stored
use nexguard.Prelude.{
  ℕ, Bool, ◌&&◌, List, [], ◌∷◌, Option, none, some, if◌then◌else◌, ◌==◌, length, select, ltb,
}
use nexguard.Prelude.Text.{Text, codes, text_eq, is_empty}
use nexguard.Exec.{Exec, Result, ok, err, refused, pure, raise, attempt, wrapping, ◌>>=◌, ◌>>◌}
use nexguard.Web.World.{UserRow, Tables, Service, Backend, query, exec}
use nexguard.Web.Users.{User}
use nexguard.Web.Sessions.{find_user}
use nexguard.Web.Http.{Request, Response, http_error, redirect, Handler}

-- `customer.New` for an email and `session.New` for a customer, at a moment of the service; they may
-- fail. The keys, the price and the addresses to return to are those of the configuration.
pub record StripeApi : Type 0 where
  pub new_customer : Service → Text → Option Text
  pub new_session : Service → Text → Option Text

-- The address at Stripe and the customer's id.
pub record Checkout : Type 0 where
  pub url : Text
  pub customer : Text

unfoldable pub or_fails : Option Text → Exec Service Text
or_fails none = raise refused
or_fails (some t) = pure t

-- `existingCustomerID.String`, which is empty for NULL
unfoldable pub null_string : Option Text → Text
null_string none = []
null_string (some t) = t

unfoldable pub customer_of : Option UserRow → Exec Service Text
unfolding null_string
customer_of none = raise refused
customer_of (some u) = pure (null_string u.stripe_customer_id)

-- `UPDATE users SET stripe_customer_id = ? WHERE id = ?`
unfoldable pub set_customer : Text → ℕ → List UserRow → List UserRow
set_customer customer id [] = []
set_customer customer id (u ∷ us) =
    (if u.id == id then record u { stripe_customer_id = some customer } else u)
    ∷ set_customer customer id us

unfoldable pub saved : Text → Result (Unit {0}) → Response
saved url (ok a) = redirect url
saved url (err e) = http_error 500 (codes "could not save checkout state")

unfoldable pub save_customer : ℕ → Text → Exec Service Unit
unfolding set_customer
save_customer id customer = exec (λ now db. record db { users = set_customer customer id db.users })

unfoldable pub go_to : ℕ → Text → Result Checkout → Exec Service Response
unfolding saved
go_to id existing (err e) = pure (http_error 500 (codes "could not start checkout"))
go_to id existing (ok c) =
    if text_eq c.customer existing
    then pure (redirect c.url)
    else attempt (save_customer id c.customer) >>= λ r. pure (saved c.url r)

-- `SELECT COUNT(*) FROM subscriptions WHERE user_id = ? AND status = 'active'`
unfoldable pub active_subscriptions : Backend → ℕ → Tables → ℕ
active_subscriptions b id db =
    length (select (λ r. r.user_id == id && b.same_text r.status (codes "active")) db.subscriptions)

module _ (api : StripeApi) where
  unfoldable pub customer_or_new : Text → Text → Exec Service Text
  unfolding or_fails
  customer_or_new email existing =
      if is_empty existing
      then wrapping (codes "creating stripe customer") (λ s. or_fails (api.new_customer s email) s)
      else pure existing

  unfoldable pub create_checkout_session : Text → Text → Exec Service Checkout
  unfolding customer_or_new
  create_checkout_session email existing = do
    customer ← customer_or_new email existing
    url ←
        wrapping (codes "creating checkout session") (λ s. or_fails (api.new_session s customer) s)
    pure (record { url = url; customer = customer })

  unfoldable pub with_customer : User → Result Text → Exec Service Response
  unfolding go_to
  with_customer u (err e) = pure (http_error 500 (codes "could not load checkout state"))
  with_customer u (ok existing) =
      attempt (create_checkout_session u.email existing) >>= go_to u.id existing

  unfoldable pub with_count : User → Result ℕ → Exec Service Response
  unfolding with_customer customer_of
  with_count u (err e) = pure (http_error 500 (codes "could not check subscription state"))
  with_count u (ok n) =
      if ltb 0 n
      then pure (redirect (codes "/dashboard"))
      else attempt (query (λ db. find_user u.id db.users) >>= customer_of) >>= with_customer u

  unfoldable pub checkout_redirect : Backend → Handler
  unfolding with_count active_subscriptions
  checkout_redirect b none r = pure (redirect (codes "/login"))
  checkout_redirect b (some u) r = attempt (query (active_subscriptions b u.id)) >>= with_count u
