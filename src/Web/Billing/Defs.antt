-- ===== src/Web/Billing/Defs.antt =====
-- internal/web/billing/webhook.go: `HandleWebhook`, `upsertSubscription` and `cancelSubscription`.
use nexguard.Prelude.{
  ℕ, suc, ◌^◌, Bool, false, ◌&&◌, List, [], ◌∷◌, Option, none, some, if◌then◌else◌, ◌==◌, length,
  select,
}
use nexguard.Prelude.Text.{Text, codes, text_eq}
use nexguard.Exec.{errorf, panic, unknown_stripe_customer, Exec, pure, raise, wrapping, ◌>>=◌, ◌>>◌}
use nexguard.Web.World.{UserRow, SubscriptionRow, Tables, Service, Backend, query, exec}
use nexguard.Web.License.{is_active, generate, revoke_all_for_user}

-- What the code reads of Stripe's objects; a pointer may be nil.
pub record Subscription : Type 0 where
  pub id : Text
  pub customer : Option Text
  -- the period ends of the items
  pub items : Option (List ℕ)
  pub status : Text

pub record Invoice : Type 0 where
  pub id : Text
  pub customer : Option Text

pub record Event : Type 0 where
  pub kind : Text
  pub raw : Text

-- Stripe's library: `webhook.ConstructEvent` of a payload, a signature and the secret, and
-- `json.Unmarshal` into its types.
pub record Stripe : Type 0 where
  pub construct_event : Text → Text → Text → Option Event
  pub parse_subscription : Text → Option Subscription
  pub parse_invoice : Text → Option Invoice

-- A reply's status and body.
pub record Reply : Type 0 where
  pub status : ℕ
  pub body : Text

abbrev pub reply : ℕ → Text → Exec Service Reply
reply status body = pure (record { status = status; body = body })

abbrev pub max_webhook_body_bytes : ℕ
max_webhook_body_bytes = 2 ^ 20

-- `SELECT COUNT(*) FROM licenses WHERE user_id = ? AND revoked_at IS NULL`
unfoldable pub active_licenses : ℕ → Tables → ℕ
active_licenses user db = length (select (λ r. r.user_id == user && is_active r) db.licenses)

-- A pointer is followed.
unfoldable pub deref : {A : Type 0} → Option A → Exec Service A
deref none = raise panic
deref (some a) = pure a

unfoldable pub or_unknown : Option UserRow → Exec Service ℕ
or_unknown none = raise unknown_stripe_customer
or_unknown (some u) = pure u.id

unfoldable pub first_period_end : Option (List ℕ) → Exec Service ℕ
first_period_end none = raise (errorf (codes "subscription has no items"))
first_period_end (some []) = raise (errorf (codes "subscription has no items"))
first_period_end (some (e ∷ es)) = pure e

module _ (b : Backend) where
  abbrev has_customer : Text → UserRow → Bool
  has_customer customer u = elim u.stripe_customer_id [
    | none ↦ false
    | some c ↦ b.same_text c customer
  ]

  -- `SELECT id FROM users WHERE stripe_customer_id = ?`
  unfoldable pub find_customer : Text → List UserRow → Option UserRow
  find_customer customer [] = none
  find_customer customer (u ∷ us) =
      if has_customer customer u then some u else find_customer customer us

  -- `INSERT INTO subscriptions ... ON DUPLICATE KEY UPDATE status = ..., current_period_end = ...`
  unfoldable pub put_subscription : SubscriptionRow → List SubscriptionRow → List SubscriptionRow
  put_subscription r [] = r ∷ []
  put_subscription r (x ∷ rows) =
      let rest = put_subscription r rows in
      if b.same_text x.stripe_subscription_id r.stripe_subscription_id
      then record x { status = r.status; current_period_end = r.current_period_end } ∷ rows
      else x ∷ rest

  -- `SELECT ... FROM subscriptions WHERE stripe_subscription_id = ?`
  unfoldable pub find_subscription : Text → List SubscriptionRow → Option SubscriptionRow
  find_subscription id [] = none
  find_subscription id (r ∷ rows) =
      if b.same_text r.stripe_subscription_id id then some r else find_subscription id rows

  -- `UPDATE subscriptions SET status = 'canceled' WHERE stripe_subscription_id = ?`
  unfoldable pub set_canceled : Text → List SubscriptionRow → List SubscriptionRow
  set_canceled id [] = []
  set_canceled id (r ∷ rows) =
      (if b.same_text r.stripe_subscription_id id
        then record r { status = codes "canceled" }
        else r)
      ∷ set_canceled id rows

  unfoldable pub generate_unless : ℕ → ℕ → Exec Service Unit
  generate_unless user existing =
      if existing == 0
      then (do wrapping (codes "generating license") (generate b user); pure tt)
      else pure tt

  -- A license for an active subscription, if the user has none.
  unfoldable pub ensure_license : ℕ → Text → Exec Service Unit
  unfolding generate_unless
  ensure_license user status =
      if text_eq status (codes "active")
      then wrapping (codes "checking existing licenses") (query (active_licenses user))
        >>= generate_unless user
      else pure tt

  unfoldable pub subscription_row : ℕ → Text → Subscription → ℕ → Tables → SubscriptionRow
  subscription_row user customer sub period_end db = record {
    id = suc db.last_subscription;
    user_id = user;
    stripe_customer_id = customer;
    stripe_subscription_id = sub.id;
    tier = codes "standard";
    status = sub.status;
    current_period_end = period_end;
  }

  unfoldable pub store_subscription : ℕ → Text → Subscription → ℕ → Tables → Tables
  unfolding subscription_row
  store_subscription user customer sub period_end db = record db {
    subscriptions =
        put_subscription (subscription_row user customer sub period_end db) db.subscriptions;
    last_subscription = suc db.last_subscription;
  }

  unfoldable pub upsert_subscription : Subscription → Exec Service Unit
  unfolding deref or_unknown first_period_end ensure_license
  upsert_subscription sub = do
    customer ← deref sub.customer
    found ←
        wrapping (codes "looking up user for stripe customer")
          (query (λ db. find_customer customer db.users))
    user ← or_unknown found
    period_end ← first_period_end sub.items
    wrapping (codes "upserting subscription")
        (exec (λ now. store_subscription user customer sub period_end))
    ensure_license user sub.status

  unfoldable pub cancel_row : Text → Option SubscriptionRow → Exec Service Unit
  cancel_row id none = pure tt
  cancel_row id (some r) = do
    wrapping (codes "canceling subscription")
        (exec (λ now db. record db { subscriptions = set_canceled id db.subscriptions }))
    wrapping (codes "revoking license after cancellation") (revoke_all_for_user r.user_id)

  unfoldable pub cancel_subscription : Text → Exec Service Unit
  unfolding cancel_row
  cancel_subscription id = do
    row ←
        wrapping (codes "looking up user for subscription")
          (query (λ db. find_subscription id db.subscriptions))
    cancel_row id row
