-- ===== src/Web/Billing/Refusals.antt =====
-- Deliveries to internal/web/billing/webhook.go that change nothing, and the end of a subscription.
use nexguard.Prelude.{◌<◌, ◌≤◌, ◌≡◌, ◌⊎◌, ◌/◌, [], none, some, arith, length}
use nexguard.Prelude.Text.{Text, codes, text_eq, text_eq_iff}
use nexguard.Exec.{ok}
use nexguard.World.{next_outcome, later_outcomes}
use nexguard.Web.World.{Service, Backend, SubscriptionRow, nanos}
use nexguard.Web.License.{revoke_user, revoke_all_for_user}
use nexguard.Web.Billing.Defs.{
  Subscription, Event, Stripe, active_licenses, max_webhook_body_bytes, find_customer,
  find_subscription, upsert_subscription, cancel_subscription,
}
use nexguard.Web.Billing.Handler.{
  handle_webhook, subscription_created, subscription_updated, subscription_deleted,
}
use nexguard.Web.Billing.OneLicense.{count_active-revoke_user}

module _ (b : Backend) (stripe : Stripe) (secret payload signature : Text) (s : Service) where
  -- A body over the limit or without a valid signature is answered with 400, and no table
  -- changes, whatever the system refuses.
  handle_webhook_refused :
      (max_webhook_body_bytes < length payload)
        ⊎ (stripe.construct_event payload signature secret ≡ none)
      → let (r, s') = handle_webhook b stripe secret payload signature s in
        ((r ≡ ok (record { status = 400; body = codes "reading request body" }))
          ⊎ (r ≡ ok (record { status = 400; body = codes "invalid signature" })))
        × (s'.db ≡ s.db)
  unfolding handle_webhook
  handle_webhook_refused bad = (ground arith, ground arith)

  -- A signed event about the subscription of a customer whom no user maps to, within the size
  -- limit, is answered with 200, and no table changes, if the system refuses nothing.
  handle_webhook_unknown :
      (e : Event) (sub : Subscription) (customer : Text)
      → s.outcomes ≡ []
      → length payload ≤ max_webhook_body_bytes
      → stripe.construct_event payload signature secret ≡ some e
      → (e.kind ≡ subscription_created) ⊎ (e.kind ≡ subscription_updated)
      → stripe.parse_subscription e.raw ≡ some sub
      → sub.customer ≡ some customer
      → find_customer b customer s.db.users ≡ none
      → let (r, s') = handle_webhook b stripe secret payload signature s in
        (r ≡ ok (record { status = 200; body = [] })) × (s'.db ≡ s.db)
  unfolding handle_webhook upsert_subscription next_outcome later_outcomes
  handle_webhook_unknown e sub customer quiet fits signed kind parsed of_customer unknown =
      ground
        (arith, text_eq_iff e.kind subscription_created, text_eq_iff e.kind subscription_updated)

  -- What that end leaves of the licenses.
  pub deleted_licenses :
      (e : Event) (sub : Subscription) (r : SubscriptionRow)
      → s.outcomes ≡ []
      → length payload ≤ max_webhook_body_bytes
      → stripe.construct_event payload signature secret ≡ some e
      → e.kind ≡ subscription_deleted
      → stripe.parse_subscription e.raw ≡ some sub
      → find_subscription b sub.id s.db.subscriptions ≡ some r
      → let (answer, s') = handle_webhook b stripe secret payload signature s in
        (s'.db.licenses ≡ revoke_user r.user_id (s.now / nanos) s.db.licenses) × (s'.outcomes ≡ [])
  unfolding handle_webhook cancel_subscription revoke_all_for_user next_outcome later_outcomes
      text_eq
  deleted_licenses e sub r quiet fits signed kind parsed stored = ground arith

  -- A signed end of a stored subscription, within the size limit, is answered with 200 and
  -- leaves its user without an active license, if the system refuses nothing.
  pub handle_webhook_deleted :
      (e : Event) (sub : Subscription) (r : SubscriptionRow)
      → s.outcomes ≡ []
      → length payload ≤ max_webhook_body_bytes
      → stripe.construct_event payload signature secret ≡ some e
      → e.kind ≡ subscription_deleted
      → stripe.parse_subscription e.raw ≡ some sub
      → find_subscription b sub.id s.db.subscriptions ≡ some r
      → let (answer, s') = handle_webhook b stripe secret payload signature s in
        (answer ≡ ok (record { status = 200; body = [] })) × (active_licenses r.user_id s'.db ≡ 0)
  unfolding handle_webhook cancel_subscription revoke_all_for_user active_licenses next_outcome
      later_outcomes text_eq
  handle_webhook_deleted e sub r quiet fits signed kind parsed stored =
      ground (arith, count_active-revoke_user r.user_id r.user_id (s.now / nanos) s.db.licenses)
