-- ===== src/Web/Billing/Handler.antt =====
-- internal/web/billing/webhook.go: `HandleWebhook`.
use nexguard.Prelude.{◌||◌, Option, none, some, if◌then◌else◌, ltb, length}
use nexguard.Prelude.Text.{Text, codes, text_eq}
use nexguard.Exec.{
  panic, unknown_stripe_customer, Exec, Result, ok, err, raise, attempt, ◌>>=◌, ◌>>◌,
}
use nexguard.Web.World.{Service, Backend, call}
use nexguard.Web.Billing.Defs.{
  Subscription, Invoice, Event, Stripe, Reply, reply, max_webhook_body_bytes, deref,
  upsert_subscription, cancel_subscription,
}

abbrev pub done : Exec Service Reply
done = reply 200 (codes "")

abbrev pub subscription_created : Text
subscription_created = codes "customer.subscription.created"

abbrev pub subscription_updated : Text
subscription_updated = codes "customer.subscription.updated"

abbrev pub subscription_deleted : Text
subscription_deleted = codes "customer.subscription.deleted"

abbrev pub payment_failed : Text
payment_failed = codes "invoice.payment_failed"

-- A customer of another product is no failure; a panic ends the request without a reply.
unfoldable pub processed : Result (Unit {0}) → Exec Service Reply
processed (ok a) = done
processed (err unknown_stripe_customer) = done
processed (err panic) = raise panic
processed (err e) = reply 500 (codes "processing subscription")

unfoldable pub canceled : Result (Unit {0}) → Exec Service Reply
canceled (ok a) = done
canceled (err e) = reply 500 (codes "canceling subscription")

unfoldable pub on_invoice : Option Invoice → Exec Service Reply
unfolding deref
on_invoice none = reply 400 (codes "parsing invoice payload")
on_invoice (some inv) = do deref inv.customer; done

module _ (b : Backend) where
  unfoldable pub on_upsert : Option Subscription → Exec Service Reply
  unfolding processed
  on_upsert none = reply 400 (codes "parsing subscription payload")
  on_upsert (some sub) = attempt (upsert_subscription b sub) >>= processed

  unfoldable pub on_deleted : Option Subscription → Exec Service Reply
  unfolding canceled
  on_deleted none = reply 400 (codes "parsing subscription payload")
  on_deleted (some sub) = attempt (cancel_subscription b sub.id) >>= canceled

module _ (b : Backend) (stripe : Stripe) (secret : Text) where
  unfoldable pub dispatch : Event → Exec Service Reply
  unfolding on_upsert on_deleted on_invoice
  dispatch e =
      if text_eq e.kind subscription_created || text_eq e.kind subscription_updated
      then on_upsert b (stripe.parse_subscription e.raw)
      else if text_eq e.kind subscription_deleted
      then on_deleted b (stripe.parse_subscription e.raw)
      else if text_eq e.kind payment_failed
      then on_invoice (stripe.parse_invoice e.raw)
      else done

  unfoldable pub on_event : Option Event → Exec Service Reply
  unfolding dispatch
  on_event none = reply 400 (codes "invalid signature")
  on_event (some e) = dispatch e

  unfoldable pub on_body : Text → Text → Result (Unit {0}) → Exec Service Reply
  unfolding on_event
  on_body payload signature (err e) = reply 400 (codes "reading request body")
  on_body payload signature (ok a) =
      if ltb max_webhook_body_bytes (length payload)
      then reply 400 (codes "reading request body")
      else on_event (stripe.construct_event payload signature secret)

  -- The body is read up to its bound, and no further; reading it may fail.
  unfoldable pub handle_webhook : Text → Text → Exec Service Reply
  unfolding on_body
  handle_webhook payload signature = attempt call >>= on_body payload signature
