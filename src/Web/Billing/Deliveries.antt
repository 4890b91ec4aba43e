-- ===== src/Web/Billing/Deliveries.antt =====
-- Whole deliveries to internal/web/billing/webhook.go's handler.
use nexguard.Prelude.{List, [], ◌∷◌, Option, none, some}
use nexguard.Prelude.Text.{Text}
use nexguard.Exec.{panic, Result, ok, err}
use nexguard.Exec.Preserves.{Preserves, preserves_rules}
use nexguard.Web.World.{Service, Backend}
use nexguard.Web.Billing.Defs.{Subscription, Invoice, Event, Stripe}
use nexguard.Web.Billing.Handler.{
  processed, canceled, on_invoice, on_upsert, on_deleted, dispatch, on_event, on_body,
  handle_webhook,
}
use nexguard.Web.Billing.OneLicense.{
  IsSingle, Single, call-Preserves, deref-Preserves, upsert_subscription-Preserves,
  cancel_subscription-Preserves,
}

processed-Preserves : (r : Result (Unit {0})) → Preserves Single (processed r)
unfolding processed
processed-Preserves (ok a) = search preserves_rules
processed-Preserves (err panic) = search preserves_rules
processed-Preserves (err _) = search preserves_rules

canceled-Preserves : (r : Result (Unit {0})) → Preserves Single (canceled r)
unfolding canceled
canceled-Preserves (ok a) = search preserves_rules
canceled-Preserves (err e) = search preserves_rules

on_invoice-Preserves : (o : Option Invoice) → Preserves Single (on_invoice o)
unfolding on_invoice
on_invoice-Preserves none = search preserves_rules
on_invoice-Preserves (some inv) = search (preserves_rules, deref-Preserves)

module _ (b : Backend) where
  on_upsert-Preserves : (o : Option Subscription) → Preserves Single (on_upsert b o)
  unfolding on_upsert
  on_upsert-Preserves none = search preserves_rules
  on_upsert-Preserves (some sub) =
      search (preserves_rules, upsert_subscription-Preserves, processed-Preserves)

  on_deleted-Preserves : (o : Option Subscription) → Preserves Single (on_deleted b o)
  unfolding on_deleted
  on_deleted-Preserves none = search preserves_rules
  on_deleted-Preserves (some sub) =
      search (preserves_rules, cancel_subscription-Preserves, canceled-Preserves)

module _ (b : Backend) (stripe : Stripe) (secret : Text) where
  dispatch-Preserves : (e : Event) → Preserves Single (dispatch b stripe secret e)
  unfolding dispatch
  dispatch-Preserves e =
      search (preserves_rules, on_upsert-Preserves, on_deleted-Preserves, on_invoice-Preserves)

  on_event-Preserves : (o : Option Event) → Preserves Single (on_event b stripe secret o)
  unfolding on_event
  on_event-Preserves none = search preserves_rules
  on_event-Preserves (some e) = dispatch-Preserves e

  on_body-Preserves :
      (payload signature : Text) (r : Result (Unit {0}))
      → Preserves Single (on_body b stripe secret payload signature r)
  unfolding on_body
  on_body-Preserves payload signature (err e) = search preserves_rules
  on_body-Preserves payload signature (ok a) = search (preserves_rules, on_event-Preserves)

  pub handle_webhook-Preserves :
      (payload signature : Text)
      → Preserves Single (handle_webhook b stripe secret payload signature)
  unfolding handle_webhook
  handle_webhook-Preserves payload signature =
      search (preserves_rules, call-Preserves, on_body-Preserves)

  -- Deliveries one after another; the reply goes back to Stripe.
  abbrev pub deliver : Service → List (Text × Text) → Service
  deliver s [] = s
  deliver s ((payload, signature) ∷ rest) =
      deliver (handle_webhook b stripe secret payload signature s).1 rest

  -- Whatever is delivered, in whatever order and how often, and whatever the database refuses, no
  -- user comes to have two active licenses, if deliveries are handled one after another.
  pub deliver-IsSingle :
      (s : Service) (deliveries : List (Text × Text))
      → IsSingle s.db
      → IsSingle (deliver s deliveries).db
  deliver-IsSingle s [] single = single
  deliver-IsSingle s ((payload, signature) ∷ rest) single =
      deliver-IsSingle (handle_webhook b stripe secret payload signature s).1 rest
        ((handle_webhook-Preserves payload signature).after s single)
