-- ===== src/Web/Billing/Frame.antt =====
-- internal/web/billing/webhook.go changes no user.
use nexguard.Prelude.{ℕ, List, [], ◌∷◌, Option, none, some, arith}
use nexguard.Prelude.Text.{Text}
use nexguard.Exec.{panic, Result, ok, err}
use nexguard.Exec.Fixes.{Fixes, fixes_rules}
use nexguard.Web.World.{UserRow, SubscriptionRow, Tables, Service, Backend, call, query, exec}
use nexguard.Web.License.{
  generate, fresh_key, fresh_group, store_license, insert_license, revoke_all_for_user,
}
use nexguard.Web.Billing.Defs.{
  Subscription, Invoice, Event, Stripe, deref, or_unknown, first_period_end, ensure_license,
  store_subscription, upsert_subscription, set_canceled, cancel_row, cancel_subscription,
}
use nexguard.Web.Billing.Handler.{
  processed, canceled, on_invoice, on_upsert, on_deleted, dispatch, on_event, on_body,
  handle_webhook,
}

abbrev pub users : Service → List UserRow
users s = s.db.users

call-Fixes : Fixes users call
call-Fixes = record { at = λ s. ground arith }

query-Fixes : {A : Type 0} (f : Tables → A) → Fixes users (query f)
query-Fixes f = record { at = λ s. ground arith }

deref-Fixes : {A : Type 0} (o : Option A) → Fixes users (deref o)
unfolding deref
deref-Fixes none = search fixes_rules
deref-Fixes (some a) = search fixes_rules

or_unknown-Fixes : (o : Option UserRow) → Fixes users (or_unknown o)
unfolding or_unknown
or_unknown-Fixes none = search fixes_rules
or_unknown-Fixes (some u) = search fixes_rules

first_period_end-Fixes : (o : Option (List ℕ)) → Fixes users (first_period_end o)
unfolding first_period_end
first_period_end-Fixes none = search fixes_rules
first_period_end-Fixes (some []) = search fixes_rules
first_period_end-Fixes (some (e ∷ es)) = search fixes_rules

revoke_all-Fixes : (user : ℕ) → Fixes users (revoke_all_for_user user)
unfolding revoke_all_for_user
revoke_all-Fixes user = record { at = λ s. ground arith }

fresh_group-Fixes : Fixes users fresh_group
unfolding fresh_group
fresh_group-Fixes = record { at = λ s. ground arith }

fresh_key-Fixes : Fixes users fresh_key
unfolding fresh_key
fresh_key-Fixes = search (fixes_rules, fresh_group-Fixes) depth 10

processed-Fixes : (r : Result (Unit {0})) → Fixes users (processed r)
unfolding processed
processed-Fixes (ok a) = search fixes_rules
processed-Fixes (err panic) = search fixes_rules
processed-Fixes (err _) = search fixes_rules

canceled-Fixes : (r : Result (Unit {0})) → Fixes users (canceled r)
unfolding canceled
canceled-Fixes (ok a) = search fixes_rules
canceled-Fixes (err e) = search fixes_rules

on_invoice-Fixes : (o : Option Invoice) → Fixes users (on_invoice o)
unfolding on_invoice
on_invoice-Fixes none = search fixes_rules
on_invoice-Fixes (some inv) = search (fixes_rules, deref-Fixes)

module _ (b : Backend) where
  store_license-Fixes : (user : ℕ) (hash : Text) → Fixes users (store_license b user hash)
  unfolding store_license insert_license
  store_license-Fixes user hash = record { at = λ s. ground arith }

  generate-Fixes : (user : ℕ) → Fixes users (generate b user)
  unfolding generate
  generate-Fixes user = search (fixes_rules, fresh_key-Fixes, store_license-Fixes) depth 8

  ensure_license-Fixes : (user : ℕ) (status : Text) → Fixes users (ensure_license b user status)
  unfolding ensure_license
  ensure_license-Fixes user status = search (fixes_rules, query-Fixes, generate-Fixes) depth 10

  store-Fixes :
      (user : ℕ) (customer : Text) (sub : Subscription) (period_end : ℕ)
      → Fixes users (exec (λ now. store_subscription b user customer sub period_end))
  unfolding store_subscription
  store-Fixes user customer sub period_end = record { at = λ s. ground arith }

  upsert-Fixes : (sub : Subscription) → Fixes users (upsert_subscription b sub)
  unfolding upsert_subscription
  upsert-Fixes sub =
      search
        (
          fixes_rules, query-Fixes, deref-Fixes, or_unknown-Fixes, first_period_end-Fixes,
          store-Fixes, ensure_license-Fixes,
        )
        depth 12

  cancel-Fixes :
      (id : Text)
      → Fixes users
          (exec (λ now db. record db { subscriptions = set_canceled b id db.subscriptions }))
  cancel-Fixes id = record { at = λ s. ground arith }

  cancel_row-Fixes : (id : Text) (o : Option SubscriptionRow) → Fixes users (cancel_row b id o)
  unfolding cancel_row
  cancel_row-Fixes id none = search fixes_rules
  cancel_row-Fixes id (some r) = search (fixes_rules, cancel-Fixes, revoke_all-Fixes)

  cancel_subscription-Fixes : (id : Text) → Fixes users (cancel_subscription b id)
  unfolding cancel_subscription
  cancel_subscription-Fixes id = search (fixes_rules, query-Fixes, cancel_row-Fixes)

  on_upsert-Fixes : (o : Option Subscription) → Fixes users (on_upsert b o)
  unfolding on_upsert
  on_upsert-Fixes none = search fixes_rules
  on_upsert-Fixes (some sub) = search (fixes_rules, upsert-Fixes, processed-Fixes)

  on_deleted-Fixes : (o : Option Subscription) → Fixes users (on_deleted b o)
  unfolding on_deleted
  on_deleted-Fixes none = search fixes_rules
  on_deleted-Fixes (some sub) = search (fixes_rules, cancel_subscription-Fixes, canceled-Fixes)

module _ (b : Backend) (stripe : Stripe) (secret : Text) where
  on_event-Fixes : (o : Option Event) → Fixes users (on_event b stripe secret o)
  unfolding on_event dispatch
  on_event-Fixes none = search fixes_rules
  on_event-Fixes (some e) =
      search (fixes_rules, on_upsert-Fixes, on_deleted-Fixes, on_invoice-Fixes) depth 8

  on_body-Fixes :
      (payload signature : Text) (r : Result (Unit {0}))
      → Fixes users (on_body b stripe secret payload signature r)
  unfolding on_body
  on_body-Fixes payload signature (err e) = search fixes_rules
  on_body-Fixes payload signature (ok a) = search (fixes_rules, on_event-Fixes)

  -- The webhook changes no user, whatever is delivered and whatever fails.
  pub handle_webhook-Fixes :
      (payload signature : Text) → Fixes users (handle_webhook b stripe secret payload signature)
  unfolding handle_webhook
  handle_webhook-Fixes payload signature = search (fixes_rules, call-Fixes, on_body-Fixes)
