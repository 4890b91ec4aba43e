-- ===== src/Web/Billing/Threads/Alone.antt =====
-- A delivery that is not interrupted does what internal/web/billing/webhook.go's functions do.
use nexguard.Prelude.{◌≡◌, Option, none, some, arith}
use nexguard.Prelude.Text.{Text}
use nexguard.Exec.{Result, ok}
use nexguard.Web.World.{Service, Backend}
use nexguard.Web.Billing.Defs.{
  Subscription, upsert_subscription, ensure_license, generate_unless, deref, or_unknown,
  first_period_end, cancel_row, cancel_subscription,
}
use nexguard.Web.Billing.Threads.Defs.{
  Deed, upserted, licensed, locating, canceled, start_upsert, with_period, after_finding,
  after_storing, after_counting, after_generating, after_locating, after_canceling, advance, alone,
}

-- What a delivery has returned.
abbrev result_of : Deed → Option (Result (Unit {0}))
result_of (upserted r) = some r
result_of (licensed user) = some (ok tt)
result_of (canceled r) = some r
result_of _ = none

module _ (b : Backend) where
  alone-upsert_subscription :
      (sub : Subscription) (s : Service)
      → let (d, s') = alone b 4 (start_upsert sub) s in
        (result_of d ≡ some (upsert_subscription b sub s).0)
        × (s' ≡ (upsert_subscription b sub s).1)
  unfolding alone start_upsert advance with_period after_finding after_storing after_counting
      after_generating upsert_subscription ensure_license generate_unless deref or_unknown
      first_period_end
  alone-upsert_subscription sub s = ground arith

  alone-cancel_subscription :
      (id : Text) (s : Service)
      → let (d, s') = alone b 3 (locating id) s in
        (result_of d ≡ some (cancel_subscription b id s).0) × (s' ≡ (cancel_subscription b id s).1)
  unfolding alone advance after_locating after_canceling cancel_subscription cancel_row
  alone-cancel_subscription id s = ground arith

  -- Four calls of a new subscription's delivery, and three of an ended one's, with nothing in between
  -- do just what `upsertSubscription` and `cancelSubscription` do: they return the same and leave the
  -- same service, whatever the subscription and whatever fails.
  alone_agrees :
      (sub : Subscription) (id : Text) (s : Service)
      → ((result_of (alone b 4 (start_upsert sub) s).0 ≡ some (upsert_subscription b sub s).0)
          × ((alone b 4 (start_upsert sub) s).1 ≡ (upsert_subscription b sub s).1))
        × ((result_of (alone b 3 (locating id) s).0 ≡ some (cancel_subscription b id s).0)
            × ((alone b 3 (locating id) s).1 ≡ (cancel_subscription b id s).1))
  alone_agrees sub id s = (alone-upsert_subscription sub s, alone-cancel_subscription id s)
