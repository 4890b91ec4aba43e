-- ===== src/Web/Billing/Activation.antt =====
-- An active subscription gives its user a license, also when an earlier delivery failed half way.
use nexguard.Prelude.{
  ℕ, suc, ◌+◌, ◌≤◌, ◌<◌, ◌≡◌, refl, ◌⊎◌, List, [], ◌∷◌, none, some, arith, length,
}
use nexguard.Prelude.Text.{Text, codes, text_eq, text_eq_iff}
use nexguard.Exec.{ok}
use nexguard.World.{next_outcome, later_outcomes}
use nexguard.Web.World.{UserRow, Service, Backend, bytes_from}
use nexguard.Web.License.{
  insert_license, find_license, key_of, fresh_key, fresh_group, store_license, generate,
}
use nexguard.Web.Billing.Defs.{
  Subscription, Event, Stripe, active_licenses, find_customer, ensure_license, store_subscription,
  upsert_subscription, max_webhook_body_bytes,
}
use nexguard.Web.Billing.Handler.{handle_webhook, subscription_created, subscription_updated}
use nexguard.Web.Billing.OneLicense.{count_active, count_active-snoc}

-- The key that the next random bytes make.
abbrev pub next_key : Service → Text
next_key s =
    key_of (bytes_from s.entropy s.drawn 2) (bytes_from s.entropy (s.drawn + 2) 2)
      (bytes_from s.entropy (s.drawn + 2 + 2) 2) (bytes_from s.entropy (s.drawn + 2 + 2 + 2) 2)

module _ (b : Backend) where
  -- No stored license has that key.
  abbrev pub KeyIsFree : Service → Type 0
  KeyIsFree s = find_license b (b.sha256_hex (next_key s)) s.db.licenses ≡ none

  generate_quiet :
      (user : ℕ) (s : Service)
      → s.outcomes ≡ []
      → KeyIsFree s
      → let s' = (generate b user s).1 in
        ((generate b user s).0 ≡ ok (next_key s))
        × (s'.db ≡ insert_license user (b.sha256_hex (next_key s)) s.db)
        × (s'.outcomes ≡ [])
  unfolding generate fresh_key fresh_group store_license next_outcome later_outcomes
  generate_quiet user s quiet free = ground arith

  ensure_license_quiet :
      (user : ℕ) (s : Service)
      → s.outcomes ≡ []
      → KeyIsFree s
      → ((ensure_license b user (codes "active") s).0 ≡ ok tt)
        × (0 < count_active user (ensure_license b user (codes "active") s).1.db.licenses)
  unfolding ensure_license active_licenses next_outcome later_outcomes text_eq insert_license
  ensure_license_quiet user s quiet free = ground (
    arith,
    generate_quiet user (record s { outcomes = later_outcomes s.outcomes }),
    count_active-snoc user s.db.licenses
        (record {
          id = suc s.db.last_license;
          user_id = user;
          key_hash = b.sha256_hex (next_key s);
          revoked_at = none;
        })
        refl,
  )

  module _ (sub : Subscription) (customer : Text) (u : UserRow) (period_end : ℕ) (more : List ℕ)
      (of_customer : sub.customer ≡ some customer) (priced : sub.items ≡ some (period_end ∷ more))
      (active : sub.status ≡ codes "active") where
    abbrev stored : Service → Service
    stored s = record s {
      db = store_subscription b u.id customer sub period_end s.db;
      outcomes = later_outcomes (later_outcomes s.outcomes);
    }

    upsert_subscription_quiet :
        (s : Service)
        → s.outcomes ≡ []
        → find_customer b customer s.db.users ≡ some u
        → KeyIsFree s
        → ((upsert_subscription b sub s).0 ≡ ok tt)
          × (0 < count_active u.id (upsert_subscription b sub s).1.db.licenses)
    unfolding upsert_subscription store_subscription next_outcome later_outcomes
    upsert_subscription_quiet s quiet known free =
        ground (arith, ensure_license_quiet u.id (stored s))

    -- A signed event of an active subscription, of a customer who is known, with an item and
    -- within the size limit, is answered with 200 and leaves the user with an active license, if
    -- the system refuses nothing and the next key is not stored already; what earlier deliveries
    -- left in the tables does not matter.
    pub handle_webhook_active :
        (s : Service) (stripe : Stripe) (secret payload signature : Text) (e : Event)
        → s.outcomes ≡ []
        → find_customer b customer s.db.users ≡ some u
        → KeyIsFree s
        → length payload ≤ max_webhook_body_bytes
        → stripe.construct_event payload signature secret ≡ some e
        → (e.kind ≡ subscription_created) ⊎ (e.kind ≡ subscription_updated)
        → stripe.parse_subscription e.raw ≡ some sub
        → let (r, s') = handle_webhook b stripe secret payload signature s in
          (r ≡ ok (record { status = 200; body = [] })) × (0 < active_licenses u.id s'.db)
    unfolding handle_webhook active_licenses next_outcome later_outcomes
    handle_webhook_active s stripe secret payload signature e quiet known free fits signed kind
          parsed =
        ground (
          arith,
          upsert_subscription_quiet (record s { outcomes = later_outcomes s.outcomes }),
          text_eq_iff e.kind subscription_created,
          text_eq_iff e.kind subscription_updated,
        )
