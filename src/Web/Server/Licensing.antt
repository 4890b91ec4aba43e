-- ===== src/Web/Server/Licensing.antt =====
-- From Stripe's events to the answers of internal/web/handlers/api.go.
use nexguard.Prelude.{
  ℕ, ◌/◌, ◌≤◌, ◌≡◌, ap, ◌∙◌, inl, inr, false, List, [], Option, none, some, arith, length,
}
use nexguard.Prelude.Text.{Text, codes, is_empty}
use nexguard.Exec.{ok, Result-cases}
use nexguard.World.{next_outcome}
use nexguard.Web.World.{SubscriptionRow, LicenseRow, Service, Backend, nanos}
use nexguard.Web.License.{find_license, verdict, validate}
use nexguard.Web.License.Lifecycle.{verdict-revoke_user}
use nexguard.Web.Billing.{
  Subscription, Event, max_webhook_body_bytes, find_subscription, handle_webhook,
  subscription_deleted,
}
use nexguard.Web.Billing.Refusals.{deleted_licenses}
use nexguard.Web.Http.{Request}
use nexguard.Web.Handlers.LicenseApi.{invalid, validate_key, validate_license_api}
use nexguard.Web.Server.Defs.{Env, license_validate, stripe_webhook, handle}

-- The user whom a license key stands for in the tables.
abbrev pub key_owner : Backend → Text → Service → Option ℕ
key_owner b key s = verdict (find_license b (b.sha256_hex key) s.db.licenses)

validate_key-none :
    (b : Backend) (key : Text) (s : Service)
    → s.outcomes ≡ []
    → key_owner b key s ≡ none
    → (validate_key b key s).0 ≡ ok (invalid 401 (codes "invalid or unknown license key"))
unfolding validate_key validate next_outcome
validate_key-none b key s quiet nobody = ground arith

module _ (env : Env) where
  webhook_state :
      (r : Request) (s : Service)
      → (handle env stripe_webhook r s).1
        ≡ (handle_webhook env.backend env.stripe env.webhook_secret r.body r.stripe_signature s).1
  unfolding handle
  webhook_state r s =
      elim (Result-cases
        (handle_webhook env.backend env.stripe env.webhook_secret r.body r.stripe_signature s).0) [
          | inl (a, e) ↦ ground (arith, e)
          | inr (x, e) ↦ ground (arith, e)
        ]

  -- Once the end of a stored subscription has been delivered with a valid signature and within the
  -- size limit, every license key of its user is answered with 401, if the system refuses nothing.
  pub license_validate-stripe_webhook :
      (delivery asked : Request) (e : Event) (sub : Subscription) (r : SubscriptionRow)
      (s : Service)
      → s.outcomes ≡ []
      → length delivery.body ≤ max_webhook_body_bytes
      → env.stripe.construct_event delivery.body delivery.stripe_signature env.webhook_secret
        ≡ some e
      → e.kind ≡ subscription_deleted
      → env.stripe.parse_subscription e.raw ≡ some sub
      → find_subscription env.backend sub.id s.db.subscriptions ≡ some r
      → is_empty asked.api_key ≡ false
      → key_owner env.backend asked.api_key s ≡ some r.user_id
      → (handle env license_validate asked (handle env stripe_webhook delivery s).1).0
        ≡ ok (invalid 401 (codes "invalid or unknown license key"))
  unfolding handle validate_license_api
  license_validate-stripe_webhook delivery asked e sub r s quiet fits signed kind parsed stored
        given owned =
      let s' =
        (handle_webhook env.backend env.stripe env.webhook_secret delivery.body
          delivery.stripe_signature s).1 in
      let (rows, quiet') =
        deleted_licenses env.backend env.stripe env.webhook_secret delivery.body
          delivery.stripe_signature s e sub r quiet fits signed kind parsed stored in
      let gone : key_owner env.backend asked.api_key s' ≡ none =
        ap
          (λ (rows : List LicenseRow).
            verdict (find_license env.backend (env.backend.sha256_hex asked.api_key) rows))
          rows
        ∙ verdict-revoke_user env.backend r.user_id (s.now / nanos)
            (env.backend.sha256_hex asked.api_key) s.db.licenses
        ∙ ground (arith, owned) in
      rw (webhook_state delivery s, given)
        (validate_key-none env.backend asked.api_key s' quiet' gone)
