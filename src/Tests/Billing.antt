-- ===== src/Tests/Billing.antt =====
-- Witnesses for the webhook of the payments.
use nexguard.Prelude.{
  ◌≡◌, ◌<◌, ◌/◌, inl, refl, false, List, [], ◌∷◌, some, none, arith, if◌then◌else◌,
}
use nexguard.Prelude.Text.{Text, codes, text_eq, text_eq_iff}
use nexguard.Exec.{ok}
use nexguard.World.{works, fails}
use nexguard.Web.World.{
  UserRow, SubscriptionRow, Tables, empty_tables, Service, Backend, IsCollation, bytes_from,
  hex_encode, nanos,
}
use nexguard.Web.License.{find_license, key_of, group_of, upper_digit}
use nexguard.Web.Billing.{
  Subscription, Stripe, active_licenses, find_customer, handle_webhook, subscription_created,
}
use nexguard.Web.Billing.OneLicense.{IsSingle}
use nexguard.Web.Billing.Deliveries.{deliver, deliver-IsSingle}
use nexguard.Web.Billing.Activation.{KeyIsFree, handle_webhook_active}

-- Texts compare as they are, the digest is the text, and a password is its own hash.
abbrev pub backend : Backend
backend = record {
  same_text = text_eq;
  sha256_hex = λ t. t;
  datetime = λ t. t / nanos;
  bcrypt_generate = λ salt t. some t;
  bcrypt_matches = text_eq;
}

pub backend-IsCollation : IsCollation backend
backend-IsCollation = record {
  key = λ t. t;
  by_key = λ s t. (text_eq_iff s t).0;
  of_key = λ s t. (text_eq_iff s t).1;
}

abbrev pub user : UserRow
user = record {
  id = 1;
  email = codes "a@b";
  phone = none;
  password_hash = codes "pw";
  stripe_customer_id = some (codes "cus");
  created_at = 0;
  sms_service_consent = false;
  sms_service_consent_at = none;
  sms_marketing_consent = false;
  sms_marketing_consent_at = none;
  consent_ip = none;
  consent_user_agent = none;
}

-- The user has a canceled license.
abbrev pub tables : Tables
tables = record empty_tables {
  users = user ∷ [];
  last_user = 1;
  licenses = record { id = 1; user_id = 1; key_hash = codes "old"; revoked_at = some 3 } ∷ [];
  last_license = 1;
}

abbrev pub service : Service
service = record { db = tables; now = 5000000000; entropy = λ i. i; drawn = 0; outcomes = [] }

abbrev pub subscription : Subscription
subscription = record {
  id = codes "sub";
  customer = some (codes "cus");
  items = some (99 ∷ []);
  status = codes "active";
}

-- A signature is the secret; every signed payload is an event of this kind about that subscription.
abbrev pub sending : Text → Subscription → Stripe
sending kind sub = record {
  construct_event = λ payload signature secret.
      if text_eq signature secret then some (record { kind = kind; raw = payload }) else none;
  parse_subscription = λ raw. some sub;
  parse_invoice = λ raw. none;
}

abbrev pub secret : Text
secret = codes "whsec"

abbrev pub payload : Text
payload = codes "{}"

abbrev created : Stripe
created = sending subscription_created subscription

no_license : KeyIsFree backend service
unfolding find_license text_eq key_of bytes_from group_of upper_digit hex_encode
no_license = refl

handle_webhook_active_example :
    let (r, s') = handle_webhook backend created secret payload secret service in
    (r ≡ ok (record { status = 200; body = [] })) × (0 < active_licenses 1 s'.db)
unfolding find_customer text_eq
handle_webhook_active_example =
    handle_webhook_active backend subscription (codes "cus") user 99 [] refl refl refl service
      created secret payload secret (record { kind = subscription_created; raw = payload }) refl
      refl no_license (omega arith) refl (inl refl) refl

tables-IsSingle : IsSingle tables
tables-IsSingle other = ground arith

-- The second delivery finds the license of the first, whose reply was lost.
abbrev deliveries : List (Text × Text)
deliveries = (payload, secret) ∷ (payload, codes "forged") ∷ (payload, secret) ∷ []

abbrev shaky : Service
shaky = record service { outcomes = works ∷ works ∷ works ∷ works ∷ fails 0 ∷ [] }

deliver-IsSingle_example : IsSingle (deliver backend created secret shaky deliveries).db
deliver-IsSingle_example = deliver-IsSingle backend created secret shaky deliveries tables-IsSingle

abbrev pub subscribed : SubscriptionRow
subscribed = record {
  id = 1;
  user_id = 1;
  stripe_customer_id = codes "cus";
  stripe_subscription_id = codes "sub";
  tier = codes "standard";
  status = codes "active";
  current_period_end = 99;
}

abbrev pub licensed : Service
licensed = record service {
  db = record tables {
    subscriptions = subscribed ∷ [];
    licenses = record { id = 2; user_id = 1; key_hash = codes "key"; revoked_at = none } ∷ [];
  };
}
