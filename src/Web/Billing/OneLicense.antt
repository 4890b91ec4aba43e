-- ===== src/Web/Billing/OneLicense.antt =====
-- Stripe's events never give a user a second active license, and an end of the subscription takes
-- it away: internal/web/billing/webhook.go over internal/web/license/license.go.
use nexguard.Prelude.{
  ℕ, suc, ◌≤◌, ◌≡◌, refl, inl, inr, ◌&&◌, List, [], ◌∷◌, ◌++◌, Option, none, some, arith,
  if◌then◌else◌, ◌==◌, ◌/◌, length, select,
}
use nexguard.Prelude.Text.{Text}
use nexguard.Exec.{Result-cases}
use nexguard.Exec.Fixes.{Fixes}
use nexguard.Exec.Preserves.{Preserves, preserves_rules}
use nexguard.World.{later_outcomes}
use nexguard.Web.World.{
  LicenseRow, UserRow, SubscriptionRow, Tables, Service, Backend, call, query, exec, nanos,
}
use nexguard.Web.License.{
  is_active, insert_license, revoke_user, revoke_all_for_user, store_license, fresh_key,
  fresh_group, generate,
}
use nexguard.Web.Billing.Defs.{
  Subscription, active_licenses, ensure_license, store_subscription, set_canceled, deref,
  or_unknown, first_period_end, upsert_subscription, cancel_row, cancel_subscription,
}

abbrev pub count_active : ℕ → List LicenseRow → ℕ
count_active user rows = length (select (λ r. r.user_id == user && is_active r) rows)

-- No user has two active licenses.
abbrev pub IsSingle : Tables → Type 0
IsSingle db = (user : ℕ) → count_active user db.licenses ≤ 1

pub count_active-snoc :
    (user : ℕ) (rows : List LicenseRow) (r : LicenseRow)
    → r.revoked_at ≡ none
    → count_active user (rows ++ r ∷ [])
      ≡ (if r.user_id == user then suc (count_active user rows) else count_active user rows)
count_active-snoc user [] r new = ground arith
count_active-snoc user (x ∷ rows) r new = ground (arith, count_active-snoc user rows r new)

pub count_active-revoke_user :
    (user other now : ℕ) (rows : List LicenseRow)
    → count_active other (revoke_user user now rows)
      ≡ (if user == other then 0 else count_active other rows)
unfolding revoke_user
count_active-revoke_user user other now [] = ground arith
count_active-revoke_user user other now (r ∷ rows) =
    ground (arith, count_active-revoke_user user other now rows)

abbrev pub Single : Service → Type 0
Single s = IsSingle s.db

pub call-Preserves : Preserves Single call
call-Preserves = record { after = λ s single other. ground (arith, single other) }

query-Preserves : {A : Type 0} (f : Tables → A) → Preserves Single (query f)
query-Preserves f = record { after = λ s single other. ground (arith, single other) }

pub deref-Preserves : {A : Type 0} (o : Option A) → Preserves Single (deref o)
unfolding deref
deref-Preserves none = search preserves_rules
deref-Preserves (some a) = search preserves_rules

or_unknown-Preserves : (o : Option UserRow) → Preserves Single (or_unknown o)
unfolding or_unknown
or_unknown-Preserves none = search preserves_rules
or_unknown-Preserves (some a) = search preserves_rules

first_period_end-Preserves : (o : Option (List ℕ)) → Preserves Single (first_period_end o)
unfolding first_period_end
first_period_end-Preserves none = search preserves_rules
first_period_end-Preserves (some []) = search preserves_rules
first_period_end-Preserves (some (e ∷ es)) = search preserves_rules

revoke_all-Preserves : (user : ℕ) → Preserves Single (revoke_all_for_user user)
unfolding revoke_all_for_user
revoke_all-Preserves user = record {
  after = λ s single other.
      ground
        (arith, single other, count_active-revoke_user user other (s.now / nanos) s.db.licenses);
}

module _ (b : Backend) where
  -- A key that is stored is one more active license of its user; a refused one is none.
  store_license_count :
      (user other : ℕ) (hash : Text) (s : Service)
      → count_active other (store_license b user hash s).1.db.licenses ≤ (
          if user == other
          then suc (count_active other s.db.licenses)
          else count_active other s.db.licenses)
  unfolding store_license insert_license
  store_license_count user other hash s = ground (
    arith,
    count_active-snoc other s.db.licenses
        (record { id = suc s.db.last_license; user_id = user; key_hash = hash; revoked_at = none })
        refl,
  )

  pub fresh_key-Fixes : Fixes (λ (s : Service). s.db) fresh_key
  unfolding fresh_key fresh_group
  fresh_key-Fixes = record { at = λ s. ground arith }

  generate_count :
      (user other : ℕ) (s : Service)
      → count_active other (generate b user s).1.db.licenses ≤ (
          if user == other
          then suc (count_active other s.db.licenses)
          else count_active other s.db.licenses)
  unfolding generate
  generate_count user other s = elim (Result-cases (fresh_key s).0) [
    | inl (key, e) ↦ ground (
      arith,
      fresh_key-Fixes.at s,
      store_license_count user other (b.sha256_hex key) (fresh_key s).1,
      e,
    )
    | inr (x, e) ↦ ground (arith, fresh_key-Fixes.at s)
  ]

  ensure_license-Preserves :
      (user : ℕ) (status : Text) → Preserves Single (ensure_license b user status)
  unfolding ensure_license active_licenses
  ensure_license-Preserves user status = record {
    after = λ s single other. ground (
      arith,
      single other,
      generate_count user other (record s { outcomes = later_outcomes s.outcomes }),
    );
  }

  store-Preserves :
      (user : ℕ) (customer : Text) (sub : Subscription) (period_end : ℕ)
      → Preserves Single (exec (λ now. store_subscription b user customer sub period_end))
  unfolding store_subscription
  store-Preserves user customer sub period_end = record {
    after = λ s single other. ground (arith, single other);
  }

  pub upsert_subscription-Preserves :
      (sub : Subscription) → Preserves Single (upsert_subscription b sub)
  unfolding upsert_subscription
  upsert_subscription-Preserves sub =
      search
        (
          preserves_rules, query-Preserves, deref-Preserves, or_unknown-Preserves,
          first_period_end-Preserves, store-Preserves, ensure_license-Preserves,
        )
        depth 12

  cancel-Preserves :
      (id : Text)
      → Preserves Single
          (exec (λ now db. record db { subscriptions = set_canceled b id db.subscriptions }))
  cancel-Preserves id = record { after = λ s single other. ground (arith, single other) }

  cancel_row-Preserves :
      (id : Text) (o : Option SubscriptionRow) → Preserves Single (cancel_row b id o)
  unfolding cancel_row
  cancel_row-Preserves id none = search preserves_rules
  cancel_row-Preserves id (some r) =
      search (preserves_rules, cancel-Preserves, revoke_all-Preserves)

  pub cancel_subscription-Preserves : (id : Text) → Preserves Single (cancel_subscription b id)
  unfolding cancel_subscription
  cancel_subscription-Preserves id = search (preserves_rules, query-Preserves, cancel_row-Preserves)
