-- ===== src/Web/Billing/Threads/Licenses.antt =====
-- What deliveries that are handled at once do to the licenses of a user.
use nexguard.Prelude.{
  ℕ, suc, ◌≤◌, ◌<◌, ◌≡◌, ◌≢◌, refl, ap, inl, inr, Bool, true, false, none, arith,
}
use nexguard.Prelude.Text.{Text}
use nexguard.Exec.{ok, Result-cases}
use nexguard.Web.World.{Service, Backend, LicenseRow}
use nexguard.Web.License.{generate, store_license, insert_license, fresh_key}
use nexguard.Web.Billing.Defs.{active_licenses, store_subscription}
use nexguard.Web.Billing.OneLicense.{count_active, count_active-snoc, fresh_key-Fixes}
use nexguard.Web.Billing.Threads.Defs.{
  Deed, finding, storing, counting, generating, upserted, licensed, locating, canceling, revoking,
  canceled, with_period, after_finding, after_storing, after_counting, after_generating,
  after_locating, after_canceling, advance,
}

-- The delivery is of a new or changed subscription.
abbrev pub is_upsert : Deed → Bool
is_upsert (locating id) = false
is_upsert (canceling id user) = false
is_upsert (revoking user) = false
is_upsert (canceled r) = false
is_upsert _ = true

abbrev pub active_of : ℕ → Service → ℕ
active_of user s = count_active user s.db.licenses

module _ (b : Backend) where
  store_license_more :
      (user other : ℕ) (hash : Text) (s : Service)
      → let (r, s') = store_license b user hash s in
        (active_of other s ≤ active_of other s')
        × (r ≡ ok tt → 0 < active_of user s')
        × (user ≢ other → active_of other s' ≡ active_of other s)
  unfolding store_license insert_license
  store_license_more user other hash s =
      let new : LicenseRow = record {
        id = suc s.db.last_license;
        user_id = user;
        key_hash = hash;
        revoked_at = none;
      } in
      ground (
        arith,
        count_active-snoc other s.db.licenses new refl,
        count_active-snoc user s.db.licenses new refl,
      )

  generate_more :
      (user other : ℕ) (s : Service)
      → let (r, s') = generate b user s in
        (active_of other s ≤ active_of other s')
        × ((key : Text) → r ≡ ok key → 0 < active_of user s')
        × (user ≢ other → active_of other s' ≡ active_of other s)
  unfolding generate
  generate_more user other s = elim (Result-cases (fresh_key s).0) [
    | inl (key, e) ↦
        let stored = store_license_more user other (b.sha256_hex key) (fresh_key s).1 in
        elim (Result-cases (store_license b user (b.sha256_hex key) (fresh_key s).1).0) [
          | inl (u, k) ↦ (
            ground (arith, (fresh_key-Fixes b).at s, stored, e, k),
            (λ text h. ground (arith, (fresh_key-Fixes b).at s, stored, e, k)),
            (λ apart. ground (arith, (fresh_key-Fixes b).at s, stored, e, k)),
          )
          | inr (x, k) ↦ (
            ground (arith, (fresh_key-Fixes b).at s, stored, e, k),
            (λ text h. ground (arith, e, k, h)),
            (λ apart. ground (arith, (fresh_key-Fixes b).at s, stored, e, k)),
          )
        ]
    | inr (x, e) ↦ (
      ground (arith, (fresh_key-Fixes b).at s, e),
      (λ text h. ground (arith, e, h)),
      (λ apart. ground (arith, (fresh_key-Fixes b).at s, e)),
    )
  ]

  pub advance_upsert : (d : Deed) (s : Service) → is_upsert (advance b d s).0 ≡ is_upsert d
  unfolding advance after_finding with_period after_storing after_counting after_generating
      after_locating after_canceling
  advance_upsert (finding sub customer) s = ground arith
  advance_upsert (storing sub customer user period_end) s = ground arith
  advance_upsert (counting user) s = ground arith
  advance_upsert (generating user) s = elim (Result-cases (generate b user s).0) [
    | inl (key, e) ↦ ground (arith, e)
    | inr (x, e) ↦ ground (arith, e)
  ]
  advance_upsert (upserted r) s = refl
  advance_upsert (licensed user) s = refl
  advance_upsert (locating id) s = ground arith
  advance_upsert (canceling id user) s = ground arith
  advance_upsert (revoking user) s = refl
  advance_upsert (canceled r) s = refl

  -- No call of such a delivery takes a license away.
  pub advance_more :
      (other : ℕ) (d : Deed) (s : Service)
      → is_upsert d ≡ true
      → active_of other s ≤ active_of other (advance b d s).1
  unfolding advance store_subscription
  advance_more other (finding sub customer) s new = ground arith
  advance_more other (storing sub customer user period_end) s new = ground arith
  advance_more other (counting user) s new = ground arith
  advance_more other (generating user) s new = ground (arith, generate_more user other s)
  advance_more other (upserted r) s new = omega arith
  advance_more other (licensed user) s new = omega arith
  advance_more other (locating id) s new = absurd (ground (arith, new))
  advance_more other (canceling id user) s new = absurd (ground (arith, new))
  advance_more other (revoking user) s new = absurd (ground (arith, new))
  advance_more other (canceled r) s new = absurd (ground (arith, new))

  -- A delivery that has returned behind its check leaves the user with a license.
  abbrev pub Granted : Service → Deed → Type 0
  Granted s d = (user : ℕ) → d ≡ licensed user → 0 < active_of user s

  generated-Granted :
      (user other : ℕ) (s : Service)
      → (advance b (generating user) s).0 ≡ licensed other
      → 0 < active_of other (advance b (generating user) s).1
  unfolding advance after_generating
  generated-Granted user other s h = elim (Result-cases (generate b user s).0) [
    | inl (key, e) ↦
        ground
          (arith, e, h, (generate_more user other s).1 key e, (generate_more other other s).1 key)
    | inr (x, e) ↦ absurd (ground (arith, e, h))
  ]

  pub advance-Granted :
      (d : Deed) (s : Service)
      → is_upsert d ≡ true
      → Granted s d
      → Granted (advance b d s).1 (advance b d s).0
  unfolding advance after_finding with_period after_storing after_counting active_licenses
  advance-Granted (finding sub customer) s new h = λ u k. absurd (ground (arith, k))
  advance-Granted (storing sub customer user period_end) s new h = λ u k. absurd (ground (arith, k))
  advance-Granted (counting user) s new h = λ u k. ground (arith, k)
  advance-Granted (generating user) s new h = λ u k. generated-Granted user u s k
  advance-Granted (upserted r) s new h = h
  advance-Granted (licensed user) s new h = h
  advance-Granted (locating id) s new h = absurd (ground (arith, new))
  advance-Granted (canceling id user) s new h = absurd (ground (arith, new))
  advance-Granted (revoking user) s new h = absurd (ground (arith, new))
  advance-Granted (canceled r) s new h = absurd (ground (arith, new))

  -- A user with a license gets no other: nobody is about to make one, and nobody will be.
  pub advance_keeps :
      (u : ℕ) (d : Deed) (s : Service)
      → is_upsert d ≡ true
      → 0 < active_of u s
      → d ≢ generating u
      → (active_of u (advance b d s).1 ≡ active_of u s) × ((advance b d s).0 ≢ generating u)
  unfolding advance after_finding with_period after_storing after_counting after_generating
      active_licenses store_subscription
  advance_keeps u (finding sub customer) s new some_ idle = (ground arith, λ k. ground (arith, k))
  advance_keeps u (storing sub customer user period_end) s new some_ idle =
      (ground arith, λ k. ground (arith, k))
  advance_keeps u (counting user) s new some_ idle = (ground arith, λ k. ground (arith, k, some_))
  advance_keeps u (generating user) s new some_ idle = (
    ground (arith, (generate_more user u s).2 (λ e. idle (ap generating e))),
    elim (Result-cases (generate b user s).0) [
      | inl (key, e) ↦ λ k. ground (arith, e, k)
      | inr (x, e) ↦ λ k. ground (arith, e, k)
    ],
  )
  advance_keeps u (upserted r) s new some_ idle = (refl, idle)
  advance_keeps u (licensed user) s new some_ idle = (refl, idle)
  advance_keeps u (locating id) s new some_ idle = absurd (ground (arith, new))
  advance_keeps u (canceling id user) s new some_ idle = absurd (ground (arith, new))
  advance_keeps u (revoking user) s new some_ idle = absurd (ground (arith, new))
  advance_keeps u (canceled r) s new some_ idle = absurd (ground (arith, new))
