-- ===== src/Web/License/Lifecycle.antt =====
-- The life of a key: internal/web/license/license.go's operations one after another.
use nexguard.Prelude.{
  ℕ, suc, ◌≡◌, refl, inl, inr, true, List, [], ◌∷◌, ◌++◌, none, some, arith, if◌then◌else◌, ◌==◌,
  ◌/◌,
}
use nexguard.Prelude.Text.{Text}
use nexguard.Exec.{ok, Result-cases}
use nexguard.World.{next_outcome}
use nexguard.Web.World.{LicenseRow, Service, Backend, IsCollation, nanos}
use nexguard.Web.License.Defs.{
  insert_license, find_license, revoke_key, revoke_user, store_license, fresh_key, generate,
  verdict, validate, revoke, revoke_all_for_user,
}

module _ (b : Backend) where
  pub find_license-snoc :
      (hash : Text) (rows : List LicenseRow) (r : LicenseRow)
      → find_license b hash rows ≡ none
      → b.same_text r.key_hash hash ≡ true
      → find_license b hash (rows ++ r ∷ []) ≡ some r
  unfolding find_license
  find_license-snoc hash [] r new same = ground arith
  find_license-snoc hash (x ∷ rows) r new same = ground (arith, find_license-snoc hash rows r)

  pub find_license-revoke_key :
      (hash : Text) (now : ℕ) (rows : List LicenseRow)
      → verdict (find_license b hash (revoke_key b hash now rows)) ≡ none
  unfolding find_license revoke_key verdict
  find_license-revoke_key hash now [] = ground arith
  find_license-revoke_key hash now (x ∷ rows) =
      ground (arith, find_license-revoke_key hash now rows)

  pub verdict-revoke_user :
      (user now : ℕ) (hash : Text) (rows : List LicenseRow)
      → verdict (find_license b hash (revoke_user user now rows))
        ≡ elim (verdict (find_license b hash rows)) [
          | none ↦ none
          | some u ↦ if u == user then none else some u
        ]
  unfolding find_license revoke_user verdict
  verdict-revoke_user user now hash [] = ground arith
  verdict-revoke_user user now hash (x ∷ rows) =
      ground (arith, verdict-revoke_user user now hash rows)

  module _ (same : IsCollation b) where
    same_refl : (t : Text) → b.same_text t t ≡ true
    same_refl t = same.of_key t t refl

    store_license-validates :
        (user : ℕ) (key : Text) (s : Service)
        → (store_license b user (b.sha256_hex key) s).0 ≡ ok tt
        → verdict (
            find_license b
              (b.sha256_hex key)
              (store_license b user (b.sha256_hex key) s).1.db.licenses)
          ≡ some user
    unfolding store_license insert_license verdict
    store_license-validates user key s h = ground (
      arith,
      find_license-snoc (b.sha256_hex key) s.db.licenses (record {
        id = suc s.db.last_license;
        user_id = user;
        key_hash = b.sha256_hex key;
        revoked_at = none;
      }),
      same_refl (b.sha256_hex key),
    )

    generated :
        (user : ℕ) (key : Text) (s : Service)
        → (generate b user s).0 ≡ ok key
        → verdict (find_license b (b.sha256_hex key) (generate b user s).1.db.licenses) ≡ some user
    unfolding generate
    generated user key s h = elim (Result-cases (fresh_key s).0) [
      | inl (k, e) ↦ ground (arith, e, store_license-validates user k (fresh_key s).1)
      | inr (x, e) ↦ ground (arith, e)
    ]

    -- A key that was generated is valid for its user, if the database compares texts by a
    -- collation and its next call works.
    validate-generate :
        (user : ℕ) (key : Text) (s : Service)
        → (generate b user s).0 ≡ ok key
        → (generate b user s).1.outcomes ≡ []
        → (validate b key (generate b user s).1).0 ≡ ok (some user)
    unfolding validate next_outcome
    validate-generate user key s made quiet = ground (arith, generated user key s made)

  -- After a revocation of a key that returns, the key is not valid, if the next call of the
  -- database works.
  pub validate-revoke :
      (key : Text) (s : Service)
      → (revoke b key s).0 ≡ ok tt
      → (revoke b key s).1.outcomes ≡ []
      → (validate b key (revoke b key s).1).0 ≡ ok none
  unfolding validate revoke next_outcome
  validate-revoke key s done quiet =
      ground (arith, find_license-revoke_key (b.sha256_hex key) (s.now / nanos) s.db.licenses)

  -- After the licenses of a user are revoked, a key is valid exactly if it was valid before and
  -- belongs to another user, if the next call of the database works.
  validate-revoke_all_for_user :
      (user : ℕ) (key : Text) (s : Service)
      → (revoke_all_for_user user s).0 ≡ ok tt
      → (revoke_all_for_user user s).1.outcomes ≡ []
      → (validate b key (revoke_all_for_user user s).1).0
        ≡ ok (elim (verdict (find_license b (b.sha256_hex key) s.db.licenses)) [
          | none ↦ none
          | some u ↦ if u == user then none else some u
        ])
  unfolding validate revoke_all_for_user next_outcome
  validate-revoke_all_for_user user key s done quiet =
      ground (arith, verdict-revoke_user user (s.now / nanos) (b.sha256_hex key) s.db.licenses)
