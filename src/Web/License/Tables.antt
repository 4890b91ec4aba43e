-- ===== src/Web/License/Tables.antt =====
-- The table of licenses in internal/web/license/license.go: what a change of it does to each key.
use nexguard.Prelude.{
  ℕ, ◌≡◌, refl, sym, ap, ◌∙◌, inl, inr, true, false, List, [], ◌∷◌, ◌++◌, none, some, arith,
  if◌then◌else◌, Bool-cases,
}
use nexguard.Prelude.Text.{Text}
use nexguard.Web.World.{LicenseRow, Backend, IsCollation}
use nexguard.Web.License.Defs.{find_license, revoke_key, verdict}
use nexguard.Web.License.Lifecycle.{find_license-snoc, find_license-revoke_key}

module _ (b : Backend) where
  find_license-other :
      (hash : Text) (rows : List LicenseRow) (r : LicenseRow)
      → b.same_text r.key_hash hash ≡ false
      → find_license b hash (rows ++ r ∷ []) ≡ find_license b hash rows
  unfolding find_license
  find_license-other hash [] r apart = ground (arith, apart)
  find_license-other hash (x ∷ rows) r apart = ground (arith, find_license-other hash rows r apart)

  module _ (same : IsCollation b) where
    same_alike : (s t x : Text) → b.same_text s t ≡ true → b.same_text x t ≡ b.same_text x s
    same_alike s t x e = elim (Bool-cases (b.same_text x t)) [
      | inl yes_ ↦ yes_ ∙ sym (same.of_key x s (same.by_key x t yes_ ∙ sym (same.by_key s t e)))
      | inr no_ ↦ elim (Bool-cases (b.same_text x s)) [
        | inl yes_ ↦ same.of_key x t (same.by_key x s yes_ ∙ same.by_key s t e) ∙ sym yes_
        | inr no' ↦ no_ ∙ sym no'
      ]
    ]

    other_alike :
        (s t x : Text) → b.same_text x s ≡ true → b.same_text s t ≡ false → b.same_text x t ≡ false
    other_alike s t x e apart = elim (Bool-cases (b.same_text x t)) [
      | inl yes_ ↦
          ground (arith, apart, same.of_key s t (sym (same.by_key x s e) ∙ same.by_key x t yes_))
      | inr no_ ↦ no_
    ]

    find_license-alike :
        (s t : Text) (rows : List LicenseRow)
        → b.same_text s t ≡ true
        → find_license b t rows ≡ find_license b s rows
    unfolding find_license
    find_license-alike s t [] e = refl
    find_license-alike s t (x ∷ rows) e =
        ground (arith, same_alike s t x.key_hash e, find_license-alike s t rows e)

    pub revoke_key_other :
        (key hash : Text) (now : ℕ) (rows : List LicenseRow)
        → b.same_text key hash ≡ false
        → verdict (find_license b hash (revoke_key b key now rows))
          ≡ verdict (find_license b hash rows)
    unfolding find_license revoke_key verdict
    revoke_key_other key hash now [] apart = refl
    revoke_key_other key hash now (x ∷ rows) apart =
        elim (Bool-cases (b.same_text x.key_hash key)) [
          | inl of_key ↦ ground (
            arith,
            of_key,
            other_alike key hash x.key_hash of_key apart,
            revoke_key_other key hash now rows apart,
          )
          | inr not_key ↦ ground (arith, not_key, revoke_key_other key hash now rows apart)
        ]

    pub revoke_key_alike :
        (key hash : Text) (now : ℕ) (rows : List LicenseRow)
        → b.same_text key hash ≡ true
        → verdict (find_license b hash (revoke_key b key now rows)) ≡ none
    revoke_key_alike key hash now rows e =
        ap verdict (find_license-alike key hash (revoke_key b key now rows) e)
        ∙ find_license-revoke_key b key now rows

    pub insert_license_lem :
        (user : ℕ) (key hash : Text) (rows : List LicenseRow) (r : LicenseRow)
        → r.key_hash ≡ b.sha256_hex key
        → verdict (some r) ≡ some user
        → find_license b (b.sha256_hex key) rows ≡ none
        → verdict (find_license b hash (rows ++ r ∷ [])) ≡ (
            if b.same_text (b.sha256_hex key) hash
            then some user
            else verdict (find_license b hash rows))
    insert_license_lem user key hash rows r stored active new =
        elim (Bool-cases (b.same_text (b.sha256_hex key) hash)) [
          | inl alike ↦ ground (
            arith,
            alike,
            stored,
            active,
            find_license-snoc b hash rows r
                (find_license-alike (b.sha256_hex key) hash rows alike ∙ new),
          )
          | inr apart ↦ ground (arith, apart, stored, find_license-other hash rows r)
        ]
