-- ===== src/Web/License/Refinement.antt =====
-- internal/web/license/license.go as a map from keys to the users whom they are valid for.
use nexguard.Prelude.{
  ℕ, suc, ◌≡◌, refl, ◌∙◌, inl, inr, List, [], ◌∷◌, Option, none, some, arith, if◌then◌else◌, ◌==◌,
  ◌/◌, Bool-cases, Option-cases,
}
use nexguard.Prelude.Text.{Text}
use nexguard.Exec.{Exec, Result, ok, err, Result-cases, pure, ◌>>=◌, ◌>>◌}
use nexguard.Exec.Fixes.{Fixes}
use nexguard.Web.World.{Service, Backend, IsCollation, nanos}
use nexguard.Web.License.Defs.{
  insert_license, find_license, store_license, fresh_key, fresh_group, generate, verdict, validate,
  revoke, revoke_all_for_user,
}
use nexguard.Web.License.Lifecycle.{verdict-revoke_user}
use nexguard.Web.License.Tables.{revoke_key_other, revoke_key_alike, insert_license_lem}
use nexguard.World.{next_outcome}

-- `Generate` for a user, `Revoke` of a key, and `RevokeAllForUser`.
pub data Operation : Type 0 where
  issue : ℕ → Operation
  withdraw : Text → Operation
  withdraw_all : ℕ → Operation

-- The user for whom the key with a hash is valid.
abbrev pub Owners : Type 0
Owners = Text → Option ℕ

module _ (b : Backend) where
  abbrev pub owners_of : Service → Owners
  owners_of s hash = verdict (find_license b hash s.db.licenses)

  -- An operation, and the key that it returns, if it is one that does.
  abbrev pub perform : Operation → Exec Service (Option Text)
  perform (issue user) = do key ← generate b user; pure (some key)
  perform (withdraw key) = do revoke b key; pure none
  perform (withdraw_all user) = do revoke_all_for_user user; pure none

  -- What an operation that returns this means for the map.
  abbrev pub meant : Operation → Option Text → Owners → Owners
  meant (issue user) (some key) owners hash =
      if b.same_text (b.sha256_hex key) hash then some user else owners hash
  meant (issue user) none owners hash = owners hash
  meant (withdraw key) o owners hash =
      if b.same_text (b.sha256_hex key) hash then none else owners hash
  meant (withdraw_all user) o owners hash = elim (owners hash) [
    | none ↦ none
    | some u ↦ if u == user then none else some u
  ]

  -- An operation that fails means nothing.
  abbrev pub meant_by : Operation → Result (Option Text) → Owners → Owners
  meant_by op (ok o) owners = meant op o owners
  meant_by op (err e) owners = owners

  -- Operations one after another, as the service does them and as the map sees them.
  abbrev pub perform_all : List Operation → Service → Service
  perform_all [] s = s
  perform_all (op ∷ ops) s = perform_all ops (perform op s).1

  abbrev pub meant_by_all : List Operation → Service → Owners → Owners
  meant_by_all [] s owners = owners
  meant_by_all (op ∷ ops) s owners =
      meant_by_all ops (perform op s).1 (meant_by op (perform op s).0 owners)

  module _ (same : IsCollation b) where
    store_license_lem :
        (user : ℕ) (key hash : Text) (s : Service)
        → owners_of (store_license b user (b.sha256_hex key) s).1 hash
          ≡ elim (store_license b user (b.sha256_hex key) s).0 [
            | ok done ↦ if b.same_text (b.sha256_hex key) hash then some user else owners_of s hash
            | err e ↦ owners_of s hash
          ]
    unfolding store_license insert_license verdict
    store_license_lem user key hash s =
        elim (Option-cases (find_license b (b.sha256_hex key) s.db.licenses)) [
          | inl new ↦ ground (
            arith,
            new,
            insert_license_lem b same user key hash s.db.licenses
                (record {
                  id = suc s.db.last_license;
                  user_id = user;
                  key_hash = b.sha256_hex key;
                  revoked_at = none;
                })
                refl refl new,
          )
          | inr (r, taken) ↦ ground (arith, taken)
        ]

    fresh_key-Fixes : Fixes (λ (s : Service). s.db) fresh_key
    unfolding fresh_key fresh_group
    fresh_key-Fixes = record { at = λ s. ground arith }

    issue_lem :
        (user : ℕ) (hash : Text) (s : Service)
        → owners_of (perform (issue user) s).1 hash
          ≡ meant_by (issue user) (perform (issue user) s).0 (owners_of s) hash
    unfolding generate
    issue_lem user hash s = elim (Result-cases (fresh_key s).0) [
      | inl (key, e) ↦
          ground (arith, e, fresh_key-Fixes.at s, store_license_lem user key hash (fresh_key s).1)
      | inr (x, e) ↦ ground (arith, e, fresh_key-Fixes.at s)
    ]

    withdraw_lem :
        (key hash : Text) (s : Service)
        → owners_of (perform (withdraw key) s).1 hash
          ≡ meant_by (withdraw key) (perform (withdraw key) s).0 (owners_of s) hash
    unfolding revoke
    withdraw_lem key hash s = elim (Bool-cases (b.same_text (b.sha256_hex key) hash)) [
      | inl alike ↦ ground (
        arith,
        alike,
        revoke_key_alike b same (b.sha256_hex key) hash (s.now / nanos) s.db.licenses alike,
      )
      | inr apart ↦ ground (
        arith,
        apart,
        revoke_key_other b same (b.sha256_hex key) hash (s.now / nanos) s.db.licenses apart,
      )
    ]

    withdraw_all_lem :
        (user : ℕ) (hash : Text) (s : Service)
        → owners_of (perform (withdraw_all user) s).1 hash
          ≡ meant_by (withdraw_all user) (perform (withdraw_all user) s).0 (owners_of s) hash
    unfolding revoke_all_for_user
    withdraw_all_lem user hash s =
        ground (arith, verdict-revoke_user b user (s.now / nanos) hash s.db.licenses)

    -- One operation does what it means, for every key.
    perform_lem :
        (op : Operation) (hash : Text) (s : Service)
        → owners_of (perform op s).1 hash ≡ meant_by op (perform op s).0 (owners_of s) hash
    perform_lem (issue user) hash s = issue_lem user hash s
    perform_lem (withdraw key) hash s = withdraw_lem key hash s
    perform_lem (withdraw_all user) hash s = withdraw_all_lem user hash s

    meant_by-ext :
        (op : Operation) (r : Result (Option Text)) (f g : Owners) (hash : Text)
        → ((t : Text) → f t ≡ g t)
        → meant_by op r f hash ≡ meant_by op r g hash
    meant_by-ext (issue user) (ok none) f g hash eq = eq hash
    meant_by-ext (issue user) (ok (some key)) f g hash eq = ground (arith, eq hash)
    meant_by-ext (withdraw key) (ok o) f g hash eq = ground (arith, eq hash)
    meant_by-ext (withdraw_all user) (ok o) f g hash eq = ground (arith, eq hash)
    meant_by-ext op (err e) f g hash eq = eq hash

    meant_by_all-ext :
        (ops : List Operation) (s : Service) (f g : Owners) (hash : Text)
        → ((t : Text) → f t ≡ g t)
        → meant_by_all ops s f hash ≡ meant_by_all ops s g hash
    meant_by_all-ext [] s f g hash eq = eq hash
    meant_by_all-ext (op ∷ ops) s f g hash eq =
        meant_by_all-ext ops (perform op s).1 (meant_by op (perform op s).0 f)
          (meant_by op (perform op s).0 g) hash (λ t. meant_by-ext op (perform op s).0 f g t eq)

    owners_of-perform_all :
        (ops : List Operation) (s : Service) (hash : Text)
        → owners_of (perform_all ops s) hash ≡ meant_by_all ops s (owners_of s) hash
    owners_of-perform_all [] s hash = refl
    owners_of-perform_all (op ∷ ops) s hash =
        owners_of-perform_all ops (perform op s).1 hash
        ∙ meant_by_all-ext ops (perform op s).1 (owners_of (perform op s).1)
            (meant_by op (perform op s).0 (owners_of s)) hash (λ t. perform_lem op t s)

    -- After any sequence of keys issued, keys revoked and users' licenses revoked, some of which
    -- may fail, `Validate` answers from a plain map of hashes to users: a key issued adds its
    -- hash for its user, a key revoked removes its hash, the revocation of a user removes the
    -- user's hashes, and a failed operation changes nothing; if the database compares texts by a
    -- collation and its next call works.
    pub validate-perform_all :
        (ops : List Operation) (key : Text) (s : Service)
        → (perform_all ops s).outcomes ≡ []
        → (validate b key (perform_all ops s)).0
          ≡ ok (meant_by_all ops s (owners_of s) (b.sha256_hex key))
    unfolding validate next_outcome
    validate-perform_all ops key s quiet =
        ground (arith, quiet, owners_of-perform_all ops s (b.sha256_hex key))
