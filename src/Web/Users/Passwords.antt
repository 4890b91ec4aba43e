-- ===== src/Web/Users/Passwords.antt =====
-- Accounts of internal/web/auth/users.go and the passwords that open them.
use nexguard.Prelude.{
  ℕ, suc, ◌≡◌, ◌/◌, refl, true, List, [], ◌∷◌, ◌++◌, none, some, arith, inl, inr, Option-cases,
}
use nexguard.Prelude.Text.{Text}
use nexguard.Exec.{ok, Result-cases}
use nexguard.World.{next_outcome}
use nexguard.Web.World.{UserRow, Service, Backend, IsCollation, bytes_from, nanos}
use nexguard.Web.Users.Defs.{
  User, Consent, find_email, user_row, insert_user, store_user, or_error, hash_password,
  create_user_with_consent, verify_password,
}

-- `bcrypt`: a hash that was made of a password matches it.
pub record BcryptLaws (b : Backend) : Type 0 where
  pub matches_own :
      (salt : List ℕ) (password hash : Text)
      → b.bcrypt_generate salt password ≡ some hash
      → b.bcrypt_matches hash password ≡ true

module _ (b : Backend) where
  pub find_email-snoc :
      (email : Text) (rows : List UserRow) (u : UserRow)
      → find_email b email rows ≡ none
      → b.same_text u.email email ≡ true
      → find_email b email (rows ++ u ∷ []) ≡ some u
  unfolding find_email
  find_email-snoc email [] u new same = ground arith
  find_email-snoc email (x ∷ rows) u new same = ground (arith, find_email-snoc email rows u)

  module _ (same : IsCollation b) where
    store_user-finds :
        (email phone hash : Text) (c : Consent) (s : Service)
        → (store_user b email phone hash c s).0 ≡ ok tt
        → let s' = (store_user b email phone hash c s).1 in
          (find_email b email s'.db.users
            ≡ some (
                user_row
                  (suc s.db.last_user)
                  (s.now / nanos)
                  email
                  phone
                  hash
                  c
                  (b.datetime s.now)))
          × (s'.db.last_user ≡ suc s.db.last_user)
    unfolding store_user insert_user
    store_user-finds email phone hash c s h = ground (
      arith,
      find_email-snoc email s.db.users
          (user_row (suc s.db.last_user) (s.now / nanos) email phone hash c (b.datetime s.now)),
      same.of_key email email refl,
    )

    hash_password-matches :
        (laws : BcryptLaws b) (password hash : Text) (s : Service)
        → (hash_password b password s).0 ≡ ok hash
        → (b.bcrypt_matches hash password ≡ true)
          × ((hash_password b password s).1.db ≡ s.db)
          × ((hash_password b password s).1.now ≡ s.now)
    unfolding hash_password or_error
    hash_password-matches laws password hash s h = ground (
      arith,
      laws.matches_own (bytes_from s.entropy s.drawn 16) password hash,
      Option-cases (b.bcrypt_generate (bytes_from s.entropy s.drawn 16) password),
    )

    created :
        (email phone password : Text) (c : Consent) (u : User) (s : Service)
        → (laws : BcryptLaws b) → (create_user_with_consent b email phone password c s).0 ≡ ok u
        → let s' = (create_user_with_consent b email phone password c s).1 in
          (find_email b email s'.db.users
            ≡ some (user_row u.id (s.now / nanos) email phone u.password_hash c (b.datetime s.now)))
          × (u.id ≡ suc s.db.last_user)
          × (b.bcrypt_matches u.password_hash password ≡ true)
    unfolding create_user_with_consent
    created email phone password c u s laws h = elim (Result-cases (hash_password b password s).0) [
      | inl (hash, e) ↦ ground (
        arith,
        e,
        hash_password-matches laws password hash s e,
        store_user-finds email phone hash c (hash_password b password s).1,
      )
      | inr (x, e) ↦ ground (arith, e)
    ]

    -- Whoever creates an account can log in with its email and password, as the user with the id
    -- that was given out, if bcrypt accepts the hashes that it makes, the database compares texts
    -- by a collation and its next call works.
    pub verify_password-create_user_with_consent :
        (laws : BcryptLaws b) (email phone password : Text) (c : Consent) (u : User) (s : Service)
        → (create_user_with_consent b email phone password c s).0 ≡ ok u
        → (create_user_with_consent b email phone password c s).1.outcomes ≡ []
        → (verify_password b email password
            (create_user_with_consent b email phone password c s).1).0
          ≡ ok (record {
            id = u.id;
            email = email;
            phone = [];
            password_hash = u.password_hash;
            created_at = s.now / nanos;
          })
    unfolding verify_password next_outcome user_row
    verify_password-create_user_with_consent laws email phone password c u s made quiet =
        ground (arith, created email phone password c u s laws made)
