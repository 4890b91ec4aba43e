-- ===== src/Web/Users/Defs.antt =====
-- internal/web/auth/users.go: `CreateUser`, `CreateUserWithConsent` and `VerifyPassword`.
use nexguard.Prelude.{
  ℕ, suc, ◌+◌, Bool, true, false, List, [], ◌∷◌, ◌++◌, Option, none, some, if◌then◌else◌,
}
use nexguard.Prelude.Text.{Text, codes, is_empty}
use nexguard.Exec.{Error, errorf, refused, Exec, ok, pure, raise, gets, wrapping, ◌>>=◌, ◌>>◌}
use nexguard.Web.World.{UserRow, Tables, Service, Backend, call, query, exec, bytes_from}

-- `ErrInvalidCredentials`
abbrev pub invalid_credentials : Error
invalid_credentials = errorf (codes "invalid credentials")

pub record User : Type 0 where
  pub id : ℕ
  pub email : Text
  pub phone : Text
  pub password_hash : Text
  pub created_at : ℕ

-- The columns that `ValidateSession` selects.
unfoldable pub user_of : UserRow → User
user_of u = record {
  id = u.id;
  email = u.email;
  phone = [];
  password_hash = u.password_hash;
  created_at = u.created_at;
}

pub record Consent : Type 0 where
  pub sms_service : Bool
  pub sms_marketing : Bool
  pub ip : Text
  pub user_agent : Text

abbrev pub no_consent : Consent
no_consent = record { sms_service = false; sms_marketing = false; ip = []; user_agent = [] }

-- `any` that stays nil for an empty text
unfoldable pub or_null : Text → Option Text
or_null t = if is_empty t then none else some t

-- The time of a consent, if its box was ticked.
unfoldable pub consent_at : Bool → ℕ → Option ℕ
consent_at ticked now = if ticked then some now else none

-- The row of a new account: the id, the default of `created_at`, and the columns given.
unfoldable pub user_row : ℕ → ℕ → Text → Text → Text → Consent → ℕ → UserRow
unfolding or_null consent_at
user_row id created_at email phone hash c now = record {
  id = id;
  email = email;
  phone = or_null phone;
  password_hash = hash;
  stripe_customer_id = none;
  created_at = created_at;
  sms_service_consent = c.sms_service;
  sms_service_consent_at = consent_at c.sms_service now;
  sms_marketing_consent = c.sms_marketing;
  sms_marketing_consent_at = consent_at c.sms_marketing now;
  consent_ip = or_null c.ip;
  consent_user_agent = or_null c.user_agent;
}

-- `INSERT INTO users ...`
unfoldable pub insert_user : UserRow → Tables → Tables
insert_user u db = record db { users = db.users ++ u ∷ []; last_user = suc db.last_user }

unfoldable pub is_taken : Option UserRow → Bool
is_taken none = false
is_taken (some u) = true

-- An INSERT with a key that is taken is refused.
unfoldable pub insert_unless : Bool → (ℕ → Tables → Tables) → Exec Service Unit
insert_unless true f = do call; raise refused
insert_unless false f = exec f

unfoldable pub or_error : Option Text → Exec Service Text
or_error none = raise refused
or_error (some t) = pure t

module _ (b : Backend) where
  -- `... WHERE email = ?`
  unfoldable pub find_email : Text → List UserRow → Option UserRow
  find_email email [] = none
  find_email email (u ∷ us) = if b.same_text u.email email then some u else find_email email us

  -- `bcrypt.GenerateFromPassword` with 16 fresh bytes of salt
  unfoldable pub hash_password : Text → Exec Service Text
  unfolding or_error
  hash_password password = do
    call
    hash ← λ s. (
      ok (b.bcrypt_generate (bytes_from s.entropy s.drawn 16) password),
      record s { drawn = s.drawn + 16 },
    )
    or_error hash

  -- The column `email` is UNIQUE.
  unfoldable pub store_user : Text → Text → Text → Consent → Exec Service Unit
  unfolding is_taken insert_unless insert_user user_row
  store_user email phone hash c = do
    now ← gets (λ s. s.now)
    taken ← gets (λ s. is_taken (find_email email s.db.users))
    insert_unless taken (λ created_at db.
        insert_user (user_row (suc db.last_user) created_at email phone hash c (b.datetime now)) db)

  unfoldable pub create_user_with_consent : Text → Text → Text → Consent → Exec Service User
  unfolding hash_password store_user
  create_user_with_consent email phone password c = do
    hash ← wrapping (codes "hashing password") (hash_password password)
    wrapping (codes "creating user") (store_user email phone hash c)
    id ← wrapping (codes "reading new user id") (do call; gets (λ s. s.db.last_user))
    pure (record { id = id; email = email; phone = phone; password_hash = hash; created_at = 0 })

  unfoldable pub create_user : Text → Text → Exec Service User
  create_user email password = create_user_with_consent email [] password no_consent

  -- The comparison with a fixed hash for an unknown email takes time and is not looked at.
  unfoldable pub checked_password : Text → Option UserRow → Exec Service User
  unfolding user_of
  checked_password password none = raise invalid_credentials
  checked_password password (some u) =
      if b.bcrypt_matches u.password_hash password
      then pure (user_of u)
      else raise invalid_credentials

  unfoldable pub verify_password : Text → Text → Exec Service User
  unfolding checked_password
  verify_password email password = do
    row ← wrapping (codes "looking up user") (query (λ db. find_email email db.users))
    checked_password password row
