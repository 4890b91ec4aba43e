-- ===== src/Web/World.antt =====
-- What the handlers of the service run in: its MySQL tables (database/avtool-web), the clock, the
-- random source and the failures that the database or the system will report.
use nexguard.Prelude.{
  ℕ, zero, suc, ◌+◌, ◌/◌, ◌%◌, ◌≡◌, Bool, true, List, [], ◌∷◌, Option, if◌then◌else◌, ltb,
}
use nexguard.Prelude.Text.{Text}
use nexguard.Exec.{refused, Exec, ok, pure, raise, ◌>>=◌, ◌>>◌}
use nexguard.World.{Outcome, works, fails, next_outcome, later_outcomes}

pub record UserRow : Type 0 where
  pub id : ℕ
  pub email : Text
  pub phone : Option Text
  pub password_hash : Text
  pub stripe_customer_id : Option Text
  pub created_at : ℕ
  pub sms_service_consent : Bool
  pub sms_service_consent_at : Option ℕ
  pub sms_marketing_consent : Bool
  pub sms_marketing_consent_at : Option ℕ
  pub consent_ip : Option Text
  pub consent_user_agent : Option Text

-- DATETIME columns hold seconds.
pub record SessionRow : Type 0 where
  pub token_hash : Text
  pub user_id : ℕ
  pub expires_at : ℕ

pub record SubscriptionRow : Type 0 where
  pub id : ℕ
  pub user_id : ℕ
  pub stripe_customer_id : Text
  pub stripe_subscription_id : Text
  pub tier : Text
  pub status : Text
  pub current_period_end : ℕ

pub record LicenseRow : Type 0 where
  pub id : ℕ
  pub user_id : ℕ
  pub key_hash : Text
  pub revoked_at : Option ℕ

pub record Tables : Type 0 where
  pub users : List UserRow
  pub last_user : ℕ
  pub sessions : List SessionRow
  pub subscriptions : List SubscriptionRow
  pub last_subscription : ℕ
  pub licenses : List LicenseRow
  pub last_license : ℕ

abbrev pub empty_tables : Tables
empty_tables = record {
  users = [];
  last_user = 0;
  sessions = [];
  subscriptions = [];
  last_subscription = 0;
  licenses = [];
  last_license = 0;
}

pub record Service : Type 0 where
  pub db : Tables
  -- nanoseconds since the epoch
  pub now : ℕ
  -- the bytes of `crypto/rand`, and how many have been read
  pub entropy : ℕ → ℕ
  pub drawn : ℕ
  pub outcomes : List Outcome

-- What the service takes from libraries and from the database's text columns.
pub record Backend : Type 0 where
  -- `=` on a text column of the tables, by their collation
  pub same_text : Text → Text → Bool
  -- SHA-256 in hexadecimal
  pub sha256_hex : Text → Text
  -- what a DATETIME column keeps of a time in nanoseconds
  pub datetime : ℕ → ℕ
  -- `bcrypt.GenerateFromPassword`, with its salt, and `bcrypt.CompareHashAndPassword`
  pub bcrypt_generate : List ℕ → Text → Option Text
  pub bcrypt_matches : Text → Text → Bool

-- A collation compares by some key that it makes of a text.
pub record IsCollation (b : Backend) : Type 0 where
  pub key : Text → Text
  pub by_key : (s t : Text) → b.same_text s t ≡ true → key s ≡ key t
  pub of_key : (s t : Text) → key s ≡ key t → b.same_text s t ≡ true

abbrev pub nanos : ℕ
nanos = 1000000000

abbrev outcome : Exec Service Outcome
outcome s = (ok (next_outcome s.outcomes), record s { outcomes = later_outcomes s.outcomes })

abbrev refuse_if : Outcome → Exec Service Unit
refuse_if works = pure tt
refuse_if (fails n) = raise refused

-- One call that may be refused without an effect.
abbrev pub call : Exec Service Unit
call = do o ← outcome; refuse_if o

-- `db.Query`, `db.QueryRow`
abbrev pub query : {A : Type 0} → (Tables → A) → Exec Service A
query f = do call; λ s. (ok (f s.db), s)

-- `db.Exec`, which changes the tables or fails and changes nothing; the database's clock is at hand.
abbrev pub exec : (ℕ → Tables → Tables) → Exec Service Unit
exec f = do call; λ s. (ok tt, record s { db = f (s.now / nanos) s.db })

unfoldable pub bytes_from : (ℕ → ℕ) → ℕ → ℕ → List ℕ
bytes_from entropy i zero = []
bytes_from entropy i (suc n) = (entropy i % 256) ∷ bytes_from entropy (suc i) n

-- `rand.Read` into `n` bytes
abbrev pub rand_read : ℕ → Exec Service (List ℕ)
rand_read n = do call; λ s. (ok (bytes_from s.entropy s.drawn n), record s { drawn = s.drawn + n })

-- `encoding/hex`
abbrev pub hex_digit : ℕ → ℕ
hex_digit d = if ltb d 10 then d + 48 else d + 87

unfoldable pub hex_encode : List ℕ → Text
hex_encode [] = []
hex_encode (b ∷ bs) = hex_digit (b / 16) ∷ hex_digit (b % 16) ∷ hex_encode bs
