-- ===== src/Web/Config.antt =====
-- internal/web/config/config.go: `Load`, over what `os.Getenv` answers, which is empty for a variable
-- that is not set.
pub mod Site
use nexguard.Prelude.{◌≡◌, ◌≢◌, ◌↔◌, sym, subst, arith, false, List, [], ◌∷◌, if◌then◌else◌}
use nexguard.Prelude.Text.{Text, codes, is_empty}
use nexguard.Exec.{errorf, Result, ok, err}

pub record Config : Type 0 where
  pub db_dsn : Text
  pub stripe_secret_key : Text
  pub stripe_webhook_secret : Text
  pub stripe_price_id : Text
  pub checkout_success_url : Text
  pub checkout_cancel_url : Text
  pub session_secret : Text
  pub port : Text

unfoldable port_or_default : Text → Text
port_or_default port = if is_empty port then codes "8100" else port

-- The variables that are asked for and empty.
unfoldable absent : List (Text × Text) → List Text
absent [] = []
absent ((name, value) ∷ vars) =
    let rest = absent vars in if is_empty value then name ∷ rest else rest

abbrev or_missing : List Text → Config → Result Config
or_missing [] c = ok c
or_missing (name ∷ names) c = err (errorf (codes "missing required environment variables"))

unfoldable pub missing : Config → List Text
unfolding absent
missing c = absent (
    (codes "DB_DSN", c.db_dsn)
    ∷ (codes "STRIPE_SECRET_KEY", c.stripe_secret_key)
    ∷ (codes "STRIPE_WEBHOOK_SECRET", c.stripe_webhook_secret)
    ∷ (codes "STRIPE_PRICE_ID", c.stripe_price_id)
    ∷ (codes "CHECKOUT_SUCCESS_URL", c.checkout_success_url)
    ∷ (codes "CHECKOUT_CANCEL_URL", c.checkout_cancel_url)
    ∷ (codes "SESSION_SECRET", c.session_secret)
    ∷ [])

module _ (getenv : Text → Text) where
  unfoldable pub read : Config
  unfolding port_or_default
  read = record {
    db_dsn = getenv (codes "DB_DSN");
    stripe_secret_key = getenv (codes "STRIPE_SECRET_KEY");
    stripe_webhook_secret = getenv (codes "STRIPE_WEBHOOK_SECRET");
    stripe_price_id = getenv (codes "STRIPE_PRICE_ID");
    checkout_success_url = getenv (codes "CHECKOUT_SUCCESS_URL");
    checkout_cancel_url = getenv (codes "CHECKOUT_CANCEL_URL");
    session_secret = getenv (codes "SESSION_SECRET");
    port = port_or_default (getenv (codes "PORT"));
  }

  unfoldable pub load : Result Config
  unfolding missing
  load = or_missing (missing read) read

-- The variables that have no default are set.
abbrev pub IsComplete : Config → Type 0
IsComplete c =
    (c.db_dsn ≢ [])
    × (c.stripe_secret_key ≢ [])
    × (c.stripe_webhook_secret ≢ [])
    × (c.stripe_price_id ≢ [])
    × (c.checkout_success_url ≢ [])
    × (c.checkout_cancel_url ≢ [])
    × (c.session_secret ≢ [])

is_empty_iff : (t : Text) → (is_empty t ≡ false) ↔ (t ≢ [])
is_empty_iff [] = ground arith
is_empty_iff (c ∷ t) = ground arith

missing_iff : (c : Config) → (missing c ≡ []) ↔ IsComplete c
unfolding missing absent
missing_iff c = ground (
  arith,
  is_empty_iff c.db_dsn,
  is_empty_iff c.stripe_secret_key,
  is_empty_iff c.stripe_webhook_secret,
  is_empty_iff c.stripe_price_id,
  is_empty_iff c.checkout_success_url,
  is_empty_iff c.checkout_cancel_url,
  is_empty_iff c.session_secret,
)

or_missing_iff :
    (names : List Text) (d c : Config) → (or_missing names d ≡ ok c) ↔ ((c ≡ d) × (names ≡ []))
or_missing_iff [] d c = ground arith
or_missing_iff (name ∷ names) d c = ground arith

-- The service starts if each variable without a default is set, with what they hold and with a port,
-- and with any of them missing it does not.
load_iff :
    (getenv : Text → Text) (c : Config) → (load getenv ≡ ok c) ↔ ((c ≡ read getenv) × IsComplete c)
unfolding load
load_iff getenv c = (
  λ e.
      let (same, full) = (or_missing_iff (missing (read getenv)) (read getenv) c).0 e in
      (same, subst IsComplete (sym same) ((missing_iff (read getenv)).0 full)),
  λ (same, complete).
      (or_missing_iff (missing (read getenv)) (read getenv) c).1
        (same, (missing_iff (read getenv)).1 (subst IsComplete same complete)),
)
