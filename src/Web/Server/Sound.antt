-- ===== src/Web/Server/Sound.antt =====
-- What is true of the users and licenses of the service, and how the statements keep it.
use nexguard.Prelude.{
  ℕ, ◌≤◌, ◌/◌, ◌⊎◌, inl, inr, suc, Bool-cases, Option-cases, ◌≡◌, ◌≢◌, sym, subst, Bool, true,
  false, List, [], ◌∷◌, ◌++◌, Option, none, some, arith, All, ◌==◌,
}
use nexguard.Prelude.Text.{Text, is_empty}
use nexguard.Exec.{Exec}
use nexguard.Exec.Fixes.{Fixes}
use nexguard.Exec.Preserves.{Preserves}
use nexguard.Web.World.{UserRow, LicenseRow, Tables, Service, Backend, exec, nanos}
use nexguard.Web.Users.{Consent, user_row, insert_user, find_email, store_user}
use nexguard.Web.Billing.OneLicense.{count_active}
use nexguard.Web.Handlers.Checkout.{set_customer, save_customer}
use nexguard.Web.Server.Frame.{accounts}

abbrev is_some : {A : Type 0} → Option A → Bool
is_some none = false
is_some (some a) = true

-- A consent has a time, no consent has none, and who consented gave a phone number.
abbrev pub ConsentIsRecorded : UserRow → Type 0
ConsentIsRecorded u =
    (is_some u.sms_service_consent_at ≡ u.sms_service_consent)
    × (is_some u.sms_marketing_consent_at ≡ u.sms_marketing_consent)
    × (u.sms_service_consent ≡ true → u.phone ≢ none)
    × (u.sms_marketing_consent ≡ true → u.phone ≢ none)

set_customer-Consent :
    (customer : Text) (id : ℕ) (us : List UserRow)
    → All ConsentIsRecorded us
    → All ConsentIsRecorded (set_customer customer id us)
unfolding set_customer
set_customer-Consent customer id [] h = tt
set_customer-Consent customer id (u ∷ us) h =
    ground (arith, set_customer-Consent customer id us h.1)

user_row-Consent :
    (id created_at : ℕ) (email phone hash : Text) (c : Consent) (now : ℕ)
    → (is_empty phone ≡ true → (c.sms_service ≡ false) × (c.sms_marketing ≡ false))
    → ConsentIsRecorded (user_row id created_at email phone hash c now)
unfolding user_row
user_row-Consent id created_at email phone hash c now agreed = ground arith

module _ (b : Backend) where
  -- No two users have the same email.
  abbrev pub EmailsDiffer : List UserRow → Type 0
  EmailsDiffer [] = Unit
  EmailsDiffer (u ∷ us) = All (λ x. b.same_text u.email x.email ≡ false) us × EmailsDiffer us

  abbrev pub IsSound : List UserRow × List LicenseRow → Type 0
  IsSound t =
      EmailsDiffer t.0 × All ConsentIsRecorded t.0 × ((user : ℕ) → count_active user t.1 ≤ 1)

  abbrev pub Sound : Service → Type 0
  Sound s = IsSound (accounts s)

  pub Fixes-Sound : {A : Type 0} (m : Exec Service A) → Fixes accounts m → Preserves Sound m
  Fixes-Sound m k = record { after = λ s sound. subst IsSound (sym (k.at s)) sound }

  All-snoc :
      (P : UserRow → Type 0) (us : List UserRow) (e : UserRow)
      → All P us
      → P e
      → All P (us ++ e ∷ [])
  All-snoc P [] e h p = (p, tt)
  All-snoc P (u ∷ us) e h p = (h.0, All-snoc P us e h.1 p)

  find_email-none :
      (email : Text) (us : List UserRow)
      → find_email b email us ≡ none
      → All (λ x. b.same_text x.email email ≡ false) us
  unfolding find_email
  find_email-none email [] h = tt
  find_email-none email (u ∷ us) h = ground (arith, find_email-none email us)

  EmailsDiffer-snoc :
      (us : List UserRow) (e : UserRow)
      → EmailsDiffer us
      → All (λ x. b.same_text x.email e.email ≡ false) us
      → EmailsDiffer (us ++ e ∷ [])
  EmailsDiffer-snoc [] e h k = (tt, tt)
  EmailsDiffer-snoc (u ∷ us) e h k = (All-snoc _ us e h.0 k.0, EmailsDiffer-snoc us e h.1 k.1)

  set_customer-All :
      (customer email : Text) (id : ℕ) (us : List UserRow)
      → All (λ x. b.same_text email x.email ≡ false) us
      → All (λ x. b.same_text email x.email ≡ false) (set_customer customer id us)
  unfolding set_customer
  set_customer-All customer email id [] h = tt
  set_customer-All customer email id (u ∷ us) h =
      ground (arith, set_customer-All customer email id us h.1)

  set_customer-EmailsDiffer :
      (customer : Text) (id : ℕ) (us : List UserRow)
      → EmailsDiffer us
      → EmailsDiffer (set_customer customer id us)
  unfolding set_customer
  set_customer-EmailsDiffer customer id [] h = tt
  set_customer-EmailsDiffer customer id (u ∷ us) h =
      let apart = set_customer-All customer u.email id us h.0 in
      let rest = set_customer-EmailsDiffer customer id us h.1 in
      elim (Bool-cases (u.id == id)) [ inl e ↦ rw e (apart, rest) | inr e ↦ rw e (apart, rest) ]

  exec_cases :
      (f : ℕ → Tables → Tables) (s : Service)
      → ((exec f s).1.db ≡ s.db) ⊎ ((exec f s).1.db ≡ f (s.now / nanos) s.db)
  exec_cases f s = ground arith

  abbrev SoundTables : Tables → Type 0
  SoundTables db = IsSound (db.users, db.licenses)

  exec-Sound :
      (f : ℕ → Tables → Tables)
      → ((now : ℕ) (db : Tables) → SoundTables db → SoundTables (f now db))
      → Preserves Sound (exec f)
  exec-Sound f keeps = record {
    after = λ s sound. elim (exec_cases f s) [
      | inl e ↦ subst SoundTables (sym e) sound
      | inr e ↦ subst SoundTables (sym e) (keeps (s.now / nanos) s.db sound)
    ];
  }

  -- A customer's id may be stored at any user.
  pub save_customer-Sound : (id : ℕ) (customer : Text) → Preserves Sound (save_customer id customer)
  unfolding save_customer
  save_customer-Sound id customer =
      exec-Sound (λ now db. record db { users = set_customer customer id db.users })
        (λ now db (differ, recorded, single). (
          set_customer-EmailsDiffer customer id db.users differ,
          set_customer-Consent customer id db.users recorded,
          single,
        ))

  -- A new user with an email of their own may be stored.
  insert_user-Sound :
      (u : UserRow) (db : Tables)
      → find_email b u.email db.users ≡ none
      → ConsentIsRecorded u
      → SoundTables db
      → SoundTables (insert_user u db)
  unfolding insert_user
  insert_user-Sound u db new recorded (differ, all_recorded, single) = (
    EmailsDiffer-snoc db.users u differ (find_email-none u.email db.users new),
    All-snoc ConsentIsRecorded db.users u all_recorded recorded,
    single,
  )

  abbrev row_now : Text → Text → Text → Consent → Service → UserRow
  row_now email phone hash c s =
      user_row (suc s.db.last_user) (s.now / nanos) email phone hash c (b.datetime s.now)

  store_user_cases :
      (email phone hash : Text) (c : Consent) (s : Service)
      → ((store_user b email phone hash c s).1.db ≡ s.db)
        ⊎ ((find_email b email s.db.users ≡ none)
            × ((store_user b email phone hash c s).1.db
                ≡ insert_user (row_now email phone hash c s) s.db))
  unfolding store_user
  store_user_cases email phone hash c s = elim (Option-cases (find_email b email s.db.users)) [
    | inl e ↦ ground (arith, e)
    | inr (u, e) ↦ ground (arith, e)
  ]

  -- A new account is stored soundly if a consent comes with a phone number.
  pub store_user-Sound :
      (email phone hash : Text) (c : Consent)
      → (is_empty phone ≡ true → (c.sms_service ≡ false) × (c.sms_marketing ≡ false))
      → Preserves Sound (store_user b email phone hash c)
  unfolding user_row
  store_user-Sound email phone hash c agreed = record {
    after = λ s sound. elim (store_user_cases email phone hash c s) [
      | inl e ↦ subst SoundTables (sym e) sound
      | inr (new, e) ↦ subst SoundTables (sym e) (
          insert_user-Sound (row_now email phone hash c s) s.db new
            (user_row-Consent (suc s.db.last_user) (s.now / nanos) email phone hash c
              (b.datetime s.now) agreed)
            sound)
    ];
  }
