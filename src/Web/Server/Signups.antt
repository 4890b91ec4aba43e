-- ===== src/Web/Server/Signups.antt =====
-- What a sign-up stores: internal/web/handlers/signup.go and consent.go over
-- internal/web/auth/users.go.
use nexguard.Prelude.{
  ℕ, suc, ◌≡◌, ◌/◌, refl, ap, ◌∙◌, sym, inl, inr, List, [], ◌∷◌, ◌++◌, Option, arith,
}
use nexguard.Prelude.Text.{Text, codes}
use nexguard.Exec.{Exec, Result, ok, err, Result-cases}
use nexguard.Web.World.{UserRow, Service, Backend, nanos}
use nexguard.Web.Users.{
  User, Consent, or_null, or_error, user_row, insert_user, hash_password, store_user,
  create_user_with_consent,
}
use nexguard.Web.Sessions.{create_session, store_session}
use nexguard.Web.Request.Phone.{normalize_phone}
use nexguard.Web.Request.ConsentIp.{consent_ip_lem}
use nexguard.Web.Http.{Request, Response, Method, get, post, other, set, if_get, page_anyway, plain}
use nexguard.Web.Request.ClientIp.{client_ip}
use nexguard.Web.Handlers.Account.{consent_of, start_session, signed_up, sign_up, signup_page}
use nexguard.Web.Server.Defs.{Env, Server, signup, handle, serve, ip_of}

module _ (b : Backend) where
  hash_password-Fixes :
      (password : Text) (s : Service)
      → ((hash_password b password s).1.db ≡ s.db) × ((hash_password b password s).1.now ≡ s.now)
  unfolding hash_password or_error
  hash_password-Fixes password s = ground arith

  store_user-appends :
      (email phone hash : Text) (c : Consent) (s : Service)
      → (store_user b email phone hash c s).0 ≡ ok tt
      → (store_user b email phone hash c s).1.db.users
        ≡ s.db.users
          ++ user_row (suc s.db.last_user) (s.now / nanos) email phone hash c (b.datetime s.now)
            ∷ []
  unfolding store_user insert_user
  store_user-appends email phone hash c s h = ground arith

  -- An account that was made is one row behind those that were there.
  create_user_with_consent-appends :
      (email phone password : Text) (c : Consent) (s : Service) (u : User)
      → (create_user_with_consent b email phone password c s).0 ≡ ok u
      → (hash : Text) × ((create_user_with_consent b email phone password c s).1.db.users
          ≡ s.db.users
            ++ user_row (suc s.db.last_user) (s.now / nanos) email phone hash c (b.datetime s.now)
              ∷ [])
  unfolding create_user_with_consent
  create_user_with_consent-appends email phone password c s u h =
      elim (Result-cases (hash_password b password s).0) [
        | inl (hash, e) ↦ (
          hash,
          ground (
            arith,
            e,
            hash_password-Fixes password s,
            store_user-appends email phone hash c (hash_password b password s).1,
          ),
        )
        | inr (x, e) ↦ absurd (ground (arith, e))
      ]

  signed_up-users : (o : Result User) (s : Service) → (signed_up b o s).1.db.users ≡ s.db.users
  unfolding signed_up start_session create_session store_session
  signed_up-users (ok u) s = ground arith
  signed_up-users (err e) s = ground arith

  -- A cookie that was set comes of an account that was made.
  signed_up_made :
      (o : Result User) (s : Service) (answer : Response) (token : Text) (expires : ℕ)
      → (signed_up b o s).0 ≡ ok answer
      → answer.cookie ≡ set token expires
      → (u : User) × (o ≡ ok u)
  unfolding signed_up
  signed_up_made (ok u) s answer token expires done cookie = (u, refl)
  signed_up_made (err e) s answer token expires done cookie = absurd (ground arith)

  -- The row of the account that a sign-up makes.
  abbrev Stores : (Text → Option Text) → Request → List UserRow → List UserRow → Type 0
  Stores split_host_port r before after =
      (row : UserRow) × (after ≡ before ++ row ∷ [])
      × (row.email ≡ r.form (codes "email"))
      × (row.consent_ip ≡ or_null (client_ip split_host_port r.origin))
      × (row.consent_user_agent ≡ or_null r.user_agent)

  sign_up-Stores :
      (split_host_port : Text → Option Text) (r : Request) (s : Service) (answer : Response)
      (token : Text) (expires : ℕ)
      → (sign_up b split_host_port r s).0 ≡ ok answer
      → answer.cookie ≡ set token expires
      → Stores split_host_port r s.db.users (sign_up b split_host_port r s).1.db.users
  unfolding sign_up user_row consent_of
  sign_up-Stores split_host_port r s answer token expires done cookie =
      let phone = normalize_phone (r.form (codes "phone")) in
      let c = consent_of split_host_port r phone in
      let email = r.form (codes "email") in
      let password = r.form (codes "password") in
      let made = create_user_with_consent b email phone password c s in
      let (u, e) = signed_up_made made.0 made.1 answer token expires done cookie in
      let (hash, rows) = create_user_with_consent-appends email phone password c s u e in
      (
        user_row (suc s.db.last_user) (s.now / nanos) email phone hash c (b.datetime s.now),
        signed_up-users made.0 made.1 ∙ rows,
        refl,
        ap or_null (consent_ip_lem split_host_port r.origin),
        refl,
      )

-- A page that was asked for sets no cookie, so a request that got one has sent the form.
submitted :
    (m : Method) (submit : Exec Service Response) (s : Service) (answer : Response) (token : Text)
    (expires : ℕ)
    → (if_get m (page_anyway (codes "signup.html") plain) submit s).0 ≡ ok answer
    → answer.cookie ≡ set token expires
    → if_get m (page_anyway (codes "signup.html") plain) submit s ≡ submit s
unfolding if_get
submitted get submit s answer token expires done cookie = absurd (ground (arith, done, cookie))
submitted post submit s answer token expires done cookie = refl
submitted other submit s answer token expires done cookie = refl

module _ (env : Env) where
  -- A request to the sign-up form whose answer sets a cookie has stored one account, behind those
  -- that were there: with the email of the form, with the address by which the limiters count the
  -- requests of its sender as that of the consent, and with the request's user agent; an empty
  -- address or user agent is stored as NULL.
  pub serve-signup :
      (r : Request) (s : Server) (answer : Response) (token : Text) (expires : ℕ)
      → (serve env signup r s).0 ≡ ok answer
      → answer.cookie ≡ set token expires
      → (row : UserRow) × ((serve env signup r s).1.service.db.users
          ≡ s.service.db.users ++ row ∷ [])
        × (row.email ≡ r.form (codes "email"))
        × (row.consent_ip ≡ or_null (ip_of env r))
        × (row.consent_user_agent ≡ or_null r.user_agent)
  unfolding serve handle signup_page
  serve-signup r s answer token expires done cookie =
      let b = env.backend in
      let same =
        submitted r.method (sign_up b env.split_host_port r) s.service answer token expires done
          cookie in
      let (row, users, email, ip, agent) =
        sign_up-Stores b env.split_host_port r s.service answer token expires
          (ap (λ (t : Result Response × Service). t.0) (sym same) ∙ done) cookie in
      (row, ap (λ (t : Result Response × Service). t.1.db.users) same ∙ users, email, ip, agent)
