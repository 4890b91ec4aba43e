-- ===== src/Web/Server/Logins.antt =====
-- Logging in and out: internal/web/handlers over internal/web/auth.
use nexguard.Prelude.{
  ℕ, ◌*◌, ◌≡◌, ◌≢◌, ap, ◌∙◌, sym, refl, inl, inr, [], none, some, arith, if◌then◌else◌, ltb,
}
use nexguard.Prelude.Text.{Text, codes}
use nexguard.Exec.{Error, Result, ok, err, Result-cases}
use nexguard.World.{next_outcome, later_outcomes}
use nexguard.Web.World.{UserRow, Tables, Service, Backend, IsCollation, nanos}
use nexguard.Web.Users.{User, user_of, verify_password}
use nexguard.Web.Sessions.{create_session, validate_session, delete_session, find_user, expiry}
use nexguard.Web.Sessions.Lifetime.{
  validate_session-create_session, validate_session-delete_session,
}
use nexguard.Web.Http.{Request, Response, set, with_error, template, respond}
use nexguard.Web.Middleware.{with_user, require_cookie, require_auth}
use nexguard.Web.Handlers.Account.{
  session_ttl, start_session, logged_in, log_in, end_session, logout_handler,
}
use nexguard.Web.Server.Defs.{Env, logout, handle}
use nexguard.Web.Server.Guards.{session_user}

module _ (b : Backend) where
  -- A login whose email is unknown, whose password is wrong, or for which the database does not
  -- answer, gets one and the same page, without a cookie: the answer does not tell which it was.
  log_in_refused :
      (r : Request) (s : Service) (e : Error)
      → (verify_password b (r.form (codes "email")) (r.form (codes "password")) s).0 ≡ err e
      → (log_in b r s).0
        ≡ ok (
            respond 200
              (template (codes "login.html") (with_error (codes "Invalid email or password."))))
  unfolding log_in logged_in
  log_in_refused r s e refused = ground (arith, refused)

  -- A cookie that was set holds the token of a session that was created.
  logged_in_session :
      (o : Result User) (s : Service) (answer : Response) (token : Text) (expires : ℕ)
      → (logged_in b o s).0 ≡ ok answer
      → answer.cookie ≡ set token expires
      → (u : User) × (o ≡ ok u)
        × ((create_session b u.id session_ttl s).0 ≡ ok token)
        × ((logged_in b o s).1 ≡ (create_session b u.id session_ttl s).1)
  unfolding logged_in start_session
  logged_in_session (err e) s answer token expires done cookie = absurd (ground arith)
  logged_in_session (ok u) s answer token expires done cookie =
      elim (Result-cases (create_session b u.id session_ttl s).0) [
        | inl (t, e) ↦ (u, refl, ground (arith, e), ground (arith, e))
        | inr (x, e) ↦ absurd (ground (arith, e))
      ]

  session_of :
      (r : Request) (token : Text) (s : Service) {o : Result User}
      → r.cookie ≡ some token
      → (validate_session b token s).0 ≡ o
      → session_user b r s ≡ elim o [ ok u ↦ some u | err e ↦ none ]
  session_of r token s given valid = ground (arith, given, valid)

  verify_password-Fixes :
      (email password : Text) (s : Service)
      → ((verify_password b email password s).1.db ≡ s.db)
        × ((verify_password b email password s).1.now ≡ s.now)
  unfolding verify_password
  verify_password-Fixes email password s = ground arith

  -- A login that sets a cookie has verified the password of a user, and if that user is stored
  -- under their id, the database compares texts by a collation and refuses no later call, the
  -- cookie names a session of that user until the clock has passed its expiry, and no session
  -- after. The expiry is thirty days after the login, cut down to the start of its second.
  pub session_user-log_in :
      (same : IsCollation b) (r asked : Request) (s : Service) (answer : Response) (token : Text)
      (expires now : ℕ)
      → (log_in b r s).0 ≡ ok answer
      → answer.cookie ≡ set token expires
      → (log_in b r s).1.outcomes ≡ []
      → asked.cookie ≡ some token
      → ((u : User)
          → (verify_password b (r.form (codes "email")) (r.form (codes "password")) s).0 ≡ ok u
          → (row : UserRow) × (find_user u.id s.db.users ≡ some row))
      → (u : User) × (row : UserRow) × ((verify_password b
            (r.form (codes "email"))
            (r.form (codes "password"))
            s).0
          ≡ ok u)
        × (find_user u.id s.db.users ≡ some row)
        × (session_user b asked (record (log_in b r s).1 { now = now })
            ≡ (if ltb (expiry s.now session_ttl * nanos) now then none else some (user_of row)))
  unfolding log_in
  session_user-log_in same r asked s answer token expires now done cookie quiet given stored =
      let verified = verify_password b (r.form (codes "email")) (r.form (codes "password")) s in
      let (u, e, made, state) =
        logged_in_session verified.0 verified.1 answer token expires done cookie in
      let (row, found) = stored u e in
      let (db, time) =
        verify_password-Fixes (r.form (codes "email")) (r.form (codes "password")) s in
      let valid =
        validate_session-create_session b same u.id session_ttl now token row verified.1 made
          (ap (λ (t : Service). t.outcomes) (sym state) ∙ quiet)
          (ap (λ (t : Tables). find_user u.id t.users) db ∙ found) in
      (
        u,
        row,
        e,
        found,
        session_of asked token _ given (
              ap (λ (t : Service). (validate_session b token (record t { now = now })).0) state
              ∙ valid)
            ∙ ground (arith, time),
      )

module _ (env : Env) where
  deleted :
      (r : Request) (token : Text) (s : Service) (u : User)
      → s.outcomes ≡ []
      → r.cookie ≡ some token
      → (validate_session env.backend token s).0 ≡ ok u
      → let s' = (validate_session env.backend token s).1 in
        ((handle env logout r s).1 ≡ (delete_session env.backend token s').1)
        × ((delete_session env.backend token s').0 ≡ ok tt)
        × ((delete_session env.backend token s').1.outcomes ≡ [])
  unfolding handle require_auth require_cookie with_user logout_handler end_session delete_session
      validate_session next_outcome later_outcomes
  deleted r token s u quiet cookie valid = ground arith

  -- After a logout with a session's cookie, for which the database refuses nothing, that cookie
  -- names no session at any time.
  pub session_user-logout :
      (r : Request) (token : Text) (s : Service) (now : ℕ)
      → s.outcomes ≡ []
      → r.cookie ≡ some token
      → session_user env.backend r s ≢ none
      → session_user env.backend r (record (handle env logout r s).1 { now = now }) ≡ none
  session_user-logout r token s now quiet cookie live =
      elim (Result-cases (validate_session env.backend token s).0) [
        | inl (u, e) ↦
            let (same, done, quiet') = deleted r token s u quiet cookie e in
            ground (
              arith,
              same,
              cookie,
              validate_session-delete_session env.backend token now
                  (validate_session env.backend token s).1 done quiet',
            )
        | inr (x, e) ↦ absurd (live (ground (arith, e, cookie)))
      ]
