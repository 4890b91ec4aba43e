-- ===== src/Web/Sessions/Lifetime.antt =====
-- How long a session of internal/web/auth/sessions.go is valid.
use nexguard.Prelude.{
  ℕ, ◌+◌, ◌*◌, ◌≡◌, refl, true, List, [], ◌∷◌, ◌++◌, none, some, arith, if◌then◌else◌, ltb,
}
use nexguard.Prelude.Text.{Text}
use nexguard.Exec.{ok, err}
use nexguard.World.{next_outcome, later_outcomes}
use nexguard.Web.World.{
  UserRow, SessionRow, Service, Backend, IsCollation, nanos, bytes_from, hex_encode,
}
use nexguard.Web.Users.{invalid_credentials, user_of}
use nexguard.Web.Sessions.Defs.{
  find_user, expiry, find_session, drop_session, store_session, create_session, validate_session,
  delete_session,
}

module _ (b : Backend) where
  find_session-snoc :
      (hash : Text) (rows : List SessionRow) (r : SessionRow)
      → find_session b hash rows ≡ none
      → b.same_text r.token_hash hash ≡ true
      → find_session b hash (rows ++ r ∷ []) ≡ some r
  unfolding find_session
  find_session-snoc hash [] r new same = ground arith
  find_session-snoc hash (x ∷ rows) r new same = ground (arith, find_session-snoc hash rows r)

  find_session-drop_session :
      (hash : Text) (rows : List SessionRow) → find_session b hash (drop_session b hash rows) ≡ none
  unfolding find_session drop_session
  find_session-drop_session hash [] = refl
  find_session-drop_session hash (x ∷ rows) = ground (arith, find_session-drop_session hash rows)

  store_session-finds :
      (r : SessionRow) (s : Service)
      → b.same_text r.token_hash r.token_hash ≡ true
      → (store_session b r s).0 ≡ ok tt
      → (find_session b r.token_hash (store_session b r s).1.db.sessions ≡ some r)
        × ((store_session b r s).1.db.users ≡ s.db.users)
  unfolding store_session
  store_session-finds r s same h = ground (arith, find_session-snoc r.token_hash s.db.sessions r)

  module _ (same : IsCollation b) where
    created :
        (user ttl : ℕ) (token : Text) (s : Service)
        → (create_session b user ttl s).0 ≡ ok token
        → let s' = (create_session b user ttl s).1 in
          (find_session b (b.sha256_hex token) s'.db.sessions
            ≡ some (record {
              token_hash = b.sha256_hex token;
              user_id = user;
              expires_at = expiry s.now ttl;
            }))
          × (s'.db.users ≡ s.db.users)
    unfolding create_session
    created user ttl token s h = ground (
      arith,
      store_session-finds
          (record {
            token_hash = b.sha256_hex (hex_encode (bytes_from s.entropy s.drawn 32));
            user_id = user;
            expires_at = expiry s.now ttl;
          })
          (record s { drawn = s.drawn + 32; outcomes = later_outcomes s.outcomes })
          (same.of_key _ _ refl),
    )

    -- A session that was created for a stored user is theirs up to and including the full
    -- second in which it expires, and is refused at every time after, if the database compares
    -- texts by a collation and refuses no later call.
    pub validate_session-create_session :
        (user ttl now : ℕ) (token : Text) (u : UserRow) (s : Service)
        → (create_session b user ttl s).0 ≡ ok token
        → (create_session b user ttl s).1.outcomes ≡ []
        → find_user user s.db.users ≡ some u
        → (validate_session b token (record (create_session b user ttl s).1 { now = now })).0
          ≡ (if ltb (expiry s.now ttl * nanos) now then err invalid_credentials else ok (user_of u))
    unfolding validate_session next_outcome
    validate_session-create_session user ttl now token u s made quiet stored =
        ground (arith, created user ttl token s made)

  -- A session that was deleted is refused at every later time, if the database answers.
  pub validate_session-delete_session :
      (token : Text) (now : ℕ) (s : Service)
      → (delete_session b token s).0 ≡ ok tt
      → (delete_session b token s).1.outcomes ≡ []
      → (validate_session b token (record (delete_session b token s).1 { now = now })).0
        ≡ err invalid_credentials
  unfolding validate_session delete_session next_outcome
  validate_session-delete_session token now s done quiet =
      ground (arith, find_session-drop_session (b.sha256_hex token) s.db.sessions)
