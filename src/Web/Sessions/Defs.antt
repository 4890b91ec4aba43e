-- ===== src/Web/Sessions/Defs.antt =====
-- internal/web/auth/sessions.go: `CreateSession`, `ValidateSession` and `DeleteSession`.
use nexguard.Prelude.{
  ℕ, ◌+◌, ◌*◌, ◌/◌, Bool, true, false, List, [], ◌∷◌, ◌++◌, Option, none, some, if◌then◌else◌, ◌==◌,
  ltb,
}
use nexguard.Prelude.Text.{Text, codes}
use nexguard.Exec.{refused, Exec, pure, raise, gets, wrapping, ◌>>=◌, ◌>>◌}
use nexguard.Web.Users.{User, invalid_credentials, user_of}
use nexguard.Web.World.{
  UserRow, SessionRow, Tables, Service, Backend, call, query, exec, rand_read, hex_encode, nanos,
}

-- `users u ON u.id = s.user_id`
unfoldable pub find_user : ℕ → List UserRow → Option UserRow
find_user id [] = none
find_user id (u ∷ us) = if u.id == id then some u else find_user id us

-- A time in the format of a DATETIME column: the fraction of the second is lost.
unfoldable pub expiry : ℕ → ℕ → ℕ
expiry now ttl = (now + ttl) / nanos

unfoldable pub session_taken : Option SessionRow → Bool
session_taken none = false
session_taken (some r) = true

-- The session is over when the time is after its expiry.
unfoldable pub unexpired : ℕ → Option (UserRow × SessionRow) → Exec Service User
unfolding user_of
unexpired now none = raise invalid_credentials
unexpired now (some (u, r)) =
    if ltb (r.expires_at * nanos) now then raise invalid_credentials else pure (user_of u)

-- `INSERT INTO sessions ...`; a duplicate key is refused.
unfoldable pub insert_unless : Bool → SessionRow → Exec Service Unit
insert_unless true r = do call; raise refused
insert_unless false r = exec (λ now db. record db { sessions = db.sessions ++ r ∷ [] })

module _ (b : Backend) where
  -- `... WHERE token_hash = ?`
  unfoldable pub find_session : Text → List SessionRow → Option SessionRow
  find_session hash [] = none
  find_session hash (r ∷ rows) =
      if b.same_text r.token_hash hash then some r else find_session hash rows

  -- `DELETE FROM sessions WHERE token_hash = ?`
  unfoldable pub drop_session : Text → List SessionRow → List SessionRow
  drop_session hash [] = []
  drop_session hash (r ∷ rows) =
      let rest = drop_session hash rows in if b.same_text r.token_hash hash then rest else r ∷ rest

  -- `sessions s JOIN users u ON u.id = s.user_id WHERE s.token_hash = ?`
  unfoldable pub joined : Text → Tables → Option (UserRow × SessionRow)
  joined hash db = elim (find_session hash db.sessions) [
    | none ↦ none
    | some r ↦ elim (find_user r.user_id db.users) [ none ↦ none | some u ↦ some (u, r) ]
  ]

  -- The column `token_hash` is the key of the table.
  unfoldable pub store_session : SessionRow → Exec Service Unit
  unfolding session_taken insert_unless
  store_session r = do
    taken ← gets (λ s. session_taken (find_session r.token_hash s.db.sessions))
    insert_unless taken r

  -- `user_id`, and `ttl` in nanoseconds, which no caller makes negative.
  unfoldable pub create_session : ℕ → ℕ → Exec Service Text
  unfolding store_session expiry
  create_session user ttl = do
    raw ← wrapping (codes "generating session token") (rand_read 32)
    now ← gets (λ s. s.now)
    wrapping (codes "storing session") (
        store_session (record {
          token_hash = b.sha256_hex (hex_encode raw);
          user_id = user;
          expires_at = expiry now ttl;
        }))
    pure (hex_encode raw)

  unfoldable pub validate_session : Text → Exec Service User
  unfolding joined unexpired
  validate_session token = do
    row ← wrapping (codes "looking up session") (query (joined (b.sha256_hex token)))
    now ← gets (λ s. s.now)
    unexpired now row

  unfoldable pub delete_session : Text → Exec Service Unit
  delete_session token =
      wrapping (codes "deleting session")
        (exec (λ now db. record db { sessions = drop_session (b.sha256_hex token) db.sessions }))
