-- ===== src/Web/License/Defs.antt =====
-- internal/web/license/license.go: `Generate`, `Validate`, `Revoke` and `RevokeAllForUser`.
use nexguard.Prelude.{
  ℕ, suc, ◌-◌, Bool, true, false, ◌&&◌, List, [], ◌∷◌, ◌++◌, map, Option, none, some, if◌then◌else◌,
  ◌==◌, leb,
}
use nexguard.Prelude.Text.{Text, codes}
use nexguard.Exec.{refused, Exec, ok, pure, raise, wrapping, ◌>>=◌, ◌>>◌}
use nexguard.Web.World.{
  LicenseRow, Tables, Service, Backend, call, query, exec, rand_read, hex_encode,
}

-- `strings.ToUpper` on hexadecimal digits
unfoldable pub upper_digit : ℕ → ℕ
upper_digit c = if leb 97 c && leb c 122 then c - 32 else c

-- One group of a key: two random bytes in upper case.
unfoldable pub group_of : List ℕ → Text
unfolding upper_digit hex_encode
group_of bytes = map upper_digit (hex_encode bytes)

unfoldable pub key_of : List ℕ → List ℕ → List ℕ → List ℕ → Text
unfolding group_of
key_of a b c d =
    codes "AVTOOL-"
    ++ (group_of a ++ b'-' ∷ (group_of b ++ b'-' ∷ (group_of c ++ b'-' ∷ group_of d)))

abbrev pub is_active : LicenseRow → Bool
is_active r = elim r.revoked_at [ none ↦ true | some t ↦ false ]

-- `INSERT INTO licenses (user_id, key_hash) VALUES (?, ?)`
unfoldable pub insert_license : ℕ → Text → Tables → Tables
insert_license user hash db = record db {
  licenses =
      db.licenses
      ++ record { id = suc db.last_license; user_id = user; key_hash = hash; revoked_at = none }
        ∷ [];
  last_license = suc db.last_license;
}

-- `UPDATE licenses SET revoked_at = NOW() WHERE user_id = ? AND revoked_at IS NULL`
unfoldable pub revoke_user : ℕ → ℕ → List LicenseRow → List LicenseRow
revoke_user user now [] = []
revoke_user user now (r ∷ rows) =
    (if r.user_id == user && is_active r then record r { revoked_at = some now } else r)
    ∷ revoke_user user now rows

unfoldable pub revoke_all_for_user : ℕ → Exec Service Unit
revoke_all_for_user user =
    wrapping (codes "revoking licenses for user")
      (exec (λ now db. record db { licenses = revoke_user user now db.licenses }))

unfoldable pub is_taken : Option LicenseRow → Bool
is_taken none = false
is_taken (some r) = true

-- The user whom a key belongs to, if it is valid.
unfoldable pub verdict : Option LicenseRow → Option ℕ
verdict none = none
verdict (some r) = if is_active r then some r.user_id else none

-- `b := make([]byte, 2); rand.Read(b)`
unfoldable pub fresh_group : Exec Service (List ℕ)
fresh_group = wrapping (codes "generating license key") (rand_read 2)

unfoldable pub fresh_key : Exec Service Text
unfolding fresh_group key_of
fresh_key = do
  g1 ← fresh_group
  g2 ← fresh_group
  g3 ← fresh_group
  g4 ← fresh_group
  pure (key_of g1 g2 g3 g4)

module _ (b : Backend) where
  -- `... WHERE key_hash = ?`
  unfoldable pub find_license : Text → List LicenseRow → Option LicenseRow
  find_license hash [] = none
  find_license hash (r ∷ rows) =
      if b.same_text r.key_hash hash then some r else find_license hash rows

  -- `UPDATE licenses SET revoked_at = NOW() WHERE key_hash = ?`
  unfoldable pub revoke_key : Text → ℕ → List LicenseRow → List LicenseRow
  revoke_key hash now [] = []
  revoke_key hash now (r ∷ rows) =
      (if b.same_text r.key_hash hash then record r { revoked_at = some now } else r)
      ∷ revoke_key hash now rows

  -- The column `key_hash` is UNIQUE.
  unfoldable pub store_license : ℕ → Text → Exec Service Unit
  unfolding is_taken
  store_license user hash = do
    taken ← λ s. (ok (is_taken (find_license hash s.db.licenses)), s)
    if taken then (do call; raise refused) else exec (λ now. insert_license user hash)

  unfoldable pub generate : ℕ → Exec Service Text
  unfolding store_license fresh_key
  generate user = do
    key ← fresh_key
    wrapping (codes "storing license") (store_license user (b.sha256_hex key))
    pure key

  unfoldable pub validate : Text → Exec Service (Option ℕ)
  unfolding verdict
  validate key = do
    row ←
        wrapping (codes "looking up license")
          (query (λ db. find_license (b.sha256_hex key) db.licenses))
    pure (verdict row)

  unfoldable pub revoke : Text → Exec Service Unit
  revoke key =
      wrapping (codes "revoking license")
        (exec (λ now db. record db { licenses = revoke_key (b.sha256_hex key) now db.licenses }))
