-- ===== src/HashDb/Defs.antt =====
-- internal/hashdb/hashdb.go: `normalizeHash`, `Upsert`, `Lookup`, `List` and `Remove`.
use mathlib.Core.Option
use nexguard.Prelude.{
  ℕ, Bool, false, ◌||◌, List, [], ◌∷◌, map, Option, none, some, if◌then◌else◌, order_by,
}
use nexguard.Prelude.Text.{Text, codes, text_eq, text_le, trim_space}
use nexguard.Exec.{refused, errorf, Exec, pure, raise, wrapping, ◌>>=◌, ◌>>◌}
use nexguard.Store.{HashRow, Db}
use nexguard.World.{World, Platform, call, query, exec}

pub record Entry : Type 0 where
  pub hash : Text
  pub name : Text
  pub source : Text
  pub added_at : ℕ

abbrev pub manual : Text
manual = codes "manual"

abbrev pub feed : Text
feed = codes "feed"

-- `SELECT ... FROM hash_entries WHERE hash = ?`
unfoldable pub find_hash : Text → List HashRow → Option HashRow
find_hash k [] = none
find_hash k (r ∷ rows) = if text_eq r.hash k then some r else find_hash k rows

-- `INSERT INTO hash_entries ... ON CONFLICT(hash) DO UPDATE SET ...`
unfoldable pub put_row : HashRow → List HashRow → List HashRow
put_row r [] = r ∷ []
put_row r (x ∷ rows) =
    let rest = put_row r rows in
    if text_eq x.hash r.hash
    then record x { name = r.name; source = r.source; added_at = r.added_at } ∷ rows
    else x ∷ rest

-- `DELETE FROM hash_entries WHERE hash = ?`
unfoldable pub delete_hash : Text → List HashRow → List HashRow
delete_hash k [] = []
delete_hash k (r ∷ rows) =
    let rest = delete_hash k rows in if text_eq r.hash k then rest else r ∷ rest

-- `CHECK (source IN ('manual','feed'))`
unfoldable pub source_allowed : Text → Bool
source_allowed s = text_eq s manual || text_eq s feed

unfoldable pub is_manual : Option HashRow → Bool
is_manual none = false
is_manual (some r) = text_eq r.source manual

abbrev with_entries : Db → List HashRow → Db
with_entries db rows = record db { hash_entries = rows }

module _ (p : Platform) where
  unfoldable pub normalize_hash : Text → Text
  normalize_hash hash = map p.lower (trim_space hash)

  -- The row that the INSERT of `Upsert` writes.
  abbrev pub row_of : Entry → HashRow
  row_of e = record {
    hash = normalize_hash e.hash;
    name = e.name;
    source = e.source;
    added_at = p.format_time e.added_at;
  }

  unfoldable pub store_entry : Entry → Exec World Unit
  unfolding source_allowed
  store_entry e =
      if source_allowed e.source
      then exec (λ db. with_entries db (put_row (row_of e) db.hash_entries))
      else do call; raise refused

  -- A feed entry does not replace a manual one; `none` from the query is `sql.ErrNoRows`.
  unfoldable pub upsert_feed : Entry → Exec World Unit
  unfolding store_entry is_manual
  upsert_feed e = do
    existing ←
        wrapping (codes "checking existing entry")
          (query (λ db. find_hash (normalize_hash e.hash) db.hash_entries))
    if is_manual existing then pure tt else wrapping (codes "upserting") (store_entry e)

  -- One round of the loop of `Upsert`.
  unfoldable pub upsert_entry : Entry → Exec World Unit
  unfolding upsert_feed
  upsert_entry e =
      if text_eq e.source feed then upsert_feed e else wrapping (codes "upserting") (store_entry e)

  unfoldable pub upsert : List Entry → Exec World Unit
  upsert [] = pure tt
  upsert (e ∷ es) = do upsert_entry e; upsert es

  -- `Scan` and `time.Parse` of one row.
  unfoldable pub entry_of : HashRow → Option Entry
  entry_of r =
      Option.map (λ t. record { hash = r.hash; name = r.name; source = r.source; added_at = t })
        (p.parse_time r.added_at)

  unfoldable pub parsed : Option Entry → Exec World (Option Entry)
  parsed none = raise (errorf (codes "parsing added_at"))
  parsed (some e) = pure (some e)

  unfoldable pub found : Option HashRow → Exec World (Option Entry)
  unfolding parsed entry_of
  found none = pure none
  found (some r) = parsed (entry_of r)

  unfoldable pub lookup : Text → Exec World (Option Entry)
  unfolding found
  lookup hash = do
    row ←
        wrapping (codes "looking up")
          (query (λ db. find_hash (normalize_hash hash) db.hash_entries))
    found row

  unfoldable pub entries_of : List HashRow → Exec World (List Entry)
  entries_of [] = pure []
  entries_of (r ∷ rows) =
      let rest = entries_of rows in
      elim (entry_of r) [
        | none ↦ raise (errorf (codes "parsing added_at"))
        | some e ↦ rest >>= λ es. pure (e ∷ es)
      ]

  -- `List`, with its `ORDER BY added_at`.
  unfoldable pub list : Exec World (List Entry)
  list = do
    rows ←
        wrapping (codes "listing entries")
          (query (λ db. order_by (λ a b. text_le a.added_at b.added_at) db.hash_entries))
    entries_of rows

  unfoldable pub remove : Text → Exec World Unit
  remove hash =
      wrapping (codes "removing")
        (exec (λ db. with_entries db (delete_hash (normalize_hash hash) db.hash_entries)))
