-- ===== src/HashDb/Rows.antt =====
-- How the statements on `hash_entries` act on what a later SELECT finds.
use nexguard.Prelude.{◌≡◌, refl, none, some, List, [], ◌∷◌, arith, if◌then◌else◌}
use nexguard.Prelude.Text.{Text, text_eq, text_eq_iff}
use nexguard.Store.{HashRow}
use nexguard.HashDb.Defs.{find_hash, put_row, delete_hash}

-- The row that an upsert leaves under its key is the row that was given.
pub find_hash-put_row :
    (k : Text) (r : HashRow) (rows : List HashRow)
    → find_hash k (put_row r rows) ≡ (if text_eq r.hash k then some r else find_hash k rows)
unfolding find_hash put_row
find_hash-put_row k r [] = refl
find_hash-put_row k r (x ∷ rows) = ground (
  arith,
  find_hash-put_row k r rows,
  text_eq_iff r.hash k,
  text_eq_iff x.hash k,
  text_eq_iff x.hash r.hash,
)

pub find_hash-delete_hash :
    (k j : Text) (rows : List HashRow)
    → find_hash j (delete_hash k rows) ≡ (if text_eq k j then none else find_hash j rows)
unfolding find_hash delete_hash
find_hash-delete_hash k j [] = ground arith
find_hash-delete_hash k j (x ∷ rows) = ground (
  arith,
  find_hash-delete_hash k j rows,
  text_eq_iff k j,
  text_eq_iff x.hash k,
  text_eq_iff x.hash j,
)

-- A row that is found is stored under the key that was asked for.
pub find_hash_key :
    (k : Text) (rows : List HashRow) (r : HashRow) → find_hash k rows ≡ some r → r.hash ≡ k
unfolding find_hash
find_hash_key k [] r h = ground arith
find_hash_key k (x ∷ rows) r h = ground (arith, find_hash_key k rows r, text_eq_iff x.hash k)
