-- ===== src/HashDb/Keys.antt =====
-- The table's own order: one row for each hash, every hash normalized, every source allowed.
use nexguard.Prelude.{◌≡◌, ◌≢◌, inl, inr, true, List, [], ◌∷◌, arith}
use nexguard.Prelude.Text.{Text, text_eq_iff}
use nexguard.Exec.{Result-cases}
use nexguard.Store.{HashRow}
use nexguard.World.{World, Platform}
use nexguard.HashDb.Normalize.{LowerLaws, normalize_hash-normalize_hash}
use nexguard.HashDb.Defs.{
  Entry, put_row, delete_hash, source_allowed, row_of, normalize_hash, upsert_entry, upsert, remove,
}

-- No later row has this hash.
abbrev pub Fresh : Text → List HashRow → Type 0
Fresh k [] = Unit
Fresh k (r ∷ rows) = (r.hash ≢ k) × Fresh k rows

module _ (p : Platform) where
  abbrev pub IsWellFormed : List HashRow → Type 0
  IsWellFormed [] = Unit
  IsWellFormed (r ∷ rows) =
      (normalize_hash p r.hash ≡ r.hash)
      × (source_allowed r.source ≡ true)
      × Fresh r.hash rows
      × IsWellFormed rows

Fresh-put_row :
    (k : Text) (r : HashRow) (rows : List HashRow)
    → r.hash ≢ k
    → Fresh k rows
    → Fresh k (put_row r rows)
unfolding put_row
Fresh-put_row k r [] ne f = (ne, tt)
Fresh-put_row k r (x ∷ rows) ne f = ground (arith, Fresh-put_row k r rows ne f.1)

Fresh-delete_hash : (k j : Text) (rows : List HashRow) → Fresh k rows → Fresh k (delete_hash j rows)
unfolding delete_hash
Fresh-delete_hash k j [] f = tt
Fresh-delete_hash k j (x ∷ rows) f = ground (arith, Fresh-delete_hash k j rows f.1)

module _ (p : Platform) where
  put_row-IsWellFormed :
      (r : HashRow) (rows : List HashRow)
      → normalize_hash p r.hash ≡ r.hash
      → source_allowed r.source ≡ true
      → IsWellFormed p rows
      → IsWellFormed p (put_row r rows)
  unfolding put_row
  put_row-IsWellFormed r [] n s f = (n, s, tt, tt)
  put_row-IsWellFormed r (x ∷ rows) n s f = ground (
    arith,
    text_eq_iff x.hash r.hash,
    Fresh-put_row x.hash r rows,
    put_row-IsWellFormed r rows n s f.3,
  )

  delete_hash-IsWellFormed :
      (k : Text) (rows : List HashRow) → IsWellFormed p rows → IsWellFormed p (delete_hash k rows)
  unfolding delete_hash
  delete_hash-IsWellFormed k [] f = tt
  delete_hash-IsWellFormed k (x ∷ rows) f =
      ground (arith, Fresh-delete_hash x.hash k rows, delete_hash-IsWellFormed k rows f.3)

  upsert_entry-IsWellFormed :
      (laws : LowerLaws p) (e : Entry) (w : World)
      → IsWellFormed p w.db.hash_entries
      → IsWellFormed p (upsert_entry p e w).1.db.hash_entries
  unfolding upsert_entry
  upsert_entry-IsWellFormed laws e w f = ground (
    arith,
    normalize_hash-normalize_hash p laws e.hash,
    put_row-IsWellFormed (row_of p e) w.db.hash_entries,
  )

  -- If lowering a character twice is lowering it once and keeps spaces, then whatever entries come
  -- and whatever the database refuses, `Upsert` keeps one row for each hash, with every hash
  -- normalized and every source allowed.
  pub upsert-IsWellFormed :
      (laws : LowerLaws p) (es : List Entry) (w : World)
      → IsWellFormed p w.db.hash_entries
      → IsWellFormed p (upsert p es w).1.db.hash_entries
  unfolding upsert
  upsert-IsWellFormed laws [] w f = f
  upsert-IsWellFormed laws (e ∷ es) w f =
      let kept = upsert_entry-IsWellFormed laws e w f in
      elim (Result-cases (upsert_entry p e w).0) [
        | inl (tt, done) ↦ rw done (upsert-IsWellFormed laws es (upsert_entry p e w).1 kept)
        | inr (x, failed) ↦ rw failed kept
      ]

  -- So does `Remove`.
  pub remove-IsWellFormed :
      (hash : Text) (w : World)
      → IsWellFormed p w.db.hash_entries
      → IsWellFormed p (remove p hash w).1.db.hash_entries
  unfolding remove
  remove-IsWellFormed hash w f =
      ground (arith, delete_hash-IsWellFormed (normalize_hash p hash) w.db.hash_entries f)
