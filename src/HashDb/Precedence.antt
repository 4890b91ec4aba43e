-- ===== src/HashDb/Precedence.antt =====
-- Entries that a person added are not lost to the feed.
use nexguard.Prelude.{◌≡◌, some, List, [], ◌∷◌, arith, All, inl, inr}
use nexguard.Prelude.Text.{Text, text_eq_iff}
use nexguard.Exec.{Result-cases}
use nexguard.Store.{HashRow}
use nexguard.World.{World, Platform}
use nexguard.HashDb.Defs.{
  Entry, manual, feed, find_hash, row_of, normalize_hash, upsert_entry, upsert,
}
use nexguard.HashDb.Rows.{find_hash-put_row}

module _ (p : Platform) where
  upsert_entry_keeps_manual :
      (e : Entry) (w : World) (k : Text) (r : HashRow)
      → e.source ≡ feed
      → find_hash k w.db.hash_entries ≡ some r
      → r.source ≡ manual
      → find_hash k (upsert_entry p e w).1.db.hash_entries ≡ some r
  unfolding upsert_entry
  upsert_entry_keeps_manual e w k r from_feed there by_hand = ground (
    arith,
    find_hash-put_row k (row_of p e) w.db.hash_entries,
    text_eq_iff (normalize_hash p e.hash) k,
    text_eq_iff e.source feed,
    text_eq_iff r.source manual,
  )

  -- Whatever entries come from the feed, and wherever the database fails on the way, a manual
  -- row stays as it was.
  pub upsert_keeps_manual :
      (es : List Entry) (w : World) (k : Text) (r : HashRow)
      → All (λ e. e.source ≡ feed) es
      → find_hash k w.db.hash_entries ≡ some r
      → r.source ≡ manual
      → find_hash k (upsert p es w).1.db.hash_entries ≡ some r
  unfolding upsert
  upsert_keeps_manual [] w k r from_feed there by_hand = there
  upsert_keeps_manual (e ∷ es) w k r from_feed there by_hand =
      let kept = upsert_entry_keeps_manual e w k r from_feed.0 there by_hand in
      elim (Result-cases (upsert_entry p e w).0) [
        | inl (tt, done) ↦
            rw done (upsert_keeps_manual es (upsert_entry p e w).1 k r from_feed.1 kept by_hand)
        | inr (x, failed) ↦ rw failed kept
      ]
