-- ===== src/Commands/Sync.antt =====
-- What a sync (cmd/avtool/sync.go over internal/feed/feed.go) can do to the hash database.
use nexguard.Prelude.{ℕ, ◌≡◌, ◌≢◌, List, [], ◌∷◌, some, arith, All}
use nexguard.Prelude.Text.{Text}
use nexguard.Exec.{Error, Result, ok, err}
use nexguard.Store.{HashRow}
use nexguard.World.{World, Platform}
use nexguard.HashDb.{Entry, feed, manual, find_hash}
use nexguard.HashDb.Precedence.{upsert_keeps_manual}
use nexguard.Feed.{
  Row, fields, malformed, Response, unreachable, answered, row_entry, with_entry, parse, fetch,
}
use nexguard.Commands.Defs.{store_synced, run_sync}

abbrev FromFeed : Result (List Entry) → Type 0
FromFeed (ok es) = All (λ e. e.source ≡ feed) es
FromFeed (err x) = Unit

module _ (p : Platform) where
  with_entry-FromFeed :
      (now : ℕ) (row : List Text) (r : Result (List Entry))
      → FromFeed r
      → FromFeed (with_entry (row_entry p now row) r)
  unfolding with_entry row_entry
  with_entry-FromFeed now row (ok es) h = ground arith
  with_entry-FromFeed now row (err x) h = ground arith

  parse-FromFeed : (now : ℕ) (rows : List Row) → FromFeed (parse p now rows)
  unfolding parse
  parse-FromFeed now [] = tt
  parse-FromFeed now (malformed ∷ rows) = tt
  parse-FromFeed now (fields row ∷ rows) =
      with_entry-FromFeed now row (parse p now rows) (parse-FromFeed now rows)

  fetch-FromFeed : (now : ℕ) (response : Response) → FromFeed (fetch p now response)
  unfolding fetch
  fetch-FromFeed now unreachable = tt
  fetch-FromFeed now (answered status rows) = ground (arith, parse-FromFeed now rows)

  store_synced_keeps_manual :
      (r : Result (List Entry)) (w : World) (k : Text) (row : HashRow)
      → FromFeed r
      → find_hash k w.db.hash_entries ≡ some row
      → row.source ≡ manual
      → find_hash k (store_synced p r w).1.db.hash_entries ≡ some row
  unfolding store_synced
  store_synced_keeps_manual (err e) w k row from_feed there by_hand = there
  store_synced_keeps_manual (ok es) w k row from_feed there by_hand =
      ground (arith, upsert_keeps_manual p es w k row from_feed there by_hand)

  -- Whatever the feed answers and wherever the database fails, a sync leaves every hash that was
  -- added by hand as it was.
  pub run_sync_keeps_manual :
      (response : Response) (w : World) (k : Text) (row : HashRow)
      → find_hash k w.db.hash_entries ≡ some row
      → row.source ≡ manual
      → find_hash k (run_sync p response w).1.db.hash_entries ≡ some row
  unfolding run_sync
  run_sync_keeps_manual response w k row there by_hand =
      store_synced_keeps_manual (fetch p w.now response) w k row (fetch-FromFeed w.now response)
        there by_hand

  -- If the feed cannot be fetched or a row of it is malformed, a sync returns an error and changes
  -- nothing.
  run_sync_untouched :
      (response : Response) (w : World) (e : Error)
      → fetch p w.now response ≡ err e
      → ((run_sync p response w).0 ≢ ok tt) × ((run_sync p response w).1 ≡ w)
  unfolding run_sync
  run_sync_untouched response w e failed = ground arith
