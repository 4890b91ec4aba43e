-- ===== src/Tests/HashDb.antt =====
-- Witnesses for the hash table.
use nexguard.Prelude.{ℕ, ◌≤◌, ◌≡◌, refl, [], ◌∷◌, some, take}
use nexguard.Prelude.Text.{codes, text_eq, trim_space}
use nexguard.Exec.{ok}
use nexguard.World.{World, works, fails}
use nexguard.HashDb.{Entry, find_hash, normalize_hash, upsert, source_allowed}
use nexguard.HashDb.Merge.{hash_map, merge_all, upsert-merge_all}
use nexguard.HashDb.Precedence.{upsert_keeps_manual}
use nexguard.HashDb.Keys.{IsWellFormed, upsert-IsWellFormed}
use nexguard.Tests.Sample.{sample, sample-LowerLaws, virus, virus_row, quiet, world_with}

abbrev from_feed : Entry
from_feed = record {
  hash = codes " ABC\n";
  name = codes "other";
  source = codes "feed";
  added_at = 8;
}

abbrev by_hand : Entry
by_hand = record { hash = codes "DEF"; name = codes "mine"; source = codes "manual"; added_at = 8 }

normalized : normalize_hash sample (codes " ABC\n") ≡ codes "abc"
unfolding normalize_hash trim_space
normalized = refl

quiet-IsWellFormed : IsWellFormed sample quiet.db.hash_entries
unfolding normalize_hash trim_space source_allowed text_eq
quiet-IsWellFormed = (refl, refl, tt, tt)

upsert-IsWellFormed_example :
    IsWellFormed sample (upsert sample (from_feed ∷ by_hand ∷ []) quiet).1.db.hash_entries
upsert-IsWellFormed_example =
    upsert-IsWellFormed sample sample-LowerLaws (from_feed ∷ by_hand ∷ []) quiet quiet-IsWellFormed

upsert_keeps_manual_example :
    find_hash virus (upsert sample (from_feed ∷ []) quiet).1.db.hash_entries ≡ some virus_row
unfolding find_hash text_eq
upsert_keeps_manual_example =
    upsert_keeps_manual sample (from_feed ∷ []) quiet virus virus_row (refl, tt) refl refl

-- The second call of the database fails.
abbrev failing : World
failing = world_with [] (works ∷ fails 0 ∷ [])

upsert-merge_all_example :
    (n : ℕ) × (n ≤ 2)
    × (hash_map (upsert sample (by_hand ∷ from_feed ∷ []) failing).1
        ≡ merge_all sample (take n (by_hand ∷ from_feed ∷ [])) (hash_map failing))
    × ((upsert sample (by_hand ∷ from_feed ∷ []) failing).0 ≡ ok tt → n ≡ 2)
upsert-merge_all_example = upsert-merge_all sample (by_hand ∷ from_feed ∷ []) failing
