-- ===== src/Commands/Defs.antt =====
-- cmd/avtool/sync.go and cmd/avtool/hashes.go: `runSync`, and the commands `add`, `list` and `rm`.
use nexguard.Prelude.{
  ℕ, Bool, true, ◌&&◌, ◌||◌, ◌++◌, List, [], ◌∷◌, if◌then◌else◌, leb, ◌==◌, length,
}
use nexguard.Prelude.Text.{Text, codes, trim_space}
use nexguard.Prelude.Text.Decimal.{decimal}
use nexguard.Exec.{errorf, wrap, Exec, Result, ok, err, pure, raise, gets, wrapping, ◌>>=◌, ◌>>◌}
use nexguard.World.{World, Platform, print}
use nexguard.HashDb
use nexguard.HashDb.{Entry, manual, upsert}
use nexguard.Feed.{Response, fetch}

unfoldable pub is_hex : ℕ → Bool
is_hex c = leb b'0' c && leb c b'9' || leb b'a' c && leb c b'f' || leb b'A' c && leb c b'F'

unfoldable pub all_hex : Text → Bool
unfolding is_hex
all_hex [] = true
all_hex (c ∷ s) = is_hex c && all_hex s

-- `^[0-9a-fA-F]{64}$`
unfoldable pub is_sha256 : Text → Bool
unfolding all_hex
is_sha256 t = all_hex t && length t == 64

module _ (p : Platform) where
  unfoldable pub store_synced : Result (List Entry) → Exec World Unit
  store_synced (err e) = raise (wrap (codes "sync failed, existing hash database left untouched") e)
  store_synced (ok es) = do
    wrapping (codes "storing synced entries") (upsert p es)
    print (codes "synced " ++ (decimal (length es) ++ codes " entries"))

  unfoldable pub run_sync : Response → Exec World Unit
  unfolding store_synced
  run_sync response = do now ← gets (λ w. w.now); store_synced (fetch p now response)

  unfoldable pub add_entry : Text → Text → Exec World Unit
  add_entry hash name = do
    now ← gets (λ w. w.now)
    upsert p (record { hash = hash; name = name; source = manual; added_at = now } ∷ [])

  unfoldable pub hashes_add : Text → Text → Exec World Unit
  unfolding add_entry
  hashes_add arg name =
      if is_sha256 (trim_space arg)
      then add_entry (trim_space arg) name
      else raise (errorf (codes "invalid sha256 hash"))

  unfoldable pub hashes_rm : Text → Exec World Unit
  hashes_rm = HashDb.remove p

  unfoldable pub entry_line : Entry → Text
  entry_line e = e.hash ++ (9 ∷ e.name) ++ (9 ∷ e.source) ++ (9 ∷ p.format_time e.added_at)

  unfoldable pub print_entries : List Entry → Exec World Unit
  unfolding entry_line
  print_entries [] = pure tt
  print_entries (e ∷ es) = do print (entry_line e); print_entries es

  unfoldable pub hashes_list : Exec World Unit
  unfolding print_entries
  hashes_list = HashDb.list p >>= print_entries
